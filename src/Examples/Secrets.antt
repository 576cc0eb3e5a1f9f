-- ===== src/Examples/Secrets.antt =====
-- The theorem on the keys of files, applied to a database in memory.
use constelfs.Prelude.{true, none, some, ◌≡◌, refl, str_eq, if◌then◌else◌}
use constelfs.Prelude.Text.{trim_prefix, split}
use constelfs.Prelude.Text.Names.{has_char}
use constelfs.Server.State.{success}
use constelfs.Server.Nodes.{get, post}
use constelfs.Server.Keys.{key_reply, save_encryption_key, dispatch_encryption, handle_encryption}
use constelfs.Server.Keys.Kept.{key-kept, key_path}
use constelfs.Examples.Memory.{memory, memory-IsBolt, no_buckets}

-- The answer to the POST.
saved :
    (handle_encryption memory true true no_buckets post
      (some ("f", "secret"))
      "/api/v1/encryption/key").1
    ≡ success
unfolding handle_encryption dispatch_encryption save_encryption_key trim_prefix split
saved = refl

key-kept_example :
    let (db, answer) =
      handle_encryption memory true true no_buckets post
        (some ("f", "secret"))
        "/api/v1/encryption/key" in
    handle_encryption memory true true db get none (key_path "f") ≡ (
      db,
      if str_eq "f" "f"
          then key_reply memory "secret"
          else (handle_encryption memory true true no_buckets get none (key_path "f")).1,
    )
unfolding has_char
key-kept_example = key-kept memory memory-IsBolt no_buckets "f" "secret" "f" refl saved
