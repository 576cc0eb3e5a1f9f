-- ===== src/Examples/Transmissions.antt =====
-- The theorems on the client's uploads, applied: a file of three bytes in chunks of two, encrypted by
-- a cipher that hides nothing, and keys that are printed in unary.
use Prim.Native.Char.{Char, code}
use constelfs.Prelude.{
  ℕ, zero, suc, ◌+◌, ◌==◌, String, true, false, List, [], ◌∷◌, ◌++◌, map, Option, some, pos, inr,
  ◌≡◌, refl, ap, ◌∙◌, arith, length, drop, str_eq, drop-append_length, if◌then◌else◌,
}
use constelfs.Prelude.Text.Urls.{is_url}
use constelfs.Server.Content.{answered}
use constelfs.Server.Encryption.{Crypto}
use constelfs.Server.Encryption.Roundtrip.{IsCipher}
use constelfs.Client.Chunker.{rounds_up}
use constelfs.Client.Downloader.{Source, replied, lost}
use constelfs.Client.Uploader.{
  Call, Peer, create, upload_id, upload_key, generate_key, upload_rounds, read_piece, upload_data,
  encrypt_data, upload_chunk, after_write, upload_to_nodes, upload_to_node, create_version,
  LocalFile, ChunkUploader, UploadResult, WriteAnswer, decoded, opened, upload, save_encryption_key,
}
use constelfs.Client.Uploader.Calls.{version_request, Sending, id_of, Stores}
use constelfs.Client.Uploader.Progress.{IsWilling, upload-ends}
use constelfs.Client.Uploader.Rounds.{open_all}
use constelfs.Client.Roundtrip.{upload-Stores}
use constelfs.Examples.Data.{version_of}

-- Texts in unary: `a` counts, `b` ends a number.
letter_a : Char
letter_a = "a"

letter_b : Char
letter_b = "b"

count : ℕ → String → String
count zero rest = String.◌∷◌ letter_b rest
count (suc n) rest = String.◌∷◌ letter_a (count n rest)

pub print : List ℕ → String
print [] = String.[]
print (n ∷ ns) = count n (print ns)

pub scan : ℕ → String → List ℕ
scan k String.[] = []
scan k (String.◌∷◌ c s) =
    let next = scan 0 s in let more = scan (suc k) s in if code c == b'b' then k ∷ next else more

scan-count : (k n : ℕ) (rest : String) → scan k (count n rest) ≡ (k + n) ∷ scan 0 rest
unfolding scan count letter_a letter_b
scan-count k zero rest = ap (λ m. m ∷ scan 0 rest) (omega arith)
scan-count k (suc n) rest = scan-count (suc k) n rest ∙ ap (λ m. m ∷ scan 0 rest) (omega arith)

scan-print : (ns : List ℕ) → scan 0 (print ns) ≡ ns
unfolding print scan
scan-print [] = refl
scan-print (n ∷ ns) =
    let same : 0 + n ≡ n = omega arith in
    scan-count 0 n (print ns)
    ∙ ap (λ m. m ∷ scan 0 (print ns)) same
    ∙ ap (λ ms. n ∷ ms) (scan-print ns)

abbrev pub unary : Crypto String
unary = record {
  encode = print;
  decode = λ text. some (scan 0 text);
  to_bytes = λ text. [];
  of_bytes = λ bytes. "";
  seal = λ key iv bytes. key ++ bytes;
  open_sealed = λ key iv bytes. some (drop (length key) bytes);
}

unary-IsCipher : IsCipher unary
unary-IsCipher = record {
  decode-encode = λ bytes. ap some (scan-print bytes);
  open_sealed-seal = λ key iv bytes k n. ap some (drop-append_length key bytes);
}

abbrev repeat : ℕ → ℕ → List ℕ
repeat zero x = []
repeat (suc n) x = x ∷ repeat n x

-- Every write is granted on one node, and every call succeeds.
abbrev grant : WriteAnswer
grant = record {
  success = true;
  chunk_id = "c";
  chunk_ids = "c" ∷ [];
  nodes = "n" ∷ [];
  node_addrs = "10.0.0.1:9000" ∷ [];
  error = "";
}

abbrev willing : Peer
willing = record {
  on_write = λ calls. decoded grant;
  on_put = λ calls. answered 200;
  on_confirm = λ calls. decoded true;
  on_create = λ calls. decoded (true, "");
  on_key = λ calls. answered 200;
}

abbrev no_hash : List ℕ → String
no_hash bytes = ""

abbrev notes : LocalFile
notes = record {
  base = "notes";
  path = "/home/notes";
  size = 3;
  mod_time = 7;
  content = 10 ∷ 20 ∷ 30 ∷ [];
  unreadable = λ i. false;
}

abbrev small : ChunkUploader
small = record { chunk_size = 2; encrypt = true }

abbrev secret : List ℕ
secret = repeat 32 7

abbrev random : Option (List ℕ)
random = some secret

abbrev nonces : ℕ → Option (List ℕ)
nonces i = some (repeat 12 1)

abbrev done : UploadResult
done = record {
  file_id = upload_id willing unary no_hash small notes;
  chunks = "c" ∷ "c" ∷ [];
  encryption_key = print secret;
}

uploads : (upload willing unary no_hash small (opened notes) random nonces (pos 1)).1 ≡ inr done
unfolding upload upload_key generate_key rounds_up upload_rounds read_piece upload_data encrypt_data
    upload_chunk after_write upload_to_nodes upload_to_node create_version save_encryption_key print
    count scan letter_a letter_b is_url
uploads = refl

upload-Stores_example :
    let r = upload willing unary no_hash small (opened notes) random nonces (pos 1) in
    (xs : List Sending) × (stored : List Call) × (hash : String) × (Stores willing done.file_id
        (pos 1)
        []
        0
        xs
        stored
      × (done.chunks ≡ map id_of xs)
      × (r.0
          ≡ save_encryption_key willing
              (stored ++ (create (version_request notes done.file_id hash done.chunks) ∷ []))
              done.file_id
              done.encryption_key)
      × (open_all unary done.encryption_key xs ≡ some notes.content))
upload-Stores_example =
    upload-Stores willing unary-IsCipher no_hash small notes random nonces (pos 1) done refl
      (omega arith) (omega arith) (omega arith) (λ b e. cc (e)) (λ i n e. cc (e)) uploads

abbrev chunk_bytes : String → List ℕ
chunk_bytes id = if str_eq id "c" then 10 ∷ 20 ∷ [] else 30 ∷ []

-- The first replica of each chunk has no address.
abbrev pub serving : Source
serving = record {
  file = λ time id. replied 200 (some (version_of 1 ("c" ∷ "d" ∷ []) ∷ []));
  key = λ id. lost;
  status = λ id. replied 200 (some ("m" ∷ "n" ∷ []));
  node = λ id. if str_eq id "n" then replied 200 (some ("10.0.0.1", pos 9000)) else lost;
  chunk = λ addr id. replied 200 (some (chunk_bytes id));
}

willing-IsWilling : IsWilling willing
unfolding is_url
willing-IsWilling = record {
  grants = λ calls. (grant, (refl, refl, refl));
  takes = λ calls. refl;
  confirms = λ calls. refl;
  creates = λ calls. ("", refl);
}

upload-ends_example :
    (r : UploadResult) × ((upload willing unary no_hash small
        (opened notes)
        random
        nonces
        (pos 1)).1
      ≡ inr r)
upload-ends_example =
    upload-ends willing willing-IsWilling unary-IsCipher no_hash small notes secret
      (λ i. repeat 12 1) (pos 1) (λ i. refl) refl
