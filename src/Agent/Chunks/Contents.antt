-- ===== src/Agent/Chunks/Contents.antt =====
-- What a node's disk holds (internal/node/chunk_handler.go), told from the requests and the replies.
use constelfs.Prelude.{
  ℕ, String, not, ◌&&◌, ◌||◌, Bool, true, All, List, [], ◌∷◌, Option, none, some, lookup, ◌≡◌, refl,
  ap, ◌∙◌, arith, str_eq, lookup-insert, lookup-remove, Option-cases, if◌then◌else◌, Bool-cases,
  inl, inr,
}
use constelfs.Prelude.Text.{trim_prefix}
use constelfs.Server.Nodes.{Method, get, post, put, delete, other}
use constelfs.Prelude.Text.Names.{has_char, has_char-concat, has_char-differs}
use constelfs.Agent.Chunks.Places.{Disk, is_name, join, file_at, join-chunks, join-temp}
use constelfs.Agent.Chunks.{
  temp_name, Reply, saved, deleted, Faults, handle_upload, handle_download, handle_delete,
  handle_chunk, by_method,
}

-- A request to the chunk routes, with what fails during it.
pub record Call : Type 0 where
  pub faults : Faults
  pub method : Method
  pub url : String
  pub query : String
  pub body : Option (List ℕ)

-- The chunk that a request is about: the path's, or the query's for the old routes.
unfoldable pub chunk_of : Call → String
chunk_of c =
    let path = trim_prefix c.url "/api/v1/chunks/" in
    if str_eq path "upload"
    then c.query
    else if str_eq path "download"
    then c.query
    else if str_eq path "delete"
    then c.query
    else path

-- What a client that sees the reply takes a chunk to be afterwards: the body, if it is saved; nothing, if it
-- is deleted; else what it was.
unfoldable pub told : String → Option (List ℕ) → Reply → String → Option (List ℕ) → Option (List ℕ)
told key body (saved hash size) id before = if str_eq key id then body else before
told key body deleted id before = if str_eq key id then none else before
told key body _ id before = before

-- A name that a request can have: none, or the name of a file.
abbrev pub is_key : String → Bool
is_key id = str_eq id "" || is_name id

pub temp_name-is_name : (id : String) → is_name id ≡ true → is_name (temp_name id) ≡ true
unfolding has_char
temp_name-is_name id h =
    let has : has_char b't' (temp_name id) ≡ true =
      ground (arith, has_char-concat b't' id ".tmp") in
    ground (
      arith,
      h,
      has_char-concat b'/' id ".tmp",
      has_char-differs b't' (temp_name id) "" has refl,
      has_char-differs b't' (temp_name id) "." has refl,
      has_char-differs b't' (temp_name id) ".." has refl,
    )

module _ (sha256 : List ℕ → String) (root : List String) where
  unfoldable pub exchange : Disk → Call → Disk × Reply
  exchange d c = handle_chunk sha256 root c.faults d c.method c.url c.query c.body

  -- The disk after the calls.
  unfoldable pub serve : Disk → List Call → Disk
  unfolding exchange
  serve d [] = d
  serve d (c ∷ cs) = serve (exchange d c).0 cs

  -- What the replies to the calls tell of a chunk that was `before` at first.
  unfoldable pub told_all : String → Disk → List Call → Option (List ℕ) → Option (List ℕ)
  unfolding told exchange
  told_all id d [] before = before
  told_all id d (c ∷ cs) before =
      told_all id (exchange d c).0 cs (told (chunk_of c) c.body (exchange d c).1 id before)

  Tells : Disk → String → Option (List ℕ) → Disk × Reply → Type 0
  Tells d key body r =
      (id : String) → lookup id r.0.chunks ≡ told key body r.1 id (lookup id d.chunks)

  handle_upload-Tells :
      (faults : Faults) (d : Disk) (key : String) (body : Option (List ℕ))
      → is_key key ≡ true
      → Tells d key body (handle_upload sha256 root faults d key body)
  unfolding Tells handle_upload told
  handle_upload-Tells faults d key none h id = ground arith
  handle_upload-Tells faults d key (some bytes) h id = elim (Bool-cases (str_eq key "")) [
    | inl e ↦ rw e refl
    | inr e ↦
        let name : is_name key ≡ true = ground (arith, h, e) in
        rw (join-chunks root key name, join-temp root (temp_name key) (temp_name-is_name key name))
          (ground (arith, e, lookup-insert key id bytes d.chunks))
  ]

  handle_delete-Tells :
      (faults : Faults) (d : Disk) (key : String) (body : Option (List ℕ))
      → is_key key ≡ true
      → Tells d key body (handle_delete sha256 root faults d key)
  unfolding Tells handle_delete told
  handle_delete-Tells faults d key body h id = elim (Bool-cases (str_eq key "")) [
    | inl e ↦ rw e refl
    | inr e ↦
        let name : is_name key ≡ true = ground (arith, h, e) in
        elim (Option-cases (lookup key d.chunks)) [
          | inl o ↦ rw (e, join-chunks root key name) (rw o (ground arith))
          | inr (bytes, o) ↦
              rw (e, join-chunks root key name)
                (rw (o, join-chunks root key name) (ground (arith, lookup-remove key id d.chunks)))
        ]
  ]

  handle_download-Tells :
      (faults : Faults) (d : Disk) (key : String) (body : Option (List ℕ))
      → Tells d key body (d, handle_download sha256 root faults d key)
  unfolding Tells handle_download told
  handle_download-Tells faults d key body id = ground (arith, file_at d (join root "chunks" key))

  by_method-Tells :
      (faults : Faults) (d : Disk) (m : Method) (key : String) (body : Option (List ℕ))
      → is_key key ≡ true
      → Tells d key body (by_method sha256 root faults d m key body)
  unfolding Tells told
  by_method-Tells faults d get key body h = handle_download-Tells faults d key body
  by_method-Tells faults d put key body h = handle_upload-Tells faults d key body h
  by_method-Tells faults d delete key body h = handle_delete-Tells faults d key body h
  by_method-Tells faults d post key body h = λ id. refl
  by_method-Tells faults d other key body h = λ id. refl

  exchange-Tells :
      (d : Disk) (c : Call)
      → is_key (chunk_of c) ≡ true
      → Tells d (chunk_of c) c.body (exchange d c)
  unfolding exchange handle_chunk chunk_of Tells told
  exchange-Tells d c h id =
      let path = trim_prefix c.url "/api/v1/chunks/" in
      elim (Bool-cases (str_eq path "upload")) [
        | inl e ↦ rw e (handle_upload-Tells c.faults d c.query c.body (rw e at h) id)
        | inr e ↦ elim (Bool-cases (str_eq path "download")) [
          | inl f ↦ rw (e, f) (handle_download-Tells c.faults d c.query c.body id)
          | inr f ↦ elim (Bool-cases (str_eq path "delete")) [
            | inl g ↦
                rw (e, f, g) (handle_delete-Tells c.faults d c.query c.body (rw (e, f, g) at h) id)
            | inr g ↦ elim (Bool-cases (not (str_eq path "") && not (str_eq path "/"))) [
              | inl k ↦
                  rw (e, f, g, k)
                    (by_method-Tells c.faults d c.method path c.body (rw (e, f, g) at h) id)
              | inr k ↦ rw (e, f, g, k) refl
            ]
          ]
        ]
      ]

  -- Whatever requests come for chunks whose names are names of files, without slashes, and whichever system calls fail,
  -- the disk holds of every chunk what the replies tell: the body of the last upload that was answered as saved, unless
  -- a deletion was answered since.
  pub serve-told_all :
      (d : Disk) (cs : List Call) (id : String)
      → All (λ c. is_key (chunk_of c) ≡ true) cs
      → lookup id (serve d cs).chunks ≡ told_all id d cs (lookup id d.chunks)
  unfolding serve told_all Tells
  serve-told_all d [] id named = refl
  serve-told_all d (c ∷ cs) id named =
      serve-told_all (exchange d c).0 cs id named.1
      ∙ ap (told_all id (exchange d c).0 cs) (exchange-Tells d c named.0 id)
