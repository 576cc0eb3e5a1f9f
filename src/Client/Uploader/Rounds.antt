-- ===== src/Client/Uploader/Rounds.antt =====
-- The rounds of an upload that succeeds (internal/client/uploader.go): what they sent, opened again, is the file.
use constelfs.Prelude.{
  ℕ, zero, suc, ◌+◌, ◌*◌, ◌-◌, ◌<◌, ◌≤◌, ◌^◌, String, List, [], ◌∷◌, ◌++◌, map, Option, none, some,
  ℤ, inl, inr, ◌⊎◌, ◌≡◌, refl, sym, ap, ◌∙◌, arith, length, take, drop, take_all, take-add,
  drop-add, length-take, length-drop, Bool-cases, Option-cases, ltb,
}
use mathlib.Core.List.{append-nil}
use mathlib.Core.Path.{subst₂}
use constelfs.Server.Encryption.{Crypto}
use constelfs.Client.Chunker.{rounds_up}
use constelfs.Client.Chunker.Pieces.{rounds_up-exact, ceil_bounds}
use constelfs.Client.Downloader.{open_chunk}
use constelfs.Client.Uploader.{
  Call, Peer, LocalFile, ChunkUploader, ChunkError, UploadError, read_failed, encrypt_failed,
  read_piece, zeros, upload_data, upload_chunk, with_chunk, after_chunk, upload_rounds,
}
use constelfs.Client.Uploader.Calls.{Sending, id_of, Stores, upload_chunk-IsStored}

-- What the chunks are decrypted to, one after another.
unfoldable pub open_all : Crypto String → String → List Sending → Option (List ℕ)
open_all crypto key [] = some []
open_all crypto key (x ∷ xs) = elim (open_chunk crypto key x.bytes) [
  | none ↦ none
  | some piece ↦ elim (open_all crypto key xs) [ none ↦ none | some more ↦ some (piece ++ more) ]
]

-- What the rounds read.
unfoldable pub pieces : ChunkUploader → LocalFile → ℕ → ℕ → List ℕ
pieces u file zero i = []
pieces u file (suc left) i = read_piece u file i ++ pieces u file left (suc i)

no_padding :
    (m : ℕ) (xs : List ℕ)
    → length (take m xs) ≡ m
    → take m xs ++ zeros (m - length (take m xs)) ≡ take m xs
no_padding m xs h =
    let none_left : m - length (take m xs) ≡ 0 = omega (arith, h) in
    rw none_left (append-nil (take m xs))

read_piece_lem :
    (u : ChunkUploader) (file : LocalFile) (i : ℕ)
    → length file.content ≡ file.size
    → read_piece u file i ≡ take u.chunk_size (drop (i * u.chunk_size) file.content)
unfolding read_piece
read_piece_lem u file i h =
    let c = u.chunk_size in
    let offset = i * c in
    let there = drop offset file.content in
    let long : length there ≡ file.size - offset =
      omega (arith, length-drop offset file.content, h) in
    elim (Bool-cases (ltb file.size (offset + c))) [
      | inl e ↦
          let m = file.size - offset in
          rw e (
            no_padding m there (omega (arith, length-take m there, long))
            ∙ take_all m there (omega (arith, long))
            ∙ sym (take_all c there (ground (arith, long, e))))
      | inr e ↦ rw e (no_padding c there (ground (arith, length-take c there, long, e)))
    ]

pieces_lem :
    (u : ChunkUploader) (file : LocalFile) (left i : ℕ)
    → length file.content ≡ file.size
    → pieces u file left i ≡ take (left * u.chunk_size) (drop (i * u.chunk_size) file.content)
unfolding pieces
pieces_lem u file zero i h =
    let none_read : 0 ≡ 0 * u.chunk_size = omega arith in
    ap (λ k. take k (drop (i * u.chunk_size) file.content)) none_read
pieces_lem u file (suc left) i h =
    let c = u.chunk_size in
    let there = drop (i * c) file.content in
    let next : i * c + c ≡ suc i * c = omega arith in
    let shifted : drop c there ≡ drop (suc i * c) file.content =
      drop-add (i * c) c file.content ∙ ap (λ k. drop k file.content) next in
    let size : c + left * c ≡ suc left * c = omega arith in
    rw (read_piece_lem u file i h, pieces_lem u file left (suc i) h)
      (ap (λ xs. take c there ++ take (left * c) xs) (sym shifted)
        ∙ sym (take-add c (left * c) there)
        ∙ ap (λ k. take k there) size)

module _ (peer : Peer) (crypto : Crypto String) (sha256 : List ℕ → String) (u : ChunkUploader) where
  with_chunk-inr :
      (r : List Call × (UploadError ⊎ (List String × String))) (id : String) (ids : List String)
      (hash : String)
      → (with_chunk peer crypto sha256 u r id).1 ≡ inr (ids, hash)
      → (ids' : List String) × ((r.1 ≡ inr (ids', hash))
          × (ids ≡ id ∷ ids')
          × ((with_chunk peer crypto sha256 u r id).0 ≡ r.0))
  with_chunk-inr (calls, inl e) id ids hash h = absurd (cc (h))
  with_chunk-inr (calls, inr (ids', hash')) id ids hash h = (ids', (cc (h), cc (h), refl))

  after_chunk-inr :
      (i : ℕ) (r : List Call × (ChunkError ⊎ String))
      (next : List Call → List Call × (UploadError ⊎ (List String × String))) (ids : List String)
      (hash : String)
      → (after_chunk peer crypto sha256 u i r next).1 ≡ inr (ids, hash)
      → (id : String) × (ids' : List String) × ((r.1 ≡ inr id)
          × ((next r.0).1 ≡ inr (ids', hash))
          × (ids ≡ id ∷ ids')
          × ((after_chunk peer crypto sha256 u i r next).0 ≡ (next r.0).0))
  after_chunk-inr i (calls, inl e) next ids hash h = absurd (cc (h))
  after_chunk-inr i (calls, inr id) next ids hash h =
      let (ids', (rest, same, sent)) = with_chunk-inr (next calls) id ids hash h in
      (id, ids', (refl, rest, same, sent))

  -- What the pieces of an upload with this key are sent as is opened to them.
  abbrev pub AreOpened : String → (ℕ → Option (List ℕ)) → Type 0
  AreOpened key nonces =
      (i : ℕ) (piece bytes : List ℕ)
      → upload_data crypto u.encrypt key (nonces i) piece ≡ some bytes
      → open_chunk crypto key bytes ≡ some piece

  open_all-step :
      (key : String) (x : Sending) (xs : List Sending) (piece more : List ℕ)
      → open_chunk crypto key x.bytes ≡ some piece
      → open_all crypto key xs ≡ some more
      → open_all crypto key (x ∷ xs) ≡ some (piece ++ more)
  unfolding open_all
  open_all-step key x xs piece more e f = rw (e, open_all) (rw (f, open_all) refl)

  module _ (file : LocalFile) (file_id key : String) (nonces : ℕ → Option (List ℕ))
      (replicas : ℤ) where
    run_rounds : ℕ → ℕ → String → List Call → List Call × (UploadError ⊎ (List String × String))
    run_rounds = upload_rounds peer crypto sha256 u file file_id key nonces replicas

    -- A round that does not end the upload has read and encrypted its piece.
    run_rounds-suc :
        (left i : ℕ) (last : String) (calls : List Call) (ids : List String) (hash : String)
        → let piece = read_piece u file i in
          (run_rounds (suc left) i last calls).1 ≡ inr (ids, hash)
          → (bytes : List ℕ) × ((upload_data crypto u.encrypt key (nonces i) piece ≡ some bytes)
              × (run_rounds (suc left) i last calls
                  ≡ after_chunk peer crypto sha256 u i
                      (upload_chunk peer calls file_id i bytes (sha256 piece) replicas)
                      (run_rounds left (suc i) (sha256 piece))))
    unfolding run_rounds upload_rounds
    run_rounds-suc left i last calls ids hash h =
        let piece = read_piece u file i in
        elim (Bool-cases (file.unreadable i)) [
          | inl e ↦
              let step : run_rounds (suc left) i last calls ≡ (calls, inl read_failed) =
                rw (e, upload_rounds) refl in
              absurd (cc (ap (λ r. r.1) step, h))
          | inr e ↦ elim (Option-cases (upload_data crypto u.encrypt key (nonces i) piece)) [
            | inl f ↦
                let step : run_rounds (suc left) i last calls ≡ (calls, inl encrypt_failed) =
                  rw (e, upload_rounds) (rw (f, upload_rounds) refl) in
                absurd (cc (ap (λ r. r.1) step, h))
            | inr (bytes, f) ↦ (bytes, (f, rw (e, upload_rounds) (rw (f, upload_rounds) refl)))
          ]
        ]

    pub upload_rounds-Stores :
        AreOpened key nonces
        → (left i : ℕ) (last : String) (calls : List Call) (ids : List String) (hash : String)
        → (upload_rounds peer crypto sha256 u file file_id key nonces replicas left i last calls).1
          ≡ inr (ids, hash)
        → (xs : List Sending) × ((ids ≡ map id_of xs)
            × Stores peer file_id replicas calls i xs
                (upload_rounds peer crypto sha256 u file file_id key nonces replicas left i last
                  calls).0
            × (open_all crypto key xs ≡ some (pieces u file left i)))
    unfolding run_rounds upload_rounds open_all pieces
    upload_rounds-Stores opened zero i last calls ids hash h = ([], (cc (h), refl, refl))
    upload_rounds-Stores opened (suc left) i last calls ids hash h =
        let piece = read_piece u file i in
        let (bytes, (ready, step)) = run_rounds-suc left i last calls ids hash h in
        let (id, ids', (stored, rest, same, sent)) =
          after_chunk-inr i _ (run_rounds left (suc i) (sha256 piece)) ids hash
            (ap (λ r. r.1) (sym step) ∙ h) in
        let (a, (named, called, one)) =
          upload_chunk-IsStored peer calls file_id i bytes (sha256 piece) replicas id stored in
        let x : Sending = record { answer = a; bytes = bytes; hash = sha256 piece } in
        let (xs, (listed, all, whole)) =
          upload_rounds-Stores opened left (suc i) (sha256 piece) _ ids' hash rest in
        (
          x ∷ xs,
          (
            same ∙ ap (λ j. j ∷ ids') named ∙ ap (λ js. id_of x ∷ js) listed,
            (
              one,
              subst₂ (λ from to. Stores peer file_id replicas from (suc i) xs to) called
                  (sym (ap (λ r. r.0) step ∙ sent)) all,
            ),
            open_all-step key x xs piece (pieces u file left (suc i)) (opened i piece bytes ready)
                whole,
          ),
        )

-- The rounds that an upload makes read the whole file.
pub pieces_of_file :
    (u : ChunkUploader) (file : LocalFile)
    → length file.content ≡ file.size
    → file.size < 2 ^ 63 - 2 ^ 28
    → 0 < u.chunk_size
    → u.chunk_size ≤ 2 ^ 27
    → pieces u file (rounds_up file.size u.chunk_size) 0 ≡ file.content
pieces_of_file u file h low positive high =
    let n = file.size in
    let c = u.chunk_size in
    let bounds = ceil_bounds n c positive in
    let start : 0 * c ≡ 0 = omega arith in
    let enough : n ≤ rounds_up n c * c = rw (rounds_up-exact n c low positive high) bounds.0 in
    pieces_lem u file (rounds_up n c) 0 h
    ∙ ap (λ k. take (rounds_up n c * c) (drop k file.content)) start
    ∙ take_all (rounds_up n c * c) file.content (omega (arith, enough, h))
