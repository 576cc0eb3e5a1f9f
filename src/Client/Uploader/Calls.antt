-- ===== src/Client/Uploader/Calls.antt =====
-- What an upload that succeeds has sent (internal/client/uploader.go).
use mathlib.Core.List.{append-nil}
use constelfs.Prelude.{
  ℕ, suc, String, Bool, true, false, List, [], ◌∷◌, ◌++◌, Option, none, some, ℤ, pos, inl, inr, ◌≡◌,
  refl, sym, ap, ◌∙◌, length, append_assoc, Bool-cases, if◌then◌else◌,
}
use constelfs.Prelude.Text.{concat, decimal}
use constelfs.Prelude.Text.Urls.{is_url}
use constelfs.Server.Content.{is_ok}
use constelfs.Server.Files.{CreateVersionRequest}
use constelfs.Client.Uploader.{
  LocalFile, Call, write, write_refused, put_chunk, confirm, WriteAnswer, Answer, lost, garbled,
  decoded, Peer, first_or, upload_to_node, upload_to_nodes, after_confirm, after_puts, after_write,
  upload_chunk,
}

-- A chunk that was sent: the answer to its write, its bytes, and the hash of its piece.
pub record Sending : Type 0 where
  pub answer : WriteAnswer
  pub bytes : List ℕ
  pub hash : String

abbrev pub id_of : Sending → String
id_of x = first_or x.answer.chunk_id x.answer.chunk_ids

abbrev pub write_call : String → ℤ → ℕ → List ℕ → Call
write_call file_id replicas i bytes = write (record {
  file_id = file_id;
  file_name = concat "chunk_" (decimal i);
  file_size = pos (length bytes);
  replicas = replicas;
})

abbrev pub puts : String → List ℕ → List String → List Call
puts id bytes [] = []
puts id bytes (addr ∷ addrs) = put_chunk addr id bytes ∷ puts id bytes addrs

-- The calls of a chunk: the write, a PUT to each address that the answer names, and the confirmation.
abbrev pub calls_of : String → ℤ → ℕ → Sending → List Call
calls_of file_id replicas i x =
    write_call file_id replicas i x.bytes ∷ puts (id_of x) x.bytes x.answer.node_addrs
    ++ (confirm (record { chunk_id = id_of x; hash = x.hash }) ∷ [])

-- The request that makes a version of the chunks.
abbrev pub version_request : LocalFile → String → String → List String → CreateVersionRequest
version_request file file_id hash ids = record {
  file_id = file_id;
  file_name = file.base;
  file_path = file.path;
  file_size = pos file.size;
  hash = hash;
  chunk_ids = ids;
  node_ids = [];
}

module _ (peer : Peer) where
  -- Each PUT of the list was answered with 200.
  abbrev pub AreTaken : List Call → String → List ℕ → List String → Type 0
  AreTaken calls id bytes [] = Unit
  AreTaken calls id bytes (addr ∷ addrs) =
      let calls' = calls ++ (put_chunk addr id bytes ∷ []) in
      (is_ok (peer.on_put calls') ≡ true) × AreTaken calls' id bytes addrs

  module _ (file_id : String) (replicas : ℤ) where
    -- The chunk's write was granted, every node that it named took the bytes, and the chunk was confirmed.
    pub record IsStored (calls : List Call) (i : ℕ) (x : Sending) : Type 0 where
      pub answered :
          peer.on_write (calls ++ (write_call file_id replicas i x.bytes ∷ [])) ≡ decoded x.answer
      pub granted : x.answer.success ≡ true
      pub taken :
          AreTaken
            (calls ++ (write_call file_id replicas i x.bytes ∷ []))
            (id_of x)
            x.bytes
            x.answer.node_addrs
      pub confirmed : peer.on_confirm (calls ++ calls_of file_id replicas i x) ≡ decoded true

    -- From the calls `calls` to `calls'` the chunks were stored, one after the other, and nothing else was sent.
    abbrev pub Stores : List Call → ℕ → List Sending → List Call → Type 0
    Stores calls i [] calls' = calls' ≡ calls
    Stores calls i (x ∷ xs) calls' =
        IsStored calls i x × Stores (calls ++ calls_of file_id replicas i x) (suc i) xs calls'

  pub upload_to_nodes-next :
      (calls : List Call) (id : String) (bytes : List ℕ) (addr : String) (addrs : List String)
      → let calls' = calls ++ (put_chunk addr id bytes ∷ []) in
        is_url id ≡ true
        → upload_to_nodes peer calls id bytes (addr ∷ addrs) ≡ (
            if is_ok (peer.on_put calls')
            then upload_to_nodes peer calls' id bytes addrs
            else (calls', some addr))
  unfolding upload_to_nodes upload_to_node
  upload_to_nodes-next calls id bytes addr addrs sendable = rw sendable refl

  upload_to_nodes-refused :
      (calls : List Call) (id : String) (bytes : List ℕ) (addr : String) (addrs : List String)
      → is_url id ≡ false
      → (upload_to_nodes peer calls id bytes (addr ∷ addrs)).1 ≡ some addr
  unfolding upload_to_nodes upload_to_node
  upload_to_nodes-refused calls id bytes addr addrs refused = rw refused refl

  upload_to_nodes-AreTaken :
      (calls : List Call) (id : String) (bytes : List ℕ) (addrs : List String)
      → (upload_to_nodes peer calls id bytes addrs).1 ≡ none
      → ((upload_to_nodes peer calls id bytes addrs).0 ≡ calls ++ puts id bytes addrs)
        × AreTaken calls id bytes addrs
  unfolding upload_to_nodes
  upload_to_nodes-AreTaken calls id bytes [] h = (sym (append-nil calls), tt)
  upload_to_nodes-AreTaken calls id bytes (addr ∷ addrs) h =
      let put = put_chunk addr id bytes in
      let calls' = calls ++ (put ∷ []) in
      elim (Bool-cases (is_url id)) [
        | inr f ↦ absurd (cc (upload_to_nodes-refused calls id bytes addr addrs f, h))
        | inl f ↦
            let next = upload_to_nodes-next calls id bytes addr addrs f in
            elim (Bool-cases (is_ok (peer.on_put calls'))) [
              | inl e ↦
                  let step : upload_to_nodes peer calls id bytes (addr ∷ addrs)
                      ≡ upload_to_nodes peer calls' id bytes addrs =
                    next ∙ rw e refl in
                  let (sent, taken) =
                    upload_to_nodes-AreTaken calls' id bytes addrs (ap (λ r. r.1) (sym step) ∙ h) in
                  (
                    ap (λ r. r.0) step ∙ sent ∙ append_assoc calls (put ∷ []) (puts id bytes addrs),
                    (e, taken),
                  )
              | inr e ↦
                  let step : upload_to_nodes peer calls id bytes (addr ∷ addrs)
                      ≡ (calls', some addr) =
                    next ∙ rw e refl in
                  absurd (cc (ap (λ r. r.1) step, h))
            ]
      ]

  after_confirm-inr :
      (calls : List Call) (id id' : String) (o : Answer Bool)
      → (after_confirm peer calls id o).1 ≡ inr id'
      → (o ≡ decoded true) × (id' ≡ id) × ((after_confirm peer calls id o).0 ≡ calls)
  after_confirm-inr calls id id' lost h = absurd (cc (h))
  after_confirm-inr calls id id' garbled h = absurd (cc (h))
  after_confirm-inr calls id id' (decoded false) h = absurd (cc (h))
  after_confirm-inr calls id id' (decoded true) h = (refl, cc (h), refl)

  after_puts-inr :
      (id hash id' : String) (r : List Call × Option String)
      → (after_puts peer id hash r).1 ≡ inr id'
      → let calls' = r.0 ++ (confirm (record { chunk_id = id; hash = hash }) ∷ []) in
        (r.1 ≡ none)
        × (peer.on_confirm calls' ≡ decoded true)
        × (id' ≡ id)
        × ((after_puts peer id hash r).0 ≡ calls')
  after_puts-inr id hash id' (calls, some addr) h = absurd (cc (h))
  after_puts-inr id hash id' (calls, none) h =
      let (answered, same, sent) = after_confirm-inr _ id id' _ h in (refl, answered, same, sent)

  after_write-inr :
      (calls : List Call) (bytes : List ℕ) (hash id : String) (o : Answer WriteAnswer)
      → (after_write peer calls bytes hash o).1 ≡ inr id
      → (a : WriteAnswer) × let x : Sending = record { answer = a; bytes = bytes; hash = hash } in
          let calls' =
            (calls ++ puts (id_of x) bytes a.node_addrs)
            ++ (confirm (record { chunk_id = id_of x; hash = hash }) ∷ []) in
          (o ≡ decoded a)
          × (a.success ≡ true)
          × AreTaken calls (id_of x) bytes a.node_addrs
          × (peer.on_confirm calls' ≡ decoded true)
          × (id ≡ id_of x)
          × ((after_write peer calls bytes hash o).0 ≡ calls')
  unfolding after_write
  after_write-inr calls bytes hash id lost h = absurd (cc (h))
  after_write-inr calls bytes hash id garbled h = absurd (cc (h))
  after_write-inr calls bytes hash id (decoded a) h = elim (Bool-cases a.success) [
    | inl e ↦
        let id' = first_or a.chunk_id a.chunk_ids in
        let last = confirm (record { chunk_id = id'; hash = hash }) ∷ [] in
        let r = upload_to_nodes peer calls id' bytes a.node_addrs in
        let step : after_write peer calls bytes hash (decoded a) ≡ after_puts peer id' hash r =
          rw e refl in
        let (none_failed, confirmed, same, sent) =
          after_puts-inr id' hash id r (ap (λ q. q.1) (sym step) ∙ h) in
        let (put, taken) = upload_to_nodes-AreTaken calls id' bytes a.node_addrs none_failed in
        (
          a,
          (
            refl,
            e,
            taken,
            ap (λ c. peer.on_confirm (c ++ last)) (sym put) ∙ confirmed,
            same,
            ap (λ q. q.0) step ∙ sent ∙ ap (λ c. c ++ last) put,
          ),
        )
    | inr e ↦
        let step : after_write peer calls bytes hash (decoded a)
            ≡ (calls, inl (write_refused a.error)) =
          rw e refl in
        absurd (cc (ap (λ q. q.1) step, h))
  ]

  pub upload_chunk-IsStored :
      (calls : List Call) (file_id : String) (i : ℕ) (bytes : List ℕ) (hash : String) (replicas : ℤ)
      (id : String)
      → let (calls', result) = upload_chunk peer calls file_id i bytes hash replicas in
        result ≡ inr id
        → (a : WriteAnswer) × let x : Sending = record { answer = a; bytes = bytes; hash = hash } in
            (id ≡ id_of x)
            × (calls' ≡ calls ++ calls_of file_id replicas i x)
            × IsStored file_id replicas calls i x
  unfolding upload_chunk after_write
  upload_chunk-IsStored calls file_id i bytes hash replicas id h =
      let calls' = calls ++ (write_call file_id replicas i bytes ∷ []) in
      let (a, (answered, granted, taken, confirmed, same, sent)) =
        after_write-inr calls' bytes hash id (peer.on_write calls') h in
      let x : Sending = record { answer = a; bytes = bytes; hash = hash } in
      let sending = puts (id_of x) bytes a.node_addrs in
      let last = confirm (record { chunk_id = id_of x; hash = hash }) ∷ [] in
      let all : (calls' ++ sending) ++ last ≡ calls ++ calls_of file_id replicas i x =
        ap (λ c. c ++ last) (append_assoc calls (write_call file_id replicas i bytes ∷ []) sending)
        ∙ append_assoc calls (write_call file_id replicas i bytes ∷ sending) last in
      (
        a,
        (
          same,
          sent ∙ all,
          record {
            answered = answered;
            granted = granted;
            taken = taken;
            confirmed = ap peer.on_confirm (sym all) ∙ confirmed;
          },
        ),
      )
