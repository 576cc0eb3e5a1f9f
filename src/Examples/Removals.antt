-- ===== src/Examples/Removals.antt =====
-- The theorem on the deletion of a file's chunks, applied.
use constelfs.Prelude.{
  String, [], Option, Bool-cases, inl, inr, none, some, pos, ◌≡◌, refl, sym, ◌∙◌, lookup, str_eq,
  eq_iff, if◌then◌else◌,
}
use constelfs.Server.State.{ChunkInfo, save_chunk}
use constelfs.Server.Persistence.{load_chunks, apply}
use constelfs.Server.Persistence.Database.{is_key}
use constelfs.Server.Persistence.Loading.{chunk_at}
use constelfs.Server.Persistence.Tables.{chunk_at-save_chunk}
use constelfs.Server.Persistence.Removal.{kept, delete_chunks_by_file_id, delete_chunks-load_chunks}
use constelfs.Examples.Memory.{
  Memory, memory, memory_tx, no_buckets, memory-IsBolt, memory-IsReliable, memory-IsTransaction,
}
use constelfs.Examples.Registry.{no_text}

abbrev chunk_in : String → String → ChunkInfo
chunk_in id file_id = record {
  chunk_id = id;
  file_id = file_id;
  index = 0;
  size = pos 4;
  hash = "";
  replicas = [];
  status = "";
  created_at = 1000;
}

-- A chunk of `f` and one of `g`.
abbrev one_chunk : Memory
one_chunk = apply memory no_text (save_chunk (chunk_in "x" "f")) no_buckets

abbrev two_chunks : Memory
two_chunks = apply memory no_text (save_chunk (chunk_in "y" "g")) one_chunk

-- What stands under an id after another chunk was stored.
stored_under :
    (d : ChunkInfo) (j : String) (before : Option ChunkInfo) (c : ChunkInfo)
    → (before ≡ some c → c.chunk_id ≡ j)
    → (if str_eq d.chunk_id j then some d else before) ≡ some c
    → c.chunk_id ≡ j
stored_under d j before c known e = elim (Bool-cases (str_eq d.chunk_id j)) [
  | inl f ↦
      let same : some d ≡ some c = rw f at e in
      let name : d.chunk_id ≡ j = (eq_iff d.chunk_id j).0 f in cc (same, name)
  | inr f ↦ known (rw f at e)
]

two_chunks-keyed :
    (j : String) (c : ChunkInfo) → chunk_at memory j two_chunks ≡ some c → c.chunk_id ≡ j
unfolding lookup is_key
two_chunks-keyed j c e =
    let saved = chunk_at-save_chunk memory-IsBolt memory-IsReliable no_text j in
    let last = saved (chunk_in "y" "g") one_chunk refl in
    let first = saved (chunk_in "x" "f") no_buckets refl in
    stored_under (chunk_in "y" "g") j (chunk_at memory j one_chunk) c
      (λ h. stored_under (chunk_in "x" "f") j none c (λ k. absurd (cc k)) (sym first ∙ h))
      (sym last ∙ e)

delete_chunks-load_chunks_example :
    lookup "x" (load_chunks memory (delete_chunks_by_file_id memory memory_tx "f" two_chunks))
    ≡ kept "f" (lookup "x" (load_chunks memory two_chunks))
delete_chunks-load_chunks_example =
    delete_chunks-load_chunks memory-IsBolt memory-IsTransaction "f" two_chunks "x" two_chunks-keyed
