-- ===== src/Examples/Memory.antt =====
-- A database in memory that meets the contract of `Server.Persistence.Database`.
use constelfs.Prelude.{
  String, ◌&&◌, [], none, some, ◌≡◌, refl, Map, lookup, insert, remove, str_eq, if◌then◌else◌,
  eq_iff, lookup-insert, lookup-remove, Bool-cases, inl, inr,
}
use constelfs.Prelude.Maps.{Distinct, insert-Distinct, remove-Distinct}
use constelfs.Server.Persistence.Database.{Stored, Bolt, IsBolt, IsReliable}
use constelfs.Server.Persistence.Removal.{Transaction, IsTransaction}

-- A bucket holds each key at most once.
pub record Bucket : Type 0 where
  pub pairs : Map Stored
  pub distinct : Distinct pairs

abbrev pub Memory : Type 0
Memory = String → Bucket

abbrev pub no_buckets : Memory
no_buckets b = record { pairs = []; distinct = tt }

-- One bucket replaced.
abbrev replace : String → Bucket → Memory → Memory
replace b bucket db c = if str_eq b c then bucket else db c

abbrev put_bucket : String → Stored → Bucket → Bucket
put_bucket k v bucket = record {
  pairs = insert k v bucket.pairs;
  distinct = insert-Distinct k v bucket.pairs bucket.distinct;
}

abbrev delete_bucket : String → Bucket → Bucket
delete_bucket k bucket = record {
  pairs = remove k bucket.pairs;
  distinct = remove-Distinct k bucket.pairs bucket.distinct;
}

abbrev pub memory : Bolt Memory
memory = record {
  put = λ b k v db. some (replace b (put_bucket k v (db b)) db);
  delete = λ b k db. some (replace b (delete_bucket k (db b)) db);
  entries = λ b db. (db b).pairs;
}

replace-put :
    (b k : String) (v : Stored) (db : Memory) (c j : String)
    → lookup j (replace b (put_bucket k v (db b)) db c).pairs
      ≡ (if str_eq b c && str_eq k j then some v else lookup j (db c).pairs)
replace-put b k v db c j = elim (Bool-cases (str_eq b c)) [
  | inl e ↦ rw e (rw (← (eq_iff b c).0 e) (lookup-insert k j v (db b).pairs))
  | inr e ↦ rw e refl
]

replace-delete :
    (b k : String) (db : Memory) (c j : String)
    → lookup j (replace b (delete_bucket k (db b)) db c).pairs
      ≡ (if str_eq b c && str_eq k j then none else lookup j (db c).pairs)
replace-delete b k db c j = elim (Bool-cases (str_eq b c)) [
  | inl e ↦ rw e (rw (← (eq_iff b c).0 e) (lookup-remove k j (db b).pairs))
  | inr e ↦ rw e refl
]

pub some-inj : {A : Type 0} {x y : A} → some x ≡ some y → x ≡ y
some-inj e = cc

pub memory-IsBolt : IsBolt memory
memory-IsBolt = record {
  entries-put = λ b k v db db' e c j. rw (← some-inj e) (replace-put b k v db c j);
  entries-delete = λ b k db db' e c j. rw (← some-inj e) (replace-delete b k db c j);
  entries-Distinct = λ b db. (db b).distinct;
}

pub memory-IsReliable : IsReliable memory
memory-IsReliable = record {
  puts = λ b k v db valid. (replace b (put_bucket k v (db b)) db, refl);
  deletes = λ b k db. (replace b (delete_bucket k (db b)) db, refl);
}

-- A transaction on it.
abbrev pub memory_tx : Transaction Memory
memory_tx = record { erase = memory.delete; close = λ db. some db }

pub memory-IsTransaction : IsTransaction memory memory_tx
memory-IsTransaction = record {
  erases =
      λ b k db. (replace b (delete_bucket k (db b)) db, refl, λ c j. replace-delete b k db c j);
  closes = λ db. (db, refl, λ c. refl);
}
