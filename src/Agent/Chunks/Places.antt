-- ===== src/Agent/Chunks/Places.antt =====
-- The files of a node: filepath.Join of the storage path, a directory and an id (internal/node/chunk_handler.go), and
-- which file of the disk that is. `root` is the storage path, its last element first.
use constelfs.Prelude.{
  ℕ, String, Bool, true, false, ◌&&◌, not, List, [], ◌∷◌, Option, none, some, Map, lookup, insert,
  remove, ◌≡◌, refl, arith, str_eq, eq_iff, if◌then◌else◌,
}
use constelfs.Prelude.Text.{split}
use constelfs.Prelude.Text.Names.{has_char, split-no_slash}

-- A disk has the files of the directories `temp` and `chunks` of the storage path, by name, and the others, by their
-- path, its last element first.
pub record Disk : Type 0 where
  pub temp : Map (List ℕ)
  pub chunks : Map (List ℕ)
  pub others : List (List String × List ℕ)

pub data Place : Type 0 where
  in_temp : String → Place
  in_chunks : String → Place
  elsewhere : List String → Place

-- The rest of path.Clean behind a clean path.
unfoldable pub clean : List String → List String → List String
clean path [] = path
clean path (e ∷ es) =
    if str_eq e ""
    then clean path es
    else if str_eq e "."
    then clean path es
    else if str_eq e ".."
    then clean (elim path [ [] ↦ [] | p ∷ ps ↦ ps ]) es
    else clean (e ∷ path) es

abbrev same_path : List String → List String → Bool
same_path [] [] = true
same_path (a ∷ xs) (b ∷ ys) = let rest = same_path xs ys in str_eq a b && rest
same_path xs ys = false

unfoldable pub place_of : List String → List String → Place
place_of root [] = elsewhere []
place_of root (name ∷ dir) =
    if same_path dir ("chunks" ∷ root)
    then in_chunks name
    else if same_path dir ("temp" ∷ root)
    then in_temp name
    else elsewhere (name ∷ dir)

-- filepath.Join(StoragePath, dir, id).
unfoldable pub join : List String → String → String → Place
unfolding clean place_of
join root dir id = place_of root (clean (dir ∷ root) (split id))

abbrev path_lookup : List String → List (List String × List ℕ) → Option (List ℕ)
path_lookup p [] = none
path_lookup p ((q, bytes) ∷ m) =
    let rest = path_lookup p m in if same_path q p then some bytes else rest

abbrev path_remove : List String → List (List String × List ℕ) → List (List String × List ℕ)
path_remove p [] = []
path_remove p ((q, bytes) ∷ m) =
    let rest = path_remove p m in if same_path q p then rest else (q, bytes) ∷ rest

abbrev pub file_at : Disk → Place → Option (List ℕ)
file_at d (in_temp name) = lookup name d.temp
file_at d (in_chunks name) = lookup name d.chunks
file_at d (elsewhere path) = path_lookup path d.others

abbrev pub put_at : Place → List ℕ → Disk → Disk
put_at (in_temp name) bytes d = record d { temp = insert name bytes d.temp }
put_at (in_chunks name) bytes d = record d { chunks = insert name bytes d.chunks }
put_at (elsewhere path) bytes d = record d { others = (path, bytes) ∷ path_remove path d.others }

abbrev pub drop_at : Place → Disk → Disk
drop_at (in_temp name) d = record d { temp = remove name d.temp }
drop_at (in_chunks name) d = record d { chunks = remove name d.chunks }
drop_at (elsewhere path) d = record d { others = path_remove path d.others }

-- The name of a file in a directory.
abbrev pub is_name : String → Bool
is_name id =
    not (str_eq id "") && (not (str_eq id ".") && (not (str_eq id "..") && not (has_char b'/' id)))

same_path_self : (p : List String) → same_path p p ≡ true
same_path_self [] = refl
same_path_self (a ∷ xs) = ground (arith, eq_iff a a, same_path_self xs)

pub join-chunks :
    (root : List String) (id : String) → is_name id ≡ true → join root "chunks" id ≡ in_chunks id
unfolding join clean place_of
join-chunks root id h =
    let plain : has_char b'/' id ≡ false = ground (arith, h) in
    let a : str_eq id "" ≡ false = ground (arith, h) in
    let b : str_eq id "." ≡ false = ground (arith, h) in
    let c : str_eq id ".." ≡ false = ground (arith, h) in
    rw (split-no_slash id plain, a, b, c, same_path_self root) refl

pub join-temp :
    (root : List String) (id : String) → is_name id ≡ true → join root "temp" id ≡ in_temp id
unfolding join clean place_of
join-temp root id h =
    let plain : has_char b'/' id ≡ false = ground (arith, h) in
    let a : str_eq id "" ≡ false = ground (arith, h) in
    let b : str_eq id "." ≡ false = ground (arith, h) in
    let c : str_eq id ".." ≡ false = ground (arith, h) in
    rw (split-no_slash id plain, a, b, c, same_path_self root) refl
