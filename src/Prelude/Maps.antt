-- ===== src/Prelude/Maps.antt =====
-- Go's maps with string keys, as association lists. The order of the entries stands for the
-- order in which `range` visits them, which Go leaves open: a theorem about every list is a
-- theorem about every order.
use Prim.Native.String.{String}
use mathlib.Core.Path.{◌≡◌, refl}
use mathlib.Core.List.{List, [], ◌∷◌}
use mathlib.Core.Option.{Option, none, some}
use native.Mathlib.Omega.{arith}
use text.Mathlib.Text.{◌==◌}
use text.Mathlib.TextEquality.{eq_iff}
use constelfs.Prelude.Tests.{if◌then◌else◌}

abbrev pub Map {ℓ} : Type ℓ → Type ℓ
Map V = List (String × V)

module _ {ℓ} {V : Type ℓ} where
  -- The values, in the order of a `range`.
  abbrev pub values : Map V → List V
  values [] = []
  values ((name, x) ∷ rest) = x ∷ values rest

  -- `m[key]`, with the second result of `x, exists := m[key]`.
  unfoldable pub lookup : String → Map V → Option V
  lookup key [] = none
  lookup key ((name, x) ∷ rest) =
      let other = lookup key rest in if name == key then some x else other

  -- `delete(m, key)`.
  unfoldable pub remove : String → Map V → Map V
  remove key [] = []
  remove key ((name, x) ∷ rest) =
      let others = remove key rest in if name == key then others else (name, x) ∷ others

  -- `m[key] = x`.
  unfoldable pub insert : String → V → Map V → Map V
  insert key x [] = (key, x) ∷ []
  insert key x ((name, y) ∷ rest) =
      let others = insert key x rest in if name == key then (key, x) ∷ rest else (name, y) ∷ others

  -- One value changed in place.
  unfoldable pub map_values : (V → V) → Map V → Map V
  map_values f [] = []
  map_values f ((name, x) ∷ rest) = (name, f x) ∷ map_values f rest

  -- A look-up sees the entry that was written last.
  pub lookup-insert :
      (key other : String) (x : V) (m : Map V)
      → lookup other (insert key x m) ≡ (if key == other then some x else lookup other m)
  unfolding lookup insert
  lookup-insert key other x [] = refl
  lookup-insert key other x ((name, y) ∷ rest) =
      ground (
        arith,
        lookup-insert key other x rest,
        eq_iff name other,
        eq_iff name key,
        eq_iff key other,
      )

  pub lookup-insert_self : (k : String) (v : V) (m : Map V) → lookup k (insert k v m) ≡ some v
  lookup-insert_self k v m = ground (arith, lookup-insert k k v m, eq_iff k k)

  pub lookup-remove :
      (k j : String) (m : Map V) → lookup j (remove k m) ≡ (if k == j then none else lookup j m)
  unfolding lookup remove
  lookup-remove k j [] = ground arith
  lookup-remove k j ((i, v) ∷ m) =
      ground (arith, lookup-remove k j m, eq_iff i k, eq_iff i j, eq_iff k j)

  -- `Option.map` by clauses, for statements that compute.
  abbrev pub map_option {κ} : {B : Type κ} → (V → B) → Option V → Option B
  map_option f none = none
  map_option f (some v) = some (f v)

  pub lookup-map_values :
      (f : V → V) (k : String) (m : Map V) → lookup k (map_values f m) ≡ map_option f (lookup k m)
  unfolding lookup map_values
  lookup-map_values f k [] = refl
  lookup-map_values f k ((j, v) ∷ m) = ground (arith, lookup-map_values f k m)

  -- The slice of a key, which is nil where the map has none.
  abbrev pub get_or_nil : Option (List V) → List V
  get_or_nil none = []
  get_or_nil (some xs) = xs

-- No key stands twice, as in every Go map.
abbrev pub Distinct {ℓ} : {V : Type ℓ} → Map V → Type ℓ
Distinct [] = Unit
Distinct ((k, v) ∷ m) = (lookup k m ≡ none) × Distinct m

module _ {ℓ} {V : Type ℓ} where
  pub insert-Distinct : (k : String) (v : V) (m : Map V) → Distinct m → Distinct (insert k v m)
  unfolding insert lookup
  insert-Distinct k v [] h = (refl, tt)
  insert-Distinct k v ((j, w) ∷ m) h =
      ground (arith, eq_iff j k, eq_iff k j, lookup-insert k j v m, insert-Distinct k v m h.1)

  pub remove-Distinct : (k : String) (m : Map V) → Distinct m → Distinct (remove k m)
  unfolding remove
  remove-Distinct k [] h = tt
  remove-Distinct k ((j, w) ∷ m) h = ground (arith, lookup-remove k j m, remove-Distinct k m h.1)
