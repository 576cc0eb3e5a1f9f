-- ===== src/Prelude/Sort.antt =====
-- `sort.Slice` of the Go library. It is not stable, so it is a parameter with the contract that
-- its documentation states.
use Prim.Native.Nat.{ℕ, zero, suc}
use mathlib.Core.Path.{◌≡◌, refl, ap, subst, ◌∙◌}
use mathlib.Core.Logic.{inl, inr}
use mathlib.Core.List.Permᴰ
use mathlib.Core.Bool.{Bool, true, false}
use mathlib.Core.List.{List, [], ◌∷◌, Permᴰ}
use constelfs.Prelude.Tests.{if◌then◌else◌, Bool-cases}
use constelfs.Prelude.Lists.{length, All, take, drop}

-- A strict weak ordering of the values that satisfy `P`, which `less` must be of the elements of the slice.
pub record IsStrictWeak {A : Type 0} (P : A → Bool) (less : A → A → Bool) : Type 0 where
  pub asym : (a b : A) → P a ≡ true → P b ≡ true → less a b ≡ true → less b a ≡ false
  pub negtrans :
      (a b c : A)
      → P a ≡ true
      → P b ≡ true
      → P c ≡ true
      → less a b ≡ false
      → less b c ≡ false
      → less a c ≡ false

-- No element is less than one before it.
abbrev pub IsOrdered : {A : Type 0} → (A → A → Bool) → List A → Type 0
IsOrdered less [] = Unit
IsOrdered less (x ∷ xs) = All (λ y. less y x ≡ false) xs × IsOrdered less xs

pub record IsSort {A : Type 0} (sort : (A → A → Bool) → List A → List A) : Type 0 where
  pub permutes : (less : A → A → Bool) (xs : List A) → Permᴰ (sort less xs) xs
  pub orders :
      (P : A → Bool) (less : A → A → Bool)
      → IsStrictWeak P less
      → (xs : List A) → All (λ x. P x ≡ true) xs
      → IsOrdered less (sort less xs)

module _ {A : Type 0} where
  pub All-Permᴰ : (P : A → Type 0) {xs ys : List A} → Permᴰ xs ys → All P xs → All P ys
  All-Permᴰ P Permᴰ.nil h = tt
  All-Permᴰ P (Permᴰ.cons e p) h = (subst P e h.0, All-Permᴰ P p h.1)
  All-Permᴰ P (Permᴰ.swap e f) h = (subst P f h.1.0, (subst P e h.0, h.1.1))
  All-Permᴰ P (Permᴰ.trans p q) h = All-Permᴰ P q (All-Permᴰ P p h)

  pub length-Permᴰ : {xs ys : List A} → Permᴰ xs ys → length xs ≡ length ys
  length-Permᴰ Permᴰ.nil = refl
  length-Permᴰ (Permᴰ.cons e p) = ap suc (length-Permᴰ p)
  length-Permᴰ (Permᴰ.swap e f) = refl
  length-Permᴰ (Permᴰ.trans p q) = length-Permᴰ p ∙ length-Permᴰ q

  pub All-take : (P : A → Type 0) (n : ℕ) (xs : List A) → All P xs → All P (take n xs)
  All-take P zero xs h = tt
  All-take P (suc n) [] h = tt
  All-take P (suc n) (x ∷ xs) h = (h.0, All-take P n xs h.1)

  pub All-drop : (P : A → Type 0) (n : ℕ) (xs : List A) → All P xs → All P (drop n xs)
  All-drop P zero xs h = h
  All-drop P (suc n) [] h = tt
  All-drop P (suc n) (x ∷ xs) h = All-drop P n xs h.1

  -- In an ordered list, what is cut off behind place `n` is not less than what stands before it.
  pub IsOrdered-split :
      (less : A → A → Bool) (n : ℕ) (xs : List A)
      → IsOrdered less xs
      → All (λ x. All (λ y. less y x ≡ false) (drop n xs)) (take n xs)
  IsOrdered-split less zero xs h = tt
  IsOrdered-split less (suc n) [] h = tt
  IsOrdered-split less (suc n) (x ∷ xs) h = (All-drop _ n xs h.0, IsOrdered-split less n xs h.1)

  pub IsOrdered-take :
      (less : A → A → Bool) (n : ℕ) (xs : List A) → IsOrdered less xs → IsOrdered less (take n xs)
  IsOrdered-take less zero xs h = tt
  IsOrdered-take less (suc n) [] h = tt
  IsOrdered-take less (suc n) (x ∷ xs) h = (All-take _ n xs h.0, IsOrdered-take less n xs h.1)

-- Insertion sort meets the contract: the interface can be filled.
module _ {A : Type 0} (less : A → A → Bool) where
  insert_sorted : A → List A → List A
  insert_sorted x [] = x ∷ []
  insert_sorted x (y ∷ ys) = if less x y then x ∷ y ∷ ys else y ∷ insert_sorted x ys

unfoldable pub insertion_sort : {A : Type 0} → (A → A → Bool) → List A → List A
unfolding insert_sorted
insertion_sort less [] = []
insertion_sort less (x ∷ xs) = insert_sorted less x (insertion_sort less xs)

module _ {A : Type 0} (less : A → A → Bool) where
  insert_sorted-perm : (x : A) (ys : List A) → Permᴰ (insert_sorted less x ys) (x ∷ ys)
  unfolding insert_sorted
  insert_sorted-perm x [] = Permᴰ.cons refl Permᴰ.nil
  insert_sorted-perm x (y ∷ ys) = elim (Bool-cases (less x y)) [
    | inl e ↦ rw e (Permᴰ.refl _)
    | inr e ↦ rw e (Permᴰ.trans (Permᴰ.cons refl (insert_sorted-perm x ys)) (Permᴰ.swap refl refl))
  ]

  insertion_sort-perm : (xs : List A) → Permᴰ (insertion_sort less xs) xs
  unfolding insertion_sort
  insertion_sort-perm [] = Permᴰ.nil
  insertion_sort-perm (x ∷ xs) =
      Permᴰ.trans (insert_sorted-perm x (insertion_sort less xs))
        (Permᴰ.cons refl (insertion_sort-perm xs))

  module _ (P : A → Bool) (order : IsStrictWeak P less) where
    not_less :
        (x y : A) (ys : List A)
        → P x ≡ true
        → P y ≡ true
        → All (λ z. P z ≡ true) ys
        → less y x ≡ false
        → All (λ z. less z y ≡ false) ys
        → All (λ z. less z x ≡ false) ys
    not_less x y [] px py ps h all = tt
    not_less x y (z ∷ zs) px py ps h all =
        (order.negtrans z y x ps.0 py px all.0 h, not_less x y zs px py ps.1 h all.1)

    insert_sorted-IsOrdered :
        (x : A) (ys : List A)
        → P x ≡ true
        → All (λ z. P z ≡ true) ys
        → IsOrdered less ys
        → IsOrdered less (insert_sorted less x ys)
    unfolding insert_sorted
    insert_sorted-IsOrdered x [] px ps h = (tt, tt)
    insert_sorted-IsOrdered x (y ∷ ys) px ps h = elim (Bool-cases (less x y)) [
      | inl e ↦
          let below = order.asym x y px ps.0 e in
          rw e ((below, not_less x y ys px ps.0 ps.1 below h.0), h)
      | inr e ↦ rw e (
        All-Permᴰ _ (Permᴰ.symm (insert_sorted-perm x ys)) (e, h.0),
        insert_sorted-IsOrdered x ys px ps.1 h.1,
      )
    ]

    insertion_sort-IsOrdered :
        (xs : List A) → All (λ z. P z ≡ true) xs → IsOrdered less (insertion_sort less xs)
    unfolding insertion_sort
    insertion_sort-IsOrdered [] ps = tt
    insertion_sort-IsOrdered (x ∷ xs) ps =
        insert_sorted-IsOrdered x _ ps.0 (All-Permᴰ _ (Permᴰ.symm (insertion_sort-perm xs)) ps.1)
          (insertion_sort-IsOrdered xs ps.1)

pub insertion_sort-IsSort : {A : Type 0} → IsSort (insertion_sort {A = A})
insertion_sort-IsSort = record {
  permutes = insertion_sort-perm;
  orders = λ P less order xs ps. insertion_sort-IsOrdered less P order xs ps;
}
