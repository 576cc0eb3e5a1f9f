-- ===== src/Prelude/Text/Names.antt =====
-- Names that are made of texts and printed numbers: when two of them differ.
use Prim.Native.Char.{Char, code}
use Prim.Native.Nat.{ℕ, zero, suc, ◌+◌, ◌-◌, ◌*◌, ◌/◌, ◌%◌, ◌<◌}
use Prim.Native.String.{String}
use mathlib.Core.Path.{◌≡◌, refl, sym, ap, ◌∙◌}
use mathlib.Core.Logic.{inl, inr}
use mathlib.Core.Bool.{Bool, true, false, ◌||◌}
use mathlib.Core.List.{[], ◌∷◌}
use mathlib.Core.Option.{some, none}
use native.Mathlib.Omega.{arith}
use text.Mathlib.TextLemmas.{append_cancel_left, cons-append, nil-append}
use text.Mathlib.TextEquality.{eq_iff}
use text.Mathlib.Text.{◌==◌ as str_eq}
use constelfs.Prelude.Tests.{if◌then◌else◌, Bool-cases, ltb, ◌==◌}
use constelfs.Prelude.Text.{
  has_prefix, is_some, split, split_two, push_char, concat, digit, decimal_fuel, decimal,
  after_prefix, or_self, trim_prefix,
}

-- The number that a text of digits prints, behind the number `acc`.
value : ℕ → String → ℕ
value acc String.[] = acc
value acc (String.◌∷◌ c s) = value (acc * 10 + (code c - b'0')) s

value-concat : (acc : ℕ) (a b : String) → value acc (concat a b) ≡ value (value acc a) b
unfolding value
value-concat acc String.[] b = ap (value acc) (nil-append b)
value-concat acc (String.◌∷◌ c a) b =
    ap (value acc) (cons-append c a b) ∙ value-concat (acc * 10 + (code c - b'0')) a b

value-digit : (acc n : ℕ) → n < 10 → value acc (digit n) ≡ acc * 10 + n
unfolding value digit
value-digit acc zero h = refl
value-digit acc (suc zero) h = refl
value-digit acc (suc (suc zero)) h = refl
value-digit acc (suc (suc (suc zero))) h = refl
value-digit acc (suc (suc (suc (suc zero)))) h = refl
value-digit acc (suc (suc (suc (suc (suc zero))))) h = refl
value-digit acc (suc (suc (suc (suc (suc (suc zero)))))) h = refl
value-digit acc (suc (suc (suc (suc (suc (suc (suc zero))))))) h = refl
value-digit acc (suc (suc (suc (suc (suc (suc (suc (suc zero)))))))) h = refl
value-digit acc (suc (suc (suc (suc (suc (suc (suc (suc (suc zero))))))))) h = refl
value-digit acc (suc (suc (suc (suc (suc (suc (suc (suc (suc (suc n)))))))))) h =
    absurd (omega arith)

value-decimal_fuel : (f n : ℕ) → n < f → value 0 (decimal_fuel f n) ≡ n
unfolding decimal_fuel
value-decimal_fuel zero n h = absurd (omega arith)
value-decimal_fuel (suc f) n h = elim (Bool-cases (ltb n 10)) [
  | inl e ↦ rw e (value-digit 0 n (ground arith) ∙ omega arith)
  | inr e ↦
      let smaller : n / 10 < n = ground arith in
      rw e (
        value-concat 0 (decimal_fuel f (n / 10)) (digit (n % 10))
        ∙ value-digit _ (n % 10) (omega arith)
        ∙ omega (arith, value-decimal_fuel f (n / 10) (omega arith)))
]

pub decimal_inj : (n m : ℕ) → decimal n ≡ decimal m → n ≡ m
unfolding decimal
decimal_inj n m h =
    sym (value-decimal_fuel (n + 1) n (omega arith))
    ∙ ap (value 0) h
    ∙ value-decimal_fuel (m + 1) m (omega arith)

-- A prefix and a number that is printed behind it.
pub concat-decimal_inj :
    (a : String) (n m : ℕ) → concat a (decimal n) ≡ concat a (decimal m) → n ≡ m
concat-decimal_inj a n m h = decimal_inj n m (append_cancel_left a (decimal n) (decimal m) h)

after_prefix-concat : (a b : String) → after_prefix (concat a b) a ≡ some b
unfolding after_prefix
after_prefix-concat String.[] b = ap some (nil-append b)
after_prefix-concat (String.◌∷◌ c a) b =
    ap (λ t. after_prefix t (String.◌∷◌ c a)) (cons-append c a b)
    ∙ ground (arith, after_prefix-concat a b)

-- `strings.TrimPrefix(a + b, a)`.
pub trim_prefix-concat : (a b : String) → trim_prefix (concat a b) a ≡ b
unfolding trim_prefix or_self
trim_prefix-concat a b = rw (after_prefix-concat a b) refl

-- Whether a text has a character.
unfoldable pub has_char : ℕ → String → Bool
has_char x String.[] = false
has_char x (String.◌∷◌ c s) = code c == x || has_char x s

pub has_char-concat :
    (x : ℕ) (a b : String) → has_char x (concat a b) ≡ (has_char x a || has_char x b)
unfolding has_char
has_char-concat x String.[] b = ap (has_char x) (nil-append b)
has_char-concat x (String.◌∷◌ c a) b =
    ap (has_char x) (cons-append c a b) ∙ ground (arith, has_char-concat x a b)

-- A text that has a character is no text that has not.
pub has_char-differs :
    (x : ℕ) (s t : String) → has_char x s ≡ true → has_char x t ≡ false → str_eq s t ≡ false
has_char-differs x s t h k = elim (Bool-cases (str_eq s t)) [
  | inl e ↦ cc (h, k, ap (has_char x) ((eq_iff s t).0 e))
  | inr e ↦ e
]

-- Two texts have different characters at a place.
unfoldable pub differ : String → String → Bool
differ String.[] p = false
differ (String.◌∷◌ c s) String.[] = false
differ (String.◌∷◌ c s) (String.◌∷◌ d p) =
    let rest = differ s p in if code c == code d then rest else true

after_prefix_self : (s : String) → after_prefix s s ≡ some ""
unfolding after_prefix
after_prefix_self String.[] = refl
after_prefix_self (String.◌∷◌ c s) = ground (arith, after_prefix_self s)

pub has_prefix_self : (s : String) → has_prefix s s ≡ true
unfolding has_prefix is_some
has_prefix_self s = rw (after_prefix_self s) refl

pub has_prefix-concat : (s rest : String) → has_prefix (concat s rest) s ≡ true
unfolding has_prefix is_some
has_prefix-concat s rest = rw (after_prefix-concat s rest) refl

after_prefix-differ :
    (s p rest : String) → differ s p ≡ true → after_prefix (concat s rest) p ≡ none
unfolding after_prefix differ
after_prefix-differ String.[] p rest h = absurd (cc (h))
after_prefix-differ (String.◌∷◌ c s) String.[] rest h = absurd (cc (h))
after_prefix-differ (String.◌∷◌ c s) (String.◌∷◌ d p) rest h =
    ap (λ t. after_prefix t (String.◌∷◌ d p)) (cons-append c s rest)
    ∙ elim (Bool-cases (code c == code d)) [
      | inl e ↦ rw e (after_prefix-differ s p rest (ground (arith, h, e)))
      | inr e ↦ rw e refl
    ]

pub has_prefix-differ :
    (s p rest : String) → differ s p ≡ true → has_prefix (concat s rest) p ≡ false
unfolding has_prefix is_some
has_prefix-differ s p rest h = rw (after_prefix-differ s p rest h) refl

-- `strings.Split` at slashes, of a text without one, and of two such texts with one between them.
has_char_head :
    (c : Char) (s : String) → (code c == b'/') ≡ true → has_char b'/' (String.◌∷◌ c s) ≡ true
unfolding has_char
has_char_head c s e = rw e refl

pub split-no_slash : (s : String) → has_char b'/' s ≡ false → split s ≡ s ∷ []
unfolding split has_char push_char
split-no_slash String.[] h = refl
split-no_slash (String.◌∷◌ c s) h = elim (Bool-cases (code c == b'/')) [
  | inl e ↦ absurd (cc (has_char_head c s e, h))
  | inr e ↦ rw e (rw (split-no_slash s (ground (arith, h, e))) refl)
]

pub split-slash :
    (a b : String)
    → has_char b'/' a ≡ false
    → has_char b'/' b ≡ false
    → split (concat a (concat "/" b)) ≡ a ∷ b ∷ []
unfolding split has_char push_char
split-slash String.[] b h k =
    ap split (nil-append (concat "/" b))
    ∙ ap split (cons-append "/" String.[] b)
    ∙ ap (λ t. String.[] ∷ split t) (nil-append b)
    ∙ ap (λ l. String.[] ∷ l) (split-no_slash b k)
split-slash (String.◌∷◌ c a) b h k =
    ap split (cons-append c a (concat "/" b)) ∙ elim (Bool-cases (code c == b'/')) [
      | inl e ↦ absurd (cc (has_char_head c a e, h))
      | inr e ↦ rw e (rw (split-slash a b (ground (arith, h, e)) k) refl)
    ]

-- `strings.SplitN` with 2, of a text with its first slash behind `a`.
pub split_two-slash :
    (a b : String) → has_char b'/' a ≡ false → split_two (concat a (concat "/" b)) ≡ a ∷ b ∷ []
unfolding split_two has_char push_char
split_two-slash String.[] b h =
    ap split_two (nil-append (concat "/" b))
    ∙ ap split_two (cons-append "/" String.[] b)
    ∙ ap (λ t. String.[] ∷ t ∷ []) (nil-append b)
split_two-slash (String.◌∷◌ c a) b h =
    ap split_two (cons-append c a (concat "/" b)) ∙ elim (Bool-cases (code c == b'/')) [
      | inl e ↦ absurd (cc (has_char_head c a e, h))
      | inr e ↦ rw e (rw (split_two-slash a b (ground (arith, h, e))) refl)
    ]
