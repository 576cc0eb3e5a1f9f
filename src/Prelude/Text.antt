-- ===== src/Prelude/Text.antt =====
-- The functions of Go's strings and strconv packages that the handlers use.
pub mod Names
pub mod Urls
use Prim.Native.Char.{Char, code}
use Prim.Native.Nat.{ℕ, zero, suc, ◌+◌, ◌-◌, ◌*◌, ◌/◌, ◌%◌, ◌^◌, ◌<◌}
use Prim.Native.String.{String, ◌++◌}
use mathlib.Core.Path.{◌≡◌, refl, ap}
use mathlib.Core.Logic.{inl, inr}
use native.Mathlib.Omega.{arith}
use mathlib.Core.Bool.{Bool, true, false, ◌&&◌}
use mathlib.Core.List.{List, [], ◌∷◌}
use mathlib.Core.Option.{Option, none, some}
use constelfs.Prelude.Tests.{Bool-cases, ltb, leb, ◌==◌, if◌then◌else◌}
use constelfs.Prelude.Int.{ℤ, pos, negsuc}

-- `strings.TrimPrefix(s, prefix)`: the rest behind the prefix, or `s` itself.
after_prefix : String → String → Option String
after_prefix s String.[] = some s
after_prefix String.[] (String.◌∷◌ c p) = none
after_prefix (String.◌∷◌ d s) (String.◌∷◌ c p) =
    let rest = after_prefix s p in if code d == code c then rest else none

or_self : String → Option String → String
or_self s none = s
or_self s (some t) = t

unfoldable pub trim_prefix : String → String → String
unfolding after_prefix or_self
trim_prefix s p = or_self s (after_prefix s p)

-- `strings.HasPrefix(s, prefix)`.
is_some : Option String → Bool
is_some none = false
is_some (some t) = true

unfoldable pub has_prefix : String → String → Bool
unfolding after_prefix is_some
has_prefix s p = is_some (after_prefix s p)

push_char : Char → List String → List String
push_char c [] = String.◌∷◌ c String.[] ∷ []
push_char c (w ∷ ws) = String.◌∷◌ c w ∷ ws

-- `strings.Split(s, "/")`.
unfoldable pub split : String → List String
unfolding push_char
split String.[] = String.[] ∷ []
split (String.◌∷◌ c s) =
    let rest = split s in if code c == b'/' then String.[] ∷ rest else push_char c rest

-- `strings.SplitN(s, "/", 2)`.
unfoldable pub split_two : String → List String
unfolding push_char
split_two String.[] = String.[] ∷ []
split_two (String.◌∷◌ c s) =
    let rest = split_two s in if code c == b'/' then String.[] ∷ s ∷ [] else push_char c rest

-- Go's `+` on strings.
abbrev pub concat : String → String → String
concat a b = a ++ b

digit : ℕ → String
digit n =
    if n == 0
    then "0"
    else if n == 1
    then "1"
    else if n == 2
    then "2"
    else if n == 3
    then "3"
    else if n == 4
    then "4"
    else if n == 5
    then "5"
    else if n == 6
    then "6"
    else if n == 7
    then "7"
    else if n == 8
    then "8"
    else "9"

-- The digits of a number, as `%d` prints it. The fuel bounds their count.
decimal_fuel : ℕ → ℕ → String
unfolding digit
decimal_fuel zero n = ""
decimal_fuel (suc f) n =
    let front = decimal_fuel f (n / 10) in
    if ltb n 10 then digit n else concat front (digit (n % 10))

-- With more fuel than the number, the text does not depend on the fuel.
decimal_fuel_enough : (f g n : ℕ) → n < f → n < g → decimal_fuel f n ≡ decimal_fuel g n
unfolding decimal_fuel
decimal_fuel_enough zero g n low low' = absurd (omega arith)
decimal_fuel_enough (suc f) zero n low low' = absurd (omega arith)
decimal_fuel_enough (suc f) (suc g) n low low' = elim (Bool-cases (ltb n 10)) [
  | inl e ↦ rw e refl
  | inr e ↦
      let smaller : n / 10 < n = ground arith in
      rw e (
        ap (λ front. concat front (digit (n % 10)))
          (decimal_fuel_enough f g (n / 10) (omega arith) (omega arith)))
]

-- `%d` of a number that is not negative; `n + 1` digits are more than enough.
unfoldable pub decimal : ℕ → String
unfolding decimal_fuel
decimal n = decimal_fuel (n + 1) n

-- `%d` of an int.
unfoldable pub format_int : ℤ → String
unfolding decimal
format_int (pos n) = decimal n
format_int (negsuc n) = concat "-" (decimal (n + 1))

decimal_test : decimal 8081 ≡ "8081"
unfolding decimal
decimal_test = refl

-- The number that a text of digits stands for.
digits_loop : ℕ → String → Option ℕ
digits_loop acc String.[] = some acc
digits_loop acc (String.◌∷◌ c s) =
    let rest = digits_loop (acc * 10 + (code c - b'0')) s in
    if leb b'0' (code c) && leb (code c) b'9' then rest else none

digits : String → Option ℕ
unfolding digits_loop
digits String.[] = none
digits s = digits_loop 0 s

in_range : Bool → Option ℕ → Option ℤ
in_range minus none = none
in_range true (some n) =
    if n == 0 then some (pos 0) else if leb n (2 ^ 63) then some (negsuc (n - 1)) else none
in_range false (some n) = if ltb n (2 ^ 63) then some (pos n) else none

-- `strconv.Atoi`: a sign, digits, and a value that fits an int.
unfoldable pub atoi : String → Option ℤ
unfolding digits in_range
atoi String.[] = none
atoi (String.◌∷◌ c s) =
    if code c == b'-'
    then in_range true (digits s)
    else if code c == b'+'
    then in_range false (digits s)
    else in_range false (digits (String.◌∷◌ c s))

atoi_test : atoi "-42" ≡ some (negsuc 41)
unfolding atoi
atoi_test = refl
