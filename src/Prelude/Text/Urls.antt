-- ===== src/Prelude/Text/Urls.antt =====
-- Texts in URLs: which ones http.NewRequest takes behind `http://host`, unescaped as the callers of net/http write them,
-- and the texts that stand for themselves there and as the name of a file.
use Prim.Native.Char.{code}
use Prim.Native.Nat.{ℕ, zero, suc, ◌+◌, ◌/◌, ◌%◌}
use Prim.Native.String.{String}
use mathlib.Core.Path.{◌≡◌, refl, ap, ◌∙◌}
use mathlib.Core.Logic.{inl, inr}
use mathlib.Core.Bool.{Bool, true, false, not, ◌&&◌, ◌||◌}
use mathlib.Core.Option.{Option, some}
use native.Mathlib.Omega.{arith}
use text.Mathlib.TextLemmas.{cons-append, nil-append}
use constelfs.Prelude.Tests.{if◌then◌else◌, Bool-cases, ltb, leb, ◌==◌}
use constelfs.Prelude.Text.{concat, digit, decimal_fuel, decimal}
use constelfs.Prelude.Text.Names.{has_char}

abbrev is_control : ℕ → Bool
is_control c = ltb c 32 || c == 127

abbrev is_hex : ℕ → Bool
is_hex c = leb b'0' c && leb c b'9' || leb b'a' c && leb c b'f' || leb b'A' c && leb c b'F'

-- Two hexadecimal digits begin the text.
abbrev is_escape : String → Bool
is_escape String.[] = false
is_escape (String.◌∷◌ c String.[]) = false
is_escape (String.◌∷◌ c (String.◌∷◌ d s)) = is_hex (code c) && is_hex (code d)

-- url.Parse of a fragment, of a query and of a path: a control character ahead of the fragment is refused, and so is a
-- bad escape in the path or the fragment.
fragment_ok : String → Bool
fragment_ok String.[] = true
fragment_ok (String.◌∷◌ c s) =
    let rest = fragment_ok s in if code c == b'%' then is_escape s && rest else rest

query_ok : String → Bool
unfolding fragment_ok
query_ok String.[] = true
query_ok (String.◌∷◌ c s) =
    let rest = query_ok s in
    if code c == b'#' then fragment_ok s else not (is_control (code c)) && rest

unfoldable pub is_url : String → Bool
unfolding query_ok
is_url String.[] = true
is_url (String.◌∷◌ c s) =
    let rest = is_url s in
    if code c == b'#'
    then fragment_ok s
    else if code c == b'?'
    then query_ok s
    else if code c == b'%'
    then is_escape s && rest
    else not (is_control (code c)) && rest

abbrev is_clear_code : ℕ → Bool
is_clear_code c = not (c == b'#') && (not (c == b'?') && (not (c == b'%') && not (is_control c)))

-- No character has a meaning in a URL, but for slashes.
unfoldable pub is_clear : String → Bool
is_clear String.[] = true
is_clear (String.◌∷◌ c s) = is_clear_code (code c) && is_clear s

-- No slash either.
unfoldable pub is_plain : String → Bool
is_plain String.[] = true
is_plain (String.◌∷◌ c s) = (is_clear_code (code c) && not (code c == b'/')) && is_plain s

-- What the server reads as the path of a URL whose text behind the host is this, if it is one (net/url).
pub record IsParser (parse : String → Option String) : Type 0 where
  pub clear : (s : String) → is_clear s ≡ true → parse s ≡ some s

pub is_clear-is_url : (s : String) → is_clear s ≡ true → is_url s ≡ true
unfolding is_clear is_url
is_clear-is_url String.[] h = refl
is_clear-is_url (String.◌∷◌ c s) h = ground (arith, h, is_clear-is_url s)

pub is_plain-is_clear : (s : String) → is_plain s ≡ true → is_clear s ≡ true
unfolding is_clear is_plain
is_plain-is_clear String.[] h = refl
is_plain-is_clear (String.◌∷◌ c s) h = ground (arith, h, is_plain-is_clear s)

pub is_plain-no_slash : (s : String) → is_plain s ≡ true → has_char b'/' s ≡ false
unfolding has_char is_plain
is_plain-no_slash String.[] h = refl
is_plain-no_slash (String.◌∷◌ c s) h = ground (arith, h, is_plain-no_slash s)

pub is_plain-concat : (a b : String) → is_plain (concat a b) ≡ (is_plain a && is_plain b)
unfolding is_plain
is_plain-concat String.[] b = ap is_plain (nil-append b)
is_plain-concat (String.◌∷◌ c a) b =
    ap is_plain (cons-append c a b) ∙ ground (arith, is_plain-concat a b)

pub is_clear-concat : (a b : String) → is_clear (concat a b) ≡ (is_clear a && is_clear b)
unfolding is_clear
is_clear-concat String.[] b = ap is_clear (nil-append b)
is_clear-concat (String.◌∷◌ c a) b =
    ap is_clear (cons-append c a b) ∙ ground (arith, is_clear-concat a b)

either :
    (b : Bool) (x y : String)
    → is_plain x ≡ true
    → is_plain y ≡ true
    → is_plain (if b then x else y) ≡ true
either true x y h k = h
either false x y h k = k

digit-is_plain : (n : ℕ) → is_plain (digit n) ≡ true
unfolding digit is_plain
digit-is_plain n = either (n == 0) "0" _ refl (
    either (n == 1) "1" _ refl (
      either (n == 2) "2" _ refl (
        either (n == 3) "3" _ refl (
          either (n == 4) "4" _ refl (
            either (n == 5) "5" _ refl (
              either (n == 6) "6" _ refl
                (either (n == 7) "7" _ refl (either (n == 8) "8" _ refl (refl)))))))))

decimal_fuel-is_plain : (f n : ℕ) → is_plain (decimal_fuel f n) ≡ true
unfolding decimal_fuel is_plain
decimal_fuel-is_plain zero n = refl
decimal_fuel-is_plain (suc f) n = elim (Bool-cases (ltb n 10)) [
  | inl e ↦ rw e (digit-is_plain n)
  | inr e ↦ rw e (
      is_plain-concat (decimal_fuel f (n / 10)) (digit (n % 10))
      ∙ ground (arith, decimal_fuel-is_plain f (n / 10), digit-is_plain (n % 10)))
]

pub decimal-is_plain : (n : ℕ) → is_plain (decimal n) ≡ true
unfolding decimal
decimal-is_plain n = decimal_fuel-is_plain (n + 1) n
