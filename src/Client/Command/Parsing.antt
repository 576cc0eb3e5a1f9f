-- ===== src/Client/Command/Parsing.antt =====
-- Go's flag package as cmd/client/main.go uses it: `flag.Parse` for the flags -config and -replicas.
use Prim.Native.Char.{Char, code}
use constelfs.Prelude.{
  ℕ, String, ◌||◌, List, [], ◌∷◌, Option, none, some, ℤ, str_eq, if◌then◌else◌, ◌==◌,
}

pub record Flags : Type 0 where
  pub config : String
  pub replicas : ℤ

-- An argument, as `parseOne` sees it.
pub data Argument : Type 0 where
  -- Not a flag: the parsing ends.
  positional : Argument
  -- `--`.
  terminator : Argument
  malformed : Argument
  -- A name, with what stands behind an equals sign.
  named : String → Option String → Argument

abbrev push : Char → String × Option String → String × Option String
push c (name, value) = (String.◌∷◌ c name, value)

-- The text up to the first equals sign, and the text behind it.
unfoldable pub cut : String → String × Option String
cut String.[] = (String.[], none)
cut (String.◌∷◌ c s) =
    let rest = cut s in if code c == b'=' then (String.[], some s) else push c rest

-- What stands behind the dashes. The search for the equals sign begins at the second character.
abbrev flag_name : String → Argument
flag_name String.[] = malformed
flag_name (String.◌∷◌ c s) =
    let (name, value) = push c (cut s) in
    if code c == b'-' || code c == b'=' then malformed else named name value

abbrev two_dashes : String → Argument
two_dashes String.[] = terminator
two_dashes (String.◌∷◌ c s) = flag_name (String.◌∷◌ c s)

unfoldable pub classify : String → Argument
unfolding cut
classify String.[] = positional
classify (String.◌∷◌ c String.[]) = positional
classify (String.◌∷◌ c (String.◌∷◌ d s)) =
    if code c == b'-'
    then if code d == b'-' then two_dashes s else flag_name (String.◌∷◌ d s)
    else positional

-- What `Parse` gives: the flags, or the exit code of an error.
pub data Parse : Type 0 where
  parsed : Flags → Parse
  quit : ℕ → Parse

-- A flag that is not defined: `-h` and `-help` exit with 0.
abbrev undefined : String → Parse
undefined name = if str_eq name "help" || str_eq name "h" then quit 0 else quit 2

-- `Set` of the flag; `parse_int` is strconv.ParseInt at base 0.
abbrev set_flag : (String → Option ℤ) → Flags → String → String → Parse
set_flag parse_int flags name value =
    if str_eq name "config"
    then parsed (record flags { config = value })
    else if str_eq name "replicas"
    then elim (parse_int value) [ none ↦ quit 2 | some n ↦ parsed (record flags { replicas = n }) ]
    else undefined name

-- A flag at the end that has no value.
abbrev no_value : String → Parse
no_value name = if str_eq name "config" || str_eq name "replicas" then quit 2 else undefined name

abbrev continue : Parse → (Flags → Parse) → Parse
continue (quit code) next = quit code
continue (parsed flags) next = next flags

unfoldable pub parse_flags : (String → Option ℤ) → Flags → List String → Parse
unfolding classify
parse_flags parse_int flags [] = parsed flags
parse_flags parse_int flags (arg ∷ []) = elim (classify arg) [
  | positional ↦ parsed flags
  | terminator ↦ parsed flags
  | malformed ↦ quit 2
  | named name (some value) ↦ set_flag parse_int flags name value
  | named name none ↦ no_value name
]
parse_flags parse_int flags (arg ∷ next ∷ args) = elim (classify arg) [
  | positional ↦ parsed flags
  | terminator ↦ parsed flags
  | malformed ↦ quit 2
  | named name (some value) ↦
      continue (set_flag parse_int flags name value)
        (λ flags'. parse_flags parse_int flags' (next ∷ args))
  | named name none ↦
      continue (set_flag parse_int flags name next) (λ flags'. parse_flags parse_int flags' args)
]
