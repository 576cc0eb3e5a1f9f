-- ===== src/Client/Command/Defaults.antt =====
-- The flags of the client's command line (cmd/client/main.go).
use constelfs.Prelude.{
  String, ◌↔◌, Bool, true, false, List, [], ◌∷◌, Option, none, some, inl, inr, ◌≡◌, refl, sym, ap,
  ◌∙◌, ℤ, pos, str_eq, eq_iff, Bool-cases,
}
use constelfs.Client.Command.Parsing.{Flags, Parse, parsed, quit, positional, classify, parse_flags}
use constelfs.Client.Command.{
  Command, upload, unknown, runs, defaults, command_of, with_flags, plan, default_path,
}

-- The number of replicas that a command names.
abbrev pub replicas_in : Command → Option ℤ
replicas_in (upload path n) = some n
replicas_in _ = none

-- A command that the client knows, with its arguments.
abbrev pub is_known : Command → Bool
is_known (unknown name) = false
is_known _ = true

parse_flags_positional :
    (parse_int : String → Option ℤ) (flags : Flags) (name : String) (args : List String)
    → classify name ≡ positional
    → parse_flags parse_int flags (name ∷ args) ≡ parsed flags
unfolding parse_flags
parse_flags_positional parse_int flags name [] e = rw (e, parse_flags) refl
parse_flags_positional parse_int flags name (a ∷ args) e = rw (e, parse_flags) refl

-- The word of a known command is no flag.
known-positional :
    (n : ℤ) (name : String) (args : List String)
    → is_known (command_of n name args) ≡ true
    → classify name ≡ positional
unfolding classify
known-positional n name args h = elim (Bool-cases (str_eq name "upload")) [
  | inl e ↦ rw ((eq_iff name "upload").0 e) refl
  | inr e1 ↦ elim (Bool-cases (str_eq name "download")) [
    | inl e ↦ rw ((eq_iff name "download").0 e) refl
    | inr e2 ↦ elim (Bool-cases (str_eq name "list")) [
      | inl e ↦ rw ((eq_iff name "list").0 e) refl
      | inr e3 ↦ elim (Bool-cases (str_eq name "delete")) [
        | inl e ↦ rw ((eq_iff name "delete").0 e) refl
        | inr e4 ↦ elim (Bool-cases (str_eq name "nodes")) [
          | inl e ↦ rw ((eq_iff name "nodes").0 e) refl
          | inr e5 ↦ cc (rw (e1, e2, e3, e4, e5) at h)
        ]
      ]
    ]
  ]
]

plan-parsed :
    (parse_int : String → Option ℤ) (name : String) (args : List String) (p : Parse) (path : String)
    (command : Command)
    → parse_flags parse_int defaults (name ∷ args) ≡ p
    → with_flags p name args ≡ runs path command
    → is_known command ≡ true
    → (path ≡ default_path) × (command ≡ command_of (pos 3) name args)
plan-parsed parse_int name args (quit code) path command e r known = cc
plan-parsed parse_int name args (parsed flags) path command e r known =
    let same : command_of flags.replicas name args ≡ command = cc in
    let word = known-positional flags.replicas name args (ap is_known same ∙ known) in
    let given : defaults ≡ flags =
      cc (e, parse_flags_positional parse_int defaults name args word) in
    (
      runs-path r ∙ ap (λ (g : Flags). g.config) (sym given),
      sym same ∙ ap (λ (g : Flags). command_of g.replicas name args) (sym given),
    )
  where
    runs-path : {p q : String} {c d : Command} → runs p c ≡ runs q d → q ≡ p
    runs-path e = cc

-- Whatever the arguments are, a command that the client knows is run exactly if the first argument and those behind it make
-- that command with 3 replicas, and it is run with the default configuration file: no flag on the command
-- line takes effect.
pub plan_iff :
    (parse_int : String → Option ℤ) (name : String) (args : List String) (path : String)
    (command : Command)
    → is_known command ≡ true
    → (plan parse_int (name ∷ args) ≡ runs path command)
      ↔ ((path ≡ default_path) × (command ≡ command_of (pos 3) name args))
unfolding plan
plan_iff parse_int name args path command known = (
  λ r. plan-parsed parse_int name args _ path command refl r known,
  λ (where_, what).
      let word = known-positional (pos 3) name args (ap is_known (sym what) ∙ known) in
      rw (parse_flags_positional parse_int defaults name args word) (cc (where_, what)),
)
