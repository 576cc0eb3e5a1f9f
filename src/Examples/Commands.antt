-- ===== src/Examples/Commands.antt =====
-- The theorem on the client's command line, applied.
use constelfs.Prelude.{String, [], ◌∷◌, Option, some, ℤ, pos, ◌≡◌, ◌↔◌, refl}
use constelfs.Client.Command.{upload, runs, command_of, plan, default_path}
use constelfs.Client.Command.Defaults.{plan_iff}

-- Every number is read as 5.
abbrev five : String → Option ℤ
five text = some (pos 5)

plan_iff_example :
    (plan five ("upload" ∷ "a.txt" ∷ "--replicas=5" ∷ [])
      ≡ runs default_path (upload "a.txt" (pos 3)))
    ↔ ((default_path ≡ default_path)
        × (upload "a.txt" (pos 3) ≡ command_of (pos 3) "upload" ("a.txt" ∷ "--replicas=5" ∷ [])))
plan_iff_example =
    plan_iff five "upload" ("a.txt" ∷ "--replicas=5" ∷ []) default_path (upload "a.txt" (pos 3))
      refl
