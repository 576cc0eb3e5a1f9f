-- ===== src/Agent/SpeedTest.antt =====
-- The speed test of a node, internal/node/speedtest.go. Running a command is a parameter, and so are
-- strconv.ParseFloat and the conversion of a float64 to int64; the regular expressions are matched here.
pub mod Matching
pub mod Parsing
use Prim.Native.Char.{code}
use constelfs.Prelude.{
  ℕ, String, Bool, ◌&&◌, ◌||◌, List, [], ◌∷◌, Option, none, some, ◌⊎◌, inl, inr, ℤ, pos, leb, ◌==◌,
  if◌then◌else◌,
}
use constelfs.Prelude.Text.{concat}
use constelfs.Server.State.{Time, Float, SpeedTestResult}

-- `\s` and `[\d.]`, on bytes.
abbrev pub is_space : ℕ → Bool
is_space c = c == 9 || c == 10 || c == 12 || c == 13 || c == 32

abbrev pub is_number : ℕ → Bool
is_number c = leb b'0' c && leb c b'9' || c == b'.'

-- A literal at the front, and what is behind it.
unfoldable pub literal : List ℕ → List ℕ → Option (List ℕ)
literal [] s = some s
literal (p ∷ ps) [] = none
literal (p ∷ ps) (c ∷ s) = let rest = literal ps s in if p == c then rest else none

abbrev onto : ℕ → List ℕ × List ℕ → List ℕ × List ℕ
onto c (front, rest) = (c ∷ front, rest)

-- `+` is greedy: the longest front of bytes that the test accepts, and the rest.
unfoldable pub span : (ℕ → Bool) → List ℕ → List ℕ × List ℕ
span p [] = ([], [])
span p (c ∷ s) = let more = span p s in if p c then onto c more else ([], c ∷ s)

abbrev pub nonempty : List ℕ × List ℕ → Option (List ℕ × List ℕ)
nonempty ([], rest) = none
nonempty (c ∷ front, rest) = some (c ∷ front, rest)

infixl 5 ◌>>=◌
abbrev pub ◌>>=◌ : {A B : Type 0} → Option A → (A → Option B) → Option B
none >>= f = none
some a >>= f = f a

-- The submatch of `<prefix>\s+([\d.]+)\s+<unit>` at the front of a text. No byte is both a space and
-- part of a number, and no unit begins with a space, so that giving back what `+` has taken never helps.
unfoldable pub match_here : List ℕ → List ℕ → List ℕ → Option (List ℕ)
unfolding literal span
match_here prefix unit s = do
  a ← literal prefix s
  (blank, b) ← nonempty (span is_space a)
  (number, c) ← nonempty (span is_number b)
  (blank', d) ← nonempty (span is_space c)
  rest ← literal unit d
  some number

-- `FindStringSubmatch`: the first place in the text at which there is a match.
unfoldable pub find_submatch : List ℕ → List ℕ → List ℕ → Option (List ℕ)
unfolding match_here
find_submatch prefix unit [] = match_here prefix unit []
find_submatch prefix unit (c ∷ s) =
    let later = find_submatch prefix unit s in
    elim (match_here prefix unit (c ∷ s)) [ some number ↦ some number | none ↦ later ]

abbrev pub bytes : String → List ℕ
bytes String.[] = []
bytes (String.◌∷◌ c s) = code c ∷ bytes s

-- `ParseFloat` and the conversion to int64.
pub record Numbers : Type 0 where
  pub parse_float : List ℕ → Option Float
  pub to_int : Float → ℤ

module _ (n : Numbers) where
  -- The value behind a label; 0.0 where there is none, or where it is no number.
  abbrev pub reading : Option (List ℕ) → Float
  reading none = 0
  reading (some text) = elim (n.parse_float text) [ none ↦ 0 | some x ↦ x ]

  abbrev pub reading_int : Option (List ℕ) → ℤ
  reading_int none = pos 0
  reading_int (some text) = elim (n.parse_float text) [ none ↦ pos 0 | some x ↦ n.to_int x ]

  -- `parseSpeedTestOutput`, whose error is always nil.
  unfoldable pub parse_output : Time → List ℕ → SpeedTestResult
  unfolding find_submatch
  parse_output now output = record {
    upload_speed = reading (find_submatch (bytes "Upload:") (bytes "Mbps") output);
    download_speed = reading (find_submatch (bytes "Download:") (bytes "Mbps") output);
    latency = reading_int (find_submatch (bytes "Idle Latency:") (bytes "ms") output);
    test_time = now;
  }

  -- A machine that runs commands: an error, or what the command writes to its standard output.
  module _ {W : Type 0} (exec : W → List String → W × (String ⊎ List ℕ)) where
    unfoldable pub download_file : W → String → String → W × (String ⊎ List ℕ)
    download_file w path url = exec w ("curl" ∷ "-sL" ∷ "-o" ∷ path ∷ url ∷ [])

    abbrev script_path : String
    script_path = "/tmp/superbench.sh"

    abbrev after_script : Time → W × (String ⊎ List ℕ) → W × (String ⊎ SpeedTestResult)
    after_script now (w, inl e) = (w, inl (concat "运行测速脚本失败: " e))
    after_script now (w, inr output) = (w, inr (parse_output now output))

    abbrev after_fetch : Time → W × (String ⊎ List ℕ) → W × (String ⊎ SpeedTestResult)
    after_fetch now (w, inl e) = (w, inl (concat "下载测速脚本失败: " e))
    after_fetch now (w, inr output) =
        after_script now (exec w ("bash" ∷ script_path ∷ "--speed" ∷ []))

    -- `RunSpeedTest`.
    unfoldable pub run_speed_test : Time → W → W × (String ⊎ SpeedTestResult)
    unfolding download_file parse_output
    run_speed_test now w =
        after_fetch now
          (download_file w script_path "https://down.vpsaff.net/linux/speedtest/superbench.sh")
