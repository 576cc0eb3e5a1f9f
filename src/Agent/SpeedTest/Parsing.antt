-- ===== src/Agent/SpeedTest/Parsing.antt =====
-- What `parseSpeedTestOutput` (internal/node/speedtest.go) reads from the output of the script.
use constelfs.Prelude.{
  ℕ, ◌<◌, suc, false, List, [], ◌∷◌, ◌++◌, Option, none, some, ◌≡◌, refl, sym, ap, ◌∙◌, arith, inl,
  inr, Option-cases, Bool-cases, length, drop, drop-append_length, ltb, ltb→lt,
}
use constelfs.Server.State.{Time}
use constelfs.Agent.SpeedTest.{
  is_space, match_here, find_submatch, bytes, Numbers, reading, reading_int, parse_output,
}
use constelfs.Agent.SpeedTest.Matching.{IsMatch, match_here-IsMatch, IsMatch-match_here}

-- No match begins before the text `t` behind `before`.
abbrev NoneBefore : List ℕ → List ℕ → List ℕ → ℕ → Type 0
NoneBefore prefix unit s n =
    (before t number : List ℕ)
    → s ≡ before ++ t
    → length before < n
    → IsMatch prefix unit t number
    → ⊥

-- The first match in the text.
pub record IsFirst (prefix unit s number : List ℕ) : Type 0 where
  pub before : List ℕ
  pub t : List ℕ
  pub same : s ≡ before ++ t
  pub match : IsMatch prefix unit t number
  pub earlier : NoneBefore prefix unit s (length before)

-- The first match, or that there is none.
abbrev pub Finds : List ℕ → List ℕ → List ℕ → Option (List ℕ) → Type 0
Finds prefix unit s none =
    (before t number : List ℕ) → s ≡ before ++ t → IsMatch prefix unit t number → ⊥
Finds prefix unit s (some number) = IsFirst prefix unit s number

tail : {a b : ℕ} {x y : List ℕ} → a ∷ x ≡ b ∷ y → x ≡ y
tail e = cc

module _ (prefix us : List ℕ) (u : ℕ) (solid : is_space u ≡ false) where
  abbrev unit : List ℕ
  unit = u ∷ us

  no_match :
      (s : List ℕ)
      → match_here prefix unit s ≡ none
      → (number : List ℕ) → IsMatch prefix unit s number
      → ⊥
  no_match s e number m = cc (IsMatch-match_here prefix us s number u solid m)

  later-NoneBefore :
      (c : ℕ) (s : List ℕ) (n : ℕ)
      → match_here prefix unit (c ∷ s) ≡ none
      → NoneBefore prefix unit s n
      → NoneBefore prefix unit (c ∷ s) (suc n)
  later-NoneBefore c s n e h [] t number same low m = no_match (c ∷ s) e number (rw same m)
  later-NoneBefore c s n e h (d ∷ before) t number same low m =
      h before t number (tail same) (omega arith) m

  later-none :
      (c : ℕ) (s : List ℕ)
      → match_here prefix unit (c ∷ s) ≡ none
      → Finds prefix unit s none
      → Finds prefix unit (c ∷ s) none
  later-none c s e h [] t number same m = no_match (c ∷ s) e number (rw same m)
  later-none c s e h (d ∷ before) t number same m = h before t number (tail same) m

  later-Finds :
      (c : ℕ) (s : List ℕ) (o : Option (List ℕ))
      → match_here prefix unit (c ∷ s) ≡ none
      → Finds prefix unit s o
      → Finds prefix unit (c ∷ s) o
  later-Finds c s none e h = later-none c s e h
  later-Finds c s (some number) e h = record {
    before = c ∷ h.before;
    t = h.t;
    same = ap (λ x. c ∷ x) h.same;
    match = h.match;
    earlier = later-NoneBefore c s (length h.before) e h.earlier;
  }

  here-Finds :
      (s number : List ℕ)
      → match_here prefix unit s ≡ some number
      → Finds prefix unit s (some number)
  here-Finds s number e = record {
    before = [];
    t = s;
    same = refl;
    match = match_here-IsMatch prefix unit s number e;
    earlier = λ before t number same low m. absurd (omega arith);
  }

  empty-none : match_here prefix unit [] ≡ none → Finds prefix unit [] none
  empty-none e [] t number same m = no_match [] e number (rw same m)
  empty-none e (c ∷ before) t number same m = cc

  empty-Finds : (o : Option (List ℕ)) → match_here prefix unit [] ≡ o → Finds prefix unit [] o
  empty-Finds none e = empty-none e
  empty-Finds (some number) e = here-Finds [] number e

  -- The search finds the first match, if there is one.
  pub find_submatch-Finds : (s : List ℕ) → Finds prefix unit s (find_submatch prefix unit s)
  unfolding find_submatch
  find_submatch-Finds [] = empty-Finds (match_here prefix unit []) refl
  find_submatch-Finds (c ∷ s) = elim (Option-cases (match_here prefix unit (c ∷ s))) [
    | inl e ↦ rw (e, find_submatch) (later-Finds c s _ e (find_submatch-Finds s))
    | inr (number, e) ↦ rw (e, find_submatch) (here-Finds (c ∷ s) number e)
  ]

  at_place : (s before t : List ℕ) → s ≡ before ++ t → t ≡ drop (length before) s
  at_place s before t same = sym (ap (drop (length before)) same ∙ drop-append_length before t)

  -- A search has one result.
  Finds-unique :
      (s : List ℕ) (o o' : Option (List ℕ))
      → Finds prefix unit s o
      → Finds prefix unit s o'
      → o ≡ o'
  Finds-unique s none none h h' = refl
  Finds-unique s none (some n) h h' = absurd (h h'.before h'.t n h'.same h'.match)
  Finds-unique s (some n) none h h' = absurd (h' h.before h.t n h.same h.match)
  Finds-unique s (some n) (some n') h h' =
      elim (Bool-cases (ltb (length h.before) (length h'.before))) [
        | inl low ↦ absurd (h'.earlier h.before h.t n h.same (ltb→lt _ _ low) h.match)
        | inr high ↦ elim (Bool-cases (ltb (length h'.before) (length h.before))) [
          | inl low ↦ absurd (h.earlier h'.before h'.t n' h'.same (ltb→lt _ _ low) h'.match)
          | inr high' ↦
              let level : length h.before ≡ length h'.before = ground arith in
              let place : h.t ≡ h'.t =
                at_place s h.before h.t h.same
                ∙ ap (λ (k : ℕ). drop k s) level
                ∙ sym (at_place s h'.before h'.t h'.same) in
              sym (IsMatch-match_here prefix us h.t n u solid h.match)
              ∙ ap (match_here prefix unit) place
              ∙ IsMatch-match_here prefix us h'.t n' u solid h'.match
        ]
      ]

  pub find_submatch-eq :
      (s : List ℕ) (o : Option (List ℕ)) → Finds prefix unit s o → find_submatch prefix unit s ≡ o
  find_submatch-eq s o h = Finds-unique s _ o (find_submatch-Finds s) h

-- Let `up`, `down` and `idle` be the numbers of the first places in the output that have the form of the labels
-- `Upload:` and `Download:` before `Mbps` and of `Idle Latency:` before `ms`, with one or more spaces on both sides of the number,
-- or none where there is no such place. Then the result has the speeds and the latency that these
-- numbers stand for, and zero for a label that is missing or whose number does not parse.
pub parse_output_lem :
    (n : Numbers) (now : Time) (output : List ℕ) (up down idle : Option (List ℕ))
    → Finds (bytes "Upload:") (bytes "Mbps") output up
    → Finds (bytes "Download:") (bytes "Mbps") output down
    → Finds (bytes "Idle Latency:") (bytes "ms") output idle
    → parse_output n now output ≡ record {
      upload_speed = reading n up;
      download_speed = reading n down;
      latency = reading_int n idle;
      test_time = now;
    }
unfolding parse_output
parse_output_lem n now output up down idle u d i =
    rw
      (
        find_submatch-eq (bytes "Upload:") (bytes "bps") b'M' refl output up u,
        find_submatch-eq (bytes "Download:") (bytes "bps") b'M' refl output down d,
        find_submatch-eq (bytes "Idle Latency:") (bytes "s") b'm' refl output idle i,
      )
      refl
