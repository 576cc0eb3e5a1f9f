-- ===== src/Agent/SpeedTest/Matching.antt =====
-- What the regular expressions of internal/node/speedtest.go match.
use constelfs.Prelude.{
  ℕ, Bool, true, false, List, [], ◌∷◌, ◌++◌, Option, none, some, ◌≡◌, ◌≢◌, refl, ap, arith, inl,
  inr, Bool-cases, All, ◌==◌, ==_iff,
}
use constelfs.Agent.SpeedTest.{is_space, is_number, literal, span, nonempty, match_here, ◌>>=◌}

abbrev pub Each : (ℕ → Bool) → List ℕ → Type 0
Each p s = All (λ c. p c ≡ true) s

-- The rest does not go on with a byte that the test accepts.
abbrev Stops : (ℕ → Bool) → List ℕ → Type 0
Stops p [] = Unit
Stops p (c ∷ s) = p c ≡ false

literal-append : (p s : List ℕ) → literal p (p ++ s) ≡ some s
unfolding literal
literal-append [] s = refl
literal-append (c ∷ p) s = rw ((==_iff c c).1 refl) (literal-append p s)

literal-some : (p s rest : List ℕ) → literal p s ≡ some rest → s ≡ p ++ rest
unfolding literal
literal-some [] s rest e = cc
literal-some (c ∷ p) [] rest e = cc
literal-some (c ∷ p) (d ∷ s) rest e = elim (Bool-cases (c == d)) [
  | inl same ↦
      let rest_same = literal-some p s rest (rw same at e) in cc ((==_iff c d).0 same, rest_same)
  | inr differ ↦ cc (rw differ at e)
]

span-append :
    (p : ℕ → Bool) (front rest : List ℕ)
    → Each p front
    → Stops p rest
    → span p (front ++ rest) ≡ (front, rest)
unfolding span
span-append p [] [] each stops = refl
span-append p [] (c ∷ s) each stops = rw stops refl
span-append p (c ∷ front) rest each stops =
    rw each.0 (rw (span-append p front rest each.1 stops) refl)

span-parts :
    (p : ℕ → Bool) (s : List ℕ)
    → (s ≡ (span p s).0 ++ (span p s).1) × Each p (span p s).0 × Stops p (span p s).1
unfolding span
span-parts p [] = (refl, tt, tt)
span-parts p (c ∷ s) = elim (Bool-cases (p c)) [
  | inl e ↦
      let (same, each, stops) = span-parts p s in rw e (ap (λ t. c ∷ t) same, (e, each), stops)
  | inr e ↦ rw e (refl, tt, e)
]

-- One or more bytes that the test accepts, and no more of them behind these.
pub nonempty-append :
    (p : ℕ → Bool) (front rest : List ℕ)
    → front ≢ []
    → Each p front
    → Stops p rest
    → nonempty (span p (front ++ rest)) ≡ some (front, rest)
nonempty-append p [] rest some_ each stops = absurd (some_ refl)
nonempty-append p (c ∷ front) rest some_ each stops =
    rw (span-append p (c ∷ front) rest each stops) refl

parts_inj :
    {a b x y : List ℕ}
    → ◌≡◌ {A = Option (List ℕ × List ℕ)} (some (a, b)) (some (x, y))
    → (a ≡ x) × (b ≡ y)
parts_inj e = (cc, cc)

record Front (p : ℕ → Bool) (s front rest : List ℕ) : Type 0 where
  pub same : s ≡ front ++ rest
  pub nonnil : front ≢ []
  pub each : Each p front
  pub stops : Stops p rest

nonempty-some :
    (p : ℕ → Bool) (s front rest : List ℕ)
    → nonempty (span p s) ≡ some (front, rest)
    → Front p s front rest
nonempty-some p s front rest e = go (span p s) (span-parts p s) e
  where
    go :
        (r : List ℕ × List ℕ)
        → (s ≡ r.0 ++ r.1) × Each p r.0 × Stops p r.1
        → nonempty r ≡ some (front, rest)
        → Front p s front rest
    go ([], r) parts e = cc
    go (c ∷ f, r) (same, each, stops) e =
        let (front_same, rest_same) = parts_inj e in
        rw (← front_same, ← rest_same)
          (record { same = same; nonnil = λ nil. cc; each = each; stops = stops })

-- A text that begins with the prefix, spaces, the number, spaces and the unit.
pub record IsMatch (prefix unit s number : List ℕ) : Type 0 where
  pub blank : List ℕ
  pub blank' : List ℕ
  pub rest : List ℕ
  pub same : s ≡ prefix ++ (blank ++ (number ++ (blank' ++ (unit ++ rest))))
  pub blanks : Each is_space blank × (blank ≢ [])
  pub digits : Each is_number number × (number ≢ [])
  pub blanks' : Each is_space blank' × (blank' ≢ [])

-- Inversion of a step that succeeds.
>>=-eq-some :
    {A B : Type 0} (m : Option A) (f : A → Option B) {b : B}
    → (m >>= f) ≡ some b
    → (a : A) × (m ≡ some a) × (f a ≡ some b)
>>=-eq-some none f e = cc
>>=-eq-some (some a) f e = (a, refl, e)

pub match_here-IsMatch :
    (prefix unit s number : List ℕ)
    → match_here prefix unit s ≡ some number
    → IsMatch prefix unit s number
unfolding match_here
match_here-IsMatch prefix unit s number e =
    let (a, e1, f1) = >>=-eq-some (literal prefix s) _ e in
    let ((w, b), e2, f2) = >>=-eq-some (nonempty (span is_space a)) _ f1 in
    let ((n, c), e3, f3) = >>=-eq-some (nonempty (span is_number b)) _ f2 in
    let ((w', d), e4, f4) = >>=-eq-some (nonempty (span is_space c)) _ f3 in
    let (rest, e5, f5) = >>=-eq-some (literal unit d) _ f4 in
    let front = nonempty-some is_space a w b e2 in
    let middle = nonempty-some is_number b n c e3 in
    let back = nonempty-some is_space c w' d e4 in
    let num : n ≡ number = cc in
    rw (← num) (record {
      blank = w;
      blank' = w';
      rest = rest;
      same = cc (
        literal-some prefix s a e1,
        front.same,
        middle.same,
        back.same,
        literal-some unit d rest e5,
      );
      blanks = (front.each, front.nonnil);
      digits = (middle.each, middle.nonnil);
      blanks' = (back.each, back.nonnil);
    })

-- A number does not begin with a space, and a space is in no number.
space-Stops : (blank s : List ℕ) → Each is_space blank → blank ≢ [] → Stops is_number (blank ++ s)
space-Stops [] s each nonnil = absurd (nonnil refl)
space-Stops (c ∷ blank) s each nonnil = ground (arith, each.0)

number-Stops : (n s : List ℕ) → Each is_number n → n ≢ [] → Stops is_space (n ++ s)
number-Stops [] s each nonnil = absurd (nonnil refl)
number-Stops (c ∷ n) s each nonnil = ground (arith, each.0)

pub IsMatch-match_here :
    (prefix us s number : List ℕ) (u : ℕ)
    → is_space u ≡ false
    → IsMatch prefix (u ∷ us) s number
    → match_here prefix (u ∷ us) s ≡ some number
unfolding match_here
IsMatch-match_here prefix us s number u solid m =
    let d = (u ∷ us) ++ m.rest in
    let c = m.blank' ++ d in
    let b = number ++ c in
    rw (m.same) (
      rw (literal-append prefix (m.blank ++ b), match_here)
        (rw
          (
            nonempty-append is_space m.blank b m.blanks.1 m.blanks.0
                (number-Stops number c m.digits.0 m.digits.1),
            match_here,
          )
          (rw
            (
              nonempty-append is_number number c m.digits.1 m.digits.0
                  (space-Stops m.blank' d m.blanks'.0 m.blanks'.1),
              match_here,
            )
            (rw (nonempty-append is_space m.blank' d m.blanks'.1 m.blanks'.0 solid, match_here)
              (rw (literal-append (u ∷ us) m.rest, match_here) refl)))))
