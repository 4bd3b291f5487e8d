-- ===== src/Orchestrator/Creation/Approval/Lines.antt =====
-- What the interactive gate (orchestrator/approval.py) reads as a yes.
use fine_tune_harness.Base.{
  ℕ, String, Bool, true, false, List, [], ◌∷◌, ◌++◌, map, ◌≡◌, refl, ap, ◌∙◌, ◌⊎◌, inl, inr, arith,
  Bool-cases, leb,
}
use fine_tune_harness.Base.Text.{
  codes, to_lower, codes_eq, is_space, is_blank, strip_start, keep_unless_last, strip_end, strip,
}
use fine_tune_harness.Orchestrator.Creation.{is_yes}

-- The line is the word, in any case, with white space before and after it.
abbrev pub Says : (line word : List ℕ) → Type 0
Says line word =
    (before said after : List ℕ) × (line ≡ before ++ (said ++ after))
    × (is_blank before ≡ true)
    × (is_blank after ≡ true)
    × (map to_lower said ≡ word)

codes_eq-≡ : (xs ys : List ℕ) → codes_eq xs ys ≡ true → xs ≡ ys
unfolding codes_eq
codes_eq-≡ [] [] h = refl
codes_eq-≡ [] (y ∷ ys) h = ground arith
codes_eq-≡ (x ∷ xs) [] h = ground arith
codes_eq-≡ (x ∷ xs) (y ∷ ys) h = ground (arith, codes_eq-≡ xs ys)

codes_eq_refl : (xs : List ℕ) → codes_eq xs xs ≡ true
unfolding codes_eq
codes_eq_refl [] = refl
codes_eq_refl (x ∷ xs) = ground (arith, codes_eq_refl xs)

start-lem :
    (cs : List ℕ) → (before : List ℕ) × (cs ≡ before ++ strip_start cs) × (is_blank before ≡ true)
unfolding strip_start is_blank
start-lem [] = ([], refl, refl)
start-lem (c ∷ cs) = elim (Bool-cases (is_space c)) [
  | inl space ↦
      let (before, same, blank) = start-lem cs in
      (c ∷ before, rw space (ap (λ xs. c ∷ xs) same), rw space blank)
  | inr other ↦ ([], rw other refl, refl)
]

keep-lem :
    (c : ℕ) (kept after : List ℕ)
    → is_blank after ≡ true
    → (rest : List ℕ) × (c ∷ (kept ++ after) ≡ keep_unless_last c kept ++ rest)
      × (is_blank rest ≡ true)
unfolding keep_unless_last is_blank
keep-lem c (d ∷ kept) after blank = (after, refl, blank)
keep-lem c [] after blank = elim (Bool-cases (is_space c)) [
  | inl space ↦ (c ∷ after, rw space refl, rw space blank)
  | inr other ↦ (after, rw other refl, blank)
]

end-lem : (cs : List ℕ) → (after : List ℕ) × (cs ≡ strip_end cs ++ after) × (is_blank after ≡ true)
unfolding strip_end is_blank
end-lem [] = ([], refl, refl)
end-lem (c ∷ cs) =
    let (after, same, blank) = end-lem cs in
    let (rest, whole, blank') = keep-lem c (strip_end cs) after blank in
    (rest, ap (λ xs. c ∷ xs) same ∙ whole, blank')

strip-Says : (line : List ℕ) → Says line (map to_lower (strip line))
unfolding strip
strip-Says line =
    let (before, same, blank) = start-lem line in
    let (after, same', blank') = end-lem (strip_start line) in
    (before, strip line, after, same ∙ ap (λ xs. before ++ xs) same', blank, blank', refl)

pub true-false : ◌≡◌ {A = Bool} false true → ⊥
true-false e = cc

start-blank :
    (before rest : List ℕ)
    → is_blank before ≡ true
    → strip_start (before ++ rest) ≡ strip_start rest
unfolding strip_start is_blank
start-blank [] rest h = refl
start-blank (c ∷ before) rest h = elim (Bool-cases (is_space c)) [
  | inl space ↦ rw (space, strip_start) (start-blank before rest (rw (space, is_blank) at h))
  | inr other ↦ absurd (true-false (rw (other, is_blank) at h))
]

end-blank : (after : List ℕ) → is_blank after ≡ true → strip_end after ≡ []
unfolding strip_end is_blank keep_unless_last
end-blank [] h = refl
end-blank (c ∷ after) h = elim (Bool-cases (is_space c)) [
  | inl space ↦ rw (end-blank after (rw (space, is_blank) at h), space, keep_unless_last) refl
  | inr other ↦ absurd (true-false (rw (other, is_blank) at h))
]

-- A letter of "yes" in either case is no white space.
letter-lem : (c d : ℕ) → to_lower c ≡ d → leb 97 d ≡ true → leb d 122 ≡ true → is_space c ≡ false
unfolding to_lower is_space
letter-lem c d h low high = ground arith

abbrev NoSpace : List ℕ → Type 0
NoSpace [] = Unit
NoSpace (c ∷ cs) = (is_space c ≡ false) × NoSpace cs

abbrev Letters : List ℕ → Type 0
Letters [] = Unit
Letters (c ∷ cs) = (leb 97 c ≡ true) × (leb c 122 ≡ true) × Letters cs

heads : {c d : ℕ} {cs ds : List ℕ} → c ∷ cs ≡ d ∷ ds → (c ≡ d) × (cs ≡ ds)
heads e = (cc, cc)

no_heads : {c : ℕ} {cs : List ℕ} → ◌≡◌ {A = List ℕ} [] (c ∷ cs) → ⊥
no_heads e = cc

no_tails : {c : ℕ} {cs : List ℕ} → ◌≡◌ {A = List ℕ} (c ∷ cs) [] → ⊥
no_tails e = cc

Letters-NoSpace : (said word : List ℕ) → map to_lower said ≡ word → Letters word → NoSpace said
Letters-NoSpace [] word same letters = tt
Letters-NoSpace (c ∷ cs) [] same letters = absurd (no_tails same)
Letters-NoSpace (c ∷ cs) (d ∷ ds) same (low, high, letters) =
    let (here, later) = heads same in
    (letter-lem c d here low high, Letters-NoSpace cs ds later letters)

keep-word : (c : ℕ) (cs : List ℕ) → is_space c ≡ false → keep_unless_last c cs ≡ c ∷ cs
unfolding keep_unless_last
keep-word c [] other = rw other refl
keep-word c (d ∷ cs) other = refl

end-word :
    (said after : List ℕ) → NoSpace said → is_blank after ≡ true → strip_end (said ++ after) ≡ said
unfolding strip_end
end-word [] after plain blank = end-blank after blank
end-word (c ∷ cs) after (other, plain) blank =
    rw (end-word cs after plain blank) (keep-word c cs other)

strip-word :
    (before said after : List ℕ) (w : ℕ) (ws : List ℕ)
    → is_blank before ≡ true
    → is_blank after ≡ true
    → map to_lower said ≡ w ∷ ws
    → Letters (w ∷ ws)
    → strip (before ++ (said ++ after)) ≡ said
unfolding strip strip_start
strip-word before [] after w ws blank blank' same letters = absurd (no_heads same)
strip-word before (c ∷ cs) after w ws blank blank' same letters =
    let plain = Letters-NoSpace (c ∷ cs) (w ∷ ws) same letters in
    rw (start-blank before (c ∷ (cs ++ after)) blank, plain.0)
      (end-word (c ∷ cs) after plain blank')

Says-strip :
    (line : List ℕ) (w : ℕ) (ws : List ℕ)
    → Letters (w ∷ ws)
    → Says line (w ∷ ws)
    → map to_lower (strip line) ≡ w ∷ ws
Says-strip line w ws letters (before, said, after, whole, blank, blank', same) =
    rw whole
      (ap (map to_lower) (strip-word before said after w ws blank blank' same letters) ∙ same)

-- The line says "y" or "yes".
abbrev pub Agrees : String → Type 0
Agrees line = Says (codes line) (codes "y") ⊎ Says (codes line) (codes "yes")

pub is_yes-Agrees : (line : String) → is_yes line ≡ true → Agrees line
unfolding is_yes
is_yes-Agrees line h =
    elim (Bool-cases (codes_eq (map to_lower (strip (codes line))) (codes "y"))) [
      | inl y ↦ inl (rw (← codes_eq-≡ _ _ y) (strip-Says (codes line)))
      | inr other ↦
          inr
            (rw (← codes_eq-≡ _ (codes "yes") (rw (other, is_yes) at h)) (strip-Says (codes line)))
    ]

pub Agrees-is_yes : (line : String) → Agrees line → is_yes line ≡ true
unfolding is_yes codes
Agrees-is_yes line (inl y) =
    rw (Says-strip (codes line) 121 [] (refl, refl, tt) y) (rw (codes_eq_refl (121 ∷ [])) refl)
Agrees-is_yes line (inr said) =
    rw
      (Says-strip (codes line) 121 (101 ∷ 115 ∷ []) (refl, refl, (refl, refl, (refl, refl, tt)))
        said)
      (ground (arith, codes_eq_refl (121 ∷ 101 ∷ 115 ∷ [])))
