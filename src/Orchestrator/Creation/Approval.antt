-- ===== src/Orchestrator/Creation/Approval.antt =====
-- What the interactive gate (orchestrator/approval.py) takes for an approval.
pub mod Lines
use fine_tune_harness.Base.{
  ℕ, String, Bool, true, false, Option, none, some, List, [], ◌∷◌, ◌++◌, map, ◌≡◌, ◌↔◌, refl, sym,
  ap, ◌∙◌, ◌⊎◌, inl, inr, arith, eq_iff, ◌==◌, Bool-cases, leb,
}
use fine_tune_harness.Base.Text.{
  codes, to_lower, codes_eq, is_space, is_blank, strip_start, keep_unless_last, strip_end, strip,
}
use fine_tune_harness.Effects.{return, raise, raise-return}
use fine_tune_harness.Orchestrator.Creation.{
  is_member, is_allowed, is_yes, interactive_check, approval_error,
}
use fine_tune_harness.Orchestrator.Creation.Approval.Lines.{
  Agrees, is_yes-Agrees, Agrees-is_yes, true-false,
}

-- The list names the actor, if there is a list.
abbrev pub Listed : String → List String → Type 0
Listed actor [] = ⊥
Listed actor (name ∷ names) = (actor ≡ name) ⊎ Listed actor names

abbrev pub Permitted : String → Option (List String) → Type 0
Permitted actor none = Unit
Permitted actor (some names) = Listed actor names

is_member-Listed :
    (actor : String) (names : List String) → is_member actor names ≡ true → Listed actor names
unfolding is_member
is_member-Listed actor [] h = absurd (true-false h)
is_member-Listed actor (name ∷ names) h = elim (Bool-cases (actor == name)) [
  | inl here ↦ inl ((eq_iff actor name).0 here)
  | inr other ↦ inr (is_member-Listed actor names (rw (other, is_member) at h))
]

Listed-is_member :
    (actor : String) (names : List String) → Listed actor names → is_member actor names ≡ true
unfolding is_member
Listed-is_member actor [] stands = absurd stands
Listed-is_member actor (name ∷ names) (inl here) = rw ((eq_iff actor name).1 here, is_member) refl
Listed-is_member actor (name ∷ names) (inr later) =
    ground (arith, Listed-is_member actor names later)

is_allowed-Permitted :
    (actor : String) (allowed : Option (List String))
    → (is_allowed actor allowed ≡ true) ↔ Permitted actor allowed
unfolding is_allowed
is_allowed-Permitted actor none = (λ _. tt, λ _. refl)
is_allowed-Permitted actor (some names) =
    (is_member-Listed actor names, Listed-is_member actor names)

-- The gate returns its actor exactly when the list of actors, if there is one, names the actor and the
-- line that was read is "y" or "yes", in any case and with any white space before and after it;
-- otherwise it raises ApprovalError. Without the permission no line is read.
pub interactive_check_approves :
    {E : Type 0} (actor : String) (allowed : Option (List String)) (read_answer : E → String × E)
    (x : E)
    → (((interactive_check actor allowed read_answer x).0 ≡ return (some actor))
        ↔ (Permitted actor allowed × Agrees (read_answer x).0))
      × (((interactive_check actor allowed read_answer x).0 ≡ return (some actor))
          ⊎ ((interactive_check actor allowed read_answer x).0 ≡ raise approval_error))
      × ((Permitted actor allowed → ⊥) → (interactive_check actor allowed read_answer x).1 ≡ x)
unfolding interactive_check
interactive_check_approves actor allowed read_answer x =
    let (permits, is_permitted) = is_allowed-Permitted actor allowed in
    elim (Bool-cases (is_allowed actor allowed)) [
      | inr refused ↦
          rw (refused, interactive_check)
            (
              (
                λ e. absurd (raise-return e),
                λ both. absurd (true-false (sym refused ∙ is_permitted both.0)),
              ),
              inr refl,
              λ _. refl,
            )
      | inl allowed_in ↦ elim (Bool-cases (is_yes (read_answer x).0)) [
        | inl agreed ↦
            rw (allowed_in, agreed, interactive_check)
              (
                (λ _. (permits allowed_in, is_yes-Agrees _ agreed), λ _. refl),
                inl refl,
                λ no. absurd (no (permits allowed_in)),
              )
        | inr denied ↦
            rw (allowed_in, denied, interactive_check)
              (
                (
                  λ e. absurd (raise-return e),
                  λ both. absurd (true-false (sym denied ∙ Agrees-is_yes _ both.1)),
                ),
                inr refl,
                λ no. absurd (no (permits allowed_in)),
              )
      ]
    ]
