-- ===== src/Objective/Priority.antt =====
-- `activeStep`: the longer the wait, the looser the step.
use sema.Objective.{active_step, step_from}
use sema.Domain.Relaxation.{Relaxes, Relaxing}
use sema.Base.{
  ℕ, suc, ℤ, List, [], ◌∷◌, All, true, false, ltb_ℤ, ◌≤ℤ◌, ◌≡◌, arith, inl, inr, Bool-cases,
}
use sema.Domain.{RelaxationStep}

-- The limits of one step are at most as strict as those of another.
pub record Looser (s u : RelaxationStep) : Type 0 where
  pub skill_gap : s.max_team_skill_gap ≤ℤ u.max_team_skill_gap
  pub role_penalty : s.max_role_penalty ≤ℤ u.max_role_penalty
  pub wait_first : s.prioritize_wait ≡ true → u.prioritize_wait ≡ true

Looser-refl : (s : RelaxationStep) → Looser s s
Looser-refl s = record { skill_gap = omega arith; role_penalty = omega arith; wait_first = λ h. h }

Looser-Relaxes : (s u : RelaxationStep) → Relaxes s u → Looser s u
Looser-Relaxes s u p = record {
  skill_gap = p.skill_gap;
  role_penalty = p.role_penalty;
  wait_first = p.priority;
}

step_from-Looser :
    (s current : RelaxationStep) (rest : List RelaxationStep) (level : ℕ) (waited : ℤ)
    → Looser s current
    → All (Relaxes s) rest
    → Looser s (step_from level current rest waited).1
unfolding step_from
step_from-Looser s current [] level waited p h = p
step_from-Looser s current (next ∷ rest) level waited p h =
    elim (Bool-cases (ltb_ℤ waited next.after_wait)) [
      | inl e ↦ rw e p
      | inr e ↦
          rw e (step_from-Looser s next rest (suc level) waited (Looser-Relaxes s next h.0) h.1)
    ]

step_from_monotone :
    (current : RelaxationStep) (rest : List RelaxationStep) (level : ℕ) (waited longer : ℤ)
    → waited ≤ℤ longer
    → Relaxing (current ∷ rest)
    → Looser (step_from level current rest waited).1 (step_from level current rest longer).1
unfolding step_from
step_from_monotone current [] level waited longer le h = Looser-refl current
step_from_monotone current (next ∷ rest) level waited longer le h =
    elim (Bool-cases (ltb_ℤ waited next.after_wait)) [
      | inl e ↦
          rw e
            (step_from-Looser current current (next ∷ rest) level longer (Looser-refl current) h.0)
      | inr e ↦
          let later : ltb_ℤ longer next.after_wait ≡ false = ground arith in
          rw (e, later) (step_from_monotone next rest (suc level) waited longer le h.1)
    ]

-- Under relaxation steps of which each relaxes all before it, a longer wait never makes the
-- active step stricter: its limits do not shrink, and waiting keeps the priority it has.
pub active_step_monotone :
    (steps : List RelaxationStep) (waited longer : ℤ)
    → Relaxing steps
    → waited ≤ℤ longer
    → Looser (active_step steps waited).1 (active_step steps longer).1
unfolding active_step
active_step_monotone [] waited longer h le = Looser-refl _
active_step_monotone (first ∷ rest) waited longer h le =
    step_from_monotone first rest 0 waited longer le h
