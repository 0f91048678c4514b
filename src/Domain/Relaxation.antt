-- ===== src/Domain/Relaxation.antt =====
-- What internal/domain/validate.go accepts as the relaxation steps of a policy.
use sema.Base.{
  List, [], ◌∷◌, true, ◌≡◌, refl, ◌↔◌, ◌+◌, ◌<◌, pos, pos_part, neg_part, ◌≤ℤ◌, All, arith,
}
use sema.Domain.{RelaxationStep, ok}
use sema.Domain.Validate.{check_later_steps, check_steps}

-- A later step: it starts later, allows no less, and keeps the priority of waiting.
pub record Relaxes (s u : RelaxationStep) : Type 0 where
  pub later :
      pos_part s.after_wait + neg_part u.after_wait < pos_part u.after_wait + neg_part s.after_wait
  pub skill_gap : s.max_team_skill_gap ≤ℤ u.max_team_skill_gap
  pub role_penalty : s.max_role_penalty ≤ℤ u.max_role_penalty
  pub priority : s.prioritize_wait ≡ true → u.prioritize_wait ≡ true

-- Each step is relaxed by every step after it.
abbrev pub Relaxing : List RelaxationStep → Type 0
Relaxing [] = Unit {0}
Relaxing (s ∷ ss) = All (Relaxes s) ss × Relaxing ss

pub record IsRelaxation (first : RelaxationStep) (rest : List RelaxationStep) : Type 0 where
  pub start : first.after_wait ≡ pos 0
  pub skill_gap : pos 0 ≤ℤ first.max_team_skill_gap
  pub role_penalty : pos 0 ≤ℤ first.max_role_penalty
  pub relaxing : Relaxing (first ∷ rest)

Relaxes-trans : (s t u : RelaxationStep) → Relaxes s t → Relaxes t u → Relaxes s u
Relaxes-trans s t u p q = record {
  later = omega arith;
  skill_gap = omega arith;
  role_penalty = omega arith;
  priority = λ h. q.priority (p.priority h);
}

All-Relaxes :
    (s t : RelaxationStep) (rest : List RelaxationStep)
    → Relaxes s t
    → All (Relaxes t) rest
    → All (Relaxes s) rest
All-Relaxes s t [] p h = tt
All-Relaxes s t (u ∷ rest) p h = (Relaxes-trans s t u p h.0, All-Relaxes s t rest p h.1)

accepted_steps :
    (s : RelaxationStep) (rest : List RelaxationStep)
    → check_later_steps s rest ≡ ok tt
    → Relaxing (s ∷ rest)
unfolding check_later_steps
accepted_steps s [] h = (tt, tt)
accepted_steps s (t ∷ rest) h =
    let relaxing = accepted_steps t rest (ground arith) in
    let next : Relaxes s t = ground arith in
    ((next, All-Relaxes s t rest next relaxing.0), relaxing)

steps_accepted :
    (s : RelaxationStep) (rest : List RelaxationStep)
    → Relaxing (s ∷ rest)
    → check_later_steps s rest ≡ ok tt
unfolding check_later_steps
steps_accepted s [] h = refl
steps_accepted s (t ∷ rest) h = ground (arith, steps_accepted t rest h.1, h.0.0)

-- The relaxation checks of ValidatePolicy accept a nonempty sequence of steps exactly if the first
-- starts at a wait of zero with limits that are not negative, and every step starts later than each before it, is no stricter, and does not
-- take the priority of waiting back.
pub check_steps_iff :
    (first : RelaxationStep) (rest : List RelaxationStep)
    → (check_steps (first ∷ rest) ≡ ok tt) ↔ IsRelaxation first rest
unfolding check_steps
check_steps_iff first rest = (
  λ h. record {
    start = ground arith;
    skill_gap = ground arith;
    role_penalty = ground arith;
    relaxing = accepted_steps first rest (ground arith);
  },
  λ v. ground (arith, steps_accepted first rest v.relaxing, v),
)
