-- ===== src/Planner/Plan/Outcome.antt =====
-- internal/planner/planner.go: when `Plan` has an outcome.
use sema.Domain.Batch.{ProposalBatch}
use sema.Domain.Policy.{encode_policy, fingerprint_policy}
use sema.Planner.Plan.{plan_batch, plan_checked, plan_panics}
use sema.Planner.Plan.{plan}
use sema.Domain.Validate.{validate_policy, validate_snapshot}
use sema.Base.{some, none, if◌then◌else◌, inr, inl, arith, Text, ◌≡◌}
use sema.Domain.{err, FailureCode, Result-cases, ok, MatchmakingSnapshot}

validate_policy_of_snapshot :
    (s : MatchmakingSnapshot) → validate_snapshot s ≡ ok tt → validate_policy s.policy ≡ ok tt
unfolding validate_snapshot
validate_policy_of_snapshot s h = ground arith

pub plan-err :
    (digest : Text → Text) (s : MatchmakingSnapshot) (e : FailureCode)
    → validate_snapshot s ≡ err e
    → plan digest s ≡ some (err e)
unfolding plan plan_checked
plan-err digest s e h = ground arith

-- What becomes of an accepted snapshot.
pub plan-accepted :
    (digest : Text → Text) (s : MatchmakingSnapshot)
    → validate_snapshot s ≡ ok tt
    → plan digest s ≡ (
        if plan_panics s
        then none
        else some (ok (plan_batch digest s (digest (encode_policy s.policy)))))
unfolding plan plan_checked fingerprint_policy
plan-accepted digest s h = let valid = validate_policy_of_snapshot s h in ground arith

pub plan-ok :
    (digest : Text → Text) (s : MatchmakingSnapshot) (batch : ProposalBatch)
    → plan digest s ≡ some (ok batch)
    → (validate_snapshot s ≡ ok tt)
      × (plan_batch digest s (digest (encode_policy s.policy)) ≡ batch)
plan-ok digest s batch h = elim (Result-cases (validate_snapshot s)) [
  | inl (e, bad) ↦ let outcome = plan-err digest s e bad in absurd (ground arith)
  | inr (u, fine) ↦ let outcome = plan-accepted digest s fine in (fine, ground arith)
]
