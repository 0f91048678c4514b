-- ===== src/Objective.antt =====
-- internal/objective/objective.go: what a placement is worth under a policy, and which of two
-- placements is preferred.
pub mod Priority
pub mod Order
pub mod Evaluate
use Prim.Native.Nat.{compare, Ordering, min}
use sema.Base.{
  ℕ, suc, ◌+◌, ◌-◌, ◌*◌, ◌/◌, Text, List, [], ◌∷◌, Option, none, some, Bool, true, false, ◌&&◌,
  ◌||◌, ℤ, pos, negsuc, pos_part, neg_part, sub_ℕ, ltb_ℤ, leb_ℤ, leb, ◌+ℤ◌, ◌-ℤ◌, half_word, word,
  length, if◌then◌else◌,
}
use sema.Base.Sort.{sort}
use sema.Domain.{
  Time, Player, MatchTicket, RelaxationStep, RoleRequirement, RoleCount, RosterTeamSummary,
  MatchmakingPolicy, ProposalKind, new_match, backfill, ScoreEvidence,
}

pub record Evaluation : Type 0 where
  pub admissible : Bool
  pub hard_violation : Bool
  pub priority_wait_millis : List ℤ
  pub evidence : ScoreEvidence

abbrev pub max_int : ℤ
max_int = pos 9223372036854775807

abbrev pub max_ℤ : ℤ → ℤ → ℤ
max_ℤ a b = if ltb_ℤ a b then b else a

-- `now.Sub(t)`, which saturates at the ends of `time.Duration`.
unfoldable pub sub_time : Time → Time → ℤ
sub_time now t =
    if leb t now
    then pos (min (now - t) 9223372036854775807)
    else negsuc (min (t - now - 1) 9223372036854775807)

-- `d.Milliseconds()`, which truncates towards zero.
unfoldable pub milliseconds : ℤ → ℤ
milliseconds (pos n) = pos (n / 1000000)
milliseconds (negsuc n) = sub_ℕ 0 (suc n / 1000000)

-- `max(int64(0), now.Sub(t).Milliseconds())`.
unfoldable pub wait_millis : Time → Time → ℤ
unfolding sub_time milliseconds
wait_millis now t = max_ℤ (pos 0) (milliseconds (sub_time now t))

-- `time.Duration(ms) * time.Millisecond`, in 64 bits.
unfoldable pub millis_duration : ℤ → ℤ
millis_duration ms = sema.Base.wrap (sub_ℕ (pos_part ms * 1000000) (neg_part ms * 1000000))

-- The loop of `activeStep`, at a level whose step is known.
unfoldable pub step_from : ℕ → RelaxationStep → List RelaxationStep → ℤ → ℕ × RelaxationStep
step_from level current [] waited = (level, current)
step_from level current (next ∷ rest) waited =
    let later = step_from (suc level) next rest waited in
    if ltb_ℤ waited next.after_wait then (level, current) else later

abbrev pub unlimited_step : RelaxationStep
unlimited_step = record {
  after_wait = pos 0;
  max_team_skill_gap = max_int;
  max_role_penalty = max_int;
  prioritize_wait = false;
}

unfoldable pub active_step : List RelaxationStep → ℤ → ℕ × RelaxationStep
active_step [] waited = (0, unlimited_step)
active_step (first ∷ rest) waited = step_from 0 first rest waited

unfoldable pub ticket_wait_priority : Time → Time → MatchmakingPolicy → Bool × ℤ
ticket_wait_priority now enqueued_at policy =
    let waited = wait_millis now enqueued_at in
    ((active_step policy.relaxation_steps (millis_duration waited)).1.prioritize_wait, waited)

-- `cmp.Compare` on ints: -1, 0 and 1 are `lt`, `eq` and `gt`.
abbrev pub compare_int : ℤ → ℤ → Ordering
compare_int a b = compare (pos_part a + neg_part b) (pos_part b + neg_part a)

abbrev pub descending : ℤ → ℤ → Ordering
descending a b = compare_int b a

-- `if result := …; result != 0 { return result }`.
abbrev pub or_else : Ordering → Ordering → Ordering
or_else Ordering.eq next = next
or_else Ordering.lt next = Ordering.lt
or_else Ordering.gt next = Ordering.gt

unfoldable pub compare_waits : ScoreEvidence → ScoreEvidence → Ordering
compare_waits a b =
    or_else (descending a.oldest_wait_millis b.oldest_wait_millis)
      (descending a.total_wait_millis b.total_wait_millis)

unfoldable pub compare_quality : ScoreEvidence → ScoreEvidence → Ordering
compare_quality a b =
    or_else (compare_int a.role_penalty b.role_penalty)
      (compare_int a.team_skill_gap b.team_skill_gap)

unfoldable pub compare_latency : ScoreEvidence → ScoreEvidence → Ordering
compare_latency a b = compare_int a.max_latency_millis b.max_latency_millis

-- `Compare`, whose result is `lt` when the left is preferred.
unfoldable pub compare_evidence : ScoreEvidence → ScoreEvidence → Ordering
compare_evidence a b =
    if a.wait_priority || b.wait_priority
    then or_else (compare_waits a b) (or_else (compare_quality a b) (compare_latency a b))
    else or_else (compare_quality a b) (or_else (compare_waits a b) (compare_latency a b))

unfoldable pub compare_evaluations : Evaluation → Evaluation → Ordering
compare_evaluations left right = compare_evidence left.evidence right.evidence
