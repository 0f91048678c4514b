-- ===== src/Objective/Evaluate.antt =====
-- internal/objective/objective.go: `evaluate`, `Evaluate` and `EvaluateBackfill`.
pub mod Waits
pub mod Total
use mathlib.Core.Option.{map as map_option}
use sema.Base.{
  quot, ℕ, suc, ◌*◌, ◌/◌, ◌+◌, Text, Text-discrete, List, [], ◌∷◌, ◌++◌, Option, none, some, Bool,
  true, false, ◌&&◌, ◌||◌, ℤ, pos, negsuc, sub_ℕ, ltb_ℤ, is_not_positive, is_zero, wrap, ◌+ℤ◌, ◌-ℤ◌,
  holds, if◌then◌else◌,
}
use sema.Base.Sort.{sort}
use sema.Domain.{
  Time, Player, MatchTicket, RelaxationStep, RoleRequirement, RoleCount, RosterTeamSummary,
  MatchmakingPolicy, ProposalKind, new_match, backfill, ScoreEvidence,
}
use sema.Constraint.{team_role_count}
use sema.Objective.{
  Evaluation, max_ℤ, wait_millis, millis_duration, active_step, ticket_wait_priority,
}

-- The variables of the loop over the teams.
pub record Tally : Type 0 where
  pub priority_wait_millis : List ℤ
  pub oldest_wait_millis : ℤ
  pub total_wait_millis : ℤ
  pub max_latency_millis : ℤ
  pub team_skill : ℤ
  pub team_players : ℤ
  -- `minimumAverage` and `maximumAverage`, once `hasAverage`.
  pub averages : Option (ℤ × ℤ)

-- A team of tickets with its summary, where there are summaries.
abbrev pub Side : Type 0
Side = Option RosterTeamSummary × List MatchTicket

unfoldable pub any_wait_priority : List RelaxationStep → Bool
any_wait_priority [] = false
any_wait_priority (s ∷ ss) = if s.prioritize_wait then true else any_wait_priority ss

unfoldable pub tally_players : List Player → Tally → Tally
tally_players [] v = v
tally_players (p ∷ ps) v = tally_players ps (record v {
  team_skill = v.team_skill +ℤ p.skill;
  team_players = v.team_players +ℤ pos 1;
  max_latency_millis =
      if ltb_ℤ v.max_latency_millis p.latency_millis
      then p.latency_millis
      else v.max_latency_millis;
})

unfoldable pub tally_wait : Time → MatchmakingPolicy → MatchTicket → Tally → Tally
tally_wait now policy t v =
    let waited = wait_millis now t.enqueued_at in
    record v {
      priority_wait_millis =
          if any_wait_priority policy.relaxation_steps
            && (ticket_wait_priority now t.enqueued_at policy).0
          then v.priority_wait_millis ++ waited ∷ []
          else v.priority_wait_millis;
      oldest_wait_millis =
          if ltb_ℤ v.oldest_wait_millis waited then waited else v.oldest_wait_millis;
      total_wait_millis = v.total_wait_millis +ℤ waited;
    }

unfoldable pub tally_tickets : Time → MatchmakingPolicy → List MatchTicket → Tally → Tally
tally_tickets now policy [] v = v
tally_tickets now policy (t ∷ ts) v =
    tally_tickets now policy ts (tally_players t.players (tally_wait now policy t v))

unfoldable pub start_team : Option RosterTeamSummary → Tally → Tally
start_team none v = record v { team_skill = pos 0; team_players = pos 0 }
start_team (some s) v = record v {
  team_skill = s.skill_total;
  team_players = s.player_count;
  max_latency_millis = max_ℤ v.max_latency_millis s.max_latency_millis;
}

unfoldable pub widen : ℤ → Option (ℤ × ℤ) → Option (ℤ × ℤ)
widen average none = some (average, average)
widen average (some (low, high)) =
    some (if ltb_ℤ average low then average else low, if ltb_ℤ high average then average else high)

unfoldable pub end_team : Bool → Tally → Tally
end_team quality v =
    if quality && (if is_zero v.team_players then false else true)
    then record v { averages = widen (quot v.team_skill v.team_players) v.averages }
    else v

unfoldable pub tally_teams : Time → MatchmakingPolicy → Bool → List Side → Tally → Tally
tally_teams now policy quality [] v = v
tally_teams now policy quality ((summary, team) ∷ sides) v =
    tally_teams now policy quality sides
      (end_team quality (tally_tickets now policy team (start_team summary v)))

-- `roleCounts[team][role]` before the tickets: the last count of a role that the summary lists.
unfoldable pub listed_count : Text → ℤ → List RoleCount → ℤ
listed_count role n [] = n
listed_count role n (r ∷ rs) =
    listed_count role (if holds (Text-discrete r.role role) then r.count else n) rs

unfoldable pub existing_count : Text → Option RosterTeamSummary → ℤ
existing_count role none = pos 0
existing_count role (some s) = listed_count role (pos 0) s.role_counts

-- The loop over the teams for one requirement: the hard violation and the penalty so far.
unfoldable pub penalise_teams : RoleRequirement → List Side → Bool × ℤ → Bool × ℤ
penalise_teams r [] v = v
penalise_teams r ((summary, team) ∷ sides) (violation, penalty) =
    let deficit = r.min_per_team -ℤ team_role_count r.role (existing_count r.role summary) team in
    penalise_teams r sides (
      if is_not_positive deficit
      then (violation, penalty)
      else (if r.hard then (true, penalty) else (violation, penalty +ℤ deficit)))

unfoldable pub penalise : List RoleRequirement → List Side → Bool × ℤ → Bool × ℤ
penalise [] sides v = v
penalise (r ∷ rs) sides v = penalise rs sides (penalise_teams r sides v)

unfoldable pub skill_gap : Option (ℤ × ℤ) → ℤ
skill_gap none = pos 0
skill_gap (some (low, high)) = high -ℤ low

abbrev pub later_first : ℤ → ℤ → Bool
later_first a b = ltb_ℤ b a

abbrev pub no_tally : Tally
no_tally = record {
  priority_wait_millis = [];
  oldest_wait_millis = pos 0;
  total_wait_millis = pos 0;
  max_latency_millis = pos 0;
  team_skill = pos 0;
  team_players = pos 0;
  averages = none;
}

-- The end of `evaluate`: the active step and the verdict.
unfoldable pub conclude : MatchmakingPolicy → Bool × ℤ → ℤ → Tally → Evaluation
conclude policy (violation, penalty) gap v =
    let active = active_step policy.relaxation_steps (millis_duration v.oldest_wait_millis) in
    record {
      admissible =
          if violation
            || ltb_ℤ active.1.max_team_skill_gap gap
            || ltb_ℤ active.1.max_role_penalty penalty
          then false
          else true;
      hard_violation = violation;
      priority_wait_millis = sort later_first v.priority_wait_millis;
      evidence = record {
        relaxation_level = pos active.0;
        wait_priority = active.1.prioritize_wait;
        role_penalty = penalty;
        team_skill_gap = gap;
        oldest_wait_millis = v.oldest_wait_millis;
        total_wait_millis = v.total_wait_millis;
        max_latency_millis = v.max_latency_millis;
        candidate_tickets = pos 0;
        candidates_evaluated = pos 0;
        search_nodes = pos 0;
        candidate_window_truncated = false;
        search_truncated = false;
        selection_utility = pos 0;
      };
    }

-- `evaluate`, with each team beside its summary.
unfoldable pub evaluate_sides : Time → List Side → MatchmakingPolicy → Bool → Bool → Evaluation
evaluate_sides now sides policy quality violation =
    let v = tally_teams now policy quality sides no_tally in
    if quality
    then conclude policy (penalise policy.role_requirements sides (violation, pos 0))
        (skill_gap v.averages) v
    else conclude policy (violation, pos 0) (pos 0) v

abbrev pub is_new_match : ProposalKind → Bool
is_new_match new_match = true
is_new_match _ = false

abbrev pub bare_sides : List (List MatchTicket) → List Side
bare_sides [] = []
bare_sides (team ∷ teams) = (none, team) ∷ bare_sides teams

-- `existing[team]` for each team; `none` where it is out of range, on which Go panics.
unfoldable pub beside : List RosterTeamSummary → List (List MatchTicket) → Option (List Side)
beside existing [] = some []
beside [] (team ∷ teams) = none
beside (s ∷ existing) (team ∷ teams) =
    map_option (λ sides. (some s, team) ∷ sides) (beside existing teams)

unfoldable pub evaluate :
    Time
    → List (List MatchTicket)
    → MatchmakingPolicy
    → ProposalKind
    → List RosterTeamSummary
    → Option Evaluation
evaluate now teams policy kind [] = some (
    evaluate_sides now (bare_sides teams) policy (is_new_match kind)
      (sema.Constraint.hard_violation teams policy kind))
evaluate now teams policy kind (s ∷ existing) =
    map_option
      (λ sides.
        evaluate_sides now sides policy true (sema.Constraint.hard_violation teams policy kind))
      (beside (s ∷ existing) teams)

-- `EvaluateBackfill` after `evaluate`: the wait of the backfill ticket joins the evidence.
unfoldable pub join_backfill : Bool × ℤ → Evaluation → Evaluation
join_backfill (priority, waited) e = record e {
  priority_wait_millis =
      if priority
      then sort later_first (e.priority_wait_millis ++ waited ∷ [])
      else e.priority_wait_millis;
  evidence = record e.evidence {
    wait_priority = e.evidence.wait_priority || priority;
    oldest_wait_millis = max_ℤ e.evidence.oldest_wait_millis waited;
    total_wait_millis = e.evidence.total_wait_millis +ℤ waited;
  };
}

unfoldable pub evaluate_backfill :
    Time
    → List (List MatchTicket)
    → MatchmakingPolicy
    → List RosterTeamSummary
    → Time
    → Option Evaluation
evaluate_backfill now teams policy existing enqueued_at =
    map_option (join_backfill (ticket_wait_priority now enqueued_at policy))
      (evaluate now teams policy backfill existing)

-- `Evaluate`.
unfoldable pub evaluate_placement :
    Time → List (List MatchTicket) → MatchmakingPolicy → ProposalKind → Option Evaluation
evaluate_placement now teams policy kind = evaluate now teams policy kind []
