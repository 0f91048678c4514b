-- ===== src/Planner/Placement.antt =====
-- internal/planner/planner.go: what `findBestPlacement` makes of a full placement.
use Prim.Native.Nat.{Ordering}
use sema.Base.{
  ℕ, suc, Text-discrete, List, [], ◌∷◌, Option, none, some, Bool, true, false, not, ◌&&◌, ◌||◌, ℤ,
  pos, leb_ℤ, holds, ℤ-discrete, if◌then◌else◌,
}
use sema.Domain.{Time, MatchmakingPolicy, ProposalKind, RosterTeamSummary, ScoreEvidence}
use sema.Domain.Proposal.{is_backfill}
use sema.Objective.{Evaluation, compare_evaluations, or_else}
use sema.Objective.Evaluate.{evaluate_placement, evaluate_backfill}
use sema.Planner.Teams.{Team, materialize_placement, placement_includes_index}
use sema.Planner.{Placement, placement_ticket_key, compare_placement, is_lt, is_eq}

-- `searchBudget`; `panicked` is whether Go has panicked on a missing roster
-- summary since the budget was made, which ends `Plan`.
pub record SearchBudget : Type 0 where
  pub max : ℤ
  pub used : ℕ
  pub exhausted : Bool
  pub panicked : Bool

pub record PlacementAlternative : Type 0 where
  pub placement : Placement
  pub evaluation : Evaluation

pub record PlacementSearch : Type 0 where
  pub placement : Placement
  pub evaluation : Evaluation
  pub found : Bool
  pub exact_candidates : ℕ
  pub search_nodes : ℕ
  pub truncated : Bool
  pub candidate_window_truncated : Bool
  pub saw_hard_failure : Bool
  pub saw_quality_failure : Bool
  pub alternatives : List PlacementAlternative

abbrev pub zero_evidence : ScoreEvidence
zero_evidence = record {
  relaxation_level = pos 0;
  wait_priority = false;
  role_penalty = pos 0;
  team_skill_gap = pos 0;
  oldest_wait_millis = pos 0;
  total_wait_millis = pos 0;
  max_latency_millis = pos 0;
  candidate_tickets = pos 0;
  candidates_evaluated = pos 0;
  search_nodes = pos 0;
  candidate_window_truncated = false;
  search_truncated = false;
  selection_utility = pos 0;
}

abbrev pub zero_evaluation : Evaluation
zero_evaluation = record {
  admissible = false;
  hard_violation = false;
  priority_wait_millis = [];
  evidence = zero_evidence;
}

abbrev pub no_search : PlacementSearch
no_search = record {
  placement = [];
  evaluation = zero_evaluation;
  found = false;
  exact_candidates = 0;
  search_nodes = 0;
  truncated = false;
  candidate_window_truncated = false;
  saw_hard_failure = false;
  saw_quality_failure = false;
  alternatives = [];
}

-- What a search is for: the arguments of `findBestPlacement` but its tickets and slots, and
-- `requiredIndex`.
pub record Query : Type 0 where
  pub now : Time
  pub policy : MatchmakingPolicy
  pub kind : ProposalKind
  pub existing_teams : List RosterTeamSummary
  pub backfill_enqueued_at : Time
  pub required : Option ℕ
  pub max_candidates : ℤ
  pub max_alternatives : ℤ

-- The variables that outlive a call of `search`.
pub record Run : Type 0 where
  pub budget : SearchBudget
  pub result : PlacementSearch

-- The evaluation of a full placement; none where a roster summary is missing, on which Go panics.
unfoldable pub evaluate_for : Query → Placement → Option Evaluation
evaluate_for q placement =
    if is_backfill q.kind
    then evaluate_backfill q.now placement q.policy q.existing_teams q.backfill_enqueued_at
    else evaluate_placement q.now placement q.policy q.kind

-- Whether a placement replaces another: it is better, or as good and comes first.
unfoldable pub replaces : Evaluation → Placement → Evaluation → Placement → Bool
replaces e p e' p' =
    is_lt (compare_evaluations e e')
    || (is_eq (compare_evaluations e e') && is_lt (compare_placement p p'))

unfoldable pub compare_placement_alternative :
    PlacementAlternative → PlacementAlternative → Ordering
compare_placement_alternative a b =
    or_else (compare_evaluations a.evaluation b.evaluation)
      (compare_placement a.placement b.placement)

abbrev pub alternative_less : PlacementAlternative → PlacementAlternative → Bool
alternative_less a b = is_lt (compare_placement_alternative a b)

-- `recordPlacementAlternative`. Its map leads from a key to the one alternative with that key.
unfoldable pub record_placement_alternative :
    PlacementAlternative → List PlacementAlternative → List PlacementAlternative
record_placement_alternative a [] = a ∷ []
record_placement_alternative a (b ∷ bs) =
    if holds (Text-discrete (placement_ticket_key b.placement) (placement_ticket_key a.placement))
    then (if replaces a.evaluation a.placement b.evaluation b.placement then a else b) ∷ bs
    else b ∷ record_placement_alternative a bs

-- What an admissible placement does to the result.
unfoldable pub keep_placement : Query → Placement → Evaluation → PlacementSearch → PlacementSearch
keep_placement q placement e r =
    if holds (ℤ-discrete q.max_alternatives (pos 1))
    then if not r.found || replaces e placement r.evaluation r.placement
      then record r { placement = placement; evaluation = e; found = true }
      else r
    else record r {
      alternatives =
          record_placement_alternative (record { placement = placement; evaluation = e })
            r.alternatives;
    }

-- The `switch` over the evaluation.
unfoldable pub judge_placement : Query → Placement → Evaluation → PlacementSearch → PlacementSearch
judge_placement q placement e r =
    if e.hard_violation
    then record r { saw_hard_failure = true }
    else if not e.admissible
    then record r { saw_quality_failure = true }
    else keep_placement q placement e r

abbrev pub misses_required : Option ℕ → List Team → Bool
misses_required none teams = false
misses_required (some i) teams = not (placement_includes_index i teams)

unfoldable pub count_candidate : Query → Placement → Evaluation → PlacementSearch → PlacementSearch
count_candidate q placement e r =
    judge_placement q placement e (record r { exact_candidates = suc r.exact_candidates })

-- What a full placement does once it is evaluated: whether to stop, and the run. A panic stops the
-- search for good.
unfoldable pub complete_evaluated : Query → Placement → Option Evaluation → Run → Bool × Run
complete_evaluated q placement none run =
    (true, record run { budget = record run.budget { panicked = true } })
complete_evaluated q placement (some e) run =
    let r = count_candidate q placement e run.result in
    if leb_ℤ q.max_candidates (pos r.exact_candidates)
    then (true, record run { result = record r { truncated = true } })
    else (false, record run { result = r })

-- The part of `search` for a full placement: whether to stop, and the run.
unfoldable pub complete : Query → List Team → Run → Bool × Run
complete q teams run =
    let placement = materialize_placement teams in
    if misses_required q.required teams
    then (false, run)
    else complete_evaluated q placement (evaluate_for q placement) run
