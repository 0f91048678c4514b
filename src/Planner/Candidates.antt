-- ===== src/Planner/Candidates.antt =====
-- internal/planner/planner.go: the candidates for a batch, and how one is recorded.
use sema.Base.{
  pos_part, ℕ, zero, suc, Text, Text-discrete, List, [], ◌∷◌, ◌++◌, Option, none, some, Bool, false,
  ◌||◌, ℤ, pos, ltb_ℤ, leb_ℤ, ◌==◌, is_zero, length, ◌*ℤ◌, holds, bytes, has, if◌then◌else◌,
}
use sema.Base.Sort.{sort}
use sema.Domain.{
  Time, MatchTicket, BackfillTarget, MatchmakingPolicy, MatchmakingSnapshot, ProposalKind,
  new_match,
}
use sema.Objective.{ticket_wait_priority}
use sema.Planner.{Placement, PriorityDemand, ProposalCandidate, placed, canonical_candidate_key}
use sema.Planner.Batch.{demand_less}
use sema.Planner.Batch.Quality.{players_of}
use sema.Planner.Placement.{PlacementSearch, Query, replaces}
use sema.Planner.Search.{total_needed}

pub record CandidateGeneration : Type 0 where
  pub candidates : List ProposalCandidate
  pub truncated : Bool
  pub saw_hard_failure : Bool
  pub saw_quality_failure : Bool

-- `prepareSearchEvidence`.
unfoldable pub prepare_search_evidence : ℤ → Bool → PlacementSearch → PlacementSearch
prepare_search_evidence candidate_tickets window_truncated s = record s {
  candidate_window_truncated = window_truncated;
  evaluation = record s.evaluation {
    evidence = record s.evaluation.evidence {
      candidate_tickets = candidate_tickets;
      candidate_window_truncated = window_truncated;
      search_truncated = s.evaluation.evidence.search_truncated || window_truncated;
    };
  };
}

unfoldable pub ticket_demands : MatchmakingSnapshot → List MatchTicket → List PriorityDemand
ticket_demands snapshot [] = []
ticket_demands snapshot (t ∷ ts) =
    let rest = ticket_demands snapshot ts in
    let (priority, waited) = ticket_wait_priority snapshot.now t.enqueued_at snapshot.policy in
    if priority then record { key = bytes "match:" ++ t.id; wait_millis = waited } ∷ rest else rest

unfoldable pub placement_priority_demands : MatchmakingSnapshot → Placement → List PriorityDemand
placement_priority_demands snapshot placement = ticket_demands snapshot (placed placement)

unfoldable pub target_demands :
    MatchmakingSnapshot → Option BackfillTarget → Time → List PriorityDemand
target_demands snapshot none enqueued_at = []
target_demands snapshot (some target) enqueued_at =
    let (priority, waited) = ticket_wait_priority snapshot.now enqueued_at snapshot.policy in
    if priority
    then record { key = bytes "backfill:" ++ target.ticket.id; wait_millis = waited } ∷ []
    else []

-- The demands of a candidate, the oldest first.
unfoldable pub candidate_demands :
    MatchmakingSnapshot → PlacementSearch → Option BackfillTarget → Time → List PriorityDemand
candidate_demands snapshot s target enqueued_at = sort demand_less (
    (if length s.evaluation.priority_wait_millis == 0
      then []
      else placement_priority_demands snapshot s.placement)
    ++ target_demands snapshot target enqueued_at)

unfoldable pub candidate_of :
    MatchmakingSnapshot
    → PlacementSearch
    → ProposalKind
    → Option BackfillTarget
    → Time
    → ProposalCandidate
candidate_of snapshot s kind target enqueued_at = record {
  placement = s.placement;
  evaluation = s.evaluation;
  priority_demands = candidate_demands snapshot s target enqueued_at;
  kind = kind;
  target = target;
  key = canonical_candidate_key kind target s.placement;
  utility = pos 0;
  effective_utility = pos 0;
}

-- A candidate takes the place of a worse one with its key, or comes last. The map `indexes` leads
-- from a key to the one candidate with that key.
unfoldable pub record_candidate :
    ProposalCandidate → List ProposalCandidate → List ProposalCandidate
record_candidate c [] = c ∷ []
record_candidate c (d ∷ ds) =
    if holds (Text-discrete d.key c.key)
    then (if replaces c.evaluation c.placement d.evaluation d.placement then c else d) ∷ ds
    else d ∷ record_candidate c ds

-- `recordGeneratedCandidate`.
unfoldable pub record_generated_candidate :
    MatchmakingSnapshot
    → ProposalKind
    → Option BackfillTarget
    → Time
    → PlacementSearch
    → CandidateGeneration
    → CandidateGeneration
record_generated_candidate snapshot kind target enqueued_at s g = record {
  candidates =
      if s.found
      then record_candidate (candidate_of snapshot s kind target enqueued_at) g.candidates
      else g.candidates;
  truncated = g.truncated || s.truncated || s.candidate_window_truncated;
  saw_hard_failure = g.saw_hard_failure || s.saw_hard_failure;
  saw_quality_failure = g.saw_quality_failure || s.saw_quality_failure;
}

unfoldable pub repeat_slots : ℕ → ℤ → List ℤ
repeat_slots zero size = []
repeat_slots (suc n) size = size ∷ repeat_slots n size

-- `matchSlots`; Go panics on a negative count, which no valid policy has.
unfoldable pub match_slots : MatchmakingPolicy → List ℤ
match_slots policy = repeat_slots (pos_part policy.team_count) policy.team_size

unfoldable pub can_fill_multiple_proposals : List MatchTicket → List ℤ → Bool
can_fill_multiple_proposals tickets slots =
    let needed = total_needed (pos 0) slots in
    if is_zero needed then false else leb_ℤ (pos 2 *ℤ needed) (pos (players_of tickets))

unfoldable pub remove_placed : List MatchTicket → List Text → List MatchTicket
remove_placed [] selected = []
remove_placed (t ∷ ts) selected =
    if has t.id selected then remove_placed ts selected else t ∷ remove_placed ts selected

-- What the parts of a generation share: the snapshot, the limits and the tickets.
pub record Generator : Type 0 where
  pub snapshot : MatchmakingSnapshot
  pub available : List MatchTicket
  pub max_candidates_per_search : ℤ
  pub max_batch_candidates : ℤ
  pub max_candidate_tickets : ℤ

-- `len(result.candidates) < maxBatchCandidates`.
unfoldable pub has_room : Generator → CandidateGeneration → Bool
has_room m g = ltb_ℤ (pos (length g.candidates)) m.max_batch_candidates

unfoldable pub new_match_query : Generator → Query
new_match_query m = record {
  now = m.snapshot.now;
  policy = m.snapshot.policy;
  kind = new_match;
  existing_teams = [];
  backfill_enqueued_at = 0;
  required = none;
  max_candidates = m.max_candidates_per_search;
  max_alternatives = pos 1;
}

abbrev pub mark_truncated : Bool → CandidateGeneration → CandidateGeneration
mark_truncated b g = record g { truncated = g.truncated || b }
