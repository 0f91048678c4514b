-- ===== src/Planner/Collect.antt =====
-- internal/planner/planner.go: `generateProposalCandidates`, where the candidates of a batch come from.
pub mod Recorded
pub mod Shapes
pub mod Generated
use sema.Base.{
  pos_part, ℕ, zero, suc, Text, Text-discrete, List, [], ◌∷◌, ◌++◌, Option, none, some, Bool, true,
  false, not, ◌&&◌, ◌||◌, ℤ, pos, ltb_ℤ, leb_ℤ, ◌==◌, is_zero, length, ◌-ℤ◌, ◌*ℤ◌, holds,
  ℤ-discrete, bytes, has, if◌then◌else◌,
}
use sema.Base.Sort.{sort}
use sema.Domain.{
  Time, MatchTicket, BackfillTicket, BackfillTarget, MatchmakingPolicy, MatchmakingSnapshot,
  ProposalKind, new_match, backfill, RosterTeamSummary,
}
use sema.Domain.Batch.{backfill_reference}
use sema.Objective.{ticket_wait_priority}
use sema.Discovery.Window.{select_window}
use sema.Planner.{Placement, PriorityDemand, ProposalCandidate, placed, canonical_candidate_key}
use sema.Planner.Batch.{demand_less, ticket_ids}
use sema.Planner.Batch.Quality.{players_of}
use sema.Planner.Placement.{SearchBudget, PlacementSearch, PlacementAlternative, Query, replaces}
use sema.Planner.Search.{find_best_placement, total_needed}
use sema.Planner.Candidates.{
  CandidateGeneration, Generator, has_room, new_match_query, mark_truncated,
  prepare_search_evidence, record_generated_candidate, match_slots, can_fill_multiple_proposals,
  remove_placed,
}

-- The loop of `collectGreedyCoverCandidates`, with so many seeds left.
unfoldable pub greedy_cover :
    ℕ
    → Generator
    → List ℤ
    → List MatchTicket
    → CandidateGeneration
    → SearchBudget
    → CandidateGeneration × SearchBudget
greedy_cover zero m slots remaining g budget =
    (mark_truncated (budget.exhausted || not (has_room m g)) g, budget)
greedy_cover (suc seeds) m slots remaining g budget = elim (has_room m g && not budget.exhausted) [
  | false ↦ (mark_truncated (budget.exhausted || not (has_room m g)) g, budget)
  | true ↦
      let window = select_window remaining slots m.max_candidate_tickets in
      let (found, budget') =
        find_best_placement (new_match_query m) [] window.tickets slots budget in
      let s = prepare_search_evidence (pos (length window.tickets)) window.truncated found in
      let g' = record_generated_candidate m.snapshot new_match none 0 s g in
      elim s.found [
        | false ↦ (g', budget')
        | true ↦
            greedy_cover seeds m slots (remove_placed remaining (ticket_ids (placed s.placement)))
              g' budget'
      ]
]

unfoldable pub collect_greedy_cover_candidates :
    Generator → List ℤ → ℤ → CandidateGeneration → SearchBudget → CandidateGeneration × SearchBudget
collect_greedy_cover_candidates m slots max_seed_proposals g budget =
    greedy_cover (pos_part max_seed_proposals) m slots m.available g budget

-- `expandPlacementAlternatives`, and the search itself where it has no alternatives.
unfoldable pub expand_placement_alternatives :
    PlacementSearch → List PlacementAlternative → List PlacementSearch
expand_placement_alternatives s [] = []
expand_placement_alternatives s (a ∷ rest) =
    record s {
      placement = a.placement;
      evaluation = record a.evaluation {
        evidence = record a.evaluation.evidence {
          candidates_evaluated = pos s.exact_candidates;
          search_nodes = pos s.search_nodes;
          search_truncated = s.evaluation.evidence.search_truncated;
        };
      };
      alternatives = [];
    }
    ∷ expand_placement_alternatives s rest

unfoldable pub or_itself : PlacementSearch → List PlacementSearch → List PlacementSearch
or_itself s [] = s ∷ []
or_itself s (r ∷ rs) = r ∷ rs

unfoldable pub results_of : PlacementSearch → List PlacementSearch
results_of s = or_itself s (expand_placement_alternatives s s.alternatives)

-- What `collectShapeCandidates` is asked for.
pub record Shape : Type 0 where
  pub tickets : List MatchTicket
  pub slots : List ℤ
  pub kind : ProposalKind
  pub target : Option BackfillTarget
  pub existing_teams : List RosterTeamSummary
  pub backfill_enqueued_at : Time
  pub window_truncated : Bool
  pub include_anchors : Bool
  pub max_alternatives_per_search : ℤ

abbrev pub min_ℤ : ℤ → ℤ → ℤ
min_ℤ a b = if ltb_ℤ b a then b else a

unfoldable pub shape_query : Generator → Shape → CandidateGeneration → Query
shape_query m h g = record {
  now = m.snapshot.now;
  policy = m.snapshot.policy;
  kind = h.kind;
  existing_teams = h.existing_teams;
  backfill_enqueued_at = h.backfill_enqueued_at;
  required = none;
  max_candidates = m.max_candidates_per_search;
  max_alternatives =
      min_ℤ h.max_alternatives_per_search (m.max_batch_candidates -ℤ pos (length g.candidates));
}

-- The loop over the alternatives of one search.
unfoldable pub record_results :
    Generator → Shape → List PlacementSearch → CandidateGeneration → CandidateGeneration
record_results m h [] g = g
record_results m h (s ∷ ss) g =
    let s' = prepare_search_evidence (pos (length h.tickets)) h.window_truncated s in
    let g' = record_generated_candidate m.snapshot h.kind h.target h.backfill_enqueued_at s' g in
    elim (has_room m g') [ true ↦ record_results m h ss g' | false ↦ g' ]

-- The loop over the anchors, the tickets that a placement must have; a blank one asks for none.
unfoldable pub collect_anchors :
    Generator
    → Shape
    → List Text
    → CandidateGeneration
    → SearchBudget
    → CandidateGeneration × SearchBudget
collect_anchors m h [] g budget = (g, budget)
collect_anchors m h (anchor ∷ anchors) g budget = elim (budget.exhausted || not (has_room m g)) [
  | true ↦ (record g { truncated = true }, budget)
  | false ↦
      let (s, budget') = find_best_placement (shape_query m h g) anchor h.tickets h.slots budget in
      collect_anchors m h anchors (record_results m h (results_of s) g) budget'
]

unfoldable pub collect_shape_candidates :
    Generator → Shape → CandidateGeneration → SearchBudget → CandidateGeneration × SearchBudget
collect_shape_candidates m h g budget =
    collect_anchors m h ([] ∷ (if h.include_anchors then ticket_ids h.tickets else [])) g budget

unfoldable pub backfill_shape : Generator → Bool → ℤ → BackfillTicket → Shape
backfill_shape m include_anchors alternatives b =
    let window = select_window m.available b.open_slots_by_team m.max_candidate_tickets in
    record {
      tickets = window.tickets;
      slots = b.open_slots_by_team;
      kind = backfill;
      target = some (backfill_reference b);
      existing_teams = b.existing_teams;
      backfill_enqueued_at = b.enqueued_at;
      window_truncated = window.truncated;
      include_anchors = include_anchors;
      max_alternatives_per_search = alternatives;
    }

-- The loop over the backfill tickets.
unfoldable pub collect_backfills :
    Generator
    → Bool
    → ℤ
    → List BackfillTicket
    → CandidateGeneration
    → SearchBudget
    → CandidateGeneration × SearchBudget
collect_backfills m include_anchors alternatives [] g budget = (g, budget)
collect_backfills m include_anchors alternatives (b ∷ bs) g budget =
    elim (budget.exhausted || not (has_room m g)) [
      | true ↦ (record g { truncated = true }, budget)
      | false ↦
          let (g', budget') =
            collect_shape_candidates m (backfill_shape m include_anchors alternatives b) g budget in
          collect_backfills m include_anchors alternatives bs g' budget'
    ]

unfoldable pub new_match_shape : Generator → List ℤ → ℤ → Shape
new_match_shape m slots alternatives =
    let window = select_window m.available slots m.max_candidate_tickets in
    record {
      tickets = window.tickets;
      slots = slots;
      kind = new_match;
      target = none;
      existing_teams = [];
      backfill_enqueued_at = 0;
      window_truncated = window.truncated;
      include_anchors = true;
      max_alternatives_per_search = alternatives;
    }

-- The part of the generation after the greedy cover.
unfoldable pub collect_batch_alternatives :
    Generator
    → List ℤ
    → Bool
    → ℤ
    → CandidateGeneration
    → SearchBudget
    → CandidateGeneration × SearchBudget
collect_batch_alternatives m slots needed alternatives g budget =
    if needed && not budget.exhausted && has_room m g
    then collect_shape_candidates m (new_match_shape m slots alternatives) g budget
    else (mark_truncated (needed && not (length m.available == 0)) g, budget)

abbrev pub no_candidates : CandidateGeneration
no_candidates = record {
  candidates = [];
  truncated = false;
  saw_hard_failure = false;
  saw_quality_failure = false;
}

-- `singleSelectFastPath`, with 64 for `defaultMaxCandidatesPerProposal`.
unfoldable pub single_select_fast_path : Generator → List BackfillTicket → ℤ → Bool
single_select_fast_path m backfills max_seed_proposals =
    leb_ℤ (pos 64) m.max_candidates_per_search
    && (holds (ℤ-discrete max_seed_proposals (pos 1))
        || ((length backfills == 0)
            && not (can_fill_multiple_proposals m.available (match_slots m.snapshot.policy))))

unfoldable pub greedy_part :
    Generator → List ℤ → ℤ → CandidateGeneration → SearchBudget → CandidateGeneration × SearchBudget
greedy_part m slots max_seed_proposals g budget =
    if not budget.exhausted && has_room m g
    then collect_greedy_cover_candidates m slots max_seed_proposals g budget
    else (g, budget)

-- `generateProposalCandidates`.
unfoldable pub generate_proposal_candidates :
    Generator → List BackfillTicket → ℤ → Bool → SearchBudget → CandidateGeneration × SearchBudget
generate_proposal_candidates m backfills max_seed_proposals expand budget =
    let fast = single_select_fast_path m backfills max_seed_proposals in
    let alternatives = if expand && not fast then m.max_candidates_per_search else pos 1 in
    let slots = match_slots m.snapshot.policy in
    let (g, b) = collect_backfills m (not fast) alternatives backfills no_candidates budget in
    let (g', b') = greedy_part m slots max_seed_proposals g b in
    let (g'', b'') = collect_batch_alternatives m slots (not fast) alternatives g' b' in
    (mark_truncated b''.exhausted g'', b'')
