-- ===== src/Planner/Plan.antt =====
-- internal/planner/planner.go: `Plan`, from a snapshot to the batch of its proposals.
pub mod Outcome
pub mod Queue
pub mod Chosen
pub mod Batches
pub mod Results
pub mod Accepted
use sema.Planner.Proposal.{build_proposals}
use sema.Domain.Validate.{validate_snapshot}
use sema.Objective.{max_ℤ}
use sema.Planner.Batch.Search.{select_proposal_batch}
use sema.Constraint.{ticket_allowed}
use sema.Planner.Placement.{SearchBudget}
use sema.Planner.Batch.{supply, all_names, rank_candidate_utilities, ticket_ids, BatchSelection}
use sema.Domain.Policy.{fingerprint_policy, big_endian, append_canonical_string}
use sema.Base.Sort.{sort}
use sema.Planner.Candidates.{remove_placed, Generator, CandidateGeneration}
use sema.Planner.Collect.{generate_proposal_candidates}
use sema.Domain.Batch.{
  insufficient_capacity, quality_threshold, batch_objective, proposal_limit, hard_constraint,
  BatchScoreEvidence, ticket_reference, ProposalBatch, UnmatchedTicket, search_budget,
  UnmatchedReason,
}
use sema.Planner.{
  kind_text, placed, compare_queue_order, references, PriorityDemand, ProposalCandidate, is_lt,
  Placement,
}
use sema.Base.{
  none, some, to_word, bytes, some, zero, suc, ◌++◌, ◌-◌, ltb, false, leb, leb_ℤ, has, length, ◌&&◌,
  ◌-◌, ◌||◌, Option, [], decimal, if◌then◌else◌, is_zero, pos, suc, ◌∷◌, Bool, List, Text, ℤ, ℕ,
}
use sema.Domain.{
  err, ok, ◌>>◌, ◌>>=◌, BackfillTarget, MatchProposal, Result, TeamAssignment, TicketRef,
  BackfillTicket, MatchmakingPolicy, MatchmakingSnapshot, MatchTicket,
}

-- The tickets that some hard constraint leaves, and those that it does not.
unfoldable pub allowed_tickets : MatchmakingPolicy → List MatchTicket → List MatchTicket
allowed_tickets policy [] = []
allowed_tickets policy (t ∷ ts) =
    if ticket_allowed t policy.team_size policy.max_latency_millis
    then t ∷ allowed_tickets policy ts
    else allowed_tickets policy ts

unfoldable pub rejected_tickets : MatchmakingPolicy → List MatchTicket → List MatchTicket
rejected_tickets policy [] = []
rejected_tickets policy (t ∷ ts) =
    if ticket_allowed t policy.team_size policy.max_latency_millis
    then rejected_tickets policy ts
    else t ∷ rejected_tickets policy ts

abbrev pub ticket_less : MatchTicket → MatchTicket → Bool
ticket_less a b = is_lt (compare_queue_order a.enqueued_at a.id b.enqueued_at b.id)

unfoldable pub sort_tickets : List MatchTicket → List MatchTicket
sort_tickets tickets = sort ticket_less tickets

abbrev pub backfill_less : BackfillTicket → BackfillTicket → Bool
backfill_less a b = is_lt (compare_queue_order a.enqueued_at a.id b.enqueued_at b.id)

unfoldable pub sort_backfills : List BackfillTicket → List BackfillTicket
sort_backfills tickets = sort backfill_less tickets

-- The limits of a cycle: those of the policy, and a default for each that is 0.
pub record PlanLimits : Type 0 where
  pub max_proposals : ℤ
  pub max_search_nodes : ℤ
  pub small_queue : Bool
  pub max_candidates : ℤ
  pub max_batch_candidates : ℤ
  pub max_batch_search_nodes : ℤ

abbrev pub or_default : ℤ → ℤ → ℤ
or_default n default = if is_zero n then default else n

unfoldable pub small_queue_expanded_search :
    MatchmakingPolicy → List MatchTicket → List BackfillTicket → Bool
small_queue_expanded_search policy available backfills =
    is_zero policy.max_candidates_per_proposal
    && is_zero policy.max_batch_candidates
    && leb (length available) 12
    && leb (length backfills) 2
    && leb_ℤ policy.team_count (pos 2)

unfoldable pub plan_limits : MatchmakingPolicy → Bool → PlanLimits
plan_limits policy small = record {
  max_proposals = or_default policy.max_proposals (pos 64);
  max_search_nodes = or_default policy.max_search_nodes (pos 100000);
  small_queue = small;
  max_candidates =
      or_default policy.max_candidates_per_proposal (if small then pos 4096 else pos 64);
  max_batch_candidates =
      or_default policy.max_batch_candidates (if small then pos 4096 else pos 256);
  max_batch_search_nodes = or_default policy.max_batch_search_nodes (pos 100000);
}

-- `priorityDemandEvidence`: how many demands there are, and the oldest.
unfoldable pub demand_evidence : List Text → ℤ → List PriorityDemand → List Text × ℤ
demand_evidence keys oldest [] = (keys, oldest)
demand_evidence keys oldest (d ∷ ds) =
    demand_evidence (if has d.key keys then keys else d.key ∷ keys) (max_ℤ oldest d.wait_millis) ds

unfoldable pub all_demand_evidence : List Text → ℤ → List ProposalCandidate → List Text × ℤ
all_demand_evidence keys oldest [] = (keys, oldest)
all_demand_evidence keys oldest (c ∷ cs) =
    let (keys', oldest') = demand_evidence keys oldest c.priority_demands in
    all_demand_evidence keys' oldest' cs

unfoldable pub priority_demand_evidence : List ProposalCandidate → ℤ × ℤ
priority_demand_evidence cs =
    let (keys, oldest) = all_demand_evidence [] (pos 0) cs in (pos (length keys), oldest)

-- The names of the tickets of the selected candidates: `selectedTickets`.
unfoldable pub selected_ticket_ids : List ProposalCandidate → List Text
selected_ticket_ids cs = all_names supply cs

unfoldable pub batch_unmatched_reason :
    ℕ → ℤ → CandidateGeneration → BatchSelection → UnmatchedReason
batch_unmatched_reason proposal_count max_proposals generation selection =
    if generation.truncated || selection.truncated
    then search_budget
    else if leb_ℤ max_proposals (pos proposal_count)
    then proposal_limit
    else if ltb (length selection.candidates) (length generation.candidates)
    then batch_objective
    else if generation.saw_quality_failure
    then quality_threshold
    else if generation.saw_hard_failure
    then hard_constraint
    else insufficient_capacity

-- The entries of the tickets that are left; those of the second list break a hard constraint.
unfoldable pub unmatched_tickets :
    UnmatchedReason → List Text → List MatchTicket → List UnmatchedTicket
unmatched_tickets reason rejected [] = []
unmatched_tickets reason rejected (t ∷ ts) =
    record {
      ticket = ticket_reference t;
      reason = if has t.id rejected then hard_constraint else reason;
    }
    ∷ unmatched_tickets reason rejected ts

abbrev pub generator_of : MatchmakingSnapshot → List MatchTicket → PlanLimits → Generator
generator_of snapshot available limits = record {
  snapshot = snapshot;
  available = available;
  max_candidates_per_search = limits.max_candidates;
  max_batch_candidates = limits.max_batch_candidates;
  max_candidate_tickets = snapshot.policy.max_candidate_tickets;
}

-- The candidates, and the budget that making them left.
unfoldable pub generation_of :
    MatchmakingSnapshot
    → List MatchTicket
    → List BackfillTicket
    → PlanLimits
    → CandidateGeneration × SearchBudget
generation_of snapshot available backfills limits =
    generate_proposal_candidates (generator_of snapshot available limits) backfills
      limits.max_proposals limits.small_queue
      (record { max = limits.max_search_nodes; used = 0; exhausted = false; panicked = false })

unfoldable pub selection_of : PlanLimits → CandidateGeneration → BatchSelection
selection_of limits generation =
    select_proposal_batch (rank_candidate_utilities generation.candidates limits.max_proposals)
      limits.max_proposals limits.max_batch_search_nodes limits.small_queue

unfoldable pub batch_evidence :
    CandidateGeneration → SearchBudget → BatchSelection → BatchScoreEvidence
batch_evidence generation budget selection =
    let (eligible, oldest) = priority_demand_evidence generation.candidates in
    let (selected, oldest_selected) = priority_demand_evidence selection.candidates in
    record {
      candidate_proposals = pos (length generation.candidates);
      selected_proposals = pos (length selection.candidates);
      selected_backfills = selection.selected_backfills;
      wait_priority_eligible_demands = eligible;
      wait_priority_selected_demands = selected;
      oldest_wait_priority_millis = oldest;
      oldest_selected_priority_millis = oldest_selected;
      total_utility = selection.total_utility;
      candidate_generation_nodes = pos budget.used;
      candidate_generation_truncated = generation.truncated;
      selection_nodes = pos selection.nodes;
      selection_truncated = selection.truncated;
    }

-- The batch that a selection makes.
unfoldable pub assemble :
    (Text → Text)
    → MatchmakingSnapshot
    → Text
    → PlanLimits
    → List MatchTicket
    → CandidateGeneration × SearchBudget
    → BatchSelection
    → ProposalBatch
assemble digest snapshot fingerprint limits available (generation, budget) selection =
    let proposals = build_proposals digest snapshot fingerprint 0 selection.candidates in
    let rejected = rejected_tickets snapshot.policy snapshot.match_tickets in
    let reason =
      batch_unmatched_reason (length proposals) limits.max_proposals generation selection in
    let remaining = remove_placed available (selected_ticket_ids selection.candidates) in
    record {
      snapshot_id = snapshot.id;
      proposals = proposals;
      unmatched =
          unmatched_tickets reason (ticket_ids rejected) (sort_tickets (remaining ++ rejected));
      budget_exhausted = generation.truncated || selection.truncated;
      evidence = batch_evidence generation budget selection;
    }

-- The part of `Plan` after its checks.
unfoldable pub plan_batch : (Text → Text) → MatchmakingSnapshot → Text → ProposalBatch
plan_batch digest snapshot fingerprint =
    let available = sort_tickets (allowed_tickets snapshot.policy snapshot.match_tickets) in
    let backfills = sort_backfills snapshot.backfill_tickets in
    let limits =
      plan_limits snapshot.policy
        (small_queue_expanded_search snapshot.policy available backfills) in
    let generation = generation_of snapshot available backfills limits in
    assemble digest snapshot fingerprint limits available generation
      (selection_of limits generation.0)

-- Whether Go panics on a missing roster summary in the part of `Plan` after its checks.
unfoldable pub plan_panics : MatchmakingSnapshot → Bool
plan_panics snapshot =
    let available = sort_tickets (allowed_tickets snapshot.policy snapshot.match_tickets) in
    let backfills = sort_backfills snapshot.backfill_tickets in
    (generation_of snapshot available backfills (
      plan_limits snapshot.policy
        (small_queue_expanded_search snapshot.policy available backfills))).1.panicked

-- What `Plan` returns after its checks, for the fingerprint that they gave.
unfoldable pub plan_checked :
    (Text → Text) → MatchmakingSnapshot → Result Text → Option (Result ProposalBatch)
plan_checked digest snapshot (err e) = some (err e)
plan_checked digest snapshot (ok fingerprint) =
    if plan_panics snapshot then none else some (ok (plan_batch digest snapshot fingerprint))

-- `Plan`; none where Go panics on a missing roster summary.
unfoldable pub plan : (Text → Text) → MatchmakingSnapshot → Option (Result ProposalBatch)
plan digest snapshot =
    plan_checked digest snapshot
      (validate_snapshot snapshot >> fingerprint_policy digest snapshot.policy)
