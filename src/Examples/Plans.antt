-- ===== src/Examples/Plans.antt =====
-- The theorems on planning, for two players who queue alone and are matched with each other.
use sema.Planner.Plan.Accepted.{plan-validate_proposal}
use sema.Domain.Proposal.{validate_proposal}
use sema.Engine.Reserving.{reserve-plan}
use sema.Coordinator.Reservations.{reserve as coordinator_reserve, new_reservation}
use sema.Coordinator.Snapshot.{snapshot as coordinator_snapshot}
use sema.Constraint.{
  team_role_count, team_latency_within, role_count_from, misses_hard_role, latency_within,
  has_hard_role, any_hard, team_violates, teams_violate, hard_violation,
}
use sema.Coordinator.Tickets.{
  judge_match_ticket, judge_match_revision, judge_players, duplicated_player, owned_by_other,
  store_match_ticket, disown, acquire_player_ownership, release_player_ownership,
  upsert_match_ticket,
}
use sema.Planner.Teams.{
  state_of, seats, placement_includes_index, contains_index, materialize_placement, assign,
  seen_state, spread_from, skills_of, projected_skill_spread, fresh_teams, open_teams,
  candidate_teams,
}
use sema.Coordinator.Owners.{claim}
use sema.Coordinator.Expiry.{expire_keys, expire}
use sema.Base.Sort.{sort, insert_sorted}
use sema.Coordinator.Snapshot.{unreserved, collect, checked_snapshot, check_request}
use sema.Coordinator.History.Invariant.{history-Inv}
use sema.Engine.Planning.{plan-unreserved}
use sema.Domain.Snapshots.{match_names}
use sema.Objective.Evaluate.Total.{evaluate_backfill-validate_snapshot}
use sema.Planner.Batch.Greedy.{batch_selection-greedy_selection}
use sema.Objective.Evaluate.{
  skill_gap, widen, tally_wait, tally_tickets, tally_teams, tally_players, start_team,
  penalise_teams, listed_count, join_backfill, existing_count, end_team, beside, any_wait_priority,
  penalise, conclude, evaluate_sides, evaluate, evaluate_placement, evaluate_backfill,
}
use sema.Planner.Batch.{greedy_selection}
use sema.Planner.Search.Found.{find_best_placement-FitsSlots}
use sema.Planner.Collect.Shapes.{rules}
use sema.Base.Map.{insert, lookup}
use sema.Catalog.{register_entry, register_fingerprint, get, new_catalog, register}
use sema.Planner.Plan.Batches.{unmatched_ids, proposed_targets, proposed_tickets}
use sema.Planner.Proposal.Identity.Encoding.{encode_proposal-injective, IsEncodable}
use sema.Objective.{
  wait_millis, ticket_wait_priority, sub_time, step_from, milliseconds, millis_duration,
  compare_waits, compare_quality, compare_latency, compare_evidence, compare_evaluations,
  active_step, Evaluation,
}
use sema.Planner.Batch.Quality.{players_of, better_selection}
use sema.Planner.Batch.Search.{batch_selection, Limits}
use sema.Planner.{placed, total_skill, kind_text, Placement, ProposalCandidate}
use sema.Planner.Search.Seats.{FitsSlots}
use sema.Planner.Search.{
  take_alternatives, lead, find_required, cut_alternatives, can_visit, search, try_teams,
  choose_alternative, with_search_evidence, finish, run_search, total_needed, find_best_placement,
}
use sema.Planner.Placement.{
  keep_placement, evaluate_for, judge_placement, count_candidate, complete_evaluated, complete,
  zero_evaluation, Query, SearchBudget,
}
use sema.Coordinator.History.{perform, submits_match, Call, run}
use sema.Planner.Plan.Results.{
  plan_total, plan-plan_batch, plan-conserves, plan-Distinct, plan-TargetsKnown, TargetsKnown,
  plan-IsBounded, IsBounded,
}
use sema.Domain.Policy.{
  append_steps, big_endian, append_requirements, append_ints, append_canonical_string,
  append_canonical_int, append_canonical_bool, fingerprint_policy, encode_policy,
}
use sema.Domain.Validate.{
  check_vacancies, check_existing_teams, total_slots, validate_backfill_ticket,
  check_backfill_tickets, claim_players, check_players, validate_match_ticket, check_match_tickets,
  check_later_steps, check_steps, check_requirements, validate_policy, validate_snapshot,
}
use sema.Base.{
  ◌↔◌, quot, ◌-ℤ◌, wrap, bytes_compare, ℕ_discrete, ℤ-discrete, ◌+ℤ◌, Text-discrete, has, ◌≢◌, none,
  some, ◌+◌, All, Distinct, times, bytes, Text, ◌∷◌, [], List, ◌≡◌, refl, pos, true, false, arith,
  ap, ◌∙◌,
}
use sema.Domain.{
  FailureCode, err, new_match, BackfillTicket, MatchmakingSnapshot, ok, MatchProposal,
}
use sema.Domain.Batch.{ProposalBatch}
use sema.Examples.Data.{no_evidence, proposal_a, ticket_a, ticket_b, policy, empty}
use sema.Engine.{plan_taken, snapshot_of, plan_from, snapshot, Engine, plan as engine_plan}
use sema.Planner.Plan.{plan, plan_batch}
use sema.Planner.Proposal.{encode_proposal}
use sema.Coordinator.{new}

abbrev digest : Text → Text
digest s = bytes "0123456789abcdef0123456789abcdef"

-- A session that lacks one player.
abbrev vacancy : BackfillTicket
vacancy = record {
  id = bytes "bf";
  revision = 1;
  session_id = bytes "m1";
  roster_version = 1;
  open_slots_by_team = pos 1 ∷ pos 0 ∷ [];
  existing_teams = [];
  enqueued_at = 2000000;
}

abbrev queue : MatchmakingSnapshot
queue = record {
  id = bytes "s1";
  now = 5500000;
  match_tickets = ticket_a ∷ ticket_b ∷ [];
  backfill_tickets = vacancy ∷ [];
  policy = policy;
}

queue_valid : validate_snapshot queue ≡ ok tt
unfolding validate_snapshot validate_policy check_requirements check_steps check_later_steps
    check_match_tickets validate_match_ticket check_players has claim_players check_backfill_tickets
    validate_backfill_ticket total_slots check_existing_teams check_vacancies Text-discrete ◌+ℤ◌
    ℤ-discrete
queue_valid = refl

abbrev queue_batch : ProposalBatch
queue_batch = plan_batch digest queue (digest (encode_policy queue.policy))

queue_planned : plan digest queue ≡ some (ok queue_batch)
queue_planned = plan-plan_batch digest queue queue_valid

plan_total_example :
    (plan digest queue ≢ none)
    × ((e : FailureCode) → (plan digest queue ≡ some (err e)) ↔ (validate_snapshot queue ≡ err e))
    × (validate_snapshot queue ≡ ok tt
        → (batch : ProposalBatch) × (plan digest queue ≡ some (ok batch)))
plan_total_example = plan_total digest queue

plan-conserves_example :
    times (bytes "ta") (proposed_tickets queue_batch.proposals)
      + times (bytes "ta") (unmatched_ids queue_batch.unmatched)
    ≡ times (bytes "ta") (match_names queue.match_tickets)
plan-conserves_example = plan-conserves digest queue queue_batch queue_planned (bytes "ta")

plan-Distinct_example :
    Distinct (proposed_tickets queue_batch.proposals)
    × Distinct (proposed_targets queue_batch.proposals)
plan-Distinct_example = plan-Distinct digest queue queue_batch queue_planned

plan-validate_proposal_example : All (λ p. validate_proposal p ≡ ok tt) queue_batch.proposals
plan-validate_proposal_example =
    plan-validate_proposal digest queue queue_batch (λ _. refl) queue_planned

plan-IsBounded_example : IsBounded policy queue_batch
plan-IsBounded_example = plan-IsBounded digest queue queue_batch queue_planned

plan-TargetsKnown_example : All (TargetsKnown queue) queue_batch.proposals
plan-TargetsKnown_example = plan-TargetsKnown digest queue queue_batch queue_planned

abbrev ticketing : List Call
ticketing = submits_match ticket_a ∷ submits_match ticket_b ∷ []

started : new (pos 10000000) ≡ ok empty
unfolding new
started = refl

abbrev engine : Engine
engine = record {
  coordinator = run ticketing empty;
  policies = (register digest new_catalog policy).0;
}

abbrev tickets_only : MatchmakingSnapshot
tickets_only = record queue { backfill_tickets = [] }

engine_snapshot : (snapshot engine (bytes "s1") 5500000 (bytes "v1")).1 ≡ ok tickets_only
unfolding snapshot snapshot_of get lookup register register_fingerprint fingerprint_policy
    validate_policy check_requirements check_steps check_later_steps register_entry insert
    Text-discrete ℕ_discrete encode_policy append_steps append_canonical_bool append_canonical_int
    append_requirements sort insert_sorted append_ints append_canonical_string big_endian
    check_request checked_snapshot validate_snapshot collect check_match_tickets unreserved expire
    expire_keys run perform upsert_match_ticket judge_match_ticket validate_match_ticket
    check_players has judge_match_revision judge_players duplicated_player owned_by_other
    store_match_ticket claim_players check_backfill_tickets claim disown coordinator_snapshot
    bytes_compare acquire_player_ownership release_player_ownership
engine_snapshot = refl

tickets_taken :
    (coordinator_snapshot (run ticketing empty) (bytes "s1") 5500000 policy).1 ≡ ok tickets_only
unfolding snapshot snapshot_of get lookup register register_fingerprint fingerprint_policy
    validate_policy check_requirements check_steps check_later_steps register_entry insert
    Text-discrete ℕ_discrete encode_policy append_steps append_canonical_bool append_canonical_int
    append_requirements sort insert_sorted append_ints append_canonical_string big_endian
    check_request checked_snapshot validate_snapshot collect check_match_tickets unreserved expire
    expire_keys run perform upsert_match_ticket judge_match_ticket validate_match_ticket
    check_players has judge_match_revision judge_players duplicated_player owned_by_other
    store_match_ticket claim_players check_backfill_tickets claim disown coordinator_snapshot
    bytes_compare acquire_player_ownership release_player_ownership
tickets_taken = refl

abbrev engine_batch : ProposalBatch
engine_batch = plan_batch digest tickets_only (digest (encode_policy policy))

tickets_valid : validate_snapshot tickets_only ≡ ok tt
unfolding validate_snapshot validate_policy check_requirements check_steps check_later_steps
    check_match_tickets validate_match_ticket check_players has claim_players check_backfill_tickets
    Text-discrete
tickets_valid = refl

engine_planned :
    (engine_plan digest engine (bytes "s1") 5500000 (bytes "v1")).1 ≡ some (ok engine_batch)
unfolding engine_plan plan_from
engine_planned =
    ap (plan_taken digest) engine_snapshot ∙ plan-plan_batch digest tickets_only tickets_valid

plan-unreserved_example :
    All
      (λ k.
        (lookup k
            (engine_plan digest engine
              (bytes "s1")
              5500000
              (bytes "v1")).0.coordinator.ticket_reservations
          ≡ none)
        × (lookup k engine.coordinator.match_tickets ≢ none))
      (proposed_tickets engine_batch.proposals)
plan-unreserved_example =
    plan-unreserved digest engine (bytes "s1") 5500000 (bytes "v1") engine_batch
      (history-Inv (pos 10000000) empty ticketing started).owned engine_planned

none_reserved :
    lookup
      (bytes "r1")
      (coordinator_snapshot (run ticketing empty) (bytes "s1") 5500000 policy).0.reservations
    ≡ none
unfolding snapshot snapshot_of get lookup register register_fingerprint fingerprint_policy
    validate_policy check_requirements check_steps check_later_steps register_entry insert
    Text-discrete ℕ_discrete encode_policy append_steps append_canonical_bool append_canonical_int
    append_requirements sort insert_sorted append_ints append_canonical_string big_endian
    check_request checked_snapshot validate_snapshot collect check_match_tickets unreserved expire
    expire_keys run perform upsert_match_ticket judge_match_ticket validate_match_ticket
    check_players has judge_match_revision judge_players duplicated_player owned_by_other
    store_match_ticket claim_players check_backfill_tickets claim disown coordinator_snapshot
    bytes_compare acquire_player_ownership release_player_ownership
none_reserved = refl

reserve-plan_example :
    All
      (λ p.
        (coordinator_reserve
          (coordinator_snapshot (run ticketing empty) (bytes "s1") 5500000 policy).0
          p
          (bytes "r1")
          5500000).1
        ≡ ok (
            new_reservation
              (coordinator_snapshot (run ticketing empty) (bytes "s1") 5500000 policy).0
              p
              (bytes "r1")
              5500000))
      engine_batch.proposals
reserve-plan_example =
    reserve-plan digest (run ticketing empty) (bytes "s1") 5500000 policy tickets_only engine_batch
      (bytes "r1") (history-Inv (pos 10000000) empty ticketing started).owned (λ _. refl)
      tickets_taken (plan-plan_batch digest tickets_only tickets_valid) refl refl none_reserved

abbrev query : Query
query = rules queue new_match [] 0

abbrev budget : SearchBudget
budget = record { max = pos 64; used = 0; exhausted = false; panicked = false }

abbrev unlimited : Query
unlimited = record query { max_candidates = pos 64; max_alternatives = pos 1 }

search_finds :
    (find_best_placement unlimited []
      (ticket_a ∷ ticket_b ∷ [])
      (pos 1 ∷ pos 1 ∷ [])
      budget).0.found
    ≡ true
unfolding find_best_placement total_needed ◌+ℤ◌ players_of run_search finish with_search_evidence
    choose_alternative search can_visit try_teams candidate_teams sort open_teams fresh_teams
    projected_skill_spread skills_of spread_from ◌-ℤ◌ total_skill seen_state assign complete
    complete_evaluated count_candidate judge_placement evaluate_for evaluate_placement evaluate
    evaluate_sides conclude penalise hard_violation teams_violate materialize_placement
    team_violates ℕ_discrete Text-discrete quot wrap ℤ-discrete insert_sorted any_hard has_hard_role
    latency_within misses_hard_role role_count_from team_latency_within team_role_count
    any_wait_priority beside end_team evaluate_backfill existing_count join_backfill listed_count
    penalise_teams skill_gap start_team tally_players tally_teams tally_tickets tally_wait widen
    active_step compare_evaluations compare_evidence compare_latency compare_quality compare_waits
    millis_duration milliseconds step_from sub_time ticket_wait_priority wait_millis keep_placement
    cut_alternatives find_required lead take_alternatives contains_index placement_includes_index
    seats state_of placed
search_finds = refl

find_best_placement-FitsSlots_example :
    FitsSlots
      (pos 1 ∷ pos 1 ∷ [])
      (find_best_placement unlimited []
        (ticket_a ∷ ticket_b ∷ [])
        (pos 1 ∷ pos 1 ∷ [])
        budget).0.placement
find_best_placement-FitsSlots_example =
    (find_best_placement-FitsSlots unlimited [] (ticket_a ∷ ticket_b ∷ []) (pos 1 ∷ pos 1 ∷ [])
      budget ((refl, omega arith), ((refl, omega arith), tt)) (omega arith) search_finds).0

abbrev candidate : Text → Placement → ProposalCandidate
candidate key placement = record {
  placement = placement;
  evaluation = zero_evaluation;
  priority_demands = [];
  kind = new_match;
  target = none;
  key = key;
  utility = pos 1;
  effective_utility = pos 1;
}

abbrev candidates : List ProposalCandidate
candidates =
    candidate (bytes "a") ((ticket_a ∷ []) ∷ (ticket_b ∷ []) ∷ [])
    ∷ candidate (bytes "b") ((ticket_a ∷ []) ∷ [])
    ∷ candidate (bytes "c") ((ticket_b ∷ []) ∷ [])
    ∷ []

abbrev limits : Limits
limits = record { max_proposals = 2; max_nodes = pos 100; has_priority_demand = false }

batch_selection-greedy_selection_example :
    better_selection false
      (greedy_selection candidates 2).0
      (greedy_selection candidates 2).1
      (batch_selection candidates limits).best
      (batch_selection candidates limits).best_score
    ≡ false
batch_selection-greedy_selection_example = batch_selection-greedy_selection candidates limits

evaluate_backfill-validate_snapshot_example :
    (e : Evaluation) × (evaluate_backfill 5500000 ((ticket_a ∷ []) ∷ [] ∷ []) policy [] 2000000
      ≡ some e)
evaluate_backfill-validate_snapshot_example =
    evaluate_backfill-validate_snapshot queue vacancy ((ticket_a ∷ []) ∷ [] ∷ []) queue_valid
      (0, refl) refl

abbrev twin : MatchProposal
twin = record proposal_a { evidence = record no_evidence { search_nodes = pos 7 } }

proposal_a_fits : IsEncodable proposal_a
unfolding kind_text
proposal_a_fits = record {
  version = omega arith;
  fingerprint = omega arith;
  kind = omega arith;
  team_count = omega arith;
  teams = ((refl, omega arith, omega arith, ((omega arith, omega arith), tt)), tt);
  target = tt;
}

twin_fits : IsEncodable twin
unfolding kind_text
twin_fits = record {
  version = omega arith;
  fingerprint = omega arith;
  kind = omega arith;
  team_count = omega arith;
  teams = ((refl, omega arith, omega arith, ((omega arith, omega arith), tt)), tt);
  target = tt;
}

hashed_alike : encode_proposal (bytes "s1") 1 proposal_a ≡ encode_proposal (bytes "s1") 1 twin
unfolding encode_proposal
hashed_alike = refl

encode_proposal-injective_example : proposal_a.teams ≡ twin.teams
encode_proposal-injective_example =
    (encode_proposal-injective (bytes "s1") (bytes "s1") 1 1 proposal_a twin (omega arith)
      (omega arith) (omega arith) (omega arith) proposal_a_fits twin_fits hashed_alike).5
