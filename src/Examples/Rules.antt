-- ===== src/Examples/Rules.antt =====
-- The theorems on validation, relaxation, preference, the window and the catalog, at small inputs.
use sema.Coordinator.Snapshot.{snapshot as coordinator_snapshot}
use sema.Coordinator.Tickets.{
  store_match_ticket, owned_by_other, duplicated_player, judge_players, judge_match_revision,
  judge_match_ticket, upsert_match_ticket,
}
use sema.Coordinator.Expiry.{expire_keys, expire}
use sema.Coordinator.Snapshot.{unreserved, collect, checked_snapshot}
use sema.Coordinator.Snapshot.{check_request}
use sema.Engine.{
  register_policy, perform_engine, snapshot_of, Engine, EngineCall, passes_on, registers, snapshot,
  run_engine,
}
use sema.Engine.Laws.{snapshot-policy}
use sema.Coordinator.History.{perform, submits_match}
use sema.Discovery.Index.{has_size, party_sizes, build_index, index_window}
use sema.Discovery.Index.Thresholds.{index_window-select_window}
use sema.Constraint.{
  team_role_count, any_hard, has_hard_role, latency_within, team_latency_within, team_violates,
  teams_violate, hard_violation,
}
use sema.Base.Sort.{sort}
use sema.Base.Map.{insert, lookup}
use sema.Base.{
  quot, List, bytes, ◌≤◌, ◌-ℤ◌, ◌+ℤ◌, has, Text, [], ◌∷◌, ◌≡◌, ◌↔◌, refl, some, true, false, pos,
  Text-discrete, ℕ_discrete, wrap, arith, length,
}
use sema.Domain.{MatchmakingSnapshot, ok, new_match, MatchTicket, ScoreEvidence, MatchmakingPolicy}
use sema.Domain.Validate.{
  check_backfill_tickets, claim_players, check_players, check_match_tickets, check_requirements,
  check_later_steps, validate_policy, validate_match_ticket, check_steps, validate_snapshot,
}
use sema.Domain.Tickets.{IsMatchTicket, validate_match_ticket_iff}
use sema.Domain.Relaxation.{IsRelaxation, Relaxing, check_steps_iff}
use sema.Domain.Snapshots.{IsSnapshot, validate_snapshot-IsSnapshot}
use sema.Domain.Policy.{
  big_endian, append_canonical_string, append_ints, append_requirements, append_canonical_int,
  append_canonical_bool, append_steps, encode_policy, fingerprint_policy,
}
use sema.Objective.{
  wait_millis, ticket_wait_priority, sub_time, milliseconds, millis_duration, step_from, Evaluation,
  compare_evidence, compare_evaluations, active_step,
}
use sema.Objective.Order.{Chain, flip, compare_evidence-Chain, compare_evaluations-flip}
use sema.Objective.Priority.{Looser, active_step_monotone}
use sema.Objective.Evaluate.{
  skill_gap, end_team, start_team, tally_tickets, tally_players, tally_wait, widen,
  any_wait_priority, existing_count, penalise_teams, tally_teams, penalise, conclude,
  evaluate_sides, evaluate,
}
use sema.Objective.Evaluate.Waits.{evaluate-oldest_wait_millis, longest_team_wait}
use sema.Discovery.Window.{select_window}
use sema.Catalog.{
  register_entry, register_fingerprint, Entry, new_catalog, get, register, register_all,
}
use sema.Catalog.Laws.{register_all-get, register-get}
use sema.Examples.Data.{
  empty, ticket_a, ticket_b, no_evidence, policy, step, late_step, later_snapshot,
}

validate_match_ticket_iff_example :
    (validate_match_ticket ticket_a ≡ ok tt) ↔ IsMatchTicket ticket_a
validate_match_ticket_iff_example = validate_match_ticket_iff ticket_a

check_steps_iff_example :
    (check_steps (step ∷ late_step ∷ []) ≡ ok tt) ↔ IsRelaxation step (late_step ∷ [])
check_steps_iff_example = check_steps_iff step (late_step ∷ [])

snapshot_valid : validate_snapshot later_snapshot ≡ ok tt
unfolding validate_snapshot validate_policy check_requirements check_steps check_later_steps
    check_match_tickets validate_match_ticket check_players has claim_players check_backfill_tickets
    coordinator_snapshot
snapshot_valid = refl

validate_snapshot-IsSnapshot_example : IsSnapshot later_snapshot
validate_snapshot-IsSnapshot_example = validate_snapshot-IsSnapshot later_snapshot snapshot_valid

-- Evidence of some wait, which has priority from 10 on.
abbrev waited_5 : ScoreEvidence
waited_5 = record no_evidence { oldest_wait_millis = pos 5; role_penalty = pos 2 }

abbrev waited_7 : ScoreEvidence
waited_7 = record no_evidence { oldest_wait_millis = pos 7; role_penalty = pos 1 }

abbrev waited_12 : ScoreEvidence
waited_12 = record no_evidence {
  oldest_wait_millis = pos 12;
  role_penalty = pos 9;
  wait_priority = true;
}

compare_evidence-Chain_example :
    Chain
      (compare_evidence waited_12 waited_7)
      (compare_evidence waited_7 waited_5)
      (compare_evidence waited_12 waited_5)
compare_evidence-Chain_example =
    compare_evidence-Chain (pos 10) waited_12 waited_7 waited_5 refl refl refl

abbrev evaluation : ScoreEvidence → Evaluation
evaluation e = record {
  admissible = true;
  hard_violation = false;
  priority_wait_millis = [];
  evidence = e;
}

compare_evaluations-flip_example :
    compare_evaluations (evaluation waited_7) (evaluation waited_12)
    ≡ flip (compare_evaluations (evaluation waited_12) (evaluation waited_7))
compare_evaluations-flip_example =
    compare_evaluations-flip (evaluation waited_12) (evaluation waited_7)

steps_accepted : check_steps (step ∷ late_step ∷ []) ≡ ok tt
unfolding check_steps check_later_steps
steps_accepted = refl

steps_relax : Relaxing (step ∷ late_step ∷ [])
steps_relax = ((check_steps_iff step (late_step ∷ [])).0 steps_accepted).relaxing

active_step_monotone_example :
    Looser
      (active_step (step ∷ late_step ∷ []) (pos 1000)).1
      (active_step (step ∷ late_step ∷ []) (pos 3000000)).1
active_step_monotone_example =
    active_step_monotone (step ∷ late_step ∷ []) (pos 1000) (pos 3000000) steps_relax (omega arith)

-- A hash, for the runs: the first bytes of the content.
abbrev digest : Text → Text
digest content = content

abbrev entry : Entry
entry = record { policy = policy; fingerprint = sema.Domain.Policy.encode_policy policy }

registered : (register digest new_catalog policy).1 ≡ ok entry
unfolding register register_fingerprint fingerprint_policy validate_policy check_requirements
    check_steps check_later_steps register_entry get lookup
registered = refl

register-get_example :
    (get (register digest new_catalog policy).0 policy.version ≡ some entry)
    × (fingerprint_policy digest policy ≡ ok entry.fingerprint)
register-get_example = register-get digest new_catalog policy entry registered

-- The same version, with another content.
abbrev changed : MatchmakingPolicy
changed = record policy { max_latency_millis = pos 50 }

register_all-get_example :
    get
      (register_all digest (changed ∷ policy ∷ []) (register digest new_catalog policy).0)
      policy.version
    ≡ some entry
register_all-get_example =
    register_all-get digest (changed ∷ policy ∷ []) (register digest new_catalog policy).0
      policy.version entry (register-get digest new_catalog policy entry registered).0

abbrev evaluated : Evaluation
evaluated = record {
  admissible = true;
  hard_violation = false;
  priority_wait_millis = pos 4 ∷ pos 2 ∷ [];
  evidence = record no_evidence {
    relaxation_level = pos 1;
    wait_priority = true;
    oldest_wait_millis = pos 4;
    total_wait_millis = pos 6;
    max_latency_millis = pos 40;
  };
}

evaluates :
    evaluate 5000000 ((ticket_b ∷ []) ∷ (ticket_a ∷ []) ∷ []) policy new_match [] ≡ some evaluated
unfolding evaluate evaluate_sides conclude penalise sort active_step skill_gap tally_teams
    hard_violation end_team step_from teams_violate team_violates team_latency_within latency_within
    has_hard_role any_hard millis_duration wrap tally_tickets tally_players ◌+ℤ◌ tally_wait
    ℕ_discrete Text-discrete team_role_count any_wait_priority existing_count penalise_teams quot
    start_team widen milliseconds sub_time ticket_wait_priority wait_millis ◌-ℤ◌
evaluates = refl

evaluate-oldest_wait_millis_example :
    pos 4 ≡ longest_team_wait 5000000 ((ticket_b ∷ []) ∷ (ticket_a ∷ []) ∷ []) (pos 0)
evaluate-oldest_wait_millis_example =
    evaluate-oldest_wait_millis 5000000 ((ticket_b ∷ []) ∷ (ticket_a ∷ []) ∷ []) policy new_match []
      evaluated evaluates

few_sizes : length (party_sizes (ticket_a ∷ ticket_b ∷ [])) ≤ 16
unfolding party_sizes has_size
few_sizes = omega arith

index_window-select_window_example :
    index_window (build_index (ticket_a ∷ ticket_b ∷ [])) (pos 1 ∷ []) (pos 1)
    ≡ some (select_window (ticket_a ∷ ticket_b ∷ []) (pos 1 ∷ []) (pos 1))
index_window-select_window_example =
    index_window-select_window (ticket_a ∷ ticket_b ∷ []) (pos 1 ∷ []) (pos 1) few_sizes

-- An engine that knows the policy, after another content was offered and two calls were made.
abbrev engine : Engine
engine = record { coordinator = empty; policies = (register digest new_catalog policy).0 }

abbrev engine_calls : List EngineCall
engine_calls = passes_on (submits_match ticket_a) ∷ registers changed ∷ []

abbrev first_snapshot : MatchmakingSnapshot
first_snapshot = record later_snapshot { now = 5000000 }

snapshot_taken :
    (snapshot (run_engine digest engine_calls engine) (bytes "s1") 5000000 (bytes "v1")).1
    ≡ ok first_snapshot
unfolding snapshot snapshot_of get lookup run_engine perform_engine register_policy register
    register_fingerprint fingerprint_policy validate_policy check_requirements check_steps
    check_later_steps register_entry insert Text-discrete encode_policy append_steps
    append_canonical_bool append_canonical_int append_requirements sort append_ints
    append_canonical_string big_endian check_request checked_snapshot validate_snapshot collect
    check_match_tickets unreserved expire expire_keys perform upsert_match_ticket judge_match_ticket
    validate_match_ticket check_players has judge_match_revision judge_players duplicated_player
    owned_by_other store_match_ticket claim_players check_backfill_tickets coordinator_snapshot
snapshot_taken = refl

snapshot-policy_example :
    (first_snapshot.policy ≡ policy)
    × (first_snapshot.id ≡ bytes "s1")
    × (first_snapshot.now ≡ 5000000)
snapshot-policy_example =
    snapshot-policy digest engine_calls engine (bytes "v1") entry (bytes "s1") 5000000
      first_snapshot (register-get digest new_catalog policy entry registered).0 snapshot_taken
