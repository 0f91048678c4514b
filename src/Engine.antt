-- ===== src/Engine.antt =====
-- internal/engine/engine.go: the coordinator and the policy catalog behind one boundary.
pub mod Reserving
pub mod Laws
pub mod Planning
use sema.Base.{Text, List, [], ◌∷◌, Option, none, some, ℤ}
use sema.Domain.{
  Time, Revision, MatchTicket, BackfillTicket, MatchmakingPolicy, MatchmakingSnapshot,
  MatchProposal, Reservation, Assignment, AssignmentAcknowledgmentRequest, Result, ok, err,
  invalid_input, ◌>>=◌,
}
use sema.Coordinator.{Coordinator}
use sema.Coordinator.Tickets
use sema.Coordinator.Reservations
use sema.Coordinator.Confirmation
use sema.Coordinator.Assignments
use sema.Coordinator.Snapshot
use sema.Coordinator.History.{Call, perform}
use sema.Domain.Batch.{ProposalBatch}
use sema.Planner.Plan
use sema.Catalog.{Entry, Catalog, new_catalog, get, register}

pub record Engine : Type 0 where
  pub coordinator : Coordinator
  pub policies : Catalog

unfoldable pub new_engine : ℤ → Result Engine
new_engine ttl = sema.Coordinator.new ttl >>= λ owner.
    ok (record { coordinator = owner; policies = new_catalog })

abbrev pub entry_fingerprint : Result Entry → Result Text
entry_fingerprint (err e) = err e
entry_fingerprint (ok entry) = ok entry.fingerprint

-- `digest` is the hash of the fingerprints.
unfoldable pub register_policy : (Text → Text) → Engine → MatchmakingPolicy → Engine × Result Text
register_policy digest engine p =
    let (policies, result) = register digest engine.policies p in
    (record engine { policies = policies }, entry_fingerprint result)

abbrev pub entry_parts : Option Entry → Option (MatchmakingPolicy × Text)
entry_parts none = none
entry_parts (some entry) = some (entry.policy, entry.fingerprint)

-- `Policy`.
unfoldable pub registered_policy : Engine → Text → Option (MatchmakingPolicy × Text)
registered_policy engine version = entry_parts (get engine.policies version)

-- What a call of the coordinator leaves of the engine.
abbrev pub forward {ℓ} : {R : Type ℓ} → Engine → Coordinator × R → Engine × R
forward engine (c, result) = (record engine { coordinator = c }, result)

unfoldable pub submit_match_ticket : Engine → MatchTicket → Engine × Result (Unit {0})
submit_match_ticket engine t = forward engine (Tickets.upsert_match_ticket engine.coordinator t)

unfoldable pub submit_backfill_ticket : Engine → BackfillTicket → Engine × Result (Unit {0})
submit_backfill_ticket engine t =
    forward engine (Tickets.upsert_backfill_ticket engine.coordinator t)

unfoldable pub cancel_match_ticket : Engine → Text → Revision → Engine × Result (Unit {0})
cancel_match_ticket engine id revision =
    forward engine (Tickets.cancel_match_ticket engine.coordinator id revision)

unfoldable pub cancel_backfill_ticket :
    Engine → Text → Revision → Revision → Engine × Result (Unit {0})
cancel_backfill_ticket engine id revision roster_version =
    forward engine (Tickets.cancel_backfill_ticket engine.coordinator id revision roster_version)

unfoldable pub snapshot_of :
    Engine → Text → Time → Option Entry → Engine × Result MatchmakingSnapshot
snapshot_of engine id now none = (engine, err invalid_input)
snapshot_of engine id now (some entry) =
    forward engine (Snapshot.snapshot engine.coordinator id now entry.policy)

unfoldable pub snapshot : Engine → Text → Time → Text → Engine × Result MatchmakingSnapshot
snapshot engine id now policy_version =
    snapshot_of engine id now (get engine.policies policy_version)

abbrev pub plan_taken : (Text → Text) → Result MatchmakingSnapshot → Option (Result ProposalBatch)
plan_taken digest (err e) = some (err e)
plan_taken digest (ok taken) = Plan.plan digest taken

unfoldable pub plan_from :
    (Text → Text) → Engine × Result MatchmakingSnapshot → Engine × Option (Result ProposalBatch)
plan_from digest (engine, result) = (engine, plan_taken digest result)

-- `Plan`; none where Go panics on a missing roster summary.
unfoldable pub plan :
    (Text → Text) → Engine → Text → Time → Text → Engine × Option (Result ProposalBatch)
plan digest engine id now policy_version = plan_from digest (snapshot engine id now policy_version)

unfoldable pub reserve : Engine → MatchProposal → Text → Time → Engine × Result Reservation
reserve engine p id now = forward engine (Reservations.reserve engine.coordinator p id now)

unfoldable pub confirm : Engine → Text → Text → Time → Engine × Result Assignment
confirm engine reservation id now =
    forward engine (Confirmation.confirm engine.coordinator reservation id now)

unfoldable pub cancel_reservation : Engine → Text → Time → Engine × Result Reservation
cancel_reservation engine id now = forward engine (Reservations.cancel engine.coordinator id now)

unfoldable pub acknowledge_assignment :
    Engine → Text → AssignmentAcknowledgmentRequest → Time → Engine × Result Assignment
acknowledge_assignment engine id request now =
    forward engine (Assignments.acknowledge_assignment engine.coordinator id request now)

unfoldable pub assignment : Engine → Text → Option Assignment
assignment engine id = Assignments.assignment engine.coordinator id

-- What callers do: register a policy, take a snapshot under a registered version, or any other
-- call, which goes to the coordinator alone.
pub data EngineCall : Type 0 where
  registers : MatchmakingPolicy → EngineCall
  takes_snapshot : Text → Time → Text → EngineCall
  passes_on : Call → EngineCall

unfoldable pub perform_engine : (Text → Text) → EngineCall → Engine → Engine
perform_engine digest (registers p) engine = (register_policy digest engine p).0
perform_engine digest (takes_snapshot id now version) engine = (snapshot engine id now version).0
perform_engine digest (passes_on call) engine = record engine {
  coordinator = perform call engine.coordinator;
}

unfoldable pub run_engine : (Text → Text) → List EngineCall → Engine → Engine
run_engine digest [] engine = engine
run_engine digest (call ∷ calls) engine =
    run_engine digest calls (perform_engine digest call engine)
