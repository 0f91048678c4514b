-- ===== src/Engine/Planning.antt =====
-- internal/engine/engine.go: what the engine plans with.
use sema.Planner.Plan.Results.{plan-conserves}
use sema.Planner.Plan.Batches.{proposed_tickets}
use sema.Base.Map.{lookup}
use sema.Catalog.{get, Entry}
use sema.Coordinator.{Coordinator}
use sema.Coordinator.Tickets.Ownership.{IsOwned}
use sema.Domain.Snapshots.{match_names}
use sema.Coordinator.Snapshot.{match_id}
use sema.Domain.Batch.{ProposalBatch}
use sema.Engine.{snapshot, Engine}
use sema.Base.Sort.{find}
use sema.Engine.{plan as engine_plan, plan_from, snapshot_of, Engine}
use sema.Planner.Plan.{plan}
use sema.Coordinator.Snapshot.{snapshot as coordinator_snapshot}
use sema.Base.{
  inr, inl, ◌∙◌, arith, refl, List, [], ◌∷◌, Text, ◌≡◌, ◌≢◌, ◌≤◌, All, times, some, none, Option,
}
use sema.Domain.{Result-cases, MatchmakingPolicy, ok, MatchTicket, Time, MatchmakingSnapshot}
use sema.Coordinator.Snapshot.Laws.{snapshot-find, unless_held}

All-times {ℓ} :
    (P : Text → Type ℓ) (xs : List Text) → ((k : Text) → 1 ≤ times k xs → P k) → All P xs
unfolding times
All-times P [] h = tt
All-times P (x ∷ xs) h = (h x (ground arith), All-times P xs (λ k m. h k (ground (arith, m))))

times-find :
    (k : Text) (ts : List MatchTicket) → find match_id k ts ≡ none → times k (match_names ts) ≡ 0
unfolding find times
times-find k [] h = refl
times-find k (t ∷ ts) h = ground (arith, times-find k ts)

-- What is found is held by no reservation.
unless_held-found {ℓ} :
    {A : Type ℓ} (holder : Option Text) (o : Option A)
    → unless_held holder o ≢ none
    → (holder ≡ none) × (o ≢ none)
unless_held-found none o h = (refl, h)
unless_held-found (some k) o h = absurd (h refl)

-- A snapshot of the coordinator, planned.
planned_snapshot :
    (digest : Text → Text) (c : Coordinator) (id : Text) (now : Time) (policy : MatchmakingPolicy)
    (s : MatchmakingSnapshot) (batch : ProposalBatch)
    → IsOwned c
    → (coordinator_snapshot c id now policy).1 ≡ ok s
    → plan digest s ≡ some (ok batch)
    → All
        (λ k.
          (lookup k (coordinator_snapshot c id now policy).0.ticket_reservations ≡ none)
          × (lookup k c.match_tickets ≢ none))
        (proposed_tickets batch.proposals)
planned_snapshot digest c id now policy s batch owned taken planned =
    let held = (snapshot-find c id now policy s owned taken).0 in
    All-times _ (proposed_tickets batch.proposals) (λ k m. unless_held-found _ _ (λ none_left.
      let missing = times-find k s.match_tickets (held k ∙ none_left) in
      absurd (omega (arith, m, missing, plan-conserves digest s batch planned k))))

planned_of :
    (digest : Text → Text) (engine : Engine) (id : Text) (now : Time) (o : Option Entry)
    (batch : ProposalBatch)
    → IsOwned engine.coordinator
    → (plan_from digest (snapshot_of engine id now o)).1 ≡ some (ok batch)
    → All
        (λ k.
          (lookup k
              (plan_from digest (snapshot_of engine id now o)).0.coordinator.ticket_reservations
            ≡ none)
          × (lookup k engine.coordinator.match_tickets ≢ none))
        (proposed_tickets batch.proposals)
unfolding plan_from snapshot_of
planned_of digest engine id now none batch owned planned = absurd (ground arith)
planned_of digest engine id now (some entry) batch owned planned =
    elim (Result-cases (coordinator_snapshot engine.coordinator id now entry.policy).1) [
      | inl (e, bad) ↦ absurd (ground arith)
      | inr (s, taken) ↦
          planned_snapshot digest engine.coordinator id now entry.policy s batch owned taken
            (ground arith)
    ]

-- Where the ownership invariant holds and the engine returns a batch, every ticket that a proposal
-- of the batch holds is an active ticket of the coordinator, and no reservation holds it.
pub plan-unreserved :
    (digest : Text → Text) (engine : Engine) (id : Text) (now : Time) (version : Text)
    (batch : ProposalBatch)
    → IsOwned engine.coordinator
    → (engine_plan digest engine id now version).1 ≡ some (ok batch)
    → All
        (λ k.
          (lookup k (engine_plan digest engine id now version).0.coordinator.ticket_reservations
            ≡ none)
          × (lookup k engine.coordinator.match_tickets ≢ none))
        (proposed_tickets batch.proposals)
unfolding engine_plan snapshot
plan-unreserved digest engine id now version batch owned planned =
    planned_of digest engine id now (get engine.policies version) batch owned planned
