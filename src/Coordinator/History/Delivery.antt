-- ===== src/Coordinator/History/Delivery.antt =====
-- How an assignment may change from call to call: it is written when its reservation is
-- confirmed, and once more when its outcome is acknowledged.
use sema.Base.{Text, Text-discrete, List, [], ◌∷◌, none, some, true, false, ◌≡◌, inl, inr, arith}
use sema.Base.Map.{lookup, insert, lookup-insert}
use sema.Domain.{
  Time, Assignment, AssignmentAcknowledgmentRequest, MatchmakingPolicy, ReservationStatus, active,
  Result-cases,
}
use sema.Coordinator.{Coordinator, ReservationRecord}
use sema.Coordinator.Tickets.{
  upsert_match_ticket, upsert_backfill_ticket, cancel_match_ticket, cancel_backfill_ticket,
}
use sema.Coordinator.Expiry.{set_status, release_holds, expire}
use sema.Coordinator.Expiry.Laws.{expire_keeps}
use sema.Coordinator.Reservations.{bind, cancel_record}
use sema.Coordinator.Reservations.Cases.{reserve_cases, cancel_cases}
use sema.Coordinator.Confirmation.{new_assignment, record_assignment, commit}
use sema.Coordinator.Confirmation.Cases.{consume-SameHolds}
use sema.Coordinator.Confirmation.Keeping.{confirm_keeps}
use sema.Coordinator.Assignments.{acknowledged}
use sema.Coordinator.Assignments.Cases.{is_pending, acknowledge_keeps}
use sema.Coordinator.Snapshot.{check_request, snapshot}
use sema.Coordinator.History.{
  Call, submits_match, submits_backfill, withdraws_match, withdraws_backfill, snapshots, reserves,
  confirms, acknowledges, cancels, perform, run,
}
use sema.Coordinator.History.Invariant.{
  upsert_match_ticket-SameHolds, upsert_backfill_ticket-SameHolds, cancel_match_ticket-SameHolds,
  cancel_backfill_ticket-SameHolds,
}

-- The placement stays, and an acknowledged assignment stays altogether.
pub record Outlives (x y : Assignment) : Type 0 where
  pub id : y.id ≡ x.id
  pub reservation_id : y.reservation_id ≡ x.reservation_id
  pub proposal_id : y.proposal_id ≡ x.proposal_id
  pub kind : y.kind ≡ x.kind
  pub teams : y.teams ≡ x.teams
  pub target : y.target ≡ x.target
  pub confirmed_at : y.confirmed_at ≡ x.confirmed_at
  pub final : is_pending x.status ≡ false → y ≡ x

abbrev Delivered : Text → Assignment → Coordinator → Type 0
Delivered a x c = (y : Assignment) × (lookup a c.assignments ≡ some y) × Outlives x y

module _ (a : Text) (x : Assignment) where
  same-Delivered :
      (c d : Coordinator) → d.assignments ≡ c.assignments → Delivered a x c → Delivered a x d
  same-Delivered c d e (y, found, lives) = (y, rw e found, lives)

  expire-Delivered : (now : Time) (c : Coordinator) → Delivered a x c → Delivered a x (expire now c)
  unfolding set_status release_holds
  expire-Delivered now = expire_keeps (Delivered a x) now (λ k r c found due known. known)

  snapshot-Delivered :
      (c : Coordinator) (id : Text) (now : Time) (policy : MatchmakingPolicy)
      → Delivered a x c
      → Delivered a x (snapshot c id now policy).0
  unfolding snapshot
  snapshot-Delivered c id now policy known = elim (Result-cases (check_request id now policy)) [
    | inl (e, h) ↦ rw (h, snapshot) known
    | inr (_, h) ↦ rw (h, snapshot) (expire-Delivered now c known)
  ]

  cancel_record-Delivered :
      (s : ReservationStatus) (id : Text) (r : ReservationRecord) (c : Coordinator)
      → Delivered a x c
      → Delivered a x (cancel_record s id r c).0
  unfolding cancel_record set_status release_holds
  cancel_record-Delivered active id r c known = known
  cancel_record-Delivered _ id r c known = known

  commit-Delivered :
      (reservation id : Text) (r : ReservationRecord) (now : Time) (c : Coordinator)
      → lookup id c.assignments ≡ none
      → Delivered a x c
      → Delivered a x (commit reservation id r now c)
  unfolding commit record_assignment release_holds
  commit-Delivered reservation id r now c unused (y, found, lives) = (
    y,
    rw (consume-SameHolds r.proposal.target r.proposal.tickets c).assignments
        (ground (arith, lookup-insert id a (new_assignment reservation id r now) c.assignments)),
    lives,
  )

  acknowledged-Delivered :
      (c : Coordinator) (id : Text) (w : Assignment) (request : AssignmentAcknowledgmentRequest)
      (now : Time)
      → lookup id c.assignments ≡ some w
      → is_pending w.status ≡ true
      → Delivered a x c
      → Delivered a x
          (record c { assignments = insert id (acknowledged w request now) c.assignments })
  acknowledged-Delivered c id w request now found open_status (y, known, lives) =
      let stored = lookup-insert id a (acknowledged w request now) c.assignments in
      elim (Text-discrete id a) [
        | yes e ↦ (acknowledged w request now, ground (arith, stored), ground arith)
        | no e ↦ (y, ground (arith, stored), lives)
      ]

  perform-Delivered :
      (call : Call) (c : Coordinator) → Delivered a x c → Delivered a x (perform call c)
  unfolding perform set_status release_holds bind
  perform-Delivered (submits_match t) c known =
      same-Delivered c (upsert_match_ticket c t).0 (upsert_match_ticket-SameHolds c t).assignments
        known
  perform-Delivered (submits_backfill t) c known =
      same-Delivered c (upsert_backfill_ticket c t).0
        (upsert_backfill_ticket-SameHolds c t).assignments known
  perform-Delivered (withdraws_match id revision) c known =
      same-Delivered c (cancel_match_ticket c id revision).0
        (cancel_match_ticket-SameHolds c id revision).assignments known
  perform-Delivered (withdraws_backfill id revision roster) c known =
      same-Delivered c (cancel_backfill_ticket c id revision roster).0
        (cancel_backfill_ticket-SameHolds c id revision roster).assignments known
  perform-Delivered (snapshots id now policy) c known = snapshot-Delivered c id now policy known
  perform-Delivered (reserves p id now) c known =
      let aged = expire-Delivered now c known in
      reserve_cases (λ o. Delivered a x o.0) c p id now (λ _ _. known) (λ _ _. aged) (λ _ _ _. aged)
        (λ _ _ _. aged)
  perform-Delivered (confirms reservation id now) c known =
      let aged = expire-Delivered now c known in
      confirm_keeps (Delivered a x) c reservation id now known aged (λ _ _ _. aged)
        (λ r found live unused. commit-Delivered reservation id r now (expire now c) unused aged)
  perform-Delivered (acknowledges id request now) c known =
      acknowledge_keeps (Delivered a x) c id request now known
        (λ w found open_status _. acknowledged-Delivered c id w request now found open_status known)
  perform-Delivered (cancels id now) c known =
      let aged = expire-Delivered now c known in
      cancel_cases (λ o. Delivered a x o.0) c id now known (λ _. aged)
        (λ r found. cancel_record-Delivered r.reservation.status id r (expire now c) aged)

  run-Delivered :
      (calls : List Call) (c : Coordinator) → Delivered a x c → Delivered a x (run calls c)
  unfolding run
  run-Delivered [] c known = known
  run-Delivered (call ∷ calls) c known =
      run-Delivered calls (perform call c) (perform-Delivered call c known)

-- Whatever is called later, an assignment keeps its placement and its reservation, and once its
-- outcome is acknowledged it never changes.
pub assignment_final :
    (a : Text) (x : Assignment) (calls : List Call) (c : Coordinator)
    → lookup a c.assignments ≡ some x
    → (y : Assignment) × (lookup a (run calls c).assignments ≡ some y) × Outlives x y
assignment_final a x calls c found = run-Delivered a x calls c (x, found, ground arith)
