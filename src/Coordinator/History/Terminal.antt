-- ===== src/Coordinator/History/Terminal.antt =====
-- How a reservation and an assignment may change from call to call: only the first ending of a
-- reservation and the first acknowledgment of an assignment are ever written.
use sema.Base.{
  Text, Text-discrete, List, [], ◌∷◌, none, some, true, false, ◌≡◌, refl, inl, inr, arith,
}
use sema.Base.Map.{lookup, insert, lookup-insert}
use sema.Domain.{
  MatchmakingPolicy, Time, MatchProposal, ReservationStatus, active, expired, Result-cases,
}
use sema.Coordinator.{Coordinator, ReservationRecord}
use sema.Coordinator.Tickets.{
  upsert_match_ticket, upsert_backfill_ticket, cancel_match_ticket, cancel_backfill_ticket,
}
use sema.Coordinator.Expiry.{is_active, with_status, set_status, release_holds, expire}
use sema.Coordinator.Expiry.Laws.{expire_keeps}
use sema.Coordinator.Reservations.{new_reservation, bind, cancel_record}
use sema.Coordinator.Reservations.Cases.{reserve_cases, cancel_cases}
use sema.Coordinator.Confirmation.{with_assignment, record_assignment, commit}
use sema.Coordinator.Confirmation.Cases.{consume-SameHolds}
use sema.Coordinator.Confirmation.Keeping.{confirm_keeps}
use sema.Coordinator.Assignments.Cases.{acknowledge_keeps}
use sema.Coordinator.Snapshot.{check_request, snapshot}
use sema.Coordinator.History.{
  Call, submits_match, submits_backfill, withdraws_match, withdraws_backfill, snapshots, reserves,
  confirms, acknowledges, cancels, perform, run,
}
use sema.Coordinator.History.Invariant.{
  upsert_match_ticket-SameHolds, upsert_backfill_ticket-SameHolds, cancel_match_ticket-SameHolds,
  cancel_backfill_ticket-SameHolds,
}

-- What was agreed stays, and an ended reservation stays altogether.
pub record Evolves (r u : ReservationRecord) : Type 0 where
  pub id : u.reservation.id ≡ r.reservation.id
  pub tickets : u.reservation.tickets ≡ r.reservation.tickets
  pub target : u.reservation.target ≡ r.reservation.target
  pub expires_at : u.reservation.expires_at ≡ r.reservation.expires_at
  pub proposal : u.proposal ≡ r.proposal
  pub final : is_active r.reservation.status ≡ false → u ≡ r

abbrev pub Known : Text → ReservationRecord → Coordinator → Type 0
Known k r c = (u : ReservationRecord) × (lookup k c.reservations ≡ some u) × Evolves r u

Evolves-refl : (r : ReservationRecord) → Evolves r r
Evolves-refl r = record {
  id = refl;
  tickets = refl;
  target = refl;
  expires_at = refl;
  proposal = refl;
  final = λ _. refl;
}

same-Known :
    (k : Text) (r : ReservationRecord) (c d : Coordinator)
    → d.reservations ≡ c.reservations
    → Known k r c
    → Known k r d
same-Known k r c d e (u, found, evolved) = (u, rw e found, evolved)

-- A write to an active reservation that keeps what was agreed.
write-Known :
    (k j : Text) (r w x : ReservationRecord) (c d : Coordinator)
    → lookup j c.reservations ≡ some w
    → is_active w.reservation.status ≡ true
    → Evolves w x
    → d.reservations ≡ insert j x c.reservations
    → Known k r c
    → Known k r d
write-Known k j r w x c d found live evolves written (u, known, evolved) =
    let stored = lookup-insert j k x c.reservations in
    elim (Text-discrete j k) [
      | yes e ↦ (x, ground (arith, stored), ground arith)
      | no e ↦ (u, ground (arith, stored), evolved)
    ]

ended-Evolves :
    (r : ReservationRecord) (s : ReservationStatus)
    → is_active r.reservation.status ≡ true
    → Evolves r (with_status s r)
ended-Evolves r s live = record {
  id = refl;
  tickets = refl;
  target = refl;
  expires_at = refl;
  proposal = refl;
  final = λ over. absurd (ground arith);
}

confirmed-Evolves :
    (r : ReservationRecord) (id : Text)
    → is_active r.reservation.status ≡ true
    → Evolves r (with_assignment id r)
confirmed-Evolves r id live = record {
  id = refl;
  tickets = refl;
  target = refl;
  expires_at = refl;
  proposal = refl;
  final = λ over. absurd (ground arith);
}

module _ (k : Text) (r : ReservationRecord) where
  end-Known :
      (c : Coordinator) (j : Text) (w : ReservationRecord) (s : ReservationStatus)
      → lookup j c.reservations ≡ some w
      → is_active w.reservation.status ≡ true
      → Known k r c
      → Known k r (set_status j s w (release_holds w.reservation c))
  unfolding set_status release_holds
  end-Known c j w s found live =
      write-Known k j r w (with_status s w) c (set_status j s w (release_holds w.reservation c))
        found live (ended-Evolves w s live) refl

  expire-Known : (now : Time) (c : Coordinator) → Known k r c → Known k r (expire now c)
  expire-Known now =
      expire_keeps (Known k r) now
        (λ j w c found due known. end-Known c j w expired found (ground arith) known)

  bind-Known :
      (c : Coordinator) (p : MatchProposal) (id : Text) (now : Time)
      → lookup id c.reservations ≡ none
      → Known k r c
      → Known k r (bind c p id now)
  unfolding bind
  bind-Known c p id now unused (u, known, evolved) =
      (u, ground (arith, lookup-insert id k bound c.reservations), evolved)
    where
      bound : ReservationRecord
      bound = record { reservation = new_reservation c p id now; proposal = p; assignment = [] }

  cancel_record-Known :
      (s : ReservationStatus) (id : Text) (w : ReservationRecord) (c : Coordinator)
      → w.reservation.status ≡ s
      → lookup id c.reservations ≡ some w
      → Known k r c
      → Known k r (cancel_record s id w c).0
  unfolding cancel_record
  cancel_record-Known active id w c e found known =
      end-Known c id w ReservationStatus.cancelled found (rw e refl) known
  cancel_record-Known _ id w c e found known = known

  commit-Known :
      (reservation id : Text) (w : ReservationRecord) (now : Time) (c : Coordinator)
      → lookup reservation c.reservations ≡ some w
      → is_active w.reservation.status ≡ true
      → Known k r c
      → Known k r (commit reservation id w now c)
  unfolding commit record_assignment release_holds
  commit-Known reservation id w now c found live =
      write-Known k reservation r w (with_assignment id w) c (commit reservation id w now c) found
        live (confirmed-Evolves w id live)
        (rw (consume-SameHolds w.proposal.target w.proposal.tickets c).reservations refl)

  snapshot-Known :
      (c : Coordinator) (id : Text) (now : Time) (policy : MatchmakingPolicy)
      → Known k r c
      → Known k r (snapshot c id now policy).0
  unfolding snapshot
  snapshot-Known c id now policy known = elim (Result-cases (check_request id now policy)) [
    | inl (e, h) ↦ rw (h, snapshot) known
    | inr (_, h) ↦ rw (h, snapshot) (expire-Known now c known)
  ]

  perform-Known : (call : Call) (c : Coordinator) → Known k r c → Known k r (perform call c)
  unfolding perform set_status release_holds
  perform-Known (submits_match t) c known =
      same-Known k r c (upsert_match_ticket c t).0 (upsert_match_ticket-SameHolds c t).reservations
        known
  perform-Known (submits_backfill t) c known =
      same-Known k r c (upsert_backfill_ticket c t).0
        (upsert_backfill_ticket-SameHolds c t).reservations known
  perform-Known (withdraws_match id revision) c known =
      same-Known k r c (cancel_match_ticket c id revision).0
        (cancel_match_ticket-SameHolds c id revision).reservations known
  perform-Known (withdraws_backfill id revision roster) c known =
      same-Known k r c (cancel_backfill_ticket c id revision roster).0
        (cancel_backfill_ticket-SameHolds c id revision roster).reservations known
  perform-Known (snapshots id now policy) c known = snapshot-Known c id now policy known
  perform-Known (reserves p id now) c known =
      let aged = expire-Known now c known in
      reserve_cases (λ o. Known k r o.0) c p id now (λ _ _. known) (λ _ _. aged) (λ _ _ _. aged)
        (λ unused _ _. bind-Known (expire now c) p id now unused aged)
  perform-Known (confirms reservation id now) c known =
      let aged = expire-Known now c known in
      confirm_keeps (Known k r) c reservation id now known aged
        (λ w found live.
          end-Known (expire now c) reservation w ReservationStatus.cancelled found live aged)
        (λ w found live _. commit-Known reservation id w now (expire now c) found live aged)
  perform-Known (acknowledges id request now) c known =
      acknowledge_keeps (Known k r) c id request now known (λ _ _ _ _. known)
  perform-Known (cancels id now) c known =
      let aged = expire-Known now c known in
      cancel_cases (λ o. Known k r o.0) c id now known (λ _. aged)
        (λ w found. cancel_record-Known w.reservation.status id w (expire now c) refl found aged)

  run-Known : (calls : List Call) (c : Coordinator) → Known k r c → Known k r (run calls c)
  unfolding run
  run-Known [] c known = known
  run-Known (call ∷ calls) c known = run-Known calls (perform call c) (perform-Known call c known)

-- Whatever is called later, a reservation keeps its tickets, target, proposal and expiry, and once
-- it is confirmed, cancelled or expired its record never changes.
pub reservation_final :
    (k : Text) (r : ReservationRecord) (calls : List Call) (c : Coordinator)
    → lookup k c.reservations ≡ some r
    → (u : ReservationRecord) × (lookup k (run calls c).reservations ≡ some u) × Evolves r u
reservation_final k r calls c found = run-Known k r calls c (r, found, Evolves-refl r)
