-- ===== src/Coordinator/History/Invariant.antt =====
-- What holds between any two calls.
use sema.Base.{Text, List, [], ◌∷◌, none, some, ◌≡◌, refl, inl, inr, ℤ, arith}
use sema.Base.Map.{lookup}
use sema.Domain.{
  Time, Revision, MatchTicket, BackfillTicket, MatchmakingPolicy, MatchProposal,
  AssignmentAcknowledgmentRequest, ReservationStatus, active, Result-cases, ok,
}
use sema.Coordinator.{Coordinator, ReservationRecord, new}
use sema.Coordinator.Tickets.{
  store_match_ticket, store_backfill_ticket, drop_match_ticket, drop_backfill_ticket,
  upsert_match_ticket, upsert_backfill_ticket, cancel_match_ticket, cancel_backfill_ticket,
}
use sema.Coordinator.Tickets.Ownership.{
  IsOwned, upsert_match_ticket-IsOwned, upsert_backfill_ticket-IsOwned, cancel_match_ticket-IsOwned,
  cancel_backfill_ticket-IsOwned,
}
use sema.Coordinator.Expiry.{set_status, release_holds, expire}
use sema.Coordinator.Reservations.{bind, cancel_record, reserve, cancel}
use sema.Coordinator.Reservations.Cases.{reserve_cases, cancel_cases}
use sema.Coordinator.Reservations.Holding.{IsHeld, bind-IsHeld, end-IsHeld, expire-IsHeld}
use sema.Coordinator.Confirmation.Cases.{SameHolds}
use sema.Coordinator.Confirmation.Keeping.{
  IsOwned-same, expire-IsOwned, confirm-IsOwned, confirm-IsHeld,
}
use sema.Coordinator.Assignments.{acknowledge_assignment}
use sema.Coordinator.Assignments.Cases.{acknowledge_keeps}
use sema.Coordinator.Assignments.Unique.{
  IsAssigned, end-IsAssigned, bind-IsAssigned, expire-IsAssigned, confirm-IsAssigned,
  acknowledge_assignment-IsAssigned,
}
use sema.Coordinator.Snapshot.{check_request, snapshot}
use sema.Coordinator.History.{
  Call, submits_match, submits_backfill, withdraws_match, withdraws_backfill, snapshots, reserves,
  confirms, acknowledges, cancels, perform, run,
}

pub record Inv (c : Coordinator) : Type 0 where
  pub owned : IsOwned c
  pub held : IsHeld c
  pub assigned : IsAssigned c

-- Holds and assignments speak of the reservations and the assignments alone.
IsHeld-same :
    (c d : Coordinator)
    → d.reservations ≡ c.reservations
    → d.ticket_reservations ≡ c.ticket_reservations
    → d.backfill_reservations ≡ c.backfill_reservations
    → IsHeld c
    → IsHeld d
IsHeld-same c d e f g v = record {
  record_key = rw e v.record_key;
  agrees = rw e v.agrees;
  holds_tickets = rw (e, f) v.holds_tickets;
  ticket_holder = rw (e, f) v.ticket_holder;
  holds_target = rw (e, g) v.holds_target;
  target_holder = rw (e, g) v.target_holder;
}

IsAssigned-same : (c d : Coordinator) → SameHolds c d → IsAssigned c → IsAssigned d
IsAssigned-same c d s v = record {
  assignment_key = rw s.assignments v.assignment_key;
  confirmed_has = rw (s.reservations, s.assignments) v.confirmed_has;
  assigned_by = rw (s.reservations, s.assignments) v.assigned_by;
  acknowledged_once = rw s.assignments v.acknowledged_once;
}

-- A submission or a withdrawal writes only the active tickets.
pub upsert_match_ticket-SameHolds :
    (c : Coordinator) (t : MatchTicket) → SameHolds c (upsert_match_ticket c t).0
unfolding upsert_match_ticket store_match_ticket
upsert_match_ticket-SameHolds c t = ground arith

pub upsert_backfill_ticket-SameHolds :
    (c : Coordinator) (t : BackfillTicket) → SameHolds c (upsert_backfill_ticket c t).0
unfolding upsert_backfill_ticket store_backfill_ticket
upsert_backfill_ticket-SameHolds c t = ground arith

pub cancel_match_ticket-SameHolds :
    (c : Coordinator) (id : Text) (revision : Revision)
    → SameHolds c (cancel_match_ticket c id revision).0
unfolding cancel_match_ticket drop_match_ticket
cancel_match_ticket-SameHolds c id revision = ground arith

pub cancel_backfill_ticket-SameHolds :
    (c : Coordinator) (id : Text) (revision roster : Revision)
    → SameHolds c (cancel_backfill_ticket c id revision roster).0
unfolding cancel_backfill_ticket drop_backfill_ticket
cancel_backfill_ticket-SameHolds c id revision roster = ground arith

expire-Inv : (now : Time) (c : Coordinator) → Inv c → Inv (expire now c)
expire-Inv now c v = record {
  owned = expire-IsOwned now c v.owned;
  held = expire-IsHeld now c v.held;
  assigned = expire-IsAssigned now c v.assigned;
}

snapshot-Inv :
    (c : Coordinator) (id : Text) (now : Time) (policy : MatchmakingPolicy)
    → Inv c
    → Inv (snapshot c id now policy).0
unfolding snapshot
snapshot-Inv c id now policy v = elim (Result-cases (check_request id now policy)) [
  | inl (e, h) ↦ rw (h, snapshot) v
  | inr (_, h) ↦ rw (h, snapshot) (expire-Inv now c v)
]

bind-Inv :
    (c : Coordinator) (p : MatchProposal) (id : Text) (now : Time)
    → Inv c
    → lookup id c.reservations ≡ none
    → sema.Coordinator.Reservations.validate_availability c p ≡ ok tt
    → Inv (bind c p id now)
unfolding bind
bind-Inv c p id now v fresh free = record {
  owned = IsOwned-same c _ refl refl refl v.owned;
  held = bind-IsHeld c p id now v.held fresh free;
  assigned = bind-IsAssigned c p id now fresh v.assigned;
}

reserve-Inv :
    (c : Coordinator) (p : MatchProposal) (id : Text) (now : Time)
    → Inv c
    → Inv (reserve c p id now).0
reserve-Inv c p id now v =
    let aged = expire-Inv now c v in
    reserve_cases (λ o. Inv o.0) c p id now (λ _ _. v) (λ _ _. aged) (λ _ _ _. aged)
      (λ unused _ free. bind-Inv (expire now c) p id now aged unused free)

cancel_record-Inv :
    (s : ReservationStatus) (id : Text) (r : ReservationRecord) (c : Coordinator)
    → r.reservation.status ≡ s
    → lookup id c.reservations ≡ some r
    → Inv c
    → Inv (cancel_record s id r c).0
unfolding cancel_record set_status release_holds
cancel_record-Inv active id r c e found v = record {
  owned = IsOwned-same c _ refl refl refl v.owned;
  held = end-IsHeld c id r ReservationStatus.cancelled v.held found refl;
  assigned =
      end-IsAssigned c _ id r ReservationStatus.cancelled found (rw e refl) refl refl refl
        v.assigned;
}
cancel_record-Inv _ id r c e found v = v

cancel-Inv : (c : Coordinator) (id : Text) (now : Time) → Inv c → Inv (cancel c id now).0
cancel-Inv c id now v =
    let aged = expire-Inv now c v in
    cancel_cases (λ o. Inv o.0) c id now v (λ _. aged)
      (λ r found. cancel_record-Inv r.reservation.status id r (expire now c) refl found aged)

acknowledge_assignment-Inv :
    (c : Coordinator) (id : Text) (request : AssignmentAcknowledgmentRequest) (now : Time)
    → Inv c
    → Inv (acknowledge_assignment c id request now).0
acknowledge_assignment-Inv c id request now v = record {
  owned =
      acknowledge_keeps IsOwned c id request now v.owned
        (λ a _ _ _. IsOwned-same c _ refl refl refl v.owned);
  held =
      acknowledge_keeps IsHeld c id request now v.held
        (λ a _ _ _. IsHeld-same c _ refl refl refl v.held);
  assigned = acknowledge_assignment-IsAssigned c id request now v.assigned;
}

same-Inv : (c d : Coordinator) → SameHolds c d → IsOwned d → Inv c → Inv d
same-Inv c d s o v = record {
  owned = o;
  held = IsHeld-same c d s.reservations s.ticket_reservations s.backfill_reservations v.held;
  assigned = IsAssigned-same c d s v.assigned;
}

-- Every call, with any arguments, keeps the invariant, whether it succeeds or fails.
pub perform-Inv : (call : Call) (c : Coordinator) → Inv c → Inv (perform call c)
unfolding perform
perform-Inv (submits_match t) c v =
    same-Inv c (upsert_match_ticket c t).0 (upsert_match_ticket-SameHolds c t)
      (upsert_match_ticket-IsOwned c t v.owned) v
perform-Inv (submits_backfill t) c v =
    same-Inv c (upsert_backfill_ticket c t).0 (upsert_backfill_ticket-SameHolds c t)
      (upsert_backfill_ticket-IsOwned c t v.owned) v
perform-Inv (withdraws_match id revision) c v =
    same-Inv c (cancel_match_ticket c id revision).0 (cancel_match_ticket-SameHolds c id revision)
      (cancel_match_ticket-IsOwned c id revision v.owned) v
perform-Inv (withdraws_backfill id revision roster) c v =
    same-Inv c (cancel_backfill_ticket c id revision roster).0
      (cancel_backfill_ticket-SameHolds c id revision roster)
      (cancel_backfill_ticket-IsOwned c id revision roster v.owned) v
perform-Inv (snapshots id now policy) c v = snapshot-Inv c id now policy v
perform-Inv (reserves p id now) c v = reserve-Inv c p id now v
perform-Inv (confirms reservation id now) c v = record {
  owned = confirm-IsOwned c reservation id now v.owned;
  held = confirm-IsHeld c reservation id now v.held;
  assigned = confirm-IsAssigned c reservation id now v.assigned;
}
perform-Inv (acknowledges id request now) c v = acknowledge_assignment-Inv c id request now v
perform-Inv (cancels id now) c v = cancel-Inv c id now v

pub run-Inv : (calls : List Call) (c : Coordinator) → Inv c → Inv (run calls c)
unfolding run
run-Inv [] c v = v
run-Inv (call ∷ calls) c v = run-Inv calls (perform call c) (perform-Inv call c v)

pub new-Inv : (ttl : ℤ) (c : Coordinator) → new ttl ≡ ok c → Inv c
unfolding new lookup
new-Inv ttl c h = record {
  owned = record {
    match_distinct = ground arith;
    backfill_distinct = ground arith;
    match_key = λ k t e. ground arith;
    backfill_key = λ k t e. ground arith;
    apart = λ k t e. ground arith;
    owns = λ k p t e q. ground arith;
    owned = λ p k e. ground arith;
    one_session = λ k j a b e f g. ground arith;
  };
  held = record {
    record_key = λ k r e. ground arith;
    agrees = λ k r e. ground arith;
    holds_tickets = λ k t r e a q. ground arith;
    ticket_holder = λ t k e. ground arith;
    holds_target = λ k t r e a q. ground arith;
    target_holder = λ t k e. ground arith;
  };
  assigned = record {
    assignment_key = λ a x e. ground arith;
    confirmed_has = λ k r e s. ground arith;
    assigned_by = λ a x e. ground arith;
    acknowledged_once = λ a x e. ground arith;
  };
}

-- From a coordinator that New returns, every sequence of calls, whatever they return, keeps the
-- invariant: the owners of players and the holders of tickets and targets are those that the
-- stored tickets and the active reservations call for, and every confirmed reservation, and no
-- other, has its own assignment.
pub history-Inv :
    (ttl : ℤ) (c : Coordinator) (calls : List Call) → new ttl ≡ ok c → Inv (run calls c)
history-Inv ttl c calls h = run-Inv calls c (new-Inv ttl c h)
