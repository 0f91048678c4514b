-- ===== src/Coordinator/Confirmation.antt =====
-- internal/coordinator/coordinator.go: Confirm.
pub mod Cases
pub mod Keeping
pub mod Consumed
pub mod Reserved
use sema.Base.{
  Text, Text-discrete, List, [], ◌∷◌, Option, none, some, Bool, not, ◌||◌, holds, is_blank,
  if◌then◌else◌,
}
use sema.Base.Map.{Map, lookup, insert, delete}
use sema.Domain.{
  Time, is_zero_time, BackfillTarget, TicketRef, Assignment, ReservationStatus, active, confirmed,
  expired, other_kind, pending, other_status, invalid_input, reservation_expired,
  invalid_transition, idempotency_conflict, Result, ok, err,
}
use sema.Coordinator.{Coordinator, ReservationRecord}
use sema.Coordinator.Expiry.{release_holds, with_status, set_status, expire}
use sema.Coordinator.Tickets.{drop_match_ticket, drop_backfill_ticket}
use sema.Coordinator.Reservations.{validate_freshness}

-- The zero value, which a read of a missing entry yields.
abbrev pub zero_assignment : Assignment
zero_assignment = record {
  id = [];
  reservation_id = [];
  proposal_id = [];
  kind = other_kind [];
  teams = [];
  target = none;
  confirmed_at = 0;
  status = other_status [];
  acknowledgment = none;
}

abbrev pub assignment_or_zero : Option Assignment → Assignment
assignment_or_zero none = zero_assignment
assignment_or_zero (some a) = a

-- The players of each ticket are given up, and the ticket is deleted.
unfoldable pub consume_refs : List TicketRef → Coordinator → Coordinator
consume_refs [] c = c
consume_refs (r ∷ rs) c = consume_refs rs (drop_match_ticket c r.id)

unfoldable pub consume_target : Option BackfillTarget → Coordinator → Coordinator
consume_target none c = c
consume_target (some target) c = drop_backfill_ticket c target.ticket.id

unfoldable pub new_assignment : Text → Text → ReservationRecord → Time → Assignment
new_assignment reservation id r now = record {
  id = id;
  reservation_id = reservation;
  proposal_id = r.proposal.id;
  kind = r.proposal.kind;
  teams = r.proposal.teams;
  target = r.proposal.target;
  confirmed_at = now;
  status = pending;
  acknowledgment = none;
}

-- `record.reservation.Status = ReservationConfirmed; record.assignment = assignmentID`.
abbrev pub with_assignment : Text → ReservationRecord → ReservationRecord
with_assignment id r = record (with_status confirmed r) { assignment = id }

unfoldable pub record_assignment :
    Text → Text → ReservationRecord → Time → Coordinator → Coordinator
record_assignment reservation id r now c = record c {
  reservations = insert reservation (with_assignment id r) c.reservations;
  assignments = insert id (new_assignment reservation id r now) c.assignments;
}

unfoldable pub commit : Text → Text → ReservationRecord → Time → Coordinator → Coordinator
commit reservation id r now c = record_assignment reservation id r now (
    release_holds r.reservation
      (consume_target r.proposal.target (consume_refs r.proposal.tickets c)))

-- An assignment of that name which is already there.
unfoldable pub confirm_fresh :
    Option Assignment
    → Text
    → Text
    → ReservationRecord
    → Time
    → Coordinator
    → Coordinator × Result Assignment
confirm_fresh (some existing) reservation id r now c =
    if holds (Text-discrete existing.reservation_id reservation)
    then (c, ok existing)
    else (c, err idempotency_conflict)
confirm_fresh none reservation id r now c =
    (commit reservation id r now c, ok (new_assignment reservation id r now))

-- An active reservation is cancelled if its proposal is stale.
unfoldable pub confirm_active :
    Text → Text → ReservationRecord → Time → Coordinator → Coordinator × Result Assignment
confirm_active reservation id r now c = elim (validate_freshness c r.proposal) [
  | err e ↦
      (release_holds r.reservation (set_status reservation ReservationStatus.cancelled r c), err e)
  | ok _ ↦ confirm_fresh (lookup id c.assignments) reservation id r now c
]

unfoldable pub confirm_record :
    ReservationStatus
    → Text
    → Text
    → ReservationRecord
    → Time
    → Coordinator
    → Coordinator × Result Assignment
confirm_record confirmed reservation id r now c =
    if holds (Text-discrete r.assignment id)
    then (c, ok (assignment_or_zero (lookup id c.assignments)))
    else (c, err idempotency_conflict)
confirm_record expired reservation id r now c = (c, err reservation_expired)
confirm_record ReservationStatus.cancelled reservation id r now c = (c, err invalid_transition)
confirm_record active reservation id r now c = confirm_active reservation id r now c

unfoldable pub confirm_locked : Text → Text → Time → Coordinator → Coordinator × Result Assignment
confirm_locked reservation id now c = elim (lookup reservation c.reservations) [
  | none ↦ (c, err invalid_transition)
  | some r ↦ confirm_record r.reservation.status reservation id r now c
]

unfoldable pub confirm : Coordinator → Text → Text → Time → Coordinator × Result Assignment
confirm c reservation id now =
    if is_blank reservation || is_blank id || is_zero_time now
    then (c, err invalid_input)
    else confirm_locked reservation id now (expire now c)
