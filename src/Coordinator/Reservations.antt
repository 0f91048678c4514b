-- ===== src/Coordinator/Reservations.antt =====
-- internal/coordinator/coordinator.go: the freshness and availability checks, Reserve and
-- Cancel.
pub mod Cases
pub mod Outcome
pub mod Holding
use sema.Base.{
  Text, Text-discrete, ℤ, List, [], ◌∷◌, Option, none, some, Bool, true, false, not, ◌&&◌, ◌||◌,
  holds, is_blank, ltb, ◌==◌, if◌then◌else◌,
}
use sema.Base.Map.{Map, lookup, insert, delete}
use sema.Domain.{
  Time, is_zero_time, MatchTicket, BackfillTicket, TicketRef, BackfillTarget, MatchProposal,
  MatchProposal-discrete, Reservation, ReservationStatus, active, confirmed, expired, invalid_input,
  stale_snapshot, reservation_conflict, reservation_expired, invalid_transition,
  idempotency_conflict, Result, ok, err, ◌>>=◌, ◌>>◌, fail_if,
}
use sema.Domain.Proposal.{validate_proposal}
use sema.Coordinator.{Coordinator, ReservationRecord, add_time}
use sema.Coordinator.Owners.{claim}
use sema.Coordinator.Expiry.{ref_ids, target_ids, release_holds, with_status, set_status, expire}
use sema.Coordinator.Tickets.{is_present, match_differs}

unfoldable pub check_fresh_refs : Map MatchTicket → List TicketRef → Result (Unit {0})
check_fresh_refs m [] = ok tt
check_fresh_refs m (r ∷ rs) = do
  fail_if (match_differs r.revision (lookup r.id m)) stale_snapshot
  check_fresh_refs m rs

unfoldable pub target_differs : BackfillTarget → Option BackfillTicket → Bool
target_differs target none = true
target_differs target (some current) =
    not (current.revision == target.ticket.revision)
    || not (holds (Text-discrete current.session_id target.session_id))
    || not (current.roster_version == target.roster_version)

unfoldable pub check_fresh_target : Map BackfillTicket → Option BackfillTarget → Result (Unit {0})
check_fresh_target m none = ok tt
check_fresh_target m (some target) =
    fail_if (target_differs target (lookup target.ticket.id m)) stale_snapshot

unfoldable pub validate_freshness : Coordinator → MatchProposal → Result (Unit {0})
validate_freshness c p = do
  check_fresh_refs c.match_tickets p.tickets
  check_fresh_target c.backfill_tickets p.target

unfoldable pub check_free : Map Text → List Text → Result (Unit {0})
check_free m [] = ok tt
check_free m (k ∷ ks) = do fail_if (is_present (lookup k m)) reservation_conflict; check_free m ks

unfoldable pub validate_availability : Coordinator → MatchProposal → Result (Unit {0})
validate_availability c p = do
  check_free c.ticket_reservations (ref_ids p.tickets)
  check_free c.backfill_reservations (target_ids p.target)

unfoldable pub replay : ReservationStatus → Reservation → Result Reservation
replay active r = ok r
replay confirmed r = ok r
replay expired r = err reservation_expired
replay ReservationStatus.cancelled r = err invalid_transition

unfoldable pub replay_record : ReservationRecord → MatchProposal → Result Reservation
replay_record existing p = do
  fail_if (not (holds (MatchProposal-discrete existing.proposal p))) idempotency_conflict
  replay existing.reservation.status existing.reservation

unfoldable pub new_reservation : Coordinator → MatchProposal → Text → Time → Reservation
new_reservation c p id now = record {
  id = id;
  proposal_id = p.id;
  tickets = p.tickets;
  target = p.target;
  expires_at = add_time now c.ttl;
  status = active;
}

unfoldable pub bind : Coordinator → MatchProposal → Text → Time → Coordinator
bind c p id now = record c {
  reservations =
      insert id (record { reservation = new_reservation c p id now; proposal = p; assignment = [] })
        c.reservations;
  ticket_reservations = claim id (ref_ids p.tickets) c.ticket_reservations;
  backfill_reservations = claim id (target_ids p.target) c.backfill_reservations;
}

unfoldable pub reserve_new :
    Coordinator → MatchProposal → Text → Time → Coordinator × Result Reservation
reserve_new c p id now = elim (validate_freshness c p >> validate_availability c p) [
  | err e ↦ (c, err e)
  | ok _ ↦ (bind c p id now, ok (new_reservation c p id now))
]

unfoldable pub reserve_locked :
    Coordinator → MatchProposal → Text → Time → Coordinator × Result Reservation
reserve_locked c p id now = elim (lookup id c.reservations) [
  | some existing ↦ (c, replay_record existing p)
  | none ↦ reserve_new c p id now
]

unfoldable pub check_reserve : MatchProposal → Text → Time → Result (Unit {0})
check_reserve p id now = do
  fail_if (is_blank id || is_zero_time now) invalid_input
  validate_proposal p

unfoldable pub reserve :
    Coordinator → MatchProposal → Text → Time → Coordinator × Result Reservation
reserve c p id now = elim (check_reserve p id now) [
  | err e ↦ (c, err e)
  | ok _ ↦ reserve_locked (expire now c) p id now
]

-- The `switch` of `Cancel`.
unfoldable pub cancel_record :
    ReservationStatus → Text → ReservationRecord → Coordinator → Coordinator × Result Reservation
cancel_record active id r c = (
  set_status id ReservationStatus.cancelled r (release_holds r.reservation c),
  ok (with_status ReservationStatus.cancelled r).reservation,
)
cancel_record ReservationStatus.cancelled id r c = (c, ok r.reservation)
cancel_record expired id r c = (c, err reservation_expired)
cancel_record confirmed id r c = (c, err invalid_transition)

unfoldable pub cancel_locked : Coordinator → Text → Coordinator × Result Reservation
cancel_locked c id = elim (lookup id c.reservations) [
  | none ↦ (c, err invalid_transition)
  | some r ↦ cancel_record r.reservation.status id r c
]

unfoldable pub cancel : Coordinator → Text → Time → Coordinator × Result Reservation
cancel c id now =
    if is_blank id || is_zero_time now
    then (c, err invalid_input)
    else cancel_locked (expire now c) id
