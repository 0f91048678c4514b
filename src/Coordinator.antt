-- ===== src/Coordinator.antt =====
-- internal/coordinator/coordinator.go: the state of the in-memory reservation authority. Each
-- method holds the mutex for its whole body, so it is a function from the state to the state and
-- the method's results. The children model the methods and prove their properties.
pub mod Owners
pub mod Tickets
pub mod Expiry
pub mod Reservations
pub mod Confirmation
pub mod Assignments
pub mod Snapshot
pub mod History
use sema.Base.{Text, ℤ, pos, negsuc, ◌+◌, ◌-◌, suc, is_not_positive, []}
use sema.Base.Map.{Map}
use sema.Domain.{
  Time, MatchTicket, BackfillTicket, Reservation, MatchProposal, Assignment, invalid_input, Result,
  ok, err, ◌>>=◌, ◌>>◌, fail_if,
}

-- `assignment` is blank until the reservation is confirmed.
pub record ReservationRecord : Type 0 where
  pub reservation : Reservation
  pub proposal : MatchProposal
  pub assignment : Text

pub record Coordinator : Type 0 where
  pub ttl : ℤ
  pub match_tickets : Map MatchTicket
  pub backfill_tickets : Map BackfillTicket
  pub player_tickets : Map Text
  pub ticket_reservations : Map Text
  pub backfill_reservations : Map Text
  pub reservations : Map ReservationRecord
  pub assignments : Map Assignment

unfoldable pub new : ℤ → Result Coordinator
new ttl = do
  fail_if (is_not_positive ttl) invalid_input
  ok (record {
    ttl = ttl;
    match_tickets = [];
    backfill_tickets = [];
    player_tickets = [];
    ticket_reservations = [];
    backfill_reservations = [];
    reservations = [];
    assignments = [];
  })

-- `now.Add(ttl)`.
abbrev pub add_time : Time → ℤ → Time
add_time now (pos n) = now + n
add_time now (negsuc n) = now - suc n
