-- ===== src/Coordinator/Expiry.antt =====
-- internal/coordinator/coordinator.go: releaseLocked and expireLocked.
pub mod Laws
use sema.Base.{
  Text, List, [], ◌∷◌, Option, none, some, Bool, true, false, not, ◌&&◌, ltb, if◌then◌else◌,
}
use sema.Base.Map.{keys, Map, lookup, insert}
use sema.Domain.{Time, TicketRef, BackfillTarget, Reservation, ReservationStatus, active, expired}
use sema.Coordinator.{Coordinator, ReservationRecord}
use sema.Coordinator.Owners

abbrev pub ref_ids : List TicketRef → List Text
ref_ids [] = []
ref_ids (r ∷ rs) = r.id ∷ ref_ids rs

-- The backfill ticket of a target, as a list of at most one name.
abbrev pub target_ids : Option BackfillTarget → List Text
target_ids none = []
target_ids (some target) = target.ticket.id ∷ []

-- `releaseLocked`.
unfoldable pub release_holds : Reservation → Coordinator → Coordinator
release_holds r c = record c {
  ticket_reservations = Owners.release r.id (ref_ids r.tickets) c.ticket_reservations;
  backfill_reservations = Owners.release r.id (target_ids r.target) c.backfill_reservations;
}

abbrev pub is_active : ReservationStatus → Bool
is_active active = true
is_active _ = false

abbrev pub with_status : ReservationStatus → ReservationRecord → ReservationRecord
with_status s r = record r { reservation = record (r.reservation) { status = s } }

-- The write through the record's pointer.
unfoldable pub set_status : Text → ReservationStatus → ReservationRecord → Coordinator → Coordinator
set_status k s r c = record c { reservations = insert k (with_status s r) c.reservations }

-- Active, and `!now.Before(expiresAt)`.
abbrev pub is_due : Time → Reservation → Bool
is_due now r = is_active r.status && not (ltb now r.expires_at)

unfoldable pub expire_record : Time → Text → Option ReservationRecord → Coordinator → Coordinator
expire_record now k none c = c
expire_record now k (some r) c =
    if is_due now r.reservation then set_status k expired r (release_holds r.reservation c) else c

-- The loop over the reservations, in the order of the given names.
unfoldable pub expire_keys : Time → List Text → Coordinator → Coordinator
expire_keys now [] c = c
expire_keys now (k ∷ ks) c = expire_keys now ks (expire_record now k (lookup k c.reservations) c)

-- `expireLocked`.
unfoldable pub expire : Time → Coordinator → Coordinator
expire now c = expire_keys now (keys c.reservations) c
