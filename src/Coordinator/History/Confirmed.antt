-- ===== src/Coordinator/History/Confirmed.antt =====
-- A reservation is confirmed once: the first success of Confirm decides the answer to every later
-- one, whatever is called in between.
use sema.Base.{
  Text, Text-discrete, List, Option, none, some, true, false, ◌≡◌, refl, ◌∙◌, ap, holds, is_blank,
  if◌then◌else◌, arith,
}
use sema.Base.Map.{lookup, lookup-insert}
use sema.Domain.{
  Time, is_zero_time, Assignment, ReservationStatus, active, confirmed, expired,
  idempotency_conflict, ok-injective, ok, err,
}
use sema.Coordinator.{Coordinator, ReservationRecord}
use sema.Coordinator.Expiry.{is_active, release_holds, expire}
use sema.Coordinator.Confirmation.Consumed.{expire-assignments}
use sema.Coordinator.Expiry.Laws.{aged, lookup-expire}
use sema.Coordinator.Confirmation.{
  new_assignment, with_assignment, record_assignment, commit, assignment_or_zero, confirm_fresh,
  confirm_record, confirm_locked, confirm,
}
use sema.Coordinator.Confirmation.Cases.{confirm_cases, confirm_active_cases, consume-SameHolds}
use sema.Coordinator.Assignments.Unique.{is_confirmed, IsAssigned, expire-IsAssigned}
use sema.Coordinator.History.{Call, run}
use sema.Coordinator.History.Invariant.{Inv}
use sema.Coordinator.History.Terminal.{reservation_final}
use sema.Coordinator.History.Delivery.{Outlives, assignment_final}

-- The reservation is confirmed with the assignment.
pub record IsConfirmed (c : Coordinator) (k a : Text) (x : Assignment) : Type 0 where
  pub entry : ReservationRecord
  pub found : lookup k c.reservations ≡ some entry
  pub settled : is_confirmed entry.reservation.status ≡ true
  pub assignment : entry.assignment ≡ a
  pub delivered : lookup a c.assignments ≡ some x
  pub reservation : x.reservation_id ≡ k

commit-IsConfirmed :
    (k a : Text) (r : ReservationRecord) (now : Time) (c : Coordinator)
    → IsConfirmed (commit k a r now c) k a (new_assignment k a r now)
unfolding commit record_assignment release_holds new_assignment
commit-IsConfirmed k a r now c =
    let same = consume-SameHolds r.proposal.target r.proposal.tickets c in
    record {
      entry = with_assignment a r;
      found =
          rw same.reservations
            (ground (arith, lookup-insert k k (with_assignment a r) c.reservations));
      settled = refl;
      assignment = refl;
      delivered =
          rw same.assignments
            (ground (arith, lookup-insert a a (new_assignment k a r now) c.assignments));
      reservation = refl;
    }

fresh-IsConfirmed :
    (o : Option Assignment) (k a : Text) (r : ReservationRecord) (now : Time) (c : Coordinator)
    (x : Assignment)
    → IsAssigned c
    → lookup k c.reservations ≡ some r
    → is_active r.reservation.status ≡ true
    → lookup a c.assignments ≡ o
    → (confirm_fresh o k a r now c).1 ≡ ok x
    → IsConfirmed (confirm_fresh o k a r now c).0 k a x
unfolding confirm_fresh
fresh-IsConfirmed none k a r now c x v found live e h =
    rw (ok-injective _ _ h) at (commit-IsConfirmed k a r now c)
fresh-IsConfirmed (some y) k a r now c x v found live e h =
    absurd (ground (arith, v.assigned_by a y e))

replay-IsConfirmed :
    (k a : Text) (r : ReservationRecord) (c : Coordinator) (x : Assignment)
    → IsAssigned c
    → lookup k c.reservations ≡ some r
    → is_confirmed r.reservation.status ≡ true
    → (same : Dec (r.assignment ≡ a))
    → (if holds same
        then ok (assignment_or_zero (lookup a c.assignments))
        else err idempotency_conflict)
      ≡ ok x
    → IsConfirmed c k a x
replay-IsConfirmed k a r c x v found settled (no other) h = absurd (cc h)
replay-IsConfirmed k a r c x v found settled (yes same) h =
    let (y, stored, by) = v.confirmed_has k r found settled in
    record {
      entry = r;
      found = found;
      settled = settled;
      assignment = same;
      delivered = ground arith;
      reservation = ground arith;
    }

record-IsConfirmed :
    (s : ReservationStatus) (k a : Text) (r : ReservationRecord) (now : Time) (c : Coordinator)
    (x : Assignment)
    → IsAssigned c
    → lookup k c.reservations ≡ some r
    → r.reservation.status ≡ s
    → (confirm_record s k a r now c).1 ≡ ok x
    → IsConfirmed (confirm_record s k a r now c).0 k a x
unfolding confirm_record
record-IsConfirmed confirmed k a r now c x v found e h =
    rw state (
      replay-IsConfirmed k a r c x v found (rw e refl) (Text-discrete r.assignment a)
        (ground arith))
  where
    state : (confirm_record confirmed k a r now c).0 ≡ c
    state = ground arith
record-IsConfirmed expired k a r now c x v found e h = absurd (cc h)
record-IsConfirmed ReservationStatus.cancelled k a r now c x v found e h = absurd (cc h)
record-IsConfirmed active k a r now c x v found e h =
    confirm_active_cases (λ o. o.1 ≡ ok x → IsConfirmed o.0 k a x) k a r now c
      (λ _ _ bad. absurd (cc bad))
      (λ _ good. fresh-IsConfirmed _ k a r now c x v found (rw e refl) refl good) h

-- In a state that the invariant allows, a success of Confirm leaves the reservation confirmed.
confirm-IsConfirmed :
    (c : Coordinator) (k a : Text) (now : Time) (x : Assignment)
    → IsAssigned c
    → (confirm c k a now).1 ≡ ok x
    → IsConfirmed (confirm c k a now).0 k a x
confirm-IsConfirmed c k a now x v =
    confirm_cases (λ o. o.1 ≡ ok x → IsConfirmed o.0 k a x) c k a now (λ bad. absurd (cc bad))
      (λ _ bad. absurd (cc bad))
      (λ r found good.
        record-IsConfirmed r.reservation.status k a r now (expire now c) x
          (expire-IsAssigned now c v) found refl good)

-- What Confirm answers for a reservation that is confirmed.
answer-IsConfirmed :
    (c : Coordinator) (k a b : Text) (now : Time) (x : Assignment)
    → IsConfirmed c k a x
    → is_blank k ≡ false
    → is_blank b ≡ false
    → is_zero_time now ≡ false
    → confirm c k b now
      ≡ (expire now c, if holds (Text-discrete a b) then ok x else err idempotency_conflict)
unfolding confirm confirm_locked confirm_record aged
answer-IsConfirmed c k a b now x s named other_named timed =
    ground (arith, lookup-expire now k c, expire-assignments now c, s)

-- Under the invariant, after a success of Confirm and any later calls, a repetition with the same
-- assignment returns that assignment, as it is by then, and another assignment is refused as an
-- idempotency conflict; the names of the repetition are not blank and its time is not zero.
pub confirmed_once :
    (c : Coordinator) (k a b : Text) (now later : Time) (x : Assignment) (calls : List Call)
    → Inv c
    → (confirm c k a now).1 ≡ ok x
    → is_blank k ≡ false
    → is_blank b ≡ false
    → is_zero_time later ≡ false
    → (y : Assignment) × Outlives x y
      × ((confirm (run calls (confirm c k a now).0) k b later).1
          ≡ (if holds (Text-discrete a b) then ok y else err idempotency_conflict))
confirmed_once c k a b now later x calls v good named other_named timed =
    let d = (confirm c k a now).0 in
    let s = confirm-IsConfirmed c k a now x v.assigned good in
    let (u, kept, evolved) = reservation_final k s.entry calls d s.found in
    let (y, held, lives) = assignment_final a x calls d s.delivered in
    let still : u ≡ s.entry = evolved.final (ground (arith, s)) in
    let t : IsConfirmed (run calls d) k a y = record {
      entry = u;
      found = kept;
      settled = rw still s.settled;
      assignment = rw still s.assignment;
      delivered = held;
      reservation = lives.reservation_id ∙ s.reservation;
    } in
    (
      y,
      lives,
      ap (λ o. o.1) (answer-IsConfirmed (run calls d) k a b later y t named other_named timed),
    )
