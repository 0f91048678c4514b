-- ===== src/Coordinator/Confirmation/Reserved.antt =====
-- What Reserve has just reserved, Confirm confirms.
use sema.Base.{Text, [], none, some, false, ◌≡◌, ◌∙◌, refl, ap, is_blank, is_not_positive, arith}
use sema.Base.Map.{lookup, lookup-insert}
use sema.Domain.{Time, is_zero_time, MatchProposal, Reservation, active, ok, ok-injective}
use sema.Coordinator.{Coordinator, ReservationRecord}
use sema.Coordinator.Expiry.{expire}
use sema.Coordinator.Expiry.Laws.{aged, lookup-expire, expire_idle, expire-NoneDue}
use sema.Coordinator.Reservations.{
  bind, new_reservation, check_reserve, reserve, validate_freshness,
}
use sema.Coordinator.Reservations.Cases.{reserve_cases}
use sema.Coordinator.Confirmation.{
  new_assignment, confirm_fresh, confirm_active, confirm_record, confirm_locked, confirm,
}
use sema.Coordinator.Confirmation.Consumed.{expire-assignments}
use sema.Coordinator.History.Once.{bind-NoneDue, expire-ttl, reserve_checked}

-- The record of a reservation that has been made and not yet confirmed.
abbrev pub reserved : MatchProposal → Reservation → ReservationRecord
reserved p r = record { reservation = r; proposal = p; assignment = [] }

-- A state without a due reservation confirms one that is active and fresh.
confirm_fresh_record :
    (d : Coordinator) (name id : Text) (now : Time) (u : ReservationRecord)
    → is_blank name ≡ false
    → is_blank id ≡ false
    → is_zero_time now ≡ false
    → expire now d ≡ d
    → lookup name d.reservations ≡ some u
    → u.reservation.status ≡ active
    → validate_freshness d u.proposal ≡ ok tt
    → lookup id d.assignments ≡ none
    → (confirm d name id now).1 ≡ ok (new_assignment name id u now)
unfolding confirm confirm_locked confirm_record confirm_active confirm_fresh
confirm_fresh_record d name id now u named titled timed still found live fresh unused = ground arith

bind-confirm :
    (c : Coordinator) (p : MatchProposal) (name id : Text) (now : Time)
    → is_not_positive c.ttl ≡ false
    → lookup id c.assignments ≡ none
    → is_blank id ≡ false
    → check_reserve p name now ≡ ok tt
    → validate_freshness (expire now c) p ≡ ok tt
    → (confirm (bind (expire now c) p name now) name id now).1
      ≡ ok (new_assignment name id (reserved p (new_reservation (expire now c) p name now)) now)
unfolding bind new_reservation validate_freshness check_reserve
bind-confirm c p name id now positive unused titled checked fresh =
    let u = reserved p (new_reservation (expire now c) p name now) in
    confirm_fresh_record (bind (expire now c) p name now) name id now u (ground arith) titled
      (ground arith)
      (expire_idle now (bind (expire now c) p name now) (
        bind-NoneDue now (expire now c) p name (ap is_not_positive (expire-ttl now c) ∙ positive)
          (expire-NoneDue now c)))
      (ground (arith, lookup-insert name name u (expire now c).reservations)) refl fresh
      (ap (lookup id) (expire-assignments now c) ∙ unused)

-- Where the lifetime of reservations is positive and Reserve succeeds under the name of no
-- reservation so far, Confirm at the same time, under the name of no assignment so far, succeeds with
-- a new assignment for that reservation.
pub confirm-reserve :
    (c : Coordinator) (p : MatchProposal) (name id : Text) (now : Time) (r : Reservation)
    → is_not_positive c.ttl ≡ false
    → lookup name c.reservations ≡ none
    → lookup id c.assignments ≡ none
    → is_blank id ≡ false
    → (reserve c p name now).1 ≡ ok r
    → (confirm (reserve c p name now).0 name id now).1
      ≡ ok (new_assignment name id (reserved p r) now)
unfolding aged
confirm-reserve c p name id now r positive free unused titled h =
    reserve_cases
      (λ o.
        o.1 ≡ ok r → (confirm o.0 name id now).1 ≡ ok (new_assignment name id (reserved p r) now))
      c p name now (λ e _ bad. absurd (cc bad))
      (λ w found answer. absurd (ground (arith, lookup-expire now name c)))
      (λ _ e _ bad. absurd (cc bad))
      (λ _ fresh _ made.
        bind-confirm c p name id now positive unused titled (reserve_checked c p name now r h) fresh
        ∙ ap (λ x. ok (new_assignment name id (reserved p x) now)) (ok-injective _ _ made))
      h
