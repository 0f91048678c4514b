-- ===== src/Coordinator/History/Once.antt =====
-- What a repeated call does: each method that is given an idempotency token acts once.
use sema.Base.{Text, [], some, false, ◌≡◌, refl, ◌∙◌, ap, inl, inr, is_not_positive, arith}
use sema.Base.Map.{lookup, lookup-insert}
use sema.Domain.{Time, MatchProposal, Reservation, Result-cases, ok}
use sema.Coordinator.{Coordinator, ReservationRecord}
use sema.Coordinator.Expiry.{release_holds, set_status, expire}
use sema.Coordinator.Expiry.Laws.{expire_keeps, NoneDue, expire_idle, expire-NoneDue}
use sema.Coordinator.Reservations.{
  bind, new_reservation, replay, replay_record, check_reserve, reserve_locked, reserve,
}
use sema.Coordinator.Reservations.Cases.{reserve_cases}

-- A reservation that has just been bound is not due, since its time to live is positive.
pub bind-NoneDue :
    (now : Time) (c : Coordinator) (p : MatchProposal) (id : Text)
    → is_not_positive c.ttl ≡ false
    → NoneDue now c
    → NoneDue now (bind c p id now)
unfolding bind new_reservation
bind-NoneDue now c p id positive n k r h =
    ground (arith, lookup-insert id k bound c.reservations, n k r)
  where
    bound : ReservationRecord
    bound = record { reservation = new_reservation c p id now; proposal = p; assignment = [] }

-- A state in which the reservation is there for the proposal answers with it, unchanged.
reserve-known :
    (d : Coordinator) (p : MatchProposal) (id : Text) (now : Time) (r : ReservationRecord)
    (s : Reservation)
    → check_reserve p id now ≡ ok tt
    → NoneDue now d
    → lookup id d.reservations ≡ some r
    → replay_record r p ≡ ok s
    → reserve d p id now ≡ (d, ok s)
unfolding reserve reserve_locked
reserve-known d p id now r s checked n found answer =
    rw (checked, reserve) (rw (expire_idle now d n) (rw (found, reserve_locked) (rw answer)))

pub expire-ttl : (now : Time) (c : Coordinator) → (expire now c).ttl ≡ c.ttl
unfolding set_status release_holds
expire-ttl now c = expire_keeps (λ d. d.ttl ≡ c.ttl) now (λ k r d found due e. e) c refl

pub reserve_checked :
    (c : Coordinator) (p : MatchProposal) (id : Text) (now : Time) (r : Reservation)
    → (reserve c p id now).1 ≡ ok r
    → check_reserve p id now ≡ ok tt
unfolding reserve
reserve_checked c p id now r h = elim (Result-cases (check_reserve p id now)) [
  | inl (e, bad) ↦ absurd (cc (rw (bad, reserve) at h))
  | inr (_, fine) ↦ fine
]

replay-bound :
    (c : Coordinator) (p : MatchProposal) (id : Text) (now : Time)
    (checked : check_reserve p id now ≡ ok tt)
    → is_not_positive c.ttl ≡ false
    → NoneDue now c
    → reserve (bind c p id now) p id now ≡ (bind c p id now, ok (new_reservation c p id now))
replay-bound c p id now checked positive n =
    reserve-known (bind c p id now) p id now bound (new_reservation c p id now) checked
      (bind-NoneDue now c p id positive n) found answer
  where
    bound : ReservationRecord
    bound = record { reservation = new_reservation c p id now; proposal = p; assignment = [] }

    found : lookup id (bind c p id now).reservations ≡ some bound
    found = unfold bind in ground (arith, lookup-insert id id bound c.reservations)

    answer : replay_record bound p ≡ ok (new_reservation c p id now)
    answer = unfold replay_record replay new_reservation in ground arith

-- Where the lifetime of reservations is positive, a successful Reserve, repeated with the same arguments, returns the same reservation and changes
-- nothing.
pub reserve_twice :
    (c : Coordinator) (p : MatchProposal) (id : Text) (now : Time) (r : Reservation)
    → is_not_positive c.ttl ≡ false
    → (reserve c p id now).1 ≡ ok r
    → reserve (reserve c p id now).0 p id now ≡ ((reserve c p id now).0, ok r)
reserve_twice c p id now r positive h =
    reserve_cases (λ o. o.1 ≡ ok r → reserve o.0 p id now ≡ (o.0, ok r)) c p id now
      (λ e _ bad. absurd (cc bad))
      (λ w found answer. reserve-known (expire now c) p id now w r checked quiet found answer)
      (λ _ e _ bad. absurd (cc bad))
      (λ _ _ _ made.
        replay-bound (expire now c) p id now checked (rw (expire-ttl now c) positive) quiet
        ∙ ap (λ o. (bind (expire now c) p id now, o)) made)
      h
  where
    checked : check_reserve p id now ≡ ok tt
    checked = reserve_checked c p id now r h

    quiet : NoneDue now (expire now c)
    quiet = expire-NoneDue now c
