-- ===== src/Coordinator/Reservations/Cases.antt =====
-- The ways in which Reserve and Cancel end, as a rule for what holds of every outcome.
use sema.Base.{Text, Option, none, some, ◌||◌, ◌≡◌, refl, inl, inr, is_blank, Bool-cases, arith}
use sema.Base.Map.{lookup}
use sema.Domain.{
  Time, is_zero_time, Reservation, MatchProposal, FailureCode, invalid_input, invalid_transition,
  Result, ok, err, ◌>>◌,
}
use sema.Coordinator.{Coordinator, ReservationRecord}
use sema.Coordinator.Expiry.{expire}
use sema.Coordinator.Reservations.{
  validate_freshness, validate_availability, bind, new_reservation, replay_record, reserve_new,
  reserve_locked, check_reserve, reserve, cancel_record, cancel_locked, cancel,
}

both_checks :
    (c : Coordinator) (p : MatchProposal)
    → (validate_freshness c p >> validate_availability c p) ≡ ok tt
    → (validate_freshness c p ≡ ok tt) × (validate_availability c p ≡ ok tt)
both_checks c p h = ground arith

module _ {ℓ} (P : Coordinator × Result Reservation → Type ℓ) (c : Coordinator) (p : MatchProposal)
    (id : Text) (now : Time) where
  reserve_new_cases :
      ((e : FailureCode)
        → (validate_freshness c p >> validate_availability c p) ≡ err e
        → P (c, err e))
      → (validate_freshness c p ≡ ok tt
          → validate_availability c p ≡ ok tt
          → P (bind c p id now, ok (new_reservation c p id now)))
      → P (reserve_new c p id now)
  unfolding reserve_new
  reserve_new_cases refused bound = go (validate_freshness c p >> validate_availability c p) refl
    where
      go :
          (r : Result (Unit {0}))
          → (validate_freshness c p >> validate_availability c p) ≡ r
          → P (elim r [
            | err e ↦ (c, err e)
            | ok _ ↦ (bind c p id now, ok (new_reservation c p id now))
          ])
      go (err e) h = refused e h
      go (ok _) h = let (fresh, free) = both_checks c p h in bound fresh free

  reserve_locked_cases :
      ((r : ReservationRecord) → lookup id c.reservations ≡ some r → P (c, replay_record r p))
      → (lookup id c.reservations ≡ none
          → (e : FailureCode) → (validate_freshness c p >> validate_availability c p) ≡ err e
          → P (c, err e))
      → (lookup id c.reservations ≡ none
          → validate_freshness c p ≡ ok tt
          → validate_availability c p ≡ ok tt
          → P (bind c p id now, ok (new_reservation c p id now)))
      → P (reserve_locked c p id now)
  unfolding reserve_locked
  reserve_locked_cases known refused bound = go (lookup id c.reservations) refl
    where
      go :
          (o : Option ReservationRecord)
          → lookup id c.reservations ≡ o
          → P (elim o [ some r ↦ (c, replay_record r p) | none ↦ reserve_new c p id now ])
      go none h = reserve_new_cases (refused h) (bound h)
      go (some r) h = known r h

-- Reserve refuses its input, answers for a known reservation, refuses a proposal that is stale or
-- taken, or binds it.
pub reserve_cases {ℓ} :
    (P : Coordinator × Result Reservation → Type ℓ) (c : Coordinator) (p : MatchProposal)
    (id : Text) (now : Time)
    → ((e : FailureCode) → check_reserve p id now ≡ err e → P (c, err e))
    → ((r : ReservationRecord)
        → lookup id (expire now c).reservations ≡ some r
        → P (expire now c, replay_record r p))
    → (lookup id (expire now c).reservations ≡ none
        → (e : FailureCode)
        → (validate_freshness (expire now c) p >> validate_availability (expire now c) p) ≡ err e
        → P (expire now c, err e))
    → (lookup id (expire now c).reservations ≡ none
        → validate_freshness (expire now c) p ≡ ok tt
        → validate_availability (expire now c) p ≡ ok tt
        → P (bind (expire now c) p id now, ok (new_reservation (expire now c) p id now)))
    → P (reserve c p id now)
unfolding reserve
reserve_cases P c p id now bad known refused bound = go (check_reserve p id now) refl
  where
    go :
        (r : Result (Unit {0}))
        → check_reserve p id now ≡ r
        → P (elim r [ err e ↦ (c, err e) | ok _ ↦ reserve_locked (expire now c) p id now ])
    go (err e) h = bad e h
    go (ok _) h = reserve_locked_cases P (expire now c) p id now known refused bound

-- Cancel refuses its input, does not know the reservation, ends an active one, or leaves it as it is.
pub cancel_cases {ℓ} :
    (P : Coordinator × Result Reservation → Type ℓ) (c : Coordinator) (id : Text) (now : Time)
    → P (c, err invalid_input)
    → (lookup id (expire now c).reservations ≡ none → P (expire now c, err invalid_transition))
    → ((r : ReservationRecord)
        → lookup id (expire now c).reservations ≡ some r
        → P (cancel_record r.reservation.status id r (expire now c)))
    → P (cancel c id now)
unfolding cancel cancel_locked
cancel_cases P c id now bad unknown found = elim (Bool-cases (is_blank id || is_zero_time now)) [
  | inl e ↦ rw e bad
  | inr e ↦ rw e (go (lookup id (expire now c).reservations) refl)
]
  where
    go :
        (o : Option ReservationRecord)
        → lookup id (expire now c).reservations ≡ o
        → P (elim o [
          | none ↦ (expire now c, err invalid_transition)
          | some r ↦ cancel_record r.reservation.status id r (expire now c)
        ])
    go none h = unknown h
    go (some r) h = found r h
