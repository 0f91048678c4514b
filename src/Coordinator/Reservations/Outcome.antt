-- ===== src/Coordinator/Reservations/Outcome.antt =====
-- What the result of Reserve says of the state that it leaves.
use sema.Base.{
  subst, List, [], ◌∷◌, Text, none, some, Bool, true, false, ap, sym, subst, ◌≡◌, ◌⊎◌, inl, inr,
  refl, arith, has,
}
use sema.Base.Map.{Map, lookup, lookup-insert}
use sema.Domain.{
  ok-injective, Time, MatchProposal, Reservation, ReservationStatus, active, confirmed, FailureCode,
  ok, err,
}
use sema.Coordinator.{Coordinator, ReservationRecord}
use sema.Coordinator.Expiry.{expire, ref_ids}
use sema.Coordinator.Reservations.{
  reserve, replay, replay_record, bind, new_reservation, check_free, validate_availability,
}
use sema.Coordinator.Reservations.Cases.{reserve_cases}

-- A reservation that Reserve may return: active or already confirmed.
abbrev pub is_live : ReservationStatus → Bool
is_live active = true
is_live confirmed = true
is_live _ = false

replay_record-live :
    (u : ReservationRecord) (p : MatchProposal) (r : Reservation)
    → replay_record u p ≡ ok r
    → (u.reservation ≡ r) × (u.proposal ≡ p) × (is_live u.reservation.status ≡ true)
unfolding replay_record replay
replay_record-live u p r h = ground arith

bind-lookup :
    (c : Coordinator) (p : MatchProposal) (id : Text) (now : Time) (r : Reservation)
    → new_reservation c p id now ≡ r
    → (u : ReservationRecord) × (lookup id (bind c p id now).reservations ≡ some u)
      × (u.reservation ≡ r)
      × (u.proposal ≡ p)
      × (is_live r.status ≡ true)
unfolding bind new_reservation
bind-lookup c p id now r h =
    let u : ReservationRecord = record {
      reservation = new_reservation c p id now;
      proposal = p;
      assignment = [];
    } in
    (
      u,
      ground (arith, lookup-insert id id u c.reservations),
      h,
      refl,
      ap (λ x. is_live x.status) (sym h),
    )

-- When Reserve returns a reservation, the state holds it under its name, for exactly the given
-- proposal, and it is active or already confirmed.
pub reserve-lookup :
    (c : Coordinator) (p : MatchProposal) (id : Text) (now : Time) (r : Reservation)
    → (reserve c p id now).1 ≡ ok r
    → (u : ReservationRecord) × (lookup id (reserve c p id now).0.reservations ≡ some u)
      × (u.reservation ≡ r)
      × (u.proposal ≡ p)
      × (is_live r.status ≡ true)
reserve-lookup c p id now r h =
    reserve_cases
      (λ o.
        o.1 ≡ ok r
        → (u : ReservationRecord) × (lookup id o.0.reservations ≡ some u)
          × (u.reservation ≡ r)
          × (u.proposal ≡ p)
          × (is_live r.status ≡ true))
      c p id now (λ e _ bad. absurd (cc bad))
      (λ u found answer.
        let (same, for_it, live) = replay_record-live u p r answer in
        (u, found, same, for_it, subst (λ x. is_live x.status ≡ true) same live))
      (λ _ e _ bad. absurd (cc bad))
      (λ _ _ _ made. bind-lookup (expire now c) p id now r (ok-injective _ r made)) h

-- When Reserve fails, the state is as it was, but for what has expired at its time.
pub reserve_error :
    (c : Coordinator) (p : MatchProposal) (id : Text) (now : Time) (e : FailureCode)
    → (reserve c p id now).1 ≡ err e
    → ((reserve c p id now).0 ≡ c) ⊎ ((reserve c p id now).0 ≡ expire now c)
reserve_error c p id now e h =
    reserve_cases (λ o. o.1 ≡ err e → (o.0 ≡ c) ⊎ (o.0 ≡ expire now c)) c p id now
      (λ _ _ _. inl refl) (λ _ _ _. inr refl) (λ _ _ _ _. inr refl) (λ _ _ _ made. absurd (cc made))
      h

check_free-held :
    (m : Map Text) (t : Text) (ks : List Text) (owner : Text)
    → has t ks ≡ true
    → lookup t m ≡ some owner
    → ¬ (check_free m ks ≡ ok tt)
unfolding check_free has
check_free-held m t [] owner h e free = absurd (cc h)
check_free-held m t (k ∷ ks) owner h e free = ground (arith, check_free-held m t ks owner)

-- Where a new name asks for a ticket that a reservation still holds at that time, Reserve fails.
pub reserve_held :
    (c : Coordinator) (p : MatchProposal) (id t owner : Text) (now : Time)
    → lookup id (expire now c).reservations ≡ none
    → has t (ref_ids p.tickets) ≡ true
    → lookup t (expire now c).ticket_reservations ≡ some owner
    → (e : FailureCode) × ((reserve c p id now).1 ≡ err e)
unfolding validate_availability
reserve_held c p id t owner now fresh wanted held =
    reserve_cases (λ o. (e : FailureCode) × (o.1 ≡ err e)) c p id now (λ e _. (e, refl))
      (λ _ found. absurd (cc (fresh, found))) (λ _ e _. (e, refl))
      (λ _ _ free. absurd (
        check_free-held (expire now c).ticket_reservations t (ref_ids p.tickets) owner wanted held
          (ground arith)))
