-- ===== src/Coordinator/Confirmation/Cases.antt =====
-- The ways in which Confirm ends, as rules for what holds of every outcome, and what the
-- consumption of the active tickets leaves alone.
use sema.Base.{
  Text, List, [], ◌∷◌, Option, none, some, ◌||◌, ◌≡◌, refl, inl, inr, is_blank, Bool-cases, arith,
}
use sema.Base.Map.{lookup}
use sema.Domain.{
  Time, is_zero_time, TicketRef, BackfillTarget, Assignment, ReservationStatus, FailureCode,
  invalid_input, invalid_transition, Result, ok, err,
}
use sema.Coordinator.{Coordinator, ReservationRecord}
use sema.Coordinator.Expiry.{set_status, release_holds, expire}
use sema.Coordinator.Tickets.{drop_match_ticket, drop_backfill_ticket}
use sema.Coordinator.Reservations.{validate_freshness}
use sema.Coordinator.Confirmation.{
  consume_refs, consume_target, confirm_fresh, confirm_active, confirm_record, confirm_locked,
  confirm,
}

-- Confirm refuses its input, does not know the reservation, or acts on its record.
pub confirm_cases {ℓ} :
    (P : Coordinator × Result Assignment → Type ℓ) (c : Coordinator) (reservation id : Text)
    (now : Time)
    → P (c, err invalid_input)
    → (lookup reservation (expire now c).reservations ≡ none
        → P (expire now c, err invalid_transition))
    → ((r : ReservationRecord)
        → lookup reservation (expire now c).reservations ≡ some r
        → P (confirm_record r.reservation.status reservation id r now (expire now c)))
    → P (confirm c reservation id now)
unfolding confirm confirm_locked
confirm_cases P c reservation id now bad unknown found =
    elim (Bool-cases (is_blank reservation || is_blank id || is_zero_time now)) [
      | inl e ↦ rw e bad
      | inr e ↦ rw e (go (lookup reservation (expire now c).reservations) refl)
    ]
  where
    go :
        (o : Option ReservationRecord)
        → lookup reservation (expire now c).reservations ≡ o
        → P (elim o [
          | none ↦ (expire now c, err invalid_transition)
          | some r ↦ confirm_record r.reservation.status reservation id r now (expire now c)
        ])
    go none h = unknown h
    go (some r) h = found r h

-- An active reservation is cancelled if it is stale, and else meets the assignments.
pub confirm_active_cases {ℓ} :
    (P : Coordinator × Result Assignment → Type ℓ) (reservation id : Text) (r : ReservationRecord)
    (now : Time) (c : Coordinator)
    → ((e : FailureCode)
        → validate_freshness c r.proposal ≡ err e
        → P (
          release_holds r.reservation (set_status reservation ReservationStatus.cancelled r c),
          err e,
        ))
    → (validate_freshness c r.proposal ≡ ok tt
        → P (confirm_fresh (lookup id c.assignments) reservation id r now c))
    → P (confirm_active reservation id r now c)
unfolding confirm_active
confirm_active_cases P reservation id r now c stale fresh =
    go (validate_freshness c r.proposal) refl
  where
    go :
        (f : Result (Unit {0}))
        → validate_freshness c r.proposal ≡ f
        → P (elim f [
          | err e ↦ (
            release_holds r.reservation (set_status reservation ReservationStatus.cancelled r c),
            err e,
          )
          | ok _ ↦ confirm_fresh (lookup id c.assignments) reservation id r now c
        ])
    go (err e) h = stale e h
    go (ok _) h = fresh h

-- What survives the loss of any ticket survives the consumption.
module _ {ℓ} (P : Coordinator → Type ℓ)
    (no_match : (d : Coordinator) (k : Text) → P d → P (drop_match_ticket d k))
    (no_demand : (d : Coordinator) (k : Text) → P d → P (drop_backfill_ticket d k)) where
  consume_refs_keeps : (rs : List TicketRef) (d : Coordinator) → P d → P (consume_refs rs d)
  unfolding consume_refs
  consume_refs_keeps [] d p = p
  consume_refs_keeps (r ∷ rs) d p =
      consume_refs_keeps rs (drop_match_ticket d r.id) (no_match d r.id p)

  consume_target_keeps :
      (t : Option BackfillTarget) (d : Coordinator) → P d → P (consume_target t d)
  unfolding consume_target
  consume_target_keeps none d p = p
  consume_target_keeps (some t) d p = no_demand d t.ticket.id p

  pub consume_keeps :
      (t : Option BackfillTarget) (rs : List TicketRef) (d : Coordinator)
      → P d
      → P (consume_target t (consume_refs rs d))
  consume_keeps t rs d p = consume_target_keeps t (consume_refs rs d) (consume_refs_keeps rs d p)

-- The reservations and the assignments are those of another state.
pub record SameHolds (c d : Coordinator) : Type 0 where
  pub reservations : d.reservations ≡ c.reservations
  pub ticket_reservations : d.ticket_reservations ≡ c.ticket_reservations
  pub backfill_reservations : d.backfill_reservations ≡ c.backfill_reservations
  pub assignments : d.assignments ≡ c.assignments

pub consume-SameHolds :
    (t : Option BackfillTarget) (rs : List TicketRef) (c : Coordinator)
    → SameHolds c (consume_target t (consume_refs rs c))
unfolding drop_match_ticket drop_backfill_ticket
consume-SameHolds t rs c =
    consume_keeps (SameHolds c) (λ d k s. ground (arith, s)) (λ d k s. ground (arith, s)) t rs c
      (record {
        reservations = refl;
        ticket_reservations = refl;
        backfill_reservations = refl;
        assignments = refl;
      })
