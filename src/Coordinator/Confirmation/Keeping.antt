-- ===== src/Coordinator/Confirmation/Keeping.antt =====
-- Confirm keeps the ownership of the active tickets and the holds of the reservations.
use sema.Base.{
  Text, Text-discrete, Option, none, some, true, ◌≡◌, refl, inl, inr, holds, Bool-cases,
}
use sema.Base.Map.{lookup}
use sema.Domain.{Time, Assignment, ReservationStatus, active, confirmed, expired}
use sema.Coordinator.{Coordinator, ReservationRecord}
use sema.Coordinator.Expiry.{is_active, set_status, release_holds, expire}
use sema.Coordinator.Expiry.Laws.{expire_keeps}
use sema.Coordinator.Tickets.Ownership.{
  IsOwned, drop_match_ticket-IsOwned, drop_backfill_ticket-IsOwned,
}
use sema.Coordinator.Reservations.Holding.{
  IsHeld, Settles, settled-IsHeld, end-IsHeld, expire-IsHeld,
}
use sema.Coordinator.Confirmation.{
  consume_refs, consume_target, with_assignment, record_assignment, commit, confirm_fresh,
  confirm_record, confirm,
}
use sema.Coordinator.Confirmation.Cases.{
  confirm_cases, confirm_active_cases, consume_keeps, consume-SameHolds,
}

-- Ownership speaks of the tickets and the players alone.
pub IsOwned-same :
    (c d : Coordinator)
    → d.match_tickets ≡ c.match_tickets
    → d.backfill_tickets ≡ c.backfill_tickets
    → d.player_tickets ≡ c.player_tickets
    → IsOwned c
    → IsOwned d
IsOwned-same c d e f g v = record {
  match_distinct = rw e v.match_distinct;
  backfill_distinct = rw f v.backfill_distinct;
  match_key = rw e v.match_key;
  backfill_key = rw f v.backfill_key;
  apart = rw (e, f) v.apart;
  owns = rw (e, g) v.owns;
  owned = rw (e, g) v.owned;
  one_session = rw f v.one_session;
}

pub expire-IsOwned : (now : Time) (c : Coordinator) → IsOwned c → IsOwned (expire now c)
unfolding set_status release_holds
expire-IsOwned now =
    expire_keeps IsOwned now (λ k r c found due v. IsOwned-same c _ refl refl refl v)

commit-IsOwned :
    (reservation id : Text) (r : ReservationRecord) (now : Time) (c : Coordinator)
    → IsOwned c
    → IsOwned (commit reservation id r now c)
unfolding commit record_assignment release_holds
commit-IsOwned reservation id r now c v =
    IsOwned-same (consume_target r.proposal.target (consume_refs r.proposal.tickets c)) _ refl refl
      refl
      (consume_keeps IsOwned drop_match_ticket-IsOwned drop_backfill_ticket-IsOwned
        r.proposal.target r.proposal.tickets c v)

commit-Settles :
    (reservation id : Text) (r : ReservationRecord) (now : Time) (c : Coordinator)
    → IsHeld c
    → lookup reservation c.reservations ≡ some r
    → Settles c (commit reservation id r now c) reservation r (with_assignment id r)
unfolding commit record_assignment release_holds
commit-Settles reservation id r now c v found =
    let same = consume-SameHolds r.proposal.target r.proposal.tickets c in
    record {
      found = found;
      same_id = refl;
      ended = refl;
      same_tickets = (v.agrees reservation r found).0;
      same_target = (v.agrees reservation r found).1;
      written = rw same.reservations refl;
      tickets_freed = rw same.ticket_reservations refl;
      target_freed = rw same.backfill_reservations refl;
    }

commit-IsHeld :
    (reservation id : Text) (r : ReservationRecord) (now : Time) (c : Coordinator)
    → IsHeld c
    → lookup reservation c.reservations ≡ some r
    → IsHeld (commit reservation id r now c)
commit-IsHeld reservation id r now c v found =
    settled-IsHeld c (commit reservation id r now c) reservation r (with_assignment id r) v
      (commit-Settles reservation id r now c v found)

-- Confirm acts on an active record, and only answers for the others.
pub confirm_record_keeps {ℓ} :
    (P : Coordinator → Type ℓ) (s : ReservationStatus) (reservation id : Text)
    (r : ReservationRecord) (now : Time) (c : Coordinator)
    → r.reservation.status ≡ s
    → P c
    → (is_active r.reservation.status ≡ true
        → P (release_holds r.reservation (set_status reservation ReservationStatus.cancelled r c)))
    → (is_active r.reservation.status ≡ true
        → lookup id c.assignments ≡ none
        → P (commit reservation id r now c))
    → P (confirm_record s reservation id r now c).0
unfolding confirm_record
confirm_record_keeps P confirmed reservation id r now c e p stale done =
    elim (Bool-cases (holds (Text-discrete r.assignment id))) [
      | inl same ↦ rw same p
      | inr other ↦ rw other p
    ]
confirm_record_keeps P expired reservation id r now c e p stale done = p
confirm_record_keeps P ReservationStatus.cancelled reservation id r now c e p stale done = p
confirm_record_keeps P active reservation id r now c e p stale done =
    confirm_active_cases (λ o. P o.0) reservation id r now c (λ _ _. stale live) (λ _. fresh)
  where
    live : is_active r.reservation.status ≡ true
    live = rw e refl

    met :
        (o : Option Assignment)
        → lookup id c.assignments ≡ o
        → P (confirm_fresh o reservation id r now c).0
    met none h = unfold confirm_fresh in done live h
    met (some a) h =
        unfold confirm_fresh in
        elim (Bool-cases (holds (Text-discrete a.reservation_id reservation))) [
          | inl same ↦ rw same p
          | inr other ↦ rw other p
        ]

    fresh : P (confirm_fresh (lookup id c.assignments) reservation id r now c).0
    fresh = met (lookup id c.assignments) refl

-- Whatever survives expiry, the end of a stale reservation and a commit survives Confirm.
pub confirm_keeps {ℓ} :
    (P : Coordinator → Type ℓ) (c : Coordinator) (reservation id : Text) (now : Time)
    → P c
    → P (expire now c)
    → ((r : ReservationRecord)
        → lookup reservation (expire now c).reservations ≡ some r
        → is_active r.reservation.status ≡ true
        → P (
            release_holds r.reservation
              (set_status reservation ReservationStatus.cancelled r (expire now c))))
    → ((r : ReservationRecord)
        → lookup reservation (expire now c).reservations ≡ some r
        → is_active r.reservation.status ≡ true
        → lookup id (expire now c).assignments ≡ none
        → P (commit reservation id r now (expire now c)))
    → P (confirm c reservation id now).0
confirm_keeps P c reservation id now before aged stale done =
    confirm_cases (λ o. P o.0) c reservation id now before (λ _. aged)
      λ r found.
        confirm_record_keeps P r.reservation.status reservation id r now (expire now c) refl aged
          (stale r found) (done r found)

-- Confirm keeps every name, player and session with one owner.
pub confirm-IsOwned :
    (c : Coordinator) (reservation id : Text) (now : Time)
    → IsOwned c
    → IsOwned (confirm c reservation id now).0
unfolding set_status release_holds
confirm-IsOwned c reservation id now v =
    let aged = expire-IsOwned now c v in
    confirm_keeps IsOwned c reservation id now v aged
      (λ r _ _. IsOwned-same (expire now c) _ refl refl refl aged)
      (λ r _ _ _. commit-IsOwned reservation id r now (expire now c) aged)

-- Confirm keeps the holds exact.
pub confirm-IsHeld :
    (c : Coordinator) (reservation id : Text) (now : Time)
    → IsHeld c
    → IsHeld (confirm c reservation id now).0
unfolding set_status release_holds
confirm-IsHeld c reservation id now v =
    let aged = expire-IsHeld now c v in
    confirm_keeps IsHeld c reservation id now v aged
      (λ r found _.
        end-IsHeld (expire now c) reservation r ReservationStatus.cancelled aged found refl)
      (λ r found _ _. commit-IsHeld reservation id r now (expire now c) aged found)
