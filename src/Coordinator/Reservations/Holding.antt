-- ===== src/Coordinator/Reservations/Holding.antt =====
-- Which reservation holds which ticket: an active reservation holds all that its proposal names,
-- and nothing else is held.
use sema.Base.{
  Text, List, [], ◌∷◌, none, some, true, false, ◌≡◌, refl, inl, inr, has, Bool-cases, arith,
}
use sema.Base.Map.{Map, lookup, insert, lookup-insert}
use sema.Domain.{Time, ReservationStatus, expired, MatchProposal, ok}
use sema.Coordinator.{Coordinator, ReservationRecord}
use sema.Coordinator.Owners.{lookup-claim, lookup-release}
use sema.Coordinator.Owners
use sema.Coordinator.Expiry.{
  ref_ids, target_ids, is_active, with_status, set_status, release_holds, expire,
}
use sema.Coordinator.Expiry.Laws.{expire_keeps}
use sema.Coordinator.Reservations.{check_free, validate_availability, bind, new_reservation}

pub record IsHeld (c : Coordinator) : Type 0 where
  pub record_key :
      (k : Text) (r : ReservationRecord) → lookup k c.reservations ≡ some r → r.reservation.id ≡ k
  pub agrees :
      (k : Text) (r : ReservationRecord)
      → lookup k c.reservations ≡ some r
      → (r.reservation.tickets ≡ r.proposal.tickets) × (r.reservation.target ≡ r.proposal.target)
  pub holds_tickets :
      (k t : Text) (r : ReservationRecord)
      → lookup k c.reservations ≡ some r
      → is_active r.reservation.status ≡ true
      → has t (ref_ids r.reservation.tickets) ≡ true
      → lookup t c.ticket_reservations ≡ some k
  pub ticket_holder :
      (t k : Text)
      → lookup t c.ticket_reservations ≡ some k
      → (r : ReservationRecord) × (lookup k c.reservations ≡ some r)
        × (is_active r.reservation.status ≡ true)
        × (has t (ref_ids r.reservation.tickets) ≡ true)
  pub holds_target :
      (k t : Text) (r : ReservationRecord)
      → lookup k c.reservations ≡ some r
      → is_active r.reservation.status ≡ true
      → has t (target_ids r.reservation.target) ≡ true
      → lookup t c.backfill_reservations ≡ some k
  pub target_holder :
      (t k : Text)
      → lookup t c.backfill_reservations ≡ some k
      → (r : ReservationRecord) × (lookup k c.reservations ≡ some r)
        × (is_active r.reservation.status ≡ true)
        × (has t (target_ids r.reservation.target) ≡ true)

-- One reservation ends: its record is replaced by one that is not active, and it lets go.
pub record Settles (c d : Coordinator) (k : Text) (r u : ReservationRecord) : Type 0 where
  pub found : lookup k c.reservations ≡ some r
  pub same_id : u.reservation.id ≡ r.reservation.id
  pub ended : is_active u.reservation.status ≡ false
  pub same_tickets : u.reservation.tickets ≡ u.proposal.tickets
  pub same_target : u.reservation.target ≡ u.proposal.target
  pub written : d.reservations ≡ insert k u c.reservations
  pub tickets_freed :
      d.ticket_reservations
      ≡ Owners.release r.reservation.id (ref_ids r.reservation.tickets) c.ticket_reservations
  pub target_freed :
      d.backfill_reservations
      ≡ Owners.release r.reservation.id (target_ids r.reservation.target) c.backfill_reservations

pub settled-IsHeld :
    (c d : Coordinator) (k : Text) (r u : ReservationRecord)
    → IsHeld c
    → Settles c d k r u
    → IsHeld d
settled-IsHeld c d k r u v s = record {
  record_key = λ j w h.
      ground (arith, lookup-insert k j u c.reservations, v.record_key j w, v.record_key k r);
  agrees = λ j w h. ground (arith, lookup-insert k j u c.reservations, v.agrees j w);
  holds_tickets = λ j t w h a q. ground (
    arith,
    lookup-insert k j u c.reservations,
    lookup-release r.reservation.id t (ref_ids r.reservation.tickets) c.ticket_reservations,
    v.record_key k r,
    v.holds_tickets j t w,
  );
  ticket_holder = λ t j h.
      let freed =
        lookup-release r.reservation.id t (ref_ids r.reservation.tickets) c.ticket_reservations in
      let before : lookup t c.ticket_reservations ≡ some j = ground (arith, freed) in
      let (w, found, is_live, named) = v.ticket_holder t j before in
      (
        w,
        ground (arith, freed, lookup-insert k j u c.reservations, v.record_key k r),
        is_live,
        named,
      );
  holds_target = λ j t w h a q. ground (
    arith,
    lookup-insert k j u c.reservations,
    lookup-release r.reservation.id t (target_ids r.reservation.target) c.backfill_reservations,
    v.record_key k r,
    v.holds_target j t w,
  );
  target_holder = λ t j h.
      let freed =
        lookup-release r.reservation.id t (target_ids r.reservation.target)
          c.backfill_reservations in
      let before : lookup t c.backfill_reservations ≡ some j = ground (arith, freed) in
      let (w, found, is_live, named) = v.target_holder t j before in
      (
        w,
        ground (arith, freed, lookup-insert k j u c.reservations, v.record_key k r),
        is_live,
        named,
      );
}

ended-Settles :
    (c : Coordinator) (k : Text) (r : ReservationRecord) (s : ReservationStatus)
    → IsHeld c
    → lookup k c.reservations ≡ some r
    → is_active s ≡ false
    → Settles c (set_status k s r (release_holds r.reservation c)) k r (with_status s r)
unfolding set_status release_holds
ended-Settles c k r s v found ended = record {
  found = found;
  same_id = refl;
  ended = ended;
  same_tickets = (v.agrees k r found).0;
  same_target = (v.agrees k r found).1;
  written = refl;
  tickets_freed = refl;
  target_freed = refl;
}

-- Ending a reservation frees what it held, and only that.
pub end-IsHeld :
    (c : Coordinator) (k : Text) (r : ReservationRecord) (s : ReservationStatus)
    → IsHeld c
    → lookup k c.reservations ≡ some r
    → is_active s ≡ false
    → IsHeld (set_status k s r (release_holds r.reservation c))
end-IsHeld c k r s v found ended =
    settled-IsHeld c (set_status k s r (release_holds r.reservation c)) k r (with_status s r) v
      (ended-Settles c k r s v found ended)

-- expireLocked frees the tickets of the reservations that it ends, and no others.
pub expire-IsHeld : (now : Time) (c : Coordinator) → IsHeld c → IsHeld (expire now c)
expire-IsHeld now =
    expire_keeps IsHeld now (λ k r c found due v. end-IsHeld c k r expired v found refl)

-- A passed availability check has found none of the names taken.
free_of_check :
    (m : Map Text) (ks : List Text) (t : Text)
    → check_free m ks ≡ ok tt
    → has t ks ≡ true
    → lookup t m ≡ none
unfolding check_free has
free_of_check m [] t h q = cc
free_of_check m (k ∷ ks) t h q = ground (arith, free_of_check m ks t)

pub bind-IsHeld :
    (c : Coordinator) (p : MatchProposal) (id : Text) (now : Time)
    → IsHeld c
    → lookup id c.reservations ≡ none
    → validate_availability c p ≡ ok tt
    → IsHeld (bind c p id now)
unfolding bind new_reservation validate_availability
bind-IsHeld c p id now v fresh available = record {
  record_key = λ k r h. ground (arith, lookup-insert id k bound c.reservations, v.record_key k r);
  agrees = λ k r h. ground (arith, lookup-insert id k bound c.reservations, v.agrees k r);
  holds_tickets = λ k t r h a q. ground (
    arith,
    lookup-insert id k bound c.reservations,
    lookup-claim id t (ref_ids p.tickets) c.ticket_reservations,
    free_of_check c.ticket_reservations (ref_ids p.tickets) t,
    v.holds_tickets k t r,
  );
  ticket_holder = λ t k h.
      let claimed = lookup-claim id t (ref_ids p.tickets) c.ticket_reservations in
      let written = lookup-insert id k bound c.reservations in
      elim (Bool-cases (has t (ref_ids p.tickets))) [
        | inl named ↦ (bound, ground (arith, claimed, written), refl, named)
        | inr other ↦
            let (w, found, is_live, listed) = v.ticket_holder t k (ground (arith, claimed)) in
            (w, ground (arith, written), is_live, listed)
      ];
  holds_target = λ k t r h a q. ground (
    arith,
    lookup-insert id k bound c.reservations,
    lookup-claim id t (target_ids p.target) c.backfill_reservations,
    free_of_check c.backfill_reservations (target_ids p.target) t,
    v.holds_target k t r,
  );
  target_holder = λ t k h.
      let claimed = lookup-claim id t (target_ids p.target) c.backfill_reservations in
      let written = lookup-insert id k bound c.reservations in
      elim (Bool-cases (has t (target_ids p.target))) [
        | inl named ↦ (bound, ground (arith, claimed, written), refl, named)
        | inr other ↦
            let (w, found, is_live, listed) = v.target_holder t k (ground (arith, claimed)) in
            (w, ground (arith, written), is_live, listed)
      ];
}
  where
    bound : ReservationRecord
    bound = record { reservation = new_reservation c p id now; proposal = p; assignment = [] }
