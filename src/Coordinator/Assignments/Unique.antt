-- ===== src/Coordinator/Assignments/Unique.antt =====
-- One assignment for each confirmed reservation, and none for another.
use sema.Base.{Text, Text-discrete, Option, none, some, Bool, true, false, ◌≡◌, refl, arith}
use sema.Base.Map.{lookup, insert, lookup-insert}
use sema.Domain.{
  Time, Assignment, AssignmentAcknowledgmentRequest, MatchProposal, ReservationStatus, confirmed,
  expired,
}
use sema.Coordinator.{Coordinator, ReservationRecord}
use sema.Coordinator.Expiry.{is_active, with_status, set_status, release_holds, expire}
use sema.Coordinator.Expiry.Laws.{expire_keeps}
use sema.Coordinator.Reservations.{bind, new_reservation}
use sema.Coordinator.Confirmation.{
  new_assignment, with_assignment, record_assignment, commit, confirm,
}
use sema.Coordinator.Confirmation.Cases.{consume-SameHolds}
use sema.Coordinator.Confirmation.Keeping.{confirm_keeps}
use sema.Coordinator.Assignments.Cases.{is_pending, acknowledge_keeps}
use sema.Coordinator.Assignments.{acknowledge_assignment, acknowledged}

abbrev pub is_confirmed : ReservationStatus → Bool
is_confirmed confirmed = true
is_confirmed _ = false

abbrev pub is_absent {ℓ} : {A : Type ℓ} → Option A → Bool
is_absent none = true
is_absent (some _) = false

pub record IsAssigned (c : Coordinator) : Type 0 where
  pub assignment_key : (a : Text) (x : Assignment) → lookup a c.assignments ≡ some x → x.id ≡ a
  pub confirmed_has :
      (k : Text) (r : ReservationRecord)
      → lookup k c.reservations ≡ some r
      → is_confirmed r.reservation.status ≡ true
      → (x : Assignment) × (lookup r.assignment c.assignments ≡ some x) × (x.reservation_id ≡ k)
  pub assigned_by :
      (a : Text) (x : Assignment)
      → lookup a c.assignments ≡ some x
      → (r : ReservationRecord) × (lookup x.reservation_id c.reservations ≡ some r)
        × (is_confirmed r.reservation.status ≡ true)
        × (r.assignment ≡ a)
  pub acknowledged_once :
      (a : Text) (x : Assignment)
      → lookup a c.assignments ≡ some x
      → is_pending x.status ≡ is_absent x.acknowledgment

-- A write to a reservation that is not confirmed, and that the write does not confirm.
rewritten-IsAssigned :
    (c d : Coordinator) (k : Text) (o : Option ReservationRecord) (u : ReservationRecord)
    → lookup k c.reservations ≡ o
    → ((r : ReservationRecord) → o ≡ some r → is_confirmed r.reservation.status ≡ false)
    → is_confirmed u.reservation.status ≡ false
    → d.reservations ≡ insert k u c.reservations
    → d.assignments ≡ c.assignments
    → IsAssigned c
    → IsAssigned d
rewritten-IsAssigned c d k o u found before after written same v = record {
  assignment_key = λ a x h. v.assignment_key a x (ground arith);
  confirmed_has = λ j r h s.
      let old : lookup j c.reservations ≡ some r =
        ground (arith, lookup-insert k j u c.reservations) in
      let (x, e, f) = v.confirmed_has j r old s in (x, ground arith, f);
  assigned_by = λ a x h.
      let (r, e, s, f) = v.assigned_by a x (ground arith) in
      (r, ground (arith, lookup-insert k x.reservation_id u c.reservations, before r), s, f);
  acknowledged_once = λ a x h. v.acknowledged_once a x (ground arith);
}

-- The end of an active reservation, and the binding of a new one.
pub end-IsAssigned :
    (c d : Coordinator) (k : Text) (r : ReservationRecord) (s : ReservationStatus)
    → lookup k c.reservations ≡ some r
    → is_active r.reservation.status ≡ true
    → is_confirmed s ≡ false
    → d.reservations ≡ insert k (with_status s r) c.reservations
    → d.assignments ≡ c.assignments
    → IsAssigned c
    → IsAssigned d
end-IsAssigned c d k r s found live ended written same v =
    rewritten-IsAssigned c d k (some r) (with_status s r) found (λ w e. ground arith) ended written
      same v

pub expire-IsAssigned : (now : Time) (c : Coordinator) → IsAssigned c → IsAssigned (expire now c)
unfolding set_status release_holds
expire-IsAssigned now =
    expire_keeps IsAssigned now
      (λ k r c found due v. end-IsAssigned c _ k r expired found (ground arith) refl refl refl v)

pub bind-IsAssigned :
    (c : Coordinator) (p : MatchProposal) (id : Text) (now : Time)
    → lookup id c.reservations ≡ none
    → IsAssigned c
    → IsAssigned (bind c p id now)
unfolding bind new_reservation
bind-IsAssigned c p id now fresh v =
    rewritten-IsAssigned c _ id none _ fresh (λ r e. cc) refl refl refl v

commit-IsAssigned :
    (reservation id : Text) (r : ReservationRecord) (now : Time) (c : Coordinator)
    → lookup reservation c.reservations ≡ some r
    → is_active r.reservation.status ≡ true
    → lookup id c.assignments ≡ none
    → IsAssigned c
    → IsAssigned (commit reservation id r now c)
unfolding commit record_assignment release_holds new_assignment
commit-IsAssigned reservation id r now c found live fresh v =
    let same = consume-SameHolds r.proposal.target r.proposal.tickets c in
    rw (same.reservations, same.assignments)
      (record {
        assignment_key =
            λ a x h. ground (arith, lookup-insert id a made c.assignments, v.assignment_key a x);
        confirmed_has = λ k w h s.
            let written = lookup-insert reservation k (with_assignment id r) c.reservations in
            let stored = lookup-insert id w.assignment made c.assignments in
            elim (Text-discrete reservation k) [
              | yes e ↦ (made, ground (arith, written, stored), e)
              | no e ↦
                  let (x, old, f) = v.confirmed_has k w (ground (arith, written)) s in
                  (x, ground (arith, stored), f)
            ];
        assigned_by = λ a x h.
            let stored = lookup-insert id a made c.assignments in
            let written =
              lookup-insert reservation x.reservation_id (with_assignment id r) c.reservations in
            elim (Text-discrete id a) [
              | yes e ↦ (with_assignment id r, ground (arith, written, stored), refl, e)
              | no e ↦
                  let (w, old, s, f) = v.assigned_by a x (ground (arith, stored)) in
                  (w, ground (arith, written), s, f)
            ];
        acknowledged_once =
            λ a x h. ground (arith, lookup-insert id a made c.assignments, v.acknowledged_once a x);
      })
  where
    made : Assignment
    made = new_assignment reservation id r now

-- Confirm keeps one assignment for each confirmed reservation.
pub confirm-IsAssigned :
    (c : Coordinator) (reservation id : Text) (now : Time)
    → IsAssigned c
    → IsAssigned (confirm c reservation id now).0
unfolding set_status release_holds
confirm-IsAssigned c reservation id now v =
    let aged = expire-IsAssigned now c v in
    confirm_keeps IsAssigned c reservation id now v aged
      (λ r found live.
        end-IsAssigned (expire now c) _ reservation r ReservationStatus.cancelled found live refl
          refl refl aged)
      (λ r found live fresh.
        commit-IsAssigned reservation id r now (expire now c) found live fresh aged)

store_acknowledged-IsAssigned :
    (c : Coordinator) (id : Text) (a : Assignment) (request : AssignmentAcknowledgmentRequest)
    (now : Time)
    → lookup id c.assignments ≡ some a
    → is_pending request.outcome ≡ false
    → IsAssigned c
    → IsAssigned (record c { assignments = insert id (acknowledged a request now) c.assignments })
store_acknowledged-IsAssigned c id a request now found final v = record {
  assignment_key = λ k x h. ground (
    arith,
    lookup-insert id k (acknowledged a request now) c.assignments,
    v.assignment_key k x,
    v.assignment_key k a,
  );
  confirmed_has = λ k r h s.
      let (x, e, f) = v.confirmed_has k r h s in
      let stored = lookup-insert id r.assignment (acknowledged a request now) c.assignments in
      elim (Text-discrete id r.assignment) [
        | yes same ↦ (acknowledged a request now, ground (arith, stored), ground arith)
        | no other ↦ (x, ground (arith, stored), f)
      ];
  assigned_by = λ k x h.
      let stored = lookup-insert id k (acknowledged a request now) c.assignments in
      elim (Text-discrete id k) [
        | yes same ↦
            let (r, e, s, f) = v.assigned_by k a (ground arith) in (r, ground (arith, stored), s, f)
        | no other ↦ v.assigned_by k x (ground (arith, stored))
      ];
  acknowledged_once = λ k x h. ground (
    arith,
    lookup-insert id k (acknowledged a request now) c.assignments,
    v.acknowledged_once k x,
  );
}

-- AcknowledgeAssignment keeps one assignment for each confirmed reservation.
pub acknowledge_assignment-IsAssigned :
    (c : Coordinator) (id : Text) (request : AssignmentAcknowledgmentRequest) (now : Time)
    → IsAssigned c
    → IsAssigned (acknowledge_assignment c id request now).0
acknowledge_assignment-IsAssigned c id request now v =
    acknowledge_keeps IsAssigned c id request now v
      (λ a found open_status final. store_acknowledged-IsAssigned c id a request now found final v)
