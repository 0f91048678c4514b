-- ===== src/Coordinator/Confirmation/Consumed.antt =====
-- What the first Confirm of a reservation takes out of the coordinator.
use sema.Base.{
  sym, Text, List, [], ◌∷◌, Option, none, some, ◌≡◌, ◌∙◌, refl, ap, has, if◌then◌else◌, arith,
}
use sema.Base.Map.{lookup, lookup-delete, lookup-insert}
use sema.Domain.{Time, TicketRef, BackfillTarget, Assignment, active, pending, ok}
use sema.Coordinator.{Coordinator, ReservationRecord}
use sema.Coordinator.Expiry.{expire, ref_ids, target_ids, release_holds, set_status}
use sema.Coordinator.Expiry.Laws.{aged, lookup-expire, expire_keeps}
use sema.Coordinator.Snapshot.Laws.{expire-tickets}
use sema.Coordinator.Tickets.{drop_match_ticket, drop_backfill_ticket}
use sema.Coordinator.Confirmation.{
  consume_refs, consume_target, new_assignment, with_assignment, record_assignment, commit,
  confirm_fresh, confirm_active, confirm_record, confirm_locked, confirm,
}
use sema.Coordinator.Confirmation.Cases.{consume-SameHolds}

lookup-consume_refs :
    (k : Text) (rs : List TicketRef) (c : Coordinator)
    → lookup k (consume_refs rs c).match_tickets
      ≡ (if has k (ref_ids rs) then none else lookup k c.match_tickets)
unfolding consume_refs drop_match_ticket has
lookup-consume_refs k [] c = refl
lookup-consume_refs k (r ∷ rs) c = ground (
  arith,
  lookup-consume_refs k rs (drop_match_ticket c r.id),
  lookup-delete r.id k c.match_tickets,
)

consume_refs-backfill_tickets :
    (rs : List TicketRef) (c : Coordinator)
    → (consume_refs rs c).backfill_tickets ≡ c.backfill_tickets
unfolding consume_refs drop_match_ticket
consume_refs-backfill_tickets [] c = refl
consume_refs-backfill_tickets (r ∷ rs) c =
    consume_refs-backfill_tickets rs (drop_match_ticket c r.id)

consume_target-match_tickets :
    (t : Option BackfillTarget) (c : Coordinator)
    → (consume_target t c).match_tickets ≡ c.match_tickets
unfolding consume_target drop_backfill_ticket
consume_target-match_tickets none c = refl
consume_target-match_tickets (some t) c = refl

lookup-consume_target :
    (k : Text) (t : Option BackfillTarget) (c : Coordinator)
    → lookup k (consume_target t c).backfill_tickets
      ≡ (if has k (target_ids t) then none else lookup k c.backfill_tickets)
unfolding consume_target drop_backfill_ticket has
lookup-consume_target k none c = refl
lookup-consume_target k (some t) c = ground (arith, lookup-delete t.ticket.id k c.backfill_tickets)

-- The supply and demands of `d` are those of `c` without what a reservation has used up, and the
-- reservation is confirmed with the assignment.
pub record IsConsumed (c : Coordinator) (reservation id : Text) (r : ReservationRecord) (now : Time)
    (a : Assignment) (d : Coordinator) : Type 0 where
  pub match_tickets :
      (k : Text)
      → lookup k d.match_tickets
        ≡ (if has k (ref_ids r.proposal.tickets) then none else lookup k c.match_tickets)
  pub backfill_tickets :
      (k : Text)
      → lookup k d.backfill_tickets
        ≡ (if has k (target_ids r.proposal.target) then none else lookup k c.backfill_tickets)
  pub recorded : lookup reservation d.reservations ≡ some (with_assignment id r)
  pub assignment : lookup id d.assignments ≡ some a
  pub teams : a.teams ≡ r.proposal.teams
  pub target : a.target ≡ r.proposal.target
  pub status : a.status ≡ pending
  pub confirmed_at : a.confirmed_at ≡ now

commit-IsConsumed :
    (reservation id : Text) (r : ReservationRecord) (now : Time) (c : Coordinator)
    → IsConsumed c reservation id r now
        (new_assignment reservation id r now)
        (commit reservation id r now c)
unfolding commit record_assignment release_holds new_assignment
commit-IsConsumed reservation id r now c = record {
  match_tickets = λ k.
      ap (lookup k)
        (consume_target-match_tickets r.proposal.target (consume_refs r.proposal.tickets c))
      ∙ lookup-consume_refs k r.proposal.tickets c;
  backfill_tickets = λ k. ground (
    arith,
    lookup-consume_target k r.proposal.target (consume_refs r.proposal.tickets c),
    ap (lookup k) (consume_refs-backfill_tickets r.proposal.tickets c),
  );
  recorded = ground (
    arith,
    lookup-insert reservation reservation (with_assignment id r) c.reservations,
    consume-SameHolds r.proposal.target r.proposal.tickets c,
  );
  assignment = ground (
    arith,
    lookup-insert id id (new_assignment reservation id r now) c.assignments,
    consume-SameHolds r.proposal.target r.proposal.tickets c,
  );
  teams = refl;
  target = refl;
  status = refl;
  confirmed_at = refl;
}

-- A success for an active reservation under a new name commits it.
confirm_commits :
    (c : Coordinator) (reservation id : Text) (now : Time) (r : ReservationRecord) (a : Assignment)
    → lookup reservation (expire now c).reservations ≡ some r
    → r.reservation.status ≡ active
    → lookup id (expire now c).assignments ≡ none
    → (confirm c reservation id now).1 ≡ ok a
    → (new_assignment reservation id r now ≡ a)
      × ((confirm c reservation id now).0 ≡ commit reservation id r now (expire now c))
unfolding confirm confirm_locked confirm_record confirm_active confirm_fresh
confirm_commits c reservation id now r a found live unused h = (ground arith, ground arith)

-- A reservation whose time had come is not confirmed.
not_due :
    (c : Coordinator) (reservation id : Text) (now : Time) (r : ReservationRecord) (a : Assignment)
    → lookup reservation c.reservations ≡ some r
    → (confirm c reservation id now).1 ≡ ok a
    → r.reservation.status ≡ active
    → lookup reservation (expire now c).reservations ≡ some r
unfolding confirm confirm_locked confirm_record aged
not_due c reservation id now r a found h live = ground (arith, lookup-expire now reservation c)

pub expire-assignments : (now : Time) (c : Coordinator) → (expire now c).assignments ≡ c.assignments
unfolding set_status release_holds
expire-assignments now c =
    expire_keeps (λ d. d.assignments ≡ c.assignments) now (λ k r d found due e. e) c refl

-- Where Confirm succeeds for an active reservation, under the name of no assignment so far, it takes
-- exactly the tickets and the target of the proposal out of the active supply and demands, records
-- the reservation as confirmed under that name, and returns and stores a pending assignment for the
-- proposal's teams and target at that time.
pub confirm-IsConsumed :
    (c : Coordinator) (reservation id : Text) (now : Time) (r : ReservationRecord) (a : Assignment)
    → lookup reservation c.reservations ≡ some r
    → r.reservation.status ≡ active
    → lookup id c.assignments ≡ none
    → (confirm c reservation id now).1 ≡ ok a
    → IsConsumed c reservation id r now a (confirm c reservation id now).0
confirm-IsConsumed c reservation id now r a found live unused h =
    let (made, after) =
      confirm_commits c reservation id now r a (not_due c reservation id now r a found h live) live
        (ap (lookup id) (expire-assignments now c) ∙ unused) h in
    let done = commit-IsConsumed reservation id r now (expire now c) in
    let (matches, demands) = expire-tickets now c in
    rw (after, sym made)
      (record {
        match_tickets = λ k.
            done.match_tickets k
            ∙ ap (λ m. if has k (ref_ids r.proposal.tickets) then none else lookup k m) matches;
        backfill_tickets = λ k.
            done.backfill_tickets k
            ∙ ap (λ m. if has k (target_ids r.proposal.target) then none else lookup k m) demands;
        recorded = done.recorded;
        assignment = done.assignment;
        teams = done.teams;
        target = done.target;
        status = done.status;
        confirmed_at = done.confirmed_at;
      })
