-- ===== src/Examples/Bookings.antt =====
-- The theorems of the coordinator, at two players who queue and are booked.
use sema.Coordinator.Reservations.Outcome.{is_live, reserve-lookup, reserve_error, reserve_held}
use sema.Domain.{expired, reservation_conflict}
use sema.Base.{none}
use sema.Coordinator.{ReservationRecord}
use sema.Coordinator.Tickets.Revisions.{upsert_match_ticket_lem, Advances}
use sema.Coordinator.Snapshot.Laws.{snapshot-find, unless_held}
use sema.Coordinator.Expiry.Laws.{lookup-expire_lem}
use sema.Coordinator.History.Once.{reserve_twice}
use sema.Base.Sort.{sort, insert_sorted, find}
use sema.Coordinator.Snapshot.{
  unreserved, collect, checked_snapshot, check_request, match_id, snapshot,
}
use sema.Coordinator.History.Confirmed.{confirmed_once}
use sema.Coordinator.History.Delivery.{assignment_final, Outlives}
use sema.Coordinator.History.Terminal.{reservation_final, Evolves}
use sema.Coordinator.History.Invariant.{history-Inv, Inv}
use sema.Base.{
  ◌+ℤ◌, bytes_compare, if◌then◌else◌, false, ◌⊎◌, holds, subst, Text, List, [], ◌∷◌, ◌≡◌, ◌≢◌, refl,
  some, true, pos, bytes, has, Text-discrete, ℤ-discrete, ℕ_discrete, wrap, arith,
}
use sema.Base.Map.{lookup, insert, delete}
use sema.Domain.{
  FailureCode, idempotency_conflict, err, Assignment, ok, player_ids, TicketRefs-discrete,
  MatchProposal-discrete,
}
use sema.Domain.Validate.{
  validate_backfill_ticket, total_slots, claim_players, check_vacancies, check_roster_vacancies,
  check_role_counts, check_existing_teams, check_backfill_tickets, check_match_tickets,
  validate_snapshot, check_later_steps, check_steps, check_requirements, validate_policy,
  check_players, validate_match_ticket,
}
use sema.Domain.Proposal.{check_refs, check_teams, check_target, validate_proposal}
use sema.Coordinator.{ReservationRecord, Coordinator, new}
use sema.Coordinator.Confirmation.Consumed.{confirm-IsConsumed, IsConsumed}
use sema.Coordinator.Confirmation.Reserved.{confirm-reserve, reserved}
use sema.Coordinator.Owners.{lookup-release, claim, release, release_one}
use sema.Coordinator.Tickets.{
  drop_backfill_ticket, acquire_player_ownership, release_player_ownership, owned_by_other,
  duplicated_player, judge_match_revision, judge_players, judge_match_ticket, disown,
  store_match_ticket, carry_out_match, upsert_match_ticket, drop_match_ticket, match_differs,
}
use sema.Coordinator.Expiry.{
  ref_ids, target_ids, release_holds, set_status, expire_record, expire_keys, expire,
}
use sema.Coordinator.Reservations.{
  target_differs, replay_record, replay, check_fresh_refs, check_fresh_target, validate_freshness,
  check_free, validate_availability, new_reservation, bind, reserve_new, reserve_locked,
  check_reserve, reserve,
}
use sema.Coordinator.Confirmation.{
  consume_target, consume_refs, record_assignment, commit, new_assignment, confirm_fresh,
  confirm_active, confirm_record, confirm_locked, confirm,
}
use sema.Coordinator.History.{confirms, cancels, Call, perform, run}
use sema.Coordinator.History.Safety.{active_disjoint, player_in_one_ticket}
use sema.Examples.Data.{
  later_snapshot, policy, assignment_a, assignment_a, alice, bob, ticket_a, ticket_b, proposal_a,
  empty, bookings, record_a, record_b,
}

started : new (pos 10000000) ≡ ok empty
unfolding new
started = refl

abbrev booked_state : Coordinator
booked_state = record empty {
  match_tickets = (bytes "ta", ticket_a) ∷ (bytes "tb", ticket_b) ∷ [];
  player_tickets = (alice, bytes "ta") ∷ (bob, bytes "tb") ∷ [];
  ticket_reservations = (bytes "ta", bytes "ra") ∷ (bytes "tb", bytes "rb") ∷ [];
  reservations = (bytes "ra", record_a) ∷ (bytes "rb", record_b) ∷ [];
}

abbrev queued_state : Coordinator
queued_state = record empty {
  match_tickets = (bytes "ta", ticket_a) ∷ (bytes "tb", ticket_b) ∷ [];
  player_tickets = (alice, bytes "ta") ∷ (bob, bytes "tb") ∷ [];
}

bookings-run : run bookings empty ≡ booked_state
unfolding run perform upsert_match_ticket judge_match_ticket judge_match_revision judge_players
    duplicated_player owned_by_other carry_out_match store_match_ticket disown
    acquire_player_ownership release_player_ownership claim release release_one lookup insert delete
    has validate_match_ticket check_players Text-discrete ℤ-discrete ℕ_discrete TicketRefs-discrete
    reserve reserve_locked reserve_new check_reserve validate_proposal check_refs check_teams
    check_target validate_freshness check_fresh_refs check_fresh_target validate_availability
    check_free new_reservation bind expire expire_keys expire_record match_differs
bookings-run = refl

booked_state-Inv : Inv booked_state
booked_state-Inv = subst Inv bookings-run (history-Inv (pos 10000000) empty bookings started)

history-Inv_example : Inv (run bookings empty)
history-Inv_example = history-Inv (pos 10000000) empty bookings started

found_a : lookup (bytes "ra") (run bookings empty).reservations ≡ some record_a
found_a = rw bookings-run (unfold lookup Text-discrete ℕ_discrete in refl)

found_b : lookup (bytes "rb") (run bookings empty).reservations ≡ some record_b
found_b = rw bookings-run (unfold lookup Text-discrete ℕ_discrete in refl)

differ : (a b : Text) → holds (Text-discrete a b) ≡ false → a ≢ b
differ a b h = ground arith

names_differ : bytes "ra" ≢ bytes "rb"
names_differ = differ _ _ (unfold Text-discrete ℕ_discrete in refl)

active_disjoint_example :
    ¬ (
      (has (bytes "ta") (ref_ids record_a.reservation.tickets) ≡ true)
      × (has (bytes "ta") (ref_ids record_b.reservation.tickets) ≡ true))
    × ¬ (
        (has (bytes "ta") (target_ids record_a.reservation.target) ≡ true)
        × (has (bytes "ta") (target_ids record_b.reservation.target) ≡ true))
active_disjoint_example =
    active_disjoint (pos 10000000) empty bookings started (bytes "ra") (bytes "rb") (bytes "ta")
      record_a record_b found_a found_b refl refl names_differ

queued_a : lookup (bytes "ta") (run bookings empty).match_tickets ≡ some ticket_a
queued_a = rw bookings-run (unfold lookup Text-discrete ℕ_discrete in refl)

alice_in : has alice (player_ids ticket_a.players) ≡ true
alice_in = unfold has Text-discrete ℕ_discrete in refl

player_in_one_ticket_example : bytes "ta" ≡ bytes "ta"
player_in_one_ticket_example =
    player_in_one_ticket (pos 10000000) empty bookings started (bytes "ta") (bytes "ta") alice
      ticket_a ticket_a queued_a queued_a alice_in alice_in

kept_a : lookup (bytes "ra") booked_state.reservations ≡ some record_a
kept_a = unfold lookup Text-discrete ℕ_discrete in refl

-- The reservation expires while another call looks.
abbrev later_calls : List Call
later_calls = cancels (bytes "rb") 15500000 ∷ confirms (bytes "ra") (bytes "aa") 15600000 ∷ []

reservation_final_example :
    (u : ReservationRecord) × (lookup (bytes "ra") (run later_calls booked_state).reservations
      ≡ some u)
    × Evolves record_a u
reservation_final_example = reservation_final (bytes "ra") record_a later_calls booked_state kept_a

confirms_a : (confirm booked_state (bytes "ra") (bytes "aa") 7000000).1 ≡ ok assignment_a
unfolding confirm confirm_locked lookup expire expire_keys expire_record Text-discrete
    confirm_record confirm_active validate_freshness check_fresh_refs match_differs
    check_fresh_target confirm_fresh new_assignment
confirms_a = refl

confirm-IsConsumed_example :
    IsConsumed booked_state
      (bytes "ra")
      (bytes "aa")
      record_a
      7000000
      assignment_a
      (confirm booked_state (bytes "ra") (bytes "aa") 7000000).0
unfolding lookup
confirm-IsConsumed_example =
    confirm-IsConsumed booked_state (bytes "ra") (bytes "aa") 7000000 record_a assignment_a kept_a
      refl refl confirms_a

confirmed_once_example :
    (y : Assignment) × Outlives assignment_a y
    × ((confirm
          (run
            (cancels (bytes "rb") 8000000 ∷ [])
            (confirm booked_state (bytes "ra") (bytes "aa") 7000000).0)
          (bytes "ra")
          (bytes "zz")
          9000000).1
        ≡ err idempotency_conflict)
unfolding Text-discrete
confirmed_once_example =
    confirmed_once booked_state (bytes "ra") (bytes "aa") (bytes "zz") 7000000 9000000 assignment_a
      (cancels (bytes "rb") 8000000 ∷ []) booked_state-Inv confirms_a refl refl refl

delivered_a :
    lookup (bytes "aa") (confirm booked_state (bytes "ra") (bytes "aa") 7000000).0.assignments
    ≡ some assignment_a
unfolding lookup confirm confirm_locked expire expire_keys expire_record Text-discrete
    confirm_record confirm_active validate_freshness check_fresh_refs match_differs
    check_fresh_target confirm_fresh commit record_assignment insert ℕ_discrete delete consume_refs
    consume_target new_assignment release_holds set_status release release_one target_differs disown
    drop_backfill_ticket drop_match_ticket release_player_ownership
delivered_a = refl

assignment_final_example :
    (y : Assignment) × (lookup
        (bytes "aa")
        (run later_calls (confirm booked_state (bytes "ra") (bytes "aa") 7000000).0).assignments
      ≡ some y)
    × Outlives assignment_a y
assignment_final_example =
    assignment_final (bytes "aa") assignment_a later_calls
      (confirm booked_state (bytes "ra") (bytes "aa") 7000000).0 delivered_a

snapshot_later : (snapshot booked_state (bytes "s1") 15500000 policy).1 ≡ ok later_snapshot
unfolding snapshot check_request validate_policy check_requirements check_steps check_later_steps
    checked_snapshot validate_snapshot collect check_match_tickets sort unreserved expire
    expire_keys expire_record lookup Text-discrete ℕ_discrete bytes_compare wrap ℤ-discrete ◌+ℤ◌
    delete insert has insert_sorted release_holds set_status release release_one
    check_backfill_tickets check_existing_teams check_players check_role_counts
    check_roster_vacancies check_vacancies claim_players total_slots validate_backfill_ticket
    validate_match_ticket
snapshot_later = refl

snapshot-find_example :
    find match_id (bytes "tb") later_snapshot.match_tickets
    ≡ unless_held (some (bytes "rb")) (some ticket_b)
unfolding lookup snapshot check_request validate_policy check_requirements check_steps
    check_later_steps expire expire_keys expire_record Text-discrete set_status insert release_holds
    release release_one delete ℕ_discrete bytes_compare wrap ℤ-discrete ◌+ℤ◌ has insert_sorted sort
    checked_snapshot collect unreserved check_backfill_tickets check_existing_teams
    check_match_tickets check_players check_role_counts check_roster_vacancies check_vacancies
    claim_players total_slots validate_backfill_ticket validate_match_ticket validate_snapshot
snapshot-find_example =
    (snapshot-find booked_state (bytes "s1") 15500000 policy later_snapshot booked_state-Inv.owned
        snapshot_later).0
      (bytes "tb")

reserves_a : (reserve queued_state proposal_a (bytes "ra") 5000000).1 ≡ ok record_a.reservation
unfolding reserve check_reserve validate_proposal check_teams ℤ-discrete check_refs has
    TicketRefs-discrete check_target reserve_locked lookup expire expire_keys reserve_new
    validate_freshness check_fresh_refs match_differs ℕ_discrete Text-discrete delete insert
    expire_record release_holds set_status claim release release_one bind check_free
    check_fresh_target new_reservation replay replay_record target_differs validate_availability
    MatchProposal-discrete
reserves_a = refl

confirm-reserve_example :
    (confirm
      (reserve queued_state proposal_a (bytes "ra") 5000000).0
      (bytes "ra")
      (bytes "aa")
      5000000).1
    ≡ ok (
        new_assignment (bytes "ra") (bytes "aa") (reserved proposal_a record_a.reservation) 5000000)
unfolding lookup
confirm-reserve_example =
    confirm-reserve queued_state proposal_a (bytes "ra") (bytes "aa") 5000000 record_a.reservation
      refl refl refl refl reserves_a

reserve_twice_example :
    let c = (reserve queued_state proposal_a (bytes "ra") 5000000).0 in
    reserve c proposal_a (bytes "ra") 5000000 ≡ (c, ok record_a.reservation)
reserve_twice_example =
    reserve_twice queued_state proposal_a (bytes "ra") 5000000 record_a.reservation refl reserves_a

lookup-expire_lem_example :
    lookup (bytes "ra") (expire 15000000 booked_state).reservations
    ≡ some (record record_a { reservation = record record_a.reservation { status = expired } })
lookup-expire_lem_example =
    ((lookup-expire_lem 15000000 (bytes "ra") booked_state).0 record_a kept_a).0 refl (omega arith)

lookup-release_example :
    lookup alice (release (bytes "ta") (bob ∷ alice ∷ []) booked_state.player_tickets)
    ≡ lookup alice []
unfolding lookup has Text-discrete
lookup-release_example =
    lookup-release (bytes "ta") alice (bob ∷ alice ∷ []) booked_state.player_tickets

upsert_match_ticket_lem_example :
    let (d, result) = upsert_match_ticket booked_state ticket_a in
    ((e : FailureCode) × (result ≡ err e) × (d ≡ booked_state))
    ⊎ ((result ≡ ok tt)
        × Advances (lookup ticket_a.id booked_state.match_tickets) ticket_a
        × ((k : Text)
            → lookup k d.match_tickets ≡ (
                if holds (Text-discrete ticket_a.id k)
                then some ticket_a
                else lookup k booked_state.match_tickets))
        × (d.backfill_tickets ≡ booked_state.backfill_tickets))
upsert_match_ticket_lem_example = upsert_match_ticket_lem booked_state ticket_a

reserve-lookup_example :
    (u : ReservationRecord) × (lookup
        (bytes "ra")
        (reserve queued_state proposal_a (bytes "ra") 5000000).0.reservations
      ≡ some u)
    × (u.reservation ≡ record_a.reservation)
    × (u.proposal ≡ proposal_a)
    × (is_live record_a.reservation.status ≡ true)
reserve-lookup_example =
    reserve-lookup queued_state proposal_a (bytes "ra") 5000000 record_a.reservation reserves_a

-- A second client asks for a ticket that is held.
refused : (reserve booked_state proposal_a (bytes "rc") 7000000).1 ≡ err reservation_conflict
unfolding reserve check_reserve validate_proposal check_teams ℤ-discrete check_refs has
    TicketRefs-discrete check_target reserve_locked lookup expire expire_keys expire_record
    reserve_new validate_freshness check_fresh_refs ℕ_discrete Text-discrete delete insert
    release_holds set_status claim release release_one bind check_free check_fresh_target
    new_reservation replay replay_record target_differs validate_availability match_differs
    MatchProposal-discrete
refused = refl

reserve_error_example :
    let d = (reserve booked_state proposal_a (bytes "rc") 7000000).0 in
    (d ≡ booked_state) ⊎ (d ≡ expire 7000000 booked_state)
reserve_error_example =
    reserve_error booked_state proposal_a (bytes "rc") 7000000 reservation_conflict refused

unknown_c : lookup (bytes "rc") (expire 7000000 booked_state).reservations ≡ none
unfolding lookup expire expire_keys expire_record Text-discrete
unknown_c = refl

wanted_a : has (bytes "ta") (ref_ids proposal_a.tickets) ≡ true
unfolding has Text-discrete
wanted_a = refl

held_a : lookup (bytes "ta") (expire 7000000 booked_state).ticket_reservations ≡ some (bytes "ra")
unfolding lookup expire expire_keys expire_record Text-discrete
held_a = refl

reserve_held_example :
    (e : FailureCode) × ((reserve booked_state proposal_a (bytes "rc") 7000000).1 ≡ err e)
reserve_held_example =
    reserve_held booked_state proposal_a (bytes "rc") (bytes "ta") (bytes "ra") 7000000 unknown_c
      wanted_a held_a
