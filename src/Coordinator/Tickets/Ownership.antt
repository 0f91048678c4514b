-- ===== src/Coordinator/Tickets/Ownership.antt =====
-- Who owns what among the active tickets: names, players and sessions.
use sema.Base.{
  Distinct, Bool-cases, Text, Text-discrete, List, [], ◌∷◌, Option, none, some, true, false, ◌≡◌,
  refl, ◌≢◌, ◌⊎◌, inl, inr, has, is_blank, arith,
}
use sema.Base.Map.{
  keys, Distinct-insert, Distinct-delete, lookup-insert, Map, lookup, lookup-delete,
}
use sema.Domain.{player_ids, Result, err, Revision, Player, MatchTicket, BackfillTicket, ok}
use sema.Domain.Validate.{check_players, validate_match_ticket}
use sema.Coordinator.{Coordinator}
use sema.Coordinator.Owners.{lookup-claim, lookup-release}
use sema.Coordinator.Tickets.{
  carry_out_backfill, carry_out_match, Verdict, backfill_differs, match_differs, replace,
  acquire_player_ownership, judge_backfill_ticket, judge_players, keep, cancel_backfill_ticket,
  cancel_match_ticket, drop_backfill_ticket, judge_match_ticket, session_taken,
  store_backfill_ticket, store_match_ticket, upsert_backfill_ticket, upsert_match_ticket,
  release_player_ownership, owned_by_other, duplicated_player, disown, drop_match_ticket,
}

pub record IsOwned (c : Coordinator) : Type 0 where
  pub match_distinct : Distinct (keys c.match_tickets)
  pub backfill_distinct : Distinct (keys c.backfill_tickets)
  pub match_key : (k : Text) (t : MatchTicket) → lookup k c.match_tickets ≡ some t → t.id ≡ k
  pub backfill_key :
      (k : Text) (t : BackfillTicket) → lookup k c.backfill_tickets ≡ some t → t.id ≡ k
  pub apart :
      (k : Text) (t : MatchTicket)
      → lookup k c.match_tickets ≡ some t
      → lookup k c.backfill_tickets ≡ none
  pub owns :
      (k p : Text) (t : MatchTicket)
      → lookup k c.match_tickets ≡ some t
      → has p (player_ids t.players) ≡ true
      → lookup p c.player_tickets ≡ some k
  pub owned :
      (p k : Text)
      → lookup p c.player_tickets ≡ some k
      → (t : MatchTicket) × (lookup k c.match_tickets ≡ some t)
        × (has p (player_ids t.players) ≡ true)
  pub one_session :
      (k j : Text) (a b : BackfillTicket)
      → lookup k c.backfill_tickets ≡ some a
      → lookup j c.backfill_tickets ≡ some b
      → a.session_id ≡ b.session_id
      → k ≡ j

Owner-discrete : Discrete (Option Text)
Owner-discrete = hlevel Text-discrete

-- A validated ticket has no player of another ticket, unless the search names one.
no_other_owner :
    (ticket p : Text) (ps : List Player) (seen : List Text) (m : Map Text)
    → check_players seen ps ≡ ok tt
    → is_blank (duplicated_player ticket ps m) ≡ true
    → has p (player_ids ps) ≡ true
    → owned_by_other ticket (lookup p m) ≡ false
unfolding duplicated_player check_players has
no_other_owner ticket p [] seen m v d h = cc
no_other_owner ticket p (q ∷ ps) seen m v d h =
    ground (arith, no_other_owner ticket p ps (q.id ∷ seen) m)

-- Under the invariant, giving up a ticket's players frees exactly what the ticket owns.
disown_own :
    (c : Coordinator)
    → IsOwned c
    → (k j : Text) (o : Option MatchTicket) → lookup k c.match_tickets ≡ o
    → lookup j c.player_tickets ≡ some k
    → lookup j (disown o c.player_tickets) ≡ none
unfolding disown release_player_ownership
disown_own c v k j none e h = ground (arith, v.owned j k h)
disown_own c v k j (some t) e h = ground (
  arith,
  v.match_key k t e,
  v.owned j k h,
  lookup-release t.id j (player_ids t.players) c.player_tickets,
)

disown_other :
    (c : Coordinator)
    → IsOwned c
    → (k j : Text) (o : Option MatchTicket) → lookup k c.match_tickets ≡ o
    → lookup j c.player_tickets ≢ some k
    → lookup j (disown o c.player_tickets) ≡ lookup j c.player_tickets
unfolding disown release_player_ownership
disown_other c v k j none e h = refl
disown_other c v k j (some t) e h =
    ground (arith, v.match_key k t e, lookup-release t.id j (player_ids t.players) c.player_tickets)

-- The owner of a name after a ticket is given up.
owner_after :
    (c : Coordinator)
    → IsOwned c
    → (k j : Text)
    → ((lookup j c.player_tickets ≡ some k)
        × (lookup j (disown (lookup k c.match_tickets) c.player_tickets) ≡ none))
      ⊎ ((lookup j c.player_tickets ≢ some k)
          × (lookup j (disown (lookup k c.match_tickets) c.player_tickets)
              ≡ lookup j c.player_tickets))
owner_after c v k j = elim (Owner-discrete (lookup j c.player_tickets) (some k)) [
  | yes h ↦ inl (h, disown_own c v k j _ refl h)
  | no h ↦ inr (h, disown_other c v k j _ refl h)
]

-- Dropping a ticket, whether it is there or not.
pub drop_match_ticket-IsOwned :
    (c : Coordinator) (id : Text) → IsOwned c → IsOwned (drop_match_ticket c id)
unfolding drop_match_ticket
drop_match_ticket-IsOwned c id v = record {
  match_distinct = Distinct-delete id c.match_tickets v.match_distinct;
  backfill_distinct = v.backfill_distinct;
  match_key = λ k t h. ground (arith, lookup-delete id k c.match_tickets, v.match_key k t);
  backfill_key = v.backfill_key;
  apart = λ k t h. ground (arith, lookup-delete id k c.match_tickets, v.apart k t);
  owns = λ k p t h q.
      ground (arith, lookup-delete id k c.match_tickets, v.owns k p t, owner_after c v id p);
  owned = λ p k h.
      ground (arith, lookup-delete id k c.match_tickets, v.owned p k, owner_after c v id p);
  one_session = v.one_session;
}

-- What the judgement has established when a ticket is to be stored.
pub record IsStorable (c : Coordinator) (t : MatchTicket) : Type 0 where
  pub not_demand : lookup t.id c.backfill_tickets ≡ none
  pub players_free :
      (p : Text)
      → has p (player_ids t.players) ≡ true
      → owned_by_other t.id (lookup p c.player_tickets) ≡ false

judge-IsStorable :
    (c : Coordinator) (t : MatchTicket) → judge_match_ticket c t ≡ ok replace → IsStorable c t
unfolding judge_match_ticket judge_players validate_match_ticket
judge-IsStorable c t h = record {
  not_demand = ground arith;
  players_free = λ p q. ground (arith, no_other_owner t.id p t.players [] c.player_tickets);
}

store_match_ticket-IsOwned :
    (c : Coordinator) (t : MatchTicket)
    → IsOwned c
    → IsStorable c t
    → IsOwned (store_match_ticket c t)
unfolding store_match_ticket acquire_player_ownership owned_by_other
store_match_ticket-IsOwned c t v s = record {
  match_distinct = Distinct-insert t.id t c.match_tickets v.match_distinct;
  backfill_distinct = v.backfill_distinct;
  match_key = λ k u h. ground (arith, lookup-insert t.id k t c.match_tickets, v.match_key k u);
  backfill_key = v.backfill_key;
  apart =
      λ k u h. ground (arith, lookup-insert t.id k t c.match_tickets, v.apart k u, s.not_demand);
  owns = λ k p u h q. ground (
    arith,
    lookup-insert t.id k t c.match_tickets,
    lookup-claim t.id p (player_ids t.players)
        (disown (lookup t.id c.match_tickets) c.player_tickets),
    v.owns k p u,
    s.players_free p,
    owner_after c v t.id p,
  );
  owned = λ p k h. ground (
    arith,
    lookup-insert t.id k t c.match_tickets,
    lookup-claim t.id p (player_ids t.players)
        (disown (lookup t.id c.match_tickets) c.player_tickets),
    v.owned p k,
    owner_after c v t.id p,
  );
  one_session = v.one_session;
}

-- UpsertMatchTicket keeps every name, player and session with one owner, whatever is submitted.
pub upsert_match_ticket-IsOwned :
    (c : Coordinator) (t : MatchTicket) → IsOwned c → IsOwned (upsert_match_ticket c t).0
unfolding upsert_match_ticket
upsert_match_ticket-IsOwned c t v = go (judge_match_ticket c t) refl
  where
    go : (r : Result Verdict) → judge_match_ticket c t ≡ r → IsOwned (carry_out_match c t r).0
    go (err e) h = v
    go (ok keep) h = v
    go (ok replace) h = store_match_ticket-IsOwned c t v (judge-IsStorable c t h)

-- So does CancelMatchTicket.
pub cancel_match_ticket-IsOwned :
    (c : Coordinator) (id : Text) (revision : Revision)
    → IsOwned c
    → IsOwned (cancel_match_ticket c id revision).0
unfolding cancel_match_ticket
cancel_match_ticket-IsOwned c id revision v =
    elim (Bool-cases (match_differs revision (lookup id c.match_tickets))) [
      | inl e ↦ rw e v
      | inr e ↦ rw e (drop_match_ticket-IsOwned c id v)
    ]

pub drop_backfill_ticket-IsOwned :
    (c : Coordinator) (id : Text) → IsOwned c → IsOwned (drop_backfill_ticket c id)
unfolding drop_backfill_ticket
drop_backfill_ticket-IsOwned c id v = record {
  match_distinct = v.match_distinct;
  backfill_distinct = Distinct-delete id c.backfill_tickets v.backfill_distinct;
  match_key = v.match_key;
  backfill_key = λ k t h. ground (arith, lookup-delete id k c.backfill_tickets, v.backfill_key k t);
  apart = λ k t h. ground (arith, lookup-delete id k c.backfill_tickets, v.apart k t);
  owns = v.owns;
  owned = v.owned;
  one_session = λ k j a b h q e. ground (
    arith,
    lookup-delete id k c.backfill_tickets,
    lookup-delete id j c.backfill_tickets,
    v.one_session k j a b,
  );
}

-- The search for another demand of the session finds every one.
session_free :
    (id session k : Text) (b : BackfillTicket) (m : Map BackfillTicket)
    → session_taken id session m ≡ false
    → lookup k m ≡ some b
    → b.session_id ≡ session
    → k ≡ id
unfolding session_taken lookup
session_free id session k b [] f h e = cc
session_free id session k b ((j, a) ∷ m) f h e = ground (arith, session_free id session k b m)

store_backfill_ticket-IsOwned :
    (c : Coordinator) (t : BackfillTicket)
    → IsOwned c
    → judge_backfill_ticket c t ≡ ok replace
    → IsOwned (store_backfill_ticket c t)
unfolding store_backfill_ticket judge_backfill_ticket
store_backfill_ticket-IsOwned c t v h = record {
  match_distinct = v.match_distinct;
  backfill_distinct = Distinct-insert t.id t c.backfill_tickets v.backfill_distinct;
  match_key = v.match_key;
  backfill_key =
      λ k u q. ground (arith, lookup-insert t.id k t c.backfill_tickets, v.backfill_key k u);
  apart = λ k u q. ground (arith, lookup-insert t.id k t c.backfill_tickets, v.apart k u);
  owns = v.owns;
  owned = v.owned;
  one_session = λ k j a b p q e. ground (
    arith,
    lookup-insert t.id k t c.backfill_tickets,
    lookup-insert t.id j t c.backfill_tickets,
    v.one_session k j a b,
    session_free t.id t.session_id k a c.backfill_tickets,
    session_free t.id t.session_id j b c.backfill_tickets,
  );
}

-- UpsertBackfillTicket keeps every name, player and session with one owner.
pub upsert_backfill_ticket-IsOwned :
    (c : Coordinator) (t : BackfillTicket) → IsOwned c → IsOwned (upsert_backfill_ticket c t).0
unfolding upsert_backfill_ticket
upsert_backfill_ticket-IsOwned c t v = go (judge_backfill_ticket c t) refl
  where
    go : (r : Result Verdict) → judge_backfill_ticket c t ≡ r → IsOwned (carry_out_backfill c t r).0
    go (err e) h = v
    go (ok keep) h = v
    go (ok replace) h = store_backfill_ticket-IsOwned c t v h

-- So does CancelBackfillTicket.
pub cancel_backfill_ticket-IsOwned :
    (c : Coordinator) (id : Text) (revision roster_version : Revision)
    → IsOwned c
    → IsOwned (cancel_backfill_ticket c id revision roster_version).0
unfolding cancel_backfill_ticket
cancel_backfill_ticket-IsOwned c id revision roster_version v =
    elim (Bool-cases (backfill_differs revision roster_version (lookup id c.backfill_tickets))) [
      | inl e ↦ rw e v
      | inr e ↦ rw e (drop_backfill_ticket-IsOwned c id v)
    ]
