-- ===== src/Coordinator/Tickets.antt =====
-- internal/coordinator/coordinator.go: UpsertMatchTicket, UpsertBackfillTicket, CancelMatchTicket
-- and CancelBackfillTicket. A submission is first judged, and only a newer revision is stored.
pub mod Ownership
pub mod Revisions
use sema.Base.{
  Text, Text-discrete, List, [], ◌∷◌, map, Option, none, some, Bool, true, false, not, ◌&&◌, ◌||◌,
  ◌≡◌, holds, is_blank, ltb, ◌==◌, if◌then◌else◌,
}
use sema.Base.Map.{Map, lookup, insert, delete}
use sema.Domain.{
  player_ids, Revision, Player, MatchTicket, BackfillTicket, MatchTicket-discrete,
  BackfillTicket-discrete, FailureCode, invalid_input, invalid_revision, stale_snapshot, Result, ok,
  err, ◌>>=◌, ◌>>◌, fail_if,
}
use sema.Domain.Validate.{validate_match_ticket, validate_backfill_ticket}
use sema.Coordinator.{Coordinator}
use sema.Coordinator.Owners.{claim, release}

-- What is to be done with a submission that is not refused.
pub data Verdict : Type 0 where
  keep replace : Verdict

unfoldable pub acquire_player_ownership : MatchTicket → Map Text → Map Text
acquire_player_ownership t = claim t.id (player_ids t.players)

unfoldable pub release_player_ownership : MatchTicket → Map Text → Map Text
release_player_ownership t = release t.id (player_ids t.players)

-- `owner, exists := m[id]; exists && owner != name`.
unfoldable pub owned_by_other : Text → Option Text → Bool
owned_by_other name none = false
owned_by_other name (some owner) = not (holds (Text-discrete owner name))

-- The first player of another ticket, or the blank name.
unfoldable pub duplicated_player : Text → List Player → Map Text → Text
duplicated_player ticket [] m = []
duplicated_player ticket (p ∷ ps) m =
    if owned_by_other ticket (lookup p.id m) then p.id else duplicated_player ticket ps m

abbrev pub is_present {ℓ} : {A : Type ℓ} → Option A → Bool
is_present none = false
is_present (some _) = true

-- The revision rule, against the ticket of that name which is active.
unfoldable pub judge_match_revision : Option MatchTicket → MatchTicket → Result Verdict
judge_match_revision none t = ok replace
judge_match_revision (some current) t =
    if ltb t.revision current.revision
    then err invalid_revision
    else if t.revision == current.revision
    then (if holds (MatchTicket-discrete current t) then ok keep else err invalid_revision)
    else ok replace

-- The test for a player of another ticket, which an unchanged ticket does not reach.
unfoldable pub judge_players : Coordinator → MatchTicket → Verdict → Result Verdict
judge_players c t keep = ok keep
judge_players c t replace = do
  fail_if (not (is_blank (duplicated_player t.id t.players c.player_tickets))) invalid_input
  ok replace

unfoldable pub judge_match_ticket : Coordinator → MatchTicket → Result Verdict
judge_match_ticket c t = do
  validate_match_ticket t
  fail_if (is_present (lookup t.id c.backfill_tickets)) invalid_input
  verdict ← judge_match_revision (lookup t.id c.match_tickets) t
  judge_players c t verdict

-- The players of the ticket that is replaced are given up before the new ones are taken.
unfoldable pub disown : Option MatchTicket → Map Text → Map Text
disown none m = m
disown (some current) m = release_player_ownership current m

unfoldable pub store_match_ticket : Coordinator → MatchTicket → Coordinator
store_match_ticket c t = record c {
  match_tickets = insert t.id t c.match_tickets;
  player_tickets =
      acquire_player_ownership t (disown (lookup t.id c.match_tickets) c.player_tickets);
}

unfoldable pub carry_out_match :
    Coordinator → MatchTicket → Result Verdict → Coordinator × Result (Unit {0})
carry_out_match c t (err e) = (c, err e)
carry_out_match c t (ok keep) = (c, ok tt)
carry_out_match c t (ok replace) = (store_match_ticket c t, ok tt)

unfoldable pub upsert_match_ticket : Coordinator → MatchTicket → Coordinator × Result (Unit {0})
unfolding carry_out_match
upsert_match_ticket c t = carry_out_match c t (judge_match_ticket c t)

-- `for id, active := range backfillTickets`: another demand of the same session.
unfoldable pub session_taken : Text → Text → Map BackfillTicket → Bool
session_taken name session [] = false
session_taken name session ((k, b) ∷ m) =
    (not (holds (Text-discrete k name)) && holds (Text-discrete b.session_id session))
    || session_taken name session m

unfoldable pub judge_backfill_revision : Option BackfillTicket → BackfillTicket → Result Verdict
judge_backfill_revision none t = ok replace
judge_backfill_revision (some current) t =
    if ltb t.revision current.revision
    then err invalid_revision
    else if t.revision == current.revision
    then (if holds (BackfillTicket-discrete current t) then ok keep else err invalid_revision)
    else ok replace

unfoldable pub judge_backfill_ticket : Coordinator → BackfillTicket → Result Verdict
judge_backfill_ticket c t = do
  validate_backfill_ticket t
  fail_if (is_present (lookup t.id c.match_tickets)) invalid_input
  fail_if (session_taken t.id t.session_id c.backfill_tickets) invalid_input
  judge_backfill_revision (lookup t.id c.backfill_tickets) t

unfoldable pub store_backfill_ticket : Coordinator → BackfillTicket → Coordinator
store_backfill_ticket c t = record c { backfill_tickets = insert t.id t c.backfill_tickets }

unfoldable pub carry_out_backfill :
    Coordinator → BackfillTicket → Result Verdict → Coordinator × Result (Unit {0})
carry_out_backfill c t (err e) = (c, err e)
carry_out_backfill c t (ok keep) = (c, ok tt)
carry_out_backfill c t (ok replace) = (store_backfill_ticket c t, ok tt)

unfoldable pub upsert_backfill_ticket :
    Coordinator → BackfillTicket → Coordinator × Result (Unit {0})
unfolding carry_out_backfill
upsert_backfill_ticket c t = carry_out_backfill c t (judge_backfill_ticket c t)

-- `!exists || current.Revision != revision`.
unfoldable pub match_differs : Revision → Option MatchTicket → Bool
match_differs revision none = true
match_differs revision (some current) = not (current.revision == revision)

unfoldable pub drop_match_ticket : Coordinator → Text → Coordinator
drop_match_ticket c id = record c {
  match_tickets = delete id c.match_tickets;
  player_tickets = disown (lookup id c.match_tickets) c.player_tickets;
}

unfoldable pub cancel_match_ticket : Coordinator → Text → Revision → Coordinator × Result (Unit {0})
cancel_match_ticket c id revision =
    if match_differs revision (lookup id c.match_tickets)
    then (c, err stale_snapshot)
    else (drop_match_ticket c id, ok tt)

unfoldable pub backfill_differs : Revision → Revision → Option BackfillTicket → Bool
backfill_differs revision roster_version none = true
backfill_differs revision roster_version (some current) =
    not (current.revision == revision) || not (current.roster_version == roster_version)

unfoldable pub drop_backfill_ticket : Coordinator → Text → Coordinator
drop_backfill_ticket c id = record c { backfill_tickets = delete id c.backfill_tickets }

unfoldable pub cancel_backfill_ticket :
    Coordinator → Text → Revision → Revision → Coordinator × Result (Unit {0})
cancel_backfill_ticket c id revision roster_version =
    if backfill_differs revision roster_version (lookup id c.backfill_tickets)
    then (c, err stale_snapshot)
    else (drop_backfill_ticket c id, ok tt)
