-- ===== src/Domain/Snapshots.antt =====
-- What internal/domain/validate.go accepts as a snapshot.
use sema.Base.{inr, false, inl, has, Text, List, [], ◌∷◌, ◌++◌, ◌≡◌, ◌≤◌, Distinct, All, arith}
use sema.Domain.{
  MatchmakingPolicy, Result-cases, ok-injective, Time, Player, player_ids, MatchTicket,
  BackfillTicket, MatchmakingSnapshot, ok,
}
use sema.Domain.Validate.{
  check_backfill_tickets, check_match_tickets, validate_snapshot, claim_players,
}
use sema.Domain.Tickets.{Unseen, Unseen-cons}

abbrev pub match_names : List MatchTicket → List Text
match_names [] = []
match_names (t ∷ ts) = t.id ∷ match_names ts

abbrev pub backfill_names : List BackfillTicket → List Text
backfill_names [] = []
backfill_names (t ∷ ts) = t.id ∷ backfill_names ts

-- The players of all tickets, in order.
abbrev pub all_players : List MatchTicket → List Text
all_players [] = []
all_players (t ∷ ts) = player_ids t.players ++ all_players ts

pub record IsSnapshot (s : MatchmakingSnapshot) : Type 0 where
  pub distinct_tickets : Distinct (match_names s.match_tickets ++ backfill_names s.backfill_tickets)
  pub distinct_players : Distinct (all_players s.match_tickets)
  pub match_past : All (λ t. t.enqueued_at ≤ s.now) s.match_tickets
  pub backfill_past : All (λ t. t.enqueued_at ≤ s.now) s.backfill_tickets

-- The names that are claimed are new and distinct, and join those seen before.
claimed :
    (players : List Text) (ps : List Player) (after others : List Text)
    → claim_players players ps ≡ ok after
    → Distinct others
    → Unseen after others
    → Distinct (player_ids ps ++ others) × Unseen players (player_ids ps ++ others)
unfolding claim_players
claimed players [] after others h d u = ground arith
claimed players (p ∷ ps) after others h d u =
    let (distinct, unseen) = claimed (p.id ∷ players) ps after others (ground arith) d u in
    let (before, absent) = (Unseen-cons p.id players (player_ids ps ++ others)).0 unseen in
    ((absent, distinct), (ground arith, before))

accepted_backfills :
    (now : Time) (policy : MatchmakingPolicy) (tickets : List Text) (ts : List BackfillTicket)
    → check_backfill_tickets now policy tickets ts ≡ ok tt
    → Distinct (backfill_names ts)
      × Unseen tickets (backfill_names ts)
      × All (λ t. t.enqueued_at ≤ now) ts
unfolding check_backfill_tickets
accepted_backfills now policy tickets [] h = (tt, tt, tt)
accepted_backfills now policy tickets (t ∷ ts) h =
    let (distinct, unseen, past) =
      accepted_backfills now policy (t.id ∷ tickets) ts (ground arith) in
    let (before, absent) = (Unseen-cons t.id tickets (backfill_names ts)).0 unseen in
    ((absent, distinct), (ground arith, before), (ground arith, past))

-- The steps of the loop over the match tickets that accepts a ticket.
match_step :
    (now : Time) (tickets players after : List Text) (t : MatchTicket) (ts : List MatchTicket)
    → check_match_tickets now tickets players (t ∷ ts) ≡ ok after
    → (t.enqueued_at ≤ now)
      × (has t.id tickets ≡ false)
      × (players' : List Text) × (claim_players players t.players ≡ ok players')
      × (check_match_tickets now (t.id ∷ tickets) players' ts ≡ ok after)
unfolding check_match_tickets
match_step now tickets players after t ts h =
    elim (Result-cases (claim_players players t.players)) [
      | inl (e, bad) ↦ absurd (ground arith)
      | inr (players', fine) ↦ (ground arith, ground arith, players', fine, ground arith)
    ]

accepted_matches :
    (now : Time) (tickets players after others : List Text) (ts : List MatchTicket)
    → check_match_tickets now tickets players ts ≡ ok after
    → Distinct others
    → Unseen after others
    → Distinct (match_names ts ++ others)
      × Unseen tickets (match_names ts ++ others)
      × Distinct (all_players ts)
      × Unseen players (all_players ts)
      × All (λ t. t.enqueued_at ≤ now) ts
accepted_matches now tickets players after others [] h d u =
    unfold check_match_tickets in (d, rw (ok-injective tickets after h) u, tt, tt, tt)
accepted_matches now tickets players after others (t ∷ ts) h d u =
    let (past, fresh, players', taken, rest) = match_step now tickets players after t ts h in
    let (distinct, unseen, own, free, past_rest) =
      accepted_matches now (t.id ∷ tickets) players' after others ts rest d u in
    let (before, absent) = (Unseen-cons t.id tickets (match_names ts ++ others)).0 unseen in
    let (own_all, free_all) = claimed players t.players players' (all_players ts) taken own free in
    ((absent, distinct), (fresh, before), own_all, free_all, (past, past_rest))

-- A snapshot that ValidateSnapshot accepts has no ticket name twice, over supply and demand
-- together, no player twice, over all tickets, and no ticket from after its time.
pub validate_snapshot-IsSnapshot :
    (s : MatchmakingSnapshot) → validate_snapshot s ≡ ok tt → IsSnapshot s
unfolding validate_snapshot
validate_snapshot-IsSnapshot s h =
    elim (Result-cases (check_match_tickets s.now [] [] s.match_tickets)) [
      | inl (e, bad) ↦ absurd (ground arith)
      | inr (after, fine) ↦
          let (distinct, unseen, past) =
            accepted_backfills s.now s.policy after s.backfill_tickets (ground arith) in
          let (names, _, players, _, match_past) =
            accepted_matches s.now [] [] after (backfill_names s.backfill_tickets) s.match_tickets
              fine distinct unseen in
          record {
            distinct_tickets = names;
            distinct_players = players;
            match_past = match_past;
            backfill_past = past;
          }
    ]
