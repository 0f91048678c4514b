-- ===== src/Domain/Tickets.antt =====
-- What internal/domain/validate.go accepts as a ticket and as a snapshot, said without its loops.
use sema.Base.{
  Text, is_blank, List, [], ◌∷◌, false, ◌≡◌, refl, ◌↔◌, ◌<◌, pos, ◌≤ℤ◌, length, has, Absent,
  Distinct, All, arith,
}
use sema.Domain.{Player, player_ids, MatchTicket, ok}
use sema.Domain.Validate.{check_players, validate_match_ticket}

pub record IsPlayer (p : Player) : Type 0 where
  pub id : is_blank p.id ≡ false
  pub skill : pos 0 ≤ℤ p.skill
  pub latency_millis : pos 0 ≤ℤ p.latency_millis

pub record IsMatchTicket (t : MatchTicket) : Type 0 where
  pub id : is_blank t.id ≡ false
  pub revision : 0 < t.revision
  pub enqueued_at : 0 < t.enqueued_at
  pub some_player : 0 < length t.players
  pub each_player : All IsPlayer t.players
  pub distinct_players : Distinct (player_ids t.players)

-- None of the names has been seen.
abbrev pub Unseen : List Text → List Text → Type 0
Unseen seen = All (λ x. has x seen ≡ false)

pub Unseen-cons :
    (x : Text) (seen names : List Text)
    → Unseen (x ∷ seen) names ↔ (Unseen seen names × Absent x names)
unfolding has
Unseen-cons x seen [] = (λ _. (tt, tt), λ _. tt)
Unseen-cons x seen (y ∷ ys) =
    let (split, join) = Unseen-cons x seen ys in
    (λ u. ground (arith, split u.1), λ u. ground (arith, join (u.0.1, u.1.1)))

accepted_players :
    (seen : List Text) (ps : List Player)
    → check_players seen ps ≡ ok tt
    → All IsPlayer ps × Distinct (player_ids ps) × Unseen seen (player_ids ps)
unfolding check_players
accepted_players seen [] h = (tt, tt, tt)
accepted_players seen (p ∷ ps) h =
    let (each, distinct, unseen) = accepted_players (p.id ∷ seen) ps (ground arith) in
    let (before, absent) = (Unseen-cons p.id seen (player_ids ps)).0 unseen in
    ((ground arith, each), (absent, distinct), (ground arith, before))

players_accepted :
    (seen : List Text) (ps : List Player)
    → All IsPlayer ps
    → Distinct (player_ids ps)
    → Unseen seen (player_ids ps)
    → check_players seen ps ≡ ok tt
unfolding check_players
players_accepted seen [] each distinct unseen = refl
players_accepted seen (p ∷ ps) each distinct unseen = ground (
  arith,
  players_accepted (p.id ∷ seen) ps each.1 distinct.1
      ((Unseen-cons p.id seen (player_ids ps)).1 (unseen.1, distinct.0)),
)

pub Unseen-nil : (names : List Text) → Unseen [] names
unfolding has
Unseen-nil [] = tt
Unseen-nil (x ∷ xs) = (refl, Unseen-nil xs)

-- ValidateMatchTicket accepts exactly the tickets with a name, a revision, an enqueue time and at
-- least one player, whose players have names, no two the same, and no negative skill or latency.
pub validate_match_ticket_iff :
    (t : MatchTicket) → (validate_match_ticket t ≡ ok tt) ↔ IsMatchTicket t
unfolding validate_match_ticket
validate_match_ticket_iff t = (
  λ h.
      let (each, distinct, _) = accepted_players [] t.players (ground arith) in
      record {
        id = ground arith;
        revision = ground arith;
        enqueued_at = ground arith;
        some_player = ground arith;
        each_player = each;
        distinct_players = distinct;
      },
  λ v. ground (
    arith,
    players_accepted [] t.players v.each_player v.distinct_players
        (Unseen-nil (player_ids t.players)),
    v,
  ),
)
