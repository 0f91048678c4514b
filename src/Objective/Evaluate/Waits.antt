-- ===== src/Objective/Evaluate/Waits.antt =====
-- The wait that the evidence of an evaluation reports.
use sema.Base.{
  inr, ap, inl, Option-cases, List, [], ◌∷◌, Option, none, some, Bool, true, false, ℤ, pos, ◌≡◌,
  refl, arith,
}
use mathlib.Core.Option.{map as map_option}
use sema.Constraint.{hard_violation}
use sema.Domain.{ProposalKind, Time, MatchTicket, RosterTeamSummary, MatchmakingPolicy, Player}
use sema.Objective.{Evaluation, max_ℤ, wait_millis}
use sema.Objective.Evaluate.{
  beside, evaluate, Tally, Side, tally_players, tally_wait, tally_tickets, start_team, end_team,
  tally_teams, no_tally, is_new_match, conclude, evaluate_sides, bare_sides,
}

-- The longest wait of some tickets, and of some teams, where it exceeds `n`.
unfoldable pub longest_wait : Time → List MatchTicket → ℤ → ℤ
longest_wait now [] n = n
longest_wait now (t ∷ ts) n = longest_wait now ts (max_ℤ n (wait_millis now t.enqueued_at))

unfoldable pub longest_team_wait : Time → List (List MatchTicket) → ℤ → ℤ
longest_team_wait now [] n = n
longest_team_wait now (team ∷ teams) n = longest_team_wait now teams (longest_wait now team n)

abbrev teams_of : List Side → List (List MatchTicket)
teams_of [] = []
teams_of ((s, team) ∷ sides) = team ∷ teams_of sides

tally_players-oldest :
    (ps : List Player) (v : Tally) → (tally_players ps v).oldest_wait_millis ≡ v.oldest_wait_millis
unfolding tally_players
tally_players-oldest [] v = refl
tally_players-oldest (p ∷ ps) v = rw (tally_players-oldest ps _) refl

tally_tickets-oldest :
    (now : Time) (policy : MatchmakingPolicy) (ts : List MatchTicket) (v : Tally)
    → (tally_tickets now policy ts v).oldest_wait_millis ≡ longest_wait now ts v.oldest_wait_millis
unfolding tally_tickets tally_wait longest_wait
tally_tickets-oldest now policy [] v = refl
tally_tickets-oldest now policy (t ∷ ts) v =
    rw (tally_tickets-oldest now policy ts _)
      (rw (tally_players-oldest t.players (tally_wait now policy t v)) refl)

start_team-oldest :
    (s : Option RosterTeamSummary) (v : Tally)
    → (start_team s v).oldest_wait_millis ≡ v.oldest_wait_millis
unfolding start_team
start_team-oldest none v = refl
start_team-oldest (some s) v = refl

end_team-oldest :
    (quality : Bool) (v : Tally) → (end_team quality v).oldest_wait_millis ≡ v.oldest_wait_millis
unfolding end_team
end_team-oldest quality v = ground arith

tally_teams-oldest :
    (now : Time) (policy : MatchmakingPolicy) (quality : Bool) (sides : List Side) (v : Tally)
    → (tally_teams now policy quality sides v).oldest_wait_millis
      ≡ longest_team_wait now (teams_of sides) v.oldest_wait_millis
unfolding tally_teams longest_team_wait
tally_teams-oldest now policy quality [] v = refl
tally_teams-oldest now policy quality ((s, team) ∷ sides) v =
    rw (tally_teams-oldest now policy quality sides _) (
      rw (end_team-oldest quality (tally_tickets now policy team (start_team s v))) (
        rw (tally_tickets-oldest now policy team (start_team s v))
          (rw (start_team-oldest s v) refl)))

evaluate_sides-oldest :
    (now : Time) (sides : List Side) (policy : MatchmakingPolicy) (quality violation : Bool)
    → (evaluate_sides now sides policy quality violation).evidence.oldest_wait_millis
      ≡ longest_team_wait now (teams_of sides) (pos 0)
unfolding evaluate_sides conclude
evaluate_sides-oldest now sides policy true violation =
    tally_teams-oldest now policy true sides no_tally
evaluate_sides-oldest now sides policy false violation =
    tally_teams-oldest now policy false sides no_tally

bare_sides-teams : (teams : List (List MatchTicket)) → teams_of (bare_sides teams) ≡ teams
bare_sides-teams [] = refl
bare_sides-teams (team ∷ teams) = cc (bare_sides-teams teams)

some-injective {ℓ} : {A : Type ℓ} (a b : A) → some a ≡ some b → a ≡ b
some-injective a b h = cc h

beside-teams :
    (existing : List RosterTeamSummary) (teams : List (List MatchTicket)) (sides : List Side)
    → beside existing teams ≡ some sides
    → teams_of sides ≡ teams
unfolding beside
beside-teams existing [] sides h = ground arith
beside-teams [] (team ∷ teams) sides h = absurd (cc h)
beside-teams (s ∷ existing) (team ∷ teams) sides h = elim (Option-cases (beside existing teams)) [
  | inl e ↦ absurd (cc (h, ap (map_option (λ ss. (some s, team) ∷ ss)) e))
  | inr (rest, e) ↦
      let tail = beside-teams existing teams rest e in
      let whole = ap (map_option (λ ss. (some s, team) ∷ ss)) e in
      let same = some-injective ((some s, team) ∷ rest) sides (cc (h, whole)) in
      cc (tail, ap teams_of same)
]

-- An evaluation reports as oldest wait the longest wait of all tickets of all teams, and 0 where
-- none has waited, whatever the policy, the kind and the summaries of the existing teams.
pub evaluate-oldest_wait_millis :
    (now : Time) (teams : List (List MatchTicket)) (policy : MatchmakingPolicy)
    (kind : ProposalKind) (existing : List RosterTeamSummary) (e : Evaluation)
    → evaluate now teams policy kind existing ≡ some e
    → e.evidence.oldest_wait_millis ≡ longest_team_wait now teams (pos 0)
unfolding evaluate
evaluate-oldest_wait_millis now teams policy kind [] e h =
    let same = some-injective _ _ h in
    let oldest =
      evaluate_sides-oldest now (bare_sides teams) policy (is_new_match kind)
        (hard_violation teams policy kind) in
    cc (oldest, bare_sides-teams teams, ap (λ x. x.evidence.oldest_wait_millis) same)
evaluate-oldest_wait_millis now teams policy kind (s ∷ existing) e h =
    elim (Option-cases (beside (s ∷ existing) teams)) [
      | inl eq ↦ absurd (
          cc (
            h,
            ap
                (map_option
                  (λ ss. evaluate_sides now ss policy true (hard_violation teams policy kind)))
                eq,
          ))
      | inr (sides, eq) ↦
          let run =
            ap
              (map_option
                (λ ss. evaluate_sides now ss policy true (hard_violation teams policy kind)))
              eq in
          let same =
            some-injective (evaluate_sides now sides policy true (hard_violation teams policy kind))
              e (cc (h, run)) in
          let oldest =
            evaluate_sides-oldest now sides policy true (hard_violation teams policy kind) in
          cc (
            oldest,
            beside-teams (s ∷ existing) teams sides eq,
            ap (λ x. x.evidence.oldest_wait_millis) same,
          )
    ]
