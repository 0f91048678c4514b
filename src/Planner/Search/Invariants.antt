-- ===== src/Planner/Search/Invariants.antt =====
-- internal/planner/planner.go: what every step of `search` keeps, `findBestPlacement` keeps.
use sema.Base.{
  ◌<◌, ap, arith, ◌∙◌, subst, sym, if_branches, ◌+◌, branches, ℕ, suc, List, [], ◌∷◌, Bool, true,
  false, ◌≡◌, ℤ, pos, ltb_ℤ, All, is_zero, length, ◌-ℤ◌,
}
use sema.Base.Sort.{All-sort}
use sema.Domain.{MatchTicket}
use sema.Planner.Teams.{
  Team, TeamCandidate, assign, candidate_teams, open_teams, state_of, skills_of, seen_state,
  team_candidate_less,
}
use sema.Planner.Placement.{Query, Run, complete}
use sema.Planner.Search.{try_teams, can_visit, exhaust, visit, is_required, search}
use sema.Planner.{total_skill}
use sema.Planner.Batch.Quality.{players_of}

-- A team with room for so many players.
abbrev pub HasRoom : List Team → ℤ → TeamCandidate → Type 0
HasRoom teams size c = (ltb_ℤ (state_of teams c.team).0 size ≡ false) × (c.team < length teams)

-- The teams from some index on.
All-open_teams :
    (all : List Team) (skills : List ℤ) (size party_skill : ℤ) (index : ℕ) (teams : List Team)
    → index + length teams ≡ length all
    → ((i : ℕ) → state_of all (index + i) ≡ state_of teams i)
    → All (HasRoom all size) (open_teams skills size party_skill index teams)
unfolding open_teams state_of
All-open_teams all skills size party_skill index [] l h = tt
All-open_teams all skills size party_skill index (team ∷ teams) l h =
    let rest =
      All-open_teams all skills size party_skill (suc index) teams (omega (arith, l))
        (λ i. ap (state_of all) (omega arith) ∙ h (suc i)) in
    let here : state_of all index ≡ (team.remaining, team.skill) =
      ap (state_of all) (omega arith) ∙ h 0 in
    if_branches (All (HasRoom all size)) (ltb_ℤ team.remaining size) (λ _. rest)
      (λ room. ((subst (λ st. ltb_ℤ st.0 size ≡ false) (sym here) room, omega (arith, l)), rest))

All-candidate_teams :
    (teams : List Team) (size party_skill : ℤ)
    → All (HasRoom teams size) (candidate_teams teams size party_skill)
unfolding candidate_teams
All-candidate_teams teams size party_skill =
    All-sort team_candidate_less (HasRoom teams size)
      (open_teams (skills_of teams) size party_skill 0 teams)
      (All-open_teams teams (skills_of teams) size party_skill 0 teams (omega arith)
        (λ i. ap (state_of teams) (omega arith)))

-- `Fits` holds of the teams and the tickets that are left, and `Sound` of the rest.
module _ {ℓ κ} (q : Query) (Fits : ℤ → List Team → List MatchTicket → Type ℓ) (Sound : Run → Type κ)
    (on_exhaust : (run : Run) → Sound run → Sound (exhaust run))
    (on_visit : (run : Run) → can_visit run.budget ≡ true → Sound run → Sound (visit run))
    (on_complete : (needed : ℤ) (teams : List Team) (ts : List MatchTicket) (run : Run)
      → is_zero needed ≡ true
      → Fits needed teams ts
      → Sound run
      → Sound (complete q teams run).1)
    (on_assign : (needed : ℤ) (teams : List Team) (team index : ℕ) (t : MatchTicket)
        (ts : List MatchTicket)
      → ltb_ℤ (state_of teams team).0 (pos (length t.players)) ≡ false
      → team < length teams
      → Fits needed teams (t ∷ ts)
      → Fits (needed -ℤ pos (length t.players)) (assign teams team index t) ts)
    (on_skip : (needed : ℤ) (teams : List Team) (t : MatchTicket) (ts : List MatchTicket)
      → Fits needed teams (t ∷ ts)
      → Fits needed teams ts) where
  try_teams-keeps :
      (needed : ℤ) (descend : List Team → Run → Bool × Run) (teams : List Team) (index : ℕ)
      (t : MatchTicket) (ts : List MatchTicket) (seen : List (ℤ × ℤ)) (cs : List TeamCandidate)
      (run : Run)
      → ((teams' : List Team) (run' : Run)
          → Fits (needed -ℤ pos (length t.players)) teams' ts
          → Sound run'
          → Sound (descend teams' run').1)
      → All (HasRoom teams (pos (length t.players))) cs
      → Fits needed teams (t ∷ ts)
      → Sound run
      → Sound (try_teams descend teams index t seen cs run).1
  unfolding try_teams
  try_teams-keeps needed descend teams index t ts seen [] run go room fits sound = sound
  try_teams-keeps needed descend teams index t ts seen (c ∷ cs) run go room fits sound =
      let sound' =
        go (assign teams c.team index t) run
          (on_assign needed teams c.team index t ts room.0.0 room.0.1 fits) sound in
      branches {A = Bool × Run} (λ r. Sound r.1) (seen_state (state_of teams c.team) seen)
        (λ _. try_teams-keeps needed descend teams index t ts seen cs run go room.1 fits sound)
        (λ _.
          branches {A = Bool × Run} (λ r. Sound r.1) (descend (assign teams c.team index t) run).0
            (λ _. sound')
            (λ _.
              try_teams-keeps needed descend teams index t ts (state_of teams c.team ∷ seen) cs
                (descend (assign teams c.team index t) run).1 go room.1 fits sound'))

  pub search-keeps :
      (ts : List MatchTicket) (index : ℕ) (needed : ℤ) (teams : List Team) (run : Run)
      → Fits needed teams ts
      → Sound run
      → Sound (search q ts index needed teams run).1
  unfolding search
  search-keeps [] index needed teams run fits sound =
      branches {A = Bool × Run} (λ r. Sound r.1) (can_visit run.budget)
        (λ h.
          branches {A = Bool × Run} (λ r. Sound r.1) (is_zero needed)
            (λ z. on_complete needed teams [] (visit run) z fits (on_visit run h sound))
            (λ _. on_visit run h sound))
        (λ _. on_exhaust run sound)
  search-keeps (t ∷ ts) index needed teams run fits sound =
      branches {A = Bool × Run} (λ r. Sound r.1) (can_visit run.budget)
        (λ h.
          let visited = on_visit run h sound in
          let size = pos (length t.players) in
          let outcome =
            try_teams (search q ts (suc index) (needed -ℤ size)) teams index t []
              (candidate_teams teams size (total_skill (pos 0) t.players)) (visit run) in
          let tried : Sound outcome.1 =
            try_teams-keeps needed (search q ts (suc index) (needed -ℤ size)) teams index t ts []
              (candidate_teams teams size (total_skill (pos 0) t.players)) (visit run)
              (λ teams' run' fits' sound'.
                search-keeps ts (suc index) (needed -ℤ size) teams' run' fits' sound')
              (All-candidate_teams teams size (total_skill (pos 0) t.players)) fits visited in
          branches {A = Bool × Run} (λ r. Sound r.1) (is_zero needed)
            (λ z. on_complete needed teams (t ∷ ts) (visit run) z fits visited)
            (λ _.
              branches {A = Bool × Run} (λ r. Sound r.1) (ltb_ℤ (pos (players_of (t ∷ ts))) needed)
                (λ _. visited)
                (λ _.
                  branches {A = Bool × Run} (λ r. Sound r.1) outcome.0 (λ _. tried)
                    (λ _.
                      branches {A = Bool × Run} (λ r. Sound r.1) (is_required index q.required)
                        (λ _. tried)
                        (λ _.
                          search-keeps ts (suc index) needed teams outcome.1
                            (on_skip needed teams t ts fits) tried)))))
        (λ _. on_exhaust run sound)
