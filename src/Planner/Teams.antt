-- ===== src/Planner/Teams.antt =====
-- internal/planner/planner.go: the teams of a placement search, and where a ticket may go.
use Prim.Native.Nat.{compare}
use sema.Base.{
  ℕ, zero, suc, List, [], ◌∷◌, ◌++◌, Option, none, some, Bool, true, false, ◌&&◌, ℤ, pos, ltb_ℤ,
  ◌==◌, length, ◌+ℤ◌, ◌-ℤ◌, holds, ℤ-discrete, if◌then◌else◌,
}
use sema.Base.Sort.{sort}
use sema.Domain.{MatchTicket}
use sema.Objective.{compare_int, or_else}
use sema.Planner.{Placement, total_skill, is_lt}

-- One team of the search: its parts of `remaining`, `teamSkills` and `assigned`, where an index
-- into the tickets stands with the ticket at it.
pub record Team : Type 0 where
  pub remaining : ℤ
  pub skill : ℤ
  pub assigned : List (ℕ × MatchTicket)

unfoldable pub seats : List (ℕ × MatchTicket) → List MatchTicket
seats [] = []
seats ((i, t) ∷ rest) = t ∷ seats rest

unfoldable pub materialize_placement : List Team → Placement
materialize_placement [] = []
materialize_placement (team ∷ teams) = seats team.assigned ∷ materialize_placement teams

unfoldable pub contains_index : ℕ → List (ℕ × MatchTicket) → Bool
contains_index i [] = false
contains_index i ((j, t) ∷ rest) = if j == i then true else contains_index i rest

unfoldable pub placement_includes_index : ℕ → List Team → Bool
placement_includes_index i [] = false
placement_includes_index i (team ∷ teams) =
    if contains_index i team.assigned then true else placement_includes_index i teams

unfoldable pub skills_of : List Team → List ℤ
skills_of [] = []
skills_of (team ∷ teams) = team.skill ∷ skills_of teams

-- `projectedSkillSpread` after its first team; `n` counts down to the target.
unfoldable pub spread_from : ℤ → ℤ → Option ℕ → ℤ → List ℤ → ℤ
spread_from low high target added [] = high -ℤ low
spread_from low high (some zero) added (s ∷ ss) =
    spread_from (if ltb_ℤ (s +ℤ added) low then s +ℤ added else low)
      (if ltb_ℤ high (s +ℤ added) then s +ℤ added else high) none added ss
spread_from low high (some (suc n)) added (s ∷ ss) =
    spread_from (if ltb_ℤ s low then s else low) (if ltb_ℤ high s then s else high) (some n) added
      ss
spread_from low high none added (s ∷ ss) =
    spread_from (if ltb_ℤ s low then s else low) (if ltb_ℤ high s then s else high) none added ss

unfoldable pub projected_skill_spread : List ℤ → ℕ → ℤ → ℤ
projected_skill_spread [] target added = pos 0
projected_skill_spread (s ∷ ss) zero added = spread_from (s +ℤ added) (s +ℤ added) none added ss
projected_skill_spread (s ∷ ss) (suc n) added = spread_from s s (some n) added ss

pub record TeamCandidate : Type 0 where
  pub team : ℕ
  pub spread : ℤ

abbrev pub team_candidate_less : TeamCandidate → TeamCandidate → Bool
team_candidate_less a b = is_lt (or_else (compare_int a.spread b.spread) (compare a.team b.team))

-- The loop of `candidateTeams` from the team with some index on.
unfoldable pub open_teams : List ℤ → ℤ → ℤ → ℕ → List Team → List TeamCandidate
open_teams skills party_size party_skill index [] = []
open_teams skills party_size party_skill index (team ∷ teams) =
    let rest = open_teams skills party_size party_skill (suc index) teams in
    if ltb_ℤ team.remaining party_size
    then rest
    else record { team = index; spread = projected_skill_spread skills index party_skill } ∷ rest

unfoldable pub candidate_teams : List Team → ℤ → ℤ → List TeamCandidate
candidate_teams teams party_size party_skill =
    sort team_candidate_less (open_teams (skills_of teams) party_size party_skill 0 teams)

-- `remaining[team]` and `teamSkills[team]`.
unfoldable pub state_of : List Team → ℕ → ℤ × ℤ
state_of [] i = (pos 0, pos 0)
state_of (team ∷ teams) zero = (team.remaining, team.skill)
state_of (team ∷ teams) (suc i) = state_of teams i

unfoldable pub seen_state : ℤ × ℤ → List (ℤ × ℤ) → Bool
seen_state (r, s) [] = false
seen_state (r, s) ((r', s') ∷ seen) =
    if holds (ℤ-discrete r r') && holds (ℤ-discrete s s') then true else seen_state (r, s) seen

-- The ticket with some index joins the team with some index.
unfoldable pub assign : List Team → ℕ → ℕ → MatchTicket → List Team
assign [] team index t = []
assign (x ∷ xs) zero index t =
    record {
      remaining = x.remaining -ℤ pos (length t.players);
      skill = x.skill +ℤ total_skill (pos 0) t.players;
      assigned = x.assigned ++ (index, t) ∷ [];
    }
    ∷ xs
assign (x ∷ xs) (suc team) index t = x ∷ assign xs team index t

-- `remaining`, `teamSkills` and `assigned` at the start.
unfoldable pub fresh_teams : List ℤ → List Team
fresh_teams [] = []
fresh_teams (s ∷ ss) = record { remaining = s; skill = pos 0; assigned = [] } ∷ fresh_teams ss
