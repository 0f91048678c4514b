-- ===== src/Constraint.antt =====
-- internal/constraint/constraint.go: the rules that no score can relax.
use sema.Base.{
  Text, Text-discrete, List, [], ◌∷◌, Bool, true, false, ◌&&◌, ℤ, pos, ltb_ℤ, ◌+ℤ◌, length, holds,
  if◌then◌else◌,
}
use sema.Domain.{Player, MatchTicket, RoleRequirement, MatchmakingPolicy, ProposalKind, new_match}

unfoldable pub latency_within : ℤ → List Player → Bool
latency_within limit [] = true
latency_within limit (p ∷ ps) =
    if ltb_ℤ limit p.latency_millis then false else latency_within limit ps

unfoldable pub ticket_allowed : MatchTicket → ℤ → ℤ → Bool
ticket_allowed t max_party_size max_latency =
    if ltb_ℤ max_party_size (pos (length t.players))
    then false
    else latency_within max_latency t.players

-- The count of a role among the players of a team: `roleCounts[role]`.
unfoldable pub role_count_from : Text → ℤ → List Player → ℤ
role_count_from role n [] = n
role_count_from role n (p ∷ ps) =
    role_count_from role (if holds (Text-discrete p.role role) then n +ℤ pos 1 else n) ps

unfoldable pub team_role_count : Text → ℤ → List MatchTicket → ℤ
team_role_count role n [] = n
team_role_count role n (t ∷ ts) = team_role_count role (role_count_from role n t.players) ts

unfoldable pub any_hard : List RoleRequirement → Bool
any_hard [] = false
any_hard (r ∷ rs) = if r.hard then true else any_hard rs

unfoldable pub team_latency_within : ℤ → List MatchTicket → Bool
team_latency_within limit [] = true
team_latency_within limit (t ∷ ts) = latency_within limit t.players && team_latency_within limit ts

-- The loop over the requirements for one team.
unfoldable pub misses_hard_role : List MatchTicket → List RoleRequirement → Bool
misses_hard_role team [] = false
misses_hard_role team (r ∷ rs) =
    if r.hard && ltb_ℤ (team_role_count r.role (pos 0) team) r.min_per_team
    then true
    else misses_hard_role team rs

unfoldable pub has_hard_role : MatchmakingPolicy → ProposalKind → Bool
has_hard_role policy new_match = any_hard policy.role_requirements
has_hard_role policy _ = false

unfoldable pub team_violates : Bool → MatchmakingPolicy → List MatchTicket → Bool
team_violates hard policy team =
    if team_latency_within policy.max_latency_millis team
    then hard && misses_hard_role team policy.role_requirements
    else true

unfoldable pub teams_violate : Bool → MatchmakingPolicy → List (List MatchTicket) → Bool
teams_violate hard policy [] = false
teams_violate hard policy (team ∷ teams) =
    if team_violates hard policy team then true else teams_violate hard policy teams

unfoldable pub hard_violation : List (List MatchTicket) → MatchmakingPolicy → ProposalKind → Bool
hard_violation teams policy kind = teams_violate (has_hard_role policy kind) policy teams
