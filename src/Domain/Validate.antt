-- ===== src/Domain/Validate.antt =====
-- internal/domain/validate.go: what a value must satisfy before a component accepts it.
-- Every refusal but one carries the code `invalid_input`.
use sema.Base.{
  Text, is_blank, ℤ, pos, ℤ-discrete, ltb_ℤ, leb_ℤ, is_negative, is_not_positive, is_zero, ◌+ℤ◌,
  List, [], ◌∷◌, length, not, ◌&&◌, ◌||◌, holds, has, ltb, ◌==◌, if◌then◌else◌,
}
use sema.Domain.{
  Time, is_zero_time, Player, MatchTicket, RoleCount, RosterTeamSummary, BackfillTicket,
  RoleRequirement, RelaxationStep, MatchmakingPolicy, MatchmakingSnapshot, invalid_input, Result,
  ok, ◌>>=◌, ◌>>◌, fail_if,
}

unfoldable pub check_requirements : ℤ → List Text → List RoleRequirement → Result (Unit {0})
check_requirements team_size roles [] = ok tt
check_requirements team_size roles (r ∷ rs) = do
  fail_if (is_blank r.role || is_not_positive r.min_per_team || ltb_ℤ team_size r.min_per_team)
      invalid_input
  fail_if (has r.role roles) invalid_input
  check_requirements team_size (r.role ∷ roles) rs

-- The loop from index 1, with the step before.
unfoldable pub check_later_steps : RelaxationStep → List RelaxationStep → Result (Unit {0})
check_later_steps previous [] = ok tt
check_later_steps previous (current ∷ rest) = do
  fail_if (leb_ℤ current.after_wait previous.after_wait) invalid_input
  fail_if
      (ltb_ℤ current.max_team_skill_gap previous.max_team_skill_gap
        || ltb_ℤ current.max_role_penalty previous.max_role_penalty)
      invalid_input
  fail_if (previous.prioritize_wait && not current.prioritize_wait) invalid_input
  check_later_steps current rest

unfoldable pub check_steps : List RelaxationStep → Result (Unit {0})
check_steps [] = ok tt
check_steps (first ∷ rest) = do
  fail_if (not (is_zero first.after_wait)) invalid_input
  fail_if (is_negative first.max_team_skill_gap || is_negative first.max_role_penalty) invalid_input
  check_later_steps first rest

unfoldable pub validate_policy : MatchmakingPolicy → Result (Unit {0})
validate_policy p = do
  fail_if (is_blank p.version) invalid_input
  fail_if (is_not_positive p.team_count || is_not_positive p.team_size) invalid_input
  fail_if (is_not_positive p.max_latency_millis) invalid_input
  fail_if
      (is_negative p.max_proposals
        || is_negative p.max_search_nodes
        || is_negative p.max_candidate_tickets
        || is_negative p.max_candidates_per_proposal
        || is_negative p.max_batch_candidates
        || is_negative p.max_batch_search_nodes)
      invalid_input
  check_requirements p.team_size [] p.role_requirements
  check_steps p.relaxation_steps

unfoldable pub check_players : List Text → List Player → Result (Unit {0})
check_players seen [] = ok tt
check_players seen (p ∷ ps) = do
  fail_if (is_blank p.id) invalid_input
  fail_if (is_negative p.skill || is_negative p.latency_millis) invalid_input
  fail_if (has p.id seen) invalid_input
  check_players (p.id ∷ seen) ps

unfoldable pub validate_match_ticket : MatchTicket → Result (Unit {0})
validate_match_ticket t = do
  fail_if (is_blank t.id || t.revision == 0) invalid_input
  fail_if (is_zero_time t.enqueued_at) invalid_input
  fail_if (length t.players == 0) invalid_input
  check_players [] t.players

-- `total`, or the refusal of a negative count.
unfoldable pub total_slots : ℤ → List ℤ → Result ℤ
total_slots total [] = ok total
total_slots total (slots ∷ rest) = do
  fail_if (is_negative slots) invalid_input
  total_slots (total +ℤ slots) rest

unfoldable pub check_role_counts : List Text → ℤ → List RoleCount → Result ℤ
check_role_counts roles role_players [] = ok role_players
check_role_counts roles role_players (r ∷ rs) = do
  fail_if (is_blank r.role || is_negative r.count) invalid_input
  fail_if (has r.role roles) invalid_input
  check_role_counts (r.role ∷ roles) (role_players +ℤ r.count) rs

unfoldable pub check_existing_teams : List RosterTeamSummary → Result (Unit {0})
check_existing_teams [] = ok tt
check_existing_teams (t ∷ ts) = do
  fail_if
      (is_negative t.player_count || is_negative t.skill_total || is_negative t.max_latency_millis)
      invalid_input
  role_players ← check_role_counts [] (pos 0) t.role_counts
  fail_if (ltb_ℤ t.player_count role_players) invalid_input
  check_existing_teams ts

unfoldable pub validate_backfill_ticket : BackfillTicket → Result (Unit {0})
validate_backfill_ticket t = do
  fail_if (is_blank t.id || t.revision == 0) invalid_input
  fail_if (is_blank t.session_id || t.roster_version == 0) invalid_input
  fail_if (is_zero_time t.enqueued_at) invalid_input
  fail_if (length t.open_slots_by_team == 0) invalid_input
  total ← total_slots (pos 0) t.open_slots_by_team
  fail_if (is_zero total) invalid_input
  fail_if
      (ltb 0 (length t.existing_teams)
        && not (length t.existing_teams == length t.open_slots_by_team))
      invalid_input
  check_existing_teams t.existing_teams

-- The inner loop of the snapshot over one ticket's players; it returns the players seen so far.
unfoldable pub claim_players : List Text → List Player → Result (List Text)
claim_players players [] = ok players
claim_players players (p ∷ ps) = do
  fail_if (has p.id players) invalid_input
  claim_players (p.id ∷ players) ps

-- The loop over the match tickets; it returns the ticket names seen.
unfoldable pub check_match_tickets :
    Time → List Text → List Text → List MatchTicket → Result (List Text)
check_match_tickets now tickets players [] = ok tickets
check_match_tickets now tickets players (t ∷ ts) = do
  validate_match_ticket t
  fail_if (ltb now t.enqueued_at) invalid_input
  fail_if (has t.id tickets) invalid_input
  players' ← claim_players players t.players
  check_match_tickets now (t.id ∷ tickets) players' ts

-- The loop over the vacancies of one demand without a roster, and with one. The lists of the
-- second have one length, which `validate_backfill_ticket` has checked.
unfoldable pub check_vacancies : ℤ → List ℤ → Result (Unit {0})
check_vacancies team_size [] = ok tt
check_vacancies team_size (slots ∷ rest) = do
  fail_if (ltb_ℤ team_size slots) invalid_input
  check_vacancies team_size rest

unfoldable pub check_roster_vacancies : ℤ → List ℤ → List RosterTeamSummary → Result (Unit {0})
check_roster_vacancies team_size [] teams = ok tt
check_roster_vacancies team_size (slots ∷ rest) [] = ok tt
check_roster_vacancies team_size (slots ∷ rest) (t ∷ ts) = do
  fail_if (ltb_ℤ team_size slots) invalid_input
  fail_if (not (holds (ℤ-discrete (t.player_count +ℤ slots) team_size))) invalid_input
  check_roster_vacancies team_size rest ts

unfoldable pub check_backfill_tickets :
    Time → MatchmakingPolicy → List Text → List BackfillTicket → Result (Unit {0})
check_backfill_tickets now policy tickets [] = ok tt
check_backfill_tickets now policy tickets (t ∷ ts) = do
  validate_backfill_ticket t
  fail_if (ltb now t.enqueued_at) invalid_input
  fail_if (not (holds (ℤ-discrete (pos (length t.open_slots_by_team)) policy.team_count)))
      invalid_input
  if ltb 0 (length t.existing_teams)
      then check_roster_vacancies policy.team_size t.open_slots_by_team t.existing_teams
      else check_vacancies policy.team_size t.open_slots_by_team
  fail_if (has t.id tickets) invalid_input
  check_backfill_tickets now policy (t.id ∷ tickets) ts

unfoldable pub validate_snapshot : MatchmakingSnapshot → Result (Unit {0})
validate_snapshot s = do
  fail_if (is_blank s.id || is_zero_time s.now) invalid_input
  validate_policy s.policy
  tickets ← check_match_tickets s.now [] [] s.match_tickets
  check_backfill_tickets s.now s.policy tickets s.backfill_tickets
