-- ===== src/Examples/Data.antt =====
-- Two players who queue, are placed, and are reserved and confirmed.
use sema.Base.{true, Text, List, [], ◌∷◌, none, false, pos, bytes}
use sema.Domain.{
  MatchmakingPolicy, RelaxationStep, Time, MatchmakingSnapshot, Player, MatchTicket, ScoreEvidence,
  MatchProposal, active, new_match, Assignment, pending,
}
use sema.Coordinator.{Coordinator, ReservationRecord}
use sema.Coordinator.History.{Call, submits_match, reserves}

abbrev pub alice : Text
alice = bytes "alice"

abbrev pub bob : Text
bob = bytes "bob"

abbrev player : Text → Player
player name = record { id = name; skill = pos 1000; role = bytes "mid"; latency_millis = pos 40 }

abbrev pub ticket_a : MatchTicket
ticket_a = record {
  id = bytes "ta";
  revision = 1;
  enqueued_at = 1000000;
  players = player alice ∷ [];
}

abbrev pub ticket_b : MatchTicket
ticket_b = record {
  id = bytes "tb";
  revision = 1;
  enqueued_at = 3000000;
  players = player bob ∷ [];
}

abbrev pub no_evidence : ScoreEvidence
no_evidence = record {
  relaxation_level = pos 0;
  wait_priority = false;
  role_penalty = pos 0;
  team_skill_gap = pos 0;
  oldest_wait_millis = pos 0;
  total_wait_millis = pos 0;
  max_latency_millis = pos 0;
  candidate_tickets = pos 0;
  candidates_evaluated = pos 0;
  search_nodes = pos 0;
  candidate_window_truncated = false;
  search_truncated = false;
  selection_utility = pos 0;
}

abbrev proposal : Text → Text → MatchProposal
proposal id ticket = record {
  id = id;
  kind = new_match;
  policy_version = bytes "v1";
  policy_fingerprint = bytes "f";
  teams = record { team = pos 0; tickets = record { id = ticket; revision = 1 } ∷ [] } ∷ [];
  tickets = record { id = ticket; revision = 1 } ∷ [];
  target = none;
  evidence = no_evidence;
}

abbrev pub proposal_a : MatchProposal
proposal_a = proposal (bytes "pa") (bytes "ta")

abbrev pub proposal_b : MatchProposal
proposal_b = proposal (bytes "pb") (bytes "tb")

abbrev pub empty : Coordinator
empty = record {
  ttl = pos 10000000;
  match_tickets = [];
  backfill_tickets = [];
  player_tickets = [];
  ticket_reservations = [];
  backfill_reservations = [];
  reservations = [];
  assignments = [];
}

-- Both tickets are submitted and each is reserved.
abbrev pub bookings : List Call
bookings =
    submits_match ticket_a
    ∷ submits_match ticket_b
    ∷ reserves proposal_a (bytes "ra") 5000000
    ∷ reserves proposal_b (bytes "rb") 6000000
    ∷ []

abbrev pub booked : Text → MatchProposal → Time → ReservationRecord
booked id p expires_at = record {
  reservation = record {
    id = id;
    proposal_id = p.id;
    tickets = p.tickets;
    target = none;
    expires_at = expires_at;
    status = active;
  };
  proposal = p;
  assignment = [];
}

abbrev pub record_a : ReservationRecord
record_a = booked (bytes "ra") proposal_a 15000000

abbrev pub record_b : ReservationRecord
record_b = booked (bytes "rb") proposal_b 16000000

-- `record_a` as confirmed.
abbrev pub assignment_a : Assignment
assignment_a = record {
  id = bytes "aa";
  reservation_id = bytes "ra";
  proposal_id = bytes "pa";
  kind = new_match;
  teams = proposal_a.teams;
  target = none;
  confirmed_at = 7000000;
  status = pending;
  acknowledgment = none;
}

abbrev pub step : RelaxationStep
step = record {
  after_wait = pos 0;
  max_team_skill_gap = pos 100;
  max_role_penalty = pos 0;
  prioritize_wait = false;
}

-- After two milliseconds of waiting, service age comes first.
abbrev pub late_step : RelaxationStep
late_step = record {
  after_wait = pos 2000000;
  max_team_skill_gap = pos 500;
  max_role_penalty = pos 1;
  prioritize_wait = true;
}

abbrev pub policy : MatchmakingPolicy
policy = record {
  version = bytes "v1";
  team_count = pos 2;
  team_size = pos 1;
  max_latency_millis = pos 100;
  max_proposals = pos 8;
  max_search_nodes = pos 64;
  max_candidate_tickets = pos 0;
  max_candidates_per_proposal = pos 0;
  max_batch_candidates = pos 0;
  max_batch_search_nodes = pos 0;
  role_requirements = [];
  relaxation_steps = step ∷ late_step ∷ [];
}

-- What is left to plan with once the first reservation has expired.
abbrev pub later_snapshot : MatchmakingSnapshot
later_snapshot = record {
  id = bytes "s1";
  now = 15500000;
  match_tickets = ticket_a ∷ [];
  backfill_tickets = [];
  policy = policy;
}
