-- ===== src/Domain/Proposal.antt =====
-- internal/domain/validate.go: proposals, and the acknowledgment of an assignment.
use sema.Base.{
  ℕ, suc, Text, is_blank, pos, ℤ-discrete, List, [], ◌∷◌, ◌++◌, length, Option, none, some, Bool,
  true, false, not, ◌&&◌, ◌||◌, holds, has, leb, ◌==◌, if◌then◌else◌, Text-discrete,
}
use sema.Domain.{
  TicketRef, BackfillTarget, ProposalKind, new_match, backfill, other_kind, TeamAssignment,
  MatchProposal, Assignment, AssignmentStatus, pending, other_status,
  AssignmentAcknowledgmentRequest, FailureCode, no_failure, invalid_input, stale_snapshot,
  other_failure, Result, ok, err, ◌>>=◌, ◌>>◌, fail_if, TicketRefs-discrete,
}

-- The names seen and the references placed, in order.
unfoldable pub check_refs :
    List Text → List TicketRef → List TicketRef → Result (List Text × List TicketRef)
check_refs seen flattened [] = ok (seen, flattened)
check_refs seen flattened (r ∷ rs) = do
  fail_if (is_blank r.id || r.revision == 0) invalid_input
  fail_if (has r.id seen) invalid_input
  check_refs (r.id ∷ seen) (flattened ++ r ∷ []) rs

unfoldable pub check_teams :
    ℕ → List Text → List TicketRef → List TeamAssignment → Result (List Text × List TicketRef)
check_teams index seen flattened [] = ok (seen, flattened)
check_teams index seen flattened (t ∷ ts) = do
  fail_if (not (holds (ℤ-discrete t.team (pos index)))) invalid_input
  (seen', flattened') ← check_refs seen flattened t.tickets
  check_teams (suc index) seen' flattened' ts

-- A target must be complete, and is not supply of its own proposal.
unfoldable pub check_target : List Text → Option BackfillTarget → Result (Unit {0})
check_target seen none = ok tt
check_target seen (some target) = do
  fail_if
      (is_blank target.ticket.id
        || target.ticket.revision == 0
        || is_blank target.session_id
        || target.roster_version == 0)
      invalid_input
  fail_if (has target.ticket.id seen) invalid_input

-- A backfill proposal has a target, a new match has none, and there is no third kind.
abbrev pub kind_fits : ProposalKind → Option BackfillTarget → Bool
kind_fits new_match none = true
kind_fits new_match (some _) = false
kind_fits backfill none = false
kind_fits backfill (some _) = true
kind_fits (other_kind _) _ = false

abbrev pub is_known_kind : ProposalKind → Bool
is_known_kind (other_kind _) = false
is_known_kind _ = true

unfoldable pub validate_proposal : MatchProposal → Result (Unit {0})
validate_proposal p = do
  fail_if (is_blank p.id || is_blank p.policy_version || is_blank p.policy_fingerprint)
      invalid_input
  fail_if (not (is_known_kind p.kind)) invalid_input
  fail_if (length p.teams == 0 || length p.tickets == 0) invalid_input
  fail_if (not (kind_fits p.kind p.target)) invalid_input
  (seen, flattened) ← check_teams 0 [] [] p.teams
  fail_if (not (holds (TicketRefs-discrete flattened p.tickets))) invalid_input
  check_target seen p.target

-- `ValidFailureCode`.
abbrev pub valid_failure_code : FailureCode → Bool
valid_failure_code no_failure = false
valid_failure_code (other_failure _) = false
valid_failure_code _ = true

abbrev pub is_no_failure : FailureCode → Bool
is_no_failure no_failure = true
is_no_failure _ = false

abbrev pub is_stale_snapshot : FailureCode → Bool
is_stale_snapshot stale_snapshot = true
is_stale_snapshot _ = false

abbrev pub is_backfill : ProposalKind → Bool
is_backfill backfill = true
is_backfill _ = false

unfoldable pub has_acknowledged_roster_detail : AssignmentAcknowledgmentRequest → Bool
has_acknowledged_roster_detail r =
    not (is_blank r.session_id)
    || not (r.expected_roster_version == 0)
    || not (r.resulting_roster_version == 0)

-- `assignment.Backfill == nil || …`, for the target of the assignment.
unfoldable pub roster_differs : Option BackfillTarget → AssignmentAcknowledgmentRequest → Bool
roster_differs none r = true
roster_differs (some target) r =
    not (holds (Text-discrete r.session_id target.session_id))
    || not (r.expected_roster_version == target.roster_version)

unfoldable pub validate_acknowledged_backfill_versions :
    Assignment → AssignmentAcknowledgmentRequest → Result (Unit {0})
validate_acknowledged_backfill_versions a r = do
  fail_if (roster_differs a.target r) stale_snapshot
  fail_if (leb r.resulting_roster_version r.expected_roster_version) invalid_input

-- The `switch` on the outcome.
unfoldable pub check_outcome :
    AssignmentStatus → Assignment → AssignmentAcknowledgmentRequest → Result (Unit {0})
check_outcome AssignmentStatus.completed a r = do
  fail_if (not (is_no_failure r.failure_code) || not (is_blank r.reason)) invalid_input
  if is_backfill a.kind
      then validate_acknowledged_backfill_versions a r
      else fail_if (has_acknowledged_roster_detail r) invalid_input
check_outcome AssignmentStatus.cancelled a r =
    fail_if
      (is_blank r.reason || not (is_no_failure r.failure_code) || has_acknowledged_roster_detail r)
      invalid_input
check_outcome AssignmentStatus.failed a r = do
  fail_if (not (valid_failure_code r.failure_code) || is_blank r.reason) invalid_input
  if is_backfill a.kind && is_stale_snapshot r.failure_code
      then validate_acknowledged_backfill_versions a r
      else fail_if (has_acknowledged_roster_detail r) invalid_input
check_outcome pending a r = err invalid_input
check_outcome (other_status _) a r = err invalid_input

unfoldable pub validate_assignment_acknowledgment :
    Assignment → AssignmentAcknowledgmentRequest → Result (Unit {0})
validate_assignment_acknowledgment a r = do
  fail_if (is_blank r.operation_id) invalid_input
  check_outcome r.outcome a r
