-- ===== src/Coordinator/Assignments.antt =====
-- internal/coordinator/coordinator.go: AcknowledgeAssignment and Assignment.
pub mod Cases
pub mod Unique
use sema.Base.{Text, Text-discrete, Option, none, some, ◌||◌, holds, is_blank, if◌then◌else◌}
use sema.Base.Map.{lookup, insert}
use sema.Domain.{
  Time, is_zero_time, Assignment, AssignmentStatus, pending, completed, failed, other_status,
  AssignmentAcknowledgment, AssignmentAcknowledgmentRequest,
  AssignmentAcknowledgmentRequest-discrete, invalid_input, invalid_transition, idempotency_conflict,
  Result, ok, err,
}
use sema.Domain.Proposal.{validate_assignment_acknowledgment}
use sema.Coordinator.{Coordinator}

-- A request for an assignment that is not pending: only the recorded one may be repeated.
unfoldable pub replay_acknowledgment :
    Option AssignmentAcknowledgment
    → Assignment
    → AssignmentAcknowledgmentRequest
    → Result Assignment
replay_acknowledgment none a request = err invalid_transition
replay_acknowledgment (some recorded) a request =
    if holds (Text-discrete recorded.request.operation_id request.operation_id)
    then (if holds (AssignmentAcknowledgmentRequest-discrete recorded.request request)
        then ok a
        else err idempotency_conflict)
    else err invalid_transition

abbrev pub acknowledged : Assignment → AssignmentAcknowledgmentRequest → Time → Assignment
acknowledged a request now = record a {
  status = request.outcome;
  acknowledgment = some (record { request = request; acknowledged_at = now });
}

unfoldable pub acknowledge_pending :
    Text
    → Assignment
    → AssignmentAcknowledgmentRequest
    → Time
    → Coordinator
    → Coordinator × Result Assignment
acknowledge_pending id a request now c = elim (validate_assignment_acknowledgment a request) [
  | err e ↦ (c, err e)
  | ok _ ↦ (
    record c { assignments = insert id (acknowledged a request now) c.assignments },
    ok (acknowledged a request now),
  )
]

unfoldable pub acknowledge_status :
    AssignmentStatus
    → Text
    → Assignment
    → AssignmentAcknowledgmentRequest
    → Time
    → Coordinator
    → Coordinator × Result Assignment
acknowledge_status pending id a request now c = acknowledge_pending id a request now c
acknowledge_status completed id a request now c =
    (c, replay_acknowledgment a.acknowledgment a request)
acknowledge_status _ id a request now c = (c, replay_acknowledgment a.acknowledgment a request)

unfoldable pub acknowledge_found :
    Option Assignment
    → Text
    → AssignmentAcknowledgmentRequest
    → Time
    → Coordinator
    → Coordinator × Result Assignment
acknowledge_found none id request now c = (c, err invalid_transition)
acknowledge_found (some a) id request now c = acknowledge_status a.status id a request now c

unfoldable pub acknowledge_assignment :
    Coordinator → Text → AssignmentAcknowledgmentRequest → Time → Coordinator × Result Assignment
acknowledge_assignment c id request now =
    if is_blank id || is_blank request.operation_id || is_zero_time now
    then (c, err invalid_input)
    else acknowledge_found (lookup id c.assignments) id request now c

-- `Assignment`.
unfoldable pub assignment : Coordinator → Text → Option Assignment
assignment c id = lookup id c.assignments
