-- ===== src/Coordinator/Assignments/Cases.antt =====
-- The ways in which AcknowledgeAssignment ends, as a rule for what holds of every outcome.
use sema.Base.{
  Text, Option, none, some, Bool, true, false, ◌||◌, ◌≡◌, refl, inl, inr, is_blank, Bool-cases,
  arith,
}
use sema.Base.Map.{lookup, insert}
use sema.Domain.{
  Result-cases, Time, is_zero_time, Assignment, AssignmentStatus, pending, completed,
  AssignmentAcknowledgmentRequest, ok,
}
use sema.Domain.Proposal.{validate_assignment_acknowledgment, check_outcome}
use sema.Coordinator.{Coordinator}
use sema.Coordinator.Assignments.{
  acknowledged, acknowledge_pending, acknowledge_status, acknowledge_found, acknowledge_assignment,
}

abbrev pub is_pending : AssignmentStatus → Bool
is_pending pending = true
is_pending _ = false

-- An accepted outcome is a terminal one.
terminal_outcome :
    (a : Assignment) (request : AssignmentAcknowledgmentRequest) (s : AssignmentStatus)
    → check_outcome s a request ≡ ok tt
    → is_pending s ≡ false
unfolding check_outcome
terminal_outcome a request pending h = cc
terminal_outcome a request completed h = refl
terminal_outcome a request _ h = refl

checked :
    (a : Assignment) (request : AssignmentAcknowledgmentRequest)
    → validate_assignment_acknowledgment a request ≡ ok tt
    → check_outcome request.outcome a request ≡ ok tt
unfolding validate_assignment_acknowledgment
checked a request h = ground arith

-- AcknowledgeAssignment writes only a valid terminal outcome, over a pending assignment.
pub acknowledge_keeps {ℓ} :
    (P : Coordinator → Type ℓ) (c : Coordinator) (id : Text)
    (request : AssignmentAcknowledgmentRequest) (now : Time)
    → P c
    → ((a : Assignment)
        → lookup id c.assignments ≡ some a
        → is_pending a.status ≡ true
        → is_pending request.outcome ≡ false
        → P (record c { assignments = insert id (acknowledged a request now) c.assignments }))
    → P (acknowledge_assignment c id request now).0
unfolding acknowledge_assignment acknowledge_found acknowledge_pending
acknowledge_keeps P c id request now p write =
    elim (Bool-cases (is_blank id || is_blank request.operation_id || is_zero_time now)) [
      | inl e ↦ rw e p
      | inr e ↦ rw e (met (lookup id c.assignments) refl)
    ]
  where
    judged :
        (a : Assignment)
        → lookup id c.assignments ≡ some a
        → a.status ≡ pending
        → P (acknowledge_pending id a request now c).0
    judged a found s = elim (Result-cases (validate_assignment_acknowledgment a request)) [
      | inl (e, h) ↦ rw (h, acknowledge_pending) p
      | inr (_, h) ↦
          rw (h, acknowledge_pending)
            (write a found (ground arith)
              (terminal_outcome a request request.outcome (checked a request h)))
    ]

    by_status :
        (s : AssignmentStatus) (a : Assignment)
        → lookup id c.assignments ≡ some a
        → a.status ≡ s
        → P (acknowledge_status s id a request now c).0
    by_status pending a found s = unfold acknowledge_status in judged a found s
    by_status completed a found s = unfold acknowledge_status in p
    by_status _ a found s = unfold acknowledge_status in p

    met :
        (o : Option Assignment)
        → lookup id c.assignments ≡ o
        → P (acknowledge_found o id request now c).0
    met none h = p
    met (some a) h = by_status a.status a h refl
