-- ===== src/Domain/Batch.antt =====
-- internal/domain/model.go and validate.go: the result of a planning cycle, and references to
-- tickets.
use sema.Base.{Text, List, Bool, ℤ}
use sema.Domain.{TicketRef, BackfillTarget, MatchTicket, BackfillTicket, MatchProposal}

pub record BatchScoreEvidence : Type 0 where
  pub candidate_proposals : ℤ
  pub selected_proposals : ℤ
  pub selected_backfills : ℤ
  pub wait_priority_eligible_demands : ℤ
  pub wait_priority_selected_demands : ℤ
  pub oldest_wait_priority_millis : ℤ
  pub oldest_selected_priority_millis : ℤ
  pub total_utility : ℤ
  pub candidate_generation_nodes : ℤ
  pub candidate_generation_truncated : Bool
  pub selection_nodes : ℤ
  pub selection_truncated : Bool

pub data UnmatchedReason : Type 0 where
  hard_constraint insufficient_capacity quality_threshold : UnmatchedReason
  search_budget proposal_limit batch_objective : UnmatchedReason
  other_reason : Text → UnmatchedReason

pub record UnmatchedTicket : Type 0 where
  pub ticket : TicketRef
  pub reason : UnmatchedReason

pub record ProposalBatch : Type 0 where
  pub snapshot_id : Text
  pub proposals : List MatchProposal
  pub unmatched : List UnmatchedTicket
  pub budget_exhausted : Bool
  pub evidence : BatchScoreEvidence

abbrev pub ticket_reference : MatchTicket → TicketRef
ticket_reference t = record { id = t.id; revision = t.revision }

abbrev pub backfill_reference : BackfillTicket → BackfillTarget
backfill_reference t = record {
  ticket = record { id = t.id; revision = t.revision };
  session_id = t.session_id;
  roster_version = t.roster_version;
}
