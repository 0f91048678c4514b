-- ===== src/Coordinator/History.antt =====
-- Histories of calls. Each method of the coordinator holds its mutex from its first read of the
-- state to its last write, so the calls of any number of goroutines act one after the other.
pub mod Invariant
pub mod Safety
pub mod Terminal
pub mod Delivery
pub mod Once
pub mod Confirmed
use sema.Base.{Text, List, [], ◌∷◌}
use sema.Domain.{
  Time, Revision, MatchTicket, BackfillTicket, MatchmakingPolicy, MatchProposal,
  AssignmentAcknowledgmentRequest,
}
use sema.Coordinator.{Coordinator}
use sema.Coordinator.Tickets.{
  upsert_match_ticket, upsert_backfill_ticket, cancel_match_ticket, cancel_backfill_ticket,
}
use sema.Coordinator.Reservations.{reserve, cancel}
use sema.Coordinator.Confirmation.{confirm}
use sema.Coordinator.Assignments.{acknowledge_assignment}
use sema.Coordinator.Snapshot.{snapshot}

pub data Call : Type 0 where
  submits_match : MatchTicket → Call
  submits_backfill : BackfillTicket → Call
  withdraws_match : Text → Revision → Call
  withdraws_backfill : Text → Revision → Revision → Call
  snapshots : Text → Time → MatchmakingPolicy → Call
  reserves : MatchProposal → Text → Time → Call
  confirms : Text → Text → Time → Call
  acknowledges : Text → AssignmentAcknowledgmentRequest → Time → Call
  cancels : Text → Time → Call

-- The state that a call leaves, whatever it returns.
unfoldable pub perform : Call → Coordinator → Coordinator
perform (submits_match t) c = (upsert_match_ticket c t).0
perform (submits_backfill t) c = (upsert_backfill_ticket c t).0
perform (withdraws_match id revision) c = (cancel_match_ticket c id revision).0
perform (withdraws_backfill id revision roster) c = (cancel_backfill_ticket c id revision roster).0
perform (snapshots id now policy) c = (snapshot c id now policy).0
perform (reserves p id now) c = (reserve c p id now).0
perform (confirms reservation id now) c = (confirm c reservation id now).0
perform (acknowledges id request now) c = (acknowledge_assignment c id request now).0
perform (cancels id now) c = (cancel c id now).0

unfoldable pub run : List Call → Coordinator → Coordinator
run [] c = c
run (call ∷ calls) c = run calls (perform call c)
