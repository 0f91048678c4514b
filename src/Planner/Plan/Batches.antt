-- ===== src/Planner/Plan/Batches.antt =====
-- internal/planner/planner.go: the names in the batch that `Plan` returns.
use sema.Planner.Plan.Queue.{available_tickets, Candidate}
use sema.Planner.Candidates.{remove_placed}
use sema.Planner.Plan.{unmatched_tickets}
use sema.Planner.Proposal.{build_proposal, build_proposals}
use sema.Planner.{placed, ProposalCandidate, references}
use sema.Domain.Batch.{UnmatchedReason, UnmatchedTicket}
use sema.Planner.Batch.{supply, targets, ticket_ids, all_names, backfill_ids}
use sema.Base.{
  has, if◌then◌else◌, times-append, Member, arith, refl, length, suc, List, [], ◌∷◌, ◌++◌, Text,
  ◌≡◌, All, times, ℕ,
}
use sema.Domain.{MatchTicket, TicketRef, MatchmakingSnapshot, MatchProposal}

-- The names of the tickets and of the targets of some proposals, and those that are reported as
-- unmatched.
abbrev pub reference_ids : List TicketRef → List Text
reference_ids [] = []
reference_ids (r ∷ rs) = r.id ∷ reference_ids rs

abbrev pub proposed_tickets : List MatchProposal → List Text
proposed_tickets [] = []
proposed_tickets (p ∷ ps) = reference_ids p.tickets ++ proposed_tickets ps

abbrev pub proposed_targets : List MatchProposal → List Text
proposed_targets [] = []
proposed_targets (p ∷ ps) = backfill_ids p.target ++ proposed_targets ps

abbrev pub unmatched_ids : List UnmatchedTicket → List Text
unmatched_ids [] = []
unmatched_ids (u ∷ us) = u.ticket.id ∷ unmatched_ids us

reference_ids-references : (ts : List MatchTicket) → reference_ids (references ts) ≡ ticket_ids ts
unfolding references ticket_ids
reference_ids-references [] = refl
reference_ids-references (t ∷ ts) = cc (reference_ids-references ts)

pub unmatched_ids-unmatched_tickets :
    (reason : UnmatchedReason) (rejected : List Text) (ts : List MatchTicket)
    → unmatched_ids (unmatched_tickets reason rejected ts) ≡ ticket_ids ts
unfolding unmatched_tickets ticket_ids
unmatched_ids-unmatched_tickets reason rejected [] = refl
unmatched_ids-unmatched_tickets reason rejected (t ∷ ts) =
    cc (unmatched_ids-unmatched_tickets reason rejected ts)

module _ (digest : Text → Text) (s : MatchmakingSnapshot) (fingerprint : Text) where
  pub proposed_tickets-build_proposals :
      (index : ℕ) (cs : List ProposalCandidate)
      → proposed_tickets (build_proposals digest s fingerprint index cs) ≡ all_names supply cs
  unfolding build_proposals build_proposal all_names
  proposed_tickets-build_proposals index [] = refl
  proposed_tickets-build_proposals index (c ∷ cs) = cc (
    reference_ids-references (placed c.placement),
    proposed_tickets-build_proposals (suc index) cs,
  )

  pub proposed_targets-build_proposals :
      (index : ℕ) (cs : List ProposalCandidate)
      → proposed_targets (build_proposals digest s fingerprint index cs) ≡ all_names targets cs
  unfolding build_proposals build_proposal all_names
  proposed_targets-build_proposals index [] = refl
  proposed_targets-build_proposals index (c ∷ cs) =
      cc (proposed_targets-build_proposals (suc index) cs)

  pub length-build_proposals :
      (index : ℕ) (cs : List ProposalCandidate)
      → length (build_proposals digest s fingerprint index cs) ≡ length cs
  unfolding build_proposals
  length-build_proposals index [] = refl
  length-build_proposals index (c ∷ cs) = omega (arith, length-build_proposals (suc index) cs)

-- What is left once some names are taken away.
pub times-left :
    (k : Text) (names : List Text) (ts : List MatchTicket)
    → times k (ticket_ids (remove_placed ts names))
      ≡ (if has k names then 0 else times k (ticket_ids ts))
unfolding remove_placed ticket_ids times
times-left k names [] = ground arith
times-left k names (t ∷ ts) = ground (arith, times-left k names ts)

-- A selected name is available.
pub times-supply :
    (s : MatchmakingSnapshot) (k : Text) (cs : List ProposalCandidate)
    → All (Candidate (λ b. Member b s.backfill_tickets) s) cs
    → times k (ticket_ids (available_tickets s)) ≡ 0
    → times k (all_names supply cs) ≡ 0
unfolding all_names times
times-supply s k [] h none = refl
times-supply s k (c ∷ cs) h none = omega (
  arith,
  h.0.supplied k,
  none,
  times-append k (supply c) (all_names supply cs),
  times-supply s k cs h.1 none,
)
