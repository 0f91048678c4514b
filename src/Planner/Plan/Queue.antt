-- ===== src/Planner/Plan/Queue.antt =====
-- internal/planner/planner.go: the tickets that a cycle of `Plan` works with, its limits, and what
-- it generates and selects.
use sema.Planner.Plan.{ticket_less, rejected_tickets}
use sema.Domain.Snapshots.{match_names}
use sema.Base.Sort.{insert_sorted, sort}
use sema.Planner.Collect.Shapes.{IsCandidate}
use sema.Planner.{ProposalCandidate}
use sema.Planner.Placement.{SearchBudget}
use sema.Planner.Batch.{ticket_ids, BatchSelection}
use sema.Planner.Candidates.{CandidateGeneration}
use sema.Planner.Plan.{
  sort_backfills, allowed_tickets, generation_of, small_queue_expanded_search, plan_limits,
  selection_of, sort_tickets, PlanLimits,
}
use sema.Base.{if_branches, refl, ◌∙◌, arith, List, [], ◌∷◌, Text, ◌≡◌, ◌+◌, times}
use sema.Domain.{MatchmakingPolicy, BackfillTicket, MatchTicket, MatchmakingSnapshot}

-- The tickets that a cycle works with.
abbrev pub available_tickets : MatchmakingSnapshot → List MatchTicket
available_tickets s = sort_tickets (allowed_tickets s.policy s.match_tickets)

abbrev pub limits_of : MatchmakingSnapshot → PlanLimits
limits_of s =
    plan_limits s.policy (
      small_queue_expanded_search s.policy (available_tickets s)
        (sort_backfills s.backfill_tickets))

abbrev pub generation : MatchmakingSnapshot → CandidateGeneration × SearchBudget
generation s =
    generation_of s (available_tickets s) (sort_backfills s.backfill_tickets) (limits_of s)

abbrev pub selection : MatchmakingSnapshot → BatchSelection
selection s = selection_of (limits_of s) (generation s).0

-- A candidate of a snapshot, for a demand of the snapshot if for any.
abbrev pub Candidate {ℓ} :
    (BackfillTicket → Type ℓ) → MatchmakingSnapshot → ProposalCandidate → Type ℓ
Candidate Demand s = IsCandidate Demand s (available_tickets s)

pub times-allowed_tickets :
    (k : Text) (policy : MatchmakingPolicy) (ts : List MatchTicket)
    → times k (ticket_ids (allowed_tickets policy ts))
        + times k (ticket_ids (rejected_tickets policy ts))
      ≡ times k (match_names ts)
unfolding allowed_tickets rejected_tickets ticket_ids times
times-allowed_tickets k policy [] = omega arith
times-allowed_tickets k policy (t ∷ ts) = ground (arith, times-allowed_tickets k policy ts)

times-insert_ticket :
    (k : Text) (t : MatchTicket) (ts : List MatchTicket)
    → times k (ticket_ids (insert_sorted ticket_less t ts)) ≡ times k (ticket_ids (t ∷ ts))
unfolding insert_sorted ticket_ids times
times-insert_ticket k t [] = refl
times-insert_ticket k t (u ∷ us) =
    if_branches {A = List MatchTicket}
      (λ r. times k (ticket_ids r) ≡ times k (ticket_ids (t ∷ u ∷ us))) (ticket_less u t)
      (λ _. ground (arith, times-insert_ticket k t us)) (λ _. refl)

pub times-sort_tickets :
    (k : Text) (ts : List MatchTicket)
    → times k (ticket_ids (sort_tickets ts)) ≡ times k (ticket_ids ts)
unfolding sort_tickets sort ticket_ids times
times-sort_tickets k [] = refl
times-sort_tickets k (t ∷ ts) =
    times-insert_ticket k t (sort ticket_less ts) ∙ ground (arith, times-sort_tickets k ts)
