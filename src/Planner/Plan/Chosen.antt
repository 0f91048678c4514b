-- ===== src/Planner/Plan/Chosen.antt =====
-- internal/planner/planner.go: what `Plan` selects may be proposed.
use sema.Planner.Plan.{backfill_less}
use sema.Planner.Collect.Generated.{generate_proposal_candidates-keeps}
use sema.Planner.Batch.Selections.{select_proposal_batch-IsSelection, IsSelection}
use sema.Planner.Search.Found.{Spends}
use sema.Domain.Snapshots.{match_names}
use sema.Objective.Evaluate.Total.{HasRoster}
use sema.Base.Sort.{All-sort}
use sema.Planner.Collect.Recorded.{IsGeneration}
use sema.Planner.{ProposalCandidate}
use sema.Planner.Batch.{quality_less, rank_after, rank_candidate_utilities, rank_sorted}
use sema.Planner.Plan.{generator_of, sort_backfills, allowed_tickets, generation_of, selection_of}
use sema.Base.{
  times_of_Distinct, false, pos_part, suc, inr, ℕ, Distinct, inl, arith, ℤ, List, [], ◌∷◌, ◌≤◌, All,
}
use sema.Domain.{BackfillTicket, MatchmakingSnapshot}
use sema.Planner.Plan.Queue.{
  times-sort_tickets, times-allowed_tickets, available_tickets, limits_of, generation, selection,
  Candidate,
}

module _ {ℓ} (Demand : BackfillTicket → Type ℓ) (s : MatchmakingSnapshot)
    (demands : All Demand s.backfill_tickets) (Safe : Type 0)
    (safe : (b : BackfillTicket) → Demand b → Safe → HasRoster b) where
  -- The utilities of a candidate do not matter to what it is.
  with_utilities :
      (c : ProposalCandidate) (u e : ℤ)
      → Candidate Demand s c
      → Candidate Demand s (record c { utility = u; effective_utility = e })
  with_utilities c u e h = record {
    supplied = h.supplied;
    drawn = h.drawn;
    some_ticket = h.some_ticket;
    shaped = elim h.shaped [
      | inl n ↦ inl (record { kind = n.kind; target = n.target; fits = n.fits; passes = n.passes })
      | inr (b, d, n) ↦
          inr (b, d, record { kind = n.kind; target = n.target; fits = n.fits; passes = n.passes })
    ];
  }

  All-rank_after :
      (admission total : ℤ) (index group_start : ℕ) (previous : ProposalCandidate)
      (cs : List ProposalCandidate)
      → All (Candidate Demand s) cs
      → All (Candidate Demand s) (rank_after admission total index group_start previous cs)
  unfolding rank_after
  All-rank_after admission total index group_start previous [] h = tt
  All-rank_after admission total index group_start previous (c ∷ cs) h = (
    with_utilities c _ c.effective_utility h.0,
    All-rank_after admission total (suc index) _ c cs h.1,
  )

  All-rank_sorted :
      (admission total : ℤ) (cs : List ProposalCandidate)
      → All (Candidate Demand s) cs
      → All (Candidate Demand s) (rank_sorted admission total cs)
  unfolding rank_sorted
  All-rank_sorted admission total [] h = tt
  All-rank_sorted admission total (c ∷ cs) h =
      (with_utilities c _ c.effective_utility h.0, All-rank_after admission total 1 0 c cs h.1)

  All-rank_candidate_utilities :
      (cs : List ProposalCandidate) (max_proposals : ℤ)
      → All (Candidate Demand s) cs
      → All (Candidate Demand s) (rank_candidate_utilities cs max_proposals)
  unfolding rank_candidate_utilities
  All-rank_candidate_utilities cs max_proposals h =
      All-rank_sorted _ _ _ (All-sort quality_less (Candidate Demand s) cs h)

  pub generation-keeps :
      IsGeneration
        (Candidate Demand s)
        (generator_of s (available_tickets s) (limits_of s))
        (generation s).0
      × Spends Safe
          (record {
            max = (limits_of s).max_search_nodes;
            used = 0;
            exhausted = false;
            panicked = false;
          })
          (generation s).1
  unfolding generation_of sort_backfills
  generation-keeps =
      generate_proposal_candidates-keeps Demand (generator_of s (available_tickets s) (limits_of s))
        Safe safe (sort_backfills s.backfill_tickets) (limits_of s).max_proposals
        (limits_of s).small_queue _ (All-sort backfill_less Demand s.backfill_tickets demands)
        (omega arith)

  pub selection-IsSelection :
      Distinct (match_names s.match_tickets)
      → IsSelection
          (Candidate Demand s)
          (pos_part (limits_of s).max_proposals)
          (selection s).candidates
        × ((selection s).nodes ≤ pos_part (limits_of s).max_batch_search_nodes)
  unfolding selection_of
  selection-IsSelection d =
      select_proposal_batch-IsSelection (Candidate Demand s)
        (λ c h k. omega (
          arith,
          h.supplied k,
          times-sort_tickets k (allowed_tickets s.policy s.match_tickets),
          times-allowed_tickets k s.policy s.match_tickets,
          times_of_Distinct (match_names s.match_tickets) d k,
        ))
        (λ c n h. with_utilities c c.utility n h) _ _ _ _
        (All-rank_candidate_utilities _ _ generation-keeps.0.good)
