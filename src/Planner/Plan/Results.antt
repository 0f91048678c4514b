-- ===== src/Planner/Plan/Results.antt =====
-- internal/planner/planner.go: the proposals and the unmatched tickets that `Plan` returns.
use sema.Planner.Plan.Outcome.{plan-err, plan-accepted, plan-ok}
use sema.Planner.Search.Found.{Spends}
use sema.Planner.Collect.Recorded.{IsGeneration}
use sema.Planner.Search.Seats.{ticket_ids-append}
use sema.Planner.Plan.Chosen.{generation-keeps, selection-IsSelection}
use sema.Planner.Candidates.{remove_placed}
use sema.Planner.Batch.{supply, targets, ticket_ids, all_names}
use sema.Planner.Plan.Batches.{
  length-build_proposals, times-supply, times-left, unmatched_ids-unmatched_tickets,
  proposed_targets-build_proposals, proposed_tickets-build_proposals, proposed_targets,
  unmatched_ids, proposed_tickets,
}
use sema.Planner.Plan.Queue.{
  generation, times-allowed_tickets, times-sort_tickets, available_tickets, selection, limits_of,
  Candidate,
}
use sema.Domain.Policy.{encode_policy}
use sema.Domain.Snapshots.{validate_snapshot-IsSnapshot, backfill_names, match_names}
use sema.Planner.Plan.{
  plan_panics, plan, or_default, generator_of, plan_limits, batch_evidence, allowed_tickets,
  sort_tickets, rejected_tickets, assemble, plan_batch, selected_ticket_ids,
}
use sema.Planner.Proposal.{build_proposal, build_proposals}
use sema.Planner.Batch.Selections.{IsSelection}
use sema.Planner.{ProposalCandidate}
use sema.Domain.Batch.{backfill_reference, ProposalBatch}
use sema.Domain.Validate.{validate_snapshot}
use sema.Objective.Evaluate.Total.{HasRoster, validate_snapshot-HasRoster}
use sema.Base.{
  ◌≢◌, none, some, false, ◌↔◌, inl, inr, All-at, some, suc, List, none, ℕ, All, ◌⊎◌, inl, inr, [],
  ◌∷◌, pos, length, sym, subst, false, has-times, times-append, ap, ◌∙◌, All-Member,
  times_of_Distinct, arith, Distinct-times, Member, pos_part, Distinct, ◌++◌, Text, ◌≡◌, ◌+◌, ◌≤◌,
  times,
}
use sema.Domain.{
  err, FailureCode, Result-cases, backfill, BackfillTicket, new_match, MatchProposal,
  MatchmakingPolicy, ok, MatchmakingSnapshot,
}

match_names-Distinct :
    (s : MatchmakingSnapshot) → validate_snapshot s ≡ ok tt → Distinct (match_names s.match_tickets)
match_names-Distinct s valid = Distinct-times (match_names s.match_tickets) (λ k. omega (
  arith,
  times_of_Distinct (match_names s.match_tickets ++ backfill_names s.backfill_tickets)
      (validate_snapshot-IsSnapshot s valid).distinct_tickets k,
  times-append k (match_names s.match_tickets) (backfill_names s.backfill_tickets),
))

-- The limits of a policy, with their defaults.
pub record IsBounded (policy : MatchmakingPolicy) (batch : ProposalBatch) : Type 0 where
  pub proposals : length batch.proposals ≤ pos_part (or_default policy.max_proposals (pos 64))
  pub generation_nodes :
      pos_part batch.evidence.candidate_generation_nodes
      ≤ pos_part (or_default policy.max_search_nodes (pos 100000))
  pub selection_nodes :
      pos_part batch.evidence.selection_nodes
      ≤ pos_part (or_default policy.max_batch_search_nodes (pos 100000))

-- A new match has no target; a backfill has as its target a demand of the snapshot.
abbrev pub TargetsKnown : MatchmakingSnapshot → MatchProposal → Type 0
TargetsKnown s p =
    ((p.kind ≡ new_match) × (p.target ≡ none))
    ⊎ ((b : BackfillTicket) × Member b s.backfill_tickets
        × (p.kind ≡ backfill)
        × (p.target ≡ some (backfill_reference b)))

All-build_proposals :
    (digest : Text → Text) (s : MatchmakingSnapshot) (fingerprint : Text) (index : ℕ)
    (cs : List ProposalCandidate)
    → All (Candidate (λ b. Member b s.backfill_tickets) s) cs
    → All (TargetsKnown s) (build_proposals digest s fingerprint index cs)
unfolding build_proposals build_proposal
All-build_proposals digest s fingerprint index [] h = tt
All-build_proposals digest s fingerprint index (c ∷ cs) h = (
  elim h.0.shaped [ inl n ↦ inl (n.kind, n.target) | inr (b, m, n) ↦ inr (b, m, n.kind, n.target) ],
  All-build_proposals digest s fingerprint (suc index) cs h.1,
)

module _ (digest : Text → Text) (s : MatchmakingSnapshot)
    (valid : validate_snapshot s ≡ ok tt) where
  abbrev pub batch : ProposalBatch
  batch = plan_batch digest s (digest (encode_policy s.policy))

  abbrev pub Chosen : ProposalCandidate → Type 0
  Chosen = Candidate (λ b. Member b s.backfill_tickets) s

  rostered : (b : BackfillTicket) → Member b s.backfill_tickets → Unit {0} → HasRoster b
  rostered b m _ =
      All-at HasRoster s.backfill_tickets m.0 b (validate_snapshot-HasRoster s valid) m.1

  pub chosen :
      IsSelection Chosen (pos_part (limits_of s).max_proposals) (selection s).candidates
      × ((selection s).nodes ≤ pos_part (limits_of s).max_batch_search_nodes)
  chosen =
      selection-IsSelection (λ b. Member b s.backfill_tickets) s (All-Member s.backfill_tickets)
        (Unit {0}) rostered (match_names-Distinct s valid)

  tickets_of_batch : proposed_tickets batch.proposals ≡ all_names supply (selection s).candidates
  unfolding plan_batch assemble
  tickets_of_batch =
      proposed_tickets-build_proposals digest s (digest (encode_policy s.policy)) 0
        (selection s).candidates

  targets_of_batch : proposed_targets batch.proposals ≡ all_names targets (selection s).candidates
  unfolding plan_batch assemble
  targets_of_batch =
      proposed_targets-build_proposals digest s (digest (encode_policy s.policy)) 0
        (selection s).candidates

  times_of_unmatched :
      (k : Text)
      → times k (unmatched_ids batch.unmatched)
        ≡ times k (
            ticket_ids
              (remove_placed (available_tickets s) (selected_ticket_ids (selection s).candidates)))
          + times k (ticket_ids (rejected_tickets s.policy s.match_tickets))
  unfolding plan_batch assemble
  times_of_unmatched k =
      let left =
        remove_placed (available_tickets s) (selected_ticket_ids (selection s).candidates) in
      let rejected = rejected_tickets s.policy s.match_tickets in
      ap (times k) (unmatched_ids-unmatched_tickets _ _ (sort_tickets (left ++ rejected)))
      ∙ (times-sort_tickets k (left ++ rejected)
          ∙ (ap (times k) (ticket_ids-append left rejected)
              ∙ times-append k (ticket_ids left) (ticket_ids rejected)))

  conserved :
      (k : Text)
      → times k (proposed_tickets batch.proposals) + times k (unmatched_ids batch.unmatched)
        ≡ times k (match_names s.match_tickets)
  unfolding selected_ticket_ids
  conserved k =
      let names = all_names supply (selection s).candidates in
      let proposed : times k (proposed_tickets batch.proposals) ≡ times k names =
        ap (times k) tickets_of_batch in
      ground (
        arith,
        proposed,
        times_of_unmatched k,
        times-left k names (available_tickets s),
        has-times k names,
        times-supply s k (selection s).candidates chosen.0.from,
        chosen.0.tickets_once k,
        times-sort_tickets k (allowed_tickets s.policy s.match_tickets),
        times-allowed_tickets k s.policy s.match_tickets,
        times_of_Distinct (match_names s.match_tickets) (match_names-Distinct s valid) k,
      )

  proposed_tickets-Distinct : Distinct (proposed_tickets batch.proposals)
  proposed_tickets-Distinct =
      subst Distinct (sym tickets_of_batch)
        (Distinct-times (all_names supply (selection s).candidates) chosen.0.tickets_once)

  proposed_targets-Distinct : Distinct (proposed_targets batch.proposals)
  proposed_targets-Distinct =
      subst Distinct (sym targets_of_batch)
        (Distinct-times (all_names targets (selection s).candidates) chosen.0.targets_once)

  generated :
      IsGeneration Chosen (generator_of s (available_tickets s) (limits_of s)) (generation s).0
      × Spends
          (Unit {0})
          (record {
            max = (limits_of s).max_search_nodes;
            used = 0;
            exhausted = false;
            panicked = false;
          })
          (generation s).1
  generated =
      generation-keeps (λ b. Member b s.backfill_tickets) s (All-Member s.backfill_tickets)
        (Unit {0}) rostered

  targets_known : All (TargetsKnown s) batch.proposals
  unfolding plan_batch assemble
  targets_known =
      All-build_proposals digest s (digest (encode_policy s.policy)) 0 (selection s).candidates
        chosen.0.from

  bounded : IsBounded s.policy batch
  unfolding plan_batch assemble batch_evidence plan_limits
  bounded = record {
    proposals = omega (
      arith,
      length-build_proposals digest s (digest (encode_policy s.policy)) 0 (selection s).candidates,
      chosen.0.at_most,
    );
    generation_nodes = generated.1.within;
    selection_nodes = chosen.1;
  }

-- No evaluation of an accepted snapshot panics.
pub plan_panics-false :
    (digest : Text → Text) (s : MatchmakingSnapshot)
    → validate_snapshot s ≡ ok tt
    → plan_panics s ≡ false
unfolding plan_panics
plan_panics-false digest s valid = (generated digest s valid).1.calm tt

-- Where the snapshot is accepted, `Plan` returns the batch that it makes.
pub plan-plan_batch :
    (digest : Text → Text) (s : MatchmakingSnapshot)
    → validate_snapshot s ≡ ok tt
    → plan digest s ≡ some (ok (plan_batch digest s (digest (encode_policy s.policy))))
plan-plan_batch digest s valid =
    let calm = plan_panics-false digest s valid in
    let outcome = plan-accepted digest s valid in ground arith

-- `Plan` never panics on a missing roster summary, whatever the snapshot; it fails exactly where
-- `ValidateSnapshot` refuses the snapshot, with the same failure; and it returns a batch for every
-- snapshot that is accepted.
pub plan_total :
    (digest : Text → Text) (s : MatchmakingSnapshot)
    → (plan digest s ≢ none)
      × ((e : FailureCode) → (plan digest s ≡ some (err e)) ↔ (validate_snapshot s ≡ err e))
      × (validate_snapshot s ≡ ok tt → (batch : ProposalBatch) × (plan digest s ≡ some (ok batch)))
plan_total digest s = elim (Result-cases (validate_snapshot s)) [
  | inl (e, bad) ↦
      let outcome = plan-err digest s e bad in
      (
        λ h. ground arith,
        λ f. (λ h. ground arith, plan-err digest s f),
        λ fine. absurd (ground arith),
      )
  | inr (u, fine) ↦
      let there = plan-plan_batch digest s fine in
      (
        λ h. ground arith,
        λ f. (λ h. absurd (ground arith), λ bad. absurd (ground arith)),
        λ _. (_, there),
      )
]

-- A batch is returned for a snapshot.
module _ (digest : Text → Text) (s : MatchmakingSnapshot) (batch : ProposalBatch)
    (planned : plan digest s ≡ some (ok batch)) where
  -- Where `Plan` returns a batch, each name of a match ticket of the snapshot stands as often in the
  -- proposals and the unmatched tickets together as in the snapshot, so none is lost
  -- and none is made up.
  pub plan-conserves :
      (k : Text)
      → times k (proposed_tickets batch.proposals) + times k (unmatched_ids batch.unmatched)
        ≡ times k (match_names s.match_tickets)
  plan-conserves k =
      let (valid, same) = plan-ok digest s batch planned in
      subst
        (λ b.
          times k (proposed_tickets b.proposals) + times k (unmatched_ids b.unmatched)
          ≡ times k (match_names s.match_tickets))
        same (conserved digest s valid k)

  -- Where `Plan` returns a batch, its proposals are mutually disjoint: no ticket stands twice in
  -- them, within one or across several, and no two fill the same backfill ticket.
  pub plan-Distinct :
      Distinct (proposed_tickets batch.proposals) × Distinct (proposed_targets batch.proposals)
  plan-Distinct =
      let (valid, same) = plan-ok digest s batch planned in
      subst (λ b. Distinct (proposed_tickets b.proposals) × Distinct (proposed_targets b.proposals))
        same (proposed_tickets-Distinct digest s valid, proposed_targets-Distinct digest s valid)

  -- Where `Plan` returns a batch, it has at most as many proposals as the policy allows, and neither
  -- search visited more nodes than the policy allows; a limit of 0 stands for the default.
  pub plan-IsBounded : IsBounded s.policy batch
  plan-IsBounded =
      let (valid, same) = plan-ok digest s batch planned in
      subst (IsBounded s.policy) same (bounded digest s valid)

  -- Where `Plan` returns a batch, each of its proposals either is a new match without a target, or
  -- a backfill whose target is a backfill ticket of the snapshot, in its revision and with its
  -- session and roster version.
  pub plan-TargetsKnown : All (TargetsKnown s) batch.proposals
  plan-TargetsKnown =
      let (valid, same) = plan-ok digest s batch planned in
      subst (λ b. All (TargetsKnown s) b.proposals) same (targets_known digest s valid)
