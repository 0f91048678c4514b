-- ===== src/Planner/Collect/Shapes.antt =====
-- internal/planner/planner.go: what a candidate of `generateProposalCandidates` is, and the tickets that it
-- may hold.
use sema.Planner.Search.Placements.{Passes}
use sema.Domain.Batch.{backfill_reference}
use sema.Planner.Search.Seats.{IsSlot, FitsSlots}
use sema.Planner.Placement.{Query}
use sema.Planner.{ProposalCandidate}
use sema.Planner.Candidates.{match_slots, remove_placed}
use sema.Discovery.Window.{Window, max_slots, select, select_window}
use sema.Planner.Batch.{supply, ticket_ids}
use sema.Planner.{placed}
use sema.Base.{
  Member, All-append, has, All, ◌==◌, length, ltb_ℤ, if_branches, ◌⊎◌, arith, none, some, Text,
  times, zero, suc, negsuc, [], ◌∷◌, ◌++◌, ◌+◌, List, ℕ, ℤ, pos, ◌≡◌, ◌≤◌,
}
use sema.Domain.{
  Time, RosterTeamSummary, backfill, new_match, ProposalKind, BackfillTicket, MatchmakingSnapshot,
  MatchTicket,
}

-- The query that a placement is judged by, without the limits of the search.
abbrev pub rules : MatchmakingSnapshot → ProposalKind → List RosterTeamSummary → Time → Query
rules snapshot kind existing_teams enqueued_at = record {
  now = snapshot.now;
  policy = snapshot.policy;
  kind = kind;
  existing_teams = existing_teams;
  backfill_enqueued_at = enqueued_at;
  required = none;
  max_candidates = pos 0;
  max_alternatives = pos 0;
}

-- A new match of full teams under the hard rules.
pub record IsNewMatch (snapshot : MatchmakingSnapshot) (c : ProposalCandidate) : Type 0 where
  pub kind : c.kind ≡ new_match
  pub target : c.target ≡ none
  pub fits :
      All IsSlot (match_slots snapshot.policy) → FitsSlots (match_slots snapshot.policy) c.placement
  pub passes : Passes (rules snapshot new_match [] 0) c.placement

-- A backfill of the free slots of a demand.
pub record IsBackfillOf (snapshot : MatchmakingSnapshot) (b : BackfillTicket)
    (c : ProposalCandidate) : Type 0 where
  pub kind : c.kind ≡ backfill
  pub target : c.target ≡ some (backfill_reference b)
  pub fits : All IsSlot b.open_slots_by_team → FitsSlots b.open_slots_by_team c.placement
  pub passes : Passes (rules snapshot backfill b.existing_teams b.enqueued_at) c.placement

-- A candidate holds no ticket more often than the snapshot, and is of one of the two kinds.
pub record IsCandidate {ℓ} (Demand : BackfillTicket → Type ℓ) (snapshot : MatchmakingSnapshot)
    (available : List MatchTicket) (c : ProposalCandidate) : Type ℓ where
  pub supplied : (k : Text) → times k (supply c) ≤ times k (ticket_ids available)
  pub shaped : IsNewMatch snapshot c ⊎ ((b : BackfillTicket) × Demand b × IsBackfillOf snapshot b c)
  pub drawn : All (λ t. Member t available) (placed c.placement)
  pub some_ticket : 1 ≤ length (placed c.placement)

times-ticket_ids-last :
    (k : Text) (ts : List MatchTicket) (t : MatchTicket)
    → times k (ticket_ids (ts ++ t ∷ [])) ≡ times k (ticket_ids ts) + times k (t.id ∷ [])
unfolding ticket_ids times
times-ticket_ids-last k [] t = omega arith
times-ticket_ids-last k (u ∷ us) t = ground (arith, times-ticket_ids-last k us t)

-- A window holds no ticket more often than the queue.
times-select :
    (k : Text) (size : ℤ) (limit : ℕ) (selected ts : List MatchTicket)
    → times k (ticket_ids (select size limit selected ts).tickets)
      ≤ times k (ticket_ids selected) + times k (ticket_ids ts)
unfolding select ticket_ids times
times-select k size limit selected [] = omega arith
times-select k size limit selected (t ∷ ts) =
    if_branches {A = Window}
      (λ w.
        times k (ticket_ids w.tickets)
        ≤ times k (ticket_ids selected) + times k (ticket_ids (t ∷ ts)))
      (ltb_ℤ size (pos (length t.players)))
      (λ _. ground (arith, times-select k size limit selected ts))
      (λ _.
        if_branches {A = Window}
          (λ w.
            times k (ticket_ids w.tickets)
            ≤ times k (ticket_ids selected) + times k (ticket_ids (t ∷ ts)))
          (length selected == limit) (λ _. ground arith)
          (λ _. ground (
            arith,
            times-select k size limit (selected ++ t ∷ []) ts,
            times-ticket_ids-last k selected t,
          )))

pub times-select_window :
    (k : Text) (tickets : List MatchTicket) (slots : List ℤ) (limit : ℤ)
    → times k (ticket_ids (select_window tickets slots limit).tickets)
      ≤ times k (ticket_ids tickets)
unfolding select_window ticket_ids times
times-select_window k tickets slots (negsuc n) = omega arith
times-select_window k tickets slots (pos zero) = omega arith
times-select_window k tickets slots (pos (suc n)) =
    omega (arith, times-select k (max_slots (pos 0) slots) (suc n) [] tickets)

pub times-remove_placed :
    (k : Text) (tickets : List MatchTicket) (names : List Text)
    → times k (ticket_ids (remove_placed tickets names)) ≤ times k (ticket_ids tickets)
unfolding remove_placed ticket_ids times
times-remove_placed k [] names = omega arith
times-remove_placed k (t ∷ ts) names = ground (arith, times-remove_placed k ts names)

module _ {ℓ} (P : MatchTicket → Type ℓ) where
  All-select :
      (size : ℤ) (limit : ℕ) (selected ts : List MatchTicket)
      → All P selected
      → All P ts
      → All P (select size limit selected ts).tickets
  unfolding select
  All-select size limit selected [] hs h = hs
  All-select size limit selected (t ∷ ts) hs h =
      if_branches {A = Window} (λ w. All P w.tickets) (ltb_ℤ size (pos (length t.players)))
        (λ _. All-select size limit selected ts hs h.1)
        (λ _.
          if_branches {A = Window} (λ w. All P w.tickets) (length selected == limit) (λ _. hs)
            (λ _.
              All-select size limit (selected ++ t ∷ []) ts
                (All-append P selected (t ∷ []) hs (h.0, tt)) h.1))

  pub All-select_window :
      (tickets : List MatchTicket) (slots : List ℤ) (limit : ℤ)
      → All P tickets
      → All P (select_window tickets slots limit).tickets
  unfolding select_window
  All-select_window tickets slots (negsuc n) h = h
  All-select_window tickets slots (pos zero) h = h
  All-select_window tickets slots (pos (suc n)) h =
      All-select (max_slots (pos 0) slots) (suc n) [] tickets tt h

  pub All-remove_placed :
      (tickets : List MatchTicket) (names : List Text)
      → All P tickets
      → All P (remove_placed tickets names)
  unfolding remove_placed
  All-remove_placed [] names h = tt
  All-remove_placed (t ∷ ts) names h =
      if_branches {A = List MatchTicket} (All P) (has t.id names)
        (λ _. All-remove_placed ts names h.1) (λ _. (h.0, All-remove_placed ts names h.1))
