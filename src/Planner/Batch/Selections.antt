-- ===== src/Planner/Batch/Selections.antt =====
-- internal/planner/batch.go: what a selection is, and that each of the three ways to make one makes
-- one.
use sema.Domain.Proposal.{is_backfill}
use sema.Planner.Batch.Quality.{better_selection}
use sema.Planner.Batch.Invariants.{pareto_each-keeps, pareto_enter-keeps, search_batch-keeps}
use sema.Base.{
  if◌then◌else◌, ◌*ℤ◌, negsuc, leb_ℤ, if_branches, ◌==◌, ◌+ℤ◌, branches, ◌<◌, has, ℕ, zero, suc,
  List, [], ◌∷◌, ◌++◌, Text, ◌≡◌, ◌≤◌, ◌+◌, times, arith, refl, false, true, Bool, length,
  length-append, All, All-append, ℤ, pos, pos_part,
}
use sema.Base.Sort.{sort, All-sort, length-sort}
use sema.Planner.{ProposalCandidate}
use sema.Planner.Batch.{
  listed_less, try_less, maximum_utility, weigh, greedy_selection, unmark_candidate, mark_candidate,
  candidate_available, nothing_used, Used, can_take, greedy, all_names, supply, targets,
}
use sema.Planner.Batch.Disjoint.{times-all_names-sort, Tracks-mark, Tracks-unmark, Tracks}
use sema.Planner.Batch.Search.{
  any_priority_demand, ordered_candidates, materialize_batch_selection, select_from,
  select_proposal_batch, pareto_each, no_frame, batch_selection, greedy_state, pareto_selection,
  Limits, Frame, SearchState, take, take_back, visit, offer,
}

-- A selection uses no ticket and no backfill twice, is no larger than the limit, and holds of
-- candidates that satisfy `From`.
pub record IsSelection {ℓ} (From : ProposalCandidate → Type ℓ) (max_proposals : ℕ)
    (selected : List ProposalCandidate) : Type ℓ where
  pub tickets_once : (k : Text) → times k (all_names supply selected) ≤ 1
  pub targets_once : (k : Text) → times k (all_names targets selected) ≤ 1
  pub at_most : length selected ≤ max_proposals
  pub from : All From selected

pub record IsFrame {ℓ} (From : ProposalCandidate → Type ℓ) (max_proposals : ℕ)
    (selected : List ProposalCandidate) (used : Used) : Type ℓ where
  pub tickets : Tracks supply used.tickets selected
  pub backfills : Tracks targets used.backfills selected
  pub at_most : length selected ≤ max_proposals
  pub from : All From selected

times-targets : (k : Text) (c : ProposalCandidate) → times k (targets c) ≤ 1
unfolding times
times-targets k c = ground arith

module _ {ℓ} (From : ProposalCandidate → Type ℓ) (max_proposals : ℕ)
    (one : (c : ProposalCandidate) → From c → (k : Text) → times k (supply c) ≤ 1) where
  IsFrame-IsSelection :
      {selected : List ProposalCandidate} {used : Used}
      → IsFrame From max_proposals selected used
      → IsSelection From max_proposals selected
  IsFrame-IsSelection f = record {
    tickets_once = f.tickets.once;
    targets_once = f.backfills.once;
    at_most = f.at_most;
    from = f.from;
  }

  IsFrame-nothing : IsFrame From max_proposals [] nothing_used
  unfolding times has all_names
  IsFrame-nothing = record {
    tickets = record { in_use = λ k. refl; once = λ k. omega arith };
    backfills = record { in_use = λ k. refl; once = λ k. omega arith };
    at_most = omega arith;
    from = tt;
  }

  IsFrame-mark :
      (c : ProposalCandidate) (selected : List ProposalCandidate) (used : Used)
      → From c
      → length selected < max_proposals
      → can_take c used ≡ true
      → IsFrame From max_proposals selected used
      → IsFrame From max_proposals (selected ++ c ∷ []) (mark_candidate c used)
  unfolding can_take candidate_available mark_candidate
  IsFrame-mark c selected used from room free f = record {
    tickets = Tracks-mark supply c used.tickets selected (ground arith) f.tickets (one c from);
    backfills =
        Tracks-mark targets c used.backfills selected (ground arith) f.backfills
          (λ k. times-targets k c);
    at_most = omega (arith, length-append selected (c ∷ []));
    from = All-append From selected (c ∷ []) f.from (from, tt);
  }

  IsFrame-unmark :
      (c : ProposalCandidate) (selected : List ProposalCandidate) (used : Used)
      → can_take c used ≡ true
      → IsFrame From max_proposals selected used
      → IsFrame From max_proposals selected (unmark_candidate c (mark_candidate c used))
  unfolding can_take candidate_available mark_candidate unmark_candidate
  IsFrame-unmark c selected used free f = record {
    tickets = Tracks-unmark supply c used.tickets selected (ground arith) f.tickets;
    backfills = Tracks-unmark targets c used.backfills selected (ground arith) f.backfills;
    at_most = f.at_most;
    from = f.from;
  }

  greedy-IsSelection :
      (room : ℕ) (selected : List ProposalCandidate) (used : Used) (score : ℤ)
      (cs : List ProposalCandidate)
      → length selected + room ≤ max_proposals
      → All From cs
      → IsFrame From max_proposals selected used
      → IsSelection From max_proposals (greedy room selected used score cs).0
  unfolding greedy
  greedy-IsSelection room selected used score [] h from f = IsFrame-IsSelection f
  greedy-IsSelection zero selected used score (c ∷ cs) h from f = IsFrame-IsSelection f
  greedy-IsSelection (suc room) selected used score (c ∷ cs) h from f =
      branches {A = List ProposalCandidate × ℤ} (λ r. IsSelection From max_proposals r.0)
        (can_take c used)
        (λ free.
          greedy-IsSelection room (selected ++ c ∷ []) (mark_candidate c used)
            (score +ℤ c.effective_utility) cs (omega (arith, length-append selected (c ∷ [])))
            from.1 (IsFrame-mark c selected used from.0 (omega arith) free f))
        (λ _. greedy-IsSelection (suc room) selected used score cs h from.1 f)

IsSelection-empty {ℓ} :
    (From : ProposalCandidate → Type ℓ) (max_proposals : ℕ) → IsSelection From max_proposals []
unfolding all_names times
IsSelection-empty From max_proposals = record {
  tickets_once = λ k. omega arith;
  targets_once = λ k. omega arith;
  at_most = omega arith;
  from = tt;
}

-- Both searches end with a selection.
module _ {ℓ} (From : ProposalCandidate → Type ℓ)
    (one : (c : ProposalCandidate) → From c → (k : Text) → times k (supply c) ≤ 1)
    (l : Limits) where
  abbrev Fine : Frame → Type ℓ
  Fine f = IsFrame From l.max_proposals f.selected f.used

  abbrev Sound : SearchState → Type ℓ
  Sound s = IsSelection From l.max_proposals s.best × (s.nodes ≤ pos_part l.max_nodes)

  offer-Sound : (b : Bool) (f : Frame) (s : SearchState) → Fine f → Sound s → Sound (offer b f s)
  unfolding offer
  offer-Sound b f s fine sound =
      if_branches Sound (better_selection b f.selected f.score s.best s.best_score)
        (λ _. (IsFrame-IsSelection From l.max_proposals one fine, sound.1)) (λ _. sound)

  visit-Sound :
      (s : SearchState) → leb_ℤ l.max_nodes (pos s.nodes) ≡ false → Sound s → Sound (visit s)
  visit-Sound s h sound = (sound.0, ground arith)

  take-Fine :
      (c : ProposalCandidate) (f : Frame)
      → From c
      → (length f.selected == l.max_proposals) ≡ false
      → can_take c f.used ≡ true
      → Fine f
      → Fine (take c f)
  unfolding take
  take-Fine c f from room free fine =
      IsFrame-mark From l.max_proposals one c f.selected f.used from (ground (arith, fine.at_most))
        free fine

  take_back-Fine :
      (c : ProposalCandidate) (f : Frame) → can_take c f.used ≡ true → Fine f → Fine (take_back c f)
  unfolding take_back
  take_back-Fine c f free fine =
      IsFrame-unmark From l.max_proposals one c f.selected f.used free fine

  greedy_state-Sound :
      (cs : List ProposalCandidate) → All From cs → Sound (greedy_state cs l.max_proposals)
  unfolding greedy_state greedy_selection
  greedy_state-Sound cs from = (
    greedy-IsSelection From l.max_proposals one l.max_proposals [] nothing_used (pos 0) cs
        (omega arith) from (IsFrame-nothing From l.max_proposals one),
    omega arith,
  )

  batch_selection-Sound : (cs : List ProposalCandidate) → All From cs → Sound (batch_selection cs l)
  unfolding batch_selection
  batch_selection-Sound cs from =
      search_batch-keeps l From Fine Sound false (λ b f s e. offer-Sound b f s) (λ s sound. sound)
        visit-Sound take-Fine take_back-Fine refl cs no_frame (greedy_state cs l.max_proposals) from
        (IsFrame-nothing From l.max_proposals one) (greedy_state-Sound cs from)

  pareto_selection-Sound :
      (cs : List ProposalCandidate) → All From cs → Sound (pareto_selection cs l)
  unfolding pareto_selection
  pareto_selection-Sound cs from =
      let start = IsFrame-nothing From l.max_proposals one in
      pareto_enter-keeps l From Fine Sound true (λ b f s e. offer-Sound b f s) (λ s sound. sound)
        visit-Sound take-Fine take_back-Fine refl no_frame (greedy_state cs l.max_proposals)
        (pareto_each l cs no_frame) start (greedy_state-Sound cs from)
        (λ room s sound.
          pareto_each-keeps l From Fine Sound true (λ b f s' e. offer-Sound b f s')
            (λ s' sound'. sound') visit-Sound take-Fine take_back-Fine refl cs no_frame s from room
            start sound)

IsSelection-sort {ℓ} :
    (From : ProposalCandidate → Type ℓ) (less : ProposalCandidate → ProposalCandidate → Bool)
    (max_proposals : ℕ) (selected : List ProposalCandidate)
    → IsSelection From max_proposals selected
    → IsSelection From max_proposals (sort less selected)
IsSelection-sort From less max_proposals selected h = record {
  tickets_once = λ k. omega (arith, h.tickets_once k, times-all_names-sort supply k less selected);
  targets_once = λ k. omega (arith, h.targets_once k, times-all_names-sort targets k less selected);
  at_most = omega (arith, h.at_most, length-sort less selected);
  from = All-sort less From selected h.from;
}

module _ {ℓ} (From : ProposalCandidate → Type ℓ)
    (one : (c : ProposalCandidate) → From c → (k : Text) → times k (supply c) ≤ 1)
    (reweigh : (c : ProposalCandidate) (n : ℤ)
      → From c
      → From (record c { effective_utility = n })) where
  All-weigh : (bonus : ℤ) (cs : List ProposalCandidate) → All From cs → All From (weigh bonus cs)
  unfolding weigh
  All-weigh bonus [] from = tt
  All-weigh bonus (c ∷ cs) from = (
    reweigh c (if is_backfill c.kind then c.utility +ℤ bonus else c.utility) from.0,
    All-weigh bonus cs from.1,
  )

  select_from-IsSelection :
      (cs : List ProposalCandidate) (max_proposals : ℕ) (max_nodes : ℤ) (prefer_pareto : Bool)
      → All From cs
      → IsSelection From max_proposals
          (select_from cs max_proposals max_nodes prefer_pareto).candidates
        × ((select_from cs max_proposals max_nodes prefer_pareto).nodes ≤ pos_part max_nodes)
  unfolding select_from materialize_batch_selection ordered_candidates
  select_from-IsSelection cs max_proposals max_nodes prefer_pareto from =
      let bonus = pos max_proposals *ℤ maximum_utility (pos 0) cs +ℤ pos 1 in
      let ordered = ordered_candidates cs max_proposals in
      let limits : Limits = record {
        max_proposals = max_proposals;
        max_nodes = max_nodes;
        has_priority_demand = any_priority_demand ordered;
      } in
      let from' : All From ordered =
        All-sort try_less From (weigh bonus cs) (All-weigh bonus cs from) in
      let sound =
        branches (Sound From one limits) prefer_pareto
          (λ _. pareto_selection-Sound From one limits ordered from')
          (λ _. batch_selection-Sound From one limits ordered from') in
      (IsSelection-sort From listed_less max_proposals _ sound.0, sound.1)

  pub select_proposal_batch-IsSelection :
      (cs : List ProposalCandidate) (max_proposals max_nodes : ℤ) (prefer_pareto : Bool)
      → All From cs
      → IsSelection From
          (pos_part max_proposals)
          (select_proposal_batch cs max_proposals max_nodes prefer_pareto).candidates
        × ((select_proposal_batch cs max_proposals max_nodes prefer_pareto).nodes
            ≤ pos_part max_nodes)
  unfolding select_proposal_batch
  select_proposal_batch-IsSelection cs (negsuc n) max_nodes prefer_pareto from =
      (IsSelection-empty From _, omega arith)
  select_proposal_batch-IsSelection cs (pos zero) max_nodes prefer_pareto from =
      (IsSelection-empty From _, omega arith)
  select_proposal_batch-IsSelection [] (pos (suc n)) max_nodes prefer_pareto from =
      (IsSelection-empty From _, omega arith)
  select_proposal_batch-IsSelection (c ∷ cs) (pos (suc n)) max_nodes prefer_pareto from =
      select_from-IsSelection (c ∷ cs) (suc n) max_nodes prefer_pareto from
