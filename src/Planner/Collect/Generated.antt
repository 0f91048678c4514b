-- ===== src/Planner/Collect/Generated.antt =====
-- internal/planner/planner.go: what `generateProposalCandidates` generates may be proposed.
use sema.Objective.Evaluate.Total.{HasRoster}
use sema.Planner.Search.{find_best_placement}
use sema.Planner.Search.Found.{
  Spends-within, find_best_placement-Found, IsProposable, Spends, Spends-map, Evaluable,
  Spends-refl,
}
use sema.Planner.Collect.Recorded.{collect_anchors-keeps, Makes, IsGeneration}
use sema.Planner.Collect.{
  no_candidates, single_select_fast_path, generate_proposal_candidates, backfill_shape,
  new_match_shape, shape_query, collect_greedy_cover_candidates, collect_shape_candidates,
  collect_backfills, collect_batch_alternatives, greedy_cover, greedy_part,
}
use sema.Planner.Placement.{PlacementSearch, evaluate_for, SearchBudget}
use sema.Planner.{placed, ProposalCandidate}
use sema.Planner.Candidates.{
  record_generated_candidate, has_room, new_match_query, mark_truncated, CandidateGeneration,
  prepare_search_evidence, candidate_of, Generator, match_slots, remove_placed,
}
use sema.Discovery.Window.{select_window}
use sema.Planner.Batch.{ticket_ids}
use sema.Base.{
  ◌⊎◌, ◌≡◌, Member, All-Member, All-map, All-at, if◌then◌else◌, refl, inl, inr, ◌||◌, branches, not,
  ◌&&◌, Bool, length, if_branches, arith, none, Text, times, zero, suc, [], ◌∷◌, List, ℕ, ℤ, pos,
  pos_part, ◌≤◌, All,
}
use sema.Domain.{new_match, BackfillTicket, MatchTicket}
use sema.Planner.Collect.Shapes.{
  IsCandidate, times-select_window, times-remove_placed, All-select_window, All-remove_placed,
}
use sema.Planner.Collect.Recorded.{record_generated_candidate-keeps}
use sema.Planner.Search.Found.{Spends-trans}

HasRoster-enough :
    (b : BackfillTicket)
    → HasRoster b
    → (length b.existing_teams ≡ 0) ⊎ (length b.open_slots_by_team ≤ length b.existing_teams)
HasRoster-enough b h = elim h [
  | inl none_there ↦ inl none_there
  | inr each ↦ inr (omega (arith, each))
]

module _ {ℓ} (Demand : BackfillTicket → Type ℓ) (m : Generator) (Safe : Type 0)
    (safe : (b : BackfillTicket) → Demand b → Safe → HasRoster b) where
  abbrev Good : ProposalCandidate → Type ℓ
  Good = IsCandidate Demand m.snapshot m.available

  abbrev Ends : SearchBudget → CandidateGeneration × SearchBudget → Type ℓ
  Ends budget r = IsGeneration Good m r.0 × Spends Safe budget r.1

  -- The tickets are some of those available.
  abbrev Queued : List MatchTicket → Type 0
  Queued tickets =
      ((k : Text) → times k (ticket_ids tickets) ≤ times k (ticket_ids m.available))
      × All (λ t. Member t m.available) tickets

  window-Queued :
      (tickets : List MatchTicket) (slots : List ℤ) (limit : ℤ)
      → Queued tickets
      → Queued (select_window tickets slots limit).tickets
  window-Queued tickets slots limit queued = (
    λ k. omega (arith, times-select_window k tickets slots limit, queued.0 k),
    All-select_window _ tickets slots limit queued.1,
  )

  left-Queued :
      (tickets : List MatchTicket) (names : List Text)
      → Queued tickets
      → Queued (remove_placed tickets names)
  left-Queued tickets names queued = (
    λ k. omega (arith, times-remove_placed k tickets names, queued.0 k),
    All-remove_placed _ tickets names queued.1,
  )

  available-Queued : Queued m.available
  available-Queued = (λ k. omega arith, All-Member m.available)

  drawn-Queued :
      (tickets chosen : List MatchTicket)
      → Queued tickets
      → All (λ t. Member t tickets) chosen
      → All (λ t. Member t m.available) chosen
  drawn-Queued tickets chosen queued drawn =
      All-map (λ t h. All-at (λ u. Member u m.available) tickets h.0 t queued.1 h.1) chosen drawn

  new_match-Good :
      (s : PlacementSearch) (tickets : List MatchTicket)
      → Queued tickets
      → IsProposable (new_match_query m) tickets (match_slots m.snapshot.policy) s.placement
      → Good (candidate_of m.snapshot s new_match none 0)
  unfolding candidate_of evaluate_for new_match_query
  new_match-Good s tickets queued h = record {
    supplied = λ k. omega (arith, h.supplied k, queued.0 k);
    drawn = drawn-Queued tickets (placed s.placement) queued h.drawn;
    some_ticket = h.some_ticket;
    shaped = inl (record { kind = refl; target = refl; fits = h.fits; passes = h.passes });
  }

  marked :
      (b : Bool) (g : CandidateGeneration)
      → IsGeneration Good m g
      → IsGeneration Good m (mark_truncated b g)
  marked b g sound = record { good = sound.good; at_most = sound.at_most }

  greedy_cover-keeps :
      (seeds : ℕ) (remaining : List MatchTicket) (g : CandidateGeneration) (budget : SearchBudget)
      → Queued remaining
      → IsGeneration Good m g
      → budget.used ≤ pos_part budget.max
      → Ends budget (greedy_cover seeds m (match_slots m.snapshot.policy) remaining g budget)
  unfolding greedy_cover prepare_search_evidence new_match_query
  greedy_cover-keeps zero remaining g budget queued sound within =
      (marked _ g sound, Spends-refl budget within)
  greedy_cover-keeps (suc seeds) remaining g budget queued sound within =
      let slots = match_slots m.snapshot.policy in
      let window = select_window remaining slots m.max_candidate_tickets in
      let (found, budget') =
        find_best_placement (new_match_query m) [] window.tickets slots budget in
      let s = prepare_search_evidence (pos (length window.tickets)) window.truncated found in
      let g' = record_generated_candidate m.snapshot new_match none 0 s g in
      let (finds, found_spends) =
        find_best_placement-Found (new_match_query m) [] window.tickets slots budget within in
      let spends : Spends Safe budget budget' =
        Spends-map (Evaluable (new_match_query m) slots) Safe budget budget' (λ _. inl refl)
          found_spends in
      branches {A = CandidateGeneration × SearchBudget} (Ends budget)
        (has_room m g && not budget.exhausted)
        (λ go.
          let sound' : IsGeneration Good m g' =
            record_generated_candidate-keeps Good m new_match none 0 s g (ground arith)
              (λ f.
                new_match-Good s window.tickets
                  (window-Queued remaining slots m.max_candidate_tickets queued) (finds.found f))
              sound in
          branches {A = CandidateGeneration × SearchBudget} (Ends budget) s.found
            (λ _.
              let rest =
                greedy_cover-keeps seeds (remove_placed remaining (ticket_ids (placed s.placement)))
                  g' budget' (left-Queued remaining (ticket_ids (placed s.placement)) queued) sound'
                  (Spends-within budget budget' spends) in
              (rest.0, Spends-trans budget budget' _ spends rest.1))
            (λ _. (sound', spends)))
        (λ _. (marked _ g sound, Spends-refl budget within))

  backfill_shape-Makes :
      (include_anchors : Bool) (alternatives : ℤ) (b : BackfillTicket)
      → Demand b
      → Makes Good m (backfill_shape m include_anchors alternatives b)
  unfolding candidate_of evaluate_for shape_query backfill_shape
  backfill_shape-Makes include_anchors alternatives b demand g s h = record {
    supplied = λ k. omega (
      arith,
      h.supplied k,
      times-select_window k m.available b.open_slots_by_team m.max_candidate_tickets,
    );
    drawn =
        drawn-Queued _ (placed s.placement)
          (window-Queued m.available b.open_slots_by_team m.max_candidate_tickets available-Queued)
          h.drawn;
    some_ticket = h.some_ticket;
    shaped =
        inr (b, demand, record { kind = refl; target = refl; fits = h.fits; passes = h.passes });
  }

  new_match_shape-Makes :
      (alternatives : ℤ)
      → Makes Good m (new_match_shape m (match_slots m.snapshot.policy) alternatives)
  unfolding candidate_of evaluate_for shape_query new_match_shape
  new_match_shape-Makes alternatives g s h = record {
    supplied = λ k. omega (
      arith,
      h.supplied k,
      times-select_window k m.available (match_slots m.snapshot.policy) m.max_candidate_tickets,
    );
    drawn =
        drawn-Queued _ (placed s.placement)
          (window-Queued m.available (match_slots m.snapshot.policy) m.max_candidate_tickets
            available-Queued)
          h.drawn;
    some_ticket = h.some_ticket;
    shaped = inl (record { kind = refl; target = refl; fits = h.fits; passes = h.passes });
  }

  collect_backfills-keeps :
      (include_anchors : Bool) (alternatives : ℤ) (bs : List BackfillTicket)
      (g : CandidateGeneration) (budget : SearchBudget)
      → All Demand bs
      → IsGeneration Good m g
      → budget.used ≤ pos_part budget.max
      → Ends budget (collect_backfills m include_anchors alternatives bs g budget)
  unfolding collect_backfills collect_shape_candidates backfill_shape
  collect_backfills-keeps include_anchors alternatives [] g budget demands sound within =
      (sound, Spends-refl budget within)
  collect_backfills-keeps include_anchors alternatives (b ∷ bs) g budget demands sound within =
      branches {A = CandidateGeneration × SearchBudget} (Ends budget)
        (budget.exhausted || not (has_room m g))
        (λ _. (record { good = sound.good; at_most = sound.at_most }, Spends-refl budget within))
        (λ _.
          let h = backfill_shape m include_anchors alternatives b in
          let r = collect_shape_candidates m h g budget in
          let first : Ends budget r =
            collect_anchors-keeps Good m Safe h
              (backfill_shape-Makes include_anchors alternatives b demands.0)
              (λ i. HasRoster-enough b (safe b demands.0 i)) _ g budget sound within in
          let rest =
            collect_backfills-keeps include_anchors alternatives bs r.0 r.1 demands.1 first.0
              (Spends-within budget r.1 first.1) in
          (rest.0, Spends-trans budget r.1 _ first.1 rest.1))

  greedy_part-keeps :
      (seeds : ℤ) (g : CandidateGeneration) (budget : SearchBudget)
      → IsGeneration Good m g
      → budget.used ≤ pos_part budget.max
      → Ends budget (greedy_part m (match_slots m.snapshot.policy) seeds g budget)
  unfolding greedy_part collect_greedy_cover_candidates
  greedy_part-keeps seeds g budget sound within =
      if_branches {A = CandidateGeneration × SearchBudget} (Ends budget)
        (not budget.exhausted && has_room m g)
        (λ _.
          greedy_cover-keeps (pos_part seeds) m.available g budget available-Queued sound within)
        (λ _. (sound, Spends-refl budget within))

  collect_batch_alternatives-keeps :
      (needed : Bool) (alternatives : ℤ) (g : CandidateGeneration) (budget : SearchBudget)
      → IsGeneration Good m g
      → budget.used ≤ pos_part budget.max
      → Ends budget (
          collect_batch_alternatives m (match_slots m.snapshot.policy) needed alternatives g budget)
  unfolding collect_batch_alternatives collect_shape_candidates new_match_shape
  collect_batch_alternatives-keeps needed alternatives g budget sound within =
      if_branches {A = CandidateGeneration × SearchBudget} (Ends budget)
        (needed && not budget.exhausted && has_room m g)
        (λ _.
          collect_anchors-keeps Good m Safe
            (new_match_shape m (match_slots m.snapshot.policy) alternatives)
            (new_match_shape-Makes alternatives) (λ _. inl refl) _ g budget sound within)
        (λ _. (marked _ g sound, Spends-refl budget within))

  pub generate_proposal_candidates-keeps :
      (backfills : List BackfillTicket) (seeds : ℤ) (expand : Bool) (budget : SearchBudget)
      → All Demand backfills
      → budget.used ≤ pos_part budget.max
      → Ends budget (generate_proposal_candidates m backfills seeds expand budget)
  unfolding generate_proposal_candidates
  generate_proposal_candidates-keeps backfills seeds expand budget demands within =
      let fast = single_select_fast_path m backfills seeds in
      let alternatives = if expand && not fast then m.max_candidates_per_search else pos 1 in
      let slots = match_slots m.snapshot.policy in
      let r = collect_backfills m (not fast) alternatives backfills no_candidates budget in
      let first =
        collect_backfills-keeps (not fast) alternatives backfills no_candidates budget demands
          (record { good = tt; at_most = omega arith }) within in
      let r' = greedy_part m slots seeds r.0 r.1 in
      let second = greedy_part-keeps seeds r.0 r.1 first.0 (Spends-within budget r.1 first.1) in
      let third =
        collect_batch_alternatives-keeps (not fast) alternatives r'.0 r'.1 second.0
          (Spends-within r.1 r'.1 second.1) in
      (
        marked _ _ third.0,
        Spends-trans budget r.1 _ first.1 (Spends-trans r.1 r'.1 _ second.1 third.1),
      )
