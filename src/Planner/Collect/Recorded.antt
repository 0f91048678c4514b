-- ===== src/Planner/Collect/Recorded.antt =====
-- internal/planner/planner.go: what every candidate satisfies that a generation records, how many it
-- records, and the budget that it spends.
use sema.Planner.Search.{find_best_placement}
use sema.Planner.Search.Found.{
  Spends-within, Spends-trans, find_best_placement-Found, Spends-refl, Spends, Spends-map,
  Evaluable, IsProposable,
}
use sema.Planner.Collect.{
  collect_anchors, record_results, shape_query, expand_placement_alternatives, or_itself,
  results_of, Shape,
}
use sema.Planner.Search.Placements.{Finds}
use sema.Planner.Placement.{replaces, PlacementAlternative, SearchBudget, PlacementSearch}
use sema.Planner.Candidates.{
  candidate_of, prepare_search_evidence, CandidateGeneration, has_room, record_candidate,
  record_generated_candidate, Generator,
}
use sema.Planner.{Placement, ProposalCandidate}
use sema.Base.{
  ◌⊎◌, [], ◌∷◌, not, ◌||◌, Text-discrete, branches, Text, arith, holds, Option, if_branches, suc,
  ◌<◌, length, true, ◌∷◌, List, pos, pos_part, ◌≡◌, ◌≤◌, All,
}
use sema.Domain.{Time, BackfillTarget, ProposalKind}

-- Candidates that are good, and no more of them than the limit.
pub record IsGeneration {ℓ} (Good : ProposalCandidate → Type ℓ) (m : Generator)
    (g : CandidateGeneration) : Type ℓ where
  pub good : All Good g.candidates
  pub at_most : length g.candidates ≤ pos_part m.max_batch_candidates

module _ {ℓ} (Good : ProposalCandidate → Type ℓ) (m : Generator) where
  All-record_candidate :
      (c : ProposalCandidate) (ds : List ProposalCandidate)
      → Good c
      → All Good ds
      → All Good (record_candidate c ds)
  unfolding record_candidate
  All-record_candidate c [] good rest = (good, tt)
  All-record_candidate c (d ∷ ds) good rest =
      if_branches (All Good) (holds (Text-discrete d.key c.key))
        (λ _. (
          if_branches {A = ProposalCandidate} Good
              (replaces c.evaluation c.placement d.evaluation d.placement) (λ _. good)
              (λ _. rest.0),
          rest.1,
        ))
        (λ _. (rest.0, All-record_candidate c ds good rest.1))

  length-record_candidate :
      (c : ProposalCandidate) (ds : List ProposalCandidate)
      → length (record_candidate c ds) ≤ suc (length ds)
  unfolding record_candidate
  length-record_candidate c [] = omega arith
  length-record_candidate c (d ∷ ds) =
      if_branches {A = List ProposalCandidate} (λ r. length r ≤ suc (suc (length ds)))
        (holds (Text-discrete d.key c.key)) (λ _. omega arith)
        (λ _. omega (arith, length-record_candidate c ds))

  has_room-length :
      (g : CandidateGeneration)
      → has_room m g ≡ true
      → length g.candidates < pos_part m.max_batch_candidates
  unfolding has_room
  has_room-length g h = ground arith

  pub record_generated_candidate-keeps :
      (kind : ProposalKind) (target : Option BackfillTarget) (enqueued_at : Time)
      (s : PlacementSearch) (g : CandidateGeneration)
      → has_room m g ≡ true
      → (s.found ≡ true → Good (candidate_of m.snapshot s kind target enqueued_at))
      → IsGeneration Good m g
      → IsGeneration Good m (record_generated_candidate m.snapshot kind target enqueued_at s g)
  unfolding record_generated_candidate
  record_generated_candidate-keeps kind target enqueued_at s g room good sound =
      let c = candidate_of m.snapshot s kind target enqueued_at in
      record {
        good =
            if_branches (All Good) s.found
              (λ found. All-record_candidate c g.candidates (good found) sound.good)
              (λ _. sound.good);
        at_most =
            if_branches {A = List ProposalCandidate}
              (λ r. length r ≤ pos_part m.max_batch_candidates) s.found
              (λ _. omega (arith, length-record_candidate c g.candidates, has_room-length g room))
              (λ _. sound.at_most);
      }

-- The searches that a search with alternatives stands for find what it finds.
module _ {ℓ} (P : Placement → Type ℓ) (s : PlacementSearch) (finds : Finds P s) where
  abbrev Found : PlacementSearch → Type ℓ
  Found r = r.found ≡ true → P r.placement

  expand-Found :
      (alternatives : List PlacementAlternative)
      → All (λ a. P a.placement) alternatives
      → All Found (expand_placement_alternatives s alternatives)
  unfolding expand_placement_alternatives
  expand-Found [] good = tt
  expand-Found (a ∷ rest) good = (λ _. good.0, expand-Found rest good.1)

  or_itself-Found : (rs : List PlacementSearch) → All Found rs → All Found (or_itself s rs)
  unfolding or_itself
  or_itself-Found [] good = (finds.found, tt)
  or_itself-Found (r ∷ rs) good = good

  pub results_of-Found : All Found (results_of s)
  unfolding results_of
  results_of-Found = or_itself-Found _ (expand-Found s.alternatives finds.alternatives)

-- A shape all of whose placements make good candidates.
module _ {ℓ} (Good : ProposalCandidate → Type ℓ) (m : Generator) where
  abbrev pub Makes : Shape → Type ℓ
  Makes h =
      (g : CandidateGeneration) (s : PlacementSearch)
      → IsProposable (shape_query m h g) h.tickets h.slots s.placement
      → Good (candidate_of m.snapshot s h.kind h.target h.backfill_enqueued_at)

  module _ (Safe : Type 0) (h : Shape) (makes : Makes h)
      (safe : Safe
        → (length h.existing_teams ≡ 0) ⊎ (length h.slots ≤ length h.existing_teams)) where
    record_results-keeps :
        (g' : CandidateGeneration) (ss : List PlacementSearch) (g : CandidateGeneration)
        → All
            (λ s. s.found ≡ true → IsProposable (shape_query m h g') h.tickets h.slots s.placement)
            ss
        → has_room m g ≡ true
        → IsGeneration Good m g
        → IsGeneration Good m (record_results m h ss g)
    unfolding record_results prepare_search_evidence
    record_results-keeps g' [] g found room sound = sound
    record_results-keeps g' (s ∷ ss) g found room sound =
        let s' = prepare_search_evidence (pos (length h.tickets)) h.window_truncated s in
        let g'' =
          record_generated_candidate m.snapshot h.kind h.target h.backfill_enqueued_at s' g in
        let sound' : IsGeneration Good m g'' =
          record_generated_candidate-keeps Good m h.kind h.target h.backfill_enqueued_at s' g room
            (λ f. makes g' s' (found.0 f)) sound in
        branches (IsGeneration Good m) (has_room m g'')
          (λ room'. record_results-keeps g' ss g'' found.1 room' sound') (λ _. sound')

    abbrev Ends : SearchBudget → CandidateGeneration × SearchBudget → Type ℓ
    Ends budget r = IsGeneration Good m r.0 × Spends Safe budget r.1

    pub collect_anchors-keeps :
        (anchors : List Text) (g : CandidateGeneration) (budget : SearchBudget)
        → IsGeneration Good m g
        → budget.used ≤ pos_part budget.max
        → Ends budget (collect_anchors m h anchors g budget)
    unfolding collect_anchors shape_query
    collect_anchors-keeps [] g budget sound within = (sound, Spends-refl budget within)
    collect_anchors-keeps (anchor ∷ anchors) g budget sound within =
        branches (Ends budget) (budget.exhausted || not (has_room m g))
          (λ _. (record { good = sound.good; at_most = sound.at_most }, Spends-refl budget within))
          (λ go.
            let (s, budget') =
              find_best_placement (shape_query m h g) anchor h.tickets h.slots budget in
            let found =
              find_best_placement-Found (shape_query m h g) anchor h.tickets h.slots budget
                within in
            let spends : Spends Safe budget budget' =
              Spends-map (Evaluable (shape_query m h g) h.slots) Safe budget budget' safe found.1 in
            let rest =
              collect_anchors-keeps anchors (record_results m h (results_of s) g) budget'
                (record_results-keeps g (results_of s) g (results_of-Found _ s found.0)
                  (ground arith) sound)
                (Spends-within budget budget' spends) in
            (rest.0, Spends-trans budget budget' _ spends rest.1))
