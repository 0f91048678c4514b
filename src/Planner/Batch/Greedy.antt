-- ===== src/Planner/Batch/Greedy.antt =====
-- internal/planner/batch.go: the search of `selectProposalBatch` improves on its start.
use sema.Planner.Batch.Invariants.{search_batch-keeps}
use sema.Planner.Batch.Search.{
  no_frame, Frame, Limits, greedy_state, SearchState, batch_selection, offer,
}
use sema.Objective.{compare_int}
use sema.Planner.Batch.{
  greedy_selection, selected_priority_count, selected_oldest, selected_backfill_count,
  selection_key,
}
use sema.Planner.Batch.Quality.{better_selection, compare_selections}
use sema.Planner.{ProposalCandidate}
use Prim.Native.Nat.{compare, Ordering}
use sema.Base.{
  sym, subst, All, length, pos, if_branches, false, refl, arith, bytes_compare, List, [], ◌∷◌, Text,
  ◌≡◌, ℤ, ℕ,
}
use sema.Objective.Order.{Chain, Chain-or_else}

-- The larger number comes first.
Chain-compare : (a b c : ℕ) → Chain (compare b a) (compare c b) (compare c a)
Chain-compare a b c = ground arith

Chain-compare_int_down : (a b c : ℤ) → Chain (compare_int b a) (compare_int c b) (compare_int c a)
Chain-compare_int_down a b c = ground arith

Chain-bytes_compare :
    (a b c : Text) → Chain (bytes_compare a b) (bytes_compare b c) (bytes_compare a c)
unfolding bytes_compare
Chain-bytes_compare [] [] c = refl
Chain-bytes_compare [] (y ∷ b) [] = tt
Chain-bytes_compare [] (y ∷ b) (z ∷ c) = ground arith
Chain-bytes_compare (x ∷ a) [] [] = refl
Chain-bytes_compare (x ∷ a) [] (z ∷ c) = tt
Chain-bytes_compare (x ∷ a) (y ∷ b) [] = ground arith
Chain-bytes_compare (x ∷ a) (y ∷ b) (z ∷ c) = ground (arith, Chain-bytes_compare a b c)

bytes_compare_self : (a : Text) → bytes_compare a a ≡ Ordering.eq
unfolding bytes_compare
bytes_compare_self [] = refl
bytes_compare_self (x ∷ a) = ground (arith, bytes_compare_self a)

module _ (a b c : List ProposalCandidate) (m n p : ℤ) where
  Chain-compare_selections :
      Chain
        (compare_selections false a m b n)
        (compare_selections false b n c p)
        (compare_selections false a m c p)
  unfolding compare_selections
  Chain-compare_selections =
      Chain-or_else _ _ _ _ _ _
        (Chain-compare (selected_backfill_count a) (selected_backfill_count b)
          (selected_backfill_count c))
        (Chain-or_else _ _ _ _ _ _
          (Chain-compare_int_down (selected_oldest (pos 0) a) (selected_oldest (pos 0) b)
            (selected_oldest (pos 0) c))
          (Chain-or_else _ _ _ _ _ _
            (Chain-compare (selected_priority_count a) (selected_priority_count b)
              (selected_priority_count c))
            (Chain-or_else Ordering.eq Ordering.eq Ordering.eq _ _ _ refl (
              Chain-or_else _ _ _ _ _ _ (Chain-compare_int_down m n p) (
                Chain-or_else _ _ _ _ _ _ (Chain-compare (length a) (length b) (length c))
                  (Chain-bytes_compare (selection_key a) (selection_key b) (selection_key c)))))))

compare_selections_self :
    (a : List ProposalCandidate) (m : ℤ) → compare_selections false a m a m ≡ Ordering.eq
unfolding compare_selections
compare_selections_self a m = ground (arith, bytes_compare_self (selection_key a))

-- `chosen` is at least as good as `start`.
abbrev NotWorse : List ProposalCandidate → ℤ → SearchState → Type 0
NotWorse start score s = better_selection false start score s.best s.best_score ≡ false

offer-NotWorse :
    (start : List ProposalCandidate) (score : ℤ) (f : Frame) (s : SearchState)
    → NotWorse start score s
    → NotWorse start score (offer false f s)
unfolding offer better_selection
offer-NotWorse start score f s h =
    if_branches (NotWorse start score)
      (better_selection false f.selected f.score s.best s.best_score)
      (λ better.
        ground (arith, Chain-compare_selections start f.selected s.best score f.score s.best_score))
      (λ _. h)

All-Unit : (cs : List ProposalCandidate) → All (λ c. Unit {0}) cs
All-Unit [] = tt
All-Unit (c ∷ cs) = (tt, All-Unit cs)

-- Without the Pareto preference, `greedySelection` never beats what the search of `selectProposalBatch`
-- ends with, whatever the limits on proposals and nodes are and where the search is cut off.
pub batch_selection-greedy_selection :
    (cs : List ProposalCandidate) (l : Limits)
    → let g = greedy_selection cs l.max_proposals in
      let s = batch_selection cs l in better_selection false g.0 g.1 s.best s.best_score ≡ false
unfolding batch_selection greedy_state better_selection
batch_selection-greedy_selection cs l =
    let (start, score) = greedy_selection cs l.max_proposals in
    search_batch-keeps l (λ c. Unit {0}) (λ f. Unit {0}) (NotWorse start score) false
      (λ b f s e fine h.
        subst (λ b'. NotWorse start score (offer b' f s)) (sym e)
          (offer-NotWorse start score f s h))
      (λ s h. h) (λ s h g. g) (λ c f from room free fine. tt) (λ c f free fine. tt) refl cs no_frame
      (greedy_state cs l.max_proposals) (All-Unit cs) tt
      (ground (arith, compare_selections_self start score))
