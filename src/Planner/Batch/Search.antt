-- ===== src/Planner/Batch/Search.antt =====
-- internal/planner/batch.go: the searches of `selectProposalBatch` and `paretoSelection`.
use Prim.Native.Nat.{min}
use sema.Base.{
  ℕ, zero, suc, ◌+◌, ◌-◌, List, [], ◌∷◌, ◌++◌, Bool, true, false, ◌&&◌, ℤ, pos, negsuc, ltb_ℤ,
  leb_ℤ, ltb, ◌==◌, length, ◌+ℤ◌, ◌*ℤ◌, if◌then◌else◌,
}
use sema.Base.Sort.{sort}
use sema.Domain.Proposal.{is_backfill}
use sema.Objective.{max_ℤ}
use sema.Planner.{ProposalCandidate}
use sema.Planner.Batch.{
  BatchSelection, Used, nothing_used, can_take, mark_candidate, unmark_candidate, greedy_selection,
  selection_upper_bound, selected_backfill_count, selected_oldest, oldest_priority_demand,
  maximum_utility, weigh, try_less, listed_less,
}
use sema.Planner.Batch.Quality.{better_selection}

pub record Limits : Type 0 where
  pub max_proposals : ℕ
  pub max_nodes : ℤ
  pub has_priority_demand : Bool

-- The variables that a call of `search` has changed by the time it is made.
pub record Frame : Type 0 where
  pub selected : List ProposalCandidate
  pub score : ℤ
  pub used : Used

-- The variables that outlive a call.
pub record SearchState : Type 0 where
  pub nodes : ℕ
  pub truncated : Bool
  pub best : List ProposalCandidate
  pub best_score : ℤ

unfoldable pub take : ProposalCandidate → Frame → Frame
take c f = record {
  selected = f.selected ++ c ∷ [];
  score = f.score +ℤ c.effective_utility;
  used = mark_candidate c f.used;
}

-- What a call has when the candidate that it took is taken back.
unfoldable pub take_back : ProposalCandidate → Frame → Frame
take_back c f = record f { used = unmark_candidate c (mark_candidate c f.used) }

abbrev pub truncate : SearchState → SearchState
truncate s = record s { truncated = true }

abbrev pub visit : SearchState → SearchState
visit s = record s { nodes = suc s.nodes }

unfoldable pub offer : Bool → Frame → SearchState → SearchState
offer prefer_pareto f s =
    if better_selection prefer_pareto f.selected f.score s.best s.best_score
    then record s { best = f.selected; best_score = f.score }
    else s

-- `suffixOldestPriority` and `suffixBackfills` at the index of a suffix.
unfoldable pub suffix_oldest_priority : List ProposalCandidate → ℤ
suffix_oldest_priority [] = pos 0
suffix_oldest_priority (c ∷ cs) = max_ℤ (suffix_oldest_priority cs) (oldest_priority_demand c)

unfoldable pub suffix_backfills : List ProposalCandidate → ℕ
suffix_backfills [] = 0
suffix_backfills (c ∷ cs) =
    let rest = suffix_backfills cs in if is_backfill c.kind then suc rest else rest

-- The tests that cut a branch off.
unfoldable pub prunes : Limits → List ProposalCandidate → Frame → SearchState → Bool
prunes l cs f s =
    let room = l.max_proposals - length f.selected in
    let possible = selected_backfill_count f.selected + min room (suffix_backfills cs) in
    let best = selected_backfill_count s.best in
    if l.has_priority_demand
    then if ltb possible best
      then true
      else (possible == best)
        && ltb_ℤ (max_ℤ (selected_oldest (pos 0) f.selected) (suffix_oldest_priority cs))
            (selected_oldest (pos 0) s.best)
    else ltb_ℤ (selection_upper_bound cs room f.score) s.best_score

-- `search` at the index of a suffix of the candidates.
unfoldable pub search_batch : Limits → List ProposalCandidate → Frame → SearchState → SearchState
search_batch l [] f s = elim (leb_ℤ l.max_nodes (pos s.nodes)) [
  | true ↦ truncate s
  | false ↦ offer false f (visit s)
]
search_batch l (c ∷ cs) f s = elim (leb_ℤ l.max_nodes (pos s.nodes)) [
  | true ↦ truncate s
  | false ↦ elim (length f.selected == l.max_proposals) [
    | true ↦ offer false f (visit s)
    | false ↦ elim (prunes l (c ∷ cs) f (visit s)) [
      | true ↦ visit s
      | false ↦ elim (can_take c f.used) [
        | true ↦ search_batch l cs (take_back c f) (search_batch l cs (take c f) (visit s))
        | false ↦ search_batch l cs f (visit s)
      ]
    ]
  ]
]

-- The entry of the search of `paretoSelection`; `each` is its loop.
unfoldable pub pareto_enter :
    Limits → Frame → SearchState → (SearchState → SearchState) → SearchState
pareto_enter l f s each = elim (leb_ℤ l.max_nodes (pos s.nodes)) [
  | true ↦ truncate s
  | false ↦ elim (length f.selected == l.max_proposals) [
    | true ↦ offer true f (visit s)
    | false ↦ each (offer true f (visit s))
  ]
]

-- That loop, from the index of a suffix of the candidates on.
unfoldable pub pareto_each : Limits → List ProposalCandidate → Frame → SearchState → SearchState
unfolding pareto_enter
pareto_each l [] f s = s
pareto_each l (c ∷ cs) f s = elim (can_take c f.used) [
  | false ↦ pareto_each l cs f s
  | true ↦
      let s' = pareto_enter l (take c f) s (pareto_each l cs (take c f)) in
      elim s'.truncated [ true ↦ s' | false ↦ pareto_each l cs (take_back c f) s' ]
]

abbrev pub no_frame : Frame
no_frame = record { selected = []; score = pos 0; used = nothing_used }

-- Where a search starts: with what `greedySelection` found.
unfoldable pub greedy_state : List ProposalCandidate → ℕ → SearchState
greedy_state cs max_proposals =
    let (best, score) = greedy_selection cs max_proposals in
    record { nodes = 0; truncated = false; best = best; best_score = score }

unfoldable pub pareto_selection : List ProposalCandidate → Limits → SearchState
pareto_selection cs l =
    pareto_enter l no_frame (greedy_state cs l.max_proposals) (pareto_each l cs no_frame)

unfoldable pub batch_selection : List ProposalCandidate → Limits → SearchState
batch_selection cs l = search_batch l cs no_frame (greedy_state cs l.max_proposals)

unfoldable pub sum_utility : ℤ → List ProposalCandidate → ℤ
sum_utility n [] = n
sum_utility n (c ∷ cs) = sum_utility (n +ℤ c.utility) cs

unfoldable pub materialize_batch_selection : SearchState → BatchSelection
materialize_batch_selection s = record {
  candidates = sort listed_less s.best;
  total_utility = sum_utility (pos 0) s.best;
  selected_backfills = pos (selected_backfill_count s.best);
  nodes = s.nodes;
  truncated = s.truncated;
}

unfoldable pub any_priority_demand : List ProposalCandidate → Bool
any_priority_demand [] = false
any_priority_demand (c ∷ cs) =
    if length c.priority_demands == 0 then any_priority_demand cs else true

-- The candidates with their effective utilities, in the order in which they are tried.
unfoldable pub ordered_candidates : List ProposalCandidate → ℕ → List ProposalCandidate
ordered_candidates cs max_proposals =
    sort try_less (weigh (pos max_proposals *ℤ maximum_utility (pos 0) cs +ℤ pos 1) cs)

abbrev pub empty_selection : BatchSelection
empty_selection = record {
  candidates = [];
  total_utility = pos 0;
  selected_backfills = pos 0;
  nodes = 0;
  truncated = false;
}

unfoldable pub select_from : List ProposalCandidate → ℕ → ℤ → Bool → BatchSelection
select_from cs max_proposals max_nodes prefer_pareto =
    let ordered = ordered_candidates cs max_proposals in
    let limits : Limits = record {
      max_proposals = max_proposals;
      max_nodes = max_nodes;
      has_priority_demand = any_priority_demand ordered;
    } in
    materialize_batch_selection (elim prefer_pareto [
      | true ↦ pareto_selection ordered limits
      | false ↦ batch_selection ordered limits
    ])

-- `selectProposalBatch`. Of no candidates it makes the empty selection.
unfoldable pub select_proposal_batch : List ProposalCandidate → ℤ → ℤ → Bool → BatchSelection
select_proposal_batch cs (negsuc n) max_nodes prefer_pareto = empty_selection
select_proposal_batch cs (pos zero) max_nodes prefer_pareto = empty_selection
select_proposal_batch [] (pos (suc n)) max_nodes prefer_pareto = empty_selection
select_proposal_batch (c ∷ cs) (pos (suc n)) max_nodes prefer_pareto =
    select_from (c ∷ cs) (suc n) max_nodes prefer_pareto
