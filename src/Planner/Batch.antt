-- ===== src/Planner/Batch.antt =====
-- internal/planner/batch.go: which of the candidates to propose together.
pub mod Quality
pub mod Search
pub mod Invariants
pub mod Disjoint
pub mod Selections
pub mod Greedy
use Prim.Native.Nat.{compare, Ordering, min}
use sema.Base.{
  ℕ, zero, suc, ◌+◌, ◌-◌, Text, Text-discrete, List, [], ◌∷◌, ◌++◌, Option, none, some, Bool, true,
  false, not, ◌&&◌, ◌||◌, ℤ, pos, negsuc, ltb_ℤ, leb_ℤ, is_not_positive, ltb, leb, ◌==◌, has,
  length, holds, ◌+ℤ◌, ◌-ℤ◌, ◌*ℤ◌, quot, bytes_compare, if◌then◌else◌, ℤ-discrete,
}
use sema.Base.Map.{Map, lookup, insert}
use sema.Base.Sort.{sort}
use sema.Domain.{ProposalKind-discrete, MatchTicket, BackfillTarget, ProposalKind, backfill}
use sema.Domain.Proposal.{is_backfill}
use sema.Objective.{compare_evaluations, compare_int, or_else, max_ℤ}
use sema.Planner.{Placement, PriorityDemand, ProposalCandidate, placed, is_lt, is_eq}

pub record BatchSelection : Type 0 where
  pub candidates : List ProposalCandidate
  pub total_utility : ℤ
  pub selected_backfills : ℤ
  pub nodes : ℕ
  pub truncated : Bool

unfoldable pub compare_candidate_quality : ProposalCandidate → ProposalCandidate → Ordering
compare_candidate_quality a b =
    or_else (compare_evaluations a.evaluation b.evaluation) (bytes_compare a.key b.key)

abbrev pub quality_less : ProposalCandidate → ProposalCandidate → Bool
quality_less a b = is_lt (compare_candidate_quality a b)

-- The loop of `rankCandidateUtilities` after the candidate `previous`.
unfoldable pub rank_after :
    ℤ → ℤ → ℕ → ℕ → ProposalCandidate → List ProposalCandidate → List ProposalCandidate
rank_after admission total index group_start previous [] = []
rank_after admission total index group_start previous (c ∷ cs) =
    let start =
      if is_eq (compare_evaluations previous.evaluation c.evaluation) then group_start else index in
    record c { utility = admission +ℤ (total -ℤ pos start) }
    ∷ rank_after admission total (suc index) start c cs

unfoldable pub rank_sorted : ℤ → ℤ → List ProposalCandidate → List ProposalCandidate
rank_sorted admission total [] = []
rank_sorted admission total (c ∷ cs) =
    record c { utility = admission +ℤ total } ∷ rank_after admission total 1 0 c cs

-- `rankCandidateUtilities`, which sorts and ranks in place.
unfoldable pub rank_candidate_utilities : List ProposalCandidate → ℤ → List ProposalCandidate
rank_candidate_utilities candidates max_proposals =
    let total = pos (length candidates) in
    rank_sorted (max_proposals *ℤ total +ℤ pos 1) total (sort quality_less candidates)

-- The oldest demand comes first in a candidate.
unfoldable pub oldest_of : List PriorityDemand → ℤ
oldest_of [] = pos 0
oldest_of (d ∷ ds) = d.wait_millis

unfoldable pub oldest_priority_demand : ProposalCandidate → ℤ
oldest_priority_demand c = oldest_of c.priority_demands

unfoldable pub compare_priority_demands : List PriorityDemand → List PriorityDemand → Ordering
compare_priority_demands a b =
    or_else (compare_int (oldest_of b) (oldest_of a)) (compare (length b) (length a))

unfoldable pub compare_priority_demand : PriorityDemand → PriorityDemand → Ordering
compare_priority_demand a b =
    or_else (compare_int b.wait_millis a.wait_millis) (bytes_compare a.key b.key)

abbrev pub demand_less : PriorityDemand → PriorityDemand → Bool
demand_less a b = is_lt (compare_priority_demand a b)

unfoldable pub maximum_utility : ℤ → List ProposalCandidate → ℤ
maximum_utility n [] = n
maximum_utility n (c ∷ cs) = maximum_utility (if ltb_ℤ n c.utility then c.utility else n) cs

unfoldable pub weigh : ℤ → List ProposalCandidate → List ProposalCandidate
weigh bonus [] = []
weigh bonus (c ∷ cs) =
    record c { effective_utility = if is_backfill c.kind then c.utility +ℤ bonus else c.utility }
    ∷ weigh bonus cs

-- The order in which candidates of one kind are tried.
unfoldable pub compare_within_kind : ProposalCandidate → ProposalCandidate → Ordering
compare_within_kind a b =
    or_else (compare_priority_demands a.priority_demands b.priority_demands)
      (or_else (compare_int b.effective_utility a.effective_utility) (bytes_compare a.key b.key))

-- A candidate's kind is that of a new match or a backfill; backfills come first.
unfoldable pub try_less : ProposalCandidate → ProposalCandidate → Bool
try_less a b =
    if holds (ProposalKind-discrete a.kind b.kind)
    then is_lt (compare_within_kind a b)
    else is_backfill a.kind

unfoldable pub listed_less : ProposalCandidate → ProposalCandidate → Bool
listed_less a b =
    if holds (ProposalKind-discrete a.kind b.kind) then quality_less a b else is_backfill a.kind

-- The names that some tickets, and the target of a candidate, use up.
unfoldable pub ticket_ids : List MatchTicket → List Text
ticket_ids [] = []
ticket_ids (t ∷ ts) = t.id ∷ ticket_ids ts

-- What the names of some candidates are, one candidate after another.
unfoldable pub all_names : (ProposalCandidate → List Text) → List ProposalCandidate → List Text
all_names names [] = []
all_names names (c ∷ cs) = names c ++ all_names names cs

abbrev pub supply : ProposalCandidate → List Text
supply c = ticket_ids (placed c.placement)

unfoldable pub any_has : List Text → List Text → Bool
any_has [] used = false
any_has (k ∷ ks) used = if has k used then true else any_has ks used

abbrev pub backfill_ids : Option BackfillTarget → List Text
backfill_ids none = []
backfill_ids (some target) = target.ticket.id ∷ []

abbrev pub targets : ProposalCandidate → List Text
targets c = backfill_ids c.target

-- `usedTickets` and `usedBackfills`.
pub record Used : Type 0 where
  pub tickets : List Text
  pub backfills : List Text

abbrev pub nothing_used : Used
nothing_used = record { tickets = []; backfills = [] }

unfoldable pub candidate_available : ProposalCandidate → Used → Bool
candidate_available c used =
    not (any_has (supply c) used.tickets) && not (any_has (targets c) used.backfills)

-- `markCandidate` with `true`.
unfoldable pub mark_candidate : ProposalCandidate → Used → Used
mark_candidate c used = record {
  tickets = supply c ++ used.tickets;
  backfills = targets c ++ used.backfills;
}

-- `delete(m, k)` for every name of a list.
unfoldable pub without : Text → List Text → List Text
without k [] = []
without k (x ∷ xs) = if holds (Text-discrete x k) then without k xs else x ∷ without k xs

unfoldable pub without_all : List Text → List Text → List Text
without_all [] used = used
without_all (k ∷ ks) used = without_all ks (without k used)

-- `markCandidate` with `false`.
unfoldable pub unmark_candidate : ProposalCandidate → Used → Used
unmark_candidate c used = record {
  tickets = without_all (supply c) used.tickets;
  backfills = without_all (targets c) used.backfills;
}

-- `candidate.utility > 0 && candidateAvailable(…)`.
unfoldable pub can_take : ProposalCandidate → Used → Bool
can_take c used = not (is_not_positive c.utility) && candidate_available c used

-- The loop of `greedySelection`, with room for so many more. An index into the candidates is here
-- the candidate at it.
unfoldable pub greedy :
    ℕ → List ProposalCandidate → Used → ℤ → List ProposalCandidate → List ProposalCandidate × ℤ
greedy room selected used score [] = (selected, score)
greedy zero selected used score (c ∷ cs) = (selected, score)
greedy (suc room) selected used score (c ∷ cs) = elim (can_take c used) [
  | true ↦
      greedy room (selected ++ c ∷ []) (mark_candidate c used) (score +ℤ c.effective_utility) cs
  | false ↦ greedy (suc room) selected used score cs
]

unfoldable pub greedy_selection : List ProposalCandidate → ℕ → List ProposalCandidate × ℤ
greedy_selection candidates max_proposals = greedy max_proposals [] nothing_used (pos 0) candidates

unfoldable pub selection_upper_bound : List ProposalCandidate → ℕ → ℤ → ℤ
selection_upper_bound [] slots score = score
selection_upper_bound (c ∷ cs) zero score = score
selection_upper_bound (c ∷ cs) (suc slots) score = elim (is_not_positive c.utility) [
  | true ↦ selection_upper_bound cs (suc slots) score
  | false ↦ selection_upper_bound cs slots (score +ℤ c.effective_utility)
]

unfoldable pub selected_backfill_count : List ProposalCandidate → ℕ
selected_backfill_count [] = 0
selected_backfill_count (c ∷ cs) =
    let rest = selected_backfill_count cs in if is_backfill c.kind then suc rest else rest

-- `selectedPriorityQuality`: the oldest demand and the number of demands.
unfoldable pub selected_oldest : ℤ → List ProposalCandidate → ℤ
selected_oldest n [] = n
selected_oldest n (c ∷ cs) = selected_oldest (max_ℤ n (oldest_priority_demand c)) cs

unfoldable pub selected_priority_count : List ProposalCandidate → ℕ
selected_priority_count [] = 0
selected_priority_count (c ∷ cs) = length c.priority_demands + selected_priority_count cs

-- `selectionKey`: the keys in order, joined by zero bytes.
abbrev pub text_below : Text → Text → Bool
text_below a b = is_lt (bytes_compare a b)

unfoldable pub keys_of : List ProposalCandidate → List Text
keys_of [] = []
keys_of (c ∷ cs) = c.key ∷ keys_of cs

unfoldable pub join_after : Text → List Text → Text
join_after k [] = k
join_after k (j ∷ js) = k ++ (0 ∷ join_after j js)

unfoldable pub join : List Text → Text
join [] = []
join (k ∷ ks) = join_after k ks

unfoldable pub selection_key : List ProposalCandidate → Text
selection_key selected = join (sort text_below (keys_of selected))
