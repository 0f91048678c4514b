-- ===== src/Planner/Search.antt =====
-- internal/planner/planner.go: `findBestPlacement`, the bounded search for the best teams.
pub mod Invariants
pub mod Placements
pub mod Seats
pub mod Found
use sema.Base.{
  ◌-◌, is_blank, Text, negsuc, ℕ, zero, suc, Text-discrete, List, [], ◌∷◌, Option, none, some, Bool,
  true, false, not, ◌||◌, ℤ, pos, ltb_ℤ, leb_ℤ, is_zero, ◌==◌, length, ◌+ℤ◌, ◌-ℤ◌, holds,
  if◌then◌else◌,
}
use sema.Base.Sort.{sort}
use sema.Domain.{MatchTicket}
use sema.Planner.Teams.{
  Team, TeamCandidate, assign, candidate_teams, fresh_teams, seen_state, state_of,
}
use sema.Planner.Placement.{
  PlacementAlternative, PlacementSearch, Query, Run, SearchBudget, alternative_less, complete,
  no_search,
}
use sema.Planner.{total_skill}
use sema.Planner.Batch.Quality.{players_of}

-- The loop over the candidate teams of a ticket. `descend` is the search on from given teams. What
-- the ticket changed of a team is changed back after it, so the loop keeps its own teams.
unfoldable pub try_teams :
    (List Team → Run → Bool × Run)
    → List Team
    → ℕ
    → MatchTicket
    → List (ℤ × ℤ)
    → List TeamCandidate
    → Run
    → Bool × Run
try_teams descend teams index t seen [] run = (false, run)
try_teams descend teams index t seen (c ∷ cs) run = elim (seen_state (state_of teams c.team) seen) [
  | true ↦ try_teams descend teams index t seen cs run
  | false ↦
      let outcome = descend (assign teams c.team index t) run in
      elim outcome.0 [
        | true ↦ (true, outcome.1)
        | false ↦ try_teams descend teams index t (state_of teams c.team ∷ seen) cs outcome.1
      ]
]

-- `budget.visit`.
unfoldable pub can_visit : SearchBudget → Bool
can_visit b = not (leb_ℤ b.max (pos b.used))

abbrev pub exhaust : Run → Run
exhaust run = record run { budget = record run.budget { exhausted = true } }

abbrev pub visit : Run → Run
visit run = record run { budget = record run.budget { used = suc run.budget.used } }

abbrev pub is_required : ℕ → Option ℕ → Bool
is_required i none = false
is_required i (some j) = i == j

-- `search` at the index of a suffix of the tickets: whether it stops the whole search, and the run.
unfoldable pub search : Query → List MatchTicket → ℕ → ℤ → List Team → Run → Bool × Run
search q [] index needed teams run = elim (can_visit run.budget) [
  | false ↦ (true, exhaust run)
  | true ↦ elim (is_zero needed) [
    | true ↦ complete q teams (visit run)
    | false ↦ (false, visit run)
  ]
]
search q (t ∷ ts) index needed teams run = elim (can_visit run.budget) [
  | false ↦ (true, exhaust run)
  | true ↦ elim (is_zero needed) [
    | true ↦ complete q teams (visit run)
    | false ↦ elim (ltb_ℤ (pos (players_of (t ∷ ts))) needed) [
      | true ↦ (false, visit run)
      | false ↦
          let size = pos (length t.players) in
          let outcome =
            try_teams (search q ts (suc index) (needed -ℤ size)) teams index t []
              (candidate_teams teams size (total_skill (pos 0) t.players)) (visit run) in
          elim outcome.0 [
            | true ↦ (true, outcome.1)
            | false ↦ elim (is_required index q.required) [
              | true ↦ (false, outcome.1)
              | false ↦ search q ts (suc index) needed teams outcome.1
            ]
          ]
    ]
  ]
]

unfoldable pub total_needed : ℤ → List ℤ → ℤ
total_needed n [] = n
total_needed n (s ∷ ss) = total_needed (n +ℤ s) ss

-- The position of a ticket, the first ticket standing at `index`.
unfoldable pub find_required : Text → ℕ → List MatchTicket → Option ℕ
find_required id index [] = none
find_required id index (t ∷ ts) =
    if holds (Text-discrete t.id id) then some index else find_required id (suc index) ts

unfoldable pub take_alternatives : ℕ → List PlacementAlternative → List PlacementAlternative
take_alternatives zero found = []
take_alternatives (suc n) [] = []
take_alternatives (suc n) (a ∷ found) = a ∷ take_alternatives n found

-- `alternatives[:maxAlternatives]`, where there are more than one to keep.
unfoldable pub cut_alternatives : ℤ → List PlacementAlternative → List PlacementAlternative
cut_alternatives (pos n) found = take_alternatives n found
cut_alternatives (negsuc n) found = found

unfoldable pub lead : List PlacementAlternative → PlacementSearch → PlacementSearch
lead [] r = r
lead (a ∷ found) r = record r { placement = a.placement; evaluation = a.evaluation; found = true }

-- The choice among alternatives, after the search.
unfoldable pub choose_alternative : ℤ → PlacementSearch → PlacementSearch
choose_alternative max_alternatives r =
    let kept = cut_alternatives max_alternatives (sort alternative_less r.alternatives) in
    if ltb_ℤ (pos 1) max_alternatives then lead kept (record r { alternatives = kept }) else r

-- The evidence of the search, in that of the chosen placement.
unfoldable pub with_search_evidence : Bool → PlacementSearch → PlacementSearch
with_search_evidence exhausted r = record r {
  evaluation = record r.evaluation {
    evidence = record r.evaluation.evidence {
      candidates_evaluated = pos r.exact_candidates;
      search_nodes = pos r.search_nodes;
      search_truncated = r.truncated || exhausted;
    };
  };
}

-- The end of `findBestPlacement`, for a search that began with so many nodes used.
unfoldable pub finish : Query → ℕ → Run → PlacementSearch × SearchBudget
finish q start run = (
  with_search_evidence run.budget.exhausted (
      choose_alternative q.max_alternatives
        (record run.result { search_nodes = run.budget.used - start })),
  run.budget,
)

unfoldable pub run_search :
    Query → List MatchTicket → List ℤ → ℤ → SearchBudget → PlacementSearch × SearchBudget
run_search q tickets slots needed budget =
    finish q budget.used
      (search q tickets 0 needed (fresh_teams slots)
        (record { budget = budget; result = no_search })).1

-- `findBestPlacement`, whose query is complete but for the position of the required ticket.
unfoldable pub find_best_placement :
    Query → Text → List MatchTicket → List ℤ → SearchBudget → PlacementSearch × SearchBudget
find_best_placement q required_ticket tickets slots budget =
    let needed = total_needed (pos 0) slots in
    let required = find_required required_ticket 0 tickets in
    if is_zero needed || ltb_ℤ (pos (players_of tickets)) needed
    then (no_search, budget)
    else if is_blank required_ticket
    then run_search (record q { required = none }) tickets slots needed budget
    else elim required [
      | none ↦ (no_search, budget)
      | some i ↦ run_search (record q { required = some i }) tickets slots needed budget
    ]
