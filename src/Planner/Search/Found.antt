-- ===== src/Planner/Search/Found.antt =====
-- internal/planner/planner.go: `findBestPlacement` finds only placements that may be proposed, and
-- stays within its budget.
use sema.Planner.Batch.Quality.{players_of}
use sema.Planner.Search.Invariants.{search-keeps}
use sema.Planner.Search.Placements.{
  Finds-map, finish-Finds, Finds-no_search, Passes, complete-Finds, Finds,
}
use sema.Planner.Batch.{ticket_ids}
use sema.Domain.Proposal.{is_backfill}
use sema.Objective.{Evaluation}
use sema.Objective.Evaluate.{evaluate_placement, evaluate}
use sema.Objective.Evaluate.Total.{evaluate_backfill_total}
use sema.Planner.Teams.{materialize_placement, assign, state_of, fresh_teams, Team}
use sema.Planner.Search.Seats.{
  length-crew-assign, All-crew-assign, All-crew-fresh_teams, crew, Seated-fresh_teams,
  Supplied-fresh_teams, Supplied-skip, Seated-assign, Supplied-assign, FitsSlots, Seated,
  Seated-FitsSlots, Supplied, IsSlot,
}
use sema.Planner.{placed, Placement}
use sema.Planner.Search.{
  search, find_required, total_needed, visit, finish, can_visit, run_search, find_best_placement,
}
use sema.Planner.Placement.{
  complete_evaluated, misses_required, PlacementSearch, evaluate_for, no_search, Run, complete,
  Query, SearchBudget,
}
use sema.Base.{
  [], zero, Bool, Member, All-Member, length, inl, inr, ◌⊎◌, ◌-ℤ◌, ◌∷◌, false, true,
  option_branches, is_blank, ltb_ℤ, ◌||◌, is_zero, if_branches, ap, suc, sym, subst, ◌<◌, none,
  some, Option, true, refl, arith, ◌∙◌, List, Text, ℕ, ℤ, pos, pos_part, ◌≡◌, ◌≤◌, times, All,
}
use sema.Domain.{MatchTicket}

-- What may be proposed: tickets of the queue, at least one and none twice, no team over its slots and
-- no hard rule broken.
pub record IsProposable (q : Query) (tickets : List MatchTicket) (slots : List ℤ) (p : Placement)
    : Type 0 where
  pub supplied : (k : Text) → times k (ticket_ids (placed p)) ≤ times k (ticket_ids tickets)
  pub fits : All IsSlot slots → FitsSlots slots p
  pub passes : Passes q p
  pub drawn : All (λ t. Member t tickets) (placed p)
  pub some_ticket : 1 ≤ length (placed p)

-- No team is without a roster summary, or there is none at all.
abbrev pub Evaluable : Query → List ℤ → Type 0
Evaluable q slots = (length q.existing_teams ≡ 0) ⊎ (length slots ≤ length q.existing_teams)

-- A budget is spent from `start` on, and never beyond its limit; where it is safe, without a panic.
pub record Spends (Safe : Type 0) (start : SearchBudget) (b : SearchBudget) : Type 0 where
  pub limit : b.max ≡ start.max
  pub grows : start.used ≤ b.used
  pub within : b.used ≤ pos_part start.max
  pub calm : Safe → b.panicked ≡ start.panicked

module _ {Safe : Type 0} where
  pub Spends-refl : (b : SearchBudget) → b.used ≤ pos_part b.max → Spends Safe b b
  Spends-refl b h = record { limit = refl; grows = omega arith; within = h; calm = λ _. refl }

  pub Spends-within : (a b : SearchBudget) → Spends Safe a b → b.used ≤ pos_part b.max
  Spends-within a b h = subst (λ n. b.used ≤ n) (sym (ap pos_part h.limit)) h.within

  pub Spends-trans : (a b c : SearchBudget) → Spends Safe a b → Spends Safe b c → Spends Safe a c
  Spends-trans a b c h g = record {
    limit = g.limit ∙ h.limit;
    grows = omega (arith, h.grows, g.grows);
    within = ground (arith, g.within, h.limit);
    calm = λ safe. g.calm safe ∙ h.calm safe;
  }

-- Where one condition is safe, another is that implies it.
pub Spends-map :
    (Safe Safer : Type 0) (a b : SearchBudget) → (Safer → Safe) → Spends Safe a b → Spends Safer a b
Spends-map Safe Safer a b f h = record {
  limit = h.limit;
  grows = h.grows;
  within = h.within;
  calm = λ safe. h.calm (f safe);
}

length-assign :
    (teams : List Team) (team index : ℕ) (t : MatchTicket)
    → length (assign teams team index t) ≡ length teams
unfolding assign
length-assign [] team index t = refl
length-assign (x ∷ xs) zero index t = refl
length-assign (x ∷ xs) (suc team) index t = ap suc (length-assign xs team index t)

length-fresh_teams : (slots : List ℤ) → length (fresh_teams slots) ≡ length slots
unfolding fresh_teams
length-fresh_teams [] = refl
length-fresh_teams (s ∷ ss) = ap suc (length-fresh_teams ss)

length-materialize_placement :
    (teams : List Team) → length (materialize_placement teams) ≡ length teams
unfolding materialize_placement
length-materialize_placement [] = refl
length-materialize_placement (t ∷ ts) = ap suc (length-materialize_placement ts)

evaluate_for_total :
    (q : Query) (slots : List ℤ) (p : Placement)
    → Evaluable q slots
    → length p ≡ length slots
    → (e : Evaluation) × (evaluate_for q p ≡ some e)
unfolding evaluate_for evaluate_placement evaluate
evaluate_for_total q slots p safe same =
    if_branches {A = Option Evaluation} (λ o. (e : Evaluation) × (o ≡ some e)) (is_backfill q.kind)
      (λ _.
        evaluate_backfill_total q.now p q.policy q.existing_teams q.backfill_enqueued_at
          (elim safe [
            | inl none_there ↦ inl none_there
            | inr enough ↦ inr (omega (arith, same, enough))
          ]))
      (λ _. (_, refl))

can_visit-room : (b : SearchBudget) → can_visit b ≡ true → b.used < pos_part b.max
unfolding can_visit
can_visit-room b h = ground arith

complete_evaluated-Spends :
    (Safe : Type 0) (start : SearchBudget) (q : Query) (p : Placement) (o : Option Evaluation)
    (run : Run)
    → (Safe → (e : Evaluation) × (o ≡ some e))
    → Spends Safe start run.budget
    → Spends Safe start (complete_evaluated q p o run).1.budget
unfolding complete_evaluated
complete_evaluated-Spends Safe start q p none run total spent = record {
  limit = spent.limit;
  grows = spent.grows;
  within = spent.within;
  calm = λ safe. let there = (total safe).1 in absurd (ground arith);
}
complete_evaluated-Spends Safe start q p (some e) run total spent =
    if_branches {A = Bool × Run} (λ o. Spends Safe start o.1.budget) _ (λ _. spent) (λ _. spent)

complete-Spends :
    (Safe : Type 0) (start : SearchBudget) (q : Query) (teams : List Team) (run : Run)
    → (Safe → (e : Evaluation) × (evaluate_for q (materialize_placement teams) ≡ some e))
    → Spends Safe start run.budget
    → Spends Safe start (complete q teams run).1.budget
unfolding complete
complete-Spends Safe start q teams run total spent =
    if_branches {A = Bool × Run} (λ o. Spends Safe start o.1.budget)
      (misses_required q.required teams) (λ _. spent)
      (λ _. complete_evaluated-Spends Safe start q _ _ run total spent)

module _ (q : Query) (tickets : List MatchTicket) (slots : List ℤ) (budget : SearchBudget)
    (within : budget.used ≤ pos_part budget.max) (total : ℤ) (wanted : is_zero total ≡ false) where
  abbrev Sound : Run → Type 0
  Sound run =
      Finds (IsProposable q tickets slots) run.result × Spends (Evaluable q slots) budget run.budget

  -- The teams so far and the tickets that are left, with so many players to come.
  record IsPartial (needed : ℤ) (teams : List Team) (ts : List MatchTicket) : Type 0 where
    supplied : Supplied (λ k. times k (ticket_ids tickets)) teams ts
    seated : All IsSlot slots → Seated slots teams
    drawn : All (λ t. Member t tickets) (crew teams)
    left : All (λ t. Member t tickets) ts
    started : (needed ≡ total) ⊎ (1 ≤ length (crew teams))
    count : length teams ≡ length slots

  visit-Sound : (run : Run) → can_visit run.budget ≡ true → Sound run → Sound (visit run)
  unfolding can_visit
  visit-Sound run h sound = (
    sound.0,
    record {
      limit = sound.1.limit;
      grows = omega (arith, sound.1.grows);
      within =
          subst (λ n. suc run.budget.used ≤ n) (ap pos_part sound.1.limit)
            (can_visit-room run.budget h);
      calm = sound.1.calm;
    },
  )

  complete-Sound :
      (needed : ℤ) (teams : List Team) (ts : List MatchTicket) (run : Run)
      → is_zero needed ≡ true
      → IsPartial needed teams ts
      → Sound run
      → Sound (complete q teams run).1
  complete-Sound needed teams ts run none_needed part sound = (
    complete-Finds (IsProposable q tickets slots) q teams run
        (λ passes. record {
          supplied = λ k. omega (arith, part.supplied k);
          fits = λ h. Seated-FitsSlots slots teams (part.seated h);
          passes = passes;
          drawn = part.drawn;
          some_ticket = elim part.started [
            | inl untouched ↦
                absurd (ground (arith, subst (λ n. is_zero n ≡ true) untouched none_needed))
            | inr some_there ↦ some_there
          ];
        })
        sound.0,
    complete-Spends (Evaluable q slots) budget q teams run
        (λ safe.
          evaluate_for_total q slots (materialize_placement teams) safe
            (length-materialize_placement teams ∙ part.count))
        sound.1,
  )

  start-IsPartial : IsPartial total (fresh_teams slots) tickets
  start-IsPartial = record {
    supplied = Supplied-fresh_teams slots tickets;
    seated = Seated-fresh_teams slots;
    drawn = All-crew-fresh_teams (λ t. Member t tickets) slots;
    left = All-Member tickets;
    started = inl refl;
    count = length-fresh_teams slots;
  }

  assign-IsPartial :
      (needed : ℤ) (teams : List Team) (team index : ℕ) (t : MatchTicket) (ts : List MatchTicket)
      → ltb_ℤ (state_of teams team).0 (pos (length t.players)) ≡ false
      → team < length teams
      → IsPartial needed teams (t ∷ ts)
      → IsPartial (needed -ℤ pos (length t.players)) (assign teams team index t) ts
  assign-IsPartial needed teams team index t ts room there part = record {
    supplied = Supplied-assign _ teams team index t ts part.supplied;
    seated = λ h. Seated-assign slots teams team index t room (part.seated h);
    drawn = All-crew-assign (λ u. Member u tickets) teams team index t part.left.0 part.drawn;
    left = part.left.1;
    started = inr (length-crew-assign teams team index t there);
    count = length-assign teams team index t ∙ part.count;
  }

  skip-IsPartial :
      (needed : ℤ) (teams : List Team) (t : MatchTicket) (ts : List MatchTicket)
      → IsPartial needed teams (t ∷ ts)
      → IsPartial needed teams ts
  skip-IsPartial needed teams t ts part = record {
    supplied = Supplied-skip _ teams t ts part.supplied;
    seated = part.seated;
    drawn = part.drawn;
    left = part.left.1;
    started = part.started;
    count = part.count;
  }

  run_search-Sound :
      Finds (IsProposable q tickets slots) (run_search q tickets slots total budget).0
      × Spends (Evaluable q slots) budget (run_search q tickets slots total budget).1
  unfolding run_search finish
  run_search-Sound =
      let start : Run = record { budget = budget; result = no_search } in
      let sound =
        search-keeps q IsPartial Sound
          (λ run h. (
            h.0,
            record { limit = h.1.limit; grows = h.1.grows; within = h.1.within; calm = h.1.calm },
          ))
          visit-Sound complete-Sound assign-IsPartial skip-IsPartial tickets 0 total
          (fresh_teams slots) start start-IsPartial
          (Finds-no_search (IsProposable q tickets slots), Spends-refl budget within) in
      (
        finish-Finds (IsProposable q tickets slots) q budget.used
            (search q tickets 0 total (fresh_teams slots) start).1 sound.0,
        sound.1,
      )

-- Which ticket is required does not matter to what may be proposed.
any_required :
    (q : Query) (tickets : List MatchTicket) (slots : List ℤ) (budget : SearchBudget)
    → budget.used ≤ pos_part budget.max
    → (required : Option ℕ) (needed : ℤ) → is_zero needed ≡ false
    → Finds
        (IsProposable q tickets slots)
        (run_search (record q { required = required }) tickets slots needed budget).0
      × Spends
          (Evaluable q slots)
          budget
          (run_search (record q { required = required }) tickets slots needed budget).1
unfolding evaluate_for
any_required q tickets slots budget within required needed wanted =
    let found =
      run_search-Sound (record q { required = required }) tickets slots budget within needed
        wanted in
    (
      Finds-map _ (IsProposable q tickets slots)
          (λ p h. record {
            supplied = h.supplied;
            fits = h.fits;
            passes = h.passes;
            drawn = h.drawn;
            some_ticket = h.some_ticket;
          })
          _ found.0,
      found.1,
    )

pub find_best_placement-Found :
    (q : Query) (required_ticket : Text) (tickets : List MatchTicket) (slots : List ℤ)
    (budget : SearchBudget)
    → budget.used ≤ pos_part budget.max
    → Finds
        (IsProposable q tickets slots)
        (find_best_placement q required_ticket tickets slots budget).0
      × Spends
          (Evaluable q slots)
          budget
          (find_best_placement q required_ticket tickets slots budget).1
unfolding find_best_placement
find_best_placement-Found q required_ticket tickets slots budget within =
    let Ends : PlacementSearch × SearchBudget → Type 0 =
      λ r. Finds (IsProposable q tickets slots) r.0 × Spends (Evaluable q slots) budget r.1 in
    let nothing : Ends (no_search, budget) =
      (Finds-no_search (IsProposable q tickets slots), Spends-refl budget within) in
    let needed = total_needed (pos 0) slots in
    if_branches Ends (is_zero needed || ltb_ℤ (pos (players_of tickets)) needed) (λ _. nothing)
      (λ enough.
        let wanted : is_zero needed ≡ false = ground (arith, enough) in
        if_branches Ends (is_blank required_ticket)
          (λ _. any_required q tickets slots budget within none needed wanted)
          (λ _.
            option_branches Ends (find_required required_ticket 0 tickets) nothing
              (λ i. any_required q tickets slots budget within (some i) needed wanted)))

-- Where a search finds a placement, no team of it has more players than its slots, no ticket stands
-- in it more often than among the tickets searched, and its evaluation is admissible and reports no
-- hard violation. The slots are counts that an int holds, and the budget is not overspent before.
pub find_best_placement-FitsSlots :
    (q : Query) (required_ticket : Text) (tickets : List MatchTicket) (slots : List ℤ)
    (budget : SearchBudget)
    → All IsSlot slots
    → budget.used ≤ pos_part budget.max
    → (find_best_placement q required_ticket tickets slots budget).0.found ≡ true
    → let p = (find_best_placement q required_ticket tickets slots budget).0.placement in
      FitsSlots slots p
      × ((k : Text) → times k (ticket_ids (placed p)) ≤ times k (ticket_ids tickets))
      × ((e : Evaluation) × (evaluate_for q p ≡ some e)
          × (e.hard_violation ≡ false)
          × (e.admissible ≡ true))
find_best_placement-FitsSlots q required_ticket tickets slots budget are_slots within found =
    let good =
      (find_best_placement-Found q required_ticket tickets slots budget within).0.found found in
    (good.fits are_slots, good.supplied, good.passes)
