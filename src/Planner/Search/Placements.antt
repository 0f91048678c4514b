-- ===== src/Planner/Search/Placements.antt =====
-- internal/planner/planner.go: what `findBestPlacement` finds.
use sema.Planner.Teams.{materialize_placement, Team}
use sema.Objective.{Evaluation}
use sema.Planner.Search.{
  with_search_evidence, choose_alternative, cut_alternatives, finish, lead, take_alternatives,
}
use sema.Planner.{placement_ticket_key, Placement}
use sema.Planner.Placement.{
  replaces, misses_required, Run, PlacementAlternative, alternative_less, count_candidate,
  complete_evaluated, PlacementSearch, complete, evaluate_for, judge_placement, keep_placement,
  no_search, record_placement_alternative, Query,
}
use sema.Base.{
  Option, none, some, refl, All-map, ◌-◌, leb_ℤ, ◌||◌, Text-discrete, ℤ-discrete, holds, ltb_ℤ,
  negsuc, not, ℕ, zero, suc, List, [], ◌∷◌, ◌≡◌, arith, false, true, Bool, All, ℤ, pos, if_branches,
}
use sema.Base.Sort.{sort, All-sort}

-- An admissible placement that breaks no hard constraint.
abbrev pub Passes : Query → Placement → Type 0
Passes q p =
    (e : Evaluation) × (evaluate_for q p ≡ some e)
    × (e.hard_violation ≡ false)
    × (e.admissible ≡ true)

-- What is found, and every alternative to it, is good.
pub record Finds {ℓ} (Good : Placement → Type ℓ) (r : PlacementSearch) : Type ℓ where
  pub found : r.found ≡ true → Good r.placement
  pub alternatives : All (λ a. Good a.placement) r.alternatives

pub Finds-map {ℓ κ} :
    (Good : Placement → Type ℓ) (Better : Placement → Type κ)
    → ((p : Placement) → Good p → Better p)
    → (r : PlacementSearch) → Finds Good r
    → Finds Better r
Finds-map Good Better map r finds = record {
  found = λ h. map r.placement (finds.found h);
  alternatives = All-map (λ a h. map a.placement h) r.alternatives finds.alternatives;
}

pub Finds-no_search {ℓ} : (Good : Placement → Type ℓ) → Finds Good no_search
Finds-no_search Good = record { found = λ h. ground arith; alternatives = tt }

module _ {ℓ} (Good : Placement → Type ℓ) where
  All-record_placement_alternative :
      (a : PlacementAlternative) (bs : List PlacementAlternative)
      → Good a.placement
      → All (λ b. Good b.placement) bs
      → All (λ b. Good b.placement) (record_placement_alternative a bs)
  unfolding record_placement_alternative
  All-record_placement_alternative a [] good rest = (good, tt)
  All-record_placement_alternative a (b ∷ bs) good rest =
      if_branches (All (λ b'. Good b'.placement))
        (holds
          (Text-discrete (placement_ticket_key b.placement) (placement_ticket_key a.placement)))
        (λ _. (
          if_branches {A = PlacementAlternative} (λ b'. Good b'.placement)
              (replaces a.evaluation a.placement b.evaluation b.placement) (λ _. good)
              (λ _. rest.0),
          rest.1,
        ))
        (λ _. (rest.0, All-record_placement_alternative a bs good rest.1))

  keep_placement-Finds :
      (q : Query) (p : Placement) (e : Evaluation) (r : PlacementSearch)
      → Good p
      → Finds Good r
      → Finds Good (keep_placement q p e r)
  unfolding keep_placement
  keep_placement-Finds q p e r good finds =
      if_branches (Finds Good) (holds (ℤ-discrete q.max_alternatives (pos 1)))
        (λ _.
          if_branches (Finds Good) (not r.found || replaces e p r.evaluation r.placement)
            (λ _. record { found = λ _. good; alternatives = finds.alternatives }) (λ _. finds))
        (λ _. record {
          found = finds.found;
          alternatives =
              All-record_placement_alternative (record { placement = p; evaluation = e })
                r.alternatives good finds.alternatives;
        })

  judge_placement-Finds :
      (q : Query) (p : Placement) (e : Evaluation) (r : PlacementSearch)
      → (e.hard_violation ≡ false → e.admissible ≡ true → Good p)
      → Finds Good r
      → Finds Good (judge_placement q p e r)
  unfolding judge_placement
  judge_placement-Finds q p e r good finds =
      if_branches (Finds Good) e.hard_violation
        (λ _. record { found = finds.found; alternatives = finds.alternatives })
        (λ soft.
          if_branches (Finds Good) (not e.admissible)
            (λ _. record { found = finds.found; alternatives = finds.alternatives })
            (λ admitted. keep_placement-Finds q p e r (good soft (ground arith)) finds))

  complete_evaluated-Finds :
      (q : Query) (p : Placement) (o : Option Evaluation) (run : Run)
      → ((e : Evaluation) → o ≡ some e → e.hard_violation ≡ false → e.admissible ≡ true → Good p)
      → Finds Good run.result
      → Finds Good (complete_evaluated q p o run).1.result
  unfolding complete_evaluated count_candidate
  complete_evaluated-Finds q p none run good finds = finds
  complete_evaluated-Finds q p (some e) run good finds =
      let r = count_candidate q p e run.result in
      let judged : Finds Good r =
        judge_placement-Finds q p e
          (record run.result { exact_candidates = suc run.result.exact_candidates }) (good e refl)
          (record { found = finds.found; alternatives = finds.alternatives }) in
      if_branches {A = Bool × Run} (λ o. Finds Good o.1.result)
        (leb_ℤ q.max_candidates (pos r.exact_candidates))
        (λ _. record { found = judged.found; alternatives = judged.alternatives }) (λ _. judged)

  pub complete-Finds :
      (q : Query) (teams : List Team) (run : Run)
      → (Passes q (materialize_placement teams) → Good (materialize_placement teams))
      → Finds Good run.result
      → Finds Good (complete q teams run).1.result
  unfolding complete
  complete-Finds q teams run good finds =
      let p = materialize_placement teams in
      if_branches {A = Bool × Run} (λ o. Finds Good o.1.result) (misses_required q.required teams)
        (λ _. finds)
        (λ _.
          complete_evaluated-Finds q p (evaluate_for q p) run
            (λ e is_e soft admitted. good (e, is_e, soft, admitted)) finds)

  All-take_alternatives :
      (n : ℕ) (bs : List PlacementAlternative)
      → All (λ b. Good b.placement) bs
      → All (λ b. Good b.placement) (take_alternatives n bs)
  unfolding take_alternatives
  All-take_alternatives zero bs good = tt
  All-take_alternatives (suc n) [] good = tt
  All-take_alternatives (suc n) (b ∷ bs) good = (good.0, All-take_alternatives n bs good.1)

  All-cut_alternatives :
      (n : ℤ) (bs : List PlacementAlternative)
      → All (λ b. Good b.placement) bs
      → All (λ b. Good b.placement) (cut_alternatives n bs)
  unfolding cut_alternatives
  All-cut_alternatives (pos n) bs good = All-take_alternatives n bs good
  All-cut_alternatives (negsuc n) bs good = good

  lead-Finds :
      (bs : List PlacementAlternative) (r : PlacementSearch)
      → All (λ b. Good b.placement) bs
      → Finds Good r
      → Finds Good (lead bs r)
  unfolding lead
  lead-Finds [] r good finds = finds
  lead-Finds (b ∷ bs) r good finds = record {
    found = λ _. good.0;
    alternatives = finds.alternatives;
  }

  choose_alternative-Finds :
      (n : ℤ) (r : PlacementSearch) → Finds Good r → Finds Good (choose_alternative n r)
  unfolding choose_alternative
  choose_alternative-Finds n r finds =
      let kept =
        All-cut_alternatives n (sort alternative_less r.alternatives)
          (All-sort alternative_less (λ a. Good a.placement) r.alternatives finds.alternatives) in
      if_branches (Finds Good) (ltb_ℤ (pos 1) n)
        (λ _. lead-Finds _ _ kept (record { found = finds.found; alternatives = kept }))
        (λ _. finds)

  pub finish-Finds :
      (q : Query) (start : ℕ) (run : Run)
      → Finds Good run.result
      → Finds Good (finish q start run).0
  unfolding finish with_search_evidence
  finish-Finds q start run finds =
      let chosen =
        choose_alternative-Finds q.max_alternatives
          (record run.result { search_nodes = run.budget.used - start })
          (record { found = finds.found; alternatives = finds.alternatives }) in
      record { found = chosen.found; alternatives = chosen.alternatives }
