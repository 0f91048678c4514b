-- ===== src/Planner/Batch/Invariants.antt =====
-- internal/planner/batch.go: what every step of the two searches keeps, the whole search keeps.
use sema.Base.{branches, List, [], ◌∷◌, Bool, true, false, ◌==◌, ◌≡◌, pos, leb_ℤ, length, All}
use sema.Planner.{ProposalCandidate}
use sema.Planner.Batch.{can_take}
use sema.Planner.Batch.Search.{
  Limits, Frame, SearchState, take, take_back, truncate, visit, offer, prunes, search_batch,
  pareto_enter, pareto_each,
}

-- `Fine` is kept by a call's variables and `Sound` by the rest; `From` holds of the candidates.
module _ {ℓ κ μ} (l : Limits) (From : ProposalCandidate → Type ℓ) (Fine : Frame → Type κ)
    (Sound : SearchState → Type μ) (prefer_pareto : Bool)
    (on_offer : (b : Bool) (f : Frame) (s : SearchState)
      → b ≡ prefer_pareto
      → Fine f
      → Sound s
      → Sound (offer b f s))
    (on_truncate : (s : SearchState) → Sound s → Sound (truncate s))
    (on_visit : (s : SearchState)
      → leb_ℤ l.max_nodes (pos s.nodes) ≡ false
      → Sound s
      → Sound (visit s))
    (on_take : (c : ProposalCandidate) (f : Frame)
      → From c
      → (length f.selected == l.max_proposals) ≡ false
      → can_take c f.used ≡ true
      → Fine f
      → Fine (take c f))
    (on_take_back : (c : ProposalCandidate) (f : Frame)
      → can_take c f.used ≡ true
      → Fine f
      → Fine (take_back c f)) where
  pub search_batch-keeps :
      false ≡ prefer_pareto
      → (cs : List ProposalCandidate) (f : Frame) (s : SearchState) → All From cs
      → Fine f
      → Sound s
      → Sound (search_batch l cs f s)
  unfolding search_batch
  search_batch-keeps e [] f s from fine sound =
      branches Sound (leb_ℤ l.max_nodes (pos s.nodes)) (λ _. on_truncate s sound)
        (λ h. on_offer false f (visit s) e fine (on_visit s h sound))
  search_batch-keeps e (c ∷ cs) f s from fine sound =
      branches Sound (leb_ℤ l.max_nodes (pos s.nodes)) (λ _. on_truncate s sound)
        (λ h.
          branches Sound (length f.selected == l.max_proposals)
            (λ _. on_offer false f (visit s) e fine (on_visit s h sound))
            (λ room.
              branches Sound (prunes l (c ∷ cs) f (visit s)) (λ _. on_visit s h sound)
                (λ _.
                  branches Sound (can_take c f.used)
                    (λ free.
                      search_batch-keeps e cs (take_back c f)
                        (search_batch l cs (take c f) (visit s)) from.1 (on_take_back c f free fine)
                        (search_batch-keeps e cs (take c f) (visit s) from.1
                          (on_take c f from.0 room free fine) (on_visit s h sound)))
                    (λ _. search_batch-keeps e cs f (visit s) from.1 fine (on_visit s h sound)))))

  pub pareto_enter-keeps :
      true ≡ prefer_pareto
      → (f : Frame) (s : SearchState) (each : SearchState → SearchState) → Fine f
      → Sound s
      → ((length f.selected == l.max_proposals) ≡ false
          → (s' : SearchState) → Sound s'
          → Sound (each s'))
      → Sound (pareto_enter l f s each)
  unfolding pareto_enter
  pareto_enter-keeps e f s each fine sound go =
      branches Sound (leb_ℤ l.max_nodes (pos s.nodes)) (λ _. on_truncate s sound)
        (λ h.
          branches Sound (length f.selected == l.max_proposals)
            (λ _. on_offer true f (visit s) e fine (on_visit s h sound))
            (λ room.
              go room (offer true f (visit s))
                (on_offer true f (visit s) e fine (on_visit s h sound))))

  pub pareto_each-keeps :
      true ≡ prefer_pareto
      → (cs : List ProposalCandidate) (f : Frame) (s : SearchState) → All From cs
      → (length f.selected == l.max_proposals) ≡ false
      → Fine f
      → Sound s
      → Sound (pareto_each l cs f s)
  unfolding pareto_each take_back
  pareto_each-keeps e [] f s from room fine sound = sound
  pareto_each-keeps e (c ∷ cs) f s from room fine sound =
      branches Sound (can_take c f.used)
        (λ free.
          let fine' : Fine (take c f) = on_take c f from.0 room free fine in
          let s' = pareto_enter l (take c f) s (pareto_each l cs (take c f)) in
          let sound' : Sound s' =
            pareto_enter-keeps e (take c f) s (pareto_each l cs (take c f)) fine' sound
              (λ room' s'' sound''.
                pareto_each-keeps e cs (take c f) s'' from.1 room' fine' sound'') in
          branches Sound s'.truncated (λ _. sound')
            (λ _.
              pareto_each-keeps e cs (take_back c f) s' from.1 room (on_take_back c f free fine)
                sound'))
        (λ _. pareto_each-keeps e cs f s from.1 room fine sound)
