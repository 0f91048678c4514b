-- ===== src/Discovery/Index/Thresholds.antt =====
-- The index against the plain window, for queues with few party sizes.
use mathlib.Core.Option.{map as map_option}
use sema.Base.{
  subst, sym, ◌∙◌, length-append, not, inr, inl, Bool-cases, ℕ, zero, suc, ◌≤◌, List, [], ◌∷◌, ◌++◌,
  map, Option, none, some, true, false, ℤ, pos, negsuc, ltb, leb, ltb_ℤ, length, get_elem?, ◌≡◌,
  refl, ap, arith,
}
use sema.Base.Sort.{sort}
use sema.Domain.{MatchTicket}
use sema.Discovery.Window.{
  append_assoc, Window, max_slots, take, fitting, select_window, select_window_lem,
}
use sema.Discovery.Index.Sizes.{Ascending, sort-Ascending, has_size-sort, last_fitting_cases}
use sema.Discovery.Index.{
  partition_cursors, group, merge, Index, build_index, has_size, party_sizes, fitting_positions,
  last_fitting, positions_at, pick, place, threshold_window, bounded_window, index_window,
}

get_elem?-append :
    (pre : List MatchTicket) (t : MatchTicket) (post : List MatchTicket)
    → get_elem? (pre ++ t ∷ post) (length pre) ≡ some t
get_elem?-append [] t post = refl
get_elem?-append (x ∷ pre) t post = get_elem?-append pre t post

-- The sizes of the tickets.
party_sizes-head :
    (t : MatchTicket) (ts : List MatchTicket)
    → has_size (length t.players) (party_sizes (t ∷ ts)) ≡ true
unfolding party_sizes has_size
party_sizes-head t ts = ground arith

party_sizes-tail :
    (t : MatchTicket) (ts : List MatchTicket) (s : ℕ)
    → has_size s (party_sizes ts) ≡ true
    → has_size s (party_sizes (t ∷ ts)) ≡ true
unfolding party_sizes has_size
party_sizes-tail t ts s h = ground arith

fitting-none :
    (m : ℤ) (ts : List MatchTicket)
    → ((s : ℕ) → has_size s (party_sizes ts) ≡ true → ltb_ℤ m (pos s) ≡ true)
    → fitting m ts ≡ []
unfolding fitting
fitting-none m [] h = refl
fitting-none m (t ∷ ts) h =
    rw (h (length t.players) (party_sizes-head t ts))
      (fitting-none m ts (λ s k. h s (party_sizes-tail t ts s k)))

place-some :
    (o : Option MatchTicket) (q : Option (List MatchTicket)) (ts : List MatchTicket)
    → place o q ≡ some ts
    → (t : MatchTicket) × (rest : List MatchTicket) × (o ≡ some t)
      × (q ≡ some rest)
      × (t ∷ rest ≡ ts)
place-some none q ts h = absurd (cc h)
place-some (some t) none ts h = absurd (cc h)
place-some (some t) (some rest) ts h = (t, rest, refl, refl, cc h)

pick-take :
    (tickets : List MatchTicket) (n : ℕ) (ps : List ℕ) (ts : List MatchTicket)
    → pick tickets ps ≡ some ts
    → pick tickets (take n ps) ≡ some (take n ts)
unfolding pick
pick-take tickets zero ps ts h = refl
pick-take tickets (suc n) [] ts h = ap (λ o. map_option (take (suc n)) o) h
pick-take tickets (suc n) (p ∷ ps) ts h =
    let (t, rest, first, others, whole) = place-some (get_elem? tickets p) (pick tickets ps) ts h in
    rw (first, pick-take tickets n ps rest others) (ap (λ us. some (take (suc n) us)) whole)

positions_at-map :
    (f : ℕ → List ℕ) (t : ℕ) (ss : List ℕ)
    → has_size t ss ≡ true
    → positions_at t (map (λ s. (s, f s)) ss) ≡ f t
unfolding positions_at has_size
positions_at-map f t [] h = absurd (cc h)
positions_at-map f t (s ∷ ss) h = ground (arith, positions_at-map f t ss)

-- The positions point at the tickets that fit, when threshold and maximum agree on their sizes.
fitting-pick :
    (m : ℤ) (t i : ℕ) (all pre post : List MatchTicket)
    → all ≡ pre ++ post
    → i ≡ length pre
    → ((s : ℕ) → has_size s (party_sizes post) ≡ true → leb s t ≡ not (ltb_ℤ m (pos s)))
    → (pick all (fitting_positions t i post) ≡ some (fitting m post))
      × (length (fitting_positions t i post) ≡ length (fitting m post))
unfolding pick fitting_positions fitting
fitting-pick m t i all pre [] e at h = (refl, refl)
fitting-pick m t i all pre (x ∷ post) e at h =
    let (picked, long) =
      fitting-pick m t (suc i) all (pre ++ x ∷ []) post (cc (e, append_assoc pre (x ∷ []) post))
        (omega (arith, at, length-append pre (x ∷ [])))
        (λ s k. h s (party_sizes-tail x post s k)) in
    let agree = h (length x.players) (party_sizes-head x post) in
    let here : get_elem? all i ≡ some x = rw (e, at) (get_elem?-append pre x post) in
    elim (Bool-cases (ltb_ℤ m (pos (length x.players)))) [
      | inl out ↦
          let no : leb (length x.players) t ≡ false = cc (agree, out) in rw (no, out) (picked, long)
      | inr fits ↦
          let yes : leb (length x.players) t ≡ true = cc (agree, fits) in
          rw (yes, fits) (rw (here, picked) refl, omega (arith, long))
    ]

no_window :
    (n : ℕ)
    → ◌≡◌ {A = Option Window}
        (some (record { tickets = []; truncated = false }))
        (some (record { tickets = take n []; truncated = ltb n 0 }))
no_window zero = refl
no_window (suc n) = ground arith

-- The window that the thresholds give.
thresholds-window :
    (index : Index) (m : ℤ) (n : ℕ)
    → Ascending index.party_thresholds
    → ((s : ℕ)
        → has_size s (party_sizes index.tickets) ≡ true
        → has_size s index.party_thresholds ≡ true)
    → index.fitting_by_party_max
      ≡ map (λ t. (t, fitting_positions t 0 index.tickets)) index.party_thresholds
    → threshold_window index n (last_fitting m none index.party_thresholds)
      ≡ some (record {
        tickets = take n (fitting m index.tickets);
        truncated = ltb n (length (fitting m index.tickets));
      })
unfolding threshold_window
thresholds-window index m n a sizes table = elim (last_fitting_cases m index.party_thresholds a) [
  | inl (e, big) ↦ rw (e, fitting-none m index.tickets (λ s k. big s (sizes s k))) (no_window n)
  | inr (t, e, best) ↦
      let (picked, long) =
        fitting-pick m t 0 index.tickets [] index.tickets refl refl
          (λ s k. ground (arith, best.greatest s (sizes s k), best.fits)) in
      let here : positions_at t index.fitting_by_party_max ≡ fitting_positions t 0 index.tickets =
        rw table (
          positions_at-map (λ s. fitting_positions s 0 index.tickets) t index.party_thresholds
            best.listed) in
      let first =
        pick-take index.tickets n (fitting_positions t 0 index.tickets) (fitting m index.tickets)
          picked in
      rw (e, here, first, long) refl
]

no_tickets :
    (tickets : List MatchTicket)
    → ((s : ℕ) → has_size s (party_sizes tickets) ≡ true → has_size s [] ≡ true)
    → tickets ≡ []
unfolding has_size
no_tickets [] h = refl
no_tickets (t ∷ ts) h = absurd (cc (h (length t.players) (party_sizes-head t ts)))

module _ (tickets : List MatchTicket) where
  built :
      length (party_sizes tickets) ≤ 16
      → (build_index tickets).party_thresholds ≡ sort ltb (party_sizes tickets)
  unfolding build_index
  built few =
      let within : leb (length (party_sizes tickets)) 16 ≡ true = ground arith in rw within refl

  empty_partitions : tickets ≡ [] → (build_index tickets).partitions ≡ []
  unfolding build_index group sort
  empty_partitions e = rw e refl

  built-table :
      (build_index tickets).fitting_by_party_max
      ≡ map (λ t. (t, fitting_positions t 0 tickets)) (build_index tickets).party_thresholds
  unfolding build_index
  built-table = refl

  built-tickets : (build_index tickets).tickets ≡ tickets
  unfolding build_index
  built-tickets = refl

bounded_window_lem :
    (index : Index) (m : ℤ) (n : ℕ) (ss : List ℕ)
    → index.party_thresholds ≡ ss
    → Ascending index.party_thresholds
    → ((s : ℕ)
        → has_size s (party_sizes index.tickets) ≡ true
        → has_size s index.party_thresholds ≡ true)
    → index.fitting_by_party_max
      ≡ map (λ t. (t, fitting_positions t 0 index.tickets)) index.party_thresholds
    → (index.tickets ≡ [] → index.partitions ≡ [])
    → bounded_window index m n ss
      ≡ some (record {
        tickets = take n (fitting m index.tickets);
        truncated = ltb n (length (fitting m index.tickets));
      })
unfolding bounded_window merge partition_cursors fitting
bounded_window_lem index m n [] e a sizes table bare =
    let none_left = no_tickets index.tickets (λ s k. rw e at (sizes s k)) in
    rw (bare none_left, none_left) (no_window n)
bounded_window_lem index m n (t ∷ ts) e a sizes table bare =
    subst
      (λ ss.
        threshold_window index n (last_fitting m none ss)
        ≡ some (record {
          tickets = take n (fitting m index.tickets);
          truncated = ltb n (length (fitting m index.tickets));
        }))
      e (thresholds-window index m n a sizes table)

-- For a queue whose tickets have at most 16 different party sizes, the index gives exactly the
-- window of the plain selection, for all slots and limits, and no position is out of range.
pub index_window-select_window :
    (tickets : List MatchTicket) (slots : List ℤ) (limit : ℤ)
    → length (party_sizes tickets) ≤ 16
    → index_window (build_index tickets) slots limit ≡ some (select_window tickets slots limit)
unfolding index_window select_window build_index
index_window-select_window tickets slots (negsuc n) few = refl
index_window-select_window tickets slots (pos zero) few = refl
index_window-select_window tickets slots (pos (suc n)) few =
    bounded_window_lem (build_index tickets) (max_slots (pos 0) slots) (suc n) _ refl
      (rw (built tickets few) (sort-Ascending (party_sizes tickets)))
      (λ s k. rw (built tickets few, has_size-sort s (party_sizes tickets)) k) (built-table tickets)
      (empty_partitions tickets)
    ∙ ap some (sym (select_window_lem tickets slots n))
