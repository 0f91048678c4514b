-- ===== src/Coordinator/Snapshot/Laws.antt =====
-- What a snapshot holds: exactly the active tickets that no reservation holds, in queue order.
use sema.Coordinator.Confirmation.Keeping.{expire-IsOwned}
use sema.Coordinator.Expiry.Laws.{expire_keeps}
use sema.Coordinator.Tickets.Ownership.{IsOwned}
use sema.Coordinator.Expiry.{release_holds, expire, set_status}
use sema.Coordinator.{Coordinator}
use sema.Base.{
  ap, inr, refl, inl, ◌∙◌, Bool, Text, [], ◌∷◌, Option, none, some, true, false, ◌≡◌,
  bytes_compare-lt, Absent, Distinct, arith,
}
use sema.Base.Map.{Map, lookup, keys, lookup-Absent}
use sema.Base.Sort.{
  sort-DistinctNames, sort-IsSorted, IsSorted, find-sort, sort, find, DistinctNames,
}
use sema.Domain.{Result-cases, ok, MatchmakingSnapshot, MatchmakingPolicy, Time}
use sema.Coordinator.Snapshot.{
  backfill_less, match_less, backfill_id, check_request, match_id, collect, checked_snapshot,
  snapshot, unreserved, queue_less,
}

queue_less_asym : (s t : Time) (i j : Text) → queue_less s i t j ≡ true → queue_less t j s i ≡ false
queue_less_asym s t i j h = ground (arith, bytes_compare-lt i j)

-- What the filter keeps of a name.
abbrev pub unless_held {ℓ} : {A : Type ℓ} → Option Text → Option A → Option A
unless_held none o = o
unless_held (some _) o = none

module _ {ℓ} {A : Type ℓ} (name : A → Text) where
  abbrev Keyed : Map A → Type ℓ
  Keyed m = (k : Text) (t : A) → lookup k m ≡ some t → name t ≡ k

  tail-Keyed : (k : Text) (t : A) (m : Map A) → Absent k (keys m) → Keyed ((k, t) ∷ m) → Keyed m
  unfolding lookup
  tail-Keyed k t m a h j u e = ground (arith, h j u, lookup-Absent k m a)

  head-Keyed : (k : Text) (t : A) (m : Map A) → Keyed ((k, t) ∷ m) → name t ≡ k
  unfolding lookup
  head-Keyed k t m h = ground (arith, h k t)

  find-unreserved :
      (reserved : Map Text) (m : Map A) (k : Text)
      → Distinct (keys m)
      → Keyed m
      → find name k (unreserved name reserved m) ≡ unless_held (lookup k reserved) (lookup k m)
  unfolding find unreserved lookup
  find-unreserved reserved [] k d h = ground arith
  find-unreserved reserved ((j, t) ∷ m) k d h = ground (
    arith,
    head-Keyed j t m h,
    find-unreserved reserved m k d.1 (tail-Keyed j t m d.0 h),
    lookup-Absent j m d.0,
  )

  unreserved-DistinctNames :
      (reserved : Map Text) (m : Map A)
      → Distinct (keys m)
      → Keyed m
      → DistinctNames name (unreserved name reserved m)
  unfolding unreserved
  unreserved-DistinctNames reserved [] d h = tt
  unreserved-DistinctNames reserved ((j, t) ∷ m) d h = ground (
    arith,
    head-Keyed j t m h,
    find-unreserved reserved m j d.1 (tail-Keyed j t m d.0 h),
    unreserved-DistinctNames reserved m d.1 (tail-Keyed j t m d.0 h),
    lookup-Absent j m d.0,
  )

  find-sorted :
      (less : A → A → Bool) (reserved : Map Text) (m : Map A) (k : Text)
      → Distinct (keys m)
      → Keyed m
      → find name k (sort less (unreserved name reserved m))
        ≡ unless_held (lookup k reserved) (lookup k m)
  find-sorted less reserved m k d h =
      find-sort name less k (unreserved name reserved m) (unreserved-DistinctNames reserved m d h)
      ∙ find-unreserved reserved m k d h

-- Expiry leaves the active tickets alone.
pub expire-tickets :
    (now : Time) (c : Coordinator)
    → ((expire now c).match_tickets ≡ c.match_tickets)
      × ((expire now c).backfill_tickets ≡ c.backfill_tickets)
unfolding set_status release_holds
expire-tickets now c =
    expire_keeps
      (λ d. (d.match_tickets ≡ c.match_tickets) × (d.backfill_tickets ≡ c.backfill_tickets)) now
      (λ k r d found due e. e) c (refl, refl)

-- A returned snapshot is the one collected after the expiry.
pub snapshot-collect :
    (c : Coordinator) (id : Text) (now : Time) (policy : MatchmakingPolicy)
    (s : MatchmakingSnapshot)
    → (snapshot c id now policy).1 ≡ ok s
    → ((snapshot c id now policy).0 ≡ expire now c) × (s ≡ collect (expire now c) id now policy)
unfolding snapshot checked_snapshot
snapshot-collect c id now policy s h = elim (Result-cases (check_request id now policy)) [
  | inl (e, bad) ↦ absurd (cc (rw (bad, snapshot) at h))
  | inr (_, fine) ↦ ground arith
]

-- Where the ownership invariant holds, a returned snapshot holds, under each name, the active ticket of that name unless a reservation
-- holds it, no name twice, and in queue order; and likewise for the demands.
pub snapshot-find :
    (c : Coordinator) (id : Text) (now : Time) (policy : MatchmakingPolicy)
    (s : MatchmakingSnapshot)
    → IsOwned c
    → (snapshot c id now policy).1 ≡ ok s
    → let d = (snapshot c id now policy).0 in
      ((k : Text)
        → find match_id k s.match_tickets
          ≡ unless_held (lookup k d.ticket_reservations) (lookup k c.match_tickets))
      × ((k : Text)
          → find backfill_id k s.backfill_tickets
            ≡ unless_held (lookup k d.backfill_reservations) (lookup k c.backfill_tickets))
      × DistinctNames match_id s.match_tickets
      × DistinctNames backfill_id s.backfill_tickets
      × IsSorted match_less s.match_tickets
      × IsSorted backfill_less s.backfill_tickets
unfolding collect
snapshot-find c id now policy s v h =
    let (after, made) = snapshot-collect c id now policy s h in
    let d = expire now c in
    let w = expire-IsOwned now c v in
    let (matches, demands) = expire-tickets now c in
    rw (after, made)
      (
        λ k.
            find-sorted match_id match_less d.ticket_reservations d.match_tickets k w.match_distinct
              w.match_key
            ∙ ap (λ m. unless_held (lookup k d.ticket_reservations) (lookup k m)) matches,
        λ k.
            find-sorted backfill_id backfill_less d.backfill_reservations d.backfill_tickets k
              w.backfill_distinct w.backfill_key
            ∙ ap (λ m. unless_held (lookup k d.backfill_reservations) (lookup k m)) demands,
        sort-DistinctNames match_id match_less
            (unreserved match_id d.ticket_reservations d.match_tickets)
            (unreserved-DistinctNames match_id d.ticket_reservations d.match_tickets
              w.match_distinct w.match_key),
        sort-DistinctNames backfill_id backfill_less
            (unreserved backfill_id d.backfill_reservations d.backfill_tickets)
            (unreserved-DistinctNames backfill_id d.backfill_reservations d.backfill_tickets
              w.backfill_distinct w.backfill_key),
        sort-IsSorted match_less (λ a b. queue_less_asym a.enqueued_at b.enqueued_at a.id b.id) _,
        sort-IsSorted backfill_less (λ a b. queue_less_asym a.enqueued_at b.enqueued_at a.id b.id)
            _,
      )
