-- ===== src/Planner/Batch/Disjoint.antt =====
-- internal/planner/batch.go: `markCandidate` keeps track of the names that a selection uses, so no
-- name is used twice.
use sema.Base.Sort.{insert_sorted, sort}
use sema.Base.{
  Bool, List, [], ◌∷◌, ◌++◌, Text, ◌≡◌, ◌≤◌, ◌+◌, has, times, times-append, has-times, has-append,
  arith, refl, false, true, not, ◌&&◌, ltb,
}
use sema.Planner.{ProposalCandidate}
use sema.Planner.Batch.{all_names, any_has, without, without_all}

pub times-all_names-append :
    (names : ProposalCandidate → List Text) (k : Text) (cs ds : List ProposalCandidate)
    → times k (all_names names (cs ++ ds))
      ≡ times k (all_names names cs) + times k (all_names names ds)
unfolding all_names times
times-all_names-append names k [] ds = omega arith
times-all_names-append names k (c ∷ cs) ds = omega (
  arith,
  times-append k (names c) (all_names names (cs ++ ds)),
  times-append k (names c) (all_names names cs),
  times-all_names-append names k cs ds,
)

module _ (names : ProposalCandidate → List Text) (k : Text)
    (less : ProposalCandidate → ProposalCandidate → Bool) where
  times-all_names-insert_sorted :
      (c : ProposalCandidate) (cs : List ProposalCandidate)
      → times k (all_names names (insert_sorted less c cs))
        ≡ times k (names c) + times k (all_names names cs)
  unfolding insert_sorted all_names
  times-all_names-insert_sorted c [] = times-append k (names c) []
  times-all_names-insert_sorted c (d ∷ ds) = ground (
    arith,
    times-append k (names d) (all_names names (insert_sorted less c ds)),
    times-append k (names d) (all_names names ds),
    times-append k (names c) (all_names names (d ∷ ds)),
    times-all_names-insert_sorted c ds,
  )

  pub times-all_names-sort :
      (cs : List ProposalCandidate)
      → times k (all_names names (sort less cs)) ≡ times k (all_names names cs)
  unfolding sort all_names
  times-all_names-sort [] = refl
  times-all_names-sort (c ∷ cs) = omega (
    arith,
    times-all_names-insert_sorted c (sort less cs),
    times-append k (names c) (all_names names cs),
    times-all_names-sort cs,
  )

-- A name of an available candidate is not used yet.
any_has-has :
    (k : Text) (ks used : List Text)
    → any_has ks used ≡ false
    → has k ks ≡ true
    → has k used ≡ false
unfolding any_has has
any_has-has k [] used h m = ground arith
any_has-has k (x ∷ xs) used h m = ground (arith, any_has-has k xs used)

has-without :
    (k j : Text) (used : List Text) → has k (without j used) ≡ (not (has k (j ∷ [])) && has k used)
unfolding without has
has-without k j [] = ground arith
has-without k j (x ∷ xs) = ground (arith, has-without k j xs)

has-without_all :
    (k : Text) (ks used : List Text) → has k (without_all ks used) ≡ (not (has k ks) && has k used)
unfolding without_all has
has-without_all k [] used = refl
has-without_all k (x ∷ xs) used =
    ground (arith, has-without_all k xs (without x used), has-without k x used)

-- The names in use are those of the selection, none of which stands in it twice.
pub record Tracks (names : ProposalCandidate → List Text) (used : List Text)
    (selected : List ProposalCandidate) : Type 0 where
  pub in_use : (k : Text) → has k used ≡ ltb 0 (times k (all_names names selected))
  pub once : (k : Text) → times k (all_names names selected) ≤ 1

module _ (names : ProposalCandidate → List Text) (c : ProposalCandidate) (used : List Text)
    (selected : List ProposalCandidate) (free : any_has (names c) used ≡ false)
    (tracks : Tracks names used selected) where
  times-all_names-last :
      (k : Text)
      → times k (all_names names (selected ++ c ∷ []))
        ≡ times k (all_names names selected) + times k (names c)
  unfolding all_names times
  times-all_names-last k =
      omega (arith, times-all_names-append names k selected (c ∷ []), times-append k (names c) [])

  pub Tracks-mark :
      ((k : Text) → times k (names c) ≤ 1) → Tracks names (names c ++ used) (selected ++ c ∷ [])
  Tracks-mark one = record {
    in_use = λ k. ground (
      arith,
      tracks.in_use k,
      times-all_names-last k,
      has-append k (names c) used,
      has-times k (names c),
    );
    once = λ k. ground (
      arith,
      tracks.in_use k,
      tracks.once k,
      one k,
      times-all_names-last k,
      has-times k (names c),
      any_has-has k (names c) used,
    );
  }

  pub Tracks-unmark : Tracks names (without_all (names c) (names c ++ used)) selected
  Tracks-unmark = record {
    in_use = λ k. ground (
      arith,
      tracks.in_use k,
      has-without_all k (names c) (names c ++ used),
      has-append k (names c) used,
      any_has-has k (names c) used,
    );
    once = tracks.once;
  }
