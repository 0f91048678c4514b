-- ===== src/Objective/Order.antt =====
-- `Compare`: the preference between evaluations as an order.
use sema.Domain.{ScoreEvidence}
use Prim.Native.Nat.{compare, Ordering}
use sema.Base.{Bool, inr, inl, Bool-cases, ◌||◌, false, leb_ℤ, true, ltb_ℤ, ℤ, ℕ, ◌≡◌, refl, arith}
use sema.Objective.{
  Evaluation, compare_evaluations, compare_evidence, compare_int, compare_latency, compare_quality,
  descending, compare_waits, or_else,
}

-- The result for the arguments the other way round.
abbrev pub flip : Ordering → Ordering
flip Ordering.lt = Ordering.gt
flip Ordering.eq = Ordering.eq
flip Ordering.gt = Ordering.lt

compare-flip : (m n : ℕ) → compare n m ≡ flip (compare m n)
compare-flip m n = ground arith

or_else-flip : (x y : Ordering) → flip (or_else x y) ≡ or_else (flip x) (flip y)
or_else-flip Ordering.lt y = refl
or_else-flip Ordering.eq y = refl
or_else-flip Ordering.gt y = refl

-- What a result x∶z must be, given those of x∶y and y∶z, in a linear order.
abbrev pub Chain : Ordering → Ordering → Ordering → Type 0
Chain Ordering.eq q r = r ≡ q
Chain Ordering.lt Ordering.gt r = Unit {0}
Chain Ordering.lt Ordering.eq r = r ≡ Ordering.lt
Chain Ordering.lt Ordering.lt r = r ≡ Ordering.lt
Chain Ordering.gt Ordering.lt r = Unit {0}
Chain Ordering.gt Ordering.eq r = r ≡ Ordering.gt
Chain Ordering.gt Ordering.gt r = r ≡ Ordering.gt

pub Chain-compare_int : (a b c : ℤ) → Chain (compare_int a b) (compare_int b c) (compare_int a c)
Chain-compare_int a b c = ground arith

Chain-descending : (a b c : ℤ) → Chain (descending a b) (descending b c) (descending a c)
Chain-descending a b c = ground arith

pub Chain-or_else :
    (p q r x y z : Ordering)
    → Chain p q r
    → Chain x y z
    → Chain (or_else p x) (or_else q y) (or_else r z)
Chain-or_else p q r x y z h k = ground arith

Chain-last : (q : Ordering) → Chain Ordering.lt q Ordering.lt
Chain-last q = ground arith

Chain-first : (p : Ordering) → Chain p Ordering.gt Ordering.gt
Chain-first p = ground arith

module _ (a b c : ScoreEvidence) where
  Chain-waits : Chain (compare_waits a b) (compare_waits b c) (compare_waits a c)
  unfolding compare_waits
  Chain-waits =
      Chain-or_else _ _ _ _ _ _
        (Chain-descending a.oldest_wait_millis b.oldest_wait_millis c.oldest_wait_millis)
        (Chain-descending a.total_wait_millis b.total_wait_millis c.total_wait_millis)

  Chain-quality : Chain (compare_quality a b) (compare_quality b c) (compare_quality a c)
  unfolding compare_quality
  Chain-quality =
      Chain-or_else _ _ _ _ _ _ (Chain-compare_int a.role_penalty b.role_penalty c.role_penalty)
        (Chain-compare_int a.team_skill_gap b.team_skill_gap c.team_skill_gap)

  Chain-latency : Chain (compare_latency a b) (compare_latency b c) (compare_latency a c)
  unfolding compare_latency
  Chain-latency = Chain-compare_int a.max_latency_millis b.max_latency_millis c.max_latency_millis

waits-older :
    (a b : ScoreEvidence)
    → ltb_ℤ b.oldest_wait_millis a.oldest_wait_millis ≡ true
    → (compare_waits a b ≡ Ordering.lt) × (compare_waits b a ≡ Ordering.gt)
unfolding compare_waits
waits-older a b h = ground arith

-- Evidence gives precedence to waiting exactly from some wait on.
abbrev pub PrioritizesFrom : ℤ → ScoreEvidence → Type 0
PrioritizesFrom threshold e = e.wait_priority ≡ leb_ℤ threshold e.oldest_wait_millis

-- `compare_evidence` when waiting comes first, and when quality does.
wait_first :
    (a b : ScoreEvidence)
    → (a.wait_priority || b.wait_priority) ≡ true
    → compare_evidence a b
      ≡ or_else (compare_waits a b) (or_else (compare_quality a b) (compare_latency a b))
unfolding compare_evidence
wait_first a b h = rw h refl

quality_first :
    (a b : ScoreEvidence)
    → (a.wait_priority || b.wait_priority) ≡ false
    → compare_evidence a b
      ≡ or_else (compare_quality a b) (or_else (compare_waits a b) (compare_latency a b))
unfolding compare_evidence
quality_first a b h = rw h refl

-- The comparison of two pieces of evidence, when exactly the first has priority.
older_wins :
    (threshold : ℤ) (a b : ScoreEvidence)
    → PrioritizesFrom threshold a
    → PrioritizesFrom threshold b
    → a.wait_priority ≡ true
    → b.wait_priority ≡ false
    → (compare_evidence a b ≡ Ordering.lt) × (compare_evidence b a ≡ Ordering.gt)
older_wins threshold a b ha hb ea eb =
    let older = waits-older a b (ground arith) in
    (
      rw (wait_first a b (ground arith)) (rw older.0 refl),
      rw (wait_first b a (ground arith)) (rw older.1 refl),
    )

module _ (a b c : ScoreEvidence) where
  waits-Chain :
      (a.wait_priority || b.wait_priority) ≡ true
      → (b.wait_priority || c.wait_priority) ≡ true
      → (a.wait_priority || c.wait_priority) ≡ true
      → Chain (compare_evidence a b) (compare_evidence b c) (compare_evidence a c)
  waits-Chain h k l =
      rw (wait_first a b h, wait_first b c k, wait_first a c l)
        (Chain-or_else _ _ _ _ _ _ (Chain-waits a b c)
          (Chain-or_else _ _ _ _ _ _ (Chain-quality a b c) (Chain-latency a b c)))

  quality-Chain :
      (a.wait_priority || b.wait_priority) ≡ false
      → (b.wait_priority || c.wait_priority) ≡ false
      → (a.wait_priority || c.wait_priority) ≡ false
      → Chain (compare_evidence a b) (compare_evidence b c) (compare_evidence a c)
  quality-Chain h k l =
      rw (quality_first a b h, quality_first b c k, quality_first a c l)
        (Chain-or_else _ _ _ _ _ _ (Chain-quality a b c)
          (Chain-or_else _ _ _ _ _ _ (Chain-waits a b c) (Chain-latency a b c)))

module _ (threshold : ℤ) (a b c : ScoreEvidence) (ha : PrioritizesFrom threshold a)
    (hb : PrioritizesFrom threshold b) (hc : PrioritizesFrom threshold c) where
  Chain-by :
      (x y z : Bool)
      → a.wait_priority ≡ x
      → b.wait_priority ≡ y
      → c.wait_priority ≡ z
      → Chain (compare_evidence a b) (compare_evidence b c) (compare_evidence a c)
  Chain-by true true z ex ey ez = waits-Chain a b c (ground arith) (ground arith) (ground arith)
  Chain-by true false true ex ey ez = waits-Chain a b c (ground arith) (ground arith) (ground arith)
  Chain-by false true true ex ey ez = waits-Chain a b c (ground arith) (ground arith) (ground arith)
  Chain-by true false false ex ey ez =
      rw ((older_wins threshold a b ha hb ex ey).0, (older_wins threshold a c ha hc ex ez).0)
        (Chain-last (compare_evidence b c))
  Chain-by false true false ex ey ez =
      rw ((older_wins threshold b a hb ha ey ex).1, (older_wins threshold b c hb hc ey ez).0) tt
  Chain-by false false true ex ey ez =
      rw ((older_wins threshold c b hc hb ez ey).1, (older_wins threshold c a hc ha ez ex).1)
        (Chain-first (compare_evidence a b))
  Chain-by false false false ex ey ez =
      quality-Chain a b c (ground arith) (ground arith) (ground arith)

-- For evidence that gives precedence to waiting exactly from some common wait on, preferences
-- chain: a left preferred or equal to a middle that is preferred or equal to a right is preferred
-- to it, or equal when both were, and the same the other way round.
pub compare_evidence-Chain :
    (threshold : ℤ) (a b c : ScoreEvidence)
    → PrioritizesFrom threshold a
    → PrioritizesFrom threshold b
    → PrioritizesFrom threshold c
    → Chain (compare_evidence a b) (compare_evidence b c) (compare_evidence a c)
compare_evidence-Chain threshold a b c ha hb hc =
    Chain-by threshold a b c ha hb hc _ _ _ refl refl refl

flip-lex :
    (p q r x y z : Ordering)
    → x ≡ flip p
    → y ≡ flip q
    → z ≡ flip r
    → or_else x (or_else y z) ≡ flip (or_else p (or_else q r))
flip-lex p q r x y z hx hy hz = ground arith

module _ (a b : ScoreEvidence) where
  waits-flip : compare_waits b a ≡ flip (compare_waits a b)
  unfolding compare_waits
  waits-flip = ground arith

  quality-flip : compare_quality b a ≡ flip (compare_quality a b)
  unfolding compare_quality
  quality-flip = ground arith

  latency-flip : compare_latency b a ≡ flip (compare_latency a b)
  unfolding compare_latency
  latency-flip = ground arith

evidence-flip : (a b : ScoreEvidence) → compare_evidence b a ≡ flip (compare_evidence a b)
evidence-flip a b = elim (Bool-cases (a.wait_priority || b.wait_priority)) [
  | inl h ↦
      rw (wait_first a b h, wait_first b a (ground arith))
        (flip-lex _ _ _ _ _ _ (waits-flip a b) (quality-flip a b) (latency-flip a b))
  | inr h ↦
      rw (quality_first a b h, quality_first b a (ground arith))
        (flip-lex _ _ _ _ _ _ (quality-flip a b) (waits-flip a b) (latency-flip a b))
]

-- Comparing two evaluations the other way round gives the opposite result, whatever they are.
pub compare_evaluations-flip :
    (left right : Evaluation)
    → compare_evaluations right left ≡ flip (compare_evaluations left right)
unfolding compare_evaluations
compare_evaluations-flip left right = evidence-flip left.evidence right.evidence
