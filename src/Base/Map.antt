-- ===== src/Base/Map.antt =====
-- Go maps with string keys, as association lists that hold each key at most once.
use sema.Base.Tests.{if◌then◌else◌, holds}
use sema.Base.Sets.{has, Absent, Distinct, not_has_of_Absent}
use sema.Base.Bytes.{Text, Text-discrete}
use mathlib.Core.Bool.{false}
use mathlib.Core.Logic.{◌≢◌}
use mathlib.Core.Path.{◌≡◌, refl}
use mathlib.Core.Option.{Option, none, some}
use mathlib.Core.List.{List, [], ◌∷◌}
use native.Mathlib.Omega.{arith}

abbrev pub Map {ℓ} : Type ℓ → Type ℓ
Map V = List (Text × V)

module _ {ℓ} {V : Type ℓ} where
  unfoldable pub lookup : Text → Map V → Option V
  lookup k [] = none
  lookup k ((j, v) ∷ m) = if holds (Text-discrete j k) then some v else lookup k m

  unfoldable pub insert : Text → V → Map V → Map V
  insert k v [] = (k, v) ∷ []
  insert k v ((j, w) ∷ m) = if holds (Text-discrete j k) then (k, v) ∷ m else (j, w) ∷ insert k v m

  -- `delete(m, k)`: it drops every entry of the key.
  unfoldable pub delete : Text → Map V → Map V
  delete k [] = []
  delete k ((j, w) ∷ m) = if holds (Text-discrete j k) then delete k m else (j, w) ∷ delete k m

  pub lookup-insert :
      (k j : Text) (v : V) (m : Map V)
      → lookup j (insert k v m) ≡ (if holds (Text-discrete k j) then some v else lookup j m)
  unfolding lookup insert
  lookup-insert k j v [] = refl
  lookup-insert k j v ((i, w) ∷ m) = ground (arith, lookup-insert k j v m)

  pub lookup-delete :
      (k j : Text) (m : Map V)
      → lookup j (delete k m) ≡ (if holds (Text-discrete k j) then none else lookup j m)
  unfolding lookup delete
  lookup-delete k j [] = ground arith
  lookup-delete k j ((i, w) ∷ m) = ground (arith, lookup-delete k j m)

abbrev pub keys {ℓ} : {V : Type ℓ} → Map V → List Text
keys [] = []
keys ((k, v) ∷ m) = k ∷ keys m

module _ {ℓ} {V : Type ℓ} where
  pub has-keys : (j : Text) (m : Map V) → has j (keys m) ≡ false → lookup j m ≡ none
  unfolding has lookup
  has-keys j [] h = refl
  has-keys j ((k, v) ∷ m) h = ground (arith, has-keys j m)

  pub lookup-Absent : (j : Text) (m : Map V) → Absent j (keys m) → lookup j m ≡ none
  lookup-Absent j m h = has-keys j m (not_has_of_Absent j (keys m) h)

  Absent-insert :
      (j k : Text) (v : V) (m : Map V) → j ≢ k → Absent j (keys m) → Absent j (keys (insert k v m))
  unfolding insert
  Absent-insert j k v [] other h = (other, tt)
  Absent-insert j k v ((i, w) ∷ m) other h = ground (arith, Absent-insert j k v m other h.1)

  pub Distinct-insert :
      (k : Text) (v : V) (m : Map V) → Distinct (keys m) → Distinct (keys (insert k v m))
  unfolding insert
  Distinct-insert k v [] d = (tt, tt)
  Distinct-insert k v ((i, w) ∷ m) d =
      ground (arith, Distinct-insert k v m d.1, Absent-insert i k v m)

  Absent-delete : (j k : Text) (m : Map V) → Absent j (keys m) → Absent j (keys (delete k m))
  unfolding delete
  Absent-delete j k [] h = tt
  Absent-delete j k ((i, w) ∷ m) h = ground (arith, Absent-delete j k m h.1)

  pub Distinct-delete : (k : Text) (m : Map V) → Distinct (keys m) → Distinct (keys (delete k m))
  unfolding delete
  Distinct-delete k [] d = tt
  Distinct-delete k ((i, w) ∷ m) d = ground (arith, Distinct-delete k m d.1, Absent-delete i k m)
