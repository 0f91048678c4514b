-- ===== src/Coordinator/Owners.antt =====
-- The maps from a resource to its owner: from a player to a ticket, and from a ticket to a
-- reservation. `claim` is the loop that writes the owner of each name, and `release` the loop that
-- deletes each name which still belongs to the owner. A missing entry reads as the blank name.
use sema.Base.{
  Text, Text-discrete, List, [], ◌∷◌, Option, none, some, ◌&&◌, ◌≡◌, refl, holds, has,
  if◌then◌else◌, arith,
}
use sema.Base.Map.{Map, lookup, insert, delete, lookup-insert, lookup-delete}

abbrev pub name_or_blank : Option Text → Text
name_or_blank none = []
name_or_blank (some k) = k

unfoldable pub claim : Text → List Text → Map Text → Map Text
claim owner [] m = m
claim owner (k ∷ ks) m = claim owner ks (insert k owner m)

unfoldable pub release_one : Text → Text → Map Text → Map Text
release_one owner k m =
    if holds (Text-discrete (name_or_blank (lookup k m)) owner) then delete k m else m

unfoldable pub release : Text → List Text → Map Text → Map Text
release owner [] m = m
release owner (k ∷ ks) m = release owner ks (release_one owner k m)

-- After a claim the claimed names belong to the owner, and every other name is as before.
pub lookup-claim :
    (owner j : Text) (ks : List Text) (m : Map Text)
    → lookup j (claim owner ks m) ≡ (if has j ks then some owner else lookup j m)
unfolding claim has
lookup-claim owner j [] m = refl
lookup-claim owner j (k ∷ ks) m =
    ground (arith, lookup-claim owner j ks (insert k owner m), lookup-insert k j owner m)

lookup-release_one :
    (owner k j : Text) (m : Map Text)
    → lookup j (release_one owner k m) ≡ (
        if holds (Text-discrete k j) && holds (Text-discrete (name_or_blank (lookup j m)) owner)
        then none
        else lookup j m)
unfolding release_one
lookup-release_one owner k j m = ground (arith, lookup-delete k j m)

-- A release takes away exactly those of the names that the owner holds (a missing entry reads as
-- the blank owner), and every other name is as before.
pub lookup-release :
    (owner j : Text) (ks : List Text) (m : Map Text)
    → lookup j (release owner ks m) ≡ (
        if has j ks && holds (Text-discrete (name_or_blank (lookup j m)) owner)
        then none
        else lookup j m)
unfolding release has
lookup-release owner j [] m = refl
lookup-release owner j (k ∷ ks) m =
    ground
      (arith, lookup-release owner j ks (release_one owner k m), lookup-release_one owner k j m)
