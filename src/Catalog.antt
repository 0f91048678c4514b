-- ===== src/Catalog.antt =====
-- internal/policy/catalog.go: the policies a process knows, by version.
pub mod Laws
use sema.Base.{Text, Text-discrete, List, [], ◌∷◌, Option, none, some, holds, if◌then◌else◌}
use sema.Base.Map.{Map, lookup, insert}
use sema.Domain.{MatchmakingPolicy, Result, ok, err, policy_conflict}
use sema.Domain.Policy.{fingerprint_policy}

pub record Entry : Type 0 where
  pub policy : MatchmakingPolicy
  pub fingerprint : Text

pub record Catalog : Type 0 where
  pub entries : Map Entry

abbrev pub new_catalog : Catalog
new_catalog = record { entries = [] }

unfoldable pub get : Catalog → Text → Option Entry
get catalog version = lookup version catalog.entries

-- The locked part of `Register`, for a candidate whose fingerprint is known.
unfoldable pub register_entry : Catalog → Entry → Option Entry → Catalog × Result Entry
register_entry catalog candidate (some existing) =
    if holds (Text-discrete existing.fingerprint candidate.fingerprint)
    then (catalog, ok existing)
    else (catalog, err policy_conflict)
register_entry catalog candidate none =
    (record { entries = insert candidate.policy.version candidate catalog.entries }, ok candidate)

unfoldable pub register_fingerprint :
    Catalog → MatchmakingPolicy → Result Text → Catalog × Result Entry
register_fingerprint catalog candidate (err e) = (catalog, err e)
register_fingerprint catalog candidate (ok fingerprint) =
    register_entry catalog (record { policy = candidate; fingerprint = fingerprint })
      (get catalog candidate.version)

-- `Register`; `digest` is the hash of `FingerprintPolicy`.
unfoldable pub register : (Text → Text) → Catalog → MatchmakingPolicy → Catalog × Result Entry
register digest catalog candidate =
    register_fingerprint catalog candidate (fingerprint_policy digest candidate)

-- Any calls of `Register`, one after another.
unfoldable pub register_all : (Text → Text) → List MatchmakingPolicy → Catalog → Catalog
register_all digest [] catalog = catalog
register_all digest (p ∷ ps) catalog = register_all digest ps (register digest catalog p).0
