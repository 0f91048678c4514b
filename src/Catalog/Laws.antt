-- ===== src/Catalog/Laws.antt =====
-- internal/policy/catalog.go: a version names one content for good.
use sema.Base.{inr, inl, Text, List, [], ◌∷◌, some, ◌≡◌, ap, arith}
use sema.Base.Map.{lookup-insert}
use sema.Domain.{MatchmakingPolicy, ok, Result-cases}
use sema.Domain.Policy.{fingerprint_policy}
use sema.Catalog.{Entry, Catalog, get, register, register_entry, register_fingerprint, register_all}

register_entry-keeps :
    (catalog : Catalog) (candidate : Entry) (version : Text) (e : Entry)
    → get catalog version ≡ some e
    → get (register_entry catalog candidate (get catalog candidate.policy.version)).0 version
      ≡ some e
unfolding register_entry get
register_entry-keeps catalog candidate version e h =
    ground (arith, lookup-insert candidate.policy.version version candidate catalog.entries)

pub register-keeps :
    (digest : Text → Text) (catalog : Catalog) (p : MatchmakingPolicy) (version : Text) (e : Entry)
    → get catalog version ≡ some e
    → get (register digest catalog p).0 version ≡ some e
unfolding register register_fingerprint
register-keeps digest catalog p version e h = elim (Result-cases (fingerprint_policy digest p)) [
  | inl (code, eq) ↦ rw eq h
  | inr (f, eq) ↦
      rw eq (register_entry-keeps catalog (record { policy = p; fingerprint = f }) version e h)
]

-- An entry that the catalog returns for a version is the one it returns for that version after
-- any further registrations, whatever policies they offer.
pub register_all-get :
    (digest : Text → Text) (ps : List MatchmakingPolicy) (catalog : Catalog) (version : Text)
    (e : Entry)
    → get catalog version ≡ some e
    → get (register_all digest ps catalog) version ≡ some e
unfolding register_all
register_all-get digest [] catalog version e h = h
register_all-get digest (p ∷ ps) catalog version e h =
    register_all-get digest ps (register digest catalog p).0 version e
      (register-keeps digest catalog p version e h)

register_entry-get :
    (catalog : Catalog) (candidate e : Entry)
    → (register_entry catalog candidate (get catalog candidate.policy.version)).1 ≡ ok e
    → (get
          (register_entry catalog candidate (get catalog candidate.policy.version)).0
          candidate.policy.version
        ≡ some e)
      × (e.fingerprint ≡ candidate.fingerprint)
unfolding register_entry get
register_entry-get catalog candidate e h = ground (
  arith,
  lookup-insert candidate.policy.version candidate.policy.version candidate catalog.entries,
)

-- A registration that returns an entry has made or found it: the catalog then returns that entry
-- for the version of the candidate, and its fingerprint is the candidate's.
pub register-get :
    (digest : Text → Text) (catalog : Catalog) (p : MatchmakingPolicy) (e : Entry)
    → (register digest catalog p).1 ≡ ok e
    → (get (register digest catalog p).0 p.version ≡ some e)
      × (fingerprint_policy digest p ≡ ok e.fingerprint)
unfolding register register_fingerprint
register-get digest catalog p e h = elim (Result-cases (fingerprint_policy digest p)) [
  | inl (code, eq) ↦ absurd (cc (h, ap (λ r. (register_fingerprint catalog p r).1) eq))
  | inr (f, eq) ↦
      let candidate : Entry = record { policy = p; fingerprint = f } in
      let run = ap (register_fingerprint catalog p) eq in
      let found = register_entry-get catalog candidate e (cc (h, run)) in
      (cc (run, found.0), cc (eq, found.1))
]
