-- ===== src/Engine/Laws.antt =====
-- The policy under which the engine's snapshots are taken.
use sema.Base.{Text, List, [], ◌∷◌, Option, none, some, ◌≡◌, refl, ap}
use sema.Domain.{Time, MatchmakingSnapshot, ok}
use sema.Catalog.{Entry, get}
use sema.Catalog.Laws.{register-keeps}
use sema.Coordinator.Snapshot.{collect}
use sema.Coordinator.Snapshot.Laws.{snapshot-collect}
use sema.Engine.{
  Engine, EngineCall, registers, takes_snapshot, passes_on, register_policy, snapshot_of, snapshot,
  perform_engine, run_engine,
}

snapshot_of-policies :
    (engine : Engine) (id : Text) (now : Time) (o : Option Entry)
    → (snapshot_of engine id now o).0.policies ≡ engine.policies
unfolding snapshot_of
snapshot_of-policies engine id now none = refl
snapshot_of-policies engine id now (some entry) = refl

perform_engine-get :
    (digest : Text → Text) (call : EngineCall) (engine : Engine) (version : Text) (e : Entry)
    → get engine.policies version ≡ some e
    → get (perform_engine digest call engine).policies version ≡ some e
unfolding perform_engine register_policy snapshot
perform_engine-get digest (registers p) engine version e h =
    register-keeps digest engine.policies p version e h
perform_engine-get digest (takes_snapshot id now v) engine version e h =
    rw (snapshot_of-policies engine id now (get engine.policies v)) h
perform_engine-get digest (passes_on call) engine version e h = h

run_engine-get :
    (digest : Text → Text) (calls : List EngineCall) (engine : Engine) (version : Text) (e : Entry)
    → get engine.policies version ≡ some e
    → get (run_engine digest calls engine).policies version ≡ some e
unfolding run_engine
run_engine-get digest [] engine version e h = h
run_engine-get digest (call ∷ calls) engine version e h =
    run_engine-get digest calls (perform_engine digest call engine) version e
      (perform_engine-get digest call engine version e h)

-- Once a version is registered, every snapshot that the engine returns for it after any further
-- calls carries the policy that was registered, with the requested name and time.
pub snapshot-policy :
    (digest : Text → Text) (calls : List EngineCall) (engine : Engine) (version : Text) (e : Entry)
    (id : Text) (now : Time) (s : MatchmakingSnapshot)
    → get engine.policies version ≡ some e
    → (snapshot (run_engine digest calls engine) id now version).1 ≡ ok s
    → (s.policy ≡ e.policy) × (s.id ≡ id) × (s.now ≡ now)
unfolding snapshot snapshot_of collect
snapshot-policy digest calls engine version e id now s h taken =
    let d = run_engine digest calls engine in
    let known = run_engine-get digest calls engine version e h in
    let answer : (snapshot_of d id now (some e)).1 ≡ ok s =
      cc (taken, ap (λ o. (snapshot_of d id now o).1) known) in
    let (_, made) = snapshot-collect d.coordinator id now e.policy s answer in
    (cc (ap (λ x. x.policy) made), cc (ap (λ x. x.id) made), cc (ap (λ x. x.now) made))
