-- ===== src/Engine/Reserving.antt =====
-- internal/coordinator/coordinator.go and internal/planner/planner.go: `Reserve` takes what `Plan` made
-- of a snapshot, as internal/engine/engine.go composes them.
use sema.Planner.Plan.Accepted.{All-allowed_tickets, plan-validate_proposal}
use sema.Planner.Plan.Results.{TargetsKnown, plan-TargetsKnown, chosen}
use sema.Planner.Plan.Queue.{Candidate, available_tickets, selection}
use sema.Planner.Plan.Outcome.{plan-ok}
use sema.Planner.Plan.{plan, plan_batch, assemble, sort_tickets, ticket_less}
use sema.Planner.Proposal.{build_proposals, build_proposal}
use sema.Planner.{references, placed, ProposalCandidate}
use sema.Domain.Batch.{ProposalBatch, ticket_reference, backfill_reference}
use sema.Domain.Policy.{encode_policy}
use sema.Domain.Proposal.{validate_proposal}
use sema.Coordinator.{Coordinator}
use sema.Coordinator.Tickets.Ownership.{IsOwned}
use sema.Coordinator.Tickets.{match_differs}
use sema.Coordinator.Snapshot.{match_id, backfill_id}
use sema.Coordinator.Expiry.{expire, ref_ids, target_ids}
use sema.Coordinator.Expiry.Laws.{NoneDue, expire_idle, expire-NoneDue}
use sema.Coordinator.Reservations.{
  reserve, reserve_locked, reserve_new, check_reserve, validate_freshness, validate_availability,
  check_fresh_refs, target_differs, check_fresh_target, check_free, new_reservation,
}
use sema.Coordinator.Snapshot.{snapshot}
use sema.Coordinator.Snapshot.Laws.{snapshot-find, unless_held, snapshot-collect, expire-tickets}
use sema.Base.Map.{lookup}
use sema.Base.Sort.{find, DistinctNames, All-sort}
use sema.Base.{
  Member, All, All-at, All-map, All-Member, Text, is_blank, List, [], ◌∷◌, ◌≡◌, ◌∙◌, ℕ, zero, suc,
  refl, sym, ap, arith, false, inl, inr, some, none, Option, subst, get_elem?,
}
use sema.Domain.{
  ok, MatchTicket, BackfillTicket, MatchmakingPolicy, MatchmakingSnapshot, Time, TicketRef,
  MatchProposal, BackfillTarget, is_zero_time,
}

find-Member {ℓ} :
    {A : Type ℓ} (name : A → Text) (xs : List A) (i : ℕ) (a : A)
    → DistinctNames name xs
    → get_elem? xs i ≡ some a
    → find name (name a) xs ≡ some a
unfolding find
find-Member name [] i a d m = absurd (ground arith)
find-Member name (x ∷ xs) zero a d m = ground arith
find-Member name (x ∷ xs) (suc i) a d m = ground (arith, d.0, find-Member name xs i a d.1 m)

-- A reference to a ticket of the queue, as it is there.
abbrev IsQueued : List MatchTicket → TicketRef → Type 0
IsQueued ts r = (t : MatchTicket) × Member t ts × (r ≡ ticket_reference t)

references-IsQueued :
    (queue ts : List MatchTicket)
    → All (λ t. Member t queue) ts
    → All (IsQueued queue) (references ts)
unfolding references
references-IsQueued queue [] h = tt
references-IsQueued queue (t ∷ ts) h = ((t, h.0, refl), references-IsQueued queue ts h.1)

available-Member :
    (s : MatchmakingSnapshot) → All (λ t. Member t s.match_tickets) (available_tickets s)
unfolding sort_tickets
available-Member s =
    All-sort ticket_less (λ t. Member t s.match_tickets) _
      (All-allowed_tickets _ s.policy s.match_tickets (All-Member s.match_tickets))

build_proposals-IsQueued :
    (digest : Text → Text) (s : MatchmakingSnapshot) (fingerprint : Text) (index : ℕ)
    (cs : List ProposalCandidate)
    → All (Candidate (λ b. Member b s.backfill_tickets) s) cs
    → All
        (λ p. All (IsQueued s.match_tickets) p.tickets)
        (build_proposals digest s fingerprint index cs)
unfolding build_proposals build_proposal
build_proposals-IsQueued digest s fingerprint index [] h = tt
build_proposals-IsQueued digest s fingerprint index (c ∷ cs) h = (
  references-IsQueued s.match_tickets (placed c.placement) (
      All-map
        (λ t m.
          All-at (λ u. Member u s.match_tickets) (available_tickets s) m.0 t (available-Member s)
            m.1)
        (placed c.placement) h.0.drawn),
  build_proposals-IsQueued digest s fingerprint (suc index) cs h.1,
)

plan-IsQueued :
    (digest : Text → Text) (s : MatchmakingSnapshot) (batch : ProposalBatch)
    → plan digest s ≡ some (ok batch)
    → All (λ p. All (IsQueued s.match_tickets) p.tickets) batch.proposals
unfolding plan_batch assemble
plan-IsQueued digest s batch planned =
    let (valid, same) = plan-ok digest s batch planned in
    subst (λ b. All (λ p. All (IsQueued s.match_tickets) p.tickets) b.proposals) same
      (build_proposals-IsQueued digest s (digest (encode_policy s.policy)) 0
        (selection s).candidates (chosen digest s valid).0.from)

-- What is found is there, and held by no reservation.
unless_held-some {ℓ} :
    {A : Type ℓ} (holder : Option Text) (o : Option A) (a : A)
    → unless_held holder o ≡ some a
    → (holder ≡ none) × (o ≡ some a)
unless_held-some none o a h = (refl, h)
unless_held-some (some k) o a h = absurd (ground arith)

-- A ticket of the state in the given revision, held by no reservation; and a target likewise.
abbrev IsFree : Coordinator → TicketRef → Type 0
IsFree d r =
    (lookup r.id d.ticket_reservations ≡ none)
    × ((t : MatchTicket) × (lookup r.id d.match_tickets ≡ some t) × (t.revision ≡ r.revision))

abbrev IsOpen : Coordinator → Option BackfillTarget → Type 0
IsOpen d none = Unit
IsOpen d (some target) =
    (lookup target.ticket.id d.backfill_reservations ≡ none)
    × ((b : BackfillTicket) × (lookup target.ticket.id d.backfill_tickets ≡ some b)
        × (backfill_reference b ≡ target))

fresh_refs :
    (d : Coordinator) (rs : List TicketRef)
    → All (IsFree d) rs
    → (check_fresh_refs d.match_tickets rs ≡ ok tt)
      × (check_free d.ticket_reservations (ref_ids rs) ≡ ok tt)
unfolding check_fresh_refs check_free match_differs
fresh_refs d [] h = (refl, refl)
fresh_refs d (r ∷ rs) h =
    let (fresh, free) = fresh_refs d rs h.1 in
    let (unheld, (t, found, same)) = h.0 in
    (ground (arith, fresh, found, same), ground (arith, free, unheld))

fresh_target :
    (d : Coordinator) (o : Option BackfillTarget)
    → IsOpen d o
    → (check_fresh_target d.backfill_tickets o ≡ ok tt)
      × (check_free d.backfill_reservations (target_ids o) ≡ ok tt)
unfolding check_fresh_target check_free target_differs
fresh_target d none h = (refl, refl)
fresh_target d (some target) h =
    let (unheld, (b, found, same)) = h in
    (
      ground (
        arith,
        found,
        ap (λ r. r.ticket.revision) same,
        ap (λ r. r.session_id) same,
        ap (λ r. r.roster_version) same,
      ),
      ground (arith, unheld),
    )

reserve_accepts :
    (c : Coordinator) (p : MatchProposal) (name : Text) (now : Time)
    → is_blank name ≡ false
    → is_zero_time now ≡ false
    → validate_proposal p ≡ ok tt
    → lookup name (expire now c).reservations ≡ none
    → All (IsFree (expire now c)) p.tickets
    → IsOpen (expire now c) p.target
    → (reserve c p name now).1 ≡ ok (new_reservation (expire now c) p name now)
unfolding reserve reserve_locked reserve_new check_reserve validate_freshness validate_availability
reserve_accepts c p name now named timed valid unused tickets target =
    let (fresh, free) = fresh_refs (expire now c) p.tickets tickets in
    let (current, open_target) = fresh_target (expire now c) p.target target in
    ground (arith, named, timed, valid, unused, fresh, free, current, open_target)

-- The tickets and the target of a planned proposal are free after the snapshot.
module _ (c : Coordinator) (id : Text) (now : Time) (policy : MatchmakingPolicy)
    (s : MatchmakingSnapshot) (owned : IsOwned c)
    (taken : (snapshot c id now policy).1 ≡ ok s) where
  ticket-IsFree :
      (t : MatchTicket) (i : ℕ)
      → get_elem? s.match_tickets i ≡ some t
      → IsFree (expire now c) (ticket_reference t)
  ticket-IsFree t i m =
      let laws = snapshot-find c id now policy s owned taken in
      let after = (snapshot-collect c id now policy s taken).0 in
      let (unheld, found) =
        unless_held-some _ _ t
          (sym (laws.0 t.id) ∙ find-Member match_id s.match_tickets i t laws.2 m) in
      (
        ap (λ d. lookup t.id d.ticket_reservations) (sym after) ∙ unheld,
        (t, ap (lookup t.id) (expire-tickets now c).0 ∙ found, refl),
      )

  target-IsOpen : (p : MatchProposal) → TargetsKnown s p → IsOpen (expire now c) p.target
  target-IsOpen p known = elim known [
    | inl (kind, target) ↦ subst (IsOpen (expire now c)) (sym target) tt
    | inr (b, m, kind, target) ↦
        let laws = snapshot-find c id now policy s owned taken in
        let after = (snapshot-collect c id now policy s taken).0 in
        let (unheld, found) =
          unless_held-some _ _ b
            (sym (laws.1 b.id) ∙ find-Member backfill_id s.backfill_tickets m.0 b laws.3 m.1) in
        subst (IsOpen (expire now c)) (sym target) (
          ap (λ d. lookup b.id d.backfill_reservations) (sym after) ∙ unheld,
          (b, ap (lookup b.id) (expire-tickets now c).1 ∙ found, refl),
        )
  ]

  planned-IsFree :
      (digest : Text → Text) (batch : ProposalBatch)
      → plan digest s ≡ some (ok batch)
      → All (λ p. All (IsFree (expire now c)) p.tickets) batch.proposals
  planned-IsFree digest batch planned =
      All-map
        (λ p h.
          All-map
            (λ r q.
              let (t, m, same) = q in
              subst (IsFree (expire now c)) (sym same) (ticket-IsFree t m.0 m.1))
            p.tickets h)
        batch.proposals (plan-IsQueued digest s batch planned)

-- Where the ownership invariant holds, the coordinator returns a snapshot and `Plan` a batch for it,
-- `Reserve` at the time of the snapshot, under a name that is not empty and not in use, takes each
-- proposal of the batch, where the time and the digests are not empty.
pub reserve-plan :
    (digest : Text → Text) (c : Coordinator) (id : Text) (now : Time) (policy : MatchmakingPolicy)
    (s : MatchmakingSnapshot) (batch : ProposalBatch) (name : Text)
    → IsOwned c
    → ((value : Text) → is_blank (digest value) ≡ false)
    → (snapshot c id now policy).1 ≡ ok s
    → plan digest s ≡ some (ok batch)
    → is_blank name ≡ false
    → is_zero_time now ≡ false
    → lookup name (snapshot c id now policy).0.reservations ≡ none
    → All
        (λ p.
          (reserve (snapshot c id now policy).0 p name now).1
          ≡ ok (new_reservation (snapshot c id now policy).0 p name now))
        batch.proposals
reserve-plan digest c id now policy s batch name owned digests taken planned named timed unused =
    let d = (snapshot c id now policy).0 in
    let after = (snapshot-collect c id now policy s taken).0 in
    let still : expire now d ≡ d =
      expire_idle now d (subst (NoneDue now) (sym after) (expire-NoneDue now c)) in
    let here : expire now c ≡ expire now d = sym after ∙ sym still in
    let free = planned-IsFree c id now policy s owned taken digest batch planned in
    let known = plan-TargetsKnown digest s batch planned in
    let valid = plan-validate_proposal digest s batch digests planned in
    All-map
      (λ p m.
        reserve_accepts d p name now named timed
          (All-at (λ q. validate_proposal q ≡ ok tt) batch.proposals m.0 p valid m.1)
          (ap (λ e. lookup name e.reservations) still ∙ unused)
          (subst (λ e. All (IsFree e) p.tickets) here
            (All-at (λ q. All (IsFree (expire now c)) q.tickets) batch.proposals m.0 p free m.1))
          (subst (λ e. IsOpen e p.target) here
            (target-IsOpen c id now policy s owned taken p
              (All-at (TargetsKnown s) batch.proposals m.0 p known m.1)))
        ∙ ap (λ e. ok (new_reservation e p name now)) still)
      batch.proposals (All-Member batch.proposals)
