-- ===== src/Planner/Plan/Accepted.antt =====
-- internal/planner/planner.go and internal/domain/validate.go: the proposals of `Plan` pass
-- `ValidateProposal`.
use sema.Planner.Plan.Results.{chosen}
use sema.Planner.Proposal.Accepted.{IsFormed, IsNamed, IsTarget, build_proposal-validate_proposal}
use sema.Planner.Proposal.{build_proposals}
use sema.Planner.Plan.Queue.{
  Candidate, available_tickets, selection, times-sort_tickets, times-allowed_tickets,
}
use sema.Planner.Plan.Outcome.{plan-ok}
use sema.Planner.Plan.{allowed_tickets, ticket_less, sort_tickets, plan, plan_batch, assemble}
use sema.Planner.Batch.{supply}
use sema.Planner.{placed, ProposalCandidate}
use sema.Domain.Batch.{ProposalBatch, backfill_reference}
use sema.Domain.Policy.{encode_policy}
use sema.Domain.Proposal.{validate_proposal}
use sema.Domain.Snapshots.{match_names, backfill_names, validate_snapshot-IsSnapshot}
use sema.Domain.Tickets.{validate_match_ticket_iff}
use sema.Domain.Validate.{
  validate_snapshot, check_match_tickets, check_backfill_tickets, validate_backfill_ticket,
  claim_players, validate_policy,
}
use sema.Constraint.{ticket_allowed}
use sema.Base.Sort.{All-sort}
use sema.Base.{
  Member, All, ◌+◌, All-at, All-map, get_elem?, times, times-append, times_of_Distinct, Text,
  is_blank, List, [], ◌∷◌, ◌++◌, ◌≡◌, ◌≤◌, ℕ, zero, suc, arith, false, inl, inr, some, subst,
  if_branches,
}
use sema.Domain.{
  ok, BackfillTarget, Result-cases, MatchTicket, BackfillTicket, MatchmakingPolicy,
  MatchmakingSnapshot, Time,
}

pub All-allowed_tickets {ℓ} :
    (P : MatchTicket → Type ℓ) (policy : MatchmakingPolicy) (ts : List MatchTicket)
    → All P ts
    → All P (allowed_tickets policy ts)
unfolding allowed_tickets
All-allowed_tickets P policy [] h = tt
All-allowed_tickets P policy (t ∷ ts) h =
    if_branches {A = List MatchTicket} (All P)
      (ticket_allowed t policy.team_size policy.max_latency_millis)
      (λ _. (h.0, All-allowed_tickets P policy ts h.1)) (λ _. All-allowed_tickets P policy ts h.1)

All-IsNamed :
    (now : Time) (tickets players : List Text) (ts : List MatchTicket) (after : List Text)
    → check_match_tickets now tickets players ts ≡ ok after
    → All IsNamed ts
unfolding check_match_tickets
All-IsNamed now tickets players [] after h = tt
All-IsNamed now tickets players (t ∷ ts) after h =
    elim (Result-cases (claim_players players t.players)) [
      | inl (e, bad) ↦ absurd (ground arith)
      | inr (players', fine) ↦
          let formed = (validate_match_ticket_iff t).0 (ground arith) in
          (
            (formed.id, formed.revision),
            All-IsNamed now (t.id ∷ tickets) players' ts after (ground arith),
          )
    ]

validate_backfill_ticket-IsTarget :
    (b : BackfillTicket) → validate_backfill_ticket b ≡ ok tt → IsTarget (backfill_reference b)
unfolding validate_backfill_ticket
validate_backfill_ticket-IsTarget b h = record {
  id = ground arith;
  revision = ground arith;
  session_id = ground arith;
  roster_version = ground arith;
}

All-IsTarget :
    (now : Time) (policy : MatchmakingPolicy) (tickets : List Text) (bs : List BackfillTicket)
    → check_backfill_tickets now policy tickets bs ≡ ok tt
    → All (λ b. IsTarget (backfill_reference b)) bs
unfolding check_backfill_tickets
All-IsTarget now policy tickets [] h = tt
All-IsTarget now policy tickets (b ∷ bs) h = (
  validate_backfill_ticket-IsTarget b (ground arith),
  All-IsTarget now policy (b.id ∷ tickets) bs (ground arith),
)

-- What a cycle needs of an accepted snapshot.
record IsReady (s : MatchmakingSnapshot) : Type 0 where
  named : All IsNamed s.match_tickets
  targets : All (λ b. IsTarget (backfill_reference b)) s.backfill_tickets
  version : is_blank s.policy.version ≡ false

validate_policy-version :
    (p : MatchmakingPolicy) → validate_policy p ≡ ok tt → is_blank p.version ≡ false
unfolding validate_policy
validate_policy-version p h = ground arith

validate_snapshot-IsReady : (s : MatchmakingSnapshot) → validate_snapshot s ≡ ok tt → IsReady s
unfolding validate_snapshot
validate_snapshot-IsReady s h =
    elim (Result-cases (check_match_tickets s.now [] [] s.match_tickets)) [
      | inl (e, bad) ↦ absurd (ground arith)
      | inr (after, fine) ↦ record {
        named = All-IsNamed s.now [] [] s.match_tickets after fine;
        targets = All-IsTarget s.now s.policy after s.backfill_tickets (ground arith);
        version = validate_policy-version s.policy (ground arith);
      }
    ]

times-backfill_names :
    (bs : List BackfillTicket) (i : ℕ) (b : BackfillTicket)
    → get_elem? bs i ≡ some b
    → 1 ≤ times b.id (backfill_names bs)
unfolding times
times-backfill_names [] i b m = absurd (ground arith)
times-backfill_names (x ∷ bs) zero b m = ground arith
times-backfill_names (x ∷ bs) (suc i) b m = ground (arith, times-backfill_names bs i b m)

module _ (s : MatchmakingSnapshot) (valid : validate_snapshot s ≡ ok tt) where
  -- A candidate holds tickets of the snapshot.
  times-from :
      (k : Text) (c : ProposalCandidate)
      → Candidate (λ b. Member b s.backfill_tickets) s c
      → times k (supply c) + times k (backfill_names s.backfill_tickets) ≤ 1
  times-from k c h = omega (
    arith,
    h.supplied k,
    times-sort_tickets k (allowed_tickets s.policy s.match_tickets),
    times-allowed_tickets k s.policy s.match_tickets,
    times-append k (match_names s.match_tickets) (backfill_names s.backfill_tickets),
    times_of_Distinct (match_names s.match_tickets ++ backfill_names s.backfill_tickets)
        (validate_snapshot-IsSnapshot s valid).distinct_tickets k,
  )

  available-IsNamed : All IsNamed (available_tickets s)
  unfolding sort_tickets
  available-IsNamed = All-sort ticket_less IsNamed _ (
      All-allowed_tickets IsNamed s.policy s.match_tickets
        (validate_snapshot-IsReady s valid).named)

  backfill-IsTarget :
      (c : ProposalCandidate) (b : BackfillTicket) (t : BackfillTarget)
      → Candidate (λ b. Member b s.backfill_tickets) s c
      → Member b s.backfill_tickets
      → backfill_reference b ≡ t
      → IsTarget t × (times t.ticket.id (supply c) ≡ 0)
  backfill-IsTarget c b t h m same =
      subst (λ r. IsTarget r × (times r.ticket.id (supply c) ≡ 0)) same
        (
          All-at (λ b. IsTarget (backfill_reference b)) s.backfill_tickets m.0 b
              (validate_snapshot-IsReady s valid).targets m.1,
          omega (arith, times-from b.id c h, times-backfill_names s.backfill_tickets m.0 b m.1),
        )

  Candidate-IsFormed :
      (c : ProposalCandidate) → Candidate (λ b. Member b s.backfill_tickets) s c → IsFormed c
  Candidate-IsFormed c h = record {
    kind = elim h.shaped [
      | inl n ↦ ground (arith, n.kind, n.target)
      | inr (b, m, n) ↦ ground (arith, n.kind, n.target)
    ];
    some_ticket = h.some_ticket;
    named =
        All-map (λ t m. All-at IsNamed (available_tickets s) m.0 t available-IsNamed m.1)
          (placed c.placement) h.drawn;
    once = λ k. omega (arith, times-from k c h);
    target = λ t is_t. elim h.shaped [
      | inl n ↦ absurd (ground (arith, n.target, is_t))
      | inr (b, m, n) ↦ backfill-IsTarget c b t h m (cc (n.target, is_t))
    ];
  }

  build_proposals-accepted :
      (digest : Text → Text) (fingerprint : Text) (index : ℕ) (cs : List ProposalCandidate)
      → is_blank fingerprint ≡ false
      → All (Candidate (λ b. Member b s.backfill_tickets) s) cs
      → All (λ p. validate_proposal p ≡ ok tt) (build_proposals digest s fingerprint index cs)
  unfolding build_proposals
  build_proposals-accepted digest fingerprint index [] print h = tt
  build_proposals-accepted digest fingerprint index (c ∷ cs) print h = (
    build_proposal-validate_proposal digest s c (suc index) fingerprint
        (validate_snapshot-IsReady s valid).version print (Candidate-IsFormed c h.0),
    build_proposals-accepted digest fingerprint (suc index) cs print h.1,
  )

-- Where `Plan` returns a batch and the digest of the policy is not empty, every proposal of the batch
-- passes `ValidateProposal`.
pub plan-validate_proposal :
    (digest : Text → Text) (s : MatchmakingSnapshot) (batch : ProposalBatch)
    → ((value : Text) → is_blank (digest value) ≡ false)
    → plan digest s ≡ some (ok batch)
    → All (λ p. validate_proposal p ≡ ok tt) batch.proposals
unfolding plan_batch assemble
plan-validate_proposal digest s batch digests planned =
    let (valid, same) = plan-ok digest s batch planned in
    subst (λ b. All (λ p. validate_proposal p ≡ ok tt) b.proposals) same
      (build_proposals-accepted s valid digest (digest (encode_policy s.policy)) 0
        (selection s).candidates (digests (encode_policy s.policy)) (chosen digest s valid).0.from)
