-- ===== src/Planner/Proposal/Accepted.antt =====
-- internal/planner/planner.go and internal/domain/validate.go: `ValidateProposal` on what
-- `buildProposal` builds.
use sema.Planner.Proposal.{build_proposal, proposal_identity, team_assignments}
use sema.Planner.{placed, references, Placement, ProposalCandidate}
use sema.Planner.Search.Seats.{ticket_ids-append}
use mathlib.Core.List.{append_assoc, append-nil}
use sema.Planner.Batch.{supply, ticket_ids}
use sema.Domain.Batch.{ticket_reference}
use sema.Domain.Proposal.{
  check_refs, check_teams, check_target, is_known_kind, validate_proposal, kind_fits,
}
use sema.Base.{
  has-times, times, times-append, Text, is_blank, List, [], ◌∷◌, ◌++◌, ◌+◌, ◌≡◌, ◌≤◌, ◌<◌, ℕ, suc,
  All, length, ◌∙◌, sym, ap, refl, arith, false, true, All-split, Option, some, none,
}
use sema.Domain.{
  ok, ProposalKind, new_match, backfill, other_kind, MatchProposal, TicketRef, MatchTicket,
  MatchmakingSnapshot, BackfillTarget,
}

-- A ticket has a name and a revision.
abbrev pub IsNamed : MatchTicket → Type 0
IsNamed t = (is_blank t.id ≡ false) × (0 < t.revision)

-- The seen names have grown by those of the tickets.
abbrev Adds : List Text → List Text → List Text → Type 0
Adds seen names after = (k : Text) → times k after ≡ times k seen + times k names

references-append :
    (xs ys : List MatchTicket) → references (xs ++ ys) ≡ references xs ++ references ys
unfolding references
references-append [] ys = refl
references-append (x ∷ xs) ys = ap (λ r. ticket_reference x ∷ r) (references-append xs ys)

times-ticket_ids-append :
    (k : Text) (xs ys : List MatchTicket)
    → times k (ticket_ids (xs ++ ys)) ≡ times k (ticket_ids xs) + times k (ticket_ids ys)
times-ticket_ids-append k xs ys =
    ap (times k) (ticket_ids-append xs ys) ∙ times-append k (ticket_ids xs) (ticket_ids ys)

check_refs_accepted :
    (seen : List Text) (flattened : List TicketRef) (ts : List MatchTicket)
    → All IsNamed ts
    → ((k : Text) → times k seen + times k (ticket_ids ts) ≤ 1)
    → (after : List Text) × (check_refs seen flattened (references ts)
        ≡ ok (after, flattened ++ references ts))
      × Adds seen (ticket_ids ts) after
unfolding check_refs references ticket_ids times
check_refs_accepted seen flattened [] named once =
    (seen, ap (λ fs. ok (seen, fs)) (sym (append-nil flattened)), λ k. omega arith)
check_refs_accepted seen flattened (t ∷ ts) named once =
    let (after, checks, adds) =
      check_refs_accepted (t.id ∷ seen) (flattened ++ ticket_reference t ∷ []) ts named.1
        (λ k. ground (arith, once k)) in
    (
      after,
      ground (
        arith,
        once t.id,
        has-times t.id seen,
        checks,
        append_assoc flattened (ticket_reference t ∷ []) (references ts),
      ),
      λ k. ground (arith, adds k),
    )

check_teams_accepted :
    (index : ℕ) (seen : List Text) (flattened : List TicketRef) (teams : Placement)
    → All IsNamed (placed teams)
    → ((k : Text) → times k seen + times k (ticket_ids (placed teams)) ≤ 1)
    → (after : List Text) × (check_teams index seen flattened (team_assignments index teams)
        ≡ ok (after, flattened ++ references (placed teams)))
      × Adds seen (ticket_ids (placed teams)) after
unfolding check_teams placed team_assignments references ticket_ids times
check_teams_accepted index seen flattened [] named once =
    (seen, ap (λ fs. ok (seen, fs)) (sym (append-nil flattened)), λ k. omega arith)
check_teams_accepted index seen flattened (team ∷ teams) named once =
    let (here, rest) = All-split IsNamed team (placed teams) named in
    let (between, checks, adds) =
      check_refs_accepted seen flattened team here
        (λ k. omega (arith, once k, times-ticket_ids-append k team (placed teams))) in
    let (after, checks', adds') =
      check_teams_accepted (suc index) between (flattened ++ references team) teams rest
        (λ k. omega (arith, adds k, once k, times-ticket_ids-append k team (placed teams))) in
    (
      after,
      ground (
        arith,
        checks,
        checks',
        references-append team (placed teams),
        append_assoc flattened (references team) (references (placed teams)),
      ),
      λ k. omega (arith, adds k, adds' k, times-ticket_ids-append k team (placed teams)),
    )

-- The roster that a proposal fills is complete.
pub record IsTarget (target : BackfillTarget) : Type 0 where
  pub id : is_blank target.ticket.id ≡ false
  pub revision : 0 < target.ticket.revision
  pub session_id : is_blank target.session_id ≡ false
  pub roster_version : 0 < target.roster_version

-- A candidate of a known kind for some named tickets, none of them twice or its own target.
pub record IsFormed (c : ProposalCandidate) : Type 0 where
  pub kind : kind_fits c.kind c.target ≡ true
  pub some_ticket : 1 ≤ length (placed c.placement)
  pub named : All IsNamed (placed c.placement)
  pub once : (k : Text) → times k (supply c) ≤ 1
  pub target :
      (t : BackfillTarget) → c.target ≡ some t → IsTarget t × (times t.ticket.id (supply c) ≡ 0)

check_target_accepted :
    (seen : List Text) (o : Option BackfillTarget)
    → ((t : BackfillTarget) → o ≡ some t → IsTarget t × (times t.ticket.id seen ≡ 0))
    → check_target seen o ≡ ok tt
unfolding check_target
check_target_accepted seen none h = refl
check_target_accepted seen (some t) h =
    let (complete, fresh) = h t refl in
    ground (
      arith,
      complete.id,
      complete.revision,
      complete.session_id,
      complete.roster_version,
      fresh,
      has-times t.ticket.id seen,
    )

kind_fits-is_known_kind :
    (k : ProposalKind) (o : Option BackfillTarget) → kind_fits k o ≡ true → is_known_kind k ≡ true
kind_fits-is_known_kind new_match o h = refl
kind_fits-is_known_kind backfill o h = refl
kind_fits-is_known_kind (other_kind _) o h = absurd (ground arith)

proposal_identity-is_blank :
    (digest : Text → Text) (id : Text) (sequence : ℕ) (p : MatchProposal)
    → is_blank (proposal_identity digest id sequence p) ≡ false
unfolding proposal_identity
proposal_identity-is_blank digest [] sequence p = refl
proposal_identity-is_blank digest (_ ∷ _) sequence p = refl

length-references : (ts : List MatchTicket) → length (references ts) ≡ length ts
unfolding references
length-references [] = refl
length-references (t ∷ ts) = omega (arith, length-references ts)

length-team_assignments :
    (index : ℕ) (teams : Placement)
    → 1 ≤ length (placed teams)
    → 1 ≤ length (team_assignments index teams)
unfolding team_assignments placed
length-team_assignments index [] h = absurd (omega (arith, h))
length-team_assignments index (team ∷ teams) h = omega arith

-- A proposal whose parts are accepted one by one.
record IsAccepted (p : MatchProposal) : Type 0 where
  id : is_blank p.id ≡ false
  policy_version : is_blank p.policy_version ≡ false
  policy_fingerprint : is_blank p.policy_fingerprint ≡ false
  kind : kind_fits p.kind p.target ≡ true
  some_team : 1 ≤ length p.teams
  some_ticket : 1 ≤ length p.tickets
  seen : List Text
  placed_once : check_teams 0 [] [] p.teams ≡ ok (seen, p.tickets)
  target : check_target seen p.target ≡ ok tt

validate_proposal_accepts : (p : MatchProposal) → IsAccepted p → validate_proposal p ≡ ok tt
unfolding validate_proposal
validate_proposal_accepts p h = ground (
  arith,
  h.id,
  h.policy_version,
  h.policy_fingerprint,
  kind_fits-is_known_kind p.kind p.target h.kind,
  h.kind,
  h.some_team,
  h.some_ticket,
  h.placed_once,
  h.target,
)

-- What buildProposal builds from a well-formed candidate passes ValidateProposal, under a policy whose
-- version and fingerprint are not empty.
pub build_proposal-validate_proposal :
    (digest : Text → Text) (s : MatchmakingSnapshot) (c : ProposalCandidate) (sequence : ℕ)
    (fingerprint : Text)
    → is_blank s.policy.version ≡ false
    → is_blank fingerprint ≡ false
    → IsFormed c
    → validate_proposal (build_proposal digest s c sequence fingerprint) ≡ ok tt
unfolding build_proposal times
build_proposal-validate_proposal digest s c sequence fingerprint version print h =
    let (after, checks, adds) =
      check_teams_accepted 0 [] [] c.placement h.named (λ k. omega (arith, h.once k)) in
    validate_proposal_accepts (build_proposal digest s c sequence fingerprint) (record {
      id = proposal_identity-is_blank digest s.id sequence _;
      policy_version = version;
      policy_fingerprint = print;
      kind = h.kind;
      some_team = length-team_assignments 0 c.placement h.some_ticket;
      some_ticket = omega (arith, h.some_ticket, length-references (placed c.placement));
      seen = after;
      placed_once = checks;
      target = check_target_accepted after c.target (λ t is_t.
          let (complete, fresh) = h.target t is_t in
          (complete, omega (arith, fresh, adds t.ticket.id)));
    })
