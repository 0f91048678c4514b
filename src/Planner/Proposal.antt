-- ===== src/Planner/Proposal.antt =====
-- internal/planner/planner.go: `buildProposal` and `proposalIdentity`.
pub mod Accepted
pub mod Identity
use sema.Domain.Validate.{validate_snapshot}
use sema.Objective.{max_ℤ}
use sema.Planner.Batch.Search.{select_proposal_batch}
use sema.Constraint.{ticket_allowed}
use sema.Planner.Placement.{SearchBudget}
use sema.Planner.Batch.{supply, all_names, rank_candidate_utilities, ticket_ids, BatchSelection}
use sema.Domain.Policy.{fingerprint_policy, big_endian, append_canonical_string}
use sema.Base.Sort.{sort}
use sema.Planner.Candidates.{remove_placed, Generator, CandidateGeneration}
use sema.Planner.Collect.{generate_proposal_candidates}
use sema.Domain.Batch.{
  insufficient_capacity, quality_threshold, batch_objective, proposal_limit, hard_constraint,
  BatchScoreEvidence, ticket_reference, ProposalBatch, UnmatchedTicket, search_budget,
  UnmatchedReason,
}
use sema.Planner.{
  kind_text, placed, compare_queue_order, references, PriorityDemand, ProposalCandidate, is_lt,
  Placement,
}
use sema.Base.{
  none, some, to_word, bytes, some, zero, suc, ◌++◌, ◌-◌, ltb, false, leb, leb_ℤ, has, length, ◌&&◌,
  ◌-◌, ◌||◌, Option, [], decimal, if◌then◌else◌, is_zero, pos, suc, ◌∷◌, Bool, List, Text, ℤ, ℕ,
}
use sema.Domain.{
  ok, ◌>>◌, ◌>>=◌, BackfillTarget, MatchProposal, Result, TeamAssignment, TicketRef, BackfillTicket,
  MatchmakingPolicy, MatchmakingSnapshot, MatchTicket,
}

-- `appendProposalString`.
abbrev pub append_proposal_string : Text → Text → Text
append_proposal_string encoded value = append_canonical_string encoded value

unfoldable pub append_references : Text → List TicketRef → Text
append_references encoded [] = encoded
append_references encoded (r ∷ rs) =
    append_references (append_proposal_string encoded r.id ++ big_endian (to_word (pos r.revision)))
      rs

unfoldable pub append_teams : Text → List TeamAssignment → Text
append_teams encoded [] = encoded
append_teams encoded (t ∷ ts) =
    append_teams
      (append_references
        ((encoded ++ big_endian (to_word t.team)) ++ big_endian (to_word (pos (length t.tickets))))
        t.tickets)
      ts

unfoldable pub append_target : Text → Option BackfillTarget → Text
append_target encoded none = encoded ++ 0 ∷ []
append_target encoded (some target) =
    append_proposal_string
      (append_proposal_string (encoded ++ 1 ∷ []) target.ticket.id
        ++ big_endian (to_word (pos target.ticket.revision)))
      target.session_id
    ++ big_endian (to_word (pos target.roster_version))

-- What `proposalIdentity` hashes.
unfoldable pub encode_proposal : Text → ℕ → MatchProposal → Text
encode_proposal snapshot_id sequence p =
    let header = append_proposal_string [] snapshot_id ++ big_endian (to_word (pos sequence)) in
    let policy =
      append_proposal_string (append_proposal_string header p.policy_version)
        p.policy_fingerprint in
    let kind = append_proposal_string policy (kind_text p.kind) in
    append_target (append_teams (kind ++ big_endian (to_word (pos (length p.teams)))) p.teams)
      p.target

abbrev pub prefix : ℕ → Text → Text
prefix zero s = []
prefix (suc n) [] = []
prefix (suc n) (c ∷ s) = c ∷ prefix n s

-- `%04d`.
abbrev pub pad_zeros : ℕ → Text → Text
pad_zeros zero s = s
pad_zeros (suc n) s = 48 ∷ pad_zeros n s

unfoldable pub decimal4 : ℕ → Text
decimal4 n = let digits = decimal n in pad_zeros (4 - length digits) digits

-- `digest` gives the hexadecimal digits of a hash, two for each byte.
unfoldable pub proposal_identity : (Text → Text) → Text → ℕ → MatchProposal → Text
proposal_identity digest snapshot_id sequence p =
    snapshot_id
    ++ (bytes "/p"
        ++ (decimal4 sequence
            ++ (bytes "/" ++ prefix 32 (digest (encode_proposal snapshot_id sequence p)))))

-- The assignments of a placement, its first team having some index.
unfoldable pub team_assignments : ℕ → Placement → List TeamAssignment
team_assignments index [] = []
team_assignments index (team ∷ teams) =
    record { team = pos index; tickets = references team } ∷ team_assignments (suc index) teams

-- `buildProposal`; its argument `search` holds the candidate's placement and evaluation.
unfoldable pub build_proposal :
    (Text → Text) → MatchmakingSnapshot → ProposalCandidate → ℕ → Text → MatchProposal
build_proposal digest snapshot c sequence fingerprint =
    let unnamed : MatchProposal = record {
      id = [];
      kind = c.kind;
      policy_version = snapshot.policy.version;
      policy_fingerprint = fingerprint;
      teams = team_assignments 0 c.placement;
      tickets = references (placed c.placement);
      target = c.target;
      evidence = record c.evaluation.evidence { selection_utility = c.utility };
    } in
    record unnamed { id = proposal_identity digest snapshot.id sequence unnamed }

-- The loop over the selected candidates, the first of which has some index.
unfoldable pub build_proposals :
    (Text → Text) → MatchmakingSnapshot → Text → ℕ → List ProposalCandidate → List MatchProposal
build_proposals digest snapshot fingerprint index [] = []
build_proposals digest snapshot fingerprint index (c ∷ cs) =
    build_proposal digest snapshot c (suc index) fingerprint
    ∷ build_proposals digest snapshot fingerprint (suc index) cs
