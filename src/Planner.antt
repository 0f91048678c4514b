-- ===== src/Planner.antt =====
-- internal/planner: which placements to propose for a snapshot. Here are the values that its parts
-- share, the keys and the orders; batch.go and planner.go name the code.
pub mod Batch
pub mod Teams
pub mod Placement
pub mod Search
pub mod Candidates
pub mod Collect
pub mod Proposal
pub mod Plan
use Prim.Native.Nat.{compare, Ordering}
use sema.Base.{
  ◌+ℤ◌, ℕ, Text, List, [], ◌∷◌, ◌++◌, Option, none, some, Bool, true, false, ℤ, bytes, decimal,
  bytes_compare, length,
}
use sema.Base.Sort.{sort}
use sema.Domain.{
  Player, Time, MatchTicket, TicketRef, BackfillTarget, ProposalKind, new_match, backfill,
  other_kind,
}
use sema.Domain.Batch.{ticket_reference}
use sema.Objective.{Evaluation, or_else, compare_int}

-- A team of tickets for each team of the match.
abbrev pub Placement : Type 0
Placement = List (List MatchTicket)

pub record PriorityDemand : Type 0 where
  pub key : Text
  pub wait_millis : ℤ

pub record ProposalCandidate : Type 0 where
  pub placement : Placement
  pub evaluation : Evaluation
  pub priority_demands : List PriorityDemand
  pub kind : ProposalKind
  pub target : Option BackfillTarget
  pub key : Text
  pub utility : ℤ
  pub effective_utility : ℤ

abbrev pub is_lt : Ordering → Bool
is_lt Ordering.lt = true
is_lt _ = false

abbrev pub is_eq : Ordering → Bool
is_eq Ordering.eq = true
is_eq _ = false

-- The tickets of a placement, team by team.
unfoldable pub placed : Placement → List MatchTicket
placed [] = []
placed (team ∷ teams) = team ++ placed teams

unfoldable pub references : List MatchTicket → List TicketRef
references [] = []
references (t ∷ ts) = ticket_reference t ∷ references ts

unfoldable pub compare_references : TicketRef → TicketRef → Ordering
compare_references a b = or_else (bytes_compare a.id b.id) (compare a.revision b.revision)

abbrev pub reference_less : TicketRef → TicketRef → Bool
reference_less a b = is_lt (compare_references a b)

-- `%s@%d`.
unfoldable pub describe : Text → ℕ → Text
describe id version = id ++ (bytes "@" ++ decimal version)

unfoldable pub kind_text : ProposalKind → Text
kind_text new_match = bytes "new_match"
kind_text backfill = bytes "backfill"
kind_text (other_kind t) = t

unfoldable pub target_text : Option BackfillTarget → Text
target_text none = []
target_text (some target) =
    bytes "|"
    ++ (describe target.ticket.id target.ticket.revision
        ++ (bytes "|" ++ describe target.session_id target.roster_version))

unfoldable pub references_text : List TicketRef → Text
references_text [] = []
references_text (r ∷ rs) = bytes "|" ++ (describe r.id r.revision ++ references_text rs)

-- `canonicalCandidateKey`.
unfoldable pub canonical_candidate_key : ProposalKind → Option BackfillTarget → Placement → Text
canonical_candidate_key kind target placement =
    kind_text kind
    ++ (target_text target ++ references_text (sort reference_less (references (placed placement))))

unfoldable pub ticket_key_text : List TicketRef → Text
ticket_key_text [] = []
ticket_key_text (r ∷ rs) = describe r.id r.revision ++ (0 ∷ ticket_key_text rs)

unfoldable pub placement_ticket_key : Placement → Text
placement_ticket_key placement =
    ticket_key_text (sort reference_less (references (placed placement)))

-- The inner loop of `comparePlacement`, over one team: what it returns, or `eq` where it runs on,
-- followed by the comparison of the lengths.
unfoldable pub compare_team : List MatchTicket → List MatchTicket → Ordering
compare_team [] [] = Ordering.eq
compare_team [] (u ∷ us) = Ordering.lt
compare_team (t ∷ ts) [] = Ordering.gt
compare_team (t ∷ ts) (u ∷ us) =
    or_else (bytes_compare t.id u.id) (or_else (compare t.revision u.revision) (compare_team ts us))

unfoldable pub compare_placement : Placement → Placement → Ordering
compare_placement [] [] = Ordering.eq
compare_placement [] (u ∷ us) = Ordering.lt
compare_placement (t ∷ ts) [] = Ordering.gt
compare_placement (t ∷ ts) (u ∷ us) = or_else (compare_team t u) (compare_placement ts us)

-- `compareQueueOrder`.
unfoldable pub compare_queue_order : Time → Text → Time → Text → Ordering
compare_queue_order left_time left_id right_time right_id =
    or_else (compare left_time right_time) (bytes_compare left_id right_id)

unfoldable pub total_skill : ℤ → List Player → ℤ
total_skill n [] = n
total_skill n (p ∷ ps) = total_skill (n +ℤ p.skill) ps
