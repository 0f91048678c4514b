-- ===== src/Domain.antt =====
-- internal/domain/model.go and failure.go: the values that every component exchanges.
-- A `time.Time` is a number of nanoseconds, 0 being the zero time; a `time.Duration` and an `int`
-- are 64-bit integers; a `Revision` is an unsigned number that is only compared. A Go string type
-- with named constants is open: a last constructor holds the other spellings.
pub mod Validate
pub mod Batch
pub mod Proposal
pub mod Policy
pub mod Tickets
pub mod Relaxation
pub mod Snapshots
use sema.Base.{
  [], ◌∷◌, leb, ◌⊎◌, inl, inr, ◌≡◌, refl, ℕ, Text, Text-discrete, ℤ, ℤ-discrete, List, Option, Bool,
  true, false, ℕ_discrete,
}

abbrev pub Time : Type 0
Time = ℕ

-- `t.IsZero()`.
abbrev pub is_zero_time : Time → Bool
is_zero_time t = leb t 0

abbrev pub Revision : Type 0
Revision = ℕ

pub record Player : Type 0 where
  pub id : Text
  pub skill : ℤ
  pub role : Text
  pub latency_millis : ℤ

pub record MatchTicket : Type 0 where
  pub id : Text
  pub revision : Revision
  pub enqueued_at : Time
  pub players : List Player

abbrev pub player_ids : List Player → List Text
player_ids [] = []
player_ids (p ∷ ps) = p.id ∷ player_ids ps

pub record RoleCount : Type 0 where
  pub role : Text
  pub count : ℤ

pub record RosterTeamSummary : Type 0 where
  pub player_count : ℤ
  pub skill_total : ℤ
  pub role_counts : List RoleCount
  pub max_latency_millis : ℤ

pub record BackfillTicket : Type 0 where
  pub id : Text
  pub revision : Revision
  pub session_id : Text
  pub roster_version : Revision
  pub open_slots_by_team : List ℤ
  pub existing_teams : List RosterTeamSummary
  pub enqueued_at : Time

pub record RoleRequirement : Type 0 where
  pub role : Text
  pub min_per_team : ℤ
  pub hard : Bool

pub record RelaxationStep : Type 0 where
  pub after_wait : ℤ
  pub max_team_skill_gap : ℤ
  pub max_role_penalty : ℤ
  pub prioritize_wait : Bool

pub record MatchmakingPolicy : Type 0 where
  pub version : Text
  pub team_count : ℤ
  pub team_size : ℤ
  pub max_latency_millis : ℤ
  pub max_proposals : ℤ
  pub max_search_nodes : ℤ
  pub max_candidate_tickets : ℤ
  pub max_candidates_per_proposal : ℤ
  pub max_batch_candidates : ℤ
  pub max_batch_search_nodes : ℤ
  pub role_requirements : List RoleRequirement
  pub relaxation_steps : List RelaxationStep

pub record MatchmakingSnapshot : Type 0 where
  pub id : Text
  pub now : Time
  pub match_tickets : List MatchTicket
  pub backfill_tickets : List BackfillTicket
  pub policy : MatchmakingPolicy

pub record TicketRef : Type 0 where
  pub id : Text
  pub revision : Revision

pub record BackfillTarget : Type 0 where
  pub ticket : TicketRef
  pub session_id : Text
  pub roster_version : Revision

pub data ProposalKind : Type 0 where
  new_match backfill : ProposalKind
  other_kind : Text → ProposalKind

pub record TeamAssignment : Type 0 where
  pub team : ℤ
  pub tickets : List TicketRef

pub record ScoreEvidence : Type 0 where
  pub relaxation_level : ℤ
  pub wait_priority : Bool
  pub role_penalty : ℤ
  pub team_skill_gap : ℤ
  pub oldest_wait_millis : ℤ
  pub total_wait_millis : ℤ
  pub max_latency_millis : ℤ
  pub candidate_tickets : ℤ
  pub candidates_evaluated : ℤ
  pub search_nodes : ℤ
  pub candidate_window_truncated : Bool
  pub search_truncated : Bool
  pub selection_utility : ℤ

pub record MatchProposal : Type 0 where
  pub id : Text
  pub kind : ProposalKind
  pub policy_version : Text
  pub policy_fingerprint : Text
  pub teams : List TeamAssignment
  pub tickets : List TicketRef
  pub target : Option BackfillTarget
  pub evidence : ScoreEvidence

pub data ReservationStatus : Type 0 where
  active confirmed cancelled expired : ReservationStatus

pub record Reservation : Type 0 where
  pub id : Text
  pub proposal_id : Text
  pub tickets : List TicketRef
  pub target : Option BackfillTarget
  pub expires_at : Time
  pub status : ReservationStatus

-- `no_failure` is the empty string.
pub data FailureCode : Type 0 where
  no_failure invalid_input invalid_revision stale_snapshot reservation_conflict : FailureCode
  reservation_expired invalid_transition idempotency_conflict policy_conflict : FailureCode
  other_failure : Text → FailureCode

pub data AssignmentStatus : Type 0 where
  pending completed cancelled failed : AssignmentStatus
  other_status : Text → AssignmentStatus

pub record AssignmentAcknowledgmentRequest : Type 0 where
  pub operation_id : Text
  pub outcome : AssignmentStatus
  pub session_id : Text
  pub expected_roster_version : Revision
  pub resulting_roster_version : Revision
  pub failure_code : FailureCode
  pub reason : Text

pub record AssignmentAcknowledgment : Type 0 where
  pub request : AssignmentAcknowledgmentRequest
  pub acknowledged_at : Time

pub record Assignment : Type 0 where
  pub id : Text
  pub reservation_id : Text
  pub proposal_id : Text
  pub kind : ProposalKind
  pub teams : List TeamAssignment
  pub target : Option BackfillTarget
  pub confirmed_at : Time
  pub status : AssignmentStatus
  pub acknowledgment : Option AssignmentAcknowledgment

-- `(value, error)`: an error is a `Failure`, of which the code is kept and the diagnostic text is
-- not.
pub data Result {ℓ} (A : Type ℓ) : Type ℓ where
  ok : A → Result A
  err : FailureCode → Result A

infixl 5 ◌>>=◌
abbrev pub ◌>>=◌ {ℓ κ} :
    {Value : Type ℓ} {Next : Type κ} → Result Value → (Value → Result Next) → Result Next
err code >>= next = err code
ok value >>= next = next value

pub Result-cases {ℓ} :
    {A : Type ℓ} (r : Result A) → ((e : FailureCode) × (r ≡ err e)) ⊎ ((a : A) × (r ≡ ok a))
Result-cases (err e) = inl (e, refl)
Result-cases (ok a) = inr (a, refl)

pub ok-injective {ℓ} : {A : Type ℓ} (a b : A) → ok a ≡ ok b → a ≡ b
ok-injective a b h = cc h

-- `if bad { return NewFailure(code, …) }`.
abbrev pub fail_if : Bool → FailureCode → Result (Unit {0})
fail_if true e = err e
fail_if false e = ok tt

-- A check, and what follows when it passes.
infixl 5 ◌>>◌
abbrev pub ◌>>◌ {ℓ} : {Next : Type ℓ} → Result (Unit {0}) → Result Next → Result Next
check >> next = check >>= λ _. next

-- Go's `reflect.DeepEqual`, `slices.Equal` and `==` on these values.
unfoldable pub MatchTicket-discrete : Discrete MatchTicket
unfolding Text-discrete ℤ-discrete ℕ_discrete
MatchTicket-discrete = hlevel (Text-discrete, ℤ-discrete, ℕ_discrete)

unfoldable pub BackfillTicket-discrete : Discrete BackfillTicket
unfolding Text-discrete ℤ-discrete ℕ_discrete
BackfillTicket-discrete = hlevel (Text-discrete, ℤ-discrete, ℕ_discrete)

unfoldable pub TicketRefs-discrete : Discrete (List TicketRef)
unfolding Text-discrete ℕ_discrete
TicketRefs-discrete = hlevel (Text-discrete, ℕ_discrete)

unfoldable pub MatchProposal-discrete : Discrete MatchProposal
unfolding Text-discrete ℤ-discrete ℕ_discrete
MatchProposal-discrete = hlevel (Text-discrete, ℤ-discrete, ℕ_discrete)

unfoldable pub AssignmentAcknowledgmentRequest-discrete : Discrete AssignmentAcknowledgmentRequest
unfolding Text-discrete ℕ_discrete
AssignmentAcknowledgmentRequest-discrete = hlevel (Text-discrete, ℕ_discrete)

unfoldable pub ProposalKind-discrete : Discrete ProposalKind
unfolding Text-discrete ℕ_discrete
ProposalKind-discrete = hlevel (Text-discrete, ℕ_discrete)
