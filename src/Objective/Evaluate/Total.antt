-- ===== src/Objective/Evaluate/Total.antt =====
-- internal/objective/objective.go: `EvaluateBackfill` reads no roster summary out of range.
use sema.Objective.{Evaluation}
use sema.Domain.Validate.{
  check_match_tickets, total_slots, validate_snapshot, check_backfill_tickets,
  validate_backfill_ticket,
}
use sema.Objective.Evaluate.{Side, evaluate, beside, evaluate_backfill}
use mathlib.Core.Option.{map as map_option}
use sema.Base.{
  All-at, pos, Member, refl, arith, Text, length, ap, inl, inr, List, [], ◌∷◌, ◌≡◌, ◌≤◌, Option,
  some, All, ◌⊎◌,
}
use sema.Domain.{
  Result-cases, ok, BackfillTicket, Time, MatchmakingPolicy, MatchmakingSnapshot, RosterTeamSummary,
  MatchTicket,
}

IsSome-map {ℓ κ} :
    {A : Type ℓ} {B : Type κ} (f : A → B) (o : Option A)
    → ((a : A) × (o ≡ some a))
    → ((b : B) × (map_option f o ≡ some b))
IsSome-map f o (a, h) = (f a, ap (map_option f) h)

beside_total :
    (existing : List RosterTeamSummary) (teams : List (List MatchTicket))
    → length teams ≤ length existing
    → (sides : List Side) × (beside existing teams ≡ some sides)
unfolding beside
beside_total existing [] h = ([], refl)
beside_total [] (team ∷ teams) h = absurd (omega (arith, h))
beside_total (s ∷ existing) (team ∷ teams) h =
    IsSome-map (λ sides. (some s, team) ∷ sides) (beside existing teams)
      (beside_total existing teams (omega (arith, h)))

pub evaluate_backfill_total :
    (now : Time) (teams : List (List MatchTicket)) (policy : MatchmakingPolicy)
    (existing : List RosterTeamSummary) (enqueued_at : Time)
    → (length existing ≡ 0) ⊎ (length teams ≤ length existing)
    → (e : Evaluation) × (evaluate_backfill now teams policy existing enqueued_at ≡ some e)
unfolding evaluate_backfill evaluate
evaluate_backfill_total now teams policy [] enqueued_at h = (_, refl)
evaluate_backfill_total now teams policy (s ∷ existing) enqueued_at h =
    let sides =
      beside_total (s ∷ existing) teams
        (elim h [ inl none_there ↦ absurd (omega (arith, none_there)) | inr enough ↦ enough ]) in
    IsSome-map _ _ (IsSome-map _ _ sides)

-- A demand has no roster, or a summary for each of its teams.
abbrev pub HasRoster : BackfillTicket → Type 0
HasRoster b =
    (length b.existing_teams ≡ 0) ⊎ (length b.existing_teams ≡ length b.open_slots_by_team)

validate_backfill_ticket-HasRoster :
    (b : BackfillTicket) → validate_backfill_ticket b ≡ ok tt → HasRoster b
unfolding validate_backfill_ticket
validate_backfill_ticket-HasRoster b h =
    elim (Result-cases (total_slots (pos 0) b.open_slots_by_team)) [
      | inl (e, bad) ↦ absurd (ground arith)
      | inr (total, fine) ↦ ground arith
    ]

All-HasRoster :
    (now : Time) (policy : MatchmakingPolicy) (tickets : List Text) (bs : List BackfillTicket)
    → check_backfill_tickets now policy tickets bs ≡ ok tt
    → All HasRoster bs
unfolding check_backfill_tickets
All-HasRoster now policy tickets [] h = tt
All-HasRoster now policy tickets (b ∷ bs) h = (
  validate_backfill_ticket-HasRoster b (ground arith),
  All-HasRoster now policy (b.id ∷ tickets) bs (ground arith),
)

pub validate_snapshot-HasRoster :
    (s : MatchmakingSnapshot) → validate_snapshot s ≡ ok tt → All HasRoster s.backfill_tickets
unfolding validate_snapshot
validate_snapshot-HasRoster s h =
    elim (Result-cases (check_match_tickets s.now [] [] s.match_tickets)) [
      | inl (e, bad) ↦ absurd (ground arith)
      | inr (after, fine) ↦ All-HasRoster s.now s.policy after s.backfill_tickets (ground arith)
    ]

-- For a backfill ticket of an accepted snapshot, every placement with as many teams as the ticket has
-- slot counts is evaluated: no roster summary is read out of range.
pub evaluate_backfill-validate_snapshot :
    (s : MatchmakingSnapshot) (b : BackfillTicket) (teams : List (List MatchTicket))
    → validate_snapshot s ≡ ok tt
    → Member b s.backfill_tickets
    → length teams ≡ length b.open_slots_by_team
    → (e : Evaluation) × (evaluate_backfill s.now teams s.policy b.existing_teams b.enqueued_at
        ≡ some e)
evaluate_backfill-validate_snapshot s b teams valid m same =
    let roster =
      All-at HasRoster s.backfill_tickets m.0 b (validate_snapshot-HasRoster s valid) m.1 in
    evaluate_backfill_total s.now teams s.policy b.existing_teams b.enqueued_at (elim roster [
      | inl none_there ↦ inl none_there
      | inr enough ↦ inr (omega (arith, same, enough))
    ])
