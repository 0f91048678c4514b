-- ===== src/Coordinator/Snapshot.antt =====
-- internal/coordinator/coordinator.go: Snapshot.
pub mod Laws
use Prim.Native.Nat.{Ordering}
use sema.Base.{
  ℕ, Text, List, [], ◌∷◌, Bool, true, false, ◌||◌, is_blank, ltb, ◌==◌, bytes_compare,
  if◌then◌else◌,
}
use sema.Base.Map.{Map, lookup}
use sema.Base.Sort.{sort}
use sema.Domain.{
  Time, is_zero_time, MatchTicket, BackfillTicket, MatchmakingPolicy, MatchmakingSnapshot,
  invalid_input, Result, ok, err, ◌>>=◌, ◌>>◌, fail_if,
}
use sema.Domain.Validate.{validate_policy, validate_snapshot}
use sema.Coordinator.{Coordinator}
use sema.Coordinator.Expiry.{expire}
use sema.Coordinator.Tickets.{is_present}

-- `left < right` on strings.
abbrev pub text_less : Text → Text → Bool
text_less s t = elim (bytes_compare s t) [ Ordering.lt ↦ true | _ ↦ false ]

-- The older first, and the smaller name first among equals.
abbrev pub queue_less : Time → Text → Time → Text → Bool
queue_less left_time left_id right_time right_id =
    if left_time == right_time then text_less left_id right_id else ltb left_time right_time

abbrev pub match_less : MatchTicket → MatchTicket → Bool
match_less a b = queue_less a.enqueued_at a.id b.enqueued_at b.id

abbrev pub backfill_less : BackfillTicket → BackfillTicket → Bool
backfill_less a b = queue_less a.enqueued_at a.id b.enqueued_at b.id

abbrev pub match_id : MatchTicket → Text
match_id t = t.id

abbrev pub backfill_id : BackfillTicket → Text
backfill_id t = t.id

-- The loop over a map of tickets, which passes over those that are reserved.
unfoldable pub unreserved {ℓ} : {A : Type ℓ} → (A → Text) → Map Text → Map A → List A
unreserved name reserved [] = []
unreserved name reserved ((k, t) ∷ m) =
    let rest = unreserved name reserved m in
    if is_present (lookup (name t) reserved) then rest else t ∷ rest

unfoldable pub collect : Coordinator → Text → Time → MatchmakingPolicy → MatchmakingSnapshot
collect c id now policy = record {
  id = id;
  now = now;
  match_tickets = sort match_less (unreserved match_id c.ticket_reservations c.match_tickets);
  backfill_tickets =
      sort backfill_less (unreserved backfill_id c.backfill_reservations c.backfill_tickets);
  policy = policy;
}

unfoldable pub checked_snapshot : MatchmakingSnapshot → Result MatchmakingSnapshot
checked_snapshot s = do validate_snapshot s; ok s

unfoldable pub check_request : Text → Time → MatchmakingPolicy → Result (Unit {0})
check_request id now policy = do
  fail_if (is_blank id || is_zero_time now) invalid_input
  validate_policy policy

unfoldable pub snapshot :
    Coordinator → Text → Time → MatchmakingPolicy → Coordinator × Result MatchmakingSnapshot
snapshot c id now policy = elim (check_request id now policy) [
  | err e ↦ (c, err e)
  | ok _ ↦ (expire now c, checked_snapshot (collect (expire now c) id now policy))
]
