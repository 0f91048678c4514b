-- ===== src/Coordinator/History/Safety.antt =====
-- What no history of calls can bring about.
use sema.Base.{true, some, Text, List, has, ℤ, ◌≡◌, ◌≢◌}
use sema.Base.Map.{lookup}
use sema.Domain.{player_ids, MatchTicket, ok}
use sema.Coordinator.{Coordinator, ReservationRecord, new}
use sema.Coordinator.Expiry.{ref_ids, target_ids, is_active}
use sema.Coordinator.History.{Call, run}
use sema.Coordinator.History.Invariant.{new-Inv, run-Inv}

-- After any calls on a coordinator that New returned, two active reservations under different
-- names have no ticket in common, and no target either.
pub active_disjoint :
    (ttl : ℤ) (c : Coordinator) (calls : List Call)
    → new ttl ≡ ok c
    → (j k t : Text) (r s : ReservationRecord) → lookup j (run calls c).reservations ≡ some r
    → lookup k (run calls c).reservations ≡ some s
    → is_active r.reservation.status ≡ true
    → is_active s.reservation.status ≡ true
    → j ≢ k
    → ¬ (
        (has t (ref_ids r.reservation.tickets) ≡ true)
        × (has t (ref_ids s.reservation.tickets) ≡ true))
      × ¬ (
          (has t (target_ids r.reservation.target) ≡ true)
          × (has t (target_ids s.reservation.target) ≡ true))
active_disjoint ttl c calls h j k t r s e f a b other =
    let v = (run-Inv calls c (new-Inv ttl c h)).held in
    (
      λ m. other (cc (v.holds_tickets j t r e a m.0, v.holds_tickets k t s f b m.1)),
      λ m. other (cc (v.holds_target j t r e a m.0, v.holds_target k t s f b m.1)),
    )

-- After any calls on a coordinator that New returned, no player belongs to two active tickets.
pub player_in_one_ticket :
    (ttl : ℤ) (c : Coordinator) (calls : List Call)
    → new ttl ≡ ok c
    → (j k p : Text) (t u : MatchTicket) → lookup j (run calls c).match_tickets ≡ some t
    → lookup k (run calls c).match_tickets ≡ some u
    → has p (player_ids t.players) ≡ true
    → has p (player_ids u.players) ≡ true
    → j ≡ k
player_in_one_ticket ttl c calls h j k p t u e f m n =
    let v = (run-Inv calls c (new-Inv ttl c h)).owned in cc (v.owns j p t e m, v.owns k p u f n)
