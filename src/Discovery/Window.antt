-- ===== src/Discovery/Window.antt =====
-- internal/discovery/window.go: `SelectWindow`, the oldest tickets that fit, up to a limit.
use sema.Base.{
  negsuc, ℕ, zero, suc, ◌+◌, List, [], ◌∷◌, ◌++◌, Bool, true, false, ℤ, pos, ltb_ℤ, ltb, ◌==◌,
  length, length-append, ◌≡◌, refl, arith, if◌then◌else◌,
}
use sema.Domain.{MatchTicket}

pub record Window : Type 0 where
  pub tickets : List MatchTicket
  pub truncated : Bool

-- `maxPartySize` after the loop over the slots.
unfoldable pub max_slots : ℤ → List ℤ → ℤ
max_slots n [] = n
max_slots n (s ∷ ss) = max_slots (if ltb_ℤ n s then s else n) ss

-- The loop over the tickets; `selected` is in the order of selection.
unfoldable pub select : ℤ → ℕ → List MatchTicket → List MatchTicket → Window
select max_party_size limit selected [] = record { tickets = selected; truncated = false }
select max_party_size limit selected (t ∷ ts) =
    if ltb_ℤ max_party_size (pos (length t.players))
    then select max_party_size limit selected ts
    else if length selected == limit
    then record { tickets = selected; truncated = true }
    else select max_party_size limit (selected ++ t ∷ []) ts

unfoldable pub select_window : List MatchTicket → List ℤ → ℤ → Window
select_window tickets slots (negsuc n) = record { tickets = tickets; truncated = false }
select_window tickets slots (pos zero) = record { tickets = tickets; truncated = false }
select_window tickets slots (pos (suc n)) = select (max_slots (pos 0) slots) (suc n) [] tickets

-- The tickets whose parties fit, in queue order, and the first ones of a list.
unfoldable pub fitting : ℤ → List MatchTicket → List MatchTicket
fitting size [] = []
fitting size (t ∷ ts) =
    if ltb_ℤ size (pos (length t.players)) then fitting size ts else t ∷ fitting size ts

abbrev pub take {ℓ} : {A : Type ℓ} → ℕ → List A → List A
take zero ts = []
take (suc n) [] = []
take (suc n) (t ∷ ts) = t ∷ take n ts

pub append_assoc : (a b c : List MatchTicket) → (a ++ b) ++ c ≡ a ++ (b ++ c)
append_assoc [] b c = refl
append_assoc (x ∷ xs) b c = cc (append_assoc xs b c)

append_nil : (a : List MatchTicket) → a ++ [] ≡ a
append_nil [] = refl
append_nil (x ∷ xs) = cc (append_nil xs)

select_lem :
    (size : ℤ) (limit room : ℕ) (selected ts : List MatchTicket)
    → length selected + room ≡ limit
    → select size limit selected ts ≡ record {
      tickets = selected ++ take room (fitting size ts);
      truncated = ltb room (length (fitting size ts));
    }
unfolding select fitting
select_lem size limit zero selected [] h = ground (arith, append_nil selected)
select_lem size limit (suc room) selected [] h = ground (arith, append_nil selected)
select_lem size limit zero selected (t ∷ ts) h =
    ground (arith, select_lem size limit zero selected ts, append_nil selected)
select_lem size limit (suc room) selected (t ∷ ts) h = ground (
  arith,
  select_lem size limit (suc room) selected ts,
  select_lem size limit room (selected ++ t ∷ []) ts,
  length-append selected (t ∷ []),
  append_assoc selected (t ∷ []) (take room (fitting size ts)),
)

pub select_window_lem :
    (tickets : List MatchTicket) (slots : List ℤ) (n : ℕ)
    → select_window tickets slots (pos (suc n)) ≡ record {
      tickets = take (suc n) (fitting (max_slots (pos 0) slots) tickets);
      truncated = ltb (suc n) (length (fitting (max_slots (pos 0) slots) tickets));
    }
unfolding select_window
select_window_lem tickets slots n =
    select_lem (max_slots (pos 0) slots) (suc n) (suc n) [] tickets (omega arith)
