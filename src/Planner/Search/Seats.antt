-- ===== src/Planner/Search/Seats.antt =====
-- internal/planner/planner.go: where `search` puts a ticket. It puts none twice, and no more
-- players into a team than it has slots.
use sema.Planner.{total_skill, placed, Placement}
use sema.Planner.Batch.Quality.{players_of}
use sema.Planner.Teams.{state_of, Team, assign, fresh_teams, materialize_placement, seats}
use sema.Planner.Batch.{ticket_ids}
use sema.Base.{
  All-append, All-split, length-append, ◌-ℤ◌, ◌+ℤ◌, -ℤ-pos, ◌-ℤ◌, half_word, length, ◌∙◌, ap, ltb_ℤ,
  ◌-◌, ◌<◌, ◌≤ℤ◌, is_negative, ℕ, zero, suc, List, [], ◌∷◌, ◌++◌, Text, ◌≡◌, ◌≤◌, ◌+◌, times,
  times-append, arith, refl, false, All, ℤ, pos, pos_part,
}
use sema.Domain.{MatchTicket}

pub ticket_ids-append :
    (xs ys : List MatchTicket) → ticket_ids (xs ++ ys) ≡ ticket_ids xs ++ ticket_ids ys
unfolding ticket_ids
ticket_ids-append [] ys = refl
ticket_ids-append (x ∷ xs) ys = ap (λ r. x.id ∷ r) (ticket_ids-append xs ys)

-- The ticket that joins a team comes last.
times-seats-last :
    (k : Text) (index : ℕ) (t : MatchTicket) (xs : List (ℕ × MatchTicket))
    → times k (ticket_ids (seats (xs ++ (index, t) ∷ [])))
      ≡ times k (ticket_ids (seats xs)) + times k (t.id ∷ [])
unfolding seats ticket_ids times
times-seats-last k index t [] = omega arith
times-seats-last k index t ((i, u) ∷ xs) = ground (arith, times-seats-last k index t xs)

players_of-seats-last :
    (index : ℕ) (t : MatchTicket) (xs : List (ℕ × MatchTicket))
    → players_of (seats (xs ++ (index, t) ∷ [])) ≡ players_of (seats xs) + length t.players
unfolding seats players_of
players_of-seats-last index t [] = omega arith
players_of-seats-last index t ((i, u) ∷ xs) = omega (arith, players_of-seats-last index t xs)

-- The names of the tickets that the teams have.
abbrev pub seated : List Team → List Text
seated teams = ticket_ids (placed (materialize_placement teams))

times-seated :
    (k : Text) (x : Team) (xs : List Team)
    → times k (seated (x ∷ xs)) ≡ times k (ticket_ids (seats x.assigned)) + times k (seated xs)
unfolding materialize_placement placed
times-seated k x xs =
    ap (times k) (ticket_ids-append (seats x.assigned) (placed (materialize_placement xs)))
    ∙ times-append k (ticket_ids (seats x.assigned)) (seated xs)

-- A ticket is put into at most one team.
times-seated-assign :
    (k : Text) (teams : List Team) (team index : ℕ) (t : MatchTicket)
    → times k (seated (assign teams team index t)) ≤ times k (seated teams) + times k (t.id ∷ [])
unfolding assign times
times-seated-assign k [] team index t = omega arith
times-seated-assign k (x ∷ xs) zero index t = omega (
  arith,
  times-seated k x xs,
  times-seated k
      (record {
        remaining = x.remaining -ℤ pos (length t.players);
        skill = x.skill +ℤ total_skill (pos 0) t.players;
        assigned = x.assigned ++ (index, t) ∷ [];
      })
      xs,
  times-seats-last k index t x.assigned,
)
times-seated-assign k (x ∷ xs) (suc team) index t = omega (
  arith,
  times-seated k x xs,
  times-seated k x (assign xs team index t),
  times-seated-assign k xs team index t,
)

-- The tickets that the teams have.
abbrev pub crew : List Team → List MatchTicket
crew teams = placed (materialize_placement teams)

All-seats {ℓ} :
    (P : MatchTicket → Type ℓ) (xs : List (ℕ × MatchTicket)) (index : ℕ) (t : MatchTicket)
    → P t
    → All P (seats xs)
    → All P (seats (xs ++ (index, t) ∷ []))
unfolding seats
All-seats P [] index t h hs = (h, tt)
All-seats P ((i, u) ∷ xs) index t h hs = (hs.0, All-seats P xs index t h hs.1)

pub All-crew-assign {ℓ} :
    (P : MatchTicket → Type ℓ) (teams : List Team) (team index : ℕ) (t : MatchTicket)
    → P t
    → All P (crew teams)
    → All P (crew (assign teams team index t))
unfolding assign materialize_placement placed
All-crew-assign P [] team index t h hs = tt
All-crew-assign P (x ∷ xs) zero index t h hs =
    let (own, others) = All-split P (seats x.assigned) (crew xs) hs in
    All-append P (seats (x.assigned ++ (index, t) ∷ [])) (crew xs)
      (All-seats P x.assigned index t h own) others
All-crew-assign P (x ∷ xs) (suc team) index t h hs =
    let (own, others) = All-split P (seats x.assigned) (crew xs) hs in
    All-append P (seats x.assigned) (crew (assign xs team index t)) own
      (All-crew-assign P xs team index t h others)

length-seats :
    (xs : List (ℕ × MatchTicket)) (index : ℕ) (t : MatchTicket)
    → 1 ≤ length (seats (xs ++ (index, t) ∷ []))
unfolding seats
length-seats [] index t = omega arith
length-seats ((i, u) ∷ xs) index t = omega arith

-- A team that takes a ticket has one.
pub length-crew-assign :
    (teams : List Team) (team index : ℕ) (t : MatchTicket)
    → team < length teams
    → 1 ≤ length (crew (assign teams team index t))
unfolding assign materialize_placement placed
length-crew-assign [] team index t h = absurd (omega (arith, h))
length-crew-assign (x ∷ xs) zero index t h = omega (
  arith,
  length-append (seats (x.assigned ++ (index, t) ∷ [])) (crew xs),
  length-seats x.assigned index t,
)
length-crew-assign (x ∷ xs) (suc team) index t h = omega (
  arith,
  length-append (seats x.assigned) (crew (assign xs team index t)),
  length-crew-assign xs team index t (omega (arith, h)),
)

pub All-crew-fresh_teams {ℓ} :
    (P : MatchTicket → Type ℓ) (slots : List ℤ) → All P (crew (fresh_teams slots))
unfolding fresh_teams materialize_placement placed seats
All-crew-fresh_teams P [] = tt
All-crew-fresh_teams P (s ∷ ss) = All-crew-fresh_teams P ss

-- The teams and the tickets that are left hold no name more often than the window.
abbrev pub Supplied : (Text → ℕ) → List Team → List MatchTicket → Type 0
Supplied bound teams ts = (k : Text) → times k (seated teams) + times k (ticket_ids ts) ≤ bound k

pub Supplied-assign :
    (bound : Text → ℕ) (teams : List Team) (team index : ℕ) (t : MatchTicket)
    (ts : List MatchTicket)
    → Supplied bound teams (t ∷ ts)
    → Supplied bound (assign teams team index t) ts
unfolding ticket_ids times
Supplied-assign bound teams team index t ts h k =
    ground (arith, times-seated-assign k teams team index t, h k)

pub Supplied-skip :
    (bound : Text → ℕ) (teams : List Team) (t : MatchTicket) (ts : List MatchTicket)
    → Supplied bound teams (t ∷ ts)
    → Supplied bound teams ts
unfolding ticket_ids times
Supplied-skip bound teams t ts h k = ground (arith, h k)

pub Supplied-fresh_teams :
    (slots : List ℤ) (tickets : List MatchTicket)
    → Supplied (λ k. times k (ticket_ids tickets)) (fresh_teams slots) tickets
unfolding fresh_teams materialize_placement seats placed ticket_ids times
Supplied-fresh_teams [] tickets k = omega arith
Supplied-fresh_teams (s ∷ ss) tickets k = omega (arith, Supplied-fresh_teams ss tickets k)

-- Slots that an int counts, and what is left of them.
abbrev pub IsSlot : ℤ → Type 0
IsSlot s = (is_negative s ≡ false) × (pos_part s < half_word)

pub record Seats (s : ℤ) (x : Team) : Type 0 where
  pub slot : IsSlot s
  pub enough : players_of (seats x.assigned) ≤ pos_part s
  pub left : x.remaining ≡ pos (pos_part s - players_of (seats x.assigned))

abbrev pub Seated : List ℤ → List Team → Type 0
Seated [] [] = Unit {0}
Seated [] (x ∷ xs) = ⊥
Seated (s ∷ ss) [] = ⊥
Seated (s ∷ ss) (x ∷ xs) = Seats s x × Seated ss xs

pub Seated-fresh_teams : (slots : List ℤ) → All IsSlot slots → Seated slots (fresh_teams slots)
unfolding fresh_teams seats players_of
Seated-fresh_teams [] h = tt
Seated-fresh_teams (s ∷ ss) h = (
  record { slot = h.0; enough = omega arith; left = ground (arith, h.0) },
  Seated-fresh_teams ss h.1,
)

Seats-assign :
    (s : ℤ) (x : Team) (index : ℕ) (t : MatchTicket)
    → ltb_ℤ x.remaining (pos (length t.players)) ≡ false
    → Seats s x
    → Seats s (record {
      remaining = x.remaining -ℤ pos (length t.players);
      skill = x.skill +ℤ total_skill (pos 0) t.players;
      assigned = x.assigned ++ (index, t) ∷ [];
    })
Seats-assign s x index t room h =
    let n = players_of (seats x.assigned) in
    let m = length t.players in
    let joined = players_of-seats-last index t x.assigned in
    let fits : m ≤ pos_part s - n = ground (arith, room, h.left) in
    record {
      slot = h.slot;
      enough = omega (arith, joined, fits, h.enough);
      left =
          ap (λ r. r -ℤ pos m) h.left
          ∙ (-ℤ-pos (pos_part s - n) m fits (omega (arith, h.slot.1))
              ∙ ap pos (omega (arith, joined)));
    }

pub Seated-assign :
    (slots : List ℤ) (teams : List Team) (team index : ℕ) (t : MatchTicket)
    → ltb_ℤ (state_of teams team).0 (pos (length t.players)) ≡ false
    → Seated slots teams
    → Seated slots (assign teams team index t)
unfolding assign state_of
Seated-assign [] [] team index t room h = h
Seated-assign [] (x ∷ xs) team index t room h = absurd h
Seated-assign (s ∷ ss) [] team index t room h = absurd h
Seated-assign (s ∷ ss) (x ∷ xs) zero index t room h = (Seats-assign s x index t room h.0, h.1)
Seated-assign (s ∷ ss) (x ∷ xs) (suc team) index t room h =
    (h.0, Seated-assign ss xs team index t room h.1)

-- No team of a placement has more players than slots.
abbrev pub FitsSlots : List ℤ → Placement → Type 0
FitsSlots [] [] = Unit {0}
FitsSlots [] (p ∷ ps) = ⊥
FitsSlots (s ∷ ss) [] = ⊥
FitsSlots (s ∷ ss) (p ∷ ps) = (pos (players_of p) ≤ℤ s) × FitsSlots ss ps

pub Seated-FitsSlots :
    (slots : List ℤ) (teams : List Team)
    → Seated slots teams
    → FitsSlots slots (materialize_placement teams)
unfolding materialize_placement
Seated-FitsSlots [] [] h = tt
Seated-FitsSlots [] (x ∷ xs) h = h
Seated-FitsSlots (s ∷ ss) [] h = h
Seated-FitsSlots (s ∷ ss) (x ∷ xs) h =
    (ground (arith, h.0.enough, h.0.slot), Seated-FitsSlots ss xs h.1)
