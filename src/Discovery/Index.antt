-- ===== src/Discovery/Index.antt =====
-- internal/discovery/index.go: the queue, partitioned once for many windows.
pub mod Sizes
pub mod Thresholds
use mathlib.Core.Option.{map as map_option}
use Prim.Native.Nat.{compare, Ordering, bit_xor, min}
use sema.Base.{
  ℕ, zero, suc, ◌+◌, ◌*◌, ◌%◌, Text, List, [], ◌∷◌, ◌++◌, map, Option, none, some, Bool, true,
  false, ℤ, pos, negsuc, ltb, leb, ltb_ℤ, leb_ℤ, ◌+ℤ◌, quot, word, length, get_elem?, holds,
  ℤ-discrete, ℕ_discrete, ◌==◌, bytes_compare, if◌then◌else◌,
}
use sema.Base.Sort.{sort}
use sema.Domain.{Player, MatchTicket}
use sema.Objective.{max_ℤ, compare_int, or_else}
use sema.Discovery.Window.{Window, max_slots, take}

pub record PartitionKey : Type 0 where
  pub party_size : ℤ
  pub skill_band : ℤ
  pub role_profile : ℕ
  pub latency_band : ℤ

unfoldable pub PartitionKey-discrete : Discrete PartitionKey
unfolding ℤ-discrete ℕ_discrete
PartitionKey-discrete = hlevel (ℤ-discrete, ℕ_discrete)

pub record Partition : Type 0 where
  pub key : PartitionKey
  pub tickets : List MatchTicket

pub record Index : Type 0 where
  pub tickets : List MatchTicket
  pub partitions : List Partition
  pub party_thresholds : List ℕ
  -- A Go map: the queue positions of the tickets that fit, by threshold.
  pub fitting_by_party_max : List (ℕ × List ℕ)

-- The 64-bit FNV-1a hash of a role.
unfoldable pub hash_from : ℕ → Text → ℕ
hash_from hash [] = hash
hash_from hash (b ∷ bs) = hash_from (bit_xor hash b * 1099511628211 % word) bs

unfoldable pub stable_role_hash : Text → ℕ
stable_role_hash role = hash_from 14695981039346656037 role

unfoldable pub total_skill : ℤ → List Player → ℤ
total_skill n [] = n
total_skill n (p ∷ ps) = total_skill (n +ℤ p.skill) ps

unfoldable pub maximum_latency : ℤ → List Player → ℤ
maximum_latency n [] = n
maximum_latency n (p ∷ ps) = maximum_latency (max_ℤ n p.latency_millis) ps

unfoldable pub role_profile_of : ℕ → List Player → ℕ
role_profile_of n [] = n
role_profile_of n (p ∷ ps) = role_profile_of ((n + stable_role_hash p.role) % word) ps

unfoldable pub average_skill : List Player → ℤ
average_skill [] = pos 0
average_skill (p ∷ ps) = quot (total_skill (pos 0) (p ∷ ps)) (pos (length (p ∷ ps)))

unfoldable pub partition_key : MatchTicket → PartitionKey
partition_key t = record {
  party_size = pos (length t.players);
  skill_band = quot (average_skill t.players) (pos 100);
  role_profile = role_profile_of 0 t.players;
  latency_band = quot (maximum_latency (pos 0) t.players) (pos 25);
}

unfoldable pub compare_partition_key : PartitionKey → PartitionKey → Ordering
compare_partition_key a b = or_else (compare_int a.party_size b.party_size) (
    or_else (compare_int a.skill_band b.skill_band)
      (or_else (compare a.role_profile b.role_profile) (compare_int a.latency_band b.latency_band)))

abbrev pub key_less : Partition → Partition → Bool
key_less a b = elim (compare_partition_key a.key b.key) [ Ordering.lt ↦ true | _ ↦ false ]

-- `grouped[key] = append(grouped[key], ticket)`.
unfoldable pub add_to_group : PartitionKey → MatchTicket → List Partition → List Partition
add_to_group key t [] = record { key = key; tickets = t ∷ [] } ∷ []
add_to_group key t (g ∷ gs) =
    if holds (PartitionKey-discrete g.key key)
    then record { key = g.key; tickets = g.tickets ++ t ∷ [] } ∷ gs
    else g ∷ add_to_group key t gs

unfoldable pub group : List Partition → List MatchTicket → List Partition
group groups [] = groups
group groups (t ∷ ts) = group (add_to_group (partition_key t) t groups) ts

-- The keys of `partySizes`.
unfoldable pub has_size : ℕ → List ℕ → Bool
has_size size [] = false
has_size size (s ∷ ss) = if s == size then true else has_size size ss

unfoldable pub party_sizes : List MatchTicket → List ℕ
party_sizes [] = []
party_sizes (t ∷ ts) =
    let sizes = party_sizes ts in
    if has_size (length t.players) sizes then sizes else length t.players ∷ sizes

-- The positions of the tickets that fit, the first ticket standing at `index`.
unfoldable pub fitting_positions : ℕ → ℕ → List MatchTicket → List ℕ
fitting_positions threshold index [] = []
fitting_positions threshold index (t ∷ ts) =
    let rest = fitting_positions threshold (suc index) ts in
    if leb (length t.players) threshold then index ∷ rest else rest

unfoldable pub build_index : List MatchTicket → Index
build_index tickets =
    let sizes = party_sizes tickets in
    let thresholds = if leb (length sizes) 16 then sort ltb sizes else [] in
    record {
      tickets = tickets;
      partitions = sort key_less (group [] tickets);
      party_thresholds = thresholds;
      fitting_by_party_max = map (λ t. (t, fitting_positions t 0 tickets)) thresholds;
    }

-- `partyThresholds[sort.Search(…) - 1]`: the threshold before the first that exceeds the maximum.
unfoldable pub last_fitting : ℤ → Option ℕ → List ℕ → Option ℕ
last_fitting max_party_size previous [] = previous
last_fitting max_party_size previous (t ∷ ts) =
    if ltb_ℤ max_party_size (pos t) then previous else last_fitting max_party_size (some t) ts

unfoldable pub positions_at : ℕ → List (ℕ × List ℕ) → List ℕ
positions_at t [] = []
positions_at t ((s, positions) ∷ m) = if s == t then positions else positions_at t m

-- `index.tickets[i]` for each position; `none` where one is out of range, on which Go panics.
abbrev pub place : Option MatchTicket → Option (List MatchTicket) → Option (List MatchTicket)
place none ts = none
place (some t) none = none
place (some t) (some ts) = some (t ∷ ts)

unfoldable pub pick : List MatchTicket → List ℕ → Option (List MatchTicket)
pick tickets [] = some []
pick tickets (i ∷ rest) = place (get_elem? tickets i) (pick tickets rest)

unfoldable pub threshold_window : Index → ℕ → Option ℕ → Option Window
threshold_window index limit none = some (record { tickets = []; truncated = false })
threshold_window index limit (some t) =
    let positions = positions_at t index.fitting_by_party_max in
    map_option (λ ts. record { tickets = ts; truncated = ltb limit (length positions) })
      (pick index.tickets (take limit positions))

-- `partitionCursor`: the tickets of a partition from the cursor on.
pub record Cursor : Type 0 where
  pub value : MatchTicket
  pub later : List MatchTicket

-- `partitionHeap.Less`.
unfoldable pub cursor_less : Cursor → Cursor → Bool
cursor_less a b =
    elim (or_else (compare a.value.enqueued_at b.value.enqueued_at)
      (or_else (bytes_compare a.value.id b.value.id) (compare a.value.revision b.value.revision))) [
        | Ordering.lt ↦ true
        | _ ↦ false
      ]

unfoldable pub partition_cursors : ℤ → List Partition → List Cursor
partition_cursors max_party_size [] = []
partition_cursors max_party_size (p ∷ ps) =
    let rest = partition_cursors max_party_size ps in
    if leb_ℤ p.key.party_size max_party_size
    then elim p.tickets [ [] ↦ rest | t ∷ ts ↦ record { value = t; later = ts } ∷ rest ]
    else rest

-- `heap.Pop`: a least cursor, and the others.
unfoldable pub pop_least : Cursor → List Cursor → Cursor × List Cursor
pop_least c [] = (c, [])
pop_least c (d ∷ ds) =
    let (least, others) = pop_least d ds in
    if cursor_less least c then (least, c ∷ others) else (c, least ∷ others)

-- `heap.Push` of the cursor of what a partition has left.
unfoldable pub push_next : List MatchTicket → List Cursor → List Cursor
push_next [] cursors = cursors
push_next (t ∷ ts) cursors = record { value = t; later = ts } ∷ cursors

-- The loop over the heap, with room for so many more tickets.
unfoldable pub merge : ℕ → List MatchTicket → List Cursor → Window
merge room selected [] = record { tickets = selected; truncated = false }
merge zero selected (c ∷ cs) = record { tickets = selected; truncated = true }
merge (suc room) selected (c ∷ cs) =
    let (least, others) = pop_least c cs in
    merge room (selected ++ least.value ∷ []) (push_next least.later others)

-- The window for a positive limit.
unfoldable pub bounded_window : Index → ℤ → ℕ → List ℕ → Option Window
bounded_window index max_party_size limit [] =
    some (merge limit [] (partition_cursors max_party_size index.partitions))
bounded_window index max_party_size limit (t ∷ ts) =
    threshold_window index limit (last_fitting max_party_size none (t ∷ ts))

-- `Index.SelectWindow`.
unfoldable pub index_window : Index → List ℤ → ℤ → Option Window
index_window index slots (negsuc n) = some (record { tickets = index.tickets; truncated = false })
index_window index slots (pos zero) = some (record { tickets = index.tickets; truncated = false })
index_window index slots (pos (suc n)) =
    bounded_window index (max_slots (pos 0) slots) (suc n) index.party_thresholds

pub record IndexStats : Type 0 where
  pub tickets : ℤ
  pub partitions : ℤ

unfoldable pub stats : Index → IndexStats
stats index = record {
  tickets = pos (length index.tickets);
  partitions = pos (length index.partitions);
}
