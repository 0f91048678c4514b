-- ===== src/Domain/Policy.antt =====
-- internal/domain/policy.go: the canonical bytes of a policy and its fingerprint.
use sema.Base.{
  ℕ, ◌/◌, ◌%◌, ◌^◌, Text, List, [], ◌∷◌, ◌++◌, Bool, true, false, ℤ, pos, to_word, length,
  bytes_compare,
}
use sema.Base.Sort.{sort}
use sema.Domain.{RoleRequirement, RelaxationStep, MatchmakingPolicy, Result, ok, ◌>>◌}
use sema.Domain.Validate.{validate_policy}
use Prim.Native.Nat.{Ordering}

-- `binary.BigEndian.AppendUint64`, as the eight bytes it appends.
unfoldable pub big_endian : ℕ → Text
big_endian n =
    n / 256 ^ 7 % 256
    ∷ n / 256 ^ 6 % 256
    ∷ n / 256 ^ 5 % 256
    ∷ n / 256 ^ 4 % 256
    ∷ n / 256 ^ 3 % 256
    ∷ n / 256 ^ 2 % 256
    ∷ n / 256 % 256
    ∷ n % 256
    ∷ []

unfoldable pub append_canonical_string : Text → Text → Text
append_canonical_string encoded value =
    (encoded ++ big_endian (to_word (pos (length value)))) ++ value

unfoldable pub append_canonical_int : Text → ℤ → Text
append_canonical_int encoded value = encoded ++ big_endian (to_word value)

unfoldable pub append_canonical_bool : Text → Bool → Text
append_canonical_bool encoded true = encoded ++ 1 ∷ []
append_canonical_bool encoded false = encoded ++ 0 ∷ []

abbrev pub role_less : RoleRequirement → RoleRequirement → Bool
role_less a b = elim (bytes_compare a.role b.role) [ Ordering.lt ↦ true | _ ↦ false ]

unfoldable pub append_requirements : Text → List RoleRequirement → Text
append_requirements encoded [] = encoded
append_requirements encoded (r ∷ rs) =
    append_requirements
      (append_canonical_bool
        (append_canonical_int (append_canonical_string encoded r.role) r.min_per_team) r.hard)
      rs

unfoldable pub append_steps : Text → List RelaxationStep → Text
append_steps encoded [] = encoded
append_steps encoded (s ∷ ss) =
    append_steps
      (append_canonical_bool
        (append_canonical_int
          (append_canonical_int (append_canonical_int encoded s.after_wait) s.max_team_skill_gap)
          s.max_role_penalty)
        s.prioritize_wait)
      ss

unfoldable pub append_ints : Text → List ℤ → Text
append_ints encoded [] = encoded
append_ints encoded (n ∷ ns) = append_ints (append_canonical_int encoded n) ns

-- The bytes that `FingerprintPolicy` hashes.
unfoldable pub encode_policy : MatchmakingPolicy → Text
encode_policy p =
    let requirements = sort role_less p.role_requirements in
    let header = append_ints (append_canonical_string [] p.version) (
      p.team_count
      ∷ p.team_size
      ∷ p.max_latency_millis
      ∷ p.max_proposals
      ∷ p.max_search_nodes
      ∷ p.max_candidate_tickets
      ∷ p.max_candidates_per_proposal
      ∷ p.max_batch_candidates
      ∷ p.max_batch_search_nodes
      ∷ pos (length requirements)
      ∷ []) in
    let rules = append_requirements header requirements in
    append_steps (append_canonical_int rules (pos (length p.relaxation_steps))) p.relaxation_steps

-- `digest` stands for the hexadecimal SHA-256 of some bytes.
unfoldable pub fingerprint_policy : (Text → Text) → MatchmakingPolicy → Result Text
fingerprint_policy digest p = validate_policy p >> ok (digest (encode_policy p))
