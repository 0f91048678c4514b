-- ===== src/Planner/Proposal/Identity/Encoding.antt =====
-- internal/planner/planner.go: what `proposalIdentity` hashes determines the proposal.
use sema.Planner.{kind_text}
use sema.Planner.Proposal.{
  append_proposal_string, append_references, append_target, append_teams, encode_proposal,
}
use sema.Domain.Policy.{big_endian}
use sema.Planner.Proposal.Identity.{
  big_endian-alone, string_before-append_proposal_string, append_assoc, big_endian-injective,
  string_before-injective, Measured, string_before,
}
use sema.Base.{
  sym, pos_part, to_word, Option, arith, is_negative, List, [], ◌∷◌, ◌++◌, Text, ◌≡◌, ◌<◌, ℕ,
  length, pos, ℤ, ap, ◌∙◌, refl, word, half_word, All, false, none, some,
}
use sema.Domain.{TicketRef, TeamAssignment, BackfillTarget, MatchProposal}

-- A reference, a team and a target that fit the machine's words.
abbrev pub IsRef : TicketRef → Type 0
IsRef r = Measured r.id × (r.revision < word)

abbrev pub IsTeam : TeamAssignment → Type 0
IsTeam t =
    (is_negative t.team ≡ false)
    × (pos_part t.team < half_word)
    × (length t.tickets < half_word)
    × All IsRef t.tickets

abbrev pub IsTarget : Option BackfillTarget → Type 0
IsTarget none = Unit {0}
IsTarget (some t) = IsRef t.ticket × Measured t.session_id × (t.roster_version < word)

pub record IsEncodable (p : MatchProposal) : Type 0 where
  pub version : Measured p.policy_version
  pub fingerprint : Measured p.policy_fingerprint
  pub kind : Measured (kind_text p.kind)
  pub team_count : length p.teams < half_word
  pub teams : All IsTeam p.teams
  pub target : IsTarget p.target

abbrev refs_before : List TicketRef → Text → Text
refs_before [] r = r
refs_before (x ∷ xs) r =
    string_before x.id (big_endian (to_word (pos x.revision)) ++ refs_before xs r)

abbrev teams_before : List TeamAssignment → Text → Text
teams_before [] r = r
teams_before (t ∷ ts) r =
    big_endian (to_word t.team)
    ++ (big_endian (to_word (pos (length t.tickets))) ++ refs_before t.tickets (teams_before ts r))

abbrev target_text : Option BackfillTarget → Text
target_text none = 0 ∷ []
target_text (some t) =
    1
    ∷ string_before t.ticket.id (
        big_endian (to_word (pos t.ticket.revision))
        ++ string_before t.session_id (big_endian (to_word (pos t.roster_version))))

refs_before-append_references :
    (encoded : Text) (rs : List TicketRef) (r : Text)
    → append_references encoded rs ++ r ≡ encoded ++ refs_before rs r
unfolding append_references
refs_before-append_references encoded [] r = refl
refs_before-append_references encoded (x ∷ xs) r =
    let n = big_endian (to_word (pos x.revision)) in
    refs_before-append_references (append_proposal_string encoded x.id ++ n) xs r
    ∙ (append_assoc (append_proposal_string encoded x.id) n (refs_before xs r)
        ∙ string_before-append_proposal_string encoded x.id (n ++ refs_before xs r))

teams_before-append_teams :
    (encoded : Text) (ts : List TeamAssignment) (r : Text)
    → append_teams encoded ts ++ r ≡ encoded ++ teams_before ts r
unfolding append_teams
teams_before-append_teams encoded [] r = refl
teams_before-append_teams encoded (t ∷ ts) r =
    let n = big_endian (to_word t.team) in
    let m = big_endian (to_word (pos (length t.tickets))) in
    let rest = teams_before ts r in
    teams_before-append_teams (append_references ((encoded ++ n) ++ m) t.tickets) ts r
    ∙ (refs_before-append_references ((encoded ++ n) ++ m) t.tickets rest
        ∙ (append_assoc (encoded ++ n) m (refs_before t.tickets rest)
            ∙ append_assoc encoded n (m ++ refs_before t.tickets rest)))

target_text-append_target :
    (encoded : Text) (target : Option BackfillTarget)
    → append_target encoded target ≡ encoded ++ target_text target
unfolding append_target
target_text-append_target encoded none = refl
target_text-append_target encoded (some t) =
    let marked = encoded ++ 1 ∷ [] in
    let named = append_proposal_string marked t.ticket.id in
    let revision = big_endian (to_word (pos t.ticket.revision)) in
    let version = big_endian (to_word (pos t.roster_version)) in
    let session = string_before t.session_id version in
    string_before-append_proposal_string (named ++ revision) t.session_id version
    ∙ (append_assoc named revision session
        ∙ (string_before-append_proposal_string marked t.ticket.id (revision ++ session)
            ∙ append_assoc encoded (1 ∷ []) (string_before t.ticket.id (revision ++ session))))

-- The bytes in the order in which they are read.
abbrev encoding : Text → ℕ → MatchProposal → Text
encoding id sequence p = string_before id (
    big_endian (to_word (pos sequence))
    ++ string_before p.policy_version (
        string_before p.policy_fingerprint (
          string_before (kind_text p.kind) (
            big_endian (to_word (pos (length p.teams)))
            ++ teams_before p.teams (target_text p.target)))))

encoding-encode_proposal :
    (id : Text) (sequence : ℕ) (p : MatchProposal)
    → encode_proposal id sequence p ≡ encoding id sequence p
unfolding encode_proposal
encoding-encode_proposal id sequence p =
    let number = big_endian (to_word (pos sequence)) in
    let header = append_proposal_string [] id ++ number in
    let versioned = append_proposal_string header p.policy_version in
    let policy = append_proposal_string versioned p.policy_fingerprint in
    let kind = append_proposal_string policy (kind_text p.kind) in
    let count = big_endian (to_word (pos (length p.teams))) in
    let teams = teams_before p.teams (target_text p.target) in
    let kinds = string_before (kind_text p.kind) (count ++ teams) in
    let fingerprints = string_before p.policy_fingerprint kinds in
    let versions = string_before p.policy_version fingerprints in
    target_text-append_target (append_teams (kind ++ count) p.teams) p.target
    ∙ (teams_before-append_teams (kind ++ count) p.teams (target_text p.target)
        ∙ (append_assoc kind count teams
            ∙ (string_before-append_proposal_string policy (kind_text p.kind) (count ++ teams)
                ∙ (string_before-append_proposal_string versioned p.policy_fingerprint kinds
                    ∙ (string_before-append_proposal_string header p.policy_version fingerprints
                        ∙ (append_assoc (append_proposal_string [] id) number versions
                            ∙ string_before-append_proposal_string [] id (number ++ versions)))))))

refs_before-injective :
    (xs ys : List TicketRef) (r s : Text)
    → length xs ≡ length ys
    → All IsRef xs
    → All IsRef ys
    → refs_before xs r ≡ refs_before ys s
    → (xs ≡ ys) × (r ≡ s)
refs_before-injective [] [] r s l hx hy h = (refl, h)
refs_before-injective [] (y ∷ ys) r s l hx hy h = absurd (omega (arith, l))
refs_before-injective (x ∷ xs) [] r s l hx hy h = absurd (omega (arith, l))
refs_before-injective (x ∷ xs) (y ∷ ys) r s l hx hy h =
    let (ids, rest) = string_before-injective x.id y.id _ _ hx.0.0 hy.0.0 h in
    let (revisions, rest') =
      big_endian-injective (to_word (pos x.revision)) (to_word (pos y.revision)) _ _ (omega arith)
        (omega arith) rest in
    let (tail, rest'') = refs_before-injective xs ys r s (omega (arith, l)) hx.1 hy.1 rest' in
    let same : x.revision ≡ y.revision = omega (arith, revisions, hx.0.1, hy.0.1) in
    (cc (ids, same, tail), rest'')

to_word_natural : (n : ℤ) → is_negative n ≡ false → to_word n < word
to_word_natural n h = ground arith

to_word-injective :
    (m n : ℤ)
    → is_negative m ≡ false
    → is_negative n ≡ false
    → pos_part m < half_word
    → pos_part n < half_word
    → to_word m ≡ to_word n
    → m ≡ n
to_word-injective m n hm hn bm bn h = ground arith

teams_before-injective :
    (xs ys : List TeamAssignment) (r s : Text)
    → length xs ≡ length ys
    → All IsTeam xs
    → All IsTeam ys
    → teams_before xs r ≡ teams_before ys s
    → (xs ≡ ys) × (r ≡ s)
teams_before-injective [] [] r s l hx hy h = (refl, h)
teams_before-injective [] (y ∷ ys) r s l hx hy h = absurd (omega (arith, l))
teams_before-injective (x ∷ xs) [] r s l hx hy h = absurd (omega (arith, l))
teams_before-injective (x ∷ xs) (y ∷ ys) r s l hx hy h =
    let (natural, small, few, refs) = hx.0 in
    let (natural', small', few', refs') = hy.0 in
    let (numbers, rest) =
      big_endian-injective (to_word x.team) (to_word y.team) _ _ (to_word_natural x.team natural)
        (to_word_natural y.team natural') h in
    let (counts, rest') =
      big_endian-injective (to_word (pos (length x.tickets))) (to_word (pos (length y.tickets))) _ _
        (omega arith) (omega arith) rest in
    let (tickets, rest'') =
      refs_before-injective x.tickets y.tickets _ _ (omega (arith, counts, few, few')) refs refs'
        rest' in
    let (tail, rest3) = teams_before-injective xs ys r s (omega (arith, l)) hx.1 hy.1 rest'' in
    let same = to_word-injective x.team y.team natural natural' small small' numbers in
    (cc (same, tickets, tail), rest3)

abbrev rest_of : Text → Text
rest_of [] = []
rest_of (x ∷ xs) = xs

target_text-injective :
    (t u : Option BackfillTarget) → IsTarget t → IsTarget u → target_text t ≡ target_text u → t ≡ u
target_text-injective none none ht hu h = refl
target_text-injective none (some u) ht hu h =
    let zero_tag : ℕ = 0 in let tags : zero_tag ≡ 1 = cc h in absurd (omega (arith, tags))
target_text-injective (some t) none ht hu h =
    let zero_tag : ℕ = 0 in let tags : zero_tag ≡ 1 = cc h in absurd (omega (arith, tags))
target_text-injective (some t) (some u) ht hu h =
    let (named, session, version) = ht in
    let (named', session', version') = hu in
    let (ids, r1) =
      string_before-injective t.ticket.id u.ticket.id _ _ named.0 named'.0 (ap rest_of h) in
    let (revisions, r2) =
      big_endian-injective (to_word (pos t.ticket.revision)) (to_word (pos u.ticket.revision)) _ _
        (omega arith) (omega arith) r1 in
    let (sessions, r3) =
      string_before-injective t.session_id u.session_id _ _ session session' r2 in
    let versions =
      big_endian-alone (to_word (pos t.roster_version)) (to_word (pos u.roster_version))
        (omega arith) (omega arith) r3 in
    let revision : t.ticket.revision ≡ u.ticket.revision =
      omega (arith, revisions, named.1, named'.1) in
    let roster : t.roster_version ≡ u.roster_version = omega (arith, versions, version, version') in
    cc (ids, revision, sessions, roster)

-- Two proposals that fit the machine's words, numbered within a snapshot, are hashed from the same
-- bytes only if they agree in all that identifies them: the snapshot, the number, the policy, the
-- kind, the teams with their tickets, and the target.
pub encode_proposal-injective :
    (id id' : Text) (sequence sequence' : ℕ) (p p' : MatchProposal)
    → Measured id
    → Measured id'
    → sequence < half_word
    → sequence' < half_word
    → IsEncodable p
    → IsEncodable p'
    → encode_proposal id sequence p ≡ encode_proposal id' sequence' p'
    → (id ≡ id')
      × (sequence ≡ sequence')
      × (p.policy_version ≡ p'.policy_version)
      × (p.policy_fingerprint ≡ p'.policy_fingerprint)
      × (kind_text p.kind ≡ kind_text p'.kind)
      × (p.teams ≡ p'.teams)
      × (p.target ≡ p'.target)
encode_proposal-injective id id' sequence sequence' p p' hid hid' hs hs' e e' h =
    let same : encoding id sequence p ≡ encoding id' sequence' p' =
      sym (encoding-encode_proposal id sequence p)
      ∙ (h ∙ encoding-encode_proposal id' sequence' p') in
    let (ids, r1) = string_before-injective id id' _ _ hid hid' same in
    let (numbers, r2) =
      big_endian-injective (to_word (pos sequence)) (to_word (pos sequence')) _ _ (omega arith)
        (omega arith) r1 in
    let (versions, r3) =
      string_before-injective p.policy_version p'.policy_version _ _ e.version e'.version r2 in
    let (fingerprints, r4) =
      string_before-injective p.policy_fingerprint p'.policy_fingerprint _ _ e.fingerprint
        e'.fingerprint r3 in
    let (kinds, r5) =
      string_before-injective (kind_text p.kind) (kind_text p'.kind) _ _ e.kind e'.kind r4 in
    let (counts, r6) =
      big_endian-injective (to_word (pos (length p.teams))) (to_word (pos (length p'.teams))) _ _
        (omega arith) (omega arith) r5 in
    let (teams, r7) =
      teams_before-injective p.teams p'.teams _ _
        (omega (arith, counts, e.team_count, e'.team_count)) e.teams e'.teams r6 in
    (
      ids,
      omega (arith, numbers, hs, hs'),
      versions,
      fingerprints,
      kinds,
      teams,
      target_text-injective p.target p'.target e.target e'.target r7,
    )
