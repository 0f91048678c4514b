-- ===== src/Coordinator/Tickets/Revisions.antt =====
-- The revision rule: while a ticket is active its revision only grows, and a revision has one
-- content.
use sema.Base.{
  Text, Text-discrete, Option, none, some, ◌≡◌, refl, inl, inr, holds, ◌<◌, ◌⊎◌, if◌then◌else◌,
  arith,
}
use sema.Base.Map.{lookup, lookup-insert}
use sema.Domain.{MatchTicket, Result, ok, err, FailureCode}
use sema.Domain.Validate.{validate_match_ticket}
use sema.Coordinator.{Coordinator}
use sema.Coordinator.Tickets.{
  Verdict, keep, replace, judge_match_revision, judge_players, judge_match_ticket,
  store_match_ticket, carry_out_match, upsert_match_ticket,
}

-- How the revision of a name moves.
abbrev pub Advances : Option MatchTicket → MatchTicket → Type 0
Advances none t = Unit {0}
Advances (some current) t = (current.revision < t.revision) ⊎ (current ≡ t)

judged-Advances :
    (o : Option MatchTicket) (t : MatchTicket) (v : Verdict)
    → judge_match_revision o t ≡ ok v
    → Advances o t
unfolding judge_match_revision
judged-Advances none t v h = tt
judged-Advances (some current) t v h = ground arith

kept-same :
    (o : Option MatchTicket) (t : MatchTicket) → judge_match_revision o t ≡ ok keep → o ≡ some t
unfolding judge_match_revision
kept-same none t h = absurd (cc h)
kept-same (some current) t h = ground arith

judge_parts :
    (c : Coordinator) (t : MatchTicket) (v : Verdict)
    → judge_match_ticket c t ≡ ok v
    → (validate_match_ticket t ≡ ok tt)
      × (judge_match_revision (lookup t.id c.match_tickets) t ≡ ok v)
unfolding judge_match_ticket judge_players
judge_parts c t v h = ground arith

-- A submission either fails, and then leaves the state as it was, or leaves exactly the submitted
-- ticket under its name, with a newer revision than the active one or the same content, and no
-- other ticket changed.
pub upsert_match_ticket_lem :
    (c : Coordinator) (t : MatchTicket)
    → let (d, result) = upsert_match_ticket c t in
      ((e : FailureCode) × (result ≡ err e) × (d ≡ c))
      ⊎ ((result ≡ ok tt)
          × Advances (lookup t.id c.match_tickets) t
          × ((k : Text)
              → lookup k d.match_tickets
                ≡ (if holds (Text-discrete t.id k) then some t else lookup k c.match_tickets))
          × (d.backfill_tickets ≡ c.backfill_tickets))
unfolding upsert_match_ticket
upsert_match_ticket_lem c t = go (judge_match_ticket c t) refl
  where
    go :
        (r : Result Verdict)
        → judge_match_ticket c t ≡ r
        → let (d, result) = carry_out_match c t r in
          ((e : FailureCode) × (result ≡ err e) × (d ≡ c))
          ⊎ ((result ≡ ok tt)
              × Advances (lookup t.id c.match_tickets) t
              × ((k : Text)
                  → lookup k d.match_tickets
                    ≡ (if holds (Text-discrete t.id k) then some t else lookup k c.match_tickets))
              × (d.backfill_tickets ≡ c.backfill_tickets))
    go (err e) h = inl (e, refl, refl)
    go (ok keep) h =
        let (_, judged) = judge_parts c t keep h in
        inr (
          refl,
          judged-Advances (lookup t.id c.match_tickets) t keep judged,
          λ k. ground (arith, kept-same (lookup t.id c.match_tickets) t judged),
          refl,
        )
    go (ok replace) h =
        let (_, judged) = judge_parts c t replace h in
        inr (
          refl,
          judged-Advances (lookup t.id c.match_tickets) t replace judged,
          λ k. unfold store_match_ticket in lookup-insert t.id k t c.match_tickets,
          unfold store_match_ticket in refl,
        )
