-- ===== src/Planner/Batch/Quality.antt =====
-- internal/planner/batch.go: which of two selections is the better.
use Prim.Native.Nat.{compare, Ordering}
use sema.Base.{
  ℕ, ◌+◌, List, [], ◌∷◌, Bool, ◌&&◌, ◌||◌, ℤ, pos, ltb_ℤ, leb_ℤ, length, ◌+ℤ◌, ◌*ℤ◌, quot,
  bytes_compare, if◌then◌else◌,
}
use sema.Domain.{MatchTicket}
use sema.Domain.Proposal.{is_backfill}
use sema.Objective.{compare_int, or_else, max_ℤ}
use sema.Planner.{ProposalCandidate, placed, is_lt}
use sema.Planner.Batch.{
  selected_backfill_count, selected_oldest, selected_priority_count, selection_key,
}

pub record SelectedQuality : Type 0 where
  pub selected_backfills : ℤ
  pub proposal_count : ℤ
  pub matched_players : ℤ
  pub max_role_penalty : ℤ
  pub mean_role_penalty_milli : ℤ
  pub total_role_penalty : ℤ
  pub max_team_skill_gap : ℤ
  pub mean_team_skill_gap_milli : ℤ
  pub total_team_skill_gap : ℤ
  pub max_latency_millis : ℤ
  pub oldest_wait_millis : ℤ
  pub mean_wait_millis : ℤ
  pub total_wait_millis : ℤ
  pub matched_tickets : ℤ

abbrev pub no_quality : ℤ → SelectedQuality
no_quality count = record {
  selected_backfills = pos 0;
  proposal_count = count;
  matched_players = pos 0;
  max_role_penalty = pos 0;
  mean_role_penalty_milli = pos 0;
  total_role_penalty = pos 0;
  max_team_skill_gap = pos 0;
  mean_team_skill_gap_milli = pos 0;
  total_team_skill_gap = pos 0;
  max_latency_millis = pos 0;
  oldest_wait_millis = pos 0;
  mean_wait_millis = pos 0;
  total_wait_millis = pos 0;
  matched_tickets = pos 0;
}

unfoldable pub players_of : List MatchTicket → ℕ
players_of [] = 0
players_of (t ∷ ts) = length t.players + players_of ts

unfoldable pub add_quality : ProposalCandidate → SelectedQuality → SelectedQuality
add_quality c q =
    let e = c.evaluation.evidence in
    record q {
      selected_backfills =
          if is_backfill c.kind then q.selected_backfills +ℤ pos 1 else q.selected_backfills;
      max_role_penalty = max_ℤ q.max_role_penalty e.role_penalty;
      total_role_penalty = q.total_role_penalty +ℤ e.role_penalty;
      max_team_skill_gap = max_ℤ q.max_team_skill_gap e.team_skill_gap;
      total_team_skill_gap = q.total_team_skill_gap +ℤ e.team_skill_gap;
      max_latency_millis = max_ℤ q.max_latency_millis e.max_latency_millis;
      oldest_wait_millis = max_ℤ q.oldest_wait_millis e.oldest_wait_millis;
      total_wait_millis = q.total_wait_millis +ℤ e.total_wait_millis;
      matched_tickets = q.matched_tickets +ℤ pos (length (placed c.placement));
      matched_players = q.matched_players +ℤ pos (players_of (placed c.placement));
    }

unfoldable pub add_qualities : List ProposalCandidate → SelectedQuality → SelectedQuality
add_qualities [] q = q
add_qualities (c ∷ cs) q = add_qualities cs (add_quality c q)

-- The means, after the loop.
unfoldable pub with_means : SelectedQuality → SelectedQuality
with_means q = record q {
  mean_role_penalty_milli =
      if ltb_ℤ (pos 0) q.proposal_count
      then quot (q.total_role_penalty *ℤ pos 1000) q.proposal_count
      else q.mean_role_penalty_milli;
  mean_team_skill_gap_milli =
      if ltb_ℤ (pos 0) q.proposal_count
      then quot (q.total_team_skill_gap *ℤ pos 1000) q.proposal_count
      else q.mean_team_skill_gap_milli;
  mean_wait_millis =
      if ltb_ℤ (pos 0) q.matched_tickets
      then quot q.total_wait_millis q.matched_tickets
      else q.mean_wait_millis;
}

unfoldable pub selected_batch_quality : List ProposalCandidate → SelectedQuality
selected_batch_quality selected =
    with_means (add_qualities selected (no_quality (pos (length selected))))

unfoldable pub no_worse : SelectedQuality → SelectedQuality → Bool
no_worse a b =
    leb_ℤ b.oldest_wait_millis a.oldest_wait_millis
    && leb_ℤ b.mean_wait_millis a.mean_wait_millis
    && leb_ℤ a.max_role_penalty b.max_role_penalty
    && leb_ℤ a.mean_role_penalty_milli b.mean_role_penalty_milli
    && leb_ℤ a.max_team_skill_gap b.max_team_skill_gap
    && leb_ℤ a.mean_team_skill_gap_milli b.mean_team_skill_gap_milli
    && leb_ℤ a.max_latency_millis b.max_latency_millis

unfoldable pub better_somewhere : SelectedQuality → SelectedQuality → Bool
better_somewhere a b =
    ltb_ℤ b.oldest_wait_millis a.oldest_wait_millis
    || ltb_ℤ b.mean_wait_millis a.mean_wait_millis
    || ltb_ℤ a.max_role_penalty b.max_role_penalty
    || ltb_ℤ a.mean_role_penalty_milli b.mean_role_penalty_milli
    || ltb_ℤ a.max_team_skill_gap b.max_team_skill_gap
    || ltb_ℤ a.mean_team_skill_gap_milli b.mean_team_skill_gap_milli
    || ltb_ℤ a.max_latency_millis b.max_latency_millis

unfoldable pub batch_quality_dominates : SelectedQuality → SelectedQuality → Bool
batch_quality_dominates a b = no_worse a b && better_somewhere a b

-- The part of `betterSelection` under `preferPareto`.
unfoldable pub compare_pareto : SelectedQuality → SelectedQuality → Ordering
compare_pareto a b = or_else (compare_int b.proposal_count a.proposal_count) (
    or_else (compare_int b.matched_players a.matched_players) (
      if batch_quality_dominates a b
      then Ordering.lt
      else if batch_quality_dominates b a
      then Ordering.gt
      else Ordering.eq))

-- `betterSelection` as a comparison: `lt` where the left is better.
unfoldable pub compare_selections :
    Bool → List ProposalCandidate → ℤ → List ProposalCandidate → ℤ → Ordering
compare_selections prefer_pareto a a_score b b_score =
    or_else (compare (selected_backfill_count b) (selected_backfill_count a)) (
      or_else (compare_int (selected_oldest (pos 0) b) (selected_oldest (pos 0) a)) (
        or_else (compare (selected_priority_count b) (selected_priority_count a)) (
          or_else
            (if prefer_pareto
              then compare_pareto (selected_batch_quality a) (selected_batch_quality b)
              else Ordering.eq)
            (or_else (compare_int b_score a_score) (
              or_else (compare (length b) (length a))
                (bytes_compare (selection_key a) (selection_key b)))))))

unfoldable pub better_selection :
    Bool → List ProposalCandidate → ℤ → List ProposalCandidate → ℤ → Bool
better_selection prefer_pareto a a_score b b_score =
    is_lt (compare_selections prefer_pareto a a_score b b_score)
