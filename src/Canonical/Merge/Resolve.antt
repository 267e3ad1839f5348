-- ===== src/Canonical/Merge/Resolve.antt =====
-- `resolve_duplicate_candidate` and `_resolve_candidate_issues` of canonical/merge_service.py.
use nyc_rental_listing_agent.Base.{
  ℕ, String, Bool, true, false, ◌&&◌, ◌||◌, Option, none, some, ◌==◌, if◌then◌else◌,
}
use nyc_rental_listing_agent.Base.Result.{Result, ok, err, lookup_error, ◌>>=◌}
use nyc_rental_listing_agent.Base.Table.{update_where, find_row}
use nyc_rental_listing_agent.Enums.Listing.{MergeReasonCode, DuplicateCandidateStatus}
use nyc_rental_listing_agent.Enums.Facts.{ReviewIssueStatus, ReviewIssueType}
use nyc_rental_listing_agent.Enums.Human.{ActorType}
use nyc_rental_listing_agent.Model.Listings.{DuplicateCandidate}
use nyc_rental_listing_agent.Model.Evidence.{ReviewIssue, IssueDetails, duplicate}
use nyc_rental_listing_agent.Model.Database.{Database}
use nyc_rental_listing_agent.Canonical.Human.{require_human}
use nyc_rental_listing_agent.Canonical.Merge.{check, merge_listings}

abbrev pub is_pending : DuplicateCandidateStatus → Bool
is_pending DuplicateCandidateStatus.pending = true
is_pending _ = false

abbrev pub candidate_is : ℕ → DuplicateCandidate → Bool
candidate_is i c = c.duplicate_candidate_id == i

-- An open issue about a candidate.
abbrev about_candidate : ℕ → IssueDetails → Bool
about_candidate i (duplicate c a b) = c == i
about_candidate i _ = false

abbrev is_duplicate_issue : ReviewIssueType → Bool
is_duplicate_issue ReviewIssueType.duplicate_candidate = true
is_duplicate_issue _ = false

abbrev is_open : ReviewIssueStatus → Bool
is_open ReviewIssueStatus.opened = true
is_open _ = false

unfoldable pub open_issue_about : ℕ → ReviewIssue → Bool
open_issue_about i issue =
    is_duplicate_issue issue.issue_type && is_open issue.status && about_candidate i issue.details

abbrev pub judged : ℕ → DuplicateCandidateStatus → String → DuplicateCandidate → DuplicateCandidate
judged now status actor c = record c {
  status = status;
  resolved_by = some actor;
  resolved_at = some now;
}

-- The writes after the verdict: the candidate's row and its issues.
unfoldable pub settle :
    (now candidate_id : ℕ) → DuplicateCandidateStatus → String → Database → Database
unfolding open_issue_about
settle now candidate_id status actor db = record db {
  candidates = update_where (candidate_is candidate_id) (judged now status actor) db.candidates;
  issues =
      update_where (open_issue_about candidate_id)
        (λ i. record i {
          status = ReviewIssueStatus.resolved;
          resolved_at = some now;
          resolved_by = some actor;
        })
        db.issues;
}

abbrev pub survivor_of : Option ℕ → DuplicateCandidate → ℕ
survivor_of none c = c.listing_a_id
survivor_of (some i) c = i

unfoldable pub resolve_duplicate_candidate :
    (now candidate_id : ℕ)
    → (confirmed_duplicate : Bool) → String
    → ActorType
    → Option ℕ
    → Database
    → Result Database
resolve_duplicate_candidate now candidate_id confirmed actor actor_type survivor_id db = do
  _ ← require_human actor_type
  candidate ← elim (find_row (candidate_is candidate_id) db.candidates) [
    | none ↦ err lookup_error
    | some c ↦ ok c
  ]
  _ ← check (is_pending candidate.status)
  elim confirmed [
    | true ↦ do
      let survivor = survivor_of survivor_id candidate
      _ ← check (survivor == candidate.listing_a_id || survivor == candidate.listing_b_id)
      let merged_away =
          if survivor == candidate.listing_a_id
          then candidate.listing_b_id
          else candidate.listing_a_id
      merged ←
          merge_listings now merged_away survivor actor actor_type MergeReasonCode.manual
            (some candidate_id) db
      ok (settle now candidate_id DuplicateCandidateStatus.confirmed_duplicate actor merged.1)
    | false ↦ ok (settle now candidate_id DuplicateCandidateStatus.confirmed_distinct actor db)
  ]
