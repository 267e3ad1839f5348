-- ===== src/Canonical/Merge.antt =====
-- canonical/merge_service.py. `now` is what `_now()` returns in the call. `str` and `uuid.UUID` of a
-- link's key undo each other, so that the moved links stand in the evidence by their keys.
pub mod Reverse
pub mod Resolve
pub mod Inversion
pub mod Restored
pub mod Moves
pub mod Effects
pub mod Verdicts
use nyc_rental_listing_agent.Base.{
  ℕ, suc, String, Bool, true, false, ◌&&◌, ◌||◌, not, Option, none, some, List, [], ◌∷◌, ◌++◌, map,
  max, ◌==◌, is_none, if◌then◌else◌,
}
use nyc_rental_listing_agent.Base.Result.{
  Result, ok, err, merge_error, lookup_error, assertion_error, ◌>>=◌,
}
use nyc_rental_listing_agent.Base.Table.{select, exists, update_where, find_row}
use nyc_rental_listing_agent.Enums.Listing.{
  LifecycleStatus, ListingEventType, MergeReasonCode, PerformedByType, DuplicateCandidateStatus,
  reason_value,
}
use nyc_rental_listing_agent.Enums.Facts.{ReviewIssueStatus, ReviewIssueType}
use nyc_rental_listing_agent.Enums.Human.{ActorType}
use nyc_rental_listing_agent.Model.Listings.{
  CanonicalListing, ListingSourceLink, CanonicalMerge, DuplicateCandidate, of_id,
}
use nyc_rental_listing_agent.Model.Evidence.{
  Value, number, text, ReviewIssue, IssueDetails, conflict, duplicate, breaker,
}
use nyc_rental_listing_agent.Model.Database.{Database}
use nyc_rental_listing_agent.Canonical.Human.{require_human}
use nyc_rental_listing_agent.Canonical.Events.{emit}

abbrev pub listing_is : ℕ → CanonicalListing → Bool
listing_is i l = l.canonical_listing_id == i

abbrev pub links_to : ℕ → ListingSourceLink → Bool
links_to i l = l.canonical_listing_id == i

abbrev pub link_is : ℕ → ListingSourceLink → Bool
link_is i l = l.listing_source_link_id == i

abbrev pub merge_is : ℕ → CanonicalMerge → Bool
merge_is i m = m.canonical_merge_id == i

abbrev pub is_merged : LifecycleStatus → Bool
is_merged LifecycleStatus.merged = true
is_merged _ = false

abbrev pub is_manual : MergeReasonCode → Bool
is_manual MergeReasonCode.manual = true
is_manual _ = false

abbrev pub performed_by : ActorType → PerformedByType
performed_by ActorType.human = PerformedByType.human
performed_by ActorType.system = PerformedByType.system

-- A link moved to a listing.
abbrev pub moved_to : ℕ → ListingSourceLink → ListingSourceLink
moved_to i l = record l { canonical_listing_id = i }

abbrev pub link_ids : List ListingSourceLink → List ℕ
link_ids = map (λ l. l.listing_source_link_id)

abbrev pub superseded : CanonicalListing → CanonicalListing
superseded l = record l { lifecycle_status = LifecycleStatus.merged }

abbrev pub seen_until : ℕ → CanonicalListing → CanonicalListing
seen_until time l = record l { last_seen_at = time }

-- The writes of `merge_listings`, after its guards.
unfoldable pub merge_rows :
    (now : ℕ) (source target : CanonicalListing)
    → String
    → ActorType
    → MergeReasonCode
    → Option ℕ
    → Database
    → CanonicalMerge × Database
unfolding emit
merge_rows now source target actor actor_type reason candidate db =
    let source_id = source.canonical_listing_id in
    let target_id = target.canonical_listing_id in
    let merge : CanonicalMerge = record {
      canonical_merge_id = db.next_id;
      source_listing_id = source_id;
      target_listing_id = target_id;
      reason_code = reason;
      evidence = record {
        duplicate_candidate_id = candidate;
        moved_link_ids = link_ids (select (links_to source_id) db.links);
      };
      performed_by_type = performed_by actor_type;
      performed_by = some actor;
      performed_at = now;
      reversed_at = none;
    } in
    (
      merge,
      emit
          (record {
            canonical_listing_id = source_id;
            event_type = ListingEventType.merged;
            event_time = now;
            source_observation_id = none;
            reason = none;
            key_suffix = of_id target_id;
          })
          (record db {
            next_id = suc db.next_id;
            links = update_where (links_to source_id) (moved_to target_id) db.links;
            merges = db.merges ++ merge ∷ [];
            listings =
                update_where (listing_is target_id)
                  (seen_until (max target.last_seen_at source.last_seen_at))
                  (update_where (listing_is source_id) superseded db.listings);
            audit =
                db.audit
                ++ record {
                  actor = actor;
                  actor_type = actor_type;
                  action_type = "canonical_merge";
                  target_type = "canonical_listing";
                  target_id = some source_id;
                  before_values = none;
                  after_values = some (
                      ("target_listing_id", number target_id)
                      ∷ ("reason_code", text (reason_value reason))
                      ∷ []);
                  reason = none;
                }
                  ∷ [];
          }),
    )

-- The listing with a key; `source is None or target is None` raises.
unfoldable pub get_listing : ℕ → Database → Result CanonicalListing
get_listing i db = elim (find_row (listing_is i) db.listings) [
  | none ↦ err lookup_error
  | some l ↦ ok l
]

abbrev pub check : Bool → Result (Unit {0})
check true = ok tt
check false = err merge_error

unfoldable pub merge_listings :
    (now source_listing_id target_listing_id : ℕ)
    → String
    → ActorType
    → MergeReasonCode
    → Option ℕ
    → Database
    → Result (CanonicalMerge × Database)
unfolding get_listing
merge_listings now source_id target_id actor actor_type reason candidate db = do
  _ ← if is_manual reason then require_human actor_type else ok tt
  _ ← check (not (source_id == target_id))
  source ← get_listing source_id db
  target ← get_listing target_id db
  _ ← check (not (is_merged source.lifecycle_status))
  _ ← check (not (is_merged target.lifecycle_status))
  ok (merge_rows now source target actor actor_type reason candidate db)
