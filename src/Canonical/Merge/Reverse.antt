-- ===== src/Canonical/Merge/Reverse.antt =====
-- `reverse_merge` of canonical/merge_service.py.
use nyc_rental_listing_agent.Base.{ℕ, String, Bool, none, some, List, [], ◌∷◌, ◌++◌, ◌==◌, is_none}
use nyc_rental_listing_agent.Base.Result.{Result, ok, err, lookup_error, assertion_error, ◌>>=◌}
use nyc_rental_listing_agent.Base.Table.{exists, update_where, find_row}
use nyc_rental_listing_agent.Enums.Listing.{LifecycleStatus}
use nyc_rental_listing_agent.Enums.Human.{ActorType}
use nyc_rental_listing_agent.Model.Listings.{CanonicalMerge}
use nyc_rental_listing_agent.Model.Database.{Database}
use nyc_rental_listing_agent.Canonical.Human.{require_human}
use nyc_rental_listing_agent.Canonical.Merge.{listing_is, merge_is, moved_to, check}

abbrev pub is_in : List ℕ → ℕ → Bool
is_in ids i = exists (λ k. k == i) ids

-- The writes of `reverse_merge`, after its guards.
unfoldable pub reverse_rows :
    (now : ℕ) → CanonicalMerge → String → ActorType → (reason : String) → Database → Database
reverse_rows now merge actor actor_type reason db = record db {
  links =
      update_where (λ l. is_in merge.evidence.moved_link_ids l.listing_source_link_id)
        (moved_to merge.source_listing_id) db.links;
  listings =
      update_where (listing_is merge.source_listing_id)
        (λ l. record l { lifecycle_status = LifecycleStatus.review_required }) db.listings;
  merges =
      update_where (merge_is merge.canonical_merge_id) (λ m. record m { reversed_at = some now })
        db.merges;
  audit =
      db.audit
      ++ record {
        actor = actor;
        actor_type = actor_type;
        action_type = "canonical_merge_reversed";
        target_type = "canonical_listing";
        target_id = some merge.source_listing_id;
        before_values = none;
        after_values = none;
        reason = some reason;
      }
        ∷ [];
}

unfoldable pub reverse_merge :
    (now canonical_merge_id : ℕ)
    → String
    → ActorType
    → (reason : String) → Database
    → Result Database
reverse_merge now merge_id actor actor_type reason db = do
  _ ← require_human actor_type
  merge ← elim (find_row (merge_is merge_id) db.merges) [ none ↦ err lookup_error | some m ↦ ok m ]
  _ ← check (is_none merge.reversed_at)
  _ ← elim (find_row (listing_is merge.source_listing_id) db.listings) [
    | none ↦ err assertion_error
    | some l ↦ ok l
  ]
  ok (reverse_rows now merge actor actor_type reason db)
