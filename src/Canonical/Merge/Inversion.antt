-- ===== src/Canonical/Merge/Inversion.antt =====
-- What a merge that succeeded found and did.
use nyc_rental_listing_agent.Base.{
  ℕ, ◌≡◌, inl, inr, String, false, Option, some, arith, ◌==◌, Option-cases,
}
use nyc_rental_listing_agent.Base.Result.{ok}
use nyc_rental_listing_agent.Base.Table.{find_row}
use nyc_rental_listing_agent.Enums.Listing.{MergeReasonCode}
use nyc_rental_listing_agent.Enums.Human.{ActorType}
use nyc_rental_listing_agent.Model.Listings.{CanonicalListing, CanonicalMerge}
use nyc_rental_listing_agent.Model.Database.{Database}
use nyc_rental_listing_agent.Canonical.Merge.{listing_is, is_merged, merge_rows, merge_listings}

module _ (now s t : ℕ) (actor : String) (actor_type : ActorType) (reason : MergeReasonCode)
    (candidate : Option ℕ) (db : Database) where
  -- What a merge that succeeded found, and did.
  pub record Merged (m : CanonicalMerge) (db' : Database) : Type 0 where
    pub source : CanonicalListing
    pub target : CanonicalListing
    pub found_source : find_row (listing_is s) db.listings ≡ some source
    pub found_target : find_row (listing_is t) db.listings ≡ some target
    pub apart : (s == t) ≡ false
    pub source_live : is_merged source.lifecycle_status ≡ false
    pub target_live : is_merged target.lifecycle_status ≡ false
    pub rows : merge_rows now source target actor actor_type reason candidate db ≡ (m, db')

  pub merge-inv :
      (m : CanonicalMerge) (db' : Database)
      → merge_listings now s t actor actor_type reason candidate db ≡ ok (m, db')
      → Merged m db'
  unfolding merge_listings
  merge-inv m db' e = elim (Option-cases (find_row (listing_is s) db.listings)) [
    | inl p ↦ absurd (ground (arith, p))
    | inr (source, p) ↦ elim (Option-cases (find_row (listing_is t) db.listings)) [
      | inl q ↦ absurd (ground (arith, p, q))
      | inr (target, q) ↦ record {
        source = source;
        target = target;
        found_source = p;
        found_target = q;
        apart = ground (arith, p, q);
        source_live = ground (arith, p, q);
        target_live = ground (arith, p, q);
        rows = ground (arith, p, q);
      }
    ]
  ]
