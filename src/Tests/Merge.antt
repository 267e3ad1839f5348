-- ===== src/Tests/Merge.antt =====
-- Two listings of one unit, merged, unmerged and judged.
use nyc_rental_listing_agent.Base.{
  ℕ, ◌≡◌, ◌==◌, ◌≤◌, ◌+◌, refl, true, false, none, some, [], ◌∷◌, arith,
}
use nyc_rental_listing_agent.Base.Lists.{All, length}
use nyc_rental_listing_agent.Base.Result.{Result, ok, err, merge_error}
use nyc_rental_listing_agent.Base.Table.{count}
use nyc_rental_listing_agent.Enums.Listing.{
  LayoutClass, AvailabilityStatus, LifecycleStatus, LaundryType, CanonicalResolutionStatus,
  LinkStatus, IdentityMethod, IdentityConfidence, MergeReasonCode, DuplicateCandidateStatus,
  DiscoveryMethod, PerformedByType,
}
use nyc_rental_listing_agent.Enums.Human.{ActorType}
use nyc_rental_listing_agent.Model.Listings.{
  CanonicalListing, ListingSourceLink, CanonicalMerge, DuplicateCandidate,
}
use nyc_rental_listing_agent.Model.Database.{Database, empty}
use nyc_rental_listing_agent.Canonical.Merge.{
  listing_is, links_to, is_merged, merge_rows, merge_listings,
}
use nyc_rental_listing_agent.Canonical.Merge.Moves.{IsReversible, reverse-merge}
use nyc_rental_listing_agent.Canonical.Merge.Effects.{merge-moves}
use nyc_rental_listing_agent.Canonical.Merge.Resolve.{settle, resolve_duplicate_candidate}
use nyc_rental_listing_agent.Canonical.Merge.Verdicts.{merged-no_merge, resolve-once}

abbrev pub listing : ℕ → ℕ → CanonicalListing
listing i seen = record {
  canonical_listing_id = i;
  building_id = 50;
  unit_id = none;
  layout_class = LayoutClass.studio;
  bedroom_count = none;
  bathroom_count = none;
  monthly_rent_minor = some 300000;
  availability_status = AvailabilityStatus.available;
  lifecycle_status = LifecycleStatus.active;
  laundry_type = LaundryType.unknown;
  indoor_laundry_badge_eligible = false;
  description_current = none;
  first_seen_at = 0;
  last_seen_at = seen;
  last_material_change_at = 0;
  inactive_at = none;
  canonical_resolution_status = CanonicalResolutionStatus.provisional;
}

abbrev pub link : ℕ → ℕ → ListingSourceLink
link i l = record {
  listing_source_link_id = i;
  canonical_listing_id = l;
  source_id = 60;
  source_native_id = none;
  source_url = "https://example.test/1";
  first_observation_id = 70;
  latest_observation_id = 70;
  first_seen_at = 0;
  last_seen_at = 5;
  link_status = LinkStatus.active;
  discovery_method = DiscoveryMethod.direct;
  identity_method = IdentityMethod.source_native_continuity;
  identity_confidence = IdentityConfidence.high;
}

abbrev pair : DuplicateCandidate
pair = record {
  duplicate_candidate_id = 7;
  listing_a_id = 1;
  listing_b_id = 2;
  rent_delta_minor = 0;
  status = DuplicateCandidateStatus.pending;
  resolved_by = none;
  resolved_at = none;
}

abbrev pub twins : Database
twins = record empty {
  next_id = 100;
  listings = listing 1 5 ∷ listing 2 9 ∷ [];
  links = link 11 1 ∷ link 12 2 ∷ [];
  candidates = pair ∷ [];
}

abbrev made :
    CanonicalMerge × Database → Result (CanonicalMerge × Database) → CanonicalMerge × Database
made d (ok r) = r
made d (err e) = d

abbrev no_merge : CanonicalMerge
no_merge = record {
  canonical_merge_id = 0;
  source_listing_id = 0;
  target_listing_id = 0;
  reason_code = MergeReasonCode.manual;
  evidence = record { duplicate_candidate_id = none; moved_link_ids = [] };
  performed_by_type = PerformedByType.human;
  performed_by = none;
  performed_at = 0;
  reversed_at = none;
}

abbrev run : CanonicalMerge × Database
run =
    made (no_merge, empty)
      (merge_listings 20 1 2 "op" ActorType.human MergeReasonCode.manual none twins)

runs :
    merge_listings 20 1 2 "op" ActorType.human MergeReasonCode.manual none twins ≡ ok (run.0, run.1)
unfolding merge_listings merge_rows
runs = refl

abbrev state_of : Result Database → Database
state_of (ok r) = r
state_of (err e) = empty

abbrev judged_twins : Database
judged_twins = state_of (resolve_duplicate_candidate 30 7 false "op" ActorType.human none twins)

judges : resolve_duplicate_candidate 30 7 false "op" ActorType.human none twins ≡ ok judged_twins
unfolding resolve_duplicate_candidate settle
judges = refl

link_keys : (i : ℕ) → count (λ l. l.listing_source_link_id == i) twins.links ≤ 1
link_keys i = ground arith

reverse-merge_example : IsReversible 40 1 "op" "mistaken" twins run.0 run.1
reverse-merge_example =
    reverse-merge 20 40 1 2 "op" "op" ActorType.human MergeReasonCode.manual "mistaken" none twins
      run.1 run.0 runs link_keys tt

merge-moves_example :
    (count (links_to 1) run.1.links ≡ 0)
    × (count (links_to 2) run.1.links
        ≡ count (links_to 2) twins.links + count (links_to 1) twins.links)
    × All (λ l. listing_is 1 l ≡ true → is_merged l.lifecycle_status ≡ true) run.1.listings
    × (length run.1.links ≡ length twins.links)
    × (length run.1.listings ≡ length twins.listings)
    × (run.1.selections ≡ twins.selections)
    × (run.1.presets ≡ twins.presets)
    × (run.1.entries ≡ twins.entries)
merge-moves_example =
    merge-moves 20 1 2 "op" ActorType.human MergeReasonCode.manual none twins run.1 run.0 runs

merged-no_merge_example :
    (¬ (
      merge_listings 50 1 2 "op" ActorType.human MergeReasonCode.manual none run.1
      ≡ ok (run.0, run.1)))
    × (¬ (
        merge_listings 50 2 1 "op" ActorType.human MergeReasonCode.manual none run.1
        ≡ ok (run.0, run.1)))
merged-no_merge_example =
    merged-no_merge 20 1 2 "op" ActorType.human MergeReasonCode.manual none twins run.1 run.0 50 2
      "op" ActorType.human MergeReasonCode.manual none (run.0, run.1) runs

resolve-once_example :
    resolve_duplicate_candidate 40 7 true "op" ActorType.human none judged_twins ≡ err merge_error
resolve-once_example = resolve-once 30 40 7 false true "op" "op" none none twins judged_twins judges
