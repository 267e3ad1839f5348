-- ===== src/Tests/Inventory.antt =====
-- Admission, facts and disappearance, on one listing with one link.
use nyc_rental_listing_agent.Canonical.Events.{emit}
use nyc_rental_listing_agent.Base.Lists.{length, take, All}
use nyc_rental_listing_agent.Base.{
  ℕ, ◌≡◌, ◌+◌, refl, true, false, none, some, [], ◌∷◌, ◌++◌, String, arith,
}
use nyc_rental_listing_agent.Base.Result.{Result, ok, err}
use nyc_rental_listing_agent.Base.Table.{count, select}
use nyc_rental_listing_agent.Enums.Listing.{
  LayoutClass, AvailabilityStatus, LifecycleStatus, LaundryType, CanonicalResolutionStatus,
  LinkStatus, DiscoveryMethod, IdentityMethod, IdentityConfidence, LocationPrecision,
  BoundaryStatus,
}
use nyc_rental_listing_agent.Enums.Facts.{
  FactEntityType, ValueStatus, DerivationType, Confidence, OverrideStatus,
}
use nyc_rental_listing_agent.Enums.Ops.{SourceRunStatus}
use nyc_rental_listing_agent.Model.Ops.{SourceRun, hours}
use nyc_rental_listing_agent.Model.Listings.{Address, CanonicalListing, ListingSourceLink}
use nyc_rental_listing_agent.Model.Evidence.{number, HumanOverride}
use nyc_rental_listing_agent.Model.Database.{Database, empty}
use nyc_rental_listing_agent.Canonical.Merge.{listing_is}
use nyc_rental_listing_agent.Canonical.Admission.{
  evaluate_one, evaluate_candidates, awaits_admission, join_address,
}
use nyc_rental_listing_agent.Canonical.Admission.Gate.{
  IsEvaluated, IsTotalled, evaluate_one-admits, evaluate_candidates-totals,
}
use nyc_rental_listing_agent.Canonical.Facts.{
  Fact, Evidence, is_current, overrides_fact, record_fact, assertion_of,
}
use nyc_rental_listing_agent.Canonical.Facts.Current.{
  of_others, record_fact-current, record_fact-override,
}
use nyc_rental_listing_agent.Canonical.Disappearance.{
  DisappearanceSummary, nothing_done, inactivate_unsupported, process_source_run,
}
use nyc_rental_listing_agent.Canonical.Facts.{raise_conflict_with_override}
use nyc_rental_listing_agent.Canonical.Facts.Conflicts.{raise_conflict-once}
use nyc_rental_listing_agent.Canonical.Disappearance.Removal.{
  IsWarranted, process_source_run-removes,
}
use nyc_rental_listing_agent.Canonical.Disappearance.Breaker.{
  IsSafe, inactivate_unsupported-keeps, process_source_run-IsSafe,
}

abbrev flat : CanonicalListing
flat = record {
  canonical_listing_id = 7;
  building_id = 2;
  unit_id = none;
  layout_class = LayoutClass.studio;
  bedroom_count = none;
  bathroom_count = none;
  monthly_rent_minor = some 310000;
  availability_status = AvailabilityStatus.available;
  lifecycle_status = LifecycleStatus.candidate;
  laundry_type = LaundryType.unknown;
  indoor_laundry_badge_eligible = false;
  description_current = none;
  first_seen_at = 5;
  last_seen_at = 5;
  last_material_change_at = 5;
  inactive_at = none;
  canonical_resolution_status = CanonicalResolutionStatus.provisional;
}

abbrev place_of : Address
place_of = record {
  address_id = 1;
  address_line_1 = none;
  locality = "New York";
  administrative_area = "NY";
  formatted_address = "1 Main St";
  address_fingerprint = none;
  location_precision = LocationPrecision.building;
  boundary_status = BoundaryStatus.in_scope;
}

abbrev link_of : ListingSourceLink
link_of = record {
  listing_source_link_id = 9;
  canonical_listing_id = 7;
  source_id = 4;
  source_native_id = none;
  source_url = "u";
  first_observation_id = 1;
  latest_observation_id = 1;
  first_seen_at = 5;
  last_seen_at = 5;
  link_status = LinkStatus.active;
  discovery_method = DiscoveryMethod.direct;
  identity_method = IdentityMethod.unresolved;
  identity_confidence = IdentityConfidence.low;
}

abbrev healthy_run : (id started : ℕ) → SourceRun
healthy_run i started = record {
  source_run_id = i;
  refresh_run_id = 1;
  source_id = 4;
  started_at = started;
  completed_at = none;
  status = SourceRunStatus.healthy;
  health_gate_passed = some true;
  counts = none;
  error_summary = none;
  adapter_version = "1";
}

abbrev stock : Database
stock = record empty {
  next_id = 50;
  listings = flat ∷ [];
  links = link_of ∷ [];
  addresses = place_of ∷ [];
  buildings = (record { building_id = 2; address_id = 1 }) ∷ [];
  source_runs = healthy_run 60 (hours 20) ∷ healthy_run 61 (hours 40) ∷ [];
}

abbrev override_of : String → HumanOverride
override_of field = record {
  human_override_id = 3;
  entity_type = FactEntityType.listing;
  entity_id = 7;
  field_name = field;
  override_value = none;
  override_status = OverrideStatus.active;
  review_on_new_conflict = true;
}

evaluate_one-admits_example : IsEvaluated flat place_of stock (evaluate_one 10 flat place_of stock)
evaluate_one-admits_example = evaluate_one-admits 10 flat place_of stock

evaluate_candidates-totals_example :
    IsTotalled 10 5
      (take 5 (join_address stock (select awaits_admission stock.listings)))
      stock
      (evaluate_candidates 10 5 stock).0
evaluate_candidates-totals_example = evaluate_candidates-totals 10 5 stock

abbrev rent : Fact
rent = record {
  entity_type = FactEntityType.listing;
  entity_id = 7;
  fact_key = "monthly_rent_minor";
}

abbrev rent_seen : Evidence
rent_seen = record {
  value = some (number 310000);
  value_status = ValueStatus.asserted;
  derivation_type = DerivationType.source_structured;
  confidence = Confidence.high;
  source_observation_id = some 1;
  evidence_text = none;
}

record_fact-current_example :
    (db' : Database) × (record_fact 10 rent rent_seen stock ≡ ok (50, db'))
    × (count (is_current rent) db'.resolutions ≡ 1)
    × All (λ r. is_current rent r ≡ true → r.effective_assertion_id ≡ some 50) db'.resolutions
    × (of_others rent db'.resolutions ≡ of_others rent stock.resolutions)
    × (length db'.resolutions ≡ length stock.resolutions + 1)
    × (db'.assertions ≡ stock.assertions ++ assertion_of 50 rent rent_seen ∷ [])
record_fact-current_example = record_fact-current 10 rent rent_seen stock refl

abbrev overridden_stock : Database
overridden_stock = record stock { overrides = override_of "monthly_rent_minor" ∷ [] }

record_fact-override_example :
    (db' : Database) × (record_fact 10 rent rent_seen overridden_stock ≡ ok (50, db'))
    × (db'.resolutions ≡ overridden_stock.resolutions)
    × (db'.assertions ≡ overridden_stock.assertions ++ assertion_of 50 rent rent_seen ∷ [])
unfolding overrides_fact
record_fact-override_example = record_fact-override 10 rent rent_seen overridden_stock refl

abbrev kept_stock : Database
kept_stock = record stock { links = []; overrides = override_of "lifecycle_status" ∷ [] }

inactivate_unsupported-keeps_example :
    select (listing_is 7) (inactivate_unsupported 10 nothing_done kept_stock).1.listings
    ≡ select (listing_is 7) kept_stock.listings
inactivate_unsupported-keeps_example =
    inactivate_unsupported-keeps 10 7 nothing_done kept_stock refl

abbrev summary_of : Result (DisappearanceSummary × Database) → DisappearanceSummary × Database
summary_of (ok r) = r
summary_of (err e) = (nothing_done, empty)

abbrev lapsed : DisappearanceSummary × Database
lapsed = summary_of (process_source_run (hours 50) 61 stock)

process_source_run-IsSafe_example : IsSafe lapsed.0 stock lapsed.1
unfolding process_source_run
process_source_run-IsSafe_example =
    process_source_run-IsSafe (hours 50) 61 lapsed.0 stock lapsed.1 refl

raise_conflict-once_example :
    raise_conflict_with_override
      (override_of "rent")
      7
      "monthly_rent_minor"
      (number 2)
      (raise_conflict_with_override (override_of "rent") 7 "monthly_rent_minor" (number 1) stock)
    ≡ raise_conflict_with_override (override_of "rent") 7 "monthly_rent_minor" (number 1) stock
raise_conflict-once_example =
    raise_conflict-once (override_of "rent") (override_of "rent") 7 "monthly_rent_minor" (number 1)
      (number 2) stock refl

process_source_run-removes_example : IsWarranted (hours 50) 61 9 stock
unfolding process_source_run emit
process_source_run-removes_example =
    process_source_run-removes (hours 50) 61 9 lapsed.0 stock lapsed.1 refl refl (omega arith)
