-- ===== src/Tests/Normalization.antt =====
-- Normalization on one observation, of an identity that is new and of one that is known.
use nyc_rental_listing_agent.Base.{ℕ, ◌≡◌, ◌≤◌, refl, true, none, some, [], ◌∷◌, Option, List}
use nyc_rental_listing_agent.Base.Result.{Result, ok, err}
use nyc_rental_listing_agent.Enums.Listing.{
  LayoutClass, AvailabilityStatus, LaundryType, DiscoveryMethod, IdentityMethod, IdentityConfidence,
}
use nyc_rental_listing_agent.Enums.Facts.{FactEntityType, Confidence, OverrideStatus}
use nyc_rental_listing_agent.Enums.Ops.{ParseStatus}
use nyc_rental_listing_agent.Model.Listings.{
  ParsedSourceObservation, SourceObservation, ListingSourceLink,
}
use nyc_rental_listing_agent.Model.Evidence.{number, HumanOverride}
use nyc_rental_listing_agent.Model.Database.{Database, empty}
use nyc_rental_listing_agent.Canonical.Facts.{overrides_fact}
use nyc_rental_listing_agent.Canonical.Normalization.Identity.{
  NormalizationOutcome, find_link, new_link,
}
use nyc_rental_listing_agent.Canonical.Normalization.Process.{not_resolved, process_observation}
use nyc_rental_listing_agent.Canonical.Normalization.Entry.{IsCautious}
use nyc_rental_listing_agent.Canonical.Normalization.Replay.{process_observation-replay}
use nyc_rental_listing_agent.Canonical.Normalization.Cautious.{process_observation-IsCautious}
use nyc_rental_listing_agent.Canonical.Normalization.Override.{Field, IsUntouched}
use nyc_rental_listing_agent.Canonical.Normalization.Decided.{process_observation-overridden}

abbrev pub parsed : (observed : ℕ) → (rent : Option ℕ) → ParsedSourceObservation
parsed observed rent = record {
  source_native_id = some "a-1";
  source_url = "u";
  observed_at = observed;
  retrieved_at = observed;
  identity = record {
    raw_address_text = some "1 Main St";
    raw_unit_label = none;
    normalized_unit_candidate = none;
    source_geographic_labels = "New York" ∷ [];
  };
  pricing = record { source_price_text = none; monthly_rent_minor = rent };
  layout = record {
    raw_layout_text = none;
    source_bedrooms = none;
    source_bathrooms = none;
    proposed_layout_class = LayoutClass.studio;
    confidence = Confidence.medium;
  };
  availability = record { source_status_text = none; proposed_status = AvailabilityStatus.unknown };
  description = none;
  laundry = record {
    proposed_laundry_type = LaundryType.unknown;
    evidence_text = none;
    confidence = Confidence.low;
  };
  parse_status = ParseStatus.valid;
}

abbrev seen_first : SourceObservation
seen_first = record {
  source_observation_id = 1;
  source_id = 4;
  source_run_id = 60;
  source_native_id = some "a-1";
  source_url = "u";
  observed_at = 5;
  retrieved_at = 5;
  content_hash = "h";
  parsed_payload = parsed 5 (some 310000);
  parse_status = ParseStatus.valid;
}

abbrev observed : Database
observed = record empty { next_id = 50; observations = seen_first ∷ [] }

abbrev result_of : Result (NormalizationOutcome × Database) → NormalizationOutcome × Database
result_of (ok r) = r
result_of (err e) = (not_resolved, empty)

abbrev normalized : NormalizationOutcome × Database
normalized = result_of (process_observation 10 1 DiscoveryMethod.direct observed)

process_observation-IsCautious_example : IsCautious observed normalized.1
unfolding process_observation
process_observation-IsCautious_example =
    process_observation-IsCautious 10 1 DiscoveryMethod.direct observed normalized refl

no_link_yet :
    (k : ListingSourceLink) → find_link seen_first observed ≡ ok (some k) → k.last_seen_at ≤ 5
unfolding find_link
no_link_yet k e = cc

process_observation-replay_example :
    (o : NormalizationOutcome) × ((process_observation 20 1 DiscoveryMethod.search_index
          normalized.1
        ≡ ok (o, normalized.1))
      × (o.events_emitted ≡ []))
unfolding process_observation
process_observation-replay_example =
    process_observation-replay 10 20 1 DiscoveryMethod.direct DiscoveryMethod.search_index
      seen_first observed normalized refl no_link_yet refl

abbrev decided : HumanOverride
decided = record {
  human_override_id = 3;
  entity_type = FactEntityType.listing;
  entity_id = 52;
  field_name = "monthly_rent_minor";
  override_value = some (number 300000);
  override_status = OverrideStatus.active;
  review_on_new_conflict = true;
}

abbrev dearer : SourceObservation
dearer = record seen_first {
  source_observation_id = 2;
  observed_at = 9;
  content_hash = "h2";
  parsed_payload = parsed 9 (some 310000);
}

abbrev overridden : Database
overridden = record normalized.1 {
  observations = seen_first ∷ dearer ∷ [];
  overrides = decided ∷ [];
}

abbrev link_of : Result (Option ListingSourceLink) → Option ListingSourceLink
link_of (ok k) = k
link_of (err e) = none

abbrev repriced : Result (NormalizationOutcome × Database)
repriced = process_observation 12 2 DiscoveryMethod.search_index overridden

abbrev head_link : List ListingSourceLink → ListingSourceLink
head_link [] =
    new_link 0 0 seen_first DiscoveryMethod.direct IdentityMethod.manual IdentityConfidence.manual
head_link (k ∷ ks) = k

abbrev known_link : ListingSourceLink
known_link = head_link normalized.1.links

process_observation-overridden_example :
    IsUntouched Field.rent overridden (result_of repriced).1 (result_of repriced).0.events_emitted
unfolding process_observation overrides_fact find_link
process_observation-overridden_example =
    process_observation-overridden Field.rent 12 2 DiscoveryMethod.search_index dearer known_link
      overridden (result_of repriced) refl refl refl refl
