-- ===== src/Canonical/Normalization/Create.antt =====
-- `_create_canonical` of canonical/normalization.py.
use nyc_rental_listing_agent.Base.{ℕ, ◌+◌, String, false, Option, none, some, [], ◌∷◌, ◌++◌}
use nyc_rental_listing_agent.Base.Result.{Result, ok, ◌>>=◌}
use nyc_rental_listing_agent.Enums.Listing.{
  LifecycleStatus, CanonicalResolutionStatus, IdentityMethod, IdentityConfidence, DiscoveryMethod,
  ListingEventType,
}
use nyc_rental_listing_agent.Model.Listings.{
  ParsedSourceObservation, SourceObservation, Building, CanonicalListing,
}
use nyc_rental_listing_agent.Model.Database.{Database}
use nyc_rental_listing_agent.Canonical.Normalization.Identity.{
  NormalizationOutcome, Classification, found, emit_for, record_listing_facts, new_link, add_link,
  attach_cross_source_link,
}
use nyc_rental_listing_agent.Canonical.Normalization.Places.{
  find_unit, first_label, get_address, get_building, label_of, listing_of_unit, new_unit, non_empty,
}
use nyc_rental_listing_agent.Canonical.Normalization.Duplicates.{
  generate_duplicate_candidates, strong_multi_field_match,
}

abbrev pub new_listing :
    (id : ℕ)
    → Building
    → (unit_id : Option ℕ) → ParsedSourceObservation
    → SourceObservation
    → CanonicalListing
new_listing id b unit_id o row = record {
  canonical_listing_id = id;
  building_id = b.building_id;
  unit_id = unit_id;
  layout_class = o.layout.proposed_layout_class;
  bedroom_count = o.layout.source_bedrooms;
  bathroom_count = o.layout.source_bathrooms;
  monthly_rent_minor = o.pricing.monthly_rent_minor;
  availability_status = o.availability.proposed_status;
  lifecycle_status = LifecycleStatus.candidate;
  laundry_type = o.laundry.proposed_laundry_type;
  indoor_laundry_badge_eligible = false;
  description_current = o.description;
  first_seen_at = row.observed_at;
  last_seen_at = row.observed_at;
  last_material_change_at = row.observed_at;
  inactive_at = none;
  canonical_resolution_status = CanonicalResolutionStatus.provisional;
}

abbrev pub add_listing : CanonicalListing → Database → Database
add_listing l db = record db { next_id = db.next_id + 1; listings = db.listings ++ l ∷ [] }

-- The last part of `_create_canonical`: the listing, its link, its event, its facts and candidates.
unfoldable pub create_listing :
    (now : ℕ)
    → Building
    → (unit_id : Option ℕ) → ParsedSourceObservation
    → SourceObservation
    → DiscoveryMethod
    → Database
    → Result (NormalizationOutcome × Database)
unfolding emit_for record_listing_facts generate_duplicate_candidates
create_listing now b unit_id o row discovery db = do
  let listing = new_listing db.next_id b unit_id o row
  let listed = add_listing listing db
  let link =
      new_link listed.next_id db.next_id row discovery IdentityMethod.source_native_continuity
        IdentityConfidence.high
  let (emitted, told) = emit_for db.next_id ListingEventType.created row (add_link link listed)
  recorded ← record_listing_facts now db.next_id o row told
  ok (found Classification.is_new link emitted, generate_duplicate_candidates listing b recorded)

-- Step 3: no unit, so a strong match or a new listing.
unfoldable pub create_without_unit :
    (now : ℕ)
    → Building
    → ParsedSourceObservation
    → SourceObservation
    → DiscoveryMethod
    → Database
    → Result (NormalizationOutcome × Database)
unfolding strong_multi_field_match attach_cross_source_link create_listing
create_without_unit now b o row discovery db = elim (strong_multi_field_match b o row db) [
  | some strong ↦ ok (
      attach_cross_source_link row strong discovery IdentityMethod.strong_multi_field
        IdentityConfidence.medium db)
  | none ↦ create_listing now b none o row discovery db
]

-- Step 2: a unit that is known with a listing takes the link; another gets a listing.
unfoldable pub create_with_unit :
    (now : ℕ)
    → Building
    → (label : String) → ParsedSourceObservation
    → SourceObservation
    → DiscoveryMethod
    → Database
    → Result (NormalizationOutcome × Database)
unfolding find_unit listing_of_unit attach_cross_source_link create_listing
create_with_unit now b label o row discovery db = do
  known ← find_unit b label db
  elim known [
    | some u ↦ do
      existing ← listing_of_unit u db
      elim existing [
        | some l ↦ ok (
            attach_cross_source_link row l discovery IdentityMethod.exact_address_and_unit
              IdentityConfidence.high db)
        | none ↦ create_listing now b (some u.unit_id) o row discovery db
      ]
    | none ↦ create_listing now b (some db.next_id) o row discovery (record db {
      next_id = db.next_id + 1;
      units = db.units ++ new_unit db.next_id b label o.layout.proposed_layout_class ∷ [];
    })
  ]

unfoldable pub create_canonical :
    (now : ℕ)
    → ParsedSourceObservation
    → SourceObservation
    → DiscoveryMethod
    → Database
    → Result (NormalizationOutcome × Database)
unfolding get_address get_building create_without_unit create_with_unit
create_canonical now o row discovery db = do
  a ←
      get_address (first_label o.identity.source_geographic_labels)
        (non_empty o.identity.raw_address_text) row db
  b ← get_building a.0 a.1
  elim (label_of o.identity.raw_unit_label o.identity.normalized_unit_candidate) [
    | none ↦ create_without_unit now b.0 o row discovery b.1
    | some label ↦ create_with_unit now b.0 label o row discovery b.1
  ]
