-- ===== src/Model/Listings.antt =====
-- db/models/canonical.py, addresses.py and the observations of sources.py: what was observed, and
-- the canonical listings that it supports. Money is in minor units.
use nyc_rental_listing_agent.Base.{ℕ, Bool, String, Option, List}
use nyc_rental_listing_agent.Enums.Listing.{
  LayoutClass, AvailabilityStatus, LifecycleStatus, LaundryType, CanonicalResolutionStatus,
  LinkStatus, IdentityMethod, IdentityConfidence, MergeReasonCode, PerformedByType,
  DuplicateCandidateStatus, LocationPrecision, BoundaryStatus, DiscoveryMethod, ListingEventType,
}
use nyc_rental_listing_agent.Enums.Facts.{Confidence}
use nyc_rental_listing_agent.Enums.Ops.{ParseStatus}

pub record IdentityBlock : Type 0 where
  pub raw_address_text : Option String
  pub raw_unit_label : Option String
  pub normalized_unit_candidate : Option String
  pub source_geographic_labels : List String

pub record PricingBlock : Type 0 where
  pub source_price_text : Option String
  pub monthly_rent_minor : Option ℕ

-- Rooms are counted in tenths.
pub record LayoutBlock : Type 0 where
  pub raw_layout_text : Option String
  pub source_bedrooms : Option ℕ
  pub source_bathrooms : Option ℕ
  pub proposed_layout_class : LayoutClass
  pub confidence : Confidence

pub record AvailabilityBlock : Type 0 where
  pub source_status_text : Option String
  pub proposed_status : AvailabilityStatus

pub record LaundryBlock : Type 0 where
  pub proposed_laundry_type : LaundryType
  pub evidence_text : Option String
  pub confidence : Confidence

pub record ParsedSourceObservation : Type 0 where
  pub source_native_id : Option String
  pub source_url : String
  pub observed_at : ℕ
  pub retrieved_at : ℕ
  pub identity : IdentityBlock
  pub pricing : PricingBlock
  pub layout : LayoutBlock
  pub availability : AvailabilityBlock
  pub description : Option String
  pub laundry : LaundryBlock
  pub parse_status : ParseStatus

pub record SourceObservation : Type 0 where
  pub source_observation_id : ℕ
  pub source_id : ℕ
  pub source_run_id : ℕ
  pub source_native_id : Option String
  pub source_url : String
  pub observed_at : ℕ
  pub retrieved_at : ℕ
  pub content_hash : String
  pub parsed_payload : ParsedSourceObservation
  pub parse_status : ParseStatus

pub record Address : Type 0 where
  pub address_id : ℕ
  pub address_line_1 : Option String
  pub locality : String
  pub administrative_area : String
  pub formatted_address : String
  pub address_fingerprint : Option (List ℕ)
  pub location_precision : LocationPrecision
  pub boundary_status : BoundaryStatus

pub record Building : Type 0 where
  pub building_id : ℕ
  pub address_id : ℕ

-- `Unit` of the source.
pub record RentalUnit : Type 0 where
  pub unit_id : ℕ
  pub building_id : ℕ
  pub canonical_unit_label : Option String
  pub unit_fingerprint : Option (List ℕ)
  pub layout_class : LayoutClass

pub record CanonicalListing : Type 0 where
  pub canonical_listing_id : ℕ
  pub building_id : ℕ
  pub unit_id : Option ℕ
  pub layout_class : LayoutClass
  pub bedroom_count : Option ℕ
  pub bathroom_count : Option ℕ
  pub monthly_rent_minor : Option ℕ
  pub availability_status : AvailabilityStatus
  pub lifecycle_status : LifecycleStatus
  pub laundry_type : LaundryType
  pub indoor_laundry_badge_eligible : Bool
  pub description_current : Option String
  pub first_seen_at : ℕ
  pub last_seen_at : ℕ
  pub last_material_change_at : ℕ
  pub inactive_at : Option ℕ
  pub canonical_resolution_status : CanonicalResolutionStatus

pub record ListingSourceLink : Type 0 where
  pub listing_source_link_id : ℕ
  pub canonical_listing_id : ℕ
  pub source_id : ℕ
  pub source_native_id : Option String
  pub source_url : String
  pub first_observation_id : ℕ
  pub latest_observation_id : ℕ
  pub first_seen_at : ℕ
  pub last_seen_at : ℕ
  pub link_status : LinkStatus
  pub discovery_method : DiscoveryMethod
  pub identity_method : IdentityMethod
  pub identity_confidence : IdentityConfidence

-- `evidence` of a merge: the moved links, and the candidate that it resolves.
pub record MergeEvidence : Type 0 where
  pub duplicate_candidate_id : Option ℕ
  pub moved_link_ids : List ℕ

pub record CanonicalMerge : Type 0 where
  pub canonical_merge_id : ℕ
  pub source_listing_id : ℕ
  pub target_listing_id : ℕ
  pub reason_code : MergeReasonCode
  pub evidence : MergeEvidence
  pub performed_by_type : PerformedByType
  pub performed_by : Option String
  pub performed_at : ℕ
  pub reversed_at : Option ℕ

pub record DuplicateCandidate : Type 0 where
  pub duplicate_candidate_id : ℕ
  pub listing_a_id : ℕ
  pub listing_b_id : ℕ
  pub rent_delta_minor : ℕ
  pub status : DuplicateCandidateStatus
  pub resolved_by : Option String
  pub resolved_at : Option ℕ

-- The last part of an idempotency key `listing:event:suffix`. A UUID holds no colon and no rule
-- version is one, so that two keys are the same text exactly when these are the same.
pub data KeySuffix : Type 0 where
  of_id : ℕ → KeySuffix
  of_rule : String → KeySuffix

pub record ListingEvent : Type 0 where
  pub canonical_listing_id : ℕ
  pub event_type : ListingEventType
  pub event_time : ℕ
  pub source_observation_id : Option ℕ
  pub reason : Option String
  pub key_suffix : KeySuffix
