-- ===== src/Canonical/Normalization/Identity.antt =====
-- `_find_link`, `_emit_event`, `_record_listing_facts` and `_attach_cross_source_link` of
-- canonical/normalization.py.
use nyc_rental_listing_agent.Base.{
  ℕ, ◌+◌, max, String, Bool, false, ◌&&◌, not, Option, none, some, List, [], ◌∷◌, ◌++◌, ◌==◌,
  str_eq, is_none, if◌then◌else◌,
}
use nyc_rental_listing_agent.Base.Result.{Result, ok, ◌>>=◌}
use nyc_rental_listing_agent.Base.Table.{select, update_where, scalar_one_or_none}
use nyc_rental_listing_agent.Enums.Listing.{
  LayoutClass, AvailabilityStatus, LaundryType, LinkStatus, IdentityMethod, IdentityConfidence,
  DiscoveryMethod, ListingEventType, same_layout, same_availability, same_laundry, layout_value,
  availability_value, laundry_value,
}
use nyc_rental_listing_agent.Enums.Facts.{FactEntityType, ValueStatus, DerivationType, Confidence}
use nyc_rental_listing_agent.Model.Listings.{
  ParsedSourceObservation, SourceObservation, CanonicalListing, ListingSourceLink, of_id,
}
use nyc_rental_listing_agent.Model.Evidence.{Value, number, text, null}
use nyc_rental_listing_agent.Model.Database.{Database}
use nyc_rental_listing_agent.Canonical.Events.{append_event}
use nyc_rental_listing_agent.Canonical.Facts.{Fact, Evidence, record_fact}
use nyc_rental_listing_agent.Canonical.Merge.{listing_is}

pub data Classification : Type 0 where
  is_new unchanged material_change unresolved matched_existing : Classification

pub record NormalizationOutcome : Type 0 where
  pub classification : Classification
  pub canonical_listing_id : Option ℕ
  pub listing_source_link_id : Option ℕ
  pub events_emitted : List ListingEventType

abbrev pub found : Classification → ListingSourceLink → List ListingEventType → NormalizationOutcome
found c link emitted = record {
  classification = c;
  canonical_listing_id = some link.canonical_listing_id;
  listing_source_link_id = some link.listing_source_link_id;
  events_emitted = emitted;
}

abbrev pub native_is : String → Option String → Bool
native_is i none = false
native_is i (some j) = str_eq j i

-- WHERE of `_find_link`: the native identifier where the observation has one, else the URL.
abbrev pub names_link : (native_id : Option String) (url : String) → ListingSourceLink → Bool
names_link (some i) url k = native_is i k.source_native_id
names_link none url k = str_eq k.source_url url

unfoldable pub same_identity_as : SourceObservation → ListingSourceLink → Bool
same_identity_as row k =
    k.source_id == row.source_id && names_link row.source_native_id row.source_url k

unfoldable pub find_link : SourceObservation → Database → Result (Option ListingSourceLink)
unfolding same_identity_as
find_link row db = scalar_one_or_none (select (same_identity_as row) db.links)

-- `_emit_event`: the types that were inserted, none or one.
unfoldable pub emit_for :
    (listing_id : ℕ)
    → ListingEventType
    → SourceObservation
    → Database
    → List ListingEventType × Database
unfolding append_event
emit_for listing_id event_type row db =
    let (inserted, events) =
      append_event
        (record {
          canonical_listing_id = listing_id;
          event_type = event_type;
          event_time = row.observed_at;
          source_observation_id = some row.source_observation_id;
          reason = none;
          key_suffix = of_id row.source_observation_id;
        })
        db.events in
    (if inserted then event_type ∷ [] else [], record db { events = events })

-- A call of `record` in `_record_listing_facts`, where `stated` is the test before it.
pub record Statement : Type 0 where
  pub stated : Bool
  pub fact_key : String
  pub value : Value
  pub confidence : Confidence
  pub evidence : Option String

abbrev pub fact_of : (listing_id : ℕ) → Statement → Fact
fact_of i s = record { entity_type = FactEntityType.listing; entity_id = i; fact_key = s.fact_key }

abbrev pub evidence_of : SourceObservation → Statement → Evidence
evidence_of row s = record {
  value = some s.value;
  value_status = ValueStatus.asserted;
  derivation_type = DerivationType.source_text;
  confidence = s.confidence;
  source_observation_id = some row.source_observation_id;
  evidence_text = s.evidence;
}

unfoldable pub record_all :
    (now listing_id : ℕ) → SourceObservation → List Statement → Database → Result Database
unfolding record_fact
record_all now i row [] db = ok db
record_all now i row (s ∷ rest) db = do
  recorded ← if s.stated then record_fact now (fact_of i s) (evidence_of row s) db else ok (i, db)
  record_all now i row rest recorded.1

abbrev pub amount : Option ℕ → Value
amount none = null
amount (some r) = number r

unfoldable pub statements : ParsedSourceObservation → List Statement
unfolding same_layout same_laundry same_availability layout_value laundry_value availability_value
statements o =
    record {
      stated = not (is_none o.pricing.monthly_rent_minor);
      fact_key = "monthly_rent_minor";
      value = amount o.pricing.monthly_rent_minor;
      confidence = Confidence.medium;
      evidence = o.pricing.source_price_text;
    }
    ∷ record {
      stated = not (same_layout o.layout.proposed_layout_class LayoutClass.unknown);
      fact_key = "layout_class";
      value = text (layout_value o.layout.proposed_layout_class);
      confidence = o.layout.confidence;
      evidence = o.layout.raw_layout_text;
    }
    ∷ record {
      stated = not (same_laundry o.laundry.proposed_laundry_type LaundryType.unknown);
      fact_key = "laundry_type";
      value = text (laundry_value o.laundry.proposed_laundry_type);
      confidence = o.laundry.confidence;
      evidence = o.laundry.evidence_text;
    }
    ∷ record {
      stated = not (same_availability o.availability.proposed_status AvailabilityStatus.unknown);
      fact_key = "availability_status";
      value = text (availability_value o.availability.proposed_status);
      confidence = Confidence.medium;
      evidence = o.availability.source_status_text;
    }
    ∷ []

unfoldable pub record_listing_facts :
    (now listing_id : ℕ) → ParsedSourceObservation → SourceObservation → Database → Result Database
unfolding record_all statements
record_listing_facts now i o row db = record_all now i row (statements o) db

abbrev pub new_link :
    (id listing_id : ℕ)
    → SourceObservation
    → DiscoveryMethod
    → IdentityMethod
    → IdentityConfidence
    → ListingSourceLink
new_link id listing_id row discovery method confidence = record {
  listing_source_link_id = id;
  canonical_listing_id = listing_id;
  source_id = row.source_id;
  source_native_id = row.source_native_id;
  source_url = row.source_url;
  first_observation_id = row.source_observation_id;
  latest_observation_id = row.source_observation_id;
  first_seen_at = row.observed_at;
  last_seen_at = row.observed_at;
  link_status = LinkStatus.active;
  discovery_method = discovery;
  identity_method = method;
  identity_confidence = confidence;
}

abbrev pub add_link : ListingSourceLink → Database → Database
add_link k db = record db { next_id = db.next_id + 1; links = db.links ++ k ∷ [] }

abbrev pub seen_at : (listing_id time : ℕ) → Database → Database
seen_at i time db = record db {
  listings =
      update_where (listing_is i) (λ l. record l { last_seen_at = max l.last_seen_at time })
        db.listings;
}

unfoldable pub attach_cross_source_link :
    SourceObservation
    → CanonicalListing
    → DiscoveryMethod
    → IdentityMethod
    → IdentityConfidence
    → Database
    → NormalizationOutcome × Database
attach_cross_source_link row listing discovery method confidence db =
    let k = new_link db.next_id listing.canonical_listing_id row discovery method confidence in
    (
      found Classification.matched_existing k [],
      seen_at listing.canonical_listing_id row.observed_at (add_link k db),
    )
