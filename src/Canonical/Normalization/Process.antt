-- ===== src/Canonical/Normalization/Process.antt =====
-- `process_observation` of canonical/normalization.py.
use nyc_rental_listing_agent.Base.{ℕ, Bool, true, false, none, some, [], if◌then◌else◌}
use nyc_rental_listing_agent.Base.Result.{Result, ok, err, lookup_error, ◌>>=◌}
use nyc_rental_listing_agent.Base.Table.{find_row}
use nyc_rental_listing_agent.Enums.Listing.{DiscoveryMethod}
use nyc_rental_listing_agent.Enums.Ops.{ParseStatus}
use nyc_rental_listing_agent.Model.Listings.{SourceObservation}
use nyc_rental_listing_agent.Model.Database.{Database}
use nyc_rental_listing_agent.Canonical.Normalization.Identity.{
  NormalizationOutcome, Classification, find_link,
}
use nyc_rental_listing_agent.Canonical.Normalization.Create.{create_canonical}
use nyc_rental_listing_agent.Canonical.Normalization.Update.{observation_is, update_existing}

abbrev pub is_parsed : ParseStatus → Bool
is_parsed ParseStatus.valid = true
is_parsed ParseStatus.partial = true
is_parsed _ = false

abbrev pub not_resolved : NormalizationOutcome
not_resolved = record {
  classification = Classification.unresolved;
  canonical_listing_id = none;
  listing_source_link_id = none;
  events_emitted = [];
}

-- The observation's row, once it was found and parsed.
unfoldable pub process_row :
    (now : ℕ)
    → SourceObservation
    → DiscoveryMethod
    → Database
    → Result (NormalizationOutcome × Database)
unfolding find_link create_canonical update_existing
process_row now row discovery db = do
  known ← find_link row db
  elim known [
    | none ↦ create_canonical now row.parsed_payload row discovery db
    | some k ↦ update_existing now row.parsed_payload row k db
  ]

unfoldable pub process_observation :
    (now source_observation_id : ℕ)
    → DiscoveryMethod
    → Database
    → Result (NormalizationOutcome × Database)
unfolding process_row
process_observation now i discovery db = do
  row ← elim (find_row (observation_is i) db.observations) [
    | none ↦ err lookup_error
    | some o ↦ ok o
  ]
  if is_parsed row.parse_status then process_row now row discovery db else ok (not_resolved, db)
