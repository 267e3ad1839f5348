-- ===== src/Canonical/Normalization/Update.antt =====
-- `_update_existing` and `_touch_freshness` of canonical/normalization.py.
use nyc_rental_listing_agent.Base.{
  ℕ, String, Bool, true, false, ◌&&◌, not, Option, none, some, List, [], ◌∷◌, ◌++◌, leb, ◌==◌,
  str_eq, is_some_eq, if◌then◌else◌,
}
use nyc_rental_listing_agent.Base.Result.{Result, ok, err, assertion_error, ◌>>=◌}
use nyc_rental_listing_agent.Base.Table.{update_where, find_row}
use nyc_rental_listing_agent.Enums.Listing.{
  AvailabilityStatus, LaundryType, ListingEventType, same_availability, same_laundry,
  availability_value, laundry_value,
}
use nyc_rental_listing_agent.Enums.Facts.{FactEntityType, ValidationStatus, ResolutionStatus}
use nyc_rental_listing_agent.Model.Listings.{
  ParsedSourceObservation, SourceObservation, CanonicalListing, ListingSourceLink,
}
use nyc_rental_listing_agent.Model.Evidence.{Value, number, text, null}
use nyc_rental_listing_agent.Model.Database.{Database}
use nyc_rental_listing_agent.Validation.Laundry.{derive_badge_eligibility}
use nyc_rental_listing_agent.Canonical.Facts.{active_override, raise_conflict_with_override}
use nyc_rental_listing_agent.Canonical.Merge.{listing_is, link_is}
use nyc_rental_listing_agent.Canonical.Normalization.Identity.{
  NormalizationOutcome, Classification, found, emit_for, record_listing_facts, seen_at, amount,
}

abbrev pub observation_is : ℕ → SourceObservation → Bool
observation_is i o = o.source_observation_id == i

unfoldable pub touch_freshness :
    ListingSourceLink → (listing_id : ℕ) → SourceObservation → Database → Database
touch_freshness k listing_id row db =
    let touched = record db {
      links =
          update_where (link_is k.listing_source_link_id)
            (λ x. record x {
              last_seen_at = row.observed_at;
              latest_observation_id = row.source_observation_id;
            })
            db.links;
    } in
    seen_at listing_id row.observed_at (if leb k.last_seen_at row.observed_at then touched else db)

-- `incoming != override_value`
abbrev pub differs : Value → Option Value → Bool
differs (number a) (some (number b)) = not (a == b)
differs (text a) (some (text b)) = not (str_eq a b)
differs null (some null) = false
differs null none = false
differs _ _ = true

unfoldable pub override_blocks :
    (listing_id : ℕ) → (fact_key : String) → Value → Database → Result (Bool × Database)
unfolding active_override raise_conflict_with_override
override_blocks i key incoming db = do
  o ←
      active_override
        (record { entity_type = FactEntityType.listing; entity_id = i; fact_key = key }) db
  ok (elim o [
    | none ↦ (false, db)
    | some h ↦ (
      true,
      if differs incoming h.override_value
          then raise_conflict_with_override h i key incoming db
          else db,
    )
  ])

-- The comparison of one field: whether it changed, the event and the write.
pub record Change : Type 0 where
  pub changed : Bool
  pub fact_key : String
  pub incoming : Value
  pub event_type : ListingEventType
  pub write : CanonicalListing → CanonicalListing

-- The event and the write of a change that no override blocks.
unfoldable pub apply_change :
    (listing_id : ℕ)
    → Change
    → SourceObservation
    → Database
    → Result (List ListingEventType × Database)
unfolding override_blocks emit_for
apply_change i c row db = do
  blocked ← override_blocks i c.fact_key c.incoming db
  let (emitted, told) = emit_for i c.event_type row blocked.1
  ok (
      if blocked.0
      then ([], blocked.1)
      else (emitted, record told { listings = update_where (listing_is i) c.write told.listings }))

unfoldable pub apply_all :
    (listing_id : ℕ)
    → List Change
    → SourceObservation
    → Database
    → Result (List ListingEventType × Database)
unfolding apply_change
apply_all i [] row db = ok ([], db)
apply_all i (c ∷ rest) row db = do
  a ← if c.changed then apply_change i c row db else ok ([], db)
  b ← apply_all i rest row a.1
  ok (a.0 ++ b.0, b.1)

abbrev pub rent_changed : (new old : Option ℕ) → Bool
rent_changed none old = false
rent_changed (some r) old = not (is_some_eq old r)

unfoldable pub changes : CanonicalListing → ParsedSourceObservation → List Change
unfolding same_availability same_laundry availability_value laundry_value derive_badge_eligibility
changes l o =
    let rent = o.pricing.monthly_rent_minor in
    let availability = o.availability.proposed_status in
    let laundry = o.laundry.proposed_laundry_type in
    record {
      changed = rent_changed rent l.monthly_rent_minor;
      fact_key = "monthly_rent_minor";
      incoming = amount rent;
      event_type = ListingEventType.price_changed;
      write = λ x. record x { monthly_rent_minor = rent };
    }
    ∷ record {
      changed =
          not (same_availability availability AvailabilityStatus.unknown)
          && not (same_availability availability l.availability_status);
      fact_key = "availability_status";
      incoming = text (availability_value availability);
      event_type = ListingEventType.availability_changed;
      write = λ x. record x { availability_status = availability };
    }
    ∷ record {
      changed =
          not (same_laundry laundry LaundryType.unknown)
          && not (same_laundry laundry l.laundry_type);
      fact_key = "laundry_type";
      incoming = text (laundry_value laundry);
      event_type = ListingEventType.laundry_changed;
      write = λ x. record x {
        laundry_type = laundry;
        indoor_laundry_badge_eligible =
            derive_badge_eligibility laundry ValidationStatus.pending ResolutionStatus.resolved
              false;
      };
    }
    ∷ []

abbrev pub classified : ListingSourceLink → List ListingEventType → NormalizationOutcome
classified k [] = found Classification.unchanged k []
classified k (x ∷ xs) = found Classification.material_change k (x ∷ xs)

-- The last lines: a material change is dated.
unfoldable pub conclude :
    ListingSourceLink
    → SourceObservation
    → List ListingEventType
    → Database
    → NormalizationOutcome × Database
conclude k row [] db = (classified k [], db)
conclude k row (x ∷ xs) db = (
  classified k (x ∷ xs),
  record db {
    listings =
        update_where (listing_is k.canonical_listing_id)
          (λ l. record l { last_material_change_at = row.observed_at }) db.listings;
  },
)

abbrev pub has_hash : Option SourceObservation → String → Bool
has_hash none hash = false
has_hash (some o) hash = str_eq o.content_hash hash

-- The part of `_update_existing` for a content that is new.
unfoldable pub apply_observation :
    (now : ℕ)
    → CanonicalListing
    → ParsedSourceObservation
    → SourceObservation
    → ListingSourceLink
    → Database
    → Result (NormalizationOutcome × Database)
unfolding record_listing_facts apply_all changes conclude
apply_observation now l o row k db = do
  recorded ← record_listing_facts now k.canonical_listing_id o row db
  changed ← apply_all k.canonical_listing_id (changes l o) row recorded
  ok (conclude k row changed.0 changed.1)

unfoldable pub update_existing :
    (now : ℕ)
    → ParsedSourceObservation
    → SourceObservation
    → ListingSourceLink
    → Database
    → Result (NormalizationOutcome × Database)
unfolding touch_freshness apply_observation
update_existing now o row k db = do
  let previous = find_row (observation_is k.latest_observation_id) db.observations
  l ← elim (find_row (listing_is k.canonical_listing_id) db.listings) [
    | none ↦ err assertion_error
    | some l ↦ ok l
  ]
  let seen = touch_freshness k k.canonical_listing_id row db
  if k.latest_observation_id == row.source_observation_id
      then ok (found Classification.unchanged k [], db)
      else if has_hash previous row.content_hash
      then ok (found Classification.unchanged k [], seen)
      else apply_observation now l o row k seen
