-- ===== src/Canonical/Normalization/Places.antt =====
-- The address, the building and the unit of an observation, in `_create_canonical` of
-- canonical/normalization.py.
use Prim.Native.String.{◌++◌ as ◌text++◌}
use nyc_rental_listing_agent.Base.{
  ℕ, ◌+◌, String, Bool, false, ◌&&◌, ◌||◌, not, Option, none, some, List, [], ◌∷◌, ◌++◌, ltb, ◌==◌,
  str_eq, is_some_eq, if◌then◌else◌,
}
use nyc_rental_listing_agent.Base.Lists.{take}
use nyc_rental_listing_agent.Base.Text.{codes, same_text}
use nyc_rental_listing_agent.Base.Result.{Result, ok, ◌>>=◌}
use nyc_rental_listing_agent.Base.Table.{select, scalar_one_or_none, order_by}
use nyc_rental_listing_agent.Enums.Listing.{LayoutClass, LocationPrecision, BoundaryStatus}
use nyc_rental_listing_agent.Model.Listings.{
  SourceObservation, Address, Building, RentalUnit, CanonicalListing,
}
use nyc_rental_listing_agent.Model.Database.{Database}
use nyc_rental_listing_agent.Canonical.Fingerprint.{unit_fingerprint, address_fingerprint}
use nyc_rental_listing_agent.Canonical.Merge.{is_merged}

abbrev pub first_label : List String → String
first_label [] = "UNRESOLVED"
first_label (l ∷ rest) = l

abbrev pub area_of : String → String
area_of locality =
    if str_eq locality "Jersey City" || str_eq locality "Hoboken" || str_eq locality "Fort Lee"
    then "NJ"
    else "NY"

abbrev pub fingerprint_is : List ℕ → Option (List ℕ) → Bool
fingerprint_is f none = false
fingerprint_is f (some g) = same_text g f

abbrev pub new_address : (id : ℕ) → Option String → (locality formatted : String) → List ℕ → Address
new_address id line locality formatted fingerprint = record {
  address_id = id;
  address_line_1 = line;
  locality = locality;
  administrative_area = area_of locality;
  formatted_address = formatted;
  address_fingerprint = some fingerprint;
  location_precision = LocationPrecision.unknown;
  boundary_status = BoundaryStatus.unresolved;
}

abbrev pub add_address : Address → Database → Address × Database
add_address a db = (a, record db { next_id = db.next_id + 1; addresses = db.addresses ++ a ∷ [] })

-- `if raw_address`: a text that is neither NULL nor empty.
abbrev pub non_empty : Option String → Option String
non_empty none = none
non_empty (some s) = if str_eq s "" then none else some s

unfoldable pub get_address :
    (locality : String) (raw : Option String)
    → SourceObservation
    → Database
    → Result (Address × Database)
unfolding address_fingerprint same_text
get_address locality none row db = ok (
    add_address
      (new_address db.next_id none locality (◌text++◌ "[address unresolved] " row.source_url)
        (codes "unresolved:" ++ codes row.source_url))
      db)
get_address locality (some raw) row db = do
  let fingerprint = address_fingerprint (codes raw)
  known ←
      scalar_one_or_none
        (select (λ a. fingerprint_is fingerprint a.address_fingerprint) db.addresses)
  ok (elim known [
    | some a ↦ (a, db)
    | none ↦ add_address (new_address db.next_id (some raw) locality raw fingerprint) db
  ])

unfoldable pub get_building : Address → Database → Result (Building × Database)
get_building a db = do
  known ← scalar_one_or_none (select (λ b. b.address_id == a.address_id) db.buildings)
  let fresh : Building = record { building_id = db.next_id; address_id = a.address_id }
  ok (elim known [
    | some b ↦ (b, db)
    | none ↦ (fresh, record db { next_id = db.next_id + 1; buildings = db.buildings ++ fresh ∷ [] })
  ])

-- `raw_unit_label or normalized_unit_candidate`
abbrev pub label_of : (raw normalized : Option String) → Option String
label_of raw normalized = elim (non_empty raw) [ some l ↦ some l | none ↦ non_empty normalized ]

-- The unit with the label in the building, if there is one already.
unfoldable pub find_unit : Building → (label : String) → Database → Result (Option RentalUnit)
unfolding unit_fingerprint same_text
find_unit b label db = scalar_one_or_none (
    select
      (λ u.
        u.building_id == b.building_id
        && fingerprint_is (unit_fingerprint (codes label)) u.unit_fingerprint)
      db.units)

abbrev pub new_unit : (id : ℕ) → Building → (label : String) → LayoutClass → RentalUnit
new_unit id b label layout = record {
  unit_id = id;
  building_id = b.building_id;
  canonical_unit_label = some label;
  unit_fingerprint = some (unit_fingerprint (codes label));
  layout_class = layout;
}

-- The listing of the unit that was seen last, of those that are not merged.
unfoldable pub listing_of_unit : RentalUnit → Database → Result (Option CanonicalListing)
unfolding order_by
listing_of_unit u db = scalar_one_or_none (
    take 1 (
      order_by (λ a b. ltb b.last_seen_at a.last_seen_at)
        (select (λ l. is_some_eq l.unit_id u.unit_id && not (is_merged l.lifecycle_status))
          db.listings)))
