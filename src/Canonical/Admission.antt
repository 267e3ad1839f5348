-- ===== src/Canonical/Admission.antt =====
-- canonical/admission.py: candidates become active or excluded, or are held. The rows of the query are
-- processed in the order of the table; `now` is one time for the call.
pub mod Gate
use nyc_rental_listing_agent.Base.{
  ℕ, ◌+◌, String, Bool, true, false, ◌&&◌, ◌||◌, not, Option, none, some, List, [], ◌∷◌, ◌==◌,
  str_eq, if◌then◌else◌,
}
use nyc_rental_listing_agent.Base.Lists.{take}
use nyc_rental_listing_agent.Base.Table.{select, exists, update_where, find_row}
use nyc_rental_listing_agent.Enums.Listing.{
  LayoutClass, LifecycleStatus, CanonicalResolutionStatus, LinkStatus, LocationPrecision,
  BoundaryStatus, ListingEventType, same_boundary, same_layout,
}
use nyc_rental_listing_agent.Model.Listings.{
  CanonicalListing, ListingSourceLink, Address, Building, of_rule,
}
use nyc_rental_listing_agent.Model.Database.{Database}
use nyc_rental_listing_agent.Canonical.Events.{emit}
use nyc_rental_listing_agent.Canonical.Merge.{listing_is}

-- `_evaluate_one` returns a text: ACTIVATED, EXCLUDED, or why the listing is held.
pub data Outcome : Type 0 where
  activated excluded : Outcome
  held : String → Outcome

pub record AdmissionSummary : Type 0 where
  pub evaluated : ℕ
  pub activated : ℕ
  pub excluded : ℕ
  pub still_candidate : ℕ
  pub reasons_held : List (String × ℕ)

abbrev pub admission_rule : String
admission_rule = "admission-v1"

abbrev pub admissible_layout : LayoutClass → Bool
admissible_layout LayoutClass.studio = true
admissible_layout LayoutClass.one_bedroom = true
admissible_layout LayoutClass.two_bedroom = true
admissible_layout _ = false

abbrev pub acceptable_precision : LocationPrecision → Bool
acceptable_precision LocationPrecision.rooftop_or_entrance = true
acceptable_precision LocationPrecision.building = true
acceptable_precision LocationPrecision.parcel = true
acceptable_precision LocationPrecision.interpolated_address = true
acceptable_precision _ = false

abbrev pub blocking_resolution : CanonicalResolutionStatus → Bool
blocking_resolution CanonicalResolutionStatus.conflicting = true
blocking_resolution CanonicalResolutionStatus.review_required = true
blocking_resolution _ = false

abbrev pub active_link_of : ℕ → ListingSourceLink → Bool
active_link_of i k =
    k.canonical_listing_id == i && elim k.link_status [ LinkStatus.active ↦ true | _ ↦ false ]

abbrev pub set_lifecycle : ℕ → LifecycleStatus → Database → Database
set_lifecycle i status db = record db {
  listings = update_where (listing_is i) (λ l. record l { lifecycle_status = status }) db.listings;
}

abbrev admission_event : ℕ → ListingEventType → ℕ → Option String → Database → Database
admission_event i event_type now reason = emit (record {
  canonical_listing_id = i;
  event_type = event_type;
  event_time = now;
  source_observation_id = none;
  reason = reason;
  key_suffix = of_rule admission_rule;
})

unfoldable pub out_of_scope : CanonicalListing → Address → Bool
unfolding same_layout same_boundary
out_of_scope listing address =
    same_layout listing.layout_class LayoutClass.out_of_scope
    || same_boundary address.boundary_status BoundaryStatus.out_of_scope

unfoldable pub evaluate_one : (now : ℕ) → CanonicalListing → Address → Database → Outcome × Database
unfolding out_of_scope same_layout same_boundary
evaluate_one now listing address db =
    let i = listing.canonical_listing_id in
    if out_of_scope listing address
    then (
      Outcome.excluded,
      admission_event i ListingEventType.excluded now
          (some (
            if same_layout listing.layout_class LayoutClass.out_of_scope
            then "layout_out_of_scope"
            else "geography_out_of_scope"))
          (set_lifecycle i LifecycleStatus.excluded db),
    )
    else if not (admissible_layout listing.layout_class)
    then (held "layout_unresolved", db)
    else if not (same_boundary address.boundary_status BoundaryStatus.in_scope)
    then (held "geography_unresolved", db)
    else if not (acceptable_precision address.location_precision)
    then (held "precision_insufficient", db)
    else if blocking_resolution listing.canonical_resolution_status
    then (held "identity_blocked", db)
    else if not (exists (active_link_of i) db.links)
    then (held "no_active_source_link", db)
    else (
      Outcome.activated,
      admission_event i ListingEventType.activated now none
          (set_lifecycle i LifecycleStatus.active db),
    )

abbrev pub awaits_admission : CanonicalListing → Bool
awaits_admission l = elim l.lifecycle_status [
  | LifecycleStatus.candidate ↦ true
  | LifecycleStatus.reappeared ↦ true
  | _ ↦ false
]

-- The join with the building and its address; a listing without them is in no row.
abbrev pub join_address : Database → List CanonicalListing → List (CanonicalListing × Address)
join_address db [] = []
join_address db (l ∷ rest) =
    let rows = join_address db rest in
    elim (find_row (λ b. b.building_id == l.building_id) db.buildings) [
      | none ↦ rows
      | some b ↦ elim (find_row (λ a. a.address_id == b.address_id) db.addresses) [
        | none ↦ rows
        | some a ↦ (l, a) ∷ rows
      ]
    ]

-- `reasons_held[reason] += 1`
abbrev pub bump : String → List (String × ℕ) → List (String × ℕ)
bump reason [] = (reason, 1) ∷ []
bump reason ((r, n) ∷ rest) =
    let below = bump reason rest in if str_eq r reason then (r, n + 1) ∷ rest else (r, n) ∷ below

abbrev pub tally : Outcome → AdmissionSummary → AdmissionSummary
tally Outcome.activated s = record s { evaluated = s.evaluated + 1; activated = s.activated + 1 }
tally Outcome.excluded s = record s { evaluated = s.evaluated + 1; excluded = s.excluded + 1 }
tally (held reason) s = record s {
  evaluated = s.evaluated + 1;
  still_candidate = s.still_candidate + 1;
  reasons_held = bump reason s.reasons_held;
}

unfoldable pub evaluate_rows :
    (now : ℕ)
    → List (CanonicalListing × Address)
    → AdmissionSummary
    → Database
    → AdmissionSummary × Database
unfolding evaluate_one
evaluate_rows now [] summary db = (summary, db)
evaluate_rows now ((l, a) ∷ rows) summary db =
    let (outcome, db') = evaluate_one now l a db in
    evaluate_rows now rows (tally outcome summary) db'

abbrev pub no_admissions : AdmissionSummary
no_admissions = record {
  evaluated = 0;
  activated = 0;
  excluded = 0;
  still_candidate = 0;
  reasons_held = [];
}

unfoldable pub evaluate_candidates : (now limit : ℕ) → Database → AdmissionSummary × Database
unfolding evaluate_rows
evaluate_candidates now limit db =
    evaluate_rows now (take limit (join_address db (select awaits_admission db.listings)))
      no_admissions db
