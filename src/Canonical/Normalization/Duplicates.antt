-- ===== src/Canonical/Normalization/Duplicates.antt =====
-- `_strong_multi_field_match` and `_generate_duplicate_candidates` of canonical/normalization.py. UUIDs
-- compare as their texts do.
use nyc_rental_listing_agent.Base.{
  ℕ, ◌+◌, ◌-◌, ◌*◌, min, max, Bool, true, false, ◌&&◌, not, Option, none, some, List, [], ◌∷◌, ◌++◌,
  ltb, ◌==◌, is_none, is_some_eq, if◌then◌else◌,
}
use nyc_rental_listing_agent.Base.Table.{select, exists}
use nyc_rental_listing_agent.Enums.Listing.{
  LayoutClass, LifecycleStatus, DuplicateCandidateStatus, same_layout,
}
use nyc_rental_listing_agent.Enums.Facts.{
  FactEntityType, ReviewIssueType, ReviewIssueSeverity, ReviewIssueStatus,
}
use nyc_rental_listing_agent.Model.Listings.{
  ParsedSourceObservation, SourceObservation, Building, CanonicalListing, ListingSourceLink,
}
use nyc_rental_listing_agent.Model.Evidence.{duplicate}
use nyc_rental_listing_agent.Model.Database.{Database}
use nyc_rental_listing_agent.Canonical.Merge.{is_merged}

abbrev pub is_gone : LifecycleStatus → Bool
is_gone LifecycleStatus.merged = true
is_gone LifecycleStatus.inactive = true
is_gone _ = false

abbrev pub no_class : LayoutClass → Bool
no_class LayoutClass.unknown = true
no_class LayoutClass.conflicting = true
no_class _ = false

-- WHERE of `_strong_multi_field_match`.
unfoldable pub is_strong_match :
    Building
    → LayoutClass
    → (rent : ℕ) → SourceObservation
    → List ListingSourceLink
    → CanonicalListing
    → Bool
unfolding same_layout
is_strong_match b layout rent row links l =
    l.building_id == b.building_id
    && same_layout l.layout_class layout
    && is_some_eq l.monthly_rent_minor rent
    && is_none l.unit_id
    && not (is_gone l.lifecycle_status)
    && not (
        exists
          (λ k. k.canonical_listing_id == l.canonical_listing_id && k.source_id == row.source_id)
          links)

-- `matches[0] if len(matches) == 1 else None`
abbrev pub only_one {ℓ} : {A : Type ℓ} → List A → Option A
only_one [] = none
only_one (x ∷ []) = some x
only_one (x ∷ y ∷ rest) = none

unfoldable pub strong_multi_field_match :
    Building → ParsedSourceObservation → SourceObservation → Database → Option CanonicalListing
unfolding is_strong_match
strong_multi_field_match b o row db =
    let layout = o.layout.proposed_layout_class in
    if no_class layout then none else elim o.pricing.monthly_rent_minor [
      | none ↦ none
      | some rent ↦ only_one (select (is_strong_match b layout rent row db.links) db.listings)
    ]

-- |a - b|
abbrev pub distance : ℕ → ℕ → ℕ
distance a b = (a - b) + (b - a)

-- The other listings of the building, with the layout and a rent within the tolerance, which is a
-- fiftieth (0.02) of the rent.
unfoldable pub is_similar : Building → CanonicalListing → (rent : ℕ) → CanonicalListing → Bool
unfolding same_layout
is_similar b listing rent other =
    other.building_id == b.building_id
    && not (other.canonical_listing_id == listing.canonical_listing_id)
    && same_layout other.layout_class listing.layout_class
    && not (is_merged other.lifecycle_status)
    && elim other.monthly_rent_minor [
      | none ↦ false
      | some r ↦ not (ltb rent (50 * distance r rent))
    ]

abbrev rent_delta : (rent : ℕ) → Option ℕ → ℕ
rent_delta rent none = 0
rent_delta rent (some r) = distance r rent

-- The insert of a candidate pair, which does nothing where the pair stands already, and its issue.
unfoldable pub propose :
    (listing : CanonicalListing) (rent : ℕ) → CanonicalListing → Database → Database
propose listing rent other db =
    let a = min listing.canonical_listing_id other.canonical_listing_id in
    let b = max listing.canonical_listing_id other.canonical_listing_id in
    if exists (λ c. c.listing_a_id == a && c.listing_b_id == b) db.candidates
    then db
    else record db {
      next_id = db.next_id + 1;
      candidates =
          db.candidates
          ++ (record {
            duplicate_candidate_id = db.next_id;
            listing_a_id = a;
            listing_b_id = b;
            rent_delta_minor = rent_delta rent other.monthly_rent_minor;
            status = DuplicateCandidateStatus.pending;
            resolved_by = none;
            resolved_at = none;
          })
            ∷ [];
      issues =
          db.issues
          ++ (record {
            entity_type = FactEntityType.listing;
            entity_id = a;
            issue_type = ReviewIssueType.duplicate_candidate;
            severity = ReviewIssueSeverity.warning;
            status = ReviewIssueStatus.opened;
            details = duplicate db.next_id a b;
            resolved_at = none;
            resolved_by = none;
          })
            ∷ [];
    }

unfoldable pub propose_all :
    CanonicalListing → (rent : ℕ) → List CanonicalListing → Database → Database
unfolding propose
propose_all listing rent [] db = db
propose_all listing rent (other ∷ rest) db =
    propose_all listing rent rest (propose listing rent other db)

unfoldable pub generate_duplicate_candidates : CanonicalListing → Building → Database → Database
unfolding propose_all is_similar
generate_duplicate_candidates listing b db = elim listing.monthly_rent_minor [
  | none ↦ db
  | some rent ↦
      if no_class listing.layout_class
      then db
      else propose_all listing rent (select (is_similar b listing rent) db.listings) db
]
