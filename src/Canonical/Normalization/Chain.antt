-- ===== src/Canonical/Normalization/Chain.antt =====
-- The whole chain of a new identity: address, building, unit, listing and link.
use nyc_rental_listing_agent.Base.{
  ℕ, ◌≤◌, ◌<◌, ◌≡◌, refl, inl, inr, subst, Bool, true, ◌&&◌, not, none, some, String, List, [], ◌∷◌,
  arith, ==_refl, Bool-cases, Option-cases, is_some_eq, ltb,
}
use nyc_rental_listing_agent.Base.Lists.{take, All}
use nyc_rental_listing_agent.Base.Result.{ok, ok-injective, Result-cases}
use nyc_rental_listing_agent.Base.Table.{select, count, order_by}
use nyc_rental_listing_agent.Base.Table.Rules.{
  count-take-le, count-order_by, count-select-le, members_counted, scalar-head,
}
use nyc_rental_listing_agent.Enums.Listing.{DiscoveryMethod, IdentityMethod, IdentityConfidence}
use nyc_rental_listing_agent.Model.Listings.{
  ParsedSourceObservation, SourceObservation, Building, RentalUnit, CanonicalListing,
}
use nyc_rental_listing_agent.Model.Database.{Database}
use nyc_rental_listing_agent.Canonical.Merge.{listing_is, is_merged}
use nyc_rental_listing_agent.Canonical.Normalization.Identity.{NormalizationOutcome}
use nyc_rental_listing_agent.Canonical.Normalization.Create.{
  create_without_unit, create_with_unit, create_canonical,
}
use nyc_rental_listing_agent.Canonical.Normalization.Duplicates.{
  only_one, strong_multi_field_match, no_class, is_strong_match,
}
use nyc_rental_listing_agent.Canonical.Normalization.Places.{
  listing_of_unit, find_unit, first_label, non_empty, label_of, get_address, get_building,
}
use nyc_rental_listing_agent.Canonical.Normalization.Frame.{
  IsAside-trans, get_address-IsAside, get_building-IsAside,
}
use nyc_rental_listing_agent.Canonical.Normalization.Entry.{
  IsEntered, aside-IsEntered, attach-IsEntered, create_listing-IsEntered,
}

only_one-head {ℓ} : {A : Type ℓ} (xs : List A) {x : A} → only_one xs ≡ some x → xs ≡ x ∷ []
only_one-head [] e = cc
only_one-head (x ∷ []) e = cc e
only_one-head (x ∷ y ∷ xs) e = cc

-- A row that a query returned is in the table.
head-listed :
    (zs cs : List CanonicalListing) {l : CanonicalListing}
    → ((p : CanonicalListing → Bool) → count p cs ≤ count p zs)
    → cs ≡ l ∷ []
    → 0 < count (listing_is l.canonical_listing_id) zs
head-listed zs cs {l} h e =
    (subst
        (λ xs.
          All
            (λ x.
              listing_is x.canonical_listing_id x ≡ true
              → 0 < count (listing_is x.canonical_listing_id) zs)
            xs)
        e (members_counted (λ x. listing_is x.canonical_listing_id) zs cs h)).0
      (==_refl l.canonical_listing_id)

strong-listed :
    (b : Building) (o : ParsedSourceObservation) (row : SourceObservation) (db : Database)
    {l : CanonicalListing}
    → strong_multi_field_match b o row db ≡ some l
    → 0 < count (listing_is l.canonical_listing_id) db.listings
unfolding strong_multi_field_match
strong-listed b o row db {l} e = elim (Bool-cases (no_class o.layout.proposed_layout_class)) [
  | inl c ↦ cc (rw c at e)
  | inr c ↦ elim (Option-cases o.pricing.monthly_rent_minor) [
    | inl p ↦ cc (rw (c, p) at e)
    | inr (rent, p) ↦
        let w = is_strong_match b o.layout.proposed_layout_class rent row db.links in
        head-listed db.listings (select w db.listings) (λ q. count-select-le q w db.listings)
          (only_one-head (select w db.listings) (rw (c, p) at e))
  ]
]

unit-listed :
    (u : RentalUnit) (db : Database) {l : CanonicalListing}
    → listing_of_unit u db ≡ ok (some l)
    → 0 < count (listing_is l.canonical_listing_id) db.listings
unfolding listing_of_unit
unit-listed u db {l} e =
    let w : CanonicalListing → Bool =
      λ l. is_some_eq l.unit_id u.unit_id && not (is_merged l.lifecycle_status) in
    let before : CanonicalListing → CanonicalListing → Bool =
      λ a b. ltb b.last_seen_at a.last_seen_at in
    let rows = order_by before (select w db.listings) in
    head-listed db.listings (take 1 rows)
      (λ q. omega (
        arith,
        count-take-le q 1 rows,
        count-order_by q before (select w db.listings),
        count-select-le q w db.listings,
      ))
      (scalar-head (take 1 rows) e)

create_without_unit-IsEntered :
    (now : ℕ) (b : Building) (o : ParsedSourceObservation) (row : SourceObservation)
    (d : DiscoveryMethod) (db : Database) (r : NormalizationOutcome × Database)
    → create_without_unit now b o row d db ≡ ok r
    → IsEntered row db r.1
unfolding create_without_unit
create_without_unit-IsEntered now b o row d db r e =
    elim (Option-cases (strong_multi_field_match b o row db)) [
      | inl p ↦ create_listing-IsEntered now b none o row d db r (rw (create_without_unit, p) at e)
      | inr (l, p) ↦
          subst (λ x. IsEntered row db x.1) (ok-injective (rw (create_without_unit, p) at e))
            (attach-IsEntered row l d IdentityMethod.strong_multi_field IdentityConfidence.medium db
              (strong-listed b o row db p))
    ]

create_with_unit-IsEntered :
    (now : ℕ) (b : Building) (label : String) (o : ParsedSourceObservation)
    (row : SourceObservation) (d : DiscoveryMethod) (db : Database)
    (r : NormalizationOutcome × Database)
    → create_with_unit now b label o row d db ≡ ok r
    → IsEntered row db r.1
unfolding create_with_unit
create_with_unit-IsEntered now b label o row d db r e = elim (Result-cases (find_unit b label db)) [
  | inl (none, p) ↦
      aside-IsEntered {a = db}
        (record {
          spared = record {
            ids = omega arith;
            jobs = refl;
            attempts = refl;
            source_runs = refl;
            observations = refl;
            merges = refl;
            overrides = refl;
            selections = refl;
            presets = refl;
            entries = refl;
            audit = refl;
          };
          links = refl;
          listings = refl;
        })
        (create_listing-IsEntered now b (some db.next_id) o row d _ r (rw p at e))
  | inl (some u, p) ↦ elim (Result-cases (listing_of_unit u db)) [
    | inl (none, q) ↦ create_listing-IsEntered now b (some u.unit_id) o row d db r (rw (p, q) at e)
    | inl (some l, q) ↦
        subst (λ x. IsEntered row db x.1) (ok-injective (rw (p, q) at e))
          (attach-IsEntered row l d IdentityMethod.exact_address_and_unit IdentityConfidence.high db
            (unit-listed u db q))
    | inr (x, q) ↦ cc (rw (p, q) at e)
  ]
  | inr (x, p) ↦ cc (rw p at e)
]

pub create_canonical-IsEntered :
    (now : ℕ) (o : ParsedSourceObservation) (row : SourceObservation) (d : DiscoveryMethod)
    (db : Database) (r : NormalizationOutcome × Database)
    → create_canonical now o row d db ≡ ok r
    → IsEntered row db r.1
unfolding create_canonical
create_canonical-IsEntered now o row d db r e =
    let locality = first_label o.identity.source_geographic_labels in
    let raw = non_empty o.identity.raw_address_text in
    elim (Result-cases (get_address locality raw row db)) [
      | inl (a, p) ↦ elim (Result-cases (get_building a.0 a.1)) [
        | inl (b, q) ↦
            aside-IsEntered
              (IsAside-trans (get_address-IsAside locality raw row db a p)
                (get_building-IsAside a.0 a.1 b q))
              (elim (Option-cases
                (label_of o.identity.raw_unit_label o.identity.normalized_unit_candidate)) [
                  | inl n ↦ create_without_unit-IsEntered now b.0 o row d b.1 r (rw (p, q, n) at e)
                  | inr (label, n) ↦
                      create_with_unit-IsEntered now b.0 label o row d b.1 r (rw (p, q, n) at e)
                ])
        | inr (x, q) ↦ cc (rw (p, q) at e)
      ]
      | inr (x, p) ↦ cc (rw p at e)
    ]
