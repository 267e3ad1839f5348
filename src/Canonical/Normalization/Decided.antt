-- ===== src/Canonical/Normalization/Decided.antt =====
-- What an observation leaves of a field that a person decided, in `process_observation` of
-- canonical/normalization.py.
use nyc_rental_listing_agent.Base.{
  ℕ, ◌≡◌, refl, ap, subst, ◌∙◌, inl, inr, max, some, List, [], ◌∷◌, ◌==◌, leb, Bool-cases,
  Option-cases,
}
use nyc_rental_listing_agent.Base.Lists.{All}
use nyc_rental_listing_agent.Base.Result.{ok, ok-injective, Result-cases}
use nyc_rental_listing_agent.Base.Table.{count, find_row}
use nyc_rental_listing_agent.Enums.Listing.{ListingEventType, DiscoveryMethod, same_event_type}
use nyc_rental_listing_agent.Model.Listings.{
  ParsedSourceObservation, SourceObservation, CanonicalListing, ListingSourceLink,
}
use nyc_rental_listing_agent.Model.Database.{Database}
use nyc_rental_listing_agent.Canonical.Merge.{listing_is}
use nyc_rental_listing_agent.Canonical.Facts.{overrides_fact}
use nyc_rental_listing_agent.Canonical.Normalization.Identity.{
  NormalizationOutcome, find_link, record_listing_facts, statements,
}
use nyc_rental_listing_agent.Canonical.Normalization.Update.{
  observation_is, has_hash, touch_freshness, update_existing, apply_observation, apply_all, changes,
  conclude,
}
use nyc_rental_listing_agent.Canonical.Normalization.Process.{
  is_parsed, process_row, process_observation,
}
use nyc_rental_listing_agent.Canonical.Normalization.Frame.{IsAside-refl, record_all-IsAside}
use nyc_rental_listing_agent.Canonical.Normalization.Override.{
  Field, value_of, decided_fact, IsUntouched, IsApart, Concerns, aside-IsUntouched,
  write-IsUntouched, IsUntouched-trans, apply_all-IsUntouched,
}

-- Each of the three changes is of the field, under its name, or leaves it.
changes-Concerns :
    (fd : Field) (l : CanonicalListing) (o : ParsedSourceObservation)
    → All (Concerns fd) (changes l o)
unfolding changes Concerns IsApart same_event_type
changes-Concerns Field.rent l o =
    (inl refl, (inr (λ x. (refl, refl), refl), (inr (λ x. (refl, refl), refl), tt)))
changes-Concerns Field.availability l o =
    (inr (λ x. (refl, refl), refl), (inl refl, (inr (λ x. (refl, refl), refl), tt)))
changes-Concerns Field.laundry l o =
    (inr (λ x. (refl, refl), refl), (inr (λ x. (refl, refl), refl), (inl refl, tt)))

unchanged-IsOutcome : (fd : Field) (db : Database) → IsUntouched fd db db []
unchanged-IsOutcome fd db = aside-IsUntouched (IsAside-refl db)

conclude-IsOutcome :
    (fd : Field) (k : ListingSourceLink) (row : SourceObservation) (ts : List ListingEventType)
    (before db : Database)
    → IsUntouched fd before db ts
    → IsUntouched fd before (conclude k row ts db).1 (conclude k row ts db).0.events_emitted
unfolding conclude IsApart
conclude-IsOutcome fd k row [] before db h = h
conclude-IsOutcome fd k row (t ∷ ts) before db h = record {
  same_values =
      (write-IsUntouched fd k.canonical_listing_id
        (λ l. record l { last_material_change_at = row.observed_at }) db
        (λ x. (refl, keeps fd x))).same_values
      ∙ h.same_values;
  silent = h.silent;
  overrides = h.overrides;
}
  where
    keeps :
        (f : Field) (x : CanonicalListing)
        → value_of f (record x { last_material_change_at = row.observed_at }) ≡ value_of f x
    keeps Field.rent x = refl
    keeps Field.availability x = refl
    keeps Field.laundry x = refl

touch_freshness-IsUntouched :
    (fd : Field) (k : ListingSourceLink) (i : ℕ) (row : SourceObservation) (db : Database)
    → IsUntouched fd db (touch_freshness k i row db) []
unfolding touch_freshness IsApart
touch_freshness-IsUntouched fd k i row db = elim (Bool-cases (leb k.last_seen_at row.observed_at)) [
  | inl t ↦ rw t (record {
    same_values = (write-IsUntouched fd i seen db (λ x. (refl, keeps fd x))).same_values;
    silent = refl;
    overrides = refl;
  })
  | inr t ↦ rw t (write-IsUntouched fd i seen db (λ x. (refl, keeps fd x)))
]
  where
    seen : CanonicalListing → CanonicalListing
    seen l = record l { last_seen_at = max l.last_seen_at row.observed_at }

    keeps : (f : Field) (x : CanonicalListing) → value_of f (seen x) ≡ value_of f x
    keeps Field.rent x = refl
    keeps Field.availability x = refl
    keeps Field.laundry x = refl

apply_observation-IsUntouched :
    (fd : Field) (now : ℕ) (l : CanonicalListing) (o : ParsedSourceObservation)
    (row : SourceObservation) (k : ListingSourceLink) (db : Database)
    (r : NormalizationOutcome × Database)
    → count (overrides_fact (decided_fact fd k.canonical_listing_id)) db.overrides ≡ 1
    → apply_observation now l o row k db ≡ ok r
    → IsUntouched fd db r.1 r.0.events_emitted
unfolding apply_observation record_listing_facts
apply_observation-IsUntouched fd now l o row k db r once e =
    let i = k.canonical_listing_id in
    elim (Result-cases (record_listing_facts now i o row db)) [
      | inl (a, p) ↦ elim (Result-cases (apply_all i (changes l o) row a)) [
        | inl (b, q) ↦
            let recorded : IsUntouched fd db a [] =
              aside-IsUntouched (record_all-IsAside now i row (statements o) db a p) in
            let still : count (overrides_fact (decided_fact fd i)) a.overrides ≡ 1 =
              ap (count (overrides_fact (decided_fact fd i))) recorded.overrides ∙ once in
            let changed =
              apply_all-IsUntouched fd i (changes l o) row a b (changes-Concerns fd l o) still q in
            subst (λ x. IsUntouched fd db x.1 x.0.events_emitted) (ok-injective (rw (p, q) at e))
              (conclude-IsOutcome fd k row b.0 db b.1 (IsUntouched-trans recorded changed))
        | inr (x, q) ↦ cc (rw (p, q) at e)
      ]
      | inr (x, p) ↦ cc (rw p at e)
    ]

update_existing-IsUntouched :
    (fd : Field) (now : ℕ) (o : ParsedSourceObservation) (row : SourceObservation)
    (k : ListingSourceLink) (db : Database) (r : NormalizationOutcome × Database)
    → count (overrides_fact (decided_fact fd k.canonical_listing_id)) db.overrides ≡ 1
    → update_existing now o row k db ≡ ok r
    → IsUntouched fd db r.1 r.0.events_emitted
unfolding update_existing
update_existing-IsUntouched fd now o row k db r once e =
    let seen = touch_freshness k k.canonical_listing_id row db in
    let touched = touch_freshness-IsUntouched fd k k.canonical_listing_id row db in
    let still : count (overrides_fact (decided_fact fd k.canonical_listing_id)) seen.overrides ≡ 1 =
      ap (count (overrides_fact (decided_fact fd k.canonical_listing_id))) touched.overrides
      ∙ once in
    elim (Option-cases (find_row (listing_is k.canonical_listing_id) db.listings)) [
      | inl f ↦ cc (rw f at e)
      | inr (l, f) ↦ elim (Bool-cases (k.latest_observation_id == row.source_observation_id)) [
        | inl t ↦
            subst (λ x. IsUntouched fd db x.1 x.0.events_emitted) (ok-injective (rw (f, t) at e))
              (unchanged-IsOutcome fd db)
        | inr t ↦
            elim (Bool-cases (
              has_hash (find_row (observation_is k.latest_observation_id) db.observations)
                row.content_hash)) [
                  | inl h ↦
                      subst (λ x. IsUntouched fd db x.1 x.0.events_emitted)
                        (ok-injective (rw (f, t, h) at e)) touched
                  | inr h ↦ IsUntouched-trans touched (
                      apply_observation-IsUntouched fd now l o row k seen r still
                        (rw (f, t, h) at e))
                ]
      ]
    ]

-- A person's decision stands: where exactly one active override speaks for the rent, the availability
-- or the laundry of the listing that an observation belongs to, processing the observation leaves that
-- field of every listing as it was, emits no event of the field's type, and keeps the overrides.
pub process_observation-overridden :
    (fd : Field) (now i : ℕ) (d : DiscoveryMethod) (row : SourceObservation) (k : ListingSourceLink)
    (db : Database) (r : NormalizationOutcome × Database)
    → find_row (observation_is i) db.observations ≡ some row
    → find_link row db ≡ ok (some k)
    → count (overrides_fact (decided_fact fd k.canonical_listing_id)) db.overrides ≡ 1
    → process_observation now i d db ≡ ok r
    → IsUntouched fd db r.1 r.0.events_emitted
unfolding process_observation process_row
process_observation-overridden fd now i d row k db r f p once e =
    elim (Bool-cases (is_parsed row.parse_status)) [
      | inl t ↦
          update_existing-IsUntouched fd now row.parsed_payload row k db r once
            (rw (f, t, process_row, p) at e)
      | inr t ↦
          subst (λ x. IsUntouched fd db x.1 x.0.events_emitted) (ok-injective (rw (f, t) at e))
            (unchanged-IsOutcome fd db)
    ]
