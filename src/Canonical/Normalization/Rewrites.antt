-- ===== src/Canonical/Normalization/Rewrites.antt =====
-- What an observation of a known identity leaves in the tables of canonical/normalization.py.
use nyc_rental_listing_agent.Base.{
  ℕ, ◌≤◌, ◌≡◌, refl, ◌∙◌, inl, inr, ap, ap₂, subst, Bool, true, false, none, some, String, List, [],
  ◌∷◌, map, arith, ◌==◌, Bool-cases,
}
use nyc_rental_listing_agent.Base.Lists.{All, All-intro}
use nyc_rental_listing_agent.Base.Result.{ok, ok-injective, Result-cases}
use nyc_rental_listing_agent.Base.Table.{count, update_where}
use nyc_rental_listing_agent.Base.Table.Rules.{count-update_same, count-update-le}
use nyc_rental_listing_agent.Enums.Listing.{ListingEventType, LaundryType}
use nyc_rental_listing_agent.Enums.Facts.{FactEntityType, ValidationStatus, ResolutionStatus}
use nyc_rental_listing_agent.Model.Listings.{
  ParsedSourceObservation, SourceObservation, CanonicalListing, ListingSourceLink,
}
use nyc_rental_listing_agent.Model.Evidence.{Value, HumanOverride}
use nyc_rental_listing_agent.Model.Database.{Database}
use nyc_rental_listing_agent.Validation.Laundry.{derive_badge_eligibility}
use nyc_rental_listing_agent.Canonical.Facts.{active_override, raise_conflict_with_override}
use nyc_rental_listing_agent.Canonical.Merge.{listing_is}
use nyc_rental_listing_agent.Canonical.Normalization.Identity.{
  NormalizationOutcome, emit_for, statements, record_listing_facts,
}
use nyc_rental_listing_agent.Canonical.Normalization.Update.{
  Change, override_blocks, differs, apply_change, apply_all, changes, conclude, apply_observation,
}
use nyc_rental_listing_agent.Canonical.Normalization.Frame.{
  IsSpared, IsSpared-trans, IsAside, IsAside-refl, emit_for-IsAside, record_all-IsAside,
}
use nyc_rental_listing_agent.Canonical.Normalization.Entry.{statuses, has_badge, map-update}

-- Links stay; listings keep their keys and lifecycle, and get no badge.
pub record IsRewritten (db db' : Database) : Type 0 where
  pub links : db'.links ≡ db.links
  pub lifecycles : statuses db' ≡ statuses db
  pub badges : count has_badge db'.listings ≤ count has_badge db.listings
  pub present : (i : ℕ) → count (listing_is i) db'.listings ≡ count (listing_is i) db.listings
  pub spared : IsSpared db db'

pub IsRewritten-trans : {a b c : Database} → IsRewritten a b → IsRewritten b c → IsRewritten a c
IsRewritten-trans h k = record {
  links = k.links ∙ h.links;
  lifecycles = k.lifecycles ∙ h.lifecycles;
  badges = omega (arith, h.badges, k.badges);
  present = λ i. k.present i ∙ h.present i;
  spared = IsSpared-trans h.spared k.spared;
}

pub aside-IsRewritten : {a b : Database} → IsAside a b → IsRewritten a b
aside-IsRewritten h = record {
  links = h.links;
  lifecycles = ap (map (λ l. (l.canonical_listing_id, l.lifecycle_status))) h.listings;
  badges = omega (arith, ap (count has_badge) h.listings);
  present = λ i. ap (count (listing_is i)) h.listings;
  spared = h.spared;
}

-- A write that keeps the key and the lifecycle and gives no badge.
pub record IsMild (f : CanonicalListing → CanonicalListing) : Type 0 where
  pub key : (x : CanonicalListing) → (f x).canonical_listing_id ≡ x.canonical_listing_id
  pub lifecycle : (x : CanonicalListing) → (f x).lifecycle_status ≡ x.lifecycle_status
  pub badge : (x : CanonicalListing) → has_badge (f x) ≡ true → has_badge x ≡ true

pub write-IsRewritten :
    (i : ℕ) (f : CanonicalListing → CanonicalListing) (db : Database)
    → IsMild f
    → IsRewritten db (record db { listings = update_where (listing_is i) f db.listings })
write-IsRewritten i f db h = record {
  links = refl;
  lifecycles =
      map-update (λ l. (l.canonical_listing_id, l.lifecycle_status)) (listing_is i) f
        (λ x. ap₂ (λ a b. (a, b)) (h.key x) (h.lifecycle x)) db.listings;
  badges =
      count-update-le has_badge (λ _. Unit {0}) (listing_is i) f (λ x _ _ m. h.badge x m)
        db.listings (All-intro _ (λ x. tt) db.listings);
  present = λ j.
      count-update_same (listing_is j) (listing_is i) f (λ x. ap (λ n. n == j) (h.key x))
        db.listings;
  spared = record {
    ids = omega arith;
    jobs = refl;
    attempts = refl;
    source_runs = refl;
    observations = refl;
    merges = refl;
    overrides = refl;
    selections = refl;
    presets = refl;
    entries = refl;
    audit = refl;
  };
}

pub raise-IsAside :
    (o : HumanOverride) (i : ℕ) (key : String) (v : Value) (db : Database)
    → IsAside db (raise_conflict_with_override o i key v db)
unfolding raise_conflict_with_override
raise-IsAside o i key v db = ground arith

pub override_blocks-IsAside :
    (i : ℕ) (key : String) (v : Value) (db : Database) (r : Bool × Database)
    → override_blocks i key v db ≡ ok r
    → IsAside db r.1
unfolding override_blocks
override_blocks-IsAside i key v db r e =
    elim (Result-cases (
      active_override
        (record { entity_type = FactEntityType.listing; entity_id = i; fact_key = key }) db)) [
          | inl (none, p) ↦ subst (λ x. IsAside db x.1) (ok-injective (rw p at e)) (IsAside-refl db)
          | inl (some h, p) ↦
              subst (λ x. IsAside db x.1) (ok-injective (rw p at e))
                (elim (Bool-cases (differs v h.override_value)) [
                  | inl d ↦ rw d (raise-IsAside h i key v db)
                  | inr d ↦ rw d (IsAside-refl db)
                ])
          | inr (x, p) ↦ cc (rw p at e)
        ]

apply_change-IsRewritten :
    (i : ℕ) (c : Change) (row : SourceObservation) (db : Database)
    (r : List ListingEventType × Database)
    → IsMild c.write
    → apply_change i c row db ≡ ok r
    → IsRewritten db r.1
unfolding apply_change
apply_change-IsRewritten i c row db r mild e =
    elim (Result-cases (override_blocks i c.fact_key c.incoming db)) [
      | inl ((true, told), p) ↦
          subst (λ x. IsRewritten db x.1) (ok-injective (rw p at e))
            (aside-IsRewritten (override_blocks-IsAside i c.fact_key c.incoming db (true, told) p))
      | inl ((false, told), p) ↦
          subst (λ x. IsRewritten db x.1) (ok-injective (rw p at e))
            (IsRewritten-trans
              (aside-IsRewritten
                (override_blocks-IsAside i c.fact_key c.incoming db (false, told) p))
              (IsRewritten-trans (aside-IsRewritten (emit_for-IsAside i c.event_type row told))
                (write-IsRewritten i c.write (emit_for i c.event_type row told).1 mild)))
      | inr (x, p) ↦ cc (rw p at e)
    ]

apply_all-IsRewritten :
    (i : ℕ) (cs : List Change) (row : SourceObservation) (db : Database)
    (r : List ListingEventType × Database)
    → All (λ c. IsMild c.write) cs
    → apply_all i cs row db ≡ ok r
    → IsRewritten db r.1
unfolding apply_all
apply_all-IsRewritten i [] row db r mild e =
    subst (λ x. IsRewritten db x.1) (ok-injective e) (aside-IsRewritten (IsAside-refl db))
apply_all-IsRewritten i (c ∷ cs) row db r mild e = elim (Bool-cases c.changed) [
  | inl t ↦ elim (Result-cases (apply_change i c row db)) [
    | inl (a, p) ↦ elim (Result-cases (apply_all i cs row a.1)) [
      | inl (b, q) ↦
          subst (λ x. IsRewritten db x.1) (ok-injective (rw (t, p, q) at e))
            (IsRewritten-trans (apply_change-IsRewritten i c row db a mild.0 p)
              (apply_all-IsRewritten i cs row a.1 b mild.1 q))
      | inr (x, q) ↦ cc (rw (t, p, q) at e)
    ]
    | inr (x, p) ↦ cc (rw (t, p) at e)
  ]
  | inr t ↦ elim (Result-cases (apply_all i cs row db)) [
    | inl (b, q) ↦
        subst (λ x. IsRewritten db x.1) (ok-injective (rw (t, q) at e))
          (apply_all-IsRewritten i cs row db b mild.1 q)
    | inr (x, q) ↦ cc (rw (t, q) at e)
  ]
]

-- A pending validation gives no badge, whatever the laundry.
pub pending-no_badge :
    (laundry : LaundryType)
    → derive_badge_eligibility laundry ValidationStatus.pending ResolutionStatus.resolved false
      ≡ false
unfolding derive_badge_eligibility
pending-no_badge laundry = ground arith

changes-IsMild :
    (l : CanonicalListing) (o : ParsedSourceObservation) → All (λ c. IsMild c.write) (changes l o)
unfolding changes
changes-IsMild l o = (
  record { key = λ x. refl; lifecycle = λ x. refl; badge = λ x m. m },
  (
    record { key = λ x. refl; lifecycle = λ x. refl; badge = λ x m. m },
    (
      record {
        key = λ x. refl;
        lifecycle = λ x. refl;
        badge = λ x m. cc (pending-no_badge o.laundry.proposed_laundry_type, m);
      },
      tt,
    ),
  ),
)

conclude-IsRewritten :
    (k : ListingSourceLink) (row : SourceObservation) (ts : List ListingEventType) (db : Database)
    → IsRewritten db (conclude k row ts db).1
unfolding conclude
conclude-IsRewritten k row [] db = aside-IsRewritten (IsAside-refl db)
conclude-IsRewritten k row (t ∷ ts) db =
    write-IsRewritten k.canonical_listing_id _ db
      (record { key = λ x. refl; lifecycle = λ x. refl; badge = λ x m. m })

pub apply_observation-IsRewritten :
    (now : ℕ) (l : CanonicalListing) (o : ParsedSourceObservation) (row : SourceObservation)
    (k : ListingSourceLink) (db : Database) (r : NormalizationOutcome × Database)
    → apply_observation now l o row k db ≡ ok r
    → IsRewritten db r.1
unfolding apply_observation record_listing_facts
apply_observation-IsRewritten now l o row k db r e =
    elim (Result-cases (record_listing_facts now k.canonical_listing_id o row db)) [
      | inl (a, p) ↦ elim (Result-cases (apply_all k.canonical_listing_id (changes l o) row a)) [
        | inl (b, q) ↦
            subst (λ x. IsRewritten db x.1) (ok-injective (rw (p, q) at e))
              (IsRewritten-trans
                (aside-IsRewritten
                  (record_all-IsAside now k.canonical_listing_id row (statements o) db a p))
                (IsRewritten-trans
                  (apply_all-IsRewritten k.canonical_listing_id (changes l o) row a b
                    (changes-IsMild l o) q)
                  (conclude-IsRewritten k row b.0 b.1)))
        | inr (x, q) ↦ cc (rw (p, q) at e)
      ]
      | inr (x, p) ↦ cc (rw p at e)
    ]
