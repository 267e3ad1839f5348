-- ===== src/Canonical/Normalization/Override.antt =====
-- A field that a person decided, in `_update_existing` of canonical/normalization.py.
use nyc_rental_listing_agent.Base.{
  ℕ, ◌≡◌, refl, sym, ap, ap₂, subst, ◌∙◌, ◌⊎◌, inl, inr, true, false, String, List, [], ◌∷◌, ◌++◌,
  map, if◌then◌else◌, arith, Bool-cases,
}
use nyc_rental_listing_agent.Base.Lists.{All}
use nyc_rental_listing_agent.Base.Result.{ok, ok-injective, Result-cases}
use nyc_rental_listing_agent.Base.Table.{count, update_where}
use nyc_rental_listing_agent.Base.Table.Rules.{count-append}
use nyc_rental_listing_agent.Enums.Listing.{
  ListingEventType, same_event_type, availability_value, laundry_value,
}
use nyc_rental_listing_agent.Enums.Facts.{FactEntityType}
use nyc_rental_listing_agent.Model.Listings.{SourceObservation, CanonicalListing}
use nyc_rental_listing_agent.Model.Evidence.{HumanOverride, Value, text}
use nyc_rental_listing_agent.Model.Database.{Database}
use nyc_rental_listing_agent.Canonical.Merge.{listing_is}
use nyc_rental_listing_agent.Canonical.Facts.{Fact, overrides_fact, raise_conflict_with_override}
use nyc_rental_listing_agent.Canonical.Facts.Current.{one_override}
use nyc_rental_listing_agent.Canonical.Normalization.Identity.{emit_for, amount}
use nyc_rental_listing_agent.Canonical.Normalization.Frame.{IsAside, IsAside-refl, emit_for-IsAside}
use nyc_rental_listing_agent.Canonical.Normalization.Entry.{map-update}
use nyc_rental_listing_agent.Canonical.Normalization.Rewrites.{override_blocks-IsAside}
use nyc_rental_listing_agent.Canonical.Normalization.Update.{
  Change, differs, override_blocks, apply_change, apply_all,
}

-- Only the review issues are written.
pub record IsFlagged (db db' : Database) : Type 0 where
  pub listings : db'.listings ≡ db.listings
  pub events : db'.events ≡ db.events
  pub overrides : db'.overrides ≡ db.overrides
  pub links : db'.links ≡ db.links
  pub resolutions : db'.resolutions ≡ db.resolutions

raise-IsFlagged :
    (o : HumanOverride) (i : ℕ) (key : String) (v : Value) (db : Database)
    → IsFlagged db
        (if differs v o.override_value then raise_conflict_with_override o i key v db else db)
unfolding raise_conflict_with_override
raise-IsFlagged o i key v db = ground arith

apply_change-overridden :
    (i : ℕ) (c : Change) (row : SourceObservation) (db : Database)
    → count
        (overrides_fact
          (record { entity_type = FactEntityType.listing; entity_id = i; fact_key = c.fact_key }))
        db.overrides
      ≡ 1
    → (db' : Database) × ((apply_change i c row db ≡ ok ([], db')) × IsFlagged db db')
unfolding apply_change override_blocks
apply_change-overridden i c row db h =
    let f : Fact = record {
      entity_type = FactEntityType.listing;
      entity_id = i;
      fact_key = c.fact_key;
    } in
    let (o, p) = one_override f db h in
    (
      if differs c.incoming o.override_value
          then raise_conflict_with_override o i c.fact_key c.incoming db
          else db,
      (rw p refl, raise-IsFlagged o i c.fact_key c.incoming db),
    )

-- The fields of a listing that `_update_existing` compares, the name under which a person decides
-- each, its value and its event.
pub data Field : Type 0 where
  rent availability laundry : Field

abbrev pub key_of : Field → String
key_of Field.rent = "monthly_rent_minor"
key_of Field.availability = "availability_status"
key_of Field.laundry = "laundry_type"

abbrev pub value_of : Field → CanonicalListing → Value
value_of Field.rent l = amount l.monthly_rent_minor
value_of Field.availability l = text (availability_value l.availability_status)
value_of Field.laundry l = text (laundry_value l.laundry_type)

abbrev pub event_of : Field → ListingEventType
event_of Field.rent = ListingEventType.price_changed
event_of Field.availability = ListingEventType.availability_changed
event_of Field.laundry = ListingEventType.laundry_changed

abbrev pub decided_fact : Field → (listing_id : ℕ) → Fact
decided_fact fd i = record {
  entity_type = FactEntityType.listing;
  entity_id = i;
  fact_key = key_of fd;
}

abbrev pub values : Field → Database → List (ℕ × Value)
values fd db = map (λ l. (l.canonical_listing_id, value_of fd l)) db.listings

-- The values of the field stay, and no event tells of it.
pub record IsUntouched (fd : Field) (db db' : Database) (events : List ListingEventType)
    : Type 0 where
  pub same_values : values fd db' ≡ values fd db
  pub silent : count (same_event_type (event_of fd)) events ≡ 0
  pub overrides : db'.overrides ≡ db.overrides

pub aside-IsUntouched : {fd : Field} {db db' : Database} → IsAside db db' → IsUntouched fd db db' []
aside-IsUntouched {fd = fd} h = record {
  same_values = ap (map (λ l. (l.canonical_listing_id, value_of fd l))) h.listings;
  silent = refl;
  overrides = h.spared.overrides;
}

pub IsUntouched-trans :
    {fd : Field} {a b c : Database} {xs ys : List ListingEventType}
    → IsUntouched fd a b xs
    → IsUntouched fd b c ys
    → IsUntouched fd a c (xs ++ ys)
IsUntouched-trans {fd = fd} {xs = xs} {ys = ys} h k = record {
  same_values = k.same_values ∙ h.same_values;
  silent = omega (arith, count-append (same_event_type (event_of fd)) xs ys, h.silent, k.silent);
  overrides = k.overrides ∙ h.overrides;
}

-- A write that keeps the keys and the values of a field.
unfoldable pub IsApart : Field → (CanonicalListing → CanonicalListing) → Type 0
IsApart fd f =
    (x : CanonicalListing)
    → ((f x).canonical_listing_id ≡ x.canonical_listing_id) × (value_of fd (f x) ≡ value_of fd x)

pub write-IsUntouched :
    (fd : Field) (i : ℕ) (f : CanonicalListing → CanonicalListing) (db : Database)
    → IsApart fd f
    → IsUntouched fd db (record db { listings = update_where (listing_is i) f db.listings }) []
unfolding IsApart
write-IsUntouched fd i f db h = record {
  same_values =
      map-update (λ l. (l.canonical_listing_id, value_of fd l)) (listing_is i) f
        (λ x. let (a, b) = h x in ap₂ (λ a b. (a, b)) a b) db.listings;
  silent = refl;
  overrides = refl;
}

-- A change of the field itself, or of another.
unfoldable pub Concerns : Field → Change → Type 0
Concerns fd c =
    (c.fact_key ≡ key_of fd)
    ⊎ (IsApart fd c.write × (same_event_type (event_of fd) c.event_type ≡ false))

emit_for-silent :
    (fd : Field) (i : ℕ) (t : ListingEventType) (row : SourceObservation) (db : Database)
    → same_event_type (event_of fd) t ≡ false
    → IsUntouched fd db (emit_for i t row db).1 (emit_for i t row db).0
unfolding emit_for
emit_for-silent fd i t row db h =
    let aside : IsUntouched fd db (emit_for i t row db).1 [] =
      aside-IsUntouched (emit_for-IsAside i t row db) in
    record { same_values = aside.same_values; silent = silent_list; overrides = aside.overrides }
  where
    silent_list : count (same_event_type (event_of fd)) (emit_for i t row db).0 ≡ 0
    silent_list = ground (arith, h)

apply_change-IsUntouched :
    (fd : Field) (i : ℕ) (c : Change) (row : SourceObservation) (db : Database)
    (r : List ListingEventType × Database)
    → Concerns fd c
    → count (overrides_fact (decided_fact fd i)) db.overrides ≡ 1
    → apply_change i c row db ≡ ok r
    → IsUntouched fd db r.1 r.0
unfolding apply_change Concerns IsApart
apply_change-IsUntouched fd i c row db r (inl same) once e =
    let (db', (done, flagged)) = apply_change-overridden i c row db (
      subst
        (λ k.
          count
            (overrides_fact
              (record { entity_type = FactEntityType.listing; entity_id = i; fact_key = k }))
            db.overrides
          ≡ 1)
        (sym same) once) in
    subst (λ x. IsUntouched fd db x.1 x.0) (ok-injective (sym done ∙ e))
      (record {
        same_values = ap (map (λ l. (l.canonical_listing_id, value_of fd l))) flagged.listings;
        silent = refl;
        overrides = flagged.overrides;
      })
apply_change-IsUntouched fd i c row db r (inr (apart, quiet)) once e =
    elim (Result-cases (override_blocks i c.fact_key c.incoming db)) [
      | inl ((true, told), p) ↦
          subst (λ x. IsUntouched fd db x.1 x.0) (ok-injective (rw p at e))
            (aside-IsUntouched (override_blocks-IsAside i c.fact_key c.incoming db (true, told) p))
      | inl ((false, told), p) ↦
          let emitted = emit_for i c.event_type row told in
          let blocked : IsUntouched fd db told [] =
            aside-IsUntouched
              (override_blocks-IsAside i c.fact_key c.incoming db (false, told) p) in
          let quietly = emit_for-silent fd i c.event_type row told quiet in
          let written = write-IsUntouched fd i c.write emitted.1 apart in
          subst (λ x. IsUntouched fd db x.1 x.0) (ok-injective (rw p at e))
            (record {
              same_values = written.same_values ∙ quietly.same_values ∙ blocked.same_values;
              silent = quietly.silent;
              overrides = written.overrides ∙ quietly.overrides ∙ blocked.overrides;
            })
      | inr (x, p) ↦ cc (rw p at e)
    ]

pub apply_all-IsUntouched :
    (fd : Field) (i : ℕ) (cs : List Change) (row : SourceObservation) (db : Database)
    (r : List ListingEventType × Database)
    → All (Concerns fd) cs
    → count (overrides_fact (decided_fact fd i)) db.overrides ≡ 1
    → apply_all i cs row db ≡ ok r
    → IsUntouched fd db r.1 r.0
unfolding apply_all
apply_all-IsUntouched fd i [] row db r concerned once e =
    subst (λ x. IsUntouched fd db x.1 x.0) (ok-injective e) (aside-IsUntouched (IsAside-refl db))
apply_all-IsUntouched fd i (c ∷ cs) row db r concerned once e = elim (Bool-cases c.changed) [
  | inl t ↦ elim (Result-cases (apply_change i c row db)) [
    | inl (a, p) ↦ elim (Result-cases (apply_all i cs row a.1)) [
      | inl (b, q) ↦
          let first = apply_change-IsUntouched fd i c row db a concerned.0 once p in
          let still : count (overrides_fact (decided_fact fd i)) a.1.overrides ≡ 1 =
            ap (count (overrides_fact (decided_fact fd i))) first.overrides ∙ once in
          subst (λ x. IsUntouched fd db x.1 x.0) (ok-injective (rw (t, p, q) at e))
            (IsUntouched-trans first (apply_all-IsUntouched fd i cs row a.1 b concerned.1 still q))
      | inr (x, q) ↦ cc (rw (t, p, q) at e)
    ]
    | inr (x, p) ↦ cc (rw (t, p) at e)
  ]
  | inr t ↦ elim (Result-cases (apply_all i cs row db)) [
    | inl (b, q) ↦
        subst (λ x. IsUntouched fd db x.1 x.0) (ok-injective (rw (t, q) at e))
          (apply_all-IsUntouched fd i cs row db b concerned.1 once q)
    | inr (x, q) ↦ cc (rw (t, q) at e)
  ]
]
