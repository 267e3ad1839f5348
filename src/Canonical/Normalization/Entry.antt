-- ===== src/Canonical/Normalization/Entry.antt =====
-- What a new identity leaves in the tables of canonical/normalization.py.
use nyc_rental_listing_agent.Base.{
  ℕ, ◌≤◌, ◌<◌, ◌≡◌, refl, sym, ◌∙◌, inl, inr, ◌⊎◌, ap, subst, max, Bool, true, Option, none, some,
  String, List, [], ◌∷◌, ◌++◌, map, arith, ==_refl, str_eq_refl, Bool-cases,
}
use nyc_rental_listing_agent.Base.Result.{ok, ok-injective, Result-cases}
use nyc_rental_listing_agent.Base.Table.{count, update_where}
use nyc_rental_listing_agent.Base.Table.Rules.{count-append, count-update_same}
use nyc_rental_listing_agent.Enums.Listing.{
  LifecycleStatus, DiscoveryMethod, IdentityMethod, IdentityConfidence, ListingEventType,
}
use nyc_rental_listing_agent.Model.Listings.{
  ParsedSourceObservation, SourceObservation, Building, CanonicalListing, ListingSourceLink,
}
use nyc_rental_listing_agent.Model.Database.{Database}
use nyc_rental_listing_agent.Canonical.Merge.{listing_is}
use nyc_rental_listing_agent.Canonical.Normalization.Identity.{
  NormalizationOutcome, names_link, same_identity_as, emit_for, record_listing_facts, statements,
  new_link, add_link, attach_cross_source_link,
}
use nyc_rental_listing_agent.Canonical.Normalization.Create.{
  new_listing, add_listing, create_listing,
}
use nyc_rental_listing_agent.Canonical.Normalization.Frame.{
  IsSpared, IsAside, IsSpared-trans, emit_for-IsAside, generate-IsAside, record_all-IsAside,
}

-- The keys of the listings with their lifecycle.
abbrev pub statuses : Database → List (ℕ × LifecycleStatus)
statuses db = map (λ l. (l.canonical_listing_id, l.lifecycle_status)) db.listings

abbrev pub has_badge : CanonicalListing → Bool
has_badge l = l.indoor_laundry_badge_eligible

-- The listings keep their lifecycle, but for a new candidate; no listing gets the laundry badge; the
-- tables of other parts stay.
pub record IsCautious (db db' : Database) : Type 0 where
  pub lifecycles :
      (statuses db' ≡ statuses db)
      ⊎ ((i : ℕ) × (statuses db' ≡ statuses db ++ (i, LifecycleStatus.candidate) ∷ []))
  pub badges : count has_badge db'.listings ≤ count has_badge db.listings
  pub spared : IsSpared db db'

-- The new link of an observation, with its listing.
pub record IsEntered (row : SourceObservation) (db db' : Database) : Type 0 where
  pub link : ListingSourceLink
  pub appended : db'.links ≡ db.links ++ link ∷ []
  pub identity_kept : same_identity_as row link ≡ true
  pub latest : link.latest_observation_id ≡ row.source_observation_id
  pub listed : 0 < count (listing_is link.canonical_listing_id) db'.listings
  pub cautious : IsCautious db db'

pub map-update {ℓ κ} :
    {A : Type ℓ} {B : Type κ} (g : A → B) (p : A → Bool) (f : A → A)
    → ((x : A) → g (f x) ≡ g x)
    → (xs : List A) → map g (update_where p f xs) ≡ map g xs
map-update g p f same [] = refl
map-update g p f same (x ∷ xs) = elim (Bool-cases (p x)) [
  | inl e ↦ rw (e, same x) (ap (λ r. g x ∷ r) (map-update g p f same xs))
  | inr e ↦ rw e (ap (λ r. g x ∷ r) (map-update g p f same xs))
]

map-append {ℓ κ} :
    {A : Type ℓ} {B : Type κ} (g : A → B) (xs ys : List A) → map g (xs ++ ys) ≡ map g xs ++ map g ys
map-append g [] ys = refl
map-append g (x ∷ xs) ys = ap (λ r. g x ∷ r) (map-append g xs ys)

new_link-same_identity :
    (i j : ℕ) (row : SourceObservation) (d : DiscoveryMethod) (m : IdentityMethod)
    (c : IdentityConfidence)
    → same_identity_as row (new_link i j row d m c) ≡ true
unfolding same_identity_as
new_link-same_identity i j row d m c =
    rw (==_refl row.source_id)
      (named row.source_native_id row.source_url (new_link i j row d m c) refl refl)
  where
    named :
        (n : Option String) (url : String) (k : ListingSourceLink)
        → k.source_native_id ≡ n
        → k.source_url ≡ url
        → names_link n url k ≡ true
    named none url k e f = rw f (str_eq_refl url)
    named (some s) url k e f = rw e (str_eq_refl s)

-- Steps beside the inventory, before and after.
pub IsCautious-aside : {a b c : Database} → IsCautious a b → IsAside b c → IsCautious a c
IsCautious-aside {a} {b} {c} h k = record {
  lifecycles =
      subst
        (λ ls.
          (map (λ l. (l.canonical_listing_id, l.lifecycle_status)) ls ≡ statuses a)
          ⊎ ((i : ℕ) × (map (λ l. (l.canonical_listing_id, l.lifecycle_status)) ls
                ≡ statuses a ++ (i, LifecycleStatus.candidate) ∷ [])))
        (sym k.listings) h.lifecycles;
  badges = subst (λ ls. count has_badge ls ≤ count has_badge a.listings) (sym k.listings) h.badges;
  spared = IsSpared-trans h.spared k.spared;
}

pub aside-IsCautious : {a b c : Database} → IsAside a b → IsCautious b c → IsCautious a c
aside-IsCautious {a} {b} {c} k h = record {
  lifecycles =
      subst
        (λ ls.
          (statuses c ≡ map (λ l. (l.canonical_listing_id, l.lifecycle_status)) ls)
          ⊎ ((i : ℕ) × (statuses c
                ≡ map (λ l. (l.canonical_listing_id, l.lifecycle_status)) ls
                  ++ (i, LifecycleStatus.candidate) ∷ [])))
        k.listings h.lifecycles;
  badges = subst (λ ls. count has_badge c.listings ≤ count has_badge ls) k.listings h.badges;
  spared = IsSpared-trans k.spared h.spared;
}

IsEntered-aside :
    {row : SourceObservation} {a b c : Database}
    → IsEntered row a b
    → IsAside b c
    → IsEntered row a c
IsEntered-aside {row} {a} {b} {c} h k = record {
  link = h.link;
  appended = k.links ∙ h.appended;
  identity_kept = h.identity_kept;
  latest = h.latest;
  listed =
      subst (λ ls. 0 < count (listing_is h.link.canonical_listing_id) ls) (sym k.listings) h.listed;
  cautious = IsCautious-aside h.cautious k;
}

pub aside-IsEntered :
    {row : SourceObservation} {a b c : Database}
    → IsAside a b
    → IsEntered row b c
    → IsEntered row a c
aside-IsEntered {row} {a} {b} {c} k h = record {
  link = h.link;
  appended = subst (λ ls. c.links ≡ ls ++ h.link ∷ []) k.links h.appended;
  identity_kept = h.identity_kept;
  latest = h.latest;
  listed = h.listed;
  cautious = aside-IsCautious k h.cautious;
}

pub attach-IsEntered :
    (row : SourceObservation) (l : CanonicalListing) (d : DiscoveryMethod) (m : IdentityMethod)
    (c : IdentityConfidence) (db : Database)
    → 0 < count (listing_is l.canonical_listing_id) db.listings
    → IsEntered row db (attach_cross_source_link row l d m c db).1
unfolding attach_cross_source_link
attach-IsEntered row l d m c db h =
    let i = l.canonical_listing_id in
    let f : CanonicalListing → CanonicalListing =
      λ x. record x { last_seen_at = max x.last_seen_at row.observed_at } in
    record {
      link = new_link db.next_id i row d m c;
      appended = refl;
      identity_kept = new_link-same_identity db.next_id i row d m c;
      latest = refl;
      listed = rw (count-update_same (listing_is i) (listing_is i) f (λ x. refl) db.listings) h;
      cautious = record {
        lifecycles = inl (
            map-update (λ x. (x.canonical_listing_id, x.lifecycle_status)) (listing_is i) f
              (λ x. refl) db.listings);
        badges =
            omega (arith, count-update_same has_badge (listing_is i) f (λ x. refl) db.listings);
        spared = record {
          ids = omega arith;
          jobs = refl;
          attempts = refl;
          source_runs = refl;
          observations = refl;
          merges = refl;
          overrides = refl;
          selections = refl;
          presets = refl;
          entries = refl;
          audit = refl;
        };
      };
    }

pub create_listing-IsEntered :
    (now : ℕ) (b : Building) (u : Option ℕ) (o : ParsedSourceObservation) (row : SourceObservation)
    (d : DiscoveryMethod) (db : Database) (r : NormalizationOutcome × Database)
    → create_listing now b u o row d db ≡ ok r
    → IsEntered row db r.1
unfolding create_listing record_listing_facts
create_listing-IsEntered now b u o row d db r e =
    let listing = new_listing db.next_id b u o row in
    let listed = add_listing listing db in
    let link =
      new_link listed.next_id db.next_id row d IdentityMethod.source_native_continuity
        IdentityConfidence.high in
    let linked = add_link link listed in
    let told = emit_for db.next_id ListingEventType.created row linked in
    let entered : IsEntered row db linked = record {
      link = link;
      appended = refl;
      identity_kept =
          new_link-same_identity listed.next_id db.next_id row d
            IdentityMethod.source_native_continuity IdentityConfidence.high;
      latest = refl;
      listed =
          rw (count-append (listing_is db.next_id) db.listings (listing ∷ []), ==_refl db.next_id)
            (omega arith);
      cautious = record {
        lifecycles = inr (db.next_id, map-append _ db.listings (listing ∷ []));
        badges = omega (arith, count-append has_badge db.listings (listing ∷ []));
        spared = record {
          ids = omega arith;
          jobs = refl;
          attempts = refl;
          source_runs = refl;
          observations = refl;
          merges = refl;
          overrides = refl;
          selections = refl;
          presets = refl;
          entries = refl;
          audit = refl;
        };
      };
    } in
    elim (Result-cases (record_listing_facts now db.next_id o row told.1)) [
      | inl (recorded, p) ↦
          subst (λ x. IsEntered row db x.1) (ok-injective (rw p at e))
            (IsEntered-aside
              (IsEntered-aside
                (IsEntered-aside entered
                  (emit_for-IsAside db.next_id ListingEventType.created row linked))
                (record_all-IsAside now db.next_id row (statements o) told.1 recorded p))
              (generate-IsAside listing b recorded))
      | inr (x, p) ↦ cc (rw p at e)
    ]
