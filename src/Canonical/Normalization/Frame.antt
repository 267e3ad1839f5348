-- ===== src/Canonical/Normalization/Frame.antt =====
-- The tables that the steps of canonical/normalization.py write.
use nyc_rental_listing_agent.Base.{
  ℕ, ◌≤◌, ◌≡◌, refl, ◌∙◌, inl, inr, subst, Option, none, some, String, List, ◌==◌, [], ◌∷◌, arith,
  Bool-cases, Option-cases,
}
use nyc_rental_listing_agent.Base.Table.{select, scalar_one_or_none}
use nyc_rental_listing_agent.Base.Text.{codes}
use nyc_rental_listing_agent.Canonical.Fingerprint.{address_fingerprint}
use nyc_rental_listing_agent.Base.Result.{ok, ok-injective, Result-cases}
use nyc_rental_listing_agent.Enums.Listing.{ListingEventType}
use nyc_rental_listing_agent.Model.Listings.{SourceObservation, Address, Building, CanonicalListing}
use nyc_rental_listing_agent.Model.Database.{Database}
use nyc_rental_listing_agent.Canonical.Facts.{
  add_assertion, assertion_of, Fact, Evidence, active_override, record_fact,
}
use nyc_rental_listing_agent.Canonical.Normalization.Identity.{
  emit_for, Statement, fact_of, evidence_of, record_all,
}
use nyc_rental_listing_agent.Canonical.Normalization.Duplicates.{
  propose, propose_all, no_class, is_similar, generate_duplicate_candidates,
}
use nyc_rental_listing_agent.Canonical.Normalization.Places.{
  fingerprint_is, get_address, get_building,
}

-- The tables of other parts stay, and the supply of identifiers only goes on.
pub record IsSpared (db db' : Database) : Type 0 where
  pub ids : db.next_id ≤ db'.next_id
  pub jobs : db'.jobs ≡ db.jobs
  pub attempts : db'.attempts ≡ db.attempts
  pub source_runs : db'.source_runs ≡ db.source_runs
  pub observations : db'.observations ≡ db.observations
  pub merges : db'.merges ≡ db.merges
  pub overrides : db'.overrides ≡ db.overrides
  pub selections : db'.selections ≡ db.selections
  pub presets : db'.presets ≡ db.presets
  pub entries : db'.entries ≡ db.entries
  pub audit : db'.audit ≡ db.audit

-- Only tables beside the links and the listings are written.
pub record IsAside (db db' : Database) : Type 0 where
  pub spared : IsSpared db db'
  pub links : db'.links ≡ db.links
  pub listings : db'.listings ≡ db.listings

pub IsSpared-refl : (db : Database) → IsSpared db db
IsSpared-refl db = record {
  ids = omega arith;
  jobs = refl;
  attempts = refl;
  source_runs = refl;
  observations = refl;
  merges = refl;
  overrides = refl;
  selections = refl;
  presets = refl;
  entries = refl;
  audit = refl;
}

pub IsSpared-trans : {a b c : Database} → IsSpared a b → IsSpared b c → IsSpared a c
IsSpared-trans h k = record {
  ids = omega (arith, h.ids, k.ids);
  jobs = k.jobs ∙ h.jobs;
  attempts = k.attempts ∙ h.attempts;
  source_runs = k.source_runs ∙ h.source_runs;
  observations = k.observations ∙ h.observations;
  merges = k.merges ∙ h.merges;
  overrides = k.overrides ∙ h.overrides;
  selections = k.selections ∙ h.selections;
  presets = k.presets ∙ h.presets;
  entries = k.entries ∙ h.entries;
  audit = k.audit ∙ h.audit;
}

pub IsAside-refl : (db : Database) → IsAside db db
IsAside-refl db = record { spared = IsSpared-refl db; links = refl; listings = refl }

pub IsAside-trans : {a b c : Database} → IsAside a b → IsAside b c → IsAside a c
IsAside-trans h k = record {
  spared = IsSpared-trans h.spared k.spared;
  links = k.links ∙ h.links;
  listings = k.listings ∙ h.listings;
}

pub record_fact-IsAside :
    (now : ℕ) (f : Fact) (v : Evidence) (db : Database) (r : ℕ × Database)
    → record_fact now f v db ≡ ok r
    → IsAside db r.1
unfolding record_fact
record_fact-IsAside now f v db r e =
    elim (Result-cases (active_override f (add_assertion (assertion_of db.next_id f v) db))) [
      | inl (none, q) ↦ subst (λ x. IsAside db x.1) (ok-injective (rw q at e)) (ground arith)
      | inl (some o, q) ↦ subst (λ x. IsAside db x.1) (ok-injective (rw q at e)) (ground arith)
      | inr (x, q) ↦ absurd (ground (arith, q))
    ]

pub emit_for-IsAside :
    (i : ℕ) (t : ListingEventType) (row : SourceObservation) (db : Database)
    → IsAside db (emit_for i t row db).1
unfolding emit_for
emit_for-IsAside i t row db = ground arith

propose-IsAside :
    (l : CanonicalListing) (rent : ℕ) (other : CanonicalListing) (db : Database)
    → IsAside db (propose l rent other db)
unfolding propose
propose-IsAside l rent other db = ground arith

propose_all-IsAside :
    (l : CanonicalListing) (rent : ℕ) (others : List CanonicalListing) (db : Database)
    → IsAside db (propose_all l rent others db)
unfolding propose_all
propose_all-IsAside l rent [] db = IsAside-refl db
propose_all-IsAside l rent (o ∷ os) db =
    IsAside-trans (propose-IsAside l rent o db)
      (propose_all-IsAside l rent os (propose l rent o db))

pub generate-IsAside :
    (l : CanonicalListing) (b : Building) (db : Database)
    → IsAside db (generate_duplicate_candidates l b db)
unfolding generate_duplicate_candidates
generate-IsAside l b db = elim (Option-cases l.monthly_rent_minor) [
  | inl p ↦ rw (generate_duplicate_candidates, p) (IsAside-refl db)
  | inr (rent, p) ↦
      rw (generate_duplicate_candidates, p)
        (elim (Bool-cases (no_class l.layout_class)) [
          | inl c ↦ rw c (IsAside-refl db)
          | inr c ↦ rw c (propose_all-IsAside l rent (select (is_similar b l rent) db.listings) db)
        ])
]

pub record_all-IsAside :
    (now i : ℕ) (row : SourceObservation) (ss : List Statement) (db db' : Database)
    → record_all now i row ss db ≡ ok db'
    → IsAside db db'
unfolding record_all
record_all-IsAside now i row [] db db' e = subst (IsAside db) (ok-injective e) (IsAside-refl db)
record_all-IsAside now i row (s ∷ ss) db db' e = elim (Bool-cases s.stated) [
  | inl t ↦ elim (Result-cases (record_fact now (fact_of i s) (evidence_of row s) db)) [
    | inl (r, q) ↦
        IsAside-trans (record_fact-IsAside now (fact_of i s) (evidence_of row s) db r q)
          (record_all-IsAside now i row ss r.1 db' (rw (t, q) at e))
    | inr (x, q) ↦ cc (rw (t, q) at e)
  ]
  | inr t ↦ record_all-IsAside now i row ss db db' (rw t at e)
]

pub get_address-IsAside :
    (locality : String) (raw : Option String) (row : SourceObservation) (db : Database)
    (r : Address × Database)
    → get_address locality raw row db ≡ ok r
    → IsAside db r.1
unfolding get_address
get_address-IsAside locality none row db r e =
    subst (λ x. IsAside db x.1) (ok-injective e) (ground arith)
get_address-IsAside locality (some raw) row db r e =
    elim (Result-cases (
      scalar_one_or_none (
        select (λ a. fingerprint_is (address_fingerprint (codes raw)) a.address_fingerprint)
          db.addresses))) [
            | inl (none, p) ↦ subst (λ x. IsAside db x.1) (ok-injective (rw p at e)) (ground arith)
            | inl (some a, p) ↦
                subst (λ x. IsAside db x.1) (ok-injective (rw p at e)) (IsAside-refl db)
            | inr (x, p) ↦ cc (rw p at e)
          ]

pub get_building-IsAside :
    (a : Address) (db : Database) (r : Building × Database)
    → get_building a db ≡ ok r
    → IsAside db r.1
unfolding get_building
get_building-IsAside a db r e =
    elim (Result-cases
      (scalar_one_or_none (select (λ b. b.address_id == a.address_id) db.buildings))) [
        | inl (none, p) ↦ subst (λ x. IsAside db x.1) (ok-injective (rw p at e)) (ground arith)
        | inl (some b, p) ↦ subst (λ x. IsAside db x.1) (ok-injective (rw p at e)) (IsAside-refl db)
        | inr (x, p) ↦ cc (rw p at e)
      ]
