-- ===== src/Canonical/Disappearance/Breaker.antt =====
-- Inactivation in canonical/disappearance.py: the circuit breaker, the support and the overrides.
use nyc_rental_listing_agent.Base.{
  ℕ, ◌+◌, ◌≤◌, ◌≡◌, refl, sym, ap, ◌∙◌, inl, inr, Bool, true, false, ◌||◌, some, List, [], ◌∷◌,
  arith, ◌==◌, ==_iff, ltb, Bool-cases, Option-cases, subst,
}
use nyc_rental_listing_agent.Base.Lists.{All, All-mono, length}
use nyc_rental_listing_agent.Base.Result.{ok, ok-injective}
use nyc_rental_listing_agent.Base.Table.{select, exists, count, update_where, find_row}
use nyc_rental_listing_agent.Base.Table.Rules.{All-select_self}
use nyc_rental_listing_agent.Model.Ops.{SourceRun}
use nyc_rental_listing_agent.Model.Listings.{CanonicalListing, ListingSourceLink}
use nyc_rental_listing_agent.Model.Database.{Database}
use nyc_rental_listing_agent.Canonical.Events.{emit}
use nyc_rental_listing_agent.Canonical.Merge.{listing_is}
use nyc_rental_listing_agent.Canonical.Disappearance.{
  DisappearanceSummary, judge_link, judge_links, judged_link, observed_in, supports,
  keeps_lifecycle, is_eligible, is_active_listing, cap_of, inactivate, apply_breaker,
  inactivate_unsupported, process_source_run, nothing_done,
}

-- An update of other rows leaves a selection.
select-update_other {ℓ} :
    {A : Type ℓ} (q p : A → Bool) (f : A → A)
    → ((x : A) → p x ≡ true → (q x ≡ false) × (q (f x) ≡ false))
    → (xs : List A) → select q (update_where p f xs) ≡ select q xs
select-update_other q p f apart [] = refl
select-update_other q p f apart (x ∷ xs) = elim (Bool-cases (p x)) [
  | inl e ↦ let (a, b) = apart x e in rw (e, a, b) (select-update_other q p f apart xs)
  | inr e ↦ elim (Bool-cases (q x)) [
    | inl d ↦ rw (e, d) (ap (λ r. x ∷ r) (select-update_other q p f apart xs))
    | inr d ↦ rw (e, d) (select-update_other q p f apart xs)
  ]
]

inactivate-length :
    (now n : ℕ) (rows : List CanonicalListing) (db : Database)
    → (inactivate now rows (n, db)).0 ≡ n + length rows
unfolding inactivate
inactivate-length now n [] db = omega arith
inactivate-length now n (l ∷ rows) db = inactivate-length now (n + 1) rows _ ∙ omega arith

inactivate-others :
    (now n i : ℕ) (rows : List CanonicalListing) (db : Database)
    → All (λ l. listing_is i l ≡ false) rows
    → select (listing_is i) (inactivate now rows (n, db)).1.listings
      ≡ select (listing_is i) db.listings
unfolding inactivate emit
inactivate-others now n i [] db h = refl
inactivate-others now n i (l ∷ rows) db h =
    inactivate-others now (n + 1) i rows _ h.1
    ∙ select-update_other (listing_is i) (listing_is l.canonical_listing_id) _
        (λ x e. (ground (arith, e, h.0), ground (arith, e, h.0))) db.listings

apply_breaker-others :
    (now i : ℕ) (rows : List CanonicalListing) (s : DisappearanceSummary) (db : Database)
    → All (λ l. listing_is i l ≡ false) rows
    → select (listing_is i) (apply_breaker now rows s db).1.listings
      ≡ select (listing_is i) db.listings
unfolding apply_breaker
apply_breaker-others now i [] s db h = refl
apply_breaker-others now i (l ∷ rows) s db h =
    elim (Bool-cases (ltb (cap_of (count is_active_listing db.listings)) (length (l ∷ rows)))) [
      | inl e ↦ rw (apply_breaker, e) refl
      | inr e ↦
          rw (apply_breaker, e) (inactivate-others now s.listings_inactivated i (l ∷ rows) db h)
    ]

apply_breaker-bounds :
    (now : ℕ) (rows : List CanonicalListing) (s : DisappearanceSummary) (db : Database)
    → s.listings_inactivated ≡ 0
    → s.breaker_tripped ≡ false
    → ((apply_breaker now rows s db).0.listings_inactivated ≤ 50)
      × ((apply_breaker now rows s db).0.breaker_tripped ≡ true
          → ((apply_breaker now rows s db).1.listings ≡ db.listings)
            × ((apply_breaker now rows s db).0.listings_inactivated ≡ 0))
unfolding apply_breaker
apply_breaker-bounds now [] s db h k = (omega (arith, h), λ t. cc)
apply_breaker-bounds now (l ∷ rows) s db h k =
    let counted = inactivate-length now s.listings_inactivated (l ∷ rows) db in
    elim (Bool-cases (ltb (cap_of (count is_active_listing db.listings)) (length (l ∷ rows)))) [
      | inl e ↦ rw (apply_breaker, e) (omega (arith, h), λ t. (refl, h))
      | inr e ↦ rw (apply_breaker, e) (ground (arith, counted, h, e), λ t. cc)
    ]

eligible-apart :
    (i : ℕ) (db : Database)
    → ((exists (supports i) db.links || exists (keeps_lifecycle i) db.overrides) ≡ true)
    → (l : CanonicalListing) → is_eligible db l ≡ true
    → listing_is i l ≡ false
unfolding is_eligible
eligible-apart i db h l e = elim (Bool-cases (listing_is i l)) [
  | inl m ↦
      let same : l.canonical_listing_id ≡ i = (==_iff l.canonical_listing_id i).0 m in
      absurd (
        ground (
          arith,
          subst
              (λ j.
                (exists (supports j) db.links || exists (keeps_lifecycle j) db.overrides) ≡ true)
              (sym same) h,
          e,
        ))
  | inr m ↦ m
]

-- A listing with a link that still supports it, or whose lifecycle an active override keeps, has its
-- row unchanged by the inactivation.
pub inactivate_unsupported-keeps :
    (now i : ℕ) (s : DisappearanceSummary) (db : Database)
    → ((exists (supports i) db.links || exists (keeps_lifecycle i) db.overrides) ≡ true)
    → select (listing_is i) (inactivate_unsupported now s db).1.listings
      ≡ select (listing_is i) db.listings
unfolding inactivate_unsupported
inactivate_unsupported-keeps now i s db h =
    apply_breaker-others now i (select (is_eligible db) db.listings) s db (
      All-mono _ (eligible-apart i db h) (select (is_eligible db) db.listings)
        (All-select_self (is_eligible db) db.listings))

-- What the judgement of the links leaves.
record IsLeft (r s : DisappearanceSummary × Database) : Type 0 where
  inactivated : r.0.listings_inactivated ≡ s.0.listings_inactivated
  tripped : r.0.breaker_tripped ≡ s.0.breaker_tripped
  listings : r.1.listings ≡ s.1.listings
  overrides : r.1.overrides ≡ s.1.overrides

judge_link-IsLeft :
    (now : ℕ) (run : SourceRun) (observed : Bool) (k : ListingSourceLink) (s : DisappearanceSummary)
    (db : Database)
    → IsLeft (judge_link now run observed k (s, db)) (s, db)
unfolding judge_link emit
judge_link-IsLeft now run observed k s db = record {
  inactivated = ground arith;
  tripped = ground arith;
  listings = ground arith;
  overrides = ground arith;
}

judge_links-IsLeft :
    (now : ℕ) (run : SourceRun) (read : Database) (ks : List ListingSourceLink)
    (s : DisappearanceSummary × Database)
    → IsLeft (judge_links now run read ks s) s
unfolding judge_links
judge_links-IsLeft now run read [] s = record {
  inactivated = refl;
  tripped = refl;
  listings = refl;
  overrides = refl;
}
judge_links-IsLeft now run read (k ∷ ks) s =
    let first =
      judge_link-IsLeft now run (observed_in run.source_run_id read.observations k) k s.0 s.1 in
    let rest =
      judge_links-IsLeft now run read ks
        (judge_link now run (observed_in run.source_run_id read.observations k) k s) in
    record {
      inactivated = rest.inactivated ∙ first.inactivated;
      tripped = rest.tripped ∙ first.tripped;
      listings = rest.listings ∙ first.listings;
      overrides = rest.overrides ∙ first.overrides;
    }

-- The bounds on a run from `db` to `db'` with the summary `s`.
pub record IsSafe (s : DisappearanceSummary) (db db' : Database) : Type 0 where
  pub bounded : s.listings_inactivated ≤ 50
  pub blocked :
      s.breaker_tripped ≡ true → (db'.listings ≡ db.listings) × (s.listings_inactivated ≡ 0)
  pub overridden :
      (i : ℕ)
      → exists (keeps_lifecycle i) db.overrides ≡ true
      → select (listing_is i) db'.listings ≡ select (listing_is i) db.listings

judged-IsSafe :
    (now : ℕ) (s : DisappearanceSummary) (db judged : Database)
    → s.listings_inactivated ≡ 0
    → s.breaker_tripped ≡ false
    → judged.listings ≡ db.listings
    → judged.overrides ≡ db.overrides
    → IsSafe (inactivate_unsupported now s judged).0 db (inactivate_unsupported now s judged).1
unfolding inactivate_unsupported
judged-IsSafe now s db judged h k same_listings same_overrides =
    let (few, stopped) =
      apply_breaker-bounds now (select (is_eligible judged) judged.listings) s judged h k in
    record {
      bounded = few;
      blocked = λ t. let (l, n) = stopped t in (l ∙ same_listings, n);
      overridden = λ i o.
          inactivate_unsupported-keeps now i s judged (kept i o)
          ∙ ap (λ ls. select (listing_is i) ls) same_listings;
    }
  where
    kept :
        (i : ℕ)
        → exists (keeps_lifecycle i) db.overrides ≡ true
        → (exists (supports i) judged.links || exists (keeps_lifecycle i) judged.overrides) ≡ true
    kept i o = rw (same_overrides, o) (ground arith)

-- A run of a source that is processed inactivates at most 50 listings; where the breaker trips, every
-- listing is as it was and none is inactivated; and a listing whose lifecycle an active override keeps
-- has its row unchanged.
pub process_source_run-IsSafe :
    (now run_id : ℕ) (s : DisappearanceSummary) (db db' : Database)
    → process_source_run now run_id db ≡ ok (s, db')
    → IsSafe s db db'
unfolding process_source_run
process_source_run-IsSafe now run_id s db db' e =
    elim (Option-cases (find_row (λ r. r.source_run_id == run_id) db.source_runs)) [
      | inl p ↦ absurd (ground (arith, p))
      | inr (run, p) ↦
          let links = select (judged_link run.source_id) db.links in
          let r = judge_links now run db links (nothing_done, db) in
          let left = judge_links-IsLeft now run db links (nothing_done, db) in
          let safe =
            judged-IsSafe now r.0 db r.1 left.inactivated left.tripped left.listings
              left.overrides in
          elim (Option-cases run.health_gate_passed) [
            | inl g ↦ refused (ok-injective (rw (p, g) at e))
            | inr (false, g) ↦ refused (ok-injective (rw (p, g) at e))
            | inr (true, g) ↦ subst (λ q. IsSafe q.0 db q.1) (ok-injective (rw (p, g) at e)) safe
          ]
    ]
  where
    refused :
        Path
          (DisappearanceSummary × Database)
          (record nothing_done { refused_reason = some "health_gate_not_passed" }, db)
          (s, db')
        → IsSafe s db db'
    refused same =
        subst (λ q. IsSafe q.0 db q.1) same
          (record { bounded = omega arith; blocked = λ t. cc; overridden = λ i o. refl })
