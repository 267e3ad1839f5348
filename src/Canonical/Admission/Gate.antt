-- ===== src/Canonical/Admission/Gate.antt =====
-- The checks and the totals of canonical/admission.py.
use nyc_rental_listing_agent.Base.{
  ℕ, ◌+◌, ◌≤◌, ◌≡◌, ◌↔◌, ◌⊎◌, inl, inr, refl, ap, subst, ◌∙◌, true, false, not, Bool, Bool-cases,
  String, List, [], ◌∷◌, arith, if◌then◌else◌,
}
use nyc_rental_listing_agent.Base.Lists.{All, length, take, length-take-le}
use nyc_rental_listing_agent.Base.Table.{select, exists, count}
use nyc_rental_listing_agent.Base.Table.Rules.{All-update_if, select-update_apart}
use nyc_rental_listing_agent.Enums.Listing.{
  LayoutClass, BoundaryStatus, LifecycleStatus, same_boundary, same_boundary_iff, same_layout,
  same_layout_iff,
}
use nyc_rental_listing_agent.Model.Listings.{CanonicalListing, Address}
use nyc_rental_listing_agent.Model.Database.{Database}
use nyc_rental_listing_agent.Canonical.Events.{emit}
use nyc_rental_listing_agent.Canonical.Merge.{listing_is}
use nyc_rental_listing_agent.Canonical.Admission.{
  Outcome, held, AdmissionSummary, admissible_layout, acceptable_precision, blocking_resolution,
  active_link_of, out_of_scope, evaluate_one, evaluate_rows, evaluate_candidates, tally,
  awaits_admission, join_address, no_admissions, set_lifecycle,
}

-- The admission rule: all of the checks.
pub record IsAdmissible (l : CanonicalListing) (a : Address) (db : Database) : Type 0 where
  pub layout : admissible_layout l.layout_class ≡ true
  pub geography : a.boundary_status ≡ BoundaryStatus.in_scope
  pub precision : acceptable_precision a.location_precision ≡ true
  pub identity : blocking_resolution l.canonical_resolution_status ≡ false
  pub support : exists (active_link_of l.canonical_listing_id) db.links ≡ true

not_out :
    (c : LayoutClass) → admissible_layout c ≡ true → same_layout c LayoutClass.out_of_scope ≡ false
unfolding same_layout
not_out LayoutClass.studio h = refl
not_out LayoutClass.one_bedroom h = refl
not_out LayoutClass.two_bedroom h = refl
not_out LayoutClass.out_of_scope h = cc
not_out LayoutClass.unknown h = refl
not_out LayoutClass.conflicting h = refl

in_scope :
    (l : CanonicalListing) (a : Address) (db : Database)
    → IsAdmissible l a db
    → out_of_scope l a ≡ false
unfolding out_of_scope same_boundary
in_scope l a db p = rw (not_out l.layout_class p.layout, p.geography) refl

excluded_iff :
    (now : ℕ) (l : CanonicalListing) (a : Address) (db : Database)
    → ((evaluate_one now l a db).0 ≡ Outcome.excluded) ↔ (
        (l.layout_class ≡ LayoutClass.out_of_scope)
        ⊎ (a.boundary_status ≡ BoundaryStatus.out_of_scope))
unfolding evaluate_one out_of_scope
excluded_iff now l a db = (
  λ h. elim (Bool-cases (same_layout l.layout_class LayoutClass.out_of_scope)) [
    | inl e ↦ inl ((same_layout_iff l.layout_class LayoutClass.out_of_scope).0 e)
    | inr e ↦
        inr (
          (same_boundary_iff a.boundary_status BoundaryStatus.out_of_scope).0
            (ground (arith, h, e)))
  ],
  λ h. elim h [
    | inl e ↦ rw (evaluate_one, (same_layout_iff l.layout_class LayoutClass.out_of_scope).1 e) refl
    | inr e ↦ ground (arith, (same_boundary_iff a.boundary_status BoundaryStatus.out_of_scope).1 e)
  ],
)

-- What an outcome leaves of a listing.
abbrev pub LeadsTo : Outcome → (listing_id : ℕ) → (before after : Database) → Type 0
LeadsTo Outcome.activated i before after =
    All (λ l. listing_is i l ≡ true → l.lifecycle_status ≡ LifecycleStatus.active) after.listings
LeadsTo Outcome.excluded i before after =
    All (λ l. listing_is i l ≡ true → l.lifecycle_status ≡ LifecycleStatus.excluded) after.listings
LeadsTo (held reason) i before after = after ≡ before

abbrev pub others : (listing_id : ℕ) → List CanonicalListing → List CanonicalListing
others i = select (λ l. not (listing_is i l))

-- An evaluation writes its outcome, and no other listing.
pub record IsWritten (i : ℕ) (before : Database) (r : Outcome × Database) : Type 0 where
  pub leads : LeadsTo r.0 i before r.1
  pub kept : others i r.1.listings ≡ others i before.listings
  pub links : r.1.links ≡ before.links

pub record IsEvaluated (l : CanonicalListing) (a : Address) (db : Database) (r : Outcome × Database)
    : Type 0 where
  pub admits : (r.0 ≡ Outcome.activated) ↔ IsAdmissible l a db
  pub excludes : (r.0 ≡ Outcome.excluded) ↔ (
      (l.layout_class ≡ LayoutClass.out_of_scope)
      ⊎ (a.boundary_status ≡ BoundaryStatus.out_of_scope))
  pub written : IsWritten l.canonical_listing_id db r

held-IsWritten : (i : ℕ) (db : Database) (reason : String) → IsWritten i db (held reason, db)
held-IsWritten i db reason = record { leads = refl; kept = refl; links = refl }

set_lifecycle-All :
    (i : ℕ) (s : LifecycleStatus) (db : Database)
    → All (λ l. listing_is i l ≡ true → l.lifecycle_status ≡ s) (set_lifecycle i s db).listings
set_lifecycle-All i s db =
    All-update_if (λ l. listing_is i l ≡ true → l.lifecycle_status ≡ s) (listing_is i)
      (λ l. record l { lifecycle_status = s }) (λ x _ _. refl) (λ x e t. cc) db.listings

set_lifecycle-others :
    (i : ℕ) (s : LifecycleStatus) (db : Database)
    → others i (set_lifecycle i s db).listings ≡ others i db.listings
set_lifecycle-others i s db =
    select-update_apart (λ l. not (listing_is i l)) (listing_is i)
      (λ l. record l { lifecycle_status = s }) (λ x e. rw e) (λ x. refl) db.listings

evaluate_one-IsWritten :
    (now : ℕ) (l : CanonicalListing) (a : Address) (db : Database)
    → IsWritten l.canonical_listing_id db (evaluate_one now l a db)
unfolding evaluate_one emit
evaluate_one-IsWritten now l a db =
    let i = l.canonical_listing_id in
    elim (Bool-cases (out_of_scope l a)) [
      | inl e ↦
          rw (evaluate_one, e)
            (record {
              leads = set_lifecycle-All i LifecycleStatus.excluded db;
              kept = set_lifecycle-others i LifecycleStatus.excluded db;
              links = refl;
            })
      | inr e ↦ elim (Bool-cases (admissible_layout l.layout_class)) [
        | inr e2 ↦ rw (evaluate_one, e, e2) (held-IsWritten i db "layout_unresolved")
        | inl e2 ↦ elim (Bool-cases (same_boundary a.boundary_status BoundaryStatus.in_scope)) [
          | inr e3 ↦ rw (evaluate_one, e, e2, e3) (held-IsWritten i db "geography_unresolved")
          | inl e3 ↦ elim (Bool-cases (acceptable_precision a.location_precision)) [
            | inr e4 ↦
                rw (evaluate_one, e, e2, e3, e4) (held-IsWritten i db "precision_insufficient")
            | inl e4 ↦ elim (Bool-cases (blocking_resolution l.canonical_resolution_status)) [
              | inl e5 ↦
                  rw (evaluate_one, e, e2, e3, e4, e5) (held-IsWritten i db "identity_blocked")
              | inr e5 ↦ elim (Bool-cases (exists (active_link_of i) db.links)) [
                | inr e6 ↦
                    rw (evaluate_one, e, e2, e3, e4, e5, e6)
                      (held-IsWritten i db "no_active_source_link")
                | inl e6 ↦
                    rw (evaluate_one, e, e2, e3, e4, e5, e6)
                      (record {
                        leads = set_lifecycle-All i LifecycleStatus.active db;
                        kept = set_lifecycle-others i LifecycleStatus.active db;
                        links = refl;
                      })
              ]
            ]
          ]
        ]
      ]
    ]

-- A listing is activated exactly when every check passes, and excluded exactly when its layout or its
-- geography is out of scope. An activated listing is left ACTIVE and an excluded one EXCLUDED, a held
-- one leaves the database as it was; the other listings, and all links, keep their rows.
pub evaluate_one-admits :
    (now : ℕ) (l : CanonicalListing) (a : Address) (db : Database)
    → IsEvaluated l a db (evaluate_one now l a db)
unfolding evaluate_one out_of_scope
evaluate_one-admits now l a db = record {
  admits = (
    λ h. record {
      layout = ground (arith, h);
      geography = ground (arith, h, same_boundary_iff a.boundary_status BoundaryStatus.in_scope);
      precision = ground (arith, h);
      identity = ground (arith, h);
      support = ground (arith, h);
    },
    λ p.
        rw
          (
            evaluate_one,
            in_scope l a db p,
            p.layout,
            p.geography,
            p.precision,
            p.identity,
            p.support,
          )
          refl,
  );
  excludes = excluded_iff now l a db;
  written = evaluate_one-IsWritten now l a db;
}

abbrev pub is_activated : Outcome → Bool
is_activated Outcome.activated = true
is_activated _ = false

abbrev pub is_excluded : Outcome → Bool
is_excluded Outcome.excluded = true
is_excluded _ = false

abbrev pub is_held : Outcome → Bool
is_held (held reason) = true
is_held _ = false

-- The outcome reads the links only.
evaluate_one-outcome :
    (now : ℕ) (l : CanonicalListing) (a : Address) (db db' : Database)
    → db'.links ≡ db.links
    → (evaluate_one now l a db').0 ≡ (evaluate_one now l a db).0
unfolding evaluate_one
evaluate_one-outcome now l a db db' h =
    let same : exists (active_link_of l.canonical_listing_id) db'.links
        ≡ exists (active_link_of l.canonical_listing_id) db.links =
      ap (λ k. exists (active_link_of l.canonical_listing_id) k) h in
    ground (arith, same)

-- How many of the rows have an outcome, each evaluated on one database.
abbrev pub outcomes : (Outcome → Bool) → ℕ → Database → List (CanonicalListing × Address) → ℕ
outcomes p now db = count (λ r. p (evaluate_one now r.0 r.1 db).0)

-- A summary that adds rows to another.
record Adds (now : ℕ) (rows : List (CanonicalListing × Address)) (db : Database)
    (s t : AdmissionSummary) : Type 0 where
  evaluated : t.evaluated ≡ s.evaluated + length rows
  activated : t.activated ≡ s.activated + outcomes is_activated now db rows
  excluded : t.excluded ≡ s.excluded + outcomes is_excluded now db rows
  still_candidate : t.still_candidate ≡ s.still_candidate + outcomes is_held now db rows

tally-adds :
    (o : Outcome) (s : AdmissionSummary)
    → ((tally o s).evaluated ≡ s.evaluated + 1)
      × ((tally o s).activated ≡ s.activated + (if is_activated o then 1 else 0))
      × ((tally o s).excluded ≡ s.excluded + (if is_excluded o then 1 else 0))
      × ((tally o s).still_candidate ≡ s.still_candidate + (if is_held o then 1 else 0))
tally-adds Outcome.activated s = (refl, refl, omega arith, omega arith)
tally-adds Outcome.excluded s = (refl, omega arith, refl, omega arith)
tally-adds (held reason) s = (refl, omega arith, omega arith, refl)

evaluate_rows-Adds :
    (now : ℕ) (rows : List (CanonicalListing × Address)) (s : AdmissionSummary)
    (start db : Database)
    → db.links ≡ start.links
    → Adds now rows start s (evaluate_rows now rows s db).0
unfolding evaluate_rows
evaluate_rows-Adds now [] s start db h = record {
  evaluated = omega arith;
  activated = omega arith;
  excluded = omega arith;
  still_candidate = omega arith;
}
evaluate_rows-Adds now ((l, a) ∷ rows) s start db h =
    let o = (evaluate_one now l a db).0 in
    let (e, x, y, z) = tally-adds o s in
    let same : o ≡ (evaluate_one now l a start).0 = evaluate_one-outcome now l a start db h in
    let rest =
      evaluate_rows-Adds now rows (tally o s) start (evaluate_one now l a db).1
        ((evaluate_one-IsWritten now l a db).links ∙ h) in
    record {
      evaluated = omega (arith, e, rest.evaluated);
      activated = omega (
        arith,
        subst (λ w. (tally o s).activated ≡ s.activated + (if is_activated w then 1 else 0)) same x,
        rest.activated,
      );
      excluded = omega (
        arith,
        subst (λ w. (tally o s).excluded ≡ s.excluded + (if is_excluded w then 1 else 0)) same y,
        rest.excluded,
      );
      still_candidate = omega (
        arith,
        subst (λ w. (tally o s).still_candidate ≡ s.still_candidate + (if is_held w then 1 else 0))
            same z,
        rest.still_candidate,
      );
    }

-- The totals of a run over `rows`.
pub record IsTotalled (now limit : ℕ) (rows : List (CanonicalListing × Address)) (db : Database)
    (s : AdmissionSummary) : Type 0 where
  pub evaluated : s.evaluated ≡ length rows
  pub activated : s.activated ≡ outcomes is_activated now db rows
  pub excluded : s.excluded ≡ outcomes is_excluded now db rows
  pub still_candidate : s.still_candidate ≡ outcomes is_held now db rows
  pub balanced : s.evaluated ≡ s.activated + s.excluded + s.still_candidate
  pub bounded : s.evaluated ≤ limit

outcomes-split :
    (now : ℕ) (db : Database) (rows : List (CanonicalListing × Address))
    → length rows
      ≡ outcomes is_activated now db rows
        + outcomes is_excluded now db rows
        + outcomes is_held now db rows
outcomes-split now db [] = omega arith
outcomes-split now db ((l, a) ∷ rows) =
    omega (arith, one (evaluate_one now l a db).0, outcomes-split now db rows)
  where
    one :
        (o : Outcome)
        → 1
          ≡ (if is_activated o then 1 else 0)
            + (if is_excluded o then 1 else 0)
            + (if is_held o then 1 else 0)
    one Outcome.activated = refl
    one Outcome.excluded = refl
    one (held reason) = refl

-- The totals of a run count the rows of its query, the listings that await admission joined with
-- their addresses up to the limit: each row once, under the outcome that it has where the run
-- starts. They add up to the rows evaluated, no more than the limit.
pub evaluate_candidates-totals :
    (now limit : ℕ) (db : Database)
    → IsTotalled now limit
        (take limit (join_address db (select awaits_admission db.listings)))
        db
        (evaluate_candidates now limit db).0
unfolding evaluate_candidates
evaluate_candidates-totals now limit db =
    let rows = take limit (join_address db (select awaits_admission db.listings)) in
    let t = evaluate_rows-Adds now rows no_admissions db db refl in
    let few = length-take-le limit (join_address db (select awaits_admission db.listings)) in
    record {
      evaluated = omega (arith, t.evaluated);
      activated = omega (arith, t.activated);
      excluded = omega (arith, t.excluded);
      still_candidate = omega (arith, t.still_candidate);
      balanced = omega (
        arith,
        outcomes-split now db rows,
        t.evaluated,
        t.activated,
        t.excluded,
        t.still_candidate,
      );
      bounded = omega (arith, t.evaluated, few);
    }
