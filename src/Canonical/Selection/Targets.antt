-- ===== src/Canonical/Selection/Targets.antt =====
-- The rows of a target under `set_selection` of canonical/selection_service.py.
use nyc_rental_listing_agent.Base.{
  ℕ, ◌+◌, ◌≤◌, ◌≡◌, refl, inl, inr, true, String, Option, none, some, List, [], ◌∷◌, ◌++◌, arith,
  Bool-cases,
}
use nyc_rental_listing_agent.Base.Lists.{All, All-mono, All-append, length, length-append}
use nyc_rental_listing_agent.Base.Result.{ok}
use nyc_rental_listing_agent.Base.Table.{count, update_where}
use nyc_rental_listing_agent.Base.Table.Rules.{
  count-append, count-update_same, All-update_if, count-zero, count_mono,
}
use nyc_rental_listing_agent.Base.Table.Scalar.{scalar-cases}
use nyc_rental_listing_agent.Enums.Human.{SelectionStatus, ActorType}
use nyc_rental_listing_agent.Model.Clients.{MarketingSelection}
use nyc_rental_listing_agent.Model.Database.{Database}
use nyc_rental_listing_agent.Canonical.Selection.{
  one_target, targets, selects, target_exists, insert_selection, put_selection, set_selection,
  or_kept, audit_selection,
}

-- A new row for one target is in the class of no other.
pub targets-apart :
    (a b c d : Option ℕ)
    → one_target a b ≡ ok tt
    → targets c d a b ≡ true
    → (x y : Option ℕ) → targets c d x y ≡ targets a b x y
targets-apart none (some i) (some j) d e t x y = cc
targets-apart none (some i) none none e t x y = cc
targets-apart none (some i) none (some j) e t x none = refl
targets-apart none (some i) none (some j) e t x (some k) = ground arith
targets-apart (some i) none (some j) d e t none y = refl
targets-apart (some i) none (some j) d e t (some k) y = ground arith
targets-apart (some i) none none none e t x y = cc
targets-apart (some i) none none (some j) e t x y = cc
targets-apart none none c d e t x y = cc
targets-apart (some i) (some j) c d e t x y = cc

pub targets-own : (a b : Option ℕ) → one_target a b ≡ ok tt → targets a b a b ≡ true
targets-own none (some i) e = ground arith
targets-own (some i) none e = ground arith
targets-own none none e = cc
targets-own (some i) (some j) e = cc

-- At most one selection row for each target.
unfoldable pub IsSelectedOnce : List MarketingSelection → Type 0
IsSelectedOnce rows = (c d : Option ℕ) → count (selects c d) rows ≤ 1

-- What the statement on the target's row leaves, whichever it is.
record Written (a b : Option ℕ) (status : SelectionStatus) (actor : String)
    (after : List MarketingSelection) : Type 0 where
  once : IsSelectedOnce after
  one : count (selects a b) after ≡ 1
  chosen :
      All
        (λ x. selects a b x ≡ true → (x.selection_status ≡ status) × (x.selected_by ≡ actor))
        after

inserted :
    (a b : Option ℕ) (row : MarketingSelection) (rows : List MarketingSelection)
    → one_target a b ≡ ok tt
    → row.canonical_listing_id ≡ a
    → row.company_property_id ≡ b
    → count (selects a b) rows ≡ 0
    → IsSelectedOnce rows
    → Written a b row.selection_status row.selected_by (rows ++ row ∷ [])
unfolding IsSelectedOnce
inserted a b row rows e ra rb zero_rows once = record {
  once = λ c d. elim (Bool-cases (targets c d a b)) [
    | inl t ↦
        rw (count-append (selects c d) rows (row ∷ []), ra, rb, t)
          (omega (
            arith,
            zero_rows,
            count_mono (selects c d) (selects a b) rows (λ x m.
                rw (targets-apart a b c d e t x.canonical_listing_id x.company_property_id) at m),
          ))
    | inr t ↦ rw (count-append (selects c d) rows (row ∷ []), ra, rb, t) (omega (arith, once c d))
  ];
  one =
      rw (count-append (selects a b) rows (row ∷ []), ra, rb, targets-own a b e)
        (omega (arith, zero_rows));
  chosen =
      All-append _ rows (row ∷ [])
        (All-mono _ (λ x n t. cc) rows (count-zero (selects a b) rows zero_rows))
        (λ t. (refl, refl), tt);
}

updated :
    (a b : Option ℕ) (status : SelectionStatus) (actor : String)
    (f : MarketingSelection → MarketingSelection) (rows : List MarketingSelection)
    → count (selects a b) rows ≡ 1
    → ((x : MarketingSelection)
        → ((f x).canonical_listing_id ≡ x.canonical_listing_id)
          × ((f x).company_property_id ≡ x.company_property_id)
          × ((f x).selection_status ≡ status)
          × ((f x).selected_by ≡ actor))
    → IsSelectedOnce rows
    → Written a b status actor (update_where (selects a b) f rows)
unfolding IsSelectedOnce
updated a b status actor f rows one keeps once = record {
  once = λ c d. rw (same c d) (once c d);
  one = rw (same a b) one;
  chosen =
      All-update_if _ (selects a b) f (λ x _ _. let (_, _, s, t) = keeps x in (s, t)) (λ x n t. cc)
        rows;
}
  where
    same :
        (c d : Option ℕ)
        → count (selects c d) (update_where (selects a b) f rows) ≡ count (selects c d) rows
    same c d =
        count-update_same (selects c d) (selects a b) f
          (λ x. let (i, j, _, _) = keeps x in rw (i, j)) rows

-- A human's choice for one target that exists is accepted where each target has one row at most: the
-- target has exactly one row, with the chosen status and the actor, no target has two, one audit
-- entry is added and the shortlists are as they were.
pub set_selection-total :
    (now : ℕ) (canonical company : Option ℕ) (status : SelectionStatus) (actor : String)
    (remark : Option String) (db : Database)
    → one_target canonical company ≡ ok tt
    → target_exists canonical company db ≡ true
    → IsSelectedOnce db.selections
    → (db' : Database) × (set_selection now canonical company status actor ActorType.human remark db
        ≡ ok db')
      × (count (selects canonical company) db'.selections ≡ 1)
      × All
          (λ x.
            selects canonical company x ≡ true
            → (x.selection_status ≡ status) × (x.selected_by ≡ actor))
          db'.selections
      × IsSelectedOnce db'.selections
      × (length db'.audit ≡ length db.audit + 1)
      × (db'.entries ≡ db.entries)
unfolding set_selection put_selection audit_selection IsSelectedOnce
set_selection-total now a b status actor n db e there once =
    elim (scalar-cases (selects a b) db.selections (once a b)) [
      | inl (r, c) ↦
          let db' =
            audit_selection a b status actor ActorType.human n none
              (insert_selection now a b status actor n db) in
          let w =
            inserted a b
              (record {
                marketing_selection_id = db.next_id;
                canonical_listing_id = a;
                company_property_id = b;
                selection_status = status;
                selected_by = actor;
                selected_at = now;
                note = n;
              })
              db.selections e refl refl c once in
          (db', rw (e, r, there) refl, w.one, w.chosen, w.once, length-append db.audit _, refl)
      | inr (x, r, c) ↦
          let db' = audit_selection a b status actor ActorType.human n (some x) (record db {
            selections =
                update_where (selects a b)
                  (λ row. record row {
                    selection_status = status;
                    selected_by = actor;
                    selected_at = now;
                    note = or_kept n row.note;
                  })
                  db.selections;
          }) in
          let w =
            updated a b status actor
              (λ row. record row {
                selection_status = status;
                selected_by = actor;
                selected_at = now;
                note = or_kept n row.note;
              })
              db.selections c (λ x. (refl, refl, refl, refl)) once in
          (db', rw (e, r) refl, w.one, w.chosen, w.once, length-append db.audit _, refl)
    ]
