-- ===== src/Canonical/Selection/Entries.antt =====
-- The rows of a client and a target under `set_entry` of canonical/selection_service.py.
use nyc_rental_listing_agent.Base.{
  ℕ, ◌+◌, ◌≤◌, ◌≡◌, refl, inl, inr, true, ◌&&◌, String, Option, none, some, List, [], ◌∷◌, ◌++◌,
  arith, ◌==◌, ==_iff, ==_refl, Bool-cases, &&_left, &&_right,
}
use nyc_rental_listing_agent.Base.Lists.{All, All-mono, All-append, length, length-append}
use nyc_rental_listing_agent.Base.Result.{ok}
use nyc_rental_listing_agent.Base.Table.{exists, count, update_where}
use nyc_rental_listing_agent.Base.Table.Rules.{
  count-append, count-update_same, All-update_if, count-zero, count_mono,
}
use nyc_rental_listing_agent.Base.Table.Scalar.{scalar-cases}
use nyc_rental_listing_agent.Enums.Human.{ShortlistEntryStatus, ActorType}
use nyc_rental_listing_agent.Model.Clients.{ClientShortlistEntry}
use nyc_rental_listing_agent.Model.Database.{Database}
use nyc_rental_listing_agent.Canonical.Selection.{
  one_target, targets, lists, preset_is, target_exists, insert_entry, put_entry, set_entry,
  audit_entry, or_kept,
}
use nyc_rental_listing_agent.Canonical.Selection.Targets.{targets-apart, targets-own}

-- At most one entry for each client and target.
unfoldable pub IsListedOnce : List ClientShortlistEntry → Type 0
IsListedOnce rows = (p : ℕ) (c d : Option ℕ) → count (lists p c d) rows ≤ 1

record Written (p : ℕ) (a b : Option ℕ) (status : ShortlistEntryStatus)
    (after : List ClientShortlistEntry) : Type 0 where
  once : IsListedOnce after
  one : count (lists p a b) after ≡ 1
  chosen : All (λ x. lists p a b x ≡ true → x.entry_status ≡ status) after

inserted :
    (p : ℕ) (a b : Option ℕ) (row : ClientShortlistEntry) (rows : List ClientShortlistEntry)
    → one_target a b ≡ ok tt
    → row.client_search_preset_id ≡ p
    → row.canonical_listing_id ≡ a
    → row.company_property_id ≡ b
    → count (lists p a b) rows ≡ 0
    → IsListedOnce rows
    → Written p a b row.entry_status (rows ++ row ∷ [])
unfolding IsListedOnce
inserted p a b row rows e rp ra rb zero_rows once = record {
  once = λ q c d. elim (Bool-cases (p == q && targets c d a b)) [
    | inl t ↦
        rw (count-append (lists q c d) rows (row ∷ []), rp, ra, rb, t)
          (omega (arith, zero_rows, count_mono (lists q c d) (lists p a b) rows (same q c d t)))
    | inr t ↦
        rw (count-append (lists q c d) rows (row ∷ []), rp, ra, rb, t) (omega (arith, once q c d))
  ];
  one =
      rw (count-append (lists p a b) rows (row ∷ []), rp, ra, rb, targets-own a b e, ==_refl p)
        (omega (arith, zero_rows));
  chosen =
      All-append _ rows (row ∷ [])
        (All-mono _ (λ x n t. cc) rows (count-zero (lists p a b) rows zero_rows)) (λ t. refl, tt);
}
  where
    same :
        (q : ℕ) (c d : Option ℕ)
        → (p == q && targets c d a b) ≡ true
        → (x : ClientShortlistEntry) → lists q c d x ≡ true
        → lists p a b x ≡ true
    same q c d t x m =
        let t' = &&_right (p == q) (targets c d a b) t in
        let pq : p ≡ q = (==_iff p q).0 (&&_left (p == q) (targets c d a b) t) in
        ground
          (arith, pq, m, targets-apart a b c d e t' x.canonical_listing_id x.company_property_id)

updated :
    (p : ℕ) (a b : Option ℕ) (status : ShortlistEntryStatus)
    (f : ClientShortlistEntry → ClientShortlistEntry) (rows : List ClientShortlistEntry)
    → count (lists p a b) rows ≡ 1
    → ((x : ClientShortlistEntry)
        → ((f x).client_search_preset_id ≡ x.client_search_preset_id)
          × ((f x).canonical_listing_id ≡ x.canonical_listing_id)
          × ((f x).company_property_id ≡ x.company_property_id)
          × ((f x).entry_status ≡ status))
    → IsListedOnce rows
    → Written p a b status (update_where (lists p a b) f rows)
unfolding IsListedOnce
updated p a b status f rows one keeps once = record {
  once = λ q c d. rw (same q c d) (once q c d);
  one = rw (same p a b) one;
  chosen =
      All-update_if _ (lists p a b) f (λ x _ _. let (_, _, _, s) = keeps x in s) (λ x n t. cc) rows;
}
  where
    same :
        (q : ℕ) (c d : Option ℕ)
        → count (lists q c d) (update_where (lists p a b) f rows) ≡ count (lists q c d) rows
    same q c d =
        count-update_same (lists q c d) (lists p a b) f
          (λ x. let (h, i, j, _) = keeps x in rw (h, i, j)) rows

-- A human's choice for one client and one target that exist is accepted where each client has one row at
-- most for a target: then it has exactly one, with the chosen status, no client has two for a target,
-- one audit entry is added, and the marketing selections and the clients are as they were.
pub set_entry-total :
    (now preset : ℕ) (canonical company : Option ℕ) (status : ShortlistEntryStatus) (actor : String)
    (remark : Option String) (db : Database)
    → one_target canonical company ≡ ok tt
    → exists (preset_is preset) db.presets ≡ true
    → target_exists canonical company db ≡ true
    → IsListedOnce db.entries
    → (db' : Database) × (set_entry now preset canonical company status actor ActorType.human remark
          db
        ≡ ok db')
      × (count (lists preset canonical company) db'.entries ≡ 1)
      × All (λ x. lists preset canonical company x ≡ true → x.entry_status ≡ status) db'.entries
      × IsListedOnce db'.entries
      × (length db'.audit ≡ length db.audit + 1)
      × (db'.selections ≡ db.selections)
      × (db'.presets ≡ db.presets)
unfolding set_entry put_entry audit_entry IsListedOnce
set_entry-total now p a b status actor n db e known there once =
    elim (scalar-cases (lists p a b) db.entries (once p a b)) [
      | inl (r, c) ↦
          let db' =
            audit_entry a b status actor ActorType.human n none
              (insert_entry now p a b status actor n db) in
          let w =
            inserted p a b
              (record {
                client_shortlist_entry_id = db.next_id;
                client_search_preset_id = p;
                canonical_listing_id = a;
                company_property_id = b;
                entry_status = status;
                added_by = actor;
                added_at = now;
                note = n;
              })
              db.entries e refl refl refl c once in
          (
            db',
            rw (e, r, known, there) refl,
            w.one,
            w.chosen,
            w.once,
            length-append db.audit _,
            refl,
            refl,
          )
      | inr (x, r, c) ↦
          let db' = audit_entry a b status actor ActorType.human n (some x) (record db {
            entries =
                update_where (lists p a b)
                  (λ row. record row { entry_status = status; note = or_kept n row.note })
                  db.entries;
          }) in
          let w =
            updated p a b status
              (λ row. record row { entry_status = status; note = or_kept n row.note }) db.entries c
              (λ x. (refl, refl, refl, refl)) once in
          (db', rw (e, r) refl, w.one, w.chosen, w.once, length-append db.audit _, refl, refl)
    ]
