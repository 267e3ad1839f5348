-- ===== src/Canonical/Disappearance/Removal.antt =====
-- The removal of links in canonical/disappearance.py.
use nyc_rental_listing_agent.Base.{
  ℕ, ◌+◌, ◌-◌, ◌≤◌, ◌<◌, ◌≡◌, ◌⊎◌, inl, inr, refl, sym, ◌∙◌, ap, Bool, true, false, ◌&&◌, not, some,
  List, [], ◌∷◌, ◌==◌, leb, arith, Bool-cases, Option-cases,
}
use nyc_rental_listing_agent.Base.Lists.{All, All-intro, All-mono}
use nyc_rental_listing_agent.Base.Result.{ok, ok-injective}
use nyc_rental_listing_agent.Base.Table.{count, select, find_row}
use nyc_rental_listing_agent.Base.Table.Rules.{All-select_self, count-select-le, count-update-le}
use nyc_rental_listing_agent.Enums.Listing.{LinkStatus}
use nyc_rental_listing_agent.Model.Ops.{SourceRun, hours}
use nyc_rental_listing_agent.Model.Listings.{ListingSourceLink, CanonicalListing}
use nyc_rental_listing_agent.Model.Database.{Database}
use nyc_rental_listing_agent.Canonical.Events.{emit}
use nyc_rental_listing_agent.Canonical.Merge.{link_is}
use nyc_rental_listing_agent.Canonical.Disappearance.{
  DisappearanceSummary, nothing_done, healthy_after, judged_link, observed_in, is_missing_link,
  is_active_link, set_link, judge_link, judge_links, is_eligible, inactivate, apply_breaker,
  inactivate_unsupported, process_source_run,
}

-- A link of the key is removed.
abbrev pub is_removed : ℕ → ListingSourceLink → Bool
is_removed j k = link_is j k && elim k.link_status [ LinkStatus.removed ↦ true | _ ↦ false ]

-- What must speak against a link of the key: it is of the run's source, the run did not observe it,
-- two runs that passed the gate started after its last sighting, and that is 36 hours ago.
abbrev pub is_lost : (now : ℕ) → SourceRun → Database → ℕ → ListingSourceLink → Bool
is_lost now run db j k =
    link_is j k
    && k.source_id == run.source_id
    && not (observed_in run.source_run_id db.observations k)
    && leb 2 (count (healthy_after run.source_id k.last_seen_at) db.source_runs)
    && leb (k.last_seen_at + hours 36) now

-- An update of the links that makes no removed link of the key.
set_link-removed :
    (i j : ℕ) (status : LinkStatus) (db : Database)
    → ((x : ListingSourceLink)
        → link_is i x ≡ true
        → is_removed j (record x { link_status = status }) ≡ true
        → is_removed j x ≡ true)
    → count (is_removed j) (set_link i status db).links ≤ count (is_removed j) db.links
set_link-removed i j status db h =
    count-update-le (is_removed j) (λ _. Unit {0}) (link_is i)
      (λ x. record x { link_status = status }) (λ x _. h x) db.links
      (All-intro _ (λ x. tt) db.links)

-- A turn of the loop.
record IsTurn (gone : Bool) (j : ℕ) (before after : Database) : Type 0 where
  removes : (count (is_removed j) after.links ≤ count (is_removed j) before.links) ⊎ (gone ≡ true)
  runs : after.source_runs ≡ before.source_runs

judge_link-IsTurn :
    (now : ℕ) (run : SourceRun) (read : Database) (j : ℕ) (k : ListingSourceLink)
    (s : DisappearanceSummary) (db : Database)
    → k.source_id ≡ run.source_id
    → db.source_runs ≡ read.source_runs
    → IsTurn
        (is_lost now run read j k)
        j
        db
        (judge_link now run (observed_in run.source_run_id read.observations k) k (s, db)).1
unfolding judge_link emit
judge_link-IsTurn now run read j k s db own runs =
    let i = k.listing_source_link_id in
    let seen = observed_in run.source_run_id read.observations k in
    let misses = count (healthy_after run.source_id k.last_seen_at) db.source_runs in
    let same : misses ≡ count (healthy_after run.source_id k.last_seen_at) read.source_runs =
      ap (count (healthy_after run.source_id k.last_seen_at)) runs in
    elim (Bool-cases seen) [
      | inl e ↦ elim (Bool-cases (is_missing_link k.link_status)) [
        | inl m ↦
            rw (judge_link, e, m)
              (record {
                removes =
                    inl (set_link-removed i j LinkStatus.active db (λ x _ t. ground (arith, t)));
                runs = refl;
              })
        | inr m ↦ rw (judge_link, e, m) (record { removes = inl (omega arith); runs = refl })
      ]
      | inr e ↦ elim (Bool-cases (leb 2 misses && leb (hours 36) (now - k.last_seen_at))) [
        | inl g ↦
            rw (judge_link, e, g)
              (record {
                removes = elim (Bool-cases (i == j)) [
                  | inl t ↦ inr (ground (arith, t, own, e, g, same))
                  | inr t ↦ inl (
                      set_link-removed i j LinkStatus.removed db (λ x a b. ground (arith, a, b, t)))
                ];
                runs = refl;
              })
        | inr g ↦ elim (Bool-cases (is_active_link k.link_status)) [
          | inl m ↦
              rw (judge_link, e, g, m)
                (record {
                  removes =
                      inl (set_link-removed i j LinkStatus.missing db (λ x _ t. ground (arith, t)));
                  runs = refl;
                })
          | inr m ↦ rw (judge_link, e, g, m) (record { removes = inl (omega arith); runs = refl })
        ]
      ]
    ]

judge_links-gone :
    (now : ℕ) (run : SourceRun) (read : Database) (j : ℕ) (ks : List ListingSourceLink)
    (s : DisappearanceSummary × Database)
    → All (λ k. k.source_id ≡ run.source_id) ks
    → s.1.source_runs ≡ read.source_runs
    → (count (is_removed j) (judge_links now run read ks s).1.links
        ≤ count (is_removed j) s.1.links)
      ⊎ (0 < count (is_lost now run read j) ks)
unfolding judge_links
judge_links-gone now run read j [] s own runs = inl (omega arith)
judge_links-gone now run read j (k ∷ ks) s own runs =
    let turn = judge_link-IsTurn now run read j k s.0 s.1 own.0 runs in
    elim turn.removes [
      | inr g ↦ inr (rw g (omega arith))
      | inl few ↦
          elim (judge_links-gone now run read j ks
            (judge_link now run (observed_in run.source_run_id read.observations k) k s) own.1
            (turn.runs ∙ runs)) [
              | inl rest ↦ inl (omega (arith, few, rest))
              | inr g ↦ inr (omega (arith, g))
            ]
    ]

inactivate-links :
    (now n : ℕ) (rows : List CanonicalListing) (db : Database)
    → (inactivate now rows (n, db)).1.links ≡ db.links
unfolding inactivate emit
inactivate-links now n [] db = refl
inactivate-links now n (l ∷ rows) db = inactivate-links now (n + 1) rows _

apply_breaker-links :
    (now : ℕ) (rows : List CanonicalListing) (s : DisappearanceSummary) (db : Database)
    → (apply_breaker now rows s db).1.links ≡ db.links
unfolding apply_breaker
apply_breaker-links now [] s db = refl
apply_breaker-links now (l ∷ rows) s db =
    ground (arith, inactivate-links now s.listings_inactivated (l ∷ rows) db)

-- A run that passed the gate, and that speaks against a link of the key.
pub record IsWarranted (now run_id j : ℕ) (db : Database) : Type 0 where
  pub run : SourceRun
  pub found_run : find_row (λ r. r.source_run_id == run_id) db.source_runs ≡ some run
  pub passed : run.health_gate_passed ≡ some true
  pub gone : 0 < count (is_lost now run db j) db.links

-- Processing a run removes no link but for cause: where no link of a key is REMOVED before and one is
-- after, the run passed the gate, and a link of the key is of its source and not observed in it, was
-- last seen 36 hours ago or earlier, and two runs of the source that passed the gate started since.
pub process_source_run-removes :
    (now run_id j : ℕ) (s : DisappearanceSummary) (db db' : Database)
    → process_source_run now run_id db ≡ ok (s, db')
    → count (is_removed j) db.links ≡ 0
    → 0 < count (is_removed j) db'.links
    → IsWarranted now run_id j db
unfolding process_source_run inactivate_unsupported
process_source_run-removes now run_id j s db db' e before after =
    elim (Option-cases (find_row (λ r. r.source_run_id == run_id) db.source_runs)) [
      | inl p ↦ absurd (ground (arith, p))
      | inr (run, p) ↦
          let links = select (judged_link run.source_id) db.links in
          let r = judge_links now run db links (nothing_done, db) in
          let own : All (λ k. k.source_id ≡ run.source_id) links =
            All-mono _ (λ k t. ground (arith, t)) links
              (All-select_self (judged_link run.source_id) db.links) in
          elim (Option-cases run.health_gate_passed) [
            | inl g ↦ refused run (ap (λ x. x.1.links) (ok-injective (rw (p, g) at e)))
            | inr (false, g) ↦ refused run (ap (λ x. x.1.links) (ok-injective (rw (p, g) at e)))
            | inr (true, g) ↦
                let last = ap (λ x. x.1.links) (ok-injective (rw (p, g) at e)) in
                let kept =
                  apply_breaker-links now (select (is_eligible r.1) r.1.listings) r.0 r.1 in
                let same = ap (count (is_removed j)) (sym last ∙ kept) in
                elim (judge_links-gone now run db j links (nothing_done, db) own refl) [
                  | inl few ↦ absurd (omega (arith, few, before, after, same))
                  | inr gone ↦ record {
                    run = run;
                    found_run = p;
                    passed = g;
                    gone = omega (
                      arith,
                      gone,
                      count-select-le (is_lost now run db j) (judged_link run.source_id) db.links,
                    );
                  }
                ]
          ]
    ]
  where
    refused : SourceRun → db.links ≡ db'.links → IsWarranted now run_id j db
    refused run same = absurd (omega (arith, before, after, ap (count (is_removed j)) same))
