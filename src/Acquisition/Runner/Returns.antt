-- ===== src/Acquisition/Runner/Returns.antt =====
-- A run returns its summary, whatever happens in the partitions.
use nyc_rental_listing_agent.Base.{
  ℕ, ◌≤◌, ◌<◌, ◌≡◌, refl, sym, ◌∙◌, inl, inr, ap, subst, String, Bool, true, false, List, [], ◌∷◌,
  ◌++◌, arith, ==_refl, str_eq, Bool-cases,
}
use nyc_rental_listing_agent.Base.Lists.{All}
use nyc_rental_listing_agent.Base.Result.{Result, ok, err}
use nyc_rental_listing_agent.Base.Table.{select, exists, count}
use nyc_rental_listing_agent.Base.Table.Rules.{
  count-append, count-exists, count-select-le, members_counted, scalar-head, find_row-counted,
}
use nyc_rental_listing_agent.Base.Table.Scalar.{scalar-cases}
use nyc_rental_listing_agent.Enums.Ops.{RefreshTriggerType}
use nyc_rental_listing_agent.Enums.Listing.{DiscoveryMethod}
use nyc_rental_listing_agent.Model.Ops.{SourceRun}
use nyc_rental_listing_agent.Model.Database.{Database}
use nyc_rental_listing_agent.Acquisition.Contracts.{
  SourceAdapter, Platform, AcquisitionPartition, SourcePreflightResult,
}
use nyc_rental_listing_agent.Acquisition.Runs.{
  has_key, scalar_one, is_run_of, new_refresh_run, add_refresh_run, create_or_join, new_source_run,
  add_source_run, create_source_run,
}
use nyc_rental_listing_agent.Acquisition.Runner.Partition.{
  Progress, RunKeys, SourceRunSummary, run_partition,
}
use nyc_rental_listing_agent.Acquisition.Runner.Source.{
  has_code, open_run, count_partition, degraded_by, run_partitions, judge_run, source_run_is,
  finalize, run_source,
}
use nyc_rental_listing_agent.Acquisition.Runner.Steps.{run_partitions-IsAcquired}
use nyc_rental_listing_agent.Acquisition.Runner.Counts.{run_partition-IsCounted}
use nyc_rental_listing_agent.Acquisition.Runner.Gate.{
  run_planned-at, opened-at, verdict_of, begun, blocked,
}

exists-zero {ℓ} : {A : Type ℓ} (p : A → Bool) (xs : List A) → count p xs ≡ 0 → exists p xs ≡ false
exists-zero p xs h = elim (Bool-cases (exists p xs)) [
  | inl e ↦ absurd (omega (arith, count-exists p xs e, h))
  | inr e ↦ e
]

scalar_one-select {ℓ} :
    {A : Type ℓ} (p : A → Bool) (xs : List A)
    → exists p xs ≡ true
    → count p xs ≤ 1
    → (x : A) × (scalar_one (select p xs) ≡ ok x)
scalar_one-select p xs e h = elim (scalar-cases p xs h) [
  | inl (_, k) ↦ absurd (omega (arith, count-exists p xs e, k))
  | inr (x, f, _) ↦ (x, rw (scalar-head (select p xs) f) refl)
]

-- The run that is joined or created, with the source runs as they were.
create_or_join-returns :
    (key : String) (t : RefreshTriggerType) (now : ℕ) (version : String) (db : Database)
    → count (has_key key) db.refresh_runs ≤ 1
    → (r : (ℕ × Bool) × Database) × ((create_or_join key t now version db ≡ ok r)
        × (r.1.source_runs ≡ db.source_runs))
unfolding create_or_join
create_or_join-returns key t now version db h =
    elim (Bool-cases (exists (has_key key) db.refresh_runs)) [
      | inl e ↦
          let (x, f) = scalar_one-select (has_key key) db.refresh_runs e h in
          (((x.refresh_run_id, false), db), (rw (create_or_join, e, f) refl, refl))
      | inr e ↦ (
        ((db.next_id, true), add_refresh_run (new_refresh_run db.next_id key t now version) db),
        (rw (create_or_join, e) refl, refl),
      )
    ]

last_listed :
    (rows : List SourceRun) (r : SourceRun)
    → 0 < count (source_run_is r.source_run_id) (rows ++ r ∷ [])
last_listed rows r =
    rw (count-append (source_run_is r.source_run_id) rows (r ∷ []), ==_refl r.source_run_id)
      (omega arith)

-- The row of the run: a session's commit leaves it in the table.
Opens : Platform → SourceAdapter → String → RefreshTriggerType → Database → Type 0
Opens env adapter key t db =
    (o : RunKeys × Database) × ((open_run env adapter key t db ≡ ok o)
      × (0 < count (source_run_is o.0.source_run_id) o.1.source_runs))

open_run-Opens :
    (env : Platform) (adapter : SourceAdapter) (key : String) (t : RefreshTriggerType)
    (db : Database)
    → count (has_code adapter.source_code) db.sources ≡ 1
    → count (has_key key) db.refresh_runs ≤ 1
    → ((run source : ℕ) → count (is_run_of run source) db.source_runs ≤ 1)
    → Opens env adapter key t db
unfolding open_run create_source_run Opens
open_run-Opens env adapter key t db registered joins once =
    elim (scalar-cases (has_code adapter.source_code) db.sources (omega (arith, registered))) [
      | inl (_, k) ↦ absurd (omega (arith, registered, k))
      | inr (s, p, _) ↦
          let now = env.clock db.next_id in
          let (j, (q, same)) = create_or_join-returns key t now "0.2.0" db joins in
          let w = is_run_of j.0.0 s.source_id in
          elim (scalar-cases w j.1.source_runs
            (subst (λ rows. count w rows ≤ 1) (sym same) (once j.0.0 s.source_id))) [
              | inl (u, zero_rows) ↦ (
                (
                  record {
                    source_id = s.source_id;
                    source_run_id = j.1.next_id;
                    refresh_run_id = j.0.0;
                  },
                  add_source_run
                      (new_source_run j.1.next_id j.0.0 s.source_id now adapter.adapter_version)
                      j.1,
                ),
                (
                  rw (p, q, u, create_source_run, exists-zero w j.1.source_runs zero_rows) refl,
                  last_listed j.1.source_runs
                      (new_source_run j.1.next_id j.0.0 s.source_id now adapter.adapter_version),
                ),
              )
              | inr (r, u, _) ↦ (
                (
                  record {
                    source_id = s.source_id;
                    source_run_id = r.source_run_id;
                    refresh_run_id = j.0.0;
                  },
                  j.1,
                ),
                (
                  rw (p, q, u) refl,
                  row_listed r j.1.source_runs (select w j.1.source_runs)
                      (λ a. count-select-le a w j.1.source_runs)
                      (scalar-head (select w j.1.source_runs) u),
                ),
              )
            ]
    ]
  where
    row_listed :
        (r : SourceRun) (rows found : List SourceRun)
        → ((a : SourceRun → Bool) → count a found ≤ count a rows)
        → found ≡ r ∷ []
        → 0 < count (source_run_is r.source_run_id) rows
    row_listed r rows found below e =
        (subst
            (λ xs.
              All
                (λ x.
                  source_run_is x.source_run_id x ≡ true
                  → 0 < count (source_run_is x.source_run_id) rows)
                xs)
            e (members_counted (λ x. source_run_is x.source_run_id) rows found below)).0
          (==_refl r.source_run_id)

finalize-returns :
    (env : Platform) (method : DiscoveryMethod) (s : SourceRunSummary) (db : Database)
    → 0 < count (source_run_is s.source_run_id) db.source_runs
    → (finalize env method s db).0 ≡ ok s
unfolding finalize
finalize-returns env method s db h =
    let (r, f, _) = find_row-counted (source_run_is s.source_run_id) db.source_runs h in
    rw (finalize, f) refl

count_partition-names_run :
    (p : AcquisitionPartition) (r : Result Bool) (s : SourceRunSummary)
    → (count_partition p r s).source_run_id ≡ s.source_run_id
count_partition-names_run p (ok b) s = refl
count_partition-names_run p (err e) s = refl

run_partitions-names_run :
    (env : Platform) (adapter : SourceAdapter) (keys : RunKeys) (ps : List AcquisitionPartition)
    (degraded : Bool) (st : Progress)
    → (run_partitions env adapter keys ps degraded st).1.summary.source_run_id
      ≡ st.summary.source_run_id
unfolding run_partitions
run_partitions-names_run env adapter keys [] degraded st = refl
run_partitions-names_run env adapter keys (p ∷ ps) degraded st =
    let step = run_partition env adapter p keys st in
    run_partitions-names_run env adapter keys ps (degraded_by step.0 degraded)
      (record step.1 { summary = count_partition p step.0 step.1.summary })
    ∙ (count_partition-names_run p step.0 step.1.summary
        ∙ (run_partition-IsCounted env adapter keys p st).named)

judged_names_run :
    (method : DiscoveryMethod) (degraded : Bool) (s : SourceRunSummary)
    → (judge_run method degraded s).source_run_id ≡ s.source_run_id
unfolding judge_run
judged_names_run method degraded s = refl

-- A partition's exception stays in its partition: where the source is registered once, the unique
-- constraints of the runs' tables hold (a logical key names one refresh run at most, a refresh run and
-- a source one source run at most), and the preflight and the plan return, the run returns a summary,
-- whatever `discover`, `fetch_detail` and `extract` return or raise.
pub run_source-returns :
    (env : Platform) (adapter : SourceAdapter) (key : String) (t : RefreshTriggerType)
    (method : DiscoveryMethod) (db : Database) (checked : SourcePreflightResult)
    (ps : List AcquisitionPartition)
    → count (has_code adapter.source_code) db.sources ≡ 1
    → count (has_key key) db.refresh_runs ≤ 1
    → ((run source : ℕ) → count (is_run_of run source) db.source_runs ≤ 1)
    → adapter.preflight ≡ ok checked
    → adapter.plan_partitions ≡ ok ps
    → (s : SourceRunSummary) × ((run_source env adapter key t method db).0 ≡ ok s)
unfolding Opens
run_source-returns env adapter key t method db checked ps registered joins once ready planned =
    let (o, (e, stored)) = open_run-Opens env adapter key t db registered joins once in
    let entry = opened-at env adapter method key t db o (ok checked) e ready in
    elim (Bool-cases (str_eq checked.outcome "BLOCKED")) [
      | inl b ↦ (
        blocked o.0.source_run_id checked.reasons,
        ap (λ r. r.0) (rw b at entry)
            ∙ finalize-returns env method (blocked o.0.source_run_id checked.reasons) o.1 stored,
      )
      | inr b ↦
          let degraded = str_eq checked.outcome "DEGRADED" in
          let ran = run_partitions env adapter o.0 ps degraded (begun o.0 o.1) in
          let s = verdict_of method ran in
          let named =
            judged_names_run method ran.0 ran.1.summary
            ∙ run_partitions-names_run env adapter o.0 ps degraded (begun o.0 o.1) in
          let lasting =
            (run_partitions-IsAcquired env adapter o.0 ps degraded (begun o.0 o.1)).runs
              o.0.source_run_id in
          (
            s,
            ap (λ r. r.0) (rw b at entry)
                ∙ (ap (λ r. r.0)
                      (run_planned-at env adapter method o.0 degraded o.1 (ok ps) planned)
                    ∙ finalize-returns env method s ran.1.db (
                        subst (λ i. 0 < count (source_run_is i) ran.1.db.source_runs) (sym named)
                          (omega (arith, stored, lasting)))),
          )
    ]
