-- ===== src/Acquisition/Runner/Gate.antt =====
-- The health gate of a run, and what disappearance detection makes of it.
use nyc_rental_listing_agent.Base.{
  ℕ, ◌+◌, ◌≡◌, ◌⊎◌, refl, sym, ◌∙◌, inl, inr, ap, subst, String, Bool, true, false, some, List, [],
  arith, str_eq, Bool-cases, Option-cases, if◌then◌else◌,
}
use nyc_rental_listing_agent.Base.Lists.{length}
use nyc_rental_listing_agent.Base.Result.{Result, Error, ok, err, ok-injective, Result-cases}
use nyc_rental_listing_agent.Base.Table.{find_row}
use nyc_rental_listing_agent.Base.Table.Rules.{find_row-update}
use nyc_rental_listing_agent.Enums.Ops.{RefreshTriggerType, SourceRunStatus, same_run_status_iff}
use nyc_rental_listing_agent.Enums.Listing.{DiscoveryMethod}
use nyc_rental_listing_agent.Model.Ops.{SourceRun}
use nyc_rental_listing_agent.Model.Database.{Database}
use nyc_rental_listing_agent.Canonical.Disappearance.{nothing_done, process_source_run}
use nyc_rental_listing_agent.Acquisition.Contracts.{
  SourceAdapter, Platform, AcquisitionPartition, SourcePreflightResult,
}
use nyc_rental_listing_agent.Acquisition.Runner.Partition.{Progress, RunKeys, SourceRunSummary}
use nyc_rental_listing_agent.Acquisition.Runner.Source.{
  open_run, new_summary, run_partitions, status_of, is_search, judge_run, source_run_is, counts_of,
  closed, finalize, run_planned, run_source,
}
use nyc_rental_listing_agent.Acquisition.Runner.Totals.{IsBalanced, run_partitions-IsBalanced}

-- The verdict of a run: its totals, its gate, and each planned partition in one of the two counts.
pub record IsJudged (adapter : SourceAdapter) (method : DiscoveryMethod) (s : SourceRunSummary)
    : Type 0 where
  pub balanced : IsBalanced s
  pub gate :
      s.health_gate_passed ≡ true
      → (is_search method ≡ false)
        × ((s.status ≡ SourceRunStatus.healthy) × (s.partitions_failed ≡ 0))
  pub partitions :
      (ps : List AcquisitionPartition)
      → adapter.plan_partitions ≡ ok ps
      → (s.status ≡ SourceRunStatus.blocked)
        ⊎ (s.partitions_completed + s.partitions_failed ≡ length ps)

pub new_summary-IsBalanced : {i : ℕ} → IsBalanced (new_summary i)
new_summary-IsBalanced = record { jobs = omega arith; within = omega arith; accounted = λ z. refl }

judge_run-gate :
    (method : DiscoveryMethod) (degraded : Bool) (s : SourceRunSummary)
    → (judge_run method degraded s).health_gate_passed ≡ true
    → (is_search method ≡ false)
      × (((judge_run method degraded s).status ≡ SourceRunStatus.healthy)
          × (s.partitions_failed ≡ 0))
unfolding judge_run status_of
judge_run-gate method degraded s h =
    ground (arith, same_run_status_iff (status_of degraded s) SourceRunStatus.healthy)

judge_run-IsBalanced :
    (method : DiscoveryMethod) (degraded : Bool) (s : SourceRunSummary)
    → IsBalanced s
    → IsBalanced (judge_run method degraded s)
unfolding judge_run
judge_run-IsBalanced method degraded s h = record {
  jobs = h.jobs;
  within = h.within;
  accounted = h.accounted;
}

judge_run-totals :
    (method : DiscoveryMethod) (degraded : Bool) (s : SourceRunSummary)
    → ((judge_run method degraded s).partitions_completed ≡ s.partitions_completed)
      × ((judge_run method degraded s).partitions_failed ≡ s.partitions_failed)
unfolding judge_run
judge_run-totals method degraded s = (refl, refl)

-- The row of the run says what the summary says.
pub record IsRecorded (method : DiscoveryMethod) (s : SourceRunSummary) (db : Database)
    : Type 0 where
  pub row : SourceRun
  pub stored : find_row (source_run_is s.source_run_id) db.source_runs ≡ some row
  pub status : row.status ≡ s.status
  pub gate : row.health_gate_passed ≡ some s.health_gate_passed
  pub counts : row.counts ≡ some (counts_of method s)

pub finalize-IsRecorded :
    (env : Platform) (method : DiscoveryMethod) (s s' : SourceRunSummary) (db : Database)
    → (finalize env method s db).0 ≡ ok s'
    → (s' ≡ s) × IsRecorded method s (finalize env method s db).1
unfolding finalize
finalize-IsRecorded env method s s' db e =
    elim (Option-cases (find_row (source_run_is s.source_run_id) db.source_runs)) [
      | inl f ↦ cc (rw (finalize, f) at e)
      | inr (r, f) ↦ (
        sym (ok-injective (rw (finalize, f) at e)),
        rw (finalize, f)
            (record {
              row = closed (env.clock db.next_id) method s r;
              stored =
                  find_row-update (source_run_is s.source_run_id)
                    (closed (env.clock db.next_id) method s) (λ x. refl) db.source_runs f;
              status = refl;
              gate = refl;
              counts = refl;
            }),
      )
    ]

Verdict : SourceAdapter → DiscoveryMethod → Result SourceRunSummary × Database → Type 0
Verdict adapter method ran =
    (s : SourceRunSummary) → ran.0 ≡ ok s → IsJudged adapter method s × IsRecorded method s ran.1

raised-Verdict :
    (adapter : SourceAdapter) (method : DiscoveryMethod) (e : Error) (db : Database)
    → Verdict adapter method (err e, db)
unfolding Verdict
raised-Verdict adapter method e db s h = cc

finalize-Verdict :
    (env : Platform) (adapter : SourceAdapter) (method : DiscoveryMethod) (s : SourceRunSummary)
    (db : Database)
    → IsJudged adapter method s
    → Verdict adapter method (finalize env method s db)
unfolding Verdict
finalize-Verdict env adapter method s db judged s' e =
    let (same, recorded) = finalize-IsRecorded env method s s' db e in
    (
      subst (λ x. IsJudged adapter method x) (sym same) judged,
      subst (λ x. IsRecorded method x (finalize env method s db).1) (sym same) recorded,
    )

-- The verdict on the partitions that ended.
abbrev pub verdict_of : DiscoveryMethod → Bool × Progress → SourceRunSummary
verdict_of method ran = judge_run method ran.0 ran.1.summary

abbrev pub blocked : ℕ → List String → SourceRunSummary
blocked i reasons = record (new_summary i) { status = SourceRunStatus.blocked; errors = reasons }

abbrev pub begun : RunKeys → Database → Progress
begun keys db = record { db = db; summary = new_summary keys.source_run_id; seen = [] }

module _ (env : Platform) (adapter : SourceAdapter) (method : DiscoveryMethod) where
  pub run_planned-at :
      (keys : RunKeys) (degraded : Bool) (db : Database) (r : Result (List AcquisitionPartition))
      → adapter.plan_partitions ≡ r
      → run_planned env adapter method keys degraded db ≡ elim r [
        | err e ↦ (err e, db)
        | ok ps ↦
            let ran = run_partitions env adapter keys ps degraded (begun keys db) in
            finalize env method (verdict_of method ran) ran.1.db
      ]
  unfolding run_planned
  run_planned-at keys degraded db r e =
      subst
        (λ x.
          run_planned env adapter method keys degraded db
          ≡ elim x as (λ _. Result SourceRunSummary × Database) [
            | err e ↦ (err e, db)
            | ok ps ↦
                let ran = run_partitions env adapter keys ps degraded (begun keys db) in
                finalize env method (verdict_of method ran) ran.1.db
          ])
        e refl

  run_planned-Verdict :
      (keys : RunKeys) (degraded : Bool) (db : Database)
      → Verdict adapter method (run_planned env adapter method keys degraded db)
  run_planned-Verdict keys degraded db = elim (Result-cases adapter.plan_partitions) [
    | inr (x, p) ↦
        subst (Verdict adapter method) (sym (run_planned-at keys degraded db (err x) p))
          (raised-Verdict adapter method x db)
    | inl (ps, p) ↦
        let ran = run_partitions env adapter keys ps degraded (begun keys db) in
        let (balanced, partitions) =
          run_partitions-IsBalanced env adapter keys ps degraded (begun keys db)
            new_summary-IsBalanced in
        let totals = judge_run-totals method ran.0 ran.1.summary in
        subst (Verdict adapter method) (sym (run_planned-at keys degraded db (ok ps) p)) (
          finalize-Verdict env adapter method (verdict_of method ran) ran.1.db (record {
            balanced = judge_run-IsBalanced method ran.0 ran.1.summary balanced;
            gate = λ g.
                let (a, (b, c)) = judge_run-gate method ran.0 ran.1.summary g in
                (a, (b, totals.1 ∙ c));
            partitions = λ qs q. inr (
                omega (
                  arith,
                  partitions,
                  totals.0,
                  totals.1,
                  ap (length {A = AcquisitionPartition}) (ok-injective (sym p ∙ q)),
                ));
          }))
  ]

  pub opened-at :
      (key : String) (t : RefreshTriggerType) (db : Database) (o : RunKeys × Database)
      (r : Result SourcePreflightResult)
      → open_run env adapter key t db ≡ ok o
      → adapter.preflight ≡ r
      → run_source env adapter key t method db ≡ elim r [
        | err e ↦ (err e, o.1)
        | ok checked ↦
            if str_eq checked.outcome "BLOCKED"
            then finalize env method (blocked o.0.source_run_id checked.reasons) o.1
            else run_planned env adapter method o.0 (str_eq checked.outcome "DEGRADED") o.1
      ]
  unfolding run_source
  opened-at key t db o r e f =
      rw (run_source, e)
        (subst
          (λ x.
            elim adapter.preflight as (λ _. Result SourceRunSummary × Database) [
              | err e ↦ (err e, o.1)
              | ok checked ↦
                  if str_eq checked.outcome "BLOCKED"
                  then finalize env method (blocked o.0.source_run_id checked.reasons) o.1
                  else run_planned env adapter method o.0 (str_eq checked.outcome "DEGRADED") o.1
            ]
            ≡ elim x as (λ _. Result SourceRunSummary × Database) [
              | err e ↦ (err e, o.1)
              | ok checked ↦
                  if str_eq checked.outcome "BLOCKED"
                  then finalize env method (blocked o.0.source_run_id checked.reasons) o.1
                  else run_planned env adapter method o.0 (str_eq checked.outcome "DEGRADED") o.1
            ])
          f refl)

  blocked-IsJudged : (i : ℕ) (reasons : List String) → IsJudged adapter method (blocked i reasons)
  blocked-IsJudged i reasons = record {
    balanced = record { jobs = omega arith; within = omega arith; accounted = λ z. refl };
    gate = λ g. cc;
    partitions = λ ps q. inl refl;
  }

  -- The report of a run of a source is right, where the run returns one: persisted and duplicate
  -- observations together are at most the discovered items, and exactly those where no partition
  -- failed; normalize jobs are at most the new observations; each planned partition completed or
  -- failed, unless the run was blocked; the health gate passes only where the run is healthy, no
  -- partition failed and the source is not a search index; and the row of the run has the same status,
  -- gate and counts.
  pub run_source-IsJudged :
      (key : String) (t : RefreshTriggerType) (db : Database) (s : SourceRunSummary)
      → (run_source env adapter key t method db).0 ≡ ok s
      → IsJudged adapter method s × IsRecorded method s (run_source env adapter key t method db).1
  unfolding run_source Verdict
  run_source-IsJudged key t db = elim (Result-cases (open_run env adapter key t db)) [
    | inr (x, e) ↦ rw (run_source, e) (λ s h. cc)
    | inl (o, e) ↦ elim (Result-cases adapter.preflight) [
      | inr (x, f) ↦
          subst (Verdict adapter method) (sym (opened-at key t db o (err x) e f))
            (raised-Verdict adapter method x o.1)
      | inl (checked, f) ↦
          subst (Verdict adapter method) (sym (opened-at key t db o (ok checked) e f))
            (elim (Bool-cases (str_eq checked.outcome "BLOCKED")) [
              | inl b ↦ rw b (
                  finalize-Verdict env adapter method (blocked o.0.source_run_id checked.reasons)
                    o.1 (blocked-IsJudged o.0.source_run_id checked.reasons))
              | inr b ↦ rw b (run_planned-Verdict o.0 (str_eq checked.outcome "DEGRADED") o.1)
            ])
    ]
  ]

process_source_run-refuses :
    (now i : ℕ) (db : Database) (row : SourceRun)
    → find_row (source_run_is i) db.source_runs ≡ some row
    → row.health_gate_passed ≡ some false
    → process_source_run now i db
      ≡ ok (record nothing_done { refused_reason = some "health_gate_not_passed" }, db)
unfolding process_source_run
process_source_run-refuses now i db row f g = rw (f, g) refl

-- Not found by a search is no evidence that a listing is gone: where a run of a search-index source
-- returns a summary, disappearance detection on this run, at any time, refuses it and leaves the
-- database as the run left it.
pub run_source-search_refused :
    (env : Platform) (adapter : SourceAdapter) (key : String) (t : RefreshTriggerType) (now : ℕ)
    (db db' : Database) (s : SourceRunSummary)
    → run_source env adapter key t DiscoveryMethod.search_index db ≡ (ok s, db')
    → process_source_run now s.source_run_id db'
      ≡ ok (record nothing_done { refused_reason = some "health_gate_not_passed" }, db')
run_source-search_refused env adapter key t now db db' s e =
    let (judged, recorded) =
      run_source-IsJudged env adapter DiscoveryMethod.search_index key t db s (ap (λ r. r.0) e) in
    let db'' = (run_source env adapter key t DiscoveryMethod.search_index db).1 in
    subst
      (λ x.
        process_source_run now s.source_run_id x
        ≡ ok (record nothing_done { refused_reason = some "health_gate_not_passed" }, x))
      (ap (λ r. r.1) e)
      (process_source_run-refuses now s.source_run_id db'' recorded.row recorded.stored (
        recorded.gate
        ∙ ap (λ b. some b)
            (elim (Bool-cases s.health_gate_passed) [
              | inl g ↦ absurd (cc ((judged.gate g).0))
              | inr g ↦ g
            ])))
