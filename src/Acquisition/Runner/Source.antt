-- ===== src/Acquisition/Runner/Source.antt =====
-- `run_source` and `_finalize` of acquisition/runner.py.
use nyc_rental_listing_agent.Base.{
  ℕ, ◌+◌, String, Bool, true, false, ◌&&◌, ◌||◌, not, Option, none, some, List, [], ◌∷◌, ◌++◌, ltb,
  ◌==◌, str_eq, if◌then◌else◌,
}
use Prim.Native.String.{◌++◌ as text_append}
use nyc_rental_listing_agent.Base.Lists.{take}
use nyc_rental_listing_agent.Base.Result.{
  Result, ok, err, Error, ◌>>=◌, lookup_error, assertion_error, human_action_required, merge_error,
  value_error, multiple_results, integrity_error, no_result, provider_error,
}
use nyc_rental_listing_agent.Base.Table.{select, update_where, find_row, scalar_one_or_none}
use nyc_rental_listing_agent.Enums.Ops.{RefreshTriggerType, SourceRunStatus, same_run_status}
use nyc_rental_listing_agent.Enums.Listing.{DiscoveryMethod}
use nyc_rental_listing_agent.Model.Ops.{SourceRun, RunCounts, Source}
use nyc_rental_listing_agent.Model.Database.{Database}
use nyc_rental_listing_agent.Acquisition.Contracts.{SourceAdapter, Platform, AcquisitionPartition}
use nyc_rental_listing_agent.Acquisition.Runs.{create_or_join, create_source_run, is_run_of}
use nyc_rental_listing_agent.Acquisition.Runner.Partition.{
  SourceRunSummary, Progress, RunKeys, run_partition,
}

-- `type(exc).__name__`
abbrev pub error_name : Error → String
error_name human_action_required = "HumanActionRequired"
error_name merge_error = "MergeError"
error_name value_error = "ValueError"
error_name lookup_error = "LookupError"
error_name multiple_results = "MultipleResultsFound"
error_name assertion_error = "AssertionError"
error_name integrity_error = "IntegrityError"
error_name no_result = "NoResultFound"
error_name (provider_error name) = name

abbrev pub has_code : String → Source → Bool
has_code code s = str_eq s.source_code code

-- Transaction 1.
unfoldable pub open_run :
    Platform
    → SourceAdapter
    → (logical_run_key : String) → RefreshTriggerType
    → Database
    → Result (RunKeys × Database)
unfolding create_or_join create_source_run
open_run env adapter key trigger db = do
  found ← scalar_one_or_none (select (has_code adapter.source_code) db.sources)
  source ← elim found [ none ↦ err lookup_error | some s ↦ ok s ]
  joined ← create_or_join key trigger (env.clock db.next_id) "0.2.0" db
  let run = joined.0.0
  existing ← scalar_one_or_none (select (is_run_of run source.source_id) joined.1.source_runs)
  opened ← elim existing [
    | some r ↦ ok (r.source_run_id, joined.1)
    | none ↦
        create_source_run run source.source_id (env.clock db.next_id) adapter.adapter_version
          joined.1
  ]
  ok (
    record { source_id = source.source_id; source_run_id = opened.0; refresh_run_id = run },
    opened.1,
  )

abbrev pub new_summary : (source_run_id : ℕ) → SourceRunSummary
new_summary i = record {
  source_run_id = i;
  status = SourceRunStatus.running;
  health_gate_passed = false;
  discovered = 0;
  persisted_new = 0;
  duplicates_skipped = 0;
  partitions_completed = 0;
  partitions_failed = 0;
  normalize_jobs_enqueued = 0;
  errors = [];
}

-- A partition's end, on the summary and on `degraded`.
abbrev pub count_partition :
    AcquisitionPartition → Result Bool → SourceRunSummary → SourceRunSummary
count_partition p (ok b) s = record s { partitions_completed = s.partitions_completed + 1 }
count_partition p (err e) s = record s {
  partitions_failed = s.partitions_failed + 1;
  errors = s.errors ++ text_append p.partition_key (text_append ": " (error_name e)) ∷ [];
}

abbrev pub degraded_by : Result Bool → Bool → Bool
degraded_by (ok b) degraded = degraded || b
degraded_by (err e) degraded = degraded

-- The loop over the partitions: an exception ends its partition alone.
unfoldable pub run_partitions :
    Platform
    → SourceAdapter
    → RunKeys
    → List AcquisitionPartition
    → (degraded : Bool) → Progress
    → Bool × Progress
unfolding run_partition
run_partitions env adapter keys [] degraded st = (degraded, st)
run_partitions env adapter keys (p ∷ ps) degraded st =
    let (r, next) = run_partition env adapter p keys st in
    run_partitions env adapter keys ps (degraded_by r degraded)
      (record next { summary = count_partition p r next.summary })

unfoldable pub status_of : (degraded : Bool) → SourceRunSummary → SourceRunStatus
status_of degraded s =
    if ltb 0 s.partitions_failed && s.partitions_completed == 0
    then SourceRunStatus.failed
    else if ltb 0 s.partitions_failed || degraded
    then SourceRunStatus.degraded
    else SourceRunStatus.healthy

abbrev pub is_search : DiscoveryMethod → Bool
is_search DiscoveryMethod.search_index = true
is_search _ = false

unfoldable pub judge_run : DiscoveryMethod → (degraded : Bool) → SourceRunSummary → SourceRunSummary
unfolding status_of same_run_status
judge_run method degraded s =
    let status = status_of degraded s in
    record s {
      status = status;
      health_gate_passed = same_run_status status SourceRunStatus.healthy && not (is_search method);
    }

abbrev pub source_run_is : ℕ → SourceRun → Bool
source_run_is i r = r.source_run_id == i

abbrev pub counts_of : DiscoveryMethod → SourceRunSummary → RunCounts
counts_of method s = record {
  discovered = s.discovered;
  persisted_new = s.persisted_new;
  duplicates_skipped = s.duplicates_skipped;
  partitions_completed = s.partitions_completed;
  partitions_failed = s.partitions_failed;
  normalize_jobs_enqueued = s.normalize_jobs_enqueued;
  discovery_method = method;
}

-- The first fifty errors, where there are any.
abbrev pub errors_or : List String → Option (List String) → Option (List String)
errors_or [] old = old
errors_or (x ∷ xs) old = some (take 50 (x ∷ xs))

abbrev pub closed : (now : ℕ) → DiscoveryMethod → SourceRunSummary → SourceRun → SourceRun
closed now method s r = record r {
  status = s.status;
  completed_at = some now;
  health_gate_passed = some s.health_gate_passed;
  counts = some (counts_of method s);
  error_summary = errors_or s.errors r.error_summary;
}

unfoldable pub finalize :
    Platform → DiscoveryMethod → SourceRunSummary → Database → Result SourceRunSummary × Database
finalize env method s db = elim (find_row (source_run_is s.source_run_id) db.source_runs) [
  | none ↦ (err assertion_error, db)
  | some r ↦ (
    ok s,
    record db {
      source_runs =
          update_where (source_run_is s.source_run_id) (closed (env.clock db.next_id) method s)
            db.source_runs;
    },
  )
]

-- The part of `run_source` after a preflight that does not block.
unfoldable pub run_planned :
    Platform
    → SourceAdapter
    → DiscoveryMethod
    → RunKeys
    → (degraded : Bool) → Database
    → Result SourceRunSummary × Database
unfolding run_partitions judge_run finalize
run_planned env adapter method keys degraded db = elim adapter.plan_partitions [
  | err e ↦ (err e, db)
  | ok ps ↦
      let (found, st) =
        run_partitions env adapter keys ps degraded
          (record { db = db; summary = new_summary keys.source_run_id; seen = [] }) in
      finalize env method (judge_run method found st.summary) st.db
]

unfoldable pub run_source :
    Platform
    → SourceAdapter
    → (logical_run_key : String) → RefreshTriggerType
    → DiscoveryMethod
    → Database
    → Result SourceRunSummary × Database
unfolding open_run run_planned finalize
run_source env adapter key trigger method db = elim (open_run env adapter key trigger db) [
  | err e ↦ (err e, db)
  | ok (keys, opened) ↦ elim adapter.preflight [
    | err e ↦ (err e, opened)
    | ok checked ↦
        if str_eq checked.outcome "BLOCKED"
        then finalize env method
            (record (new_summary keys.source_run_id) {
              status = SourceRunStatus.blocked;
              errors = checked.reasons;
            })
            opened
        else run_planned env adapter method keys (str_eq checked.outcome "DEGRADED") opened
  ]
]
