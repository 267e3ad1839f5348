-- ===== src/Acquisition/Runs.antt =====
-- db/repositories/runs.py.
use nyc_rental_listing_agent.Base.{
  ℕ, suc, String, Bool, true, false, ◌&&◌, Option, none, some, List, [], ◌∷◌, ◌++◌, ◌==◌, str_eq,
  if◌then◌else◌,
}
use nyc_rental_listing_agent.Base.Result.{
  Result, ok, err, multiple_results, no_result, lookup_error, integrity_error, ◌>>=◌,
}
use nyc_rental_listing_agent.Base.Table.{select, exists, update_where, find_row}
use nyc_rental_listing_agent.Enums.Ops.{RefreshTriggerType, RefreshRunStatus, SourceRunStatus}
use nyc_rental_listing_agent.Model.Ops.{RefreshRun, SourceRun}
use nyc_rental_listing_agent.Model.Database.{Database}

-- `scalar_one` of SQLAlchemy's results.
abbrev pub scalar_one {ℓ} : {A : Type ℓ} → List A → Result A
scalar_one [] = err no_result
scalar_one (x ∷ []) = ok x
scalar_one (x ∷ y ∷ rest) = err multiple_results

abbrev pub has_key : String → RefreshRun → Bool
has_key key r = str_eq r.logical_run_key key

abbrev pub new_refresh_run :
    (id : ℕ)
    → (logical_run_key : String) → RefreshTriggerType
    → (started_at : ℕ) → (pipeline_version : String) → RefreshRun
new_refresh_run id key trigger started_at version = record {
  refresh_run_id = id;
  logical_run_key = key;
  trigger_type = trigger;
  started_at = started_at;
  completed_at = none;
  status = RefreshRunStatus.pending;
  pipeline_version = version;
}

abbrev pub add_refresh_run : RefreshRun → Database → Database
add_refresh_run r db = record db {
  next_id = suc db.next_id;
  refresh_runs = db.refresh_runs ++ r ∷ [];
}

unfoldable pub create_or_join :
    (logical_run_key : String)
    → RefreshTriggerType
    → (started_at : ℕ) → (pipeline_version : String) → Database
    → Result ((ℕ × Bool) × Database)
create_or_join key trigger started_at version db =
    if exists (has_key key) db.refresh_runs
    then (do
      existing ← scalar_one (select (has_key key) db.refresh_runs)
      ok ((existing.refresh_run_id, false), db))
    else ok (
      (db.next_id, true),
      add_refresh_run (new_refresh_run db.next_id key trigger started_at version) db,
    )

abbrev pub run_is : ℕ → RefreshRun → Bool
run_is i r = r.refresh_run_id == i

abbrev pub or_before : Option ℕ → Option ℕ → Option ℕ
or_before none old = old
or_before (some t) old = some t

-- Without the summary counts, which no part of the model reads.
unfoldable pub set_status :
    (refresh_run_id : ℕ) → RefreshRunStatus → (completed_at : Option ℕ) → Database → Result Database
set_status i status completed_at db = elim (find_row (run_is i) db.refresh_runs) [
  | none ↦ err lookup_error
  | some r ↦ ok (record db {
    refresh_runs =
        update_where (run_is i)
          (λ r. record r { status = status; completed_at = or_before completed_at r.completed_at })
          db.refresh_runs;
  })
]

-- The columns of the table's unique constraint.
abbrev pub is_run_of : (refresh_run_id source_id : ℕ) → SourceRun → Bool
is_run_of run source r = r.refresh_run_id == run && r.source_id == source

abbrev pub new_source_run :
    (id refresh_run_id source_id started_at : ℕ) → (adapter_version : String) → SourceRun
new_source_run id run source started_at version = record {
  source_run_id = id;
  refresh_run_id = run;
  source_id = source;
  started_at = started_at;
  completed_at = none;
  status = SourceRunStatus.pending;
  health_gate_passed = none;
  counts = none;
  error_summary = none;
  adapter_version = version;
}

abbrev pub add_source_run : SourceRun → Database → Database
add_source_run r db = record db { next_id = suc db.next_id; source_runs = db.source_runs ++ r ∷ [] }

unfoldable pub create_source_run :
    (refresh_run_id source_id started_at : ℕ)
    → (adapter_version : String) → Database
    → Result (ℕ × Database)
create_source_run run source started_at version db =
    if exists (is_run_of run source) db.source_runs
    then err integrity_error
    else ok
        (db.next_id, add_source_run (new_source_run db.next_id run source started_at version) db)
