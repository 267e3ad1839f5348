-- ===== src/Jobs/Refresh.antt =====
-- jobs/weekday_refresh.py: the order of the stages of a refresh, and the record of the run.
pub mod Outcome
use Prim.Native.String.{◌++◌ as text_append}
use nyc_rental_listing_agent.Base.{
  ℕ, ◌+◌, String, Bool, true, false, ◌&&◌, Option, none, some, List, [], ◌∷◌, if◌then◌else◌,
}
use nyc_rental_listing_agent.Base.Result.{Result, ok, err, ◌>>=◌}
use nyc_rental_listing_agent.Enums.Listing.{DiscoveryMethod}
use nyc_rental_listing_agent.Enums.Ops.{
  RefreshTriggerType, RefreshRunStatus, SourceRunStatus, same_run_status,
}
use nyc_rental_listing_agent.Model.Database.{Database}
use nyc_rental_listing_agent.Canonical.Admission.{AdmissionSummary, evaluate_candidates}
use nyc_rental_listing_agent.Acquisition.Contracts.{SourceAdapter, Platform}
use nyc_rental_listing_agent.Acquisition.Runs.{create_or_join, set_status}
use nyc_rental_listing_agent.Acquisition.Runner.Partition.{SourceRunSummary}
use nyc_rental_listing_agent.Acquisition.Runner.Source.{run_source}
use nyc_rental_listing_agent.Acquisition.Drain.{drain_normalize_jobs}

-- The services that a refresh calls between normalization and admission, and those of a manual one.
-- Each has its session, and gives the database that it commits, or raises.
pub record Stages : Type 0 where
  pub discard_inventory : Database → Result Database
  pub geocode_pending : Database → Result Database
  pub validate_boundaries : Database → Result Database
  pub enrich_transit : Database → Result Database
  pub detail_enrichment : Database → Result Database

abbrev pub is_manual : RefreshTriggerType → Bool
is_manual RefreshTriggerType.manual = true
is_manual _ = false

-- The key of the local day, where the caller gives none.
abbrev pub refresh_key : (local_date : String) → Option String → String
refresh_key local_date none =
    text_append "weekday_inventory_refresh:" (text_append local_date ":v1")
refresh_key local_date (some key) = key

-- The sources, one after the other: an exception of `run_source` ends the refresh.
unfoldable pub run_sources :
    Platform
    → (key : String) → RefreshTriggerType
    → List SourceAdapter
    → Database
    → Result (List SourceRunSummary) × Database
unfolding run_source
run_sources env key trigger [] db = (ok [], db)
run_sources env key trigger (adapter ∷ adapters) db =
    let (r, ran) = run_source env adapter key trigger DiscoveryMethod.search_index db in
    elim r [
      | err e ↦ (err e, ran)
      | ok s ↦
          let (rest, last) = run_sources env key trigger adapters ran in
          (rest >>= λ ss. ok (s ∷ ss), last)
    ]

-- A stage after stages that gave no exception.
abbrev pub then_stage :
    (Database → Result Database) → Result (Unit {0}) × Database → Result (Unit {0}) × Database
then_stage stage (err e, db) = (err e, db)
then_stage stage (ok u, db) = elim (stage db) [ err e ↦ (err e, db) | ok after ↦ (ok u, after) ]

abbrev pub no_stage : Database → Result Database
no_stage db = ok db

unfoldable pub enrich :
    Platform → Stages → RefreshTriggerType → Database → Result (Unit {0}) × Database
unfolding evaluate_candidates
enrich env stages trigger db =
    then_stage (if is_manual trigger then stages.detail_enrichment else no_stage) (
      then_stage (λ d. ok (evaluate_candidates (env.clock d.next_id) 1000 d).1)
        (then_stage stages.enrich_transit
          (then_stage stages.validate_boundaries (then_stage stages.geocode_pending (ok tt, db)))))

abbrev pub all_healthy : List SourceRunSummary → Bool
all_healthy [] = true
all_healthy (s ∷ ss) = same_run_status s.status SourceRunStatus.healthy && all_healthy ss

unfoldable pub refresh_status : List SourceRunSummary → RefreshRunStatus
unfolding same_run_status
refresh_status ss =
    if all_healthy ss then RefreshRunStatus.succeeded else RefreshRunStatus.partial_success

abbrev pub exit_code : RefreshRunStatus → ℕ
exit_code RefreshRunStatus.failed = 1
exit_code _ = 0

-- The last session, with the exit code.
unfoldable pub finish :
    Platform
    → (key : String) → RefreshTriggerType
    → List SourceRunSummary
    → Database
    → Result (ℕ × Database)
unfolding create_or_join set_status refresh_status
finish env key trigger ss db = do
  joined ← create_or_join key trigger (env.clock db.next_id) "0.2.0" db
  set ← set_status joined.0.0 (refresh_status ss) (some (env.clock joined.1.next_id)) joined.1
  ok (exit_code (refresh_status ss), set)

-- What follows the sources.
unfoldable pub refresh_inventory :
    Platform
    → Stages
    → (locked : ℕ → Bool) → (key : String) → RefreshTriggerType
    → List SourceRunSummary
    → Database
    → Result ℕ × Database
unfolding drain_normalize_jobs enrich finish
refresh_inventory env stages locked key trigger ss db =
    let (drained, normalized) =
      drain_normalize_jobs env "normalize-worker" locked DiscoveryMethod.search_index 1000 db in
    elim drained [
      | err e ↦ (err e, normalized)
      | ok n ↦
          let (done, enriched) = enrich env stages trigger normalized in
          elim done [
            | err e ↦ (err e, enriched)
            | ok u ↦ elim (finish env key trigger ss enriched) [
              | err e ↦ (err e, enriched)
              | ok (code, last) ↦ (ok code, last)
            ]
          ]
    ]

unfoldable pub run_weekday_refresh :
    Platform
    → Stages
    → (locked : ℕ → Bool) → List SourceAdapter
    → (local_date : String) → RefreshTriggerType
    → (logical_key : Option String) → Database
    → Result ℕ × Database
unfolding run_sources refresh_inventory
run_weekday_refresh env stages locked adapters local_date trigger logical_key db =
    let key = refresh_key local_date logical_key in
    let (cleared, start) =
      then_stage (if is_manual trigger then stages.discard_inventory else no_stage) (ok tt, db) in
    elim cleared [
      | err e ↦ (err e, start)
      | ok u ↦
          let (r, acquired) = run_sources env key trigger adapters start in
          elim r [
            | err e ↦ (err e, acquired)
            | ok ss ↦ refresh_inventory env stages locked key trigger ss acquired
          ]
    ]
