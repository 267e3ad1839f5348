-- ===== src/Acquisition/Runner/Verdict.antt =====
-- What decides the status and the health gate of a run, in `run_source` of acquisition/runner.py.
use nyc_rental_listing_agent.Base.{
  ◌+◌, ◌<◌, ◌≡◌, ◌↔◌, ◌⊎◌, String, Bool, true, false, ◌||◌, ◌&&◌, not, List, [], ◌∷◌, str_eq,
}
use nyc_rental_listing_agent.Base.Lists.{All, length}
use nyc_rental_listing_agent.Base.Result.{Result, ok, err}
use nyc_rental_listing_agent.Enums.Ops.{RefreshTriggerType, SourceRunStatus}
use nyc_rental_listing_agent.Enums.Listing.{DiscoveryMethod}
use nyc_rental_listing_agent.Model.Database.{Database}
use nyc_rental_listing_agent.Acquisition.Contracts.{
  SourceAdapter, Platform, AcquisitionPartition, SourcePreflightResult, DiscoveryPage,
}
use nyc_rental_listing_agent.Acquisition.Runner.Partition.{
  Progress, RunKeys, SourceRunSummary, is_done, find_checkpoint, run_partition,
}
use nyc_rental_listing_agent.Acquisition.Runner.Source.{open_run, count_partition, is_search}
use nyc_rental_listing_agent.Acquisition.Runner.Gate.{begun, blocked}

-- A page on which the source raised no doubt.
abbrev pub is_clean_page : Result DiscoveryPage → Bool
is_clean_page (err e) = false
is_clean_page (ok page) = not page.appears_truncated && not page.search_error

-- A partition, with the state in which the run takes it up, that was completed before or whose page
-- is clean.
abbrev pub is_clean : SourceAdapter → RunKeys → AcquisitionPartition × Progress → Bool
is_clean adapter keys (p, st) = elim (find_checkpoint keys p st.db) [
  | err e ↦ false
  | ok c ↦ is_done c || is_clean_page (adapter.discover p)
]

-- The partitions in their order, each with the state in which the run takes it up.
unfoldable pub visits :
    Platform
    → SourceAdapter
    → RunKeys
    → List AcquisitionPartition
    → Progress
    → List (AcquisitionPartition × Progress)
visits env adapter keys [] st = []
visits env adapter keys (p ∷ ps) st =
    let (r, next) = run_partition env adapter p keys st in
    (p, st)
    ∷ visits env adapter keys ps (record next { summary = count_partition p r next.summary })

-- The run was refused by its preflight, and says why.
pub record IsBlocked (checked : SourcePreflightResult) (s : SourceRunSummary) : Type 0 where
  pub outcome : str_eq checked.outcome "BLOCKED" ≡ true
  pub status : s.status ≡ SourceRunStatus.blocked
  pub gate : s.health_gate_passed ≡ false
  pub reasons : s.errors ≡ checked.reasons

-- The verdict of a run over the partitions that were planned.
pub record IsExact (env : Platform) (adapter : SourceAdapter) (method : DiscoveryMethod)
    (opened : RunKeys × Database) (checked : SourcePreflightResult) (s : SourceRunSummary)
    : Type 0 where
  pub ps : List AcquisitionPartition
  pub planned : adapter.plan_partitions ≡ ok ps
  pub total : s.partitions_completed + s.partitions_failed ≡ length ps
  pub healthy : (s.status ≡ SourceRunStatus.healthy) ↔ (
      (s.partitions_failed ≡ 0)
      × ((str_eq checked.outcome "DEGRADED" ≡ false)
          × All
              (λ v. is_clean adapter opened.0 v ≡ true)
              (visits env adapter opened.0 ps (begun opened.0 opened.1))))
  pub failed :
      (s.status ≡ SourceRunStatus.failed)
      ↔ ((0 < s.partitions_failed) × (s.partitions_completed ≡ 0))
  pub gate :
      (s.health_gate_passed ≡ true)
      ↔ ((s.status ≡ SourceRunStatus.healthy) × (is_search method ≡ false))

pub record IsExplained (env : Platform) (adapter : SourceAdapter) (method : DiscoveryMethod)
    (key : String) (t : RefreshTriggerType) (db : Database) (s : SourceRunSummary) : Type 0 where
  pub opened : RunKeys × Database
  pub opened_ok : open_run env adapter key t db ≡ ok opened
  pub checked : SourcePreflightResult
  pub checked_ok : adapter.preflight ≡ ok checked
  pub verdict : IsBlocked checked s ⊎ IsExact env adapter method opened checked s
