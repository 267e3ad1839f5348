-- ===== src/Model/Ops.antt =====
-- db/models/ops.py and db/models/sources.py: jobs, their attempts, runs and checkpoints. A time is
-- a number of microseconds, a UUID a number, a nullable column an `Option`.
use nyc_rental_listing_agent.Base.{ℕ, ◌*◌, Bool, String, Option, List}
use nyc_rental_listing_agent.Enums.Ops.{
  JobType, JobStatus, SourceRunStatus, RefreshRunStatus, RefreshTriggerType,
}
use nyc_rental_listing_agent.Enums.Listing.{DiscoveryMethod}

-- timedelta(seconds=n)
abbrev pub seconds : ℕ → ℕ
seconds n = n * 1000000

-- timedelta(hours=n)
abbrev pub hours : ℕ → ℕ
hours n = n * 3600000000

pub record Job : Type 0 where
  pub job_id : ℕ
  pub refresh_run_id : Option ℕ
  pub canonical_listing_id : Option ℕ
  pub job_type : JobType
  pub input_hash : String
  pub dependency_version : String
  pub status : JobStatus
  pub priority : ℕ
  pub attempt_count : ℕ
  pub max_attempts : ℕ
  pub next_attempt_at : Option ℕ
  pub started_at : Option ℕ
  pub completed_at : Option ℕ
  pub error_code : Option String
  pub lease_token : Option ℕ
  pub leased_by : Option String
  pub lease_expires_at : Option ℕ
  pub heartbeat_at : Option ℕ
  pub terminal_reason : Option String
  pub created_at : ℕ

pub record JobAttempt : Type 0 where
  pub job_id : ℕ
  pub attempt_number : ℕ
  pub lease_token : Option ℕ
  pub leased_by : Option String
  pub started_at : ℕ
  pub completed_at : Option ℕ
  pub outcome_status : Option JobStatus
  pub error_code : Option String

pub record Source : Type 0 where
  pub source_id : ℕ
  pub source_code : String

pub record RefreshRun : Type 0 where
  pub refresh_run_id : ℕ
  pub logical_run_key : String
  pub trigger_type : RefreshTriggerType
  pub started_at : ℕ
  pub completed_at : Option ℕ
  pub status : RefreshRunStatus
  pub pipeline_version : String

-- The `counts` document of a finished source run.
pub record RunCounts : Type 0 where
  pub discovered : ℕ
  pub persisted_new : ℕ
  pub duplicates_skipped : ℕ
  pub partitions_completed : ℕ
  pub partitions_failed : ℕ
  pub normalize_jobs_enqueued : ℕ
  pub discovery_method : DiscoveryMethod

pub record SourceRun : Type 0 where
  pub source_run_id : ℕ
  pub refresh_run_id : ℕ
  pub source_id : ℕ
  pub started_at : ℕ
  pub completed_at : Option ℕ
  pub status : SourceRunStatus
  pub health_gate_passed : Option Bool  -- NULL until evaluated
  pub counts : Option RunCounts
  pub error_summary : Option (List String)
  pub adapter_version : String

pub record AdapterCheckpoint : Type 0 where
  pub source_run_id : ℕ
  pub partition_key : String
  pub completed : Bool
  pub items_discovered : Option ℕ
