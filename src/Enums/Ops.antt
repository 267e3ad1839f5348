-- ===== src/Enums/Ops.antt =====
-- The enumerations of contracts/enums.py that runs, jobs and model calls use. Each is stored as its text; two members
-- are the same exactly when their texts are.
use nyc_rental_listing_agent.Base.{◌≡◌, ◌↔◌, Bool, true, false, arith}

pub data RefreshTriggerType : Type 0 where
  scheduled manual replay retry : RefreshTriggerType

pub data RefreshRunStatus : Type 0 where
  pending running partial_success succeeded failed cancelled : RefreshRunStatus

pub data SourceRunStatus : Type 0 where
  pending running healthy degraded failed blocked cancelled : SourceRunStatus

SourceRunStatus-discrete : Discrete SourceRunStatus
SourceRunStatus-discrete = hlevel

unfoldable pub same_run_status : SourceRunStatus → SourceRunStatus → Bool
unfolding SourceRunStatus-discrete
same_run_status a b = elim (SourceRunStatus-discrete a b) [ yes h ↦ true | no h ↦ false ]

pub same_run_status_iff : (a b : SourceRunStatus) → (same_run_status a b ≡ true) ↔ (a ≡ b)
unfolding same_run_status
same_run_status_iff a b = ground arith

pub data ParseStatus : Type 0 where
  valid partial invalid blocked : ParseStatus

pub data JobType : Type 0 where
  normalize identity_resolve reconcile llm_extract media_fetch media_classify : JobType
  floorplan_match geocode transit_enrich commute_enrich validate export : JobType

JobType-discrete : Discrete JobType
JobType-discrete = hlevel

unfoldable pub same_job_type : JobType → JobType → Bool
unfolding JobType-discrete
same_job_type a b = elim (JobType-discrete a b) [ yes h ↦ true | no h ↦ false ]

pub same_job_type_iff : (a b : JobType) → (same_job_type a b ≡ true) ↔ (a ≡ b)
unfolding same_job_type
same_job_type_iff a b = ground arith

pub data JobStatus : Type 0 where
  pending running succeeded failed_retryable failed_terminal blocked cancelled cached : JobStatus

JobStatus-discrete : Discrete JobStatus
JobStatus-discrete = hlevel

unfoldable pub same_job_status : JobStatus → JobStatus → Bool
unfolding JobStatus-discrete
same_job_status a b = elim (JobStatus-discrete a b) [ yes h ↦ true | no h ↦ false ]

pub same_job_status_iff : (a b : JobStatus) → (same_job_status a b ≡ true) ↔ (a ≡ b)
unfolding same_job_status
same_job_status_iff a b = ground arith

pub data ModelTier : Type 0 where
  local default_hosted flagship_escalation : ModelTier

pub data ModelExecutionStatus : Type 0 where
  pending succeeded failed cached escalated : ModelExecutionStatus

pub data TransitMode : Type 0 where
  subway path bus rail ferry other : TransitMode

pub data UsefulnessStatus : Type 0 where
  useful candidate not_useful unresolved : UsefulnessStatus
