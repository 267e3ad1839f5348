-- ===== src/Tests/Acquisition.antt =====
-- A run of a source with one partition of two items, and the drain of its job.
use nyc_rental_listing_agent.Base.{
  ℕ, ◌≡◌, ◌≤◌, refl, Bool, false, none, some, [], ◌∷◌, List, arith, ◌==◌, if◌then◌else◌, str_eq,
}
use nyc_rental_listing_agent.Base.Result.{Result, ok, err, provider_error}
use nyc_rental_listing_agent.Enums.Listing.{DiscoveryMethod}
use nyc_rental_listing_agent.Enums.Ops.{RefreshTriggerType, JobType}
use nyc_rental_listing_agent.Model.Ops.{Job}
use nyc_rental_listing_agent.Model.Database.{Database, empty}
use nyc_rental_listing_agent.Canonical.Disappearance.{nothing_done, process_source_run}
use nyc_rental_listing_agent.Jobs.Queue.Enqueue.{JobIdentity, same_identity, new_job, enqueue}
use nyc_rental_listing_agent.Jobs.Queue.Claim.{claim}
use nyc_rental_listing_agent.Jobs.Queue.Claims.{IsClaimed}
use nyc_rental_listing_agent.Jobs.Queue.Invariant.{IsSound, enqueue-IsSound}
use nyc_rental_listing_agent.Acquisition.Contracts.{
  SourceAdapter, Platform, AcquisitionPartition, SourcePreflightResult,
}
use nyc_rental_listing_agent.Acquisition.Runner.Partition.{
  Progress, RunKeys, SourceRunSummary, run_partition,
}
use nyc_rental_listing_agent.Acquisition.Runner.Source.{new_summary, run_source}
use nyc_rental_listing_agent.Acquisition.Runner.Kept.{IsAcquired}
use nyc_rental_listing_agent.Acquisition.Runner.Whole.{run_source-IsAcquired}
use nyc_rental_listing_agent.Acquisition.Runner.Gate.{run_source-search_refused}
use nyc_rental_listing_agent.Acquisition.Runner.Returns.{run_source-returns}
use nyc_rental_listing_agent.Acquisition.Runner.Resume.{run_partition-resumes}
use nyc_rental_listing_agent.Acquisition.Drain.{is_normalize, drain_normalize_jobs}
use nyc_rental_listing_agent.Acquisition.Drain.Soundness.{
  drain_normalize_jobs-IsSound, drain_normalize_jobs-strands,
}
use nyc_rental_listing_agent.Jobs.Refresh.{Stages, run_weekday_refresh}
use nyc_rental_listing_agent.Jobs.Refresh.{refresh_key}
use nyc_rental_listing_agent.Jobs.Refresh.Outcome.{IsClosed, run_weekday_refresh-IsClosed}
use nyc_rental_listing_agent.Tests.Normalization.{parsed}

abbrev platform : Platform
platform = record {
  clock = λ n. n;
  uuid_text = λ n. if n == 52 then "id-52" else "id-54";
  uuid_of = λ s. if str_eq s "id-52" then some 52 else if str_eq s "id-54" then some 54 else none;
  observation_hash = λ o. "sha";
}

abbrev downtown : AcquisitionPartition
downtown = record {
  source_code = "s";
  partition_key = "downtown";
  geography = "New York";
  layout = none;
}

abbrev uptown : AcquisitionPartition
uptown = record {
  source_code = "s";
  partition_key = "uptown";
  geography = "New York";
  layout = none;
}

abbrev checked : SourcePreflightResult
checked = record { outcome = "READY"; reasons = [] }

-- One page for each partition; the second item of a page cannot be fetched uptown.
abbrev site : SourceAdapter
site = record {
  source_code = "s";
  adapter_version = "1";
  preflight = ok checked;
  plan_partitions = ok (downtown ∷ uptown ∷ []);
  discover = λ p. ok (record {
    items =
        (record { source_native_id = some "a-1"; detail_url = "u" })
        ∷ (record { source_native_id = none; detail_url = p.partition_key })
        ∷ [];
    appears_truncated = false;
    search_error = false;
  });
  fetch_detail = λ i.
      if str_eq i.detail_url "uptown"
      then err (provider_error "TimeoutError")
      else ok (record { final_url = i.detail_url; retrieved_at = 5; content_hash = i.detail_url });
  extract = λ c. ok (record (parsed 5 none) { source_native_id = none; source_url = c.final_url });
}

abbrev registered : Database
registered = record empty {
  next_id = 50;
  sources = (record { source_id = 4; source_code = "s" }) ∷ [];
}

abbrev summary_of : Result SourceRunSummary → SourceRunSummary
summary_of (ok s) = s
summary_of (err e) = new_summary 0

abbrev searched : Result SourceRunSummary × Database
searched =
    run_source platform site "monday" RefreshTriggerType.manual DiscoveryMethod.search_index
      registered

run_source-IsAcquired_example : IsAcquired registered searched.1
run_source-IsAcquired_example =
    run_source-IsAcquired platform site "monday" RefreshTriggerType.manual
      DiscoveryMethod.search_index registered

run_source-search_refused_example :
    process_source_run 90 (summary_of searched.0).source_run_id searched.1
    ≡ ok (record nothing_done { refused_reason = some "health_gate_not_passed" }, searched.1)
unfolding run_source same_identity
run_source-search_refused_example =
    run_source-search_refused platform site "monday" RefreshTriggerType.manual 90 registered
      searched.1 (summary_of searched.0) refl

run_source-returns_example : (s : SourceRunSummary) × (searched.0 ≡ ok s)
run_source-returns_example =
    run_source-returns platform site "monday" RefreshTriggerType.manual DiscoveryMethod.search_index
      registered checked (downtown ∷ uptown ∷ []) refl (omega arith) (λ run source. omega arith)
      refl refl

abbrev keys : RunKeys
keys = record { source_id = 4; source_run_id = 51; refresh_run_id = 50 }

abbrev begun : Progress
begun = record { db = registered; summary = new_summary 51; seen = [] }

abbrev ran : Result Bool × Progress
ran = run_partition platform site downtown keys begun

run_partition-resumes_example : run_partition platform site downtown keys ran.1 ≡ (ok false, ran.1)
unfolding run_partition same_identity
run_partition-resumes_example =
    run_partition-resumes platform platform site site downtown keys begun ran.1 false refl refl

nothing_queued : IsSound registered
nothing_queued = record {
  valid = tt;
  one_live = λ k. omega arith;
  keys_unique = λ i. omega arith;
  keys_below = tt;
  tokens_below = tt;
}

drain_normalize_jobs-IsSound_example :
    (let ran =
        drain_normalize_jobs platform "w" (λ i. false) DiscoveryMethod.search_index 10 searched.1 in
      IsSound ran.1 × ((n : ℕ) → ran.0 ≡ ok n → n ≤ 10))
drain_normalize_jobs-IsSound_example =
    drain_normalize_jobs-IsSound platform "w" (λ i. false) DiscoveryMethod.search_index 10
      searched.1 (run_source-IsAcquired_example.sound nothing_queued)

abbrev export_identity : JobIdentity
export_identity = record {
  job_type = JobType.export;
  canonical_listing_id = none;
  input_hash = "all";
  dependency_version = "1";
}

abbrev queued : Database
queued = (enqueue 5 export_identity none 10 3 none registered).1

abbrev claimed_of : Result (List Job × Database) → List Job × Database
claimed_of (ok r) = r
claimed_of (err e) = ([], empty)

abbrev taken : List Job × Database
taken = claimed_of (claim 51 "w" 300 1 (λ i. false) queued)

abbrev first_of : List Job → Job
first_of [] = new_job 5 50 export_identity none 10 3 none
first_of (j ∷ js) = j

drain_normalize_jobs-strands_example :
    (drain_normalize_jobs platform "w" (λ i. false) DiscoveryMethod.search_index 10 queued
      ≡ (ok 0, taken.1))
    × IsClaimed 51 51 300 "w" (first_of taken.0)
unfolding enqueue claim is_normalize
drain_normalize_jobs-strands_example =
    drain_normalize_jobs-strands platform "w" (λ i. false) DiscoveryMethod.search_index 9 queued
      taken.1 (first_of taken.0)
      (enqueue-IsSound 5 export_identity none 10 3 none registered nothing_queued) refl refl

abbrev stages : Stages
stages = record {
  discard_inventory = λ db. ok (record db { listings = [] });
  geocode_pending = λ db. ok db;
  validate_boundaries = λ db. ok db;
  enrich_transit = λ db. ok db;
  detail_enrichment = λ db. ok db;
}

abbrev refreshed : Result ℕ × Database
refreshed =
    run_weekday_refresh platform stages (λ i. false) (site ∷ []) "2026-09-01"
      RefreshTriggerType.scheduled none registered

run_weekday_refresh-IsClosed_example : IsClosed 0 (refresh_key "2026-09-01" none) refreshed.1
unfolding run_weekday_refresh same_identity
run_weekday_refresh-IsClosed_example =
    run_weekday_refresh-IsClosed platform stages (λ i. false) (site ∷ []) "2026-09-01"
      RefreshTriggerType.scheduled none registered 0 refl
