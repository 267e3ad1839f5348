-- ===== src/Acquisition/Runner/Partition.antt =====
-- `_run_partition` of acquisition/runner.py. Each session commits by itself, so a call that raises
-- leaves what was committed before: it gives its outcome and the state.
use nyc_rental_listing_agent.Base.{
  ℕ, ◌+◌, String, Bool, true, false, ◌&&◌, ◌||◌, Option, none, some, List, [], ◌∷◌, ◌++◌, ◌==◌,
  str_eq, if◌then◌else◌,
}
use nyc_rental_listing_agent.Base.Lists.{length}
use nyc_rental_listing_agent.Base.Result.{Result, ok, err}
use nyc_rental_listing_agent.Base.Table.{select, update_where, scalar_one_or_none}
use nyc_rental_listing_agent.Enums.Ops.{JobType, SourceRunStatus}
use nyc_rental_listing_agent.Model.Ops.{AdapterCheckpoint}
use nyc_rental_listing_agent.Model.Listings.{ParsedSourceObservation}
use nyc_rental_listing_agent.Model.Database.{Database}
use nyc_rental_listing_agent.Jobs.Queue.Enqueue.{JobIdentity, enqueue}
use nyc_rental_listing_agent.Acquisition.Contracts.{
  SourceAdapter, Platform, AcquisitionPartition, DiscoveredItem, DiscoveryPage,
}
use nyc_rental_listing_agent.Acquisition.Observations.{insert_idempotent}

pub record SourceRunSummary : Type 0 where
  pub source_run_id : ℕ
  pub status : SourceRunStatus
  pub health_gate_passed : Bool
  pub discovered : ℕ
  pub persisted_new : ℕ
  pub duplicates_skipped : ℕ
  pub partitions_completed : ℕ
  pub partitions_failed : ℕ
  pub normalize_jobs_enqueued : ℕ
  pub errors : List String

-- What a run of a source carries along: the database, the summary and `seen_identities`.
pub record Progress : Type 0 where
  pub db : Database
  pub summary : SourceRunSummary
  pub seen : List String

-- The keys of the run: `source_id`, `source_run_id` and `refresh_run_id`.
pub record RunKeys : Type 0 where
  pub source_id : ℕ
  pub source_run_id : ℕ
  pub refresh_run_id : ℕ

-- `a or b` on texts: the empty text is false.
abbrev pub or_else : Option String → String → String
or_else none b = b
or_else (some a) b = if str_eq a "" then b else a

abbrev pub has_seen : String → List String → Bool
has_seen i [] = false
has_seen i (x ∷ xs) = str_eq x i || has_seen i xs

abbrev pub skipped : SourceRunSummary → SourceRunSummary
skipped s = record s { duplicates_skipped = s.duplicates_skipped + 1 }

abbrev pub persisted : (enqueued : Option ℕ) → SourceRunSummary → SourceRunSummary
persisted none s = record s { persisted_new = s.persisted_new + 1 }
persisted (some j) s = record s {
  persisted_new = s.persisted_new + 1;
  normalize_jobs_enqueued = s.normalize_jobs_enqueued + 1;
}

abbrev pub normalize_identity : String → JobIdentity
normalize_identity text = record {
  job_type = JobType.normalize;
  canonical_listing_id = none;
  input_hash = text;
  dependency_version = "phase3-skeleton-1";
}

-- The session of one observation: the insert, and for a new row its job.
unfoldable pub persist :
    Platform → RunKeys → ParsedSourceObservation → (content_hash : String) → Progress → Progress
unfolding insert_idempotent enqueue
persist env keys o content_hash st =
    let (inserted, db) =
      insert_idempotent o keys.source_id keys.source_run_id content_hash o.parse_status st.db in
    elim inserted [
      | none ↦ record st { db = db; summary = skipped st.summary }
      | some i ↦
          let (job, queued) =
            enqueue (env.clock db.next_id) (normalize_identity (env.uuid_text i))
              (some keys.refresh_run_id) 10 3 none db in
          record st { db = queued; summary = persisted job st.summary }
    ]

-- The body of the loop over the items.
unfoldable pub process_item :
    Platform → SourceAdapter → RunKeys → DiscoveredItem → Progress → Result (Unit {0}) × Progress
unfolding persist
process_item env adapter keys item st =
    let found = or_else item.source_native_id item.detail_url in
    let marked = record st { seen = found ∷ st.seen } in
    if has_seen found st.seen
    then (ok tt, record st { summary = skipped st.summary })
    else elim (adapter.fetch_detail item) [
      | err e ↦ (err e, marked)
      | ok capture ↦ elim (adapter.extract capture) [
        | err e ↦ (err e, marked)
        | ok o ↦ (
          ok tt,
          persist env keys o (or_else (some capture.content_hash) (env.observation_hash o)) marked,
        )
      ]
    ]

unfoldable pub process_items :
    Platform
    → SourceAdapter
    → RunKeys
    → List DiscoveredItem
    → Progress
    → Result (Unit {0}) × Progress
unfolding process_item
process_items env adapter keys [] st = (ok tt, st)
process_items env adapter keys (item ∷ items) st =
    let (r, next) = process_item env adapter keys item st in
    elim r [ err e ↦ (err e, next) | ok u ↦ process_items env adapter keys items next ]

abbrev pub checkpoint_is : (source_run_id : ℕ) → (partition_key : String) → AdapterCheckpoint → Bool
checkpoint_is run key c = c.source_run_id == run && str_eq c.partition_key key

abbrev pub is_done : Option AdapterCheckpoint → Bool
is_done none = false
is_done (some c) = c.completed

-- The last session: the checkpoint that was found is completed, or a completed one is added.
abbrev pub mark_done :
    (source_run_id : ℕ)
    → (partition_key : String) → (items : ℕ) → Option AdapterCheckpoint
    → Database
    → Database
mark_done run key n none db = record db {
  checkpoints =
      db.checkpoints
      ++ (record {
        source_run_id = run;
        partition_key = key;
        completed = true;
        items_discovered = some n;
      })
        ∷ [];
}
mark_done run key n (some c) db = record db {
  checkpoints =
      update_where (checkpoint_is run key)
        (λ c. record c { completed = true; items_discovered = some n }) db.checkpoints;
}

unfoldable pub find_checkpoint :
    RunKeys → AcquisitionPartition → Database → Result (Option AdapterCheckpoint)
find_checkpoint keys p db =
    scalar_one_or_none (select (checkpoint_is keys.source_run_id p.partition_key) db.checkpoints)

-- What follows the discovery of a page.
unfoldable pub process_page :
    Platform
    → SourceAdapter
    → AcquisitionPartition
    → RunKeys
    → DiscoveryPage
    → Progress
    → Result Bool × Progress
unfolding process_items find_checkpoint
process_page env adapter p keys page st =
    let n = length page.items in
    let (r, done) =
      process_items env adapter keys page.items
        (record st { summary = record st.summary { discovered = st.summary.discovered + n } }) in
    elim r [
      | err e ↦ (err e, done)
      | ok u ↦ elim (find_checkpoint keys p done.db) [
        | err e ↦ (err e, done)
        | ok c ↦ (
          ok (page.appears_truncated || page.search_error),
          record done { db = mark_done keys.source_run_id p.partition_key n c done.db },
        )
      ]
    ]

unfoldable pub run_partition :
    Platform → SourceAdapter → AcquisitionPartition → RunKeys → Progress → Result Bool × Progress
unfolding process_page find_checkpoint
run_partition env adapter p keys st = elim (find_checkpoint keys p st.db) [
  | err e ↦ (err e, st)
  | ok c ↦ if is_done c then (ok false, st) else elim (adapter.discover p) [
    | err e ↦ (err e, st)
    | ok page ↦ process_page env adapter p keys page st
  ]
]
