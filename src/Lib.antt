-- ===== src/Lib.antt =====
-- The verification of the NYC rental listing agent: its job queue, its canonical inventory, the operator's
-- choices and the bounded use of language models.
--
-- Parts and files. Paths are from the repository's root.
--
-- Base: shared helpers. Base/Tests has Boolean tests, Base/Result the exceptions as values, Base/Lists and
--   Base/Table lists and the statements on tables, with what they keep (Base/Table/Rules, Base/Table/Scalar),
--   Base/Text texts as code points, with the ASCII case maps, digits and spaces of Python's `str`.
-- Enums: src/rental_agent/contracts/enums.py. Members are constructors, in lower case (OPEN is `opened`).
-- Model: the tables of src/rental_agent/db/models (ops.py, sources.py, canonical.py, addresses.py, facts.py,
--   review.py) and the blocks of src/rental_agent/contracts/observation.py, as records. Model/Database is the
--   state that all services share.
-- Jobs/Queue: src/rental_agent/jobs/queue.py. Enqueue, Claim and Complete have the methods (enqueue, claim,
--   heartbeat, complete, recover_expired_leases, queue_depth); the other files have the proofs: the
--   invariant (Invariant, Updates, Claims, Reach), the candidates of a claim (Candidates), leases (Leases),
--   retries (Retries), and the abstract life of a job with its refinement (Lifecycle, Refinement).
-- Jobs/Refresh: src/rental_agent/jobs/weekday_refresh.py; the services that are not modelled are its parameter
--   Stages. Outcome has the proof.
-- Canonical/Events: `_emit` and `_emit_event` of the canonical services. Canonical/Human: `_require_human`.
-- Canonical/Merge: src/rental_agent/canonical/merge_service.py. merge_listings is in Merge, reverse_merge in
--   Merge/Reverse, resolve_duplicate_candidate in Merge/Resolve; Inversion, Restored, Moves, Effects and
--   Verdicts have the proofs.
-- Canonical/Selection: src/rental_agent/canonical/selection_service.py. set_selection and set_entry are in
--   Selection, with the proofs in Targets and Entries; the clients are in Selection/Presets.
-- Canonical/Admission: src/rental_agent/canonical/admission.py; _evaluate_one is evaluate_one. Gate
--   has the proofs.
-- Canonical/Facts: src/rental_agent/canonical/facts.py; FactRecorder.record is record_fact. Current
--   and Conflicts have the proofs.
-- Canonical/Disappearance: src/rental_agent/canonical/disappearance.py; _inactivate_unsupported is
--   inactivate_unsupported with apply_breaker, the loop of process_source_run is judge_links. Breaker and
--   Removal have the proofs.
-- Canonical/Fingerprint, Canonical/Normalization: src/rental_agent/canonical/normalization.py. The keys of
--   addresses and units are in Fingerprint. Identity has _find_link, _emit_event, _record_listing_facts and
--   _attach_cross_source_link; Create has _create_canonical, with Places for addresses, buildings and
--   units and Duplicates for _strong_multi_field_match and _generate_duplicate_candidates; Update has _update_existing and _touch_freshness; Process has
--   process_observation. The three comparisons of _update_existing are a list of changes that one function
--   applies, and the four facts a list of statements. Frame, Entry, Chain, Rewrites, Cautious, Replay
--   Override and Decided have the proofs.
-- Validation/Laundry: src/rental_agent/validation/laundry.py.
-- Acquisition: src/rental_agent/acquisition/runner.py and what it writes through. Contracts has the listing
--   sources of src/rental_agent/contracts/providers.py; Observations and Runs are
--   src/rental_agent/db/repositories/observations.py and runs.py. Runner/Partition has _run_partition,
--   Runner/Source has run_source and _finalize, Drain has drain_normalize_jobs; the other files have the
--   proofs. A call that commits several times gives its outcome and the database, also where it raises.
-- Enrichment/Tiering: src/rental_agent/enrichment/llm/tiering.py, with the proofs in Bounded.
-- Enrichment/Usefulness: src/rental_agent/enrichment/transit/usefulness.py, on the rows of TransitAccess in
--   src/rental_agent/db/models/transit.py.
-- Tests: runs at concrete states.
--
-- How the parts interact: every service works on the one database. The queue hands out jobs; admission,
-- merges and disappearance write the listings and their events; a run of a source writes observations and
-- enqueues a normalize job for each, which the drain claims and hands to normalization; facts and
-- overrides are read by disappearance; selections and shortlists belong to the operator's services.
--
-- Conventions. A table is the list of its rows in the order of their insertion; a query without ORDER BY
-- returns them in that order, and ORDER BY keeps it among rows that tie. A time is a number of microseconds,
-- money is in minor units, a nullable column is an Option, and NULL equals nothing in a WHERE clause. New
-- UUIDs are drawn from the supply `next_id`. One call has one time `now`, an argument, where the source reads
-- the clock more than once. An operation that raises returns an error and no state, since the caller's
-- session is rolled back. SKIP LOCKED is an argument that says which rows others hold. Priorities and limits
-- are not negative. A JSON document is a record or a list of its keys; the rule versions and texts that
-- no operation reads are not kept (for example error_detail of a job). Foreign keys are checked where
-- Canonical/Selection inserts the row of a target or a client; the other operations take their keys from
-- rows that they read. The unique constraint of job_attempt is not checked by a claim: the attempts of a job
-- are numbered by its own counter. All loops run over a list that is read before, so that no fuel is
-- needed; the drain counts down from max_jobs, as the source counts up to it. The adapter of a source, the
-- clock, the texts of UUIDs and SHA-256 are parameters of Acquisition (SourceAdapter, Platform).
--
-- Not modelled: the search adapters, the other jobs and the discard of the inventory,
-- transit access, location, commute, amenities, company and listing content, media, the OpenAI
-- client, the CSV export, configuration, the two interfaces, and the database's own concurrency control. The
-- executors and the validator of the tiering are parameters.
pub mod Base
pub mod Enums
pub mod Model
pub mod Jobs
pub mod Canonical
pub mod Enrichment
pub mod Validation
pub mod Acquisition
mod Tests
