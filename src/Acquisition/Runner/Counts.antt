-- ===== src/Acquisition/Runner/Counts.antt =====
-- What the calls of a partition add to the totals of acquisition/runner.py.
use nyc_rental_listing_agent.Base.{
  ℕ, ◌+◌, ◌≤◌, ◌≡◌, refl, ◌∙◌, inl, inr, String, Option, none, some, List, [], ◌∷◌, arith,
  Bool-cases, Option-cases,
}
use nyc_rental_listing_agent.Base.Lists.{length}
use nyc_rental_listing_agent.Base.Result.{Result, Error, ok, err, Result-cases}
use nyc_rental_listing_agent.Model.Listings.{ParsedSourceObservation}
use nyc_rental_listing_agent.Jobs.Queue.Enqueue.{enqueue}
use nyc_rental_listing_agent.Acquisition.Contracts.{
  SourceAdapter, Platform, AcquisitionPartition, DiscoveredItem, DiscoveryPage,
}
use nyc_rental_listing_agent.Acquisition.Observations.{insert_idempotent}
use nyc_rental_listing_agent.Acquisition.Runner.Partition.{
  Progress, RunKeys, SourceRunSummary, or_else, has_seen, skipped, persisted, normalize_identity,
  persist, process_item, process_items, find_checkpoint, is_done, process_page, run_partition,
}

-- A call that has `n` items to account for: each is persisted or a duplicate, unless the call raises,
-- and only a persisted one has a job.
pub record IsCounted {ℓ} {A : Type ℓ} (n : ℕ) (r : Result A) (s s' : SourceRunSummary)
    : Type ℓ where
  pub named : s'.source_run_id ≡ s.source_run_id
  pub completed : s'.partitions_completed ≡ s.partitions_completed
  pub failed : s'.partitions_failed ≡ s.partitions_failed
  pub jobs :
      s'.normalize_jobs_enqueued + s.persisted_new ≤ s'.persisted_new + s.normalize_jobs_enqueued
  pub within :
      s'.persisted_new + s'.duplicates_skipped + s.discovered
      ≤ s'.discovered + s.persisted_new + s.duplicates_skipped + n
  pub accounted :
      (a : A)
      → r ≡ ok a
      → s'.persisted_new + s'.duplicates_skipped + s.discovered
        ≡ s'.discovered + s.persisted_new + s.duplicates_skipped + n

raised-IsCounted {ℓ} :
    {A : Type ℓ} (n : ℕ) (e : Error) (s : SourceRunSummary) → IsCounted {A = A} n (err e) s s
raised-IsCounted n e s = record {
  named = refl;
  completed = refl;
  failed = refl;
  jobs = omega arith;
  within = omega arith;
  accounted = λ a h. cc;
}

skipped-IsCounted : (s : SourceRunSummary) → IsCounted {A = Unit {0}} 1 (ok tt) s (skipped s)
skipped-IsCounted s = record {
  named = refl;
  completed = refl;
  failed = refl;
  jobs = omega arith;
  within = omega arith;
  accounted = λ a h. omega arith;
}

persisted-IsCounted :
    (j : Option ℕ) (s : SourceRunSummary) → IsCounted {A = Unit {0}} 1 (ok tt) s (persisted j s)
persisted-IsCounted none s = record {
  named = refl;
  completed = refl;
  failed = refl;
  jobs = omega arith;
  within = omega arith;
  accounted = λ a h. omega arith;
}
persisted-IsCounted (some j) s = record {
  named = refl;
  completed = refl;
  failed = refl;
  jobs = omega arith;
  within = omega arith;
  accounted = λ a h. omega arith;
}

module _ (env : Platform) (adapter : SourceAdapter) (keys : RunKeys) where
  persist-IsCounted :
      (o : ParsedSourceObservation) (hash : String) (st : Progress)
      → IsCounted {A = Unit {0}} 1 (ok tt) st.summary (persist env keys o hash st).summary
  unfolding persist
  persist-IsCounted o hash st =
      let r = insert_idempotent o keys.source_id keys.source_run_id hash o.parse_status st.db in
      elim (Option-cases r.0) [
        | inl e ↦ rw (persist, e) (skipped-IsCounted st.summary)
        | inr (i, e) ↦
            rw (persist, e)
              (persisted-IsCounted
                (enqueue (env.clock r.1.next_id) (normalize_identity (env.uuid_text i))
                  (some keys.refresh_run_id) 10 3 none r.1).0
                st.summary)
      ]

  process_item-IsCounted :
      (item : DiscoveredItem) (st : Progress)
      → (let step = process_item env adapter keys item st in
          IsCounted 1 step.0 st.summary step.1.summary)
  unfolding process_item
  process_item-IsCounted item st =
      let found = or_else item.source_native_id item.detail_url in
      elim (Bool-cases (has_seen found st.seen)) [
        | inl e ↦ rw (process_item, e) (skipped-IsCounted st.summary)
        | inr e ↦ elim (Result-cases (adapter.fetch_detail item)) [
          | inr (x, f) ↦ rw (process_item, e, f) (raised-IsCounted 1 x st.summary)
          | inl (c, f) ↦ elim (Result-cases (adapter.extract c)) [
            | inr (x, g) ↦ rw (process_item, e, f, g) (raised-IsCounted 1 x st.summary)
            | inl (o, g) ↦
                rw (process_item, e, f, g)
                  (persist-IsCounted o (or_else (some c.content_hash) (env.observation_hash o))
                    (record st { seen = found ∷ st.seen }))
          ]
        ]
      ]

  process_items-IsCounted :
      (items : List DiscoveredItem) (st : Progress)
      → (let ran = process_items env adapter keys items st in
          IsCounted (length items) ran.0 st.summary ran.1.summary)
  unfolding process_items
  process_items-IsCounted [] st = record {
    named = refl;
    completed = refl;
    failed = refl;
    jobs = omega arith;
    within = omega arith;
    accounted = λ a h. omega arith;
  }
  process_items-IsCounted (item ∷ items) st =
      let step = process_item env adapter keys item st in
      let h = process_item-IsCounted item st in
      elim (Result-cases step.0) [
        | inr (x, e) ↦
            rw (process_items, e)
              (record {
                named = h.named;
                completed = h.completed;
                failed = h.failed;
                jobs = h.jobs;
                within = omega (arith, h.within);
                accounted = λ a c. cc;
              })
        | inl (u, e) ↦
            let k = process_items-IsCounted items step.1 in
            rw (process_items, e)
              (record {
                named = k.named ∙ h.named;
                completed = k.completed ∙ h.completed;
                failed = k.failed ∙ h.failed;
                jobs = omega (arith, h.jobs, k.jobs);
                within = omega (arith, h.within, k.within);
                accounted = λ a c. omega (arith, h.accounted u e, k.accounted a c);
              })
      ]

  process_page-IsCounted :
      (p : AcquisitionPartition) (page : DiscoveryPage) (st : Progress)
      → (let ran = process_page env adapter p keys page st in
          IsCounted 0 ran.0 st.summary ran.1.summary)
  unfolding process_page
  process_page-IsCounted p page st =
      let n = length page.items in
      let begun = record st {
        summary = record st.summary { discovered = st.summary.discovered + n };
      } in
      let ran = process_items env adapter keys page.items begun in
      let h = process_items-IsCounted page.items begun in
      elim (Result-cases ran.0) [
        | inr (x, e) ↦
            rw (process_page, e)
              (record {
                named = h.named;
                completed = h.completed;
                failed = h.failed;
                jobs = h.jobs;
                within = omega (arith, h.within);
                accounted = λ a c. cc;
              })
        | inl (u, e) ↦ elim (Result-cases (find_checkpoint keys p ran.1.db)) [
          | inr (x, f) ↦
              rw (process_page, e, f)
                (record {
                  named = h.named;
                  completed = h.completed;
                  failed = h.failed;
                  jobs = h.jobs;
                  within = omega (arith, h.within);
                  accounted = λ a c. cc;
                })
          | inl (c, f) ↦
              rw (process_page, e, f)
                (record {
                  named = h.named;
                  completed = h.completed;
                  failed = h.failed;
                  jobs = h.jobs;
                  within = omega (arith, h.within);
                  accounted = λ a c. omega (arith, h.accounted u e);
                })
        ]
      ]

  pub run_partition-IsCounted :
      (p : AcquisitionPartition) (st : Progress)
      → (let ran = run_partition env adapter p keys st in
          IsCounted 0 ran.0 st.summary ran.1.summary)
  unfolding run_partition
  run_partition-IsCounted p st = elim (Result-cases (find_checkpoint keys p st.db)) [
    | inr (x, e) ↦ rw (run_partition, e) (raised-IsCounted 0 x st.summary)
    | inl (c, e) ↦ elim (Bool-cases (is_done c)) [
      | inl d ↦
          rw (run_partition, e, d)
            (record {
              named = refl;
              completed = refl;
              failed = refl;
              jobs = omega arith;
              within = omega arith;
              accounted = λ a h. omega arith;
            })
      | inr d ↦ elim (Result-cases (adapter.discover p)) [
        | inr (x, f) ↦ rw (run_partition, e, d, f) (raised-IsCounted 0 x st.summary)
        | inl (page, f) ↦ rw (run_partition, e, d, f) (process_page-IsCounted p page st)
      ]
    ]
  ]
