-- ===== src/Acquisition/Runner/Steps.antt =====
-- The partitions of a run of acquisition/runner.py: what each leaves as it is.
use nyc_rental_listing_agent.Base.{
  ℕ, ◌+◌, refl, inl, inr, String, Bool, Option, none, some, List, [], ◌∷◌, arith, Bool-cases,
  Option-cases,
}
use nyc_rental_listing_agent.Base.Lists.{length}
use nyc_rental_listing_agent.Base.Result.{Result-cases}
use nyc_rental_listing_agent.Base.Table.{find_row}
use nyc_rental_listing_agent.Base.Table.Rules.{count-update_same}
use nyc_rental_listing_agent.Enums.Listing.{DiscoveryMethod}
use nyc_rental_listing_agent.Model.Ops.{AdapterCheckpoint}
use nyc_rental_listing_agent.Model.Listings.{ParsedSourceObservation}
use nyc_rental_listing_agent.Model.Database.{Database}
use nyc_rental_listing_agent.Acquisition.Contracts.{
  SourceAdapter, Platform, AcquisitionPartition, DiscoveredItem, DiscoveryPage,
}
use nyc_rental_listing_agent.Acquisition.Observations.{insert_idempotent}
use nyc_rental_listing_agent.Acquisition.Runner.Partition.{
  Progress, RunKeys, SourceRunSummary, or_else, has_seen, normalize_identity, persist, process_item,
  process_items, mark_done, find_checkpoint, is_done, process_page, run_partition,
}
use nyc_rental_listing_agent.Acquisition.Runner.Source.{
  new_summary, count_partition, degraded_by, run_partitions, judge_run, source_run_is, closed,
  finalize, run_planned,
}
use nyc_rental_listing_agent.Acquisition.Runner.Kept.{
  IsAcquired, IsAcquired-refl, IsAcquired-trans, insert-IsAcquired, enqueue-IsAcquired,
}

module _ (env : Platform) (adapter : SourceAdapter) (keys : RunKeys) where
  persist-IsAcquired :
      (o : ParsedSourceObservation) (hash : String) (st : Progress)
      → IsAcquired st.db (persist env keys o hash st).db
  unfolding persist
  persist-IsAcquired o hash st =
      let r = insert_idempotent o keys.source_id keys.source_run_id hash o.parse_status st.db in
      let stored =
        insert-IsAcquired o keys.source_id keys.source_run_id hash o.parse_status st.db in
      elim (Option-cases r.0) [
        | inl e ↦ rw (persist, e) stored
        | inr (i, e) ↦
            rw (persist, e)
              (IsAcquired-trans stored (
                enqueue-IsAcquired (env.clock r.1.next_id) (normalize_identity (env.uuid_text i))
                  (some keys.refresh_run_id) 10 3 none r.1))
      ]

  process_item-IsAcquired :
      (item : DiscoveredItem) (st : Progress)
      → IsAcquired st.db (process_item env adapter keys item st).1.db
  unfolding process_item
  process_item-IsAcquired item st =
      let identity = or_else item.source_native_id item.detail_url in
      elim (Bool-cases (has_seen identity st.seen)) [
        | inl e ↦ rw e (IsAcquired-refl st.db)
        | inr e ↦ elim (Result-cases (adapter.fetch_detail item)) [
          | inr (x, f) ↦ rw (e, f) (IsAcquired-refl st.db)
          | inl (c, f) ↦ elim (Result-cases (adapter.extract c)) [
            | inr (x, g) ↦ rw (e, f, g) (IsAcquired-refl st.db)
            | inl (o, g) ↦
                rw (e, f, g)
                  (persist-IsAcquired o (or_else (some c.content_hash) (env.observation_hash o))
                    (record st { seen = identity ∷ st.seen }))
          ]
        ]
      ]

  process_items-IsAcquired :
      (items : List DiscoveredItem) (st : Progress)
      → IsAcquired st.db (process_items env adapter keys items st).1.db
  unfolding process_items
  process_items-IsAcquired [] st = IsAcquired-refl st.db
  process_items-IsAcquired (item ∷ items) st =
      let step = process_item env adapter keys item st in
      elim (Result-cases step.0) [
        | inr (x, e) ↦ rw (process_items, e) (process_item-IsAcquired item st)
        | inl (u, e) ↦
            rw (process_items, e)
              (IsAcquired-trans (process_item-IsAcquired item st)
                (process_items-IsAcquired items step.1))
      ]

  mark_done-IsAcquired :
      (key : String) (n : ℕ) (c : Option AdapterCheckpoint) (db : Database)
      → IsAcquired db (mark_done keys.source_run_id key n c db)
  mark_done-IsAcquired key n none db = record {
    ids = omega arith;
    sound = λ h. h;
    unique = λ h. h;
    kept = refl;
    runs = λ i. omega arith;
  }
  mark_done-IsAcquired key n (some c) db = record {
    ids = omega arith;
    sound = λ h. h;
    unique = λ h. h;
    kept = refl;
    runs = λ i. omega arith;
  }

  process_page-IsAcquired :
      (p : AcquisitionPartition) (page : DiscoveryPage) (st : Progress)
      → IsAcquired st.db (process_page env adapter p keys page st).1.db
  unfolding process_page
  process_page-IsAcquired p page st =
      let n = length page.items in
      let begun = record st {
        summary = record st.summary { discovered = st.summary.discovered + n };
      } in
      let ran = process_items env adapter keys page.items begun in
      let stored = process_items-IsAcquired page.items begun in
      elim (Result-cases ran.0) [
        | inr (x, e) ↦ rw (process_page, e) stored
        | inl (u, e) ↦ elim (Result-cases (find_checkpoint keys p ran.1.db)) [
          | inr (x, f) ↦ rw (process_page, e, f) stored
          | inl (c, f) ↦
              rw (process_page, e, f)
                (IsAcquired-trans stored (mark_done-IsAcquired p.partition_key n c ran.1.db))
        ]
      ]

  run_partition-IsAcquired :
      (p : AcquisitionPartition) (st : Progress)
      → IsAcquired st.db (run_partition env adapter p keys st).1.db
  unfolding run_partition
  run_partition-IsAcquired p st = elim (Result-cases (find_checkpoint keys p st.db)) [
    | inr (x, e) ↦ rw (run_partition, e) (IsAcquired-refl st.db)
    | inl (c, e) ↦ elim (Bool-cases (is_done c)) [
      | inl d ↦ rw (run_partition, e, d) (IsAcquired-refl st.db)
      | inr d ↦ elim (Result-cases (adapter.discover p)) [
        | inr (x, f) ↦ rw (run_partition, e, d, f) (IsAcquired-refl st.db)
        | inl (page, f) ↦ rw (run_partition, e, d, f) (process_page-IsAcquired p page st)
      ]
    ]
  ]

  pub run_partitions-IsAcquired :
      (ps : List AcquisitionPartition) (degraded : Bool) (st : Progress)
      → IsAcquired st.db (run_partitions env adapter keys ps degraded st).1.db
  unfolding run_partitions
  run_partitions-IsAcquired [] degraded st = IsAcquired-refl st.db
  run_partitions-IsAcquired (p ∷ ps) degraded st =
      let step = run_partition env adapter p keys st in
      IsAcquired-trans (run_partition-IsAcquired p st) (
        run_partitions-IsAcquired ps (degraded_by step.0 degraded)
          (record step.1 { summary = count_partition p step.0 step.1.summary }))

  pub finalize-IsAcquired :
      (method : DiscoveryMethod) (s : SourceRunSummary) (db : Database)
      → IsAcquired db (finalize env method s db).1
  unfolding finalize
  finalize-IsAcquired method s db =
      elim (Option-cases (find_row (source_run_is s.source_run_id) db.source_runs)) [
        | inl e ↦ rw (finalize, e) (IsAcquired-refl db)
        | inr (r, e) ↦
            rw (finalize, e)
              (record {
                ids = omega arith;
                sound = λ h. h;
                unique = λ h. h;
                kept = refl;
                runs = λ i. omega (
                  arith,
                  count-update_same (source_run_is i) (source_run_is s.source_run_id)
                      (closed (env.clock db.next_id) method s) (λ x. refl) db.source_runs,
                );
              })
      ]

  pub run_planned-IsAcquired :
      (method : DiscoveryMethod) (degraded : Bool) (db : Database)
      → IsAcquired db (run_planned env adapter method keys degraded db).1
  unfolding run_planned
  run_planned-IsAcquired method degraded db = elim (Result-cases adapter.plan_partitions) [
    | inr (x, e) ↦ rw e (IsAcquired-refl db)
    | inl (ps, e) ↦
        let begun : Progress = record {
          db = db;
          summary = new_summary keys.source_run_id;
          seen = [];
        } in
        let ran = run_partitions env adapter keys ps degraded begun in
        rw e (
          IsAcquired-trans (run_partitions-IsAcquired ps degraded begun)
            (finalize-IsAcquired method (judge_run method ran.0 ran.1.summary) ran.1.db))
  ]
