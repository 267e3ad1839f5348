-- ===== src/Acquisition/Runner/Totals.antt =====
-- The totals of a whole run of acquisition/runner.py.
use nyc_rental_listing_agent.Base.{suc, ◌+◌, ◌≤◌, ◌≡◌, refl, Bool, List, [], ◌∷◌, arith}
use nyc_rental_listing_agent.Base.Lists.{length}
use nyc_rental_listing_agent.Base.Result.{Result, ok, err}
use nyc_rental_listing_agent.Acquisition.Contracts.{SourceAdapter, Platform, AcquisitionPartition}
use nyc_rental_listing_agent.Acquisition.Runner.Partition.{
  Progress, RunKeys, SourceRunSummary, run_partition,
}
use nyc_rental_listing_agent.Acquisition.Runner.Source.{
  count_partition, degraded_by, run_partitions,
}
use nyc_rental_listing_agent.Acquisition.Runner.Counts.{IsCounted, run_partition-IsCounted}

-- The totals of a run: every discovered item is persisted or a duplicate, but for those that a failed
-- partition lost; each job is for an observation that is new.
pub record IsBalanced (s : SourceRunSummary) : Type 0 where
  pub jobs : s.normalize_jobs_enqueued ≤ s.persisted_new
  pub within : s.persisted_new + s.duplicates_skipped ≤ s.discovered
  pub accounted : s.partitions_failed ≡ 0 → s.persisted_new + s.duplicates_skipped ≡ s.discovered

count_partition-IsBalanced :
    (p : AcquisitionPartition) (r : Result Bool) (s s' : SourceRunSummary)
    → IsCounted 0 r s s'
    → IsBalanced s
    → IsBalanced (count_partition p r s')
count_partition-IsBalanced p (ok b) s s' h k = record {
  jobs = omega (arith, h.jobs, k.jobs);
  within = omega (arith, h.within, k.within);
  accounted = λ none_failed.
      omega (arith, h.accounted b refl, k.accounted (omega (arith, h.failed, none_failed)));
}
count_partition-IsBalanced p (err e) s s' h k = record {
  jobs = omega (arith, h.jobs, k.jobs);
  within = omega (arith, h.within, k.within);
  accounted = λ none_failed. absurd (omega (arith, none_failed));
}

count_partition-partitions :
    (p : AcquisitionPartition) (r : Result Bool) (s : SourceRunSummary)
    → (count_partition p r s).partitions_completed + (count_partition p r s).partitions_failed
      ≡ suc (s.partitions_completed + s.partitions_failed)
count_partition-partitions p (ok b) s = omega arith
count_partition-partitions p (err e) s = omega arith

pub run_partitions-IsBalanced :
    (env : Platform) (adapter : SourceAdapter) (keys : RunKeys) (ps : List AcquisitionPartition)
    (degraded : Bool) (st : Progress)
    → IsBalanced st.summary
    → (let s = (run_partitions env adapter keys ps degraded st).1.summary in
        IsBalanced s
        × (s.partitions_completed + s.partitions_failed
            ≡ st.summary.partitions_completed + st.summary.partitions_failed + length ps))
unfolding run_partitions
run_partitions-IsBalanced env adapter keys [] degraded st h = (h, omega arith)
run_partitions-IsBalanced env adapter keys (p ∷ ps) degraded st h =
    let step = run_partition env adapter p keys st in
    let counted = run_partition-IsCounted env adapter keys p st in
    let rest =
      run_partitions-IsBalanced env adapter keys ps (degraded_by step.0 degraded)
        (record step.1 { summary = count_partition p step.0 step.1.summary })
        (count_partition-IsBalanced p step.0 st.summary step.1.summary counted h) in
    (
      rest.0,
      omega (
        arith,
        rest.1,
        count_partition-partitions p step.0 step.1.summary,
        counted.completed,
        counted.failed,
      ),
    )
