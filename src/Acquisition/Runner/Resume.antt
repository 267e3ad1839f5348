-- ===== src/Acquisition/Runner/Resume.antt =====
-- A partition that is completed is not run again: the checkpoints of acquisition/runner.py.
use nyc_rental_listing_agent.Base.{
  ℕ, ◌+◌, ◌≡◌, refl, ◌∙◌, inl, inr, ap, Bool, true, false, Option, none, some, [], ◌∷◌, ==_refl,
  str_eq_refl, Bool-cases,
}
use nyc_rental_listing_agent.Base.Lists.{length}
use nyc_rental_listing_agent.Base.Result.{ok, Result-cases}
use nyc_rental_listing_agent.Base.Table.{select, scalar_one_or_none}
use nyc_rental_listing_agent.Base.Table.Rules.{
  select-append, select-update, scalar-none, scalar-head, scalar-select,
}
use nyc_rental_listing_agent.Model.Ops.{AdapterCheckpoint}
use nyc_rental_listing_agent.Model.Database.{Database}
use nyc_rental_listing_agent.Acquisition.Contracts.{
  SourceAdapter, Platform, AcquisitionPartition, DiscoveryPage,
}
use nyc_rental_listing_agent.Acquisition.Runner.Partition.{
  Progress, RunKeys, process_items, checkpoint_is, is_done, mark_done, find_checkpoint,
  process_page, run_partition,
}

-- The checkpoint of the partition is there, and completed.
IsDone : RunKeys → AcquisitionPartition → Database → Type 0
IsDone keys p db =
    (c : AdapterCheckpoint) × ((find_checkpoint keys p db ≡ ok (some c)) × (c.completed ≡ true))

mark_done-IsDone :
    (keys : RunKeys) (p : AcquisitionPartition) (n : ℕ) (c : Option AdapterCheckpoint)
    (db : Database)
    → find_checkpoint keys p db ≡ ok c
    → IsDone keys p (mark_done keys.source_run_id p.partition_key n c db)
unfolding IsDone find_checkpoint
mark_done-IsDone keys p n none db e =
    let w = checkpoint_is keys.source_run_id p.partition_key in
    let new : AdapterCheckpoint = record {
      source_run_id = keys.source_run_id;
      partition_key = p.partition_key;
      completed = true;
      items_discovered = some n;
    } in
    (
      new,
      (
        rw
            (
              select-append w db.checkpoints (new ∷ []),
              scalar-none (select w db.checkpoints) e,
              ==_refl keys.source_run_id,
              str_eq_refl p.partition_key,
            )
            refl,
        refl,
      ),
    )
mark_done-IsDone keys p n (some c) db e =
    let w = checkpoint_is keys.source_run_id p.partition_key in
    let f : AdapterCheckpoint → AdapterCheckpoint =
      λ c. record c { completed = true; items_discovered = some n } in
    (
      f c,
      (
        rw
            (
              select-update w w f (λ x. refl) db.checkpoints,
              scalar-head (select w db.checkpoints) e,
              (scalar-select w db.checkpoints e).1,
            )
            refl,
        refl,
      ),
    )

process_page-IsDone :
    (env : Platform) (adapter : SourceAdapter) (p : AcquisitionPartition) (keys : RunKeys)
    (page : DiscoveryPage) (st : Progress) (b : Bool)
    → (process_page env adapter p keys page st).0 ≡ ok b
    → IsDone keys p (process_page env adapter p keys page st).1.db
unfolding process_page
process_page-IsDone env adapter p keys page st b e =
    let n = length page.items in
    let begun = record st {
      summary = record st.summary { discovered = st.summary.discovered + n };
    } in
    let ran = process_items env adapter keys page.items begun in
    elim (Result-cases ran.0) [
      | inr (x, f) ↦ cc (rw (process_page, f) at e)
      | inl (u, f) ↦ elim (Result-cases (find_checkpoint keys p ran.1.db)) [
        | inr (x, g) ↦ cc (rw (process_page, f, g) at e)
        | inl (c, g) ↦ rw (process_page, f, g) (mark_done-IsDone keys p n c ran.1.db g)
      ]
    ]

run_partition-IsDone :
    (env : Platform) (adapter : SourceAdapter) (p : AcquisitionPartition) (keys : RunKeys)
    (st : Progress) (b : Bool)
    → (run_partition env adapter p keys st).0 ≡ ok b
    → IsDone keys p (run_partition env adapter p keys st).1.db
unfolding run_partition IsDone
run_partition-IsDone env adapter p keys st b e =
    elim (Result-cases (find_checkpoint keys p st.db)) [
      | inr (x, f) ↦ cc (rw (run_partition, f) at e)
      | inl (c, f) ↦ elim (Bool-cases (is_done c)) [
        | inl d ↦ rw (run_partition, f, d) (checkpoint_found c f d)
        | inr d ↦ elim (Result-cases (adapter.discover p)) [
          | inr (x, g) ↦ cc (rw (run_partition, f, d, g) at e)
          | inl (page, g) ↦
              rw (run_partition, f, d, g)
                (process_page-IsDone env adapter p keys page st b
                  (rw (run_partition, f, d, g) at e))
        ]
      ]
    ]
  where
    checkpoint_found :
        (c : Option AdapterCheckpoint)
        → find_checkpoint keys p st.db ≡ ok c
        → is_done c ≡ true
        → IsDone keys p st.db
    checkpoint_found none f d = cc
    checkpoint_found (some c) f d = (c, (f, d))

skips :
    (env : Platform) (adapter : SourceAdapter) (p : AcquisitionPartition) (keys : RunKeys)
    (st : Progress) (c : AdapterCheckpoint)
    → find_checkpoint keys p st.db ≡ ok (some c)
    → c.completed ≡ true
    → run_partition env adapter p keys st ≡ (ok false, st)
unfolding run_partition
skips env adapter p keys st c f d = rw (run_partition, f, d) refl

-- A run that is taken up again skips what it did: where a partition ran to its end without an
-- exception, running it again under the same keys, with any adapter and whatever happened to the rest
-- of the state since, so long as the checkpoints stand, returns at once, not degraded, and changes
-- nothing.
pub run_partition-resumes :
    (env env' : Platform) (adapter adapter' : SourceAdapter) (p : AcquisitionPartition)
    (keys : RunKeys) (st later : Progress) (b : Bool)
    → (run_partition env adapter p keys st).0 ≡ ok b
    → later.db.checkpoints ≡ (run_partition env adapter p keys st).1.db.checkpoints
    → run_partition env' adapter' p keys later ≡ (ok false, later)
unfolding IsDone find_checkpoint
run_partition-resumes env env' adapter adapter' p keys st later b e same =
    let (c, (found, completed)) = run_partition-IsDone env adapter p keys st b e in
    skips env' adapter' p keys later c
      (ap (λ cs. scalar_one_or_none (select (checkpoint_is keys.source_run_id p.partition_key) cs))
          same
        ∙ found)
      completed
