-- ===== src/Jobs/Refresh/Outcome.antt =====
-- How a refresh of jobs/weekday_refresh.py ends.
use nyc_rental_listing_agent.Base.{
  ℕ, ◌≡◌, ◌⊎◌, refl, inl, inr, subst, String, Bool, Option, some, List, Bool-cases, Option-cases,
  ==_iff, str_eq_iff, false, [], ◌∷◌, if◌then◌else◌,
}
use nyc_rental_listing_agent.Base.Result.{ok, ok-injective, Result-cases, ◌>>=◌}
use nyc_rental_listing_agent.Base.Table.{find_row, select, exists}
use nyc_rental_listing_agent.Base.Table.Rules.{
  find_row-append_new, find_row-update_if, count-zero, exists-count, select-find,
}
use nyc_rental_listing_agent.Enums.Listing.{DiscoveryMethod}
use nyc_rental_listing_agent.Enums.Ops.{RefreshTriggerType, RefreshRunStatus}
use nyc_rental_listing_agent.Model.Ops.{RefreshRun}
use nyc_rental_listing_agent.Model.Database.{Database}
use nyc_rental_listing_agent.Acquisition.Contracts.{SourceAdapter, Platform}
use nyc_rental_listing_agent.Acquisition.Runs.{
  create_or_join, has_key, new_refresh_run, scalar_one, run_is, or_before, set_status,
}
use nyc_rental_listing_agent.Acquisition.Runner.Partition.{SourceRunSummary}
use nyc_rental_listing_agent.Acquisition.Drain.{drain_normalize_jobs}
use nyc_rental_listing_agent.Jobs.Refresh.{
  Stages, is_manual, refresh_key, run_sources, then_stage, no_stage, enrich, all_healthy,
  refresh_status, exit_code, finish, refresh_inventory, run_weekday_refresh,
}

-- The run of a key is closed: its row has a final status and the time of its completion.
pub record IsClosed (code : ℕ) (key : String) (db : Database) : Type 0 where
  pub succeeds : code ≡ 0
  pub row : RefreshRun
  pub time : ℕ
  pub stored : find_row (has_key key) db.refresh_runs ≡ some row
  pub status :
      (row.status ≡ RefreshRunStatus.succeeded) ⊎ (row.status ≡ RefreshRunStatus.partial_success)
  pub completed : row.completed_at ≡ some time

-- The run that the call returns is the row of the key.
create_or_join_lem :
    (key : String) (t : RefreshTriggerType) (now : ℕ) (version : String) (db : Database)
    (j : (ℕ × Bool) × Database)
    → create_or_join key t now version db ≡ ok j
    → (row : RefreshRun) × (find_row (has_key key) j.1.refresh_runs ≡ some row)
      × (row.refresh_run_id ≡ j.0.0)
unfolding create_or_join
create_or_join_lem key t now version db j e =
    elim (Bool-cases (exists (has_key key) db.refresh_runs)) [
      | inl h ↦ joined (select (has_key key) db.refresh_runs) refl (rw (create_or_join, h) at e)
      | inr h ↦
          let run = new_refresh_run db.next_id key t now version in
          subst
            (λ k.
              (row : RefreshRun) × (find_row (has_key key) k.1.refresh_runs ≡ some row)
              × (row.refresh_run_id ≡ k.0.0))
            (ok-injective (rw (create_or_join, h) at e))
            (
              run,
              find_row-append_new (has_key key) db.refresh_runs run
                  (count-zero (has_key key) db.refresh_runs
                    (exists-count (has_key key) db.refresh_runs h))
                  ((str_eq_iff key key).1 refl),
              refl,
            )
    ]
  where
    joined :
        (found : List RefreshRun)
        → select (has_key key) db.refresh_runs ≡ found
        → (scalar_one found >>= λ x. ok ((x.refresh_run_id, false), db)) ≡ ok j
        → (row : RefreshRun) × (find_row (has_key key) j.1.refresh_runs ≡ some row)
          × (row.refresh_run_id ≡ j.0.0)
    joined [] s h = cc
    joined (x ∷ y ∷ rest) s h = cc
    joined (x ∷ []) s h =
        subst
          (λ k.
            (row : RefreshRun) × (find_row (has_key key) k.1.refresh_runs ≡ some row)
            × (row.refresh_run_id ≡ k.0.0))
          (ok-injective h) (x, select-find (has_key key) db.refresh_runs s, refl)

refresh_status-exit_code :
    (ss : List SourceRunSummary)
    → (exit_code (refresh_status ss) ≡ 0)
      × ((refresh_status ss ≡ RefreshRunStatus.succeeded)
          ⊎ (refresh_status ss ≡ RefreshRunStatus.partial_success))
unfolding refresh_status
refresh_status-exit_code ss = elim (Bool-cases (all_healthy ss)) [
  | inl h ↦ rw h (refl, inl refl)
  | inr h ↦ rw h (refl, inr refl)
]

module _ (env : Platform) where
  finish-IsClosed :
      (key : String) (t : RefreshTriggerType) (ss : List SourceRunSummary) (db : Database)
      (r : ℕ × Database)
      → finish env key t ss db ≡ ok r
      → IsClosed r.0 key r.1
  unfolding finish set_status
  finish-IsClosed key t ss db r e =
      elim (Result-cases (create_or_join key t (env.clock db.next_id) "0.2.0" db)) [
        | inr (x, p) ↦ cc (rw (finish, p) at e)
        | inl (j, p) ↦
            let i = j.0.0 in
            let status = refresh_status ss in
            let now = env.clock j.1.next_id in
            let write : RefreshRun → RefreshRun = λ r. record r {
              status = status;
              completed_at = or_before (some now) r.completed_at;
            } in
            let (code, final) = refresh_status-exit_code ss in
            let (row, stored, same) =
              create_or_join_lem key t (env.clock db.next_id) "0.2.0" db j p in
            elim (Option-cases (find_row (run_is i) j.1.refresh_runs)) [
              | inl q ↦ cc (rw (finish, p, set_status, q) at e)
              | inr (other, q) ↦
                  subst (λ x. IsClosed x.0 key x.1)
                    (ok-injective (rw (finish, p, set_status, q) at e))
                    (record {
                      succeeds = code;
                      row = write row;
                      time = now;
                      stored =
                          find_row-update_if (has_key key) (run_is i) write (λ x. refl)
                            j.1.refresh_runs stored ((==_iff row.refresh_run_id i).1 same);
                      status = final;
                      completed = refl;
                    })
            ]
      ]

  module _ (stages : Stages) (locked : ℕ → Bool) where
    refresh_inventory-IsClosed :
        (key : String) (t : RefreshTriggerType) (ss : List SourceRunSummary) (db : Database)
        (code : ℕ)
        → (refresh_inventory env stages locked key t ss db).0 ≡ ok code
        → IsClosed code key (refresh_inventory env stages locked key t ss db).1
    unfolding refresh_inventory
    refresh_inventory-IsClosed key t ss db code e =
        let drained =
          drain_normalize_jobs env "normalize-worker" locked DiscoveryMethod.search_index 1000 db in
        elim (Result-cases drained.0) [
          | inr (x, p) ↦ cc (rw (refresh_inventory, p) at e)
          | inl (n, p) ↦
              let enriched = enrich env stages t drained.1 in
              elim (Result-cases enriched.0) [
                | inr (x, q) ↦ cc (rw (refresh_inventory, p, q) at e)
                | inl (u, q) ↦ elim (Result-cases (finish env key t ss enriched.1)) [
                  | inr (x, f) ↦ cc (rw (refresh_inventory, p, q, f) at e)
                  | inl (r, f) ↦
                      rw (refresh_inventory, p, q, f)
                        (subst (λ c. IsClosed c key r.1)
                          (ok-injective (rw (refresh_inventory, p, q, f) at e))
                          (finish-IsClosed key t ss enriched.1 r f))
                ]
              ]
        ]

    -- A refresh that returns, with whatever sources and stages, returns the exit code 0, also where
    -- every source failed or was blocked, and leaves the refresh run of its own key (the key given,
    -- or that of the day) with the status SUCCEEDED or PARTIAL_SUCCESS and a time of completion.
    pub run_weekday_refresh-IsClosed :
        (adapters : List SourceAdapter) (date : String) (t : RefreshTriggerType)
        (key : Option String) (db : Database) (code : ℕ)
        → (run_weekday_refresh env stages locked adapters date t key db).0 ≡ ok code
        → IsClosed code
            (refresh_key date key)
            (run_weekday_refresh env stages locked adapters date t key db).1
    unfolding run_weekday_refresh
    run_weekday_refresh-IsClosed adapters date t key db code e =
        let start =
          then_stage (if is_manual t then stages.discard_inventory else no_stage) (ok tt, db) in
        elim (Result-cases start.0) [
          | inr (x, p) ↦ cc (rw (run_weekday_refresh, p) at e)
          | inl (u, p) ↦
              let ran = run_sources env (refresh_key date key) t adapters start.1 in
              elim (Result-cases ran.0) [
                | inr (x, q) ↦ cc (rw (run_weekday_refresh, p, q) at e)
                | inl (ss, q) ↦
                    rw (run_weekday_refresh, p, q)
                      (refresh_inventory-IsClosed (refresh_key date key) t ss ran.1 code
                        (rw (run_weekday_refresh, p, q) at e))
              ]
        ]
