-- ===== src/Acquisition/Runner/Whole.antt =====
-- A whole run of acquisition/runner.py: the canonical state stays, the invariants hold.
use nyc_rental_listing_agent.Base.{
  ℕ, ◌≡◌, refl, inl, inr, subst, String, Bool, none, some, [], ◌∷◌, arith, str_eq, Bool-cases,
}
use nyc_rental_listing_agent.Base.Result.{ok, ok-injective, Result-cases}
use nyc_rental_listing_agent.Base.Table.{select, exists, scalar_one_or_none}
use nyc_rental_listing_agent.Base.Table.Rules.{count-append}
use nyc_rental_listing_agent.Enums.Ops.{RefreshTriggerType}
use nyc_rental_listing_agent.Enums.Listing.{DiscoveryMethod}
use nyc_rental_listing_agent.Model.Database.{Database}
use nyc_rental_listing_agent.Jobs.Queue.Invariant.{IsSoundTable-mono}
use nyc_rental_listing_agent.Acquisition.Contracts.{SourceAdapter, Platform}
use nyc_rental_listing_agent.Acquisition.Runs.{
  has_key, scalar_one, is_run_of, create_or_join, new_source_run, create_source_run,
}
use nyc_rental_listing_agent.Acquisition.Runner.Partition.{RunKeys}
use nyc_rental_listing_agent.Acquisition.Runner.Source.{
  has_code, open_run, source_run_is, run_source,
}
use nyc_rental_listing_agent.Acquisition.Runner.Kept.{IsAcquired, IsAcquired-refl, IsAcquired-trans}
use nyc_rental_listing_agent.Acquisition.Runner.Steps.{finalize-IsAcquired, run_planned-IsAcquired}

pub create_or_join-IsAcquired :
    (key : String) (t : RefreshTriggerType) (now : ℕ) (version : String) (db : Database)
    (r : (ℕ × Bool) × Database)
    → create_or_join key t now version db ≡ ok r
    → IsAcquired db r.1
unfolding create_or_join
create_or_join-IsAcquired key t now version db r e =
    elim (Bool-cases (exists (has_key key) db.refresh_runs)) [
      | inr h ↦
          subst (λ x. IsAcquired db x.1) (ok-injective (rw h at e))
            (record {
              ids = omega arith;
              sound = λ s. IsSoundTable-mono (omega arith) db.jobs s;
              unique = λ u. u;
              kept = refl;
              runs = λ i. omega arith;
            })
      | inl h ↦ elim (Result-cases (scalar_one (select (has_key key) db.refresh_runs))) [
        | inl (x, f) ↦
            subst (λ x. IsAcquired db x.1) (ok-injective (rw (h, f) at e)) (IsAcquired-refl db)
        | inr (x, f) ↦ cc (rw (h, f) at e)
      ]
    ]

pub create_source_run-IsAcquired :
    (run source now : ℕ) (version : String) (db : Database) (r : ℕ × Database)
    → create_source_run run source now version db ≡ ok r
    → IsAcquired db r.1
unfolding create_source_run
create_source_run-IsAcquired run source now version db r e =
    elim (Bool-cases (exists (is_run_of run source) db.source_runs)) [
      | inl h ↦ cc (rw h at e)
      | inr h ↦
          subst (λ x. IsAcquired db x.1) (ok-injective (rw h at e))
            (record {
              ids = omega arith;
              sound = λ s. IsSoundTable-mono (omega arith) db.jobs s;
              unique = λ u. u;
              kept = refl;
              runs = λ i. omega (
                arith,
                count-append (source_run_is i) db.source_runs
                    (new_source_run db.next_id run source now version ∷ []),
              );
            })
    ]

pub open_run-IsAcquired :
    (env : Platform) (adapter : SourceAdapter) (key : String) (t : RefreshTriggerType)
    (db : Database) (r : RunKeys × Database)
    → open_run env adapter key t db ≡ ok r
    → IsAcquired db r.1
unfolding open_run
open_run-IsAcquired env adapter key t db r e =
    let now = env.clock db.next_id in
    elim (Result-cases (scalar_one_or_none (select (has_code adapter.source_code) db.sources))) [
      | inr (x, p) ↦ cc (rw p at e)
      | inl (none, p) ↦ cc (rw p at e)
      | inl (some s, p) ↦ elim (Result-cases (create_or_join key t now "0.2.0" db)) [
        | inr (x, q) ↦ cc (rw (p, q) at e)
        | inl (j, q) ↦
            let joined = create_or_join-IsAcquired key t now "0.2.0" db j q in
            elim (Result-cases
              (scalar_one_or_none (select (is_run_of j.0.0 s.source_id) j.1.source_runs))) [
                | inr (x, u) ↦ cc (rw (p, q, u) at e)
                | inl (some old, u) ↦
                    subst (λ x. IsAcquired db x.1) (ok-injective (rw (p, q, u) at e)) joined
                | inl (none, u) ↦
                    elim (Result-cases
                      (create_source_run j.0.0 s.source_id now adapter.adapter_version j.1)) [
                        | inr (x, v) ↦ cc (rw (p, q, u, v) at e)
                        | inl (c, v) ↦
                            subst (λ x. IsAcquired db x.1) (ok-injective (rw (p, q, u, v) at e))
                              (IsAcquired-trans joined (
                                create_source_run-IsAcquired j.0.0 s.source_id now
                                  adapter.adapter_version j.1 c v))
                      ]
              ]
      ]
    ]

-- A run of a source, whatever its adapter returns or raises, leaves the canonical inventory, its
-- evidence, the review state and the clients' work as they were (all tables but those of runs,
-- checkpoints, observations and jobs); a sound job table stays sound, and observations with distinct
-- idempotency keys stay so; no row of a source run is lost.
pub run_source-IsAcquired :
    (env : Platform) (adapter : SourceAdapter) (key : String) (t : RefreshTriggerType)
    (method : DiscoveryMethod) (db : Database)
    → IsAcquired db (run_source env adapter key t method db).1
unfolding run_source
run_source-IsAcquired env adapter key t method db =
    elim (Result-cases (open_run env adapter key t db)) [
      | inr (x, e) ↦ rw (run_source, e) (IsAcquired-refl db)
      | inl (o, e) ↦
          let opened = open_run-IsAcquired env adapter key t db o e in
          elim (Result-cases adapter.preflight) [
            | inr (x, f) ↦ rw (run_source, e, f) opened
            | inl (checked, f) ↦ elim (Bool-cases (str_eq checked.outcome "BLOCKED")) [
              | inl b ↦
                  rw (run_source, e, f, b)
                    (IsAcquired-trans opened (finalize-IsAcquired env adapter o.0 method _ o.1))
              | inr b ↦
                  rw (run_source, e, f, b)
                    (IsAcquired-trans opened (
                      run_planned-IsAcquired env adapter o.0 method
                        (str_eq checked.outcome "DEGRADED") o.1))
            ]
          ]
    ]
