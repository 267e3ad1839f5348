-- ===== src/Acquisition/Runner/Kept.antt =====
-- What a run of acquisition/runner.py leaves as it is, and the invariants that it keeps.
use nyc_rental_listing_agent.Base.{
  ℕ, ◌≤◌, ◌≡◌, refl, ◌∙◌, inl, inr, ap, String, true, false, Option, none, some, List, [], ◌∷◌,
  ◌++◌, arith, str_eq, str_eq_iff, Bool-cases,
}
use nyc_rental_listing_agent.Base.Table.{exists, count}
use nyc_rental_listing_agent.Base.Table.Rules.{count-append, exists-count, count_mono}
use nyc_rental_listing_agent.Enums.Ops.{ParseStatus}
use nyc_rental_listing_agent.Model.Listings.{ParsedSourceObservation, SourceObservation}
use nyc_rental_listing_agent.Model.Database.{Database}
use nyc_rental_listing_agent.Jobs.Queue.Enqueue.{JobIdentity, is_live_as, enqueue}
use nyc_rental_listing_agent.Jobs.Queue.Invariant.{IsSound, IsSoundTable-mono, enqueue-IsSound}
use nyc_rental_listing_agent.Acquisition.Observations.{
  same_subject, same_observation, observation_row, insert_idempotent,
}
use nyc_rental_listing_agent.Acquisition.Runner.Source.{source_run_is}

-- The database without the tables of acquisition and of the queue: the canonical inventory, its
-- evidence, the review state and the work of the clients.
abbrev pub inventory : Database → Database
inventory db = record db {
  next_id = 0;
  jobs = [];
  refresh_runs = [];
  source_runs = [];
  checkpoints = [];
  observations = [];
}

-- No two observations have one idempotency key.
unfoldable pub IsUnique : List SourceObservation → Type 0
IsUnique rows = (o : SourceObservation) → count (same_observation o) rows ≤ 1

pub record IsAcquired (db db' : Database) : Type 0 where
  pub ids : db.next_id ≤ db'.next_id
  pub sound : IsSound db → IsSound db'
  pub unique : IsUnique db.observations → IsUnique db'.observations
  pub kept : inventory db' ≡ inventory db
  pub runs :
      (i : ℕ) → count (source_run_is i) db.source_runs ≤ count (source_run_is i) db'.source_runs

pub IsAcquired-refl : (db : Database) → IsAcquired db db
IsAcquired-refl db = record {
  ids = omega arith;
  sound = λ h. h;
  unique = λ h. h;
  kept = refl;
  runs = λ i. omega arith;
}

pub IsAcquired-trans : {a b c : Database} → IsAcquired a b → IsAcquired b c → IsAcquired a c
IsAcquired-trans h k = record {
  ids = omega (arith, h.ids, k.ids);
  sound = λ s. k.sound (h.sound s);
  unique = λ u. k.unique (h.unique u);
  kept = k.kept ∙ h.kept;
  runs = λ i. omega (arith, h.runs i, k.runs i);
}

same_subject_trans :
    (a b c : Option String) (u v w : String)
    → same_subject a u b v ≡ true
    → same_subject a u c w ≡ same_subject b v c w
same_subject_trans none none none u v w h = ap (λ x. str_eq x w) ((str_eq_iff u v).0 h)
same_subject_trans none none (some c) u v w h = refl
same_subject_trans (some a) (some b) none u v w h = refl
same_subject_trans (some a) (some b) (some c) u v w h = ap (λ x. str_eq x c) ((str_eq_iff a b).0 h)
same_subject_trans none (some b) c u v w h = cc
same_subject_trans (some a) none c u v w h = cc

same_observation_trans :
    (a b c : SourceObservation)
    → same_observation a b ≡ true
    → same_observation a c ≡ same_observation b c
unfolding same_observation
same_observation_trans a b c h = ground (
  arith,
  same_subject_trans a.source_native_id b.source_native_id c.source_native_id a.source_url
      b.source_url c.source_url,
  str_eq_iff a.content_hash b.content_hash,
)

-- A row whose key no row has keeps the keys unique.
append-IsUnique :
    (row : SourceObservation) (rows : List SourceObservation)
    → exists (same_observation row) rows ≡ false
    → IsUnique rows
    → IsUnique (rows ++ row ∷ [])
unfolding IsUnique
append-IsUnique row rows e h o =
    rw (count-append (same_observation o) rows (row ∷ []))
      (elim (Bool-cases (same_observation o row)) [
        | inl m ↦ rw m (
            omega (
              arith,
              exists-count (same_observation row) rows e,
              count_mono (same_observation o) (same_observation row) rows
                  (λ x t. rw (same_observation_trans o row x m) at t),
            ))
        | inr m ↦ rw m (omega (arith, h o))
      ])

pub insert-IsAcquired :
    (o : ParsedSourceObservation) (source run : ℕ) (hash : String) (s : ParseStatus) (db : Database)
    → IsAcquired db (insert_idempotent o source run hash s db).1
unfolding insert_idempotent
insert-IsAcquired o source run hash s db =
    let row = observation_row db.next_id o source run hash s in
    elim (Bool-cases (exists (same_observation row) db.observations)) [
      | inl e ↦ rw e (IsAcquired-refl db)
      | inr e ↦ rw e (record {
        ids = omega arith;
        sound = λ h. IsSoundTable-mono (omega arith) db.jobs h;
        unique = λ h. append-IsUnique row db.observations e h;
        kept = refl;
        runs = λ i. omega arith;
      })
    ]

pub enqueue-IsAcquired :
    (now : ℕ) (k : JobIdentity) (run : Option ℕ) (priority most : ℕ) (next : Option ℕ)
    (db : Database)
    → IsAcquired db (enqueue now k run priority most next db).1
unfolding enqueue
enqueue-IsAcquired now k run priority most next db =
    let sound = λ (h : IsSound db). enqueue-IsSound now k run priority most next db h in
    elim (Bool-cases (exists (is_live_as k) db.jobs)) [
      | inl e ↦ rw e (IsAcquired-refl db)
      | inr e ↦ rw e (record {
        ids = omega arith;
        sound = λ h. rw e at (sound h);
        unique = λ h. h;
        kept = refl;
        runs = λ i. omega arith;
      })
    ]
