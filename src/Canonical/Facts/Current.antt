-- ===== src/Canonical/Facts/Current.antt =====
-- `FactRecorder.record` of canonical/facts.py, with and without an override.
use nyc_rental_listing_agent.Base.{
  ℕ, ◌≡◌, refl, inl, inr, true, false, none, some, [], ◌∷◌, ◌++◌, arith, ==_refl, str_eq_refl, ◌+◌,
  ◌==◌, str_eq, ◌&&◌, not, Bool, List, ◌∙◌,
}
use mathlib.Core.List.{append-nil}
use nyc_rental_listing_agent.Base.Lists.{length, length-append, All, All-append, All-mono}
use nyc_rental_listing_agent.Base.Result.{ok}
use nyc_rental_listing_agent.Base.Table.{select, count, update_where}
use nyc_rental_listing_agent.Base.Table.Rules.{
  count-append, count-none, All-update_if, select-append, select-update_apart, length-update,
}
use nyc_rental_listing_agent.Base.Table.Scalar.{scalar-cases}
use nyc_rental_listing_agent.Enums.Facts.{ResolutionMethod, same_entity_type, same_entity_type_iff}
use nyc_rental_listing_agent.Model.Evidence.{FactResolution, HumanOverride}
use nyc_rental_listing_agent.Model.Database.{Database}
use nyc_rental_listing_agent.Canonical.Facts.{
  Fact, Evidence, is_current, overrides_fact, active_override, record_fact, resolve_to,
  resolution_of, add_assertion, assertion_of,
}

superseded-not :
    (now : ℕ) (f : Fact) (x : FactResolution)
    → is_current f (record x { superseded_at = some now }) ≡ false
unfolding is_current
superseded-not now f x = ground arith

own :
    (f : Fact) (r : FactResolution)
    → r.entity_type ≡ f.entity_type
    → r.entity_id ≡ f.entity_id
    → r.fact_key ≡ f.fact_key
    → r.superseded_at ≡ none
    → is_current f r ≡ true
unfolding is_current
own f r a b c d =
    rw
      (
        a,
        b,
        c,
        d,
        (same_entity_type_iff f.entity_type f.entity_type).1 refl,
        ==_refl f.entity_id,
        str_eq_refl f.fact_key,
      )
      refl

no_override :
    (f : Fact) (db : Database)
    → count (overrides_fact f) db.overrides ≡ 0
    → active_override f db ≡ ok none
unfolding active_override
no_override f db h = elim (scalar-cases (overrides_fact f) db.overrides (omega (arith, h))) [
  | inl (e, _) ↦ e
  | inr (_, _, k) ↦ absurd (omega (arith, h, k))
]

pub one_override :
    (f : Fact) (db : Database)
    → count (overrides_fact f) db.overrides ≡ 1
    → (o : HumanOverride) × (active_override f db ≡ ok (some o))
unfolding active_override
one_override f db h = elim (scalar-cases (overrides_fact f) db.overrides (omega (arith, h))) [
  | inl (_, k) ↦ absurd (omega (arith, h, k))
  | inr (o, e, _) ↦ (o, e)
]

resolve_to-one :
    (now : ℕ) (f : Fact) (v : Evidence) (db : Database)
    → (count (is_current f) (resolve_to now f v.value_status db.next_id db.resolutions) ≡ 1)
      × All
          (λ r. is_current f r ≡ true → r.effective_assertion_id ≡ some db.next_id)
          (resolve_to now f v.value_status db.next_id db.resolutions)
resolve_to-one now f v db =
    let row : FactResolution = record {
      entity_type = f.entity_type;
      entity_id = f.entity_id;
      fact_key = f.fact_key;
      effective_assertion_id = some db.next_id;
      resolution_status = resolution_of v.value_status;
      resolution_method = ResolutionMethod.recency;
      superseded_at = none;
    } in
    let old =
      update_where (is_current f) (λ r. record r { superseded_at = some now }) db.resolutions in
    let left =
      All-update_if (λ r. is_current f r ≡ false) (is_current f)
        (λ r. record r { superseded_at = some now }) (λ x _. superseded-not now f x) (λ x e. e)
        db.resolutions in
    (
      rw (count-append (is_current f) old (row ∷ []), own f row refl refl refl refl)
          (omega (arith, count-none (is_current f) old left)),
      All-append _ old (row ∷ []) (All-mono _ (λ x n t. cc) old left) (λ _. refl, tt),
    )

-- A resolution of the fact.
abbrev pub concerns : Fact → FactResolution → Bool
concerns f r =
    same_entity_type r.entity_type f.entity_type
    && r.entity_id == f.entity_id
    && str_eq r.fact_key f.fact_key

abbrev pub of_others : Fact → List FactResolution → List FactResolution
of_others f = select (λ r. not (concerns f r))

concerned : (f : Fact) (r : FactResolution) → is_current f r ≡ true → concerns f r ≡ true
unfolding is_current
concerned f r h = ground (arith, h)

resolve_to-frame :
    (now : ℕ) (f : Fact) (v : Evidence) (db : Database)
    → (of_others f (resolve_to now f v.value_status db.next_id db.resolutions)
        ≡ of_others f db.resolutions)
      × (length (resolve_to now f v.value_status db.next_id db.resolutions)
          ≡ length db.resolutions + 1)
resolve_to-frame now f v db =
    let row : FactResolution = record {
      entity_type = f.entity_type;
      entity_id = f.entity_id;
      fact_key = f.fact_key;
      effective_assertion_id = some db.next_id;
      resolution_status = resolution_of v.value_status;
      resolution_method = ResolutionMethod.recency;
      superseded_at = none;
    } in
    let write : FactResolution → FactResolution = λ r. record r { superseded_at = some now } in
    let old = update_where (is_current f) write db.resolutions in
    let own_row : not (concerns f row) ≡ false =
      rw (concerned f row (own f row refl refl refl refl)) in
    (
      select-append (λ r. not (concerns f r)) old (row ∷ [])
          ∙ rw own_row (append-nil (of_others f old))
          ∙ select-update_apart (λ r. not (concerns f r)) (is_current f) write
              (λ x e. rw (concerned f x e)) (λ x. refl) db.resolutions,
      omega
          (arith, length-append old (row ∷ []), length-update (is_current f) write db.resolutions),
    )

-- Without a human's override the recorded assertion becomes the one current resolution of its fact,
-- whatever stood there before. The resolutions of other facts are the same, in the same order, the
-- table has one row more, so that no history is lost, and the assertion is added.
pub record_fact-current :
    (now : ℕ) (f : Fact) (v : Evidence) (db : Database)
    → count (overrides_fact f) db.overrides ≡ 0
    → (db' : Database) × (record_fact now f v db ≡ ok (db.next_id, db'))
      × (count (is_current f) db'.resolutions ≡ 1)
      × All
          (λ r. is_current f r ≡ true → r.effective_assertion_id ≡ some db.next_id)
          db'.resolutions
      × (of_others f db'.resolutions ≡ of_others f db.resolutions)
      × (length db'.resolutions ≡ length db.resolutions + 1)
      × (db'.assertions ≡ db.assertions ++ assertion_of db.next_id f v ∷ [])
unfolding record_fact
record_fact-current now f v db h =
    let recorded = add_assertion (assertion_of db.next_id f v) db in
    let rows = resolve_to now f v.value_status db.next_id db.resolutions in
    let (counted, named) = resolve_to-one now f v db in
    let (same, longer) = resolve_to-frame now f v db in
    (
      record recorded { resolutions = rows },
      rw (no_override f db h) refl,
      counted,
      named,
      same,
      longer,
      refl,
    )

-- A human's override keeps the resolutions as they are; the assertion is still recorded.
pub record_fact-override :
    (now : ℕ) (f : Fact) (v : Evidence) (db : Database)
    → count (overrides_fact f) db.overrides ≡ 1
    → (db' : Database) × (record_fact now f v db ≡ ok (db.next_id, db'))
      × (db'.resolutions ≡ db.resolutions)
      × (db'.assertions ≡ db.assertions ++ assertion_of db.next_id f v ∷ [])
unfolding record_fact
record_fact-override now f v db h =
    let (o, e) = one_override f db h in
    (add_assertion (assertion_of db.next_id f v) db, rw e refl, refl, refl)
