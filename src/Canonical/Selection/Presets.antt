-- ===== src/Canonical/Selection/Presets.antt =====
-- The clients of `ClientShortlistService`: create, profile, archive, restore.
use nyc_rental_listing_agent.Canonical.Selection.{preset_is}
use nyc_rental_listing_agent.Base.{
  ℕ, ◌+◌, ◌≡◌, ◌<◌, refl, sym, subst, ap, ap₂, inl, inr, arith, Option-cases, Bool-cases, String,
  true, Option, none, some, List, [], ◌∷◌, ◌++◌, str_eq, if◌then◌else◌,
}
use nyc_rental_listing_agent.Base.Result.{
  Result, ok, err, value_error, integrity_error, ◌>>=◌, ok-injective,
}
use nyc_rental_listing_agent.Base.Table.{update_where, find_row, count, exists}
use nyc_rental_listing_agent.Base.Table.Rules.{count-update_same, find_row-count, find_row-counted}
use nyc_rental_listing_agent.Base.Lists.{All}
use nyc_rental_listing_agent.Enums.Human.{ActorType}
use nyc_rental_listing_agent.Model.Evidence.{Value, text, null}
use nyc_rental_listing_agent.Model.Clients.{ClientSearchPreset}
use nyc_rental_listing_agent.Model.Database.{Database}
use nyc_rental_listing_agent.Canonical.Human.{require_human}

-- `updated[key] = value`, and `before.get(key)`, on a JSON object.
abbrev pub set_key : String → String → List (String × String) → List (String × String)
set_key key value [] = (key, value) ∷ []
set_key key value ((k, v) ∷ rest) =
    let below = set_key key value rest in if str_eq k key then (k, value) ∷ rest else (k, v) ∷ below

abbrev pub get_key : String → List (String × String) → Option String
get_key key [] = none
get_key key ((k, v) ∷ rest) = let below = get_key key rest in if str_eq k key then some v else below

abbrev audited :
    (actor : String)
    → ActorType
    → (action : String) → Option ℕ
    → Option (List (String × Value))
    → Option (List (String × Value))
    → Database
    → Database
audited actor actor_type action target before after db = record db {
  audit =
      db.audit
      ++ (record {
        actor = actor;
        actor_type = actor_type;
        action_type = action;
        target_type = "client_search_preset";
        target_id = target;
        before_values = before;
        after_values = after;
        reason = none;
      })
        ∷ [];
}

unfoldable pub create_preset :
    (label : String)
    → List (String × String)
    → (filter_schema_version actor : String) → ActorType
    → (map_geometry_wkt note : Option String) → Database
    → Result Database
create_preset label filter_definition version actor actor_type map_geometry_wkt note db = do
  _ ← require_human actor_type
  _ ← if exists (λ p. str_eq p.label label) db.presets then err integrity_error else ok (tt {0})
  ok (
      audited actor actor_type "client_preset_created" none none (some (("label", text label) ∷ []))
        (record db {
          next_id = db.next_id + 1;
          presets =
              db.presets
              ++ (record {
                client_search_preset_id = db.next_id;
                label = label;
                filter_definition = filter_definition;
                filter_schema_version = version;
                map_geometry = map_geometry_wkt;
                note = note;
                created_by = actor;
                archived_at = none;
              })
                ∷ [];
        }))

-- `self._s.get(ClientSearchPreset, id)` and the check of it.
unfoldable pub get_preset : ℕ → Database → Result ClientSearchPreset
get_preset i db = elim (find_row (preset_is i) db.presets) [
  | none ↦ err value_error
  | some p ↦ ok p
]

abbrev as_value : Option String → Value
as_value none = null
as_value (some t) = text t

unfoldable pub update_profile :
    ℕ → (profile actor : String) → ActorType → Database → Result Database
update_profile i profile actor actor_type db = do
  _ ← require_human actor_type
  preset ← get_preset i db
  ok (
      audited actor actor_type "client_profile_updated" (some i)
        (some
          (("client_profile", as_value (get_key "client_profile" preset.filter_definition)) ∷ []))
        (some (("client_profile", text profile) ∷ []))
        (record db {
          presets =
              update_where (preset_is i)
                (λ p. record p {
                  filter_definition = set_key "client_profile" profile p.filter_definition;
                })
                db.presets;
        }))

unfoldable pub restore_preset : ℕ → (actor : String) → ActorType → Database → Result Database
restore_preset i actor actor_type db = do
  _ ← require_human actor_type
  preset ← get_preset i db
  ok (
      audited actor actor_type "client_preset_restored" (some i) none
        (some (("label", text preset.label) ∷ []))
        (record db {
          presets = update_where (preset_is i) (λ p. record p { archived_at = none }) db.presets;
        }))

unfoldable pub archive_preset :
    (now : ℕ) → ℕ → (actor : String) → ActorType → Database → Result Database
archive_preset now i actor actor_type db = do
  _ ← require_human actor_type
  preset ← get_preset i db
  ok (
      audited actor actor_type "client_preset_archived" (some i) none
        (some (("label", text preset.label) ∷ []))
        (record db {
          presets =
              update_where (preset_is i) (λ p. record p { archived_at = some now }) db.presets;
        }))

get_preset-found :
    (i : ℕ) (db : Database) {p : ClientSearchPreset}
    → find_row (preset_is i) db.presets ≡ some p
    → get_preset i db ≡ ok p
unfolding get_preset
get_preset-found i db e = rw (get_preset, e) refl

get_preset-none :
    (i : ℕ) (db : Database)
    → find_row (preset_is i) db.presets ≡ none
    → get_preset i db ≡ err value_error
unfolding get_preset
get_preset-none i db e = rw (get_preset, e) refl

restored-same :
    (now i : ℕ) (rows : List ClientSearchPreset)
    → All (λ p. preset_is i p ≡ true → p.archived_at ≡ none) rows
    → update_where
        (preset_is i)
        (λ p. record p { archived_at = none })
        (update_where (preset_is i) (λ p. record p { archived_at = some now }) rows)
      ≡ rows
restored-same now i [] h = refl
restored-same now i (p ∷ rows) h = elim (Bool-cases (preset_is i p)) [
  | inl e ↦ rw (e, e) (ap₂ (λ x xs. x ∷ xs) (row (h.0 e)) (restored-same now i rows h.1))
  | inr e ↦ rw (e, e) (ap (λ r. p ∷ r) (restored-same now i rows h.1))
]
  where
    row : p.archived_at ≡ none → (record p { archived_at = none }) ≡ p
    row e = sym (ap (λ a. record p { archived_at = a }) e)

-- Where a human archived a client that was not archived, restoring it in the state after succeeds for
-- every human, and the clients, the entries and the selections are as they were before the archiving.
pub restore-archive :
    (now i : ℕ) (actor actor' : String) (db db' : Database)
    → All (λ p. preset_is i p ≡ true → p.archived_at ≡ none) db.presets
    → archive_preset now i actor ActorType.human db ≡ ok db'
    → (db'' : Database) × (restore_preset i actor' ActorType.human db' ≡ ok db'')
      × (db''.presets ≡ db.presets)
      × (db''.entries ≡ db.entries)
      × (db''.selections ≡ db.selections)
unfolding archive_preset restore_preset
restore-archive now i actor actor' db db' live e =
    elim (Option-cases (find_row (preset_is i) db.presets)) [
      | inl p ↦ absurd (ground (arith, get_preset-none i db p))
      | inr (c, p) ↦
          let rows =
            update_where (preset_is i) (λ p. record p { archived_at = some now }) db.presets in
          let there : 0 < count (preset_is i) rows =
            rw
              (count-update_same (preset_is i) (preset_is i)
                (λ p. record p { archived_at = some now }) (λ x. refl) db.presets)
              (find_row-count (preset_is i) db.presets p) in
          let (d, q, _) = find_row-counted (preset_is i) rows there in
          let archived =
            audited actor ActorType.human "client_preset_archived" (some i) none
              (some (("label", text c.label) ∷ [])) (record db { presets = rows }) in
          let same : archived ≡ db' = ok-injective (rw (get_preset-found i db p) at e) in
          let restored =
            audited actor' ActorType.human "client_preset_restored" (some i) none
              (some (("label", text d.label) ∷ []))
              (record archived {
                presets = update_where (preset_is i) (λ p. record p { archived_at = none }) rows;
              }) in
          subst
            (λ r.
              (db'' : Database) × (restore_preset i actor' ActorType.human r ≡ ok db'')
              × (db''.presets ≡ db.presets)
              × (db''.entries ≡ db.entries)
              × (db''.selections ≡ db.selections))
            same
            (
              restored,
              rw (get_preset-found i archived q) refl,
              restored-same now i db.presets live,
              refl,
              refl,
            )
    ]
