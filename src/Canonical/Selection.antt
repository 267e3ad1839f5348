-- ===== src/Canonical/Selection.antt =====
-- canonical/selection_service.py: marketing selection and client shortlists. `now` is the time of the
-- call; a target is a canonical listing or a company property.
pub mod Targets
pub mod Entries
pub mod Presets
use nyc_rental_listing_agent.Base.{
  ℕ, ◌+◌, String, Bool, true, false, ◌&&◌, not, Option, none, some, List, [], ◌∷◌, ◌++◌, ◌==◌,
  str_eq, is_none, is_some_eq, if◌then◌else◌,
}
use nyc_rental_listing_agent.Base.Result.{Result, ok, err, value_error, integrity_error, ◌>>=◌}
use nyc_rental_listing_agent.Base.Table.{select, exists, update_where, find_row, scalar_one_or_none}
use nyc_rental_listing_agent.Enums.Human.{
  SelectionStatus, ShortlistEntryStatus, ActorType, selection_value, entry_value,
}
use nyc_rental_listing_agent.Model.Evidence.{Value, text}
use nyc_rental_listing_agent.Model.Clients.{
  CompanyProperty, MarketingSelection, ClientSearchPreset, ClientShortlistEntry, AuditActionLog,
}
use nyc_rental_listing_agent.Model.Database.{Database}
use nyc_rental_listing_agent.Canonical.Human.{require_human}
use nyc_rental_listing_agent.Canonical.Merge.{listing_is}

-- The guard that exactly one of the two targets is given.
abbrev pub one_target : (canonical company : Option ℕ) → Result (Unit {0})
one_target none (some i) = ok tt
one_target (some i) none = ok tt
one_target _ _ = err value_error

-- `target_filter`, on the two columns of a row.
abbrev pub targets : (canonical company row_canonical row_company : Option ℕ) → Bool
targets (some i) company row_canonical row_company = is_some_eq row_canonical i
targets none (some j) row_canonical row_company = is_some_eq row_company j
targets none none row_canonical row_company = false

abbrev pub target_type : Option ℕ → String
target_type none = "company_property"
target_type (some i) = "canonical_listing"

abbrev pub target_id : (canonical company : Option ℕ) → Option ℕ
target_id none company = company
target_id (some i) company = some i

-- `if note is not None: row.note = note`
abbrev pub or_kept : Option String → Option String → Option String
or_kept none kept = kept
or_kept (some note) kept = some note

abbrev pub selects : (canonical company : Option ℕ) → MarketingSelection → Bool
selects canonical company row =
    targets canonical company row.canonical_listing_id row.company_property_id

abbrev pub lists : (preset : ℕ) (canonical company : Option ℕ) → ClientShortlistEntry → Bool
lists preset canonical company row =
    row.client_search_preset_id == preset
    && targets canonical company row.canonical_listing_id row.company_property_id

abbrev pub property_is : ℕ → CompanyProperty → Bool
property_is i p = p.company_property_id == i

abbrev pub preset_is : ℕ → ClientSearchPreset → Bool
preset_is i p = p.client_search_preset_id == i

-- The foreign keys of a row's target.
abbrev pub target_exists : (canonical company : Option ℕ) → Database → Bool
target_exists canonical company db =
    elim canonical [ none ↦ true | some i ↦ exists (listing_is i) db.listings ]
    && elim company [ none ↦ true | some j ↦ exists (property_is j) db.company_properties ]

abbrev pub insert_selection :
    (now : ℕ) (canonical company : Option ℕ)
    → SelectionStatus
    → String
    → Option String
    → Database
    → Database
insert_selection now canonical company status actor note db = record db {
  next_id = db.next_id + 1;
  selections =
      db.selections
      ++ (record {
        marketing_selection_id = db.next_id;
        canonical_listing_id = canonical;
        company_property_id = company;
        selection_status = status;
        selected_by = actor;
        selected_at = now;
        note = note;
      })
        ∷ [];
}

-- The insert or the update of the target's row, with the flush: an insert for a target that does not
-- exist is refused.
unfoldable pub put_selection :
    (now : ℕ) (canonical company : Option ℕ)
    → SelectionStatus
    → String
    → Option String
    → Option MarketingSelection
    → Database
    → Result Database
put_selection now canonical company status actor note none db =
    if target_exists canonical company db
    then ok (insert_selection now canonical company status actor note db)
    else err integrity_error
put_selection now canonical company status actor note (some current) db = ok (record db {
  selections =
      update_where (selects canonical company)
        (λ row. record row {
          selection_status = status;
          selected_by = actor;
          selected_at = now;
          note = or_kept note row.note;
        })
        db.selections;
})

abbrev selection_before : Option MarketingSelection → Option (List (String × Value))
selection_before none = none
selection_before (some row) =
    some (("selection_status", text (selection_value row.selection_status)) ∷ [])

unfoldable pub audit_selection :
    (canonical company : Option ℕ)
    → SelectionStatus
    → String
    → ActorType
    → Option String
    → Option MarketingSelection
    → Database
    → Database
unfolding selection_value
audit_selection canonical company status actor actor_type note current written = record written {
  audit =
      written.audit
      ++ (record {
        actor = actor;
        actor_type = actor_type;
        action_type = "marketing_selection_change";
        target_type = target_type canonical;
        target_id = target_id canonical company;
        before_values = selection_before current;
        after_values = some (("selection_status", text (selection_value status)) ∷ []);
        reason = note;
      })
        ∷ [];
}

unfoldable pub set_selection :
    (now : ℕ) (canonical company : Option ℕ)
    → SelectionStatus
    → String
    → ActorType
    → Option String
    → Database
    → Result Database
unfolding put_selection audit_selection
set_selection now canonical company status actor actor_type note db = do
  _ ← require_human actor_type
  _ ← one_target canonical company
  current ← scalar_one_or_none (select (selects canonical company) db.selections)
  written ← put_selection now canonical company status actor note current db
  ok (audit_selection canonical company status actor actor_type note current written)

abbrev pub insert_entry :
    (now preset : ℕ) (canonical company : Option ℕ)
    → ShortlistEntryStatus
    → String
    → Option String
    → Database
    → Database
insert_entry now preset canonical company status actor note db = record db {
  next_id = db.next_id + 1;
  entries =
      db.entries
      ++ (record {
        client_shortlist_entry_id = db.next_id;
        client_search_preset_id = preset;
        canonical_listing_id = canonical;
        company_property_id = company;
        entry_status = status;
        added_by = actor;
        added_at = now;
        note = note;
      })
        ∷ [];
}

-- The same for a client: an insert for a client or a target that does not exist is refused.
unfoldable pub put_entry :
    (now preset : ℕ) (canonical company : Option ℕ)
    → ShortlistEntryStatus
    → String
    → Option String
    → Option ClientShortlistEntry
    → Database
    → Result Database
put_entry now preset canonical company status actor note none db =
    if exists (preset_is preset) db.presets && target_exists canonical company db
    then ok (insert_entry now preset canonical company status actor note db)
    else err integrity_error
put_entry now preset canonical company status actor note (some entry) db = ok (record db {
  entries =
      update_where (lists preset canonical company)
        (λ row. record row { entry_status = status; note = or_kept note row.note }) db.entries;
})

abbrev entry_before : Option ClientShortlistEntry → Option (List (String × Value))
entry_before none = none
entry_before (some row) = some (("entry_status", text (entry_value row.entry_status)) ∷ [])

unfoldable pub audit_entry :
    (canonical company : Option ℕ)
    → ShortlistEntryStatus
    → String
    → ActorType
    → Option String
    → Option ClientShortlistEntry
    → Database
    → Database
unfolding entry_value
audit_entry canonical company status actor actor_type note entry written = record written {
  audit =
      written.audit
      ++ (record {
        actor = actor;
        actor_type = actor_type;
        action_type = "client_shortlist_change";
        target_type = "client_shortlist_entry";
        target_id = target_id canonical company;
        before_values = entry_before entry;
        after_values = some (("entry_status", text (entry_value status)) ∷ []);
        reason = note;
      })
        ∷ [];
}

unfoldable pub set_entry :
    (now preset : ℕ) (canonical company : Option ℕ)
    → ShortlistEntryStatus
    → String
    → ActorType
    → Option String
    → Database
    → Result Database
unfolding put_entry audit_entry
set_entry now preset canonical company status actor actor_type note db = do
  _ ← require_human actor_type
  _ ← one_target canonical company
  entry ← scalar_one_or_none (select (lists preset canonical company) db.entries)
  written ← put_entry now preset canonical company status actor note entry db
  ok (audit_entry canonical company status actor actor_type note entry written)
