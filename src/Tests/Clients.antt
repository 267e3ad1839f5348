-- ===== src/Tests/Clients.antt =====
-- The operator's choices, on a listing that was already chosen once.
use nyc_rental_listing_agent.Model.Listings.{CanonicalListing}
use nyc_rental_listing_agent.Enums.Listing.{
  LayoutClass, AvailabilityStatus, LifecycleStatus, LaundryType, CanonicalResolutionStatus,
}
use nyc_rental_listing_agent.Base.{◌≡◌, ◌+◌, refl, true, false, none, some, [], ◌∷◌}
use nyc_rental_listing_agent.Base.Lists.{All, length}
use nyc_rental_listing_agent.Base.Result.{Result, ok, err}
use nyc_rental_listing_agent.Base.Table.{count}
use nyc_rental_listing_agent.Base.Table.Scalar.{count-single}
use nyc_rental_listing_agent.Enums.Human.{SelectionStatus, ShortlistEntryStatus, ActorType}
use nyc_rental_listing_agent.Model.Clients.{
  MarketingSelection, ClientShortlistEntry, ClientSearchPreset,
}
use nyc_rental_listing_agent.Model.Database.{Database, empty}
use nyc_rental_listing_agent.Canonical.Selection.{selects, lists, set_selection, set_entry}
use nyc_rental_listing_agent.Canonical.Selection.Targets.{IsSelectedOnce, set_selection-total}
use nyc_rental_listing_agent.Canonical.Selection.Entries.{IsListedOnce, set_entry-total}
use nyc_rental_listing_agent.Canonical.Selection.Presets.{
  get_preset, archive_preset, restore_preset, restore-archive,
}

abbrev flat : CanonicalListing
flat = record {
  canonical_listing_id = 7;
  building_id = 2;
  unit_id = none;
  layout_class = LayoutClass.studio;
  bedroom_count = none;
  bathroom_count = none;
  monthly_rent_minor = some 310000;
  availability_status = AvailabilityStatus.available;
  lifecycle_status = LifecycleStatus.candidate;
  laundry_type = LaundryType.unknown;
  indoor_laundry_badge_eligible = false;
  description_current = none;
  first_seen_at = 5;
  last_seen_at = 5;
  last_material_change_at = 5;
  inactive_at = none;
  canonical_resolution_status = CanonicalResolutionStatus.provisional;
}

abbrev chosen_before_row : MarketingSelection
chosen_before_row = record {
  marketing_selection_id = 20;
  canonical_listing_id = some 7;
  company_property_id = none;
  selection_status = SelectionStatus.not_selected;
  selected_by = "ann";
  selected_at = 5;
  note = none;
}

abbrev listed_row : ClientShortlistEntry
listed_row = record {
  client_shortlist_entry_id = 21;
  client_search_preset_id = 3;
  canonical_listing_id = some 7;
  company_property_id = none;
  entry_status = ShortlistEntryStatus.excluded;
  added_by = "ann";
  added_at = 5;
  note = none;
}

abbrev client : ClientSearchPreset
client = record {
  client_search_preset_id = 3;
  label = "heron";
  filter_definition = [];
  filter_schema_version = "1";
  map_geometry = none;
  note = none;
  created_by = "ann";
  archived_at = none;
}

abbrev chosen_before : Database
chosen_before = record empty {
  next_id = 30;
  selections = chosen_before_row ∷ [];
  entries = listed_row ∷ [];
  presets = client ∷ [];
  listings = flat ∷ record flat { canonical_listing_id = 8 } ∷ [];
}

selected_once : IsSelectedOnce chosen_before.selections
unfolding IsSelectedOnce
selected_once c d = count-single (selects c d) chosen_before_row

listed_once : IsListedOnce chosen_before.entries
unfolding IsListedOnce
listed_once p c d = count-single (lists p c d) listed_row

set_selection-total_example :
    (db' : Database) × (set_selection 10
        (some 7)
        none
        SelectionStatus.selected
        "bob"
        ActorType.human
        none
        chosen_before
      ≡ ok db')
    × (count (selects (some 7) none) db'.selections ≡ 1)
    × All
        (λ x.
          selects (some 7) none x ≡ true
          → (x.selection_status ≡ SelectionStatus.selected) × (x.selected_by ≡ "bob"))
        db'.selections
    × IsSelectedOnce db'.selections
    × (length db'.audit ≡ length chosen_before.audit + 1)
    × (db'.entries ≡ chosen_before.entries)
set_selection-total_example =
    set_selection-total 10 (some 7) none SelectionStatus.selected "bob" none chosen_before refl refl
      selected_once

set_entry-total_example :
    (db' : Database) × (set_entry 10 3
        (some 8)
        none
        ShortlistEntryStatus.included
        "bob"
        ActorType.human
        (some "call")
        chosen_before
      ≡ ok db')
    × (count (lists 3 (some 8) none) db'.entries ≡ 1)
    × All
        (λ x. lists 3 (some 8) none x ≡ true → x.entry_status ≡ ShortlistEntryStatus.included)
        db'.entries
    × IsListedOnce db'.entries
    × (length db'.audit ≡ length chosen_before.audit + 1)
    × (db'.selections ≡ chosen_before.selections)
    × (db'.presets ≡ chosen_before.presets)
set_entry-total_example =
    set_entry-total 10 3 (some 8) none ShortlistEntryStatus.included "bob" (some "call")
      chosen_before refl refl refl listed_once

abbrev outcome : Result Database → Database
outcome (ok db) = db
outcome (err e) = empty

abbrev archived : Database
archived = outcome (archive_preset 11 3 "bob" ActorType.human chosen_before)

restore-archive_example :
    (db'' : Database) × (restore_preset 3 "ann" ActorType.human archived ≡ ok db'')
    × (db''.presets ≡ chosen_before.presets)
    × (db''.entries ≡ chosen_before.entries)
    × (db''.selections ≡ chosen_before.selections)
unfolding archive_preset get_preset
restore-archive_example =
    restore-archive 11 3 "bob" "ann" chosen_before archived (λ e. refl, tt) refl
