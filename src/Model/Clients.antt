-- ===== src/Model/Clients.antt =====
-- The operator's state of db/models/review.py: marketing selection, clients, shortlists, the audit.
use nyc_rental_listing_agent.Base.{ℕ, String, Option, List}
use nyc_rental_listing_agent.Enums.Human.{SelectionStatus, ShortlistEntryStatus, ActorType}
use nyc_rental_listing_agent.Model.Evidence.{Value}

pub record MarketingSelection : Type 0 where
  pub marketing_selection_id : ℕ
  pub canonical_listing_id : Option ℕ
  pub company_property_id : Option ℕ
  pub selection_status : SelectionStatus
  pub selected_by : String
  pub selected_at : ℕ
  pub note : Option String

-- db/models/company.py: the key of a company property, which the targets of the operator refer to.
pub record CompanyProperty : Type 0 where
  pub company_property_id : ℕ

-- `filter_definition` is a JSON object: its keys with the texts of their values.
pub record ClientSearchPreset : Type 0 where
  pub client_search_preset_id : ℕ
  pub label : String
  pub filter_definition : List (String × String)
  pub filter_schema_version : String
  pub map_geometry : Option String
  pub note : Option String
  pub created_by : String
  pub archived_at : Option ℕ

pub record ClientShortlistEntry : Type 0 where
  pub client_shortlist_entry_id : ℕ
  pub client_search_preset_id : ℕ
  pub canonical_listing_id : Option ℕ
  pub company_property_id : Option ℕ
  pub entry_status : ShortlistEntryStatus
  pub added_by : String
  pub added_at : ℕ
  pub note : Option String

pub record AuditActionLog : Type 0 where
  pub actor : String
  pub actor_type : ActorType
  pub action_type : String
  pub target_type : String
  pub target_id : Option ℕ
  pub before_values : Option (List (String × Value))
  pub after_values : Option (List (String × Value))
  pub reason : Option String
