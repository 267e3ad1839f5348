-- ===== src/Model/Evidence.antt =====
-- db/models/facts.py and the overrides and issues of db/models/review.py.
use nyc_rental_listing_agent.Base.{ℕ, Bool, String, Option, List}
use nyc_rental_listing_agent.Enums.Facts.{
  FactEntityType, ValueStatus, DerivationType, Confidence, ResolutionStatus, ResolutionMethod,
  OverrideStatus, ReviewIssueType, ReviewIssueSeverity, ReviewIssueStatus,
}

-- A JSON value: an amount, a text (as of an enumeration's member), or null.
pub data Value : Type 0 where
  number : ℕ → Value
  text : String → Value
  null : Value

pub record FactAssertion : Type 0 where
  pub fact_assertion_id : ℕ
  pub entity_type : FactEntityType
  pub entity_id : ℕ
  pub fact_key : String
  pub value : Option Value
  pub value_status : ValueStatus
  pub derivation_type : DerivationType
  pub source_observation_id : Option ℕ
  pub evidence_text : Option String
  pub confidence : Confidence

pub record FactResolution : Type 0 where
  pub entity_type : FactEntityType
  pub entity_id : ℕ
  pub fact_key : String
  pub effective_assertion_id : Option ℕ
  pub resolution_status : ResolutionStatus
  pub resolution_method : ResolutionMethod
  pub superseded_at : Option ℕ

pub record HumanOverride : Type 0 where
  pub human_override_id : ℕ
  pub entity_type : FactEntityType
  pub entity_id : ℕ
  pub field_name : String
  pub override_value : Option Value
  pub override_status : OverrideStatus
  pub review_on_new_conflict : Bool

-- The `details` document, one form for each place that opens an issue.
pub data IssueDetails : Type 0 where
  conflict :
      (fact_key : String) (override_id : ℕ) (override_value : Option Value) (incoming : Value)
      → IssueDetails
  duplicate : (duplicate_candidate_id listing_a_id listing_b_id : ℕ) → IssueDetails
  breaker : (proposed cap : ℕ) (listing_ids : List ℕ) → IssueDetails

pub record ReviewIssue : Type 0 where
  pub entity_type : FactEntityType
  pub entity_id : ℕ
  pub issue_type : ReviewIssueType
  pub severity : ReviewIssueSeverity
  pub status : ReviewIssueStatus
  pub details : IssueDetails
  pub resolved_at : Option ℕ
  pub resolved_by : Option String
