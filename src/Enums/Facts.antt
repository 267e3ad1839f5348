-- ===== src/Enums/Facts.antt =====
-- The enumerations of contracts/enums.py that facts, overrides and reviews use. Each is stored as its text; two members
-- are the same exactly when their texts are.
use nyc_rental_listing_agent.Base.{◌≡◌, ◌↔◌, Bool, true, false, arith}

pub data FactEntityType : Type 0 where
  building unit listing media transit_access commute_result : FactEntityType

FactEntityType-discrete : Discrete FactEntityType
FactEntityType-discrete = hlevel

unfoldable pub same_entity_type : FactEntityType → FactEntityType → Bool
unfolding FactEntityType-discrete
same_entity_type a b = elim (FactEntityType-discrete a b) [ yes h ↦ true | no h ↦ false ]

pub same_entity_type_iff : (a b : FactEntityType) → (same_entity_type a b ≡ true) ↔ (a ≡ b)
unfolding same_entity_type
same_entity_type_iff a b = ground arith

pub data ValueStatus : Type 0 where
  asserted unknown not_stated not_applicable negative conflicting : ValueStatus

pub data DerivationType : Type 0 where
  source_structured source_text llm_derived rule_derived provider_derived human : DerivationType

pub data Confidence : Type 0 where
  high medium low unknown : Confidence

pub data ValidationStatus : Type 0 where
  pending passed warning failed not_applicable : ValidationStatus

pub data ResolutionStatus : Type 0 where
  resolved unknown conflicting manual_override review_required : ResolutionStatus

pub data ResolutionMethod : Type 0 where
  source_priority recency consensus rule llm_proposed_validated human : ResolutionMethod

pub data OverrideStatus : Type 0 where
  active superseded revoked invalidated : OverrideStatus

pub data ReviewIssueType : Type 0 where
  conflict low_confidence duplicate_candidate stale validation_failure : ReviewIssueType
  source_failure media_association other : ReviewIssueType

pub data ReviewIssueSeverity : Type 0 where
  info warning blocking : ReviewIssueSeverity

pub data ReviewIssueStatus : Type 0 where
  opened acknowledged resolved dismissed : ReviewIssueStatus
