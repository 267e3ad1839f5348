-- ===== src/Enrichment/Tiering.antt =====
-- enrichment/llm/tiering.py: one default call, one repair, one flagship call, then a human. The
-- executors and the validator are the caller's, so they are parameters: the executors keep a state of
-- the world `W` (a remote model answers as it likes), the validator is a function.
pub mod Bounded
use nyc_rental_listing_agent.Base.{
  ℕ, String, Bool, true, false, ◌||◌, Option, none, some, List, [], ◌∷◌, ◌++◌, str_eq,
  if◌then◌else◌,
}
use nyc_rental_listing_agent.Enums.Facts.{Confidence}
use nyc_rental_listing_agent.Enums.Ops.{ModelTier, ModelExecutionStatus}

-- The documents (`dict`) are texts.
pub record LlmTaskRequest : Type 0 where
  pub task_type : String
  pub prompt_version : String
  pub output_schema_version : String
  pub input_refs : String
  pub input_payload : String
  pub output_schema : Option String
  pub tier : ModelTier

pub record LlmTaskResult : Type 0 where
  pub status : ModelExecutionStatus
  pub output : Option String
  pub confidence : Confidence
  pub model_id : String
  pub input_tokens : Option ℕ
  pub output_tokens : Option ℕ
  pub error_code : Option String

pub record Attempt : Type 0 where
  pub attempt : String
  pub tier : ModelTier
  pub rejection : String

pub record TieredOutcome : Type 0 where
  pub result : LlmTaskResult
  pub tier_used : ModelTier
  pub attempts : List Attempt
  pub needs_human_review : Bool

abbrev pub Executor {ℓ} : Type ℓ → Type ℓ
Executor W = LlmTaskRequest → W → LlmTaskResult × W

abbrev pub Validator : Type 0
Validator = LlmTaskRequest → LlmTaskResult → Option String

abbrev pub is_succeeded : ModelExecutionStatus → Bool
is_succeeded ModelExecutionStatus.succeeded = true
is_succeeded _ = false

-- `result.error_code or "EXECUTION_FAILED"`
abbrev pub error_of : Option String → String
error_of none = "EXECUTION_FAILED"
error_of (some code) = if str_eq code "" then "EXECUTION_FAILED" else code

-- `rejection or "ACCEPTED"`
abbrev pub logged : Option String → String
logged none = "ACCEPTED"
logged (some code) = if str_eq code "" then "ACCEPTED" else code

abbrev pub repairable : String → Bool
repairable code = str_eq code "LLM_SCHEMA_FAILURE" || str_eq code "EMPTY_OUTPUT"

abbrev pub judge : Option Validator → LlmTaskRequest → LlmTaskResult → Option String
judge validator request result =
    if is_succeeded result.status
    then elim validator [ none ↦ none | some v ↦ v request result ]
    else some (error_of result.error_code)

module _ {ℓ} {W : Type ℓ} (default flagship : Executor W) (validator : Option Validator) where
  -- One call of an executor, its verdict, and the entry of the log.
  abbrev pub attempt_with :
      Executor W
      → ModelTier
      → String
      → LlmTaskRequest
      → W
      → LlmTaskResult × Option String × Attempt × W
  attempt_with executor tier label request w =
      let tier_request = record request { tier = tier } in
      let (result, w') = executor tier_request w in
      let rejection = judge validator tier_request result in
      (result, rejection, record { attempt = label; tier = tier; rejection = logged rejection }, w')

  abbrev pub accepted : LlmTaskResult → ModelTier → List Attempt → TieredOutcome
  accepted result tier attempts = record {
    result = result;
    tier_used = tier;
    attempts = attempts;
    needs_human_review = false;
  }

  abbrev failed_result : LlmTaskResult → String → LlmTaskResult
  failed_result result code =
      if is_succeeded result.status
      then record {
        status = ModelExecutionStatus.failed;
        output = none;
        confidence = Confidence.unknown;
        model_id = result.model_id;
        input_tokens = none;
        output_tokens = none;
        error_code = some code;
      }
      else result

  -- Steps 3 and 4: the escalation, and the verdict where it is rejected too.
  unfoldable pub escalate : LlmTaskRequest → List Attempt → W → TieredOutcome × W
  escalate request attempts w =
      let (result, rejection, entry, w') =
        attempt_with flagship ModelTier.flagship_escalation "flagship" request w in
      elim rejection [
        | none ↦ (accepted result ModelTier.flagship_escalation (attempts ++ entry ∷ []), w')
        | some code ↦ (
          record {
            result = failed_result result code;
            tier_used = ModelTier.flagship_escalation;
            attempts = attempts ++ entry ∷ [];
            needs_human_review = true;
          },
          w',
        )
      ]

  -- Step 2: the repair call, where the first rejection is of the syntax.
  unfoldable pub repair : LlmTaskRequest → List Attempt → String → W → TieredOutcome × W
  unfolding escalate
  repair request attempts code w =
      let (result, rejection, entry, w') =
        attempt_with default ModelTier.default_hosted "repair" request w in
      let escalated = escalate request (attempts ++ entry ∷ []) w' in
      if repairable code
      then elim rejection [
        | none ↦ (accepted result ModelTier.default_hosted (attempts ++ entry ∷ []), w')
        | some _ ↦ escalated
      ]
      else escalate request attempts w

  unfoldable pub execute_tiered : LlmTaskRequest → W → TieredOutcome × W
  unfolding repair
  execute_tiered request w =
      let (result, rejection, entry, w') =
        attempt_with default ModelTier.default_hosted "default" request w in
      elim rejection [
        | none ↦ (accepted result ModelTier.default_hosted (entry ∷ []), w')
        | some code ↦ repair request (entry ∷ []) code w'
      ]
