-- ===== src/Tests/Tiering.antt =====
-- A model whose first two answers do not fit the schema.
use nyc_rental_listing_agent.Base.{ℕ, ◌+◌, none, some, if◌then◌else◌, ltb}
use nyc_rental_listing_agent.Enums.Facts.{Confidence}
use nyc_rental_listing_agent.Enums.Ops.{ModelTier, ModelExecutionStatus}
use nyc_rental_listing_agent.Enrichment.Tiering.{
  LlmTaskRequest, TieredOutcome, Executor, execute_tiered,
}
use nyc_rental_listing_agent.Enrichment.Tiering.Bounded.{
  tracked, default_call, flagship_call, IsBounded, execute_tiered-IsBounded,
}

abbrev task : LlmTaskRequest
task = record {
  task_type = "layout";
  prompt_version = "1";
  output_schema_version = "1";
  input_refs = "{}";
  input_payload = "{}";
  output_schema = none;
  tier = ModelTier.default_hosted;
}

-- The world counts the calls.
abbrev answers : Executor ℕ
answers request n = (
  record {
    status = if ltb n 2 then ModelExecutionStatus.failed else ModelExecutionStatus.succeeded;
    output = none;
    confidence = Confidence.low;
    model_id = "m";
    input_tokens = none;
    output_tokens = none;
    error_code = some "LLM_SCHEMA_FAILURE";
  },
  n + 1,
)

abbrev answered : TieredOutcome × (ℕ × (ℕ × ℕ))
answered =
    execute_tiered (tracked default_call answers) (tracked flagship_call answers) none task
      (0, (0, 0))

execute_tiered-IsBounded_example : IsBounded none task answered.0 answered.1.1.0 answered.1.1.1
execute_tiered-IsBounded_example = execute_tiered-IsBounded answers answers none task 0
