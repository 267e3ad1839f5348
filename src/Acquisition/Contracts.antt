-- ===== src/Acquisition/Contracts.antt =====
-- The listing sources of contracts/providers.py. A method's call may raise, and gives a `Result`.
use nyc_rental_listing_agent.Base.{ℕ, String, Bool, Option, List}
use nyc_rental_listing_agent.Base.Result.{Result}
use nyc_rental_listing_agent.Model.Listings.{ParsedSourceObservation}

-- `result` is READY, DEGRADED or BLOCKED.
pub record SourcePreflightResult : Type 0 where
  pub outcome : String
  pub reasons : List String

pub record AcquisitionPartition : Type 0 where
  pub source_code : String
  pub partition_key : String
  pub geography : String
  pub layout : Option String

pub record DiscoveredItem : Type 0 where
  pub source_native_id : Option String
  pub detail_url : String

-- `search_error` is the truth of the health marker of that name.
pub record DiscoveryPage : Type 0 where
  pub items : List DiscoveredItem
  pub appears_truncated : Bool
  pub search_error : Bool

pub record RawListingCapture : Type 0 where
  pub final_url : String
  pub retrieved_at : ℕ
  pub content_hash : String

pub record SourceAdapter : Type 0 where
  pub source_code : String
  pub adapter_version : String
  pub preflight : Result SourcePreflightResult
  pub plan_partitions : Result (List AcquisitionPartition)
  pub discover : AcquisitionPartition → Result DiscoveryPage
  pub fetch_detail : DiscoveredItem → Result RawListingCapture
  pub extract : RawListingCapture → Result ParsedSourceObservation

-- What the runner takes from Python's library: the time at a point that the supply of identifiers has
-- reached, the texts of UUIDs, and the SHA-256 of a document.
pub record Platform : Type 0 where
  pub clock : ℕ → ℕ
  pub uuid_text : ℕ → String
  pub uuid_of : String → Option ℕ
  pub observation_hash : ParsedSourceObservation → String
