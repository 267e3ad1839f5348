-- ===== src/Model/Database.antt =====
-- The tables that the services share. `next_id` is the supply of new UUIDs (`uuid4`,
-- `gen_random_uuid`): they are numbered in the order in which they are drawn, so that none repeats.
use nyc_rental_listing_agent.Base.{ℕ, List, []}
use nyc_rental_listing_agent.Model.Ops.{
  Job, JobAttempt, Source, RefreshRun, SourceRun, AdapterCheckpoint,
}
use nyc_rental_listing_agent.Model.Listings.{
  SourceObservation, Address, Building, RentalUnit, CanonicalListing, ListingSourceLink,
  CanonicalMerge, DuplicateCandidate, ListingEvent,
}
use nyc_rental_listing_agent.Model.Evidence.{
  FactAssertion, FactResolution, HumanOverride, ReviewIssue,
}
use nyc_rental_listing_agent.Model.Clients.{
  CompanyProperty, MarketingSelection, ClientSearchPreset, ClientShortlistEntry, AuditActionLog,
}

pub record Database : Type 0 where
  pub next_id : ℕ
  pub jobs : List Job
  pub attempts : List JobAttempt
  pub sources : List Source
  pub refresh_runs : List RefreshRun
  pub source_runs : List SourceRun
  pub checkpoints : List AdapterCheckpoint
  pub observations : List SourceObservation
  pub addresses : List Address
  pub buildings : List Building
  pub units : List RentalUnit
  pub listings : List CanonicalListing
  pub links : List ListingSourceLink
  pub merges : List CanonicalMerge
  pub candidates : List DuplicateCandidate
  pub events : List ListingEvent
  pub assertions : List FactAssertion
  pub resolutions : List FactResolution
  pub overrides : List HumanOverride
  pub issues : List ReviewIssue
  pub company_properties : List CompanyProperty
  pub selections : List MarketingSelection
  pub presets : List ClientSearchPreset
  pub entries : List ClientShortlistEntry
  pub audit : List AuditActionLog

abbrev pub empty : Database
empty = record {
  next_id = 0;
  jobs = [];
  attempts = [];
  sources = [];
  refresh_runs = [];
  source_runs = [];
  checkpoints = [];
  observations = [];
  addresses = [];
  buildings = [];
  units = [];
  listings = [];
  links = [];
  merges = [];
  candidates = [];
  events = [];
  assertions = [];
  resolutions = [];
  overrides = [];
  issues = [];
  company_properties = [];
  selections = [];
  presets = [];
  entries = [];
  audit = [];
}
