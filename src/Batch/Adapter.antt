-- ===== src/Batch/Adapter.antt =====
-- src/alfabetizacao_pipeline/batch/adapters.py: `BigQueryAdapter`, over the BigQuery SDK, a
-- parameter. The adapter keeps the location of the last inspection beside the SDK's state.
pub mod Location
use tech_challenge_fase2_alf.Prelude.Results.{ok, err}
use tech_challenge_fase2_alf.Prelude.{String, ℕ, List, Option, some, none}
use tech_challenge_fase2_alf.Prelude.Actions.{Action, continue, ◌>>=◌, pure}
use tech_challenge_fase2_alf.Batch.Errors.{BatchError, source_inspection_required}
use tech_challenge_fase2_alf.Batch.Models.{
  DryRunEstimate, QueryParameter, SnapshotExport, SourceInspection,
}
use tech_challenge_fase2_alf.Batch.Ports.{BigQueryPort}

pub record SourceLocator : Type 0 where
  pub project : String
  pub dataset : String
  pub table : String

pub record QueryExecution : Type 0 where
  pub sql : String
  pub location : String
  pub maximum_bytes_billed : ℕ
  pub parameters : List QueryParameter
  pub destination_uri : Option String

pub record BigQueryAdapterConfig : Type 0 where
  pub locator : SourceLocator
  pub query_hash : String
  pub schema_hash : String

pub record BigQuerySdkBoundary (W : Type 0) : Type 0 where
  pub inspect : SourceLocator → Action W BatchError SourceInspection
  pub dry_run : QueryExecution → Action W BatchError DryRunEstimate
  pub snapshot : QueryExecution → Action W BatchError SnapshotExport

-- `self._location`, and the state behind the SDK.
pub record AdapterState (W : Type 0) : Type 0 where
  pub discovered : Option String
  pub remote : W

module _ {W : Type 0} where
  -- A call of the SDK.
  abbrev pub on_remote : {A : Type 0} → Action W BatchError A → Action (AdapterState W) BatchError A
  on_remote m s = let r = m s.remote in (r.0, record s { remote = r.1 })

  abbrev pub retain : SourceInspection → Action (AdapterState W) BatchError SourceInspection
  retain inspection s = (ok inspection, record s { discovered = some inspection.identity.location })

module _ {W : Type 0} (config : BigQueryAdapterConfig) (sdk : BigQuerySdkBoundary W) where
  unfoldable pub inspect_source : String → Action (AdapterState W) BatchError SourceInspection
  inspect_source source = on_remote (sdk.inspect config.locator) >>= retain

  unfoldable pub required_location : Action (AdapterState W) BatchError String
  required_location s = elim s.discovered [
    | none ↦ (err (source_inspection_required config.locator.table), s)
    | some location ↦ (ok location, s)
  ]

  unfoldable pub dry_run_at_location :
      String → List QueryParameter → ℕ → Action (AdapterState W) BatchError DryRunEstimate
  dry_run_at_location sql parameters limit = do
    location ← required_location
    on_remote (
        sdk.dry_run (record {
          sql = sql;
          location = location;
          maximum_bytes_billed = limit;
          parameters = parameters;
          destination_uri = none;
        }))

  unfoldable pub export_at_location :
      String → List QueryParameter → String → ℕ → Action (AdapterState W) BatchError SnapshotExport
  export_at_location sql parameters destination limit = do
    location ← required_location
    on_remote (
        sdk.snapshot (record {
          sql = sql;
          location = location;
          maximum_bytes_billed = limit;
          parameters = parameters;
          destination_uri = some destination;
        }))

  unfoldable pub big_query_adapter : BigQueryPort (AdapterState W)
  big_query_adapter = record {
    query_hash = config.query_hash;
    schema_hash = config.schema_hash;
    inspect = inspect_source;
    dry_run = dry_run_at_location;
    export_snapshot = export_at_location;
  }
