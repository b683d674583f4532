-- ===== src/Batch/Planner.antt =====
-- src/alfabetizacao_pipeline/batch/planner.py: the price of a partition and the decision to skip
-- it. `uuid5` (of the namespace URL) is a parameter.
pub mod Price
pub mod Skip
use tech_challenge_fase2_alf.Prelude.Text.{show}
use tech_challenge_fase2_alf.Prelude.Dict.{get}
use tech_challenge_fase2_alf.Prelude.Results.{Result, err, ok}
use tech_challenge_fase2_alf.Prelude.{
  String, ℕ, Option, List, Bool, some, ltb, ◌<>◌, if◌then◌else◌, ◌∷◌, false, none, [], ◌==◌, ◌&&◌,
  string_eq, nat_eq,
}
use tech_challenge_fase2_alf.Prelude.Actions.{Action, ◌>>=◌, ◌>>◌, pure, raise_when, lift}
use tech_challenge_fase2_alf.Batch.Errors.{BatchError, schema_drift, cost_limit_exceeded, key_error}
use tech_challenge_fase2_alf.Batch.Models.{
  BatchEstimate, BatchPlan, BatchRequest, BatchManifest, BatchStatus, ContentFingerprint,
  QueryParameter, SourceInspection, SourceContract, BigQueryType,
}
use tech_challenge_fase2_alf.Batch.Ports.{BigQueryPort, ManifestStore}
use tech_challenge_fase2_alf.Batch.Catalog.{source_catalog}
use tech_challenge_fase2_alf.Batch.SchemaDrift.{compare_schema}
use tech_challenge_fase2_alf.Batch.Sql.{build_select_sql}

abbrev pub source_project : String
source_project = "basedosdados"

abbrev pub source_dataset : String
source_dataset = "br_inep_avaliacao_alfabetizacao"

-- `SOURCE_CATALOG[source]`
unfoldable pub contract_of : String → Result BatchError SourceContract
contract_of source = elim (get source source_catalog) [
  | none ↦ err (key_error source)
  | some contract ↦ ok contract
]

abbrev pub year_parameter : ℕ → List QueryParameter
year_parameter year = record { name = "year"; data_type = BigQueryType.int64; value = year } ∷ []

-- The same previous run, by its query, its schema and its content.
unfoldable pub matches_previous : BatchEstimate → ContentFingerprint → Option BatchManifest → Bool
matches_previous estimate fingerprint none = false
matches_previous estimate fingerprint (some previous) =
    previous.query_hash == estimate.query_hash
    && previous.schema_hash == estimate.schema_hash
    && previous.fingerprint == fingerprint.value
    && previous.row_count == fingerprint.row_count

module _ {W : Type 0} (query : BigQueryPort W) where
  -- `inspection or query.inspect(request.source)`
  abbrev pub given_or_inspect :
      String → Option SourceInspection → Action W BatchError SourceInspection
  given_or_inspect source none = query.inspect source
  given_or_inspect source (some inspection) = pure inspection

  unfoldable pub estimate_batch :
      BatchRequest → Option SourceInspection → Action W BatchError BatchEstimate
  estimate_batch request inspection = do
    contract ← lift (contract_of request.source)
    source_inspection ← given_or_inspect request.source inspection
    raise_when (compare_schema contract source_inspection.columns).blocking
        (schema_drift request.source)
    estimate ←
        query.dry_run (build_select_sql contract source_project source_dataset request.year)
          (year_parameter request.year) request.maximum_bytes_billed
    raise_when (ltb request.maximum_bytes_billed estimate.bytes_processed)
        (cost_limit_exceeded estimate.bytes_processed request.maximum_bytes_billed)
    pure (record {
      source = request.source;
      year = request.year;
      status = BatchStatus.planned;
      estimated_bytes = estimate.bytes_processed;
      maximum_bytes_billed = request.maximum_bytes_billed;
      query_hash = query.query_hash;
      schema_hash = query.schema_hash;
      cloud_writes = 0;
    })

module _ (uuid5 : String → String) where
  unfoldable pub run_key : BatchEstimate → ContentFingerprint → String
  run_key estimate fingerprint =
      estimate.source
      <> ":"
      <> show estimate.year
      <> ":"
      <> estimate.query_hash
      <> ":"
      <> (estimate.schema_hash <> ":" <> fingerprint.value <> ":" <> show fingerprint.row_count)

  -- `plan_batch`, from the previous manifest.
  unfoldable pub planned : BatchEstimate → ContentFingerprint → Option BatchManifest → BatchPlan
  planned estimate fingerprint previous = record {
    run_id = uuid5 (run_key estimate fingerprint);
    source = estimate.source;
    year = estimate.year;
    status =
        if matches_previous estimate fingerprint previous
        then BatchStatus.skipped
        else BatchStatus.planned;
    estimated_bytes = estimate.estimated_bytes;
    maximum_bytes_billed = estimate.maximum_bytes_billed;
    query_hash = estimate.query_hash;
    schema_hash = estimate.schema_hash;
    fingerprint = fingerprint.value;
    row_count = fingerprint.row_count;
    cloud_writes = 0;
  }

  unfoldable pub plan_batch :
      {W : Type 0}
      → BatchEstimate
      → ContentFingerprint
      → ManifestStore W
      → Action W BatchError BatchPlan
  plan_batch estimate fingerprint manifests = do
    previous ← manifests.latest_completed estimate.source estimate.year
    pure (planned estimate fingerprint previous)
