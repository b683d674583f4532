-- ===== src/Batch/GoogleBigQuery/Native.antt =====
-- src/alfabetizacao_pipeline/batch/google_bigquery.py: `NativeBigQueryClient`, over the BigQuery
-- library of Google, a parameter with the state that its calls change.
use tech_challenge_fase2_alf.Batch.GoogleBigQuery.Metadata.{TableMetadata, source_columns}
use tech_challenge_fase2_alf.Batch.Models.{QueryParameter, SourceInspection}
use tech_challenge_fase2_alf.Batch.Errors.{conflict, BatchError, value_error, type_error}
use tech_challenge_fase2_alf.Prelude.Actions.{Action, raise_when, ◌>>◌, ◌>>=◌, raise, pure, lift}
use tech_challenge_fase2_alf.Prelude.Results.{Result, err, ok}
use tech_challenge_fase2_alf.Batch.Adapter.{SourceLocator, QueryExecution}
use tech_challenge_fase2_alf.Prelude.Dict.{Dict}
use tech_challenge_fase2_alf.Prelude.{ℕ, List, Bool, String, Option, false, some, none, ◌<>◌, not}

pub data Scalar : Type 0 where
  -- A number of rows, or another whole number that is not negative.
  integer : ℕ → Scalar
  boolean : Bool → Scalar
  text : String → Scalar
  -- A floating-point number, a timestamp, or `None`.
  real timestamp null : Scalar

abbrev pub Row : Type 0
Row = Dict String Scalar

pub record QueryOutcome : Type 0 where
  pub rows : List Row
  pub bytes_processed : ℕ

pub record BigQueryClientBoundary (W : Type 0) : Type 0 where
  pub inspect_table : SourceLocator → Action W BatchError SourceInspection
  -- The execution, `dry_run` and the id of the job.
  pub execute : QueryExecution → Bool → String → Action W BatchError QueryOutcome

pub record QueryJobConfig : Type 0 where
  pub job_dry_run : Bool
  pub use_query_cache : Bool
  pub job_maximum_bytes_billed : ℕ
  pub query_parameters : List QueryParameter

unfoldable pub build_query_job_config : QueryExecution → Bool → QueryJobConfig
build_query_job_config execution dry_run = record {
  job_dry_run = dry_run;
  use_query_cache = false;
  job_maximum_bytes_billed = execution.maximum_bytes_billed;
  query_parameters = execution.parameters;
}

-- The library's calls. A job is known by its id.
pub record BigQueryLibrary (W : Type 0) : Type 0 where
  -- The location of a dataset.
  pub get_dataset : String → Action W BatchError (Option String)
  -- The metadata of a table, if it has the attributes of one.
  pub get_table : String → Action W BatchError (Option TableMetadata)
  -- `client.query(sql, job_config=..., location=..., job_id=...)`
  pub query : String → QueryJobConfig → String → String → Action W BatchError (Unit {0})
  -- `isinstance(client, _ExistingBigQueryJobReader)`
  pub reads_jobs : Bool
  -- `client.get_job(job_id, location=...)`
  pub get_job : String → String → Action W BatchError (Unit {0})
  -- `job.result()`, and `job.total_bytes_processed` after it
  pub job_result : String → Action W BatchError (List Row)
  pub total_bytes_processed : W → String → Option ℕ

-- `int(job.total_bytes_processed or 0)`
abbrev pub or_zero : Option ℕ → ℕ
or_zero none = 0
or_zero (some n) = n

module _ {W A : Type 0} where
  abbrev pub on_conflict : Result BatchError A → Action W BatchError A → Action W BatchError A
  on_conflict (err conflict) handler = handler
  on_conflict (err e) handler = raise e
  on_conflict (ok a) handler = pure a

  -- `try: action except Conflict: handler`
  abbrev pub except_conflict : Action W BatchError A → Action W BatchError A → Action W BatchError A
  except_conflict action handler w = let r = action w in on_conflict r.0 handler r.1

module _ {W : Type 0} (library : BigQueryLibrary W) (upper : String → String) where
  abbrev pub required_dataset : String → Option String → Result BatchError String
  required_dataset dataset none = err (value_error dataset)
  required_dataset dataset (some location) = ok location

  abbrev pub required_table : Option TableMetadata → Result BatchError TableMetadata
  required_table none = err (type_error "bigquery-table-metadata-contract")
  required_table (some table) = ok table

  unfoldable pub native_inspect : SourceLocator → Action W BatchError SourceInspection
  native_inspect locator =
      let dataset_ref = locator.project <> "." <> locator.dataset in
      do
        dataset ← library.get_dataset dataset_ref
        metadata ← library.get_table (dataset_ref <> "." <> locator.table)
        location ← lift (required_dataset dataset_ref dataset)
        table ← lift (required_table metadata)
        columns ← lift (source_columns upper table.schema)
        pure (record {
          source = locator.table;
          identity = record {
            location = location;
            modified_at = table.modified;
            etag = table.etag;
          };
          columns = columns;
        })

  -- `_normalize_query_rows(job.result())` and the bytes, of a new job or a recovered one
  abbrev pub outcome_of : String → Action W BatchError QueryOutcome
  outcome_of job_id = library.job_result job_id >>= λ rows w. (
    ok (record { rows = rows; bytes_processed = or_zero (library.total_bytes_processed w job_id) }),
    w,
  )

  -- The job of that id, which an earlier submission left.
  abbrev pub recovered : QueryExecution → String → Action W BatchError (Unit {0})
  recovered execution job_id =
      raise_when (not library.reads_jobs) (type_error "bigquery-client-missing-get-job")
      >> library.get_job job_id execution.location

  unfoldable pub native_execute : QueryExecution → Bool → String → Action W BatchError QueryOutcome
  native_execute execution dry_run job_id =
      except_conflict
        (library.query execution.sql (build_query_job_config execution dry_run) execution.location
          job_id)
        (recovered execution job_id)
      >> outcome_of job_id

  abbrev pub native_bigquery_client : BigQueryClientBoundary W
  native_bigquery_client = record { inspect_table = native_inspect; execute = native_execute }
