-- ===== src/Batch/GoogleBigQuery.antt =====
-- src/alfabetizacao_pipeline/batch/google_bigquery.py: `GoogleBigQuerySdk`, over a client of BigQuery
-- and the storage SDK, parameters with the state that they change. The id that `uuid4` makes is a
-- parameter too, and so is the class of the errors that are retried, which is that of the storage.
pub mod Metadata
pub mod Native
pub mod Destination
pub mod Jobs
use tech_challenge_fase2_alf.Prelude.Chars.{before}
use tech_challenge_fase2_alf.Batch.GoogleBigQuery.Destination.{
  is_row_count, number_of, is_star, is_destination,
}
use tech_challenge_fase2_alf.Batch.Models.{
  SourceInspection, DryRunEstimate, SnapshotExport, snapshot_export,
}
use tech_challenge_fase2_alf.Batch.Adapter.{QueryExecution, SourceLocator, BigQuerySdkBoundary}
use tech_challenge_fase2_alf.Prelude.Actions.{Action, ◌>>=◌, pure, lift, raise}
use tech_challenge_fase2_alf.Batch.Retry.{RetryObserver, retry_call}
use tech_challenge_fase2_alf.Prelude.Dict.{get}
use tech_challenge_fase2_alf.Batch.Errors.{BatchError, value_error, type_error, key_error}
use tech_challenge_fase2_alf.Batch.Gcs.{GcsSdkBoundary}
use tech_challenge_fase2_alf.Prelude.Results.{Result, ok, err}
use tech_challenge_fase2_alf.Batch.GoogleBigQuery.Native.{
  Row, Scalar, BigQueryClientBoundary, integer, text, QueryOutcome,
}
use tech_challenge_fase2_alf.Prelude.{
  ◌≡◌, List, String, ◌<>◌, Option, ◌∷◌, ℕ, Bool, if◌then◌else◌, true, false, map, [], none, some,
  string_eq,
}
use tech_challenge_fase2_alf.Batch.GoogleStorage.{is_transient}

-- The only row of a count.
abbrev pub single_row : List Row → Result BatchError Row
single_row (row ∷ []) = ok row
single_row _ = err (value_error "snapshot-row-count")

-- `row["row_count"]`
abbrev pub row_count_field : Row → Result BatchError Scalar
row_count_field row = elim (get "row_count" row) [
  | none ↦ err (key_error "row_count")
  | some value ↦ ok value
]

unfoldable pub row_count_of : Scalar → Result BatchError ℕ
row_count_of (integer n) = ok n
row_count_of (text digits) =
    if is_row_count digits
    then ok (number_of digits)
    else err (type_error "invalid-snapshot-row-count")
row_count_of _ = err (type_error "invalid-snapshot-row-count")

-- `snapshot_sql`
abbrev pub snapshot_sql : String → String → String
snapshot_sql sql destination =
    "CREATE TEMP TABLE batch_snapshot AS\n" <> sql <> ";\n\nEXPORT DATA OPTIONS(\n  uri='"
    <> destination <> "',\n  format='PARQUET',\n  compression='SNAPPY',\n  overwrite=false\n) AS\n"
    <> "SELECT * FROM batch_snapshot;\n\n" <> "SELECT COUNT(*) AS row_count FROM batch_snapshot"

module _ {W : Type 0} (client : BigQueryClientBoundary W) (landing : GcsSdkBoundary W)
    (uuid4_hex : W → String × W) (observer : Option (RetryObserver W)) (maximum_attempts : ℕ) where
  -- `_call`
  abbrev pub bigquery_call : {A : Type 0} → String → Action W BatchError A → Action W BatchError A
  bigquery_call operation action =
      retry_call is_transient operation action maximum_attempts observer

  -- `_execute`: one id for all attempts.
  unfoldable pub execute_job : String → QueryExecution → Bool → Action W BatchError QueryOutcome
  execute_job operation execution dry_run w =
      let (hex, w₁) = uuid4_hex w in
      bigquery_call operation (client.execute execution dry_run ("alfabetizacao_batch_" <> hex)) w₁

  unfoldable pub google_inspect : SourceLocator → Action W BatchError SourceInspection
  google_inspect locator = bigquery_call "bigquery.inspect" (client.inspect_table locator)

  unfoldable pub google_dry_run : QueryExecution → Action W BatchError DryRunEstimate
  google_dry_run execution = do
    outcome ← execute_job "bigquery.dry_run" execution true
    pure (record { bytes_processed = outcome.bytes_processed })

  unfoldable pub snapshot_to : QueryExecution → String → Action W BatchError SnapshotExport
  snapshot_to execution destination = do
    outcome ←
        execute_job "bigquery.snapshot"
          (record execution { sql = snapshot_sql execution.sql destination }) false
    row ← lift (single_row outcome.rows)
    value ← lift (row_count_field row)
    row_count ← lift (row_count_of value)
    versions ← landing.list (before is_star destination)
    lift (
        snapshot_export
          (record { row_count = row_count; object_uris = map (λ version. version.uri) versions }))

  unfoldable pub google_snapshot : QueryExecution → Action W BatchError SnapshotExport
  google_snapshot execution = elim execution.destination_uri [
    | none ↦ raise (value_error "invalid-snapshot-destination")
    | some destination ↦
        if is_destination destination
        then snapshot_to execution destination
        else raise (value_error "invalid-snapshot-destination")
  ]

  abbrev pub google_bigquery_sdk : BigQuerySdkBoundary W
  google_bigquery_sdk = record {
    inspect = google_inspect;
    dry_run = google_dry_run;
    snapshot = google_snapshot;
  }
