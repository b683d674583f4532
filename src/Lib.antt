-- ===== src/Lib.antt =====
-- The alphabetization pipeline: a Batch ingestion of six public tables into immutable Parquet
-- objects, a registry of releases over the ingested files, a streaming demonstration, and an estimate
-- of what a deployment costs.
--
-- The parts and how they interact. A Batch run (src/alfabetizacao_pipeline/batch/runner.py)
-- inspects a table, prices the query (planner.py, with schema_drift.py and sql.py), exports a
-- snapshot, reads every exported part back, sums the rows to a content identity, and then either
-- skips, when the last completed manifest has the same identity, or copies the parts to their
-- immutable place between an incomplete and a completed manifest. It reaches the outside through
-- the ports (ports.py, runtime.py), which fakes.py implements in memory. A completed manifest is
-- recorded in a release (release_store.py), which is completed when each of the six tables has one
-- run, and releases/selector.py selects the manifests of a release from a list. In production,
-- commands.py runs the same code over Google's clients, each call retried (google_adapters.py), and
-- the registry is three tables of BigQuery (release_bigquery.py). The producer
-- (streaming/producer.py) encodes events, the Beam routes (beam_routes.py) decode them into the
-- rows of two tables, the stream (processor.py) deduplicates messages by id and by event, and
-- workflow_state.py decides when the orchestration of a job stops polling.
--
-- Files and sources, under src/alfabetizacao_pipeline but for containers:
--   Batch/Errors         batch/errors.py and errors.py, the exceptions and exit codes
--   Batch/Models         batch/models.py, the records; an instant is a number of microseconds
--   Batch/Catalog        batch/catalog.py, SOURCE_CATALOG
--   Batch/SchemaDrift    batch/schema_drift.py, compare_schema
--   Batch/Sql            batch/sql.py, the texts of the queries
--   Batch/Ports          batch/ports.py and runtime.py, as records of actions on a state W
--   Batch/Planner        batch/planner.py, estimate_batch and plan_batch
--   Batch/Landing        batch/runner.py, _validated_parquet_file and _reader_identity
--   Batch/Runner         batch/runner.py, execute_batch
--   Batch/Integrity      batch/integrity.py, crc32c_base64
--   Batch/Memory         batch/fakes.py, the runtime in memory on one world
--   Batch/Gcs            batch/adapters.py, GcsObjectStore, and batch/manifest_store.py
--   Batch/Adapter        batch/adapters.py, BigQueryAdapter
--   Batch/Retry          batch/google_adapters.py, retry_call
--   Batch/GoogleStorage  batch/google_storage.py and google_storage_native.py, GoogleGcsSdk
--   Batch/GoogleBigQuery batch/google_bigquery.py and bigquery_metadata.py, GoogleBigQuerySdk
--   Batch/Release        batch/release_models.py and release_store.py, the registry
--   Batch/ReleaseTables  batch/release_bigquery.py, BigQueryReleaseStore
--   Batch/Commands       batch/commands.py, the commands of a Batch run
--   Ops/Models, Ops/Costs  ops/models.py and ops/costs.py, estimate_profile; Ops/Decimal, decimals
--   Releases/Sql         releases/sql.py, promotion_sql and rollback_sql
--   Releases/Commands    releases/commands.py, the commands of a release
--   Releases/Selector    releases/selector.py and models.py, select_latest_completed
--   Streaming/Models     streaming/models.py and envelope.py
--   Streaming/Processor  streaming/processor.py, process_messages
--   Streaming/Producer   streaming/avro_types.py, publisher.py and producer.py, run_producer
--   Streaming/Codec      streaming/avro_codec.py, and the validation of models.py
--   Streaming/Routes     streaming/beam_routes.py and beam_sinks.py, RouteEventDoFn and the rows
--   Streaming/Entrypoint containers/dataflow/beam_entrypoint.py, what run submits
--   Streaming/WorkflowState  streaming/workflow_state.py, evaluate_poll
-- The modules below each of these prove what they are named for. Prelude holds Python's dict, results,
-- actions with a state, sorting and texts. Tests runs the theorems on concrete data.
--
-- A method that mutates an object and may raise is an action: it takes the state to the outcome and
-- the state after it, beside an exception too. A method that writes once, in its last statement, is a
-- function to the new state or to the exception.
--
-- Parameters, for code that is not in the repository: SHA-256, pyarrow's reader, uuid4 and uuid5,
-- hexadecimal text, the JSON texts and the scan of a manifest for personal data, the text of a
-- time, pydantic's strip of blanks and its readers of texts, the clock, fastavro, urlsplit's check
-- of a host, the text of an SQL template, and Google's clients. A theorem assumes of them only what
-- follows: the storage SDK has the laws of Batch/Gcs/Laws, which Batch/GoogleStorage/Uploads
-- derives from the laws of the service's client in Batch/GoogleStorage/Live; a failed copy is
-- judged under those of Batch/GoogleStorage/Copies, jobs under those of Batch/GoogleBigQuery/Jobs,
-- the codec under those of Streaming/Codec/Prepared, and a stored row where a time is read of its
-- text. BigQuery runs a script as one transaction, which an assertion that fails rolls back.
--
-- Loops are structural recursion over the list that the code iterates; the loop of retries recurses on
-- the attempts that are left, a number that the caller gives, so no fuel is needed. Decimals have 28
-- digits, as in Python's default context: a quotient that does not terminate is rounded, and a sum of
-- cents is exact below 10 ^ 28 cents.
--
-- Not modelled: the latency percentile of the stream (a float), the hashes of the SQL texts, the wiring
-- of production (production.py), Beam's transforms (beam_runtime.py, beam_job.py), the parsing of
-- options, the settings, the reader of the cost catalog, the check of YAML files and the reference
-- documents.
pub mod Prelude
pub mod Batch
pub mod Streaming
pub mod Ops
pub mod Releases
pub mod Tests
