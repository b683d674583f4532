-- ===== src/Tests/Runner.antt =====
-- Runs of `execute_batch` in memory.
use tech_challenge_fase2_alf.Prelude.Results.{ok}
use tech_challenge_fase2_alf.Batch.Runner.Parts.{AreRead, rows_of, read_parts-identity}
use tech_challenge_fase2_alf.Batch.Planner.Price.{estimate_batch-IsWithin}
use tech_challenge_fase2_alf.Batch.SchemaDrift.{compare_schema, index_columns}
use tech_challenge_fase2_alf.Batch.Catalog.{source_catalog, uf_contract}
use tech_challenge_fase2_alf.Batch.Memory.Run.{execute_batch-Outcome}
use tech_challenge_fase2_alf.Batch.Planner.{estimate_batch, contract_of}
use tech_challenge_fase2_alf.Batch.Memory.Cost.{Refused, execute_batch-Refused}
use tech_challenge_fase2_alf.Batch.Memory.Outcome.{Outcome}
use tech_challenge_fase2_alf.Batch.Ports.{BatchRuntime}
use tech_challenge_fase2_alf.Batch.Runner.{Libraries, read_parts, execute_batch, add_part}
use tech_challenge_fase2_alf.Batch.Landing.{
  ParquetFile, Identity, Cell, expected_schema, parquet_identity, arrow_type,
  validated_parquet_file, reader_identity, reader_loop, row_bytes, add_row, first_hash, second_hash,
  from_bytes, same_schema, arrow_field_eq, ArrowField-discrete, cell_bytes, to_bytes, no_rows,
}
use tech_challenge_fase2_alf.Batch.Models.{
  SourceColumn, Bytes, BatchRequest, BatchRunContext, ObjectVersion, SourceInspection,
  BatchEstimate, BatchStatus, bigquery_type_eq, BigQueryType-discrete,
}
use tech_challenge_fase2_alf.Batch.Memory.{
  World, in_memory, empty_store, read_object, item, dry_run,
}
use tech_challenge_fase2_alf.Prelude.Chars.{begins_with}
use tech_challenge_fase2_alf.Batch.Models.{checked_version, is_gs_uri}
use tech_challenge_fase2_alf.Prelude.Sorting.{sorted}
use tech_challenge_fase2_alf.Prelude.Dict.{get, put}
use tech_challenge_fase2_alf.Prelude.{
  String, List, ℕ, ◌≡◌, ◌+◌, none, ◌∷◌, false, [], some, arith, string_eq, String-discrete, ◌≤◌,
  length, refl,
}

-- One column of the `uf` table is read from one file of one row.
abbrev row : List SourceColumn → List Cell
row [] = []
row (c ∷ cs) = record { kind = arrow_type c.data_type; text = none } ∷ row cs

abbrev uf_file : ParquetFile
uf_file = record {
  schema = expected_schema uf_contract.columns;
  codecs = "SNAPPY" ∷ [];
  rows = row uf_contract.columns ∷ [];
}

abbrev lib : Libraries
lib = record {
  sha256 = λ bytes. 7 ∷ [];
  open_parquet = λ bytes. some uf_file;
  uuid5 = λ key. "uuid";
  hex_064 = λ n. "sum";
  mentions_pii = λ m. false;
}

abbrev hex : Bytes → String
hex bytes = "hash"

abbrev crc : Bytes → String
crc bytes = "AAAAAA=="

abbrev clock : ℕ → ℕ
clock n = 100 + n

abbrev memory : BatchRuntime World
memory = in_memory hex crc "query" "schema" clock

abbrev world : World
world = record {
  query = record {
    estimate = record { bytes_processed = 5000 };
    snapshot_row_count = 1;
    snapshot_uris = "gs://landing/part-0.parquet" ∷ [];
    executed_queries = 0;
    inspect_calls = 0;
    dry_run_limits = [];
    export_limits = [];
    export_destinations = [];
  };
  manifests = [];
  objects = record empty_store {
    payloads = ("gs://landing/part-0.parquet", 1 ∷ []) ∷ [];
    generations = ("gs://landing/part-0.parquet", 1) ∷ [];
  };
  readings = 0;
}

abbrev request : ℕ → BatchRequest
request limit = record { source = "uf"; year = 2024; maximum_bytes_billed = limit; dry_run = false }

abbrev context : BatchRunContext
context = record {
  landing_prefix = "gs://landing";
  bronze_prefix = "gs://bronze";
  git_sha = "0123456789abcdef0123456789abcdef01234567";
  image_digest = "sha256:00";
}

execute_batch-Outcome_example :
    Outcome world
      (request 9000)
      "query"
      "schema"
      (execute_batch lib memory (request 9000) context "attempt-1" world)
execute_batch-Outcome_example =
    execute_batch-Outcome hex crc "query" "schema" clock lib (request 9000) world context
      "attempt-1"

execute_batch-Refused_example :
    Refused world (execute_batch lib memory (request 1000) context "attempt-1" world)
execute_batch-Refused_example =
    execute_batch-Refused world hex crc "query" "schema" clock lib (request 1000) context
      "attempt-1" (omega arith)

abbrev read : Identity
read = record { row_count = 1; first_sum = 7; second_sum = 7 }

abbrev landed : List ObjectVersion
landed =
    record {
      uri = "gs://landing/part-0.parquet";
      generation = 1;
      metageneration = 1;
      payload_sha256 = "hash";
    }
    ∷ []

read_parts-identity_example :
    (files : List ParquetFile) × AreRead lib "uf" uf_contract memory
      ("gs://landing/part-0.parquet" ∷ [])
      files
      landed
      world
      world
    × (reader_loop lib.sha256 "uf" uf_contract.columns no_rows (rows_of files) ≡ ok read)
    × (1 ≡ length (rows_of files))
unfolding read_parts in_memory read_object item get parquet_identity validated_parquet_file
    reader_identity reader_loop row_bytes add_row add_part first_hash second_hash from_bytes
    contract_of source_catalog same_schema expected_schema string_eq String-discrete arrow_field_eq
    ArrowField-discrete cell_bytes to_bytes checked_version is_gs_uri begins_with
read_parts-identity_example =
    read_parts-identity lib "uf" uf_contract memory ("gs://landing/part-0.parquet" ∷ []) read landed
      world world refl refl

abbrev inspected : SourceInspection
inspected = record {
  source = "uf";
  identity = record { location = "US"; modified_at = none; etag = none };
  columns = uf_contract.columns;
}

abbrev estimate : BatchEstimate
estimate = record {
  source = "uf";
  year = 2024;
  status = BatchStatus.planned;
  estimated_bytes = 5000;
  maximum_bytes_billed = 9000;
  query_hash = "query";
  schema_hash = "schema";
  cloud_writes = 0;
}

estimate_batch-IsWithin_example :
    (estimate.estimated_bytes ≤ 9000)
    × (estimate.maximum_bytes_billed ≡ 9000)
    × (estimate.source ≡ "uf")
    × (estimate.year ≡ 2024)
    × (estimate.query_hash ≡ memory.query.query_hash)
    × (estimate.schema_hash ≡ memory.query.schema_hash)
unfolding estimate_batch in_memory dry_run contract_of source_catalog compare_schema index_columns
    get put string_eq String-discrete bigquery_type_eq BigQueryType-discrete sorted
estimate_batch-IsWithin_example =
    estimate_batch-IsWithin memory.query (request 9000) (some inspected) world
      (estimate_batch memory.query (request 9000) (some inspected) world).1 estimate refl
