-- ===== src/Tests/Batch.antt =====
-- The planner, the schema and the fakes on small inputs.
use tech_challenge_fase2_alf.Prelude.Results.{ok}
use tech_challenge_fase2_alf.Prelude.Chars.{begins_with}
use tech_challenge_fase2_alf.Batch.Models.{checked_bronze, is_gs_uri}
use tech_challenge_fase2_alf.Batch.Memory.Latest.{latest_in-IsNewest}
use tech_challenge_fase2_alf.Batch.SchemaDrift.Compatible.{Keeps, compare_schema-blocking_iff}
use tech_challenge_fase2_alf.Batch.Memory.Skip.{plan_batch-skips_iff, IsNewestOf, HasContent}
use tech_challenge_fase2_alf.Batch.Memory.{World, in_memory}
use tech_challenge_fase2_alf.Batch.Planner.{plan_batch}
use tech_challenge_fase2_alf.Batch.Models.{BatchPlan, Bytes}
use tech_challenge_fase2_alf.Prelude.Dict.{get}
use tech_challenge_fase2_alf.Batch.Landing.Multiset.{reader_loop-Perm}
use tech_challenge_fase2_alf.Batch.Catalog.{uf_contract}
use tech_challenge_fase2_alf.Batch.Landing.{Cell, reader_loop, arrow_int64, no_rows}
use tech_challenge_fase2_alf.Batch.SchemaDrift.{compare_schema, by_name}
use tech_challenge_fase2_alf.Batch.Memory.Objects.{
  Preserves, copy_object-Preserves, Copied, copy_object-Copied,
}
use tech_challenge_fase2_alf.Batch.Memory.{
  InMemoryObjectStore, copy_object, latest_in, empty_store, pinned_payload, is_candidate, item,
  latest_from, write_object, write_over, completion,
}
use tech_challenge_fase2_alf.Batch.Models.{
  Bytes, ObjectVersion, BronzeObject, BatchManifest, SourceColumn, SourceContract, BatchEstimate,
  ContentFingerprint, is_skipped, BigQueryType, BatchStatus,
}
use native.Mathlib.Decide.{ℕ_discrete}
use mathlib.Core.List.Perm
use tech_challenge_fase2_alf.Prelude.{
  String, List, ℕ, ◌≡◌, some, ◌∷◌, [], true, string_eq, false, ◌↔◌, String-discrete, nat_eq, Any,
  All, refl, ◌≤◌,
}
use tech_challenge_fase2_alf.Tests.Fixtures.{uf_manifest, later_manifest}

abbrev hex : Bytes → String
hex bytes = "hash"

abbrev crc : Bytes → String
crc bytes = "AAAAAA=="

abbrev store : InMemoryObjectStore
store = record empty_store {
  payloads = ("gs://landing/part-0.parquet", 1 ∷ 2 ∷ []) ∷ [];
  generations = ("gs://landing/part-0.parquet", 7) ∷ [];
}

abbrev pinned : ObjectVersion
pinned = record {
  uri = "gs://landing/part-0.parquet";
  generation = 7;
  metageneration = 1;
  payload_sha256 = "hash";
}

abbrev copied : BronzeObject
copied = record {
  uri = "gs://bronze/part-0.parquet";
  generation = 1;
  crc32c = "AAAAAA==";
  size_bytes = 2;
}

copy_object-Preserves_example :
    Preserves store (copy_object hex crc pinned "gs://bronze/part-0.parquet" store).1
copy_object-Preserves_example =
    copy_object-Preserves hex crc pinned "gs://bronze/part-0.parquet" store

copy_object-Copied_example :
    Copied hex crc pinned "gs://bronze/part-0.parquet" store
      (copy_object hex crc pinned "gs://bronze/part-0.parquet" store).1
      copied
unfolding copy_object pinned_payload item write_object write_over get string_eq String-discrete
    nat_eq ℕ_discrete checked_bronze is_gs_uri begins_with
copy_object-Copied_example =
    copy_object-Copied hex crc pinned "gs://bronze/part-0.parquet" store copied refl

abbrev manifests : List BatchManifest
manifests = uf_manifest ∷ later_manifest ∷ []

latest_in-IsNewest_example :
    Any (λ c. (c ≡ later_manifest) × (is_candidate "uf" 2024 c ≡ true)) manifests
    × All
        (λ c. is_candidate "uf" 2024 c ≡ true → completion c ≤ completion later_manifest)
        manifests
unfolding latest_in is_candidate latest_from string_eq String-discrete nat_eq ℕ_discrete
latest_in-IsNewest_example = latest_in-IsNewest manifests "uf" 2024 later_manifest refl

abbrev int_column : String → SourceColumn
int_column name = record { name = name; data_type = BigQueryType.int64; mode = "NULLABLE" }

abbrev small_contract : SourceContract
small_contract = record uf_contract { columns = int_column "ano" ∷ int_column "serie" ∷ [] }

compare_schema-blocking_iff_example :
    ((compare_schema small_contract (int_column "serie" ∷ int_column "new" ∷ [])).blocking ≡ false)
    ↔ ((n : String) (c : SourceColumn)
        → get n (by_name small_contract.columns) ≡ some c
        → Keeps c (get n (by_name (int_column "serie" ∷ int_column "new" ∷ []))))
compare_schema-blocking_iff_example =
    compare_schema-blocking_iff small_contract (int_column "serie" ∷ int_column "new" ∷ [])

abbrev estimate : BatchEstimate
estimate = record {
  source = "uf";
  year = 2024;
  status = BatchStatus.planned;
  estimated_bytes = 100;
  maximum_bytes_billed = 1000;
  query_hash = "query";
  schema_hash = "schema";
  cloud_writes = 0;
}

abbrev fingerprint : ContentFingerprint
fingerprint = record { row_count = 5; value = "sha256-multiset-v1:0:0" }

abbrev world : World
world = record {
  query = record {
    estimate = record { bytes_processed = 5000 };
    snapshot_row_count = 5;
    snapshot_uris = [];
    executed_queries = 0;
    inspect_calls = 0;
    dry_run_limits = [];
    export_limits = [];
    export_destinations = [];
  };
  manifests = manifests;
  objects = empty_store;
  readings = 0;
}

abbrev text : Bytes → String
text bytes = "hash"

plan_batch-skips_iff_example :
    (plan : BatchPlan) × (plan_batch
        (λ key. "uuid")
        estimate
        fingerprint
        (in_memory text text "query" "schema" (λ n. n)).manifests
        world
      ≡ (ok plan, world))
    × ((is_skipped plan.status ≡ true) ↔ (
        (m : BatchManifest) × IsNewestOf "uf" 2024 manifests m × HasContent estimate fingerprint m))
plan_batch-skips_iff_example =
    plan_batch-skips_iff (λ key. "uuid") text text "query" "schema" (λ n. n) estimate fingerprint
      world

abbrev columns : List SourceColumn
columns = int_column "ano" ∷ []

abbrev cell : ℕ → Cell
cell n = record { kind = arrow_int64; text = some (n ∷ []) }

abbrev rows : List (List Cell)
rows = (cell 1 ∷ []) ∷ (cell 2 ∷ []) ∷ []

abbrev swapped_rows : List (List Cell)
swapped_rows = (cell 2 ∷ []) ∷ (cell 1 ∷ []) ∷ []

reader_loop-Perm_example :
    reader_loop (λ bytes. bytes) "uf" columns no_rows rows
    ≡ reader_loop (λ bytes. bytes) "uf" columns no_rows swapped_rows
reader_loop-Perm_example =
    reader_loop-Perm (λ bytes. bytes) "uf" columns no_rows rows swapped_rows
      (Perm.swap (cell 2 ∷ []) (cell 1 ∷ []) [])
