-- ===== src/Tests/Fixtures.antt =====
-- Data that the examples share.
use tech_challenge_fase2_alf.Batch.Models.{BronzeObject, BatchManifest, BatchStatus}
use tech_challenge_fase2_alf.Prelude.{some, none, ◌∷◌, []}

abbrev pub bronze : BronzeObject
bronze = record {
  uri = "gs://bronze/uf/part-00000.parquet";
  generation = 1;
  crc32c = "AAAAAA==";
  size_bytes = 3;
}

-- A completed manifest of the `uf` table for 2024.
abbrev pub uf_manifest : BatchManifest
uf_manifest = record {
  run_id = "run-1";
  attempt_id = some "attempt-1";
  source = "uf";
  year = 2024;
  status = BatchStatus.completed;
  source_identity = record { location = "US"; modified_at = none; etag = none };
  row_count = 5;
  fingerprint = "sha256-multiset-v1:0:0";
  query_hash = "query";
  schema_hash = "schema";
  bronze_objects = bronze ∷ [];
  started_at = 10;
  completed_at = some 20;
  verified_at = some 20;
  git_sha = "0123456789abcdef0123456789abcdef01234567";
  image_digest = "sha256:00";
}

abbrev pub later_manifest : BatchManifest
later_manifest = record uf_manifest { run_id = "run-2"; completed_at = some 30 }
