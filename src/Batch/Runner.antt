-- ===== src/Batch/Runner.antt =====
-- src/alfabetizacao_pipeline/batch/runner.py: `execute_batch`, over any runtime. Parameters:
-- SHA-256, pyarrow's reader, `uuid5`, the random `uuid4` of the attempt, the hexadecimal text of a
-- sum, and pydantic's JSON text of a manifest.
pub mod Sums
pub mod Parts
use tech_challenge_fase2_alf.Prelude.Text.{show_05, show}
use tech_challenge_fase2_alf.Batch.Sql.{build_select_sql}
use tech_challenge_fase2_alf.Prelude.Results.{Result, ok, err}
use tech_challenge_fase2_alf.Prelude.{
  Option, ◌+◌, some, List, String, ℕ, ◌%◌, if◌then◌else◌, [], ◌<>◌, ◌∷◌, Bool, none, ◌&&◌, ltb, not,
  ◌==◌, nat_eq,
}
use tech_challenge_fase2_alf.Prelude.Actions.{Action, ◌>>=◌, ◌>>◌, pure, raise_when, lift}
use tech_challenge_fase2_alf.Batch.Errors.{BatchError, landing_schema, validation_error}
use tech_challenge_fase2_alf.Batch.Models.{
  Bytes, BatchManifest, BatchRequest, BatchRunContext, BatchStatus, BronzeObject, ObjectVersion,
  SourceIdentity, Instant, content_fingerprint, is_skipped, is_reference_year, BatchPlan,
  SourceInspection, BatchEstimate, SourceContract, SnapshotExport,
}
use tech_challenge_fase2_alf.Batch.Ports.{BatchRuntime}
use tech_challenge_fase2_alf.Batch.Landing.{
  ParquetFile, Identity, no_rows, parquet_identity, fingerprint_modulus,
}
use tech_challenge_fase2_alf.Batch.Planner.{
  contract_of, estimate_batch, plan_batch, year_parameter, source_project, source_dataset,
}

-- What the run takes from outside the program.
pub record Libraries : Type 0 where
  pub sha256 : Bytes → Bytes
  pub open_parquet : Bytes → Option ParquetFile
  pub uuid5 : String → String
  pub hex_064 : ℕ → String
  pub mentions_pii : BatchManifest → Bool

-- The sums of one more part, as the loop over the parts adds them.
unfoldable pub add_part : Identity → Identity → Identity
add_part i part = record {
  row_count = i.row_count + part.row_count;
  first_sum = (i.first_sum + part.first_sum) % fingerprint_modulus;
  second_sum = (i.second_sum + part.second_sum) % fingerprint_modulus;
}

unfoldable pub with_verified_at : BatchManifest → Instant → BatchManifest
with_verified_at m now = record m { verified_at = some now }

-- `incomplete.model_copy(update=...)`
unfoldable pub completed_manifest : BatchManifest → List BronzeObject → Instant → BatchManifest
completed_manifest m objects now = record m {
  status = BatchStatus.completed;
  bronze_objects = objects;
  completed_at = some now;
  verified_at = some now;
}

-- `plan.status is BatchStatus.SKIPPED and previous is not None`
abbrev pub skipped_manifest : BatchPlan → Option BatchManifest → Option BatchManifest
skipped_manifest plan none = none
skipped_manifest plan (some previous) = if is_skipped plan.status then some previous else none

unfoldable pub incomplete_manifest :
    BatchRequest → BatchRunContext → String → SourceIdentity → Instant → BatchPlan → BatchManifest
incomplete_manifest request context attempt_id identity started_at plan = record {
  run_id = plan.run_id;
  attempt_id = some attempt_id;
  source = request.source;
  year = request.year;
  status = BatchStatus.incomplete;
  source_identity = identity;
  row_count = plan.row_count;
  fingerprint = plan.fingerprint;
  query_hash = plan.query_hash;
  schema_hash = plan.schema_hash;
  bronze_objects = [];
  started_at = started_at;
  completed_at = none;
  verified_at = none;
  git_sha = context.git_sha;
  image_digest = context.image_digest;
}

module _ (lib : Libraries) where
  -- The constructor of a manifest, with pydantic's checks.
  unfoldable pub batch_manifest : BatchManifest → Result BatchError BatchManifest
  batch_manifest m =
      if is_reference_year m.year && ltb 0 m.row_count && not (lib.mentions_pii m)
      then ok m
      else err validation_error

  unfoldable pub fingerprint_value : Identity → String
  fingerprint_value i =
      "sha256-multiset-v1:" <> lib.hex_064 i.first_sum <> ":" <> lib.hex_064 i.second_sum

  module _ {W : Type 0} (runtime : BatchRuntime W) where
    -- The loop over the exported parts: the identity and the versions read.
    unfoldable pub read_parts :
        String → Identity → List String → Action W BatchError (Identity × List ObjectVersion)
    read_parts source i [] = pure (i, [])
    read_parts source i (uri ∷ uris) = do
      landing ← runtime.objects.read_versioned uri
      part ← lift (parquet_identity lib.sha256 lib.open_parquet landing.payload source)
      rest ← read_parts source (add_part i part) uris
      pure (rest.0, landing.version ∷ rest.1)

    -- The copies of the parts, numbered from `index`.
    unfoldable pub copy_parts :
        String → ℕ → List ObjectVersion → Action W BatchError (List BronzeObject)
    copy_parts prefix index [] = pure []
    copy_parts prefix index (part ∷ parts) = do
      bronze ←
          runtime.objects.copy_immutable part (prefix <> "part-" <> show_05 index <> ".parquet")
      rest ← copy_parts prefix (index + 1) parts
      pure (bronze ∷ rest)

    -- The run after the decision not to skip.
    unfoldable pub publish :
        BatchManifest → List ObjectVersion → String → Action W BatchError BatchManifest
    publish candidate parts prefix = do
      incomplete ← lift (batch_manifest candidate)
      runtime.manifests.persist incomplete
      bronze_objects ← copy_parts prefix 0 parts
      completed_at ← runtime.clock.now
      let completed = completed_manifest incomplete bronze_objects completed_at
      runtime.manifests.persist completed
      pure completed

    -- Skip, with the previous manifest verified anew, or publish.
    unfoldable pub decide :
        BatchRequest
        → BatchRunContext
        → String
        → SourceIdentity
        → Instant
        → List ObjectVersion
        → BatchPlan
        → Option BatchManifest
        → Action W BatchError BatchManifest
    decide request context attempt_id identity started_at parts plan previous =
        elim (skipped_manifest plan previous) [
          | some manifest ↦ do now ← runtime.clock.now; pure (with_verified_at manifest now)
          | none ↦
              publish (incomplete_manifest request context attempt_id identity started_at plan)
                parts
                (context.bronze_prefix
                  <> "/"
                  <> request.source
                  <> "/ano="
                  <> show request.year
                  <> ("/run=" <> plan.run_id <> "/attempt=" <> attempt_id <> "/"))
        ]

    -- The run from its export on.
    unfoldable pub from_snapshot :
        BatchRequest
        → BatchRunContext
        → String
        → SourceInspection
        → BatchEstimate
        → Instant
        → SourceContract
        → SnapshotExport
        → Action W BatchError BatchManifest
    from_snapshot request context attempt_id inspection estimate started_at contract snapshot = do
      parts ← read_parts contract.name no_rows snapshot.object_uris
      raise_when (not (parts.0.row_count == snapshot.row_count)) (landing_schema contract.name)
      fingerprint ← lift (content_fingerprint parts.0.row_count (fingerprint_value parts.0))
      plan ← plan_batch lib.uuid5 estimate fingerprint runtime.manifests
      previous ← runtime.manifests.latest_completed request.source request.year
      decide request context attempt_id inspection.identity started_at parts.1 plan previous

    unfoldable pub execute_batch :
        BatchRequest → BatchRunContext → String → Action W BatchError BatchManifest
    execute_batch request context attempt_id = do
      inspection ← runtime.query.inspect request.source
      estimate ← estimate_batch runtime.query request (some inspection)
      started_at ← runtime.clock.now
      contract ← lift (contract_of request.source)
      snapshot ←
          runtime.query.export_snapshot
            (build_select_sql contract source_project source_dataset request.year)
            (year_parameter request.year)
            (context.landing_prefix
              <> "/"
              <> request.source
              <> "/ano="
              <> show request.year
              <> ("/attempt=" <> attempt_id <> "/part-*.parquet"))
            request.maximum_bytes_billed
      from_snapshot request context attempt_id inspection estimate started_at contract snapshot
