-- ===== src/Batch/ReleaseTables/Recording.antt =====
-- src/alfabetizacao_pipeline/batch/release_bigquery.py: `record`, one script for each object, so that
-- an error leaves the mappings of the objects before it; and the calls of the other methods.
use tech_challenge_fase2_alf.Prelude.Results.{Result}
use tech_challenge_fase2_alf.Batch.Models.{BatchManifest, Instant, BronzeObject, is_completed}
use tech_challenge_fase2_alf.Batch.Release.{
  ReleaseExecution, ReleaseFileMapping, release_sources, release_conflict, incomplete_release,
}
use tech_challenge_fase2_alf.Batch.ReleaseTables.{
  ReleaseTables, Result, RegistryError, ok, record_file, begin_release, err, refused,
}
use tech_challenge_fase2_alf.Batch.ReleaseTables.Ending.{complete_release, fail_release}
use tech_challenge_fase2_alf.Prelude.{
  some, ◌==◌, nat_eq, string_eq, List, Option, ◌∷◌, [], not, contains, ◌||◌, if◌then◌else◌,
  is_empty, leb, map,
}
use tech_challenge_fase2_alf.Prelude.Actions.{Action, ◌>>=◌, ◌>>◌, pure, raise_when, lift}

-- `_execute`: the script's tables, or its error with the tables as they were.
abbrev pub executed :
    (ReleaseTables → Result RegistryError ReleaseTables)
    → Action ReleaseTables RegistryError (Unit {0})
executed script t = elim (script t) [ ok t' ↦ (ok tt, t') | err e ↦ (err e, t) ]

abbrev pub mapping_of :
    ReleaseExecution → BatchManifest → Instant → Instant → BronzeObject → ReleaseFileMapping
mapping_of x m completed_at verified_at bronze = record {
  release_id = x.release_id;
  table_name = m.source;
  year = x.year;
  file_uri = bronze.uri;
  source_run_id = m.run_id;
  row_count = m.row_count;
  generation = bronze.generation;
  crc32c = bronze.crc32c;
  ingested_at = completed_at;
  verified_at = verified_at;
}

-- `for bronze in manifest.bronze_objects`
unfoldable pub record_files :
    ReleaseExecution → List ReleaseFileMapping → Action ReleaseTables RegistryError (Unit {0})
record_files x [] = pure tt
record_files x (new ∷ rest) = executed (record_file x new) >> record_files x rest

-- The instants of a completed manifest.
abbrev pub registered_instants :
    BatchManifest → Option Instant → Option Instant → Result RegistryError (Instant × Instant)
registered_instants m (some c) (some v) =
    if is_completed m.status
    then ok (c, v)
    else err (refused (release_conflict "mapping requires a completed manifest"))
registered_instants m _ _ = err (refused (release_conflict "mapping requires a completed manifest"))

-- `record`
unfoldable pub record_release :
    ReleaseExecution → BatchManifest → Action ReleaseTables RegistryError (Unit {0})
record_release x m = do
  instants ← lift (registered_instants m m.completed_at m.verified_at)
  raise_when (not (contains m.source release_sources) || not (m.year == x.year))
      (refused (release_conflict "mapping source or year differs from release"))
  raise_when (is_empty m.bronze_objects || leb m.row_count 0)
      (refused (incomplete_release (m.source ∷ [])))
  record_files x (map (mapping_of x m instants.0 instants.1) m.bronze_objects)

-- A call of a method.
pub data TablesCall : Type 0 where
  begin : ReleaseExecution → TablesCall
  record_run : ReleaseExecution → BatchManifest → TablesCall
  complete : ReleaseExecution → TablesCall
  fail : ReleaseExecution → TablesCall

unfoldable pub call : TablesCall → Action ReleaseTables RegistryError (Unit {0})
call (begin x) = executed (begin_release x)
call (record_run x m) = record_release x m
call (complete x) = executed (complete_release x)
call (fail x) = executed (fail_release x)

-- The tables after the calls, errors included.
unfoldable pub calls : List TablesCall → ReleaseTables → ReleaseTables
calls [] t = t
calls (c ∷ cs) t = calls cs (call c t).1

abbrev pub empty_tables : ReleaseTables
empty_tables = record { registry = []; active = []; files = [] }
