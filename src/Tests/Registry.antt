-- ===== src/Tests/Registry.antt =====
-- The release registry in BigQuery on one release.
use tech_challenge_fase2_alf.Batch.ReleaseTables.Recording.{
  TablesCall, begin, record_run, calls, empty_tables, call, record_release, record_files,
}
use tech_challenge_fase2_alf.Batch.ReleaseTables.Ending.{complete_release, fail_release}
use tech_challenge_fase2_alf.Batch.ReleaseTables.Completes.{IsReleased, complete_release-IsReleased}
use tech_challenge_fase2_alf.Batch.ReleaseTables.Unique.{HasUniqueRows, calls-HasUniqueRows}
use tech_challenge_fase2_alf.Batch.ReleaseTables.{
  ReleaseTables, RegistryError, checked, record_file, begin_release, active_id,
}
use tech_challenge_fase2_alf.Batch.Release.{ReleaseExecution, release_sources, run_ids}
use tech_challenge_fase2_alf.Prelude.Results.{Result, ok, err}
use tech_challenge_fase2_alf.Prelude.{List, map, ◌∷◌, refl, nat_eq, string_eq, String-discrete}
use native.Mathlib.Decide.{ℕ_discrete}
use tech_challenge_fase2_alf.Tests.Fixtures.{uf_manifest}

abbrev release : ReleaseExecution
release = record { release_id = "batch-202401-y2024-r0a1b2c3d"; year = 2024 }

-- Opened, then a run of each table recorded.
abbrev recorded : List TablesCall
recorded =
    begin release
    ∷ map (λ source. record_run release (record uf_manifest { source = source })) release_sources

calls-HasUniqueRows_example : HasUniqueRows (calls recorded empty_tables)
calls-HasUniqueRows_example = calls-HasUniqueRows recorded

abbrev tables_of : Result RegistryError ReleaseTables → ReleaseTables
tables_of (ok t) = t
tables_of (err e) = empty_tables

complete_release-IsReleased_example : IsReleased release (calls recorded empty_tables)
unfolding complete_release checked nat_eq calls call record_release string_eq record_files
    record_file begin_release run_ids ℕ_discrete fail_release active_id String-discrete
complete_release-IsReleased_example =
    complete_release-IsReleased release recorded
      (tables_of (complete_release release (calls recorded empty_tables))) refl
