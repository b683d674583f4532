-- ===== src/Batch/ReleaseTables/Ending.antt =====
-- src/alfabetizacao_pipeline/batch/release_bigquery.py: the scripts of `complete` and `fail`.
use tech_challenge_fase2_alf.Prelude.Results.{Result}
use tech_challenge_fase2_alf.Batch.Models.{failed}
use tech_challenge_fase2_alf.Batch.ReleaseTables.{
  RegistryRow, ReleaseTables, Result, is_row_of, RegistryError, checked, is_of_year, updated, count,
  is_unpublished, is_open_row, is_failed_row,
}
use tech_challenge_fase2_alf.Batch.Release.{
  ReleaseExecution, ReleaseFileMapping, succeeded, failed, release_sources, run_ids, is_running,
}
use tech_challenge_fase2_alf.Prelude.{
  List, Bool, String, keep_if, ◌∷◌, not, ◌&&◌, ◌==◌, string_eq, nat_eq, contains, if◌then◌else◌,
  map, [], ◌||◌, length, ltb, is_empty, all,
}

abbrev pub distinct_tables : List ReleaseFileMapping → List String
distinct_tables [] = []
distinct_tables (f ∷ fs) =
    let rest = distinct_tables fs in
    if contains f.table_name rest then rest else f.table_name ∷ rest

abbrev pub files_of : ReleaseExecution → ReleaseTables → List ReleaseFileMapping
files_of x t = keep_if (λ file. file.release_id == x.release_id) t.files

abbrev pub succeeded_row : RegistryRow → RegistryRow
succeeded_row row = record row { status = succeeded }

-- The sources of the catalog without a file.
abbrev pub absent_sources : List ReleaseFileMapping → List String
absent_sources files =
    keep_if (λ source. not (contains source (map (λ file. file.table_name) files))) release_sources

unfoldable pub complete_release :
    ReleaseExecution → ReleaseTables → Result RegistryError ReleaseTables
complete_release x t =
    let files = files_of x t in
    checked
      ((count (is_open_row x) t.registry == 1, "release state or year conflict")
        ∷ (
          length (distinct_tables (keep_if (λ file. ltb 0 file.row_count) files)) == 6,
          "release requires six non-empty sources",
        )
        ∷ (is_empty (absent_sources files), "release source set differs from catalog")
        ∷ (
          all (λ table. length (run_ids table files) == 1) (distinct_tables files),
          "each source requires exactly one source run",
        )
        ∷ [])
      (record t {
        registry =
            updated
              (λ row. is_row_of x.release_id row && is_of_year x.year row && is_running row.status)
              succeeded_row t.registry;
      })

abbrev pub is_unpublished_row : ReleaseExecution → RegistryRow → Bool
is_unpublished_row x row = is_row_of x.release_id row && is_of_year x.year row && is_unpublished row

abbrev pub failed_row : RegistryRow → RegistryRow
failed_row row = record row { status = failed }

unfoldable pub fail_release : ReleaseExecution → ReleaseTables → Result RegistryError ReleaseTables
fail_release x t =
    let registry = updated (is_unpublished_row x) failed_row t.registry in
    checked
      ((
        count (is_unpublished_row x) t.registry == 1 || count (is_failed_row x) registry == 1,
        "release cannot transition to failed",
      )
        ∷ [])
      (record t { registry = registry })
