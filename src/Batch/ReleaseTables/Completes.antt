-- ===== src/Batch/ReleaseTables/Completes.antt =====
-- src/alfabetizacao_pipeline/batch/release_bigquery.py: when a release is completed.
use tech_challenge_fase2_alf.Prelude.Results.{ok}
use tech_challenge_fase2_alf.Batch.ReleaseTables.Sound.{
  HasRows, calls-AllHaveRows, checked_inv, All-keep_if,
}
use tech_challenge_fase2_alf.Batch.ReleaseTables.Recording.{TablesCall, calls, empty_tables}
use tech_challenge_fase2_alf.Batch.ReleaseTables.{ReleaseTables, count, is_open_row, ok}
use tech_challenge_fase2_alf.Batch.ReleaseTables.Ending.{
  complete_release, files_of, distinct_tables,
}
use tech_challenge_fase2_alf.Prelude.{
  ◌==◌, ==_iff, nat_eq, string_eq, ◌≡◌, String, List, All, contains, map, true, is_empty, ◌∷◌,
  keep_if, not, string_eq, all, ==_iff, [], length, sym, if-holds, subst, arith, all-contains, refl,
}
use tech_challenge_fase2_alf.Batch.Release.{
  is_present, has_one_run, ReleaseExecution, ReleaseFileMapping, release_sources, run_ids,
}

-- One open row of the registry for the release and its year, and for every source of the catalog a
-- file with rows and exactly one run.
abbrev pub IsReleased : ReleaseExecution → ReleaseTables → Type 0
IsReleased x t =
    (count (is_open_row x) t.registry ≡ 1)
    × All
        (λ source.
          (is_present (files_of x t) source ≡ true) × (has_one_run (files_of x t) source ≡ true))
        release_sources

present_source :
    (source : String) (files : List ReleaseFileMapping)
    → All HasRows files
    → contains source (map (λ file. file.table_name) files) ≡ true
    → is_present files source ≡ true
present_source source [] rows h = h
present_source source (f ∷ fs) rows h = elim (string_eq.dec source f.table_name) [
  | yes p ↦
      let here : (f.table_name == source) ≡ true = (==_iff f.table_name source).1 (sym p) in
      ground arith
  | no np ↦ let later = present_source source fs rows.1 (ground arith) in ground arith
]

listed_first :
    (f : ReleaseFileMapping) (fs : List ReleaseFileMapping)
    → contains f.table_name (distinct_tables (f ∷ fs)) ≡ true
listed_first f fs =
    let same : (f.table_name == f.table_name) ≡ true = (==_iff f.table_name f.table_name).1 refl in
    if-holds (λ ts. contains f.table_name ts ≡ true) (contains f.table_name (distinct_tables fs))
      (λ b. b) (λ b. ground arith)

listed_table :
    (source : String) (files : List ReleaseFileMapping)
    → contains source (map (λ file. file.table_name) files) ≡ true
    → contains source (distinct_tables files) ≡ true
listed_table source [] h = h
listed_table source (f ∷ fs) h = elim (string_eq.dec source f.table_name) [
  | yes p ↦ subst (λ s. contains s (distinct_tables (f ∷ fs)) ≡ true) (sym p) (listed_first f fs)
  | no np ↦
      let later = listed_table source fs (ground arith) in
      if-holds (λ ts. contains source ts ≡ true) (contains f.table_name (distinct_tables fs))
        (λ b. later) (λ b. ground arith)
]

all_sources :
    (files : List ReleaseFileMapping) (sources : List String)
    → All HasRows files
    → is_empty
        (keep_if (λ source. not (contains source (map (λ file. file.table_name) files))) sources)
      ≡ true
    → all (λ table. length (run_ids table files) == 1) (distinct_tables files) ≡ true
    → All (λ source. (is_present files source ≡ true) × (has_one_run files source ≡ true)) sources
all_sources files [] rows h one = tt
all_sources files (source ∷ sources) rows h one =
    let listed : contains source (map (λ file. file.table_name) files) ≡ true = ground arith in
    (
      (
        present_source source files rows listed,
        all-contains (λ table. length (run_ids table files) == 1) (distinct_tables files) source one
            (listed_table source files listed),
      ),
      all_sources files sources rows (ground arith) one,
    )

-- A release that the script completes, after any calls from empty tables, has one open row of
-- its year, and each source of the catalog has in it a file with rows, and exactly one run.
pub complete_release-IsReleased :
    (x : ReleaseExecution) (cs : List TablesCall) (t' : ReleaseTables)
    → complete_release x (calls cs empty_tables) ≡ ok t'
    → IsReleased x (calls cs empty_tables)
unfolding complete_release
complete_release-IsReleased x cs t' h =
    let t = calls cs empty_tables in
    let rows = calls-AllHaveRows cs empty_tables tt in
    let (held, same) = checked_inv _ _ t' h in
    let (one_row, (six, (none_absent, (one_run, _)))) = held in
    (
      (==_iff _ _).0 one_row,
      all_sources (files_of x t) release_sources
          (All-keep_if HasRows (λ file. file.release_id == x.release_id) t.files rows) none_absent
          one_run,
    )
