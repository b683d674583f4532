-- ===== src/Batch/ReleaseTables.antt =====
-- src/alfabetizacao_pipeline/batch/release_bigquery.py: the release registry in BigQuery. The state
-- is the three tables; each script of SQL is a function to the new tables or to the first assertion
-- that fails, which rolls the transaction back. The columns of time, which no script reads, are left
-- out, and so is the `status` of a file, which is 'selected' in each row that is written.
pub mod Ending
pub mod Recording
pub mod Sound
pub mod Completes
pub mod Unique
use tech_challenge_fase2_alf.Prelude.{
  ◌≡◌, String, Bool, List, ℕ, if◌then◌else◌, Option, not, ◌==◌, true, length, ◌&&◌, map, is_empty,
  any, ◌∷◌, keep_if, none, false, [], some, leb, ◌||◌, contains, ltb, string_eq, ◌++◌, all, nat_eq,
}
use tech_challenge_fase2_alf.Batch.Release.{
  ReleaseStatus, running, succeeded, failed, ReleaseExecution, ReleaseFileMapping, ReleaseError,
  release_conflict, incomplete_release, release_sources, run_ids, is_running, is_failed,
}
use tech_challenge_fase2_alf.Prelude.Results.{Result, ok, err, ◌>>=◌, ◌>>◌, raise_if}

pub record RegistryRow : Type 0 where
  pub release_id : String
  pub status : ReleaseStatus
  pub reference_year : Option ℕ
  pub baseline_release_id : Option String

pub record ActiveRow : Type 0 where
  pub singleton_key : Bool
  pub release_id : String
  pub prior_release_id : Option String

pub record ReleaseTables : Type 0 where
  pub registry : List RegistryRow
  pub active : List ActiveRow
  pub files : List ReleaseFileMapping

pub data RegistryError : Type 0 where
  -- The exceptions of the method's own checks.
  refused : ReleaseError → RegistryError
  -- The job's error, with the message of the assertion.
  assertion_failed : String → RegistryError

-- An assertion's condition and its message.
abbrev pub Assertion : Type 0
Assertion = Bool × String

-- A script that ends with these tables, if its assertions hold, in their order.
unfoldable pub checked : List Assertion → ReleaseTables → Result RegistryError ReleaseTables
checked [] t = ok t
checked ((condition, message) ∷ rest) t =
    let after = checked rest t in if condition then after else err (assertion_failed message)

abbrev pub bootstrap_id : String
bootstrap_id = "__bootstrap__"

-- `where release_id=@release_id`
abbrev pub is_row_of : String → RegistryRow → Bool
is_row_of id row = row.release_id == id

-- `reference_year=@year`, which is not true of null
abbrev pub is_of_year : ℕ → RegistryRow → Bool
is_of_year year row = elim row.reference_year [ none ↦ false | some y ↦ y == year ]

-- `status in ('running','succeeded','active','inactive')`
abbrev pub is_open : RegistryRow → Bool
is_open row = not (is_failed row.status)

-- `status in ('running','succeeded')`
abbrev pub is_unpublished : RegistryRow → Bool
is_unpublished row = elim row.status [
  | ReleaseStatus.running ↦ true
  | ReleaseStatus.succeeded ↦ true
  | _ ↦ false
]

abbrev pub count : {A : Type 0} → (A → Bool) → List A → ℕ
count p rows = length (keep_if p rows)

abbrev pub is_open_row : ReleaseExecution → RegistryRow → Bool
is_open_row x row = is_row_of x.release_id row && is_of_year x.year row && is_open row

abbrev pub is_failed_row : ReleaseExecution → RegistryRow → Bool
is_failed_row x row = is_row_of x.release_id row && is_of_year x.year row && is_failed row.status

-- `update ... set ... where ...`
abbrev pub updated : {A : Type 0} → (A → Bool) → (A → A) → List A → List A
updated where_ set rows = map (λ row. if where_ row then set row else row) rows

-- The registry and the active release of an empty data set.
abbrev pub bootstrapped : ReleaseTables → ReleaseTables
bootstrapped t = record t {
  registry =
      if is_empty t.active && not (any (is_row_of bootstrap_id) t.registry)
      then record {
        release_id = bootstrap_id;
        status = ReleaseStatus.active;
        reference_year = none;
        baseline_release_id = none;
      }
        ∷ t.registry
      else t.registry;
  active =
      if is_empty t.active
      then record { singleton_key = true; release_id = bootstrap_id; prior_release_id = none } ∷ []
      else t.active;
}

-- The release that is active now.
unfoldable pub active_id : List ActiveRow → Option String
active_id [] = none
active_id (row ∷ rows) =
    let rest = active_id rows in if row.singleton_key then some row.release_id else rest

abbrev pub reopened_row : ReleaseTables → RegistryRow → RegistryRow
reopened_row t row = record row { status = running; baseline_release_id = active_id t.active }

-- A failed release starts again, without its files.
abbrev pub reopened_tables : ReleaseExecution → ReleaseTables → ReleaseTables
reopened_tables x t = record t {
  registry = updated (is_failed_row x) (reopened_row t) t.registry;
  files =
      if any (is_failed_row x) t.registry
      then keep_if (λ file. not (file.release_id == x.release_id)) t.files
      else t.files;
}

-- A release that is not there is added, for the active release as its baseline.
abbrev pub added_release : ReleaseExecution → ReleaseTables → ReleaseTables
added_release x t = record t {
  registry =
      if any (is_row_of x.release_id) t.registry
      then t.registry
      else map
          (λ row. record {
            release_id = x.release_id;
            status = running;
            reference_year = some x.year;
            baseline_release_id = some row.release_id;
          })
          (keep_if (λ row. row.singleton_key) t.active)
        ++ t.registry;
}

unfoldable pub begin_release : ReleaseExecution → ReleaseTables → Result RegistryError ReleaseTables
begin_release x t =
    let b = bootstrapped t in
    let c = added_release x (reopened_tables x b) in
    checked
      ((count (λ row. row.singleton_key) b.active == 1, "active release singleton is invalid")
        ∷ (leb (count (is_row_of x.release_id) b.registry) 1, "duplicate release registry row")
        ∷ (
          count (is_row_of x.release_id) b.registry == 0
              || count (λ row. is_row_of x.release_id row && is_of_year x.year row) b.registry == 1,
          "release year or state conflict",
        )
        ∷ (count (is_open_row x) c.registry == 1, "release state or year conflict")
        ∷ [])
      c

-- `release_id=@release_id and table_name=@source and file_uri=@file_uri`
abbrev pub is_same_file : ReleaseFileMapping → ReleaseFileMapping → Bool
is_same_file new row =
    row.release_id == new.release_id
    && row.table_name == new.table_name
    && row.file_uri == new.file_uri

-- The same file with another run, count, generation, checksum or time.
abbrev pub is_conflict : ReleaseFileMapping → ReleaseFileMapping → Bool
is_conflict new row =
    is_same_file new row
    && (not (row.source_run_id == new.source_run_id)
        || not (row.row_count == new.row_count)
        || not (row.generation == new.generation)
        || not (row.crc32c == new.crc32c)
        || not (row.ingested_at == new.ingested_at)
        || not (row.verified_at == new.verified_at))

-- `(select status ...)='running'`
abbrev pub runs_now : ReleaseExecution → List RegistryRow → Bool
runs_now x rows = any (λ row. is_row_of x.release_id row && is_running row.status) rows

-- The insertion into a running release.
abbrev pub inserted : ReleaseFileMapping → ReleaseTables → ReleaseTables
inserted new t = record t {
  files = if any (is_same_file new) t.files then t.files else new ∷ t.files;
}

-- The script of one file.
unfoldable pub record_file :
    ReleaseExecution → ReleaseFileMapping → ReleaseTables → Result RegistryError ReleaseTables
record_file x new t =
    let runs = runs_now x t.registry in
    checked
      ((count (is_open_row x) t.registry == 1, "release state or year conflict")
        ∷ (contains new.table_name release_sources, "source is not in the release catalog")
        ∷ (count (is_conflict new) t.files == 0, "release mapping conflict")
        ∷ (runs || count (is_same_file new) t.files == 1, "terminal release mapping is immutable")
        ∷ [])
      (if runs then inserted new t else t)
