-- ===== src/Batch/Release.antt =====
-- src/alfabetizacao_pipeline/batch/release_models.py and release_store.py: the release registry,
-- `InMemoryReleaseStore`. Each method writes the registry in its last statement at most, so a
-- method is a function to the new registry or to the exception, which leaves the registry as it
-- was.
pub mod Execution
pub mod Effects
pub mod Status
pub mod Runs
pub mod Invariant
pub mod History
pub mod Completes
use native.Mathlib.Decide.{ℕ_discrete}
use tech_challenge_fase2_alf.Prelude.{
  ℕ, suc, String, Bool, true, false, not, ◌&&◌, ◌||◌, Option, none, some, List, [], ◌∷◌, map, ◌==◌,
  String-discrete, contains, keep_if, any, all, length, is_empty, is_none, ltb, str_ltb,
  if◌then◌else◌, string_eq, nat_eq, Eq,
}
use tech_challenge_fase2_alf.Prelude.Dict.{Dict, get, put, values}
use tech_challenge_fase2_alf.Prelude.Results.{Result, ok, err, ◌>>=◌, ◌>>◌, raise_if}
use tech_challenge_fase2_alf.Prelude.Sorting.{sorted}
use tech_challenge_fase2_alf.Batch.Models.{Instant, BronzeObject, BatchManifest, is_completed}

pub data ReleaseStatus : Type 0 where
  running succeeded active inactive failed : ReleaseStatus

abbrev pub is_failed : ReleaseStatus → Bool
is_failed failed = true
is_failed _ = false

abbrev pub is_running : ReleaseStatus → Bool
is_running running = true
is_running _ = false

-- `status in (ReleaseStatus.ACTIVE, ReleaseStatus.INACTIVE)`
abbrev pub is_published : ReleaseStatus → Bool
is_published active = true
is_published inactive = true
is_published _ = false

pub record ReleaseExecution : Type 0 where
  pub release_id : String
  pub year : ℕ

pub record ReleaseFileMapping : Type 0 where
  pub release_id : String
  pub table_name : String
  pub year : ℕ
  pub file_uri : String
  pub source_run_id : String
  pub row_count : ℕ
  pub generation : ℕ
  pub crc32c : String
  pub ingested_at : Instant
  pub verified_at : Instant

unfoldable pub ReleaseFileMapping-discrete : Discrete ReleaseFileMapping
unfolding String-discrete ℕ_discrete
ReleaseFileMapping-discrete = hlevel (String-discrete, ℕ_discrete)

instance unfoldable pub mapping_eq : Eq ReleaseFileMapping
unfolding ReleaseFileMapping-discrete
mapping_eq = record { dec = ReleaseFileMapping-discrete }

pub record ReleaseSnapshot : Type 0 where
  pub release_id : String
  pub year : ℕ
  pub status : ReleaseStatus
  pub baseline_release_id : String
  pub files : List ReleaseFileMapping

pub data ReleaseError : Type 0 where
  release_conflict : String → ReleaseError
  incomplete_release : List String → ReleaseError
  -- pydantic's `ValidationError`
  invalid_mapping : ReleaseError

abbrev pub release_sources : List String
release_sources =
    "uf" ∷ "meta_alfabetizacao_brasil" ∷ "meta_alfabetizacao_uf" ∷ "meta_alfabetizacao_municipio"
    ∷ "municipio" ∷ "alunos" ∷ []

abbrev pub ReleaseStore : Type 0
ReleaseStore = Dict String ReleaseSnapshot

abbrev pub fresh_release : ReleaseExecution → ReleaseSnapshot
fresh_release x = record {
  release_id = x.release_id;
  year = x.year;
  status = running;
  baseline_release_id = "__bootstrap__";
  files = [];
}

abbrev pub reopened : ReleaseSnapshot → ReleaseSnapshot
reopened r = record r { status = running; baseline_release_id = "__bootstrap__"; files = [] }

abbrev pub required : String → ReleaseStore → Result ReleaseError ReleaseSnapshot
required id s = elim (get id s) [
  | none ↦ err (release_conflict "release was not begun")
  | some current ↦ ok current
]

abbrev pub require_matching_year :
    ReleaseSnapshot → ReleaseExecution → Result ReleaseError (Unit {0})
require_matching_year current x =
    raise_if (not (current.year == x.year)) (release_conflict "reference year differs")

abbrev pub begin_existing :
    ReleaseExecution → ReleaseStore → ReleaseSnapshot → Result ReleaseError ReleaseStore
begin_existing x s current = do
  require_matching_year current x
  ok (if is_failed current.status then put x.release_id (reopened current) s else s)

unfoldable pub begin : ReleaseExecution → ReleaseStore → Result ReleaseError ReleaseStore
begin x s = elim (get x.release_id s) [
  | none ↦ ok (put x.release_id (fresh_release x) s)
  | some current ↦ begin_existing x s current
]

-- One mapping, with pydantic's checks of `row_count` and `generation`.
unfoldable pub file_mapping :
    ReleaseExecution
    → BatchManifest
    → Instant
    → Instant
    → BronzeObject
    → Result ReleaseError ReleaseFileMapping
file_mapping x m completed_at verified_at bronze =
    if ltb 0 m.row_count && ltb 0 bronze.generation
    then ok (record {
      release_id = x.release_id;
      table_name = m.source;
      year = m.year;
      file_uri = bronze.uri;
      source_run_id = m.run_id;
      row_count = m.row_count;
      generation = bronze.generation;
      crc32c = bronze.crc32c;
      ingested_at = completed_at;
      verified_at = verified_at;
    })
    else err invalid_mapping

unfoldable pub file_mappings :
    ReleaseExecution
    → BatchManifest
    → Instant
    → Instant
    → List BronzeObject
    → Result ReleaseError (List ReleaseFileMapping)
file_mappings x m c v [] = ok []
file_mappings x m c v (b ∷ bs) = do
  mapping ← file_mapping x m c v b
  rest ← file_mappings x m c v bs
  ok (mapping ∷ rest)

abbrev pub MappingKey : Type 0
MappingKey = String × String

unfoldable pub MappingKey-discrete : Discrete MappingKey
unfolding String-discrete
MappingKey-discrete = hlevel String-discrete

instance unfoldable pub mapping_key_eq : Eq MappingKey
unfolding MappingKey-discrete
mapping_key_eq = record { dec = MappingKey-discrete }

abbrev pub Indexed : Type 0
Indexed = Dict MappingKey ReleaseFileMapping

abbrev pub key_of : ReleaseFileMapping → MappingKey
key_of item = (item.table_name, item.file_uri)

-- `{(item.table_name, item.file_uri): item for item in files}`
unfoldable pub index_files : Indexed → List ReleaseFileMapping → Indexed
index_files d [] = d
index_files d (f ∷ fs) = index_files (put (key_of f) f d) fs

-- `observed is not None and observed != mapping`
abbrev pub conflicts : Option ReleaseFileMapping → ReleaseFileMapping → Bool
conflicts none mapping = false
conflicts (some observed) mapping = not (observed == mapping)

unfoldable pub merge_mappings : Indexed → List ReleaseFileMapping → Result ReleaseError Indexed
merge_mappings d [] = ok d
merge_mappings d (f ∷ fs) = do
  raise_if (conflicts (get (key_of f) d) f)
      (release_conflict "mapping differs from immutable selection")
  merge_mappings (put (key_of f) f d) fs

-- `set(xs) == set(ys)`
abbrev pub same_set : List ReleaseFileMapping → List ReleaseFileMapping → Bool
same_set xs ys = all (λ x. contains x ys) xs && all (λ y. contains y xs) ys

abbrev pub by_uri : ReleaseFileMapping → ReleaseFileMapping → Bool
by_uri a b = str_ltb a.file_uri b.file_uri

-- `manifest.completed_at is None or manifest.verified_at is None`, and the two instants.
abbrev pub completed_instants :
    BatchManifest → Option Instant → Option Instant → Result ReleaseError (Instant × Instant)
completed_instants m (some c) (some v) =
    if is_completed m.status
    then ok (c, v)
    else err (release_conflict "mapping requires a completed manifest")
completed_instants m _ _ = err (release_conflict "mapping requires a completed manifest")

-- The new files of `current`, from the merged index.
unfoldable pub merged_files :
    ReleaseSnapshot → Indexed → Result ReleaseError (List ReleaseFileMapping)
merged_files current indexed = do
  raise_if (not (is_running current.status) && not (same_set (values indexed) current.files))
      (release_conflict "mapping cannot change after succeeded")
  ok (sorted by_uri (values indexed))

unfoldable pub mappings_of :
    ReleaseExecution → BatchManifest → Result ReleaseError (List ReleaseFileMapping)
mappings_of x m = do
  instants ← completed_instants m m.completed_at m.verified_at
  raise_if (not (contains m.source release_sources) || not (m.year == x.year))
      (release_conflict "mapping source or year differs from release")
  raise_if (is_empty m.bronze_objects) (incomplete_release (m.source ∷ []))
  file_mappings x m instants.0 instants.1 m.bronze_objects

-- `record`
unfoldable pub record_manifest :
    ReleaseExecution → BatchManifest → ReleaseStore → Result ReleaseError ReleaseStore
record_manifest x m s = do
  current ← required x.release_id s
  require_matching_year current x
  raise_if (is_failed current.status) (release_conflict "failed release cannot record mappings")
  mappings ← mappings_of x m
  indexed ← merge_mappings (index_files [] current.files) mappings
  files ← merged_files current indexed
  ok (put x.release_id (record current { files = files }) s)

abbrev pub is_present : List ReleaseFileMapping → String → Bool
is_present files source = any (λ f. f.table_name == source && ltb 0 f.row_count) files

-- `{item.source_run_id for item in files if item.table_name == source}`
unfoldable pub run_ids : String → List ReleaseFileMapping → List String
run_ids source [] = []
run_ids source (f ∷ fs) =
    let rest = run_ids source fs in
    if f.table_name == source && not (contains f.source_run_id rest)
    then f.source_run_id ∷ rest
    else rest

abbrev pub has_one_run : List ReleaseFileMapping → String → Bool
has_one_run files source = length (run_ids source files) == 1

unfoldable pub complete : ReleaseExecution → ReleaseStore → Result ReleaseError ReleaseStore
complete x s = do
  current ← required x.release_id s
  require_matching_year current x
  raise_if (is_failed current.status) (release_conflict "failed release cannot be completed")
  let missing = keep_if (λ source. not (is_present current.files source)) release_sources
  raise_if (not (is_empty missing)) (incomplete_release missing)
  raise_if (any (λ source. not (has_one_run current.files source)) release_sources)
      (release_conflict "each source requires exactly one source run")
  ok (
      if is_running current.status
      then put x.release_id (record current { status = succeeded }) s
      else s)

unfoldable pub fail : ReleaseExecution → ReleaseStore → Result ReleaseError ReleaseStore
fail x s = do
  current ← required x.release_id s
  require_matching_year current x
  if is_failed current.status then ok s else do
    raise_if (is_published current.status) (release_conflict "published release cannot fail")
    ok (put x.release_id (record current { status = failed }) s)
