-- ===== src/Batch/Models.antt =====
-- src/alfabetizacao_pipeline/batch/models.py: the frozen pydantic models of the Batch subsystem.
-- A `datetime` is an aware instant, counted in microseconds. `bytes` is a list of bytes.
use tech_challenge_fase2_alf.Prelude.Chars.{begins_with}
use tech_challenge_fase2_alf.Prelude.{
  ℕ, ◌*◌, ◌^◌, String, Bool, true, false, ◌&&◌, Option, List, leb, ltb, Eq, if◌then◌else◌, not,
  is_empty,
}
use tech_challenge_fase2_alf.Prelude.Results.{Result, ok, err}
use tech_challenge_fase2_alf.Batch.Errors.{BatchError, validation_error}

abbrev pub Instant : Type 0
Instant = ℕ

abbrev pub Bytes : Type 0
Bytes = List ℕ

pub data BatchStatus : Type 0 where
  planned skipped incomplete completed failed : BatchStatus

-- `status is BatchStatus.COMPLETED`
abbrev pub is_completed : BatchStatus → Bool
is_completed BatchStatus.completed = true
is_completed _ = false

-- `status is BatchStatus.SKIPPED`
abbrev pub is_skipped : BatchStatus → Bool
is_skipped BatchStatus.skipped = true
is_skipped _ = false

pub data SelectionPolicy : Type 0 where
  annual snapshot : SelectionPolicy

pub data BigQueryType : Type 0 where
  int64 float64 string : BigQueryType

unfoldable pub BigQueryType-discrete : Discrete BigQueryType
BigQueryType-discrete = hlevel

instance unfoldable pub bigquery_type_eq : Eq BigQueryType
unfolding BigQueryType-discrete
bigquery_type_eq = record { dec = BigQueryType-discrete }

pub record SourceColumn : Type 0 where
  pub name : String
  pub data_type : BigQueryType
  pub mode : String

pub record SourceContract : Type 0 where
  pub name : String
  pub columns : List SourceColumn
  pub key_columns : List String
  pub selection_policy : SelectionPolicy
  pub pinned_schema_commit : String

pub record SourceIdentity : Type 0 where
  pub location : String
  pub modified_at : Option Instant
  pub etag : Option String

pub record SourceInspection : Type 0 where
  pub source : String
  pub identity : SourceIdentity
  pub columns : List SourceColumn

pub record DryRunEstimate : Type 0 where
  pub bytes_processed : ℕ

pub record ContentFingerprint : Type 0 where
  pub row_count : ℕ
  pub value : String

-- The constructor with its check `row_count > 0`.
unfoldable pub content_fingerprint : ℕ → String → Result BatchError ContentFingerprint
content_fingerprint rows value =
    if ltb 0 rows then ok (record { row_count = rows; value = value }) else err validation_error

pub record SnapshotExport : Type 0 where
  pub row_count : ℕ
  pub object_uris : List String

-- The constructor with its checks, `row_count > 0` and at least one URI.
unfoldable pub snapshot_export : SnapshotExport → Result BatchError SnapshotExport
snapshot_export s =
    if ltb 0 s.row_count && not (is_empty s.object_uris) then ok s else err validation_error

-- `^gs://`
unfoldable pub is_gs_uri : String → Bool
is_gs_uri uri = begins_with "gs://" uri

-- The value is the year, the only parameter that the program binds.
pub record QueryParameter : Type 0 where
  pub name : String
  pub data_type : BigQueryType
  pub value : ℕ

pub record BronzeObject : Type 0 where
  pub uri : String
  pub generation : ℕ
  pub crc32c : String
  pub size_bytes : ℕ

-- The constructor with its checks of the URI and the generation.
unfoldable pub checked_bronze : BronzeObject → Result BatchError BronzeObject
checked_bronze b = if is_gs_uri b.uri && ltb 0 b.generation then ok b else err validation_error

pub record ObjectVersion : Type 0 where
  pub uri : String
  pub generation : ℕ
  pub metageneration : ℕ
  pub payload_sha256 : String

-- The constructor with its checks of the URI and the generations. Its pattern of the hash is that of
-- each text that `hexdigest` gives.
unfoldable pub checked_version : ObjectVersion → Result BatchError ObjectVersion
checked_version v =
    if is_gs_uri v.uri && ltb 0 v.generation && ltb 0 v.metageneration
    then ok v
    else err validation_error

pub record VersionedPayload : Type 0 where
  pub version : ObjectVersion
  pub payload : Bytes

pub record BatchManifest : Type 0 where
  pub run_id : String
  pub attempt_id : Option String
  pub source : String
  pub year : ℕ
  pub status : BatchStatus
  pub source_identity : SourceIdentity
  pub row_count : ℕ
  pub fingerprint : String
  pub query_hash : String
  pub schema_hash : String
  pub bronze_objects : List BronzeObject
  pub started_at : Instant
  pub completed_at : Option Instant
  pub verified_at : Option Instant
  pub git_sha : String
  pub image_digest : String

-- `Field(ge=2000, le=2100)`
abbrev pub is_reference_year : ℕ → Bool
is_reference_year year = leb 2000 year && leb year 2100

abbrev pub default_maximum_bytes_billed : ℕ
default_maximum_bytes_billed = 25 * 1024 ^ 3

pub record BatchRequest : Type 0 where
  pub source : String
  pub year : ℕ
  pub maximum_bytes_billed : ℕ
  pub dry_run : Bool

-- The constructor with the checks of `year` and `maximum_bytes_billed`.
unfoldable pub batch_request : String → ℕ → ℕ → Bool → Result BatchError BatchRequest
batch_request source year maximum_bytes_billed dry_run =
    if is_reference_year year && ltb 0 maximum_bytes_billed
    then ok (record {
      source = source;
      year = year;
      maximum_bytes_billed = maximum_bytes_billed;
      dry_run = dry_run;
    })
    else err validation_error

pub record BatchPlan : Type 0 where
  pub run_id : String
  pub source : String
  pub year : ℕ
  pub status : BatchStatus
  pub estimated_bytes : ℕ
  pub maximum_bytes_billed : ℕ
  pub query_hash : String
  pub schema_hash : String
  pub fingerprint : String
  pub row_count : ℕ
  pub cloud_writes : ℕ

pub record BatchEstimate : Type 0 where
  pub source : String
  pub year : ℕ
  pub status : BatchStatus
  pub estimated_bytes : ℕ
  pub maximum_bytes_billed : ℕ
  pub query_hash : String
  pub schema_hash : String
  pub cloud_writes : ℕ

pub record BatchRunContext : Type 0 where
  pub landing_prefix : String
  pub bronze_prefix : String
  pub git_sha : String
  pub image_digest : String

pub record SchemaDriftReport : Type 0 where
  pub blocking : Bool
  pub removed_columns : List String
  pub added_columns : List String
  pub type_changes : List String
  pub mode_changes : List String
