-- ===== src/Batch/GoogleBigQuery/Metadata.antt =====
-- src/alfabetizacao_pipeline/batch/bigquery_metadata.py: the columns of a table. `str.upper` is a
-- parameter, since it reads the tables of Unicode.
use tech_challenge_fase2_alf.Batch.Errors.{BatchError, value_error}
use tech_challenge_fase2_alf.Prelude.Results.{Result, err, ok}
use tech_challenge_fase2_alf.Batch.Models.{BigQueryType, Instant, SourceColumn}
use tech_challenge_fase2_alf.Prelude.Dict.{Dict, get}
use tech_challenge_fase2_alf.Prelude.{
  String, List, Option, ◌∷◌, [], none, ◌<>◌, some, if◌then◌else◌, not, contains, string_eq,
}

pub record SchemaField : Type 0 where
  pub name : String
  pub field_type : String
  pub mode : String

pub record TableMetadata : Type 0 where
  pub schema : List SchemaField
  pub modified : Option Instant
  pub etag : Option String

-- `BIGQUERY_TYPE_ALIASES`
abbrev pub bigquery_type_aliases : Dict String BigQueryType
bigquery_type_aliases =
    ("INT64", BigQueryType.int64)
    ∷ ("INTEGER", BigQueryType.int64)
    ∷ ("FLOAT64", BigQueryType.float64)
    ∷ ("FLOAT", BigQueryType.float64)
    ∷ ("STRING", BigQueryType.string)
    ∷ []

-- `SUPPORTED_COLUMN_MODES`
abbrev pub supported_column_modes : List String
supported_column_modes = "NULLABLE" ∷ "REQUIRED" ∷ []

module _ (upper : String → String) where
  unfoldable pub source_column_from_metadata : SchemaField → Result BatchError SourceColumn
  source_column_from_metadata field = elim (get (upper field.field_type) bigquery_type_aliases) [
    | none ↦ err (value_error ("unsupported-source-column-type:" <> field.field_type))
    | some data_type ↦
        if not (contains (upper field.mode) supported_column_modes)
        then err (value_error ("unsupported-source-column-mode:" <> field.mode))
        else ok (record { name = field.name; data_type = data_type; mode = upper field.mode })
  ]

  -- One more column, before the rest: the first error is the one that is raised.
  abbrev pub add_column :
      Result BatchError SourceColumn
      → Result BatchError (List SourceColumn)
      → Result BatchError (List SourceColumn)
  add_column (err e) rest = err e
  add_column (ok column) (err e) = err e
  add_column (ok column) (ok columns) = ok (column ∷ columns)

  unfoldable pub source_columns : List SchemaField → Result BatchError (List SourceColumn)
  source_columns [] = ok []
  source_columns (field ∷ fields) =
      add_column (source_column_from_metadata field) (source_columns fields)
