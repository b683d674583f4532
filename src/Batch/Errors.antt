-- ===== src/Batch/Errors.antt =====
-- src/alfabetizacao_pipeline/errors.py and batch/errors.py: the exceptions of the Batch subsystem.
-- Each Python exception class is a constructor with the fields of the dataclass.
use tech_challenge_fase2_alf.Prelude.{ℕ, String}

pub data ExitCode : Type 0 where
  success invalid_configuration cost_limit_exceeded : ExitCode
  critical_quality_failure operational_failure : ExitCode

-- The integer that the process returns.
abbrev pub exit_value : ExitCode → ℕ
exit_value ExitCode.success = 0
exit_value ExitCode.invalid_configuration = 2
exit_value ExitCode.cost_limit_exceeded = 3
exit_value ExitCode.critical_quality_failure = 4
exit_value ExitCode.operational_failure = 5

pub data BatchError : Type 0 where
  cost_limit_exceeded : ℕ → ℕ → BatchError
  immutable_object_exists : String → BatchError
  schema_drift : String → BatchError
  incomplete_run : String → BatchError
  landing_schema : String → BatchError
  unsupported_schema_type : String → BatchError
  invalid_table_identifier : String → BatchError
  invalid_reference_year : String → BatchError
  source_inspection_required : String → BatchError
  manifest_conflict : String → BatchError
  stale_object_generation : String → BatchError
  -- Python's own `KeyError` and pydantic's `ValidationError`.
  key_error : String → BatchError
  validation_error : BatchError
  -- pyarrow's `ArrowInvalid`: the bytes are no Parquet file.
  invalid_parquet : BatchError
  -- Python's own `ValueError`, `RuntimeError` and `TypeError`.
  value_error runtime_error type_error : String → BatchError
  -- The errors of the Google clients (`google.api_core.exceptions`).
  service_unavailable too_many_requests internal_server_error : BatchError
  not_found precondition_failed conflict : BatchError
