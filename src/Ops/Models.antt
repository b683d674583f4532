-- ===== src/Ops/Models.antt =====
-- src/alfabetizacao_pipeline/ops/models.py: what is priced, the prices, and the report. A field that
-- pydantic requires not to be negative has a type without negative numbers; the other bounds are in
-- `is_valid_request` and `is_valid_catalog`. A date is its ISO text.
use tech_challenge_fase2_alf.Prelude.{ℕ, String, Bool, ◌*◌, leb, ◌^◌, ◌&&◌}
use tech_challenge_fase2_alf.Ops.Decimal.{Decimal}
use tech_challenge_fase2_alf.Prelude.Dict.{Dict}

pub data Currency : Type 0 where
  brl : Currency

pub record CostRequest : Type 0 where
  pub currency : Currency
  pub bigquery_total_bytes_processed : ℕ
  pub bigquery_query_count : ℕ
  pub bigquery_max_bytes_billed_per_query : ℕ
  pub bigquery_storage_write_api_gib : Decimal
  pub bigquery_active_storage_gib_month : Decimal
  pub dataflow_max_workers : ℕ
  pub dataflow_runtime_hours : Decimal
  pub dataflow_worker_vcpus : ℕ
  pub dataflow_worker_memory_gib : Decimal
  pub dataflow_disk_gib : Decimal
  pub dataflow_streaming_engine_compute_unit_hours : Decimal
  pub gcs_storage_gib_month : Decimal
  pub gcs_replication_written_gib : Decimal
  pub gcs_class_a_operations_per_1000 : Decimal
  pub gcs_class_b_operations_per_1000 : Decimal
  pub pubsub_publish_delivery_gib : Decimal
  pub pubsub_gcs_export_gib : Decimal
  pub pubsub_retained_gib_month : Decimal
  pub cloud_run_vcpu_seconds : Decimal
  pub cloud_run_gib_seconds : Decimal
  pub workflows_internal_steps : ℕ
  pub scheduler_jobs_month : Decimal
  pub artifact_registry_gib_month : Decimal
  pub cloud_build_build_images_minutes : Decimal
  pub cloud_build_verify_images_minutes : Decimal
  pub logging_gib : Decimal
  pub monitoring_mib : Decimal
  pub network_egress_gib : Decimal
  pub cross_region_data_transfer_gib : Decimal

pub record UnitRates : Type 0 where
  pub bigquery_per_tib : Decimal
  pub bigquery_storage_write_api_per_gib : Decimal
  pub bigquery_active_storage_per_gib_month : Decimal
  pub dataflow_vcpu_per_hour : Decimal
  pub dataflow_memory_per_gib_hour : Decimal
  pub dataflow_standard_pd_per_gib_hour : Decimal
  pub dataflow_streaming_engine_compute_unit_hour : Decimal
  pub gcs_storage_per_gib_month : Decimal
  pub gcs_replication_per_gib : Decimal
  pub gcs_class_a_operations_per_1000 : Decimal
  pub gcs_class_b_operations_per_1000 : Decimal
  pub pubsub_publish_delivery_per_gib : Decimal
  pub pubsub_gcs_export_per_gib : Decimal
  pub pubsub_retention_per_gib_month : Decimal
  pub cloud_run_vcpu_second : Decimal
  pub cloud_run_gib_second : Decimal
  pub workflows_internal_steps_per_1000 : Decimal
  pub scheduler_per_job_month : Decimal
  pub artifact_registry_per_gib_month : Decimal
  pub cloud_build_build_images_per_minute : Decimal
  pub cloud_build_verify_images_per_minute : Decimal
  pub logging_per_gib : Decimal
  pub monitoring_per_mib : Decimal
  pub network_egress_per_gib : Decimal
  pub cross_region_data_transfer_per_gib : Decimal

pub record CostCatalog : Type 0 where
  pub version : String
  pub bigquery_location : String
  pub runtime_location : String
  pub storage_location : String
  pub rates : UnitRates
  pub profiles : Dict String CostRequest
  pub budget_amount : Decimal
  pub budget_is_hard_cap : Bool
  pub usd_to_brl : Decimal
  pub usd_to_brl_as_of : String
  pub rate_basis : String
  pub min_instances : ℕ
  pub bronze_storage_class : String
  pub landing_retention_days : ℕ
  pub streaming_retention_days : ℕ

pub record CostReport : Type 0 where
  pub profile : String
  pub currency : Currency
  pub bigquery_location : String
  pub runtime_location : String
  pub storage_location : String
  pub bigquery : Decimal
  pub bigquery_storage_write_api : Decimal
  pub bigquery_active_storage : Decimal
  pub dataflow : Decimal
  pub dataflow_vcpu : Decimal
  pub dataflow_memory : Decimal
  pub dataflow_persistent_disk : Decimal
  pub dataflow_streaming_engine : Decimal
  pub storage : Decimal
  pub gcs_storage : Decimal
  pub gcs_replication : Decimal
  pub gcs_class_a_operations : Decimal
  pub gcs_class_b_operations : Decimal
  pub pubsub : Decimal
  pub pubsub_publish_delivery : Decimal
  pub pubsub_gcs_export : Decimal
  pub pubsub_retention : Decimal
  pub cloud_run : Decimal
  pub workflows : Decimal
  pub scheduler : Decimal
  pub artifact_registry : Decimal
  pub cloud_build : Decimal
  pub cloud_build_build_images : Decimal
  pub cloud_build_verify_images : Decimal
  pub logging : Decimal
  pub monitoring : Decimal
  pub network_egress : Decimal
  pub cross_region_data_transfer : Decimal
  pub total : Decimal
  pub bytes_unit : String
  pub bigquery_storage_write_api_unit : String
  pub bigquery_active_storage_unit : String
  pub dataflow_vcpu_unit : String
  pub dataflow_memory_unit : String
  pub dataflow_persistent_disk_unit : String
  pub dataflow_streaming_engine_unit : String
  pub gcs_storage_unit : String
  pub gcs_replication_unit : String
  pub gcs_operations_unit : String
  pub pubsub_publish_delivery_unit : String
  pub pubsub_gcs_export_unit : String
  pub pubsub_retention_unit : String
  pub cloud_run_cpu_unit : String
  pub cloud_run_memory_unit : String
  pub workflow_internal_unit : String
  pub scheduler_unit : String
  pub artifact_registry_unit : String
  pub cloud_build_unit : String
  pub logging_unit : String
  pub monitoring_unit : String
  pub network_egress_unit : String
  pub cross_region_data_transfer_unit : String
  pub usd_to_brl : Decimal
  pub usd_to_brl_as_of : String
  pub rate_basis : String
  pub bigquery_query_count : ℕ
  pub max_bytes_billed_per_query : ℕ
  pub worker_range : String
  pub min_instances : ℕ
  pub budget_is_hard_cap : Bool

-- `MAX_BYTES_BILLED`
abbrev pub max_bytes_billed : ℕ
max_bytes_billed = 25 * 1024 ^ 3

-- The decimal is at most a whole number.
abbrev at_most : Decimal → ℕ → Bool
at_most d n = leb d.coefficient (n * 10 ^ d.places)

-- The bounds that `Field` gives a request.
unfoldable pub is_valid_request : CostRequest → Bool
is_valid_request r =
    leb 1 r.bigquery_query_count
    && leb 1 r.bigquery_max_bytes_billed_per_query
    && leb r.bigquery_max_bytes_billed_per_query max_bytes_billed
    && leb 1 r.dataflow_max_workers
    && leb r.dataflow_max_workers 2
    && at_most r.dataflow_runtime_hours 24
    && leb 1 r.dataflow_worker_vcpus
