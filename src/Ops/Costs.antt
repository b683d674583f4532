-- ===== src/Ops/Costs.antt =====
-- src/alfabetizacao_pipeline/ops/costs.py: the estimate of a profile. Components that the code
-- computes one after the other are grouped, in its order. Reading the catalog, the JSON of the
-- outputs and the parser of the options are not modelled.
pub mod Groups
pub mod Rules
pub mod Subtotals
pub mod Totals
use tech_challenge_fase2_alf.Prelude.Results.{◌>>=◌, Result, ok}
use tech_challenge_fase2_alf.Ops.Models.{UnitRates, CostRequest}
use tech_challenge_fase2_alf.Ops.Decimal.{Decimal, CostError, money, divided, whole, ◌⊗◌, ◌⊕◌}
use tech_challenge_fase2_alf.Prelude.{◌≡◌, ℕ, ◌^◌, ◌+◌, ◌-◌, ◌/◌}

-- `TIB`
abbrev pub tib : ℕ
tib = 1024 ^ 4

-- `WORKFLOW_STEP_BLOCK`
abbrev pub workflow_step_block : ℕ
workflow_step_block = 1000

-- The blocks of steps that are billed.
unfoldable pub billed_blocks : ℕ → ℕ
billed_blocks steps = (steps + workflow_step_block - 1) / workflow_step_block

pub record BigQueryCosts : Type 0 where
  pub bigquery : Decimal
  pub bigquery_storage_write_api : Decimal
  pub bigquery_active_storage : Decimal

unfoldable pub bigquery_costs : UnitRates → CostRequest → Result CostError BigQueryCosts
bigquery_costs rates request = do
  bigquery ← money (divided request.bigquery_total_bytes_processed tib ⊗ rates.bigquery_per_tib)
  bigquery_storage_write_api ←
      money (request.bigquery_storage_write_api_gib ⊗ rates.bigquery_storage_write_api_per_gib)
  bigquery_active_storage ←
      money
        (request.bigquery_active_storage_gib_month ⊗ rates.bigquery_active_storage_per_gib_month)
  ok (record {
    bigquery = bigquery;
    bigquery_storage_write_api = bigquery_storage_write_api;
    bigquery_active_storage = bigquery_active_storage;
  })

pub record DataflowCosts : Type 0 where
  pub dataflow_vcpu : Decimal
  pub dataflow_memory : Decimal
  pub dataflow_persistent_disk : Decimal
  pub dataflow_streaming_engine : Decimal
  pub dataflow : Decimal

unfoldable pub dataflow_costs : UnitRates → CostRequest → Result CostError DataflowCosts
dataflow_costs rates request = do
  dataflow_vcpu ← money (
      whole request.dataflow_max_workers
      ⊗ whole request.dataflow_worker_vcpus
      ⊗ request.dataflow_runtime_hours
      ⊗ rates.dataflow_vcpu_per_hour)
  dataflow_memory ← money (
      whole request.dataflow_max_workers
      ⊗ request.dataflow_worker_memory_gib
      ⊗ request.dataflow_runtime_hours
      ⊗ rates.dataflow_memory_per_gib_hour)
  dataflow_persistent_disk ← money (
      whole request.dataflow_max_workers
      ⊗ request.dataflow_disk_gib
      ⊗ request.dataflow_runtime_hours
      ⊗ rates.dataflow_standard_pd_per_gib_hour)
  dataflow_streaming_engine ← money (
      request.dataflow_streaming_engine_compute_unit_hours
      ⊗ rates.dataflow_streaming_engine_compute_unit_hour)
  dataflow ←
      money (dataflow_vcpu ⊕ dataflow_memory ⊕ dataflow_persistent_disk ⊕ dataflow_streaming_engine)
  ok (record {
    dataflow_vcpu = dataflow_vcpu;
    dataflow_memory = dataflow_memory;
    dataflow_persistent_disk = dataflow_persistent_disk;
    dataflow_streaming_engine = dataflow_streaming_engine;
    dataflow = dataflow;
  })

pub record StorageCosts : Type 0 where
  pub gcs_storage : Decimal
  pub gcs_replication : Decimal
  pub gcs_class_a_operations : Decimal
  pub gcs_class_b_operations : Decimal
  pub storage : Decimal

unfoldable pub storage_costs : UnitRates → CostRequest → Result CostError StorageCosts
storage_costs rates request = do
  gcs_storage ← money (request.gcs_storage_gib_month ⊗ rates.gcs_storage_per_gib_month)
  gcs_replication ← money (request.gcs_replication_written_gib ⊗ rates.gcs_replication_per_gib)
  gcs_class_a_operations ←
      money (request.gcs_class_a_operations_per_1000 ⊗ rates.gcs_class_a_operations_per_1000)
  gcs_class_b_operations ←
      money (request.gcs_class_b_operations_per_1000 ⊗ rates.gcs_class_b_operations_per_1000)
  storage ← money (gcs_storage ⊕ gcs_replication ⊕ gcs_class_a_operations ⊕ gcs_class_b_operations)
  ok (record {
    gcs_storage = gcs_storage;
    gcs_replication = gcs_replication;
    gcs_class_a_operations = gcs_class_a_operations;
    gcs_class_b_operations = gcs_class_b_operations;
    storage = storage;
  })

pub record PubsubCosts : Type 0 where
  pub pubsub_publish_delivery : Decimal
  pub pubsub_gcs_export : Decimal
  pub pubsub_retention : Decimal
  pub pubsub : Decimal

unfoldable pub pubsub_costs : UnitRates → CostRequest → Result CostError PubsubCosts
pubsub_costs rates request = do
  pubsub_publish_delivery ←
      money (request.pubsub_publish_delivery_gib ⊗ rates.pubsub_publish_delivery_per_gib)
  pubsub_gcs_export ← money (request.pubsub_gcs_export_gib ⊗ rates.pubsub_gcs_export_per_gib)
  pubsub_retention ←
      money (request.pubsub_retained_gib_month ⊗ rates.pubsub_retention_per_gib_month)
  pubsub ← money (pubsub_publish_delivery ⊕ pubsub_gcs_export ⊕ pubsub_retention)
  ok (record {
    pubsub_publish_delivery = pubsub_publish_delivery;
    pubsub_gcs_export = pubsub_gcs_export;
    pubsub_retention = pubsub_retention;
    pubsub = pubsub;
  })

pub record ServiceCosts : Type 0 where
  pub cloud_run : Decimal
  pub workflows : Decimal
  pub scheduler : Decimal
  pub artifact_registry : Decimal

unfoldable pub service_costs : UnitRates → CostRequest → Result CostError ServiceCosts
service_costs rates request = do
  cloud_run ← money (
      request.cloud_run_vcpu_seconds ⊗ rates.cloud_run_vcpu_second
      ⊕ request.cloud_run_gib_seconds ⊗ rates.cloud_run_gib_second)
  workflows ← money (
      whole (billed_blocks request.workflows_internal_steps)
      ⊗ rates.workflows_internal_steps_per_1000)
  scheduler ← money (request.scheduler_jobs_month ⊗ rates.scheduler_per_job_month)
  artifact_registry ←
      money (request.artifact_registry_gib_month ⊗ rates.artifact_registry_per_gib_month)
  ok (record {
    cloud_run = cloud_run;
    workflows = workflows;
    scheduler = scheduler;
    artifact_registry = artifact_registry;
  })

pub record BuildCosts : Type 0 where
  pub cloud_build_build_images : Decimal
  pub cloud_build_verify_images : Decimal
  pub cloud_build : Decimal

unfoldable pub build_costs : UnitRates → CostRequest → Result CostError BuildCosts
build_costs rates request = do
  cloud_build_build_images ←
      money (request.cloud_build_build_images_minutes ⊗ rates.cloud_build_build_images_per_minute)
  cloud_build_verify_images ←
      money (request.cloud_build_verify_images_minutes ⊗ rates.cloud_build_verify_images_per_minute)
  cloud_build ← money (cloud_build_build_images ⊕ cloud_build_verify_images)
  ok (record {
    cloud_build_build_images = cloud_build_build_images;
    cloud_build_verify_images = cloud_build_verify_images;
    cloud_build = cloud_build;
  })

pub record NetworkCosts : Type 0 where
  pub logging : Decimal
  pub monitoring : Decimal
  pub network_egress : Decimal
  pub cross_region_data_transfer : Decimal

unfoldable pub network_costs : UnitRates → CostRequest → Result CostError NetworkCosts
network_costs rates request = do
  logging ← money (request.logging_gib ⊗ rates.logging_per_gib)
  monitoring ← money (request.monitoring_mib ⊗ rates.monitoring_per_mib)
  network_egress ← money (request.network_egress_gib ⊗ rates.network_egress_per_gib)
  cross_region_data_transfer ←
      money (request.cross_region_data_transfer_gib ⊗ rates.cross_region_data_transfer_per_gib)
  ok (record {
    logging = logging;
    monitoring = monitoring;
    network_egress = network_egress;
    cross_region_data_transfer = cross_region_data_transfer;
  })
