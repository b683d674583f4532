-- ===== src/Ops/Costs/Groups.antt =====
-- src/alfabetizacao_pipeline/ops/costs.py: `estimate_profile`, from the groups of components, and
-- `estimate`, from the catalog that was read.
use tech_challenge_fase2_alf.Prelude.Dict.{get}
use tech_challenge_fase2_alf.Batch.Errors.{ExitCode}
use tech_challenge_fase2_alf.Prelude.Results.{◌>>=◌, Result, err}
use tech_challenge_fase2_alf.Ops.Decimal.{
  ◌⊕◌, invalid_operation, Decimal, CostError, profile_not_found, money,
}
use tech_challenge_fase2_alf.Ops.Models.{UnitRates, CostCatalog, CostReport, Currency, CostRequest}
use tech_challenge_fase2_alf.Ops.Costs.{
  BigQueryCosts, DataflowCosts, CostRequest, CostError, StorageCosts, ok, PubsubCosts,
  bigquery_costs, money, ServiceCosts, dataflow_costs, BuildCosts, storage_costs, NetworkCosts,
  pubsub_costs, service_costs, build_costs, network_costs,
}
use tech_challenge_fase2_alf.Prelude.{
  String, Option, ℕ, Bool, some, false, true, if◌then◌else◌, not, none, string_eq,
}

pub record CostGroups : Type 0 where
  pub q : BigQueryCosts
  pub flow : DataflowCosts
  pub stored : StorageCosts
  pub messages : PubsubCosts
  pub services : ServiceCosts
  pub builds : BuildCosts
  pub network : NetworkCosts

unfoldable pub cost_groups : UnitRates → CostRequest → Result CostError CostGroups
cost_groups rates request = do
  q ← bigquery_costs rates request
  flow ← dataflow_costs rates request
  stored ← storage_costs rates request
  messages ← pubsub_costs rates request
  services ← service_costs rates request
  builds ← build_costs rates request
  network ← network_costs rates request
  ok (record {
    q = q;
    flow = flow;
    stored = stored;
    messages = messages;
    services = services;
    builds = builds;
    network = network;
  })

-- The sum of all components.
abbrev pub total_of : CostGroups → Decimal
total_of groups =
    groups.q.bigquery ⊕ groups.q.bigquery_storage_write_api ⊕ groups.q.bigquery_active_storage
    ⊕ groups.flow.dataflow ⊕ groups.stored.storage ⊕ groups.messages.pubsub
    ⊕ groups.services.cloud_run ⊕ groups.services.workflows ⊕ groups.services.scheduler
    ⊕ groups.services.artifact_registry ⊕ groups.builds.cloud_build ⊕ groups.network.logging
    ⊕ groups.network.monitoring ⊕ groups.network.network_egress
    ⊕ groups.network.cross_region_data_transfer

-- The report, with the units that pydantic fills in.
abbrev pub report_of : CostCatalog → String → CostRequest → CostGroups → Decimal → CostReport
report_of catalog profile_name request groups total = record {
  profile = profile_name;
  currency = request.currency;
  bigquery_location = catalog.bigquery_location;
  runtime_location = catalog.runtime_location;
  storage_location = catalog.storage_location;
  bigquery = groups.q.bigquery;
  bigquery_storage_write_api = groups.q.bigquery_storage_write_api;
  bigquery_active_storage = groups.q.bigquery_active_storage;
  dataflow = groups.flow.dataflow;
  dataflow_vcpu = groups.flow.dataflow_vcpu;
  dataflow_memory = groups.flow.dataflow_memory;
  dataflow_persistent_disk = groups.flow.dataflow_persistent_disk;
  dataflow_streaming_engine = groups.flow.dataflow_streaming_engine;
  storage = groups.stored.storage;
  gcs_storage = groups.stored.gcs_storage;
  gcs_replication = groups.stored.gcs_replication;
  gcs_class_a_operations = groups.stored.gcs_class_a_operations;
  gcs_class_b_operations = groups.stored.gcs_class_b_operations;
  pubsub = groups.messages.pubsub;
  pubsub_publish_delivery = groups.messages.pubsub_publish_delivery;
  pubsub_gcs_export = groups.messages.pubsub_gcs_export;
  pubsub_retention = groups.messages.pubsub_retention;
  cloud_run = groups.services.cloud_run;
  workflows = groups.services.workflows;
  scheduler = groups.services.scheduler;
  artifact_registry = groups.services.artifact_registry;
  cloud_build = groups.builds.cloud_build;
  cloud_build_build_images = groups.builds.cloud_build_build_images;
  cloud_build_verify_images = groups.builds.cloud_build_verify_images;
  logging = groups.network.logging;
  monitoring = groups.network.monitoring;
  network_egress = groups.network.network_egress;
  cross_region_data_transfer = groups.network.cross_region_data_transfer;
  total = total;
  bytes_unit = "byte";
  bigquery_storage_write_api_unit = "GiB";
  bigquery_active_storage_unit = "GiB-month";
  dataflow_vcpu_unit = "vCPU-hour";
  dataflow_memory_unit = "GiB-hour";
  dataflow_persistent_disk_unit = "GiB-hour";
  dataflow_streaming_engine_unit = "compute-unit-hour";
  gcs_storage_unit = "GiB-month";
  gcs_replication_unit = "GiB written";
  gcs_operations_unit = "1,000 operations";
  pubsub_publish_delivery_unit = "GiB";
  pubsub_gcs_export_unit = "GiB";
  pubsub_retention_unit = "GiB-month";
  cloud_run_cpu_unit = "vCPU-second";
  cloud_run_memory_unit = "GiB-second";
  workflow_internal_unit = "1,000 internal steps";
  scheduler_unit = "job-month";
  artifact_registry_unit = "GiB-month";
  cloud_build_unit = "minute";
  logging_unit = "GiB";
  monitoring_unit = "MiB";
  network_egress_unit = "GiB";
  cross_region_data_transfer_unit = "GiB";
  usd_to_brl = catalog.usd_to_brl;
  usd_to_brl_as_of = catalog.usd_to_brl_as_of;
  rate_basis = catalog.rate_basis;
  bigquery_query_count = request.bigquery_query_count;
  max_bytes_billed_per_query = request.bigquery_max_bytes_billed_per_query;
  worker_range = "1..2";
  min_instances = 0;
  budget_is_hard_cap = false;
}

unfoldable pub estimate_request : CostCatalog → String → CostRequest → Result CostError CostReport
estimate_request catalog profile_name request = do
  groups ← cost_groups catalog.rates request
  total ← money (total_of groups)
  ok (report_of catalog profile_name request groups total)

unfoldable pub estimate_profile : CostCatalog → String → Result CostError CostReport
estimate_profile catalog profile_name = elim (get profile_name catalog.profiles) [
  | some request ↦ estimate_request catalog profile_name request
  | none ↦ err (profile_not_found profile_name)
]

pub record InvalidCostResponse : Type 0 where
  pub status : String
  pub error_code : String
  pub error_count : ℕ

-- How `estimate` ends: what it prints, to the output or to the error output, and its exit code; or
-- an exception that it does not catch.
pub data EstimateEnd : Type 0 where
  printed : CostReport → EstimateEnd
  refused : InvalidCostResponse → ExitCode → EstimateEnd
  mismatched : String → ExitCode → EstimateEnd
  raised : CostError → EstimateEnd

-- `currency is report.currency`, of an enumeration with one member
abbrev pub is_currency : Currency → Currency → Bool
is_currency Currency.brl Currency.brl = true

abbrev pub checked_currency : Option Currency → CostReport → EstimateEnd
checked_currency none report = printed report
checked_currency (some currency) report =
    if not (is_currency currency report.currency)
    then mismatched "{\"status\":\"invalid\",\"error\":\"currency mismatch\"}"
        ExitCode.invalid_configuration
    else printed report

abbrev pub estimate_end : Option Currency → Result CostError CostReport → EstimateEnd
estimate_end currency (ok report) = checked_currency currency report
estimate_end currency (err (profile_not_found profile)) =
    refused (record { status = "invalid"; error_code = "profile_not_found"; error_count = 1 })
      ExitCode.invalid_configuration
estimate_end currency (err invalid_operation) = raised invalid_operation

-- The catalog, or the number of its validation errors.
unfoldable pub estimate : Result ℕ CostCatalog → String → Option Currency → EstimateEnd
estimate (err error_count) profile currency =
    refused
      (record {
        status = "invalid";
        error_code = "invalid_cost_catalog";
        error_count = error_count;
      })
      ExitCode.invalid_configuration
estimate (ok catalog) profile currency = estimate_end currency (estimate_profile catalog profile)
