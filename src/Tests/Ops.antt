-- ===== src/Tests/Ops.antt =====
-- One catalog and one profile, and the theorems on them.
use tech_challenge_fase2_alf.Prelude.Dict.{get}
use tech_challenge_fase2_alf.Ops.Costs.{
  bigquery_costs, dataflow_costs, storage_costs, pubsub_costs, service_costs, build_costs,
  network_costs, billed_blocks,
}
use tech_challenge_fase2_alf.Ops.Costs.Groups.{
  CostGroups, estimate_profile, report_of, estimate_request, cost_groups,
}
use tech_challenge_fase2_alf.Ops.Models.{UnitRates, CostRequest, CostCatalog, CostReport, Currency}
use tech_challenge_fase2_alf.Ops.Decimal.{money, cents_of, whole, rounded, divided, digits_of}
use tech_challenge_fase2_alf.Prelude.{◌∷◌, [], refl, false, arith, string_eq}
use tech_challenge_fase2_alf.Ops.Costs.Totals.{estimate_profile-IsSummed, IsSummed}
use tech_challenge_fase2_alf.Ops.Decimal.Money.{money-IsNearest, IsNearest, cents}

money-IsNearest_example :
    IsNearest (record { coefficient = 1255; places = 3 }) (record { coefficient = 126; places = 2 })
unfolding money cents_of
money-IsNearest_example =
    money-IsNearest (record { coefficient = 1255; places = 3 })
      (record { coefficient = 126; places = 2 }) refl

abbrev rates : UnitRates
rates = record {
  bigquery_per_tib = record { coefficient = 3438; places = 2 };
  bigquery_storage_write_api_per_gib = record { coefficient = 0; places = 0 };
  bigquery_active_storage_per_gib_month = record { coefficient = 0; places = 0 };
  dataflow_vcpu_per_hour = record { coefficient = 385; places = 3 };
  dataflow_memory_per_gib_hour = record { coefficient = 2; places = 2 };
  dataflow_standard_pd_per_gib_hour = record { coefficient = 0; places = 0 };
  dataflow_streaming_engine_compute_unit_hour = record { coefficient = 0; places = 0 };
  gcs_storage_per_gib_month = record { coefficient = 11; places = 2 };
  gcs_replication_per_gib = record { coefficient = 0; places = 0 };
  gcs_class_a_operations_per_1000 = record { coefficient = 0; places = 0 };
  gcs_class_b_operations_per_1000 = record { coefficient = 0; places = 0 };
  pubsub_publish_delivery_per_gib = record { coefficient = 215; places = 3 };
  pubsub_gcs_export_per_gib = record { coefficient = 0; places = 0 };
  pubsub_retention_per_gib_month = record { coefficient = 0; places = 0 };
  cloud_run_vcpu_second = record { coefficient = 1; places = 4 };
  cloud_run_gib_second = record { coefficient = 0; places = 0 };
  workflows_internal_steps_per_1000 = record { coefficient = 55; places = 3 };
  scheduler_per_job_month = record { coefficient = 0; places = 0 };
  artifact_registry_per_gib_month = record { coefficient = 0; places = 0 };
  cloud_build_build_images_per_minute = record { coefficient = 33; places = 3 };
  cloud_build_verify_images_per_minute = record { coefficient = 0; places = 0 };
  logging_per_gib = record { coefficient = 275; places = 2 };
  monitoring_per_mib = record { coefficient = 0; places = 0 };
  network_egress_per_gib = record { coefficient = 0; places = 0 };
  cross_region_data_transfer_per_gib = record { coefficient = 0; places = 0 };
}

abbrev demo : CostRequest
demo = record {
  currency = Currency.brl;
  bigquery_total_bytes_processed = 2199023255552;
  bigquery_query_count = 12;
  bigquery_max_bytes_billed_per_query = 1000000000;
  bigquery_storage_write_api_gib = whole 0;
  bigquery_active_storage_gib_month = whole 0;
  dataflow_max_workers = 2;
  dataflow_runtime_hours = record { coefficient = 15; places = 1 };
  dataflow_worker_vcpus = 4;
  dataflow_worker_memory_gib = whole 15;
  dataflow_disk_gib = whole 0;
  dataflow_streaming_engine_compute_unit_hours = whole 0;
  gcs_storage_gib_month = whole 7;
  gcs_replication_written_gib = whole 0;
  gcs_class_a_operations_per_1000 = whole 0;
  gcs_class_b_operations_per_1000 = whole 0;
  pubsub_publish_delivery_gib = whole 3;
  pubsub_gcs_export_gib = whole 0;
  pubsub_retained_gib_month = whole 0;
  cloud_run_vcpu_seconds = whole 1230;
  cloud_run_gib_seconds = whole 0;
  workflows_internal_steps = 1001;
  scheduler_jobs_month = whole 0;
  artifact_registry_gib_month = whole 0;
  cloud_build_build_images_minutes = whole 5;
  cloud_build_verify_images_minutes = whole 0;
  logging_gib = whole 2;
  monitoring_mib = whole 0;
  network_egress_gib = whole 0;
  cross_region_data_transfer_gib = whole 0;
}

abbrev catalog : CostCatalog
catalog = record {
  version = "1";
  bigquery_location = "US";
  runtime_location = "us-central1";
  storage_location = "us-central1";
  rates = rates;
  profiles = ("demo", demo) ∷ [];
  budget_amount = whole 100;
  budget_is_hard_cap = false;
  usd_to_brl = record { coefficient = 55; places = 1 };
  usd_to_brl_as_of = "2026-01-01";
  rate_basis = "gross_without_free_tier";
  min_instances = 0;
  bronze_storage_class = "STANDARD";
  landing_retention_days = 7;
  streaming_retention_days = 7;
}

abbrev groups : CostGroups
groups = record {
  q = record {
    bigquery = cents 6876;
    bigquery_storage_write_api = cents 0;
    bigquery_active_storage = cents 0;
  };
  flow = record {
    dataflow_vcpu = cents 462;
    dataflow_memory = cents 90;
    dataflow_persistent_disk = cents 0;
    dataflow_streaming_engine = cents 0;
    dataflow = cents 552;
  };
  stored = record {
    gcs_storage = cents 77;
    gcs_replication = cents 0;
    gcs_class_a_operations = cents 0;
    gcs_class_b_operations = cents 0;
    storage = cents 77;
  };
  messages = record {
    pubsub_publish_delivery = cents 65;
    pubsub_gcs_export = cents 0;
    pubsub_retention = cents 0;
    pubsub = cents 65;
  };
  services = record {
    cloud_run = cents 12;
    workflows = cents 11;
    scheduler = cents 0;
    artifact_registry = cents 0;
  };
  builds = record {
    cloud_build_build_images = cents 17;
    cloud_build_verify_images = cents 0;
    cloud_build = cents 17;
  };
  network = record {
    logging = cents 550;
    monitoring = cents 0;
    network_egress = cents 0;
    cross_region_data_transfer = cents 0;
  };
}

abbrev demo_report : CostReport
demo_report = report_of catalog "demo" demo groups (cents 8160)

estimate_profile-IsSummed_example : IsSummed demo_report
unfolding estimate_profile estimate_request cost_groups bigquery_costs dataflow_costs storage_costs
    pubsub_costs service_costs build_costs network_costs money cents_of rounded divided digits_of
    billed_blocks get string_eq
estimate_profile-IsSummed_example =
    estimate_profile-IsSummed catalog "demo" demo_report refl (omega arith)
