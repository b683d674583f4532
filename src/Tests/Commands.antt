-- ===== src/Tests/Commands.antt =====
-- The commands over the runtime in memory, and the SQL of a promotion.
use tech_challenge_fase2_alf.Batch.Commands.Capped.{IsCapped, plan-IsCapped}
use tech_challenge_fase2_alf.Batch.Commands.{CommandServices, Composition, plan}
use tech_challenge_fase2_alf.Batch.Memory.{World, in_memory, empty_store}
use tech_challenge_fase2_alf.Batch.Models.{BatchRunContext, Bytes}
use tech_challenge_fase2_alf.Batch.Ports.{BatchRuntime}
use tech_challenge_fase2_alf.Releases.Sql.{promotion_sql, rollback_sql, replaced}
use tech_challenge_fase2_alf.Prelude.Text.{show}
use tech_challenge_fase2_alf.Releases.Sql.Rendered.{sql-IsRendered, with_project, IsActiveRelease}
use tech_challenge_fase2_alf.Prelude.Actions.{pure}
use tech_challenge_fase2_alf.Prelude.Results.{ok}
use tech_challenge_fase2_alf.Prelude.{String, some, none, ◌≡◌, ◌↔◌, true, [], ◌≤◌}

abbrev template : String → String
template filename = "select * from `{{ project_id }}.ops.active_release` -- @reference_year"

abbrev rollback_text : String
rollback_text = "select * from `local-project.ops.active_release` -- 2024"

sql-IsRendered_example :
    ((promotion_sql template "local-project.ops.active_release" ≡ ok rollback_text) ↔ (
      (project : String) × IsActiveRelease "local-project.ops.active_release" project
      × (rollback_text ≡ with_project template "promote_release.sql" project)))
    × ((rollback_sql template "local-project.ops.active_release" 2024 ≡ ok rollback_text) ↔ (
        (2000 ≤ 2024)
        × (2024 ≤ 2100)
        × ((project : String) × IsActiveRelease "local-project.ops.active_release" project
            × (rollback_text
                ≡ replaced "@reference_year"
                    (show 2024)
                    (with_project template "rollback_release.sql" project)))))
sql-IsRendered_example =
    sql-IsRendered template "local-project.ops.active_release" rollback_text 2024

abbrev hex : Bytes → String
hex bytes = "hash"

abbrev memory : BatchRuntime World
memory = in_memory hex hex "query" "schema" (λ n. n)

abbrev context : BatchRunContext
context = record {
  landing_prefix = "gs://landing";
  bronze_prefix = "gs://bronze";
  git_sha = "0123456789abcdef0123456789abcdef01234567";
  image_digest = "sha256:00";
}

abbrev composition : Composition World
composition = record { runtime = memory; context = context }

abbrev services : CommandServices World
services = record {
  max_bytes_billed = 9000;
  demo_query = λ bytes. memory.query;
  production_query = λ source. memory.query;
  provenance = none;
  production = λ source provenance. composition;
  demonstration = λ source year. composition;
  begin = λ x. pure tt;
  record_run = λ x m. pure tt;
  complete = λ x. pure tt;
  fail = λ x. pure tt;
  uuid4_hex = "attempt-1";
  inspection_json = λ inspection. "inspection";
  estimate_json = λ estimate. "estimate";
  manifest_json = λ manifest. "manifest";
  execution_json = λ x. "execution";
}

abbrev world : World
world = record {
  query = record {
    estimate = record { bytes_processed = 5000 };
    snapshot_row_count = 1;
    snapshot_uris = [];
    executed_queries = 0;
    inspect_calls = 0;
    dry_run_limits = [];
    export_limits = [];
    export_destinations = [];
  };
  manifests = [];
  objects = empty_store;
  readings = 0;
}

plan-IsCapped_example :
    IsCapped services (plan services "uf" 2024 true (some 8000) (some 5000) world)
plan-IsCapped_example = plan-IsCapped services "uf" 2024 true (some 8000) (some 5000) world
