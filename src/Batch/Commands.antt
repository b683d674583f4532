-- ===== src/Batch/Commands.antt =====
-- src/alfabetizacao_pipeline/batch/commands.py: `plan` and `run`, and the checks of their options.
-- typer parses the options; the JSON of the outputs, the settings of the environment, the release
-- store and the composition of production are parameters, with the state that they change.
pub mod Capped
use tech_challenge_fase2_alf.Batch.Release.Execution.{release_execution}
use tech_challenge_fase2_alf.Batch.Planner.{estimate_batch}
use tech_challenge_fase2_alf.Prelude.Text.{show}
use tech_challenge_fase2_alf.Batch.Runner.{Libraries, execute_batch}
use tech_challenge_fase2_alf.Batch.Release.{ReleaseExecution}
use tech_challenge_fase2_alf.Batch.Ports.{BatchRuntime, BigQueryPort}
use tech_challenge_fase2_alf.Prelude.Actions.{Action, raise, ◌>>=◌, lift, pure, ◌>>◌}
use tech_challenge_fase2_alf.Batch.Catalog.{source_catalog}
use tech_challenge_fase2_alf.Prelude.Dict.{keys}
use tech_challenge_fase2_alf.Batch.Models.{
  BatchRequest, batch_request, BatchRunContext, BatchManifest, SourceInspection, BatchEstimate,
}
use tech_challenge_fase2_alf.Prelude.Results.{Result, ok, err}
use tech_challenge_fase2_alf.Prelude.{
  String, ℕ, Bool, Option, if◌then◌else◌, some, not, ltb, contains, none, string_eq, ◌<>◌, ◌*◌, ◌^◌,
  true,
}
use tech_challenge_fase2_alf.Batch.Errors.{
  BatchError, ExitCode, cost_limit_exceeded, exit_value, validation_error,
}

-- How a command ends: it exits with a text on the error output and a code, or an exception passes.
pub data CommandError : Type 0 where
  exited : String → ExitCode → CommandError
  raised : BatchError → CommandError

abbrev pub invalid_request : CommandError
invalid_request = exited "{\"status\":\"invalid_request\"}" ExitCode.invalid_configuration

abbrev pub or_invalid : Result BatchError BatchRequest → Result CommandError BatchRequest
or_invalid (ok r) = ok r
or_invalid (err e) = err invalid_request

-- `_request`: the catalog's sources, then pydantic's checks.
unfoldable pub valid_request : String → ℕ → ℕ → Bool → Result CommandError BatchRequest
valid_request source year maximum_bytes_billed dry_run =
    if not (contains source (keys source_catalog))
    then err invalid_request
    else or_invalid (batch_request source year maximum_bytes_billed dry_run)

-- `_maximum_bytes_billed`
unfoldable pub allowed_maximum : ℕ → Option ℕ → Result CommandError ℕ
allowed_maximum setting none = ok setting
allowed_maximum setting (some requested) =
    if ltb setting requested then err invalid_request else ok requested

abbrev pub handled :
    {W A : Type 0}
    → (BatchError → CommandError)
    → Result BatchError A
    → W
    → Result CommandError A × W
handled to_end (ok a) w = (ok a, w)
handled to_end (err e) w = (err (to_end e), w)

-- An action whose exceptions end the command.
abbrev pub with_end :
    {W A : Type 0} → (BatchError → CommandError) → Action W BatchError A → Action W CommandError A
with_end to_end action w = let r = action w in handled to_end r.0 r.1

-- What `plan` makes of an exception.
abbrev pub plan_end : BatchError → CommandError
plan_end (cost_limit_exceeded estimated maximum) =
    exited
      ("{\"status\":\"cost_limit_exceeded\",\"estimated_bytes\":"
        <> show estimated
        <> ",\"maximum_bytes_billed\":"
        <> show maximum
        <> "}")
      ExitCode.cost_limit_exceeded
plan_end validation_error = invalid_request
plan_end e = raised e

-- `ProductionComposition`
pub record Composition (W : Type 0) : Type 0 where
  pub runtime : BatchRuntime W
  pub context : BatchRunContext

pub record DeploymentProvenance : Type 0 where
  pub git_sha : String
  pub image_digest : String

pub record CommandServices (W : Type 0) : Type 0 where
  -- `AppSettings().max_bytes_billed`
  pub max_bytes_billed : ℕ
  -- `_query`: the fixture with an estimate, or the query of production.
  pub demo_query : ℕ → BigQueryPort W
  pub production_query : String → BigQueryPort W
  -- The provenance in the environment, if it is valid.
  pub provenance : Option DeploymentProvenance
  pub production : String → DeploymentProvenance → Composition W
  -- The runtime in memory, with the fixture's file in place.
  pub demonstration : String → ℕ → Composition W
  -- `BigQueryReleaseStore(...)`
  pub begin : ReleaseExecution → Action W BatchError (Unit {0})
  pub record_run : ReleaseExecution → BatchManifest → Action W BatchError (Unit {0})
  pub complete : ReleaseExecution → Action W BatchError (Unit {0})
  pub fail : ReleaseExecution → Action W BatchError (Unit {0})
  pub uuid4_hex : String
  pub inspection_json : SourceInspection → String
  pub estimate_json : BatchEstimate → String
  pub manifest_json : BatchManifest → String
  pub execution_json : ReleaseExecution → String

module _ {W : Type 0} (services : CommandServices W) where
  -- `_deployment_provenance`
  unfoldable pub deployment_provenance : Result CommandError DeploymentProvenance
  deployment_provenance = elim services.provenance [
    | none ↦
        err (exited "{\"status\":\"invalid_deployment_provenance\"}" ExitCode.invalid_configuration)
    | some provenance ↦ ok provenance
  ]

  -- `_release_execution`
  unfoldable pub required_execution : String → ℕ → Result CommandError ReleaseExecution
  required_execution release_id year = elim (release_execution release_id year) [
    | none ↦
        err (exited "{\"status\":\"invalid_release_execution\"}" ExitCode.invalid_configuration)
    | some execution ↦ ok execution
  ]

  -- A command of the release store: the call, and the execution's JSON.
  abbrev pub on_release :
      (ReleaseExecution → Action W BatchError (Unit {0}))
      → String
      → ℕ
      → Action W CommandError String
  on_release method release_id year = do
    execution ← lift (required_execution release_id year)
    done ← with_end raised (method execution)
    pure (services.execution_json execution)

  unfoldable pub begin_command : String → ℕ → Action W CommandError String
  begin_command = on_release services.begin

  unfoldable pub complete_command : String → ℕ → Action W CommandError String
  complete_command = on_release services.complete

  unfoldable pub fail_command : String → ℕ → Action W CommandError String
  fail_command = on_release services.fail

  -- `inspect_source`
  unfoldable pub inspect_command : String → Bool → Action W CommandError String
  inspect_command source demo = do
    batch_request ← lift (valid_request source 2024 (25 * 1024 ^ 3) true)
    inspection ← with_end raised (
        (if demo then services.demo_query 0 else services.production_query source).inspect
          batch_request.source)
    pure (services.inspection_json inspection)

  -- The query of `plan`.
  abbrev pub planned_query : String → Option ℕ → BigQueryPort W
  planned_query source none = services.production_query source
  planned_query source (some estimated_bytes) = services.demo_query estimated_bytes

  unfoldable pub plan : String → ℕ → Bool → Option ℕ → Option ℕ → Action W CommandError String
  plan source year dry_run requested_maximum demo_estimated_bytes = do
    maximum ← lift (allowed_maximum services.max_bytes_billed requested_maximum)
    batch_request ← lift (valid_request source year maximum dry_run)
    estimate ←
        with_end plan_end
          (estimate_batch (planned_query source demo_estimated_bytes) batch_request none)
    pure (services.estimate_json estimate)

  module _ (lib : Libraries) where
    -- A run of production that executes.
    abbrev pub production_run :
        BatchRequest → Composition W → Option String → Action W CommandError String
    production_run batch_request composition none =
        raise (exited "{\"status\":\"release_execution_required\"}" ExitCode.invalid_configuration)
    production_run batch_request composition (some release_id) = do
      execution ← lift (required_execution release_id batch_request.year)
      manifest ← with_end raised (
          execute_batch lib composition.runtime batch_request composition.context
            services.uuid4_hex)
      recorded ← with_end raised (services.record_run execution manifest)
      pure (services.manifest_json manifest)

    abbrev pub demo_run : BatchRequest → Composition W → Action W CommandError String
    demo_run batch_request composition = do
      manifest ← with_end raised (
          execute_batch lib composition.runtime batch_request composition.context
            services.uuid4_hex)
      pure (services.manifest_json manifest)

    -- A run that only estimates; unlike `plan`, it lets every exception pass.
    abbrev pub estimate_run : BatchRequest → BigQueryPort W → Action W CommandError String
    estimate_run batch_request query = do
      estimate ← with_end raised (estimate_batch query batch_request none)
      pure (services.estimate_json estimate)

    abbrev pub composed_run :
        BatchRequest → Bool → Option String → Composition W → Action W CommandError String
    composed_run batch_request dry_run release_id composition =
        if dry_run
        then estimate_run batch_request composition.runtime.query
        else production_run batch_request composition release_id

    abbrev pub run_in_production :
        String → BatchRequest → Bool → Option String → Action W CommandError String
    run_in_production source batch_request dry_run release_id = do
      provenance ← lift deployment_provenance
      composed_run batch_request dry_run release_id (services.production source provenance)

    abbrev pub run_in_memory : String → ℕ → BatchRequest → Bool → Action W CommandError String
    run_in_memory source year batch_request dry_run =
        if dry_run
        then estimate_run batch_request (services.demo_query (1024 ^ 3))
        else demo_run batch_request (services.demonstration source year)

    unfoldable pub run : String → ℕ → Bool → Bool → Option String → Action W CommandError String
    run source year dry_run demo release_id = do
      batch_request ← lift (valid_request source year services.max_bytes_billed dry_run)
      if not demo
          then run_in_production source batch_request dry_run release_id
          else run_in_memory source year batch_request dry_run
