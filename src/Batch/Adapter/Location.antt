-- ===== src/Batch/Adapter/Location.antt =====
-- Where the adapter runs its queries.
use tech_challenge_fase2_alf.Prelude.Actions.{continue}
use tech_challenge_fase2_alf.Batch.Errors.{source_inspection_required, BatchError}
use tech_challenge_fase2_alf.Prelude.Results.{err, ok, Result}
use tech_challenge_fase2_alf.Batch.Models.{QueryParameter, SourceInspection}
use tech_challenge_fase2_alf.Batch.Ports.{BigQueryPort}
use tech_challenge_fase2_alf.Batch.Adapter.{
  BigQueryAdapterConfig, BigQuerySdkBoundary, BigQueryPort, QueryParameter, AdapterState,
  big_query_adapter, QueryExecution, dry_run_at_location, on_remote, err, export_at_location,
  source_inspection_required, required_location, inspect_source, SourceInspection, ok, BatchError,
  continue, retain,
}
use tech_challenge_fase2_alf.Prelude.{refl, String, ℕ, List, Option, some, none, ◌≡◌, arith}

module _ {W : Type 0} (config : BigQueryAdapterConfig) (sdk : BigQuerySdkBoundary W) where
  abbrev adapter : BigQueryPort (AdapterState W)
  adapter = big_query_adapter config sdk

  -- The request that the SDK gets.
  abbrev pub execution : String → String → ℕ → List QueryParameter → Option String → QueryExecution
  execution sql location limit parameters destination = record {
    sql = sql;
    location = location;
    maximum_bytes_billed = limit;
    parameters = parameters;
    destination_uri = destination;
  }

  -- The queries on the state `s` run at the location, under the limit, and keep the location.
  abbrev pub RunsAt : AdapterState W → String → Type 0
  RunsAt s location =
      (sql : String) (parameters : List QueryParameter) (destination : String) (limit : ℕ)
      → (adapter.dry_run sql parameters limit s
          ≡ on_remote (sdk.dry_run (execution sql location limit parameters none)) s)
        × (adapter.export_snapshot sql parameters destination limit s
            ≡ on_remote (sdk.snapshot (execution sql location limit parameters (some destination)))
                s)
        × ((adapter.dry_run sql parameters limit s).1.discovered ≡ some location)
        × ((adapter.export_snapshot sql parameters destination limit s).1.discovered
            ≡ some location)

  -- The queries raise, and the SDK is not called.
  abbrev pub Refuses : AdapterState W → Type 0
  Refuses s =
      (sql : String) (parameters : List QueryParameter) (destination : String) (limit : ℕ)
      → (adapter.dry_run sql parameters limit s
          ≡ (err (source_inspection_required config.locator.table), s))
        × (adapter.export_snapshot sql parameters destination limit s
            ≡ (err (source_inspection_required config.locator.table), s))

  located :
      (t : AdapterState W) (location : String) → t.discovered ≡ some location → RunsAt t location
  unfolding big_query_adapter dry_run_at_location export_at_location required_location
  located t location h sql parameters destination limit =
      (rw h refl, rw h refl, rw h refl, rw h refl)

  retained :
      (r : Result BatchError SourceInspection) (t : AdapterState W) (inspection : SourceInspection)
      → (continue r retain t).0 ≡ ok inspection
      → (continue r retain t).1.discovered ≡ some inspection.identity.location
  retained (ok found) t inspection h = ground arith
  retained (err e) t inspection h = absurd (ground arith)

  -- Without an inspection, a query raises and the SDK is not called. After an inspection that
  -- returns, each query goes to the SDK once, at the location that was found, with the limit and
  -- the parameters of the caller, and the location stays.
  pub big_query_adapter-RunsAt :
      (source : String) (s : AdapterState W)
      → (s.discovered ≡ none → Refuses s)
        × ((inspection : SourceInspection)
            → (adapter.inspect source s).0 ≡ ok inspection
            → RunsAt (adapter.inspect source s).1 inspection.identity.location)
  unfolding big_query_adapter dry_run_at_location export_at_location required_location
      inspect_source
  big_query_adapter-RunsAt source s = (
    λ h sql parameters destination limit. (ground arith, ground arith),
    λ inspection h. located (adapter.inspect source s).1 inspection.identity.location (
        retained (sdk.inspect config.locator s.remote).0
          (record s { remote = (sdk.inspect config.locator s.remote).1 }) inspection h),
  )
