-- ===== src/Batch/Memory/Cost.antt =====
-- The guard on the price of a run, on the runtime in memory.
use tech_challenge_fase2_alf.Batch.SchemaDrift.{compare_schema}
use tech_challenge_fase2_alf.Batch.Ports.{BatchRuntime}
use tech_challenge_fase2_alf.Batch.Errors.{BatchError, schema_drift, cost_limit_exceeded}
use tech_challenge_fase2_alf.Batch.Models.{
  Bytes, Instant, SourceContract, BatchRequest, BatchManifest, BatchRunContext, SourceInspection,
  BatchEstimate,
}
use tech_challenge_fase2_alf.Batch.Planner.{contract_of, estimate_batch}
use tech_challenge_fase2_alf.Prelude.Results.{Result, err}
use tech_challenge_fase2_alf.Prelude.Actions.{>>=-holds, guard-holds, lift, Action, continue}
use tech_challenge_fase2_alf.Batch.Memory.{
  inspect, World, in_memory, dry_run, Result, contract_of, Bytes, BatchError, Instant,
  BatchManifest, err, Action, BatchRuntime, SourceInspection, continue, ok,
}
use tech_challenge_fase2_alf.Batch.Memory.Frames.{Same}
use tech_challenge_fase2_alf.Batch.Runner.{execute_batch, Libraries}
use tech_challenge_fase2_alf.Prelude.{String, ℕ, ◌≡◌, ◌<◌, some, arith, ◌+◌, refl, ltb, []}

-- The same queries run, and the same data.
abbrev pub Untouched : World → World → Type 0
Untouched w v =
    (v.query.executed_queries ≡ w.query.executed_queries)
    × (v.query.export_destinations ≡ w.query.export_destinations)
    × Same w v

-- The run raised, ran no query and wrote nothing.
abbrev pub Refused : World → Result BatchError BatchManifest × World → Type 0
Refused w r = ((e : BatchError) × (r.0 ≡ err e)) × Untouched w r.1

-- The dry run gives the same price too.
abbrev Before : World → World → Type 0
Before w v = (v.query.estimate ≡ w.query.estimate) × Untouched w v

module _ (w : World) where
  inspect-frame :
      (r : Result BatchError SourceContract)
      (f : SourceContract → Action World BatchError SourceInspection) (v : World)
      → Before w v
      → ((c : SourceContract) → Before w (f c v).1)
      → Before w (continue r f v).1
  inspect-frame (ok c) f v h k = k c
  inspect-frame (err e) f v h k = h

  inspect-Before : (source : String) → Before w (inspect source w).1
  unfolding inspect
  inspect-Before source =
      inspect-frame (contract_of source) _
        (record w { query = record w.query { inspect_calls = w.query.inspect_calls + 1 } })
        (refl, (refl, refl, (refl, refl))) (λ c. (refl, (refl, refl, (refl, refl))))

  module _ (sha256_hex : Bytes → String) (crc32c_base64 : Bytes → String)
      (query_hash schema_hash : String) (clock : ℕ → Instant) (lib : Libraries)
      (request : BatchRequest) where
    abbrev memory : BatchRuntime World
    memory = in_memory sha256_hex crc32c_base64 query_hash schema_hash clock

    abbrev Over : Result BatchError BatchEstimate × World → Type 0
    Over r = ((e : BatchError) × (r.0 ≡ err e)) × Before w r.1

    overpriced :
        (inspection : SourceInspection) (v : World)
        → Before w v
        → request.maximum_bytes_billed < w.query.estimate.bytes_processed
        → ((e : BatchError) × ((estimate_batch memory.query request (some inspection) v).0 ≡ err e))
          × Before w (estimate_batch memory.query request (some inspection) v).1
    unfolding estimate_batch in_memory dry_run
    overpriced inspection v h p =
        >>=-holds Over (lift (contract_of request.source)) _ v (λ e q. ((e, refl), h))
          (λ c q.
            guard-holds Over (compare_schema c inspection.columns).blocking
              (schema_drift request.source) _ v ((schema_drift request.source, refl), h)
              (λ fits.
                guard-holds Over (ltb request.maximum_bytes_billed v.query.estimate.bytes_processed)
                  (cost_limit_exceeded v.query.estimate.bytes_processed
                    request.maximum_bytes_billed)
                  _ (dry_run "" [] request.maximum_bytes_billed v).1
                  (
                    (
                      cost_limit_exceeded v.query.estimate.bytes_processed
                          request.maximum_bytes_billed,
                      refl,
                    ),
                    h,
                  )
                  (λ under. absurd (ground arith))))

    -- On the runtime in memory, a run whose dry run prices the partition above the limit of the
    -- request raises, runs no query, exports nowhere, and leaves the manifests and the objects as
    -- they are.
    pub execute_batch-Refused :
        (context : BatchRunContext) (attempt_id : String)
        → request.maximum_bytes_billed < w.query.estimate.bytes_processed
        → Refused w (
            execute_batch lib
              (in_memory sha256_hex crc32c_base64 query_hash schema_hash clock)
              request
              context
              attempt_id
              w)
    unfolding execute_batch in_memory
    execute_batch-Refused context attempt_id p =
        let before = inspect-Before request.source in
        >>=-holds (Refused w) (inspect request.source) _ w (λ e q. ((e, refl), before.1))
          (λ inspection q.
            let (raised, before') = overpriced inspection (inspect request.source w).1 before p in
            >>=-holds (Refused w) (estimate_batch memory.query request (some inspection)) _
              (inspect request.source w).1 (λ e r. ((e, refl), before'.1))
              (λ estimate r. absurd (ground (arith, raised.1))))
