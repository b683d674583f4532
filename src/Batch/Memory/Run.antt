-- ===== src/Batch/Memory/Run.antt =====
-- The whole run of `execute_batch`, on the runtime in memory.
use tech_challenge_fase2_alf.Batch.Landing.{no_rows}
use tech_challenge_fase2_alf.Batch.Errors.{BatchError, landing_schema}
use tech_challenge_fase2_alf.Prelude.Results.{Result, ok}
use tech_challenge_fase2_alf.Batch.Ports.{BatchRuntime}
use tech_challenge_fase2_alf.Batch.Models.{
  Bytes, Instant, BatchRequest, BatchRunContext, SourceInspection, BatchEstimate, BatchManifest,
  content_fingerprint, SourceContract, SnapshotExport,
}
use tech_challenge_fase2_alf.Prelude.Actions.{>>=-holds, guard-holds, lift}
use tech_challenge_fase2_alf.Batch.Memory.{
  export_snapshot, latest_completed, inspect, World, in_memory, Bytes, Instant, BatchRuntime,
  Result, SourceInspection, BatchError, BatchManifest, contract_of, ok, SnapshotExport, latest_in,
}
use tech_challenge_fase2_alf.Batch.Memory.Frames.{
  Same, inspect-Same, estimate_batch-Same, read_parts-Same,
}
use tech_challenge_fase2_alf.Batch.Memory.Outcome.{Outcome, stopped, decide-Outcome}
use tech_challenge_fase2_alf.Batch.Planner.{
  plan_batch, planned as plan_of, estimate_batch, contract_of,
}
use tech_challenge_fase2_alf.Batch.Planner.Price.{estimate_batch-IsWithin}
use tech_challenge_fase2_alf.Batch.Runner.{
  execute_batch, Libraries, read_parts, fingerprint_value, from_snapshot,
}
use tech_challenge_fase2_alf.Prelude.{
  ◌==◌, nat_eq, String, ℕ, some, ◌≡◌, ◌+◌, arith, refl, not, ap, sym, [],
}

module _ (sha256_hex : Bytes → String) (crc32c_base64 : Bytes → String)
    (query_hash schema_hash : String) (clock : ℕ → Instant) (lib : Libraries)
    (request : BatchRequest) (w : World) where
  abbrev memory : BatchRuntime World
  memory = in_memory sha256_hex crc32c_base64 query_hash schema_hash clock

  abbrev Ends : Result BatchError BatchManifest × World → Type 0
  Ends = Outcome w request query_hash schema_hash

  -- The hashes of an estimate that is returned.
  estimate-hashes :
      (inspection : SourceInspection) (v : World) (estimate : BatchEstimate)
      → (estimate_batch memory.query request (some inspection) v).0 ≡ ok estimate
      → (estimate.query_hash ≡ query_hash) × (estimate.schema_hash ≡ schema_hash)
  unfolding in_memory
  estimate-hashes inspection v estimate h =
      let bound =
        estimate_batch-IsWithin memory.query request (some inspection) v
          (estimate_batch memory.query request (some inspection) v).1 estimate (ground arith) in
      ground arith

  from_snapshot-Outcome :
      (context : BatchRunContext) (attempt_id : String) (inspection : SourceInspection)
      (estimate : BatchEstimate) (started_at : Instant) (contract : SourceContract)
      (snapshot : SnapshotExport) (v : World)
      → (estimate.query_hash ≡ query_hash) × (estimate.schema_hash ≡ schema_hash)
      → Same w v
      → Ends (
          from_snapshot lib memory request context attempt_id inspection estimate started_at
            contract snapshot v)
  unfolding from_snapshot in_memory plan_batch plan_of latest_completed
  from_snapshot-Outcome context attempt_id inspection estimate started_at contract snapshot v (p, q)
        same =
      let same' =
        read_parts-Same w sha256_hex crc32c_base64 query_hash schema_hash clock lib contract.name
          snapshot.object_uris no_rows v same in
      let v' = (read_parts lib memory contract.name no_rows snapshot.object_uris v).1 in
      >>=-holds Ends (read_parts lib memory contract.name no_rows snapshot.object_uris) _ v
        (λ e r. stopped e v' same')
        (λ parts r.
          guard-holds Ends (not (parts.0.row_count == snapshot.row_count))
            (landing_schema contract.name) _ v' (stopped _ v' same')
            (λ whole.
              >>=-holds Ends
                (lift (content_fingerprint parts.0.row_count (fingerprint_value lib parts.0))) _ v'
                (λ e t. stopped e v' same')
                (λ fingerprint t.
                  decide-Outcome sha256_hex crc32c_base64 query_hash schema_hash clock lib request w
                    context attempt_id inspection.identity started_at parts.1
                    (plan_of lib.uuid5 estimate fingerprint
                      (latest_in v'.manifests estimate.source estimate.year))
                    (latest_in v'.manifests request.source request.year) v'
                    (ap (λ ms. latest_in ms request.source request.year) (sym same'.0)) p q same')))

  -- On the runtime in memory, a run stops with nothing written, is interrupted with an incomplete
  -- manifest written, skips with the newest completed manifest of the partition, or publishes, as
  -- `Outcome` says, and in every case each object of the store keeps its bytes and its generation.
  pub execute_batch-Outcome :
      (context : BatchRunContext) (attempt_id : String)
      → Outcome w request query_hash schema_hash (
          execute_batch lib
            (in_memory sha256_hex crc32c_base64 query_hash schema_hash clock)
            request
            context
            attempt_id
            w)
  unfolding execute_batch in_memory export_snapshot
  execute_batch-Outcome context attempt_id =
      let same = inspect-Same w request.source w (refl, refl) in
      let v₁ = (inspect request.source w).1 in
      >>=-holds Ends (inspect request.source) _ w (λ e p. stopped e v₁ same)
        (λ inspection p.
          let same' =
            estimate_batch-Same w sha256_hex crc32c_base64 query_hash schema_hash clock request
              inspection v₁ same in
          let v₂ = (estimate_batch memory.query request (some inspection) v₁).1 in
          >>=-holds Ends (estimate_batch memory.query request (some inspection)) _ v₁
            (λ e q. stopped e v₂ same')
            (λ estimate q.
              >>=-holds Ends (lift (contract_of request.source)) _
                (record v₂ { readings = v₂.readings + 1 })
                (λ e r. stopped e (record v₂ { readings = v₂.readings + 1 }) same')
                (λ contract r.
                  >>=-holds Ends (export_snapshot "" [] _ request.maximum_bytes_billed) _
                    (record v₂ { readings = v₂.readings + 1 }) (λ e t. stopped e _ same')
                    (λ snapshot t.
                      from_snapshot-Outcome context attempt_id inspection estimate _ contract
                        snapshot _ (estimate-hashes inspection v₁ estimate q) same'))))
