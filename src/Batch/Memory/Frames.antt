-- ===== src/Batch/Memory/Frames.antt =====
-- The calls of the runtime in memory that leave the manifests and the objects as they are.
use tech_challenge_fase2_alf.Batch.Landing.{Identity, parquet_identity}
use tech_challenge_fase2_alf.Batch.Runner.{read_parts, Libraries, add_part}
use tech_challenge_fase2_alf.Prelude.Actions.{>>=-holds, Action, continue, lift}
use tech_challenge_fase2_alf.Batch.Planner.{contract_of, estimate_batch}
use tech_challenge_fase2_alf.Batch.Errors.{BatchError}
use tech_challenge_fase2_alf.Batch.Models.{
  Bytes, Instant, SourceContract, SourceInspection, BatchRequest,
}
use tech_challenge_fase2_alf.Batch.Ports.{BatchRuntime}
use tech_challenge_fase2_alf.Prelude.Results.{Result}
use tech_challenge_fase2_alf.Batch.Memory.{
  dry_run, inspect, World, Result, inspect, Bytes, BatchError, contract_of, Instant, BatchRuntime,
  Action, in_memory, SourceInspection, dry_run, continue, ok, err,
}
use tech_challenge_fase2_alf.Prelude.{String, List, ℕ, ◌≡◌, some, arith, ◌∷◌, []}

-- The same manifests and the same objects.
abbrev pub Same : World → World → Type 0
Same w w' = (w'.manifests ≡ w.manifests) × (w'.objects ≡ w.objects)

module _ (w : World) where
  inspect-frame :
      (r : Result BatchError SourceContract)
      (f : SourceContract → Action World BatchError SourceInspection) (v : World)
      → Same w v
      → ((c : SourceContract) → Same w (f c v).1)
      → Same w (continue r f v).1
  inspect-frame (ok c) f v h k = k c
  inspect-frame (err e) f v h k = h

  pub inspect-Same : (source : String) (v : World) → Same w v → Same w (inspect source v).1
  unfolding inspect
  inspect-Same source v h = inspect-frame (contract_of source) _ _ (h.0, h.1) (λ c. (h.0, h.1))

  module _ (sha256_hex : Bytes → String) (crc32c_base64 : Bytes → String)
      (query_hash schema_hash : String) (clock : ℕ → Instant) where
    abbrev memory : BatchRuntime World
    memory = in_memory sha256_hex crc32c_base64 query_hash schema_hash clock

    pub estimate_batch-Same :
        (request : BatchRequest) (inspection : SourceInspection) (v : World)
        → Same w v
        → Same w (estimate_batch memory.query request (some inspection) v).1
    unfolding estimate_batch in_memory dry_run
    estimate_batch-Same request inspection v h = ground arith

    abbrev Kept : {A : Type 0} → Result BatchError A × World → Type 0
    Kept r = Same w r.1

    pub read_parts-Same :
        (lib : Libraries) (source : String) (uris : List String) (i : Identity) (v : World)
        → Same w v
        → Same w (read_parts lib memory source i uris v).1
    unfolding read_parts in_memory
    read_parts-Same lib source [] i v h = h
    read_parts-Same lib source (uri ∷ uris) i v h =
        >>=-holds Kept (memory.objects.read_versioned uri) _ v (λ e p. h)
          (λ landing p.
            >>=-holds Kept
              (lift (parquet_identity lib.sha256 lib.open_parquet landing.payload source)) _ v
              (λ e q. h)
              (λ part q.
                >>=-holds Kept (read_parts lib memory source (add_part i part) uris) _ v
                  (λ e t. read_parts-Same lib source uris (add_part i part) v h)
                  (λ rest t. read_parts-Same lib source uris (add_part i part) v h)))
