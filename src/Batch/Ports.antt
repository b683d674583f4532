-- ===== src/Batch/Ports.antt =====
-- src/alfabetizacao_pipeline/batch/ports.py and runtime.py: the ports of the Batch state machine,
-- over the state `W` of whatever stands behind them. A method is an action on `W`.
use tech_challenge_fase2_alf.Prelude.{String, List, ℕ, Option}
use tech_challenge_fase2_alf.Prelude.Actions.{Action}
use tech_challenge_fase2_alf.Batch.Errors.{BatchError}
use tech_challenge_fase2_alf.Batch.Models.{
  Bytes, Instant, BatchManifest, BronzeObject, DryRunEstimate, ObjectVersion, QueryParameter,
  SnapshotExport, SourceInspection, VersionedPayload,
}

pub record BigQueryPort (W : Type 0) : Type 0 where
  pub query_hash : String
  pub schema_hash : String
  pub inspect : String → Action W BatchError SourceInspection
  pub dry_run : String → List QueryParameter → ℕ → Action W BatchError DryRunEstimate
  pub export_snapshot :
      String → List QueryParameter → String → ℕ → Action W BatchError SnapshotExport

pub record ManifestStore (W : Type 0) : Type 0 where
  pub latest_completed : String → ℕ → Action W BatchError (Option BatchManifest)
  pub persist : BatchManifest → Action W BatchError (Unit {0})

pub record ObjectStorePort (W : Type 0) : Type 0 where
  pub read : String → Action W BatchError Bytes
  pub read_versioned : String → Action W BatchError VersionedPayload
  pub copy_immutable : ObjectVersion → String → Action W BatchError BronzeObject
  pub write_immutable : String → Bytes → Action W BatchError BronzeObject

pub record Clock (W : Type 0) : Type 0 where
  pub now : Action W BatchError Instant

pub record BatchRuntime (W : Type 0) : Type 0 where
  pub query : BigQueryPort W
  pub manifests : ManifestStore W
  pub objects : ObjectStorePort W
  pub clock : Clock W
