-- ===== src/Batch/Memory.antt =====
-- src/alfabetizacao_pipeline/batch/fakes.py: the runtime in memory, `FakeBigQuery`,
-- `InMemoryManifestStore` and `InMemoryObjectStore`, as actions on one world. The world's clock
-- gives its n-th reading by a parameter. SHA-256, in hexadecimal, and the text of a CRC are
-- parameters.
pub mod Objects
pub mod Latest
pub mod Skip
pub mod Frames
pub mod Publish
pub mod Outcome
pub mod Run
pub mod Cost
use tech_challenge_fase2_alf.Prelude.Dict.{Dict, get, put}
use tech_challenge_fase2_alf.Prelude.{
  ◌≡◌, Bool, ℕ, [], List, String, ◌++◌, true, ◌+◌, ◌∷◌, ◌==◌, Option, length, not, false, none,
  ◌&&◌, if◌then◌else◌, keep_if, some, ◌||◌, string_eq, is_none, ltb, nat_eq,
}
use mathlib.Core.Logic.{ite, Lift}
use native.Mathlib.Decide.{ℕ_discrete}
use tech_challenge_fase2_alf.Prelude.Actions.{Action, continue, pure}
use tech_challenge_fase2_alf.Prelude.Results.{Result, ok, err, ◌>>=◌, ◌>>◌, raise_if}
use tech_challenge_fase2_alf.Batch.Errors.{
  BatchError, immutable_object_exists, stale_object_generation, key_error,
}
use tech_challenge_fase2_alf.Batch.Models.{
  Bytes, Instant, BatchManifest, BronzeObject, DryRunEstimate, ObjectVersion, QueryParameter,
  SnapshotExport, SourceInspection, SourceIdentity, VersionedPayload, is_completed, snapshot_export,
  checked_version, checked_bronze,
}
use tech_challenge_fase2_alf.Batch.Ports.{
  BatchRuntime, BigQueryPort, ManifestStore, ObjectStorePort, Clock,
}
use tech_challenge_fase2_alf.Batch.Planner.{contract_of}

unfoldable pub Bytes-discrete : Discrete Bytes
unfolding ℕ_discrete
Bytes-discrete = hlevel ℕ_discrete

-- `existing == payload`
abbrev pub bytes_eq : Bytes → Bytes → Bool
bytes_eq a b = ite (Bytes-discrete a b) true false

pub record FakeBigQuery : Type 0 where
  pub estimate : DryRunEstimate
  pub snapshot_row_count : ℕ
  pub snapshot_uris : List String
  pub executed_queries : ℕ
  pub inspect_calls : ℕ
  pub dry_run_limits : List ℕ
  pub export_limits : List ℕ
  pub export_destinations : List String

pub record InMemoryObjectStore : Type 0 where
  pub payloads : Dict String Bytes
  pub generations : Dict String ℕ
  pub created_objects : ℕ
  pub reused_objects : ℕ

abbrev pub empty_store : InMemoryObjectStore
empty_store = record { payloads = []; generations = []; created_objects = 0; reused_objects = 0 }

pub record World : Type 0 where
  pub query : FakeBigQuery
  pub manifests : List BatchManifest
  pub objects : InMemoryObjectStore
  pub readings : ℕ

-- FakeBigQuery

unfoldable pub inspect : String → Action World BatchError SourceInspection
inspect source w =
    let w' = record w { query = record w.query { inspect_calls = w.query.inspect_calls + 1 } } in
    continue (contract_of source)
      (λ contract. pure (record {
        source = source;
        identity = record { location = "US"; modified_at = none; etag = some "fixture-etag" };
        columns = contract.columns;
      }))
      w'

unfoldable pub dry_run : String → List QueryParameter → ℕ → Action World BatchError DryRunEstimate
dry_run sql parameters limit w = (
  ok w.query.estimate,
  record w { query = record w.query { dry_run_limits = w.query.dry_run_limits ++ (limit ∷ []) } },
)

unfoldable pub export_snapshot :
    String → List QueryParameter → String → ℕ → Action World BatchError SnapshotExport
export_snapshot sql parameters destination limit w = (
  snapshot_export
      (record { row_count = w.query.snapshot_row_count; object_uris = w.query.snapshot_uris }),
  record w {
    query = record w.query {
      executed_queries = w.query.executed_queries + 1;
      export_limits = w.query.export_limits ++ (limit ∷ []);
      export_destinations = w.query.export_destinations ++ (destination ∷ []);
    };
  },
)

-- InMemoryManifestStore

unfoldable pub is_candidate : String → ℕ → BatchManifest → Bool
is_candidate source year m =
    m.source == source && m.year == year && is_completed m.status && not (is_none m.completed_at)

-- `item.completed_at or datetime.min`
abbrev pub completion : BatchManifest → Instant
completion m = elim m.completed_at [ none ↦ 0 | some t ↦ t ]

-- `max(candidates, key=...)` with `best` so far: the first of the greatest.
unfoldable pub latest_from : BatchManifest → List BatchManifest → BatchManifest
latest_from best [] = best
latest_from best (m ∷ ms) =
    latest_from (if ltb (completion best) (completion m) then m else best) ms

abbrev pub latest_of : List BatchManifest → Option BatchManifest
latest_of [] = none
latest_of (m ∷ ms) = some (latest_from m ms)

unfoldable pub latest_in : List BatchManifest → String → ℕ → Option BatchManifest
latest_in manifests source year = latest_of (keep_if (is_candidate source year) manifests)

unfoldable pub latest_completed : String → ℕ → Action World BatchError (Option BatchManifest)
latest_completed source year w = (ok (latest_in w.manifests source year), w)

unfoldable pub persist : BatchManifest → Action World BatchError (Unit {0})
persist m w = (ok tt, record w { manifests = w.manifests ++ (m ∷ []) })

-- InMemoryObjectStore

-- `self.objects[uri]`
unfoldable pub item {ℓ} : {V : Type ℓ} → String → Dict String V → Result BatchError V
item uri d = elim (get uri d) [ none ↦ err (key_error uri) | some v ↦ ok v ]

unfoldable pub seed : String → Bytes → InMemoryObjectStore → InMemoryObjectStore
seed uri payload s = record s {
  payloads = put uri payload s.payloads;
  generations = put uri (elim (get uri s.generations) [ none ↦ 1 | some g ↦ g + 1 ]) s.generations;
}

module _ (sha256_hex : Bytes → String) (crc32c_base64 : Bytes → String) where
  unfoldable pub read_object : String → InMemoryObjectStore → Result BatchError VersionedPayload
  read_object uri s = do
    payload ← item uri s.payloads
    generation ← item uri s.generations
    version ← checked_version (record {
      uri = uri;
      generation = generation;
      metageneration = 1;
      payload_sha256 = sha256_hex payload;
    })
    ok (record { version = version; payload = payload })

  abbrev pub bronze_object : String → Bytes → BronzeObject
  bronze_object uri payload = record {
    uri = uri;
    generation = 1;
    crc32c = crc32c_base64 payload;
    size_bytes = length payload;
  }

  -- `write_immutable`, from what is stored under the URI. The metadata are checked last, so that the
  -- object is there where they are refused.
  unfoldable pub write_over :
      String → Bytes → Option Bytes → Action InMemoryObjectStore BatchError BronzeObject
  write_over uri payload none s = (
    checked_bronze (bronze_object uri payload),
    record s {
      payloads = put uri payload s.payloads;
      generations = put uri 1 s.generations;
      created_objects = s.created_objects + 1;
    },
  )
  write_over uri payload (some existing) s =
      if bytes_eq existing payload
      then (
        checked_bronze (bronze_object uri existing),
        record s { reused_objects = s.reused_objects + 1 },
      )
      else (err (immutable_object_exists uri), s)

  unfoldable pub write_object : String → Bytes → Action InMemoryObjectStore BatchError BronzeObject
  write_object uri payload s = write_over uri payload (get uri s.payloads) s

  -- The source's bytes, if it still has the pinned generation and hash.
  unfoldable pub pinned_payload : ObjectVersion → InMemoryObjectStore → Result BatchError Bytes
  pinned_payload source s = do
    payload ← item source.uri s.payloads
    generation ← item source.uri s.generations
    raise_if
        (not (generation == source.generation) || not (sha256_hex payload == source.payload_sha256))
        (stale_object_generation source.uri)
    ok payload

  unfoldable pub copy_object :
      ObjectVersion → String → Action InMemoryObjectStore BatchError BronzeObject
  copy_object source destination s = continue (pinned_payload source s) (write_object destination) s

  -- An action on the objects, as one on the world.
  abbrev pub on_objects :
      {A : Type 0} → Action InMemoryObjectStore BatchError A → Action World BatchError A
  on_objects m w = let r = m w.objects in (r.0, record w { objects = r.1 })

  unfoldable pub in_memory : String → String → (ℕ → Instant) → BatchRuntime World
  in_memory query_hash schema_hash clock = record {
    query = record {
      query_hash = query_hash;
      schema_hash = schema_hash;
      inspect = inspect;
      dry_run = dry_run;
      export_snapshot = export_snapshot;
    };
    manifests = record { latest_completed = latest_completed; persist = persist };
    objects = record {
      read = λ uri w. (item uri w.objects.payloads, w);
      read_versioned = λ uri w. (read_object uri w.objects, w);
      copy_immutable = λ source uri. on_objects (copy_object source uri);
      write_immutable = λ uri payload. on_objects (write_object uri payload);
    };
    clock = record { now = λ w. (ok (clock w.readings), record w { readings = w.readings + 1 }) };
  }
