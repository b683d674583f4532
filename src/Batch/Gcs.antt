-- ===== src/Batch/Gcs.antt =====
-- src/alfabetizacao_pipeline/batch/adapters.py and manifest_store.py: the object store and the
-- manifest store over the storage SDK, a parameter. SHA-256, in hexadecimal or in bytes, the text
-- of a CRC, pydantic's JSON of a manifest and its parser, and `strftime` are parameters. A request
-- states the precondition that no object is there (`if_generation_match=0`), as its type says.
pub mod Laws
pub mod Persist
pub mod Write
use tech_challenge_fase2_alf.Prelude.Text.{show}
use tech_challenge_fase2_alf.Batch.Memory.{bytes_eq, latest_in}
use tech_challenge_fase2_alf.Prelude.Results.{Result, ok, err}
use tech_challenge_fase2_alf.Batch.Errors.{BatchError, immutable_object_exists, manifest_conflict}
use tech_challenge_fase2_alf.Batch.Models.{
  Bytes, BronzeObject, VersionedPayload, ObjectVersion, BatchManifest, Instant, BatchStatus,
  incomplete,
}
use tech_challenge_fase2_alf.Prelude.{
  String, ℕ, List, Option, length, not, ◌==◌, Bool, ◌<>◌, string_eq, if◌then◌else◌, true, ◌||◌, [],
  ◌++◌, ◌∷◌, false, some, none,
}
use tech_challenge_fase2_alf.Prelude.Actions.{Action, ◌>>=◌, ◌>>◌, pure, raise, raise_when}

pub record GcsObjectVersion : Type 0 where
  pub uri : String
  pub generation : ℕ
  pub metageneration : ℕ

pub record ImmutableUpload : Type 0 where
  pub uri : String
  pub payload : Bytes

pub record ImmutableDownload : Type 0 where
  pub version : GcsObjectVersion

pub record ImmutableCopy : Type 0 where
  pub source : GcsObjectVersion
  pub destination_uri : String

pub record GcsSdkBoundary (W : Type 0) : Type 0 where
  pub stat : String → Action W BatchError GcsObjectVersion
  pub download : ImmutableDownload → Action W BatchError Bytes
  pub upload : ImmutableUpload → Action W BatchError BronzeObject
  pub copy : ImmutableCopy → Action W BatchError BronzeObject
  pub list : String → Action W BatchError (List GcsObjectVersion)

abbrev pub is_incomplete : BatchStatus → Bool
is_incomplete BatchStatus.incomplete = true
is_incomplete _ = false

-- `status.value`
abbrev pub status_value : BatchStatus → String
status_value BatchStatus.planned = "planned"
status_value BatchStatus.skipped = "skipped"
status_value BatchStatus.incomplete = "incomplete"
status_value BatchStatus.completed = "completed"
status_value BatchStatus.failed = "failed"

-- `text.endswith(suffix)`
unfoldable pub ends_with : String → String → Bool
ends_with suffix String.[] = suffix == ""
ends_with suffix (String.◌∷◌ c text) = String.◌∷◌ c text == suffix || ends_with suffix text

module _ {W A : Type 0} where
  abbrev pub on_exists :
      Result BatchError A → (BatchError → Action W BatchError A) → Action W BatchError A
  on_exists (ok a) handler w = (ok a, w)
  on_exists (err (immutable_object_exists uri)) handler w = handler (immutable_object_exists uri) w
  on_exists (err e) handler w = (err e, w)

  -- `try: action except ImmutableObjectExistsError as error: handler`
  abbrev pub except_exists :
      Action W BatchError A → (BatchError → Action W BatchError A) → Action W BatchError A
  except_exists action handler w = let r = action w in on_exists r.0 handler r.1

module _ (prefix : String) (timestamp : Instant → String) where
  -- `manifest.attempt_id or manifest.started_at.strftime(...)`
  unfoldable pub attempt_of : BatchManifest → String
  attempt_of m = elim m.attempt_id [
    | none ↦ timestamp m.started_at
    | some id ↦ if id == "" then timestamp m.started_at else id
  ]

  -- `_checkpoint_uri`, of a prefix without its final slashes.
  unfoldable pub checkpoint_uri : BatchManifest → String
  checkpoint_uri m =
      let run_prefix =
        prefix <> "/" <> m.source <> "/ano=" <> show m.year <> ("/run=" <> m.run_id) in
      if is_incomplete m.status
      then run_prefix <> "/attempt=" <> attempt_of m <> "/checkpoint=incomplete/manifest.json"
      else run_prefix <> "/checkpoint=" <> status_value m.status <> "/manifest.json"

module _ {W : Type 0} (sdk : GcsSdkBoundary W) where
  -- The bytes and the version of what is stored now.
  unfoldable pub current : String → Action W BatchError (GcsObjectVersion × Bytes)
  current uri = do
    version ← sdk.stat uri
    payload ← sdk.download (record { version = version })
    pure (version, payload)

  module _ (sha256_hex : Bytes → String) (crc32c_base64 : Bytes → String) where
    -- `read_versioned`
    unfoldable pub read_current : String → Action W BatchError VersionedPayload
    read_current uri = do
      found ← current uri
      pure (record {
        version = record {
          uri = found.0.uri;
          generation = found.0.generation;
          metageneration = found.0.metageneration;
          payload_sha256 = sha256_hex found.1;
        };
        payload = found.1;
      })

    abbrev pub existing_object : String → GcsObjectVersion → Bytes → BronzeObject
    existing_object uri version existing = record {
      uri = uri;
      generation = version.generation;
      crc32c = crc32c_base64 existing;
      size_bytes = length existing;
    }

    unfoldable pub copy_immutable : ObjectVersion → String → Action W BatchError BronzeObject
    copy_immutable source destination_uri =
        except_exists
          (sdk.copy (record {
            source = record {
              uri = source.uri;
              generation = source.generation;
              metageneration = source.metageneration;
            };
            destination_uri = destination_uri;
          }))
          (λ error. do
            found ← current destination_uri
            raise_when (not (sha256_hex found.1 == source.payload_sha256)) error
            pure (existing_object destination_uri found.0 found.1))

    unfoldable pub write_immutable : String → Bytes → Action W BatchError BronzeObject
    write_immutable uri payload =
        except_exists (sdk.upload (record { uri = uri; payload = payload })) (λ error. do
          found ← current uri
          raise_when (not (bytes_eq found.1 payload)) error
          pure (existing_object uri found.0 found.1))

  -- `_ = self._sdk.upload(...)`
  unfoldable pub create : ImmutableUpload → Action W BatchError (Unit {0})
  create request = do created ← sdk.upload request; pure tt

  module _ (prefix : String) (sha256 : Bytes → Bytes) (dump : BatchManifest → Bytes)
      (timestamp : Instant → String) where
    unfoldable pub persist_manifest : BatchManifest → Action W BatchError (Unit {0})
    persist_manifest m =
        let uri = checkpoint_uri prefix timestamp m in
        except_exists (create (record { uri = uri; payload = dump m })) (λ error. do
          observed ← current uri
          raise_when (not (bytes_eq (sha256 observed.1) (sha256 (dump m)))) (manifest_conflict uri))

  module _ (prefix : String) (parse : Bytes → Option BatchManifest) where
    -- The manifest, if the payload is one.
    abbrev pub valid_manifests : Option BatchManifest → List BatchManifest
    valid_manifests none = []
    valid_manifests (some m) = m ∷ []

    -- One more checkpoint, before the rest.
    unfoldable pub with_checkpoint :
        GcsObjectVersion
        → Action W BatchError (List BatchManifest)
        → Action W BatchError (List BatchManifest)
    with_checkpoint version rest = do
      payload ← sdk.download (record { version = version })
      manifests ← rest
      pure (valid_manifests (parse payload) ++ manifests)

    -- The manifests of the completed checkpoints that parse, in the order of the listing.
    unfoldable pub read_checkpoints :
        List GcsObjectVersion → Action W BatchError (List BatchManifest)
    read_checkpoints [] = pure []
    read_checkpoints (version ∷ versions) =
        let rest = read_checkpoints versions in
        if ends_with "/checkpoint=completed/manifest.json" version.uri
        then with_checkpoint version rest
        else rest

    unfoldable pub latest_checkpoint : String → ℕ → Action W BatchError (Option BatchManifest)
    latest_checkpoint source year = do
      versions ← sdk.list (prefix <> "/" <> source <> "/ano=" <> show year <> "/")
      manifests ← read_checkpoints versions
      pure (latest_in manifests source year)
