-- ===== src/Batch/GoogleStorage.antt =====
-- src/alfabetizacao_pipeline/batch/google_storage.py: the storage SDK of production over a client of
-- the storage service, a parameter with the state that it changes.
pub mod Uri
pub mod Native
pub mod Live
pub mod Lawful
pub mod Uploads
pub mod Copies
pub mod Failures
pub mod Conflicts
use tech_challenge_fase2_alf.Batch.Models.{BronzeObject, Bytes}
use tech_challenge_fase2_alf.Batch.Gcs.{
  GcsObjectVersion, ImmutableDownload, ImmutableUpload, ImmutableCopy, GcsSdkBoundary,
}
use tech_challenge_fase2_alf.Batch.Retry.{RetryObserver, retry_call}
use tech_challenge_fase2_alf.Prelude.Actions.{Action, raise, pure, ◌>>=◌, lift, ◌>>◌, raise_when}
use tech_challenge_fase2_alf.Prelude.Results.{Result, err, ok}
use tech_challenge_fase2_alf.Prelude.{
  ◌≡◌, Bool, String, true, Option, false, ℕ, List, map, not, ◌==◌, nat_eq,
}
use tech_challenge_fase2_alf.Batch.GoogleStorage.Uri.{split_gs_uri, gs_uri}
use tech_challenge_fase2_alf.Batch.GoogleStorage.Native.{
  StorageClientBoundary, StorageCopyRequest, StoredVersion, StoredBlob,
}
use tech_challenge_fase2_alf.Batch.Errors.{
  BatchError, service_unavailable, too_many_requests, internal_server_error, not_found,
  precondition_failed, stale_object_generation, immutable_object_exists,
}

-- `RETRYABLE_STORAGE_ERRORS`, which are `RETRYABLE_GOOGLE_ERRORS` too
abbrev pub is_transient : BatchError → Bool
is_transient service_unavailable = true
is_transient too_many_requests = true
is_transient internal_server_error = true
is_transient _ = false

module _ {W A : Type 0} where
  abbrev pub on_precondition : Result BatchError A → Action W BatchError A → Action W BatchError A
  on_precondition (err precondition_failed) handler = handler
  on_precondition (err e) handler = raise e
  on_precondition (ok a) handler = pure a

  -- `try: action except PreconditionFailed: handler`
  abbrev pub except_precondition :
      Action W BatchError A → Action W BatchError A → Action W BatchError A
  except_precondition action handler w = let r = action w in on_precondition r.0 handler r.1

  abbrev pub on_not_found : Result BatchError A → BatchError → Action W BatchError A
  on_not_found (err not_found) e = raise e
  on_not_found (err e') e = raise e'
  on_not_found (ok a) e = pure a

  -- `try: action except NotFound: raise e`
  abbrev pub except_not_found : Action W BatchError A → BatchError → Action W BatchError A
  except_not_found action e w = let r = action w in on_not_found r.0 e r.1

module _ {W : Type 0} (client : StorageClientBoundary W) (check_netloc : String → Option String)
    (observer : Option (RetryObserver W)) (maximum_attempts : ℕ) where
  abbrev pub storage_call : {A : Type 0} → String → Action W BatchError A → Action W BatchError A
  storage_call operation action = retry_call is_transient operation action maximum_attempts observer

  unfoldable pub google_stat : String → Action W BatchError GcsObjectVersion
  google_stat uri = do
    place ← lift (split_gs_uri check_netloc uri)
    version ← storage_call "gcs.stat" (client.stat place.0 place.1)
    pure (record {
      uri = uri;
      generation = version.generation;
      metageneration = version.metageneration;
    })

  unfoldable pub google_download : ImmutableDownload → Action W BatchError Bytes
  google_download request = do
    place ← lift (split_gs_uri check_netloc request.version.uri)
    except_precondition
        (storage_call "gcs.download" (
          client.download place.0 place.1 request.version.generation
            request.version.metageneration))
        (raise (stale_object_generation request.version.uri))

  abbrev pub written_object : String → StoredBlob → BronzeObject
  written_object uri blob = record {
    uri = uri;
    generation = blob.generation;
    crc32c = blob.crc32c;
    size_bytes = blob.size;
  }

  unfoldable pub google_upload : ImmutableUpload → Action W BatchError BronzeObject
  google_upload request = do
    place ← lift (split_gs_uri check_netloc request.uri)
    blob ←
        except_precondition
          (storage_call "gcs.upload" (client.upload_immutable place.0 place.1 request.payload))
          (raise (immutable_object_exists request.uri))
    pure (written_object request.uri blob)

  -- What a failed precondition of a copy means.
  abbrev pub classify_conflict : ImmutableCopy → Action W BatchError StoredBlob
  classify_conflict request = do
    current ←
        except_not_found (google_stat request.source.uri)
          (stale_object_generation request.source.uri)
    raise_when (not (current.generation == request.source.generation))
        (stale_object_generation request.source.uri)
    raise (immutable_object_exists request.destination_uri)

  unfoldable pub google_copy : ImmutableCopy → Action W BatchError BronzeObject
  google_copy request = do
    source ← lift (split_gs_uri check_netloc request.source.uri)
    destination ← lift (split_gs_uri check_netloc request.destination_uri)
    blob ←
        except_precondition
          (storage_call "gcs.copy" (
            client.copy_immutable (record {
              source_bucket = source.0;
              source_name = source.1;
              source_generation = request.source.generation;
              destination_bucket = destination.0;
              destination_name = destination.1;
            })))
          (classify_conflict request)
    pure (written_object request.destination_uri blob)

  abbrev pub listed_version : String → StoredVersion → GcsObjectVersion
  listed_version bucket version = record {
    uri = gs_uri bucket version.name;
    generation = version.generation;
    metageneration = version.metageneration;
  }

  unfoldable pub google_list : String → Action W BatchError (List GcsObjectVersion)
  google_list prefix = do
    place ← lift (split_gs_uri check_netloc prefix)
    versions ← storage_call "gcs.list" (client.list_versions place.0 place.1)
    pure (map (listed_version place.0) versions)

  abbrev pub google_gcs_sdk : GcsSdkBoundary W
  google_gcs_sdk = record {
    stat = google_stat;
    download = google_download;
    upload = google_upload;
    copy = google_copy;
    list = google_list;
  }
