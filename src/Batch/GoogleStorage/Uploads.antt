-- ===== src/Batch/GoogleStorage/Uploads.antt =====
-- src/alfabetizacao_pipeline/batch/google_storage.py: uploads, and the laws of the whole SDK.
use tech_challenge_fase2_alf.Batch.GoogleStorage.Uri.{split_gs_uri}
use tech_challenge_fase2_alf.Prelude.Results.{ok, Result}
use tech_challenge_fase2_alf.Batch.Errors.{BatchError, immutable_object_exists}
use tech_challenge_fase2_alf.Batch.Retry.Rules.{retry_rule}
use tech_challenge_fase2_alf.Batch.Models.{Bytes, BronzeObject}
use tech_challenge_fase2_alf.Prelude.Actions.{Action, >>=-holds, pure, lift, ◌>>=◌, raise}
use tech_challenge_fase2_alf.Batch.GoogleStorage.{
  google_upload, google_gcs_sdk, Action, StoredBlob, Bytes, BronzeObject, BatchError, is_transient,
  ok, storage_call, except_precondition, pure, lift, raise, written_object, split_gs_uri, Result,
}
use tech_challenge_fase2_alf.Batch.Gcs.{ImmutableUpload, GcsObjectVersion}
use tech_challenge_fase2_alf.Batch.Retry.{RetryObserver}
use tech_challenge_fase2_alf.Batch.GoogleStorage.Native.{
  StorageClientBoundary, StoredVersion, StoredBlob,
}
use tech_challenge_fase2_alf.Prelude.{◌≡◌, String, Option, ℕ, some, ◌∙◌, arith, ap, sym}
use tech_challenge_fase2_alf.Batch.Gcs.Laws.{GcsLaws}
use tech_challenge_fase2_alf.Batch.GoogleStorage.Live.{
  Live, StorageLaws, ObserverReads, stored_of, stored_of-Same, object_at, under_uri, object_at_inv,
  uri_version,
}
use tech_challenge_fase2_alf.Batch.GoogleStorage.Lawful.{
  google_stat_reads, google_stat_finds, google_download_reads, google_download_finds,
  except_precondition-holds,
}

module _ {W : Type 0} (client : StorageClientBoundary W) (check_netloc : String → Option String)
    (observer : Option (RetryObserver W)) (maximum_attempts : ℕ) (live : Live W)
    (laws : StorageLaws client live) (reads : ObserverReads live observer) where
  abbrev upload_call : ImmutableUpload → String × String → Action W BatchError StoredBlob
  upload_call request place =
      storage_call client check_netloc observer maximum_attempts "gcs.upload"
        (client.upload_immutable place.0 place.1 request.payload)

  abbrev created : ImmutableUpload → String × String → Action W BatchError StoredBlob
  created request place =
      except_precondition (upload_call request place) (raise (immutable_object_exists request.uri))

  abbrev upload_result : ImmutableUpload → StoredBlob → Action W BatchError BronzeObject
  upload_result request blob =
      pure (written_object client check_netloc observer maximum_attempts request.uri blob)

  abbrev after_upload : ImmutableUpload → String × String → Action W BatchError BronzeObject
  after_upload request place = created request place >>= upload_result request

  -- What is kept by an upload.
  abbrev Keeps : W → W → Type 0
  Keeps w w' =
      (b n : String) (x : StoredVersion × Bytes) → live w b n ≡ some x → live w' b n ≡ some x

  upload_call-Keeps :
      (request : ImmutableUpload) (place : String × String) (w : W)
      → Keeps w (upload_call request place w).1
  upload_call-Keeps request place w =
      retry_rule is_transient "gcs.upload" (client.upload_immutable place.0 place.1 request.payload)
        maximum_attempts observer (Keeps w)
        (λ v h b n x p. laws.upload_keeps place.0 place.1 request.payload v b n x (h b n x p))
        (λ event v h b n x p. reads event v b n ∙ h b n x p) w (λ b n x p. p) (λ r. Keeps w r.1)
        (λ v h b n x p. laws.upload_keeps place.0 place.1 request.payload v b n x (h b n x p))
        (λ e v h _. h)

  google_upload-Keeps :
      (request : ImmutableUpload) (w : W)
      → Keeps w (google_upload client check_netloc observer maximum_attempts request w).1
  unfolding google_upload
  google_upload-Keeps request w =
      >>=-holds (λ r. Keeps w r.1) (lift (split_gs_uri check_netloc request.uri))
        (after_upload request) w (λ e p b n x q. q)
        (λ place p.
          let kept =
            except_precondition-holds (λ r. Keeps w r.1) (upload_call request place)
              (raise (immutable_object_exists request.uri)) w (upload_call-Keeps request place w)
              (λ q. upload_call-Keeps request place w) in
          >>=-holds (λ r. Keeps w r.1) (created request place) (upload_result request) w
            (λ e q. kept) (λ blob q. kept))

  upload_call_adds :
      (request : ImmutableUpload) (place : String × String) (w : W) (blob : StoredBlob)
      → (upload_call request place w).0 ≡ ok blob
      → (v : StoredVersion) × (live (upload_call request place w).1 place.0 place.1
          ≡ some (v, request.payload))
  upload_call_adds request place w blob =
      retry_rule is_transient "gcs.upload" (client.upload_immutable place.0 place.1 request.payload)
        maximum_attempts observer (λ v. Unit {0}) (λ v h. tt) (λ event v h. tt) w tt
        (λ r.
          r.0 ≡ ok blob
          → (v : StoredVersion) × (live r.1 place.0 place.1 ≡ some (v, request.payload)))
        (λ v h p. laws.upload_adds place.0 place.1 request.payload v blob p)
        (λ e v h _ p. absurd (ground arith))

  google_upload_adds :
      (request : ImmutableUpload) (w : W) (b : BronzeObject)
      → (google_upload client check_netloc observer maximum_attempts request w).0 ≡ ok b
      → (v : GcsObjectVersion) × (stored_of check_netloc live
            (google_upload client check_netloc observer maximum_attempts request w).1
            request.uri
          ≡ some (v, request.payload))
  unfolding google_upload
  google_upload_adds request w b =
      >>=-holds Adds (lift (split_gs_uri check_netloc request.uri)) (after_upload request) w
        (λ e p h. absurd (ground arith))
        (λ place p.
          >>=-holds Adds (created request place) (upload_result request) w
            (λ e q h. absurd (ground arith))
            (λ blob q h.
              let (v, kept) =
                except_precondition-holds
                  (λ r.
                    r.0 ≡ ok blob
                    → (v : StoredVersion) × (live r.1 place.0 place.1 ≡ some (v, request.payload)))
                  (upload_call request place) (raise (immutable_object_exists request.uri)) w
                  (upload_call_adds request place w blob) (λ q' h'. absurd (ground arith)) q in
              (
                uri_version request.uri v,
                ap (object_at live (created request place w).1 request.uri) p
                    ∙ ap (under_uri request.uri) kept,
              )))
    where
      Adds : Result BatchError BronzeObject × W → Type 0
      Adds r =
          r.0 ≡ ok b
          → (v : GcsObjectVersion) × (stored_of check_netloc live r.1 request.uri
              ≡ some (v, request.payload))

  -- Over a client that obeys the documented behaviour of the storage service, and with an
  -- observer of retries that writes no object, the storage SDK of production has the laws that
  -- the object store and the manifest store rely on, whatever the number of attempts.
  pub google_gcs_sdk-GcsLaws :
      GcsLaws
        (google_gcs_sdk client check_netloc observer maximum_attempts)
        (stored_of check_netloc live)
  google_gcs_sdk-GcsLaws = record {
    stat_reads = λ uri w u.
        stored_of-Same check_netloc live w _
          (google_stat_reads client check_netloc observer maximum_attempts live laws reads uri w) u;
    stat_finds = google_stat_finds client check_netloc observer maximum_attempts live laws reads;
    download_reads = λ request w u.
        stored_of-Same check_netloc live w _
          (google_download_reads client check_netloc observer maximum_attempts live laws reads
            request w)
          u;
    download_finds =
        google_download_finds client check_netloc observer maximum_attempts live laws reads;
    upload_adds =
        λ uri payload w b h. google_upload_adds (record { uri = uri; payload = payload }) w b h;
    upload_keeps = λ request w u x p.
        let w' = (google_upload client check_netloc observer maximum_attempts request w).1 in
        let (at, version, split, here, same) =
          object_at_inv live w u (split_gs_uri check_netloc u) x.0 x.1 p in
        ap (object_at live w' u) split
        ∙ ap (under_uri u) (google_upload-Keeps request w at.0 at.1 (version, x.1) here)
        ∙ ap (λ v. some (v, x.1)) (sym same);
  }
