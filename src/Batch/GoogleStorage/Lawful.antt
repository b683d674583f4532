-- ===== src/Batch/GoogleStorage/Lawful.antt =====
-- src/alfabetizacao_pipeline/batch/google_storage.py: the SDK keeps what the stores rely on.
use tech_challenge_fase2_alf.Batch.GoogleStorage.Uri.{split_gs_uri}
use tech_challenge_fase2_alf.Batch.Models.{Bytes}
use tech_challenge_fase2_alf.Batch.Gcs.{GcsObjectVersion, ImmutableDownload}
use tech_challenge_fase2_alf.Prelude.Results.{ok, Result, err}
use tech_challenge_fase2_alf.Batch.Errors.{BatchError, precondition_failed, stale_object_generation}
use tech_challenge_fase2_alf.Batch.GoogleStorage.{
  google_stat, BatchError, storage_call, is_transient, ok, Result, GcsObjectVersion,
  google_download, err, lift, Bytes, split_gs_uri, on_precondition, except_precondition,
  StoredVersion, raise, pure,
}
use tech_challenge_fase2_alf.Prelude.Actions.{Action, >>=-holds, lift, raise, ◌>>=◌, pure, continue}
use tech_challenge_fase2_alf.Batch.Retry.{RetryObserver}
use tech_challenge_fase2_alf.Batch.GoogleStorage.Native.{StorageClientBoundary, StoredVersion}
use tech_challenge_fase2_alf.Prelude.{
  ◌≡◌, String, Option, ℕ, ◌∙◌, arith, refl, some, ap, sym, subst,
}
use tech_challenge_fase2_alf.Batch.Gcs.Laws.{Stored}
use tech_challenge_fase2_alf.Batch.GoogleStorage.Live.{
  Live, StorageLaws, ObserverReads, stored_of, Same, object_at, under_uri, uri_version,
  object_at_inv,
}
use tech_challenge_fase2_alf.Batch.Retry.Rules.{retry_rule}

module _ {W A : Type 0} (P : Result BatchError A × W → Type 0) where
  on_precondition-holds :
      (r : Result BatchError A) (w : W) (handler : Action W BatchError A)
      → P (r, w)
      → (r ≡ err precondition_failed → P (handler w))
      → P (on_precondition r handler w)
  on_precondition-holds (ok a) w handler passes handles = passes
  on_precondition-holds (err precondition_failed) w handler passes handles = handles refl
  on_precondition-holds (err e) w handler passes handles = passes

  -- What holds where the outcome passes, and where it is a failed precondition that is handled.
  pub except_precondition-holds :
      (action handler : Action W BatchError A) (w : W)
      → P (action w)
      → ((action w).0 ≡ err precondition_failed → P (handler (action w).1))
      → P (except_precondition action handler w)
  except_precondition-holds action handler w =
      on_precondition-holds (action w).0 (action w).1 handler

module _ {W : Type 0} (client : StorageClientBoundary W) (check_netloc : String → Option String)
    (observer : Option (RetryObserver W)) (maximum_attempts : ℕ) (live : Live W)
    (laws : StorageLaws client live) (reads : ObserverReads live observer) where
  abbrev stored : Stored W
  stored = stored_of check_netloc live

  -- Calls with retries of an action that reads keep every object.
  retried_reads :
      {A : Type 0} (operation : String) (action : Action W BatchError A) (w : W)
      → ((v : W) → Same live v (action v).1)
      → Same live w
          (storage_call client check_netloc observer maximum_attempts operation action w).1
  retried_reads operation action w same =
      retry_rule is_transient operation action maximum_attempts observer (λ v. Same live w v)
        (λ v h b n. same v b n ∙ h b n) (λ event v h b n. reads event v b n ∙ h b n) w (λ b n. refl)
        (λ r. Same live w r.1) (λ v h b n. same v b n ∙ h b n) (λ e v h _. h)

  -- A result of calls with retries of an action that reads is one of the action, from a state with
  -- the same objects.
  retried_finds :
      {A : Type 0} (operation : String) (action : Action W BatchError A) (w : W)
      → ((v : W) → Same live v (action v).1)
      → (a : A)
      → (storage_call client check_netloc observer maximum_attempts operation action w).0 ≡ ok a
      → (v : W) × Same live w v × ((action v).0 ≡ ok a)
  retried_finds operation action w same a =
      retry_rule is_transient operation action maximum_attempts observer (λ v. Same live w v)
        (λ v h b n. same v b n ∙ h b n) (λ event v h b n. reads event v b n ∙ h b n) w (λ b n. refl)
        (λ r. r.0 ≡ ok a → (v : W) × Same live w v × ((action v).0 ≡ ok a))
        (λ v h found. (v, h, found)) (λ e v h _ p. absurd (ground arith))

  abbrev pub stat_call : String × String → Action W BatchError StoredVersion
  stat_call place =
      storage_call client check_netloc observer maximum_attempts "gcs.stat"
        (client.stat place.0 place.1)

  abbrev pub stat_result : String → StoredVersion → Action W BatchError GcsObjectVersion
  stat_result uri version = pure (record {
    uri = uri;
    generation = version.generation;
    metageneration = version.metageneration;
  })

  abbrev pub after_stat : String → String × String → Action W BatchError GcsObjectVersion
  after_stat uri place = stat_call place >>= stat_result uri

  pub google_stat_reads :
      (uri : String) (w : W)
      → Same live w (google_stat client check_netloc observer maximum_attempts uri w).1
  unfolding google_stat
  google_stat_reads uri w =
      >>=-holds (λ r. Same live w r.1) (lift (split_gs_uri check_netloc uri)) (after_stat uri) w
        (λ e p b n. refl)
        (λ place p.
          let same =
            retried_reads "gcs.stat" (client.stat place.0 place.1) w
              (λ v. laws.stat_reads place.0 place.1 v) in
          >>=-holds (λ r. Same live w r.1) (stat_call place) (stat_result uri) w (λ e q. same)
            (λ version q. same))

  pub google_stat_finds :
      (uri : String) (w : W) (v : GcsObjectVersion)
      → (google_stat client check_netloc observer maximum_attempts uri w).0 ≡ ok v
      → (b : Bytes) × (stored w uri ≡ some (v, b))
  unfolding google_stat
  google_stat_finds uri w v =
      >>=-holds (λ r. r.0 ≡ ok v → (b : Bytes) × (stored w uri ≡ some (v, b)))
        (lift (split_gs_uri check_netloc uri)) (after_stat uri) w (λ e p h. absurd (ground arith))
        (λ place p.
          >>=-holds (λ r. r.0 ≡ ok v → (b : Bytes) × (stored w uri ≡ some (v, b))) (stat_call place)
            (stat_result uri) w (λ e q h. absurd (ground arith))
            (λ version q h.
              let (w', same, found) =
                retried_finds "gcs.stat" (client.stat place.0 place.1) w
                  (λ v. laws.stat_reads place.0 place.1 v) version q in
              let (payload, kept) = laws.stat_finds place.0 place.1 w' version found in
              (
                payload,
                ap (object_at live w uri) p
                    ∙ ap (under_uri uri) (sym (same place.0 place.1) ∙ kept)
                    ∙ ap (λ x. some (x, payload)) cc,
              )))

  abbrev download_call : ImmutableDownload → String × String → Action W BatchError Bytes
  download_call request place =
      storage_call client check_netloc observer maximum_attempts "gcs.download"
        (client.download place.0 place.1 request.version.generation request.version.metageneration)

  abbrev after_download : ImmutableDownload → String × String → Action W BatchError Bytes
  after_download request place =
      except_precondition (download_call request place)
        (raise (stale_object_generation request.version.uri))

  pub google_download_reads :
      (request : ImmutableDownload) (w : W)
      → Same live w (google_download client check_netloc observer maximum_attempts request w).1
  unfolding google_download
  google_download_reads request w =
      >>=-holds (λ r. Same live w r.1) (lift (split_gs_uri check_netloc request.version.uri))
        (after_download request) w (λ e p b n. refl)
        (λ place p.
          let same =
            retried_reads "gcs.download"
              (client.download place.0 place.1 request.version.generation
                request.version.metageneration)
              w
              (λ v.
                laws.download_reads place.0 place.1 request.version.generation
                  request.version.metageneration v) in
          except_precondition-holds (λ r. Same live w r.1) (download_call request place)
            (raise (stale_object_generation request.version.uri)) w same (λ q. same))

  download_finds_at :
      (uri : String) (place : String × String) (version : StoredVersion) (w : W)
      (payload kept : Bytes)
      → split_gs_uri check_netloc uri ≡ ok place
      → live w place.0 place.1 ≡ some (version, kept)
      → (google_download client check_netloc observer maximum_attempts
          (record { version = uri_version uri version })
          w).0
        ≡ ok payload
      → kept ≡ payload
  unfolding google_download
  download_finds_at uri place version w payload kept split here h =
      let request : ImmutableDownload = record { version = uri_version uri version } in
      let action = client.download place.0 place.1 version.generation version.metageneration in
      except_precondition-holds (λ r. r.0 ≡ ok payload → kept ≡ payload)
        (download_call request place) (raise (stale_object_generation uri)) w
        (λ q.
          let (w', same, found) =
            retried_finds "gcs.download" action w
              (λ v. laws.download_reads place.0 place.1 version.generation version.metageneration v)
              payload q in
          laws.download_finds place.0 place.1 version w' payload kept found
            (same place.0 place.1 ∙ here))
        (λ q e. absurd (ground arith))
        (sym (ap (λ r. (continue r (after_download request) w).0) split) ∙ h)

  pub google_download_finds :
      (v : GcsObjectVersion) (w : W) (b : Bytes) (uri : String) (b' : Bytes)
      → (google_download client check_netloc observer maximum_attempts (record { version = v }) w).0
        ≡ ok b
      → stored w uri ≡ some (v, b')
      → b' ≡ b
  google_download_finds v w b uri b' h kept =
      let (place, version, split, here, same) =
        object_at_inv live w uri (split_gs_uri check_netloc uri) v b' kept in
      download_finds_at uri place version w b b' split here (
        subst
          (λ x.
            (google_download client check_netloc observer maximum_attempts (record { version = x })
              w).0
            ≡ ok b)
          same h)
