-- ===== src/Batch/Gcs/Persist.antt =====
-- What `GcsManifestStore.persist` and `GcsObjectStore.write_immutable` leave in the storage.
use tech_challenge_fase2_alf.Batch.Memory.{bytes_eq}
use tech_challenge_fase2_alf.Batch.Errors.{BatchError, manifest_conflict}
use tech_challenge_fase2_alf.Prelude.Results.{Result, ok}
use tech_challenge_fase2_alf.Batch.Models.{Bytes, BatchManifest, Instant}
use tech_challenge_fase2_alf.Batch.Gcs.Laws.{
  Stored, GcsLaws, current_reads, except_exists-holds, current_finds,
}
use tech_challenge_fase2_alf.Prelude.{
  String, ◌≡◌, ◌∙◌, some, not, Bool-cases, inl, arith, inr, refl,
}
use tech_challenge_fase2_alf.Prelude.Actions.{>>=-holds, raise_when}
use tech_challenge_fase2_alf.Batch.Gcs.{
  GcsSdkBoundary, current, GcsObjectVersion, Bytes, BatchManifest, Instant, Result,
  persist_manifest, BatchError, checkpoint_uri, ok, ImmutableUpload, create, raise_when, bytes_eq,
}

module _ {W : Type 0} (sdk : GcsSdkBoundary W) (stored : Stored W) (laws : GcsLaws sdk stored) where
  -- Every object that is stored stays as it is.
  abbrev pub KeepsStored : W → W → Type 0
  KeepsStored w w' =
      (u : String) (x : GcsObjectVersion × Bytes) → stored w u ≡ some x → stored w' u ≡ some x

  pub keeps_current :
      (w v : W) (uri : String) → KeepsStored w v → KeepsStored w (current sdk uri v).1
  keeps_current w v uri h u x p = current_reads sdk stored laws uri v u ∙ h u x p

  create-KeepsStored : (request : ImmutableUpload) (w : W) → KeepsStored w (create sdk request w).1
  unfolding create
  create-KeepsStored request w =
      >>=-holds (λ r. KeepsStored w r.1) (sdk.upload request) _ w
        (λ e p. laws.upload_keeps request w) (λ b p. laws.upload_keeps request w)

  create_adds :
      (uri : String) (payload : Bytes) (w : W)
      → (create sdk (record { uri = uri; payload = payload }) w).0 ≡ ok tt
      → (v : GcsObjectVersion) × (stored
            (create sdk (record { uri = uri; payload = payload }) w).1
            uri
          ≡ some (v, payload))
  unfolding create
  create_adds uri payload w =
      >>=-holds (λ r. r.0 ≡ ok tt → (v : GcsObjectVersion) × (stored r.1 uri ≡ some (v, payload)))
        (sdk.upload (record { uri = uri; payload = payload })) _ w (λ e p h. absurd (ground arith))
        (λ b p h. laws.upload_adds uri payload w b p)

  module _ (prefix : String) (sha256 : Bytes → Bytes) (dump : BatchManifest → Bytes)
      (timestamp : Instant → String) where
    -- A manifest with the same hash is stored at the URI.
    abbrev pub IsRecorded : BatchManifest → String → W → Type 0
    IsRecorded m uri w =
        (x : GcsObjectVersion × Bytes) × (stored w uri ≡ some x) × (sha256 x.1 ≡ sha256 (dump m))

    abbrev Persisted : W → BatchManifest → String → Result BatchError (Unit {0}) × W → Type 0
    Persisted w m uri r = KeepsStored w r.1 × (r.0 ≡ ok tt → IsRecorded m uri r.1)

    compared :
        (m : BatchManifest) (w v : W) (uri : String) (x : GcsObjectVersion × Bytes)
        → KeepsStored w v
        → (current sdk uri v).0 ≡ ok x
        → Persisted w m uri (
            raise_when
              (not (bytes_eq (sha256 x.1) (sha256 (dump m))))
              (manifest_conflict uri)
              (current sdk uri v).1)
    compared m w v uri x keeps q = elim (Bool-cases (bytes_eq (sha256 x.1) (sha256 (dump m)))) [
      | inl same ↦ rw same (
        keeps_current w v uri keeps,
        λ h. (
          x,
          current_reads sdk stored laws uri v uri ∙ current_finds sdk stored laws uri v x q,
          ground arith,
        ),
      )
      | inr differ ↦ rw differ (keeps_current w v uri keeps, λ h. absurd (ground arith))
    ]

    -- On a storage that obeys the laws: whatever `persist` does, every object that was stored stays
    -- as it is, and where it returns, a manifest with the hash of the given one is stored at its
    -- checkpoint.
    pub persist_manifest-Persisted :
        (m : BatchManifest) (w : W)
        → let uri = checkpoint_uri prefix timestamp m in
          let r = persist_manifest sdk prefix sha256 dump timestamp m w in
          KeepsStored w r.1 × (r.0 ≡ ok tt → IsRecorded m uri r.1)
    unfolding persist_manifest
    persist_manifest-Persisted m w =
        let uri = checkpoint_uri prefix timestamp m in
        let upload : ImmutableUpload = record { uri = uri; payload = dump m } in
        let w₁ = (create sdk upload w).1 in
        let keeps : KeepsStored w w₁ = create-KeepsStored upload w in
        except_exists-holds (Persisted w m uri) (create sdk upload) _ w
          (λ a p. (
            keeps,
            λ h. let (v, there) = create_adds uri (dump m) w p in ((v, dump m), there, refl),
          ))
          (λ e p. (keeps, λ h. absurd (ground arith)))
          (λ e p.
            >>=-holds (Persisted w m uri) (current sdk uri) _ w₁
              (λ x q. (keeps_current w w₁ uri keeps, λ h. absurd (ground arith)))
              (λ x q. compared m w w₁ uri x keeps q))
