-- ===== src/Batch/Gcs/Write.antt =====
-- What `GcsObjectStore.write_immutable` leaves in the storage.
use tech_challenge_fase2_alf.Batch.Memory.{bytes_eq}
use tech_challenge_fase2_alf.Batch.Errors.{BatchError}
use tech_challenge_fase2_alf.Prelude.Results.{Result, ok}
use tech_challenge_fase2_alf.Batch.Models.{Bytes, BronzeObject}
use tech_challenge_fase2_alf.Batch.Gcs.Laws.{
  Stored, GcsLaws, except_exists-holds, current_reads, current_finds,
}
use tech_challenge_fase2_alf.Prelude.{String, ◌≡◌, some, not, arith, ◌∙◌, ap}
use tech_challenge_fase2_alf.Prelude.Actions.{>>=-holds, guard-holds, raise_when, ◌>>◌, pure}
use tech_challenge_fase2_alf.Batch.Gcs.{
  GcsSdkBoundary, current, Bytes, GcsObjectVersion, Result, BatchError, write_immutable,
  BronzeObject, ok, raise_when, ImmutableUpload, bytes_eq, pure, existing_object,
}
use tech_challenge_fase2_alf.Batch.Gcs.Persist.{KeepsStored, keeps_current}

module _ {W : Type 0} (sdk : GcsSdkBoundary W) (stored : Stored W) (laws : GcsLaws sdk stored) where
  -- The payload is stored at the URI.
  abbrev pub Holds : String → Bytes → W → Type 0
  Holds uri payload w = (v : GcsObjectVersion) × (stored w uri ≡ some (v, payload))

  abbrev Written : W → String → Bytes → Result BatchError BronzeObject × W → Type 0
  Written w uri payload r =
      KeepsStored sdk stored laws w r.1 × ((b : BronzeObject) → r.0 ≡ ok b → Holds uri payload r.1)

  module _ (sha256_hex : Bytes → String) (crc32c_base64 : Bytes → String) where
    reused :
        (w v : W) (uri : String) (payload : Bytes) (e : BatchError) (x : GcsObjectVersion × Bytes)
        → KeepsStored sdk stored laws w v
        → (current sdk uri v).0 ≡ ok x
        → Written w uri payload (
            (raise_when (not (bytes_eq x.1 payload)) e
                >> pure (existing_object sdk sha256_hex crc32c_base64 uri x.0 x.1))
              (current sdk uri v).1)
    reused w v uri payload e x keeps q =
        let kept = keeps_current sdk stored laws w v uri keeps in
        guard-holds (Written w uri payload) (not (bytes_eq x.1 payload)) e
          (pure (existing_object sdk sha256_hex crc32c_base64 uri x.0 x.1)) (current sdk uri v).1
          (kept, λ b h. absurd (ground arith))
          (λ same. (
            kept,
            λ b h. (
              x.0,
              current_reads sdk stored laws uri v uri
                  ∙ current_finds sdk stored laws uri v x q
                  ∙ ap (λ p. some (x.0, p)) (ground arith),
            ),
          ))

    -- On a storage that obeys the laws: whatever `write_immutable` does, every object that was
    -- stored stays as it is, and where it returns, the payload is stored at the URI.
    pub write_immutable-Holds :
        (uri : String) (payload : Bytes) (w : W)
        → let r = write_immutable sdk sha256_hex crc32c_base64 uri payload w in
          KeepsStored sdk stored laws w r.1
          × ((b : BronzeObject) → r.0 ≡ ok b → Holds uri payload r.1)
    unfolding write_immutable
    write_immutable-Holds uri payload w =
        let upload : ImmutableUpload = record { uri = uri; payload = payload } in
        let w₁ = (sdk.upload upload w).1 in
        let keeps : KeepsStored sdk stored laws w w₁ = laws.upload_keeps upload w in
        except_exists-holds (Written w uri payload) (sdk.upload upload) _ w
          (λ b p. (keeps, λ c h. laws.upload_adds uri payload w b p))
          (λ e p. (keeps, λ c h. absurd (ground arith)))
          (λ e p.
            >>=-holds (Written w uri payload) (current sdk uri) _ w₁
              (λ x q. (keeps_current sdk stored laws w w₁ uri keeps, λ c h. absurd (ground arith)))
              (λ x q. reused w w₁ uri payload e x keeps q))
