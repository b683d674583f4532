-- ===== src/Batch/Gcs/Laws.antt =====
-- What the stores rely on of the storage SDK, as Google documents it: metadata and reads change
-- nothing and are those of the stored generation, and an upload on the precondition that no object
-- is there never replaces one.
use tech_challenge_fase2_alf.Batch.Models.{Bytes, BronzeObject}
use tech_challenge_fase2_alf.Batch.Errors.{BatchError, immutable_object_exists}
use tech_challenge_fase2_alf.Prelude.Results.{Result, ok, err}
use tech_challenge_fase2_alf.Batch.Gcs.{
  GcsSdkBoundary, GcsObjectVersion, current, BatchError, Bytes, ok, Action, err, ImmutableDownload,
  on_exists, except_exists, BronzeObject, ImmutableUpload,
}
use tech_challenge_fase2_alf.Prelude.{String, Option, ◌≡◌, ◌∙◌, some, arith, refl}
use tech_challenge_fase2_alf.Prelude.Actions.{>>=-holds, Action}

-- The live version and the bytes of each object.
abbrev pub Stored : Type 0 → Type 0
Stored W = W → String → Option (GcsObjectVersion × Bytes)

pub record GcsLaws {W : Type 0} (sdk : GcsSdkBoundary W) (stored : Stored W) : Type 0 where
  pub stat_reads : (uri : String) (w : W) (u : String) → stored (sdk.stat uri w).1 u ≡ stored w u
  pub stat_finds :
      (uri : String) (w : W) (v : GcsObjectVersion)
      → (sdk.stat uri w).0 ≡ ok v
      → (b : Bytes) × (stored w uri ≡ some (v, b))
  pub download_reads :
      (request : ImmutableDownload) (w : W) (u : String)
      → stored (sdk.download request w).1 u ≡ stored w u
  pub download_finds :
      (v : GcsObjectVersion) (w : W) (b : Bytes) (uri : String) (b' : Bytes)
      → (sdk.download (record { version = v }) w).0 ≡ ok b
      → stored w uri ≡ some (v, b')
      → b' ≡ b
  pub upload_adds :
      (uri : String) (payload : Bytes) (w : W) (b : BronzeObject)
      → (sdk.upload (record { uri = uri; payload = payload }) w).0 ≡ ok b
      → (v : GcsObjectVersion) × (stored
            (sdk.upload (record { uri = uri; payload = payload }) w).1
            uri
          ≡ some (v, payload))
  pub upload_keeps :
      (request : ImmutableUpload) (w : W) (u : String) (x : GcsObjectVersion × Bytes)
      → stored w u ≡ some x
      → stored (sdk.upload request w).1 u ≡ some x

module _ {W : Type 0} (sdk : GcsSdkBoundary W) (stored : Stored W) (laws : GcsLaws sdk stored) where
  pub current_reads :
      (uri : String) (w : W) (u : String) → stored (current sdk uri w).1 u ≡ stored w u
  unfolding current
  current_reads uri w u =
      >>=-holds (λ r. stored r.1 u ≡ stored w u) (sdk.stat uri) _ w (λ e p. laws.stat_reads uri w u)
        (λ v p.
          >>=-holds (λ r. stored r.1 u ≡ stored w u) (sdk.download (record { version = v })) _
            (sdk.stat uri w).1
            (λ e q.
              laws.download_reads (record { version = v }) (sdk.stat uri w).1 u
              ∙ laws.stat_reads uri w u)
            (λ b q.
              laws.download_reads (record { version = v }) (sdk.stat uri w).1 u
              ∙ laws.stat_reads uri w u))

  -- What is read is what is stored.
  pub current_finds :
      (uri : String) (w : W) (x : GcsObjectVersion × Bytes)
      → (current sdk uri w).0 ≡ ok x
      → stored w uri ≡ some x
  unfolding current
  current_finds uri w x =
      >>=-holds (λ r. r.0 ≡ ok x → stored w uri ≡ some x) (sdk.stat uri) _ w
        (λ e p h. absurd (ground arith))
        (λ v p.
          >>=-holds (λ r. r.0 ≡ ok x → stored w uri ≡ some x)
            (sdk.download (record { version = v })) _ (sdk.stat uri w).1
            (λ e q h. absurd (ground arith))
            (λ b q h.
              let (b', found) = laws.stat_finds uri w v p in
              let same : b' ≡ b =
                laws.download_finds v (sdk.stat uri w).1 b uri b' q
                  (laws.stat_reads uri w uri ∙ found) in
              ground arith))

module _ {W A : Type 0} (P : Result BatchError A × W → Type 0) where
  on_exists-holds :
      (r : Result BatchError A) (w : W) (handler : BatchError → Action W BatchError A)
      → ((a : A) → r ≡ ok a → P (ok a, w))
      → ((e : BatchError) → r ≡ err e → P (err e, w))
      → ((e : BatchError) → r ≡ err e → P (handler e w))
      → P (on_exists r handler w)
  on_exists-holds (ok a) w handler returns raises handles = returns a refl
  on_exists-holds (err (immutable_object_exists uri)) w handler returns raises handles =
      handles (immutable_object_exists uri) refl
  on_exists-holds (err e) w handler returns raises handles = raises e refl

  -- What holds where the action returns, where its exception passes, and where it is handled.
  pub except_exists-holds :
      (action : Action W BatchError A) (handler : BatchError → Action W BatchError A) (w : W)
      → ((a : A) → (action w).0 ≡ ok a → P (ok a, (action w).1))
      → ((e : BatchError) → (action w).0 ≡ err e → P (err e, (action w).1))
      → ((e : BatchError) → (action w).0 ≡ err e → P (handler e (action w).1))
      → P (except_exists action handler w)
  except_exists-holds action handler w returns raises handles =
      on_exists-holds (action w).0 (action w).1 handler returns raises handles
