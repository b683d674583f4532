-- ===== src/Batch/GoogleStorage/Copies.antt =====
-- src/alfabetizacao_pipeline/batch/google_storage.py: what a copy that fails says of the source.
use tech_challenge_fase2_alf.Batch.Models.{Bytes}
use tech_challenge_fase2_alf.Prelude.Results.{err, Result, ok}
use tech_challenge_fase2_alf.Batch.Retry.{RetryObserver, RetryEvent, consumer_of}
use tech_challenge_fase2_alf.Batch.Gcs.{ImmutableCopy}
use tech_challenge_fase2_alf.Batch.GoogleStorage.Live.{Live}
use tech_challenge_fase2_alf.Batch.GoogleStorage.Native.{
  StorageClientBoundary, StoredVersion, StorageCopyRequest,
}
use tech_challenge_fase2_alf.Batch.Errors.{
  BatchError, immutable_object_exists, stale_object_generation, not_found,
}
use tech_challenge_fase2_alf.Prelude.{
  ◌≡◌, Bool, Option, String, true, false, arith, none, some, subst, ℕ, ◌≢◌,
}

-- The errors that the SDK makes of a failed precondition.
abbrev pub is_classified : BatchError → Bool
is_classified (immutable_object_exists uri) = true
is_classified (stale_object_generation uri) = true
is_classified _ = false

-- What the SDK relies on of the errors of a client, and of the observer of retries.
pub record CopyErrors {W : Type 0} (client : StorageClientBoundary W) (live : Live W)
    (observer : Option (RetryObserver W)) : Type 0 where
  pub stat_raises :
      (bucket name : String) (w : W) (e : BatchError)
      → (client.stat bucket name w).0 ≡ err e
      → is_classified e ≡ false
  pub stat_misses :
      (bucket name : String) (w : W)
      → (client.stat bucket name w).0 ≡ err not_found
      → live w bucket name ≡ none
  pub copy_raises :
      (request : StorageCopyRequest) (w : W) (e : BatchError)
      → (client.copy_immutable request w).0 ≡ err e
      → is_classified e ≡ false
  pub observer_returns : (event : RetryEvent) (w : W) → (consumer_of observer event w).0 ≡ ok tt

abbrev pub generation_of : Option (StoredVersion × Bytes) → Option ℕ
generation_of none = none
generation_of (some object) = some object.0.generation

-- The generation of the object that a place has.
abbrev pub generation_at : {W : Type 0} → Live W → W → String × String → Option ℕ
generation_at live w at = generation_of (live w at.0 at.1)

-- An error of a copy: the destination is said to exist only where the source still has the
-- generation that was asked for, and the source is said to be stale only where it has not.
abbrev pub IsClassified :
    {W : Type 0} → Live W → ImmutableCopy → String × String → BatchError → W → Type 0
IsClassified live request at (immutable_object_exists uri) w =
    (uri ≡ request.destination_uri) × (generation_at live w at ≡ some request.source.generation)
IsClassified live request at (stale_object_generation uri) w =
    (uri ≡ request.source.uri) × (generation_at live w at ≢ some request.source.generation)
IsClassified live request at _ w = Unit {0}

module _ {W : Type 0} (live : Live W) (request : ImmutableCopy) (at : String × String) where
  -- Whatever error an action ends with, it is right.
  abbrev pub Classifies : {A : Type 0} → Result BatchError A × W → Type 0
  Classifies r = (e : BatchError) → r.0 ≡ err e → IsClassified live request at e r.1

  pub other-IsClassified :
      (e : BatchError) (w : W) → is_classified e ≡ false → IsClassified live request at e w
  other-IsClassified (immutable_object_exists uri) w h = absurd (ground arith)
  other-IsClassified (stale_object_generation uri) w h = absurd (ground arith)
  other-IsClassified _ w h = tt

  pub err-Classifies :
      {A : Type 0} (e : BatchError) (w : W)
      → IsClassified live request at e w
      → Classifies {A = A} (err e, w)
  err-Classifies e w h e' p = subst (λ x. IsClassified live request at x w) (ground arith) h
