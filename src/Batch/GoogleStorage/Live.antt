-- ===== src/Batch/GoogleStorage/Live.antt =====
-- What the SDK relies on of a client of the storage service, as Google documents the service: reads
-- change nothing and are those of the live generation, and an upload that requires generation zero
-- never replaces an object. The observer of retries writes no objects.
use mathlib.Core.Option.{some-injective}
use tech_challenge_fase2_alf.Batch.Errors.{BatchError}
use tech_challenge_fase2_alf.Batch.Gcs.{GcsObjectVersion}
use tech_challenge_fase2_alf.Batch.Gcs.Laws.{Stored}
use tech_challenge_fase2_alf.Batch.Retry.{RetryObserver, RetryEvent, consumer_of}
use tech_challenge_fase2_alf.Prelude.Results.{ok, Result, err}
use tech_challenge_fase2_alf.Batch.Models.{Bytes}
use tech_challenge_fase2_alf.Prelude.{◌≡◌, String, Option, some, ℕ, none, ap, refl, arith, sym}
use tech_challenge_fase2_alf.Batch.GoogleStorage.Native.{
  StorageClientBoundary, StoredVersion, StoredBlob,
}
use tech_challenge_fase2_alf.Batch.GoogleStorage.Uri.{split_gs_uri}

-- The live version and the bytes of each object, by bucket and name.
abbrev pub Live : Type 0 → Type 0
Live W = W → String → String → Option (StoredVersion × Bytes)

pub record StorageLaws {W : Type 0} (client : StorageClientBoundary W) (live : Live W)
    : Type 0 where
  pub stat_reads :
      (bucket name : String) (w : W) (b n : String)
      → live (client.stat bucket name w).1 b n ≡ live w b n
  pub stat_finds :
      (bucket name : String) (w : W) (v : StoredVersion)
      → (client.stat bucket name w).0 ≡ ok v
      → (payload : Bytes) × (live w bucket name ≡ some (v, payload))
  pub download_reads :
      (bucket name : String) (generation metageneration : ℕ) (w : W) (b n : String)
      → live (client.download bucket name generation metageneration w).1 b n ≡ live w b n
  pub download_finds :
      (bucket name : String) (v : StoredVersion) (w : W) (payload stored : Bytes)
      → (client.download bucket name v.generation v.metageneration w).0 ≡ ok payload
      → live w bucket name ≡ some (v, stored)
      → stored ≡ payload
  pub upload_adds :
      (bucket name : String) (payload : Bytes) (w : W) (blob : StoredBlob)
      → (client.upload_immutable bucket name payload w).0 ≡ ok blob
      → (v : StoredVersion) × (live (client.upload_immutable bucket name payload w).1 bucket name
          ≡ some (v, payload))
  pub upload_keeps :
      (bucket name : String) (payload : Bytes) (w : W) (b n : String) (x : StoredVersion × Bytes)
      → live w b n ≡ some x
      → live (client.upload_immutable bucket name payload w).1 b n ≡ some x

abbrev pub ObserverReads : {W : Type 0} → Live W → Option (RetryObserver W) → Type 0
ObserverReads {W} live observer =
    (event : RetryEvent) (w : W) (b n : String)
    → live (consumer_of observer event w).1 b n ≡ live w b n

abbrev pub uri_version : String → StoredVersion → GcsObjectVersion
uri_version uri version = record {
  uri = uri;
  generation = version.generation;
  metageneration = version.metageneration;
}

-- The version and the bytes, under the URI.
abbrev pub under_uri : String → Option (StoredVersion × Bytes) → Option (GcsObjectVersion × Bytes)
under_uri uri none = none
under_uri uri (some (v, payload)) =
    some
      (record { uri = uri; generation = v.generation; metageneration = v.metageneration }, payload)

-- The object of a URI, if it has a bucket and a name.
abbrev pub object_at :
    {W : Type 0}
    → Live W
    → W
    → String
    → Result BatchError (String × String)
    → Option (GcsObjectVersion × Bytes)
object_at live w uri (err e) = none
object_at live w uri (ok (bucket, name)) = under_uri uri (live w bucket name)

-- What the stores see of the service.
abbrev pub stored_of : {W : Type 0} → (String → Option String) → Live W → Stored W
stored_of check_netloc live w uri = object_at live w uri (split_gs_uri check_netloc uri)

-- Two states with the same objects.
abbrev pub Same : {W : Type 0} → Live W → W → W → Type 0
Same live w w' = (b n : String) → live w' b n ≡ live w b n

pub stored_of-Same :
    {W : Type 0} (check_netloc : String → Option String) (live : Live W) (w w' : W)
    → Same live w w'
    → (uri : String) → stored_of check_netloc live w' uri ≡ stored_of check_netloc live w uri
stored_of-Same check_netloc live w w' same uri = go (split_gs_uri check_netloc uri)
  where
    go :
        (place : Result BatchError (String × String))
        → object_at live w' uri place ≡ object_at live w uri place
    go (err e) = refl
    go (ok (bucket, name)) = ap (under_uri uri) (same bucket name)

under_uri_inv :
    (uri : String) (found : Option (StoredVersion × Bytes)) (v : GcsObjectVersion) (payload : Bytes)
    → under_uri uri found ≡ some (v, payload)
    → (version : StoredVersion) × (found ≡ some (version, payload)) × (v ≡ uri_version uri version)
under_uri_inv uri none v payload h = absurd (ground arith)
under_uri_inv uri (some (version, stored)) v payload h =
    let same = some-injective _ _ h in
    (version, ap (λ x. some (version, x)) (ap (λ p. p.1) same), sym (ap (λ p. p.0) same))

-- What is stored under a URI is stored under its bucket and its name.
pub object_at_inv :
    {W : Type 0} (live : Live W) (w : W) (uri : String)
    (place : Result BatchError (String × String)) (v : GcsObjectVersion) (payload : Bytes)
    → object_at live w uri place ≡ some (v, payload)
    → (at : String × String) × (version : StoredVersion) × (place ≡ ok at)
      × (live w at.0 at.1 ≡ some (version, payload))
      × (v ≡ uri_version uri version)
object_at_inv live w uri (err e) v payload h = absurd (ground arith)
object_at_inv live w uri (ok (bucket, name)) v payload h =
    let (version, here, same) = under_uri_inv uri (live w bucket name) v payload h in
    ((bucket, name), version, refl, here, same)
