-- ===== src/Batch/Memory/Objects.antt =====
-- The object store never changes what it holds.
use tech_challenge_fase2_alf.Prelude.Actions.{continue}
use tech_challenge_fase2_alf.Batch.Errors.{BatchError}
use tech_challenge_fase2_alf.Prelude.Results.{ok, Result}
use tech_challenge_fase2_alf.Prelude.Dict.{get, get-put}
use tech_challenge_fase2_alf.Batch.Models.{Bytes, ObjectVersion, BronzeObject, checked_bronze}
use tech_challenge_fase2_alf.Prelude.{String, arith, ◌≡◌, some, string_eq, refl}
use tech_challenge_fase2_alf.Batch.Memory.{
  InMemoryObjectStore, write_over, write_object, copy_object, bronze_object, item, Bytes, get,
  ObjectVersion, BronzeObject, ok, Result, pinned_payload, BatchError, continue, err,
}

-- What a store holds stays as it is, with its generation.
abbrev pub Preserves : InMemoryObjectStore → InMemoryObjectStore → Type 0
Preserves s s' =
    (uri : String) (payload : Bytes)
    → get uri s.payloads ≡ some payload
    → (get uri s'.payloads ≡ some payload) × (get uri s'.generations ≡ get uri s.generations)

module _ (sha256_hex : Bytes → String) (crc32c_base64 : Bytes → String) where
  write_object-Preserves :
      (uri : String) (payload : Bytes) (s : InMemoryObjectStore)
      → Preserves s (write_object sha256_hex crc32c_base64 uri payload s).1
  unfolding write_object write_over
  write_object-Preserves uri payload s u p h =
      ground (arith, get-put u uri payload s.payloads, get-put u uri 1 s.generations)

  continue-Preserves :
      (r : Result BatchError Bytes) (destination : String) (s : InMemoryObjectStore)
      → Preserves s (continue r (write_object sha256_hex crc32c_base64 destination) s).1
  continue-Preserves (ok payload) destination s = write_object-Preserves destination payload s
  continue-Preserves (err e) destination s = λ u p h. (h, refl)

  -- Whatever a copy returns or raises, every object of the store keeps its bytes and its
  -- generation.
  pub copy_object-Preserves :
      (source : ObjectVersion) (destination : String) (s : InMemoryObjectStore)
      → Preserves s (copy_object sha256_hex crc32c_base64 source destination s).1
  unfolding copy_object
  copy_object-Preserves source destination s =
      continue-Preserves (pinned_payload sha256_hex crc32c_base64 source s) destination s

  pinned_payload_inv :
      (source : ObjectVersion) (s : InMemoryObjectStore) (payload : Bytes)
      → pinned_payload sha256_hex crc32c_base64 source s ≡ ok payload
      → (get source.uri s.payloads ≡ some payload)
        × (get source.uri s.generations ≡ some source.generation)
        × (sha256_hex payload ≡ source.payload_sha256)
  unfolding pinned_payload item
  pinned_payload_inv source s payload h = ground arith

  -- A write that succeeds leaves the bytes under the URI, and returns their metadata.
  write_object-writes :
      (uri : String) (payload : Bytes) (s : InMemoryObjectStore) (b : BronzeObject)
      → (write_object sha256_hex crc32c_base64 uri payload s).0 ≡ ok b
      → (get uri (write_object sha256_hex crc32c_base64 uri payload s).1.payloads ≡ some payload)
        × (b ≡ bronze_object sha256_hex crc32c_base64 uri payload)
  unfolding write_object write_over checked_bronze
  write_object-writes uri payload s b h = ground (arith, get-put uri uri payload s.payloads)

  -- What a successful copy has checked and done.
  abbrev pub Copied :
      ObjectVersion → String → InMemoryObjectStore → InMemoryObjectStore → BronzeObject → Type 0
  Copied source destination s s' b =
      (payload : Bytes) × (get source.uri s.payloads ≡ some payload)
      × (get source.uri s.generations ≡ some source.generation)
      × (sha256_hex payload ≡ source.payload_sha256)
      × (get destination s'.payloads ≡ some payload)
      × (b ≡ bronze_object sha256_hex crc32c_base64 destination payload)

  continue-Copied :
      (source : ObjectVersion) (r : Result BatchError Bytes) (destination : String)
      (s : InMemoryObjectStore) (b : BronzeObject)
      → pinned_payload sha256_hex crc32c_base64 source s ≡ r
      → (continue r (write_object sha256_hex crc32c_base64 destination) s).0 ≡ ok b
      → Copied source destination s
          (continue r (write_object sha256_hex crc32c_base64 destination) s).1
          b
  continue-Copied source (ok payload) destination s b e h =
      let (p, g, d) = pinned_payload_inv source s payload e in
      let (there, meta) = write_object-writes destination payload s b h in
      (payload, p, g, d, there, meta)
  continue-Copied source (err x) destination s b e h = absurd (cc)

  -- A copy that succeeds has found the source at its pinned generation and hash, and the
  -- destination then holds the source's bytes, which the returned metadata describe.
  pub copy_object-Copied :
      (source : ObjectVersion) (destination : String) (s : InMemoryObjectStore) (b : BronzeObject)
      → (copy_object sha256_hex crc32c_base64 source destination s).0 ≡ ok b
      → Copied source destination s (copy_object sha256_hex crc32c_base64 source destination s).1 b
  unfolding copy_object
  copy_object-Copied source destination s b h =
      continue-Copied source (pinned_payload sha256_hex crc32c_base64 source s) destination s b refl
        h
