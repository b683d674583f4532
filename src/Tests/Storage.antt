-- ===== src/Tests/Storage.antt =====
-- A storage in memory that obeys the laws, and the stores on it.
use tech_challenge_fase2_alf.Batch.Gcs.Write.{Holds, write_immutable-Holds}
use tech_challenge_fase2_alf.Batch.Gcs.Persist.{KeepsStored, IsRecorded, persist_manifest-Persisted}
use tech_challenge_fase2_alf.Batch.Errors.{BatchError, key_error, immutable_object_exists}
use tech_challenge_fase2_alf.Prelude.Actions.{Action}
use tech_challenge_fase2_alf.Prelude.Results.{Result, ok, err}
use tech_challenge_fase2_alf.Batch.Gcs.Laws.{Stored, GcsLaws}
use tech_challenge_fase2_alf.Batch.Gcs.{
  GcsObjectVersion, GcsSdkBoundary, checkpoint_uri, write_immutable, persist_manifest,
}
use tech_challenge_fase2_alf.Batch.Models.{Bytes, BatchManifest, BronzeObject}
use tech_challenge_fase2_alf.Prelude.{
  String, Option, ◌∷◌, some, ◌≡◌, [], string_eq, length, map, arith, none, refl, Option-cases, inl,
  inr, subst, ap, sym,
}
use tech_challenge_fase2_alf.Prelude.Dict.{Dict, get, put, get-put, keys}
use tech_challenge_fase2_alf.Tests.Fixtures.{uf_manifest}

abbrev Bucket : Type 0
Bucket = Dict String Bytes

abbrev version : String → GcsObjectVersion
version uri = record { uri = uri; generation = 1; metageneration = 1 }

abbrev bytes_of : String → Option Bytes → Result BatchError Bytes
bytes_of uri none = err (key_error uri)
bytes_of uri (some b) = ok b

abbrev version_of : String → Option Bytes → Result BatchError GcsObjectVersion
version_of uri none = err (key_error uri)
version_of uri (some b) = ok (version uri)

abbrev object_of : String → Bytes → BronzeObject
object_of uri b = record { uri = uri; generation = 1; crc32c = "AAAAAA=="; size_bytes = length b }

abbrev create_over : String → Bytes → Option Bytes → Action Bucket BatchError BronzeObject
create_over uri b none w = (ok (object_of uri b), put uri b w)
create_over uri b (some old) w = (err (immutable_object_exists uri), w)

abbrev copy_from : String → Option Bytes → Action Bucket BatchError BronzeObject
copy_from uri none w = (err (key_error uri), w)
copy_from uri (some b) w = create_over uri b (get uri w) w

unfoldable sdk : GcsSdkBoundary Bucket
sdk = record {
  stat = λ uri w. (version_of uri (get uri w), w);
  download = λ request w. (bytes_of request.version.uri (get request.version.uri w), w);
  upload = λ request w. create_over request.uri request.payload (get request.uri w) w;
  copy = λ request w. copy_from request.destination_uri (get request.source.uri w) w;
  list = λ prefix w. (ok (map version (keys w)), w);
}

abbrev stored_as : String → Option Bytes → Option (GcsObjectVersion × Bytes)
stored_as uri none = none
stored_as uri (some b) = some (version uri, b)

abbrev stored : Stored Bucket
stored w uri = stored_as uri (get uri w)

laws : GcsLaws sdk stored
unfolding sdk
laws = record {
  stat_reads = λ uri w u. refl;
  stat_finds = λ uri w v h. finds uri v (get uri w) h;
  download_reads = λ request w u. refl;
  download_finds = λ v w b uri b' h k. same_bytes v uri b b' w h k;
  upload_adds = λ uri payload w b h. adds uri payload w b (get uri w) refl h;
  upload_keeps =
      λ request w u x h. keeps request.uri request.payload w u x (get request.uri w) refl h;
}
  where
    finds :
        (uri : String) (v : GcsObjectVersion) (o : Option Bytes)
        → version_of uri o ≡ ok v
        → (b : Bytes) × (stored_as uri o ≡ some (v, b))
    finds uri v none h = absurd (ground arith)
    finds uri v (some b) h = (b, ground arith)

    same_bytes :
        (v : GcsObjectVersion) (uri : String) (b b' : Bytes) (w : Bucket)
        → bytes_of v.uri (get v.uri w) ≡ ok b
        → stored_as uri (get uri w) ≡ some (v, b')
        → b' ≡ b
    same_bytes v uri b b' w h k = elim (Option-cases (get uri w)) [
      | inl p ↦ absurd (ground arith)
      | inr (c, p) ↦
          let here : version uri ≡ v = ground arith in
          let found : bytes_of uri (get uri w) ≡ ok b =
            subst (λ z. bytes_of z (get z w) ≡ ok b) {x = v.uri} {y = uri}
              (ap (λ z. z.uri) (sym here)) h in
          ground arith
    ]

    adds :
        (uri : String) (payload : Bytes) (w : Bucket) (b : BronzeObject) (o : Option Bytes)
        → get uri w ≡ o
        → (create_over uri payload o w).0 ≡ ok b
        → (v : GcsObjectVersion) × (stored (create_over uri payload o w).1 uri ≡ some (v, payload))
    adds uri payload w b none e h = (version uri, ground (arith, get-put uri uri payload w))
    adds uri payload w b (some old) e h = absurd (ground arith)

    keeps :
        (uri : String) (payload : Bytes) (w : Bucket) (u : String) (x : GcsObjectVersion × Bytes)
        (o : Option Bytes)
        → get uri w ≡ o
        → stored w u ≡ some x
        → stored (create_over uri payload o w).1 u ≡ some x
    keeps uri payload w u x none e h = ground (arith, get-put u uri payload w)
    keeps uri payload w u x (some old) e h = h

abbrev digest : Bytes → Bytes
digest b = b

abbrev dump : BatchManifest → Bytes
dump m = 1 ∷ 2 ∷ []

abbrev bucket : Bucket
bucket = ("gs://bronze/part", 7 ∷ []) ∷ []

persist_manifest-Persisted_example :
    let uri = checkpoint_uri "gs://control" (λ t. "t") uf_manifest in
    let r = persist_manifest sdk "gs://control" digest dump (λ t. "t") uf_manifest bucket in
    KeepsStored sdk stored laws bucket r.1
    × (r.0 ≡ ok tt
        → IsRecorded sdk stored laws "gs://control" digest dump (λ t. "t") uf_manifest uri r.1)
persist_manifest-Persisted_example =
    persist_manifest-Persisted sdk stored laws "gs://control" digest dump (λ t. "t") uf_manifest
      bucket

write_immutable-Holds_example :
    let r =
      write_immutable sdk (λ b. "hash") (λ b. "AAAAAA==") "gs://bronze/part" (7 ∷ []) bucket in
    KeepsStored sdk stored laws bucket r.1
    × ((b : BronzeObject) → r.0 ≡ ok b → Holds sdk stored laws "gs://bronze/part" (7 ∷ []) r.1)
write_immutable-Holds_example =
    write_immutable-Holds sdk stored laws (λ b. "hash") (λ b. "AAAAAA==") "gs://bronze/part"
      (7 ∷ []) bucket
