-- ===== src/Tests/Cloud.antt =====
-- Clients in memory that obey the laws, and the storage SDK of production on them.
use tech_challenge_fase2_alf.Prelude.Chars.{without, before, all_chars, from}
use tech_challenge_fase2_alf.Prelude.{nat_eq}
use tech_challenge_fase2_alf.Batch.GoogleStorage.{google_stat}
use tech_challenge_fase2_alf.Batch.Gcs.{ImmutableCopy}
use tech_challenge_fase2_alf.Batch.Release.{mapping_key_eq}
use tech_challenge_fase2_alf.Batch.Errors.{
  BatchError, not_found, service_unavailable, precondition_failed, immutable_object_exists,
}
use tech_challenge_fase2_alf.Batch.Models.{Bytes}
use tech_challenge_fase2_alf.Prelude.Results.{ok, Result, err}
use tech_challenge_fase2_alf.Batch.GoogleStorage.Native.{
  StorageClientBoundary, StoredVersion, StoredBlob,
}
use tech_challenge_fase2_alf.Prelude.Dict.{Dict, get, get-put, put}
use tech_challenge_fase2_alf.Prelude.Chars.{any_char, lstrip}
use tech_challenge_fase2_alf.Batch.Retry.{null_observer, retry_call, retry_loop}
use tech_challenge_fase2_alf.Prelude.Actions.{Action}
use tech_challenge_fase2_alf.Prelude.{
  ◌≡◌, String, Option, none, ◌∷◌, ℕ, arith, [], some, refl, if◌then◌else◌, ltb, length, false,
  string_eq, ◌+◌, subst,
}
use tech_challenge_fase2_alf.Batch.GoogleStorage.Live.{Live, StorageLaws, stored_of}
use tech_challenge_fase2_alf.Batch.GoogleStorage.Uploads.{google_gcs_sdk-GcsLaws}
use tech_challenge_fase2_alf.Batch.GoogleStorage.Uri.{
  split_gs_uri-gs_uri, split_gs_uri, gs_uri, urlsplit,
}
use tech_challenge_fase2_alf.Batch.GoogleStorage.{google_gcs_sdk, is_transient, google_copy}
use tech_challenge_fase2_alf.Batch.GoogleStorage.Copies.{CopyErrors, IsClassified, is_classified}
use tech_challenge_fase2_alf.Batch.GoogleStorage.Conflicts.{google_copy-IsClassified}
use tech_challenge_fase2_alf.Batch.Gcs.Laws.{GcsLaws}
use tech_challenge_fase2_alf.Batch.Retry.Outcomes.{
  retry_call-EndsWithin, retry_call_returns, first, again, EndsWithin,
}

-- An action that fails twice, then answers with the number of calls.
abbrev flaky : Action ℕ BatchError ℕ
flaky w = if ltb w 2 then (err service_unavailable, w + 1) else (ok w, w + 1)

retry_call-EndsWithin_example :
    EndsWithin is_transient "gcs.stat" flaky 3 null_observer 0
      (retry_call is_transient "gcs.stat" flaky 3 none 0)
retry_call-EndsWithin_example =
    retry_call-EndsWithin is_transient "gcs.stat" flaky 3 none 0 (omega arith)

retry_call_returns_example : retry_call is_transient "gcs.stat" flaky 3 none 0 ≡ (ok 2, 3)
retry_call_returns_example =
    retry_call_returns is_transient "gcs.stat" flaky 3 none 0 3 2 3 2 (omega arith) (omega arith)
      (again (again first refl refl refl) refl refl refl) refl

abbrev IsFull : String → Type 0
IsFull String.[] = ⊥
IsFull (String.◌∷◌ c s) = Unit

split_gs_uri-gs_uri_example :
    split_gs_uri (λ host. none) (gs_uri "bronze" "uf/part-0.parquet")
    ≡ ok ("bronze", "uf/part-0.parquet")
unfolding any_char lstrip
split_gs_uri-gs_uri_example =
    split_gs_uri-gs_uri (λ host. none) "bronze" "uf/part-0.parquet"
      (refl, refl, λ p. subst IsFull p tt) (refl, refl, λ p. subst IsFull p tt) refl

abbrev Objects : Type 0
Objects = Dict (String × String) Bytes

abbrev version : String → StoredVersion
version name = record { name = name; generation = 1; metageneration = 1 }

abbrev version_of : String → Option Bytes → Result BatchError StoredVersion
version_of name none = err not_found
version_of name (some b) = ok (version name)

abbrev bytes_of : Option Bytes → Result BatchError Bytes
bytes_of none = err not_found
bytes_of (some b) = ok b

abbrev create_over : String × String → Bytes → Option Bytes → Action Objects BatchError StoredBlob
create_over key b none w =
    (ok (record { generation = 1; crc32c = "AAAAAA=="; size = length b }), put key b w)
create_over key b (some old) w = (err precondition_failed, w)

abbrev copy_over : String × String → Option Bytes → Action Objects BatchError StoredBlob
copy_over key none w = (err not_found, w)
copy_over key (some b) w = create_over key b (get key w) w

unfoldable client : StorageClientBoundary Objects
client = record {
  stat = λ bucket name w. (version_of name (get (bucket, name) w), w);
  download = λ bucket name generation metageneration w. (bytes_of (get (bucket, name) w), w);
  upload_immutable = λ bucket name b w. create_over (bucket, name) b (get (bucket, name) w) w;
  copy_immutable = λ request w.
      copy_over (request.destination_bucket, request.destination_name)
        (get (request.source_bucket, request.source_name) w) w;
  list_versions = λ bucket prefix w. (ok [], w);
}

abbrev live_as : String → Option Bytes → Option (StoredVersion × Bytes)
live_as name none = none
live_as name (some b) = some (version name, b)

abbrev live : Live Objects
live w bucket name = live_as name (get (bucket, name) w)

laws : StorageLaws client live
unfolding client
laws = record {
  stat_reads = λ bucket name w b n. refl;
  stat_finds = λ bucket name w v h. finds name v (get (bucket, name) w) h;
  download_reads = λ bucket name generation metageneration w b n. refl;
  download_finds = λ bucket name v w payload stored h k.
      same_bytes name v payload stored (get (bucket, name) w) h k;
  upload_adds =
      λ bucket name payload w blob h. adds bucket name payload w blob (get (bucket, name) w) refl h;
  upload_keeps = λ bucket name payload w b n x h.
      keeps bucket name payload w b n x (get (bucket, name) w) refl h;
}
  where
    finds :
        (name : String) (v : StoredVersion) (o : Option Bytes)
        → version_of name o ≡ ok v
        → (b : Bytes) × (live_as name o ≡ some (v, b))
    finds name v none h = absurd (ground arith)
    finds name v (some b) h = (b, ground arith)

    same_bytes :
        (name : String) (v : StoredVersion) (b b' : Bytes) (o : Option Bytes)
        → bytes_of o ≡ ok b
        → live_as name o ≡ some (v, b')
        → b' ≡ b
    same_bytes name v b b' none h k = absurd (ground arith)
    same_bytes name v b b' (some c) h k = ground arith

    adds :
        (bucket name : String) (payload : Bytes) (w : Objects) (blob : StoredBlob)
        (o : Option Bytes)
        → get (bucket, name) w ≡ o
        → (create_over (bucket, name) payload o w).0 ≡ ok blob
        → (v : StoredVersion) × (live (create_over (bucket, name) payload o w).1 bucket name
            ≡ some (v, payload))
    adds bucket name payload w blob none e h =
        (version name, ground (arith, get-put (bucket, name) (bucket, name) payload w))
    adds bucket name payload w blob (some old) e h = absurd (ground arith)

    keeps :
        (bucket name : String) (payload : Bytes) (w : Objects) (b n : String)
        (x : StoredVersion × Bytes) (o : Option Bytes)
        → get (bucket, name) w ≡ o
        → live w b n ≡ some x
        → live (create_over (bucket, name) payload o w).1 b n ≡ some x
    keeps bucket name payload w b n x none e h =
        ground (arith, get-put (b, n) (bucket, name) payload w)
    keeps bucket name payload w b n x (some old) e h = h

google_gcs_sdk-GcsLaws_example :
    GcsLaws (google_gcs_sdk client (λ host. none) none 3) (stored_of (λ host. none) live)
google_gcs_sdk-GcsLaws_example =
    google_gcs_sdk-GcsLaws client (λ host. none) none 3 live laws (λ event w b n. refl)

copy_errors : CopyErrors client live none
unfolding client
copy_errors = record {
  stat_raises = λ bucket name w e h. version_raises name e (get (bucket, name) w) h;
  stat_misses = λ bucket name w h. absent name (get (bucket, name) w) h;
  copy_raises = λ request w e h.
      copy_raises (request.destination_bucket, request.destination_name)
        (get (request.source_bucket, request.source_name) w) w e h;
  observer_returns = λ event w. refl;
}
  where
    version_raises :
        (name : String) (e : BatchError) (o : Option Bytes)
        → version_of name o ≡ err e
        → is_classified e ≡ false
    version_raises name e none h = ground arith
    version_raises name e (some b) h = absurd (ground arith)

    absent :
        (name : String) (o : Option Bytes)
        → version_of name o ≡ err not_found
        → live_as name o ≡ none
    absent name none h = refl
    absent name (some b) h = absurd (ground arith)

    create_raises :
        (key : String × String) (b : Bytes) (o : Option Bytes) (w : Objects) (e : BatchError)
        → (create_over key b o w).0 ≡ err e
        → is_classified e ≡ false
    create_raises key b none w e h = absurd (ground arith)
    create_raises key b (some old) w e h = ground arith

    copy_raises :
        (key : String × String) (o : Option Bytes) (w : Objects) (e : BatchError)
        → (copy_over key o w).0 ≡ err e
        → is_classified e ≡ false
    copy_raises key none w e h = ground arith
    copy_raises key (some b) w e h = create_raises key b (get key w) w e h

-- A copy of an object to a place that is taken.
abbrev taken : Objects
taken = (("landing", "a"), 1 ∷ []) ∷ (("bronze", "b"), 2 ∷ []) ∷ []

abbrev copy_request : ImmutableCopy
copy_request = record {
  source = record { uri = "gs://landing/a"; generation = 1; metageneration = 1 };
  destination_uri = "gs://bronze/b";
}

google_copy-IsClassified_example :
    IsClassified live copy_request
      ("landing", "a")
      (immutable_object_exists "gs://bronze/b")
      (google_copy client (λ host. none) none 3 copy_request taken).1
unfolding client google_copy split_gs_uri urlsplit any_char lstrip retry_call retry_loop get without
    before all_chars string_eq from mapping_key_eq google_stat nat_eq
google_copy-IsClassified_example =
    google_copy-IsClassified client (λ host. none) none 3 live laws (λ event w b n. refl)
      copy_errors copy_request ("landing", "a") refl taken (immutable_object_exists "gs://bronze/b")
      refl
