-- ===== src/Batch/GoogleStorage/Native.antt =====
-- src/alfabetizacao_pipeline/batch/google_storage_native.py: immutable reads and writes over the
-- storage library of Google, a parameter with the state that its calls change. An optional number
-- or text of a blob is what the library gives after it loads the blob's metadata.
use tech_challenge_fase2_alf.Prelude.Sorting.{sorted}
use tech_challenge_fase2_alf.Prelude.Results.{Result, err, ok}
use tech_challenge_fase2_alf.Batch.Models.{Bytes}
use tech_challenge_fase2_alf.Prelude.Actions.{Action, raise_when, ◌>>◌, ◌>>=◌, lift, pure}
use tech_challenge_fase2_alf.Prelude.{
  ℕ, String, Bool, Option, List, str_ltb, some, not, ◌<>◌, ◌∷◌, none, [],
}
use tech_challenge_fase2_alf.Batch.Errors.{BatchError, value_error, type_error}

pub record StoredBlob : Type 0 where
  pub generation : ℕ
  pub crc32c : String
  pub size : ℕ

pub record StoredVersion : Type 0 where
  pub name : String
  pub generation : ℕ
  pub metageneration : ℕ

pub record StorageCopyRequest : Type 0 where
  pub source_bucket : String
  pub source_name : String
  pub source_generation : ℕ
  pub destination_bucket : String
  pub destination_name : String

pub record StorageClientBoundary (W : Type 0) : Type 0 where
  pub stat : String → String → Action W BatchError StoredVersion
  pub download : String → String → ℕ → ℕ → Action W BatchError Bytes
  pub upload_immutable : String → String → Bytes → Action W BatchError StoredBlob
  pub copy_immutable : StorageCopyRequest → Action W BatchError StoredBlob
  pub list_versions : String → String → Action W BatchError (List StoredVersion)

-- A blob of the library, with its metadata.
pub record Blob : Type 0 where
  pub blob_name : String
  pub blob_generation : Option ℕ
  pub blob_metageneration : Option ℕ
  pub blob_crc32c : Option String
  pub blob_size : Option ℕ

-- The preconditions that the code sends: `generation=`, `if_generation_match=`,
-- `if_metageneration_match=` or `if_source_generation_match=`.
pub record DownloadOptions : Type 0 where
  pub selected_generation : ℕ
  pub if_generation_match : ℕ
  pub if_metageneration_match : ℕ

pub record CopyOptions : Type 0 where
  pub copied_generation : ℕ
  pub if_source_generation_match : ℕ
  pub if_destination_generation_match : ℕ

-- The library's calls, each of a bucket and a name.
pub record StorageLibrary (W : Type 0) : Type 0 where
  -- `blob.reload()`, of the live generation
  pub reload : String → String → Action W BatchError Blob
  pub download_as_bytes : String → String → DownloadOptions → Action W BatchError Bytes
  -- `blob.upload_from_string(payload, if_generation_match=...)`
  pub upload_from_string : String → String → Bytes → ℕ → Action W BatchError (Unit {0})
  -- `isinstance(bucket, _CopyingBucket)`, and the name of the bucket's type
  pub copies_blobs : Bool
  pub bucket_type : String
  -- `bucket.copy_blob(...)`, from a bucket and a name to a bucket and a name
  pub copy_blob : String → String → String → String → CopyOptions → Action W BatchError (Unit {0})
  pub list_blobs : String → String → Action W BatchError (List Blob)

-- `_stored_version`
unfoldable pub stored_version : String → Blob → Result BatchError StoredVersion
stored_version bucket blob = elim blob.blob_generation [
  | some generation ↦ elim blob.blob_metageneration [
    | some metageneration ↦
        ok (record {
          name = blob.blob_name;
          generation = generation;
          metageneration = metageneration;
        })
    | none ↦ err (value_error ("missing-object-version:" <> bucket <> "/" <> blob.blob_name))
  ]
  | none ↦ err (value_error ("missing-object-version:" <> bucket <> "/" <> blob.blob_name))
]

-- The metadata of a blob that was written.
unfoldable pub stored_blob : String → String → Blob → Result BatchError StoredBlob
stored_blob bucket name blob =
    let missing = err (value_error ("missing-object-metadata:" <> bucket <> "/" <> name)) in
    elim blob.blob_generation [
      | some generation ↦ elim blob.blob_crc32c [
        | some crc32c ↦ elim blob.blob_size [
          | some size ↦ ok (record { generation = generation; crc32c = crc32c; size = size })
          | none ↦ missing
        ]
        | none ↦ missing
      ]
      | none ↦ missing
    ]

-- One more version, before the rest: the first error is the one that is raised.
abbrev pub add_version :
    Result BatchError StoredVersion
    → Result BatchError (List StoredVersion)
    → Result BatchError (List StoredVersion)
add_version (err e) rest = err e
add_version (ok version) (err e) = err e
add_version (ok version) (ok versions) = ok (version ∷ versions)

-- The versions of the blobs, in order.
unfoldable pub stored_versions : String → List Blob → Result BatchError (List StoredVersion)
stored_versions bucket [] = ok []
stored_versions bucket (blob ∷ blobs) =
    add_version (stored_version bucket blob) (stored_versions bucket blobs)

abbrev pub name_before : StoredVersion → StoredVersion → Bool
name_before v w = str_ltb v.name w.name

module _ {W : Type 0} (library : StorageLibrary W) where
  unfoldable pub native_stat : String → String → Action W BatchError StoredVersion
  native_stat bucket name = do blob ← library.reload bucket name; lift (stored_version bucket blob)

  unfoldable pub native_download : String → String → ℕ → ℕ → Action W BatchError Bytes
  native_download bucket name generation metageneration =
      library.download_as_bytes bucket name (record {
        selected_generation = generation;
        if_generation_match = generation;
        if_metageneration_match = metageneration;
      })

  unfoldable pub native_upload_immutable : String → String → Bytes → Action W BatchError StoredBlob
  native_upload_immutable bucket name payload = do
    uploaded ← library.upload_from_string bucket name payload 0
    blob ← library.reload bucket name
    lift (stored_blob bucket name blob)

  unfoldable pub native_copy_immutable : StorageCopyRequest → Action W BatchError StoredBlob
  native_copy_immutable request =
      raise_when (not library.copies_blobs)
        (type_error ("unsupported-storage-client:" <> library.bucket_type))
      >> (do
        copied ←
            library.copy_blob request.source_bucket request.source_name request.destination_bucket
              request.destination_name
              (record {
                copied_generation = request.source_generation;
                if_source_generation_match = request.source_generation;
                if_destination_generation_match = 0;
              })
        blob ← library.reload request.destination_bucket request.destination_name
        lift (stored_blob request.destination_bucket request.destination_name blob))

  unfoldable pub native_list_versions : String → String → Action W BatchError (List StoredVersion)
  native_list_versions bucket prefix = do
    blobs ← library.list_blobs bucket prefix
    versions ← lift (stored_versions bucket blobs)
    pure (sorted name_before versions)

  abbrev pub native_storage_client : StorageClientBoundary W
  native_storage_client = record {
    stat = native_stat;
    download = native_download;
    upload_immutable = native_upload_immutable;
    copy_immutable = native_copy_immutable;
    list_versions = native_list_versions;
  }
