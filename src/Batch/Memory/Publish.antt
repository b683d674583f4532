-- ===== src/Batch/Memory/Publish.antt =====
-- What `publish` does to the manifests and the objects of the runtime in memory.
use tech_challenge_fase2_alf.Prelude.Text.{show_05}
use tech_challenge_fase2_alf.Batch.Errors.{BatchError}
use tech_challenge_fase2_alf.Prelude.Results.{Result, ok}
use tech_challenge_fase2_alf.Batch.Ports.{BatchRuntime}
use tech_challenge_fase2_alf.Batch.Memory.Objects.{Preserves, copy_object-Preserves}
use tech_challenge_fase2_alf.Batch.Models.{Bytes, Instant, ObjectVersion, BronzeObject}
use tech_challenge_fase2_alf.Batch.Memory.{
  InMemoryObjectStore, World, Instant, BatchRuntime, Result, in_memory, ObjectVersion, BatchError,
  copy_object, BronzeObject, ok,
}
use tech_challenge_fase2_alf.Prelude.{
  String, List, ℕ, ◌≡◌, ◌∙◌, length, arith, ◌∷◌, [], suc, ◌<>◌, ◌+◌,
}
use tech_challenge_fase2_alf.Prelude.Actions.{>>=-holds}
use tech_challenge_fase2_alf.Batch.Runner.{Libraries, copy_parts}

Preserves-trans : (r s t : InMemoryObjectStore) → Preserves r s → Preserves s t → Preserves r t
Preserves-trans r s t f g uri payload h =
    let (held, same) = f uri payload h in
    let (held', same') = g uri payload held in (held', same' ∙ same)

-- The manifests stay, and the objects keep their bytes.
abbrev pub Adds : World → World → Type 0
Adds w w' = (w'.manifests ≡ w.manifests) × Preserves w.objects w'.objects

module _ (sha256_hex : Bytes → String) (crc32c_base64 : Bytes → String)
    (query_hash schema_hash : String) (clock : ℕ → Instant) (w : World) where
  abbrev memory : BatchRuntime World
  memory = in_memory sha256_hex crc32c_base64 query_hash schema_hash clock

  abbrev Copied : ℕ → Result BatchError (List BronzeObject) × World → Type 0
  Copied n r = Adds w r.1 × ((objects : List BronzeObject) → r.0 ≡ ok objects → length objects ≡ n)

  copy_one :
      (part : ObjectVersion) (uri : String) (v : World)
      → Adds w v
      → Adds w (memory.objects.copy_immutable part uri v).1
  unfolding in_memory
  copy_one part uri v h = (
    h.0,
    Preserves-trans w.objects v.objects (copy_object sha256_hex crc32c_base64 part uri v.objects).1
        h.1 (copy_object-Preserves sha256_hex crc32c_base64 part uri v.objects),
  )

  pub copy_parts-lem :
      (lib : Libraries) (prefix : String) (index : ℕ) (parts : List ObjectVersion) (v : World)
      → Adds w v
      → Copied (length parts) (copy_parts lib memory prefix index parts v)
  unfolding copy_parts
  copy_parts-lem lib prefix index [] v h = (h, λ objects e. ground arith)
  copy_parts-lem lib prefix index (part ∷ parts) v h =
      >>=-holds (Copied (suc (length parts)))
        (memory.objects.copy_immutable part (prefix <> "part-" <> show_05 index <> ".parquet")) _ v
        (λ e p. (
          copy_one part (prefix <> "part-" <> show_05 index <> ".parquet") v h,
          λ objects q. absurd (ground arith),
        ))
        (λ bronze p.
          let (kept, count) =
            copy_parts-lem lib prefix (index + 1) parts
              (memory.objects.copy_immutable part (prefix <> "part-" <> show_05 index <> ".parquet")
                v).1
              (copy_one part (prefix <> "part-" <> show_05 index <> ".parquet") v h) in
          >>=-holds (Copied (suc (length parts))) (copy_parts lib memory prefix (index + 1) parts) _
            (memory.objects.copy_immutable part (prefix <> "part-" <> show_05 index <> ".parquet")
              v).1
            (λ e q. (kept, λ objects r. absurd (ground arith)))
            (λ rest q. (
              kept,
              λ objects r. let n : length rest ≡ length parts = count rest q in ground arith,
            )))
