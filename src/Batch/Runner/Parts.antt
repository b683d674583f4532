-- ===== src/Batch/Runner/Parts.antt =====
-- What the loop over the exported parts has read.
use tech_challenge_fase2_alf.Batch.Planner.{contract_of}
use tech_challenge_fase2_alf.Batch.Errors.{BatchError}
use tech_challenge_fase2_alf.Batch.Ports.{BatchRuntime}
use tech_challenge_fase2_alf.Batch.Runner.{
  add_part, Libraries, Result, BatchRuntime, BatchError, read_parts, contract_of, lift,
}
use tech_challenge_fase2_alf.Batch.Landing.{
  Identity, add_row, reader_loop, no_rows, Cell, row_bytes, ParquetFile, same_schema,
  parquet_identity, expected_schema, validated_parquet_file, reader_identity, only_snappy,
}
use tech_challenge_fase2_alf.Batch.Models.{Bytes, SourceContract, ObjectVersion}
use tech_challenge_fase2_alf.Prelude.Actions.{>>=-ok, lift}
use tech_challenge_fase2_alf.Prelude.{
  String, List, ◌≡◌, arith, ◌∷◌, ◌++◌, ap, ◌∙◌, inl, inr, [], true, Option-cases, length, ℕ, ◌+◌,
  some, subst, sym,
}
use tech_challenge_fase2_alf.Prelude.Results.{ok, err, ◌>>=◌, Result-cases, Result}
use tech_challenge_fase2_alf.Batch.Runner.Sums.{
  IsReduced, reader_loop-IsReduced, reader_loop-after, reader_loop-append,
}

-- The file has the schema of the contract, in order, and SNAPPY chunks only.
abbrev pub IsLanding : SourceContract → ParquetFile → Type 0
IsLanding contract file =
    (same_schema file.schema (expected_schema contract.columns) ≡ true)
    × (only_snappy file.codecs ≡ true)

abbrev pub rows_of : List ParquetFile → List (List Cell)
rows_of [] = []
rows_of (file ∷ files) = file.rows ++ rows_of files

module _ (lib : Libraries) (source : String) (contract : SourceContract) where
  abbrev loop : Identity → List (List Cell) → Result BatchError Identity
  loop = reader_loop lib.sha256 source contract.columns

  parquet_identity_inv :
      (payload : Bytes) (part : Identity)
      → contract_of source ≡ ok contract
      → parquet_identity lib.sha256 lib.open_parquet payload source ≡ ok part
      → (file : ParquetFile) × (lib.open_parquet payload ≡ some file)
        × IsLanding contract file
        × (loop no_rows file.rows ≡ ok part)
  unfolding parquet_identity validated_parquet_file reader_identity
  parquet_identity_inv payload part c h = elim (Option-cases (lib.open_parquet payload)) [
    | inl closed ↦ absurd (ground arith)
    | inr (file, opened) ↦ (file, opened, (ground arith, ground arith), ground arith)
  ]

  nothing : (i j : Identity) → i ≡ j → loop i [] ≡ ok j
  unfolding reader_loop
  nothing i j h = ap ok h

  add_row-row_count :
      (i : Identity) (x : Bytes) (n : ℕ)
      → (add_row lib.sha256 i x).row_count + n ≡ i.row_count + (n + 1)
  unfolding add_row
  add_row-row_count i x n = omega arith

  loop-row_count :
      (i j : Identity) (rows : List (List Cell))
      → loop i rows ≡ ok j
      → j.row_count ≡ i.row_count + length rows
  unfolding reader_loop
  loop-row_count i j [] h = ground arith
  loop-row_count i j (row ∷ rows) h = elim (Result-cases (row_bytes source contract.columns row)) [
    | inl (x, p) ↦
        loop-row_count (add_row lib.sha256 i x) j rows (rw p at h)
        ∙ ground (arith, add_row-row_count i x (length rows))
    | inr (error, p) ↦ absurd (let e : err error ≡ ok j = rw p at h in ground arith)
  ]

  module _ {W : Type 0} (runtime : BatchRuntime W) where
    -- Each URI is read once, in the state that the reads before it leave: the read returns the
    -- version, and a payload that opens as the file, which is one of the contract.
    abbrev pub AreRead : List String → List ParquetFile → List ObjectVersion → W → W → Type 0
    AreRead [] [] [] w w' = w ≡ w'
    AreRead (uri ∷ uris) (file ∷ files) (version ∷ versions) w w' =
        (payload : Bytes) × ((runtime.objects.read_versioned uri w).0
          ≡ ok (record { version = version; payload = payload }))
        × (lib.open_parquet payload ≡ some file)
        × IsLanding contract file
        × AreRead uris files versions (runtime.objects.read_versioned uri w).1 w'
    AreRead _ _ _ w w' = ⊥

    read_parts_from :
        (uris : List String) (i j : Identity) (versions : List ObjectVersion) (w w' : W)
        → contract_of source ≡ ok contract
        → IsReduced lib.sha256 source contract.columns i
        → read_parts lib runtime source i uris w ≡ (ok (j, versions), w')
        → (files : List ParquetFile) × AreRead uris files versions w w'
          × (loop i (rows_of files) ≡ ok j)
    unfolding read_parts
    read_parts_from [] i j versions w w' c reduced h =
        let same : versions ≡ [] = ground arith in
        (
          [],
          subst (λ vs. AreRead [] [] vs w w') (sym same) (ground arith),
          nothing i j (ground arith),
        )
    read_parts_from (uri ∷ uris) i j versions w w' c reduced h =
        let (landing, read, h₁) =
          >>=-ok (runtime.objects.read_versioned uri) _ w w' (j, versions) h in
        let (part, parsed, h₂) =
          >>=-ok (lift (parquet_identity lib.sha256 lib.open_parquet landing.payload source)) _
            (runtime.objects.read_versioned uri w).1 w' (j, versions) h₁ in
        let (rest, more, h₃) =
          >>=-ok (read_parts lib runtime source (add_part i part) uris) _
            (runtime.objects.read_versioned uri w).1 w' (j, versions) h₂ in
        let (file, opened, landed, whole) = parquet_identity_inv landing.payload part c parsed in
        let after : loop i file.rows ≡ ok (add_part i part) =
          reader_loop-after lib.sha256 source contract.columns i part file.rows reduced whole in
        let (files, sound, all) =
          read_parts_from uris (add_part i part) rest.0 rest.1
            (runtime.objects.read_versioned uri w).1
            (read_parts lib runtime source (add_part i part) uris
              (runtime.objects.read_versioned uri w).1).1
            c
            (reader_loop-IsReduced lib.sha256 source contract.columns i (add_part i part) file.rows
              reduced after)
            (ground arith) in
        let w₁ = (runtime.objects.read_versioned uri w).1 in
        let same : landing.version ∷ rest.1 ≡ versions = ground arith in
        let ended : (read_parts lib runtime source (add_part i part) uris w₁).1 ≡ w' =
          ap (λ r. r.1) h₃ in
        (
          file ∷ files,
          subst (λ vs. AreRead (uri ∷ uris) (file ∷ files) vs w w') same
              (
                landing.payload,
                read,
                opened,
                landed,
                subst (AreRead uris files rest.1 w₁) ended sound,
              ),
          reader_loop-append lib.sha256 source contract.columns i file.rows (rows_of files)
              ∙ ap (λ r. r >>= λ k. loop k (rows_of files)) after
              ∙ all
              ∙ ground arith,
        )

    -- For a source of the catalog, when the loop over the exported parts returns, there is a
    -- file for each URI, in order: the read of the URI, in the state that the reads before it
    -- left, returned the version that the loop returns and a payload that opens as this file,
    -- and the file has the contract's schema and SNAPPY chunks only. The identity that is
    -- summed over the parts is that of one pass over the rows of these files, whose number it
    -- counts.
    pub read_parts-identity :
        (uris : List String) (j : Identity) (versions : List ObjectVersion) (w w' : W)
        → contract_of source ≡ ok contract
        → read_parts lib runtime source no_rows uris w ≡ (ok (j, versions), w')
        → (files : List ParquetFile) × AreRead uris files versions w w'
          × (reader_loop lib.sha256 source contract.columns no_rows (rows_of files) ≡ ok j)
          × (j.row_count ≡ length (rows_of files))
    read_parts-identity uris j versions w w' c h =
        let (files, sound, all) =
          read_parts_from uris no_rows j versions w w' c (omega arith, omega arith) h in
        (files, sound, all, ground (arith, loop-row_count no_rows j (rows_of files) all))
