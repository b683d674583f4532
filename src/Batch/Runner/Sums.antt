-- ===== src/Batch/Runner/Sums.antt =====
-- The parts of an export: the sums of the parts are those of all their rows.
use tech_challenge_fase2_alf.Batch.Runner.{add_part}
use tech_challenge_fase2_alf.Batch.Landing.{
  Identity, add_row, reader_loop, no_rows, fingerprint_modulus, Cell, row_bytes,
}
use tech_challenge_fase2_alf.Batch.Models.{Bytes, SourceColumn}
use tech_challenge_fase2_alf.Prelude.{
  String, List, ◌<◌, ◌≡◌, arith, ◌∷◌, ◌++◌, ap, sym, ◌∙◌, inl, inr, [], refl,
}
use tech_challenge_fase2_alf.Prelude.Results.{ok, err, ◌>>=◌, Result-cases}

module _ (sha256 : Bytes → Bytes) (source : String) (columns : List SourceColumn) where
  -- The sums are reduced.
  abbrev pub IsReduced : Identity → Type 0
  IsReduced i = (i.first_sum < fingerprint_modulus) × (i.second_sum < fingerprint_modulus)

  pub add_row-IsReduced : (i : Identity) (bytes : Bytes) → IsReduced (add_row sha256 i bytes)
  unfolding add_row
  add_row-IsReduced i bytes = ground arith

  pub add_part-no_rows : (i : Identity) → IsReduced i → add_part i no_rows ≡ i
  unfolding add_part
  add_part-no_rows i h = ground arith

  add_part-add_row :
      (i j : Identity) (bytes : Bytes)
      → add_row sha256 (add_part i j) bytes ≡ add_part i (add_row sha256 j bytes)
  unfolding add_part add_row
  add_part-add_row i j bytes = ground arith

  reader_loop-add_part :
      (i j : Identity) (rows : List (List Cell))
      → IsReduced i
      → reader_loop sha256 source columns (add_part i j) rows
        ≡ (reader_loop sha256 source columns j rows >>= λ part. ok (add_part i part))
  unfolding reader_loop
  reader_loop-add_part i j [] h = refl
  reader_loop-add_part i j (row ∷ rows) h = elim (Result-cases (row_bytes source columns row)) [
    | inl (x, p) ↦ rw p (
        ap (λ k. reader_loop sha256 source columns k rows) (add_part-add_row i j x)
        ∙ reader_loop-add_part i (add_row sha256 j x) rows h)
    | inr (e, p) ↦ rw p refl
  ]

  pub reader_loop-append :
      (i : Identity) (rows rows' : List (List Cell))
      → reader_loop sha256 source columns i (rows ++ rows') ≡ (
          reader_loop sha256 source columns i rows >>= λ j.
          reader_loop sha256 source columns j rows')
  unfolding reader_loop
  reader_loop-append i [] rows' = refl
  reader_loop-append i (row ∷ rows) rows' = elim (Result-cases (row_bytes source columns row)) [
    | inl (x, p) ↦ rw p (reader_loop-append (add_row sha256 i x) rows rows')
    | inr (e, p) ↦ rw p refl
  ]

  pub reader_loop-IsReduced :
      (i j : Identity) (rows : List (List Cell))
      → IsReduced i
      → reader_loop sha256 source columns i rows ≡ ok j
      → IsReduced j
  unfolding reader_loop
  reader_loop-IsReduced i j [] h e = ground arith
  reader_loop-IsReduced i j (row ∷ rows) h e = elim (Result-cases (row_bytes source columns row)) [
    | inl (x, p) ↦
        reader_loop-IsReduced (add_row sha256 i x) j rows (add_row-IsReduced i x) (rw p at e)
    | inr (error, p) ↦ absurd (let e' : err error ≡ ok j = rw p at e in ground arith)
  ]

  -- One more part, of its own rows, as if its rows had been read after the others.
  pub reader_loop-after :
      (i part : Identity) (rows : List (List Cell))
      → IsReduced i
      → reader_loop sha256 source columns no_rows rows ≡ ok part
      → reader_loop sha256 source columns i rows ≡ ok (add_part i part)
  reader_loop-after i part rows h e =
      ap (λ k. reader_loop sha256 source columns k rows) (sym (add_part-no_rows i h))
      ∙ reader_loop-add_part i no_rows rows h
      ∙ ap (λ r. r >>= λ p. ok (add_part i p)) e
