-- ===== src/Batch/Landing/Multiset.antt =====
-- The content identity is one of the multiset of rows.
use mathlib.Core.List.{Perm, Permᴰ}
use mathlib.Core.Logic.{∥∥₁_elim}
use mathlib.Core.HLevel.{hedberg}
use tech_challenge_fase2_alf.Prelude.Results.{err, Result, ok, Result-cases}
use tech_challenge_fase2_alf.Batch.Errors.{BatchError, landing_schema}
use tech_challenge_fase2_alf.Batch.Models.{Bytes, SourceColumn}
use tech_challenge_fase2_alf.Prelude.{
  ◌≡◌, String, List, arith, ◌∷◌, [], inl, ◌∙◌, ap, sym, refl, inr, String-discrete,
}
use tech_challenge_fase2_alf.Batch.Landing.{
  Identity, Cell, row_bytes, add_row, Bytes, SourceColumn, BatchError, err, Result, reader_loop, ok,
}

module _ (sha256 : Bytes → Bytes) (source : String) where
  -- Two rows may be added in either order.
  add_row_comm :
      (i : Identity) (a b : Bytes)
      → add_row sha256 (add_row sha256 i a) b ≡ add_row sha256 (add_row sha256 i b) a
  unfolding add_row
  add_row_comm i a b = ground arith

  -- A row that is refused is refused with the same error.
  row_bytes-error :
      (cs : List SourceColumn) (row : List Cell) (e : BatchError)
      → row_bytes source cs row ≡ err e
      → e ≡ landing_schema source
  unfolding row_bytes
  row_bytes-error [] row e h = absurd (ground arith)
  row_bytes-error (c ∷ cs) [] e h = absurd (ground arith)
  row_bytes-error (c ∷ cs) (cell ∷ cells) e h = ground (arith, row_bytes-error cs cells e)

  module _ (columns : List SourceColumn) where
    abbrev loop : Identity → List (List Cell) → Result BatchError Identity
    loop = reader_loop sha256 source columns

    reader_loop-ok :
        (i : Identity) (row : List Cell) (bytes : Bytes) (rows : List (List Cell))
        → row_bytes source columns row ≡ ok bytes
        → loop i (row ∷ rows) ≡ loop (add_row sha256 i bytes) rows
    unfolding reader_loop
    reader_loop-ok i row bytes rows h = rw h refl

    reader_loop-err :
        (i : Identity) (row : List Cell) (e : BatchError) (rows : List (List Cell))
        → row_bytes source columns row ≡ err e
        → loop i (row ∷ rows) ≡ err e
    unfolding reader_loop
    reader_loop-err i row e rows h = rw h refl

    reader_loop-swap :
        (i : Identity) (a b : List Cell) (rows : List (List Cell))
        → loop i (a ∷ b ∷ rows) ≡ loop i (b ∷ a ∷ rows)
    reader_loop-swap i a b rows = elim (Result-cases (row_bytes source columns a)) [
      | inl (x, p) ↦ elim (Result-cases (row_bytes source columns b)) [
        | inl (y, q) ↦
            reader_loop-ok i a x (b ∷ rows) p
            ∙ reader_loop-ok (add_row sha256 i x) b y rows q
            ∙ ap (λ z. loop z rows) (add_row_comm i x y)
            ∙ sym (reader_loop-ok (add_row sha256 i y) a x rows p)
            ∙ sym (reader_loop-ok i b y (a ∷ rows) q)
        | inr (e, q) ↦
            reader_loop-ok i a x (b ∷ rows) p
            ∙ reader_loop-err (add_row sha256 i x) b e rows q
            ∙ sym (reader_loop-err i b e (a ∷ rows) q)
      ]
      | inr (e, p) ↦ elim (Result-cases (row_bytes source columns b)) [
        | inl (y, q) ↦
            reader_loop-err i a e (b ∷ rows) p
            ∙ sym (reader_loop-err (add_row sha256 i y) a e rows p)
            ∙ sym (reader_loop-ok i b y (a ∷ rows) q)
        | inr (f, q) ↦
            reader_loop-err i a e (b ∷ rows) p
            ∙ ap err (row_bytes-error columns a e p ∙ sym (row_bytes-error columns b f q))
            ∙ sym (reader_loop-err i b f (a ∷ rows) q)
      ]
    ]

    reader_loop-cons :
        (i : Identity) (row : List Cell) (rows rows' : List (List Cell))
        → ((j : Identity) → loop j rows ≡ loop j rows')
        → loop i (row ∷ rows) ≡ loop i (row ∷ rows')
    reader_loop-cons i row rows rows' same = elim (Result-cases (row_bytes source columns row)) [
      | inl (x, p) ↦
          reader_loop-ok i row x rows p
          ∙ same (add_row sha256 i x)
          ∙ sym (reader_loop-ok i row x rows' p)
      | inr (e, p) ↦ reader_loop-err i row e rows p ∙ sym (reader_loop-err i row e rows' p)
    ]

    reader_loop-Permᴰ :
        {rows rows' : List (List Cell)}
        → Permᴰ rows rows'
        → (i : Identity) → loop i rows ≡ loop i rows'
    reader_loop-Permᴰ Permᴰ.nil i = refl
    reader_loop-Permᴰ (Permᴰ.cons {a} {b} {l₁} {l₂} e d) i =
        reader_loop-cons i a l₁ l₂ (reader_loop-Permᴰ d) ∙ ap (λ r. loop i (r ∷ l₂)) e
    reader_loop-Permᴰ (Permᴰ.swap {a} {b} {a'} {b'} {l} e f) i =
        reader_loop-swap i a b l ∙ ap (λ r. loop i (r ∷ a ∷ l)) f ∙ ap (λ r. loop i (a' ∷ r ∷ l)) e
    reader_loop-Permᴰ (Permᴰ.trans d d') i = reader_loop-Permᴰ d i ∙ reader_loop-Permᴰ d' i

    Identity_result_set : IsSet (Result BatchError Identity)
    Identity_result_set = hlevel (hedberg String-discrete)

    -- The identity of the rows, or the error, does not depend on the order of the rows.
    pub reader_loop-Perm :
        (i : Identity) (rows rows' : List (List Cell))
        → Perm rows rows'
        → reader_loop sha256 source columns i rows ≡ reader_loop sha256 source columns i rows'
    reader_loop-Perm i rows rows' p =
        ∥∥₁_elim p (Identity_result_set (loop i rows) (loop i rows')) (λ d. reader_loop-Permᴰ d i)
