-- ===== src/Batch/Planner/Skip.antt =====
-- When a run skips.
use tech_challenge_fase2_alf.Batch.Models.{
  BatchEstimate, ContentFingerprint, BatchManifest, is_skipped,
}
use tech_challenge_fase2_alf.Prelude.{String, ◌≡◌, Option, true, ◌↔◌, some, arith, none, refl}
use tech_challenge_fase2_alf.Batch.Planner.{planned as plan_of, matches_previous, BatchEstimate}

-- A plan skips exactly when the previous manifest that it is given has the same hashes of the query
-- and of the schema, the same fingerprint and the same number of rows.
pub planned-skips_iff :
    (uuid5 : String → String) (estimate : BatchEstimate) (fingerprint : ContentFingerprint)
    (previous : Option BatchManifest)
    → (is_skipped (plan_of uuid5 estimate fingerprint previous).status ≡ true) ↔ (
        (m : BatchManifest) × (previous ≡ some m)
        × (m.query_hash ≡ estimate.query_hash)
        × (m.schema_hash ≡ estimate.schema_hash)
        × (m.fingerprint ≡ fingerprint.value)
        × (m.row_count ≡ fingerprint.row_count))
unfolding plan_of matches_previous
planned-skips_iff uuid5 estimate fingerprint none =
    (λ h. absurd (ground arith), λ h. absurd (ground arith))
planned-skips_iff uuid5 estimate fingerprint (some m) = (
  λ h. (m, refl, ground arith, ground arith, ground arith, ground arith),
  λ (x, e, a, b, c, d). ground arith,
)
