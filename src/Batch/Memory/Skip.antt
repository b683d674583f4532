-- ===== src/Batch/Memory/Skip.antt =====
-- src/alfabetizacao_pipeline/batch/planner.py: when `plan_batch` skips, over the manifests in memory.
use tech_challenge_fase2_alf.Batch.Memory.{
  World, in_memory, latest_in, latest_completed, is_candidate, completion,
}
use tech_challenge_fase2_alf.Batch.Memory.Latest.{latest_in-IsNewest}
use tech_challenge_fase2_alf.Batch.Models.{
  BatchEstimate, BatchManifest, BatchPlan, Bytes, ContentFingerprint, Instant, is_skipped,
}
use tech_challenge_fase2_alf.Batch.Planner.{plan_batch, planned}
use tech_challenge_fase2_alf.Batch.Planner.Skip.{planned-skips_iff}
use tech_challenge_fase2_alf.Prelude.Results.{ok}
use tech_challenge_fase2_alf.Prelude.{◌≡◌, String, ℕ, List, Any, All, some, true, ◌≤◌, ◌↔◌, refl}

-- The newest completed manifest of the source and the year in the history: it is one, and no other
-- was completed later.
abbrev pub IsNewestOf : String → ℕ → List BatchManifest → BatchManifest → Type 0
IsNewestOf source year ms m =
    (latest_in ms source year ≡ some m)
    × Any (λ c. (c ≡ m) × (is_candidate source year c ≡ true)) ms
    × All (λ c. is_candidate source year c ≡ true → completion c ≤ completion m) ms

-- The manifest has the query, the schema and the content of the run.
abbrev pub HasContent : BatchEstimate → ContentFingerprint → BatchManifest → Type 0
HasContent estimate fingerprint m =
    (m.query_hash ≡ estimate.query_hash)
    × (m.schema_hash ≡ estimate.schema_hash)
    × (m.fingerprint ≡ fingerprint.value)
    × (m.row_count ≡ fingerprint.row_count)

module _ (uuid5 : String → String) (hex crc : Bytes → String) (query_hash schema_hash : String)
    (clock : ℕ → Instant) where
  -- Over the manifests in memory, plan_batch returns a plan and changes nothing, and the plan
  -- skips exactly when the manifest that latest_completed finds for the estimate's source and
  -- year has the query hash, the schema hash, the fingerprint and the row count of the run.
  -- That manifest is in the history, is a completed one of the source and the year, and no
  -- other such was completed later.
  pub plan_batch-skips_iff :
      (estimate : BatchEstimate) (fingerprint : ContentFingerprint) (w : World)
      → (plan : BatchPlan) × (plan_batch uuid5 estimate fingerprint
            (in_memory hex crc query_hash schema_hash clock).manifests
            w
          ≡ (ok plan, w))
        × ((is_skipped plan.status ≡ true) ↔ (
            (m : BatchManifest) × IsNewestOf estimate.source estimate.year w.manifests m
            × HasContent estimate fingerprint m))
  unfolding plan_batch in_memory latest_completed
  plan_batch-skips_iff estimate fingerprint w =
      let source = estimate.source in
      let year = estimate.year in
      let previous = latest_in w.manifests source year in
      let (skips, back) = planned-skips_iff uuid5 estimate fingerprint previous in
      (
        planned uuid5 estimate fingerprint previous,
        refl,
        (
          λ h.
              let (m, found, query, schema, value, rows) = skips h in
              let newest = latest_in-IsNewest w.manifests source year m found in
              (m, (found, newest.0, newest.1), (query, schema, value, rows)),
          λ (m, newest, (query, schema, value, rows)).
              back (m, newest.0, query, schema, value, rows),
        ),
      )
