-- ===== src/Batch/Memory/Outcome.antt =====
-- Every way a run of `execute_batch` can end, on the runtime in memory.
use tech_challenge_fase2_alf.Batch.Memory.Objects.{Preserves}
use tech_challenge_fase2_alf.Batch.Ports.{BatchRuntime}
use tech_challenge_fase2_alf.Batch.Errors.{BatchError}
use tech_challenge_fase2_alf.Prelude.Results.{Result, err, ok}
use tech_challenge_fase2_alf.Batch.Memory.{
  persist, World, BatchManifest, Result, Instant, BatchError, BatchRuntime, in_memory, err, ok,
  persist, ObjectVersion, latest_in, BronzeObject, SourceIdentity,
}
use tech_challenge_fase2_alf.Batch.Models.{
  BatchRequest, Bytes, BatchManifest, Instant, BatchStatus, ObjectVersion, BronzeObject, BatchPlan,
  BatchRunContext, SourceIdentity,
}
use tech_challenge_fase2_alf.Prelude.{
  String, List, ℕ, ◌≡◌, arith, ◌++◌, ◌∷◌, [], refl, some, subst, ◌∙◌, ap, Option, Option-cases,
  none, inl, inr,
}
use tech_challenge_fase2_alf.Prelude.Actions.{>>=-holds, lift}
use tech_challenge_fase2_alf.Batch.Runner.{
  Libraries, copy_parts, publish, batch_manifest, completed_manifest, with_verified_at,
  incomplete_manifest, decide, skipped_manifest,
}
use tech_challenge_fase2_alf.Batch.Memory.Frames.{Same}
use tech_challenge_fase2_alf.Batch.Memory.Publish.{copy_parts-lem}

-- A manifest of an attempt for the request, with the hashes of the query.
abbrev pub IsAttempt : BatchRequest → String → String → BatchManifest → Type 0
IsAttempt request query_hash schema_hash m =
    (m.source ≡ request.source)
    × (m.year ≡ request.year)
    × (m.status ≡ BatchStatus.incomplete)
    × (m.query_hash ≡ query_hash)
    × (m.schema_hash ≡ schema_hash)

-- An outcome of a run from the world `w`: it stopped with nothing written; it was interrupted with
-- an incomplete manifest written; it skipped, with the newest completed manifest of the partition
-- and nothing written; or it published, with an incomplete and then a completed manifest written.
pub data Outcome (w : World) (request : BatchRequest) (query_hash schema_hash : String)
    : Result BatchError BatchManifest × World → Type 0 where
  stopped :
      (e : BatchError) (w' : World)
      → Same w w'
      → Outcome w request query_hash schema_hash (err e, w')
  interrupted :
      (e : BatchError) (w' : World) (m : BatchManifest)
      → IsAttempt request query_hash schema_hash m
      → w'.manifests ≡ w.manifests ++ (m ∷ [])
      → Preserves w.objects w'.objects
      → Outcome w request query_hash schema_hash (err e, w')
  skipped :
      (previous : BatchManifest) (now : Instant) (w' : World)
      → latest_in w.manifests request.source request.year ≡ some previous
      → Same w w'
      → Outcome w request query_hash schema_hash (ok (with_verified_at previous now), w')
  published :
      (m : BatchManifest) (objects : List BronzeObject) (now : Instant) (w' : World)
      → IsAttempt request query_hash schema_hash m
      → w'.manifests ≡ w.manifests ++ (m ∷ completed_manifest m objects now ∷ [])
      → Preserves w.objects w'.objects
      → Outcome w request query_hash schema_hash (ok (completed_manifest m objects now), w')

append_two {ℓ} :
    {A : Type ℓ} (xs : List A) (a b : A) → (xs ++ (a ∷ [])) ++ (b ∷ []) ≡ xs ++ (a ∷ b ∷ [])
append_two [] a b = refl
append_two (x ∷ xs) a b = ap (λ l. x ∷ l) (append_two xs a b)

module _ (sha256_hex : Bytes → String) (crc32c_base64 : Bytes → String)
    (query_hash schema_hash : String) (clock : ℕ → Instant) (lib : Libraries)
    (request : BatchRequest) (w : World) where
  abbrev memory : BatchRuntime World
  memory = in_memory sha256_hex crc32c_base64 query_hash schema_hash clock

  abbrev Ends : Result BatchError BatchManifest × World → Type 0
  Ends = Outcome w request query_hash schema_hash

  batch_manifest_inv : (m m' : BatchManifest) → batch_manifest lib m ≡ ok m' → m ≡ m'
  unfolding batch_manifest
  batch_manifest_inv m m' h = ground arith

  publish-Outcome :
      (m : BatchManifest) (parts : List ObjectVersion) (prefix : String) (v : World)
      → IsAttempt request query_hash schema_hash m
      → Same w v
      → Ends (publish lib memory m parts prefix v)
  unfolding publish in_memory persist
  publish-Outcome m parts prefix v attempt (same, kept) =
      >>=-holds Ends (lift (batch_manifest lib m)) _ v (λ e p. stopped e v (same, kept))
        (λ m' p.
          let attempt' =
            subst (IsAttempt request query_hash schema_hash) (batch_manifest_inv m m' p) attempt in
          let started = record v { manifests = v.manifests ++ (m' ∷ []) } in
          let (adds, count) =
            copy_parts-lem sha256_hex crc32c_base64 query_hash schema_hash clock started lib prefix
              0 parts started (refl, λ uri payload h. (h, refl)) in
          let after = (copy_parts lib memory prefix 0 parts started).1 in
          let preserves : Preserves w.objects after.objects =
            subst (λ o. Preserves o after.objects) kept adds.1 in
          let one : after.manifests ≡ w.manifests ++ (m' ∷ []) =
            adds.0 ∙ ap (λ l. l ++ (m' ∷ [])) same in
          >>=-holds Ends (copy_parts lib memory prefix 0 parts) _ started
            (λ e q. interrupted e after m' attempt' one preserves)
            (λ objects q.
              let done = completed_manifest m' objects (clock after.readings) in
              published m' objects (clock after.readings) _ attempt'
                (ap (λ l. l ++ (done ∷ [])) one ∙ append_two w.manifests m' done) preserves))

  skipped_manifest_inv :
      (plan : BatchPlan) (previous : Option BatchManifest) (m : BatchManifest)
      → skipped_manifest plan previous ≡ some m
      → previous ≡ some m
  skipped_manifest_inv plan none m h = absurd (ground arith)
  skipped_manifest_inv plan (some previous) m h = ground arith

  incomplete_manifest-IsAttempt :
      (context : BatchRunContext) (attempt_id : String) (identity : SourceIdentity)
      (started_at : Instant) (plan : BatchPlan)
      → plan.query_hash ≡ query_hash
      → plan.schema_hash ≡ schema_hash
      → IsAttempt request query_hash schema_hash
          (incomplete_manifest request context attempt_id identity started_at plan)
  unfolding incomplete_manifest
  incomplete_manifest-IsAttempt context attempt_id identity started_at plan p q =
      (refl, refl, refl, p, q)

  pub decide-Outcome :
      (context : BatchRunContext) (attempt_id : String) (identity : SourceIdentity)
      (started_at : Instant) (parts : List ObjectVersion) (plan : BatchPlan)
      (previous : Option BatchManifest) (v : World)
      → latest_in w.manifests request.source request.year ≡ previous
      → plan.query_hash ≡ query_hash
      → plan.schema_hash ≡ schema_hash
      → Same w v
      → Ends
          (decide lib memory request context attempt_id identity started_at parts plan previous v)
  unfolding decide in_memory
  decide-Outcome context attempt_id identity started_at parts plan previous v latest p q same =
      elim (Option-cases (skipped_manifest plan previous)) [
        | inl go ↦
            rw (go, decide)
              (publish-Outcome
                (incomplete_manifest request context attempt_id identity started_at plan) parts _ v
                (incomplete_manifest-IsAttempt context attempt_id identity started_at plan p q)
                same)
        | inr (m, skip) ↦
            rw (skip, decide)
              (skipped m (clock v.readings) _ (latest ∙ skipped_manifest_inv plan previous m skip)
                same)
      ]
