-- ===== src/Batch/Release/Status.antt =====
-- The life cycle of a release under the methods of the registry.
use tech_challenge_fase2_alf.Batch.Release.Effects.{begin_inv, record_inv, complete_inv, fail_inv}
use tech_challenge_fase2_alf.Prelude.{
  String, ◌≡◌, Bool, true, false, Option, none, some, arith, string_eq, refl, inl, inr, Bool-cases,
  ◌≢◌,
}
use tech_challenge_fase2_alf.Prelude.Dict.{get, get-put, put}
use tech_challenge_fase2_alf.Prelude.Results.{Result, ok}
use tech_challenge_fase2_alf.Batch.Models.{BatchManifest}
use tech_challenge_fase2_alf.Batch.Release.{
  ReleaseStatus, running, succeeded, active, inactive, failed, ReleaseExecution, ReleaseSnapshot,
  ReleaseStore, begin, record_manifest, complete, fail, ReleaseError, put, fresh_release, reopened,
  is_running, is_failed,
}

-- One call of a method of the store.
pub data Call : Type 0 where
  begun : ReleaseExecution → Call
  recorded : ReleaseExecution → BatchManifest → Call
  finished : ReleaseExecution → Call
  abandoned : ReleaseExecution → Call

unfoldable pub invoke : Call → ReleaseStore → Result ReleaseError ReleaseStore
invoke (begun x) s = begin x s
invoke (recorded x m) s = record_manifest x m s
invoke (finished x) s = complete x s
invoke (abandoned x) s = fail x s

abbrev pub target : Call → String
target (begun x) = x.release_id
target (recorded x m) = x.release_id
target (finished x) = x.release_id
target (abandoned x) = x.release_id

abbrev pub status_of : Option ReleaseSnapshot → Option ReleaseStatus
status_of none = none
status_of (some r) = some r.status

-- The changes of a status that a method may make: open, reopen after a failure, complete, fail.
abbrev pub allowed : Option ReleaseStatus → Option ReleaseStatus → Bool
allowed none none = true
allowed none (some running) = true
allowed (some running) (some running) = true
allowed (some running) (some succeeded) = true
allowed (some running) (some failed) = true
allowed (some succeeded) (some succeeded) = true
allowed (some succeeded) (some failed) = true
allowed (some active) (some active) = true
allowed (some inactive) (some inactive) = true
allowed (some failed) (some failed) = true
allowed (some failed) (some running) = true
allowed _ _ = false

allowed_refl : (o : Option ReleaseSnapshot) → allowed (status_of o) (status_of o) ≡ true
allowed_refl none = refl
allowed_refl (some r) = ground arith

-- From `s` to `s'` every status moves along the life cycle, and only release `id` changes.
abbrev pub Moves : String → ReleaseStore → ReleaseStore → Type 0
Moves id s s' =
    (k : String)
    → (allowed (status_of (get k s)) (status_of (get k s')) ≡ true) × (k ≢ id → get k s' ≡ get k s)

-- The statuses after one write under the key of a release.
Moves-put :
    (id : String) (r : ReleaseSnapshot) (s s' : ReleaseStore)
    → s' ≡ put id r s
    → allowed (status_of (get id s)) (some r.status) ≡ true
    → Moves id s s'
Moves-put id r s s' e h k = (
  rw (e, get-put k id r s) (ground (arith, allowed_refl (get k s))),
  λ other. rw (e, get-put k id r s) (ground arith),
)

Moves-kept : (id : String) (s s' : ReleaseStore) → s' ≡ s → Moves id s s'
Moves-kept id s s' e k = (rw e (allowed_refl (get k s)), λ other. rw e)

-- A successful call of a method changes the status of a release along the life cycle only (open,
-- reopen after a failure, complete, fail), and leaves every other release as it was.
pub invoke-Moves : (c : Call) (s s' : ReleaseStore) → invoke c s ≡ ok s' → Moves (target c) s s'
unfolding invoke
invoke-Moves (begun x) s s' h = elim (begin_inv x s s' h) [
  | inl e ↦ Moves-kept x.release_id s s' e
  | inr (inl (g, e)) ↦ Moves-put x.release_id (fresh_release x) s s' e (rw g)
  | inr (inr (cur, g, y, f, e)) ↦ Moves-put x.release_id (reopened cur) s s' e (rw (g, f))
]
invoke-Moves (recorded x m) s s' h =
    let (cur, g, y, f, maps, p, indexed, q, files, r, e) = record_inv x s s' m h in
    Moves-put x.release_id (record cur { files = files }) s s' e (rw g (allowed_refl (some cur)))
invoke-Moves (finished x) s s' h =
    let (cur, g, y, f, p, q, e) = complete_inv x s s' h in
    elim (Bool-cases (is_running cur.status)) [
      | inl running_now ↦
          Moves-put x.release_id (record cur { status = succeeded }) s s' (rw running_now at e)
            (rw g (ground arith))
      | inr other ↦ Moves-kept x.release_id s s' (rw other at e)
    ]
invoke-Moves (abandoned x) s s' h =
    let (cur, g, y, f, e) = fail_inv x s s' h in
    elim (Bool-cases (is_failed cur.status)) [
      | inl failed_now ↦ Moves-kept x.release_id s s' (rw failed_now at e)
      | inr other ↦
          Moves-put x.release_id (record cur { status = failed }) s s' (rw other at e)
            (rw g (ground arith))
    ]
