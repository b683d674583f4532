-- ===== src/Batch/Release/Completes.antt =====
-- When a release can be completed.
use tech_challenge_fase2_alf.Batch.Release.Effects.{complete_inv}
use tech_challenge_fase2_alf.Prelude.Dict.{get, put}
use tech_challenge_fase2_alf.Prelude.Results.{ok}
use tech_challenge_fase2_alf.Batch.Release.{
  ReleaseExecution, ReleaseSnapshot, complete, ReleaseStore, is_failed, ok, get, is_present,
  has_one_run, release_sources, is_running, put, succeeded,
}
use tech_challenge_fase2_alf.Prelude.{
  String, ◌≡◌, List, is_empty, false, keep_if, ◌↔◌, All, not, some, true, string_eq, any, ◌∷◌,
  arith, [], refl, all, if◌then◌else◌,
}

abbrev pub IsComplete : ReleaseExecution → ReleaseSnapshot → Type 0
IsComplete x r =
    (r.year ≡ x.year)
    × (is_failed r.status ≡ false)
    × All (λ source. (is_present r.files source ≡ true) × (has_one_run r.files source ≡ true))
        release_sources

tests_pass_iff :
    (r : ReleaseSnapshot) (sources : List String)
    → (is_empty (keep_if (λ source. not (is_present r.files source)) sources) ≡ true)
        × (any (λ source. not (has_one_run r.files source)) sources ≡ false)
      ↔ All
          (λ source. (is_present r.files source ≡ true) × (has_one_run r.files source ≡ true))
          sources
tests_pass_iff r [] = (λ h. tt, λ h. (refl, refl))
tests_pass_iff r (source ∷ sources) = ground (arith, tests_pass_iff r sources)

tests_pass :
    (r : ReleaseSnapshot) (sources : List String)
    → all (is_present r.files) sources ≡ true
    → all (has_one_run r.files) sources ≡ true
    → All
        (λ source. (is_present r.files source ≡ true) × (has_one_run r.files source ≡ true))
        sources
tests_pass r [] p q = tt
tests_pass r (source ∷ sources) p q = ground (arith, tests_pass r sources)

returns :
    (x : ReleaseExecution) (s : ReleaseStore) (r : ReleaseSnapshot)
    → get x.release_id s ≡ some r
    → r.year ≡ x.year
    → is_failed r.status ≡ false
    → is_empty (keep_if (λ source. not (is_present r.files source)) release_sources) ≡ true
    → any (λ source. not (has_one_run r.files source)) release_sources ≡ false
    → complete x s
      ≡ ok (if is_running r.status then put x.release_id (record r { status = succeeded }) s else s)
unfolding complete
returns x s r found year unfailed present single = ground arith

-- `complete` returns exactly when the release was begun for the year, has not failed, and every
-- source has rows and exactly one run.
pub complete-IsComplete_iff :
    (x : ReleaseExecution) (s : ReleaseStore)
    → ((s' : ReleaseStore) × (complete x s ≡ ok s'))
      ↔ ((r : ReleaseSnapshot) × (get x.release_id s ≡ some r) × IsComplete x r)
unfolding complete
complete-IsComplete_iff x s = (
  λ (s', h).
      let (cur, g, y, f, p, q, e) = complete_inv x s s' h in
      (cur, g, (y, f, tests_pass cur release_sources p q)),
  λ (r, found, (year, unfailed, sources)).
      let (none_missing, none_mixed) = (tests_pass_iff r release_sources).1 sources in
      (
        if is_running r.status then put x.release_id (record r { status = succeeded }) s else s,
        returns x s r found year unfailed none_missing none_mixed,
      ),
)
