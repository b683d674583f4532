-- ===== src/Batch/Release/Effects.antt =====
-- What each method of the registry writes, read back from its success.
use tech_challenge_fase2_alf.Prelude.Dict.{get, put}
use tech_challenge_fase2_alf.Prelude.{
  ◌≡◌, ◌⊎◌, none, some, false, arith, List, all, if◌then◌else◌, [], true, string_eq,
}
use tech_challenge_fase2_alf.Batch.Models.{BatchManifest}
use tech_challenge_fase2_alf.Prelude.Results.{ok}
use tech_challenge_fase2_alf.Batch.Release.{
  merged_files, mappings_of, merge_mappings, index_files, fresh_release, reopened, is_failed,
  is_running, is_published, release_sources, has_one_run, is_present, begin, record_manifest,
  complete, fail, ReleaseStore, ReleaseSnapshot, ReleaseExecution, ReleaseFileMapping, Indexed,
  succeeded, failed, BatchManifest, ok, get, none, some, put, false, List, all, [], true,
}

module _ (x : ReleaseExecution) (s s' : ReleaseStore) where
  pub begin_inv :
      begin x s ≡ ok s'
      → (s' ≡ s)
        ⊎ ((get x.release_id s ≡ none) × (s' ≡ put x.release_id (fresh_release x) s))
        ⊎ ((cur : ReleaseSnapshot) × (get x.release_id s ≡ some cur)
            × (cur.year ≡ x.year)
            × (cur.status ≡ failed)
            × (s' ≡ put x.release_id (reopened cur) s))
  unfolding begin
  begin_inv h = ground arith

  pub record_inv :
      (m : BatchManifest)
      → record_manifest x m s ≡ ok s'
      → (cur : ReleaseSnapshot) × (get x.release_id s ≡ some cur)
        × (cur.year ≡ x.year)
        × (is_failed cur.status ≡ false)
        × (maps : List ReleaseFileMapping) × (mappings_of x m ≡ ok maps)
        × (indexed : Indexed) × (merge_mappings (index_files [] cur.files) maps ≡ ok indexed)
        × (files : List ReleaseFileMapping) × (merged_files cur indexed ≡ ok files)
        × (s' ≡ put x.release_id (record cur { files = files }) s)
  unfolding record_manifest
  record_inv m h = ground arith

  pub complete_inv :
      complete x s ≡ ok s'
      → (cur : ReleaseSnapshot) × (get x.release_id s ≡ some cur)
        × (cur.year ≡ x.year)
        × (is_failed cur.status ≡ false)
        × (all (is_present cur.files) release_sources ≡ true)
        × (all (has_one_run cur.files) release_sources ≡ true)
        × (s' ≡ (
            if is_running cur.status
            then put x.release_id (record cur { status = succeeded }) s
            else s))
  unfolding complete
  complete_inv h = ground arith

  pub fail_inv :
      fail x s ≡ ok s'
      → (cur : ReleaseSnapshot) × (get x.release_id s ≡ some cur)
        × (cur.year ≡ x.year)
        × (is_published cur.status ≡ false)
        × (s' ≡ (
            if is_failed cur.status
            then s
            else put x.release_id (record cur { status = failed }) s))
  unfolding fail
  fail_inv h = ground arith
