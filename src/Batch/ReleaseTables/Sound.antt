-- ===== src/Batch/ReleaseTables/Sound.antt =====
-- src/alfabetizacao_pipeline/batch/release_bigquery.py: what holds of the tables after any calls.
use tech_challenge_fase2_alf.Ops.Costs.Groups.{refused}
use tech_challenge_fase2_alf.Batch.Models.{BatchManifest, Instant, BronzeObject}
use tech_challenge_fase2_alf.Batch.ReleaseTables.Recording.{
  record_files, call, calls, executed, record_release, TablesCall, begin, record_run, mapping_of,
  complete, fail, registered_instants,
}
use tech_challenge_fase2_alf.Batch.Release.{
  ReleaseFileMapping, ReleaseExecution, release_sources, release_conflict, incomplete_release,
}
use tech_challenge_fase2_alf.Batch.ReleaseTables.{
  checked, ReleaseTables, begin_release, record_file, Assertion, RegistryError, runs_now,
  is_failed_row, is_same_file, bootstrapped, refused,
}
use tech_challenge_fase2_alf.Batch.ReleaseTables.Ending.{complete_release, fail_release}
use tech_challenge_fase2_alf.Prelude.{
  ◌==◌, string_eq, ◌≡◌, Bool, List, ltb, All, true, keep_if, if-holds, ◌∷◌, arith, any, [], subst,
  map, false, refl, not, contains, ◌||◌, is_empty, leb, nat_eq,
}
use tech_challenge_fase2_alf.Prelude.Results.{Result, ok, err}
use tech_challenge_fase2_alf.Prelude.Actions.{>>=-holds, guard-holds, raise_when, lift, ◌>>◌}

-- A script that returns has the tables that it ends with, and its assertions hold.
pub checked_inv :
    (asserts : List Assertion) (t t' : ReleaseTables)
    → checked asserts t ≡ ok t'
    → All (λ a. a.0 ≡ true) asserts × (t ≡ t')
unfolding checked
checked_inv [] t t' h = (tt, ground arith)
checked_inv ((true, message) ∷ rest) t t' h =
    let (held, same) = checked_inv rest t t' h in ((refl, held), same)
checked_inv ((false, message) ∷ rest) t t' h = absurd (ground arith)

-- `_execute` leaves the tables as they were, or the ones that the script ends with.
pub executed-checked :
    (P : ReleaseTables → Type 0) (asserts : List Assertion) (t end : ReleaseTables)
    → P t
    → (All (λ a. a.0 ≡ true) asserts → P end)
    → P (executed (λ t. checked asserts end) t).1
executed-checked P asserts t end unchanged ended = by_result (checked asserts end) refl
  where
    by_result :
        (r : Result RegistryError ReleaseTables)
        → checked asserts end ≡ r
        → P (executed (λ t. r) t).1
    by_result (ok t') h =
        let (held, same) = checked_inv asserts end t' h in subst P same (ended held)
    by_result (err e) h = unchanged

-- Every file has rows.
abbrev pub HasRows : ReleaseFileMapping → Type 0
HasRows file = ltb 0 file.row_count ≡ true

abbrev pub AllHaveRows : ReleaseTables → Type 0
AllHaveRows t = All HasRows t.files

pub All-keep_if :
    {A : Type 0} (P : A → Type 0) (p : A → Bool) (xs : List A) → All P xs → All P (keep_if p xs)
All-keep_if P p [] h = tt
All-keep_if P p (x ∷ xs) h = ground (arith, All-keep_if P p xs)

begin_release-AllHaveRows :
    (x : ReleaseExecution) (t : ReleaseTables)
    → AllHaveRows t
    → AllHaveRows (executed (begin_release x) t).1
unfolding begin_release
begin_release-AllHaveRows x t h = executed-checked AllHaveRows _ t _ h (λ _.
    if-holds (All HasRows) (any (is_failed_row x) (bootstrapped t).registry)
      (λ b. All-keep_if HasRows (λ file. not (file.release_id == x.release_id)) t.files h) (λ b. h))

record_file-AllHaveRows :
    (x : ReleaseExecution) (new : ReleaseFileMapping) (t : ReleaseTables)
    → HasRows new
    → AllHaveRows t
    → AllHaveRows (executed (record_file x new) t).1
unfolding record_file
record_file-AllHaveRows x new t rows h = executed-checked AllHaveRows _ t _ h (λ _.
    if-holds AllHaveRows (runs_now x t.registry)
      (λ b. if-holds (All HasRows) (any (is_same_file new) t.files) (λ b. h) (λ b. (rows, h)))
      (λ b. h))

complete_release-AllHaveRows :
    (x : ReleaseExecution) (t : ReleaseTables)
    → AllHaveRows t
    → AllHaveRows (executed (complete_release x) t).1
unfolding complete_release
complete_release-AllHaveRows x t h = executed-checked AllHaveRows _ t _ h (λ _. h)

fail_release-AllHaveRows :
    (x : ReleaseExecution) (t : ReleaseTables)
    → AllHaveRows t
    → AllHaveRows (executed (fail_release x) t).1
unfolding fail_release
fail_release-AllHaveRows x t h = executed-checked AllHaveRows _ t _ h (λ _. h)

mappings-HasRows :
    (x : ReleaseExecution) (m : BatchManifest) (c v : Instant) (objects : List BronzeObject)
    → ltb 0 m.row_count ≡ true
    → All HasRows (map (mapping_of x m c v) objects)
mappings-HasRows x m c v [] rows = tt
mappings-HasRows x m c v (object ∷ objects) rows = (rows, mappings-HasRows x m c v objects rows)

-- What each script of a file with rows keeps, `record` keeps.
module _ (P : ReleaseTables → Type 0) (x : ReleaseExecution)
    (keeps : (new : ReleaseFileMapping) (t : ReleaseTables)
      → HasRows new
      → P t
      → P (executed (record_file x new) t).1) where
  record_files-holds :
      (news : List ReleaseFileMapping) (t : ReleaseTables)
      → All HasRows news
      → P t
      → P (record_files x news t).1
  unfolding record_files
  record_files-holds [] t rows h = h
  record_files-holds (new ∷ news) t rows h =
      let recorded = keeps new t rows.0 h in
      >>=-holds (λ r. P r.1) (executed (record_file x new)) (λ _. record_files x news) t
        (λ e p. recorded)
        (λ a p. record_files-holds news (executed (record_file x new) t).1 rows.1 recorded)

  pub record_release-holds :
      (m : BatchManifest) (t : ReleaseTables) → P t → P (record_release x m t).1
  unfolding record_release
  record_release-holds m t h =
      >>=-holds (λ r. P r.1) (lift (registered_instants m m.completed_at m.verified_at)) _ t
        (λ e p. h)
        (λ instants p.
          let news = map (mapping_of x m instants.0 instants.1) m.bronze_objects in
          guard-holds (λ r. P r.1)
            (not (contains m.source release_sources) || not (m.year == x.year))
            (refused (release_conflict "mapping source or year differs from release"))
            (raise_when (is_empty m.bronze_objects || leb m.row_count 0)
                (refused (incomplete_release (m.source ∷ [])))
              >> record_files x news)
            t h
            (λ q.
              guard-holds (λ r. P r.1) (is_empty m.bronze_objects || leb m.row_count 0)
                (refused (incomplete_release (m.source ∷ []))) (record_files x news) t h
                (λ some_rows.
                  record_files-holds news t
                    (mappings-HasRows x m instants.0 instants.1 m.bronze_objects (ground arith))
                    h)))

call-AllHaveRows : (c : TablesCall) (t : ReleaseTables) → AllHaveRows t → AllHaveRows (call c t).1
unfolding call
call-AllHaveRows (begin x) t h = begin_release-AllHaveRows x t h
call-AllHaveRows (record_run x m) t h =
    record_release-holds AllHaveRows x (record_file-AllHaveRows x) m t h
call-AllHaveRows (complete x) t h = complete_release-AllHaveRows x t h
call-AllHaveRows (fail x) t h = fail_release-AllHaveRows x t h

pub calls-AllHaveRows :
    (cs : List TablesCall) (t : ReleaseTables) → AllHaveRows t → AllHaveRows (calls cs t)
unfolding calls
calls-AllHaveRows [] t h = h
calls-AllHaveRows (c ∷ cs) t h = calls-AllHaveRows cs (call c t).1 (call-AllHaveRows c t h)
