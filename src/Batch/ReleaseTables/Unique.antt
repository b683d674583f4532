-- ===== src/Batch/ReleaseTables/Unique.antt =====
-- src/alfabetizacao_pipeline/batch/release_bigquery.py: the rows of the registry after any calls.
use tech_challenge_fase2_alf.Streaming.WorkflowState.{running}
use tech_challenge_fase2_alf.Batch.ReleaseTables.Recording.{
  call, calls, executed, TablesCall, empty_tables, begin, record_run, complete, fail,
}
use tech_challenge_fase2_alf.Batch.Release.{ReleaseExecution, ReleaseFileMapping, running}
use tech_challenge_fase2_alf.Batch.ReleaseTables.{
  ReleaseTables, RegistryRow, begin_release, record_file, bootstrapped, reopened_tables, ActiveRow,
  count, updated, is_row_of, added_release, runs_now, is_failed_row, bootstrap_id, reopened_row,
}
use tech_challenge_fase2_alf.Batch.ReleaseTables.Ending.{
  complete_release, fail_release, succeeded_row, is_unpublished_row, failed_row,
}
use tech_challenge_fase2_alf.Prelude.{
  ◌==◌, string_eq, ◌≡◌, List, String, map, Distinct, Bool, any, if-holds, subst, length, ==_iff,
  ◌∷◌, string_eq, ap₂, false, is_empty, sym, some, contains, keep_if, [], arith, not, ◌&&◌, ◌++◌,
  refl, nat_eq,
}
use tech_challenge_fase2_alf.Batch.ReleaseTables.Sound.{record_release-holds, executed-checked}

abbrev pub ids : List RegistryRow → List String
ids rows = map (λ row. row.release_id) rows

-- No two rows of the registry are of one release.
abbrev pub HasUniqueRows : ReleaseTables → Type 0
HasUniqueRows t = Distinct (ids t.registry)

ids-updated :
    (p : RegistryRow → Bool) (f : RegistryRow → RegistryRow) (rows : List RegistryRow)
    → ((row : RegistryRow) → (f row).release_id ≡ row.release_id)
    → ids (updated p f rows) ≡ ids rows
ids-updated p f [] keeps = refl
ids-updated p f (row ∷ rows) keeps =
    ap₂ (λ i is. i ∷ is)
      (if-holds (λ (r : RegistryRow). r.release_id ≡ row.release_id) (p row) (λ b. keeps row)
        (λ b. refl))
      (ids-updated p f rows keeps)

absent_id :
    (id : String) (rows : List RegistryRow)
    → any (is_row_of id) rows ≡ false
    → contains id (ids rows) ≡ false
absent_id id [] h = refl
absent_id id (row ∷ rows) h =
    let rest = absent_id id rows (ground arith) in
    let differs : (id == row.release_id) ≡ false = grind arith in ground arith

bootstrapped-HasUniqueRows : (t : ReleaseTables) → HasUniqueRows t → HasUniqueRows (bootstrapped t)
bootstrapped-HasUniqueRows t h =
    if-holds (λ rows. Distinct (ids rows))
      (is_empty t.active && not (any (is_row_of bootstrap_id) t.registry))
      (λ b. (absent_id bootstrap_id t.registry (ground arith), h)) (λ b. h)

reopened_tables-HasUniqueRows :
    (x : ReleaseExecution) (t : ReleaseTables)
    → HasUniqueRows t
    → HasUniqueRows (reopened_tables x t)
reopened_tables-HasUniqueRows x t h =
    subst Distinct (sym (ids-updated (is_failed_row x) (reopened_row t) t.registry (λ row. refl))) h

-- One row for each active release.
abbrev new_row : ReleaseExecution → ActiveRow → RegistryRow
new_row x row = record {
  release_id = x.release_id;
  status = running;
  reference_year = some x.year;
  baseline_release_id = some row.release_id;
}

one_added :
    (x : ReleaseExecution) (active : List ActiveRow) (rows : List RegistryRow)
    → length active ≡ 1
    → contains x.release_id (ids rows) ≡ false
    → Distinct (ids rows)
    → Distinct (ids (map (new_row x) active ++ rows))
one_added x [] rows one absent h = absurd (ground arith)
one_added x (a ∷ []) rows one absent h = (absent, h)
one_added x (a ∷ b ∷ more) rows one absent h = absurd (ground arith)

added_release-HasUniqueRows :
    (x : ReleaseExecution) (t : ReleaseTables)
    → count (λ row. row.singleton_key) t.active ≡ 1
    → HasUniqueRows t
    → HasUniqueRows (added_release x t)
added_release-HasUniqueRows x t one h =
    if-holds (λ rows. Distinct (ids rows)) (any (is_row_of x.release_id) t.registry) (λ b. h)
      (λ b.
        one_added x (keep_if (λ row. row.singleton_key) t.active) t.registry one
          (absent_id x.release_id t.registry b) h)

begin_release-HasUniqueRows :
    (x : ReleaseExecution) (t : ReleaseTables)
    → HasUniqueRows t
    → HasUniqueRows (executed (begin_release x) t).1
unfolding begin_release
begin_release-HasUniqueRows x t h =
    let b = bootstrapped t in
    executed-checked HasUniqueRows _ t _ h (λ held.
      added_release-HasUniqueRows x (reopened_tables x b) ((==_iff _ _).0 held.0)
        (reopened_tables-HasUniqueRows x b (bootstrapped-HasUniqueRows t h)))

record_file-HasUniqueRows :
    (x : ReleaseExecution) (new : ReleaseFileMapping) (t : ReleaseTables)
    → HasUniqueRows t
    → HasUniqueRows (executed (record_file x new) t).1
unfolding record_file
record_file-HasUniqueRows x new t h =
    executed-checked HasUniqueRows _ t _ h
      (λ _. if-holds HasUniqueRows (runs_now x t.registry) (λ b. h) (λ b. h))

call-HasUniqueRows :
    (c : TablesCall) (t : ReleaseTables) → HasUniqueRows t → HasUniqueRows (call c t).1
unfolding call complete_release fail_release
call-HasUniqueRows (begin x) t h = begin_release-HasUniqueRows x t h
call-HasUniqueRows (record_run x m) t h =
    record_release-holds HasUniqueRows x (λ new t _. record_file-HasUniqueRows x new t) m t h
call-HasUniqueRows (complete x) t h =
    executed-checked HasUniqueRows _ t _ h
      (λ _. subst Distinct (sym (ids-updated _ succeeded_row t.registry (λ row. refl))) h)
call-HasUniqueRows (fail x) t h = executed-checked HasUniqueRows _ t _ h (λ _.
    subst Distinct (sym (ids-updated (is_unpublished_row x) failed_row t.registry (λ row. refl))) h)

calls_keep :
    (cs : List TablesCall) (t : ReleaseTables) → HasUniqueRows t → HasUniqueRows (calls cs t)
unfolding calls
calls_keep [] t h = h
calls_keep (c ∷ cs) t h = calls_keep cs (call c t).1 (call-HasUniqueRows c t h)

-- After any calls from empty tables, errors included, no two rows of the registry are of one release.
pub calls-HasUniqueRows : (cs : List TablesCall) → HasUniqueRows (calls cs empty_tables)
calls-HasUniqueRows cs = calls_keep cs empty_tables tt
