-- ===== src/Batch/GoogleBigQuery/Jobs.antt =====
-- src/alfabetizacao_pipeline/batch/google_bigquery.py: how many jobs an execution submits.
use tech_challenge_fase2_alf.Batch.GoogleStorage.{is_transient}
use tech_challenge_fase2_alf.Batch.Retry.{RetryObserver, RetryEvent, consumer_of}
use tech_challenge_fase2_alf.Batch.Gcs.{GcsSdkBoundary}
use tech_challenge_fase2_alf.Batch.GoogleBigQuery.{
  execute_job, GcsSdkBoundary, RetryObserver, is_transient,
}
use tech_challenge_fase2_alf.Prelude.Results.{Result, ok, err}
use tech_challenge_fase2_alf.Batch.Adapter.{QueryExecution}
use tech_challenge_fase2_alf.Batch.Errors.{BatchError, conflict, type_error}
use tech_challenge_fase2_alf.Prelude.Actions.{Action, guard-holds, >>=-holds}
use tech_challenge_fase2_alf.Batch.GoogleBigQuery.Native.{
  BigQueryLibrary, QueryJobConfig, native_execute, except_conflict, on_conflict, recovered,
  build_query_job_config, outcome_of, or_zero, native_bigquery_client,
}
use tech_challenge_fase2_alf.Prelude.{
  ◌≡◌, List, String, ◌⊎◌, Option, contains, ◌∷◌, false, Bool, string_eq, inl, subst, sym, inr, not,
  ◌∙◌, ℕ, ap, true, arith, ◌<>◌,
}
use tech_challenge_fase2_alf.Batch.Retry.Rules.{retry_rule}

-- What the code relies on of the BigQuery library, as Google documents it: the service has no two
-- jobs with one id, so that a query adds no job where there is one with its id; and the other calls
-- add none. A query that fails may have added its job.
pub record JobLaws {W : Type 0} (library : BigQueryLibrary W) (jobs : W → List String)
    : Type 0 where
  pub query_submits :
      (sql : String) (config : QueryJobConfig) (location job_id : String) (w : W)
      → (jobs (library.query sql config location job_id w).1 ≡ jobs w)
        ⊎ ((contains job_id (jobs w) ≡ false)
            × (jobs (library.query sql config location job_id w).1 ≡ job_id ∷ jobs w))
  pub get_job_reads :
      (job_id location : String) (w : W) → jobs (library.get_job job_id location w).1 ≡ jobs w
  pub result_reads : (job_id : String) (w : W) → jobs (library.job_result job_id w).1 ≡ jobs w

-- The jobs of the first state, with at most the one of that id.
abbrev pub AtMostOne : List String → String → List String → Type 0
AtMostOne before job_id after = (after ≡ before) ⊎ (after ≡ job_id ∷ before)

module _ {W : Type 0} (library : BigQueryLibrary W) (jobs : W → List String)
    (laws : JobLaws library jobs) (upper : String → String) where
  except_conflict-holds :
      {A : Type 0} (P : W → Type 0) (action handler : Action W BatchError A) (w : W)
      → P (action w).1
      → P (handler (action w).1).1
      → P (except_conflict action handler w).1
  except_conflict-holds P action handler w passes handles = by_outcome (action w).0
    where
      by_outcome : (r : Result BatchError _) → P (on_conflict r handler (action w).1).1
      by_outcome (ok a) = passes
      by_outcome (err conflict) = handles
      by_outcome (err e) = passes

  module _ (job_id : String) (start : List String) where
    abbrev Holds : W → Type 0
    Holds w = AtMostOne start job_id (jobs w)

    query-Holds :
        (sql : String) (config : QueryJobConfig) (location : String) (w : W)
        → Holds w
        → Holds (library.query sql config location job_id w).1
    query-Holds sql config location w h = elim (laws.query_submits sql config location job_id w) [
      | inl same ↦ subst (AtMostOne start job_id) (sym same) h
      | inr (absent, added) ↦ elim h [
        | inl same ↦ inr (added ∙ ap (λ js. job_id ∷ js) same)
        | inr present ↦
            let found : contains job_id (job_id ∷ start) ≡ true = ground arith in
            absurd (ground arith)
      ]
    ]

    get_job-Holds :
        (location : String) (w : W) → Holds w → Holds (library.get_job job_id location w).1
    get_job-Holds location w h =
        subst (AtMostOne start job_id) (sym (laws.get_job_reads job_id location w)) h

    recovered-Holds :
        (execution : QueryExecution) (w : W)
        → Holds w
        → Holds (recovered library upper execution job_id w).1
    recovered-Holds execution w h =
        guard-holds (λ r. Holds r.1) (not library.reads_jobs)
          (type_error "bigquery-client-missing-get-job") (library.get_job job_id execution.location)
          w h (λ p. get_job-Holds execution.location w h)

    native_execute-Holds :
        (execution : QueryExecution) (dry_run : Bool) (w : W)
        → Holds w
        → Holds (native_execute library upper execution dry_run job_id w).1
    unfolding native_execute
    native_execute-Holds execution dry_run w h =
        let submit =
          library.query execution.sql (build_query_job_config execution dry_run) execution.location
            job_id in
        let submitted =
          query-Holds execution.sql (build_query_job_config execution dry_run) execution.location w
            h in
        let found =
          except_conflict-holds Holds submit (recovered library upper execution job_id) w submitted
            (recovered-Holds execution (submit w).1 submitted) in
        let v = (except_conflict submit (recovered library upper execution job_id) w).1 in
        let read = subst (AtMostOne start job_id) (sym (laws.result_reads job_id v)) found in
        >>=-holds (λ r. Holds r.1)
          (except_conflict submit (recovered library upper execution job_id))
          (λ x. outcome_of library upper job_id) w (λ e p. found)
          (λ a p.
            >>=-holds (λ r. Holds r.1) (library.job_result job_id)
              (λ rows w. (
                ok (record {
                  rows = rows;
                  bytes_processed = or_zero (library.total_bytes_processed w job_id);
                }),
                w,
              ))
              v (λ e q. read) (λ rows q. read))

  -- However many attempts the client makes, and whether a failed one has left its job or not, one
  -- execution submits at most one job, that of its id; a job that an attempt has left is not
  -- submitted again.
  pub execute_job-AtMostOne :
      (landing : GcsSdkBoundary W) (uuid4_hex : W → String × W)
      (observer : Option (RetryObserver W)) (maximum_attempts : ℕ) (operation : String)
      (execution : QueryExecution) (dry_run : Bool) (w : W)
      → ((v : W) → jobs (uuid4_hex v).1 ≡ jobs v)
      → ((event : RetryEvent) (v : W) → jobs (consumer_of observer event v).1 ≡ jobs v)
      → AtMostOne (jobs w) ("alfabetizacao_batch_" <> (uuid4_hex w).0) (
          jobs
            (execute_job
              (native_bigquery_client library upper)
              landing
              uuid4_hex
              observer
              maximum_attempts
              operation
              execution
              dry_run
              w).1)
  unfolding execute_job
  execute_job-AtMostOne landing uuid4_hex observer maximum_attempts operation execution dry_run w
        draws reads =
      let job_id = "alfabetizacao_batch_" <> (uuid4_hex w).0 in
      retry_rule is_transient operation (native_execute library upper execution dry_run job_id)
        maximum_attempts observer (Holds job_id (jobs w))
        (native_execute-Holds job_id (jobs w) execution dry_run)
        (λ event v h. subst (AtMostOne (jobs w) job_id) (sym (reads event v)) h) (uuid4_hex w).1
        (inl (draws w)) (λ r. Holds job_id (jobs w) r.1)
        (native_execute-Holds job_id (jobs w) execution dry_run) (λ e v h _. h)
