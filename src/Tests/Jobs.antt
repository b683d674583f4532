-- ===== src/Tests/Jobs.antt =====
-- A library of BigQuery in memory, and an execution that submits one job.
use tech_challenge_fase2_alf.Prelude.{nat_eq}
use tech_challenge_fase2_alf.Batch.Gcs.{GcsSdkBoundary}
use tech_challenge_fase2_alf.Batch.Release.{mapping_key_eq}
use tech_challenge_fase2_alf.Batch.GoogleBigQuery.{execute_job}
use tech_challenge_fase2_alf.Batch.Errors.{BatchError, not_found, conflict}
use tech_challenge_fase2_alf.Prelude.Results.{ok, Result, err}
use tech_challenge_fase2_alf.Batch.Adapter.{QueryExecution}
use tech_challenge_fase2_alf.Batch.GoogleBigQuery.Native.{BigQueryLibrary, native_bigquery_client}
use tech_challenge_fase2_alf.Prelude.Actions.{raise, pure}
use tech_challenge_fase2_alf.Prelude.{
  ◌≡◌, String, none, ◌∷◌, arith, List, [], some, Bool, refl, if◌then◌else◌, true, contains, ◌⊎◌,
  false, string_eq, inl, inr,
}
use tech_challenge_fase2_alf.Batch.GoogleBigQuery.Jobs.{JobLaws, execute_job-AtMostOne, AtMostOne}

abbrev submit : String → List String → Result BatchError (Unit {0}) × List String
submit job_id jobs = if contains job_id jobs then (err conflict, jobs) else (ok tt, job_id ∷ jobs)

unfoldable library : BigQueryLibrary (List String)
library = record {
  get_dataset = λ dataset w. (ok (some "US"), w);
  get_table = λ table w. (ok none, w);
  query = λ sql config location job_id w. submit job_id w;
  reads_jobs = true;
  get_job = λ job_id location w. (ok tt, w);
  job_result = λ job_id w. (ok [], w);
  total_bytes_processed = λ w job_id. some 0;
}

job_laws : JobLaws library (λ w. w)
unfolding library
job_laws = record {
  query_submits = λ sql config location job_id w. submits job_id w (contains job_id w) refl;
  get_job_reads = λ job_id location w. refl;
  result_reads = λ job_id w. refl;
}
  where
    submits :
        (job_id : String) (w : List String) (b : Bool)
        → contains job_id w ≡ b
        → ((submit job_id w).1 ≡ w)
          ⊎ ((contains job_id w ≡ false) × ((submit job_id w).1 ≡ job_id ∷ w))
    submits job_id w true e = inl (ground arith)
    submits job_id w false e = inr (e, ground arith)

abbrev landing : GcsSdkBoundary (List String)
landing = record {
  stat = λ uri. raise not_found;
  download = λ request. raise not_found;
  upload = λ request. raise not_found;
  copy = λ request. raise not_found;
  list = λ prefix. pure [];
}

abbrev execution : QueryExecution
execution = record {
  sql = "SELECT 1";
  location = "US";
  maximum_bytes_billed = 1000;
  parameters = [];
  destination_uri = none;
}

execute_job-AtMostOne_example :
    AtMostOne
      ("old" ∷ [])
      "alfabetizacao_batch_0af3"
      (execute_job
        (native_bigquery_client library (λ t. t))
        landing
        (λ w. ("0af3", w))
        none
        3
        "bigquery.dry_run"
        execution
        true
        ("old" ∷ [])).1
execute_job-AtMostOne_example =
    execute_job-AtMostOne library (λ w. w) job_laws (λ t. t) landing (λ w. ("0af3", w)) none 3
      "bigquery.dry_run" execution true ("old" ∷ []) (λ v. refl) (λ event v. refl)
