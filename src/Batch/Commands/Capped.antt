-- ===== src/Batch/Commands/Capped.antt =====
-- src/alfabetizacao_pipeline/batch/commands.py: the limit on the price of a plan.
use tech_challenge_fase2_alf.Batch.Planner.{estimate_batch}
use tech_challenge_fase2_alf.Batch.Errors.{BatchError}
use tech_challenge_fase2_alf.Batch.Catalog.{source_catalog}
use tech_challenge_fase2_alf.Prelude.Dict.{keys}
use tech_challenge_fase2_alf.Prelude.Results.{Result, ok}
use tech_challenge_fase2_alf.Batch.Models.{
  batch_request, BatchRequest, BatchEstimate, is_reference_year,
}
use tech_challenge_fase2_alf.Batch.Commands.{
  allowed_maximum, valid_request, CommandServices, batch_request, Result, plan, CommandError, ok,
  BatchRequest, BatchEstimate, keys, source_catalog, BatchError, or_invalid, handled, pure,
  with_end, err, plan_end, planned_query, estimate_batch,
}
use tech_challenge_fase2_alf.Prelude.{
  ◌≡◌, ℕ, Option, String, Bool, ◌≤◌, arith, if-holds, some, not, contains, none, ◌&&◌, ltb,
  string_eq, ap,
}
use tech_challenge_fase2_alf.Batch.Planner.Price.{estimate_batch-IsWithin}
use tech_challenge_fase2_alf.Prelude.Actions.{Action, >>=-holds, lift, pure, ◌>>=◌}

allowed_maximum_lem :
    (setting : ℕ) (requested : Option ℕ) (n : ℕ)
    → allowed_maximum setting requested ≡ ok n
    → n ≤ setting
unfolding allowed_maximum
allowed_maximum_lem setting none n h = ground arith
allowed_maximum_lem setting (some r) n h = ground arith

valid_request_maximum :
    (source : String) (year maximum : ℕ) (dry_run : Bool) (r : BatchRequest)
    → valid_request source year maximum dry_run ≡ ok r
    → r.maximum_bytes_billed ≡ maximum
unfolding valid_request batch_request
valid_request_maximum source year maximum dry_run r =
    if-holds (λ (x : Result CommandError BatchRequest). x ≡ ok r → r.maximum_bytes_billed ≡ maximum)
      (not (contains source (keys source_catalog))) (λ p h. absurd (ground arith))
      (λ p.
        if-holds
          (λ (x : Result BatchError BatchRequest).
            or_invalid x ≡ ok r → r.maximum_bytes_billed ≡ maximum)
          (is_reference_year year && ltb 0 maximum) (λ q h. ground arith)
          (λ q h. absurd (ground arith)))

handled_returns :
    {W A : Type 0} (to_end : BatchError → CommandError) (r : Result BatchError A) (w : W) (a : A)
    → (handled to_end r w).0 ≡ ok a
    → r ≡ ok a
handled_returns to_end (ok b) w a h = ground arith
handled_returns to_end (err e) w a h = absurd (ground arith)

module _ {W : Type 0} (services : CommandServices W) where
  -- A plan that is printed is of an estimate within the limit of the settings.
  abbrev pub IsCapped : Result CommandError String × W → Type 0
  IsCapped r =
      (text : String)
      → r.0 ≡ ok text
      → (estimate : BatchEstimate) × (text ≡ services.estimate_json estimate)
        × (estimate.estimated_bytes ≤ services.max_bytes_billed)

  abbrev printed : BatchEstimate → Action W CommandError String
  printed estimate = pure (services.estimate_json estimate)

  abbrev estimated : String → Option ℕ → BatchRequest → Action W CommandError BatchEstimate
  estimated source demo r =
      with_end plan_end (estimate_batch (planned_query services source demo) r none)

  abbrev from_request : String → ℕ → Bool → Option ℕ → ℕ → Action W CommandError String
  from_request source year dry_run demo maximum =
      lift (valid_request source year maximum dry_run) >>= λ r. estimated source demo r >>= printed

  -- Whatever limit is asked for, a plan that is printed is of an estimate within the limit of the
  -- settings.
  pub plan-IsCapped :
      (source : String) (year : ℕ) (dry_run : Bool) (requested demo : Option ℕ) (w : W)
      → IsCapped (plan services source year dry_run requested demo w)
  unfolding plan
  plan-IsCapped source year dry_run requested demo w =
      >>=-holds IsCapped (lift (allowed_maximum services.max_bytes_billed requested))
        (from_request source year dry_run demo) w (λ e p text h. absurd (ground arith))
        (λ maximum p.
          >>=-holds IsCapped (lift (valid_request source year maximum dry_run))
            (λ r. estimated source demo r >>= printed) w (λ e q text h. absurd (ground arith))
            (λ r q.
              >>=-holds IsCapped (estimated source demo r) printed w
                (λ e k text h. absurd (ground arith))
                (λ estimate k text h.
                  let query = planned_query services source demo in
                  let returned =
                    handled_returns plan_end (estimate_batch query r none w).0
                      (estimate_batch query r none w).1 estimate k in
                  let within =
                    (estimate_batch-IsWithin query r none w (estimate_batch query r none w).1
                      estimate (ap (λ x. (x, (estimate_batch query r none w).1)) returned)).0 in
                  let allowed = allowed_maximum_lem services.max_bytes_billed requested maximum p in
                  let capped = valid_request_maximum source year maximum dry_run r q in
                  (estimate, ground arith, omega arith))))
