-- ===== src/Batch/Retry/Rules.antt =====
-- src/alfabetizacao_pipeline/batch/google_adapters.py: a rule for what calls with retries ensure.
use tech_challenge_fase2_alf.Prelude.Text.{show}
use tech_challenge_fase2_alf.Prelude.Results.{Result, err}
use tech_challenge_fase2_alf.Batch.Retry.{
  RetryObserver, RetryEvent, consumer_of, retry_call, Result, err, show,
}
use tech_challenge_fase2_alf.Prelude.Actions.{Action}
use tech_challenge_fase2_alf.Batch.Errors.{BatchError, value_error}
use tech_challenge_fase2_alf.Prelude.{
  ◌≡◌, Bool, String, Option, ℕ, subst, if-holds, ltb, arith, inr, ap, ◌⊎◌, inl, refl,
}
use tech_challenge_fase2_alf.Batch.Retry.Outcomes.{
  Retried, Ended, first, again, returned, failed, exhausted, interrupted, loop-Ended,
}

module _ {W A : Type 0} (retryable : BatchError → Bool) (operation : String)
    (action : Action W BatchError A) (maximum_attempts : ℕ) (observer : Option (RetryObserver W))
    (Q : W → Type 0) (keeps : (w : W) → Q w → Q (action w).1)
    (told : (event : RetryEvent) (w : W) → Q w → Q (consumer_of observer event w).1) (start : W)
    (holds : Q start) where
  -- The errors that are not the action's: that of the bound, and those of the observer.
  abbrev pub IsForeign : BatchError → Type 0
  IsForeign e =
      (e ≡ value_error (show maximum_attempts))
      ⊎ ((event : RetryEvent) × (w : W) × ((consumer_of observer event w).0 ≡ err e))

  pub Retried-holds :
      (attempt : ℕ) (w : W)
      → Retried retryable operation action maximum_attempts (consumer_of observer) start attempt w
      → Q w
  Retried-holds _ _ first = holds
  Retried-holds _ _ (again {attempt} {w} {w₁} before raised again_ok observed) =
      subst (λ (r : Result BatchError (Unit {0}) × W). Q r.1) observed
        (told _ w₁ (
          subst (λ (r : Result BatchError A × W). Q r.1) raised
            (keeps w (Retried-holds attempt w before))))

  -- What holds before the calls holds before each attempt; what an attempt then ensures, and
  -- an error that is not the action's, the calls ensure.
  pub retry_rule :
      (P : Result BatchError A × W → Type 0)
      → ((w : W) → Q w → P (action w))
      → ((e : BatchError) (w : W) → Q w → IsForeign e → P (err e, w))
      → P (retry_call retryable operation action maximum_attempts observer start)
  unfolding retry_call
  retry_rule P calls fails =
      if-holds (λ (f : Action W BatchError A). P (f start)) (ltb maximum_attempts 1)
        (λ p. fails _ start holds (inl refl))
        (λ p.
          let (attempt, bound, ended) =
            loop-Ended retryable operation action maximum_attempts (consumer_of observer) start
              maximum_attempts 1 start (omega arith) (ground arith) first in
          Ended-holds attempt _ ended)
    where
      attempted :
          (attempt : ℕ) (w : W) (r : Result BatchError A × W)
          → Retried retryable operation action maximum_attempts
              (consumer_of observer)
              start
              attempt
              w
          → action w ≡ r
          → P r
      attempted attempt w r before called =
          subst P called (calls w (Retried-holds attempt w before))

      Ended-holds :
          (attempt : ℕ) (r : Result BatchError A × W)
          → Ended retryable operation action maximum_attempts (consumer_of observer) start attempt r
          → P r
      Ended-holds attempt _ (returned {w = w} before called) = attempted attempt w _ before called
      Ended-holds attempt _ (failed {w = w} before called final) =
          attempted attempt w _ before called
      Ended-holds attempt _ (exhausted {w = w} before called again_ok last) =
          attempted attempt w _ before called
      Ended-holds attempt _ (interrupted {w = w} {w₁ = w₁} before called again_ok more observed) =
          fails _ _
            (subst (λ (r : Result BatchError (Unit {0}) × W). Q r.1) observed
              (told _ w₁ (
                subst (λ (r : Result BatchError A × W). Q r.1) called
                  (keeps w (Retried-holds attempt w before)))))
            (inr (_, w₁, ap (λ r. r.0) observed))
