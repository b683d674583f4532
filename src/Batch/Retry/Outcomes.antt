-- ===== src/Batch/Retry/Outcomes.antt =====
-- src/alfabetizacao_pipeline/batch/google_adapters.py: what a call with retries can end with.
use tech_challenge_fase2_alf.Prelude.Results.{err, Result, ok}
use tech_challenge_fase2_alf.Batch.Retry.{
  RetryObserver, RetryEvent, err, Result, retry_loop, ok, on_retryable, raise, retry_call,
  consumer_of,
}
use tech_challenge_fase2_alf.Prelude.Actions.{Action, continue, raise, ◌>>◌}
use tech_challenge_fase2_alf.Batch.Errors.{BatchError}
use tech_challenge_fase2_alf.Prelude.{
  ◌==◌, ==_iff, refl, ◌∙◌, ◌≡◌, Bool, String, Option, ℕ, if◌then◌else◌, true, ◌≤◌, ◌+◌, false, ◌<◌,
  arith, suc, zero, if-holds, nat_eq, ap, ltb, ◌-◌,
}

module _ {W A : Type 0} (retryable : BatchError → Bool) (operation : String)
    (action : Action W BatchError A) (maximum_attempts : ℕ) (consumer : RetryObserver W)
    (start : W) where
  abbrev event_of : ℕ → RetryEvent
  event_of attempt = record {
    operation = operation;
    attempt = attempt;
    maximum_attempts = maximum_attempts;
  }

  -- The state before an attempt: all attempts before it raised a retryable error, of which the
  -- observer was told.
  pub data Retried : ℕ → W → Type 0 where
    first : Retried 1 start
    again :
        {attempt : ℕ} {w w₁ w₂ : W} {e : BatchError}
        → Retried attempt w
        → action w ≡ (err e, w₁)
        → retryable e ≡ true
        → consumer (event_of attempt) w₁ ≡ (ok tt, w₂)
        → Retried (attempt + 1) w₂

  -- How the calls end, at the attempt of the index.
  pub data Ended : ℕ → Result BatchError A × W → Type 0 where
    returned :
        {attempt : ℕ} {w w₁ : W} {a : A}
        → Retried attempt w
        → action w ≡ (ok a, w₁)
        → Ended attempt (ok a, w₁)
    failed :
        {attempt : ℕ} {w w₁ : W} {e : BatchError}
        → Retried attempt w
        → action w ≡ (err e, w₁)
        → retryable e ≡ false
        → Ended attempt (err e, w₁)
    exhausted :
        {attempt : ℕ} {w w₁ : W} {e : BatchError}
        → Retried attempt w
        → action w ≡ (err e, w₁)
        → retryable e ≡ true
        → attempt ≡ maximum_attempts
        → Ended attempt (err e, w₁)
    interrupted :
        {attempt : ℕ} {w w₁ w₂ : W} {e e' : BatchError}
        → Retried attempt w
        → action w ≡ (err e, w₁)
        → retryable e ≡ true
        → attempt < maximum_attempts
        → consumer (event_of attempt) w₁ ≡ (err e', w₂)
        → Ended attempt (err e', w₂)

  abbrev pub EndsWithin : Result BatchError A × W → Type 0
  EndsWithin r = (attempt : ℕ) × (attempt ≤ maximum_attempts) × Ended attempt r

  abbrev loop : ℕ → ℕ → Action W BatchError A
  loop = retry_loop retryable operation action maximum_attempts consumer

  told-Ended :
      (attempt left : ℕ) (w w₁ : W) (e : BatchError) (r : Result BatchError (Unit {0}) × W)
      → Retried attempt w
      → action w ≡ (err e, w₁)
      → retryable e ≡ true
      → attempt < maximum_attempts
      → ((w₂ : W) → Retried (attempt + 1) w₂ → EndsWithin (loop left (attempt + 1) w₂))
      → consumer (event_of attempt) w₁ ≡ r
      → EndsWithin (continue r.0 (λ _. loop left (attempt + 1)) r.1)
  told-Ended attempt left w w₁ e (ok tt, w₂) before raised again_ok more rest told =
      rest w₂ (again before raised again_ok told)
  told-Ended attempt left w w₁ e (err e', w₂) before raised again_ok more rest told =
      (attempt, omega arith, interrupted before raised again_ok more told)

  abbrev handler_of : ℕ → ℕ → BatchError → Action W BatchError A
  handler_of left attempt e =
      if attempt == maximum_attempts
      then raise e
      else consumer (event_of attempt) >> loop left (attempt + 1)

  attempt-Ended :
      (attempt left : ℕ) (w : W) (r : Result BatchError A × W)
      → Retried attempt w
      → attempt ≤ maximum_attempts
      → (attempt < maximum_attempts
          → (w₂ : W) → Retried (attempt + 1) w₂
          → EndsWithin (loop left (attempt + 1) w₂))
      → action w ≡ r
      → EndsWithin (on_retryable retryable r.0 (handler_of left attempt) r.1)
  attempt-Ended attempt left w (ok a, w₁) before bound rest called =
      (attempt, bound, returned before called)
  attempt-Ended attempt left w (err e, w₁) before bound rest called =
      if-holds (λ (f : Action W BatchError A). EndsWithin (f w₁)) (retryable e)
        (λ p.
          if-holds (λ (f : Action W BatchError A). EndsWithin (f w₁)) (attempt == maximum_attempts)
            (λ q.
              (attempt, bound, exhausted before called p ((==_iff attempt maximum_attempts).0 q)))
            (λ q.
              let more : attempt < maximum_attempts = grind arith in
              told-Ended attempt left w w₁ e (consumer (event_of attempt) w₁) before called p more
                (rest more) refl))
        (λ p. (attempt, bound, failed before called p))

  pub loop-Ended :
      (left attempt : ℕ) (w : W)
      → left + attempt ≡ maximum_attempts + 1
      → 1 ≤ left
      → Retried attempt w
      → EndsWithin (loop left attempt w)
  unfolding retry_loop
  loop-Ended zero attempt w total more before = absurd (omega arith)
  loop-Ended (suc left) attempt w total more before =
      attempt-Ended attempt left w (action w) before (omega arith)
        (λ below w₂ next. loop-Ended left (attempt + 1) w₂ (omega arith) (omega arith) next) refl

  retry_step :
      (left attempt : ℕ) (w w₁ w₂ : W) (e : BatchError)
      → attempt < maximum_attempts
      → action w ≡ (err e, w₁)
      → retryable e ≡ true
      → consumer (event_of attempt) w₁ ≡ (ok tt, w₂)
      → loop (suc left) attempt w ≡ loop left (attempt + 1) w₂
  unfolding retry_loop
  retry_step left attempt w w₁ w₂ e more raised again_ok told =
      let different : (attempt == maximum_attempts) ≡ false = grind arith in
      rw (raised, again_ok, different, told) refl

  -- The loop goes on from any state that it comes to.
  Retried-loop :
      (left attempt : ℕ) (w : W)
      → 1 ≤ left
      → left + attempt ≡ maximum_attempts + 1
      → Retried attempt w
      → loop maximum_attempts 1 start ≡ loop left attempt w
  Retried-loop left _ _ more total first = ap (λ n. loop n 1 start) (omega arith)
  Retried-loop left _ w₂ more total (again {attempt} {w} {w₁} {e = e} before raised again_ok told) =
      Retried-loop (suc left) attempt w (omega arith) (omega arith) before
      ∙ retry_step left attempt w w₁ w₂ e (omega arith) raised again_ok told

  loop_returns :
      (left attempt : ℕ) (w w₁ : W) (a : A)
      → action w ≡ (ok a, w₁)
      → loop (suc left) attempt w ≡ (ok a, w₁)
  unfolding retry_loop
  loop_returns left attempt w w₁ a returned_a = rw returned_a refl

module _ {W A : Type 0} (retryable : BatchError → Bool) (operation : String)
    (action : Action W BatchError A) (maximum_attempts : ℕ)
    (observer : Option (RetryObserver W)) where
  -- With at least one attempt, calls with retries end at some attempt within the bound: it
  -- returned, or raised an error that is not retried, or it was the last, or the observer of
  -- its retry raised. All attempts before it raised errors that are retried.
  pub retry_call-EndsWithin :
      (w : W)
      → 1 ≤ maximum_attempts
      → EndsWithin retryable operation action maximum_attempts
          (consumer_of observer)
          w
          (retry_call retryable operation action maximum_attempts observer w)
  unfolding retry_call
  retry_call-EndsWithin w positive =
      if-holds
        (λ (f : Action W BatchError A).
          EndsWithin retryable operation action maximum_attempts (consumer_of observer) w (f w))
        (ltb maximum_attempts 1) (λ p. absurd (ground arith))
        (λ p.
          loop-Ended retryable operation action maximum_attempts (consumer_of observer) w
            maximum_attempts 1 w (omega arith) positive first)

  -- If some attempt within the bound returns, and each attempt before it raises an error that
  -- is retried and is reported without an exception, the calls return that attempt's result.
  pub retry_call_returns :
      (start : W) (attempt : ℕ) (w w₁ : W) (a : A)
      → 1 ≤ attempt
      → attempt ≤ maximum_attempts
      → Retried retryable operation action maximum_attempts (consumer_of observer) start attempt w
      → action w ≡ (ok a, w₁)
      → retry_call retryable operation action maximum_attempts observer start ≡ (ok a, w₁)
  unfolding retry_call
  retry_call_returns start attempt w w₁ a positive bound before returned_a =
      let small : ltb maximum_attempts 1 ≡ false = ground arith in
      rw small (
        Retried-loop retryable operation action maximum_attempts (consumer_of observer) start
          (suc (maximum_attempts - attempt)) attempt w (omega arith) (omega arith) before
        ∙ loop_returns retryable operation action maximum_attempts (consumer_of observer) start
            (maximum_attempts - attempt) attempt w w₁ a returned_a)
