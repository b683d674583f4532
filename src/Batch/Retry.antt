-- ===== src/Batch/Retry.antt =====
-- src/alfabetizacao_pipeline/batch/google_adapters.py: bounded retries. The action and the observer
-- that is told of a retry are parameters, with the state that they change; an observer may raise.
pub mod Outcomes
pub mod Rules
use tech_challenge_fase2_alf.Prelude.Text.{show}
use tech_challenge_fase2_alf.Prelude.Results.{Result, ok, err}
use tech_challenge_fase2_alf.Prelude.Actions.{Action, pure, raise, ◌>>◌}
use tech_challenge_fase2_alf.Prelude.{
  ◌≡◌, String, Option, Bool, ℕ, some, if◌then◌else◌, none, suc, ltb, ◌+◌, ◌==◌, zero, nat_eq,
}
use tech_challenge_fase2_alf.Batch.Errors.{BatchError, value_error, runtime_error}

pub record RetryEvent : Type 0 where
  pub operation : String
  pub attempt : ℕ
  pub maximum_attempts : ℕ

-- `retrying`
abbrev pub RetryObserver : Type 0 → Type 0
RetryObserver W = RetryEvent → Action W BatchError (Unit {0})

-- `NullRetryObserver`
abbrev pub null_observer : {W : Type 0} → RetryObserver W
null_observer event = pure tt

-- `observer or NullRetryObserver()`
abbrev pub consumer_of : {W : Type 0} → Option (RetryObserver W) → RetryObserver W
consumer_of none = null_observer
consumer_of (some observer) = observer

module _ {W A : Type 0} (retryable : BatchError → Bool) where
  abbrev pub on_retryable :
      Result BatchError A → (BatchError → Action W BatchError A) → Action W BatchError A
  on_retryable (ok a) handler = pure a
  on_retryable (err e) handler = if retryable e then handler e else raise e

  -- `try: return action() except retryable: handler`
  abbrev pub except_retryable :
      Action W BatchError A → (BatchError → Action W BatchError A) → Action W BatchError A
  except_retryable action handler w = let r = action w in on_retryable r.0 handler r.1

  module _ (operation : String) (action : Action W BatchError A) (maximum_attempts : ℕ)
      (consumer : RetryObserver W) where
    -- The loop from `attempt`, with `left` attempts to go.
    unfoldable pub retry_loop : ℕ → ℕ → Action W BatchError A
    retry_loop zero attempt = raise (runtime_error operation)
    retry_loop (suc left) attempt =
        let rest = retry_loop left (attempt + 1) in
        except_retryable action (λ e.
          if attempt == maximum_attempts
          then raise e
          else consumer (record {
            operation = operation;
            attempt = attempt;
            maximum_attempts = maximum_attempts;
          })
            >> rest)

  unfoldable pub retry_call :
      String → Action W BatchError A → ℕ → Option (RetryObserver W) → Action W BatchError A
  retry_call operation action maximum_attempts observer =
      if ltb maximum_attempts 1
      then raise (value_error (show maximum_attempts))
      else retry_loop operation action maximum_attempts (consumer_of observer) maximum_attempts 1
