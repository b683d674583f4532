-- ===== src/Streaming/WorkflowState.antt =====
-- src/alfabetizacao_pipeline/streaming/workflow_state.py: `evaluate_poll`.
pub mod Polling
use tech_challenge_fase2_alf.Prelude.{
  ℕ, Bool, Option, List, some, none, sliced, ℤ, true, ◌∷◌, false, last?, [],
}

pub data JobState : Type 0 where
  pending running draining drained cancelled failed : JobState

pub record PollPolicy : Type 0 where
  pub target : JobState
  pub max_polls : ℤ

pub record PollResult : Type 0 where
  pub success : Bool
  pub cancel_required : Bool
  pub final_state : JobState

-- What the `match` does with one state: return, or go on with the loop.
abbrev pub poll_one : JobState → JobState → Option PollResult
poll_one drained drained =
    some (record { success = true; cancel_required = false; final_state = drained })
poll_one running running =
    some (record { success = true; cancel_required = false; final_state = running })
poll_one cancelled target =
    some (record { success = false; cancel_required = false; final_state = cancelled })
poll_one failed target =
    some (record { success = false; cancel_required = false; final_state = failed })
poll_one state target = none

unfoldable pub poll_loop : JobState → List JobState → Option PollResult
poll_loop target [] = none
poll_loop target (state ∷ states) =
    let rest = poll_loop target states in
    elim (poll_one state target) [ some result ↦ some result | none ↦ rest ]

-- `observed[-1] if observed else JobState.PENDING`
abbrev pub final_observed : Option JobState → JobState
final_observed none = pending
final_observed (some state) = state

unfoldable pub evaluate_poll : List JobState → PollPolicy → PollResult
evaluate_poll states policy =
    let observed = sliced policy.max_polls states in
    elim (poll_loop policy.target observed) [
      | some result ↦ result
      | none ↦ record {
        success = false;
        cancel_required = true;
        final_state = final_observed (last? observed);
      }
    ]
