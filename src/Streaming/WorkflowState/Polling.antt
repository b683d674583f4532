-- ===== src/Streaming/WorkflowState/Polling.antt =====
-- What `evaluate_poll` reports of the states that it may look at.
use tech_challenge_fase2_alf.Prelude.{
  Bool, List, Option, ◌≡◌, true, false, sliced, none, some, ◌∷◌, arith, ◌↔◌, ◌⊎◌, sym, All, [], ◌∙◌,
  refl, Option-cases, inl, inr,
}
use tech_challenge_fase2_alf.Streaming.WorkflowState.{
  JobState, running, drained, cancelled, failed, PollPolicy, PollResult, poll_one, poll_loop,
  evaluate_poll,
}

-- The targets that a policy can wait for.
abbrev pub awaited : JobState → Bool
awaited running = true
awaited drained = true
awaited _ = false

-- The states that end the polling without success.
abbrev pub is_dead : JobState → Bool
is_dead cancelled = true
is_dead failed = true
is_dead _ = false

-- The target is met before any dead state.
pub data Reached (target : JobState) : List JobState → Type 0 where
  now : {states : List JobState} → awaited target ≡ true → Reached target (target ∷ states)
  later :
      {state : JobState} {states : List JobState}
      → is_dead state ≡ false
      → Reached target states
      → Reached target (state ∷ states)

abbrev succeeds : Option PollResult → Bool
succeeds none = false
succeeds (some result) = result.success

poll_loop-Reached :
    (target : JobState) (states : List JobState)
    → succeeds (poll_loop target states) ≡ true
    → Reached target states
unfolding poll_loop
poll_loop-Reached target [] h = cc
poll_loop-Reached drained (drained ∷ ss) h = now refl
poll_loop-Reached running (running ∷ ss) h = now refl
poll_loop-Reached target (cancelled ∷ ss) h = cc
poll_loop-Reached target (failed ∷ ss) h = cc
poll_loop-Reached target (s ∷ ss) h = later refl (poll_loop-Reached target ss h)

loop_of_Reached :
    (target : JobState) (states : List JobState)
    → Reached target states
    → succeeds (poll_loop target states) ≡ true
unfolding poll_loop
loop_of_Reached target _ (now {states = ss} h) = ground arith
loop_of_Reached target _ (later {state = s} {states = ss} h r) =
    ground (arith, loop_of_Reached target ss r)

evaluate_poll-success :
    (states : List JobState) (policy : PollPolicy)
    → (evaluate_poll states policy).success
      ≡ succeeds (poll_loop policy.target (sliced policy.max_polls states))
unfolding evaluate_poll
evaluate_poll-success states policy = ground arith

-- A poll succeeds exactly when its target can be awaited and is met, among the states of the
-- slice up to max_polls, before any cancelled or failed state.
pub evaluate_poll-success_iff :
    (states : List JobState) (policy : PollPolicy)
    → ((evaluate_poll states policy).success ≡ true)
      ↔ Reached policy.target (sliced policy.max_polls states)
evaluate_poll-success_iff states policy = (
  λ h.
      poll_loop-Reached policy.target (sliced policy.max_polls states)
        (sym (evaluate_poll-success states policy) ∙ h),
  λ r.
      evaluate_poll-success states policy
      ∙ loop_of_Reached policy.target (sliced policy.max_polls states) r,
)

-- The state decides the poll: it is dead, or it is a target that can be awaited.
abbrev pub Decides : JobState → JobState → Type 0
Decides target state = (is_dead state ≡ true) ⊎ ((awaited target ≡ true) × (state ≡ target))

poll_one-eq-none_iff :
    (state target : JobState) → (poll_one state target ≡ none) ↔ ¬ Decides target state
poll_one-eq-none_iff state target = ground arith

loop-eq-none_iff :
    (target : JobState) (states : List JobState)
    → (poll_loop target states ≡ none) ↔ All (λ s. ¬ Decides target s) states
unfolding poll_loop
loop-eq-none_iff target [] = (λ h. tt, λ h. refl)
loop-eq-none_iff target (s ∷ ss) =
    let here = poll_one-eq-none_iff s target in
    let rest = loop-eq-none_iff target ss in
    (
      λ h. (here.0 (ground arith), rest.0 (ground arith)),
      λ h. rw (here.1 h.0, poll_loop) (rest.1 h.1),
    )

-- A poll that is decided asks for no cancellation.
poll_one-cancel :
    (state target : JobState) (r : PollResult)
    → poll_one state target ≡ some r
    → r.cancel_required ≡ false
poll_one-cancel state target r h = ground arith

loop-cancel :
    (target : JobState) (states : List JobState) (r : PollResult)
    → poll_loop target states ≡ some r
    → r.cancel_required ≡ false
unfolding poll_loop
loop-cancel target [] r h = cc
loop-cancel target (s ∷ ss) r h =
    ground (arith, poll_one-cancel s target r, loop-cancel target ss r)

-- Cancellation is asked for exactly when no state of the slice up to max_polls decides the
-- poll.
pub evaluate_poll-cancel_iff :
    (states : List JobState) (policy : PollPolicy)
    → ((evaluate_poll states policy).cancel_required ≡ true)
      ↔ All (λ s. ¬ Decides policy.target s) (sliced policy.max_polls states)
unfolding evaluate_poll
evaluate_poll-cancel_iff states policy =
    let observed = sliced policy.max_polls states in
    let undecided = loop-eq-none_iff policy.target observed in
    elim (Option-cases (poll_loop policy.target observed)) [
      | inl e ↦ (λ h. undecided.0 e, λ h. rw (e, evaluate_poll))
      | inr (r, e) ↦ (
        λ h. absurd (ground (arith, loop-cancel policy.target observed r e)),
        λ h. absurd (cc (undecided.1 h)),
      )
    ]
