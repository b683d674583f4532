-- ===== src/Tests/Streaming.antt =====
-- The streaming processor and the poll on small inputs.
use tech_challenge_fase2_alf.Streaming.WorkflowState.Polling.{
  Reached, Decides, evaluate_poll-success_iff, evaluate_poll-cancel_iff,
}
use tech_challenge_fase2_alf.Streaming.Processor.Redelivery.{process_messages-redelivered}
use tech_challenge_fase2_alf.Streaming.Processor.Accounting.{process_messages-accounted}
use tech_challenge_fase2_alf.Batch.Release.{running}
use tech_challenge_fase2_alf.Streaming.Processor.Newest.{
  event_id_of, HasNewest, process_messages-Distinct, process_messages-HasNewest,
}
use tech_challenge_fase2_alf.Streaming.WorkflowState.{
  JobState, PollPolicy, evaluate_poll, pending, drained, running, draining,
}
use tech_challenge_fase2_alf.Streaming.Processor.{process_messages}
use tech_challenge_fase2_alf.Streaming.Models.{
  MessageEnvelope, MunicipalLiteracyRateUpdated, municipal,
}
use tech_challenge_fase2_alf.Batch.Models.{Bytes}
use tech_challenge_fase2_alf.Prelude.{
  String, List, ℕ, ◌≡◌, Distinct, string_eq, Option, ◌∷◌, length, map, All, String-discrete, true,
  [], ◌+◌, ◌++◌, ◌↔◌, none, some, sliced, pos, refl,
}

-- A decoder for the examples: an empty payload is invalid, and the first byte is the event's time.
unfoldable decode : Bytes → Option (MunicipalLiteracyRateUpdated ℕ)
decode [] = none
decode (t ∷ bytes) = some (record {
  event_id = "e";
  event_time = t;
  ano = 2024;
  id_municipio = "3550308";
  rede = municipal;
  taxa_alfabetizacao = 50;
  participacao = none;
  producer = "demo";
  correlation_id = "c";
})

abbrev message : String → Bytes → MessageEnvelope
message id payload = record {
  message_id = id;
  payload = payload;
  publish_time = 5;
  ingestion_time = 6;
}

-- Two versions of one event, an invalid message and a redelivery.
abbrev messages : List MessageEnvelope
messages = message "a" (1 ∷ []) ∷ message "b" (2 ∷ []) ∷ message "c" [] ∷ message "a" (1 ∷ []) ∷ []

process_messages-accounted_example :
    let r = process_messages decode messages in
    (length r.raw + r.redelivery_count ≡ 4)
    × (length r.valid + length r.duplicates + length r.quarantine ≡ length r.raw)
process_messages-accounted_example = process_messages-accounted decode messages

process_messages-Distinct_example :
    Distinct (map event_id_of (process_messages decode messages).valid)
process_messages-Distinct_example = process_messages-Distinct decode messages

process_messages-HasNewest_example :
    let r = process_messages decode messages in All (HasNewest decode r.valid) r.raw
process_messages-HasNewest_example = process_messages-HasNewest decode messages

process_messages-redelivered_example :
    process_messages decode (messages ++ (message "b" (2 ∷ []) ∷ [])) ≡ (
      let r = process_messages decode messages in
      record r { redelivery_count = r.redelivery_count + 1 })
unfolding string_eq String-discrete
process_messages-redelivered_example =
    process_messages-redelivered decode messages (message "b" (2 ∷ []) ∷ []) (refl, tt)

abbrev states : List JobState
states = pending ∷ running ∷ draining ∷ drained ∷ []

abbrev drain : PollPolicy
drain = record { target = drained; max_polls = pos 3 }

evaluate_poll-success_iff_example :
    ((evaluate_poll states drain).success ≡ true) ↔ Reached drained (sliced (pos 3) states)
evaluate_poll-success_iff_example = evaluate_poll-success_iff states drain

evaluate_poll-cancel_iff_example :
    ((evaluate_poll states drain).cancel_required ≡ true)
    ↔ All (λ s. ¬ Decides drained s) (sliced (pos 3) states)
evaluate_poll-cancel_iff_example = evaluate_poll-cancel_iff states drain
