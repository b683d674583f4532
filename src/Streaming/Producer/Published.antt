-- ===== src/Streaming/Producer/Published.antt =====
-- What a run of the producer has published.
use tech_challenge_fase2_alf.Prelude.Text.{show_02}
use tech_challenge_fase2_alf.Prelude.Results.{ok, err, Result-cases}
use tech_challenge_fase2_alf.Batch.Models.{Instant, Bytes}
use tech_challenge_fase2_alf.Streaming.Producer.{
  AvroTransportRecord, publish_checked, publish_loop, DemoFixture, Publisher, local_publisher,
  PublishReceipt, prepare_from, run_producer, ok, accepted_records_for_release, ProducerReport,
  show_02, ProducerRequest,
}
use tech_challenge_fase2_alf.Prelude.{
  String, ℕ, Option, ◌≡◌, some, List, All, length, Option-cases, ◌∷◌, ◌+◌, if◌then◌else◌, inl,
  arith, ap, ◌↔◌, is_none, inr, ◌∙◌, suc, none, [], refl, ◌<>◌, subst,
}
use tech_challenge_fase2_alf.Prelude.Actions.{>>=-ok}

module _ {Rate : Type 0} (encode_event : AvroTransportRecord Rate → Option Bytes) where
  -- The record satisfies the schema.
  abbrev pub Encodes : AvroTransportRecord Rate → Type 0
  Encodes r = (payload : Bytes) × (encode_event r ≡ some payload)

  module _ {W : Type 0} (publisher : Publisher W) (topic : String) where
    -- The calls of the publisher between two states: one for each record, in their order, with
    -- the bytes that encode it and its correlation, each of which returns an id.
    abbrev pub AreSent : List (AvroTransportRecord Rate) → W → W → Type 0
    AreSent [] w w' = w ≡ w'
    AreSent (r ∷ rs) w w' =
        (payload : Bytes) × (message_id : String) × (encode_event r ≡ some payload)
        × ((publisher.publish topic payload r.correlation_id w).0 ≡ ok message_id)
        × AreSent rs (publisher.publish topic payload r.correlation_id w).1 w'

    publish_checked_inv :
        (r : AvroTransportRecord Rate) (w : W) (receipt : PublishReceipt)
        → (publish_checked encode_event publisher topic r w).0 ≡ ok receipt
        → (payload : Bytes) × (message_id : String) × (encode_event r ≡ some payload)
          × ((publisher.publish topic payload r.correlation_id w).0 ≡ ok message_id)
          × ((publish_checked encode_event publisher topic r w).1
              ≡ (publisher.publish topic payload r.correlation_id w).1)
    unfolding publish_checked
    publish_checked_inv r w receipt h = elim (Option-cases (encode_event r)) [
      | inl p ↦ absurd (ground arith)
      | inr (payload, p) ↦
          elim (Result-cases (publisher.publish topic payload r.correlation_id w).0) [
            | inl (message_id, q) ↦ (payload, message_id, p, q, rw (p, publish_checked, q) refl)
            | inr (e, q) ↦
                absurd
                  (let k : err e ≡ ok receipt = rw (p, publish_checked, q) at h in ground arith)
          ]
    ]

    publish_loop-AreSent :
        (rs : List (AvroTransportRecord Rate)) (published n : ℕ) (w w' : W)
        → publish_loop encode_event publisher topic published rs w ≡ (ok n, w')
        → AreSent rs w w' × (n ≡ published + length rs)
    unfolding publish_loop
    publish_loop-AreSent [] published n w w' h = (ap (λ r. r.1) h, ground arith)
    publish_loop-AreSent (r ∷ rs) published n w w' h =
        let (receipt, done, more) =
          >>=-ok (publish_checked encode_event publisher topic r) _ w w' n h in
        let (payload, message_id, encoded, sent, same) = publish_checked_inv r w receipt done in
        let (all, count) =
          publish_loop-AreSent rs (published + 1) n
            (publish_checked encode_event publisher topic r w).1 w' more in
        (
          (payload, message_id, encoded, sent, subst (λ v. AreSent rs v w') same all),
          omega (arith, count),
        )

  publish_checked-local :
      (topic : String) (r : AvroTransportRecord Rate) (payload : Bytes) (n : ℕ)
      → encode_event r ≡ some payload
      → publish_checked encode_event local_publisher topic r n ≡ (
        ok (record { message_id = "local-" <> show_02 (n + 1); correlation_id = r.correlation_id }),
        n + 1,
      )
  unfolding publish_checked local_publisher
  publish_checked-local topic r payload n h = rw (h, publish_checked) refl

  -- The local publisher takes every record that encodes.
  publish_loop-local :
      (topic : String) (rs : List (AvroTransportRecord Rate)) (published n : ℕ)
      → All Encodes rs
      → publish_loop encode_event local_publisher topic published rs n
        ≡ (ok (published + length rs), n + length rs)
  unfolding publish_loop
  publish_loop-local topic [] published n h = ground arith
  publish_loop-local topic (r ∷ rs) published n ((payload, e), hs) =
      rw (publish_checked-local topic r payload n e)
        (publish_loop-local topic rs (published + 1) (n + 1) hs ∙ ground arith)

module _ {Rate Incompatible : Type 0} (time_text : Instant → String)
    (encode_event : AvroTransportRecord Rate → Option Bytes)
    (encode_incompatible : Incompatible → Option Bytes) (request : ProducerRequest)
    (fixture : DemoFixture Rate Incompatible) where
  length-prepare_from :
      (index : ℕ) (rs : List (AvroTransportRecord Rate))
      → length (prepare_from time_text request.release index rs) ≡ length rs
  unfolding prepare_from
  length-prepare_from index [] = refl
  length-prepare_from index (r ∷ rs) = ap suc (length-prepare_from (index + 1) rs)

  abbrev records : List (AvroTransportRecord Rate)
  records = accepted_records_for_release time_text fixture request.release

  -- A run of the producer that returns has called the publisher once for each accepted record
  -- of the fixture, in their order and from the first state to the last, on the topic, with the
  -- bytes that encode the record for the run and with its correlation, and each call returned
  -- an id. The report counts the calls, and it counts the incompatible record as rejected
  -- exactly when that does not encode.
  pub run_producer-AreSent :
      {W : Type 0} (publisher : Publisher W) (w w' : W) (report : ProducerReport)
      → run_producer time_text encode_event encode_incompatible publisher request fixture w
        ≡ (ok report, w')
      → AreSent encode_event publisher request.topic
          (accepted_records_for_release time_text fixture request.release)
          w
          w'
        × (report.published ≡ length fixture.accepted)
        × ((report.schema_rejected ≡ 1) ↔ (encode_incompatible fixture.schema_incompatible ≡ none))
  unfolding run_producer accepted_records_for_release
  run_producer-AreSent publisher w w' report h =
      let (n, sent, more) =
        >>=-ok (publish_loop encode_event publisher request.topic 0 records) _ w w' report h in
      let (all, count) =
        publish_loop-AreSent encode_event publisher request.topic records 0 n w w' (ground arith) in
      (all, ground (arith, length-prepare_from 1 fixture.accepted), ground arith)

  -- The local publisher never stops a run whose records encode: it numbers each of them, and the
  -- report counts them.
  pub run_producer-local :
      (n : ℕ)
      → All (Encodes encode_event) (accepted_records_for_release time_text fixture request.release)
      → run_producer time_text encode_event encode_incompatible local_publisher request fixture n
        ≡ (
          ok (record {
            published = length fixture.accepted;
            schema_rejected =
                if is_none (encode_incompatible fixture.schema_incompatible) then 1 else 0;
            mode = request.mode;
            target_year = request.release.target_year;
            base_time = time_text request.release.base_time;
          }),
          n + length fixture.accepted,
        )
  unfolding run_producer accepted_records_for_release
  run_producer-local n h =
      let same = length-prepare_from 1 fixture.accepted in
      rw (publish_loop-local encode_event request.topic records 0 n h) (ground (arith, same))
