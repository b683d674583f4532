-- ===== src/Streaming/Producer.antt =====
-- src/alfabetizacao_pipeline/streaming/avro_types.py, publisher.py and producer.py: the records of
-- a release and their publication. fastavro's writer, `encode_event`, is a parameter, which gives
-- none where the Python function raises `AvroContractError`; the text of a time is a parameter.
pub mod Published
use tech_challenge_fase2_alf.Prelude.Text.{show_02}
use tech_challenge_fase2_alf.Prelude.{
  String, ℕ, List, Option, some, none, Bool, ◌+◌, ◌∷◌, if◌then◌else◌, ◌<>◌, ◌*◌, is_none, [],
}
use tech_challenge_fase2_alf.Prelude.Actions.{Action, ◌>>=◌, pure, raise}
use tech_challenge_fase2_alf.Prelude.Results.{Result, ok, err}
use tech_challenge_fase2_alf.Batch.Models.{Bytes, Instant}

pub record AvroTransportRecord (Rate : Type 0) : Type 0 where
  pub schema_version : String
  pub event_id : String
  pub event_type : String
  pub simulation : Bool
  pub event_time : String
  pub ano : ℕ
  pub id_municipio : String
  pub rede : String
  pub taxa_alfabetizacao : Rate
  pub participacao : Option Rate
  pub producer : String
  pub correlation_id : String

pub record DemoFixture (Rate Incompatible : Type 0) : Type 0 where
  pub accepted : List (AvroTransportRecord Rate)
  pub schema_incompatible : Incompatible

pub record ReleaseContext : Type 0 where
  pub target_year : ℕ
  pub base_time : Instant
  pub correlation_id : Option String

pub record PublishReceipt : Type 0 where
  pub message_id : String
  pub correlation_id : String

pub data ProducerError : Type 0 where
  avro_contract : ProducerError
  -- An exception of the Pub/Sub client.
  publish_failed : ProducerError

-- Where the fixture goes.
pub data ProducerMode : Type 0 where
  to_local to_pubsub : ProducerMode

-- The fixture at `fixture_path` is an argument beside the request.
pub record ProducerRequest : Type 0 where
  pub mode : ProducerMode
  pub topic : String
  pub release : ReleaseContext

pub record ProducerReport : Type 0 where
  pub published : ℕ
  pub schema_rejected : ℕ
  pub mode : ProducerMode
  pub target_year : ℕ
  pub base_time : String

-- The port of publication: the future is awaited at once, so a call gives the message id.
pub record Publisher (W : Type 0) : Type 0 where
  pub publish : String → Bytes → String → Action W ProducerError String

module _ {Rate : Type 0} (time_text : Instant → String) where
  -- A record of the fixture, with the year, the time and the correlation of the run. A second is a
  -- million microseconds.
  unfoldable pub prepared : ReleaseContext → ℕ → AvroTransportRecord Rate → AvroTransportRecord Rate
  prepared release index r = record r {
    ano = release.target_year;
    event_time = time_text (release.base_time + index * 1000000);
    correlation_id = elim release.correlation_id [ none ↦ r.correlation_id | some id ↦ id ];
  }

  unfoldable pub prepare_from :
      ReleaseContext → ℕ → List (AvroTransportRecord Rate) → List (AvroTransportRecord Rate)
  prepare_from release index [] = []
  prepare_from release index (r ∷ rs) =
      prepared release index r ∷ prepare_from release (index + 1) rs

  unfoldable pub accepted_records_for_release :
      {Incompatible : Type 0}
      → DemoFixture Rate Incompatible
      → ReleaseContext
      → List (AvroTransportRecord Rate)
  accepted_records_for_release fixture release = prepare_from release 1 fixture.accepted

module _ {Rate W : Type 0} (encode_event : AvroTransportRecord Rate → Option Bytes)
    (publisher : Publisher W) where
  unfoldable pub publish_checked :
      String → AvroTransportRecord Rate → Action W ProducerError PublishReceipt
  publish_checked topic r = elim (encode_event r) [
    | none ↦ raise avro_contract
    | some payload ↦ do
      id ← publisher.publish topic payload r.correlation_id
      pure (record { message_id = id; correlation_id = r.correlation_id })
  ]

  -- The loop of `run_producer`, with the number published so far.
  unfoldable pub publish_loop :
      String → ℕ → List (AvroTransportRecord Rate) → Action W ProducerError ℕ
  publish_loop topic published [] = pure published
  publish_loop topic published (r ∷ rs) = do
    receipt ← publish_checked topic r
    publish_loop topic (published + 1) rs

module _ {Rate Incompatible W : Type 0} (time_text : Instant → String)
    (encode_event : AvroTransportRecord Rate → Option Bytes)
    (encode_incompatible : Incompatible → Option Bytes) (publisher : Publisher W) where
  unfoldable pub run_producer :
      ProducerRequest → DemoFixture Rate Incompatible → Action W ProducerError ProducerReport
  run_producer request fixture = do
    published ←
        publish_loop encode_event publisher request.topic 0
          (accepted_records_for_release time_text fixture request.release)
    pure (record {
      published = published;
      schema_rejected = if is_none (encode_incompatible fixture.schema_incompatible) then 1 else 0;
      mode = request.mode;
      target_year = request.release.target_year;
      base_time = time_text request.release.base_time;
    })

-- `_LocalPublisher`, whose state is the number published.
unfoldable pub local_publisher : Publisher ℕ
local_publisher = record {
  publish = λ topic payload correlation_id n. (ok ("local-" <> show_02 (n + 1)), n + 1);
}
