-- ===== src/Streaming/Routes.antt =====
-- src/alfabetizacao_pipeline/streaming/beam_routes.py and beam_sinks.py, with `pubsub_envelope` and
-- the two outputs of containers/dataflow/beam_entrypoint.py. The codec, SHA-256's hexadecimal
-- text, the text of a time and its reading, and the decimal of a float are parameters. A collection
-- of Beam is a list, in one of the orders that Beam may take.
pub mod Agreement
pub mod Stored
use tech_challenge_fase2_alf.Batch.Models.{Bytes, Instant}
use tech_challenge_fase2_alf.Streaming.Models.{MunicipalLiteracyRateUpdated, Rede}
use tech_challenge_fase2_alf.Prelude.{
  String, Bool, ℕ, Option, none, some, true, List, [], ◌∷◌, ◌==◌, if◌then◌else◌, string_eq,
}

pub record BeamEnvelope : Type 0 where
  pub message_id : String
  pub payload : Bytes
  pub publish_time : Instant
  pub ingestion_time : Instant
  pub correlation_id : Option String

pub record StagedEventRow (D : Type 0) : Type 0 where
  pub event_id : String
  pub message_id : String
  pub event_time : String
  pub publish_time : String
  pub ingestion_time : String
  pub ano : ℕ
  pub id_municipio : String
  pub rede : Rede
  pub taxa_alfabetizacao : D
  pub taxa_participacao : Option D
  pub correlation_id : String
  pub simulation : Bool

pub record QuarantineRow : Type 0 where
  pub message_id : String
  pub ingestion_time : String
  pub reason_code : String
  pub event_fingerprint : String
  pub correlation_id : Option String

pub record ValidStorageRow (D : Type 0) : Type 0 where
  pub event_id : String
  pub message_id : String
  pub event_time : Instant
  pub publish_time : Instant
  pub ingestion_time : Instant
  pub ano : ℕ
  pub id_municipio : String
  pub rede : Rede
  pub taxa_alfabetizacao : D
  pub taxa_participacao : Option D
  pub correlation_id : String
  pub simulation : Bool

pub record QuarantineStorageRow : Type 0 where
  pub message_id : String
  pub reason_code : String
  pub ingestion_time : Instant
  pub event_fingerprint : String
  pub correlation_id : Option String

-- What a message is routed to: the main output, or the one named `quarantine`.
pub data Routed (D : Type 0) : Type 0 where
  valid : StagedEventRow D → Routed D
  quarantine : QuarantineRow → Routed D

-- The two collections, `_RoutedCollections`.
pub record RoutedCollections (D : Type 0) : Type 0 where
  pub valid : List (StagedEventRow D)
  pub quarantine : List QuarantineRow

pub record RouteLibraries (Rate D : Type 0) : Type 0 where
  -- none where `decode_event` raises `AvroContractError`
  pub decode_event : Bytes → Option (MunicipalLiteracyRateUpdated Rate)
  pub sha256_hex : Bytes → String
  pub isoformat : Instant → String
  -- `Timestamp.from_utc_datetime(datetime.fromisoformat(text))`, none where it raises
  pub fromisoformat : String → Option Instant
  -- `Decimal(str(rate))`
  pub decimal_of : Rate → D

module _ {Rate D : Type 0} (libs : RouteLibraries Rate D) where
  abbrev pub optional_decimal : Option Rate → Option D
  optional_decimal none = none
  optional_decimal (some rate) = some (libs.decimal_of rate)

  -- The row of a decoded event; `simulation` is true in each event.
  abbrev pub staged_row : BeamEnvelope → MunicipalLiteracyRateUpdated Rate → StagedEventRow D
  staged_row envelope event = record {
    event_id = event.event_id;
    message_id = envelope.message_id;
    event_time = libs.isoformat event.event_time;
    publish_time = libs.isoformat envelope.publish_time;
    ingestion_time = libs.isoformat envelope.ingestion_time;
    ano = event.ano;
    id_municipio = event.id_municipio;
    rede = event.rede;
    taxa_alfabetizacao = libs.decimal_of event.taxa_alfabetizacao;
    taxa_participacao = optional_decimal event.participacao;
    correlation_id = event.correlation_id;
    simulation = true;
  }

  abbrev pub quarantine_row : BeamEnvelope → QuarantineRow
  quarantine_row envelope = record {
    message_id = envelope.message_id;
    ingestion_time = libs.isoformat envelope.ingestion_time;
    reason_code = "AVRO_OR_SEMANTIC_INVALID";
    event_fingerprint = libs.sha256_hex envelope.payload;
    correlation_id = envelope.correlation_id;
  }

  abbrev pub route_decoded : BeamEnvelope → Option (MunicipalLiteracyRateUpdated Rate) → Routed D
  route_decoded envelope none = quarantine (quarantine_row envelope)
  route_decoded envelope (some event) = valid (staged_row envelope event)

  -- `RouteEventDoFn.process`
  unfoldable pub process : BeamEnvelope → Routed D
  process envelope = route_decoded envelope (libs.decode_event envelope.payload)

  abbrev pub add_routed : Routed D → RoutedCollections D → RoutedCollections D
  add_routed (valid row) c = record c { valid = row ∷ c.valid }
  add_routed (quarantine row) c = record c { quarantine = row ∷ c.quarantine }

  -- `_route_collections`
  unfoldable pub route_collections : List BeamEnvelope → RoutedCollections D
  route_collections [] = record { valid = []; quarantine = [] }
  route_collections (envelope ∷ rest) = add_routed (process envelope) (route_collections rest)

  abbrev pub stored_at :
      StagedEventRow D
      → Option Instant
      → Option Instant
      → Option Instant
      → Option (ValidStorageRow D)
  stored_at row (some event_time) (some publish_time) (some ingestion_time) = some (record {
    event_id = row.event_id;
    message_id = row.message_id;
    event_time = event_time;
    publish_time = publish_time;
    ingestion_time = ingestion_time;
    ano = row.ano;
    id_municipio = row.id_municipio;
    rede = row.rede;
    taxa_alfabetizacao = row.taxa_alfabetizacao;
    taxa_participacao = row.taxa_participacao;
    correlation_id = row.correlation_id;
    simulation = row.simulation;
  })
  stored_at row _ _ _ = none

  unfoldable pub valid_storage_row : StagedEventRow D → Option (ValidStorageRow D)
  valid_storage_row row =
      stored_at row (libs.fromisoformat row.event_time) (libs.fromisoformat row.publish_time)
        (libs.fromisoformat row.ingestion_time)

  abbrev pub quarantined_at : QuarantineRow → Option Instant → Option QuarantineStorageRow
  quarantined_at row none = none
  quarantined_at row (some ingestion_time) = some (record {
    message_id = row.message_id;
    reason_code = row.reason_code;
    ingestion_time = ingestion_time;
    event_fingerprint = row.event_fingerprint;
    correlation_id = row.correlation_id;
  })

  unfoldable pub quarantine_storage_row : QuarantineRow → Option QuarantineStorageRow
  quarantine_storage_row row = quarantined_at row (libs.fromisoformat row.ingestion_time)

-- A message of Pub/Sub. Only one attribute is read.
pub record PubsubMessage : Type 0 where
  pub data_bytes : Bytes
  pub attribute_correlation_id : Option String
  pub message_id : Option String
  pub publish_time : Option Instant

-- `message_id or "missing-message-id"`
abbrev pub present_id : Option String → String
present_id none = "missing-message-id"
present_id (some id) = if id == "" then "missing-message-id" else id

-- `pubsub_envelope`, with the two readings of the clock; the first is not read where the message
-- has a time.
unfoldable pub pubsub_envelope : PubsubMessage → Instant → Instant → BeamEnvelope
pubsub_envelope message first second = record {
  message_id = present_id message.message_id;
  payload = message.data_bytes;
  publish_time = elim message.publish_time [ none ↦ first | some t ↦ t ];
  ingestion_time = second;
  correlation_id = message.attribute_correlation_id;
}
