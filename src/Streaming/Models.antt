-- ===== src/Streaming/Models.antt =====
-- src/alfabetizacao_pipeline/streaming/models.py and envelope.py: the event and the messages.
-- A `UUID` is its canonical text, and a `datetime` in UTC an instant in microseconds. A rate is a
-- `float` of which only the bounds are read: it is a value of the abstract type `Rate`.
use tech_challenge_fase2_alf.Prelude.{String, ℕ, Option}
use tech_challenge_fase2_alf.Batch.Models.{Instant, Bytes}

pub data Rede : Type 0 where
  total estadual municipal publica : Rede

-- `schema_version`, `event_type` and `simulation` have one value each.
pub record MunicipalLiteracyRateUpdated (Rate : Type 0) : Type 0 where
  pub event_id : String
  pub event_time : Instant
  pub ano : ℕ
  pub id_municipio : String
  pub rede : Rede
  pub taxa_alfabetizacao : Rate
  pub participacao : Option Rate
  pub producer : String
  pub correlation_id : String

pub record MessageEnvelope : Type 0 where
  pub message_id : String
  pub payload : Bytes
  pub publish_time : Instant
  pub ingestion_time : Instant

pub record ValidMessage (Rate : Type 0) : Type 0 where
  pub message_id : String
  pub event : MunicipalLiteracyRateUpdated Rate
  pub publish_time : Instant
  pub ingestion_time : Instant

pub record QuarantinedMessage : Type 0 where
  pub message_id : String
  pub reason_code : String

pub record DuplicateAudit : Type 0 where
  pub message_id : String
  pub canonical_message_id : String
  pub event_id : String
