-- ===== src/Streaming/Codec.antt =====
-- src/alfabetizacao_pipeline/streaming/avro_codec.py, and the validation of
-- streaming/models.py. fastavro's reader and writer, and pydantic's reading of texts and its
-- comparison of floats, are parameters. The year is a natural number: a negative one is out of its
-- bounds too.
pub mod Prepared
use tech_challenge_fase2_alf.Batch.Models.{Bytes, Instant}
use tech_challenge_fase2_alf.Prelude.Chars.{all_chars, text_count}
use tech_challenge_fase2_alf.Prelude.Results.{Result, ok, err, ◌>>=◌}
use tech_challenge_fase2_alf.Streaming.Models.{
  MunicipalLiteracyRateUpdated, Rede, total, estadual, municipal, publica,
}
use tech_challenge_fase2_alf.Streaming.Producer.{AvroTransportRecord}
use tech_challenge_fase2_alf.Prelude.{
  String, Bool, ℕ, Option, none, some, true, ◌&&◌, not, leb, ◌==◌, string_eq, nat_eq, if◌then◌else◌,
}
use Prim.Native.Char.{Char}

-- A `datetime`, with the size of its `utcoffset` in microseconds if it has one.
pub record ParsedTime : Type 0 where
  pub instant : Instant
  pub offset : Option ℕ

-- What the codec and the model call.
pub record EventLibraries (Rate : Type 0) : Type 0 where
  -- none where fastavro raises an error that the code catches
  pub schemaless_writer : AvroTransportRecord Rate → Option Bytes
  pub schemaless_reader : Bytes → Option (AvroTransportRecord Rate)
  -- the canonical text of a UUID
  pub parse_uuid : String → Option String
  pub parse_datetime : String → Option ParsedTime
  -- `\d`
  pub is_digit : Char → Bool
  -- `ge=0, le=100`
  pub is_percentage : Rate → Bool

-- `AvroContractError`, by its reason.
pub data CodecError : Type 0 where
  avro_contract_error : String → CodecError

-- `_require_utc`
unfoldable pub require_utc : Option ParsedTime → Option Instant
require_utc none = none
require_utc (some time) = elim time.offset [
  | none ↦ none
  | some size ↦ if size == 0 then some time.instant else none
]

unfoldable pub rede_of : String → Option Rede
rede_of text =
    if text == "total"
    then some total
    else if text == "estadual"
    then some estadual
    else if text == "municipal"
    then some municipal
    else if text == "publica"
    then some publica
    else none

-- `min_length`, `max_length`
abbrev pub has_length : ℕ → ℕ → String → Bool
has_length minimum maximum text = leb minimum (text_count text) && leb (text_count text) maximum

module _ {Rate : Type 0} (libs : EventLibraries Rate) where
  -- `^\d{7}$`
  abbrev pub is_municipality : String → Bool
  is_municipality text = all_chars libs.is_digit text && (text_count text == 7)

  abbrev pub is_optional_percentage : Option Rate → Bool
  is_optional_percentage none = true
  is_optional_percentage (some rate) = libs.is_percentage rate

  -- The checks of the fields that keep their value, and `reject_sentinel_municipality`.
  unfoldable pub has_valid_fields : AvroTransportRecord Rate → Bool
  has_valid_fields r =
      r.schema_version == "1.0"
      && r.event_type == "municipal_literacy_rate.updated"
      && r.simulation
      && leb 2000 r.ano
      && leb r.ano 2100
      && is_municipality r.id_municipio
      && libs.is_percentage r.taxa_alfabetizacao
      && is_optional_percentage r.participacao
      && has_length 1 80 r.producer
      && has_length 1 128 r.correlation_id
      && not (r.id_municipio == "0000000")

  abbrev pub semantic_error : CodecError
  semantic_error = avro_contract_error "payload Avro inválido ou semanticamente incompatível"

  -- The event of the fields, if each of them is valid.
  abbrev pub assembled :
      AvroTransportRecord Rate
      → Option String
      → Option Instant
      → Option Rede
      → Result CodecError (MunicipalLiteracyRateUpdated Rate)
  assembled r (some event_id) (some event_time) (some rede) =
      if has_valid_fields r
      then ok (record {
        event_id = event_id;
        event_time = event_time;
        ano = r.ano;
        id_municipio = r.id_municipio;
        rede = rede;
        taxa_alfabetizacao = r.taxa_alfabetizacao;
        participacao = r.participacao;
        producer = r.producer;
        correlation_id = r.correlation_id;
      })
      else err semantic_error
  assembled r _ _ _ = err semantic_error

  -- `model_validate`, whose error `decode_event` replaces
  unfoldable pub model_validate :
      AvroTransportRecord Rate → Result CodecError (MunicipalLiteracyRateUpdated Rate)
  model_validate r =
      assembled r (libs.parse_uuid r.event_id) (require_utc (libs.parse_datetime r.event_time))
        (rede_of r.rede)

  abbrev pub or_unreadable :
      Option (AvroTransportRecord Rate) → Result CodecError (AvroTransportRecord Rate)
  or_unreadable none = err (avro_contract_error "payload Avro estruturalmente inválido")
  or_unreadable (some r) = ok r

  unfoldable pub decode_transport_record : Bytes → Result CodecError (AvroTransportRecord Rate)
  decode_transport_record payload = or_unreadable (libs.schemaless_reader payload)

  -- The error of the transport record passes.
  unfoldable pub decode_event : Bytes → Result CodecError (MunicipalLiteracyRateUpdated Rate)
  decode_event payload = do r ← decode_transport_record payload; model_validate r

  unfoldable pub encode_event : AvroTransportRecord Rate → Result CodecError Bytes
  encode_event r = elim (libs.schemaless_writer r) [
    | none ↦ err (avro_contract_error "registro incompatível com MunicipalLiteracyRateUpdatedV1")
    | some payload ↦ ok payload
  ]
