-- ===== src/Tests/Routes.antt =====
-- The codec and the routing on a small library of codecs.
use tech_challenge_fase2_alf.Streaming.Codec.Prepared.{CodecLaws, decode_event-encode_event}
use tech_challenge_fase2_alf.Streaming.Codec.{
  EventLibraries, decode_event, model_validate, encode_event, has_valid_fields, require_utc,
  rede_of,
}
use tech_challenge_fase2_alf.Streaming.Producer.{AvroTransportRecord, ReleaseContext, prepared}
use tech_challenge_fase2_alf.Streaming.Models.{MunicipalLiteracyRateUpdated, municipal}
use tech_challenge_fase2_alf.Streaming.Routes.{
  BeamEnvelope, RouteLibraries, process, route_collections,
}
use tech_challenge_fase2_alf.Streaming.Routes.Agreement.{
  message_of, route_collections-process_messages,
}
use tech_challenge_fase2_alf.Streaming.Routes.Stored.{IsStored, process-IsStored, ReadsTimes}
use tech_challenge_fase2_alf.Streaming.Processor.{process_messages}
use tech_challenge_fase2_alf.Batch.Models.{Bytes}
use tech_challenge_fase2_alf.Prelude.Chars.{text_count, all_chars}
use tech_challenge_fase2_alf.Prelude.Results.{ok}
use tech_challenge_fase2_alf.Prelude.{
  String, ℕ, suc, zero, Option, some, none, true, List, [], ◌∷◌, map, ◌≡◌, refl, ap, Bool, ◌&&◌,
  ◌==◌, if◌then◌else◌, arith, string_eq, nat_eq, is_none, ==_iff, sym, false,
}

-- A time is as many letters.
unfoldable tally : ℕ → String
tally zero = ""
tally (suc n) = String.◌∷◌ "x" (tally n)

text_count-tally : (n : ℕ) → text_count (tally n) ≡ n
unfolding tally text_count
text_count-tally zero = refl
text_count-tally (suc n) = ap suc (text_count-tally n)

-- The one record that is written.
abbrev written : AvroTransportRecord ℕ
written = record {
  schema_version = "1.0";
  event_id = "id";
  event_type = "municipal_literacy_rate.updated";
  simulation = true;
  event_time = "xxx";
  ano = 2024;
  id_municipio = "3550308";
  rede = "municipal";
  taxa_alfabetizacao = 50;
  participacao = none;
  producer = "demo";
  correlation_id = "run";
}

abbrev is_written : AvroTransportRecord ℕ → Bool
is_written r =
    r.schema_version == "1.0"
    && r.event_id == "id"
    && r.event_type == "municipal_literacy_rate.updated"
    && r.simulation
    && r.event_time == "xxx"
    && r.ano == 2024
    && r.id_municipio == "3550308"
    && r.rede == "municipal"
    && r.taxa_alfabetizacao == 50
    && is_none r.participacao
    && r.producer == "demo"
    && r.correlation_id == "run"

abbrev read : Bytes → Option (AvroTransportRecord ℕ)
read [] = none
read (b ∷ bytes) = some written

unfoldable libs : EventLibraries ℕ
libs = record {
  schemaless_writer = λ r. if is_written r then some (1 ∷ []) else none;
  schemaless_reader = read;
  parse_uuid = λ text. some text;
  parse_datetime = λ text. some (record { instant = text_count text; offset = some 0 });
  is_digit = λ c. true;
  is_percentage = λ rate. true;
}

is_none_inv : (o : Option ℕ) → is_none o ≡ true → o ≡ none
is_none_inv none h = refl
is_none_inv (some n) h = absurd (ground arith)

reads_back :
    (r : AvroTransportRecord ℕ) (b : Bool) (payload : Bytes)
    → (b ≡ true → r ≡ written)
    → (if b then some (1 ∷ []) else none) ≡ some payload
    → read payload ≡ some r
reads_back r true [] same h = absurd (ground arith)
reads_back r true (p ∷ payload) same h = ap some (sym (same refl))
reads_back r false payload same h = absurd (ground arith)

is_written_inv : (r : AvroTransportRecord ℕ) → is_written r ≡ true → r ≡ written
is_written_inv r h =
    let schema_version = (==_iff r.schema_version "1.0").0 (ground arith) in
    let event_id = (==_iff r.event_id "id").0 (ground arith) in
    let event_type = (==_iff r.event_type "municipal_literacy_rate.updated").0 (ground arith) in
    let simulation : r.simulation ≡ true = ground arith in
    let event_time = (==_iff r.event_time "xxx").0 (ground arith) in
    let ano = (==_iff r.ano 2024).0 (ground arith) in
    let id_municipio = (==_iff r.id_municipio "3550308").0 (ground arith) in
    let rede = (==_iff r.rede "municipal").0 (ground arith) in
    let taxa_alfabetizacao = (==_iff r.taxa_alfabetizacao 50).0 (ground arith) in
    let participacao : r.participacao ≡ none = is_none_inv r.participacao (ground arith) in
    let producer = (==_iff r.producer "demo").0 (ground arith) in
    let correlation_id = (==_iff r.correlation_id "run").0 (ground arith) in
    λ i. record {
      schema_version = schema_version i;
      event_id = event_id i;
      event_type = event_type i;
      simulation = simulation i;
      event_time = event_time i;
      ano = ano i;
      id_municipio = id_municipio i;
      rede = rede i;
      taxa_alfabetizacao = taxa_alfabetizacao i;
      participacao = participacao i;
      producer = producer i;
      correlation_id = correlation_id i;
    }

laws : CodecLaws libs tally
unfolding libs
laws = record {
  reader_reads = λ r payload h. reads_back r (is_written r) payload (is_written_inv r) h;
  time_reads = λ t. ap (λ n. some (record { instant = n; offset = some 0 })) (text_count-tally t);
}

abbrev release : ReleaseContext
release = record { target_year = 2024; base_time = 3; correlation_id = some "run" }

abbrev event : MunicipalLiteracyRateUpdated ℕ
event = record {
  event_id = "id";
  event_time = 3;
  ano = 2024;
  id_municipio = "3550308";
  rede = municipal;
  taxa_alfabetizacao = 50;
  participacao = none;
  producer = "demo";
  correlation_id = "run";
}

decode_event-encode_event_example : decode_event libs (1 ∷ []) ≡ ok event
unfolding libs model_validate encode_event has_valid_fields prepared tally text_count string_eq
    nat_eq require_utc rede_of all_chars
decode_event-encode_event_example =
    decode_event-encode_event libs tally laws release 0 written event (1 ∷ []) refl (omega arith)
      (omega arith) refl refl

-- The same decoder, and a time that is written as its letters.
unfoldable routing : RouteLibraries ℕ ℕ
routing = record {
  decode_event = λ payload. elim payload [ [] ↦ none | b ∷ bytes ↦ some event ];
  sha256_hex = λ payload. "hash";
  isoformat = tally;
  fromisoformat = λ text. some (text_count text);
  decimal_of = λ rate. rate;
}

abbrev envelope : String → Bytes → BeamEnvelope
envelope id payload = record {
  message_id = id;
  payload = payload;
  publish_time = 5;
  ingestion_time = 6;
  correlation_id = none;
}

reads_times : ReadsTimes routing
unfolding routing
reads_times t = ap some (text_count-tally t)

process-IsStored_example :
    IsStored routing (envelope "a" (1 ∷ [])) (process routing (envelope "a" (1 ∷ [])))
process-IsStored_example = process-IsStored routing reads_times (envelope "a" (1 ∷ []))

abbrev envelopes : List BeamEnvelope
envelopes = envelope "a" (1 ∷ []) ∷ envelope "b" [] ∷ envelope "c" (2 ∷ []) ∷ []

route_collections-process_messages_example :
    map (λ row. row.message_id) (route_collections routing envelopes).quarantine
    ≡ map
        (λ q. q.message_id)
        (process_messages routing.decode_event (map message_of envelopes)).quarantine
unfolding string_eq
route_collections-process_messages_example =
    route_collections-process_messages routing envelopes (refl, (refl, (refl, tt)))
