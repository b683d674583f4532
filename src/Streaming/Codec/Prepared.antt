-- ===== src/Streaming/Codec/Prepared.antt =====
-- src/alfabetizacao_pipeline/streaming/avro_codec.py: what the codec reads of a record that the
-- producer prepared.
use tech_challenge_fase2_alf.Prelude.Results.{◌>>=◌}
use tech_challenge_fase2_alf.Prelude.Results.{ok}
use tech_challenge_fase2_alf.Streaming.Models.{MunicipalLiteracyRateUpdated, Rede}
use tech_challenge_fase2_alf.Streaming.Producer.{AvroTransportRecord, ReleaseContext, prepared}
use tech_challenge_fase2_alf.Batch.Models.{Instant, Bytes}
use tech_challenge_fase2_alf.Streaming.Codec.{
  EventLibraries, Instant, AvroTransportRecord, has_valid_fields, model_validate,
  MunicipalLiteracyRateUpdated, encode_event, Rede, decode_event, assembled,
  decode_transport_record, ok, has_length, require_utc, rede_of, or_unreadable,
}
use tech_challenge_fase2_alf.Prelude.{
  ◌≡◌, String, ℕ, Option, none, some, true, arith, ◌≤◌, ◌+◌, ◌*◌, nat_eq, ap, ◌∙◌,
}

pub record CodecLaws {Rate : Type 0} (libs : EventLibraries Rate) (time_text : Instant → String)
    : Type 0 where
  -- What the writer writes, the reader reads.
  pub reader_reads :
      (r : AvroTransportRecord Rate) (payload : Bytes)
      → libs.schemaless_writer r ≡ some payload
      → libs.schemaless_reader payload ≡ some r
  -- The text of a time in UTC is read as that time.
  pub time_reads :
      (t : Instant)
      → libs.parse_datetime (time_text t) ≡ some (record { instant = t; offset = some 0 })

module _ {Rate : Type 0} (libs : EventLibraries Rate) (time_text : Instant → String) where
  -- The event of a record, for the year, the time and the correlation of a run.
  abbrev pub prepared_event :
      ReleaseContext
      → ℕ
      → AvroTransportRecord Rate
      → MunicipalLiteracyRateUpdated Rate
      → MunicipalLiteracyRateUpdated Rate
  prepared_event release index r e = record e {
    ano = release.target_year;
    event_time = release.base_time + index * 1000000;
    correlation_id = (prepared time_text release index r).correlation_id;
  }

  assembled-prepared :
      (release : ReleaseContext) (index : ℕ) (r : AvroTransportRecord Rate)
      (event_id : Option String) (time : Option Instant) (rede : Option Rede)
      (e : MunicipalLiteracyRateUpdated Rate)
      → assembled libs r event_id time rede ≡ ok e
      → 2000 ≤ release.target_year
      → release.target_year ≤ 2100
      → has_length 1 128 (prepared time_text release index r).correlation_id ≡ true
      → assembled libs
          (prepared time_text release index r)
          event_id
          (some (release.base_time + index * 1000000))
          rede
        ≡ ok (prepared_event release index r e)
  unfolding has_valid_fields prepared
  assembled-prepared release index r (some id) (some t) (some rede) e h low high long =
      let valid : has_valid_fields libs r ≡ true = ground arith in
      let still : has_valid_fields libs (prepared time_text release index r) ≡ true =
        ground arith in
      rw still (ground arith)
  assembled-prepared release index r (some id) (some t) none e h low high long =
      absurd (ground arith)
  assembled-prepared release index r (some id) none rede e h low high long = absurd (ground arith)
  assembled-prepared release index r none time rede e h low high long = absurd (ground arith)

  written_payload :
      (r : AvroTransportRecord Rate) (payload : Bytes)
      → encode_event libs r ≡ ok payload
      → libs.schemaless_writer r ≡ some payload
  unfolding encode_event
  written_payload r payload h = ground arith

  -- A record that the model accepts, prepared for a run of a year from 2000 to 2100 with a
  -- correlation of 1 to 128 characters, is decoded from the bytes that encode it to the same
  -- event, with the year, the time and the correlation of the run, where the reader reads what
  -- the writer writes and a time's text is read as that time.
  pub decode_event-encode_event :
      CodecLaws libs time_text
      → (release : ReleaseContext) (index : ℕ) (r : AvroTransportRecord Rate)
        (e : MunicipalLiteracyRateUpdated Rate) (payload : Bytes)
      → model_validate libs r ≡ ok e
      → 2000 ≤ release.target_year
      → release.target_year ≤ 2100
      → has_length 1 128 (prepared time_text release index r).correlation_id ≡ true
      → encode_event libs (prepared time_text release index r) ≡ ok payload
      → decode_event libs payload ≡ ok (prepared_event release index r e)
  unfolding model_validate encode_event decode_event decode_transport_record require_utc nat_eq
      prepared
  decode_event-encode_event laws release index r e payload h low high long written =
      let new = prepared time_text release index r in
      let encoded : libs.schemaless_writer new ≡ some payload =
        written_payload new payload written in
      let read = laws.reader_reads new payload encoded in
      let on_time = laws.time_reads (release.base_time + index * 1000000) in
      ap (λ o. or_unreadable libs o >>= model_validate libs) read
      ∙ ap
          (λ time.
            assembled libs new (libs.parse_uuid r.event_id) (require_utc time) (rede_of r.rede))
          on_time
      ∙ assembled-prepared release index r (libs.parse_uuid r.event_id)
          (require_utc (libs.parse_datetime r.event_time)) (rede_of r.rede) e h low high long
