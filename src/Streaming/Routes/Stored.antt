-- ===== src/Streaming/Routes/Stored.antt =====
-- src/alfabetizacao_pipeline/streaming/beam_sinks.py: what the tables store of a message.
use tech_challenge_fase2_alf.Streaming.Models.{MunicipalLiteracyRateUpdated}
use tech_challenge_fase2_alf.Batch.Models.{Instant}
use tech_challenge_fase2_alf.Streaming.Routes.{
  RouteLibraries, Instant, BeamEnvelope, valid_storage_row, process, MunicipalLiteracyRateUpdated,
  Routed, quarantine_storage_row, ValidStorageRow, valid, route_decoded, quarantine,
  QuarantineStorageRow, optional_decimal, quarantined_at, quarantine_row, staged_row, stored_at,
}
use tech_challenge_fase2_alf.Prelude.{◌≡◌, some, none, Option, ap, ◌∙◌, refl, true}

-- A time is read of the text that was written of it.
abbrev pub ReadsTimes : {Rate D : Type 0} → RouteLibraries Rate D → Type 0
ReadsTimes libs = (t : Instant) → libs.fromisoformat (libs.isoformat t) ≡ some t

module _ {Rate D : Type 0} (libs : RouteLibraries Rate D) where
  -- The row that the table has of a decoded message.
  abbrev pub stored_row : BeamEnvelope → MunicipalLiteracyRateUpdated Rate → ValidStorageRow D
  stored_row envelope event = record {
    event_id = event.event_id;
    message_id = envelope.message_id;
    event_time = event.event_time;
    publish_time = envelope.publish_time;
    ingestion_time = envelope.ingestion_time;
    ano = event.ano;
    id_municipio = event.id_municipio;
    rede = event.rede;
    taxa_alfabetizacao = libs.decimal_of event.taxa_alfabetizacao;
    taxa_participacao = optional_decimal libs event.participacao;
    correlation_id = event.correlation_id;
    simulation = true;
  }

  abbrev pub refused_row : BeamEnvelope → QuarantineStorageRow
  refused_row envelope = record {
    message_id = envelope.message_id;
    reason_code = "AVRO_OR_SEMANTIC_INVALID";
    ingestion_time = envelope.ingestion_time;
    event_fingerprint = libs.sha256_hex envelope.payload;
    correlation_id = envelope.correlation_id;
  }

  abbrev pub IsStored : BeamEnvelope → Routed D → Type 0
  IsStored envelope (valid row) =
      (event : MunicipalLiteracyRateUpdated Rate) × (libs.decode_event envelope.payload
        ≡ some event)
      × (valid_storage_row libs row ≡ some (stored_row envelope event))
  IsStored envelope (quarantine row) =
      (libs.decode_event envelope.payload ≡ none)
      × (quarantine_storage_row libs row ≡ some (refused_row envelope))

  route_decoded-IsStored :
      (reads : ReadsTimes libs) (envelope : BeamEnvelope)
      (o : Option (MunicipalLiteracyRateUpdated Rate))
      → libs.decode_event envelope.payload ≡ o
      → IsStored envelope (route_decoded libs envelope o)
  unfolding valid_storage_row quarantine_storage_row
  route_decoded-IsStored reads envelope none h =
      (h, ap (quarantined_at libs (quarantine_row libs envelope)) (reads envelope.ingestion_time))
  route_decoded-IsStored reads envelope (some event) h =
      let row = staged_row libs envelope event in
      (
        event,
        h,
        ap
              (λ t.
                stored_at libs row t (libs.fromisoformat row.publish_time)
                  (libs.fromisoformat row.ingestion_time))
              (reads event.event_time)
            ∙ ap
                (λ t.
                  stored_at libs row (some event.event_time) t
                    (libs.fromisoformat row.ingestion_time))
                (reads envelope.publish_time)
            ∙ ap (λ t. stored_at libs row (some event.event_time) (some envelope.publish_time) t)
                (reads envelope.ingestion_time),
      )

  -- Where a time is read of its text, a message that decodes is routed to the valid output and
  -- stored with its event, its id and its own instants; any other is routed to the quarantine
  -- and stored with its id, its fingerprint and its instant.
  pub process-IsStored :
      (reads : ReadsTimes libs) (envelope : BeamEnvelope)
      → IsStored envelope (process libs envelope)
  unfolding process
  process-IsStored reads envelope =
      route_decoded-IsStored reads envelope (libs.decode_event envelope.payload) refl
