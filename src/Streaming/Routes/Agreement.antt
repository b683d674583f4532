-- ===== src/Streaming/Routes/Agreement.antt =====
-- src/alfabetizacao_pipeline/streaming/beam_routes.py and processor.py: which messages the two
-- refuse.
use tech_challenge_fase2_alf.Prelude.Dict.{get}
use tech_challenge_fase2_alf.Streaming.Processor.Unique.{physical_unique-Distinct}
use tech_challenge_fase2_alf.Streaming.Processor.Redelivery.{ids}
use mathlib.Core.List.{append-nil, append_assoc, map-append}
use tech_challenge_fase2_alf.Streaming.Processor.{
  process_unique, process_messages, add_decoded, add_valid, Progress, start, valid_message,
}
use tech_challenge_fase2_alf.Streaming.Models.{
  MessageEnvelope, ValidMessage, MunicipalLiteracyRateUpdated,
}
use tech_challenge_fase2_alf.Streaming.Routes.{
  BeamEnvelope, RouteLibraries, route_collections, process, RoutedCollections, add_routed,
  route_decoded,
}
use tech_challenge_fase2_alf.Prelude.{
  ◌≡◌, List, [], ◌∷◌, map, String, Distinct, string_eq, ◌++◌, sym, Option, ◌∙◌, ap, some, none,
  subst, refl,
}

-- The message that the processor reads of an envelope.
abbrev pub message_of : BeamEnvelope → MessageEnvelope
message_of envelope = record {
  message_id = envelope.message_id;
  payload = envelope.payload;
  publish_time = envelope.publish_time;
  ingestion_time = envelope.ingestion_time;
}

abbrev quarantined_ids : {Rate : Type 0} → Progress Rate → List String
quarantined_ids p = map (λ q. q.message_id) p.quarantine

abbrev row_ids : {D : Type 0} → RoutedCollections D → List String
row_ids c = map (λ row. row.message_id) c.quarantine

add_valid-quarantine :
    {Rate : Type 0} (p : Progress Rate) (m : ValidMessage Rate) (o : Option (ValidMessage Rate))
    → (add_valid p m o).quarantine ≡ p.quarantine
unfolding add_valid
add_valid-quarantine p m none = refl
add_valid-quarantine p m (some canonical) = refl

module _ {Rate D : Type 0} (libs : RouteLibraries Rate D) where
  add_decoded-quarantine :
      (p : Progress Rate) (e : BeamEnvelope) (c : RoutedCollections D)
      (o : Option (MunicipalLiteracyRateUpdated Rate))
      → quarantined_ids (add_decoded p (message_of e) o) ++ row_ids c
        ≡ quarantined_ids p ++ row_ids (add_routed libs (route_decoded libs e o) c)
  unfolding add_decoded
  add_decoded-quarantine p e c none =
      ap (λ ids. ids ++ row_ids c) (map-append (λ q. q.message_id) p.quarantine _)
      ∙ append_assoc (quarantined_ids p) (e.message_id ∷ []) (row_ids c)
  add_decoded-quarantine p e c (some event) =
      ap (λ qs. map (λ q. q.message_id) qs ++ row_ids c)
        (add_valid-quarantine p (valid_message (message_of e) event)
          (get event.event_id p.valid_by_event))

  -- The ids of the messages that the processor refuses, after those it refused before.
  process_unique-quarantine :
      (p : Progress Rate) (es : List BeamEnvelope)
      → quarantined_ids (process_unique libs.decode_event p (map message_of es))
        ≡ quarantined_ids p ++ row_ids (route_collections libs es)
  unfolding process_unique route_collections process
  process_unique-quarantine p [] = sym (append-nil (quarantined_ids p))
  process_unique-quarantine p (e ∷ es) =
      let o = libs.decode_event e.payload in
      process_unique-quarantine (add_decoded p (message_of e) o) es
      ∙ add_decoded-quarantine p e (route_collections libs es) o

  -- On envelopes of different message ids, and with the same decoder, the quarantine of the
  -- Beam routes has the ids that the quarantine of process_messages has, in the same order.
  pub route_collections-process_messages :
      (es : List BeamEnvelope)
      → Distinct (map (λ e. e.message_id) es)
      → map (λ row. row.message_id) (route_collections libs es).quarantine
        ≡ map
            (λ q. q.message_id)
            (process_messages libs.decode_event (map message_of es)).quarantine
  unfolding process_messages
  route_collections-process_messages es h = sym (
      ap (λ ms. quarantined_ids (process_unique libs.decode_event start ms))
        (physical_unique-Distinct (map message_of es) (subst Distinct (same_ids es) h))
      ∙ process_unique-quarantine start es)
    where
      same_ids : (es : List BeamEnvelope) → map (λ e. e.message_id) es ≡ ids (map message_of es)
      same_ids [] = refl
      same_ids (e ∷ es) = ap (λ is. e.message_id ∷ is) (same_ids es)
