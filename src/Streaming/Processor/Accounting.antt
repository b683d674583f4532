-- ===== src/Streaming/Processor/Accounting.antt =====
-- Every message is accounted for once.
use tech_challenge_fase2_alf.Batch.Models.{Bytes}
use tech_challenge_fase2_alf.Prelude.Sorting.{length-sorted}
use tech_challenge_fase2_alf.Prelude.Dict.{Dict, get, values, length-put}
use tech_challenge_fase2_alf.Streaming.Models.{
  ValidMessage, MessageEnvelope, MunicipalLiteracyRateUpdated,
}
use tech_challenge_fase2_alf.Prelude.{
  ℕ, length, Option, String, ◌≡◌, List, ◌+◌, suc, ◌≤◌, Option-cases, arith, [], inl, length-append,
  ◌∷◌, some, inr, string_eq, none,
}
use tech_challenge_fase2_alf.Streaming.Processor.{
  Progress, add_valid, add_decoded, process_unique, process_messages, physical_unique, start,
  ValidMessage, MessageEnvelope, Dict, Bytes, by_event_id, set_default, valid_message, ordered,
}

module _ {Rate : Type 0} where
  -- The messages that the second loop has accounted for.
  abbrev accounted_in : Progress Rate → ℕ
  accounted_in p = length (values p.valid_by_event) + length p.duplicates + length p.quarantine

  accounted_in-add_valid :
      (p : Progress Rate) (v : ValidMessage Rate)
      → accounted_in (add_valid p v (get v.event.event_id p.valid_by_event)) ≡ suc (accounted_in p)
  unfolding add_valid
  accounted_in-add_valid p v = elim (Option-cases (get v.event.event_id p.valid_by_event)) [
    | inl e ↦ rw e (ground (arith, length-put v.event.event_id v p.valid_by_event))
    | inr (c, e) ↦ rw e (
        ground (
          arith,
          length-put v.event.event_id (ordered c v).0 p.valid_by_event,
          length-append p.duplicates (
              record {
                message_id = (ordered c v).1.message_id;
                canonical_message_id = (ordered c v).0.message_id;
                event_id = v.event.event_id;
              }
              ∷ []),
        ))
  ]

  accounted_in-add_decoded :
      (p : Progress Rate) (m : MessageEnvelope) (o : Option (MunicipalLiteracyRateUpdated Rate))
      → accounted_in (add_decoded p m o) ≡ suc (accounted_in p)
  unfolding add_decoded
  accounted_in-add_decoded p m none = ground (
    arith,
    length-append p.quarantine
        (record { message_id = m.message_id; reason_code = "SEMANTIC_INVALID" } ∷ []),
  )
  accounted_in-add_decoded p m (some event) = accounted_in-add_valid p (valid_message m event)

pub length-physical_unique :
    (d : Dict String MessageEnvelope) (ms : List MessageEnvelope)
    → length (values (physical_unique d ms)) ≤ length (values d) + length ms
unfolding physical_unique
length-physical_unique d [] = omega arith
length-physical_unique d (m ∷ ms) =
    ground
      (arith, length-physical_unique (set_default m.message_id m d) ms, length-put m.message_id m d)

module _ {Rate : Type 0} (decode_event : Bytes → Option (MunicipalLiteracyRateUpdated Rate)) where
  accounted_in-process_unique :
      (p : Progress Rate) (ms : List MessageEnvelope)
      → accounted_in (process_unique decode_event p ms) ≡ accounted_in p + length ms
  unfolding process_unique
  accounted_in-process_unique p [] = omega arith
  accounted_in-process_unique p (m ∷ ms) =
      let o = decode_event m.payload in
      omega
        (arith, accounted_in-process_unique (add_decoded p m o) ms, accounted_in-add_decoded p m o)

  -- Every delivered message is kept or counted as a redelivery, and every kept message is exactly
  -- one of a valid event, an audited duplicate and a quarantined message.
  pub process_messages-accounted :
      (messages : List MessageEnvelope)
      → let r = process_messages decode_event messages in
        (length r.raw + r.redelivery_count ≡ length messages)
        × (length r.valid + length r.duplicates + length r.quarantine ≡ length r.raw)
  unfolding process_messages
  process_messages-accounted messages =
      let raw = values (physical_unique [] messages) in
      let p = process_unique decode_event start raw in
      (
        omega (arith, length-physical_unique [] messages),
        omega (
          arith,
          length-sorted by_event_id (values p.valid_by_event),
          accounted_in-process_unique start raw,
        ),
      )
