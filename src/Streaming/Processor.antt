-- ===== src/Streaming/Processor.antt =====
-- src/alfabetizacao_pipeline/streaming/processor.py: `process_messages`. The codec is a parameter:
-- `decode_event` returns none where the Python function raises `AvroContractError`. The latency
-- statistics (`latencies` and their 95th percentile, a float) are not modelled.
pub mod Accounting
pub mod Redelivery
pub mod Unique
pub mod Newest
use tech_challenge_fase2_alf.Prelude.Sorting.{sorted}
use tech_challenge_fase2_alf.Prelude.Dict.{Dict, put, values, get}
use tech_challenge_fase2_alf.Prelude.{
  String, Bool, if◌then◌else◌, [], Option, List, is_none, ◌∷◌, ltb, ◌++◌, str_ltb, ℕ, ◌||◌, some,
  ◌==◌, length, string_eq, ◌&&◌, ◌-◌, none, nat_eq,
}
use tech_challenge_fase2_alf.Batch.Models.{Bytes}
use tech_challenge_fase2_alf.Streaming.Models.{
  MessageEnvelope, ValidMessage, DuplicateAudit, QuarantinedMessage, MunicipalLiteracyRateUpdated,
}

-- `d.setdefault(k, v)`
abbrev pub set_default {ℓ} : {V : Type ℓ} → String → V → Dict String V → Dict String V
set_default k v d = if is_none (get k d) then put k v d else d

-- `physical_unique`: the first message of each id, in order.
unfoldable pub physical_unique :
    Dict String MessageEnvelope → List MessageEnvelope → Dict String MessageEnvelope
physical_unique d [] = d
physical_unique d (m ∷ ms) = physical_unique (set_default m.message_id m d) ms

-- The variables of the second loop.
pub record Progress (Rate : Type 0) : Type 0 where
  pub valid_by_event : Dict String (ValidMessage Rate)
  pub duplicates : List DuplicateAudit
  pub quarantine : List QuarantinedMessage

pub record ProcessingResult (Rate : Type 0) : Type 0 where
  pub raw : List MessageEnvelope
  pub valid : List (ValidMessage Rate)
  pub duplicates : List DuplicateAudit
  pub quarantine : List QuarantinedMessage
  pub redelivery_count : ℕ

module _ {Rate : Type 0} where
  -- `key(a) < key(b)` for the key (event_time, publish_time, ingestion_time).
  unfoldable pub is_older : ValidMessage Rate → ValidMessage Rate → Bool
  is_older a b =
      ltb a.event.event_time b.event.event_time
      || (a.event.event_time == b.event.event_time
          && (ltb a.publish_time b.publish_time
              || (a.publish_time == b.publish_time && ltb a.ingestion_time b.ingestion_time)))

  -- `sorted((canonical, candidate), key=..., reverse=True)`: the canonical message stays first
  -- where the keys are equal.
  unfoldable pub ordered :
      ValidMessage Rate → ValidMessage Rate → ValidMessage Rate × ValidMessage Rate
  ordered canonical candidate =
      if is_older canonical candidate then (candidate, canonical) else (canonical, candidate)

  abbrev pub start : Progress Rate
  start = record { valid_by_event = []; duplicates = []; quarantine = [] }

  unfoldable pub add_valid :
      Progress Rate → ValidMessage Rate → Option (ValidMessage Rate) → Progress Rate
  add_valid p candidate none = record p {
    valid_by_event = put candidate.event.event_id candidate p.valid_by_event;
  }
  add_valid p candidate (some canonical) =
      let (first, second) = ordered canonical candidate in
      record p {
        valid_by_event = put candidate.event.event_id first p.valid_by_event;
        duplicates =
            p.duplicates
            ++ (record {
              message_id = second.message_id;
              canonical_message_id = first.message_id;
              event_id = candidate.event.event_id;
            }
                ∷ []);
      }

  abbrev pub valid_message : MessageEnvelope → MunicipalLiteracyRateUpdated Rate → ValidMessage Rate
  valid_message m event = record {
    message_id = m.message_id;
    event = event;
    publish_time = m.publish_time;
    ingestion_time = m.ingestion_time;
  }

  unfoldable pub add_decoded :
      Progress Rate → MessageEnvelope → Option (MunicipalLiteracyRateUpdated Rate) → Progress Rate
  add_decoded p m none = record p {
    quarantine =
        p.quarantine
        ++ (record { message_id = m.message_id; reason_code = "SEMANTIC_INVALID" } ∷ []);
  }
  add_decoded p m (some event) =
      add_valid p (valid_message m event) (get event.event_id p.valid_by_event)

  unfoldable pub by_event_id : ValidMessage Rate → ValidMessage Rate → Bool
  by_event_id a b = str_ltb a.event.event_id b.event.event_id

module _ {Rate : Type 0} (decode_event : Bytes → Option (MunicipalLiteracyRateUpdated Rate)) where
  unfoldable pub process_unique : Progress Rate → List MessageEnvelope → Progress Rate
  process_unique p [] = p
  process_unique p (m ∷ ms) = process_unique (add_decoded p m (decode_event m.payload)) ms

  unfoldable pub process_messages : List MessageEnvelope → ProcessingResult Rate
  process_messages messages =
      let raw = values (physical_unique [] messages) in
      let p = process_unique start raw in
      record {
        raw = raw;
        valid = sorted by_event_id (values p.valid_by_event);
        duplicates = p.duplicates;
        quarantine = p.quarantine;
        redelivery_count = length messages - length raw;
      }
