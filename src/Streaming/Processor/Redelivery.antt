-- ===== src/Streaming/Processor/Redelivery.antt =====
-- A redelivered message changes nothing but the count of redeliveries.
use tech_challenge_fase2_alf.Streaming.Processor.Accounting.{length-physical_unique}
use tech_challenge_fase2_alf.Streaming.Models.{MessageEnvelope, MunicipalLiteracyRateUpdated}
use tech_challenge_fase2_alf.Batch.Models.{Bytes}
use tech_challenge_fase2_alf.Prelude.Dict.{Dict, get, get-put, get-nil}
use tech_challenge_fase2_alf.Prelude.{
  List, String, Option, map, is_none, All, ◌++◌, ◌≡◌, contains, ◌∷◌, false, true, ◌&&◌, not, [],
  ◌+◌, string_eq, arith, ◌∙◌, length, refl, All-map_pred, length-append,
}
use tech_challenge_fase2_alf.Streaming.Processor.{
  physical_unique, process_messages, set_default, Dict, Bytes, MessageEnvelope,
}

abbrev pub ids : List MessageEnvelope → List String
ids = map (λ m. m.message_id)

-- The ids of the dict, after the loop.
get-physical_unique :
    (k : String) (d : Dict String MessageEnvelope) (ms : List MessageEnvelope)
    → is_none (get k (physical_unique d ms)) ≡ (is_none (get k d) && not (contains k (ids ms)))
unfolding physical_unique
get-physical_unique k d [] = ground arith
get-physical_unique k d (m ∷ ms) =
    ground
      (arith, get-physical_unique k (set_default m.message_id m d) ms, get-put k m.message_id m d)

physical_unique-append :
    (d : Dict String MessageEnvelope) (ms rs : List MessageEnvelope)
    → physical_unique d (ms ++ rs) ≡ physical_unique (physical_unique d ms) rs
unfolding physical_unique
physical_unique-append d [] rs = refl
physical_unique-append d (m ∷ ms) rs = physical_unique-append (set_default m.message_id m d) ms rs

physical_unique_known :
    (d : Dict String MessageEnvelope) (rs : List MessageEnvelope)
    → All (λ r. is_none (get r.message_id d) ≡ false) rs
    → physical_unique d rs ≡ d
unfolding physical_unique
physical_unique_known d [] h = refl
physical_unique_known d (r ∷ rs) h = rw h.0 (physical_unique_known d rs h.1)

redelivered :
    (ms rs : List MessageEnvelope)
    → All (λ r. contains r.message_id (ids ms) ≡ true) rs
    → physical_unique [] (ms ++ rs) ≡ physical_unique [] ms
redelivered ms rs h =
    physical_unique-append [] ms rs
    ∙ physical_unique_known (physical_unique [] ms) rs (
        All-map_pred (λ r. contains r.message_id (ids ms) ≡ true)
          (λ r. is_none (get r.message_id (physical_unique [] ms)) ≡ false) rs
          (λ r c.
            get-physical_unique r.message_id [] ms
            ∙ ground (arith, get-nil {V = MessageEnvelope} r.message_id))
          h)

module _ {Rate : Type 0} (decode_event : Bytes → Option (MunicipalLiteracyRateUpdated Rate)) where
  -- Messages delivered again after `ms`, with ids that `ms` has, leave the raw messages, the valid
  -- events, the duplicates and the quarantine as they were, and only raise the redelivery count.
  pub process_messages-redelivered :
      (ms rs : List MessageEnvelope)
      → All (λ r. contains r.message_id (ids ms) ≡ true) rs
      → process_messages decode_event (ms ++ rs) ≡ (
          let r = process_messages decode_event ms in
          record r { redelivery_count = r.redelivery_count + length rs })
  unfolding process_messages
  process_messages-redelivered ms rs h =
      rw (redelivered ms rs h) (ground (arith, length-append ms rs, length-physical_unique [] ms))
