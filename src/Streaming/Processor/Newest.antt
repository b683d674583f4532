-- ===== src/Streaming/Processor/Newest.antt =====
-- Of the messages of one event the newest is kept.
use tech_challenge_fase2_alf.Prelude.Sorting.{Distinct-map-sorted, sorted, Any-sorted}
use tech_challenge_fase2_alf.Batch.Models.{Bytes}
use tech_challenge_fase2_alf.Prelude.Dict.{
  Dict, get, put, get-put, IsKeyed, IsKeyed-put, get-IsKeyed, Distinct-put, values, keys,
  map-values_of_IsKeyed, Any-values,
}
use tech_challenge_fase2_alf.Streaming.Models.{
  ValidMessage, MessageEnvelope, MunicipalLiteracyRateUpdated,
}
use tech_challenge_fase2_alf.Prelude.{
  ◌≡◌, false, true, String, Option, arith, Bool-cases, some, Option-cases, inl, List, none,
  string_eq, inr, ◌∷◌, All, subst, [], Any, Distinct, refl, map, All-map_pred,
}
use tech_challenge_fase2_alf.Streaming.Processor.{
  Progress, is_older, ordered, add_valid, add_decoded, valid_message, process_unique, ValidMessage,
  Dict, MessageEnvelope, Bytes, process_messages, physical_unique, start, by_event_id,
}

module _ {Rate : Type 0} where
  -- "At least as new as" is transitive.
  not_older_trans :
      (a b c : ValidMessage Rate)
      → is_older b a ≡ false
      → is_older c b ≡ false
      → is_older c a ≡ false
  unfolding is_older
  not_older_trans a b c h k = ground arith

  is_older_irrefl : (a : ValidMessage Rate) → is_older a a ≡ false
  unfolding is_older
  is_older_irrefl a = ground arith

  is_older_asym : (a b : ValidMessage Rate) → is_older a b ≡ true → is_older b a ≡ false
  unfolding is_older
  is_older_asym a b h = ground arith

  -- The message that is kept is at least as new as both.
  ordered-newest :
      (c v : ValidMessage Rate)
      → (is_older (ordered c v).0 c ≡ false) × (is_older (ordered c v).0 v ≡ false)
  unfolding ordered
  ordered-newest c v = elim (Bool-cases (is_older c v)) [
    | inl older ↦ rw older (is_older_asym c v older, is_older_irrefl v)
    | inr newer ↦ rw newer (is_older_irrefl c, newer)
  ]

  -- The kept message of an event is at least as new as `x`.
  abbrev Covers : Dict String (ValidMessage Rate) → String → ValidMessage Rate → Type 0
  Covers d e x = (v : ValidMessage Rate) × (get e d ≡ some v) × (is_older v x ≡ false)

  Covers-put :
      (d : Dict String (ValidMessage Rate)) (k e : String) (w x : ValidMessage Rate)
      → ((c : ValidMessage Rate) → get k d ≡ some c → is_older w c ≡ false)
      → Covers d e x
      → Covers (put k w d) e x
  Covers-put d k e w x newer (v, g, h) = elim (string_eq.dec e k) [
    | yes p ↦ (w, ground (arith, get-put e k w d), not_older_trans x v w h (newer v (ground arith)))
    | no np ↦ (v, ground (arith, get-put e k w d), h)
  ]

  Covers-add_valid :
      (p : Progress Rate) (w : ValidMessage Rate) (e : String) (x : ValidMessage Rate)
      → Covers p.valid_by_event e x
      → Covers (add_valid p w (get w.event.event_id p.valid_by_event)).valid_by_event e x
  unfolding add_valid
  Covers-add_valid p w e x h =
      let k = w.event.event_id in
      let d = p.valid_by_event in
      elim (Option-cases (get k d)) [
        | inl absent ↦ rw absent (Covers-put d k e w x (λ c g. cc) h)
        | inr (c, found) ↦ rw found (
            Covers-put d k e (ordered c w).0 x
              (λ c' g.
                subst (λ z. is_older (ordered c w).0 z ≡ false) {x = c} {y = c'} (cc)
                  (ordered-newest c w).0)
              h)
      ]

  Covers-self :
      (p : Progress Rate) (w : ValidMessage Rate)
      → Covers
          (add_valid p w (get w.event.event_id p.valid_by_event)).valid_by_event
          w.event.event_id
          w
  unfolding add_valid
  Covers-self p w =
      let k = w.event.event_id in
      let d = p.valid_by_event in
      elim (Option-cases (get k d)) [
        | inl absent ↦ rw absent (w, ground (arith, get-put k k w d), is_older_irrefl w)
        | inr (c, found) ↦
            rw found (
              (ordered c w).0,
              ground (arith, get-put k k (ordered c w).0 d),
              (ordered-newest c w).1,
            )
      ]

  Covers-add_decoded :
      (p : Progress Rate) (m : MessageEnvelope) (o : Option (MunicipalLiteracyRateUpdated Rate))
      (e : String) (x : ValidMessage Rate)
      → Covers p.valid_by_event e x
      → Covers (add_decoded p m o).valid_by_event e x
  unfolding add_decoded
  Covers-add_decoded p m none e x h = h
  Covers-add_decoded p m (some event) e x h = Covers-add_valid p (valid_message m event) e x h

module _ {Rate : Type 0} (decode_event : Bytes → Option (MunicipalLiteracyRateUpdated Rate)) where
  Covers-process_unique :
      (p : Progress Rate) (ms : List MessageEnvelope) (e : String) (x : ValidMessage Rate)
      → Covers p.valid_by_event e x
      → Covers (process_unique decode_event p ms).valid_by_event e x
  unfolding process_unique
  Covers-process_unique p [] e x h = h
  Covers-process_unique p (m ∷ ms) e x h =
      Covers-process_unique (add_decoded p m (decode_event m.payload)) ms e x
        (Covers-add_decoded p m (decode_event m.payload) e x h)

  Covers-decoded :
      (p : Progress Rate) (m : MessageEnvelope) (ev : MunicipalLiteracyRateUpdated Rate)
      → decode_event m.payload ≡ some ev
      → Covers
          (add_decoded p m (decode_event m.payload)).valid_by_event
          ev.event_id
          (valid_message m ev)
  unfolding add_decoded
  Covers-decoded p m ev h = rw h (Covers-self p (valid_message m ev))

  -- The message is covered if it decodes.
  abbrev CoveredIn : Dict String (ValidMessage Rate) → MessageEnvelope → Type 0
  CoveredIn d m =
      (ev : MunicipalLiteracyRateUpdated Rate)
      → decode_event m.payload ≡ some ev
      → Covers d ev.event_id (valid_message m ev)

  All-covered :
      (p : Progress Rate) (ms : List MessageEnvelope)
      → All (CoveredIn (process_unique decode_event p ms).valid_by_event) ms
  unfolding process_unique
  All-covered p [] = tt
  All-covered p (m ∷ ms) =
      let p' = add_decoded p m (decode_event m.payload) in
      (
        λ ev h.
            Covers-process_unique p' ms ev.event_id (valid_message m ev) (Covers-decoded p m ev h),
        All-covered p' ms,
      )

module _ {Rate : Type 0} where
  abbrev pub event_id_of : ValidMessage Rate → String
  event_id_of v = v.event.event_id

  -- The dict of valid messages is keyed by the event id, and has each id once.
  abbrev WellKeyed : Dict String (ValidMessage Rate) → Type 0
  WellKeyed d = IsKeyed event_id_of d × Distinct (keys d)

  WellKeyed-put :
      (d : Dict String (ValidMessage Rate)) (k : String) (w : ValidMessage Rate)
      → w.event.event_id ≡ k
      → WellKeyed d
      → WellKeyed (put k w d)
  WellKeyed-put d k w e h = (IsKeyed-put event_id_of k w d e h.0, Distinct-put k w d h.1)

  ordered_id :
      (c w : ValidMessage Rate)
      → c.event.event_id ≡ w.event.event_id
      → (ordered c w).0.event.event_id ≡ w.event.event_id
  unfolding ordered
  ordered_id c w h = ground arith

  WellKeyed-add_valid :
      (p : Progress Rate) (w : ValidMessage Rate)
      → WellKeyed p.valid_by_event
      → WellKeyed (add_valid p w (get w.event.event_id p.valid_by_event)).valid_by_event
  unfolding add_valid
  WellKeyed-add_valid p w h =
      let k = w.event.event_id in
      let d = p.valid_by_event in
      elim (Option-cases (get k d)) [
        | inl absent ↦ rw absent (WellKeyed-put d k w refl h)
        | inr (c, found) ↦ rw found (
            WellKeyed-put d k (ordered c w).0
              (ordered_id c w (get-IsKeyed event_id_of k c d h.0 found)) h)
      ]

  WellKeyed-add_decoded :
      (p : Progress Rate) (m : MessageEnvelope) (o : Option (MunicipalLiteracyRateUpdated Rate))
      → WellKeyed p.valid_by_event
      → WellKeyed (add_decoded p m o).valid_by_event
  unfolding add_decoded
  WellKeyed-add_decoded p m none h = h
  WellKeyed-add_decoded p m (some event) h = WellKeyed-add_valid p (valid_message m event) h

module _ {Rate : Type 0} (decode_event : Bytes → Option (MunicipalLiteracyRateUpdated Rate)) where
  WellKeyed-process_unique :
      (p : Progress Rate) (ms : List MessageEnvelope)
      → WellKeyed p.valid_by_event
      → WellKeyed (process_unique decode_event p ms).valid_by_event
  unfolding process_unique
  WellKeyed-process_unique p [] h = h
  WellKeyed-process_unique p (m ∷ ms) h =
      WellKeyed-process_unique (add_decoded p m (decode_event m.payload)) ms
        (WellKeyed-add_decoded p m (decode_event m.payload) h)

  -- The valid output has every event id once.
  pub process_messages-Distinct :
      (messages : List MessageEnvelope)
      → Distinct (map event_id_of (process_messages decode_event messages).valid)
  unfolding process_messages
  process_messages-Distinct messages =
      let d =
        (process_unique decode_event start (values (physical_unique [] messages))).valid_by_event in
      let h : WellKeyed d =
        WellKeyed-process_unique start (values (physical_unique [] messages)) (tt, tt) in
      Distinct-map-sorted event_id_of by_event_id (values d)
        (rw (map-values_of_IsKeyed event_id_of d h.0) h.1)

  -- Some valid message has the event's id and is at least as new as the message.
  abbrev pub HasNewest : List (ValidMessage Rate) → MessageEnvelope → Type 0
  HasNewest valid m =
      (ev : MunicipalLiteracyRateUpdated Rate)
      → decode_event m.payload ≡ some ev
      → Any (λ v. (v.event.event_id ≡ ev.event_id) × (is_older v (valid_message m ev) ≡ false))
          valid

  -- Every raw message that decodes is represented in the valid output: by a message of the same
  -- event that is at least as new, in the order of event, publish and ingestion time.
  pub process_messages-HasNewest :
      (messages : List MessageEnvelope)
      → let r = process_messages decode_event messages in All (HasNewest r.valid) r.raw
  unfolding process_messages
  process_messages-HasNewest messages =
      let raw = values (physical_unique [] messages) in
      let d = (process_unique decode_event start raw).valid_by_event in
      let keyed : WellKeyed d = WellKeyed-process_unique start raw (tt, tt) in
      All-map_pred (CoveredIn decode_event d) (HasNewest (sorted by_event_id (values d))) raw
        (λ m covered ev h.
          let P : ValidMessage Rate → Type 0 =
            λ v. (v.event.event_id ≡ ev.event_id) × (is_older v (valid_message m ev) ≡ false) in
          let (v, g, n) = covered ev h in
          Any-sorted by_event_id P (values d) (
            Any-values event_id_of P ev.event_id v d g
              (get-IsKeyed event_id_of ev.event_id v d keyed.0 g, n)))
        (All-covered decode_event start raw)
