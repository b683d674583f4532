-- ===== src/Streaming/Processor/Unique.antt =====
-- src/alfabetizacao_pipeline/streaming/processor.py: the first loop on messages of different ids.
use mathlib.Core.List.{append-nil, append_assoc}
use tech_challenge_fase2_alf.Prelude.Dict.{Dict, get, put, get-put, values}
use tech_challenge_fase2_alf.Streaming.Models.{MessageEnvelope}
use tech_challenge_fase2_alf.Streaming.Processor.Redelivery.{ids}
use tech_challenge_fase2_alf.Streaming.Processor.{physical_unique}
use tech_challenge_fase2_alf.Prelude.{
  ◌≡◌, List, String, [], ◌∷◌, ◌++◌, is_none, true, false, All, contains, Distinct, arith, refl, ◌∙◌,
  ap, sym, string_eq,
}

-- A write of a key that is not there comes last.
values-put_absent :
    (k : String) (m : MessageEnvelope) (d : Dict String MessageEnvelope)
    → is_none (get k d) ≡ true
    → values (put k m d) ≡ values d ++ (m ∷ [])
unfolding get put
values-put_absent k m [] h = refl
values-put_absent k m ((j, w) ∷ d) h = ground (arith, values-put_absent k m d)

abbrev IsNew : Dict String MessageEnvelope → MessageEnvelope → Type 0
IsNew d m = is_none (get m.message_id d) ≡ true

still-IsNew :
    (m : MessageEnvelope) (d : Dict String MessageEnvelope) (ms : List MessageEnvelope)
    → contains m.message_id (ids ms) ≡ false
    → All (IsNew d) ms
    → All (IsNew (put m.message_id m d)) ms
still-IsNew m d [] absent h = tt
still-IsNew m d (r ∷ ms) absent h =
    (ground (arith, get-put r.message_id m.message_id m d), still-IsNew m d ms (ground arith) h.1)

values-physical_unique :
    (d : Dict String MessageEnvelope) (ms : List MessageEnvelope)
    → Distinct (ids ms)
    → All (IsNew d) ms
    → values (physical_unique d ms) ≡ values d ++ ms
unfolding physical_unique
values-physical_unique d [] distinct h = sym (append-nil (values d))
values-physical_unique d (m ∷ ms) distinct h = rw h.0 (
    values-physical_unique (put m.message_id m d) ms distinct.1 (still-IsNew m d ms distinct.0 h.1)
    ∙ ap (λ vs. vs ++ ms) (values-put_absent m.message_id m d h.0)
    ∙ append_assoc (values d) (m ∷ []) ms)

All-IsNew : (ms : List MessageEnvelope) → All (IsNew []) ms
unfolding get
All-IsNew [] = tt
All-IsNew (m ∷ ms) = (refl, All-IsNew ms)

-- Messages of different ids are all kept, in their order.
pub physical_unique-Distinct :
    (ms : List MessageEnvelope) → Distinct (ids ms) → values (physical_unique [] ms) ≡ ms
physical_unique-Distinct ms distinct = values-physical_unique [] ms distinct (All-IsNew ms)
