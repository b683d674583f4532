-- ===== src/Tests/Producer.antt =====
-- The producer on a fixture of two records and one that does not encode.
use tech_challenge_fase2_alf.Prelude.Results.{ok}
use tech_challenge_fase2_alf.Streaming.Producer.Published.{
  AreSent, run_producer-local, run_producer-AreSent,
}
use tech_challenge_fase2_alf.Batch.Models.{Bytes}
use tech_challenge_fase2_alf.Streaming.Producer.{
  AvroTransportRecord, DemoFixture, ReleaseContext, ProducerReport, run_producer,
  accepted_records_for_release, prepared, publish_loop, prepare_from, publish_checked,
  local_publisher, ProducerRequest, to_local,
}
use tech_challenge_fase2_alf.Prelude.{refl, String, ℕ, Option, true, ◌∷◌, some, none, [], ◌≡◌, ◌↔◌}

abbrev transport : String → AvroTransportRecord ℕ
transport id = record {
  schema_version = "1.0";
  event_id = id;
  event_type = "municipal_literacy_rate.updated";
  simulation = true;
  event_time = "";
  ano = 2023;
  id_municipio = "3550308";
  rede = "municipal";
  taxa_alfabetizacao = 50;
  participacao = none;
  producer = "demo";
  correlation_id = "fixture";
}

abbrev fixture : DemoFixture ℕ ℕ
fixture = record { accepted = transport "a" ∷ transport "b" ∷ []; schema_incompatible = 0 }

abbrev release : ReleaseContext
release = record { target_year = 2024; base_time = 0; correlation_id = some "run" }

abbrev request : ProducerRequest
request = record { mode = to_local; topic = "topic"; release = release }

abbrev time_text : ℕ → String
time_text t = "2024"

abbrev encode : AvroTransportRecord ℕ → Option Bytes
encode r = some (r.ano ∷ [])

abbrev encode_incompatible : ℕ → Option Bytes
encode_incompatible n = none

abbrev report : ProducerReport
report = record {
  published = 2;
  schema_rejected = 1;
  mode = to_local;
  target_year = 2024;
  base_time = "2024";
}

run_producer-AreSent_example :
    AreSent encode local_publisher "topic"
      (accepted_records_for_release time_text fixture release)
      0
      2
    × (report.published ≡ 2)
    × ((report.schema_rejected ≡ 1) ↔ (encode_incompatible 0 ≡ none))
unfolding run_producer publish_loop publish_checked local_publisher accepted_records_for_release
    prepare_from
run_producer-AreSent_example =
    run_producer-AreSent time_text encode encode_incompatible request fixture local_publisher 0 2
      report refl

run_producer-local_example :
    run_producer time_text encode encode_incompatible local_publisher request fixture 5
    ≡ (ok report, 7)
unfolding accepted_records_for_release prepare_from prepared
run_producer-local_example =
    run_producer-local time_text encode encode_incompatible request fixture 5
      ((2024 ∷ [], refl), ((2024 ∷ [], refl), tt))
