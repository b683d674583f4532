-- ===== src/Streaming/Entrypoint.antt =====
-- containers/dataflow/beam_entrypoint.py: `fixture_envelopes`, and what `run` submits for its
-- options. Beam, argparse, the reader of the fixture and the text of a row are not modelled: a
-- pipeline is its input and its outputs.
use tech_challenge_fase2_alf.Batch.Models.{Bytes, Instant}
use tech_challenge_fase2_alf.Prelude.Results.{Result, ok, err, ◌>>=◌}
use tech_challenge_fase2_alf.Prelude.Text.{show_02}
use tech_challenge_fase2_alf.Streaming.Codec.{CodecError}
use tech_challenge_fase2_alf.Streaming.Producer.{AvroTransportRecord, DemoFixture}
use tech_challenge_fase2_alf.Streaming.Routes.{
  BeamEnvelope, RouteLibraries, RoutedCollections, route_collections,
}
use tech_challenge_fase2_alf.Prelude.{
  String, ℕ, Option, none, some, List, [], ◌∷◌, ◌==◌, if◌then◌else◌, string_eq, ◌<>◌, ◌+◌,
}

-- 2026-08-29 12:00 in UTC, in microseconds.
abbrev pub fixture_instant : Instant
fixture_instant = 1788004800000000

module _ {Rate : Type 0} (encode_event : AvroTransportRecord Rate → Result CodecError Bytes) where
  -- The envelopes of the records, the first of which has this index.
  unfoldable pub envelopes_from :
      ℕ → List (AvroTransportRecord Rate) → Result CodecError (List BeamEnvelope)
  envelopes_from index [] = ok []
  envelopes_from index (r ∷ rs) = do
    payload ← encode_event r
    rest ← envelopes_from (index + 1) rs
    ok (
        record {
          message_id = "message-" <> show_02 index;
          payload = payload;
          publish_time = fixture_instant;
          ingestion_time = fixture_instant;
          correlation_id = some r.correlation_id;
        }
        ∷ rest)

  unfoldable pub fixture_envelopes :
      {Incompatible : Type 0}
      → DemoFixture Rate Incompatible
      → Result CodecError (List BeamEnvelope)
  fixture_envelopes fixture = envelopes_from 1 fixture.accepted

-- `_RunNamespace`
pub record RunOptions : Type 0 where
  pub input_subscription : Option String
  pub valid_table : Option String
  pub quarantine_table : Option String
  pub fixture : Option String
  pub output_dir : Option String

-- What is run: the texts of a fixture's rows into a directory, or a subscription into two tables.
pub data Pipeline (D : Type 0) : Type 0 where
  of_fixture : RoutedCollections D → String → Pipeline D
  of_subscription : String → String → String → Pipeline D

pub data RunError : Type 0 where
  -- `parser.error`
  usage_error : String → RunError
  codec_error : CodecError → RunError

-- An option that is not given or is empty is false.
abbrev pub given : Option String → Option String
given none = none
given (some text) = if text == "" then none else some text

abbrev pub subscribed :
    {D : Type 0} → Option String → Option String → Option String → Result RunError (Pipeline D)
subscribed none _ _ = err (usage_error "input_subscription é obrigatório no modo Dataflow")
subscribed (some subscription) (some valid_table) (some quarantine_table) =
    ok (of_subscription subscription valid_table quarantine_table)
subscribed (some subscription) _ _ =
    err (usage_error "valid_table e quarantine_table são obrigatórios no Dataflow")

abbrev pub into_directory :
    {D : Type 0} → Option String → RoutedCollections D → Result RunError (Pipeline D)
into_directory none routed = err (usage_error "output_dir é obrigatório no modo fixture")
into_directory (some directory) routed = ok (of_fixture routed directory)

abbrev pub or_codec_error : {A : Type 0} → Result CodecError A → Result RunError A
or_codec_error (ok a) = ok a
or_codec_error (err e) = err (codec_error e)

module _ {Rate D Incompatible : Type 0} (libs : RouteLibraries Rate D)
    (encode_event : AvroTransportRecord Rate → Result CodecError Bytes)
    (fixture_of : String → DemoFixture Rate Incompatible) where
  -- `run`, up to the pipeline that it submits
  unfoldable pub run : RunOptions → Result RunError (Pipeline D)
  run options = elim options.fixture [
    | none ↦
        subscribed (given options.input_subscription) (given options.valid_table)
          (given options.quarantine_table)
    | some path ↦ or_codec_error (fixture_envelopes encode_event (fixture_of path)) >>= λ envelopes.
        into_directory options.output_dir (route_collections libs envelopes)
  ]
