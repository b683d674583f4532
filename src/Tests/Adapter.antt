-- ===== src/Tests/Adapter.antt =====
-- The adapter on an SDK that answers at once.
use tech_challenge_fase2_alf.Batch.Models.{SourceInspection}
use tech_challenge_fase2_alf.Batch.Adapter.Location.{Refuses, RunsAt, big_query_adapter-RunsAt}
use tech_challenge_fase2_alf.Prelude.Results.{ok}
use tech_challenge_fase2_alf.Batch.Adapter.{
  BigQueryAdapterConfig, BigQuerySdkBoundary, AdapterState, big_query_adapter,
}
use tech_challenge_fase2_alf.Prelude.{ℕ, ◌≡◌, none, [], ◌+◌}

abbrev config : BigQueryAdapterConfig
config = record {
  locator = record { project = "basedosdados"; dataset = "avaliacao"; table = "uf" };
  query_hash = "query";
  schema_hash = "schema";
}

-- The SDK counts its calls.
abbrev counting : BigQuerySdkBoundary ℕ
counting = record {
  inspect = λ locator n. (
    ok (record {
      source = locator.table;
      identity = record { location = "US"; modified_at = none; etag = none };
      columns = [];
    }),
    n + 1,
  );
  dry_run = λ execution n. (ok (record { bytes_processed = 10 }), n + 1);
  snapshot = λ execution n. (ok (record { row_count = 1; object_uris = [] }), n + 1);
}

abbrev fresh : AdapterState ℕ
fresh = record { discovered = none; remote = 0 }

big_query_adapter-RunsAt_example :
    (fresh.discovered ≡ none → Refuses config counting fresh)
    × ((inspection : SourceInspection)
        → ((big_query_adapter config counting).inspect "uf" fresh).0 ≡ ok inspection
        → RunsAt config counting
            ((big_query_adapter config counting).inspect "uf" fresh).1
            inspection.identity.location)
big_query_adapter-RunsAt_example = big_query_adapter-RunsAt config counting "uf" fresh
