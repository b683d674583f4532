-- ===== src/Tests/Releases.antt =====
-- A selection that succeeds.
use tech_challenge_fase2_alf.Releases.Selector.Exact.{
  partition_key, HasManifest, select_latest_completed-IsExact,
}
use tech_challenge_fase2_alf.Prelude.Sorting.{sorted, insert_sorted}
use tech_challenge_fase2_alf.Prelude.Dict.{get, put}
use tech_challenge_fase2_alf.Batch.Catalog.{source_catalog}
use tech_challenge_fase2_alf.Batch.Release.{release_sources}
use tech_challenge_fase2_alf.Releases.Selector.{
  ReleasePartition, SelectedRelease, select_latest_completed, PartitionKey, covers_catalog,
  manifest_key, select_loop, is_refused, same_keys, by_key, partition_of, partitions_of,
  valid_release_id, partition_key_eq, PartitionKey-discrete,
}
use tech_challenge_fase2_alf.Batch.Models.{BatchManifest}
use native.Mathlib.Decide.{ℕ_discrete}
use tech_challenge_fase2_alf.Prelude.{
  String, List, map, ◌<>◌, ◌∷◌, [], string_eq, String-discrete, nat_eq, Distinct, contains, ◌≡◌,
  All, true, refl,
}
use tech_challenge_fase2_alf.Prelude.Text.{show}
use tech_challenge_fase2_alf.Tests.Fixtures.{uf_manifest}

abbrev of_source : String → BatchManifest
of_source source = record uf_manifest { source = source }

abbrev chosen : List BatchManifest
chosen = map of_source release_sources

abbrev expected : List PartitionKey
expected = map manifest_key chosen

abbrev same : String → String
same id = id

abbrev partition : String → ReleasePartition
partition source = record {
  source = source;
  year = 2024;
  run_id = "run-1";
  manifest_uri = "gs://manifests/" <> source <> "/ano=2024/run=run-1/manifest.json";
}

abbrev release : SelectedRelease
release = record {
  release_id = "r-2024";
  created_at = 5;
  partitions = map partition (
      "alunos" ∷ "meta_alfabetizacao_brasil" ∷ "meta_alfabetizacao_municipio"
      ∷ "meta_alfabetizacao_uf" ∷ "municipio" ∷ "uf" ∷ []);
}

select_latest_completed-IsExact_example :
    Distinct (map partition_key release.partitions)
    × ((k : PartitionKey) → contains k (map partition_key release.partitions) ≡ contains k expected)
    × All (HasManifest same chosen) release.partitions
    × (covers_catalog expected ≡ true)
unfolding select_latest_completed covers_catalog source_catalog select_loop is_refused same_keys
    by_key partition_of partitions_of valid_release_id get put sorted insert_sorted string_eq
    String-discrete partition_key_eq PartitionKey-discrete nat_eq ℕ_discrete show
select_latest_completed-IsExact_example =
    select_latest_completed-IsExact same chosen "r-2024" 5 expected release refl
