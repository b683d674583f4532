-- ===== src/Releases/Selector.antt =====
-- src/alfabetizacao_pipeline/releases/selector.py and models.py: `select_latest_completed`.
-- pydantic's strip of the blanks around a release id is a parameter.
pub mod Exact
use tech_challenge_fase2_alf.Batch.Catalog.{source_catalog}
use native.Mathlib.Decide.{ℕ_discrete}
use tech_challenge_fase2_alf.Prelude.{
  String, ℕ, List, Bool, ◌==◌, contains, String-discrete, Eq, all, not, ◌∷◌, str_ltb, if◌then◌else◌,
  ◌<>◌, is_empty, ◌||◌, ◌&&◌, [], string_eq, is_none, ltb,
}
use tech_challenge_fase2_alf.Prelude.Text.{show}
use tech_challenge_fase2_alf.Prelude.Dict.{Dict, get, put, keys}
use tech_challenge_fase2_alf.Prelude.Results.{Result, ok, err, ◌>>=◌, ◌>>◌, raise_if}
use tech_challenge_fase2_alf.Prelude.Sorting.{sorted}
use tech_challenge_fase2_alf.Batch.Errors.{BatchError, incomplete_run, validation_error}
use tech_challenge_fase2_alf.Batch.Models.{BatchManifest, Instant, is_completed}

pub record ReleasePartition : Type 0 where
  pub source : String
  pub year : ℕ
  pub run_id : String
  pub manifest_uri : String

pub record SelectedRelease : Type 0 where
  pub release_id : String
  pub created_at : Instant
  pub partitions : List ReleasePartition

-- A source and a year.
abbrev pub PartitionKey : Type 0
PartitionKey = String × ℕ

unfoldable pub PartitionKey-discrete : Discrete PartitionKey
unfolding String-discrete ℕ_discrete
PartitionKey-discrete = hlevel (String-discrete, ℕ_discrete)

instance unfoldable pub partition_key_eq : Eq PartitionKey
unfolding PartitionKey-discrete
partition_key_eq = record { dec = PartitionKey-discrete }

abbrev pub manifest_key : BatchManifest → PartitionKey
manifest_key m = (m.source, m.year)

abbrev pub Selected : Type 0
Selected = Dict PartitionKey BatchManifest

-- `required_keys.issubset(expected_keys)`: the years of the expected keys have every source.
unfoldable pub covers_catalog : List PartitionKey → Bool
covers_catalog expected =
    all (λ k. all (λ entry. contains (entry.0, k.1) expected) source_catalog) expected

-- The test of the loop that raises.
unfoldable pub is_refused : List PartitionKey → Selected → BatchManifest → Bool
is_refused expected selected m =
    not (contains (manifest_key m) expected)
    || not (is_none (get (manifest_key m) selected))
    || not (is_completed m.status)
    || is_none m.completed_at

unfoldable pub select_loop :
    List PartitionKey → Selected → List BatchManifest → Result BatchError Selected
select_loop expected selected [] = ok selected
select_loop expected selected (m ∷ ms) = do
  raise_if (is_refused expected selected m) (incomplete_run m.run_id)
  select_loop expected (put (manifest_key m) m selected) ms

-- `frozenset(selected) == expected_keys`
unfoldable pub same_keys : Selected → List PartitionKey → Bool
same_keys selected expected =
    all (λ k. contains k expected) (keys selected) && all (λ k. contains k (keys selected)) expected

-- The order of `sorted(selected.items())`, whose keys differ.
unfoldable pub by_key : PartitionKey × BatchManifest → PartitionKey × BatchManifest → Bool
by_key a b = str_ltb a.0.0 b.0.0 || (a.0.0 == b.0.0 && ltb a.0.1 b.0.1)

module _ (strip : String → String) where
  -- `ReleaseId`: the text without blanks around it, which is not empty.
  unfoldable pub valid_release_id : String → Result BatchError String
  valid_release_id id = if strip id == "" then err validation_error else ok (strip id)

  unfoldable pub partition_of : PartitionKey → BatchManifest → Result BatchError ReleasePartition
  partition_of k m = do
    run_id ← valid_release_id m.run_id
    ok (record {
      source = k.0;
      year = k.1;
      run_id = run_id;
      manifest_uri =
          "gs://manifests/"
          <> k.0
          <> "/ano="
          <> show k.1
          <> ("/run=" <> m.run_id <> "/manifest.json");
    })

  unfoldable pub partitions_of :
      List (PartitionKey × BatchManifest) → Result BatchError (List ReleasePartition)
  partitions_of [] = ok []
  partitions_of ((k, m) ∷ entries) = do
    partition ← partition_of k m
    rest ← partitions_of entries
    ok (partition ∷ rest)

  unfoldable pub select_latest_completed :
      List BatchManifest → String → Instant → List PartitionKey → Result BatchError SelectedRelease
  select_latest_completed manifests release_id created_at expected = do
    raise_if (is_empty expected || not (covers_catalog expected))
        (incomplete_run "release-expected-set-incomplete")
    selected ← select_loop expected [] manifests
    raise_if (not (same_keys selected expected)) (incomplete_run "release-partition-set-mismatch")
    partitions ← partitions_of (sorted by_key selected)
    id ← valid_release_id release_id
    ok (record { release_id = id; created_at = created_at; partitions = partitions })
