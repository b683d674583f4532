-- ===== src/Batch/SchemaDrift.antt =====
-- src/alfabetizacao_pipeline/batch/schema_drift.py: `compare_schema`.
pub mod Compatible
use tech_challenge_fase2_alf.Prelude.{
  String, Bool, true, false, not, ◌&&◌, ◌||◌, Option, none, some, List, [], ◌∷◌, ◌==◌, string_eq,
  keep_if, is_empty, is_none, str_ltb,
}
use tech_challenge_fase2_alf.Prelude.Dict.{Dict, keys, get, put}
use tech_challenge_fase2_alf.Prelude.Sorting.{sorted}
use tech_challenge_fase2_alf.Batch.Models.{
  SourceColumn, SourceContract, SchemaDriftReport, bigquery_type_eq,
}

-- `{column.name: column for column in columns}`: the last column of a name wins.
unfoldable pub index_columns :
    Dict String SourceColumn → List SourceColumn → Dict String SourceColumn
index_columns d [] = d
index_columns d (c ∷ cs) = index_columns (put c.name c d) cs

abbrev pub by_name : List SourceColumn → Dict String SourceColumn
by_name = index_columns []

abbrev pub type_differs : Option SourceColumn → Option SourceColumn → Bool
type_differs (some c) (some d) = not (c.data_type == d.data_type)
type_differs _ _ = false

abbrev pub mode_differs : Option SourceColumn → Option SourceColumn → Bool
mode_differs (some c) (some d) = not (c.mode == d.mode)
mode_differs _ _ = false

-- The sorted names of `d` that pass the test.
abbrev pub names_where : Dict String SourceColumn → (String → Bool) → List String
names_where d p = sorted str_ltb (keep_if p (keys d))

-- A name of one dict only is no change: the comprehensions run over the shared names.
unfoldable pub compare_schema : SourceContract → List SourceColumn → SchemaDriftReport
compare_schema expected actual =
    let e = by_name expected.columns in
    let a = by_name actual in
    let removed = names_where e (λ n. is_none (get n a)) in
    let types = names_where e (λ n. type_differs (get n e) (get n a)) in
    let modes = names_where e (λ n. mode_differs (get n e) (get n a)) in
    record {
      blocking = not (is_empty removed) || not (is_empty types) || not (is_empty modes);
      removed_columns = removed;
      added_columns = names_where a (λ n. is_none (get n e));
      type_changes = types;
      mode_changes = modes;
    }
