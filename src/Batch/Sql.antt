-- ===== src/Batch/Sql.antt =====
-- src/alfabetizacao_pipeline/batch/sql.py: the query texts. SHA-256 is a parameter of the users.
use tech_challenge_fase2_alf.Prelude.{String, ◌<>◌, List, ℕ, ◌∷◌, map, []}
use tech_challenge_fase2_alf.Batch.Models.{SourceContract}

unfoldable pub qualified_table : String → String → String → String
qualified_table project dataset source = "`" <> project <> "." <> dataset <> "." <> source <> "`"

-- `separator.join(texts)`
unfoldable pub join : String → List String → String
join separator [] = ""
join separator (t ∷ []) = t
join separator (t ∷ u ∷ us) = t <> (separator <> join separator (u ∷ us))

unfoldable pub build_select_sql : SourceContract → String → String → ℕ → String
build_select_sql contract project dataset year =
    let columns = join ",\n  " (map (λ c. c.name) contract.columns) in
    "SELECT\n  "
    <> columns
    <> "\n"
    <> ("FROM " <> qualified_table project dataset contract.name <> "\n")
    <> "WHERE ano = @year"

unfoldable pub build_export_sql : String → String → String
build_export_sql select_sql landing_uri =
    "EXPORT DATA OPTIONS(\n"
    <> ("  uri='" <> landing_uri <> "',\n")
    <> "  format='PARQUET',\n"
    <> "  compression='SNAPPY',\n"
    <> "  overwrite=false\n"
    <> ") AS\n"
    <> select_sql
