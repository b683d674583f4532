-- ===== src/Batch/Catalog.antt =====
-- src/alfabetizacao_pipeline/batch/catalog.py: the six official sources and their contracts.
use tech_challenge_fase2_alf.Prelude.{String, ◌<>◌, List, [], ◌∷◌, ◌++◌, map}
use tech_challenge_fase2_alf.Prelude.Dict.{Dict}
use tech_challenge_fase2_alf.Batch.Models.{
  BigQueryType, int64, float64, string, SelectionPolicy, SourceColumn, SourceContract,
}

abbrev pub pinned_schema_commit : String
pinned_schema_commit = "fa95c5d79286471d2b9158670c927ec7bc73d6fa"

abbrev pub column : String → BigQueryType → SourceColumn
column name data_type = record { name = name; data_type = data_type; mode = "NULLABLE" }

-- The decimal digits that the two ranges of the catalog print.
abbrev levels : List String
levels = "0" ∷ "1" ∷ "2" ∷ "3" ∷ "4" ∷ "5" ∷ "6" ∷ "7" ∷ "8" ∷ []

abbrev target_years : List String
target_years = "2024" ∷ "2025" ∷ "2026" ∷ "2027" ∷ "2028" ∷ "2029" ∷ "2030" ∷ []

abbrev pub level_columns : List SourceColumn
level_columns = map (λ level. column ("proporcao_aluno_nivel_" <> level) float64) levels

-- `_RESULT_COLUMNS[1:]`: every use of `_RESULT_COLUMNS` drops its first column, `ano`.
abbrev pub result_columns_tail : List SourceColumn
result_columns_tail =
    column "serie" string
    ∷ column "rede" string
    ∷ column "taxa_alfabetizacao" float64
    ∷ column "media_portugues" float64
    ∷ level_columns

-- `_META_COLUMNS[1:]`
abbrev pub meta_columns_tail : List SourceColumn
meta_columns_tail =
    column "rede" string
    ∷ column "taxa_alfabetizacao" float64
    ∷ map (λ year. column ("meta_alfabetizacao_" <> year) float64) target_years

abbrev pub contract : String → List SourceColumn → List String → SourceContract
contract name columns keys = record {
  name = name;
  columns = columns;
  key_columns = keys;
  selection_policy = SelectionPolicy.annual;
  pinned_schema_commit = pinned_schema_commit;
}

abbrev pub uf_contract : SourceContract
uf_contract =
    contract "uf" (column "ano" int64 ∷ column "sigla_uf" string ∷ result_columns_tail)
      ("ano" ∷ "sigla_uf" ∷ "rede" ∷ [])

abbrev pub meta_brasil_contract : SourceContract
meta_brasil_contract =
    contract "meta_alfabetizacao_brasil"
      (column "ano" int64 ∷ meta_columns_tail ++ (column "percentual_participacao" float64 ∷ []))
      ("ano" ∷ "rede" ∷ [])

abbrev pub meta_uf_contract : SourceContract
meta_uf_contract =
    contract "meta_alfabetizacao_uf"
      (column "ano" int64 ∷ column "sigla_uf" string ∷ meta_columns_tail
        ++ (column "percentual_participacao" float64 ∷ []))
      ("ano" ∷ "sigla_uf" ∷ "rede" ∷ [])

abbrev pub meta_municipio_contract : SourceContract
meta_municipio_contract =
    contract "meta_alfabetizacao_municipio"
      (column "ano" int64 ∷ column "id_municipio" string ∷ meta_columns_tail
        ++ (column "nivel_alfabetizacao" int64 ∷ column "percentual_participacao" float64 ∷ []))
      ("ano" ∷ "id_municipio" ∷ "rede" ∷ [])

abbrev pub municipio_contract : SourceContract
municipio_contract =
    contract "municipio" (column "ano" int64 ∷ column "id_municipio" string ∷ result_columns_tail)
      ("ano" ∷ "id_municipio" ∷ "rede" ∷ [])

abbrev pub alunos_contract : SourceContract
alunos_contract =
    contract "alunos"
      (column "ano" int64
        ∷ column "id_municipio" string
        ∷ column "id_escola" string
        ∷ column "id_aluno" string
        ∷ column "caderno" string
        ∷ column "serie" string
        ∷ column "rede" string
        ∷ column "presenca" string
        ∷ column "preenchimento_caderno" string
        ∷ column "alfabetizado" string
        ∷ column "proficiencia" float64
        ∷ column "peso_aluno" float64
        ∷ [])
      ("ano" ∷ "id_municipio" ∷ "id_escola" ∷ "id_aluno" ∷ [])

unfoldable pub source_catalog : Dict String SourceContract
source_catalog =
    ("uf", uf_contract)
    ∷ ("meta_alfabetizacao_brasil", meta_brasil_contract)
    ∷ ("meta_alfabetizacao_uf", meta_uf_contract)
    ∷ ("meta_alfabetizacao_municipio", meta_municipio_contract)
    ∷ ("municipio", municipio_contract)
    ∷ ("alunos", alunos_contract)
    ∷ []
