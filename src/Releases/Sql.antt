-- ===== src/Releases/Sql.antt =====
-- src/alfabetizacao_pipeline/releases/sql.py: the SQL of a promotion and of a rollback. The text of
-- a template, a file of the package, is a parameter.
pub mod Project
pub mod Rendered
use tech_challenge_fase2_alf.Prelude.Text.{show}
use tech_challenge_fase2_alf.Prelude.Results.{◌>>◌, Result, raise_if, ◌>>=◌, ok}
use tech_challenge_fase2_alf.Prelude.Chars.{
  within, is_char, before, tail_text, any_char, from, text_count, all_chars, begins_with,
}
use tech_challenge_fase2_alf.Prelude.{
  ◌≡◌, Bool, String, ℕ, ◌||◌, false, ◌<>◌, ◌&&◌, not, ◌-◌, leb, ◌==◌, if◌then◌else◌, suc, zero,
  true, string_eq,
}
use Prim.Native.Char.{Char}
use tech_challenge_fase2_alf.Batch.Errors.{
  BatchError, invalid_reference_year, invalid_table_identifier,
}

abbrev is_lower : Char → Bool
is_lower = within b'a' b'z'

abbrev is_digit : Char → Bool
is_digit = within b'0' b'9'

-- `[a-z0-9-]`
abbrev is_project_char : Char → Bool
is_project_char c = is_lower c || is_digit c || is_char b'-' c

-- `[A-Za-z_]`
abbrev is_name_start : Char → Bool
is_name_start c = is_lower c || within b'A' b'Z' c || is_char b'_' c

-- `[A-Za-z0-9_]`
abbrev is_name_char : Char → Bool
is_name_char c = is_name_start c || is_digit c

-- `[a-z][a-z0-9-]{4,29}`
unfoldable pub is_project : String → Bool
is_project String.[] = false
is_project (String.◌∷◌ c s) =
    is_lower c && all_chars is_project_char s && leb 4 (text_count s) && leb (text_count s) 29

-- `[A-Za-z_][A-Za-z0-9_]*`
unfoldable pub is_name : String → Bool
is_name String.[] = false
is_name (String.◌∷◌ c s) = is_name_start c && all_chars is_name_char s

abbrev pub is_dot : Char → Bool
is_dot = is_char b'.'

-- The texts before the first dot, and after it.
abbrev pub first_part : String → String
first_part = before is_dot

abbrev pub other_parts : String → String
other_parts s = tail_text (from is_dot s)

-- `re.fullmatch(...)`. No class has the dot, so that the dots are those of the pattern.
unfoldable pub is_table : String → Bool
is_table table =
    any_char is_dot table
    && any_char is_dot (other_parts table)
    && is_project (first_part table)
    && is_name (first_part (other_parts table))
    && is_name (other_parts (other_parts table))

-- `_validate_table`, and the check of the data set and the table in `_project_id`
unfoldable pub project_id : String → Result BatchError String
project_id table = do
  raise_if (not (is_table table)) (invalid_table_identifier table)
  raise_if
      (not (
        first_part (other_parts table) == "ops"
        && other_parts (other_parts table) == "active_release"))
      (invalid_table_identifier table)
  ok (first_part table)

-- `text.replace(old, new)`, of an old text that is not empty: the characters of an occurrence that
-- are still to be skipped are counted.
unfoldable pub replaced_from : ℕ → String → String → String → String
replaced_from skip old new String.[] = ""
replaced_from zero old new (String.◌∷◌ c s) = elim (begins_with old (String.◌∷◌ c s)) [
  | true ↦ new <> replaced_from (text_count old - 1) old new s
  | false ↦ String.◌∷◌ c (replaced_from 0 old new s)
]
replaced_from (suc skip) old new (String.◌∷◌ c s) = replaced_from skip old new s

unfoldable pub replaced : String → String → String → String
replaced old new text = replaced_from 0 old new text

-- `_validate_reference_year`, of a whole number
unfoldable pub validate_reference_year : ℕ → Result BatchError (Unit {0})
validate_reference_year year =
    raise_if (not (leb 2000 year && leb year 2100)) (invalid_reference_year "int")

module _ (template : String → String) where
  unfoldable pub canonical_sql : String → String → String
  canonical_sql filename project = replaced "{{ project_id }}" project (template filename)

  unfoldable pub promotion_sql : String → Result BatchError String
  promotion_sql table = do
    project ← project_id table
    ok (canonical_sql "promote_release.sql" project)

  unfoldable pub rollback_sql : String → ℕ → Result BatchError String
  rollback_sql table reference_year = do
    validate_reference_year reference_year
    project ← project_id table
    ok (
        replaced "@reference_year" (show reference_year)
          (canonical_sql "rollback_release.sql" project))
