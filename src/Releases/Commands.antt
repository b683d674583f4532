-- ===== src/Releases/Commands.antt =====
-- src/alfabetizacao_pipeline/releases/commands.py: the commands. The text that pydantic reads the
-- manifests from, the JSON of a release and `str.strip` are parameters; typer parses the options.
use tech_challenge_fase2_alf.Releases.Sql.{promotion_sql, rollback_sql}
use tech_challenge_fase2_alf.Batch.Models.{BatchManifest, Instant}
use tech_challenge_fase2_alf.Prelude.Results.{Result, ok, err}
use tech_challenge_fase2_alf.Releases.Selector.{SelectedRelease, select_latest_completed}
use tech_challenge_fase2_alf.Prelude.{
  String, ℕ, Bool, Option, if◌then◌else◌, not, some, leb, List, ◌==◌, ◌&&◌, string_eq, nat_eq, none,
  map,
}
use tech_challenge_fase2_alf.Batch.Errors.{BatchError, incomplete_run, invalid_table_identifier}

-- How a command ends: it prints, or exits with a text on the error output and a code, or raises.
pub data CommandEnd : Type 0 where
  echoed : String → CommandEnd
  exited : String → ℕ → CommandEnd
  raised : BatchError → CommandEnd

abbrev pub is_identifier : (String → String) → String → Bool
is_identifier strip id = not (strip id == "")

-- `_required_identifier`, before the rest of a command
unfoldable pub required_identifier : (String → String) → Option String → CommandEnd → CommandEnd
required_identifier strip none rest = exited "{\"status\":\"invalid_release_id\"}" 2
required_identifier strip (some id) rest =
    if is_identifier strip id then rest else exited "{\"status\":\"invalid_release_id\"}" 2

-- `_reference_year`, before the rest of a command
unfoldable pub required_year : ℕ → CommandEnd → CommandEnd
required_year year rest =
    if leb 2000 year && leb year 2100
    then rest
    else exited "{\"status\":\"invalid_reference_year\"}" 2

abbrev pub selected_end :
    (SelectedRelease → String) → Result BatchError SelectedRelease → CommandEnd
selected_end dump (ok release) = echoed (dump release)
selected_end dump (err (incomplete_run run)) = exited "{\"status\":\"incomplete_release\"}" 2
selected_end dump (err e) = raised e

-- `select`, of the manifests that were read, if they are valid
unfoldable pub select :
    (String → String)
    → (SelectedRelease → String)
    → Option (List BatchManifest)
    → String
    → ℕ
    → List String
    → Instant
    → CommandEnd
select strip dump none release_id year expected_sources now =
    exited "{\"status\":\"invalid_manifests\"}" 2
select strip dump (some manifests) release_id year expected_sources now = selected_end dump (
    select_latest_completed strip manifests release_id now
      (map (λ source. (source, year)) expected_sources))

-- The SQL, or the refusal of its table.
abbrev pub sql_end : Result BatchError String → CommandEnd
sql_end (ok sql) = echoed sql
sql_end (err (invalid_table_identifier table)) =
    exited "{\"status\":\"invalid_table_identifier\"}" 2
sql_end (err e) = raised e

module _ (template : String → String) where
  unfoldable pub promote : (String → String) → String → String → Bool → CommandEnd
  promote strip release_id table dry_run = required_identifier strip (some release_id) (
      if not dry_run
      then exited "{\"status\":\"cloud_authorization_required\"}" 5
      else sql_end (promotion_sql template table))

  unfoldable pub rollback : ℕ → String → Bool → CommandEnd
  rollback reference_year table dry_run = required_year reference_year (
      if not dry_run
      then exited "{\"status\":\"cloud_authorization_required\"}" 5
      else sql_end (rollback_sql template table reference_year))
