-- ===== src/Releases/Sql/Rendered.antt =====
-- src/alfabetizacao_pipeline/releases/sql.py: which SQL is written.
use tech_challenge_fase2_alf.Batch.Errors.{invalid_reference_year}
use tech_challenge_fase2_alf.Prelude.Results.{Result, ok, err, ◌>>=◌, ◌>>◌, raise_if}
use tech_challenge_fase2_alf.Prelude.Text.{show}
use tech_challenge_fase2_alf.Releases.Sql.{
  canonical_sql, is_project, project_id, promotion_sql, replaced, rollback_sql,
  validate_reference_year,
}
use tech_challenge_fase2_alf.Releases.Sql.Project.{active_release_of, project_id_iff}
use tech_challenge_fase2_alf.Prelude.{
  ◌≡◌, String, ℕ, true, ◌↔◌, ◌≤◌, arith, refl, Bool, not, leb, false, ◌&&◌,
}

-- The template with a project's name in each of its places.
abbrev pub with_project : (String → String) → String → String → String
with_project template filename project = replaced "{{ project_id }}" project (template filename)

-- The table is the active release of the project, whose name is valid.
abbrev pub IsActiveRelease : String → String → Type 0
IsActiveRelease table project = (is_project project ≡ true) × (table ≡ active_release_of project)

raise_if-ok_iff :
    {E B : Type 0} (b : Bool) (e : E) (k : Result E B) (x : B)
    → ((raise_if b e >> k) ≡ ok x) ↔ ((b ≡ false) × (k ≡ ok x))
raise_if-ok_iff true e k x = (λ h. absurd (ground arith), λ h. absurd (ground arith))
raise_if-ok_iff false e k x = (λ h. (refl, h), λ h. h.1)

rendered_iff :
    {E : Type 0} (r : Result E String) (render : String → String) (sql : String)
    → ((r >>= λ project. ok (render project)) ≡ ok sql)
      ↔ ((project : String) × (r ≡ ok project) × (sql ≡ render project))
rendered_iff (ok project) render sql =
    (λ h. (project, refl, ground arith), λ (other, same, written). ground arith)
rendered_iff (err e) render sql = (λ h. absurd (ground arith), λ h. absurd (ground arith))

module _ (template : String → String) (table sql : String) where
  written_iff :
      (render : String → String)
      → ((project_id table >>= λ project. ok (render project)) ≡ ok sql)
        ↔ ((project : String) × IsActiveRelease table project × (sql ≡ render project))
  written_iff render =
      let (there, back) = rendered_iff (project_id table) render sql in
      (
        λ h.
            let (project, accepted, same) = there h in
            (project, (project_id_iff table project).0 accepted, same),
        λ (project, active, same). back (project, (project_id_iff table project).1 active, same),
      )

  promotion_sql_iff : (promotion_sql template table ≡ ok sql) ↔ (
      (project : String) × IsActiveRelease table project
      × (sql ≡ with_project template "promote_release.sql" project))
  unfolding promotion_sql canonical_sql
  promotion_sql_iff = written_iff (with_project template "promote_release.sql")

  rollback_sql_iff :
      (year : ℕ)
      → (rollback_sql template table year ≡ ok sql) ↔ (
          (2000 ≤ year)
          × (year ≤ 2100)
          × ((project : String) × IsActiveRelease table project
              × (sql
                  ≡ replaced "@reference_year"
                      (show year)
                      (with_project template "rollback_release.sql" project))))
  unfolding rollback_sql canonical_sql validate_reference_year
  rollback_sql_iff year =
      let render : String → String = λ project.
        replaced "@reference_year" (show year)
          (with_project template "rollback_release.sql" project) in
      let (there, back) = written_iff render in
      let (passes, again) =
        raise_if-ok_iff (not (leb 2000 year && leb year 2100)) (invalid_reference_year "int")
          (project_id table >>= λ project. ok (render project)) sql in
      (
        λ h. let (valid, rest) = passes h in (ground arith, ground arith, there rest),
        λ (low, high, found). again (ground arith, back found),
      )

  -- The SQL of a promotion is returned for a table exactly when the table is ops.active_release
  -- of a project whose name is valid, and it is then the template of the promotion with the
  -- project's name in its places; the SQL of a rollback exactly when also the year is from 2000
  -- to 2100, and it is then the template of the rollback with the project's name and the year
  -- in their places.
  pub sql-IsRendered :
      (year : ℕ)
      → ((promotion_sql template table ≡ ok sql) ↔ (
          (project : String) × IsActiveRelease table project
          × (sql ≡ with_project template "promote_release.sql" project)))
        × ((rollback_sql template table year ≡ ok sql) ↔ (
            (2000 ≤ year)
            × (year ≤ 2100)
            × ((project : String) × IsActiveRelease table project
                × (sql
                    ≡ replaced "@reference_year"
                        (show year)
                        (with_project template "rollback_release.sql" project)))))
  sql-IsRendered year = (promotion_sql_iff, rollback_sql_iff year)
