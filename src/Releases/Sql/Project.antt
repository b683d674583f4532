-- ===== src/Releases/Sql/Project.antt =====
-- src/alfabetizacao_pipeline/releases/sql.py: which tables `_project_id` accepts.
use tech_challenge_fase2_alf.Prelude.Ensures.{raise_if-Ensures, ok-Ensures}
use tech_challenge_fase2_alf.Prelude.Results.{ok}
use tech_challenge_fase2_alf.Prelude.Chars.{any_char, all_chars, before, from, before_run, from_run}
use tech_challenge_fase2_alf.Releases.Sql.{
  is_dot, is_project, project_id, is_project_char, is_table, is_name, ok, first_part, other_parts,
}
use tech_challenge_fase2_alf.Prelude.{
  ◌==◌, ==_iff, string_eq, String, ◌≡◌, ◌<>◌, true, arith, false, refl, Bool-cases, inl, ap, inr,
  string_eq, ◌↔◌, not, subst, sym, ◌&&◌, ◌∙◌, ap₂,
}
use Prim.Native.Char.{Char}
use Prim.Native.String.append
use text.Mathlib.TextEquality.{Char-path}

is_dot_inv : (c : Char) → is_dot c ≡ true → c ≡ "."
is_dot_inv c h = Char-path c "." (ground arith)

-- A text with a dot is its first part and its other parts, with a dot between.
parts_joined :
    (s : String) → any_char is_dot s ≡ true → s ≡ first_part s <> String.◌∷◌ "." (other_parts s)
unfolding any_char before from
parts_joined String.[] h = absurd (ground arith)
parts_joined (String.◌∷◌ c s) h = elim (Bool-cases (is_dot c)) [
  | inl p ↦ rw p (rw append.nil (ap (λ d. String.◌∷◌ d s) (is_dot_inv c p)))
  | inr p ↦ rw p (rw append.cons (ap (λ t. String.◌∷◌ c t) (parts_joined s (ground arith))))
]

no_dot : (s : String) → all_chars is_project_char s ≡ true → any_char is_dot s ≡ false
unfolding all_chars any_char
no_dot String.[] h = refl
no_dot (String.◌∷◌ c s) h = ground (arith, no_dot s)

project_has_no_dot : (p : String) → is_project p ≡ true → any_char is_dot p ≡ false
unfolding is_project any_char
project_has_no_dot String.[] h = refl
project_has_no_dot (String.◌∷◌ c s) h = ground (arith, no_dot s)

-- The name of the active release in a project.
abbrev pub active_release_of : String → String
active_release_of project = project <> ".ops.active_release"

dotted : (p t : String) → any_char is_dot (p <> String.◌∷◌ "." t) ≡ true
unfolding any_char
dotted String.[] t = rw append.nil refl
dotted (String.◌∷◌ c s) t = rw append.cons (ground (arith, dotted s t))

accepts : (p : String) → is_project p ≡ true → project_id (active_release_of p) ≡ ok p
unfolding project_id is_table is_name all_chars any_char before from string_eq
accepts p h =
    let none_in = project_has_no_dot p h in
    rw
      (
        dotted p "ops.active_release",
        before_run is_dot p "ops.active_release" "." none_in refl,
        from_run is_dot p "ops.active_release" "." none_in refl,
        h,
      )
      refl

only_accepts :
    (table p : String)
    → project_id table ≡ ok p
    → (is_project p ≡ true) × (table ≡ active_release_of p)
unfolding project_id is_table
only_accepts table =
    let P : String → Type 0 = λ p. (is_project p ≡ true) × (table ≡ active_release_of p) in
    raise_if-Ensures P (not (is_table table)) _ _ (λ a.
      raise_if-Ensures P
        (not (
          first_part (other_parts table) == "ops"
          && other_parts (other_parts table) == "active_release"))
        _ _
        (λ b.
          let data_set = (==_iff (first_part (other_parts table)) "ops").0 (ground arith) in
          let name = (==_iff (other_parts (other_parts table)) "active_release").0 (ground arith) in
          ok-Ensures P (first_part table) (
            ground arith,
            parts_joined table (ground arith)
                ∙ ap (λ t. first_part table <> String.◌∷◌ "." t)
                    (parts_joined (other_parts table) (ground arith)
                      ∙ ap₂ (λ d n. d <> String.◌∷◌ "." n) data_set name),
          )))

-- A table has a project exactly when it is `ops.active_release` of a project whose name is
-- valid, and then that one.
pub project_id_iff :
    (table p : String)
    → (project_id table ≡ ok p) ↔ ((is_project p ≡ true) × (table ≡ active_release_of p))
project_id_iff table p = (
  only_accepts table p,
  λ (valid, same). subst (λ t. project_id t ≡ ok p) (sym same) (accepts p valid),
)
