-- ===== src/Batch/SchemaDrift/Compatible.antt =====
-- When `compare_schema` blocks.
use tech_challenge_fase2_alf.Prelude.{
  String, ◌≡◌, ◌↔◌, ◌∙◌, Bool, true, false, not, ◌||◌, Option, none, some, List, arith, string_eq,
  keep_if, is_empty, is_none, str_ltb, is_empty-keep_if, sym,
}
use tech_challenge_fase2_alf.Prelude.Dict.{Dict, keys, get, All-keys_iff}
use tech_challenge_fase2_alf.Prelude.Sorting.{is_empty-sorted}
use tech_challenge_fase2_alf.Batch.Models.{SourceColumn, SourceContract, bigquery_type_eq}
use tech_challenge_fase2_alf.Batch.SchemaDrift.{
  by_name, type_differs, mode_differs, names_where, compare_schema,
}

-- Column `c` is still there, with its type and its mode.
abbrev pub Keeps : SourceColumn → Option SourceColumn → Type 0
Keeps c none = ⊥
Keeps c (some d) = (c.data_type ≡ d.data_type) × (c.mode ≡ d.mode)

names_where-eq-nil_iff :
    (d : Dict String SourceColumn) (p : String → Bool)
    → (is_empty (names_where d p) ≡ true)
      ↔ ((n : String) (c : SourceColumn) → get n d ≡ some c → p n ≡ false)
names_where-eq-nil_iff d p = (
  λ h.
      (All-keys_iff (λ n. p n ≡ false) d).0
        ((is_empty-keep_if p (keys d)).0 (sym (is_empty-sorted str_ltb (keep_if p (keys d))) ∙ h)),
  λ h.
      is_empty-sorted str_ltb (keep_if p (keys d))
      ∙ (is_empty-keep_if p (keys d)).1 ((All-keys_iff (λ n. p n ≡ false) d).1 h),
)

-- The three tests on one column together.
Keeps-iff :
    (c : SourceColumn) (o : Option SourceColumn)
    → ((is_none o ≡ false) × (type_differs (some c) o ≡ false) × (mode_differs (some c) o ≡ false))
      ↔ Keeps c o
Keeps-iff c none = ground arith
Keeps-iff c (some d) = ground arith

abbrev is_removed : Dict String SourceColumn → String → Bool
is_removed a n = is_none (get n a)

abbrev changes_type : Dict String SourceColumn → Dict String SourceColumn → String → Bool
changes_type e a n = type_differs (get n e) (get n a)

abbrev changes_mode : Dict String SourceColumn → Dict String SourceColumn → String → Bool
changes_mode e a n = mode_differs (get n e) (get n a)

-- `removed or type_changes or mode_changes`
three_empty_iff :
    (r t m : List String)
    → ((not (is_empty r) || not (is_empty t) || not (is_empty m)) ≡ false)
      ↔ ((is_empty r ≡ true) × (is_empty t ≡ true) × (is_empty m ≡ true))
three_empty_iff r t m = ground arith

module _ (e a : Dict String SourceColumn) where
  all_kept_iff :
      ((is_empty (names_where e (is_removed a)) ≡ true)
        × (is_empty (names_where e (changes_type e a)) ≡ true)
        × (is_empty (names_where e (changes_mode e a)) ≡ true))
      ↔ ((n : String) (c : SourceColumn) → get n e ≡ some c → Keeps c (get n a))
  all_kept_iff = (
    λ h n c g. (Keeps-iff c (get n a)).0 (
      (names_where-eq-nil_iff e (is_removed a)).0 h.0 n c g,
      rw g at ((names_where-eq-nil_iff e (changes_type e a)).0 h.1 n c g),
      rw g at ((names_where-eq-nil_iff e (changes_mode e a)).0 h.2 n c g),
    ),
    λ k. (
      (names_where-eq-nil_iff e (is_removed a)).1
          (λ n c g. ((Keeps-iff c (get n a)).1 (k n c g)).0),
      (names_where-eq-nil_iff e (changes_type e a)).1
          (λ n c g. rw g ((Keeps-iff c (get n a)).1 (k n c g)).1),
      (names_where-eq-nil_iff e (changes_mode e a)).1
          (λ n c g. rw g ((Keeps-iff c (get n a)).1 (k n c g)).2),
    ),
  )

-- The schema does not block exactly when every expected column is still there with its type and
-- its mode, whatever columns were added.
pub compare_schema-blocking_iff :
    (expected : SourceContract) (actual : List SourceColumn)
    → ((compare_schema expected actual).blocking ≡ false) ↔ (
        (n : String) (c : SourceColumn)
        → get n (by_name expected.columns) ≡ some c
        → Keeps c (get n (by_name actual)))
unfolding compare_schema
compare_schema-blocking_iff expected actual =
    let e = by_name expected.columns in
    let a = by_name actual in
    let split =
      three_empty_iff (names_where e (is_removed a)) (names_where e (changes_type e a))
        (names_where e (changes_mode e a)) in
    (λ h. (all_kept_iff e a).0 (split.0 h), λ k. split.1 ((all_kept_iff e a).1 k))
