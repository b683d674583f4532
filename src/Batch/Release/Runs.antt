-- ===== src/Batch/Release/Runs.antt =====
-- "Each source has exactly one run", said of the mappings and not of a set of run ids.
use tech_challenge_fase2_alf.Prelude.{
  ◌≡◌, List, String, contains, length, true, ◌∷◌, arith, string_eq, [], ==_iff, sym, ◌⊎◌, inl, ◌∙◌,
  inr, nat_eq,
}
use tech_challenge_fase2_alf.Batch.Release.{
  ReleaseFileMapping, run_ids, has_one_run, List, String, contains, length, true, mapping_eq,
}

-- Some mapping is of the source, and all mappings of the source come from one run.
abbrev pub OneRun : List ReleaseFileMapping → String → Type 0
OneRun files source =
    (m : ReleaseFileMapping) × (contains m files ≡ true)
    × (m.table_name ≡ source)
    × ((n : ReleaseFileMapping)
        → contains n files ≡ true
        → n.table_name ≡ source
        → n.source_run_id ≡ m.source_run_id)

-- A run id is in the set exactly when a mapping of the source has it.
contains-run_ids :
    (source : String) (files : List ReleaseFileMapping) (n : ReleaseFileMapping)
    → contains n files ≡ true
    → n.table_name ≡ source
    → contains n.source_run_id (run_ids source files) ≡ true
unfolding run_ids
contains-run_ids source [] n m t = cc
contains-run_ids source (f ∷ fs) n m t = ground (arith, contains-run_ids source fs n)

-- Where a run id of the set comes from.
run_ids_cases :
    (source : String) (f : ReleaseFileMapping) (fs : List ReleaseFileMapping) (run : String)
    → contains run (run_ids source (f ∷ fs)) ≡ true
    → ((f.table_name ≡ source) × (f.source_run_id ≡ run))
      ⊎ (contains run (run_ids source fs) ≡ true)
unfolding run_ids
run_ids_cases source f fs run h = ground arith

-- A mapping of the source with the given run.
abbrev Witness : List ReleaseFileMapping → String → String → Type 0
Witness files source run =
    (n : ReleaseFileMapping) × (contains n files ≡ true)
    × (n.table_name ≡ source)
    × (n.source_run_id ≡ run)

run_ids-Witness :
    (source : String) (files : List ReleaseFileMapping) (run : String)
    → contains run (run_ids source files) ≡ true
    → Witness files source run
unfolding run_ids
run_ids-Witness source [] run h = cc
run_ids-Witness source (f ∷ fs) run h = elim (run_ids_cases source f fs run h) [
  | inl (t, r) ↦ (f, ground arith, t, r)
  | inr rest ↦ let (n, m, t, r) = run_ids-Witness source fs run rest in (n, ground arith, t, r)
]

-- A list of one element holds nothing else.
contains_singleton :
    (xs : List String) (a b : String)
    → length xs ≡ 1
    → contains a xs ≡ true
    → contains b xs ≡ true
    → a ≡ b
contains_singleton [] a b l p q = cc
contains_singleton (x ∷ []) a b l p q = ground arith
contains_singleton (x ∷ y ∷ xs) a b l p q = absurd (omega arith)

contains_head : (xs : List String) → length xs ≡ 1 → (a : String) × (contains a xs ≡ true)
contains_head [] l = absurd (omega arith)
contains_head (x ∷ xs) l = (x, ground arith)

pub has_one_run-OneRun :
    (files : List ReleaseFileMapping) (source : String)
    → has_one_run files source ≡ true
    → OneRun files source
has_one_run-OneRun files source h =
    let one : length (run_ids source files) ≡ 1 = (==_iff (length (run_ids source files)) 1).0 h in
    let (run, there) = contains_head (run_ids source files) one in
    let (m, here, t, r) = run_ids-Witness source files run there in
    (
      m,
      here,
      t,
      λ n k u.
          contains_singleton (run_ids source files) n.source_run_id m.source_run_id one
            (contains-run_ids source files n k u) (contains-run_ids source files m here t),
    )

-- A set that has the same mappings has one run too.
pub OneRun-transfer :
    (xs ys : List ReleaseFileMapping) (source : String)
    → ((n : ReleaseFileMapping) → contains n xs ≡ contains n ys)
    → OneRun xs source
    → OneRun ys source
OneRun-transfer xs ys source same (m, here, t, only) =
    (m, sym (same m) ∙ here, t, λ n k u. only n (same n ∙ k) u)
