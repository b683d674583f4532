-- ===== src/Batch/GoogleStorage/Failures.antt =====
-- src/alfabetizacao_pipeline/batch/google_storage.py: what the errors of `stat` and of a retried call
-- say, which `_classify_copy_conflict` reads.
use tech_challenge_fase2_alf.Batch.Gcs.{GcsObjectVersion}
use tech_challenge_fase2_alf.Batch.GoogleStorage.Uri.{split_gs_uri}
use tech_challenge_fase2_alf.Prelude.Actions.{Action, >>=-holds, ◌>>=◌, continue}
use tech_challenge_fase2_alf.Batch.GoogleStorage.Live.{Live, StorageLaws, ObserverReads}
use tech_challenge_fase2_alf.Batch.GoogleStorage.{
  on_not_found, Action, google_stat, split_gs_uri, storage_call, is_transient, StoredVersion,
  GcsObjectVersion, on_precondition,
}
use tech_challenge_fase2_alf.Batch.Retry.{RetryObserver}
use tech_challenge_fase2_alf.Batch.Errors.{BatchError, not_found, precondition_failed}
use tech_challenge_fase2_alf.Batch.GoogleStorage.Native.{StorageClientBoundary, StoredVersion}
use tech_challenge_fase2_alf.Prelude.Results.{Result, ok, err}
use tech_challenge_fase2_alf.Prelude.{
  ◌≡◌, String, Option, ℕ, refl, false, none, inl, arith, inr, ◌∙◌, ap, sym, subst, string_eq,
  nat_eq,
}
use tech_challenge_fase2_alf.Batch.Retry.Rules.{retry_rule}
use tech_challenge_fase2_alf.Batch.GoogleStorage.Copies.{CopyErrors, is_classified}
use tech_challenge_fase2_alf.Batch.GoogleStorage.Lawful.{stat_result, stat_call}

module _ {W A : Type 0} (P : Result BatchError A × W → Type 0) where
  pub on_not_found-holds :
      (r : Result BatchError A) (w : W) (e : BatchError)
      → ((a : A) → r ≡ ok a → P (ok a, w))
      → (r ≡ err not_found → P (err e, w))
      → ((e' : BatchError) → r ≡ err e' → P (err e', w))
      → P (on_not_found r e w)
  on_not_found-holds (ok a) w e returns misses raises = returns a refl
  on_not_found-holds (err not_found) w e returns misses raises = misses refl
  on_not_found-holds (err e') w e returns misses raises = raises e' refl

pub on_not_found_inv :
    {W A : Type 0} (r : Result BatchError A) (w : W) (e : BatchError) (a : A)
    → (on_not_found r e w).0 ≡ ok a
    → (r ≡ ok a) × ((on_not_found r e w).1 ≡ w)
on_not_found_inv (ok b) w e a h = (h, refl)
on_not_found_inv (err not_found) w e a h = absurd (ground arith)
on_not_found_inv (err e') w e a h = absurd (ground arith)

module _ {W A : Type 0} (P : Result BatchError A × W → Type 0) where
  pub on_precondition-holds :
      (r : Result BatchError A) (w : W) (handler : Action W BatchError A)
      → ((a : A) → r ≡ ok a → P (ok a, w))
      → P (handler w)
      → ((e' : BatchError) → r ≡ err e' → P (err e', w))
      → P (on_precondition r handler w)
  on_precondition-holds (ok a) w handler returns handles raises = returns a refl
  on_precondition-holds (err precondition_failed) w handler returns handles raises = handles
  on_precondition-holds (err e') w handler returns handles raises = raises e' refl

module _ {W : Type 0} (client : StorageClientBoundary W) (check_netloc : String → Option String)
    (observer : Option (RetryObserver W)) (maximum_attempts : ℕ) (live : Live W)
    (laws : StorageLaws client live) (reads : ObserverReads live observer)
    (errors : CopyErrors client live observer) where
  -- Where the calls of an action raise nothing that is classified, neither do its retries.
  pub retried_raises :
      {A : Type 0} (operation : String) (action : Action W BatchError A) (w : W) (e : BatchError)
      → ((v : W) (e : BatchError) → (action v).0 ≡ err e → is_classified e ≡ false)
      → (storage_call client check_netloc observer maximum_attempts operation action w).0 ≡ err e
      → is_classified e ≡ false
  retried_raises operation action w e raises =
      retry_rule is_transient operation action maximum_attempts observer (λ v. Unit {0}) (λ v h. tt)
        (λ event v h. tt) w tt (λ r. r.0 ≡ err e → is_classified e ≡ false) (λ v h p. raises v e p)
        (λ e' v h foreign p. elim foreign [
          | inl q ↦ ground arith
          | inr (event, v', q) ↦
              let returned = errors.observer_returns event v' in absurd (ground arith)
        ])

  abbrev called_stat : String × String → Action W BatchError StoredVersion
  called_stat = stat_call client check_netloc observer maximum_attempts live laws reads

  abbrev version_at : String → StoredVersion → Action W BatchError GcsObjectVersion
  version_at = stat_result client check_netloc observer maximum_attempts live laws reads

  module _ (uri : String) (at : String × String) (split : split_gs_uri check_netloc uri ≡ ok at)
      (w : W) where
    abbrev pub statted : Result BatchError GcsObjectVersion × W
    statted = google_stat client check_netloc observer maximum_attempts uri w

    -- `stat` of a URI that is split.
    split_stat : statted ≡ (called_stat at >>= version_at uri) w
    unfolding google_stat
    split_stat = ap (λ r. continue r (λ place. called_stat place >>= version_at uri) w) split

    pub google_stat_raises : (e : BatchError) → statted.0 ≡ err e → is_classified e ≡ false
    google_stat_raises e h =
        >>=-holds (λ r. r.0 ≡ err e → is_classified e ≡ false) (called_stat at) (version_at uri) w
          (λ e' p q.
            retried_raises "gcs.stat" (client.stat at.0 at.1) w e (errors.stat_raises at.0 at.1)
              (ground arith))
          (λ version p q. absurd (ground arith)) (sym (ap (λ r. r.0) split_stat) ∙ h)

    pub google_stat_misses : statted.0 ≡ err not_found → live statted.1 at.0 at.1 ≡ none
    google_stat_misses h =
        subst (λ r. r.0 ≡ err not_found → live r.1 at.0 at.1 ≡ none) (sym split_stat)
          (>>=-holds (λ r. r.0 ≡ err not_found → live r.1 at.0 at.1 ≡ none) (called_stat at)
            (version_at uri) w (λ e p q. missed (ground arith))
            (λ version p q. absurd (ground arith)))
          h
      where
        missed : (called_stat at w).0 ≡ err not_found → live (called_stat at w).1 at.0 at.1 ≡ none
        missed =
            retry_rule is_transient "gcs.stat" (client.stat at.0 at.1) maximum_attempts observer
              (λ v. Unit {0}) (λ v h. tt) (λ event v h. tt) w tt
              (λ r. r.0 ≡ err not_found → live r.1 at.0 at.1 ≡ none)
              (λ v h p. laws.stat_reads at.0 at.1 v at.0 at.1 ∙ errors.stat_misses at.0 at.1 v p)
              (λ e v h foreign p. elim foreign [
                | inl q ↦ absurd (ground arith)
                | inr (event, v', q) ↦
                    let returned = errors.observer_returns event v' in absurd (ground arith)
              ])
