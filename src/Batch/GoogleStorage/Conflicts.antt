-- ===== src/Batch/GoogleStorage/Conflicts.antt =====
-- src/alfabetizacao_pipeline/batch/google_storage.py: the errors of `copy`.
use tech_challenge_fase2_alf.Batch.GoogleStorage.Failures.{
  statted, on_not_found-holds, on_not_found_inv, on_precondition-holds, google_stat_misses,
  retried_raises, google_stat_raises,
}
use tech_challenge_fase2_alf.Batch.Models.{BronzeObject}
use tech_challenge_fase2_alf.Batch.Gcs.{GcsObjectVersion, ImmutableCopy}
use tech_challenge_fase2_alf.Batch.GoogleStorage.Uri.{split_gs_uri, split_gs_uri_raises}
use tech_challenge_fase2_alf.Prelude.Actions.{
  Action, >>=-holds, ◌>>=◌, continue, raise_when, ◌>>◌, raise, guard-splits, pure, lift,
}
use tech_challenge_fase2_alf.Batch.GoogleStorage.Live.{
  Live, StorageLaws, ObserverReads, object_at_inv,
}
use tech_challenge_fase2_alf.Batch.GoogleStorage.{
  Action, google_stat, split_gs_uri, storage_call, GcsObjectVersion, StoredBlob, raise_when,
  classify_conflict, raise, except_not_found, BronzeObject, except_precondition, google_copy, pure,
  written_object, lift,
}
use tech_challenge_fase2_alf.Batch.Retry.{RetryObserver}
use tech_challenge_fase2_alf.Batch.Errors.{
  BatchError, stale_object_generation, immutable_object_exists,
}
use tech_challenge_fase2_alf.Batch.GoogleStorage.Native.{StorageClientBoundary, StoredBlob}
use tech_challenge_fase2_alf.Prelude.Results.{Result, ok, err}
use tech_challenge_fase2_alf.Prelude.{
  ◌≡◌, String, Option, ℕ, refl, arith, ◌∙◌, ap, sym, subst, not, ◌==◌, string_eq, nat_eq, some,
  ==_iff,
}
use tech_challenge_fase2_alf.Batch.GoogleStorage.Copies.{
  CopyErrors, is_classified, Classifies, err-Classifies, generation_of, generation_at,
  other-IsClassified, IsClassified, generation_at,
}
use tech_challenge_fase2_alf.Batch.GoogleStorage.Lawful.{google_stat_finds, google_stat_reads}

module _ {W : Type 0} (client : StorageClientBoundary W) (check_netloc : String → Option String)
    (observer : Option (RetryObserver W)) (maximum_attempts : ℕ) (live : Live W)
    (laws : StorageLaws client live) (reads : ObserverReads live observer)
    (errors : CopyErrors client live observer) where
  module _ (request : ImmutableCopy) (at : String × String)
      (split : split_gs_uri check_netloc request.source.uri ≡ ok at) where
    abbrev stale : BatchError
    stale = stale_object_generation request.source.uri

    abbrev exists_there : BatchError
    exists_there = immutable_object_exists request.destination_uri

    abbrev judged : GcsObjectVersion → Action W BatchError StoredBlob
    judged current =
        raise_when (not (current.generation == request.source.generation)) stale
        >> raise exists_there

    -- The version that `stat` finds is the live one, before and after.
    live_generation :
        (current : GcsObjectVersion) (w : W)
        → (statted client check_netloc observer maximum_attempts live laws reads errors
            request.source.uri at split w).0
          ≡ ok current
        → generation_at live
            (statted client check_netloc observer maximum_attempts live laws reads errors
              request.source.uri at split w).1
            at
          ≡ some current.generation
    live_generation current w found =
        let uri = request.source.uri in
        let (payload, kept) =
          google_stat_finds client check_netloc observer maximum_attempts live laws reads uri w
            current found in
        let (at', version, split', here, same) =
          object_at_inv live w uri (split_gs_uri check_netloc uri) current payload kept in
        let place : at' ≡ at = ground arith in
        ap generation_of (
          google_stat_reads client check_netloc observer maximum_attempts live laws reads uri w at.0
            at.1
          ∙ subst (λ x. live w x.0 x.1 ≡ some (version, payload)) place here)
        ∙ ap some (sym (ap (λ v. v.generation) same))

    judged-Classifies :
        (current : GcsObjectVersion) (w : W)
        → (statted client check_netloc observer maximum_attempts live laws reads errors
            request.source.uri at split w).0
          ≡ ok current
        → Classifies live request at (
            judged current
              (statted client check_netloc observer maximum_attempts live laws reads errors
                request.source.uri at split w).1)
    judged-Classifies current w found =
        let here = live_generation current w found in
        let v =
          (statted client check_netloc observer maximum_attempts live laws reads errors
            request.source.uri at split w).1 in
        guard-splits (Classifies live request at)
          (not (current.generation == request.source.generation)) stale (raise exists_there) v
          (λ differs. err-Classifies live request at stale v (
            refl,
            λ equal.
                let same : current.generation ≡ request.source.generation = ground arith in
                grind arith,
          ))
          (λ equal. err-Classifies live request at exists_there v (
            refl,
            here ∙ ap some ((==_iff current.generation request.source.generation).0 (ground arith)),
          ))

    abbrev looked_up : Action W BatchError GcsObjectVersion
    looked_up =
        except_not_found
          (google_stat client check_netloc observer maximum_attempts request.source.uri) stale

    abbrev found_at : (w : W) → Result BatchError GcsObjectVersion × W
    found_at = google_stat client check_netloc observer maximum_attempts request.source.uri

    looked_up-Classifies : (w : W) → Classifies live request at (looked_up w)
    looked_up-Classifies w =
        on_not_found-holds (Classifies live request at) (found_at w).0 (found_at w).1 stale
          (λ a h e p. absurd (ground arith))
          (λ h. err-Classifies live request at stale (found_at w).1 (
            refl,
            λ equal.
                let absent = ap generation_of (
                  google_stat_misses client check_netloc observer maximum_attempts live laws reads
                    errors request.source.uri at split w h) in
                absurd (ground arith),
          ))
          (λ e h. err-Classifies live request at e (found_at w).1 (
            other-IsClassified live request at e (found_at w).1 (
              google_stat_raises client check_netloc observer maximum_attempts live laws reads
                errors request.source.uri at split w e h)))

    -- What is looked up is what `stat` found, and the world is as `stat` left it.
    looked_up_inv :
        (w : W) (current : GcsObjectVersion)
        → (looked_up w).0 ≡ ok current
        → ((found_at w).0 ≡ ok current) × ((looked_up w).1 ≡ (found_at w).1)
    looked_up_inv w current = on_not_found_inv (found_at w).0 (found_at w).1 stale current

    conflict-Classifies :
        (w : W)
        → Classifies live request at
            (classify_conflict client check_netloc observer maximum_attempts request w)
    conflict-Classifies w =
        >>=-holds (Classifies live request at) looked_up judged w
          (λ e h. err-Classifies live request at e (looked_up w).1 (looked_up-Classifies w e h))
          (λ current h.
            let (found, kept) = looked_up_inv w current h in
            subst (λ v. Classifies live request at (judged current v)) (sym kept)
              (judged-Classifies current w found))

    abbrev copied : String × String → String × String → Action W BatchError StoredBlob
    copied source destination =
        storage_call client check_netloc observer maximum_attempts "gcs.copy" (
          client.copy_immutable (record {
            source_bucket = source.0;
            source_name = source.1;
            source_generation = request.source.generation;
            destination_bucket = destination.0;
            destination_name = destination.1;
          }))

    abbrev guarded : String × String → String × String → Action W BatchError StoredBlob
    guarded source destination =
        except_precondition (copied source destination)
          (classify_conflict client check_netloc observer maximum_attempts request)

    abbrev written : StoredBlob → Action W BatchError BronzeObject
    written blob =
        pure (
          written_object client check_netloc observer maximum_attempts request.destination_uri blob)

    abbrev copied_from : String × String → Action W BatchError BronzeObject
    copied_from source = lift (split_gs_uri check_netloc request.destination_uri) >>= λ destination.
        guarded source destination >>= written

    guarded-Classifies :
        (destination : String × String) (w : W)
        → Classifies live request at (guarded at destination w)
    guarded-Classifies destination w =
        let r = copied at destination w in
        on_precondition-holds (Classifies live request at) r.0 r.1
          (classify_conflict client check_netloc observer maximum_attempts request)
          (λ a h e p. absurd (ground arith)) (conflict-Classifies r.1)
          (λ e h. err-Classifies live request at e r.1 (
            other-IsClassified live request at e r.1 (
              retried_raises client check_netloc observer maximum_attempts live laws reads errors
                "gcs.copy"
                (client.copy_immutable (record {
                  source_bucket = at.0;
                  source_name = at.1;
                  source_generation = request.source.generation;
                  destination_bucket = destination.0;
                  destination_name = destination.1;
                }))
                w e (errors.copy_raises _) h)))

    -- Where the source URI is split and the calls of the client raise neither error themselves,
    -- a copy that fails with ImmutableObjectExists names the destination, and the source's
    -- place then has the generation that was asked for; one that fails with
    -- StaleObjectGeneration names the source, and its place then has no object of that
    -- generation.
    pub google_copy-IsClassified :
        (w : W) (e : BatchError)
        → (google_copy client check_netloc observer maximum_attempts request w).0 ≡ err e
        → IsClassified live request at e
            (google_copy client check_netloc observer maximum_attempts request w).1
    unfolding google_copy
    google_copy-IsClassified w =
        subst (λ r. Classifies live request at (continue r copied_from w)) (sym split)
          (>>=-holds (Classifies live request at)
            (lift (split_gs_uri check_netloc request.destination_uri))
            (λ destination. guarded at destination >>= written) w
            (λ e h. err-Classifies live request at e w (
              other-IsClassified live request at e w (
                ap is_classified (split_gs_uri_raises check_netloc request.destination_uri e h).1)))
            (λ destination h.
              >>=-holds (Classifies live request at) (guarded at destination) written w
                (λ e p.
                  err-Classifies live request at e (guarded at destination w).1
                    (guarded-Classifies destination w e p))
                (λ blob p e q. absurd (ground arith))))
