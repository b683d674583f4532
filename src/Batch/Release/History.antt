-- ===== src/Batch/Release/History.antt =====
-- The invariant of the registry over any history of calls.
use tech_challenge_fase2_alf.Batch.Release.Runs.{has_one_run-OneRun}
use tech_challenge_fase2_alf.Prelude.Dict.{put, get-nil}
use tech_challenge_fase2_alf.Batch.Models.{failed}
use tech_challenge_fase2_alf.Prelude.Results.{Result}
use tech_challenge_fase2_alf.Batch.Release.{
  ReleaseExecution, ReleaseStore, fresh_release, ReleaseSnapshot, Result, reopened, failed, put,
  ReleaseError, has_one_run, ok, release_sources, err, succeeded, is_running, is_failed,
}
use tech_challenge_fase2_alf.Prelude.{
  ◌≡◌, String, List, ◌∷◌, [], all, refl, string_eq, true, all-contains, inl, inr, Bool-cases,
}
use tech_challenge_fase2_alf.Batch.Release.Status.{
  Call, invoke, begun, recorded, abandoned, finished,
}
use tech_challenge_fase2_alf.Batch.Release.Invariant.{
  IsSound, IsConsistent, IsConsistent-put, merged_files-IsSound,
}
use tech_challenge_fase2_alf.Batch.Release.Effects.{begin_inv, record_inv, complete_inv, fail_inv}

fresh-IsSound : (x : ReleaseExecution) → IsSound x.release_id (fresh_release x)
fresh-IsSound x = record { of_id = refl; mapped = tt; one_run = λ nr nf source known. cc }

reopened-IsSound :
    (id : String) (cur : ReleaseSnapshot) → IsSound id cur → IsSound id (reopened cur)
reopened-IsSound id cur h = record {
  of_id = h.of_id;
  mapped = tt;
  one_run = λ nr nf source known. cc;
}

completed-IsSound :
    (id : String) (cur : ReleaseSnapshot)
    → all (has_one_run cur.files) release_sources ≡ true
    → IsSound id cur
    → IsSound id (record cur { status = succeeded })
completed-IsSound id cur one h = record {
  of_id = h.of_id;
  mapped = h.mapped;
  one_run = λ nr nf source known.
      has_one_run-OneRun cur.files source
        (all-contains (has_one_run cur.files) release_sources source one known);
}

failed-IsSound :
    (id : String) (cur : ReleaseSnapshot)
    → IsSound id cur
    → IsSound id (record cur { status = failed })
failed-IsSound id cur h = record {
  of_id = h.of_id;
  mapped = h.mapped;
  one_run = λ nr nf source known. cc;
}

IsConsistent-written :
    (id : String) (r : ReleaseSnapshot) (s s' : ReleaseStore)
    → s' ≡ put id r s
    → IsSound id r
    → IsConsistent s
    → IsConsistent s'
IsConsistent-written id r s s' e h c = rw e (IsConsistent-put id r s h c)

-- A successful call of a method keeps the registry consistent.
pub invoke-IsConsistent :
    (c : Call) (s s' : ReleaseStore) → invoke c s ≡ ok s' → IsConsistent s → IsConsistent s'
unfolding invoke
invoke-IsConsistent (begun x) s s' h k = elim (begin_inv x s s' h) [
  | inl e ↦ rw e k
  | inr (inl (g, e)) ↦
      IsConsistent-written x.release_id (fresh_release x) s s' e (fresh-IsSound x) k
  | inr (inr (cur, g, y, f, e)) ↦
      IsConsistent-written x.release_id (reopened cur) s s' e
        (reopened-IsSound x.release_id cur (k.at x.release_id cur g)) k
]
invoke-IsConsistent (recorded x m) s s' h k =
    let (cur, g, y, f, maps, p, indexed, q, files, r, e) = record_inv x s s' m h in
    IsConsistent-written x.release_id (record cur { files = files }) s s' e
      (merged_files-IsSound x m cur maps indexed files (k.at x.release_id cur g) y p q r) k
invoke-IsConsistent (finished x) s s' h k =
    let (cur, g, y, f, p, q, e) = complete_inv x s s' h in
    elim (Bool-cases (is_running cur.status)) [
      | inl running_now ↦
          IsConsistent-written x.release_id (record cur { status = succeeded }) s s'
            (rw running_now at e) (completed-IsSound x.release_id cur q (k.at x.release_id cur g)) k
      | inr other ↦ rw (rw other at e) k
    ]
invoke-IsConsistent (abandoned x) s s' h k =
    let (cur, g, y, f, e) = fail_inv x s s' h in
    elim (Bool-cases (is_failed cur.status)) [
      | inl failed_now ↦ rw (rw failed_now at e) k
      | inr other ↦
          IsConsistent-written x.release_id (record cur { status = failed }) s s' (rw other at e)
            (failed-IsSound x.release_id cur (k.at x.release_id cur g)) k
    ]

-- A call that raises leaves the registry as it was.
unfoldable pub after_call : ReleaseStore → Result ReleaseError ReleaseStore → ReleaseStore
after_call s (ok s') = s'
after_call s (err e) = s

unfoldable pub history : List Call → ReleaseStore → ReleaseStore
history [] s = s
history (c ∷ cs) s = history cs (after_call s (invoke c s))

after_call-IsConsistent :
    (c : Call) (s : ReleaseStore) (r : Result ReleaseError ReleaseStore)
    → invoke c s ≡ r
    → IsConsistent s
    → IsConsistent (after_call s r)
unfolding after_call
after_call-IsConsistent c s (ok s') h k = invoke-IsConsistent c s s' h k
after_call-IsConsistent c s (err e) h k = k

history_from-IsConsistent :
    (cs : List Call) (s : ReleaseStore) → IsConsistent s → IsConsistent (history cs s)
unfolding history
history_from-IsConsistent [] s k = k
history_from-IsConsistent (c ∷ cs) s k =
    history_from-IsConsistent cs (after_call s (invoke c s))
      (after_call-IsConsistent c s (invoke c s) refl k)

-- After any calls from the empty registry, every release holds its own mappings only, of the
-- catalog and of its year, none of them empty, and a release that is neither running nor failed
-- has exactly one run of each of the six sources.
pub history-IsConsistent : (cs : List Call) → IsConsistent (history cs [])
history-IsConsistent cs =
    history_from-IsConsistent cs []
      (record { at = λ k r g. absurd (cc (get-nil {V = ReleaseSnapshot} k)) })
