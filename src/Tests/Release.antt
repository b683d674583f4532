-- ===== src/Tests/Release.antt =====
-- The release registry on one release.
use tech_challenge_fase2_alf.Batch.Release.Completes.{IsComplete, complete-IsComplete_iff}
use tech_challenge_fase2_alf.Prelude.Results.{ok}
use tech_challenge_fase2_alf.Prelude.Dict.{get, put}
use native.Mathlib.Decide.{ℕ_discrete}
use tech_challenge_fase2_alf.Batch.Models.{failed}
use tech_challenge_fase2_alf.Batch.Release.Invariant.{IsConsistent}
use tech_challenge_fase2_alf.Batch.Release.Status.{
  Call, invoke, begun, recorded, finished, abandoned, Moves, invoke-Moves,
}
use tech_challenge_fase2_alf.Batch.Release.{
  ReleaseExecution, ReleaseStore, fresh_release, fail, failed, complete, ReleaseSnapshot,
}
use tech_challenge_fase2_alf.Prelude.{
  List, [], ◌∷◌, string_eq, String-discrete, nat_eq, refl, ◌≡◌, ◌↔◌, some,
}
use tech_challenge_fase2_alf.Tests.Fixtures.{uf_manifest}
use tech_challenge_fase2_alf.Batch.Release.History.{history, history-IsConsistent}

abbrev release : ReleaseExecution
release = record { release_id = "batch-202401-y2024-r0a1b2c3d"; year = 2024 }

-- Opened, one table recorded, completed too early, failed and opened anew.
abbrev calls : List Call
calls =
    begun release
    ∷ recorded release uf_manifest
    ∷ finished release
    ∷ abandoned release
    ∷ begun release
    ∷ []

history-IsConsistent_example : IsConsistent (history calls [])
history-IsConsistent_example = history-IsConsistent calls

abbrev opened : ReleaseStore
opened = ("batch-202401-y2024-r0a1b2c3d", fresh_release release) ∷ []

abbrev closed : ReleaseStore
closed = ("batch-202401-y2024-r0a1b2c3d", record (fresh_release release) { status = failed }) ∷ []

invoke-Moves_example : Moves "batch-202401-y2024-r0a1b2c3d" opened closed
unfolding invoke fail string_eq String-discrete nat_eq ℕ_discrete get put
invoke-Moves_example = invoke-Moves (abandoned release) opened closed refl

complete-IsComplete_iff_example : ((s' : ReleaseStore) × (complete release opened ≡ ok s')) ↔ (
    (r : ReleaseSnapshot) × (get "batch-202401-y2024-r0a1b2c3d" opened ≡ some r)
    × IsComplete release r)
complete-IsComplete_iff_example = complete-IsComplete_iff release opened
