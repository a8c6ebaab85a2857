-- ===== src/Policy/Runtime/Versions.antt =====
-- runtime.rs: every replacement of the snapshot gets the next version.
use open_jax.Prelude.{ℕ, ◌+◌, ◌<◌, String, ◌≡◌, refl, List, [], ◌∷◌, arith, length}
use open_jax.Prelude.Words.{u64_mod}
use open_jax.Policy.Store.{PolicyStore}
use open_jax.Policy.Runtime.{
  PolicyRuntime, SessionOverlay, publish, set_session_overlay, clear_session_overlay,
  current_version,
}

pub data Update : Type 0 where
  publishes : PolicyStore → Update
  sets : String → SessionOverlay → Update
  clears : String → Update

unfoldable pub apply : Update → PolicyRuntime → PolicyRuntime × ℕ
unfolding publish set_session_overlay clear_session_overlay
apply (publishes store) = publish store
apply (sets session_id overlay) = set_session_overlay session_id overlay
apply (clears session_id) = clear_session_overlay session_id

-- The versions that a sequence of updates returns, and the runtime that it leaves.
unfoldable pub apply_all : List Update → PolicyRuntime → PolicyRuntime × List ℕ
unfolding apply
apply_all [] runtime = (runtime, [])
apply_all (u ∷ us) runtime =
    let (next, version) = apply u runtime in
    let (last, versions) = apply_all us next in (last, version ∷ versions)

abbrev pub count_up : ℕ → List Update → List ℕ
count_up v [] = []
count_up v (u ∷ us) = (v + 1) ∷ count_up (v + 1) us

apply_version :
    (u : Update) (runtime : PolicyRuntime)
    → current_version runtime + 1 < u64_mod
    → ((apply u runtime).1 ≡ current_version runtime + 1)
      × (current_version (apply u runtime).0 ≡ current_version runtime + 1)
unfolding apply current_version
apply_version (publishes store) runtime h = (omega arith, omega arith)
apply_version (sets session_id overlay) runtime h = (omega arith, omega arith)
apply_version (clears session_id) runtime h = (omega arith, omega arith)

-- As long as the version stays below 2^64, the updates of any sequence return successive versions,
-- starting after the current one, and the last of them is the version of the runtime that is left.
pub apply_all-versions :
    (us : List Update) (runtime : PolicyRuntime)
    → current_version runtime + length us < u64_mod
    → ((apply_all us runtime).1 ≡ count_up (current_version runtime) us)
      × (current_version (apply_all us runtime).0 ≡ current_version runtime + length us)
unfolding apply_all
apply_all-versions [] runtime h = (refl, omega arith)
apply_all-versions (u ∷ us) runtime h =
    let step = apply_version u runtime (omega arith) in
    let rest = apply_all-versions us (apply u runtime).0 (omega (arith, step.1)) in
    (cc (step.0, step.1, rest.0), omega (arith, step.1, rest.1))
