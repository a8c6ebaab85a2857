-- ===== src/Policy/Runtime.antt =====
-- openjax-policy/src/runtime.rs and overlay.rs: the current snapshot behind a lock, the operations
-- that replace it under the write lock, and the handle that decides on one snapshot.
pub mod Versions
pub mod Overlays
use open_jax.Prelude.{
  ℕ, ◌+◌, String, ◌≡◌, Bool, true, false, Option, none, some, List, [], is_some, if◌then◌else◌,
}
use open_jax.Prelude.Words.{wrap64}
use open_jax.Prelude.Dict
use open_jax.Prelude.Dict.{Dict}
use open_jax.Policy.Schema.{DecisionKind, PolicyInput, PolicyRule, PolicyDecision}
use open_jax.Policy.Engine.{decide}
use open_jax.Policy.Store.{PolicyStore}

pub record SessionOverlay : Type 0 where
  pub rules : List PolicyRule

pub record PolicySnapshot : Type 0 where
  pub version : ℕ
  pub store : PolicyStore
  pub overlays : Dict SessionOverlay

pub record PolicyRuntime : Type 0 where
  pub current_snapshot : PolicySnapshot

-- `PolicyRuntime::new`
unfoldable pub new : PolicyStore → PolicyRuntime
new initial_store = record {
  current_snapshot = record { version = 1; store = initial_store; overlays = [] };
}

unfoldable pub current_version : PolicyRuntime → ℕ
current_version runtime = runtime.current_snapshot.version

unfoldable pub swap_snapshot : (PolicySnapshot → PolicySnapshot) → PolicyRuntime → PolicyRuntime × ℕ
swap_snapshot update runtime =
    let next = update runtime.current_snapshot in (record { current_snapshot = next }, next.version)

unfoldable pub publish : PolicyStore → PolicyRuntime → PolicyRuntime × ℕ
unfolding swap_snapshot
publish store = swap_snapshot λ snapshot. record {
  version = wrap64 (snapshot.version + 1);
  store = store;
  overlays = snapshot.overlays;
}

unfoldable pub set_session_overlay : String → SessionOverlay → PolicyRuntime → PolicyRuntime × ℕ
unfolding swap_snapshot
set_session_overlay session_id overlay = swap_snapshot λ snapshot. record {
  version = wrap64 (snapshot.version + 1);
  store = snapshot.store;
  overlays = Dict.insert session_id overlay snapshot.overlays;
}

unfoldable pub clear_session_overlay : String → PolicyRuntime → PolicyRuntime × ℕ
unfolding swap_snapshot
clear_session_overlay session_id = swap_snapshot λ snapshot. record {
  version = wrap64 (snapshot.version + 1);
  store = snapshot.store;
  overlays = Dict.remove session_id snapshot.overlays;
}

pub record PolicyHandle : Type 0 where
  pub snapshot : PolicySnapshot

unfoldable pub handle : PolicyRuntime → PolicyHandle
handle runtime = record { snapshot = runtime.current_snapshot }

abbrev pub with_snapshot_version : PolicyHandle → PolicyInput → PolicyInput
with_snapshot_version h input = record input { policy_version = h.snapshot.version }

-- The overlay of the input's session, if it has one.
abbrev pub overlay_of : PolicySnapshot → Option String → Option SessionOverlay
overlay_of snapshot none = none
overlay_of snapshot (some session_id) = Dict.get session_id snapshot.overlays

-- The decision of the overlay stands if one of its rules matched.
abbrev pub decide_over : PolicyInput → PolicyStore → Option SessionOverlay → PolicyDecision
decide_over input store none = decide input store.rules store.default_decision
decide_over input store (some overlay) =
    let overlay_decision = decide input overlay.rules store.default_decision in
    if is_some overlay_decision.matched_rule_id
    then overlay_decision
    else decide input store.rules store.default_decision

-- `PolicyHandle::decide`
unfoldable pub decide_at : PolicyHandle → PolicyInput → PolicyDecision
decide_at h input =
    decide_over (with_snapshot_version h input) h.snapshot.store
      (overlay_of h.snapshot input.session_id)
