-- ===== src/Policy/Runtime/Overlays.antt =====
-- runtime.rs: how a session's overlay and the global rules share the decision.
use open_jax.Prelude.{
  ℕ, String, ◌≡◌, refl, ◌≢◌, ◌⊎◌, inl, inr, Option, none, some, List, arith, is_some, str_eq_iff,
  str_eq_refl, if◌then◌else◌,
}
use open_jax.Prelude.Dict.{dict_laws, get-insert}
use open_jax.Policy.Schema.{DecisionKind, PolicyInput, PolicyRule, PolicyDecision, matches}
use open_jax.Policy.Store.{PolicyStore}
use open_jax.Policy.Engine.{decide, decision_of}
use open_jax.Policy.Engine.Decide.{IsSelected, NoneMatches, decide_selects}
use open_jax.Policy.Runtime.{
  PolicyRuntime, PolicyHandle, SessionOverlay, set_session_overlay, clear_session_overlay, handle,
  decide_at, decide_over, overlay_of, with_snapshot_version,
}

-- The outcome of a decision without the version that it is stamped with.
abbrev pub SameOutcome : PolicyDecision → PolicyDecision → Type 0
SameOutcome d e =
    (d.kind ≡ e.kind) × (d.matched_rule_id ≡ e.matched_rule_id) × (d.reason ≡ e.reason)

decision_of-version :
    (input : PolicyInput) (v w : ℕ) (default : DecisionKind) (r : Option PolicyRule)
    → SameOutcome
        (decision_of (record input { policy_version = v }) default r)
        (decision_of (record input { policy_version = w }) default r)
unfolding decision_of
decision_of-version input v w default none = (refl, refl, refl)
decision_of-version input v w default (some r) = (refl, refl, refl)

decide-version :
    (input : PolicyInput) (v w : ℕ) (rules : List PolicyRule) (default : DecisionKind)
    → SameOutcome
        (decide (record input { policy_version = v }) rules default)
        (decide (record input { policy_version = w }) rules default)
unfolding decide matches
decide-version input v w rules default = decision_of-version input v w default _

outcome_if :
    (a a' b b' : PolicyDecision)
    → SameOutcome a a'
    → SameOutcome b b'
    → SameOutcome
        (if is_some a.matched_rule_id then a else b)
        (if is_some a'.matched_rule_id then a' else b')
outcome_if a a' b b' h k = ground arith

decide_over-version :
    (input : PolicyInput) (v w : ℕ) (store : PolicyStore) (o : Option SessionOverlay)
    → SameOutcome
        (decide_over (record input { policy_version = v }) store o)
        (decide_over (record input { policy_version = w }) store o)
decide_over-version input v w store none =
    decide-version input v w store.rules store.default_decision
decide_over-version input v w store (some overlay) =
    outcome_if _ _ _ _ (decide-version input v w overlay.rules store.default_decision)
      (decide-version input v w store.rules store.default_decision)

-- The outcome depends on the store and on the overlay of the input's session only.
decide_at-outcome :
    (h k : PolicyHandle) (input : PolicyInput)
    → h.snapshot.store ≡ k.snapshot.store
    → overlay_of h.snapshot input.session_id ≡ overlay_of k.snapshot input.session_id
    → SameOutcome (decide_at h input) (decide_at k input)
unfolding decide_at
decide_at-outcome h k input e f =
    rw (e, f) (decide_over-version input h.snapshot.version k.snapshot.version k.snapshot.store _)

module _ (runtime : PolicyRuntime) (session_id : String) (overlay : SessionOverlay)
    (input : PolicyInput) where
  overlay_of-set :
      (o : Option String)
      → o ≢ some session_id
      → overlay_of (set_session_overlay session_id overlay runtime).0.current_snapshot o
        ≡ overlay_of runtime.current_snapshot o
  unfolding set_session_overlay
  overlay_of-set none other = refl
  overlay_of-set (some s) other = ground (
    arith,
    get-insert session_id s overlay runtime.current_snapshot.overlays,
    str_eq_iff session_id s,
  )

  -- An overlay set for one session leaves the outcome of every decision for another session, or for
  -- no session, as it was.
  pub set-other_session :
      input.session_id ≢ some session_id
      → SameOutcome
          (decide_at (handle (set_session_overlay session_id overlay runtime).0) input)
          (decide_at (handle runtime) input)
  unfolding handle set_session_overlay
  set-other_session other =
      decide_at-outcome _ (handle runtime) input refl (overlay_of-set input.session_id other)

  overlay_of-clear :
      (o : Option String)
      → overlay_of
          (clear_session_overlay session_id
            (set_session_overlay session_id overlay runtime).0).0.current_snapshot
          o
        ≡ overlay_of (clear_session_overlay session_id runtime).0.current_snapshot o
  unfolding set_session_overlay clear_session_overlay
  overlay_of-clear none = refl
  overlay_of-clear (some s) = simp dict_laws (ground arith)

  -- Clearing undoes setting: the outcomes are those of a runtime that was cleared with no overlay set.
  pub clear-set :
      SameOutcome
        (decide_at
          (handle
            (clear_session_overlay session_id (set_session_overlay session_id overlay runtime).0).0)
          input)
        (decide_at (handle (clear_session_overlay session_id runtime).0) input)
  unfolding handle set_session_overlay clear_session_overlay
  clear-set =
      decide_at-outcome _ (handle (clear_session_overlay session_id runtime).0) input refl
        (overlay_of-clear input.session_id)

-- A rule of the overlay decides, or no rule of it matches and the global rules decide.
abbrev pub OverlayFirst : PolicyInput → PolicyStore → SessionOverlay → PolicyDecision → Type 0
OverlayFirst input store overlay decision =
    (NoneMatches input overlay.rules × (decision ≡ decide input store.rules store.default_decision))
    ⊎ ((r : PolicyRule) × IsSelected input overlay.rules r
        × (decision ≡ decision_of input store.default_decision (some r)))

decide_over-OverlayFirst :
    (input : PolicyInput) (store : PolicyStore) (overlay : SessionOverlay)
    → OverlayFirst input store overlay (decide_over input store (some overlay))
unfolding decision_of
decide_over-OverlayFirst input store overlay =
    elim (decide_selects input overlay.rules store.default_decision) [
      | inl (n, e) ↦ inl (n, rw e refl)
      | inr (r, s, e) ↦ inr (r, s, rw e refl)
    ]

-- After an overlay is set for a session, an input of that session is decided by a rule of the overlay
-- that matches it and that no other matching rule of the overlay precedes; only if the overlay has no
-- matching rule the global rules decide.
pub set-own_session :
    (runtime : PolicyRuntime) (session_id : String) (overlay : SessionOverlay) (input : PolicyInput)
    → input.session_id ≡ some session_id
    → let h = handle (set_session_overlay session_id overlay runtime).0 in
      OverlayFirst
        (with_snapshot_version h input)
        runtime.current_snapshot.store
        overlay
        (decide_at h input)
unfolding handle decide_at set_session_overlay
set-own_session runtime session_id overlay input own =
    let found : overlay_of (set_session_overlay session_id overlay runtime).0.current_snapshot
          input.session_id
        ≡ some overlay =
      rw own (simp (get-insert, str_eq_refl)) in
    rw found (decide_over-OverlayFirst _ _ overlay)
