-- ===== src/Auth/Store/Lockout.antt =====
-- auth/store.rs: what revoking every session leaves.
use open_jax.Prelude.{
  String, ◌≡◌, refl, Bool, true, false, ◌||◌, not, Option, none, List, [], ◌∷◌, map, any, all, keep,
  str_eq, str_eq_refl, arith, inl, inr, Option-cases,
}
use open_jax.Auth.Store.Rows.{all-imp, all-map}
use open_jax.Auth.Store.{
  AuthDb, SessionRecord, validate_access_token, is_chosen, revoke_session, revoke_each,
  revoke_sessions, AuthSessionStatus, as_str,
}
use open_jax.Auth.Store.Live.{IsSound}
use open_jax.Auth.Store.Calls.{revoke_each-IsSound}
use open_jax.Auth.Store.Tokens.{validate-active, validate-row}

-- The session is not active, or is among those still to revoke.
abbrev is_listed : List String → SessionRecord → Bool
is_listed ids s = not (str_eq s.status "active") || any (λ id. str_eq s.session_id id) ids

listed :
    (sid did : Option String) (xs : List SessionRecord)
    → all
        (is_listed (map (λ (s : SessionRecord). s.session_id) (keep (is_chosen sid did true) xs)))
        xs
      ≡ true
unfolding is_chosen
listed sid did [] = refl
listed sid did (x ∷ xs) =
    let wider =
      all-imp _
        (is_listed
          (map (λ (s : SessionRecord). s.session_id) (keep (is_chosen sid did true) (x ∷ xs))))
        (λ s h. ground arith) xs (listed sid did xs) in
    ground (arith, wider, str_eq_refl x.session_id)

revoke_session-listed :
    (status : AuthSessionStatus) (now id : String) (ids : List String) (db : AuthDb)
    → str_eq (as_str status) "active" ≡ false
    → all (is_listed (id ∷ ids)) db.auth_sessions ≡ true
    → all (is_listed ids) (revoke_session status now id db).auth_sessions ≡ true
unfolding revoke_session
revoke_session-listed status now id ids db k =
    all-map (is_listed (id ∷ ids)) (is_listed ids) _ (λ s h. ground arith) db.auth_sessions

revoke_each-listed :
    (status : AuthSessionStatus) (now : String) (ids : List String) (db : AuthDb)
    → str_eq (as_str status) "active" ≡ false
    → all (is_listed ids) db.auth_sessions ≡ true
    → all (is_listed []) (revoke_each status now ids db).auth_sessions ≡ true
unfolding revoke_each
revoke_each-listed status now [] db k h = h
revoke_each-listed status now (id ∷ ids) db k h =
    revoke_each-listed status now ids (revoke_session status now id db) k
      (revoke_session-listed status now id ids db k h)

-- In sound tables, revoking all sessions, with a status other than active, leaves no access token that is
-- validated, at any time.
pub revoke_all-locks_out :
    (sid did : Option String) (status : AuthSessionStatus) (now token_hash later : String)
    (db : AuthDb)
    → IsSound db
    → str_eq (as_str status) "active" ≡ false
    → validate_access_token token_hash later ((revoke_sessions sid did true status now db).1) ≡ none
unfolding revoke_sessions
revoke_all-locks_out sid did status now token_hash later db v k =
    let ids =
      map (λ (s : SessionRecord). s.session_id) (keep (is_chosen sid did true) db.auth_sessions) in
    let after = revoke_each status now ids db in
    let sound = revoke_each-IsSound status now ids db v in
    let ended = revoke_each-listed status now ids db k (listed sid did db.auth_sessions) in
    elim (Option-cases (validate_access_token token_hash later after)) [
      | inl e ↦ e
      | inr (s, e) ↦ cc (
          rw (validate-active token_hash later after s sound e) at
            (validate-row (is_listed []) token_hash later after s ended e))
    ]
