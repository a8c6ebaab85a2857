-- ===== src/Auth/Store/Tokens.antt =====
-- auth/store.rs: which access tokens pass, and what becomes of a refresh token that was used.
use open_jax.Prelude.{
  ℕ, String, ◌≡◌, refl, sym, ap, ◌∙◌, Bool, true, Option, some, List, all, find, str_eq,
  str_eq_refl, arith, is_some, Bool-cases, inl, inr, Option-cases,
}
use open_jax.Auth.Store.Rows.{find-append_some, find-map, find-all, map_option}
use open_jax.Auth.Store.{
  AuthDb, SessionRecord, RefreshToken, AccessToken, Result, ok, err, Times, get_session,
  insert_access, insert_refresh, commit, validate_access_token, is_valid_access, Rotation,
  reuse_detected, rotated, revoke_refresh, touch_session, is_active_row, rotate_rows,
  rotated_outcome, rotate_row, rotate_refresh_token, str_leb,
}
use open_jax.Auth.Store.Live.{IsSound, is_live, ok_access, AllOk, AllOk-bind, AllOk-unless}

active-of_live :
    (sessions : List SessionRecord) (sid : String) (s : SessionRecord)
    → find (λ r. str_eq r.session_id sid) sessions ≡ some s
    → is_live sessions sid ≡ true
    → str_eq s.status "active" ≡ true
active-of_live sessions sid s e h = sym (ap is_active_row e) ∙ h

live_of_valid :
    (token_hash now : String) (sessions : List SessionRecord) (t : AccessToken)
    → ok_access sessions t ≡ true
    → is_valid_access token_hash now t ≡ true
    → is_live sessions t.session_id ≡ true
unfolding is_valid_access
live_of_valid token_hash now sessions t o h = ground arith

-- In sound tables, the session that an access token is validated to is an active one.
pub validate-active :
    (token_hash now : String) (db : AuthDb) (s : SessionRecord)
    → IsSound db
    → validate_access_token token_hash now db ≡ some s
    → str_eq s.status "active" ≡ true
unfolding validate_access_token get_session is_valid_access
validate-active token_hash now db s v h =
    elim (Option-cases (find (is_valid_access token_hash now) db.auth_access_tokens)) [
      | inl e ↦ cc (rw (validate_access_token, e) at h)
      | inr (t, e) ↦
          active-of_live db.auth_sessions t.session_id s (rw (validate_access_token, e) at h) (
            let both =
              find-all (is_valid_access token_hash now) (ok_access db.auth_sessions)
                db.auth_access_tokens t v.access e in
            live_of_valid token_hash now db.auth_sessions t both.0 both.1)
    ]

-- What every session satisfies holds of a session that a token is validated to.
pub validate-row :
    (q : SessionRecord → Bool) (token_hash now : String) (db : AuthDb) (s : SessionRecord)
    → all q db.auth_sessions ≡ true
    → validate_access_token token_hash now db ≡ some s
    → q s ≡ true
unfolding validate_access_token get_session
validate-row q token_hash now db s v h =
    elim (Option-cases (find (is_valid_access token_hash now) db.auth_access_tokens)) [
      | inl e ↦ cc (rw (validate_access_token, e) at h)
      | inr (t, e) ↦
          (find-all (λ r. str_eq r.session_id t.session_id) q db.auth_sessions s v
            (rw (validate_access_token, e) at h)).0
    ]

-- The refresh token with a hash.
abbrev found : String → AuthDb → Option RefreshToken
found hash db = find (λ x. str_eq x.token_hash hash) db.auth_refresh_tokens

abbrev Finds : String → RefreshToken → AuthDb → Type 0
Finds hash t db = found hash db ≡ some t

abbrev revoked_at_now : String → RefreshToken → RefreshToken
revoked_at_now now row = record row { revoked_at = some now }

revoke_refresh-Finds :
    (hash now : String) (row : RefreshToken) (db : AuthDb)
    → Finds hash row db
    → Finds hash (revoked_at_now now row) (revoke_refresh now row.token_id db)
unfolding revoke_refresh
revoke_refresh-Finds hash now row db e =
    find-map (λ (x : RefreshToken). str_eq x.token_hash hash) _ (λ t. ground arith)
      db.auth_refresh_tokens
    ∙ ap (map_option _) e
    ∙ rw (str_eq_refl row.token_id) refl

insert_refresh-Finds :
    (hash : String) (t row : RefreshToken) (db : AuthDb)
    → Finds hash t db
    → AllOk (Finds hash t) (insert_refresh row db)
unfolding insert_refresh
insert_refresh-Finds hash t row db e =
    AllOk-unless (Finds hash t) _ _ _
      λ fresh. find-append_some (λ x. str_eq x.token_hash hash) db.auth_refresh_tokens row t e

insert_access-Finds :
    (hash : String) (t : RefreshToken) (row : AccessToken) (db : AuthDb)
    → Finds hash t db
    → AllOk (Finds hash t) (insert_access row db)
unfolding insert_access
insert_access-Finds hash t row db e = AllOk-unless (Finds hash t) _ _ _ λ fresh. e

rotate_rows-Finds :
    (r : Rotation) (times : Times) (row : RefreshToken) (db : AuthDb)
    → Finds r.refresh_hash row db
    → AllOk (Finds r.refresh_hash (revoked_at_now times.now row)) (rotate_rows r times row db)
unfolding rotate_rows touch_session
rotate_rows-Finds r times row db e =
    let Used : AuthDb → Type 0 = Finds r.refresh_hash (revoked_at_now times.now row) in
    AllOk-bind Used Used _ _
      (insert_refresh-Finds r.refresh_hash (revoked_at_now times.now row) _ _
        (revoke_refresh-Finds r.refresh_hash times.now row db e))
      λ d1 e1.
        AllOk-bind Used Used _ _
          (insert_access-Finds r.refresh_hash (revoked_at_now times.now row) _ d1 e1) λ d2 e2. e2

-- A rotation that reports success has committed.
commit-rotated :
    (P : AuthDb → Type 0) (written : Result AuthDb) (db : AuthDb) (times : Times) (sid : String)
    (session : SessionRecord) (secs : ℕ)
    → AllOk P written
    → rotated_outcome written times sid ≡ ok (rotated session secs)
    → P (commit written db)
commit-rotated P (ok next) db times sid session secs w h = w
commit-rotated P (err e) db times sid session secs w h = cc

rotate_row-Finds :
    (r : Rotation) (times : Times) (db : AuthDb) (row : RefreshToken) (session : SessionRecord)
    (secs : ℕ)
    → Finds r.refresh_hash row db
    → (rotate_row r times db (some row)).0 ≡ ok (rotated session secs)
    → Finds r.refresh_hash (revoked_at_now times.now row) (rotate_row r times db (some row)).1
unfolding rotate_row get_session
rotate_row-Finds r times db row session secs e h = elim (Bool-cases (is_some row.revoked_at)) [
  | inl y ↦ cc (rw y at h)
  | inr n ↦ elim (Bool-cases (str_leb row.expires_at times.now)) [
    | inl y ↦ cc (rw (n, y) at h)
    | inr m ↦ elim (Bool-cases (is_live db.auth_sessions row.session_id)) [
      | inl y ↦
          rw (n, m, y)
            (commit-rotated (Finds r.refresh_hash (revoked_at_now times.now row))
              (rotate_rows r times row db) db times row.session_id session secs
              (rotate_rows-Finds r times row db e) (rw (n, m, y) at h))
      | inr k ↦ cc (rw (n, m, k) at h)
    ]
  ]
]

reused :
    (again : Rotation) (later : Times) (db : AuthDb) (now : String) (row : RefreshToken)
    → Finds again.refresh_hash (revoked_at_now now row) db
    → rotate_refresh_token again later db ≡ (ok reuse_detected, db)
unfolding rotate_refresh_token rotate_row
reused again later db now row e = rw e refl

-- On the tables that the rotation of a refresh token leaves, an attempt with the same hash, over whatever new ids
-- and hashes and at whatever time, reports a reuse and leaves the tables as they are.
pub rotate-twice :
    (r : Rotation) (next_refresh next_access next_id : String) (times later : Times) (db : AuthDb)
    (session : SessionRecord) (secs : ℕ)
    → (rotate_refresh_token r times db).0 ≡ ok (rotated session secs)
    → rotate_refresh_token
        record r {
          next_refresh_hash = next_refresh;
          next_access_hash = next_access;
          new_refresh_id = next_id;
        }
        later
        (rotate_refresh_token r times db).1
      ≡ (ok reuse_detected, (rotate_refresh_token r times db).1)
unfolding rotate_refresh_token
rotate-twice r next_refresh next_access next_id times later db session secs h =
    elim (Option-cases (found r.refresh_hash db)) [
      | inl e ↦ cc (rw e at h)
      | inr (row, e) ↦
          reused _ later _ times.now row
            (rw e (rotate_row-Finds r times db row session secs e (rw e at h)))
    ]
