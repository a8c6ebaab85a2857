-- ===== src/Auth/Store/Calls.antt =====
-- auth/store.rs: revocations and clean-ups, and the calls in any order.
use open_jax.Prelude.{
  String, ◌≡◌, refl, ap, ◌∙◌, Bool, true, false, ◌||◌, Option, none, some, List, [], ◌∷◌, map, keep,
  str_eq, str_eq_iff, if◌then◌else◌, arith, is_some, Bool-cases, inl, inr,
}
use open_jax.Auth.Store.Rows.{all-keep, all-map}
use open_jax.Auth.Store.{
  AuthDb, SessionRecord, Times, CreateSessionParams, create_session_and_tokens, Rotation,
  rotate_refresh_token, is_chosen, coalesce, revoke_session, revoke_each, revoke_sessions,
  cleanup_expired, AuthSessionStatus, as_str,
}
use open_jax.Auth.Store.Live.{
  IsSound, is_live, ok_access, ok_refresh, create-IsSound, rotate-IsSound,
}

-- Revoking a session leaves every other one as active as it was.
ended-live :
    (status : AuthSessionStatus) (now sid : String) (xs : List SessionRecord) (id : String)
    → str_eq id sid ≡ false
    → is_live
        (map
          (λ (s : SessionRecord).
            if str_eq s.session_id sid
            then record s { status = as_str status; revoked_at = some now }
            else s)
          xs)
        id
      ≡ is_live xs id
ended-live status now sid [] id h = refl
ended-live status now sid (x ∷ xs) id h = elim (Bool-cases (str_eq x.session_id id)) [
  | inl y ↦ rw (ap (λ w. str_eq w sid) ((str_eq_iff x.session_id id).0 y) ∙ h, y) refl
  | inr n ↦ ground (arith, ended-live status now sid xs id h)
]

is_some-coalesce : (o : Option String) (now : String) → is_some (coalesce o now) ≡ true
is_some-coalesce none now = refl
is_some-coalesce (some x) now = refl

or-left : (a b : Bool) → a ≡ true → (a || b) ≡ true
or-left a b h = ground arith

revoke_session-IsSound :
    (status : AuthSessionStatus) (now sid : String) (db : AuthDb)
    → IsSound db
    → IsSound (revoke_session status now sid db)
unfolding revoke_session
revoke_session-IsSound status now sid db v = record {
  access =
      all-map (ok_access db.auth_sessions) _ _
        (λ t h. elim (Bool-cases (str_eq t.session_id sid)) [
          | inl y ↦ rw y (or-left _ _ (is_some-coalesce t.revoked_at now))
          | inr n ↦ rw (n, ended-live status now sid db.auth_sessions t.session_id n) h
        ])
        db.auth_access_tokens v.access;
  refresh =
      all-map (ok_refresh db.auth_sessions) _ _
        (λ t h. elim (Bool-cases (str_eq t.session_id sid)) [
          | inl y ↦ rw y (or-left _ _ (is_some-coalesce t.revoked_at now))
          | inr n ↦ rw (n, ended-live status now sid db.auth_sessions t.session_id n) h
        ])
        db.auth_refresh_tokens v.refresh;
}

pub revoke_each-IsSound :
    (status : AuthSessionStatus) (now : String) (ids : List String) (db : AuthDb)
    → IsSound db
    → IsSound (revoke_each status now ids db)
unfolding revoke_each
revoke_each-IsSound status now [] db v = v
revoke_each-IsSound status now (id ∷ ids) db v =
    revoke_each-IsSound status now ids (revoke_session status now id db)
      (revoke_session-IsSound status now id db v)

cleanup-IsSound : (now : String) (db : AuthDb) → IsSound db → IsSound (cleanup_expired now db)
unfolding cleanup_expired
cleanup-IsSound now db v = record {
  access = all-keep (ok_access db.auth_sessions) _ db.auth_access_tokens v.access;
  refresh = all-keep (ok_refresh db.auth_sessions) _ db.auth_refresh_tokens v.refresh;
}

-- The calls that write to the database, with their arguments.
pub data Call : Type 0 where
  create : CreateSessionParams → Times → Call
  rotate : Rotation → Times → Call
  revoke : Option String → Option String → Bool → AuthSessionStatus → String → Call
  cleanup : String → Call

abbrev pub perform : Call → AuthDb → AuthDb
perform (create params times) db = (create_session_and_tokens params times db).1
perform (rotate r times) db = (rotate_refresh_token r times db).1
perform (revoke sid did revoke_all status now) db =
    (revoke_sessions sid did revoke_all status now db).1
perform (cleanup now) db = cleanup_expired now db

abbrev pub perform_all : List Call → AuthDb → AuthDb
perform_all [] db = db
perform_all (c ∷ cs) db = perform_all cs (perform c db)

perform-IsSound : (c : Call) (db : AuthDb) → IsSound db → IsSound (perform c db)
unfolding revoke_sessions
perform-IsSound (create params times) db v = create-IsSound params times db v
perform-IsSound (rotate r times) db v = rotate-IsSound r times db v
perform-IsSound (revoke sid did revoke_all status now) db v =
    revoke_each-IsSound status now
      (map (λ (s : SessionRecord). s.session_id)
        (keep (is_chosen sid did revoke_all) db.auth_sessions))
      db v
perform-IsSound (cleanup now) db v = cleanup-IsSound now db v

-- From tables where every unrevoked access and refresh token belongs to an active session, any sequence of
-- logins, rotations, revocations and clean-ups leaves such tables.
pub perform_all-IsSound : (cs : List Call) (db : AuthDb) → IsSound db → IsSound (perform_all cs db)
perform_all-IsSound [] db v = v
perform_all-IsSound (c ∷ cs) db v = perform_all-IsSound cs (perform c db) (perform-IsSound c db v)
