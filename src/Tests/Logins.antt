-- ===== src/Tests/Logins.antt =====
-- Runs of the theorems on the tables of sessions and tokens.
use open_jax.Prelude.{◌≡◌, refl, true, false, none, some, List, [], ◌∷◌, str_eq}
use open_jax.Auth.Store.{
  AuthDb, SessionRecord, RefreshToken, AccessToken, ok, Times, CreateSessionParams, Rotation,
  rotated, reuse_detected, validate_access_token, rotate_refresh_token, revoke_sessions, revoked,
}
use open_jax.Auth.Store.Live.{IsSound}
use open_jax.Auth.Store.Calls.{
  Call, create, rotate, revoke, cleanup, perform_all, perform_all-IsSound,
}
use open_jax.Auth.Store.Tokens.{validate-active, rotate-twice}
use open_jax.Auth.Store.Lockout.{revoke_all-locks_out}

abbrev session : SessionRecord
session = record {
  session_id = "s1";
  device_id = "d1";
  scope = "owner";
  device_name = none;
  platform = none;
  user_agent = none;
  status = "active";
  created_at = "2026-01-01";
  last_seen_at = "2026-01-01";
  revoked_at = none;
}

abbrev access : AccessToken
access = record {
  token_hash = "a1";
  session_id = "s1";
  expires_at = "2026-01-02";
  created_at = "2026-01-01";
  revoked_at = none;
}

abbrev refresh : RefreshToken
refresh = record {
  token_id = "t1";
  session_id = "s1";
  token_hash = "r1";
  rotated_from = none;
  expires_at = "2026-02-01";
  created_at = "2026-01-01";
  revoked_at = none;
}

abbrev tables : AuthDb
tables = record {
  auth_sessions = session ∷ [];
  auth_refresh_tokens = refresh ∷ [];
  auth_access_tokens = access ∷ [];
}

tables-IsSound : IsSound tables
tables-IsSound = record { access = refl; refresh = refl }

abbrev times : Times
times = record {
  now = "2026-01-01T12";
  access_expires_at = "2026-01-02T12";
  refresh_expires_at = "2026-02-01T12";
  access_seconds = 900;
}

abbrev login : CreateSessionParams
login = record {
  device_name = none;
  platform = none;
  user_agent = none;
  access_hash = "a2";
  refresh_hash = "r2";
  session_id = "s2";
  device_id = "d2";
  refresh_token_id = "t2";
}

abbrev rotation : Rotation
rotation = record {
  refresh_hash = "r1";
  next_refresh_hash = "r3";
  next_access_hash = "a3";
  new_refresh_id = "t3";
}

abbrev calls : List Call
calls =
    create login times
    ∷ rotate rotation times
    ∷ revoke (some "s2") none false revoked "2026-01-03"
    ∷ cleanup "2026-01-04"
    ∷ []

perform_all-IsSound_example : IsSound (perform_all calls tables)
perform_all-IsSound_example = perform_all-IsSound calls tables tables-IsSound

passes : validate_access_token "a1" "2026-01-01T12" tables ≡ some session
unfolding validate_access_token
passes = refl

validate-active_example : str_eq session.status "active" ≡ true
validate-active_example = validate-active "a1" "2026-01-01T12" tables session tables-IsSound passes

rotates :
    (rotate_refresh_token rotation times tables).0
    ≡ ok (rotated (record session { last_seen_at = "2026-01-01T12" }) 900)
unfolding rotate_refresh_token
rotates = refl

rotate-twice_example :
    rotate_refresh_token
      (record rotation { next_refresh_hash = "r4"; next_access_hash = "a4"; new_refresh_id = "t4" })
      times
      (rotate_refresh_token rotation times tables).1
    ≡ (ok reuse_detected, (rotate_refresh_token rotation times tables).1)
rotate-twice_example =
    rotate-twice rotation "r4" "a4" "t4" times times tables
      (record session { last_seen_at = "2026-01-01T12" }) 900 rotates

revoke_all-locks_out_example :
    validate_access_token "a1" "2026-01-01T12"
      ((revoke_sessions none none true revoked "2026-01-01T12" tables).1)
    ≡ none
revoke_all-locks_out_example =
    revoke_all-locks_out none none revoked "2026-01-01T12" "a1" "2026-01-01T12" tables
      tables-IsSound refl
