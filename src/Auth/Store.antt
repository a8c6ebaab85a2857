-- ===== src/Auth/Store.antt =====
-- openjax-gateway/src/auth/store.rs: the three tables and the transactions over them. A statement that
-- breaks a key is an error, and the transaction is rolled back. Times are texts that come with the
-- call, compared as texts; so are the fresh ids.
pub mod Rows
pub mod Live
pub mod Calls
pub mod Tokens
pub mod Lockout
pub use open_jax.Prelude.Results.{Result, ok, err, ◌>>=◌}
use open_jax.Prelude.{
  ℕ, suc, String, Ordering, Bool, true, false, ◌&&◌, ◌||◌, not, Option, none, some, List, [], ◌∷◌,
  ◌++◌, map, any, keep, find, length, is_some, str_eq, if◌then◌else◌,
}
use open_jax.Prelude.Compare.{cmp_str}

pub record SessionRecord : Type 0 where
  pub session_id : String
  pub device_id : String
  pub scope : String
  pub device_name : Option String
  pub platform : Option String
  pub user_agent : Option String
  pub status : String
  pub created_at : String
  pub last_seen_at : String
  pub revoked_at : Option String

pub record RefreshToken : Type 0 where
  pub token_id : String
  pub session_id : String
  pub token_hash : String
  pub rotated_from : Option String
  pub expires_at : String
  pub created_at : String
  pub revoked_at : Option String

pub record AccessToken : Type 0 where
  pub token_hash : String
  pub session_id : String
  pub expires_at : String
  pub created_at : String
  pub revoked_at : Option String

pub record AuthDb : Type 0 where
  pub auth_sessions : List SessionRecord
  pub auth_refresh_tokens : List RefreshToken
  pub auth_access_tokens : List AccessToken

pub data AuthSessionStatus : Type 0 where
  active revoked logged_out : AuthSessionStatus

abbrev pub as_str : AuthSessionStatus → String
as_str active = "active"
as_str revoked = "revoked"
as_str logged_out = "logged_out"

-- The times of a call: `now_rfc3339()`, and the ends of an access and of a refresh token made now.
pub record Times : Type 0 where
  pub now : String
  pub access_expires_at : String
  pub refresh_expires_at : String
  pub access_seconds : ℕ

-- `a <= b` on texts
abbrev pub str_leb : String → String → Bool
str_leb a b = elim (cmp_str a b) [ Ordering.gt ↦ false | _ ↦ true ]

unfoldable pub get_session : String → AuthDb → Option SessionRecord
get_session session_id db = find (λ s. str_eq s.session_id session_id) db.auth_sessions

unfoldable pub insert_session : SessionRecord → AuthDb → Result AuthDb
insert_session row db =
    if any (λ s. str_eq s.session_id row.session_id) db.auth_sessions
    then err "insert auth session"
    else ok (record db { auth_sessions = db.auth_sessions ++ row ∷ [] })

unfoldable pub insert_access : AccessToken → AuthDb → Result AuthDb
insert_access row db =
    if any (λ t. str_eq t.token_hash row.token_hash) db.auth_access_tokens
    then err "insert auth access token"
    else ok (record db { auth_access_tokens = db.auth_access_tokens ++ row ∷ [] })

unfoldable pub insert_refresh : RefreshToken → AuthDb → Result AuthDb
insert_refresh row db =
    if any (λ t. str_eq t.token_id row.token_id || str_eq t.token_hash row.token_hash)
      db.auth_refresh_tokens
    then err "insert auth refresh token"
    else ok (record db { auth_refresh_tokens = db.auth_refresh_tokens ++ row ∷ [] })

pub record CreateSessionParams : Type 0 where
  pub device_name : Option String
  pub platform : Option String
  pub user_agent : Option String
  pub access_hash : String
  pub refresh_hash : String
  pub session_id : String
  pub device_id : String
  pub refresh_token_id : String

abbrev pub new_session : CreateSessionParams → Times → SessionRecord
new_session params times = record {
  session_id = params.session_id;
  device_id = params.device_id;
  scope = "owner";
  device_name = params.device_name;
  platform = params.platform;
  user_agent = params.user_agent;
  status = "active";
  created_at = times.now;
  last_seen_at = times.now;
  revoked_at = none;
}

abbrev pub new_access : String → String → Times → AccessToken
new_access token_hash session_id times = record {
  token_hash = token_hash;
  session_id = session_id;
  expires_at = times.access_expires_at;
  created_at = times.now;
  revoked_at = none;
}

abbrev pub new_refresh : String → String → String → Option String → Times → RefreshToken
new_refresh token_id token_hash session_id rotated_from times = record {
  token_id = token_id;
  session_id = session_id;
  token_hash = token_hash;
  rotated_from = rotated_from;
  expires_at = times.refresh_expires_at;
  created_at = times.now;
  revoked_at = none;
}

-- The transaction of `create_session_and_tokens`.
unfoldable pub create_rows : CreateSessionParams → Times → AuthDb → Result AuthDb
unfolding insert_session insert_access insert_refresh
create_rows params times db = do
  with_session ← insert_session (new_session params times) db
  with_access ← insert_access (new_access params.access_hash params.session_id times) with_session
  insert_refresh
      (new_refresh params.refresh_token_id params.refresh_hash params.session_id none times)
      with_access

-- The database that a transaction leaves: on an error the one before.
abbrev pub commit : Result AuthDb → AuthDb → AuthDb
commit (ok next) db = next
commit (err e) db = db

abbrev pub read_back : Result AuthDb → String → Result SessionRecord
read_back (err e) session_id = err e
read_back (ok next) session_id = elim (get_session session_id next) [
  | none ↦ err "session must exist after create"
  | some session ↦ ok session
]

unfoldable pub create_session_and_tokens :
    CreateSessionParams → Times → AuthDb → Result SessionRecord × AuthDb
unfolding create_rows get_session
create_session_and_tokens params times db =
    let written = create_rows params times db in
    (read_back written params.session_id, commit written db)

-- `token_hash = ?1 AND revoked_at IS NULL AND expires_at > ?2`
unfoldable pub is_valid_access : String → String → AccessToken → Bool
is_valid_access token_hash now t =
    str_eq t.token_hash token_hash && not (is_some t.revoked_at) && not (str_leb t.expires_at now)

unfoldable pub validate_access_token : String → String → AuthDb → Option SessionRecord
unfolding is_valid_access get_session
validate_access_token token_hash now db =
    elim (find (is_valid_access token_hash now) db.auth_access_tokens) [
      | none ↦ none
      | some t ↦ get_session t.session_id db
    ]

pub data RotateOutcome : Type 0 where
  missing reuse_detected : RotateOutcome
  rotated : SessionRecord → ℕ → RotateOutcome

-- The arguments of `rotate_refresh_token`, with the fresh token id.
pub record Rotation : Type 0 where
  pub refresh_hash : String
  pub next_refresh_hash : String
  pub next_access_hash : String
  pub new_refresh_id : String

-- `UPDATE auth_refresh_tokens SET revoked_at = ?1 WHERE token_id = ?2`
unfoldable pub revoke_refresh : String → String → AuthDb → AuthDb
revoke_refresh now token_id db = record db {
  auth_refresh_tokens =
      map
        (λ (t : RefreshToken).
          if str_eq t.token_id token_id then record t { revoked_at = some now } else t)
        db.auth_refresh_tokens;
}

-- `UPDATE auth_sessions SET last_seen_at = ?1 WHERE session_id = ?2`
unfoldable pub touch_session : String → String → AuthDb → AuthDb
touch_session now session_id db = record db {
  auth_sessions =
      map
        (λ (s : SessionRecord).
          if str_eq s.session_id session_id then record s { last_seen_at = now } else s)
        db.auth_sessions;
}

abbrev pub is_active_row : Option SessionRecord → Bool
is_active_row none = false
is_active_row (some s) = str_eq s.status "active"

-- The writes of a rotation, up to the commit.
unfoldable pub rotate_rows : Rotation → Times → RefreshToken → AuthDb → Result AuthDb
unfolding revoke_refresh touch_session insert_access insert_refresh
rotate_rows r times row db = do
  let revoked_old = revoke_refresh times.now row.token_id db
  with_refresh ←
      insert_refresh
        (new_refresh r.new_refresh_id r.next_refresh_hash row.session_id (some row.token_id) times)
        revoked_old
  with_access ← insert_access (new_access r.next_access_hash row.session_id times) with_refresh
  ok (touch_session times.now row.session_id with_access)

abbrev pub rotated_outcome : Result AuthDb → Times → String → Result RotateOutcome
rotated_outcome (err e) times session_id = err e
rotated_outcome (ok next) times session_id = elim (get_session session_id next) [
  | none ↦ err "session must exist after refresh"
  | some session ↦ ok (rotated session times.access_seconds)
]

unfoldable pub rotate_row :
    Rotation → Times → AuthDb → Option RefreshToken → Result RotateOutcome × AuthDb
unfolding rotate_rows get_session
rotate_row r times db none = (ok missing, db)
rotate_row r times db (some row) =
    let written = rotate_rows r times row db in
    if is_some row.revoked_at
    then (ok reuse_detected, db)
    else if str_leb row.expires_at times.now
    then (ok missing, revoke_refresh times.now row.token_id db)
    else if not (is_active_row (get_session row.session_id db))
    then (ok missing, db)
    else (rotated_outcome written times row.session_id, commit written db)

unfoldable pub rotate_refresh_token : Rotation → Times → AuthDb → Result RotateOutcome × AuthDb
unfolding rotate_row
rotate_refresh_token r times db =
    rotate_row r times db (find (λ t. str_eq t.token_hash r.refresh_hash) db.auth_refresh_tokens)

-- The four queries of `revoke_sessions` for the sessions to revoke.
unfoldable pub is_chosen : Option String → Option String → Bool → SessionRecord → Bool
is_chosen session_id device_id true s = str_eq s.status "active"
is_chosen (some sid) (some did) false s =
    str_eq s.status "active" && str_eq s.session_id sid && str_eq s.device_id did
is_chosen (some sid) none false s = str_eq s.status "active" && str_eq s.session_id sid
is_chosen none (some did) false s = str_eq s.status "active" && str_eq s.device_id did
is_chosen none none false s = false

-- `COALESCE(revoked_at, ?1)`
abbrev pub coalesce : Option String → String → Option String
coalesce none now = some now
coalesce (some t) now = some t

-- The three updates for one session.
unfoldable pub revoke_session : AuthSessionStatus → String → String → AuthDb → AuthDb
revoke_session status now sid db = record {
  auth_sessions =
      map
        (λ (s : SessionRecord).
          if str_eq s.session_id sid
          then record s { status = as_str status; revoked_at = some now }
          else s)
        db.auth_sessions;
  auth_refresh_tokens =
      map
        (λ (t : RefreshToken).
          if str_eq t.session_id sid
          then record t { revoked_at = coalesce t.revoked_at now }
          else t)
        db.auth_refresh_tokens;
  auth_access_tokens =
      map
        (λ (t : AccessToken).
          if str_eq t.session_id sid
          then record t { revoked_at = coalesce t.revoked_at now }
          else t)
        db.auth_access_tokens;
}

unfoldable pub revoke_each : AuthSessionStatus → String → List String → AuthDb → AuthDb
unfolding revoke_session
revoke_each status now [] db = db
revoke_each status now (sid ∷ sids) db =
    revoke_each status now sids (revoke_session status now sid db)

unfoldable pub revoke_sessions :
    Option String → Option String → Bool → AuthSessionStatus → String → AuthDb → ℕ × AuthDb
unfolding is_chosen revoke_each
revoke_sessions session_id device_id revoke_all status now db =
    let session_ids =
      map (λ (s : SessionRecord). s.session_id)
        (keep (is_chosen session_id device_id revoke_all) db.auth_sessions) in
    (length session_ids, revoke_each status now session_ids db)

-- The two deletions of `cleanup_expired`.
unfoldable pub cleanup_expired : String → AuthDb → AuthDb
cleanup_expired now db = record db {
  auth_access_tokens =
      keep (λ (t : AccessToken). not (str_leb t.expires_at now)) db.auth_access_tokens;
  auth_refresh_tokens =
      keep (λ (t : RefreshToken). not (str_leb t.expires_at now && is_some t.revoked_at))
        db.auth_refresh_tokens;
}
