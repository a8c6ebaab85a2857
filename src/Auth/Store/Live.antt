-- ===== src/Auth/Store/Live.antt =====
-- auth/store.rs: logins and rotations leave every unrevoked token with an active session.
use open_jax.Prelude.{
  String, ◌≡◌, refl, ap, ◌∙◌, Bool, true, false, ◌||◌, Option, none, some, List, [], ◌∷◌, ◌++◌, map,
  all, find, str_eq, str_eq_refl, if◌then◌else◌, arith, is_some, Bool-cases, inl, inr, Option-cases,
}
use open_jax.Auth.Store.Rows.{all-append, all-imp, all-map, find-append_none, find-append_some}
use open_jax.Auth.Store.{
  AuthDb, SessionRecord, RefreshToken, AccessToken, Result, ok, err, Times, get_session,
  insert_session, insert_access, insert_refresh, ◌>>=◌, CreateSessionParams, new_session,
  new_access, new_refresh, create_rows, commit, create_session_and_tokens, str_leb, Rotation,
  revoke_refresh, touch_session, is_active_row, rotate_rows, rotate_row, rotate_refresh_token,
}

-- The session is there and active.
abbrev pub is_live : List SessionRecord → String → Bool
is_live sessions session_id = is_active_row (find (λ s. str_eq s.session_id session_id) sessions)

abbrev pub ok_access : List SessionRecord → AccessToken → Bool
ok_access sessions t = is_some t.revoked_at || is_live sessions t.session_id

abbrev pub ok_refresh : List SessionRecord → RefreshToken → Bool
ok_refresh sessions t = is_some t.revoked_at || is_live sessions t.session_id

-- Every token is revoked or belongs to an active session.
pub record IsSound (db : AuthDb) : Type 0 where
  pub access : all (ok_access db.auth_sessions) db.auth_access_tokens ≡ true
  pub refresh : all (ok_refresh db.auth_sessions) db.auth_refresh_tokens ≡ true

-- A table of sessions in which no active session has stopped being so.
abbrev Grows : List SessionRecord → List SessionRecord → Type 0
Grows xs ys = (id : String) → is_live xs id ≡ true → is_live ys id ≡ true

sessions-Grow :
    (db : AuthDb) (ys : List SessionRecord)
    → Grows db.auth_sessions ys
    → IsSound db
    → IsSound (record db { auth_sessions = ys })
sessions-Grow db ys grows v = record {
  access =
      all-imp (ok_access db.auth_sessions) (ok_access ys)
        (λ t h. ground (arith, grows t.session_id)) db.auth_access_tokens v.access;
  refresh =
      all-imp (ok_refresh db.auth_sessions) (ok_refresh ys)
        (λ t h. ground (arith, grows t.session_id)) db.auth_refresh_tokens v.refresh;
}

snoc-Grows : (xs : List SessionRecord) (s : SessionRecord) → Grows xs (xs ++ s ∷ [])
snoc-Grows xs s id h = elim (Option-cases (find (λ r. str_eq r.session_id id) xs)) [
  | inl e ↦ cc (ap is_active_row e)
  | inr (a, e) ↦ rw (find-append_some (λ r. str_eq r.session_id id) xs s a e) (rw e at h)
]

-- A property of the database that a step leaves, if the step succeeds.
abbrev pub AllOk : (AuthDb → Type 0) → Result AuthDb → Type 0
AllOk P (ok db) = P db
AllOk P (err e) = Unit {0}

pub AllOk-bind :
    (P Q : AuthDb → Type 0) (m : Result AuthDb) (f : AuthDb → Result AuthDb)
    → AllOk P m
    → ((db : AuthDb) → P db → AllOk Q (f db))
    → AllOk Q (m >>= f)
AllOk-bind P Q (ok db) f h k = k db h
AllOk-bind P Q (err e) f h k = tt

pub AllOk-unless :
    (P : AuthDb → Type 0) (b : Bool) (e : String) (db : AuthDb)
    → (b ≡ false → P db)
    → AllOk P (if b then err e else ok db)
AllOk-unless P true e db h = tt
AllOk-unless P false e db h = h refl

-- A sound database in which the session is active.
record SoundWith (sid : String) (db : AuthDb) : Type 0 where
  sound : IsSound db
  live : is_live db.auth_sessions sid ≡ true

insert_session-SoundWith :
    (row : SessionRecord) (db : AuthDb)
    → str_eq row.status "active" ≡ true
    → IsSound db
    → AllOk (SoundWith row.session_id) (insert_session row db)
unfolding insert_session
insert_session-SoundWith row db act v = AllOk-unless (SoundWith row.session_id) _ _ _ λ fresh.
    record {
      sound = sessions-Grow db (db.auth_sessions ++ row ∷ []) (snoc-Grows db.auth_sessions row) v;
      live =
          rw
            (
              find-append_none (λ s. str_eq s.session_id row.session_id) db.auth_sessions row fresh,
              str_eq_refl row.session_id,
            )
            act;
    }

insert_access-SoundWith :
    (row : AccessToken) (db : AuthDb)
    → SoundWith row.session_id db
    → AllOk (SoundWith row.session_id) (insert_access row db)
unfolding insert_access
insert_access-SoundWith row db v = AllOk-unless (SoundWith row.session_id) _ _ _ λ fresh. record {
  sound = record {
    access =
        all-append (ok_access db.auth_sessions) db.auth_access_tokens (row ∷ [])
        ∙ ground (arith, v.sound.access, v.live);
    refresh = v.sound.refresh;
  };
  live = v.live;
}

insert_refresh-SoundWith :
    (row : RefreshToken) (db : AuthDb)
    → SoundWith row.session_id db
    → AllOk (SoundWith row.session_id) (insert_refresh row db)
unfolding insert_refresh
insert_refresh-SoundWith row db v = AllOk-unless (SoundWith row.session_id) _ _ _ λ fresh. record {
  sound = record {
    access = v.sound.access;
    refresh =
        all-append (ok_refresh db.auth_sessions) db.auth_refresh_tokens (row ∷ [])
        ∙ ground (arith, v.sound.refresh, v.live);
  };
  live = v.live;
}

commit-IsSound :
    (P : AuthDb → Type 0) (r : Result AuthDb) (db : AuthDb)
    → ((d : AuthDb) → P d → IsSound d)
    → AllOk P r
    → IsSound db
    → IsSound (commit r db)
commit-IsSound P (ok next) db f h v = f next h
commit-IsSound P (err e) db f h v = v

create_rows-SoundWith :
    (params : CreateSessionParams) (times : Times) (db : AuthDb)
    → IsSound db
    → AllOk (SoundWith params.session_id) (create_rows params times db)
unfolding create_rows
create_rows-SoundWith params times db v =
    AllOk-bind (SoundWith params.session_id) (SoundWith params.session_id) _ _
      (insert_session-SoundWith (new_session params times) db refl v)
      λ d1 v1.
        AllOk-bind (SoundWith params.session_id) (SoundWith params.session_id) _ _
          (insert_access-SoundWith (new_access params.access_hash params.session_id times) d1 v1)
          λ d2 v2.
            insert_refresh-SoundWith
              (new_refresh params.refresh_token_id params.refresh_hash params.session_id none times)
              d2 v2

pub create-IsSound :
    (params : CreateSessionParams) (times : Times) (db : AuthDb)
    → IsSound db
    → IsSound (create_session_and_tokens params times db).1
unfolding create_session_and_tokens
create-IsSound params times db v =
    commit-IsSound (SoundWith params.session_id) (create_rows params times db) db (λ d w. w.sound)
      (create_rows-SoundWith params times db v) v

touch-live :
    (now sid : String) (xs : List SessionRecord) (id : String)
    → is_live
        (map
          (λ (s : SessionRecord).
            if str_eq s.session_id sid then record s { last_seen_at = now } else s)
          xs)
        id
      ≡ is_live xs id
touch-live now sid [] id = refl
touch-live now sid (x ∷ xs) id = ground (arith, touch-live now sid xs id)

revoke_refresh-IsSound :
    (now id : String) (db : AuthDb) → IsSound db → IsSound (revoke_refresh now id db)
unfolding revoke_refresh
revoke_refresh-IsSound now id db v = record {
  access = v.access;
  refresh =
      all-map (ok_refresh db.auth_sessions) (ok_refresh db.auth_sessions) _ (λ t h. ground arith)
        db.auth_refresh_tokens v.refresh;
}

touch_session-IsSound :
    (now id : String) (db : AuthDb) → IsSound db → IsSound (touch_session now id db)
unfolding touch_session
touch_session-IsSound now id db v =
    sessions-Grow db _ (λ i h. touch-live now id db.auth_sessions i ∙ h) v

-- The part of a rotation that `?` chains, from a sound database with the session of the row active.
rotate_rows-IsSound :
    (r : Rotation) (times : Times) (row : RefreshToken) (db : AuthDb)
    → SoundWith row.session_id db
    → AllOk IsSound (rotate_rows r times row db)
unfolding rotate_rows revoke_refresh
rotate_rows-IsSound r times row db v =
    AllOk-bind (SoundWith row.session_id) IsSound _ _
      (insert_refresh-SoundWith
        (new_refresh r.new_refresh_id r.next_refresh_hash row.session_id (some row.token_id) times)
        (revoke_refresh times.now row.token_id db)
        record { sound = revoke_refresh-IsSound times.now row.token_id db v.sound; live = v.live })
      λ d1 v1.
        AllOk-bind (SoundWith row.session_id) IsSound _ _
          (insert_access-SoundWith (new_access r.next_access_hash row.session_id times) d1 v1)
          λ d2 v2. touch_session-IsSound times.now row.session_id d2 v2.sound

rotate_row-IsSound :
    (r : Rotation) (times : Times) (db : AuthDb) (found : Option RefreshToken)
    → IsSound db
    → IsSound (rotate_row r times db found).1
unfolding rotate_row get_session
rotate_row-IsSound r times db none v = v
rotate_row-IsSound r times db (some row) v = elim (Bool-cases (is_some row.revoked_at)) [
  | inl y ↦ rw y v
  | inr n ↦ rw n elim (Bool-cases (str_leb row.expires_at times.now)) [
    | inl y ↦ rw y (revoke_refresh-IsSound times.now row.token_id db v)
    | inr m ↦ rw m elim (Bool-cases (is_live db.auth_sessions row.session_id)) [
      | inl y ↦ rw y (
          commit-IsSound IsSound _ db (λ d w. w)
            (rotate_rows-IsSound r times row db record { sound = v; live = y }) v)
      | inr k ↦ rw k v
    ]
  ]
]

pub rotate-IsSound :
    (r : Rotation) (times : Times) (db : AuthDb)
    → IsSound db
    → IsSound (rotate_refresh_token r times db).1
unfolding rotate_refresh_token
rotate-IsSound r times db v = rotate_row-IsSound r times db _ v
