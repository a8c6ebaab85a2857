-- ===== src/Gateway/Index/Startup/Audit.antt =====
-- session_index_store.rs: the audit of a start, in the map and in the log.
use open_jax.Prelude.{
  String, ◌≡◌, refl, sym, ap, ◌∙◌, Bool, true, false, ◌&&◌, ◌||◌, not, Option, none, some, List, [],
  ◌∷◌, any, map, is_some, str_eq, str_eq_iff, if◌then◌else◌, arith,
}
use open_jax.Prelude.Results.{ok, ◌>>=◌}
use open_jax.Prelude.Dict
use open_jax.Prelude.Dict.{Dict, get-insert, get-remove}
use open_jax.Gateway.Index.Types.{
  IndexSessionEntry, upsert_session, delete_session, SessionIndexLogRecord, whole,
}
use open_jax.Gateway.Index.Disk.{delete_record, apply_op, load_entries_snapshot_and_log}
use open_jax.Gateway.Index.Replay.{normalized-normal, load-snoc}
use open_jax.Gateway.Index.Startup.{
  Loaded, audit_indexed, delete_missing, audit_on_disk, add_missing, audited,
}
use open_jax.Gateway.Index.Startup.Maps.{
  is_proper, all_proper, IsProper, insert-IsProper, remove-IsProper,
}

module _ (normalize : String → Option String) where
  -- The disk reads back to the map.
  pub record Stands (l : Loaded) : Type 0 where
    pub ended : (l.1).log_ended ≡ true
    pub proper : IsProper normalize l.0
    pub map : Dict IndexSessionEntry
    pub loads : load_entries_snapshot_and_log normalize l.1 ≡ ok map
    pub same : (id : String) → Dict.get id map ≡ Dict.get id l.0

  delete-Stands :
      (now id : String) (b : Bool) (l : Loaded) → Stands l → Stands (audit_indexed now b id l)
  delete-Stands now id true l v = v
  delete-Stands now id false (m, disk) v = record {
    ended = refl;
    proper = remove-IsProper normalize id m v.proper;
    map = Dict.remove id v.map;
    loads =
        load-snoc normalize disk (whole (delete_record id now)) v.ended
        ∙ ap (λ x. x >>= apply_op normalize delete_session (delete_record id now)) v.loads;
    same = λ j.
        get-remove id j v.map
        ∙ ap (λ o. if str_eq id j then none else o) (v.same j)
        ∙ sym (get-remove id j m);
  }

  missing-Stands :
      (now : String) (on_disk : Dict IndexSessionEntry) (ids : List String) (l : Loaded)
      → Stands l
      → Stands (delete_missing now on_disk ids l)
  missing-Stands now on_disk [] l v = v
  missing-Stands now on_disk (id ∷ ids) l v =
      missing-Stands now on_disk ids _ (delete-Stands now id (is_some (Dict.get id on_disk)) l v)

  insert_id :
      (id : String) (e : IndexSessionEntry) (m : Dict IndexSessionEntry)
      → is_proper normalize id e ≡ true
      → Dict.insert e.session_id e m ≡ Dict.insert id e m
  insert_id id e m h = ap (λ i. Dict.insert i e m) ((str_eq_iff e.session_id id).0 (ground arith))

  add-Stands :
      (now id : String) (b : Bool) (e : IndexSessionEntry) (l : Loaded)
      → is_proper normalize id e ≡ true
      → Stands l
      → Stands (audit_on_disk now b id e l)
  add-Stands now id true e l h v = v
  add-Stands now id false e (m, disk) h v =
      let r : SessionIndexLogRecord = record {
        op = upsert_session;
        session_id = id;
        ts = now;
        payload = some e;
      } in
      record {
        ended = refl;
        proper = insert-IsProper normalize id e m h v.proper;
        map = Dict.insert id e v.map;
        loads =
            load-snoc normalize disk (whole r) v.ended
            ∙ ap (λ x. x >>= apply_op normalize upsert_session r) v.loads
            ∙ ap (λ x. x >>= λ entry. ok (Dict.insert entry.session_id entry v.map))
                (normalized-normal normalize e (ground arith))
            ∙ ap ok (insert_id id e v.map h);
        same = λ j.
            get-insert id j e v.map
            ∙ ap (λ o. if str_eq id j then some e else o) (v.same j)
            ∙ sym (get-insert id j e m);
      }

  added-Stands :
      (now : String) (on_disk : Dict IndexSessionEntry) (l : Loaded)
      → all_proper normalize on_disk ≡ true
      → Stands l
      → Stands (add_missing now on_disk l)
  added-Stands now [] l h v = v
  added-Stands now ((id, e) ∷ on_disk) l h v =
      added-Stands now on_disk _ (ground arith)
        (add-Stands now id (is_some (Dict.get id l.0)) e l (ground arith) v)

  pub audited-Stands :
      (now : String) (on_disk : Dict IndexSessionEntry) (l : Loaded)
      → IsProper normalize on_disk
      → Stands l
      → Stands (audited now on_disk l)
  audited-Stands now on_disk l p v =
      added-Stands now on_disk _ p.proper (missing-Stands now on_disk (map (λ q. q.0) l.0) l v)

-- Which ids the audit leaves.
delete-has :
    (now id j : String) (b : Bool) (l : Loaded)
    → is_some (Dict.get j (audit_indexed now b id l).0)
      ≡ (is_some (Dict.get j l.0) && (b || not (str_eq id j)))
delete-has now id j true (m, disk) = ground arith
delete-has now id j false (m, disk) = ap is_some (get-remove id j m) ∙ ground arith

missing-has :
    (now j : String) (on_disk : Dict IndexSessionEntry) (ids : List String) (l : Loaded)
    → is_some (Dict.get j (delete_missing now on_disk ids l).0) ≡ (
        is_some (Dict.get j l.0)
        && (not (any (λ i. str_eq i j) ids) || is_some (Dict.get j on_disk)))
missing-has now j on_disk [] l = ground arith
missing-has now j on_disk (id ∷ ids) l =
    missing-has now j on_disk ids _
    ∙ ap (λ b. b && (not (any (λ i. str_eq i j) ids) || is_some (Dict.get j on_disk)))
        (delete-has now id j (is_some (Dict.get id on_disk)) l)
    ∙ ground (arith, str_eq_iff id j)

add-has :
    (now id j : String) (b : Bool) (e : IndexSessionEntry) (l : Loaded)
    → is_some (Dict.get id l.0) ≡ b
    → is_some (Dict.get j (audit_on_disk now b id e l).0)
      ≡ (is_some (Dict.get j l.0) || str_eq id j)
add-has now id j true e (m, disk) h = ground (arith, str_eq_iff id j)
add-has now id j false e (m, disk) h = ap is_some (get-insert id j e m) ∙ ground arith

added-has :
    (now j : String) (on_disk : Dict IndexSessionEntry) (l : Loaded)
    → is_some (Dict.get j (add_missing now on_disk l).0)
      ≡ (is_some (Dict.get j l.0) || is_some (Dict.get j on_disk))
unfolding Dict.get
added-has now j [] l = ground arith
added-has now j ((id, e) ∷ on_disk) l =
    added-has now j on_disk _
    ∙ ap (λ b. b || is_some (Dict.get j on_disk))
        (add-has now id j (is_some (Dict.get id l.0)) e l refl)
    ∙ ground arith

get-key :
    (j : String) (m : Dict IndexSessionEntry)
    → is_some (Dict.get j m) ≡ any (λ i. str_eq i j) (map (λ p. p.0) m)
unfolding Dict.get
get-key j [] = refl
get-key j ((id, e) ∷ m) = ground (arith, get-key j m)

pub audited-has :
    (now j : String) (on_disk : Dict IndexSessionEntry) (l : Loaded)
    → is_some (Dict.get j (audited now on_disk l).0) ≡ is_some (Dict.get j on_disk)
audited-has now j on_disk l =
    added-has now j on_disk _
    ∙ ap (λ b. b || is_some (Dict.get j on_disk)) (missing-has now j on_disk (map (λ p. p.0) l.0) l)
    ∙ ground (arith, get-key j l.0)

-- The audit leaves the directories as they are.
delete_sessions :
    (now : String) (on_disk : Dict IndexSessionEntry) (ids : List String) (l : Loaded)
    → (delete_missing now on_disk ids l).1.sessions ≡ (l.1).sessions
delete_sessions now on_disk [] l = refl
delete_sessions now on_disk (id ∷ ids) l =
    delete_sessions now on_disk ids _ ∙ step (is_some (Dict.get id on_disk)) l
  where
    step : (b : Bool) (l : Loaded) → (audit_indexed now b id l).1.sessions ≡ (l.1).sessions
    step true l = refl
    step false l = refl

add_sessions :
    (now : String) (on_disk : Dict IndexSessionEntry) (l : Loaded)
    → (add_missing now on_disk l).1.sessions ≡ (l.1).sessions
add_sessions now [] l = refl
add_sessions now ((id, e) ∷ on_disk) l =
    add_sessions now on_disk _ ∙ step (is_some (Dict.get id l.0)) l
  where
    step : (b : Bool) (l : Loaded) → (audit_on_disk now b id e l).1.sessions ≡ (l.1).sessions
    step true l = refl
    step false l = refl

pub audited_sessions :
    (now : String) (on_disk : Dict IndexSessionEntry) (l : Loaded)
    → (audited now on_disk l).1.sessions ≡ (l.1).sessions
audited_sessions now on_disk l =
    add_sessions now on_disk _ ∙ delete_sessions now on_disk (map (λ p. p.0) l.0) l
