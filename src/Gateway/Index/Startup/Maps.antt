-- ===== src/Gateway/Index/Startup/Maps.antt =====
-- session_index_store.rs: the maps of entries that a start builds.
use open_jax.Prelude.{
  String, ◌≡◌, refl, Bool, true, false, ◌&&◌, Option, none, some, List, [], ◌∷◌, all, is_some,
  str_eq, str_eq_iff, str_eq_refl, ◌==◌, arith, Bool-cases, inl, inr,
}
use open_jax.Prelude.Results.{Result, ok, err, ◌>>=◌}
use open_jax.Prelude.Dict
use open_jax.Prelude.Dict.{Dict, get-insert, get-remove, IsKeyed, insert-IsKeyed, remove-IsKeyed}
use open_jax.Gateway.Index.Types.{
  IndexSessionEntry, SessionIndexSnapshot, IndexLogOpKind, upsert_session, delete_session,
  SessionIndexLogRecord, LogLine, whole, part, joined,
}
use open_jax.Gateway.Index.Entries.{find_entry}
use open_jax.Gateway.Index.Disk.{
  Disk, with_updated_at, collect_entries, load_snapshot, apply_payload, apply_op, apply_line,
  replay_log, load_entries_snapshot_and_log,
}
use open_jax.Gateway.Index.Order.{lacks, Unique}
use open_jax.Gateway.Index.Replay.{is_normal}
use open_jax.Gateway.Index.Startup.{values}

module _ (normalize : String → Option String) where
  -- The entry is of this id, and its time is normal.
  abbrev pub is_proper : String → IndexSessionEntry → Bool
  is_proper id e = str_eq e.session_id id && is_normal normalize e

  abbrev pub all_proper : Dict IndexSessionEntry → Bool
  all_proper [] = true
  all_proper ((id, e) ∷ m) = is_proper id e && all_proper m

  pub record IsProper (m : Dict IndexSessionEntry) : Type 0 where
    pub keyed : IsKeyed m
    pub proper : all_proper m ≡ true

  pub insert-proper :
      (id : String) (e : IndexSessionEntry) (m : Dict IndexSessionEntry)
      → is_proper id e ≡ true
      → all_proper m ≡ true
      → all_proper (Dict.insert id e m) ≡ true
  unfolding Dict.insert
  insert-proper id e [] h k = ground arith
  insert-proper id e ((j, d) ∷ m) h k = ground (arith, insert-proper id e m h, str_eq_iff j id)

  pub remove-proper :
      (id : String) (m : Dict IndexSessionEntry)
      → all_proper m ≡ true
      → all_proper (Dict.remove id m) ≡ true
  unfolding Dict.remove
  remove-proper id [] k = refl
  remove-proper id ((j, d) ∷ m) k = ground (arith, remove-proper id m)

  pub insert-IsProper :
      (id : String) (e : IndexSessionEntry) (m : Dict IndexSessionEntry)
      → is_proper id e ≡ true
      → IsProper m
      → IsProper (Dict.insert id e m)
  insert-IsProper id e m h v = record {
    keyed = insert-IsKeyed id e m v.keyed;
    proper = insert-proper id e m h v.proper;
  }

  pub remove-IsProper :
      (id : String) (m : Dict IndexSessionEntry) → IsProper m → IsProper (Dict.remove id m)
  remove-IsProper id m v = record {
    keyed = remove-IsKeyed id m v.keyed;
    proper = remove-proper id m v.proper;
  }

  pub values-normal :
      (m : Dict IndexSessionEntry)
      → all_proper m ≡ true
      → all (is_normal normalize) (values m) ≡ true
  values-normal [] h = refl
  values-normal ((id, e) ∷ m) h = ground (arith, values-normal m)

  lacks-values :
      (id : String) (m : Dict IndexSessionEntry)
      → all_proper m ≡ true
      → is_some (Dict.get id m) ≡ false
      → lacks id (values m) ≡ true
  unfolding Dict.get
  lacks-values id [] h k = refl
  lacks-values id ((j, e) ∷ m) h k = ground (
    arith,
    lacks-values id m,
    str_eq_iff e.session_id j,
    str_eq_iff e.session_id id,
    str_eq_iff j id,
  )

  values-Unique : (m : Dict IndexSessionEntry) → IsKeyed m → all_proper m ≡ true → Unique (values m)
  values-Unique [] k h = tt
  values-Unique ((id, e) ∷ m) (n, k) h = (
    rw ((str_eq_iff e.session_id id).0 (ground arith)) (lacks-values id m (ground arith) n),
    values-Unique m k (ground arith),
  )

  find-values :
      (id : String) (m : Dict IndexSessionEntry)
      → all_proper m ≡ true
      → find_entry id (values m) ≡ Dict.get id m
  unfolding find_entry Dict.get
  find-values id [] h = refl
  find-values id ((j, e) ∷ m) h = ground (
    arith,
    find-values id m,
    str_eq_iff e.session_id j,
    str_eq_iff e.session_id id,
    str_eq_iff j id,
  )

  pub IsProper-Unique : (m : Dict IndexSessionEntry) → IsProper m → Unique (values m)
  IsProper-Unique m v = values-Unique m v.keyed v.proper

  pub find-IsProper :
      (id : String) (m : Dict IndexSessionEntry)
      → IsProper m
      → find_entry id (values m) ≡ Dict.get id m
  find-IsProper id m v = find-values id m v.proper

  module _ (normal_again : (t u : String) → normalize t ≡ some u → normalize u ≡ some u) where
    -- The result, if there is one, is a map of this kind.
    abbrev pub ResultProper : Result (Dict IndexSessionEntry) → Type 0
    ResultProper (ok m) = IsProper m
    ResultProper (err e) = Unit {0}

    pub empty-IsProper : IsProper []
    empty-IsProper = record { keyed = tt; proper = refl }

    dated-proper :
        (e : IndexSessionEntry) (t u : String)
        → normalize t ≡ some u
        → is_proper e.session_id (record e { updated_at = u }) ≡ true
    dated-proper e t u h = rw (str_eq_refl e.session_id, normal_again t u h) (str_eq_refl u)

    entry-ResultProper :
        (e : IndexSessionEntry) (o : Option String) (m : Dict IndexSessionEntry)
        → normalize e.updated_at ≡ o
        → IsProper m
        → ResultProper
            (with_updated_at normalize e o >>= λ entry. ok (Dict.insert entry.session_id entry m))
    entry-ResultProper e none m h v = tt
    entry-ResultProper e (some u) m h v =
        insert-IsProper e.session_id _ m (dated-proper e e.updated_at u h) v

    payload-ResultProper :
        (o : Option IndexSessionEntry) (m : Dict IndexSessionEntry)
        → IsProper m
        → ResultProper (apply_payload normalize o m)
    payload-ResultProper none m v = tt
    payload-ResultProper (some e) m v = entry-ResultProper e (normalize e.updated_at) m refl v

    apply-ResultProper :
        (op : IndexLogOpKind) (r : SessionIndexLogRecord) (m : Dict IndexSessionEntry)
        → IsProper m
        → ResultProper (apply_op normalize op r m)
    apply-ResultProper upsert_session r m v = payload-ResultProper r.payload m v
    apply-ResultProper delete_session r m v = remove-IsProper r.session_id m v

    line-ResultProper :
        (l : LogLine) (m : Dict IndexSessionEntry)
        → IsProper m
        → ResultProper (apply_line normalize l m)
    line-ResultProper (whole r) m v = apply-ResultProper r.op r m v
    line-ResultProper (part r) m v = tt
    line-ResultProper (joined k l) m v = tt

    replay-next :
        (rs : List LogLine) (x : Result (Dict IndexSessionEntry))
        → ResultProper x
        → ((m : Dict IndexSessionEntry) → IsProper m → ResultProper (replay_log normalize rs m))
        → ResultProper (x >>= replay_log normalize rs)
    replay-next rs (ok m) v h = h m v
    replay-next rs (err e) v h = tt

    replay-ResultProper :
        (rs : List LogLine) (m : Dict IndexSessionEntry)
        → IsProper m
        → ResultProper (replay_log normalize rs m)
    unfolding replay_log
    replay-ResultProper [] m v = v
    replay-ResultProper (r ∷ rs) m v =
        replay-next rs (apply_line normalize r m) (line-ResultProper r m v) (replay-ResultProper rs)

    collect-next :
        (e : IndexSessionEntry) (es : List IndexSessionEntry) (o : Option String)
        (m : Dict IndexSessionEntry)
        → normalize e.updated_at ≡ o
        → IsProper m
        → ((m : Dict IndexSessionEntry)
            → IsProper m
            → ResultProper (collect_entries normalize es m))
        → ResultProper (
            with_updated_at normalize e o >>= λ entry.
            collect_entries normalize es (Dict.insert entry.session_id entry m))
    collect-next e es none m h v k = tt
    collect-next e es (some u) m h v k =
        k _ (insert-IsProper e.session_id _ m (dated-proper e e.updated_at u h) v)

    collect-ResultProper :
        (es : List IndexSessionEntry) (m : Dict IndexSessionEntry)
        → IsProper m
        → ResultProper (collect_entries normalize es m)
    unfolding collect_entries
    collect-ResultProper [] m v = v
    collect-ResultProper (e ∷ es) m v =
        collect-next e es (normalize e.updated_at) m refl v (collect-ResultProper es)

    snapshot-ResultProper :
        (o : Option (Option SessionIndexSnapshot)) → ResultProper (load_snapshot normalize o)
    unfolding load_snapshot
    snapshot-ResultProper none = empty-IsProper
    snapshot-ResultProper (some none) = tt
    snapshot-ResultProper (some (some s)) = elim (Bool-cases (s.schema_version == 1)) [
      | inl y ↦ rw y (collect-ResultProper s.sessions [] empty-IsProper)
      | inr n ↦ rw n tt
    ]

    pub load-ResultProper :
        (disk : Disk) → ResultProper (load_entries_snapshot_and_log normalize disk)
    unfolding load_entries_snapshot_and_log
    load-ResultProper disk =
        replay-next disk.log (load_snapshot normalize disk.snapshot)
          (snapshot-ResultProper disk.snapshot) (replay-ResultProper disk.log)
