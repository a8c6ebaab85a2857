-- ===== src/Gateway/Index/Again.antt =====
-- session_index_store.rs: a log that is read again over a newer snapshot changes nothing.
use open_jax.Prelude.{
  String, ◌≡◌, refl, sym, ap, ◌∙◌, Bool, true, false, ◌||◌, Option, none, some, List, [], ◌∷◌, all,
  str_eq, if◌then◌else◌, arith, Bool-cases, inl, inr,
}
use open_jax.Prelude.Results.{Result, ok, ◌>>=◌}
use open_jax.Prelude.Dict
use open_jax.Prelude.Dict.{Dict, get-insert, get-remove}
use open_jax.Gateway.Index.Types.{
  IndexSessionEntry, SessionIndexSnapshot, IndexLogOpKind, upsert_session, delete_session,
  SessionIndexLogRecord, LogLine, whole, part, joined,
}
use open_jax.Gateway.Index.Disk.{
  Disk, with_updated_at, load_snapshot, apply_payload, apply_op, apply_line, replay_log,
  load_entries_snapshot_and_log,
}
use open_jax.Gateway.Index.Order.{Unique}
use open_jax.Gateway.Index.Replay.{is_normal, Recovers, Result-cases, ok_inj, snapshot-Loads}

module _ (normalize : String → Option String) where
  abbrev is_entry : String → Option IndexSessionEntry → Bool
  is_entry id none = false
  is_entry id (some p) = str_eq p.session_id id

  -- The record changes what is read for the id.
  abbrev touches_by : String → IndexLogOpKind → SessionIndexLogRecord → Bool
  touches_by id upsert_session r = is_entry id r.payload
  touches_by id delete_session r = str_eq r.session_id id

  abbrev touches_line : String → LogLine → Bool
  touches_line id (whole r) = touches_by id r.op r
  touches_line id (part r) = false
  touches_line id (joined k l) = false

  -- A record that can be read over one map can be read over another, where it writes the same.
  record Steps (touched : String → Bool)
      (f : Dict IndexSessionEntry → Result (Dict IndexSessionEntry))
      (m m1 n : Dict IndexSessionEntry) : Type 0 where
    next : Dict IndexSessionEntry
    loads : f n ≡ ok next
    on : (id : String) → touched id ≡ true → Dict.get id next ≡ Dict.get id m1
    off_next : (id : String) → touched id ≡ false → Dict.get id next ≡ Dict.get id n
    off : (id : String) → touched id ≡ false → Dict.get id m1 ≡ Dict.get id m

  insert-Steps :
      (k : String) (e : IndexSessionEntry) (m m1 n : Dict IndexSessionEntry)
      → Dict.insert k e m ≡ m1
      → Steps (λ id. str_eq k id) (λ d. ok (Dict.insert k e d)) m m1 n
  insert-Steps k e m m1 n q = record {
    next = Dict.insert k e n;
    loads = refl;
    on = λ id h.
        get-insert k id e n
        ∙ ap (λ b. if b then some e else Dict.get id n) h
        ∙ sym (
            ap (Dict.get id) (sym q)
            ∙ get-insert k id e m
            ∙ ap (λ b. if b then some e else Dict.get id m) h);
    off_next = λ id h. get-insert k id e n ∙ ap (λ b. if b then some e else Dict.get id n) h;
    off = λ id h.
        ap (Dict.get id) (sym q)
        ∙ get-insert k id e m
        ∙ ap (λ b. if b then some e else Dict.get id m) h;
  }

  remove-Steps :
      (k : String) (m m1 n : Dict IndexSessionEntry)
      → Dict.remove k m ≡ m1
      → Steps (λ id. str_eq k id) (λ d. ok (Dict.remove k d)) m m1 n
  remove-Steps k m m1 n q = record {
    next = Dict.remove k n;
    loads = refl;
    on = λ id h.
        get-remove k id n
        ∙ ap (λ b. if b then none else Dict.get id n) h
        ∙ sym (
            ap (Dict.get id) (sym q)
            ∙ get-remove k id m
            ∙ ap (λ b. if b then none else Dict.get id m) h);
    off_next = λ id h. get-remove k id n ∙ ap (λ b. if b then none else Dict.get id n) h;
    off = λ id h.
        ap (Dict.get id) (sym q)
        ∙ get-remove k id m
        ∙ ap (λ b. if b then none else Dict.get id m) h;
  }

  text-Steps :
      (p : IndexSessionEntry) (o : Option String) (m m1 n : Dict IndexSessionEntry)
      → (with_updated_at normalize p o >>= λ entry. ok (Dict.insert entry.session_id entry m))
        ≡ ok m1
      → Steps
          (λ id. str_eq p.session_id id)
          (λ d.
            with_updated_at normalize p o >>= λ entry. ok (Dict.insert entry.session_id entry d))
          m
          m1
          n
  text-Steps p none m m1 n h = cc
  text-Steps p (some u) m m1 n h =
      insert-Steps p.session_id (record p { updated_at = u }) m m1 n (ok_inj _ _ h)

  payload-Steps :
      (o : Option IndexSessionEntry) (m m1 n : Dict IndexSessionEntry)
      → apply_payload normalize o m ≡ ok m1
      → Steps (λ id. is_entry id o) (apply_payload normalize o) m m1 n
  payload-Steps none m m1 n h = cc
  payload-Steps (some p) m m1 n h = text-Steps p (normalize p.updated_at) m m1 n h

  apply-Steps :
      (op : IndexLogOpKind) (r : SessionIndexLogRecord) (m m1 n : Dict IndexSessionEntry)
      → apply_op normalize op r m ≡ ok m1
      → Steps (λ id. touches_by id op r) (apply_op normalize op r) m m1 n
  apply-Steps upsert_session r m m1 n h = payload-Steps r.payload m m1 n h
  apply-Steps delete_session r m m1 n h = remove-Steps r.session_id m m1 n (ok_inj _ _ h)

  apply_line-Steps :
      (l : LogLine) (m m1 n : Dict IndexSessionEntry)
      → apply_line normalize l m ≡ ok m1
      → Steps (λ id. touches_line id l) (apply_line normalize l) m m1 n
  apply_line-Steps (whole r) m m1 n h = apply-Steps r.op r m m1 n h
  apply_line-Steps (part r) m m1 n h = cc
  apply_line-Steps (joined k l) m m1 n h = cc

  abbrev touched_in : List LogLine → String → Bool
  touched_in [] id = false
  touched_in (r ∷ rs) id = touches_line id r || touched_in rs id

  replay-Steps :
      (rs : List LogLine) (m m1 n : Dict IndexSessionEntry)
      → replay_log normalize rs m ≡ ok m1
      → Steps (touched_in rs) (replay_log normalize rs) m m1 n
  unfolding replay_log
  replay-Steps [] m m1 n h = record {
    next = n;
    loads = refl;
    on = λ id t. cc;
    off_next = λ id t. refl;
    off = λ id t. ap (Dict.get id) (sym (ok_inj _ _ h));
  }
  replay-Steps (r ∷ rs) m m1 n h = elim (Result-cases (apply_line normalize r m)) [
    | inr (e, q) ↦ cc (sym (ap (λ x. x >>= replay_log normalize rs) q) ∙ h)
    | inl (mid, q) ↦
        let a = apply_line-Steps r m mid n q in
        let b =
          replay-Steps rs mid m1 a.next (sym (ap (λ x. x >>= replay_log normalize rs) q) ∙ h) in
        record {
          next = b.next;
          loads = ap (λ x. x >>= replay_log normalize rs) a.loads ∙ b.loads;
          on = λ id t. elim (Bool-cases (touched_in rs id)) [
            | inl y ↦ b.on id y
            | inr z ↦ b.off_next id z ∙ a.on id (ground arith) ∙ sym (b.off id z)
          ];
          off_next = λ id t. b.off_next id (ground arith) ∙ a.off_next id (ground arith);
          off = λ id t. b.off id (ground arith) ∙ a.off id (ground arith);
        }
  ]

  -- With a new snapshot and the log as it was, the disk stands for the same entries.
  pub again-Recovers :
      (disk : Disk) (snapshot : SessionIndexSnapshot)
      → snapshot.schema_version ≡ 1
      → Unique snapshot.sessions
      → all (is_normal normalize) snapshot.sessions ≡ true
      → Recovers normalize disk snapshot.sessions
      → Recovers normalize (record disk { snapshot = some (some snapshot) }) snapshot.sessions
  unfolding load_entries_snapshot_and_log
  again-Recovers disk snapshot one u n v =
      let c = snapshot-Loads normalize snapshot one u n in
      elim (Result-cases (load_snapshot normalize disk.snapshot)) [
        | inr (e, k) ↦ cc (sym (ap (λ x. x >>= replay_log normalize disk.log) k) ∙ v.loads)
        | inl (m0, k) ↦
            let b =
              replay-Steps disk.log m0 v.map c.map
                (sym (ap (λ x. x >>= replay_log normalize disk.log) k) ∙ v.loads) in
            record {
              ended = v.ended;
              map = b.next;
              loads = ap (λ x. x >>= replay_log normalize disk.log) c.loads ∙ b.loads;
              same = λ id. elim (Bool-cases (touched_in disk.log id)) [
                | inl y ↦ b.on id y ∙ v.same id
                | inr z ↦ b.off_next id z ∙ c.same id
              ];
            }
      ]
