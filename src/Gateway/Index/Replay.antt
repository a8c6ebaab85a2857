-- ===== src/Gateway/Index/Replay.antt =====
-- session_index_store.rs: what the snapshot and the log on disk stand for.
use open_jax.Prelude.{
  String, ◌≡◌, refl, sym, ap, ◌∙◌, subst, Bool, true, Option, none, some, List, [], ◌∷◌, ◌++◌, all,
  str_eq, str_eq_iff, if◌then◌else◌, arith, Bool-cases, inl, inr, ◌⊎◌,
}
use open_jax.Prelude.Results.{Result, ok, err, ◌>>=◌}
use open_jax.Prelude.Dict
use open_jax.Prelude.Dict.{Dict, get-insert, get-remove}
use open_jax.Policy.Schema.{is_this}
use open_jax.Gateway.Index.Types.{
  IndexSessionEntry, SessionIndexSnapshot, upsert_session, delete_session, LogLine, whole,
}
use open_jax.Gateway.Index.Entries.{find_entry, upsert_memory_entry, remove_memory_entry}
use open_jax.Gateway.Index.Disk.{
  Disk, upsert_record, delete_record, normalized, with_updated_at, collect_entries, load_snapshot,
  apply_op, apply_line, add_line, write_line, replay_log, load_entries_snapshot_and_log,
}
use open_jax.Gateway.Index.Order.{lacks, Unique, find-upsert, find-remove}

pub Result-cases {ℓ} :
    {A : Type ℓ} (x : Result A) → ((a : A) × (x ≡ ok a)) ⊎ ((e : String) × (x ≡ err e))
Result-cases (ok a) = inl (a, refl)
Result-cases (err e) = inr (e, refl)

pub ok_inj {ℓ} : {A : Type ℓ} (a b : A) → ok a ≡ ok b → a ≡ b
ok_inj a b h = cc

module _ (normalize : String → Option String) where
  -- The time of the entry is in its normal form.
  abbrev pub is_normal : IndexSessionEntry → Bool
  is_normal e = is_this e.updated_at (normalize e.updated_at)

  normal_text :
      (o : Option String) (e : IndexSessionEntry)
      → is_this e.updated_at o ≡ true
      → with_updated_at normalize e o ≡ ok e
  normal_text none e h = cc
  normal_text (some u) e h =
      ap (λ t. ok (record e { updated_at = t })) ((str_eq_iff u e.updated_at).0 h)

  pub normalized-normal :
      (e : IndexSessionEntry) → is_normal e ≡ true → normalized normalize e ≡ ok e
  normalized-normal e h = normal_text (normalize e.updated_at) e h

  -- The disk stands for the entries: reading it back gives a map with the same entries.
  pub record Recovers (disk : Disk) (entries : List IndexSessionEntry) : Type 0 where
    pub ended : disk.log_ended ≡ true
    pub map : Dict IndexSessionEntry
    pub loads : load_entries_snapshot_and_log normalize disk ≡ ok map
    pub same : (id : String) → Dict.get id map ≡ find_entry id entries

  bind-snoc :
      (r : LogLine) (rs : List LogLine) (x : Result (Dict IndexSessionEntry))
      → ((m : Dict IndexSessionEntry)
          → replay_log normalize (rs ++ r ∷ []) m
            ≡ (replay_log normalize rs m >>= apply_line normalize r))
      → (x >>= replay_log normalize (rs ++ r ∷ []))
        ≡ ((x >>= replay_log normalize rs) >>= apply_line normalize r)
  bind-snoc r rs (ok m) h = h m
  bind-snoc r rs (err e) h = refl

  bind-ok : (x : Result (Dict IndexSessionEntry)) → (x >>= ok) ≡ x
  bind-ok (ok m) = refl
  bind-ok (err e) = refl

  replay-snoc :
      (rs : List LogLine) (r : LogLine) (m : Dict IndexSessionEntry)
      → replay_log normalize (rs ++ r ∷ []) m
        ≡ (replay_log normalize rs m >>= apply_line normalize r)
  unfolding replay_log
  replay-snoc [] r m = bind-ok (apply_line normalize r m)
  replay-snoc (q ∷ rs) r m = bind-snoc r rs (apply_line normalize q m) (replay-snoc rs r)

  pub load-snoc :
      (disk : Disk) (r : LogLine)
      → disk.log_ended ≡ true
      → load_entries_snapshot_and_log normalize (write_line r true disk)
        ≡ (load_entries_snapshot_and_log normalize disk >>= apply_line normalize r)
  unfolding load_entries_snapshot_and_log
  load-snoc disk r e =
      ap
        (λ b.
          load_snapshot normalize disk.snapshot >>= replay_log normalize (add_line b r disk.log))
        e
      ∙ bind-snoc r disk.log (load_snapshot normalize disk.snapshot) (replay-snoc disk.log r)

  pub upsert-Recovers :
      (disk : Disk) (entries : List IndexSessionEntry) (e : IndexSessionEntry) (ts : String)
      → Unique entries
      → is_normal e ≡ true
      → Recovers disk entries
      → Recovers (write_line (whole (upsert_record e ts)) true disk) (upsert_memory_entry e entries)
  upsert-Recovers disk entries e ts u n v = record {
    ended = refl;
    map = Dict.insert e.session_id e v.map;
    loads =
        load-snoc disk (whole (upsert_record e ts)) v.ended
        ∙ ap (λ x. x >>= apply_op normalize upsert_session (upsert_record e ts)) v.loads
        ∙ ap (λ x. x >>= λ entry. ok (Dict.insert entry.session_id entry v.map))
            (normalized-normal e n);
    same = λ id.
        get-insert e.session_id id e v.map
        ∙ ap (λ o. if str_eq e.session_id id then some e else o) (v.same id)
        ∙ sym (find-upsert id e entries u);
  }

  pub remove-Recovers :
      (disk : Disk) (entries : List IndexSessionEntry) (gone ts : String)
      → Unique entries
      → Recovers disk entries
      → Recovers
          (write_line (whole (delete_record gone ts)) true disk)
          (remove_memory_entry gone entries)
  remove-Recovers disk entries gone ts u v = record {
    ended = refl;
    map = Dict.remove gone v.map;
    loads =
        load-snoc disk (whole (delete_record gone ts)) v.ended
        ∙ ap (λ x. x >>= apply_op normalize delete_session (delete_record gone ts)) v.loads;
    same = λ id.
        get-remove gone id v.map
        ∙ ap (λ o. if str_eq gone id then none else o) (v.same id)
        ∙ sym (find-remove id gone entries u);
  }

  -- The entry if it is among these, else what the map has.
  abbrev found_or : Option IndexSessionEntry → Option IndexSessionEntry → Option IndexSessionEntry
  found_or none o = o
  found_or (some e) o = some e

  lacks-none :
      (id : String) (xs : List IndexSessionEntry) → lacks id xs ≡ true → find_entry id xs ≡ none
  unfolding find_entry
  lacks-none id [] h = refl
  lacks-none id (x ∷ xs) h = ground (arith, lacks-none id xs)

  record Collects (xs : List IndexSessionEntry) (m : Dict IndexSessionEntry) : Type 0 where
    map : Dict IndexSessionEntry
    loads : collect_entries normalize xs m ≡ ok map
    same : (id : String) → Dict.get id map ≡ found_or (find_entry id xs) (Dict.get id m)

  collect-found :
      (id : String) (x : IndexSessionEntry) (xs : List IndexSessionEntry)
      (m : Dict IndexSessionEntry)
      → lacks x.session_id xs ≡ true
      → found_or (find_entry id xs) (Dict.get id (Dict.insert x.session_id x m))
        ≡ found_or (find_entry id (x ∷ xs)) (Dict.get id m)
  unfolding find_entry
  collect-found id x xs m h = elim (Bool-cases (str_eq x.session_id id)) [
    | inl y ↦
        rw (get-insert x.session_id id x m, y)
          (ap (λ o. found_or o (some x))
            (lacks-none id xs
              (subst (λ i. lacks i xs ≡ true) ((str_eq_iff x.session_id id).0 y) h)))
    | inr n ↦ rw (get-insert x.session_id id x m, n) refl
  ]

  collect-Collects :
      (xs : List IndexSessionEntry) (m : Dict IndexSessionEntry)
      → Unique xs
      → all is_normal xs ≡ true
      → Collects xs m
  unfolding collect_entries find_entry
  collect-Collects [] m u n = record { map = m; loads = refl; same = λ id. refl }
  collect-Collects (x ∷ xs) m (h, u) n =
      let c = collect-Collects xs (Dict.insert x.session_id x m) u (ground arith) in
      record {
        map = c.map;
        loads =
            ap
              (λ r.
                r >>= λ entry. collect_entries normalize xs (Dict.insert entry.session_id entry m))
              (normalized-normal x (ground arith))
            ∙ c.loads;
        same = λ id. c.same id ∙ collect-found id x xs m h;
      }

  -- A new snapshot with an empty log stands for the entries.
  pub record Loads (o : Option (Option SessionIndexSnapshot)) (entries : List IndexSessionEntry)
      : Type 0 where
    pub map : Dict IndexSessionEntry
    pub loads : load_snapshot normalize o ≡ ok map
    pub same : (id : String) → Dict.get id map ≡ find_entry id entries

  found_or-none : (o : Option IndexSessionEntry) → found_or o none ≡ o
  found_or-none none = refl
  found_or-none (some e) = refl

  pub snapshot-Loads :
      (snapshot : SessionIndexSnapshot)
      → snapshot.schema_version ≡ 1
      → Unique snapshot.sessions
      → all is_normal snapshot.sessions ≡ true
      → Loads (some (some snapshot)) snapshot.sessions
  unfolding load_snapshot Dict.get
  snapshot-Loads snapshot one u n =
      let c = collect-Collects snapshot.sessions [] u n in
      record {
        map = c.map;
        loads = rw one c.loads;
        same = λ id. c.same id ∙ found_or-none (find_entry id snapshot.sessions);
      }

  pub snapshot-Recovers :
      (disk : Disk) (snapshot : SessionIndexSnapshot)
      → snapshot.schema_version ≡ 1
      → Unique snapshot.sessions
      → all is_normal snapshot.sessions ≡ true
      → Recovers
          (record disk { snapshot = some (some snapshot); log = []; log_ended = true })
          snapshot.sessions
  unfolding load_entries_snapshot_and_log replay_log
  snapshot-Recovers disk snapshot one u n =
      let c = snapshot-Loads snapshot one u n in
      record { ended = refl; map = c.map; loads = ap (λ x. x >>= ok) c.loads; same = c.same }
