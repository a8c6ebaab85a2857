-- ===== src/Gateway/Index/Startup/Scans.antt =====
-- session_index_store.rs: the scan of the directories.
use open_jax.Prelude.{
  ℕ, String, ◌≡◌, refl, ap, ◌∙◌, Bool, true, false, ◌&&◌, ◌||◌, not, Option, none, some, [], ◌∷◌,
  is_some, str_eq, str_eq_refl, arith, Bool-cases, inl, inr,
}
use open_jax.Prelude.Results.{Result, ok, err, is_ok, ◌>>=◌}
use open_jax.Prelude.Dict
use open_jax.Prelude.Dict.{Dict, get-insert, get-remove, IsKeyed, insert-IsKeyed, remove-IsKeyed}
use open_jax.Gateway.Index.Types.{IndexSessionEntry, SessionMetadata}
use open_jax.Gateway.Index.Disk.{
  with_updated_at, read_last_event_seq, scanned_entry, scan_sessions_metadata,
}
use open_jax.Gateway.Index.Startup.Maps.{IsProper, insert-IsProper, empty-IsProper}

-- There is a directory of this name, whose metadata names the session.
abbrev pub has_directory : String → Dict (Option SessionMetadata) → Bool
has_directory id [] = false
has_directory id ((name, none) ∷ sessions) = has_directory id sessions
has_directory id ((name, some metadata) ∷ sessions) =
    (str_eq name id && str_eq metadata.session_id name) || has_directory id sessions

-- A number, or no manifest.
abbrev is_read : Option (Option ℕ) → Bool
is_read none = true
is_read (some none) = false
is_read (some (some seq)) = true

module _ (normalize : String → Option String) where
  -- Every metadata file can be parsed; and so can the manifest, if there is one, and the time of every directory
  -- whose metadata is in its name.
  abbrev pub all_readable : Dict (Option SessionMetadata) → Dict (Option ℕ) → Bool
  all_readable [] last_seqs = true
  all_readable ((name, none) ∷ sessions) last_seqs = false
  all_readable ((name, some metadata) ∷ sessions) last_seqs =
      (not (str_eq metadata.session_id name)
        || (is_read (Dict.get name last_seqs) && is_some (normalize metadata.updated_at)))
      && all_readable sessions last_seqs

  entry-ok :
      (entry : Result IndexSessionEntry) (name : String) (rest : Result (Dict IndexSessionEntry))
      → is_ok entry ≡ true
      → is_ok rest ≡ true
      → is_ok (entry >>= λ e. rest >>= λ found. ok (Dict.insert name e found)) ≡ true
  entry-ok (ok e) name (ok found) h k = refl
  entry-ok (ok e) name (err m) h k = cc
  entry-ok (err m) name rest h k = cc

  insert-ok :
      (seq : Option (Option ℕ)) (entry : ℕ → Result IndexSessionEntry) (name : String)
      (rest : Result (Dict IndexSessionEntry))
      → is_read seq ≡ true
      → ((n : ℕ) → is_ok (entry n) ≡ true)
      → is_ok rest ≡ true
      → is_ok (
          read_last_event_seq seq >>= λ n.
          entry n >>= λ e. rest >>= λ found. ok (Dict.insert name e found))
        ≡ true
  insert-ok none entry name rest h k j = entry-ok (entry 0) name rest (k 0) j
  insert-ok (some none) entry name rest h k j = cc
  insert-ok (some (some n)) entry name rest h k j = entry-ok (entry n) name rest (k n) j

  dated-ok :
      (e : IndexSessionEntry) (o : Option String)
      → is_some o ≡ true
      → is_ok (with_updated_at normalize e o) ≡ true
  dated-ok e none h = cc
  dated-ok e (some u) h = refl

  pub scan-ok :
      (sessions : Dict (Option SessionMetadata)) (last_seqs : Dict (Option ℕ))
      → all_readable sessions last_seqs ≡ true
      → is_ok (scan_sessions_metadata normalize sessions last_seqs) ≡ true
  unfolding scan_sessions_metadata Dict.get
  scan-ok [] last_seqs h = refl
  scan-ok ((name, none) ∷ sessions) last_seqs h = cc
  scan-ok ((name, some metadata) ∷ sessions) last_seqs h =
      elim (Bool-cases (str_eq metadata.session_id name)) [
        | inl y ↦ rw y (
            insert-ok (Dict.get name last_seqs) _ name _ (ground arith)
              (λ n.
                dated-ok (scanned_entry metadata n) (normalize metadata.updated_at) (ground arith))
              (scan-ok sessions last_seqs (ground arith)))
        | inr n ↦ rw n (scan-ok sessions last_seqs (ground arith))
      ]

  module _ (normal_again : (t u : String) → normalize t ≡ some u → normalize u ≡ some u) where
    -- What the scan of the directories gives.
    pub record Scans (sessions : Dict (Option SessionMetadata)) (found : Dict IndexSessionEntry)
        : Type 0 where
      pub proper : IsProper normalize found
      pub listed : (id : String) → is_some (Dict.get id found) ≡ has_directory id sessions

    abbrev pub ResultScans :
        Dict (Option SessionMetadata) → Result (Dict IndexSessionEntry) → Type 0
    ResultScans sessions (ok found) = Scans sessions found
    ResultScans sessions (err e) = Unit {0}

    scan-next :
        (name : String) (metadata : SessionMetadata) (sessions : Dict (Option SessionMetadata))
        (seq : ℕ) (o : Option String) (rest : Result (Dict IndexSessionEntry))
        → str_eq metadata.session_id name ≡ true
        → normalize metadata.updated_at ≡ o
        → ResultScans sessions rest
        → ResultScans ((name, some metadata) ∷ sessions) (
            with_updated_at normalize (scanned_entry metadata seq) o >>= λ entry.
            rest >>= λ found. ok (Dict.insert name entry found))
    scan-next name metadata sessions seq none rest e h v = tt
    scan-next name metadata sessions seq (some u) (err m) e h v = tt
    scan-next name metadata sessions seq (some u) (ok found) e h v = record {
      proper =
          insert-IsProper normalize name _ found
            (rw (e, normal_again metadata.updated_at u h) (str_eq_refl u)) v.proper;
      listed = λ id. ap is_some (get-insert name id _ found) ∙ ground (arith, v.listed id, e);
    }

    scan-read :
        (name : String) (metadata : SessionMetadata) (sessions : Dict (Option SessionMetadata))
        (seq : Option (Option ℕ)) (rest : Result (Dict IndexSessionEntry))
        → str_eq metadata.session_id name ≡ true
        → ResultScans sessions rest
        → ResultScans ((name, some metadata) ∷ sessions) (
            read_last_event_seq seq >>= λ n.
            with_updated_at normalize (scanned_entry metadata n) (normalize metadata.updated_at)
            >>= λ entry. rest >>= λ found. ok (Dict.insert name entry found))
    scan-read name metadata sessions none rest e v =
        scan-next name metadata sessions 0 (normalize metadata.updated_at) rest e refl v
    scan-read name metadata sessions (some none) rest e v = tt
    scan-read name metadata sessions (some (some n)) rest e v =
        scan-next name metadata sessions n (normalize metadata.updated_at) rest e refl v

    scan-skipped :
        (name : String) (metadata : SessionMetadata) (sessions : Dict (Option SessionMetadata))
        (rest : Result (Dict IndexSessionEntry))
        → str_eq metadata.session_id name ≡ false
        → ResultScans sessions rest
        → ResultScans ((name, some metadata) ∷ sessions) rest
    scan-skipped name metadata sessions (err m) e v = tt
    scan-skipped name metadata sessions (ok found) e v = record {
      proper = v.proper;
      listed = λ id. v.listed id ∙ ground (arith, e);
    }

    pub scan-ResultScans :
        (sessions : Dict (Option SessionMetadata)) (last_seqs : Dict (Option ℕ))
        → ResultScans sessions (scan_sessions_metadata normalize sessions last_seqs)
    unfolding scan_sessions_metadata Dict.get
    scan-ResultScans [] last_seqs = record {
      proper = empty-IsProper normalize normal_again;
      listed = λ id. refl;
    }
    scan-ResultScans ((name, none) ∷ sessions) last_seqs = tt
    scan-ResultScans ((name, some metadata) ∷ sessions) last_seqs =
        elim (Bool-cases (str_eq metadata.session_id name)) [
          | inl y ↦ rw y (
              scan-read name metadata sessions (Dict.get name last_seqs) _ y
                (scan-ResultScans sessions last_seqs))
          | inr n ↦
              rw n (scan-skipped name metadata sessions _ n (scan-ResultScans sessions last_seqs))
        ]
