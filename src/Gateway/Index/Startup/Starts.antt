-- ===== src/Gateway/Index/Startup/Starts.antt =====
-- session_index_store.rs: what a start gives.
use open_jax.Prelude.{
  ℕ, String, ◌≡◌, refl, sym, ap, ◌∙◌, subst, Bool, true, false, Option, some, [], is_some,
  if◌then◌else◌, Bool-cases, inl, inr,
}
use open_jax.Prelude.Results.{Result, ok, err, is_ok, ◌>>=◌}
use open_jax.Prelude.Dict
use open_jax.Prelude.Dict.{Dict, get-insert, get-remove}
use open_jax.Gateway.Index.Types.{IndexSessionEntry, LogLine, SessionMetadata}
use open_jax.Gateway.Index.Entries.{find_entry}
use open_jax.Gateway.Index.Disk.{Disk, load_entries_snapshot_and_log, scan_sessions_metadata}
use open_jax.Gateway.Index.Order.{sort-Unique, sort-Descends, all-sort, find-sort}
use open_jax.Gateway.Index.Replay.{is_normal, snapshot-Recovers, Result-cases, ok_inj}
use open_jax.Gateway.Index.Store.{SessionIndexStore, is_healthy, snapshot_of}
use open_jax.Gateway.Index.Sound.{IsSound}
use open_jax.Gateway.Index.Startup.{
  values, Loaded, audited, opened, rebuild_from_sessions_dir, loaded_or_rebuilt, load,
  startup_audit, load_with_recovery_or_fail,
}
use open_jax.Gateway.Index.Startup.Maps.{
  IsProper, values-normal, IsProper-Unique, find-IsProper, ResultProper, load-ResultProper,
}
use open_jax.Gateway.Index.Startup.Scans.{
  has_directory, all_readable, scan-ok, Scans, ResultScans, scan-ResultScans,
}
use open_jax.Gateway.Index.Startup.Audit.{Stands, audited-Stands, audited-has, audited_sessions}

module _ (normalize : String → Option String) (line_bytes : LogLine → ℕ) where
  -- The index is sound and healthy, and its sessions are those that have a directory.
  pub record IsStarted (s : SessionIndexStore) : Type 0 where
    pub sound : IsSound normalize line_bytes s
    pub is_open : is_healthy s.health ≡ true
    pub unmarked : s.disk.repair_marker ≡ false
    pub listed :
        (id : String) → is_some (find_entry id s.entries) ≡ has_directory id s.disk.sessions

  opened-IsSound : (l : Loaded) → Stands normalize l → IsSound normalize line_bytes (opened l)
  unfolding load_entries_snapshot_and_log
  opened-IsSound l v =
      let u = IsProper-Unique normalize l.0 v.proper in
      record {
        unique = sort-Unique (values l.0) u;
        descends = sort-Descends (values l.0) u;
        normal =
            all-sort (is_normal normalize) (values l.0)
            ∙ values-normal normalize l.0 v.proper.proper;
        recovers = λ h. record {
          ended = v.ended;
          map = v.map;
          loads = v.loads;
          same = λ id.
              v.same id
              ∙ sym (find-sort id (values l.0) u ∙ find-IsProper normalize id l.0 v.proper);
        };
      }

  opened-listed :
      (now id : String) (on_disk : Dict IndexSessionEntry) (l : Loaded)
      → Stands normalize (audited now on_disk l)
      → is_some (find_entry id (opened (audited now on_disk l)).entries)
        ≡ is_some (Dict.get id on_disk)
  opened-listed now id on_disk l v =
      ap is_some (
        find-sort id (values (audited now on_disk l).0)
          (IsProper-Unique normalize (audited now on_disk l).0 v.proper)
        ∙ find-IsProper normalize id (audited now on_disk l).0 v.proper)
      ∙ audited-has now id on_disk l

  module _ (normal_again : (t u : String) → normalize t ≡ some u → normalize u ≡ some u) where
    -- What was read, or rebuilt, stands on the disk, and the directories are those of before.
    record IsLoaded (disk : Disk) (l : Loaded) : Type 0 where
      stands : disk.log_ended ≡ true → Stands normalize l
      kept : (l.1).sessions ≡ disk.sessions
      numbered : (l.1).last_seqs ≡ disk.last_seqs

    rebuilt-Stands :
        (now : String) (disk : Disk) (found : Dict IndexSessionEntry)
        → IsProper normalize found
        → IsLoaded disk (
          found,
          record disk {
            snapshot = some (some (snapshot_of now (values found)));
            log = [];
            log_ended = true;
          },
        )
    rebuilt-Stands now disk found p =
        let r =
          snapshot-Recovers normalize disk (snapshot_of now (values found)) refl
            (IsProper-Unique normalize found p) (values-normal normalize found p.proper) in
        record {
          stands = λ w. record {
            ended = refl;
            proper = p;
            map = r.map;
            loads = r.loads;
            same = λ id. r.same id ∙ find-IsProper normalize id found p;
          };
          kept = refl;
          numbered = refl;
        }

    read-Stands :
        (disk : Disk) (m : Dict IndexSessionEntry)
        → load_entries_snapshot_and_log normalize disk ≡ ok m
        → IsLoaded disk (m, disk)
    read-Stands disk m h = record {
      stands = λ w. record {
        ended = w;
        proper =
            subst (ResultProper normalize normal_again) h
              (load-ResultProper normalize normal_again disk);
        map = m;
        loads = h;
        same = λ id. refl;
      };
      kept = refl;
      numbered = refl;
    }

    -- The scan, if it has a result.
    scan-Scans :
        (sessions : Dict (Option SessionMetadata)) (seqs : Dict (Option ℕ))
        (found : Dict IndexSessionEntry)
        → scan_sessions_metadata normalize sessions seqs ≡ ok found
        → Scans normalize normal_again sessions found
    scan-Scans sessions seqs found h =
        subst (ResultScans normalize normal_again sessions) h
          (scan-ResultScans normalize normal_again sessions seqs)

    rebuild-IsLoaded :
        (now : String) (disk : Disk) (l : Loaded)
        → rebuild_from_sessions_dir normalize now disk ≡ ok l
        → IsLoaded disk l
    rebuild-IsLoaded now disk l h =
        elim (Result-cases (scan_sessions_metadata normalize disk.sessions disk.last_seqs)) [
          | inl (found, e) ↦
              let k = rw e at h in
              subst (IsLoaded disk) (ok_inj _ _ k) (
                rebuilt-Stands now disk found
                  (scan-Scans disk.sessions disk.last_seqs found e).proper)
          | inr (m, e) ↦ let k = rw e at h in cc
        ]

    read_or_rebuilt-IsLoaded :
        (now : String) (disk : Disk) (l : Loaded) (x : Result (Dict IndexSessionEntry))
        → load_entries_snapshot_and_log normalize disk ≡ x
        → loaded_or_rebuilt normalize now disk x ≡ ok l
        → IsLoaded disk l
    read_or_rebuilt-IsLoaded now disk l (ok m) e h =
        subst (IsLoaded disk) (ok_inj _ _ h) (read-Stands disk m e)
    read_or_rebuilt-IsLoaded now disk l (err m) e h = rebuild-IsLoaded now disk l h

    load-IsLoaded :
        (now : String) (disk : Disk) (l : Loaded) → load normalize now disk ≡ ok l → IsLoaded disk l
    load-IsLoaded now disk l h =
        let by : Bool → Result Loaded = λ b.
          if b
          then rebuild_from_sessions_dir normalize now disk
          else loaded_or_rebuilt normalize now disk
              (load_entries_snapshot_and_log normalize disk) in
        elim (Bool-cases disk.repair_marker) [
          | inl y ↦ rebuild-IsLoaded now disk l (sym (ap by y) ∙ h)
          | inr n ↦
              read_or_rebuilt-IsLoaded now disk l (load_entries_snapshot_and_log normalize disk)
                refl (sym (ap by n) ∙ h)
        ]

    audited-IsStarted :
        (now : String) (disk : Disk) (on_disk : Dict IndexSessionEntry) (l : Loaded)
        → Scans normalize normal_again (l.1).sessions on_disk
        → Stands normalize l
        → IsStarted (opened (audited now on_disk l))
    audited-IsStarted now disk on_disk l f v =
        let a = audited-Stands normalize now on_disk l f.proper v in
        record {
          sound = opened-IsSound _ a;
          is_open = refl;
          unmarked = refl;
          listed = λ id.
              opened-listed now id on_disk l a
              ∙ f.listed id
              ∙ ap (has_directory id) (sym (audited_sessions now on_disk l));
        }

    opened-IsStarted :
        (now : String) (disk : Disk) (l : Loaded) (s : SessionIndexStore)
        → IsLoaded disk l
        → disk.log_ended ≡ true
        → (startup_audit normalize now l >>= λ a. ok (opened a)) ≡ ok s
        → IsStarted s
    opened-IsStarted now disk l s v w h =
        elim (Result-cases (scan_sessions_metadata normalize (l.1).sessions (l.1).last_seqs)) [
          | inl (on_disk, e) ↦
              subst IsStarted
                (ok_inj _ _
                  (sym (ap (λ x. (x >>= λ d. ok (audited now d l)) >>= λ a. ok (opened a)) e) ∙ h))
                (audited-IsStarted now disk on_disk l
                  (scan-Scans (l.1).sessions (l.1).last_seqs on_disk e) (v.stands w))
          | inr (m, e) ↦
              cc (sym (ap (λ x. (x >>= λ d. ok (audited now d l)) >>= λ a. ok (opened a)) e) ∙ h)
        ]

    -- If the last line of the log has its newline, a start that succeeds gives an index that is sound, healthy and without a repair marker, and whose sessions are
    -- exactly those that have a directory with metadata in their name; whatever the snapshot and the log held.
    pub load-IsStarted :
        (now : String) (disk : Disk) (s : SessionIndexStore)
        → disk.log_ended ≡ true
        → load_with_recovery_or_fail normalize now disk ≡ ok s
        → IsStarted s
    unfolding load_with_recovery_or_fail
    load-IsStarted now disk s w h = elim (Result-cases (load normalize now disk)) [
      | inl (l, e) ↦
          opened-IsStarted now disk l s (load-IsLoaded now disk l e) w
            (sym (ap (λ x. x >>= λ k. startup_audit normalize now k >>= λ a. ok (opened a)) e) ∙ h)
      | inr (m, e) ↦
          cc (sym (ap (λ x. x >>= λ k. startup_audit normalize now k >>= λ a. ok (opened a)) e) ∙ h)
    ]

    rebuild-ok :
        (now : String) (disk : Disk)
        → all_readable normalize disk.sessions disk.last_seqs ≡ true
        → is_ok (rebuild_from_sessions_dir normalize now disk) ≡ true
    rebuild-ok now disk h =
        elim (Result-cases (scan_sessions_metadata normalize disk.sessions disk.last_seqs)) [
          | inl (found, e) ↦ rw e refl
          | inr (m, e) ↦ cc (sym (ap is_ok e) ∙ scan-ok normalize disk.sessions disk.last_seqs h)
        ]

    read_or_rebuilt-ok :
        (now : String) (disk : Disk) (x : Result (Dict IndexSessionEntry))
        → all_readable normalize disk.sessions disk.last_seqs ≡ true
        → is_ok (loaded_or_rebuilt normalize now disk x) ≡ true
    read_or_rebuilt-ok now disk (ok m) h = refl
    read_or_rebuilt-ok now disk (err e) h = rebuild-ok now disk h

    read-ok :
        (now : String) (disk : Disk)
        → all_readable normalize disk.sessions disk.last_seqs ≡ true
        → is_ok (load normalize now disk) ≡ true
    read-ok now disk h =
        let by : Bool → Bool = λ b. is_ok (
          if b
          then rebuild_from_sessions_dir normalize now disk
          else loaded_or_rebuilt normalize now disk
              (load_entries_snapshot_and_log normalize disk)) in
        elim (Bool-cases disk.repair_marker) [
          | inl y ↦ ap by y ∙ rebuild-ok now disk h
          | inr n ↦
              ap by n ∙ read_or_rebuilt-ok now disk (load_entries_snapshot_and_log normalize disk) h
        ]

    audit-ok :
        (now : String) (disk : Disk) (l : Loaded)
        → IsLoaded disk l
        → all_readable normalize disk.sessions disk.last_seqs ≡ true
        → is_ok (startup_audit normalize now l >>= λ a. ok (opened a)) ≡ true
    audit-ok now disk l v h =
        elim (Result-cases (scan_sessions_metadata normalize (l.1).sessions (l.1).last_seqs)) [
          | inl (d, e) ↦
              ap (λ x. is_ok ((x >>= λ d. ok (audited now d l)) >>= λ a. ok (opened a))) e
          | inr (m, e) ↦ cc (
              sym (ap is_ok e)
              ∙ scan-ok normalize (l.1).sessions (l.1).last_seqs (
                  ap (λ m. all_readable normalize m (l.1).last_seqs) v.kept
                  ∙ ap (all_readable normalize disk.sessions) v.numbered
                  ∙ h))
        ]

    -- Where files can be opened and written: if every metadata file can be parsed, and so can the time and the
    -- manifest, if it has one, of every directory with metadata in its name, then a start succeeds, whatever the
    -- snapshot and the log hold.
    pub load_with_recovery-ok :
        (now : String) (disk : Disk)
        → all_readable normalize disk.sessions disk.last_seqs ≡ true
        → is_ok (load_with_recovery_or_fail normalize now disk) ≡ true
    unfolding load_with_recovery_or_fail
    load_with_recovery-ok now disk h = elim (Result-cases (load normalize now disk)) [
      | inl (l, e) ↦
          ap (λ x. is_ok (x >>= λ k. startup_audit normalize now k >>= λ a. ok (opened a))) e
          ∙ audit-ok now disk l (load-IsLoaded now disk l e) h
      | inr (m, e) ↦ cc (sym (ap is_ok e) ∙ read-ok now disk h)
    ]
