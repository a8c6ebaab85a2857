-- ===== src/Gateway/Transcript/Sessions.antt =====
-- transcript/store.rs: the transcripts of all sessions. The `time` crate's reading of a date is a parameter. The
-- warnings that a recovery returns are left out.
use open_jax.Prelude.{
  ℕ, max, String, Bool, true, false, Option, none, some, [], ◌∷◌, ltb, if◌then◌else◌,
}
use open_jax.Prelude.Results.{Result, ok, err}
use open_jax.Prelude.Dict
use open_jax.Prelude.Dict.{Dict}
use open_jax.Gateway.Transcript.{
  TranscriptRecord, TranscriptManifest, Line, SessionDir, Step, Saving, AppendFaults, append,
  recover_manifest_from_tail_if_needed, rotate_if_active_segment_unwritable,
}

pub record TranscriptStore : Type 0 where
  pub segment_max_bytes : ℕ
  pub sessions : Dict SessionDir

abbrev pub with_segment_max_bytes : Dict SessionDir → ℕ → TranscriptStore
with_segment_max_bytes sessions segment_max_bytes = record {
  segment_max_bytes = max segment_max_bytes 1;
  sessions = sessions;
}

abbrev pub dir_or_empty : Option SessionDir → SessionDir
dir_or_empty none = record { manifest = none; segments = [] }
dir_or_empty (some dir) = dir

abbrev pub with_dir {ℓ} :
    {A : Type ℓ} → String → Result A × SessionDir → TranscriptStore → Result A × TranscriptStore
with_dir session_id (x, dir) store =
    (x, record store { sessions = Dict.insert session_id dir store.sessions })

unfoldable pub append_to_session :
    (Line → ℕ)
    → AppendFaults
    → TranscriptRecord
    → TranscriptStore
    → Result TranscriptRecord × TranscriptStore
unfolding append Dict.get Dict.insert
append_to_session line_bytes f r store =
    with_dir r.session_id
      (append line_bytes store.segment_max_bytes f r
        (dir_or_empty (Dict.get r.session_id store.sessions)))
      store

-- A call on a session that does nothing where there is no manifest.
abbrev pub on_manifest :
    (TranscriptManifest → SessionDir → Step)
    → String
    → Option (Option TranscriptManifest)
    → SessionDir
    → TranscriptStore
    → Result (Option TranscriptManifest) × TranscriptStore
on_manifest step session_id none dir store = (ok none, store)
on_manifest step session_id (some none) dir store = (err "parse transcript manifest", store)
on_manifest step session_id (some (some manifest)) dir store = with_found (step manifest dir)
  where
    with_found : Step → Result (Option TranscriptManifest) × TranscriptStore
    with_found (ok m, d) = with_dir session_id (ok (some m), d) store
    with_found (err e, d) = with_dir session_id (err e, d) store

abbrev pub on_session :
    (TranscriptManifest → SessionDir → Step)
    → String
    → TranscriptStore
    → Result (Option TranscriptManifest) × TranscriptStore
on_session step session_id store =
    let dir = dir_or_empty (Dict.get session_id store.sessions) in
    on_manifest step session_id dir.manifest dir store

unfoldable pub recover_manifest_from_active_segment_tail :
    Saving → String → TranscriptStore → Result (Option TranscriptManifest) × TranscriptStore
unfolding recover_manifest_from_tail_if_needed Dict.get Dict.insert
recover_manifest_from_active_segment_tail saving session_id store =
    on_session (recover_manifest_from_tail_if_needed saving) session_id store

unfoldable pub rotate_when_active_segment_unwritable :
    Saving → String → TranscriptStore → Result (Option TranscriptManifest) × TranscriptStore
unfolding rotate_if_active_segment_unwritable Dict.get Dict.insert
rotate_when_active_segment_unwritable saving session_id store =
    on_session (rotate_if_active_segment_unwritable saving) session_id store

unfoldable pub delete_session : String → TranscriptStore → TranscriptStore
unfolding Dict.remove
delete_session session_id store = record store { sessions = Dict.remove session_id store.sessions }

-- A session without a manifest, or with a date that cannot be read, stays; a manifest that cannot be parsed ends
-- the sweep.
abbrev pub is_before : ℕ → Option ℕ → Bool
is_before cutoff none = false
is_before cutoff (some at) = ltb at cutoff

abbrev pub is_expired : (String → Option ℕ) → ℕ → TranscriptManifest → Bool
is_expired parse cutoff manifest = is_before cutoff (parse manifest.updated_at)

-- One directory, before those that are read after it.
abbrev pub gc_session :
    (String → Option ℕ)
    → ℕ
    → String
    → SessionDir
    → Option (Option TranscriptManifest)
    → Dict SessionDir
    → Result Bool × Dict SessionDir
    → Result Bool × Dict SessionDir
gc_session parse cutoff session_id dir none rest later = (later.0, (session_id, dir) ∷ later.1)
gc_session parse cutoff session_id dir (some none) rest later =
    (err "parse transcript manifest", (session_id, dir) ∷ rest)
gc_session parse cutoff session_id dir (some (some manifest)) rest later =
    if is_expired parse cutoff manifest then later else (later.0, (session_id, dir) ∷ later.1)

abbrev pub gc_sessions : (String → Option ℕ) → ℕ → Dict SessionDir → Result Bool × Dict SessionDir
gc_sessions parse cutoff [] = (ok true, [])
gc_sessions parse cutoff ((session_id, dir) ∷ rest) =
    gc_session parse cutoff session_id dir dir.manifest rest (gc_sessions parse cutoff rest)

unfoldable pub gc : (String → Option ℕ) → ℕ → TranscriptStore → Result Bool × TranscriptStore
gc parse cutoff store =
    let swept = gc_sessions parse cutoff store.sessions in
    (swept.0, record store { sessions = swept.1 })
