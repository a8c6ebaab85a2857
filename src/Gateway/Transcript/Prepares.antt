-- ===== src/Gateway/Transcript/Prepares.antt =====
-- transcript/store.rs: the first half of an append keeps the records.
use open_jax.Prelude.{
  ℕ, ◌+◌, ◌<◌, ◌≤◌, String, ◌≡◌, refl, sym, ◌∙◌, subst, true, Option, none, some, List, arith,
}
use open_jax.Prelude.Results.{ok, err}
use open_jax.Prelude.Words.{u64_mod}
use open_jax.Gateway.Transcript.{
  TranscriptRecord, TranscriptManifest, new_empty, SessionDir, Saving, AppendFaults, Step,
  then_step, started, rotate_if_active_segment_unwritable, recover_manifest_from_tail_if_needed,
  prepared,
}
use open_jax.Gateway.Transcript.Numbers.{manifest_or, is_readable, saved, IsSound, IsReady}
use open_jax.Gateway.Transcript.Opens.{StepReady, is_uncut, recover-StepReady}
use open_jax.Gateway.Transcript.Rotates.{StepOpened, rotate-StepOpened}

-- The manifest that an append starts with is the one on disk, or a new one.
started-active :
    (o : Option (Option TranscriptManifest)) (session_id t u : String)
    → (manifest_or o (new_empty session_id t)).active_segment
      ≡ (manifest_or o (new_empty session_id u)).active_segment
started-active none session_id t u = refl
started-active (some none) session_id t u = refl
started-active (some (some m)) session_id t u = refl

started-last :
    (o : Option (Option TranscriptManifest)) (session_id t u : String)
    → (manifest_or o (new_empty session_id t)).last_event_seq
      ≡ (manifest_or o (new_empty session_id u)).last_event_seq
started-last none session_id t u = refl
started-last (some none) session_id t u = refl
started-last (some (some m)) session_id t u = refl

started-own :
    (o : Option (Option TranscriptManifest)) (session_id t u : String)
    → (manifest_or o (new_empty session_id t)).session_id
      ≡ (manifest_or o (new_empty session_id u)).session_id
started-own none session_id t u = refl
started-own (some none) session_id t u = refl
started-own (some (some m)) session_id t u = refl

-- The first half of an append, of a directory with this active segment.
abbrev pub StepPrepared : String → List TranscriptRecord → ℕ → Step → Type 0
StepPrepared session_id rs n (ok m, dir) =
    (IsReady session_id rs m dir × ((saved session_id dir).active_segment ≡ m.active_segment))
    × (m.active_segment ≤ n + 1)
StepPrepared session_id rs n (err e, dir) = IsSound session_id rs dir

opened-StepPrepared :
    (session_id : String) (rs : List TranscriptRecord) (n : ℕ) (m : TranscriptManifest)
    (dir : SessionDir) (x : Step)
    → (saved session_id dir).active_segment ≡ m.active_segment
    → m.active_segment ≡ n
    → StepOpened session_id rs m dir x
    → StepPrepared session_id rs n x
opened-StepPrepared session_id rs n m dir (ok m1, d) e a v =
    ((v.ready, v.kept e), omega (arith, v.near, a))
opened-StepPrepared session_id rs n m dir (err k, d) e a v = v

ready-StepPrepared :
    (session_id : String) (rs : List TranscriptRecord) (saving : Saving) (n : ℕ) (x : Step)
    → is_uncut saving ≡ true
    → n + 1 < u64_mod
    → StepReady session_id rs n x
    → StepPrepared session_id rs n (then_step x (rotate_if_active_segment_unwritable saving))
ready-StepPrepared session_id rs saving n (ok m, dir) c b ((v, e), a) =
    opened-StepPrepared session_id rs n m dir (rotate_if_active_segment_unwritable saving m dir) e a
      (rotate-StepOpened session_id rs saving m dir c (omega (arith, a)) v)
ready-StepPrepared session_id rs saving n (err k, dir) c b v = v

started-readable :
    (o : Option (Option TranscriptManifest)) (new : TranscriptManifest) (dir : SessionDir)
    → is_readable o ≡ true
    → started o new dir ≡ (ok (manifest_or o new), dir)
started-readable none new dir h = refl
started-readable (some none) new dir h = cc
started-readable (some (some m)) new dir h = refl

pub prepared-StepPrepared :
    (session_id : String) (rs : List TranscriptRecord) (f : AppendFaults) (r : TranscriptRecord)
    (dir : SessionDir)
    → r.session_id ≡ session_id
    → is_uncut f.recovery ≡ true
    → is_uncut f.first_rotation ≡ true
    → (saved session_id dir).active_segment + 1 < u64_mod
    → IsSound session_id rs dir
    → StepPrepared session_id rs (saved session_id dir).active_segment (prepared f r dir)
unfolding prepared
prepared-StepPrepared session_id rs f r dir s c c1 b v =
    let m = manifest_or dir.manifest (new_empty session_id r.timestamp) in
    let a = started-active dir.manifest session_id "" r.timestamp in
    rw (s, started-readable dir.manifest (new_empty session_id r.timestamp) dir v.readable)
      (subst
        (λ n. StepPrepared session_id rs n (
          then_step (recover_manifest_from_tail_if_needed f.recovery m dir)
            (rotate_if_active_segment_unwritable f.first_rotation)))
        (sym a)
        (ready-StepPrepared session_id rs f.first_rotation m.active_segment
          (recover_manifest_from_tail_if_needed f.recovery m dir) c1 (omega (arith, a))
          (recover-StepReady session_id rs f.recovery m dir c a
            (started-last dir.manifest session_id "" r.timestamp)
            (started-own dir.manifest session_id r.timestamp "" ∙ v.own) v)))
