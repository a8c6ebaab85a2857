-- ===== src/Gateway/Transcript/Runs.antt =====
-- transcript/store.rs: sequences of appends, and replays after them.
use open_jax.Prelude.{
  ℕ, ◌+◌, ◌<◌, ◌≤◌, String, ◌≡◌, sym, subst, true, Option, some, List, [], ◌∷◌, ◌++◌, keep, length,
  length-append, arith, inl, inr, append_nil, append_assoc, Elem, here, there, Elem-keep_of,
}
use open_jax.Prelude.Results.{Result, ok, err}
use open_jax.Prelude.Words.{u64_mod}
use open_jax.Gateway.Transcript.{
  TranscriptRecord, TranscriptManifest, Line, SessionDir, AppendFaults, append, is_later, replay,
}
use open_jax.Gateway.Transcript.Numbers.{saved, IsSound}
use open_jax.Gateway.Transcript.Appends.{AppendOutcome, are_kept, rotates, append-AppendOutcome}
use open_jax.Gateway.Transcript.Replays.{all_files, replay-kept, IsAfter, after-is_later}

-- An append that is tried, and how its steps end.
pub record Attempt : Type 0 where
  pub faults : AppendFaults
  pub given : TranscriptRecord

-- A record that was returned, before the later ones.
abbrev pub with_ack : Result TranscriptRecord → List TranscriptRecord → List TranscriptRecord
with_ack (ok r) rs = r ∷ rs
with_ack (err e) rs = rs

Elem-after :
    {r : TranscriptRecord} {ys : List TranscriptRecord} (xs : List TranscriptRecord)
    → Elem r ys
    → Elem r (xs ++ ys)
Elem-after [] m = m
Elem-after (x ∷ xs) m = there (Elem-after xs m)

module _ (line_bytes : Line → ℕ) (segment_max_bytes : ℕ) where
  abbrev pub append_all : List Attempt → SessionDir → SessionDir
  append_all [] dir = dir
  append_all (a ∷ tries) dir =
      append_all tries ((append line_bytes segment_max_bytes a.faults a.given dir).1)

  -- The records that the appends return.
  abbrev pub acks : List Attempt → SessionDir → List TranscriptRecord
  acks [] dir = []
  acks (a ∷ tries) dir =
      let x = append line_bytes segment_max_bytes a.faults a.given dir in
      with_ack x.0 (acks tries x.1)

  -- The appends are of the session; no line and no manifest is cut, no manifest is lost together with a rotation by
  -- size, and the numbers of the segments stay in their range.
  abbrev pub AreKept : String → List Attempt → SessionDir → Type 0
  AreKept session_id [] dir = Unit {0}
  AreKept session_id (a ∷ tries) dir =
      (((a.given).session_id ≡ session_id)
        × ((saved session_id dir).active_segment + 3 < u64_mod)
        × (are_kept a.faults (rotates line_bytes segment_max_bytes a.faults a.given dir) ≡ true))
      × AreKept session_id tries ((append line_bytes segment_max_bytes a.faults a.given dir).1)

-- What a sequence of appends leaves: the records, those that were added, and among them every one that an append
-- returned.
pub record IsRun (session_id : String) (rs : List TranscriptRecord) (end_dir : SessionDir)
    (acked_ones : List TranscriptRecord) : Type 0 where
  pub added : List TranscriptRecord
  pub sound : IsSound session_id (rs ++ added) end_dir
  pub acked : (r : TranscriptRecord) → Elem r acked_ones → Elem r added

with_ack-cases :
    (r q : TranscriptRecord) (rs added : List TranscriptRecord)
    → (Elem q rs → Elem q added)
    → Elem q (r ∷ rs)
    → Elem q (r ∷ added)
with_ack-cases r q rs added h (here e) = here e
with_ack-cases r q rs added h (there m) = there (h m)

added-IsSound :
    (session_id : String) (rs : List TranscriptRecord) (r : TranscriptRecord)
    (added : List TranscriptRecord) (end_dir : SessionDir)
    → IsSound session_id ((rs ++ r ∷ []) ++ added) end_dir
    → IsSound session_id (rs ++ r ∷ added) end_dir
added-IsSound session_id rs r added end_dir v =
    subst (λ ls. IsSound session_id ls end_dir) (append_assoc rs (r ∷ []) added) v

outcome-IsRun :
    (session_id : String) (rs : List TranscriptRecord) (x : Result TranscriptRecord × SessionDir)
    (end_dir : SessionDir) (acked_ones : List TranscriptRecord)
    → ((ls : List TranscriptRecord)
        → length ls ≤ length rs + 1
        → IsSound session_id ls x.1
        → IsRun session_id ls end_dir acked_ones)
    → AppendOutcome session_id rs x
    → IsRun session_id rs end_dir (with_ack x.0 acked_ones)
outcome-IsRun session_id rs (ok r, d) end_dir acked_ones ih v =
    let w = ih (rs ++ r ∷ []) (omega (arith, length-append rs (r ∷ []))) v in
    record {
      added = r ∷ w.added;
      sound = added-IsSound session_id rs r w.added end_dir w.sound;
      acked = λ q m. with_ack-cases r q acked_ones w.added (w.acked q) m;
    }
outcome-IsRun session_id rs (err k, d) end_dir acked_ones ih (inl v) = ih rs (omega arith) v
outcome-IsRun session_id rs (err k, d) end_dir acked_ones ih (inr (r, v)) =
    let w = ih (rs ++ r ∷ []) (omega (arith, length-append rs (r ∷ []))) v in
    record {
      added = r ∷ w.added;
      sound = added-IsSound session_id rs r w.added end_dir w.sound;
      acked = λ q m. there (w.acked q m);
    }

module _ (line_bytes : Line → ℕ) (segment_max_bytes : ℕ) where
  -- After any sequence of appends to a sound directory, where no write stops inside a line, before its newline or
  -- inside the manifest, no manifest is lost together with a rotation by size and the numbers stay in their ranges:
  -- the records are those of before and then added ones, with the numbers 1, 2 and so on without a gap or a
  -- repetition, also where appends fail before they write their line or because a manifest cannot be opened for
  -- writing; and every record that an append returned is among those added.
  pub append_all-IsRun :
      (session_id : String) (tries : List Attempt) (rs : List TranscriptRecord) (dir : SessionDir)
      → IsSound session_id rs dir
      → AreKept line_bytes segment_max_bytes session_id tries dir
      → length rs + length tries < u64_mod
      → IsRun session_id rs
          (append_all line_bytes segment_max_bytes tries dir)
          (acks line_bytes segment_max_bytes tries dir)
  append_all-IsRun session_id [] rs dir v k l = record {
    added = [];
    sound = subst (λ ls. IsSound session_id ls dir) (sym (append_nil rs)) v;
    acked = λ r m. m;
  }
  append_all-IsRun session_id (a ∷ tries) rs dir v ((s, h, k), ks) l =
      outcome-IsRun session_id rs (append line_bytes segment_max_bytes a.faults a.given dir) _ _
        (λ ls n w. append_all-IsRun session_id tries ls _ w ks (omega (arith, n, l)))
        (append-AppendOutcome line_bytes segment_max_bytes session_id rs a.faults a.given dir s h
          (omega arith) k v)

  -- After any sequence of appends to a sound directory, where no write stops inside a line, before its newline or
  -- inside the manifest, no manifest is lost together with a rotation by size and the numbers stay in their ranges:
  -- if there is a manifest and no segment is a directory, a replay from the disk gives every record that an append
  -- returned and that has a larger number than the given one.
  pub replay-acked :
      (session_id : String) (tries : List Attempt) (rs : List TranscriptRecord) (dir : SessionDir)
      (m : TranscriptManifest) (after : Option ℕ) (r : TranscriptRecord)
      → IsSound session_id rs dir
      → AreKept line_bytes segment_max_bytes session_id tries dir
      → length rs + length tries < u64_mod
      → (append_all line_bytes segment_max_bytes tries dir).manifest ≡ some (some m)
      → all_files (append_all line_bytes segment_max_bytes tries dir).segments ≡ true
      → Elem r (acks line_bytes segment_max_bytes tries dir)
      → IsAfter after r
      → (found : List TranscriptRecord) × (replay after
            (append_all line_bytes segment_max_bytes tries dir)
          ≡ ok found)
        × Elem r found
  replay-acked session_id tries rs dir m after r v k l e f i t =
      let w = append_all-IsRun session_id tries rs dir v k l in
      (
        keep (is_later after) (rs ++ w.added),
        replay-kept session_id (rs ++ w.added) (append_all line_bytes segment_max_bytes tries dir) m
            after w.sound f e,
        Elem-keep_of (is_later after) (Elem-after rs (w.acked r i)) (after-is_later after r t),
      )
