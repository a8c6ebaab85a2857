-- ===== src/Gateway/Index/Runs.antt =====
-- session_index_store.rs: sequences of calls.
use open_jax.Prelude.{
  ℕ, zero, suc, ◌≤◌, String, ◌≡◌, refl, ◌∙◌, Bool, true, false, not, Option, none, some, List, [],
  ◌∷◌, ◌++◌, ap, length, if◌then◌else◌,
}
use open_jax.Gateway.Listing.{
  Cursor, PageResult, index_repair_required, page, list_persisted_sessions,
}
use open_jax.Gateway.Listing.Pages.{Descends, follow, collect, collect-index}
use open_jax.Gateway.Index.Types.{IndexSessionEntry, LogLine}
use open_jax.Gateway.Index.Store.{SessionIndexStore, is_healthy}
use open_jax.Gateway.Index.Sound.{IsSound}
use open_jax.Gateway.Index.Calls.{Timed, AreOrderly, perform_all}
use open_jax.Gateway.Index.Keeps.{perform-IsSound}
use open_jax.Gateway.Index.Replay.{Recovers}

-- The sessions that a reader gets who follows the cursors, of an index that may need repair.
unfoldable pub collect_from :
    Bool → ℕ → ℕ → List IndexSessionEntry → Option Cursor → List IndexSessionEntry
unfolding list_persisted_sessions
collect_from repair_required zero limit index cursor = []
collect_from repair_required (suc fuel) limit index cursor =
    follow (list_persisted_sessions repair_required index cursor limit)
      (λ next. collect_from repair_required fuel limit index (some next))

follow-same :
    (p : PageResult) (f g : Cursor → List IndexSessionEntry)
    → ((c : Cursor) → f c ≡ g c)
    → follow p f ≡ follow p g
follow-same index_repair_required f g h = refl
follow-same (page sessions none) f g h = refl
follow-same (page sessions (some next)) f g h = ap (λ more. sessions ++ more) (h next)

collect_from-collect :
    (fuel limit : ℕ) (index : List IndexSessionEntry) (cursor : Option Cursor)
    → collect_from false fuel limit index cursor ≡ collect fuel limit index cursor
unfolding collect_from collect
collect_from-collect zero limit index cursor = refl
collect_from-collect (suc fuel) limit index cursor =
    follow-same (list_persisted_sessions false index cursor limit) _ _
      (λ next. collect_from-collect fuel limit index (some next))

collect_from-cases :
    (is_open : Bool) (limit : ℕ) (index : List IndexSessionEntry)
    → 1 ≤ limit
    → Descends index
    → collect_from (not is_open) (suc (length index)) limit index none
      ≡ (if is_open then index else [])
unfolding collect_from list_persisted_sessions
collect_from-cases true limit index l d =
    collect_from-collect (suc (length index)) limit index none ∙ collect-index limit index l d
collect_from-cases false limit index l d = refl

module _ (normalize : String → Option String) (line_bytes : LogLine → ℕ)
    (normal_again : (t u : String) → normalize t ≡ some u → normalize u ≡ some u) where
  pub run-IsSound :
      (ts : List Timed) (s : SessionIndexStore)
      → AreOrderly normalize ts
      → IsSound normalize line_bytes s
      → IsSound normalize line_bytes (perform_all normalize line_bytes ts s)
  run-IsSound [] s o v = v
  run-IsSound (t ∷ ts) s ((n, c), o) v =
      run-IsSound ts _ o
        (perform-IsSound normalize line_bytes normal_again t.faults t.now t.call s n c v)

  -- After any sequence of calls on a sound index, each at a time in normal form, whatever steps of them fail except an
  -- append that has begun to write its line: an index that is healthy is what the snapshot and the log on disk read
  -- back to, entry by entry.
  pub run-Recovers :
      (ts : List Timed) (s : SessionIndexStore)
      → AreOrderly normalize ts
      → IsSound normalize line_bytes s
      → is_healthy (perform_all normalize line_bytes ts s).health ≡ true
      → Recovers normalize
          (perform_all normalize line_bytes ts s).disk
          (perform_all normalize line_bytes ts s).entries
  run-Recovers ts s o v h = (run-IsSound ts s o v).recovers h

  -- After any sequence of calls on a sound index, each at a time in normal form, whatever steps of them fail except an
  -- append that has begun to write its line: a reader who follows the cursors of the session list, with pages of one
  -- entry at least, gets every entry once, in order, if the index is healthy, and else no entry; one request more than
  -- there are entries is enough.
  pub collect-run :
      (ts : List Timed) (s : SessionIndexStore) (limit : ℕ)
      → AreOrderly normalize ts
      → IsSound normalize line_bytes s
      → 1 ≤ limit
      → collect_from
          (not (is_healthy (perform_all normalize line_bytes ts s).health))
          (suc (length (perform_all normalize line_bytes ts s).entries))
          limit
          (perform_all normalize line_bytes ts s).entries
          none
        ≡ (if is_healthy (perform_all normalize line_bytes ts s).health
            then (perform_all normalize line_bytes ts s).entries
            else [])
  collect-run ts s limit o v l =
      collect_from-cases (is_healthy (perform_all normalize line_bytes ts s).health) limit
        (perform_all normalize line_bytes ts s).entries l (run-IsSound ts s o v).descends
