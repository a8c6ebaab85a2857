-- ===== src/Gateway/Index/Entries.antt =====
-- session_index_store.rs: the entries in memory, and how they are sorted.
use open_jax.Prelude.{
  String, Ordering, Bool, true, false, not, Option, List, [], ◌∷◌, keep, find, str_eq,
  if◌then◌else◌,
}
use open_jax.Prelude.Compare.{cmp_str, then_with}
use open_jax.Gateway.Index.Types.{IndexSessionEntry}

-- The comparison of `sort_entries_desc`.
abbrev pub cmp_desc : IndexSessionEntry → IndexSessionEntry → Ordering
cmp_desc left right =
    then_with (cmp_str right.updated_at left.updated_at) (cmp_str right.session_id left.session_id)

abbrev pub goes_after : Ordering → Bool
goes_after Ordering.gt = true
goes_after Ordering.eq = false
goes_after Ordering.lt = false

-- `sort_by` is stable.
abbrev pub insert_desc : IndexSessionEntry → List IndexSessionEntry → List IndexSessionEntry
insert_desc x [] = x ∷ []
insert_desc x (y ∷ ys) = if goes_after (cmp_desc x y) then y ∷ insert_desc x ys else x ∷ y ∷ ys

unfoldable pub sort_entries_desc : List IndexSessionEntry → List IndexSessionEntry
sort_entries_desc [] = []
sort_entries_desc (x ∷ xs) = insert_desc x (sort_entries_desc xs)

-- `iter().find(|entry| entry.session_id == session_id)`
unfoldable pub find_entry : String → List IndexSessionEntry → Option IndexSessionEntry
find_entry session_id entries = find (λ e. str_eq e.session_id session_id) entries

-- The entry takes the place of the first one with its id, or comes last.
abbrev pub put_entry : IndexSessionEntry → List IndexSessionEntry → List IndexSessionEntry
put_entry entry [] = entry ∷ []
put_entry entry (x ∷ xs) =
    if str_eq x.session_id entry.session_id then entry ∷ xs else x ∷ put_entry entry xs

unfoldable pub upsert_memory_entry :
    IndexSessionEntry → List IndexSessionEntry → List IndexSessionEntry
unfolding sort_entries_desc
upsert_memory_entry entry entries = sort_entries_desc (put_entry entry entries)

unfoldable pub remove_memory_entry : String → List IndexSessionEntry → List IndexSessionEntry
unfolding sort_entries_desc
remove_memory_entry session_id entries =
    sort_entries_desc (keep (λ e. not (str_eq e.session_id session_id)) entries)
