-- ===== src/Gateway/Listing.antt =====
-- openjax-gateway/src/state/events.rs: the pages of the session list. The index is the list that the session
-- index holds, newest first.
pub mod Pages
use open_jax.Prelude.{
  ℕ, String, Ordering, Bool, true, false, Option, none, some, List, keep, take, last?, length, ◌==◌,
  if◌then◌else◌,
}
use open_jax.Gateway.Index.Types.{IndexSessionEntry}
use open_jax.Prelude.Compare.{cmp_str, then_with}

abbrev pub Cursor : Type 0
Cursor = String × String

abbrev pub is_lt : Ordering → Bool
is_lt Ordering.lt = true
is_lt Ordering.eq = false
is_lt Ordering.gt = false

-- `updated_at < c0 || (updated_at == c0 && session_id < c1)`
abbrev pub is_past : Cursor → IndexSessionEntry → Bool
is_past c item = is_lt (then_with (cmp_str item.updated_at c.0) (cmp_str item.session_id c.1))

abbrev pub after_cursor : Option Cursor → List IndexSessionEntry → List IndexSessionEntry
after_cursor none index = index
after_cursor (some c) index = keep (is_past c) index

abbrev pub cursor_of : IndexSessionEntry → Cursor
cursor_of item = (item.updated_at, item.session_id)

abbrev pub last_cursor : Option IndexSessionEntry → Option Cursor
last_cursor none = none
last_cursor (some item) = some (cursor_of item)

pub data PageResult : Type 0 where
  index_repair_required : PageResult
  page : List IndexSessionEntry → Option Cursor → PageResult

abbrev pub page_of : ℕ → List IndexSessionEntry → PageResult
page_of limit filtered =
    let sessions = take limit filtered in
    page sessions (if length sessions == limit then last_cursor (last? sessions) else none)

unfoldable pub list_persisted_sessions :
    Bool → List IndexSessionEntry → Option Cursor → ℕ → PageResult
list_persisted_sessions repair_required index cursor limit =
    if repair_required then index_repair_required else page_of limit (after_cursor cursor index)
