-- ===== src/Agent/History.antt =====
-- openjax-core/src/agent/context_compressor.rs: the old part of a conversation gives way to a summary. The model
-- client is a function of what the prompt is made from; it may fail. The wording of the prompt is not modelled.
pub mod Recent
use open_jax.Prelude.{
  ℕ, zero, suc, ◌-◌, Bool, true, false, Option, none, some, List, [], ◌∷◌, take, drop, length, leb,
  ◌==◌, if◌then◌else◌,
}
use open_jax.Prelude.Texts.{Text}

pub record TurnRecord : Type 0 where
  pub user_input : Text
  pub tool_traces : List Text
  pub assistant_output : Text

pub data HistoryItem : Type 0 where
  turn : TurnRecord → HistoryItem
  summary : Text → HistoryItem

-- The positions of the turns, from a first position on.
unfoldable pub turn_indices : ℕ → List HistoryItem → List ℕ
turn_indices i [] = []
turn_indices i (turn r ∷ history) = i ∷ turn_indices (suc i) history
turn_indices i (summary s ∷ history) = turn_indices (suc i) history

abbrev pub get_elem? : ℕ → List ℕ → Option ℕ
get_elem? n [] = none
get_elem? zero (x ∷ xs) = some x
get_elem? (suc n) (x ∷ xs) = get_elem? n xs

-- The slices up to and from the cutoff; an index out of range would panic.
abbrev pub split_at : List HistoryItem → Option ℕ → Option (List HistoryItem × List HistoryItem)
split_at history none = none
split_at history (some cutoff) = some (take cutoff history, drop cutoff history)

unfoldable pub split_for_compression :
    List HistoryItem → Option (List HistoryItem × List HistoryItem)
unfolding turn_indices
split_for_compression history =
    let indices = turn_indices 0 history in
    if leb (length indices) 4
    then none
    else split_at history (get_elem? (length indices - 3) indices)

-- `filter(|h| matches!(h, HistoryItem::Turn(_))).count()`
unfoldable pub turn_count : List HistoryItem → ℕ
turn_count [] = 0
turn_count (turn r ∷ history) = suc (turn_count history)
turn_count (summary s ∷ history) = turn_count history

abbrev pub with_summary : List HistoryItem → Option Text → Option (List HistoryItem)
with_summary recent none = none
with_summary recent (some text) = some (summary text ∷ recent)

abbrev pub compact_split :
    (List HistoryItem → ℕ → Option Text)
    → Option (List HistoryItem × List HistoryItem)
    → Option (List HistoryItem)
compact_split complete none = none
compact_split complete (some (to_summarize, recent)) =
    let count = turn_count to_summarize in
    if count == 0 then none else with_summary recent (complete to_summarize count)

unfoldable pub try_compact :
    (List HistoryItem → ℕ → Option Text) → List HistoryItem → Option (List HistoryItem)
unfolding split_for_compression turn_count
try_compact complete history = compact_split complete (split_for_compression history)
