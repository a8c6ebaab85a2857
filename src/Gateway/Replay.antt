-- ===== src/Gateway/Replay.antt =====
-- openjax-core/src/streaming/replay.rs: a bounded window of numbered items. Sequence numbers are u64.
pub mod Window
use open_jax.Prelude.{
  ℕ, suc, ◌+◌, ◌-◌, max, Bool, true, false, Option, none, some, List, [], ◌∷◌, ◌++◌, keep, length,
  head?, last?, tail, ltb, leb, if◌then◌else◌,
}
use open_jax.Prelude.Words.{saturating_add}

pub record ReplayWindowError : Type 0 where
  pub requested_after_seq : ℕ
  pub min_allowed : ℕ

pub record ReplayBuffer {ℓ} (T : Type ℓ) : Type ℓ where
  pub capacity : ℕ
  pub next_seq : ℕ
  pub entries : List (ℕ × T)

pub data Replayed {ℓ} (T : Type ℓ) : Type ℓ where
  outside : ReplayWindowError → Replayed T
  items : List (ℕ × T) → Replayed T

module _ {ℓ} {T : Type ℓ} where
  unfoldable pub with_capacity : ℕ → ReplayBuffer T
  with_capacity capacity = record { capacity = max capacity 1; next_seq = 1; entries = [] }

  -- `pop_front` at capacity
  abbrev pub make_room : ℕ → List (ℕ × T) → List (ℕ × T)
  make_room capacity entries = if leb capacity (length entries) then tail entries else entries

  unfoldable pub push : T → ReplayBuffer T → ℕ × ReplayBuffer T
  push item b = (
    b.next_seq,
    record {
      capacity = b.capacity;
      next_seq = saturating_add b.next_seq 1;
      entries = make_room b.capacity b.entries ++ (b.next_seq, item) ∷ [];
    },
  )

  abbrev pub min_of : Option (ℕ × T) → ℕ
  min_of none = 0
  min_of (some (seq, item)) = seq - 1

  unfoldable pub min_allowed : ReplayBuffer T → ℕ
  min_allowed b = min_of (head? b.entries)

  unfoldable pub replay_from : Option ℕ → ReplayBuffer T → Replayed T
  unfolding min_allowed
  replay_from none b = items b.entries
  replay_from (some requested) b =
      if ltb requested (min_allowed b)
      then outside record { requested_after_seq = requested; min_allowed = min_allowed b }
      else items (keep (λ e. ltb requested e.0) b.entries)

  abbrev pub seq_of : Option (ℕ × T) → ℕ
  seq_of none = 0
  seq_of (some (seq, item)) = seq

  unfoldable pub last_seq : ReplayBuffer T → ℕ
  last_seq b = seq_of (last? b.entries)
