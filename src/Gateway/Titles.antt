-- ===== src/Gateway/Titles.antt =====
-- openjax-gateway/src/state/events.rs: titles and previews that are made from a user's message, and the cache that
-- keeps a message from making a title twice.
use open_jax.Prelude.{
  ℕ, ◌+◌, max, String, Bool, true, false, ◌&&◌, not, Option, none, some, List, [], ◌∷◌, ◌++◌, keep,
  any, take, length, leb, ltb, str_eq, if◌then◌else◌,
}
use open_jax.Prelude.Words.{saturating_add}
use open_jax.Prelude.Dict
use open_jax.Prelude.Dict.{Dict}
pub mod Cache
pub mod Bounded
pub mod Windows
pub mod Derive
pub mod Refresh

-- The order is from the oldest on.
pub record AutoTitleDedupeCache : Type 0 where
  pub ttl_ms : ℕ
  pub cap : ℕ
  pub expires_at : Dict ℕ
  pub order : List String

abbrev pub new_cache : ℕ → ℕ → AutoTitleDedupeCache
new_cache ttl_ms cap = record { ttl_ms = ttl_ms; cap = max cap 1; expires_at = []; order = [] }

abbrev pub seen_in : String → List String → Bool
seen_in key keys = any (λ k. str_eq k key) keys

-- One key of the queue, with what is recorded for it: it goes, or is kept in the next order unless it is there.
abbrev pub evict_key : ℕ → String → Option ℕ → Dict ℕ × List String → Dict ℕ × List String
evict_key now_ms key none (expires_at, next_order) = (expires_at, next_order)
evict_key now_ms key (some expiry) (expires_at, next_order) =
    if leb expiry now_ms
    then (Dict.remove key expires_at, next_order)
    else (expires_at, if seen_in key next_order then next_order else next_order ++ key ∷ [])

abbrev pub evict_keys : ℕ → List String → Dict ℕ × List String → Dict ℕ × List String
evict_keys now_ms [] kept = kept
evict_keys now_ms (key ∷ order) kept =
    evict_keys now_ms order (evict_key now_ms key (Dict.get key kept.0) kept)

abbrev pub with_kept : AutoTitleDedupeCache → Dict ℕ × List String → AutoTitleDedupeCache
with_kept cache (expires_at, order) = record cache { expires_at = expires_at; order = order }

unfoldable pub evict_expired : ℕ → AutoTitleDedupeCache → AutoTitleDedupeCache
unfolding Dict.get Dict.remove
evict_expired now_ms cache = with_kept cache (evict_keys now_ms cache.order (cache.expires_at, []))

-- The oldest keys go while there are too many.
abbrev pub drop_oldest : ℕ → List String → Dict ℕ → Dict ℕ × List String
drop_oldest cap [] expires_at = (expires_at, [])
drop_oldest cap (front ∷ order) expires_at =
    let rest = drop_oldest cap order (Dict.remove front expires_at) in
    if ltb cap (length expires_at) then rest else (expires_at, front ∷ order)

unfoldable pub evict_overflow : AutoTitleDedupeCache → AutoTitleDedupeCache
unfolding Dict.remove
evict_overflow cache = with_kept cache (drop_oldest cache.cap cache.order cache.expires_at)

-- What is recorded for the key is still in force.
abbrev pub in_force : ℕ → Option ℕ → Bool
in_force now_ms none = false
in_force now_ms (some expiry) = ltb now_ms expiry

abbrev pub forget : String → Bool → Dict ℕ → Dict ℕ
forget key true expires_at = Dict.remove key expires_at
forget key false expires_at = expires_at

abbrev pub is_recorded : Option ℕ → Bool
is_recorded none = false
is_recorded (some expiry) = true

abbrev pub queued : String → ℕ → AutoTitleDedupeCache → AutoTitleDedupeCache
queued key now_ms cache =
    let known = forget key (is_recorded (Dict.get key cache.expires_at)) cache.expires_at in
    record cache {
      expires_at = Dict.insert key (saturating_add now_ms cache.ttl_ms) known;
      order = keep (λ q. not (str_eq q key)) cache.order ++ key ∷ [];
    }

abbrev pub skip_or_queue : String → ℕ → AutoTitleDedupeCache → Bool × AutoTitleDedupeCache
skip_or_queue key now_ms cache =
    if in_force now_ms (Dict.get key cache.expires_at)
    then (true, cache)
    else (false, evict_overflow (queued key now_ms cache))

unfoldable pub should_skip : String → ℕ → AutoTitleDedupeCache → Bool × AutoTitleDedupeCache
unfolding evict_expired evict_overflow Dict.get Dict.insert Dict.remove
should_skip key now_ms cache = skip_or_queue key now_ms (evict_expired now_ms cache)
