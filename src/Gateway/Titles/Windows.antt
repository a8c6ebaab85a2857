-- ===== src/Gateway/Titles/Windows.antt =====
-- events.rs: sequences of calls of the cache.
use open_jax.Prelude.{
  ℕ, ◌+◌, ◌≤◌, max, String, ◌≡◌, refl, sym, ap, ◌∙◌, Bool, Option, none, some, List, [], ◌∷◌,
  length, str_eq, if◌then◌else◌, arith, Bool-cases, inl, inr,
}
use open_jax.Prelude.Words.{saturating_add}
use open_jax.Prelude.Dict
use open_jax.Prelude.Dict.{Dict}
use open_jax.Gateway.Titles.{
  AutoTitleDedupeCache, new_cache, seen_in, with_kept, evict_expired, evict_overflow, in_force,
  queued, should_skip,
}
use open_jax.Gateway.Titles.Cache.{unexpired, evict_keys-get, evict_keys-size, IsMatched}
use open_jax.Gateway.Titles.Bounded.{
  IsSound, evict-IsSound, should_skip-IsSound, queued-get, queued-length, queued-IsMatched,
  drop_oldest-IsDropped,
}

-- The answers to calls, each a key and a time, and the cache after them.
abbrev pub skip_all : List (String × ℕ) → AutoTitleDedupeCache → List Bool × AutoTitleDedupeCache
skip_all [] cache = ([], cache)
skip_all ((key, now) ∷ calls) cache =
    let step = should_skip key now cache in
    let rest = skip_all calls step.1 in (step.0 ∷ rest.0, rest.1)

new-IsSound : (ttl_ms cap : ℕ) → IsSound (new_cache ttl_ms cap)
unfolding Dict.get
new-IsSound ttl_ms cap = record {
  matched = record { keyed = tt; distinct = tt; same = λ j. refl };
  fits = omega arith;
}

kept-IsSound :
    (calls : List (String × ℕ)) (cache : AutoTitleDedupeCache)
    → IsSound cache
    → IsSound (skip_all calls cache).1
kept-IsSound [] cache v = v
kept-IsSound ((key, now) ∷ calls) cache v =
    kept-IsSound calls _ (should_skip-IsSound key now cache v)

-- After any sequence of calls of a new cache, the queue has each key of the map once and no other, and there are no
-- more keys than the capacity that the cache has.
pub skip_all-IsSound :
    (ttl_ms cap : ℕ) (calls : List (String × ℕ)) → IsSound (skip_all calls (new_cache ttl_ms cap)).1
skip_all-IsSound ttl_ms cap calls =
    kept-IsSound calls (new_cache ttl_ms cap) (new-IsSound ttl_ms cap)

-- The reference: the calls that were not skipped, the newest first, with the times when they expire.
abbrev pub last_mark : String → List (String × ℕ) → Option ℕ
last_mark key [] = none
last_mark key ((k, expiry) ∷ marks) = if str_eq k key then some expiry else last_mark key marks

abbrev pub marked_answers : ℕ → List (String × ℕ) → List (String × ℕ) → List Bool
marked_answers ttl_ms [] marks = []
marked_answers ttl_ms ((key, now) ∷ calls) marks =
    let skipped = in_force now (last_mark key marks) in
    let after_skip = marked_answers ttl_ms calls marks in
    let after_mark = marked_answers ttl_ms calls ((key, saturating_add now ttl_ms) ∷ marks) in
    skipped ∷ (if skipped then after_skip else after_mark)

-- The times of the calls do not go back.
abbrev pub IsForward : ℕ → List (String × ℕ) → Type 0
IsForward now [] = Unit {0}
IsForward now ((key, t) ∷ calls) = (now ≤ t) × IsForward t calls

-- From a time on the cache and the reference know the same.
abbrev Agrees : ℕ → AutoTitleDedupeCache → List (String × ℕ) → Type 0
Agrees now cache marks =
    (j : String) (t : ℕ)
    → now ≤ t
    → in_force t (Dict.get j cache.expires_at) ≡ in_force t (last_mark j marks)

live_unexpired : (now t : ℕ) (o : Option ℕ) → now ≤ t → in_force t (unexpired now o) ≡ in_force t o
live_unexpired now t none h = refl
live_unexpired now t (some e) h = ground arith

evict-Agrees :
    (now : ℕ) (cache : AutoTitleDedupeCache) (marks : List (String × ℕ))
    → Agrees now cache marks
    → Agrees now (evict_expired now cache) marks
unfolding evict_expired
evict-Agrees now cache marks g j t h =
    ap (in_force t) (evict_keys-get now j cache.order (cache.expires_at, []))
    ∙ elim (Bool-cases (seen_in j cache.order)) [
      | inl y ↦ rw y (live_unexpired now t (Dict.get j cache.expires_at) h ∙ g j t h)
      | inr n ↦ rw n (g j t h)
    ]

later-Agrees :
    (now t : ℕ) (cache : AutoTitleDedupeCache) (marks : List (String × ℕ))
    → now ≤ t
    → Agrees now cache marks
    → Agrees t cache marks
later-Agrees now t cache marks h g j u k = g j u (omega (arith, h, k))

queued-Agrees :
    (key : String) (now : ℕ) (cache : AutoTitleDedupeCache) (marks : List (String × ℕ))
    → Agrees now cache marks
    → Agrees now (queued key now cache) ((key, saturating_add now cache.ttl_ms) ∷ marks)
queued-Agrees key now cache marks g j t h =
    ap (in_force t) (queued-get key j now cache)
    ∙ elim (Bool-cases (str_eq key j)) [ inl y ↦ rw y refl | inr n ↦ rw n (g j t h) ]

-- A cache that has room is only queued to.
overflow_room :
    (cache : AutoTitleDedupeCache)
    → IsMatched cache.expires_at cache.order
    → length cache.expires_at ≤ cache.cap
    → evict_overflow cache ≡ cache
unfolding evict_overflow
overflow_room cache v h =
    ap (with_kept cache)
      ((drop_oldest-IsDropped cache.cap cache.order cache.expires_at v).unchanged h)

evict-length :
    (now : ℕ) (cache : AutoTitleDedupeCache)
    → IsSound cache
    → length (evict_expired now cache).expires_at ≤ length cache.expires_at
unfolding evict_expired
evict-length now cache v =
    (evict_keys-size now cache.order (cache.expires_at, []) v.matched.keyed).1

-- A call of a cache with room: the answer, what it knows after it, and its size.
record IsStep (key : String) (now : ℕ) (cache : AutoTitleDedupeCache) (marks : List (String × ℕ))
    (skipped : Bool) (next : AutoTitleDedupeCache) : Type 0 where
  answer : skipped ≡ in_force now (last_mark key marks)
  agrees :
      Agrees now next (if skipped then marks else (key, saturating_add now cache.ttl_ms) ∷ marks)
  grows : length next.expires_at ≤ length cache.expires_at + 1
  ttl : next.ttl_ms ≡ cache.ttl_ms
  capacity : next.cap ≡ cache.cap

should_skip-IsStep :
    (key : String) (now : ℕ) (cache : AutoTitleDedupeCache) (marks : List (String × ℕ))
    → IsSound cache
    → length cache.expires_at + 1 ≤ cache.cap
    → Agrees now cache marks
    → IsStep key now cache marks (should_skip key now cache).0 (should_skip key now cache).1
unfolding should_skip
should_skip-IsStep key now cache marks v room g =
    let g1 = evict-Agrees now cache marks g in
    let v1 = evict-IsSound now cache v in
    let l1 = evict-length now cache v in
    elim (Bool-cases (in_force now (Dict.get key (evict_expired now cache).expires_at))) [
      | inl y ↦ rw y record {
        answer = sym (sym (g1 key now (omega arith)) ∙ y);
        agrees = g1;
        grows = omega (arith, l1);
        ttl = refl;
        capacity = refl;
      }
      | inr n ↦
          let l2 = queued-length key now (evict_expired now cache) v1.matched.keyed in
          rw
            (
              n,
              overflow_room (queued key now (evict_expired now cache))
                  (queued-IsMatched key now (evict_expired now cache) v1.matched)
                  (omega (arith, l1, l2, room)),
            )
            record {
              answer = sym (sym (g1 key now (omega arith)) ∙ n);
              agrees = queued-Agrees key now (evict_expired now cache) marks g1;
              grows = omega (arith, l1, l2);
              ttl = refl;
              capacity = refl;
            }
    ]

skip_all-Agrees :
    (calls : List (String × ℕ)) (now : ℕ) (cache : AutoTitleDedupeCache) (marks : List (String × ℕ))
    → IsSound cache
    → Agrees now cache marks
    → IsForward now calls
    → length cache.expires_at + length calls ≤ cache.cap
    → (skip_all calls cache).0 ≡ marked_answers cache.ttl_ms calls marks
skip_all-Agrees [] now cache marks v g f h = refl
skip_all-Agrees ((key, t) ∷ calls) now cache marks v g (k, f) h =
    let s =
      should_skip-IsStep key t cache marks v (omega (arith, h))
        (later-Agrees now t cache marks k g) in
    let next = (should_skip key t cache).1 in
    let skipped = (should_skip key t cache).0 in
    ap (λ bs. skipped ∷ bs)
      (skip_all-Agrees calls t next
          (if skipped then marks else (key, saturating_add t cache.ttl_ms) ∷ marks)
          (should_skip-IsSound key t cache v) s.agrees f (omega (arith, s.grows, s.capacity, h))
        ∙ ap
            (λ n.
              marked_answers n calls
                (if skipped then marks else (key, saturating_add t cache.ttl_ms) ∷ marks))
            s.ttl)
    ∙ ap
        (λ b.
          b
          ∷ marked_answers cache.ttl_ms calls
              (if b then marks else (key, saturating_add t cache.ttl_ms) ∷ marks))
        s.answer
    ∙ ground arith

-- With no more calls than the capacity, at times that do not go back, the answers of a new cache are those of the
-- reference: a key is skipped exactly if the last time when it was not is less than the time to live ago.
pub skip_all-answers :
    (ttl_ms cap : ℕ) (calls : List (String × ℕ))
    → IsForward 0 calls
    → length calls ≤ max cap 1
    → (skip_all calls (new_cache ttl_ms cap)).0 ≡ marked_answers ttl_ms calls []
unfolding Dict.get
skip_all-answers ttl_ms cap calls f h =
    skip_all-Agrees calls 0 (new_cache ttl_ms cap) [] (new-IsSound ttl_ms cap) (λ j t k. refl) f
      (omega arith)
