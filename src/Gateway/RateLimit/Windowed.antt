-- ===== src/Gateway/RateLimit/Windowed.antt =====
-- rate_limit.rs: the limit holds in every window.
use open_jax.Prelude.{
  ℕ, ◌≤◌, ◌≡◌, refl, sym, ap, ◌∙◌, String, Bool, true, ◌&&◌, List, [], ◌∷◌, ◌++◌, all, keep,
  keep-append, length, leb, ltb, str_eq, str_eq_iff, str_eq_refl, if◌then◌else◌, arith, subst,
  Bool-cases, inl, inr,
}
use open_jax.Prelude.Dict.{get, get-insert}
use open_jax.Auth.Store.Rows.{all-append, all-imp}
use open_jax.Gateway.RateLimit.{
  SlidingWindowRateLimiter, new_limiter, is_recent, evict, bucket_of, admit, allow,
}

abbrev Sorted : List ℕ → Type 0
Sorted [] = Unit {0}
Sorted (t ∷ ts) = (all (leb t) ts ≡ true) × Sorted ts

keep-all :
    (w now t : ℕ) (ts : List ℕ)
    → is_recent w now t ≡ true
    → all (leb t) ts ≡ true
    → keep (is_recent w now) ts ≡ ts
keep-all w now t [] r h = refl
keep-all w now t (u ∷ ts) r h = ground (arith, keep-all w now t ts)

evict-keep : (w now : ℕ) (ts : List ℕ) → Sorted ts → evict w now ts ≡ keep (is_recent w now) ts
unfolding evict
evict-keep w now [] s = refl
evict-keep w now (t ∷ ts) (h, s) = ground (arith, keep-all w now t ts, evict-keep w now ts s)

evict-Sorted : (w now : ℕ) (ts : List ℕ) → Sorted ts → Sorted (evict w now ts)
unfolding evict
evict-Sorted w now [] s = tt
evict-Sorted w now (t ∷ ts) (h, s) = elim (Bool-cases (is_recent w now t)) [
  | inl y ↦ rw y (h, s)
  | inr n ↦ rw n (evict-Sorted w now ts s)
]

evict-all :
    (p : ℕ → Bool) (w now : ℕ) (ts : List ℕ) → all p ts ≡ true → all p (evict w now ts) ≡ true
unfolding evict
evict-all p w now [] h = refl
evict-all p w now (t ∷ ts) h = ground (arith, evict-all p w now ts)

-- What is evicted has left every later window too.
keep-evict :
    (w now later : ℕ) (ts : List ℕ)
    → now ≤ later
    → keep (is_recent w later) (evict w now ts) ≡ keep (is_recent w later) ts
unfolding evict
keep-evict w now later [] h = refl
keep-evict w now later (t ∷ ts) h = ground (arith, keep-evict w now later ts)

snoc-Sorted :
    (now : ℕ) (ts : List ℕ) → Sorted ts → all (λ t. leb t now) ts ≡ true → Sorted (ts ++ now ∷ [])
snoc-Sorted now [] s h = (refl, tt)
snoc-Sorted now (t ∷ ts) (a, s) h =
    (all-append (leb t) ts (now ∷ []) ∙ ground arith, snoc-Sorted now ts s (ground arith))

-- The bucket of a key agrees with the times of its calls that were let through, up to a time.
record Tracks (w last : ℕ) (granted bucket : List ℕ) : Type 0 where
  sorted : Sorted bucket
  below : all (λ t. leb t last) bucket ≡ true
  same : (now : ℕ) → last ≤ now → keep (is_recent w now) bucket ≡ keep (is_recent w now) granted

-- The times of the calls of a key that are let through, after those that were.
abbrev pub granted_next : Bool → Bool → ℕ → List ℕ → List ℕ
granted_next is_key answer now granted = if is_key && answer then granted ++ now ∷ [] else granted

later-Tracks : (w last now : ℕ) (g b : List ℕ) → last ≤ now → Tracks w last g b → Tracks w now g b
later-Tracks w last now g b h v = record {
  sorted = v.sorted;
  below = all-imp (λ t. leb t last) (λ t. leb t now) (λ t e. ground arith) b v.below;
  same = λ n e. v.same n (omega arith);
}

evict-Tracks :
    (w last now : ℕ) (g b : List ℕ)
    → last ≤ now
    → Tracks w last g b
    → Tracks w now g (evict w now b)
evict-Tracks w last now g b h v = record {
  sorted = evict-Sorted w now b v.sorted;
  below =
      evict-all (λ t. leb t now) w now b
        (all-imp (λ t. leb t last) (λ t. leb t now) (λ t e. ground arith) b v.below);
  same = λ n e. keep-evict w now n b e ∙ v.same n (omega arith);
}

snoc-Tracks :
    (w now : ℕ) (g b : List ℕ) → Tracks w now g b → Tracks w now (g ++ now ∷ []) (b ++ now ∷ [])
snoc-Tracks w now g b v = record {
  sorted = snoc-Sorted now b v.sorted v.below;
  below = all-append (λ t. leb t now) b (now ∷ []) ∙ ground (arith, v.below);
  same = λ n e.
      keep-append (is_recent w n) b (now ∷ [])
      ∙ ap (λ ts. ts ++ keep (is_recent w n) (now ∷ [])) (v.same n e)
      ∙ sym (keep-append (is_recent w n) g (now ∷ []));
}

admit-Tracks :
    (limit w now : ℕ) (g b : List ℕ)
    → Tracks w now g b
    → Tracks w now (granted_next true ((admit limit now b).0) now g) ((admit limit now b).1)
unfolding admit
admit-Tracks limit w now g b v = elim (Bool-cases (leb limit (length b))) [
  | inl y ↦ rw y v
  | inr n ↦ rw n (snoc-Tracks w now g b v)
]

-- Calls at times that do not go back, the last of them at a given time.
abbrev pub Rises : ℕ → List (String × ℕ) → ℕ → Type 0
Rises last [] now = last ≤ now
Rises last ((j, t) ∷ calls) now = (last ≤ t) × Rises t calls now

abbrev pub limiter_after : List (String × ℕ) → SlidingWindowRateLimiter → SlidingWindowRateLimiter
limiter_after [] l = l
limiter_after ((j, t) ∷ calls) l = limiter_after calls (allow j t l).1

-- The times at which the calls of a key were let through.
abbrev pub granted : String → List (String × ℕ) → SlidingWindowRateLimiter → List ℕ → List ℕ
granted k [] l g = g
granted k ((j, t) ∷ calls) l g =
    granted k calls (allow j t l).1 (granted_next (str_eq j k) ((allow j t l).0) t g)

own-Tracks :
    (k : String) (last t : ℕ) (g : List ℕ) (l : SlidingWindowRateLimiter)
    → last ≤ t
    → Tracks l.window last g (bucket_of k l)
    → Tracks l.window t
        (granted_next (str_eq k k) ((allow k t l).0) t g)
        (bucket_of k (allow k t l).1)
unfolding allow
own-Tracks k last t g l h v =
    let b = evict l.window t (bucket_of k l) in
    rw (get-insert k k (admit l.limit t b).1 l.buckets, str_eq_refl k)
      (admit-Tracks l.limit l.window t g b (evict-Tracks l.window last t g (bucket_of k l) h v))

allow-Tracks :
    (k j : String) (last t : ℕ) (g : List ℕ) (l : SlidingWindowRateLimiter)
    → last ≤ t
    → Tracks l.window last g (bucket_of k l)
    → Tracks l.window t
        (granted_next (str_eq j k) ((allow j t l).0) t g)
        (bucket_of k (allow j t l).1)
unfolding allow
allow-Tracks k j last t g l h v = elim (Bool-cases (str_eq j k)) [
  | inl y ↦
      subst
        (λ i.
          Tracks l.window t (granted_next (str_eq i k) ((allow i t l).0) t g)
            (bucket_of k (allow i t l).1))
        (sym ((str_eq_iff j k).0 y)) (own-Tracks k last t g l h v)
  | inr n ↦
      rw (get-insert j k (admit l.limit t (evict l.window t (bucket_of j l))).1 l.buckets, n)
        (later-Tracks l.window last t g (bucket_of k l) h v)
]

answer-Tracks :
    (k : String) (last now : ℕ) (g : List ℕ) (l : SlidingWindowRateLimiter)
    → last ≤ now
    → Tracks l.window last g (bucket_of k l)
    → (allow k now l).0 ≡ ltb (length (keep (is_recent l.window now) g)) l.limit
unfolding allow admit
answer-Tracks k last now g l h v =
    ap (λ b. (admit l.limit now b).0)
      (evict-keep l.window now (bucket_of k l) v.sorted ∙ v.same now h)
    ∙ ground arith

calls-Tracks :
    (k : String) (calls : List (String × ℕ)) (last now : ℕ) (g : List ℕ)
    (l : SlidingWindowRateLimiter)
    → Rises last calls now
    → Tracks l.window last g (bucket_of k l)
    → (allow k now (limiter_after calls l)).0
      ≡ ltb (length (keep (is_recent l.window now) (granted k calls l g))) l.limit
unfolding allow
calls-Tracks k [] last now g l h v = answer-Tracks k last now g l h v
calls-Tracks k ((j, t) ∷ calls) last now g l (h, hs) v =
    calls-Tracks k calls t now _ (allow j t l).1 hs (allow-Tracks k j last t g l h v)

-- With calls of any keys at times that do not go back, a call of a key is let through exactly if fewer than
-- the limit of that key's earlier calls, within the window before it, were let through.
pub allow-window :
    (limit window : ℕ) (k : String) (calls : List (String × ℕ)) (now : ℕ)
    → Rises 0 calls now
    → (allow k now (limiter_after calls (new_limiter limit window))).0
      ≡ ltb
          (length (keep (is_recent window now) (granted k calls (new_limiter limit window) [])))
          limit
unfolding get
allow-window limit window k calls now h =
    calls-Tracks k calls 0 now [] (new_limiter limit window) h
      record { sorted = tt; below = refl; same = λ n e. refl }
