-- ===== src/Gateway/Titles/Bounded.antt =====
-- events.rs: the cache stays within its capacity.
use open_jax.Prelude.{
  ℕ, ◌+◌, ◌≤◌, String, ◌≡◌, refl, sym, ap, ◌∙◌, Bool, true, false, ◌&&◌, ◌||◌, not, Option, none,
  some, is_some, List, [], ◌∷◌, keep, length, ltb, str_eq, str_eq_iff, str_eq_refl, if◌then◌else◌,
  arith, Bool-cases, inl, inr,
}
use open_jax.Prelude.Words.{saturating_add}
use open_jax.Prelude.Dict
use open_jax.Prelude.Dict.{Dict, get-insert, get-remove, IsKeyed, insert-IsKeyed, remove-IsKeyed}
use open_jax.Gateway.Titles.{
  AutoTitleDedupeCache, seen_in, evict_keys, evict_expired, drop_oldest, evict_overflow, in_force,
  forget, is_recorded, queued, should_skip,
}
use open_jax.Gateway.Titles.Cache.{
  IsDistinct, unexpired, evict_keys-get, evict_keys-seen, evict_keys-IsDistinct, evict_keys-size,
  length-remove-le, IsDistinct-snoc, seen-snoc, IsMatched,
}

evict-same :
    (now : ℕ) (seen : Bool) (o : Option ℕ)
    → seen ≡ is_some o
    → (false || (seen && is_some (unexpired now o))) ≡ is_some (if seen then unexpired now o else o)
evict-same now seen none h = ground arith
evict-same now seen (some e) h = ground arith

pub evict-IsMatched :
    (now : ℕ) (m : Dict ℕ) (order : List String)
    → IsMatched m order
    → IsMatched (evict_keys now order (m, [])).0 (evict_keys now order (m, [])).1
evict-IsMatched now m order v = record {
  keyed = (evict_keys-size now order (m, []) v.keyed).0;
  distinct = evict_keys-IsDistinct now order (m, []) tt;
  same = λ j.
      evict_keys-seen now j order (m, [])
      ∙ evict-same now (seen_in j order) (Dict.get j m) (v.same j)
      ∙ sym (ap is_some (evict_keys-get now j order (m, [])));
}

keep-seen :
    (j key : String) (ks : List String)
    → seen_in j (keep (λ q. not (str_eq q key)) ks) ≡ (seen_in j ks && not (str_eq key j))
keep-seen j key [] = refl
keep-seen j key (k ∷ ks) =
    ground (arith, keep-seen j key ks, str_eq_iff k key, str_eq_iff k j, str_eq_iff key j)

keep-IsDistinct :
    (key : String) (ks : List String)
    → IsDistinct ks
    → IsDistinct (keep (λ q. not (str_eq q key)) ks)
keep-IsDistinct key [] d = tt
keep-IsDistinct key (k ∷ ks) (n, d) = elim (Bool-cases (str_eq k key)) [
  | inl y ↦ rw y (keep-IsDistinct key ks d)
  | inr z ↦ rw z (keep-seen k key ks ∙ ground (arith, n), keep-IsDistinct key ks d)
]

pub forget-get :
    (key j : String) (m : Dict ℕ) (o : Option ℕ)
    → Dict.get key m ≡ o
    → Dict.get j (forget key (is_recorded o) m) ≡ (if str_eq key j then none else Dict.get j m)
forget-get key j m none h = ground (arith, str_eq_iff key j, h)
forget-get key j m (some e) h = get-remove key j m

forget-size :
    (key : String) (m : Dict ℕ) (b : Bool)
    → IsKeyed m
    → IsKeyed (forget key b m) × (length (forget key b m) ≤ length m)
forget-size key m false k = (k, omega arith)
forget-size key m true k = (remove-IsKeyed key m k, length-remove-le key m)

length-insert-le : (key : String) (e : ℕ) (m : Dict ℕ) → length (Dict.insert key e m) ≤ length m + 1
unfolding Dict.insert
length-insert-le key e [] = omega arith
length-insert-le key e ((j, d) ∷ m) = ground (arith, length-insert-le key e m)

-- What the queued key leaves in the map.
pub queued-get :
    (key j : String) (now : ℕ) (cache : AutoTitleDedupeCache)
    → Dict.get j (queued key now cache).expires_at ≡ (
        if str_eq key j
        then some (saturating_add now cache.ttl_ms)
        else Dict.get j cache.expires_at)
queued-get key j now cache =
    get-insert key j _ _
    ∙ ground (arith, forget-get key j cache.expires_at (Dict.get key cache.expires_at) refl)

pub queued-length :
    (key : String) (now : ℕ) (cache : AutoTitleDedupeCache)
    → IsKeyed cache.expires_at
    → length (queued key now cache).expires_at ≤ length cache.expires_at + 1
queued-length key now cache k =
    let (k1, l1) =
      forget-size key cache.expires_at (is_recorded (Dict.get key cache.expires_at)) k in
    omega (
      arith,
      l1,
      length-insert-le key (saturating_add now cache.ttl_ms)
          (forget key (is_recorded (Dict.get key cache.expires_at)) cache.expires_at),
    )

pub queued-IsMatched :
    (key : String) (now : ℕ) (cache : AutoTitleDedupeCache)
    → IsMatched cache.expires_at cache.order
    → IsMatched (queued key now cache).expires_at (queued key now cache).order
queued-IsMatched key now cache v = record {
  keyed = insert-IsKeyed key _ _ (forget-size key cache.expires_at _ v.keyed).0;
  distinct =
      IsDistinct-snoc key _ (keep-IsDistinct key cache.order v.distinct)
        (keep-seen key key cache.order ∙ ground (arith, str_eq_refl key));
  same = λ j.
      seen-snoc j key (keep (λ q. not (str_eq q key)) cache.order)
      ∙ ap (λ b. b || str_eq key j) (keep-seen j key cache.order)
      ∙ ground (arith, v.same j)
      ∙ sym (ap is_some (queued-get key j now cache));
}

no_keys : (m : Dict ℕ) → ((j : String) → false ≡ is_some (Dict.get j m)) → m ≡ []
unfolding Dict.get
no_keys [] h = refl
no_keys ((k, e) ∷ m) h = absurd (ground (arith, h k, str_eq_refl k))

-- The oldest keys that go leave a map that fits, and one that fitted is as it was.
pub record IsDropped (cap : ℕ) (m : Dict ℕ) (order : List String) (kept : Dict ℕ × List String)
    : Type 0 where
  pub matched : IsMatched kept.0 kept.1
  pub fits : length kept.0 ≤ cap
  pub unchanged : length m ≤ cap → kept ≡ (m, order)

pub drop_oldest-IsDropped :
    (cap : ℕ) (order : List String) (m : Dict ℕ)
    → IsMatched m order
    → IsDropped cap m order (drop_oldest cap order m)
drop_oldest-IsDropped cap [] m v = record {
  matched = v;
  fits = rw (no_keys m v.same) (omega arith);
  unchanged = λ h. refl;
}
drop_oldest-IsDropped cap (front ∷ order) m v = elim (Bool-cases (ltb cap (length m))) [
  | inl y ↦
      let w = drop_oldest-IsDropped cap order (Dict.remove front m) record {
        keyed = remove-IsKeyed front m v.keyed;
        distinct = (v.distinct).1;
        same = λ j.
            ground (arith, v.same j, (v.distinct).0, str_eq_iff front j)
            ∙ sym (ap is_some (get-remove front j m));
      } in
      rw y record { matched = w.matched; fits = w.fits; unchanged = λ h. absurd (ground arith) }
  | inr n ↦ rw n record { matched = v; fits = ground arith; unchanged = λ h. refl }
]

-- The keys of the map are those of the queue, each once, and no more than the capacity.
pub record IsSound (cache : AutoTitleDedupeCache) : Type 0 where
  pub matched : IsMatched cache.expires_at cache.order
  pub fits : length cache.expires_at ≤ cache.cap

pub evict-IsSound :
    (now : ℕ) (cache : AutoTitleDedupeCache) → IsSound cache → IsSound (evict_expired now cache)
unfolding evict_expired
evict-IsSound now cache v = record {
  matched = evict-IsMatched now cache.expires_at cache.order v.matched;
  fits =
      omega
        (arith, (evict_keys-size now cache.order (cache.expires_at, []) v.matched.keyed).1, v.fits);
}

overflow-IsSound :
    (cache : AutoTitleDedupeCache)
    → IsMatched cache.expires_at cache.order
    → IsSound (evict_overflow cache)
unfolding evict_overflow
overflow-IsSound cache v =
    let d = drop_oldest-IsDropped cache.cap cache.order cache.expires_at v in
    record { matched = d.matched; fits = d.fits }

pub should_skip-IsSound :
    (key : String) (now : ℕ) (cache : AutoTitleDedupeCache)
    → IsSound cache
    → IsSound (should_skip key now cache).1
unfolding should_skip
should_skip-IsSound key now cache v =
    let e = evict-IsSound now cache v in
    elim (Bool-cases (in_force now (Dict.get key (evict_expired now cache).expires_at))) [
      | inl y ↦ rw y e
      | inr n ↦
          rw n (overflow-IsSound _ (queued-IsMatched key now (evict_expired now cache) e.matched))
    ]
