-- ===== src/Gateway/Titles/Cache.antt =====
-- events.rs: the keys of the cache are those of its queue.
use open_jax.Prelude.{
  ℕ, ◌≤◌, String, ◌≡◌, refl, ap, ◌∙◌, true, false, ◌&&◌, ◌||◌, Option, none, some, is_some, List,
  [], ◌∷◌, ◌++◌, length, leb, str_eq, str_eq_iff, if◌then◌else◌, arith, Bool-cases, inl, inr,
}
use open_jax.Prelude.Dict
use open_jax.Prelude.Dict.{Dict, get-insert, get-remove, IsKeyed, insert-IsKeyed, remove-IsKeyed}
use open_jax.Gateway.Titles.{seen_in, evict_key, evict_keys}

-- No key stands in the queue twice.
abbrev pub IsDistinct : List String → Type 0
IsDistinct [] = Unit {0}
IsDistinct (k ∷ ks) = (seen_in k ks ≡ false) × IsDistinct ks

-- What the eviction of expired keys leaves of one key.
abbrev pub unexpired : ℕ → Option ℕ → Option ℕ
unexpired now none = none
unexpired now (some e) = if leb e now then none else some e

evict_key-get :
    (now : ℕ) (key j : String) (o : Option ℕ) (m : Dict ℕ) (next : List String)
    → Dict.get key m ≡ o
    → Dict.get j (evict_key now key o (m, next)).0
      ≡ (if str_eq key j then unexpired now o else Dict.get j m)
evict_key-get now key j none m next h = ground (arith, str_eq_iff key j, h)
evict_key-get now key j (some e) m next h = elim (Bool-cases (leb e now)) [
  | inl y ↦ rw y (get-remove key j m)
  | inr n ↦ rw n ground (arith, str_eq_iff key j, h)
]

unexpired_twice : (now : ℕ) (o : Option ℕ) → unexpired now (unexpired now o) ≡ unexpired now o
unexpired_twice now none = refl
unexpired_twice now (some e) = ground arith

get_same : (key j : String) (m : Dict ℕ) → str_eq key j ≡ true → Dict.get key m ≡ Dict.get j m
get_same key j m h = ap (λ k. Dict.get k m) ((str_eq_iff key j).0 h)

pub evict_keys-get :
    (now : ℕ) (j : String) (order : List String) (kept : Dict ℕ × List String)
    → Dict.get j (evict_keys now order kept).0
      ≡ (if seen_in j order then unexpired now (Dict.get j kept.0) else Dict.get j kept.0)
evict_keys-get now j [] kept = refl
evict_keys-get now j (key ∷ order) (m, next) =
    evict_keys-get now j order (evict_key now key (Dict.get key m) (m, next))
    ∙ ap (λ o. if seen_in j order then unexpired now o else o)
        (evict_key-get now key j (Dict.get key m) m next refl)
    ∙ elim (Bool-cases (str_eq key j)) [
      | inl y ↦ rw (y, get_same key j m y) ground (arith, unexpired_twice now (Dict.get j m))
      | inr n ↦ rw n refl
    ]

pub seen-snoc :
    (j key : String) (ks : List String)
    → seen_in j (ks ++ key ∷ []) ≡ (seen_in j ks || str_eq key j)
seen-snoc j key [] = ground arith
seen-snoc j key (k ∷ ks) = ground (arith, seen-snoc j key ks)

evict_key-seen :
    (now : ℕ) (key j : String) (o : Option ℕ) (m : Dict ℕ) (next : List String)
    → seen_in j (evict_key now key o (m, next)).1
      ≡ (seen_in j next || (str_eq key j && is_some (unexpired now o)))
evict_key-seen now key j none m next = ground arith
evict_key-seen now key j (some e) m next = ground (arith, seen-snoc j key next, str_eq_iff key j)

pub evict_keys-seen :
    (now : ℕ) (j : String) (order : List String) (kept : Dict ℕ × List String)
    → seen_in j (evict_keys now order kept).1
      ≡ (seen_in j kept.1 || (seen_in j order && is_some (unexpired now (Dict.get j kept.0))))
evict_keys-seen now j [] kept = ground arith
evict_keys-seen now j (key ∷ order) (m, next) =
    evict_keys-seen now j order (evict_key now key (Dict.get key m) (m, next))
    ∙ ap
        (λ b.
          b
          || (seen_in j order
              && is_some
                  (unexpired now (Dict.get j (evict_key now key (Dict.get key m) (m, next)).0))))
        (evict_key-seen now key j (Dict.get key m) m next)
    ∙ ap
        (λ o.
          (seen_in j next || (str_eq key j && is_some (unexpired now (Dict.get key m))))
          || (seen_in j order && is_some (unexpired now o)))
        (evict_key-get now key j (Dict.get key m) m next refl)
    ∙ elim (Bool-cases (str_eq key j)) [
      | inl y ↦ rw (y, get_same key j m y, unexpired_twice now (Dict.get j m)) ground arith
      | inr n ↦ rw n ground arith
    ]

pub IsDistinct-snoc :
    (key : String) (ks : List String)
    → IsDistinct ks
    → seen_in key ks ≡ false
    → IsDistinct (ks ++ key ∷ [])
IsDistinct-snoc key [] d h = (refl, tt)
IsDistinct-snoc key (k ∷ ks) (n, d) h = (
  seen-snoc k key ks ∙ ground (arith, str_eq_iff k key, str_eq_iff key k),
  IsDistinct-snoc key ks d (ground arith),
)

evict_key-IsDistinct :
    (now : ℕ) (key : String) (o : Option ℕ) (m : Dict ℕ) (next : List String)
    → IsDistinct next
    → IsDistinct (evict_key now key o (m, next)).1
evict_key-IsDistinct now key none m next d = d
evict_key-IsDistinct now key (some e) m next d = elim (Bool-cases (leb e now)) [
  | inl y ↦ rw y d
  | inr n ↦ rw n elim (Bool-cases (seen_in key next)) [
    | inl z ↦ rw z d
    | inr w ↦ rw w (IsDistinct-snoc key next d w)
  ]
]

pub evict_keys-IsDistinct :
    (now : ℕ) (order : List String) (kept : Dict ℕ × List String)
    → IsDistinct kept.1
    → IsDistinct (evict_keys now order kept).1
evict_keys-IsDistinct now [] kept d = d
evict_keys-IsDistinct now (key ∷ order) (m, next) d =
    evict_keys-IsDistinct now order _ (evict_key-IsDistinct now key (Dict.get key m) m next d)

pub length-remove-le : (key : String) (m : Dict ℕ) → length (Dict.remove key m) ≤ length m
unfolding Dict.remove
length-remove-le key [] = omega arith
length-remove-le key ((j, e) ∷ m) = ground (arith, length-remove-le key m)

-- The keys have a place in the map and one in the queue.
pub record IsMatched (m : Dict ℕ) (order : List String) : Type 0 where
  pub keyed : IsKeyed m
  pub distinct : IsDistinct order
  pub same : (j : String) → seen_in j order ≡ is_some (Dict.get j m)

evict_key-size :
    (now : ℕ) (key : String) (o : Option ℕ) (m : Dict ℕ) (next : List String)
    → IsKeyed m
    → IsKeyed (evict_key now key o (m, next)).0
      × (length (evict_key now key o (m, next)).0 ≤ length m)
evict_key-size now key none m next k = (k, omega arith)
evict_key-size now key (some e) m next k = elim (Bool-cases (leb e now)) [
  | inl y ↦ rw y (remove-IsKeyed key m k, length-remove-le key m)
  | inr n ↦ rw n (k, omega arith)
]

pub evict_keys-size :
    (now : ℕ) (order : List String) (kept : Dict ℕ × List String)
    → IsKeyed kept.0
    → IsKeyed (evict_keys now order kept).0 × (length (evict_keys now order kept).0 ≤ length kept.0)
evict_keys-size now [] kept k = (k, omega arith)
evict_keys-size now (key ∷ order) (m, next) k =
    let (k1, l1) = evict_key-size now key (Dict.get key m) m next k in
    let (k2, l2) = evict_keys-size now order (evict_key now key (Dict.get key m) (m, next)) k1 in
    (k2, omega (arith, l1, l2))
