-- ===== src/Gateway/Index/Order.antt =====
-- session_index_store.rs: the entries in memory have different ids, and stand newest first.
use open_jax.Prelude.{
  String, ◌≡◌, refl, ap, ◌∙◌, Bool, true, false, ◌&&◌, not, none, some, List, [], ◌∷◌, all, keep,
  str_eq, str_eq_iff, if◌then◌else◌, arith, subst, Bool-cases, inl, inr,
}
use open_jax.Prelude.Compare.{
  cmp_str-IsLawful, IsLawful, lex-IsLawful, on-IsLawful, reverse-IsLawful,
}
use open_jax.Auth.Store.Rows.{all-imp, all-keep}
use open_jax.Gateway.Index.Types.{IndexSessionEntry}
use open_jax.Gateway.Index.Entries.{
  cmp_desc, goes_after, insert_desc, sort_entries_desc, find_entry, put_entry, upsert_memory_entry,
  remove_memory_entry,
}
use open_jax.Gateway.Listing.{is_past, cursor_of}
use open_jax.Gateway.Listing.Pages.{Descends}

-- No other entry has the id.
abbrev pub lacks : String → List IndexSessionEntry → Bool
lacks id xs = all (λ e. not (str_eq e.session_id id)) xs

abbrev pub Unique : List IndexSessionEntry → Type 0
Unique [] = Unit {0}
Unique (x ∷ xs) = (lacks x.session_id xs ≡ true) × Unique xs

all-insert_desc :
    (p : IndexSessionEntry → Bool) (x : IndexSessionEntry) (xs : List IndexSessionEntry)
    → all p (insert_desc x xs) ≡ (p x && all p xs)
all-insert_desc p x [] = refl
all-insert_desc p x (y ∷ ys) = ground (arith, all-insert_desc p x ys)

pub all-sort :
    (p : IndexSessionEntry → Bool) (xs : List IndexSessionEntry)
    → all p (sort_entries_desc xs) ≡ all p xs
unfolding sort_entries_desc
all-sort p [] = refl
all-sort p (x ∷ xs) =
    all-insert_desc p x (sort_entries_desc xs) ∙ ap (λ b. p x && b) (all-sort p xs)

insert_desc-Unique :
    (x : IndexSessionEntry) (xs : List IndexSessionEntry)
    → lacks x.session_id xs ≡ true
    → Unique xs
    → Unique (insert_desc x xs)
insert_desc-Unique x [] h u = (refl, tt)
insert_desc-Unique x (y ∷ ys) h (g, u) = elim (Bool-cases (goes_after (cmp_desc x y))) [
  | inl a ↦ rw a (
    all-insert_desc _ x ys
        ∙ ground
            (arith, str_eq_iff x.session_id y.session_id, str_eq_iff y.session_id x.session_id),
    insert_desc-Unique x ys (ground arith) u,
  )
  | inr b ↦ rw b (h, (g, u))
]

pub sort-Unique : (xs : List IndexSessionEntry) → Unique xs → Unique (sort_entries_desc xs)
unfolding sort_entries_desc
sort-Unique [] u = tt
sort-Unique (x ∷ xs) (h, u) =
    insert_desc-Unique x (sort_entries_desc xs) (all-sort _ xs ∙ h) (sort-Unique xs u)

find-insert_desc :
    (id : String) (x : IndexSessionEntry) (xs : List IndexSessionEntry)
    → lacks x.session_id xs ≡ true
    → find_entry id (insert_desc x xs)
      ≡ (if str_eq x.session_id id then some x else find_entry id xs)
unfolding find_entry
find-insert_desc id x [] h = refl
find-insert_desc id x (y ∷ ys) h = elim (Bool-cases (goes_after (cmp_desc x y))) [
  | inl a ↦
      rw (a, find-insert_desc id x ys (ground arith)) ground
        (
          arith,
          str_eq_iff x.session_id id,
          str_eq_iff y.session_id x.session_id,
          str_eq_iff y.session_id id,
        )
  | inr b ↦ rw b refl
]

pub find-sort :
    (id : String) (xs : List IndexSessionEntry)
    → Unique xs
    → find_entry id (sort_entries_desc xs) ≡ find_entry id xs
unfolding sort_entries_desc find_entry
find-sort id [] u = refl
find-sort id (x ∷ xs) (h, u) =
    find-insert_desc id x (sort_entries_desc xs) (all-sort _ xs ∙ h)
    ∙ ap (λ r. if str_eq x.session_id id then some x else r) (find-sort id xs u)

str_eq-swap : (a b : String) → str_eq a b ≡ false → str_eq b a ≡ false
str_eq-swap a b h = ground (arith, str_eq_iff a b, str_eq_iff b a)

-- The order of the entries, by time and id.
desc-IsLawful : IsLawful cmp_desc
desc-IsLawful =
    lex-IsLawful
      (on-IsLawful (λ (e : IndexSessionEntry). e.updated_at) (reverse-IsLawful cmp_str-IsLawful))
      (on-IsLawful (λ (e : IndexSessionEntry). e.session_id) (reverse-IsLawful cmp_str-IsLawful))

past_trans :
    (x y z : IndexSessionEntry)
    → is_past (cursor_of x) y ≡ true
    → is_past (cursor_of y) z ≡ true
    → is_past (cursor_of x) z ≡ true
past_trans x y z h k = ground (arith, desc-IsLawful.lt_trans x y z)

-- Of two entries with different ids one is past the other.
past_or :
    (x y : IndexSessionEntry)
    → str_eq y.session_id x.session_id ≡ false
    → (if goes_after (cmp_desc x y) then is_past (cursor_of y) x else is_past (cursor_of x) y)
      ≡ true
past_or x y h = ground (arith, desc-IsLawful.swap x y)

insert_desc-Descends :
    (x : IndexSessionEntry) (xs : List IndexSessionEntry)
    → lacks x.session_id xs ≡ true
    → Descends xs
    → Descends (insert_desc x xs)
insert_desc-Descends x [] h d = (refl, tt)
insert_desc-Descends x (y ∷ ys) h (p, d) = elim (Bool-cases (goes_after (cmp_desc x y))) [
  | inl a ↦
      let past = rw a at (past_or x y (ground arith)) in
      rw a (
        all-insert_desc (is_past (cursor_of y)) x ys ∙ ground (arith, past, p),
        insert_desc-Descends x ys (ground arith) d,
      )
  | inr b ↦
      let past = rw b at (past_or x y (ground arith)) in
      let rest =
        all-imp (is_past (cursor_of y)) (is_past (cursor_of x)) (λ z k. past_trans x y z past k) ys
          p in
      rw b (ground (arith, past, rest), (p, d))
]

pub sort-Descends : (xs : List IndexSessionEntry) → Unique xs → Descends (sort_entries_desc xs)
unfolding sort_entries_desc
sort-Descends [] u = tt
sort-Descends (x ∷ xs) (h, u) =
    insert_desc-Descends x (sort_entries_desc xs) (all-sort _ xs ∙ h) (sort-Descends xs u)

lacks-put :
    (id : String) (e : IndexSessionEntry) (xs : List IndexSessionEntry)
    → str_eq e.session_id id ≡ false
    → lacks id xs ≡ true
    → lacks id (put_entry e xs) ≡ true
lacks-put id e [] k h = ground arith
lacks-put id e (x ∷ xs) k h = ground (arith, lacks-put id e xs k)

put-Unique :
    (e : IndexSessionEntry) (xs : List IndexSessionEntry) → Unique xs → Unique (put_entry e xs)
put-Unique e [] u = (refl, tt)
put-Unique e (x ∷ xs) (h, u) = elim (Bool-cases (str_eq x.session_id e.session_id)) [
  | inl a ↦
      rw a (subst (λ id. lacks id xs ≡ true) ((str_eq_iff x.session_id e.session_id).0 a) h, u)
  | inr b ↦
      rw b
        (lacks-put x.session_id e xs (str_eq-swap x.session_id e.session_id b) h, put-Unique e xs u)
]

find-put :
    (id : String) (e : IndexSessionEntry) (xs : List IndexSessionEntry)
    → find_entry id (put_entry e xs) ≡ (if str_eq e.session_id id then some e else find_entry id xs)
unfolding find_entry
find-put id e [] = refl
find-put id e (x ∷ xs) = ground (
  arith,
  find-put id e xs,
  str_eq_iff x.session_id e.session_id,
  str_eq_iff x.session_id id,
  str_eq_iff e.session_id id,
)

kept-Unique :
    (p : IndexSessionEntry → Bool) (xs : List IndexSessionEntry) → Unique xs → Unique (keep p xs)
kept-Unique p [] u = tt
kept-Unique p (x ∷ xs) (h, u) = elim (Bool-cases (p x)) [
  | inl a ↦ rw a (all-keep _ p xs h, kept-Unique p xs u)
  | inr b ↦ rw b (kept-Unique p xs u)
]

find-kept :
    (id gone : String) (xs : List IndexSessionEntry)
    → find_entry id (keep (λ e. not (str_eq e.session_id gone)) xs)
      ≡ (if str_eq gone id then none else find_entry id xs)
unfolding find_entry
find-kept id gone [] = ground arith
find-kept id gone (x ∷ xs) = ground (
  arith,
  find-kept id gone xs,
  str_eq_iff x.session_id gone,
  str_eq_iff x.session_id id,
  str_eq_iff gone id,
)

pub upsert-Unique :
    (e : IndexSessionEntry) (xs : List IndexSessionEntry)
    → Unique xs
    → Unique (upsert_memory_entry e xs)
unfolding upsert_memory_entry
upsert-Unique e xs u = sort-Unique (put_entry e xs) (put-Unique e xs u)

pub upsert-Descends :
    (e : IndexSessionEntry) (xs : List IndexSessionEntry)
    → Unique xs
    → Descends (upsert_memory_entry e xs)
unfolding upsert_memory_entry
upsert-Descends e xs u = sort-Descends (put_entry e xs) (put-Unique e xs u)

pub find-upsert :
    (id : String) (e : IndexSessionEntry) (xs : List IndexSessionEntry)
    → Unique xs
    → find_entry id (upsert_memory_entry e xs)
      ≡ (if str_eq e.session_id id then some e else find_entry id xs)
unfolding upsert_memory_entry
find-upsert id e xs u = find-sort id (put_entry e xs) (put-Unique e xs u) ∙ find-put id e xs

pub remove-Unique :
    (gone : String) (xs : List IndexSessionEntry) → Unique xs → Unique (remove_memory_entry gone xs)
unfolding remove_memory_entry
remove-Unique gone xs u = sort-Unique _ (kept-Unique _ xs u)

pub remove-Descends :
    (gone : String) (xs : List IndexSessionEntry)
    → Unique xs
    → Descends (remove_memory_entry gone xs)
unfolding remove_memory_entry
remove-Descends gone xs u = sort-Descends _ (kept-Unique _ xs u)

pub find-remove :
    (id gone : String) (xs : List IndexSessionEntry)
    → Unique xs
    → find_entry id (remove_memory_entry gone xs)
      ≡ (if str_eq gone id then none else find_entry id xs)
unfolding remove_memory_entry
find-remove id gone xs u = find-sort id _ (kept-Unique _ xs u) ∙ find-kept id gone xs

pub all-upsert :
    (p : IndexSessionEntry → Bool) (e : IndexSessionEntry) (xs : List IndexSessionEntry)
    → p e ≡ true
    → all p xs ≡ true
    → all p (upsert_memory_entry e xs) ≡ true
unfolding upsert_memory_entry
all-upsert p e xs h k = all-sort p (put_entry e xs) ∙ all-put p e xs h k
  where
    all-put :
        (p : IndexSessionEntry → Bool) (e : IndexSessionEntry) (xs : List IndexSessionEntry)
        → p e ≡ true
        → all p xs ≡ true
        → all p (put_entry e xs) ≡ true
    all-put p e [] h k = ground arith
    all-put p e (x ∷ xs) h k = ground (arith, all-put p e xs h)

pub all-remove :
    (p : IndexSessionEntry → Bool) (gone : String) (xs : List IndexSessionEntry)
    → all p xs ≡ true
    → all p (remove_memory_entry gone xs) ≡ true
unfolding remove_memory_entry
all-remove p gone xs h = all-sort p _ ∙ all-keep p _ xs h
