-- ===== src/Gateway/Listing/Pages.antt =====
-- events.rs: the pages, one after the other, are the session list.
use open_jax.Prelude.{
  ℕ, zero, suc, ◌<◌, ◌≤◌, ◌≡◌, refl, sym, ap, ◌∙◌, subst, Bool, true, false, Option, none, some,
  List, [], ◌∷◌, ◌++◌, all, keep, take, drop, last?, length, length-take, length-drop,
  take-append-drop, append_assoc, ◌==◌, arith, Bool-cases, inl, inr,
}
use open_jax.Prelude.Compare.{cmp_str-IsLawful}
use open_jax.Gateway.Index.Types.{IndexSessionEntry}
use open_jax.Gateway.Listing.{
  Cursor, is_past, after_cursor, cursor_of, PageResult, index_repair_required, page, page_of,
  list_persisted_sessions,
}

-- Newest first, without two entries of one time and id.
abbrev pub Descends : List IndexSessionEntry → Type 0
Descends [] = Unit {0}
Descends (x ∷ xs) = (all (is_past (cursor_of x)) xs ≡ true) × Descends xs

-- A page, and what its cursor leads to.
abbrev pub follow : PageResult → (Cursor → List IndexSessionEntry) → List IndexSessionEntry
follow index_repair_required more = []
follow (page sessions none) more = sessions
follow (page sessions (some next)) more = sessions ++ more next

-- The sessions that a reader gets who follows the cursors, in at most so many requests.
unfoldable pub collect : ℕ → ℕ → List IndexSessionEntry → Option Cursor → List IndexSessionEntry
collect zero limit index cursor = []
collect (suc fuel) limit index cursor =
    follow (list_persisted_sessions false index cursor limit)
      (λ next. collect fuel limit index (some next))

take-short : (n : ℕ) (xs : List IndexSessionEntry) → length xs ≤ n → take n xs ≡ xs
take-short zero [] h = refl
take-short zero (x ∷ xs) h = absurd (omega arith)
take-short (suc n) [] h = refl
take-short (suc n) (x ∷ xs) h = ap (◌∷◌ x) (take-short n xs (omega arith))

past-asym :
    (x y : IndexSessionEntry) → is_past (cursor_of x) y ≡ true → is_past (cursor_of y) x ≡ false
past-asym x y h = ground (
  arith,
  cmp_str-IsLawful.swap x.updated_at y.updated_at,
  cmp_str-IsLawful.swap x.session_id y.session_id,
)

past_irrefl : (x : IndexSessionEntry) → is_past (cursor_of x) x ≡ false
past_irrefl x = ground (
  arith,
  cmp_str-IsLawful.swap x.updated_at x.updated_at,
  cmp_str-IsLawful.swap x.session_id x.session_id,
)

keep-all_past :
    (x : IndexSessionEntry) (ys : List IndexSessionEntry)
    → all (is_past (cursor_of x)) ys ≡ true
    → keep (is_past (cursor_of x)) ys ≡ ys
keep-all_past x [] h = refl
keep-all_past x (y ∷ ys) h = ground (arith, keep-all_past x ys)

-- In a list that descends, what is past an entry is what comes after it.
keep-after :
    (pre : List IndexSessionEntry) (x : IndexSessionEntry) (post : List IndexSessionEntry)
    → Descends (pre ++ x ∷ post)
    → keep (is_past (cursor_of x)) (pre ++ x ∷ post) ≡ post
keep-after [] x post (h, d) = rw (past_irrefl x) (keep-all_past x post h)
keep-after (y ∷ pre) x post (h, d) =
    rw (past-asym y x (all-mid (is_past (cursor_of y)) pre x post h)) (keep-after pre x post d)
  where
    all-mid :
        (p : IndexSessionEntry → Bool) (pre : List IndexSessionEntry) (x : IndexSessionEntry)
        (post : List IndexSessionEntry)
        → all p (pre ++ x ∷ post) ≡ true
        → p x ≡ true
    all-mid p [] x post e = ground arith
    all-mid p (z ∷ pre) x post e = all-mid p pre x post (ground arith)

-- A list that is not empty, cut before its last element.
split_last :
    (ys : List IndexSessionEntry)
    → 1 ≤ length ys
    → (a : List IndexSessionEntry) × (x : IndexSessionEntry) × (ys ≡ a ++ x ∷ [])
      × (last? ys ≡ some x)
split_last [] h = absurd (omega arith)
split_last (y ∷ []) h = ([], y, refl, refl)
split_last (y ∷ z ∷ zs) h =
    let (a, x, e, l) = split_last (z ∷ zs) (omega arith) in (y ∷ a, x, ap (◌∷◌ y) e, l)

regroup :
    (pre a : List IndexSessionEntry) (x : IndexSessionEntry) (zs : List IndexSessionEntry)
    → pre ++ ((a ++ x ∷ []) ++ zs) ≡ (pre ++ a) ++ x ∷ zs
regroup pre a x zs =
    ap (λ ys. pre ++ ys) (append_assoc a (x ∷ []) zs) ∙ sym (append_assoc pre a (x ∷ zs))

==-true : (m n : ℕ) → (m == n) ≡ true → m ≡ n
==-true m n h = ground arith

collect-rest :
    (fuel limit : ℕ) (index pre rest : List IndexSessionEntry) (cursor : Option Cursor)
    → 1 ≤ limit
    → length rest < fuel
    → Descends index
    → index ≡ pre ++ rest
    → after_cursor cursor index ≡ rest
    → collect fuel limit index cursor ≡ rest
unfolding collect list_persisted_sessions
collect-rest zero limit index pre rest cursor l f d e c = absurd (omega arith)
collect-rest (suc fuel) limit index pre rest cursor l f d e c =
    ap (λ found. follow (page_of limit found) (λ next. collect fuel limit index (some next))) c
    ∙ elim (Bool-cases (length (take limit rest) == limit)) [
      | inl y ↦
          let (a, x, ea, el) = split_last (take limit rest) (ground (arith, l)) in
          let cut = e ∙ ap (λ ys. pre ++ ys) (sym (take-append-drop limit rest)) in
          let at =
            cut
            ∙ ap (λ ys. pre ++ (ys ++ drop limit rest)) ea
            ∙ regroup pre a x (drop limit rest) in
          let past =
            ap (keep (is_past (cursor_of x))) at
            ∙ keep-after (pre ++ a) x (drop limit rest) (subst Descends at d) in
          let ih =
            collect-rest fuel limit index (pre ++ take limit rest) (drop limit rest)
              (some (cursor_of x)) l
              (omega (arith, length-drop limit rest, length-take limit rest, ==-true _ _ y)) d
              (cut ∙ sym (append_assoc pre (take limit rest) (drop limit rest))) past in
          rw (y, el) (ap (λ ys. take limit rest ++ ys) ih ∙ take-append-drop limit rest)
      | inr n ↦ rw n (take-short limit rest (ground (arith, length-take limit rest)))
    ]

-- In an index that is newest first and needs no repair, with a limit of one at least, following the cursors from the
-- first page gives every session once, in order; one request more than there are sessions is enough.
pub collect-index :
    (limit : ℕ) (index : List IndexSessionEntry)
    → 1 ≤ limit
    → Descends index
    → collect (suc (length index)) limit index none ≡ index
collect-index limit index l d =
    collect-rest (suc (length index)) limit index [] index none l (omega arith) d refl refl
