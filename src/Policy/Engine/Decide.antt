-- ===== src/Policy/Engine/Decide.antt =====
-- engine.rs: which rule `decide` takes its decision from.
use text.Mathlib.TextEquality.{path_by_compare}
use open_jax.Prelude.{
  ◌≡◌, refl, sym, ap, subst, ◌≢◌, ◌⊎◌, inl, inr, ◌↔◌, compare, Ordering, true, false, none, some,
  List, [], arith, keep, Elem, Elem-keep, Elem-keep_of, Bool-cases,
}
use open_jax.Prelude.Compare.{then_with}
use open_jax.Policy.Schema.{DecisionKind, PolicyInput, PolicyRule, conservative_rank, matches}
use open_jax.Policy.Engine.{compare_rule_precedence, decision_of, decide}
use open_jax.Policy.Engine.Select.{IsMax, max_by-IsMax, precedence-IsLawful, eq_of_not_gt}

-- The rule is among the rules, it matches, and no matching rule comes before it in precedence.
pub record IsSelected (input : PolicyInput) (rules : List PolicyRule) (r : PolicyRule)
    : Type 0 where
  pub member : Elem r rules
  pub matched : matches r input ≡ true
  pub top :
      (other : PolicyRule)
      → Elem other rules
      → matches other input ≡ true
      → compare_rule_precedence other r ≢ Ordering.gt

abbrev pub NoneMatches : PolicyInput → List PolicyRule → Type 0
NoneMatches input rules = (r : PolicyRule) → Elem r rules → matches r input ≡ false

module _ (input : PolicyInput) (rules : List PolicyRule) where
  NoneMatches-of_empty : keep (λ rule. matches rule input) rules ≡ [] → NoneMatches input rules
  NoneMatches-of_empty e r m = elim (Bool-cases (matches r input)) [
    | inl hit ↦
        absurd (not_elem (subst (Elem r) e (Elem-keep_of (λ rule. matches rule input) m hit)))
    | inr miss ↦ miss
  ]
    where
      not_elem : Elem r [] → ⊥
      not_elem h = elim h [ ]

  IsSelected-of_IsMax :
      (r : PolicyRule)
      → IsMax compare_rule_precedence r (keep (λ rule. matches rule input) rules)
      → IsSelected input rules r
  IsSelected-of_IsMax r b = record {
    member = (Elem-keep (λ rule. matches rule input) rules b.member).0;
    matched = (Elem-keep (λ rule. matches rule input) rules b.member).1;
    top = λ other m hit. b.top other (Elem-keep_of (λ rule. matches rule input) m hit);
  }

  -- Either no rule matches and the default is applied, or the decision is that of a rule that matches
  -- and that no other matching rule precedes.
  pub decide_selects :
      (default : DecisionKind)
      → (NoneMatches input rules × (decide input rules default ≡ decision_of input default none))
        ⊎ ((r : PolicyRule) × IsSelected input rules r
            × (decide input rules default ≡ decision_of input default (some r)))
  unfolding decide
  decide_selects default =
      elim (max_by-IsMax precedence-IsLawful (keep (λ rule. matches rule input) rules)) [
        | inl (e, n) ↦ inl (NoneMatches-of_empty e, ap (decision_of input default) n)
        | inr (m, s, b) ↦ inr (m, IsSelected-of_IsMax m b, ap (decision_of input default) s)
      ]

then_with-eq :
    (o p : Ordering) → then_with o p ≡ Ordering.eq → (o ≡ Ordering.eq) × (p ≡ Ordering.eq)
then_with-eq o p h = ground arith

rank_inj :
    (d e : DecisionKind) → compare (conservative_rank d) (conservative_rank e) ≡ Ordering.eq → d ≡ e
unfolding conservative_rank
rank_inj d e h = ground arith

-- Rules that tie in precedence agree in decision and id.
pub tie_agrees :
    (a b : PolicyRule)
    → compare_rule_precedence a b ≡ Ordering.eq
    → (a.decision ≡ b.decision) × (a.id ≡ b.id)
unfolding compare_rule_precedence
tie_agrees a b h =
    let rest = (then_with-eq _ _ (then_with-eq _ _ h).1).1 in
    let last = then_with-eq _ _ rest in
    (rank_inj _ _ last.0, sym (path_by_compare b.id a.id last.1))

-- The same rules, in any order and any number of times.
abbrev pub SameRules : List PolicyRule → List PolicyRule → Type 0
SameRules xs ys = (r : PolicyRule) → Elem r xs ↔ Elem r ys

module _ (input : PolicyInput) (xs ys : List PolicyRule) (same : SameRules xs ys) where
  selected_agree :
      (a b : PolicyRule)
      → IsSelected input xs a
      → IsSelected input ys b
      → (a.decision ≡ b.decision) × (a.id ≡ b.id)
  selected_agree a b sa sb = tie_agrees a b (
      eq_of_not_gt precedence-IsLawful a b (sb.top a ((same a).0 sa.member) sa.matched)
        (sa.top b ((same b).1 sb.member) sb.matched))

  -- Two lists of the same rules, in any order and any number of times, give the same decision and the
  -- same rule id.
  pub decide-SameRules :
      (default : DecisionKind)
      → ((decide input xs default).kind ≡ (decide input ys default).kind)
        × ((decide input xs default).matched_rule_id ≡ (decide input ys default).matched_rule_id)
  unfolding decision_of
  decide-SameRules default = elim (decide_selects input xs default) [
    | inl (nx, ex) ↦ elim (decide_selects input ys default) [
      | inl (ny, ey) ↦ rw (ex, ey) (refl, refl)
      | inr (b, sb, ey) ↦ cc (nx b ((same b).1 sb.member), sb.matched)
    ]
    | inr (a, sa, ex) ↦ elim (decide_selects input ys default) [
      | inl (ny, ey) ↦ cc (ny a ((same a).0 sa.member), sa.matched)
      | inr (b, sb, ey) ↦ let g = selected_agree a b sa sb in rw (ex, ey) (g.0, ap some g.1)
    ]
  ]
