-- ===== src/Policy/Store/Builtin.antt =====
-- store.rs: what the built-in rule guarantees, and what outranks it.
use open_jax.Prelude.{
  ◌≡◌, refl, ◌⊎◌, inl, inr, Ordering, true, List, [], ◌∷◌, ◌++◌, arith, Elem, here, there,
}
use open_jax.Prelude.Int.{cmp_ℤ, pos}
use open_jax.Policy.Schema.{DecisionKind, escalate, PolicyInput, PolicyRule, matches, contains}
use open_jax.Policy.Engine.{compare_rule_precedence, decide, decision_of}
use open_jax.Policy.Engine.Decide.{decide_selects}
use open_jax.Policy.Store.{new, system_destructive}

system_matches :
    (input : PolicyInput)
    → contains input.risk_tags "destructive" ≡ true
    → matches system_destructive input ≡ true
unfolding matches
system_matches input h = ground arith

abbrev pub Elem-end {ℓ} : {A : Type ℓ} (xs : List A) (a : A) → Elem a (xs ++ a ∷ [])
Elem-end [] a = here refl
Elem-end (x ∷ xs) a = there (Elem-end xs a)

Elem-snoc {ℓ} :
    {A : Type ℓ} (xs : List A) (a : A) {b : A} → Elem b (xs ++ a ∷ []) → Elem b xs ⊎ (b ≡ a)
Elem-snoc [] a (here e) = inr e
Elem-snoc [] a (there m) = elim m [ ]
Elem-snoc (x ∷ xs) a (here e) = inl (here e)
Elem-snoc (x ∷ xs) a (there m) = elim (Elem-snoc xs a m) [ inl k ↦ inl (there k) | inr e ↦ inr e ]

-- Rules whose priority is below that of the built-in rule.
abbrev pub AllBelow : List PolicyRule → Type 0
AllBelow rules = (r : PolicyRule) → Elem r rules → cmp_ℤ r.priority (pos 1000) ≡ Ordering.lt

lower_loses :
    (r : PolicyRule)
    → cmp_ℤ r.priority (pos 1000) ≡ Ordering.lt
    → compare_rule_precedence system_destructive r ≡ Ordering.gt
unfolding compare_rule_precedence
lower_loses r h = ground arith

-- Whatever rules below priority 1000 are configured and whatever the default, a command tagged
-- destructive is escalated by the global rule set.
pub destructive_escalates :
    (default : DecisionKind) (rules : List PolicyRule) (input : PolicyInput)
    → AllBelow rules
    → contains input.risk_tags "destructive" ≡ true
    → (decide input (new default rules).rules default).kind ≡ escalate
unfolding new decision_of
destructive_escalates default rules input below tagged =
    elim (decide_selects input (rules ++ system_destructive ∷ []) default) [
      | inl (nothing, _) ↦ cc (
        nothing system_destructive (Elem-end rules system_destructive),
        system_matches input tagged,
      )
      | inr (r, s, e) ↦ rw e (elim (Elem-snoc rules system_destructive s.member) [
        | inl m ↦ absurd (
            s.top system_destructive (Elem-end rules system_destructive)
              (system_matches input tagged) (lower_loses r (below r m)))
        | inr q ↦ rw q refl
      ])
    ]

-- A configured rule of a priority above 1000 outranks the built-in one: alone in the rule set, it
-- decides every input that it matches, destructive ones included.
pub higher_rule_decides :
    (default : DecisionKind) (r : PolicyRule) (input : PolicyInput)
    → matches r input ≡ true
    → cmp_ℤ r.priority (pos 1000) ≡ Ordering.gt
    → (decide input (new default (r ∷ [])).rules default).kind ≡ r.decision
unfolding new decision_of compare_rule_precedence
higher_rule_decides default r input hit above =
    elim (decide_selects input (r ∷ system_destructive ∷ []) default) [
      | inl (nothing, _) ↦ cc (nothing r (here refl), hit)
      | inr (s, sel, e) ↦ rw e (elim sel.member [
        | here q ↦ rw q refl
        | there (here q) ↦ absurd (sel.top r (here refl) hit (rw q (ground arith)))
        | there (there m) ↦ elim m [ ]
      ])
    ]
