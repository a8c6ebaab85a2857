-- ===== src/Policy/Engine.antt =====
-- openjax-policy/src/engine.rs: the decision is that of the first rule in precedence among those
-- that match.
mod Select
pub mod Decide
use open_jax.Prelude.{compare, Ordering, Option, none, some, List, [], ◌∷◌, keep}
use open_jax.Prelude.Compare.{then_with, cmp_str}
use open_jax.Prelude.Int.{cmp_ℤ}
use open_jax.Policy.Schema.{
  DecisionKind, PolicyInput, PolicyRule, PolicyDecision, conservative_rank, matches, specificity,
}

unfoldable pub compare_rule_precedence : PolicyRule → PolicyRule → Ordering
compare_rule_precedence left right = then_with (cmp_ℤ left.priority right.priority) (
    then_with (compare (specificity left) (specificity right)) (
      then_with (compare (conservative_rank left.decision) (conservative_rank right.decision))
        (cmp_str right.id left.id)))

module _ {ℓ} {A : Type ℓ} where
  -- `Iterator::max_by` from a first element: of equal elements the later one stays.
  abbrev pub better : Ordering → A → A → A
  better Ordering.gt best x = best
  better Ordering.eq best x = x
  better Ordering.lt best x = x

  unfoldable pub max_from : (A → A → Ordering) → A → List A → A
  max_from cmp best [] = best
  max_from cmp best (x ∷ xs) = max_from cmp (better (cmp best x) best x) xs

  unfoldable pub max_by : (A → A → Ordering) → List A → Option A
  unfolding max_from
  max_by cmp [] = none
  max_by cmp (x ∷ xs) = some (max_from cmp x xs)

unfoldable pub select : PolicyInput → List PolicyRule → Option PolicyRule
select input rules = max_by compare_rule_precedence (keep (λ rule. matches rule input) rules)

unfoldable pub decision_of : PolicyInput → DecisionKind → Option PolicyRule → PolicyDecision
decision_of input default none = record {
  kind = default;
  matched_rule_id = none;
  policy_version = input.policy_version;
  reason = "no matching rule; default decision applied";
}
decision_of input default (some rule) = record {
  kind = rule.decision;
  matched_rule_id = some rule.id;
  policy_version = input.policy_version;
  reason = rule.reason;
}

unfoldable pub decide : PolicyInput → List PolicyRule → DecisionKind → PolicyDecision
unfolding select decision_of
decide input rules default = decision_of input default (select input rules)
