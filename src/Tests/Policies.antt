-- ===== src/Tests/Policies.antt =====
-- Stratification and decisions.
use maelys_datalog.Prelude.{
  ℕ, true, false, [], ◌∷◌, ◌≡◌, ◌↔◌, ◌≤◌, ◌<◌, ◌&&◌, ◌||◌, refl, none, some, ok, arith,
}
use maelys_datalog.Bounds.{max_strata, max_predicates}
use maelys_datalog.Registry.{registry_init}
use maelys_datalog.Strata.{
  Ruleset, atom, negated_atom, assign_strata, passes_loop, rules_loop, rule_step, body_loop,
  literal_step, raise, needed, is_strict, is_dependency, finish, max_of, stratification_cycle,
}
use maelys_datalog.Strata.Sound.{Stratifies, assign_strata-Stratifies}
use maelys_datalog.Strata.Least.{assign_strata-least}
use maelys_datalog.Decision.{decision_from_queries, decision_from_presence, deny_conflict}
use maelys_datalog.Decision.Precedence.{Permits, flag, decision_from_queries-Permits}

-- 2 needs 0 and the absence of 1, and 1 needs 0.
abbrev policy : Ruleset
policy = record {
  registry = registry_init;
  rules =
      (record {
        head = 2;
        body =
            (record { kind = atom; predicate_id = 0 })
            ∷ (record { kind = negated_atom; predicate_id = 1 })
            ∷ [];
      })
      ∷ (record { head = 1; body = (record { kind = atom; predicate_id = 0 }) ∷ [] })
      ∷ [];
  negation_supported = true;
  aggregates_supported = false;
  strata = λ _. 0;
  max_stratum = 0;
  strata_assigned = false;
}

-- 2 needs the absence of itself.
abbrev cyclic : Ruleset
cyclic = record policy {
  rules =
      (record { head = 2; body = (record { kind = negated_atom; predicate_id = 2 }) ∷ [] }) ∷ [];
}

abbrev stratified : Ruleset
stratified = (assign_strata policy).1

assigns : assign_strata policy ≡ (ok, stratified, none)
unfolding assign_strata passes_loop rules_loop rule_step body_loop literal_step raise needed
    is_strict is_dependency finish max_of
assigns = refl

two_above : stratified.strata 2 ≡ 1
unfolding assign_strata passes_loop rules_loop rule_step body_loop literal_step raise needed
    is_strict is_dependency finish max_of
two_above = refl

finds_cycle : (assign_strata cyclic).2 ≡ some (stratification_cycle none)
unfolding assign_strata passes_loop rules_loop rule_step body_loop literal_step raise needed
    is_strict is_dependency finish max_of
finds_cycle = refl

assign_strata-Stratifies_example :
    (stratified.strata_assigned ≡ true)
    × (stratified.rules ≡ policy.rules)
    × Stratifies stratified.strata stratified.rules
    × (stratified.max_stratum < max_strata)
    × ((i : ℕ) → i < max_predicates → stratified.strata i ≤ stratified.max_stratum)
assign_strata-Stratifies_example = assign_strata-Stratifies policy stratified refl assigns

policy-Stratifies : Stratifies (λ i. i) policy.rules
policy-Stratifies = (
  (
    omega arith,
    (
      λ _. (omega arith, omega arith, λ _. omega arith),
      (λ _. (omega arith, omega arith, λ _. omega arith), tt),
    ),
  ),
  ((omega arith, (λ _. (omega arith, omega arith, λ _. omega arith), tt)), tt),
)

assign_strata-least_example : stratified.strata 2 ≤ 2
assign_strata-least_example =
    assign_strata-least (λ i. i) policy stratified refl assigns policy-Stratifies 2

decision_from_queries-Permits_example :
    (Permits (decision_from_queries true false true) ↔ ((true ≡ false) × ((true || false) ≡ true)))
    × ((decision_from_queries true false true ≡ deny_conflict) ↔ ((true && (true || false)) ≡ true))
    × (decision_from_presence (flag true) (flag false) (flag true)
        ≡ some (decision_from_queries true false true))
decision_from_queries-Permits_example = decision_from_queries-Permits true false true
