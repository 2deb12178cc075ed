-- ===== src/Solver/Matching.antt =====
-- Bindings of a rule's variables, and the match of an atom with a fact: from
-- `solve_once_bindings_t` on in src/core/maelys_datalog_solver.c.
pub mod Exact
use maelys_datalog.Prelude.{
  ℕ, Bool, true, false, not, ◌&&◌, ◌||◌, List, [], ◌∷◌, Option, none, some, length, leb, ltb, ◌==◌,
  if◌then◌else◌,
}
use maelys_datalog.Bounds.{max_rule_variables, max_arity}
use maelys_datalog.Fact.{Term, symbol, integer, boolean, variable, Fact, term_equal}
use maelys_datalog.Registry.{Registry, registry_get}

-- The mask of bound variables with their values.
abbrev pub Bindings : Type 0
Bindings = ℕ → Option Term

abbrev pub unbound : Bindings
unbound = λ _. none

abbrev pub set_bound : Bindings → ℕ → Term → Bindings
set_bound b v value u = if v == u then some value else b u

unfoldable pub bind_variable : Bindings → ℕ → Term → Option Bindings
bind_variable b v value = if leb max_rule_variables v then none else elim (b v) [
  | none ↦ some (set_bound b v value)
  | some t ↦ if term_equal t value then some b else none
]

unfoldable pub bind_or_match : Bindings → Term → Term → Option Bindings
bind_or_match b (variable v) value = bind_variable b v value
bind_or_match b (symbol s) value = if term_equal (symbol s) value then some b else none
bind_or_match b (integer z) value = if term_equal (integer z) value then some b else none
bind_or_match b (boolean c) value = if term_equal (boolean c) value then some b else none

-- The loop over the terms of a pattern and a fact of the same arity.
unfoldable pub match_terms : Bindings → List Term → List Term → Option Bindings
match_terms b [] _ = some b
match_terms b (_ ∷ _) [] = some b
match_terms b (p ∷ ps) (t ∷ ts) = elim (bind_or_match b p t) [
  | none ↦ none
  | some c ↦ match_terms c ps ts
]

unfoldable pub instantiate_term : Bindings → Term → Option Term
instantiate_term b (variable v) = if leb max_rule_variables v then none else b v
instantiate_term b (symbol s) = some (symbol s)
instantiate_term b (integer z) = some (integer z)
instantiate_term b (boolean c) = some (boolean c)

unfoldable pub instantiate_terms : Bindings → List Term → Option (List Term)
instantiate_terms b [] = some []
instantiate_terms b (p ∷ ps) = elim (instantiate_term b p) [
  | none ↦ none
  | some t ↦ elim (instantiate_terms b ps) [ none ↦ none | some ts ↦ some (t ∷ ts) ]
]

-- The loop that fills in the head of a rule, or a negated atom.
unfoldable pub instantiate_fact : Bindings → Fact → Option Fact
instantiate_fact b atom = elim (instantiate_terms b atom.terms) [
  | none ↦ none
  | some ts ↦ some (record { predicate_id = atom.predicate_id; terms = ts })
]

abbrev pub is_variable : Term → Bool
is_variable (variable _) = true
is_variable _ = false

unfoldable pub no_variables : List Term → Bool
no_variables [] = true
no_variables (t ∷ ts) = not (is_variable t) && no_variables ts

unfoldable pub fact_structurally_valid : Registry → Fact → Bool
fact_structurally_valid registry f =
    if ltb max_arity (length f.terms) then false else elim (registry_get registry f.predicate_id) [
      | none ↦ false
      | some d ↦ length f.terms == d.arity && no_variables f.terms
    ]

unfoldable pub facts_structurally_valid : Registry → List Fact → Bool
facts_structurally_valid registry [] = true
facts_structurally_valid registry (f ∷ fs) =
    fact_structurally_valid registry f && facts_structurally_valid registry fs
