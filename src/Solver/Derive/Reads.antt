-- ===== src/Solver/Derive/Reads.antt =====
-- What the literals of a rule ask of bindings, one after the other along a join order: the
-- meaning that `solve_once_derive_ordered` is compared with.
use maelys_datalog.Prelude.{
  ℕ, Bool, true, false, List, [], ◌∷◌, Option, some, ◌≡◌, ◌⊎◌, length, get_elem?, passed, In,
}
use maelys_datalog.Prelude.Integer.{ℤ}
use maelys_datalog.Fact.{Fact}
use maelys_datalog.Registry.{Entry, registry_get, has_flag, kind_edb, kind_idb, kind_policy_fact}
use maelys_datalog.Solver.{Literal, Rule, Ruleset, View, compare_true}
use maelys_datalog.Solver.Aggregates.{evaluate_aggregate, bind_aggregate}
use maelys_datalog.Solver.Comparing.{comparison_result}
use maelys_datalog.Solver.Derive.{idb_window, solve_negated_literal, is_at}
use maelys_datalog.Solver.Filters.{filter_call}
use maelys_datalog.Solver.Matching.{
  Bindings, match_terms, instantiate_fact, fact_structurally_valid,
}
use maelys_datalog.Solver.Ranges.{edb_slice}
use maelys_datalog.Symbols.{SymbolTable}
use maelys_datalog.Strata.{LiteralKind, atom, comparison, negated_atom, filter}

abbrev pub InWindow : View → ℕ → Fact → Type 0
InWindow v pid f = (facts : List Fact) × (idb_window v pid ≡ passed facts) × In f facts

-- The facts of the sources that the flags of a predicate name.
abbrev pub InSources : View → Entry → Literal → Fact → Type 0
InSources v def l f =
    ((has_flag def.kind_flags kind_policy_fact ≡ true) × In f v.the_ruleset.facts)
    ⊎ (((has_flag def.kind_flags kind_edb ≡ true) × In f (edb_slice v l.atom.predicate_id))
        ⊎ ((has_flag def.kind_flags kind_idb ≡ true) × InWindow v l.atom.predicate_id f))

abbrev pub Reads : View → Entry → Literal → Bool → Fact → Type 0
Reads v def l true f = In f v.delta
Reads v def l false f = InSources v def l f

-- The fact has the predicate and the arity of the atom, and makes `c` of `b`.
pub record Meets (v : View) (l : Literal) (b : Bindings) (f : Fact) (c : Bindings) : Type 0 where
  pub valid : fact_structurally_valid v.the_ruleset.registry f ≡ true
  pub predicate : f.predicate_id ≡ l.atom.predicate_id
  pub arity : length f.terms ≡ length l.atom.terms
  pub bindings : match_terms b l.atom.terms f.terms ≡ some c

abbrev pub AtomStep : View → Literal → Bool → Bindings → Bindings → Type 0
AtomStep v l is_delta b c =
    (def : Entry) × (registry_get v.the_ruleset.registry l.atom.predicate_id ≡ some def)
    × (f : Fact) × Reads v def l is_delta f
    × Meets v l b f c

abbrev pub FilterStep : Ruleset → SymbolTable → Literal → Bindings → Type 0
FilterStep r symbols l b = (cost : ℕ) × (filter_call r symbols l b ≡ passed (cost, passed true))

abbrev pub AggregateStep : View → Literal → Bindings → Bindings → Type 0
AggregateStep v l b c =
    (z : Option ℤ) × (evaluate_aggregate v l b ≡ passed z) × (bind_aggregate l b z ≡ some c)

-- By the literal's kind.
abbrev pub KindStep : LiteralKind → View → Rule → Literal → Bool → Bindings → Bindings → Type 0
KindStep atom v rule l is_delta b c = AtomStep v l is_delta b c
KindStep comparison v rule l is_delta b c = (comparison_result rule l b ≡ compare_true) × (b ≡ c)
KindStep filter v rule l is_delta b c = FilterStep v.the_ruleset v.symbols l b × (b ≡ c)
KindStep negated_atom v rule l is_delta b c = (solve_negated_literal v l b ≡ true) × (b ≡ c)
KindStep LiteralKind.count v rule l is_delta b c = AggregateStep v l b c
KindStep LiteralKind.min v rule l is_delta b c = AggregateStep v l b c
KindStep LiteralKind.max v rule l is_delta b c = AggregateStep v l b c
KindStep LiteralKind.sum v rule l is_delta b c = AggregateStep v l b c

abbrev pub LiteralStep : View → Rule → Option ℕ → ℕ → Bindings → Bindings → Type 0
LiteralStep v rule delta i b c =
    (l : Literal) × (get_elem? rule.body i ≡ some l) × KindStep l.kind v rule l (is_at delta i) b c

-- The literals of the order, one after the other.
abbrev pub Chain : View → Rule → Option ℕ → List ℕ → Bindings → Bindings → Type 0
Chain v rule delta [] b c = b ≡ c
Chain v rule delta (i ∷ order) b c =
    (d : Bindings) × LiteralStep v rule delta i b d × Chain v rule delta order d c

-- The fact is the head of the rule under bindings that the chain leads to.
abbrev pub Derives : View → Rule → Option ℕ → List ℕ → Bindings → Fact → Type 0
Derives v rule delta order b f =
    (c : Bindings) × Chain v rule delta order b c × (instantiate_fact c rule.head ≡ some f)
