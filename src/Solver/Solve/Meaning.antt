-- ===== src/Solver/Solve/Meaning.antt =====
-- The meaning of rules without negation and aggregates, against which the rounds of the solver
-- are judged: which bindings satisfy a body, and which sets of facts are closed under the rules.
-- A view stands for its ruleset, its symbols and its snapshot only.
use maelys_datalog.Prelude.{ℕ, true, some, ◌≡◌, ◌⊎◌, get_elem?, In}
use maelys_datalog.Fact.{variable, Fact}
use maelys_datalog.Registry.{Entry, registry_get, has_flag, kind_edb, kind_idb, kind_policy_fact}
use maelys_datalog.Solver.{Literal, Rule, View, compare_true}
use maelys_datalog.Solver.Comparing.{comparison_result}
use maelys_datalog.Solver.Derive.Reads.{FilterStep}
use maelys_datalog.Solver.Matching.{Bindings, instantiate_terms, instantiate_fact}
use maelys_datalog.Strata.{LiteralKind, atom, comparison, negated_atom, filter}

-- A set of derived facts.
abbrev pub Facts : Type 1
Facts = Fact → Type 0

-- The facts that a predicate has, by its flags: policy facts, facts of the EDB, derived facts.
abbrev pub Source : View → Facts → Entry → Fact → Type 0
Source v X def f =
    ((has_flag def.kind_flags kind_policy_fact ≡ true) × In f v.the_ruleset.facts)
    ⊎ (((has_flag def.kind_flags kind_edb ≡ true) × In f v.edb_snapshot.facts)
        ⊎ ((has_flag def.kind_flags kind_idb ≡ true) × X f))

-- The fact is what the bindings make of the atom.
abbrev pub IsInstance : Literal → Bindings → Fact → Type 0
IsInstance l b f =
    (f.predicate_id ≡ l.atom.predicate_id) × (instantiate_terms b l.atom.terms ≡ some f.terms)

abbrev pub AtomHolds : View → Facts → Bindings → Literal → Type 0
AtomHolds v X b l =
    (def : Entry) × (registry_get v.the_ruleset.registry l.atom.predicate_id ≡ some def)
    × (f : Fact) × Source v X def f
    × IsInstance l b f

abbrev pub KindHolds : LiteralKind → View → Facts → Rule → Bindings → Literal → Type 0
KindHolds atom v X rule b l = AtomHolds v X b l
KindHolds comparison v X rule b l = comparison_result rule l b ≡ compare_true
KindHolds filter v X rule b l = FilterStep v.the_ruleset v.symbols l b
KindHolds negated_atom v X rule b l = ⊥
KindHolds LiteralKind.count v X rule b l = ⊥
KindHolds LiteralKind.min v X rule b l = ⊥
KindHolds LiteralKind.max v X rule b l = ⊥
KindHolds LiteralKind.sum v X rule b l = ⊥

abbrev pub Holds : View → Facts → Rule → Bindings → Literal → Type 0
Holds v X rule b l = KindHolds l.kind v X rule b l

abbrev pub Satisfies : View → Facts → Rule → Bindings → Type 0
Satisfies v X rule b = (i : ℕ) (l : Literal) → get_elem? rule.body i ≡ some l → Holds v X rule b l

-- Every consequence of the set is in the set.
abbrev pub IsClosed : View → Facts → Type 0
IsClosed v X =
    (rule : Rule)
    → In rule v.the_ruleset.rules
    → (b : Bindings) (f : Fact) → Satisfies v X rule b
    → instantiate_fact b rule.head ≡ some f
    → X f

abbrev pub IsPositive : LiteralKind → Type 0
IsPositive atom = Unit
IsPositive comparison = Unit
IsPositive filter = Unit
IsPositive negated_atom = ⊥
IsPositive LiteralKind.count = ⊥
IsPositive LiteralKind.min = ⊥
IsPositive LiteralKind.max = ⊥
IsPositive LiteralKind.sum = ⊥

-- A rule as validation leaves it where neither negation nor aggregates are supported: its
-- literals are atoms, comparisons and filters, and a variable of its head stands in one of its
-- body's atoms.
pub record IsPlain (rule : Rule) : Type 0 where
  pub positive : (i : ℕ) (l : Literal) → get_elem? rule.body i ≡ some l → IsPositive l.kind
  pub restricted :
      (u : ℕ)
      → In (variable u) rule.head.terms
      → (i : ℕ) × (l : Literal) × (get_elem? rule.body i ≡ some l)
        × (l.kind ≡ atom)
        × In (variable u) l.atom.terms
