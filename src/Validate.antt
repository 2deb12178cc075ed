-- ===== src/Validate.antt =====
-- Terms, atoms and arithmetic expressions of a rule, src/compiler/maelys_datalog_validate.c.
pub mod Visits
use maelys_datalog.Prelude.{
  ℕ, zero, suc, ◌+◌, Bool, true, false, not, ◌&&◌, ◌||◌, List, [], ◌∷◌, Option, none, some, length,
  ltb, leb, ◌==◌, if◌then◌else◌,
}
use maelys_datalog.Prelude.Integer.{ℤ, pos, negsuc}
use maelys_datalog.Bounds.{max_arity, max_int, max_rule_variables, max_arith_expr_nodes}
use maelys_datalog.Fact.{Term, symbol, integer, boolean, variable, kind, Fact}
use maelys_datalog.Registry.{Registry, registry_get}
use maelys_datalog.Symbols.{SymbolTable, symbol_id_is_valid}

unfoldable pub valid_term : SymbolTable → Term → Bool → Bool
valid_term symbols (symbol id) variables = symbol_id_is_valid symbols id
valid_term symbols (integer (pos n)) variables = leb n max_int
valid_term symbols (integer (negsuc _)) variables = false
valid_term symbols (boolean _) variables = true
valid_term symbols (variable v) variables = variables && ltb v max_rule_variables

unfoldable pub valid_terms : SymbolTable → List Term → Bool → Bool
valid_terms symbols [] variables = true
valid_terms symbols (t ∷ ts) variables =
    valid_term symbols t variables && valid_terms symbols ts variables

-- An atom has the shape of a fact; `MAELYS_DATALOG_MAX_TERMS` is the largest arity.
unfoldable pub valid_atom : Registry → SymbolTable → Fact → Bool → Bool
valid_atom registry symbols a variables = elim (registry_get registry a.predicate_id) [
  | none ↦ false
  | some d ↦
      if ltb max_arity (length a.terms) || not (length a.terms == d.arity)
      then false
      else valid_terms symbols a.terms variables
]

-- `kind` is the number of `maelys_datalog_arith_expr_kind_t`, from a literal to a product, or any
-- other that the byte holds.
pub record ExprNode : Type 0 where
  pub kind : ℕ
  pub left : ℕ
  pub right : ℕ
  pub term : Term

abbrev pub is_leaf : ℕ → Bool
is_leaf k = k == 1 || k == 2

abbrev pub is_operation : ℕ → Bool
is_operation k = leb 3 k && leb k 5

-- `++expanded[i]` with the test of the bound.
abbrev pub bounded : ℕ → Option ℕ
bounded n = if ltb max_arith_expr_nodes n then none else some n

-- One round, which gives `expanded[i]`.
unfoldable pub node_step : SymbolTable → (ℕ → ℕ) → ℕ → ExprNode → Option ℕ
node_step symbols expanded i n =
    if is_leaf n.kind
    then (if not (kind n.term == (if n.kind == 1 then 2 else 4))
          || not (valid_term symbols n.term true)
        then none
        else bounded (0 + 1))
    else if is_operation n.kind
    then (if leb i n.left || leb i n.right
        then none
        else bounded (expanded n.left + expanded n.right + 1))
    else none

abbrev pub update : (ℕ → ℕ) → ℕ → ℕ → ℕ → ℕ
update f k v i = if k == i then v else f i

unfoldable pub nodes_loop : SymbolTable → (ℕ → ℕ) → ℕ → List ExprNode → Bool
nodes_loop symbols expanded i [] = true
nodes_loop symbols expanded i (n ∷ ns) = elim (node_step symbols expanded i n) [
  | none ↦ false
  | some e ↦ nodes_loop symbols (update expanded i e) (i + 1) ns
]

unfoldable pub valid_expressions : SymbolTable → List ExprNode → Bool
valid_expressions symbols nodes =
    leb (length nodes) max_arith_expr_nodes && nodes_loop symbols (λ _. 0) 0 nodes
