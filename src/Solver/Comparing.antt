-- ===== src/Solver/Comparing.antt =====
-- Arithmetic and comparisons of a rule, src/core/maelys_datalog_solver.c, from
-- `solve_once_instantiate_comparison_term` to `solve_once_evaluate_comparison_literal`. A term
-- has one of the four known kinds, so that the tests for another kind have no counterpart.
pub mod Settled
use maelys_datalog.Prelude.{
  ℕ, zero, suc, Bool, true, false, not, ◌||◌, List, Option, none, some, Ordering, get_elem?, leb,
  ◌==◌, if◌then◌else◌, ok, invalid_field,
}
use maelys_datalog.Prelude.Integer.{ℤ, compare_ℤ, ◌+ℤ◌, ◌-ℤ◌, ◌*ℤ◌, fits_int64}
use maelys_datalog.Bounds.{max_rule_variables}
use maelys_datalog.Fact.{Term, symbol, integer, boolean, variable, kind, term_equal}
use maelys_datalog.Solver.{
  CompareResult, compare_true, compare_false, invalid_kind, invalid_ordinal_type, unbound_variable,
  unknown_operator, unknown_term_kind, arith_overflow, Literal, Rule, Work, Verdict, fatal, skipped,
  matched, deny_comparison_type_error,
}
use maelys_datalog.Solver.Matching.{Bindings}
use maelys_datalog.Validate.{ExprNode, is_operation}

-- `MAELYS_DATALOG_COMPARE_TRUE` with a value, or the result that ends the evaluation.
pub data Evaluated (A : Type 0) : Type 0 where
  value : A → Evaluated A
  stopped : CompareResult → Evaluated A

abbrev pub refuse_variable : Term → Evaluated Term
refuse_variable (variable _) = stopped unbound_variable
refuse_variable t = value t

unfoldable pub instantiate_comparison_term : Bindings → Term → Evaluated Term
instantiate_comparison_term b (variable v) =
    if leb max_rule_variables v
    then stopped unbound_variable
    else elim (b v) [ none ↦ stopped unbound_variable | some t ↦ refuse_variable t ]
instantiate_comparison_term b t = value t

abbrev pub verdict_of : Bool → CompareResult
verdict_of true = compare_true
verdict_of false = compare_false

-- The four orders of `op`, from `MAELYS_DATALOG_CMP_LT` to `MAELYS_DATALOG_CMP_GTE`.
unfoldable pub compare_integers : ℕ → Ordering → CompareResult
compare_integers op o =
    if op == 3
    then verdict_of (elim o [ Ordering.lt ↦ true | _ ↦ false ])
    else if op == 4
    then verdict_of (elim o [ Ordering.gt ↦ false | _ ↦ true ])
    else if op == 5
    then verdict_of (elim o [ Ordering.gt ↦ true | _ ↦ false ])
    else verdict_of (elim o [ Ordering.lt ↦ false | _ ↦ true ])

abbrev pub order_terms : ℕ → Term → Term → CompareResult
order_terms op (integer a) (integer b) = compare_integers op (compare_ℤ a b)
order_terms op _ _ = invalid_ordinal_type

unfoldable pub evaluate_comparison : Term → ℕ → Term → CompareResult
unfolding compare_integers
evaluate_comparison lhs op rhs =
    if kind lhs == 4 || kind rhs == 4
    then unbound_variable
    else if op == 0 || leb 7 op
    then unknown_operator
    else if not (kind lhs == kind rhs)
    then invalid_kind
    else if op == 1
    then verdict_of (term_equal lhs rhs)
    else if op == 2
    then verdict_of (not (term_equal lhs rhs))
    else order_terms op lhs rhs

-- `__builtin_add_overflow` and its relatives.
unfoldable pub checked : ℤ → Evaluated ℤ
checked z = if fits_int64 z then value z else stopped arith_overflow

unfoldable pub arith_operation : ℕ → ℤ → ℤ → ℤ
arith_operation k a b = if k == 3 then a +ℤ b else if k == 4 then a -ℤ b else a *ℤ b

abbrev pub as_integer : Term → CompareResult → Evaluated ℤ
as_integer (integer z) other = value z
as_integer _ other = stopped other

abbrev pub bound_integer : Bindings → Term → Evaluated ℤ
bound_integer b (variable v) =
    if leb max_rule_variables v
    then stopped unbound_variable
    else elim (b v) [ none ↦ stopped unbound_variable | some t ↦ as_integer t invalid_ordinal_type ]
bound_integer b _ = stopped unknown_term_kind

abbrev pub both : Evaluated ℤ → Evaluated ℤ → (ℤ → ℤ → Evaluated ℤ) → Evaluated ℤ
both (stopped r) _ f = stopped r
both (value a) (stopped r) f = stopped r
both (value a) (value b) f = f a b

-- A leaf's term has the kind of the leaf; a node whose term has another, which validation
-- refuses, counts as an unknown kind.
unfoldable pub eval_leaf : Bindings → ExprNode → Evaluated ℤ
eval_leaf b n =
    if n.kind == 1
    then as_integer n.term unknown_term_kind
    else if n.kind == 2
    then bound_integer b n.term
    else stopped unknown_term_kind

unfoldable pub operate : ℕ → ℤ → ℤ → Evaluated ℤ
operate k x y = checked (arith_operation k x y)

-- The recursion over the nodes from `root`, with the depth allowed.
unfoldable pub eval_arith_expr : ℕ → List ExprNode → Bindings → ℕ → Evaluated ℤ
eval_arith_expr zero nodes b root = stopped unknown_term_kind
eval_arith_expr (suc fuel) nodes b root = elim (get_elem? nodes root) [
  | none ↦ stopped unknown_term_kind
  | some n ↦ elim (is_operation n.kind) [
    | false ↦ eval_leaf b n
    | true ↦
        both (eval_arith_expr fuel nodes b n.left) (eval_arith_expr fuel nodes b n.right)
          (operate n.kind)
  ]
]

-- A rule has at most 32 nodes, and a valid one's operands stand before it.
abbrev pub expr_depth : ℕ
expr_depth = 33

abbrev pub compare_terms : Evaluated Term → ℕ → Evaluated Term → CompareResult
compare_terms (stopped r) op _ = r
compare_terms (value _) op (stopped r) = r
compare_terms (value a) op (value b) = evaluate_comparison a op b

abbrev pub as_term : Evaluated ℤ → Evaluated Term
as_term (value z) = value (integer z)
as_term (stopped r) = stopped r

-- What `solve_once_evaluate_comparison_literal` finds, before it records a failure.
unfoldable pub comparison_result : Rule → Literal → Bindings → CompareResult
comparison_result rule l b =
    if l.has_arith_expr
    then compare_terms (as_term (eval_arith_expr expr_depth rule.expr_nodes b l.lhs_expr_root)) l.op
        (as_term (eval_arith_expr expr_depth rule.expr_nodes b l.rhs_expr_root))
    else compare_terms (instantiate_comparison_term b l.lhs) l.op
        (instantiate_comparison_term b l.rhs)

-- The first failure stays.
unfoldable pub set_comparison_failure : Work → Work
set_comparison_failure w = elim w.failure_error [
  | ok ↦ record w { failure_error = invalid_field; failure_reason = deny_comparison_type_error }
  | _ ↦ w
]

unfoldable pub evaluate_comparison_literal : Rule → Literal → Bindings → Work → Verdict × Work
evaluate_comparison_literal rule l b w = elim (comparison_result rule l b) [
  | compare_true ↦ (matched, w)
  | compare_false ↦ (skipped, w)
  | _ ↦ (fatal, set_comparison_failure w)
]
