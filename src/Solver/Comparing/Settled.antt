-- ===== src/Solver/Comparing/Settled.antt =====
-- A comparison that does not fail for a variable without a value has the same result under
-- bindings that give more variables one.
use maelys_datalog.Prelude.{
  ℕ, zero, suc, List, none, some, ◌≡◌, ◌⊎◌, inl, inr, refl, arith, Bool-cases, Option-cases,
  get_elem?, leb,
}
use maelys_datalog.Prelude.Integer.{ℤ}
use maelys_datalog.Bounds.{max_rule_variables}
use maelys_datalog.Fact.{Term, symbol, integer, boolean, variable}
use maelys_datalog.Solver.{unbound_variable, invalid_ordinal_type, Literal, Rule}
use maelys_datalog.Solver.Comparing.{
  Evaluated, value, stopped, refuse_variable, as_integer, bound_integer,
  instantiate_comparison_term, both, eval_leaf, eval_arith_expr, operate, expr_depth, as_term,
  compare_terms, comparison_result,
}
use maelys_datalog.Solver.Matching.{Bindings}
use maelys_datalog.Solver.Matching.Exact.{Extends}
use maelys_datalog.Validate.{ExprNode, is_operation}

abbrev pub Settled : {A : Type 0} → Evaluated A → Evaluated A → Type 0
Settled x y = (x ≡ stopped unbound_variable) ⊎ (x ≡ y)

both-Settled :
    (f : ℤ → ℤ → Evaluated ℤ) (x y z w : Evaluated ℤ)
    → Settled x z
    → Settled y w
    → Settled (both x y f) (both z w f)
both-Settled f x y z w (inl e) k = inl (rw e refl)
both-Settled f (stopped r) y z w (inr e) k = inr (rw (← e) refl)
both-Settled f (value a) y z w (inr e) (inl k) = inl (rw k refl)
both-Settled f (value a) y z w (inr e) (inr k) = inr (rw (e, k) refl)

-- Reading a variable: a value stays the same.
read-Settled :
    {A : Type 0} (b s : Bindings) (v : ℕ) (f : Term → Evaluated A)
    → Extends b s
    → Settled
        (elim (b v) [ none ↦ stopped unbound_variable | some t ↦ f t ])
        (elim (s v) [ none ↦ stopped unbound_variable | some t ↦ f t ])
read-Settled b s v f e = elim (Option-cases (b v)) [
  | inl n ↦ inl (rw n refl)
  | inr (t, k) ↦ inr (rw (k, e v t k) refl)
]

bound_integer-Settled :
    (b s : Bindings) (t : Term) → Extends b s → Settled (bound_integer b t) (bound_integer s t)
bound_integer-Settled b s (symbol x) e = inr refl
bound_integer-Settled b s (integer x) e = inr refl
bound_integer-Settled b s (boolean x) e = inr refl
bound_integer-Settled b s (variable v) e = elim (Bool-cases (leb max_rule_variables v)) [
  | inl big ↦ inr (rw big refl)
  | inr small ↦ rw small (read-Settled b s v (λ t. as_integer t invalid_ordinal_type) e)
]

pub instantiate-Settled :
    (b s : Bindings) (t : Term)
    → Extends b s
    → Settled (instantiate_comparison_term b t) (instantiate_comparison_term s t)
unfolding instantiate_comparison_term
instantiate-Settled b s (symbol x) e = inr refl
instantiate-Settled b s (integer x) e = inr refl
instantiate-Settled b s (boolean x) e = inr refl
instantiate-Settled b s (variable v) e = elim (Bool-cases (leb max_rule_variables v)) [
  | inl big ↦ inr (rw big refl)
  | inr small ↦ rw small (read-Settled b s v (λ t. refuse_variable t) e)
]

eval_leaf-Settled :
    (b s : Bindings) (n : ExprNode) → Extends b s → Settled (eval_leaf b n) (eval_leaf s n)
unfolding eval_leaf
eval_leaf-Settled b s n e = ground (arith, bound_integer-Settled b s n.term e)

pub eval-Settled :
    (b s : Bindings) (fuel : ℕ) (nodes : List ExprNode) (root : ℕ)
    → Extends b s
    → Settled (eval_arith_expr fuel nodes b root) (eval_arith_expr fuel nodes s root)
unfolding eval_arith_expr
eval-Settled b s zero nodes root e = inr refl
eval-Settled b s (suc fuel) nodes root e = elim (Option-cases (get_elem? nodes root)) [
  | inl n ↦ rw (n, eval_arith_expr) (inr refl)
  | inr (n, g) ↦ elim (Bool-cases (is_operation n.kind)) [
    | inl t ↦
        rw (g, eval_arith_expr, t)
          (both-Settled (operate n.kind) _ _ _ _ (eval-Settled b s fuel nodes n.left e)
            (eval-Settled b s fuel nodes n.right e))
    | inr t ↦ rw (g, eval_arith_expr, t) (eval_leaf-Settled b s n e)
  ]
]

as_term-Settled : (x y : Evaluated ℤ) → Settled x y → Settled (as_term x) (as_term y)
as_term-Settled x y (inl e) = inl (rw e refl)
as_term-Settled x y (inr e) = inr (rw e refl)

compare-Settled :
    (op : ℕ) (x y z w : Evaluated Term)
    → Settled x z
    → Settled y w
    → (compare_terms x op y ≡ unbound_variable) ⊎ (compare_terms x op y ≡ compare_terms z op w)
compare-Settled op x y z w (inl e) k = inl (rw e refl)
compare-Settled op (stopped r) y z w (inr e) k = inr (rw (← e) refl)
compare-Settled op (value a) y z w (inr e) (inl k) = inl (rw k refl)
compare-Settled op (value a) y z w (inr e) (inr k) = inr (rw (e, k) refl)

pub comparison_result_settled :
    (b s : Bindings) (rule : Rule) (l : Literal)
    → Extends b s
    → (comparison_result rule l b ≡ unbound_variable)
      ⊎ (comparison_result rule l b ≡ comparison_result rule l s)
unfolding comparison_result
comparison_result_settled b s rule l e = elim (Bool-cases l.has_arith_expr) [
  | inl t ↦ rw t (
      compare-Settled l.op _ _ _ _
        (as_term-Settled _ _ (eval-Settled b s expr_depth rule.expr_nodes l.lhs_expr_root e))
        (as_term-Settled _ _ (eval-Settled b s expr_depth rule.expr_nodes l.rhs_expr_root e)))
  | inr t ↦ rw t (
      compare-Settled l.op _ _ _ _ (instantiate-Settled b s l.lhs e)
        (instantiate-Settled b s l.rhs e))
]
