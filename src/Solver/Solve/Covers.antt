-- ===== src/Solver/Solve/Covers.antt =====
-- A literal that is safe for the bound variables reads no variable that is not bound.
use maelys_datalog.Prelude.{
  ℕ, zero, suc, true, false, List, [], ◌∷◌, some, ◌≡◌, inl, inr, refl, subst, arith, get_elem?,
  Bool-cases, Option-cases, ltb, leb, ◌==◌, if◌then◌else◌, and_true,
}
use maelys_datalog.Prelude.Integer.{ℤ}
use maelys_datalog.Bounds.{max_rule_variables}
use maelys_datalog.Fact.{Term, symbol, integer, boolean, variable}
use maelys_datalog.Solver.{
  Literal, Rule, Mask, unbound_variable, unknown_term_kind, invalid_ordinal_type,
}
use maelys_datalog.Solver.Comparing.{
  Evaluated, value, stopped, refuse_variable, as_integer, bound_integer,
  instantiate_comparison_term, both, eval_leaf, eval_arith_expr, operate, checked, expr_depth,
  comparison_result,
}
use maelys_datalog.Solver.Comparing.Settled.{Settled, eval-Settled, instantiate-Settled}
use maelys_datalog.Solver.Matching.{
  Bindings, is_variable, no_variables, instantiate_term, instantiate_terms,
}
use maelys_datalog.Solver.Matching.Exact.{Extends, instantiate_terms-some}
use maelys_datalog.Solver.Plan.{
  empty_mask, union, variable_bit, terms_mask, comparison_term_safe, arith_expr_safe,
  comparison_safe,
}
use maelys_datalog.Validate.{ExprNode, is_operation}

-- The variables of the mask are bound, to terms that are no variables.
pub record IsBound (b : Bindings) (u : ℕ) : Type 0 where
  pub term : Term
  pub bound_to : b u ≡ some term
  pub constant : is_variable term ≡ false
  pub in_range : leb max_rule_variables u ≡ false

abbrev pub Covered : Mask → Bindings → Type 0
Covered m b = (u : ℕ) → m u ≡ true → IsBound b u

pub Covered-empty : (b : Bindings) → Covered empty_mask b
Covered-empty b u h = absurd (cc (h))

pub Covered-union : (m n : Mask) (b : Bindings) → Covered m b → Covered n b → Covered (union m n) b
Covered-union m n b c d u h = elim (Bool-cases (m u)) [ inl t ↦ c u t | inr t ↦ d u (rw t at h) ]

-- An instance without variables binds the variables of the pattern.
bit-Covered :
    (b : Bindings) (p t : Term)
    → instantiate_term b p ≡ some t
    → is_variable t ≡ false
    → Covered (variable_bit p) b
unfolding instantiate_term
bit-Covered b (symbol x) t h g u e = absurd (cc (e))
bit-Covered b (integer x) t h g u e = absurd (cc (e))
bit-Covered b (boolean x) t h g u e = absurd (cc (e))
bit-Covered b (variable v) t h g u e = elim (Bool-cases (leb max_rule_variables v)) [
  | inl big ↦ absurd (cc (rw big at h))
  | inr small ↦ elim (Bool-cases (ltb v 64)) [
    | inr no_bit ↦ absurd (cc (rw no_bit at e))
    | inl has_bit ↦
        let same : v ≡ u = let q = rw has_bit at e in ground arith in
        subst (IsBound b) same
          (record { term = t; bound_to = rw small at h; constant = g; in_range = small })
  ]
]

pub terms-Covered :
    (b : Bindings) (ps ts : List Term)
    → instantiate_terms b ps ≡ some ts
    → no_variables ts ≡ true
    → Covered (terms_mask ps) b
unfolding terms_mask no_variables
terms-Covered b [] ts h g = Covered-empty b
terms-Covered b (p ∷ ps) us h g =
    let (t, ts, eq, k, ks) = instantiate_terms-some b p ps us h in
    let gs : no_variables (t ∷ ts) ≡ true = subst (λ x. no_variables x ≡ true) eq g in
    Covered-union (variable_bit p) (terms_mask ps) b (bit-Covered b p t k (ground arith))
      (terms-Covered b ps ts ks (ground arith))

abbrev IsUnbound : {A : Type 0} → Evaluated A → Type 0
IsUnbound x = x ≡ stopped unbound_variable

Settled-same : {A : Type 0} (x y : Evaluated A) → Settled x y → (IsUnbound x → ⊥) → x ≡ y
Settled-same x y (inl u) h = absurd (h u)
Settled-same x y (inr e) h = e

refuse_bound : (t : Term) → is_variable t ≡ false → IsUnbound (refuse_variable t) → ⊥
refuse_bound (symbol x) g h = cc
refuse_bound (integer x) g h = cc
refuse_bound (boolean x) g h = cc
refuse_bound (variable x) g h = cc

as_integer_bound : (t : Term) → IsUnbound (as_integer t invalid_ordinal_type) → ⊥
as_integer_bound (symbol x) h = cc
as_integer_bound (integer x) h = cc
as_integer_bound (boolean x) h = cc
as_integer_bound (variable x) h = cc

literal_bound : (t : Term) → IsUnbound (as_integer t unknown_term_kind) → ⊥
literal_bound (symbol x) h = cc
literal_bound (integer x) h = cc
literal_bound (boolean x) h = cc
literal_bound (variable x) h = cc

checked_bound : (z : ℤ) → IsUnbound (checked z) → ⊥
unfolding checked
checked_bound z h = ground arith

both_bound :
    (x y : Evaluated ℤ) (k : ℕ)
    → (IsUnbound x → ⊥)
    → (IsUnbound y → ⊥)
    → IsUnbound (both x y (operate k))
    → ⊥
unfolding operate
both_bound (stopped r) y k f g h = f h
both_bound (value a) (stopped r) k f g h = g h
both_bound (value a) (value c) k f g h = checked_bound _ h

module _ (m : Mask) (b : Bindings) (covered : Covered m b) where
  pub term_bound :
      (t : Term) → comparison_term_safe t m ≡ true → IsUnbound (instantiate_comparison_term b t) → ⊥
  unfolding comparison_term_safe instantiate_comparison_term
  term_bound (symbol x) s h = cc
  term_bound (integer x) s h = cc
  term_bound (boolean x) s h = cc
  term_bound (variable v) s h =
      let bound = covered v (and_true (ltb v 64) (m v) s).1 in
      refuse_bound bound.term bound.constant (rw (bound.in_range, bound.bound_to) at h)

  integer_bound : (t : Term) → comparison_term_safe t m ≡ true → IsUnbound (bound_integer b t) → ⊥
  unfolding comparison_term_safe
  integer_bound (symbol x) s h = cc
  integer_bound (integer x) s h = cc
  integer_bound (boolean x) s h = cc
  integer_bound (variable v) s h =
      let bound = covered v (and_true (ltb v 64) (m v) s).1 in
      as_integer_bound bound.term (rw (bound.in_range, bound.bound_to) at h)

  leaf_bound :
      (n : ExprNode)
      → (if n.kind == 1 then true else if n.kind == 2 then comparison_term_safe n.term m else false)
        ≡ true
      → IsUnbound (eval_leaf b n)
      → ⊥
  unfolding eval_leaf
  leaf_bound n s h = elim (Bool-cases (n.kind == 1)) [
    | inl t ↦ literal_bound n.term (rw (t, eval_leaf) at h)
    | inr t ↦ elim (Bool-cases (n.kind == 2)) [
      | inl u ↦ integer_bound n.term (rw (t, u) at s) (rw (t, eval_leaf, u) at h)
      | inr u ↦ cc (rw (t, u) at s)
    ]
  ]

  eval_bound :
      (fuel : ℕ) (nodes : List ExprNode) (root : ℕ)
      → arith_expr_safe fuel nodes root m ≡ true
      → IsUnbound (eval_arith_expr fuel nodes b root)
      → ⊥
  unfolding arith_expr_safe eval_arith_expr
  eval_bound zero nodes root s h = cc
  eval_bound (suc fuel) nodes root s h = elim (Option-cases (get_elem? nodes root)) [
    | inl n ↦ cc (rw (n, arith_expr_safe) at s)
    | inr (n, e) ↦ elim (Bool-cases (is_operation n.kind)) [
      | inl t ↦
          let safe =
            and_true (arith_expr_safe fuel nodes n.left m) (arith_expr_safe fuel nodes n.right m)
              (rw (e, arith_expr_safe, t) at s) in
          both_bound (eval_arith_expr fuel nodes b n.left) (eval_arith_expr fuel nodes b n.right)
            n.kind (eval_bound fuel nodes n.left safe.0) (eval_bound fuel nodes n.right safe.1)
            (rw (e, eval_arith_expr, t) at h)
      | inr t ↦ leaf_bound n (rw (e, arith_expr_safe, t) at s) (rw (e, eval_arith_expr, t) at h)
    ]
  ]

  -- So a safe comparison has the result that it has under any bindings that extend these.
  pub comparison_same :
      (rule : Rule) (l : Literal) (s : Bindings)
      → comparison_safe rule l m ≡ true
      → Extends b s
      → comparison_result rule l b ≡ comparison_result rule l s
  unfolding comparison_result
  comparison_same rule l s safe e = elim (Bool-cases l.has_arith_expr) [
    | inl t ↦
        let parts = and_true _ _ (rw t at safe) in
        rw
          (
            t,
            Settled-same _ _ (eval-Settled b s expr_depth rule.expr_nodes l.lhs_expr_root e)
                (eval_bound expr_depth rule.expr_nodes l.lhs_expr_root parts.0),
            Settled-same _ _ (eval-Settled b s expr_depth rule.expr_nodes l.rhs_expr_root e)
                (eval_bound expr_depth rule.expr_nodes l.rhs_expr_root parts.1),
          )
          refl
    | inr t ↦
        let parts =
          and_true (comparison_term_safe l.lhs m) (comparison_term_safe l.rhs m) (rw t at safe) in
        rw
          (
            t,
            Settled-same _ _ (instantiate-Settled b s l.lhs e) (term_bound l.lhs parts.0),
            Settled-same _ _ (instantiate-Settled b s l.rhs e) (term_bound l.rhs parts.1),
          )
          refl
  ]

  pub value_same :
      (t : Term) (s : Bindings)
      → comparison_term_safe t m ≡ true
      → Extends b s
      → instantiate_comparison_term b t ≡ instantiate_comparison_term s t
  value_same t s safe e = Settled-same _ _ (instantiate-Settled b s t e) (term_bound t safe)
