-- ===== src/Validate/Visits.antt =====
-- How many nodes a recursive evaluation of an accepted expression visits.
use maelys_datalog.Prelude.{
  ℕ, suc, ◌+◌, ◌≤◌, ◌<◌, true, List, [], ◌∷◌, some, ◌≡◌, ◌⊎◌, refl, sym, length, get_elem?, leb,
  ◌==◌, arith, inl, inr, Bool-cases, Option-cases, and_true, subst,
}
use maelys_datalog.Bounds.{max_arith_expr_nodes}
use maelys_datalog.Symbols.{SymbolTable}
use maelys_datalog.Validate.{
  ExprNode, is_leaf, is_operation, node_step, nodes_loop, update, valid_expressions,
}

-- An evaluation from a node on visits the node and, for an operation, what its two operands visit,
-- a shared one twice.
pub data Visits (nodes : List ExprNode) : ℕ → ℕ → Type 0 where
  leaf :
      (i : ℕ) (n : ExprNode) → get_elem? nodes i ≡ some n → is_leaf n.kind ≡ true → Visits nodes i 1
  operation :
      (i : ℕ) (n : ExprNode) (a b : ℕ)
      → get_elem? nodes i ≡ some n
      → is_operation n.kind ≡ true
      → Visits nodes n.left a
      → Visits nodes n.right b
      → Visits nodes i (a + b + 1)

-- The entries of `expanded` below `i`.
abbrev Counts : List ExprNode → (ℕ → ℕ) → ℕ → Type 0
Counts nodes expanded i =
    (j : ℕ) → j < i → Visits nodes j (expanded j) × (expanded j ≤ max_arith_expr_nodes)

node_step-cases :
    (symbols : SymbolTable) (expanded : ℕ → ℕ) (i : ℕ) (n : ExprNode) (e : ℕ)
    → node_step symbols expanded i n ≡ some e
    → (e ≤ max_arith_expr_nodes)
      × (((is_leaf n.kind ≡ true) × (e ≡ 1))
          ⊎ ((is_operation n.kind ≡ true)
              × (n.left < i)
              × (n.right < i)
              × (e ≡ expanded n.left + expanded n.right + 1)))
unfolding node_step
node_step-cases symbols expanded i n e h = ground arith

node_step-Visits :
    (nodes : List ExprNode) (symbols : SymbolTable) (expanded : ℕ → ℕ) (i : ℕ) (n : ExprNode)
    (e : ℕ)
    → Counts nodes expanded i
    → get_elem? nodes i ≡ some n
    → node_step symbols expanded i n ≡ some e
    → Visits nodes i e × (e ≤ max_arith_expr_nodes)
node_step-Visits nodes symbols expanded i n e c g h =
    let (small, how) = node_step-cases symbols expanded i n e h in
    elim how [
      | inl (k, one) ↦ (subst (Visits nodes i) (sym one) (leaf i n g k), small)
      | inr (k, l, r, total) ↦ (
        subst (Visits nodes i) (sym total)
            (operation i n (expanded n.left) (expanded n.right) g k (c n.left l).0 (c n.right r).0),
        small,
      )
    ]

Counts-update :
    (nodes : List ExprNode) (expanded : ℕ → ℕ) (i e : ℕ)
    → Counts nodes expanded i
    → Visits nodes i e × (e ≤ max_arith_expr_nodes)
    → Counts nodes (update expanded i e) (i + 1)
Counts-update nodes expanded i e c v j h = elim (Bool-cases (i == j)) [
  | inl s ↦ let same : i ≡ j = ground arith in rw s (subst (λ k. Visits nodes k e) same v.0, v.1)
  | inr s ↦ let less : j < i = ground arith in rw s (c j less)
]

nodes_loop-Counts :
    (nodes : List ExprNode) (symbols : SymbolTable) (expanded : ℕ → ℕ) (i : ℕ)
    (rest : List ExprNode)
    → Counts nodes expanded i
    → ((k : ℕ) (n : ExprNode) → get_elem? rest k ≡ some n → get_elem? nodes (i + k) ≡ some n)
    → nodes_loop symbols expanded i rest ≡ true
    → (all : ℕ → ℕ) × Counts nodes all (i + length rest)
unfolding nodes_loop
nodes_loop-Counts nodes symbols expanded i [] c g h = (expanded, λ j l. c j (omega (arith, l)))
nodes_loop-Counts nodes symbols expanded i (n ∷ ns) c g h =
    elim (Option-cases (node_step symbols expanded i n)) [
      | inl e ↦ cc (rw (e, nodes_loop) at h)
      | inr (e, s) ↦
          let back : i + 0 ≡ i = omega arith in
          let here = subst (λ k. get_elem? nodes k ≡ some n) back (g 0 n refl) in
          let v = node_step-Visits nodes symbols expanded i n e c here s in
          let (all, counts) =
            nodes_loop-Counts nodes symbols (update expanded i e) (i + 1) ns
              (Counts-update nodes expanded i e c v)
              (λ k m l.
                let along : i + suc k ≡ i + 1 + k = omega arith in
                subst (λ x. get_elem? nodes x ≡ some m) along (g (suc k) m l))
              (rw (s, nodes_loop) at h) in
          (all, λ j l. counts j (omega (arith, l)))
    ]

-- Where `valid_expressions` accepts the nodes of a rule, a recursive evaluation from any of them
-- ends, and it visits at most 32 nodes, a shared one counted each time.
pub valid_expressions-Visits :
    (symbols : SymbolTable) (nodes : List ExprNode) (root : ℕ)
    → valid_expressions symbols nodes ≡ true
    → root < length nodes
    → (visits : ℕ) × Visits nodes root visits × (visits ≤ max_arith_expr_nodes)
unfolding valid_expressions
valid_expressions-Visits symbols nodes root h r =
    let accepted = (and_true (leb (length nodes) max_arith_expr_nodes) _ h).1 in
    let (all, counts) =
      nodes_loop-Counts nodes symbols (λ _. 0) 0 nodes (λ j l. absurd (omega (arith, l)))
        (λ k n g.
          let same : k ≡ 0 + k = omega arith in subst (λ x. get_elem? nodes x ≡ some n) same g)
        accepted in
    let (v, small) = counts root (omega (arith, r)) in (all root, v, small)
