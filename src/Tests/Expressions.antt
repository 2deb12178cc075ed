-- ===== src/Tests/Expressions.antt =====
-- Arithmetic expressions.
use maelys_datalog.Prelude.{ℕ, true, List, [], ◌∷◌, ◌≡◌, ◌≤◌, refl, arith}
use maelys_datalog.Prelude.Integer.{pos}
use maelys_datalog.Bounds.{max_arith_expr_nodes}
use maelys_datalog.Fact.{integer}
use maelys_datalog.Symbols.{symbol_table_init}
use maelys_datalog.Validate.{ExprNode, valid_expressions, nodes_loop, node_step, valid_term}
use maelys_datalog.Validate.Visits.{Visits, valid_expressions-Visits}

-- 3, 3 + 3 with the literal shared, and its square.
abbrev square : List ExprNode
square =
    (record { kind = 1; left = 0; right = 0; term = integer (pos 3) })
    ∷ (record { kind = 3; left = 0; right = 0; term = integer (pos 0) })
    ∷ (record { kind = 5; left = 1; right = 1; term = integer (pos 0) })
    ∷ []

is_valid : valid_expressions symbol_table_init square ≡ true
unfolding valid_expressions nodes_loop node_step valid_term
is_valid = refl

valid_expressions-Visits_example :
    (visits : ℕ) × Visits square 2 visits × (visits ≤ max_arith_expr_nodes)
valid_expressions-Visits_example =
    valid_expressions-Visits symbol_table_init square 2 is_valid (omega arith)
