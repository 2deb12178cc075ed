-- ===== src/Solver/Plan.antt =====
-- The order in which the literals of a rule are joined: `build_static_join_order` of
-- src/core/maelys_datalog_solver.c with the functions that it calls.
pub mod Choice
pub mod Complete
use maelys_datalog.Prelude.{
  ℕ, zero, suc, ◌+◌, ◌-◌, Bool, true, false, not, ◌&&◌, ◌||◌, List, [], ◌∷◌, ◌++◌, Option, none,
  some, length, get_elem?, ltb, leb, ◌==◌, if◌then◌else◌, Rc, ok, invalid_argument, invalid_field,
  invalid_state, internal, Checked, refused, passed, ◌>>=◌, ◌>>◌,
}
use maelys_datalog.Bounds.{max_body_literals, named_variable_count}
use maelys_datalog.Fact.{Term, symbol, integer, boolean, variable, Fact}
use maelys_datalog.Registry.{Entry, registry_get, has_flag, kind_idb}
use maelys_datalog.Solver.{Literal, Rule, Ruleset, Mask, JoinCandidate, Planner}
use maelys_datalog.Edb.{or_refuse}
use maelys_datalog.Solver.Filters.{callback_status, with_code, require}
use maelys_datalog.Strata.{
  LiteralKind, atom, comparison, negated_atom, filter, count, min, max, sum, is_aggregate,
}
use maelys_datalog.Validate.{ExprNode, is_operation}

abbrev pub empty_mask : Mask
empty_mask _ = false

abbrev pub mark : Mask → ℕ → Mask
mark m i j = i == j || m j

abbrev pub union : Mask → Mask → Mask
union m n j = m j || n j

-- `as.variable`, of a term that is a variable.
abbrev pub variable_bit : Term → Mask
variable_bit (variable v) = if ltb v 64 then mark empty_mask v else empty_mask
variable_bit _ = empty_mask

unfoldable pub terms_mask : List Term → Mask
terms_mask [] = empty_mask
terms_mask (t ∷ ts) = union (variable_bit t) (terms_mask ts)

-- The result of an aggregate is a variable below 64 in a rule that validation accepts. The source
-- shifts by the field whatever it holds; here another term gives no bit.
unfoldable pub literal_var_mask : Literal → Mask
literal_var_mask l = elim l.kind [
  | atom ↦ terms_mask l.atom.terms
  | filter ↦ variable_bit l.filter_value
  | comparison ↦ empty_mask
  | negated_atom ↦ empty_mask
  | _ ↦ variable_bit l.rhs
]

unfoldable pub literal_delta_eligible : Ruleset → Literal → Bool
literal_delta_eligible r l = elim l.kind [
  | atom ↦ elim (registry_get r.registry l.atom.predicate_id) [
    | none ↦ false
    | some d ↦ has_flag d.kind_flags kind_idb
  ]
  | _ ↦ false
]

unfoldable pub comparison_term_safe : Term → Mask → Bool
comparison_term_safe (variable v) bound = ltb v 64 && bound v
comparison_term_safe _ bound = true

-- The recursion over the nodes of an expression, with the depth allowed.
unfoldable pub arith_expr_safe : ℕ → List ExprNode → ℕ → Mask → Bool
arith_expr_safe zero nodes root bound = false
arith_expr_safe (suc fuel) nodes root bound = elim (get_elem? nodes root) [
  | none ↦ false
  | some n ↦ elim (is_operation n.kind) [
    | true ↦ arith_expr_safe fuel nodes n.left bound && arith_expr_safe fuel nodes n.right bound
    | false ↦
        if n.kind == 1
        then true
        else if n.kind == 2
        then comparison_term_safe n.term bound
        else false
  ]
]

abbrev pub same_variable : Term → ℕ → Bool
same_variable (variable u) v = u == v
same_variable _ v = false

-- A term of an aggregate's atom: the projected variable and the anonymous ones are free.
abbrev pub group_term_safe : Term → Term → Mask → Bool
group_term_safe projection (variable v) bound =
    same_variable projection v
    || leb named_variable_count v
    || comparison_term_safe (variable v) bound
group_term_safe projection _ bound = true

unfoldable pub group_safe : Term → List Term → Mask → Bool
group_safe projection [] bound = true
group_safe projection (t ∷ ts) bound =
    group_term_safe projection t bound && group_safe projection ts bound

unfoldable pub terms_safe : List Term → Mask → Bool
terms_safe [] bound = true
terms_safe (t ∷ ts) bound = comparison_term_safe t bound && terms_safe ts bound

abbrev pub safe_depth : ℕ
safe_depth = 33

abbrev pub comparison_safe : Rule → Literal → Mask → Bool
comparison_safe rule l bound =
    if l.has_arith_expr
    then arith_expr_safe safe_depth rule.expr_nodes l.lhs_expr_root bound
      && arith_expr_safe safe_depth rule.expr_nodes l.rhs_expr_root bound
    else comparison_term_safe l.lhs bound && comparison_term_safe l.rhs bound

unfoldable pub literal_safe : Rule → Literal → Mask → Bool
literal_safe rule l bound = elim l.kind [
  | atom ↦ true
  | filter ↦ comparison_term_safe l.filter_value bound
  | negated_atom ↦ terms_safe l.atom.terms bound
  | comparison ↦ comparison_safe rule l bound
  | _ ↦ group_safe l.lhs l.atom.terms bound
]

unfoldable pub terms_score : List Term → Mask → ℕ
terms_score [] bound = 0
terms_score (variable v ∷ ts) bound = (if ltb v 64 && bound v then 20 else 0) + terms_score ts bound
terms_score (_ ∷ ts) bound = 10 + terms_score ts bound

-- A positive atom scores at least 50, so that a natural number holds the `int64_t`.
unfoldable pub literal_static_score : Ruleset → Literal → Mask → ℕ
literal_static_score r l bound = elim l.kind [
  | atom ↦ 100 + terms_score l.atom.terms bound - (if literal_delta_eligible r l then 50 else 0)
  | _ ↦ 0
]

-- The loop that looks for the best literal: those from place `i` on, and the best so far.
abbrev pub improves : ℕ → ℕ → Option (ℕ × ℕ) → Bool
improves i score none = true
improves i score (some (best, best_score)) =
    ltb best_score score || (score == best_score && ltb i best)

abbrev pub may_come : Rule → Mask → Mask → ℕ → Literal → Bool
may_come rule planned bound i l = not (planned i) && literal_safe rule l bound

unfoldable pub best_loop :
    Ruleset → Rule → Mask → Mask → ℕ → List Literal → Option (ℕ × ℕ) → Option (ℕ × ℕ)
best_loop r rule planned bound i [] best = best
best_loop r rule planned bound i (l ∷ ls) best = best_loop r rule planned bound (suc i) ls (
    if may_come rule planned bound i l && improves i (literal_static_score r l bound) best
    then some (i, literal_static_score r l bound)
    else best)

unfoldable pub ready_aggregate : Rule → Mask → Mask → ℕ → List Literal → Option ℕ
ready_aggregate rule planned bound i [] = none
ready_aggregate rule planned bound i (l ∷ ls) =
    if not (planned i) && is_aggregate l.kind && literal_safe rule l bound
    then some i
    else ready_aggregate rule planned bound (suc i) ls

abbrev pub bit : Bool → ℕ
bit b = if b then 1 else 0

abbrev pub is_bound : Mask → Term → Bool
is_bound bound (variable v) = ltb v 64 && bound v
is_bound bound _ = false

abbrev pub is_constant : Term → Bool
is_constant (variable v) = false
is_constant _ = true

unfoldable pub count_terms : (Term → Bool) → List Term → ℕ
count_terms p [] = 0
count_terms p (t ∷ ts) = bit (p t) + count_terms p ts

abbrev pub plain_candidate : Ruleset → ℕ → Literal → Mask → JoinCandidate
plain_candidate r i l bound = record {
  body_index = i;
  kind = l.kind;
  bound_variable_mask = bound;
  variable_mask = literal_var_mask l;
  default_score = literal_static_score r l bound;
  predicate_name = [];
  predicate_flags = 0;
  arity = 0;
  constant_terms = 0;
  bound_terms = 0;
}

abbrev pub atom_candidate : Ruleset → ℕ → Literal → Mask → Entry → JoinCandidate
atom_candidate r i l bound def = record {
  body_index = i;
  kind = l.kind;
  bound_variable_mask = bound;
  variable_mask = union (literal_var_mask l) (terms_mask l.atom.terms);
  default_score = literal_static_score r l bound;
  predicate_name = def.name;
  predicate_flags = def.kind_flags;
  arity = length l.atom.terms;
  constant_terms = count_terms is_constant l.atom.terms;
  bound_terms = count_terms (is_bound bound) l.atom.terms;
}

abbrev pub names_predicate : LiteralKind → Bool
names_predicate kind = elim kind [ atom ↦ true | negated_atom ↦ true | _ ↦ false ]

unfoldable pub candidate_of : Ruleset → ℕ → Literal → Mask → Checked JoinCandidate
candidate_of r i l bound =
    if names_predicate l.kind
    then (or_refuse (registry_get r.registry l.atom.predicate_id) invalid_state >>= λ def.
        passed (atom_candidate r i l bound def))
    else passed (plain_candidate r i l bound)

unfoldable pub candidates_loop :
    Ruleset → Rule → Mask → Mask → ℕ → List Literal → Checked (List JoinCandidate)
candidates_loop r rule planned bound i [] = passed []
candidates_loop r rule planned bound i (l ∷ ls) =
    let rest = candidates_loop r rule planned bound (suc i) ls in
    if may_come rule planned bound i l
    then (candidate_of r i l bound >>= λ c. rest >>= λ cs. passed (c ∷ cs))
    else rest

abbrev pub is_nil : List JoinCandidate → Bool
is_nil [] = true
is_nil (_ ∷ _) = false

-- `body_indices` are those of the candidates, in the core's own list.
unfoldable pub module_choose_literal : Planner → Ruleset → Rule → Mask → Mask → Checked ℕ
module_choose_literal planner r rule planned bound = do
  candidates ← candidates_loop r rule planned bound 0 rule.body
  require (not (is_nil candidates)) invalid_field
  chosen ← with_code (callback_status ((planner candidates).0)) ((planner candidates).1)
  candidate ← or_refuse (get_elem? candidates chosen) invalid_state
  passed candidate.body_index

abbrev pub best_or_fail : Option (ℕ × ℕ) → Checked ℕ
best_or_fail none = refused invalid_field
best_or_fail (some (best, score)) = passed best

-- One round: the place of the literal that comes next.
unfoldable pub next_literal : Ruleset → Rule → Mask → Mask → Checked ℕ
next_literal r rule planned bound = elim r.planner [
  | none ↦ best_or_fail (best_loop r rule planned bound 0 rule.body none)
  | some planner ↦
      elim (if r.aggregates_supported
        then ready_aggregate rule planned bound 0 rule.body
        else none) [ some i ↦ passed i | none ↦ module_choose_literal planner r rule planned bound ]
]

abbrev pub mask_at : Rule → ℕ → Mask
mask_at rule i = elim (get_elem? rule.body i) [ none ↦ empty_mask | some l ↦ literal_var_mask l ]

-- The `while` loop, with the rounds left.
unfoldable pub order_loop : ℕ → Ruleset → Rule → Mask → Mask → Checked (List ℕ)
order_loop zero r rule planned bound = passed []
order_loop (suc left) r rule planned bound = elim (next_literal r rule planned bound) [
  | refused rc ↦ refused rc
  | passed i ↦ elim (order_loop left r rule (mark planned i) (union bound (mask_at rule i))) [
    | refused rc ↦ refused rc
    | passed order ↦ passed (i ∷ order)
  ]
]

unfoldable pub delta_order : Ruleset → Rule → ℕ → Checked (List ℕ)
delta_order r rule i = elim (get_elem? rule.body i) [
  | none ↦ refused invalid_argument
  | some l ↦
      if not (literal_delta_eligible r l)
      then refused invalid_argument
      else elim (order_loop (length rule.body - 1) r rule (mark empty_mask i)
          (literal_var_mask l)) [ refused rc ↦ refused rc | passed order ↦ passed (i ∷ order) ]
]

unfoldable pub build_static_join_order : Ruleset → Rule → Option ℕ → Checked (List ℕ)
build_static_join_order r rule delta =
    if ltb max_body_literals (length rule.body) then refused invalid_argument else elim delta [
      | none ↦ order_loop (length rule.body) r rule empty_mask empty_mask
      | some i ↦ delta_order r rule i
    ]
