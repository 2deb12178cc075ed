-- ===== src/Tests/Solving.antt =====
-- The solver: a transitive closure over two edges.
use maelys_datalog.Prelude.{
  arith, ok, length, ℕ, zero, suc, Bool, true, false, List, [], ◌∷◌, none, some, ◌≡◌, ◌↔◌, ◌⊎◌, inl,
  inr, refl, sym, subst, In, get_elem?, passed, some_inj,
}
use maelys_datalog.Prelude.Integer.{pos}
use maelys_datalog.Edb.{Edb}
use maelys_datalog.Fact.{
  Term, integer, variable, Fact, fact_cmp, fact_equals, terms_cmp, term_cmp, term_equal,
}
use maelys_datalog.FactSet.{FactSet, scan, fact_set_dedup, dedup_from}
use maelys_datalog.Registry.{Registry}
use maelys_datalog.Solver.{Literal, Rule, Ruleset, View, Work, PredRange}
use maelys_datalog.Solver.Derive.{
  append_idb_merge, insert_merged, derive_head, match_candidate, and_next, scan_candidates,
  idb_window, scan_window, scan_sources, atom_step, solve_kind, solve_literal, literal_step,
  derive_ordered, has_predicate, head_may_be_in_base, fact_in_base,
}
use maelys_datalog.Solver.Derive.Exact.{derive_ordered_exact}
use maelys_datalog.Solver.Derive.Reads.{Derives}
use maelys_datalog.Solver.Derive.Runs.{Present}
use maelys_datalog.Solver.Matching.{
  Bindings, unbound, bind_variable, bind_or_match, match_terms, instantiate_term, instantiate_terms,
  instantiate_fact, no_variables, fact_structurally_valid, facts_structurally_valid,
}
use maelys_datalog.Solver.Matching.Exact.{Extends, match_terms_least}
use maelys_datalog.Solver.Plan.{
  terms_mask, literal_var_mask, literal_delta_eligible, literal_safe, terms_score,
  literal_static_score, best_loop, next_literal, order_loop, delta_order, build_static_join_order,
}
use maelys_datalog.Solver.Plan.Complete.{IsOrder, StartsWith, build_static_join_order-IsOrder}
use maelys_datalog.Solver.Ranges.{
  run_length, set_range, ranges_loop, no_ranges, build_edb_ranges, edb_slice,
}
use maelys_datalog.Solver.Ranges.Exact.{edb_slice_exact}
use maelys_datalog.Solver.Solve.{
  solve_loaded, solved, body_filters_valid, rules_filters_valid, filters_structurally_valid,
  apply_rule, first_rules, delta_literals, delta_rules, rounds, solve_rounds, finalize,
  initial_view, begin_solve, solve_once_run, empty_work,
}
use maelys_datalog.Solver.Solve.Least.{IsLeast}
use maelys_datalog.Solver.Solve.Result.{solve_once_run-IsLeast, solve_once_run-IsStrict}
use maelys_datalog.FactSet.Order.{IsSorted, IsStrict}
use maelys_datalog.FactSet.Sorting.{fact_set_sort, fact_set_sort-IsSorted}
use maelys_datalog.Sort.Prefix
use maelys_datalog.Sort.Prefix.{sort_lem}
use maelys_datalog.Prelude.Compare.{IsOrder-ℕ}
use Prim.Native.Nat.{compare}
use maelys_datalog.Solver.Solve.Meaning.{IsPlain, IsPositive}
use maelys_datalog.Sort.{sort}
use maelys_datalog.Strata.{atom}
use maelys_datalog.Symbols.{symbol_table_init}

-- Predicate 0 is an edge, of the EDB, and predicate 1 a path, derived.
abbrev two_predicates : Registry
two_predicates = record {
  defs =
      (record { name = b'e' ∷ []; arity = 2; kind_flags = 1 })
      ∷ (record { name = b'p' ∷ []; arity = 2; kind_flags = 2 })
      ∷ [];
  atoms = [];
  frozen = true;
}

abbrev pair : ℕ → Term → Term → Fact
pair p a b = record { predicate_id = p; terms = a ∷ b ∷ [] }

abbrev number : ℕ → Term
number n = integer (pos n)

abbrev reads : Fact → Literal
reads a = record {
  kind = atom;
  atom = a;
  lhs = number 0;
  rhs = number 0;
  op = 0;
  lhs_expr_root = 0;
  rhs_expr_root = 0;
  has_arith_expr = false;
  filter_kind = 0;
  filter_program_index = 0;
  filter_value = number 0;
}

abbrev step_rule : Rule
step_rule = record {
  head = pair 1 (variable 0) (variable 1);
  body = reads (pair 0 (variable 0) (variable 1)) ∷ [];
  expr_nodes = [];
}

abbrev closure_rule : Rule
closure_rule = record {
  head = pair 1 (variable 0) (variable 2);
  body = reads (pair 1 (variable 0) (variable 1)) ∷ reads (pair 0 (variable 1) (variable 2)) ∷ [];
  expr_nodes = [];
}

abbrev paths : Ruleset
paths = record {
  loaded = true;
  registry = two_predicates;
  facts = [];
  rules = step_rule ∷ closure_rule ∷ [];
  strata = λ _. 0;
  max_stratum = 0;
  strata_assigned = false;
  negation_supported = false;
  aggregates_supported = false;
  filter_programs = [];
  filter_pattern_pool = [];
  filter_by_kind = λ _. none;
  planner = none;
}

abbrev edges : List Fact
edges = pair 0 (number 1) (number 2) ∷ pair 0 (number 2) (number 3) ∷ []

abbrev edge_set : FactSet
edge_set = record { facts = edges; capacity = 8; sorted = true }

abbrev graph : Edb
graph = record {
  fact_set = edge_set;
  facts_per_pred = λ _. 2;
  immutable = true;
  symbols = symbol_table_init;
  registry = two_predicates;
}

all_paths : FactSet
all_paths = record {
  facts =
      pair 1 (number 1) (number 2)
      ∷ pair 1 (number 1) (number 3)
      ∷ pair 1 (number 2) (number 3)
      ∷ [];
  capacity = 16;
  sorted = true;
}

solves : solve_once_run paths graph 16 ≡ solved all_paths
unfolding solve_once_run solve_loaded all_paths begin_solve filters_structurally_valid
    rules_filters_valid body_filters_valid facts_structurally_valid fact_structurally_valid
    no_variables build_edb_ranges ranges_loop run_length solve_rounds first_rules apply_rule
    build_static_join_order order_loop next_literal best_loop literal_safe literal_static_score
    terms_score literal_delta_eligible literal_var_mask terms_mask derive_ordered literal_step
    solve_literal solve_kind atom_step scan_sources scan_window idb_window scan_candidates and_next
    match_candidate match_terms bind_or_match bind_variable term_equal derive_head instantiate_fact
    instantiate_terms instantiate_term append_idb_merge insert_merged head_may_be_in_base
    has_predicate fact_in_base scan fact_equals fact_cmp terms_cmp term_cmp edb_slice rounds
    delta_rules delta_literals delta_order finalize fact_set_sort sort fact_set_dedup dedup_from
solves = refl

step-IsPositive : (i : ℕ) (l : Literal) → get_elem? step_rule.body i ≡ some l → IsPositive l.kind
step-IsPositive zero l e = subst (λ x. IsPositive x.kind) (some_inj e) tt
step-IsPositive (suc i) l e = cc

closure-IsPositive :
    (i : ℕ) (l : Literal) → get_elem? closure_rule.body i ≡ some l → IsPositive l.kind
closure-IsPositive zero l e = subst (λ x. IsPositive x.kind) (some_inj e) tt
closure-IsPositive (suc zero) l e = subst (λ x. IsPositive x.kind) (some_inj e) tt
closure-IsPositive (suc (suc i)) l e = cc

step-IsPlain : IsPlain step_rule
step-IsPlain = record {
  positive = step-IsPositive;
  restricted = λ u m. (0, reads (pair 0 (variable 0) (variable 1)), refl, refl, m);
}

closure_restricted :
    (u : ℕ)
    → In (variable u) closure_rule.head.terms
    → (i : ℕ) × (l : Literal) × (get_elem? closure_rule.body i ≡ some l)
      × (l.kind ≡ atom)
      × In (variable u) l.atom.terms
closure_restricted u (inl e) = (0, reads (pair 1 (variable 0) (variable 1)), refl, refl, inl e)
closure_restricted u (inr (inl e)) =
    (1, reads (pair 0 (variable 1) (variable 2)), refl, refl, inr (inl e))
closure_restricted u (inr (inr m)) = absurd m

closure-IsPlain : IsPlain closure_rule
closure-IsPlain = record { positive = closure-IsPositive; restricted = closure_restricted }

paths-IsPlain : (rule : Rule) → In rule paths.rules → IsPlain rule
paths-IsPlain rule (inl e) = subst IsPlain (sym e) step-IsPlain
paths-IsPlain rule (inr (inl e)) = subst IsPlain (sym e) closure-IsPlain
paths-IsPlain rule (inr (inr m)) = absurd m

solve_once_run-IsLeast_example :
    (v : View) × (v.the_ruleset ≡ paths)
    × (v.edb_snapshot ≡ graph.fact_set)
    × (v.symbols ≡ graph.symbols)
    × IsLeast v (λ f. In f all_paths.facts)
solve_once_run-IsLeast_example =
    solve_once_run-IsLeast paths graph 16 all_paths paths-IsPlain solves

-- The second round: one path is known and new.
abbrev edge_ranges : ℕ → PredRange
edge_ranges = set_range no_ranges 0 (record { begin = 0; count = 2 })

abbrev second_view : View
second_view = record (initial_view paths symbol_table_init edge_set 16 edge_ranges) {
  accepted = pair 1 (number 1) (number 2) ∷ [];
  delta = pair 1 (number 1) (number 2) ∷ [];
}

edges_ranged : build_edb_ranges edge_set ≡ passed edge_ranges
unfolding build_edb_ranges ranges_loop run_length
edges_ranged = refl

edb_slice_exact_example :
    In (pair 0 (number 2) (number 3)) (edb_slice second_view 0)
    ↔ (In (pair 0 (number 2) (number 3)) edge_set.facts × ◌≡◌ {A = ℕ} 0 0)
edb_slice_exact_example = edb_slice_exact second_view edges_ranged 0 (pair 0 (number 2) (number 3))

plan : build_static_join_order paths closure_rule (some 0) ≡ passed (0 ∷ 1 ∷ [])
unfolding build_static_join_order delta_order order_loop next_literal best_loop literal_safe
    literal_static_score terms_score literal_delta_eligible literal_var_mask terms_mask
plan = refl

build_static_join_order-IsOrder_example :
    IsOrder closure_rule (0 ∷ 1 ∷ []) × StartsWith (some 0) (0 ∷ 1 ∷ [])
build_static_join_order-IsOrder_example =
    build_static_join_order-IsOrder paths closure_rule (some 0) (0 ∷ 1 ∷ []) plan

abbrev second_answer : Bool × Work
second_answer = derive_ordered second_view closure_rule (some 0) (0 ∷ 1 ∷ []) unbound empty_work

derive_ordered_exact_example :
    ((f : Fact) → In f empty_work.merged → In f (second_answer.1).merged)
    × ((f : Fact)
        → In f (second_answer.1).merged
        → In f empty_work.merged ⊎ Derives second_view closure_rule (some 0) (0 ∷ 1 ∷ []) unbound f)
    × (second_answer.0 ≡ true
        → (f : Fact) → Derives second_view closure_rule (some 0) (0 ∷ 1 ∷ []) unbound f
        → Present second_view (second_answer.1) f)
derive_ordered_exact_example =
    derive_ordered_exact second_view closure_rule (some 0) (0 ∷ 1 ∷ []) unbound empty_work

-- The edge (1, 2) against the atom edge(1, X).
constants : no_variables (number 1 ∷ number 2 ∷ []) ≡ true
unfolding no_variables
constants = refl

match_terms_least_example :
    ((c : Bindings)
      → match_terms unbound (number 1 ∷ variable 0 ∷ []) (number 1 ∷ number 2 ∷ []) ≡ some c
      → Extends unbound c
        × (instantiate_terms c (number 1 ∷ variable 0 ∷ []) ≡ some (number 1 ∷ number 2 ∷ [])))
    × ((s : Bindings)
        → Extends unbound s
        → instantiate_terms s (number 1 ∷ variable 0 ∷ []) ≡ some (number 1 ∷ number 2 ∷ [])
        → (c : Bindings) × (match_terms unbound
              (number 1 ∷ variable 0 ∷ [])
              (number 1 ∷ number 2 ∷ [])
            ≡ some c)
          × Extends c s)
match_terms_least_example =
    match_terms_least unbound (number 1 ∷ variable 0 ∷ []) (number 1 ∷ number 2 ∷ []) refl constants

-- More elements than the insertion sort takes, so that they are split.
abbrev shuffled : List ℕ
shuffled = 9 ∷ 4 ∷ 12 ∷ 1 ∷ 17 ∷ 6 ∷ 2 ∷ 15 ∷ 8 ∷ 3 ∷ 11 ∷ 14 ∷ 5 ∷ 10 ∷ 7 ∷ 16 ∷ 13 ∷ 4 ∷ []

sort_lem_example :
    Prefix.IsSorted compare (sort compare shuffled)
    × (length (sort compare shuffled) ≡ length shuffled)
    × ((x : ℕ) → In x (sort compare shuffled) ↔ In x shuffled)
sort_lem_example = sort_lem compare IsOrder-ℕ shuffled

abbrev unsorted_view : View
unsorted_view = record second_view {
  accepted =
      pair 1 (number 2) (number 3)
      ∷ pair 1 (number 1) (number 2)
      ∷ pair 1 (number 2) (number 3)
      ∷ [];
}

abbrev paths_start : View
paths_start = initial_view paths symbol_table_init edge_set 16 edge_ranges

-- The rounds have found the three paths, the last of them in the second round.
abbrev paths_end : View
paths_end = record paths_start {
  accepted =
      pair 1 (number 1) (number 2)
      ∷ pair 1 (number 2) (number 3)
      ∷ pair 1 (number 1) (number 3)
      ∷ [];
  idb_sorted = false;
}

begins : begin_solve paths graph 16 ≡ solved paths_start
unfolding begin_solve filters_structurally_valid rules_filters_valid body_filters_valid
    facts_structurally_valid fact_structurally_valid no_variables build_edb_ranges ranges_loop
    run_length
begins = refl

goes_round : solve_rounds paths_start ≡ solved paths_end
unfolding fact_structurally_valid no_variables solve_rounds first_rules apply_rule
    build_static_join_order order_loop next_literal best_loop literal_safe literal_static_score
    terms_score literal_delta_eligible literal_var_mask terms_mask derive_ordered literal_step
    solve_literal solve_kind atom_step scan_sources scan_window idb_window scan_candidates and_next
    match_candidate match_terms bind_or_match bind_variable term_equal derive_head instantiate_fact
    instantiate_terms instantiate_term append_idb_merge insert_merged head_may_be_in_base
    has_predicate fact_in_base scan fact_equals fact_cmp terms_cmp term_cmp edb_slice rounds
    delta_rules delta_literals delta_order
goes_round = refl

solve_once_run-IsStrict_example :
    (t : FactSet) × (solve_once_run paths graph 16 ≡ solved t)
    × IsStrict t.facts
    × ((f : Fact) → In f t.facts ↔ In f paths_end.accepted)
    × (t.sorted ≡ true)
    × (t.capacity ≡ 16)
solve_once_run-IsStrict_example =
    solve_once_run-IsStrict paths graph 16 paths_start paths_end paths-IsPlain refl begins
      goes_round

abbrev unsorted_set : FactSet
unsorted_set = record { facts = unsorted_view.accepted; capacity = 4; sorted = false }

fact_set_sort-IsSorted_example :
    (t : FactSet) × (fact_set_sort unsorted_set ≡ (ok, t))
    × IsSorted t.facts
    × ((f : Fact) → In f t.facts ↔ In f unsorted_set.facts)
    × (t.sorted ≡ true)
    × (t.capacity ≡ unsorted_set.capacity)
fact_set_sort-IsSorted_example =
    fact_set_sort-IsSorted unsorted_set (omega arith) (λ e. absurd (cc (e)))
