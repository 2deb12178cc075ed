-- ===== src/Solver/Solve.antt =====
-- The semi-naive solve of a ruleset without negation and aggregates,
-- `maelys_datalog_solve_once_run` of src/core/maelys_datalog_solver.c with the static join order:
-- the checks, the rounds over the rules, and the end. The diagnostic that goes with a code is left
-- out but for its deny reason, the allocation of the result is taken to succeed, and the caller's
-- `*out_result`, which has to be null, is no part of the model.
pub mod Meaning
pub mod Reading
pub mod Covers
pub mod Chains
pub mod Rules
pub mod Rounds
pub mod Delta
pub mod Least
pub mod Result
use maelys_datalog.Prelude.{
  ℕ, zero, suc, ◌+◌, Bool, true, false, not, ◌&&◌, ◌||◌, List, [], ◌∷◌, ◌++◌, Option, none, some,
  length, ltb, leb, ◌==◌, if◌then◌else◌, Rc, ok, invalid_argument, invalid_field, invalid_state,
  payload_too_large, Checked, refused, passed,
}
use maelys_datalog.Bounds.{
  max_depth, max_edb_facts, max_body_literals, max_filter_programs, filter_pattern_pool_bytes,
}
use maelys_datalog.Edb.{Edb, fact_count}
use maelys_datalog.Fact.{Term, symbol, integer, boolean, variable, Fact, fact_cmp}
use maelys_datalog.FactSet.{FactSet, count, fact_set_dedup}
use maelys_datalog.Solver.{
  Literal, Rule, Ruleset, View, Work, PredRange, DenyReason, deny_none, deny_max_depth,
  deny_edb_overflow, deny_comparison_type_error, deny_policy_load_error, deny_filter_error,
}
use maelys_datalog.Solver.Derive.{derive_ordered, Answer}
use maelys_datalog.Solver.Filters.{filter_program_resolve}
use maelys_datalog.Solver.Matching.{unbound, facts_structurally_valid}
use maelys_datalog.Solver.Plan.{build_static_join_order, literal_delta_eligible}
use maelys_datalog.Solver.Ranges.{build_edb_ranges}
use maelys_datalog.FactSet.Sorting.{fact_set_sort}
use maelys_datalog.Strata.{LiteralKind, filter}
use maelys_datalog.Symbols.{SymbolTable}

-- How a solve, or a part of one, ends: with a value, or with a code and the reason beside it.
pub data Solved (A : Type 0) : Type 0 where
  solved : A → Solved A
  failed : Rc → DenyReason → Solved A

abbrev pub bounds_max_rules : ℕ
bounds_max_rules = 128

abbrev pub filter_value_known : Term → Bool
filter_value_known (symbol _) = true
filter_value_known (variable _) = true
filter_value_known _ = false

abbrev pub is_some : {A : Type 0} → Option A → Bool
is_some none = false
is_some (some _) = true

abbrev pub literal_filter_valid : Ruleset → Literal → Bool
literal_filter_valid r l = elim l.kind [
  | filter ↦ filter_value_known l.filter_value && is_some (filter_program_resolve r l)
  | _ ↦ true
]

unfoldable pub body_filters_valid : Ruleset → List Literal → Bool
body_filters_valid r [] = true
body_filters_valid r (l ∷ ls) = literal_filter_valid r l && body_filters_valid r ls

unfoldable pub rules_filters_valid : Ruleset → List Rule → Bool
rules_filters_valid r [] = true
rules_filters_valid r (rule ∷ rules) =
    leb (length rule.body) max_body_literals
    && body_filters_valid r rule.body
    && rules_filters_valid r rules

unfoldable pub filters_structurally_valid : Ruleset → Bool
filters_structurally_valid r =
    leb (length r.rules) bounds_max_rules
    && leb (length r.filter_programs) max_filter_programs
    && leb (length r.filter_pattern_pool) filter_pattern_pool_bytes
    && rules_filters_valid r r.rules

-- `failure_error`, or the code that stands for an overflow.
unfoldable pub failure : {A : Type 0} → Work → Rc → Solved A
failure w other = elim w.failure_error [
  | ok ↦ failed other w.failure_reason
  | rc ↦ failed rc w.failure_reason
]

-- The failure that the plan of a rule records, unless one is recorded before.
unfoldable pub set_join_order_failure : Rc → Work → Work
set_join_order_failure rc w = elim w.failure_error [
  | ok ↦ record w {
    failure_error = rc;
    failure_reason = elim rc [
      | invalid_field ↦ deny_comparison_type_error
      | _ ↦ deny_policy_load_error
    ];
  }
  | _ ↦ w
]

abbrev pub answered : Answer → Solved Work
answered (true, w) = solved w
answered (false, w) = failure w payload_too_large

-- One rule along its plan.
unfoldable pub apply_rule : View → Rule → Option ℕ → Work → Solved Work
apply_rule v rule delta w = elim (build_static_join_order v.the_ruleset rule delta) [
  | refused rc ↦ failure (set_join_order_failure rc w) rc
  | passed order ↦ answered (derive_ordered v rule delta order unbound w)
]

-- The first round, without a delta.
unfoldable pub first_rules : View → List Rule → Work → Solved Work
first_rules v [] w = solved w
first_rules v (rule ∷ rules) w = elim (apply_rule v rule none w) [
  | failed rc reason ↦ failed rc reason
  | solved x ↦ first_rules v rules x
]

-- A later round: each eligible literal of a rule reads the delta in its turn.
unfoldable pub delta_literals : View → Rule → ℕ → List Literal → Work → Solved Work
delta_literals v rule i [] w = solved w
delta_literals v rule i (l ∷ ls) w =
    elim (if literal_delta_eligible v.the_ruleset l
      then apply_rule v rule (some i) w
      else solved w) [
        | failed rc reason ↦ failed rc reason
        | solved x ↦ delta_literals v rule (suc i) ls x
      ]

unfoldable pub delta_rules : View → List Rule → Work → Solved Work
delta_rules v [] w = solved w
delta_rules v (rule ∷ rules) w = elim (delta_literals v rule 0 rule.body w) [
  | failed rc reason ↦ failed rc reason
  | solved x ↦ delta_rules v rules x
]

-- The end of a round: what was merged is accepted, and is the next delta.
abbrev pub accept : View → Work → View
accept v w = record v {
  accepted = v.accepted ++ w.merged;
  delta = w.merged;
  idb_sorted = w.idb_sorted;
}

abbrev pub emptied : Work → Work
emptied w = record w { merged = [] }

abbrev pub has_no_facts : List Fact → Bool
has_no_facts [] = true
has_no_facts (_ ∷ _) = false

-- The rounds that are left, up to the first without a delta: then the accepted facts are final.
unfoldable pub rounds : ℕ → View → Work → Solved View
rounds zero v w = failed payload_too_large deny_max_depth
rounds (suc left) v w = elim (has_no_facts v.delta) [
  | true ↦ solved v
  | false ↦ elim (delta_rules v v.the_ruleset.rules w) [
    | failed rc reason ↦ failed rc reason
    | solved x ↦ rounds left (accept v x) (emptied x)
  ]
]

abbrev pub empty_work : Work
empty_work = record {
  merged = [];
  idb_sorted = true;
  facts_per_pred = λ _. 0;
  evaluations = 0;
  cost_units = 0;
  matches = 0;
  non_matches = 0;
  failure_error = ok;
  failure_reason = deny_none;
}

unfoldable pub solve_rounds : View → Solved View
solve_rounds v = elim (first_rules v v.the_ruleset.rules empty_work) [
  | failed rc reason ↦ failed rc reason
  | solved x ↦ rounds max_depth (accept v x) (emptied x)
]

-- `result->idb_final` between two rounds.
abbrev pub idb_final : View → FactSet
idb_final v = record { facts = v.accepted; capacity = v.idb_capacity; sorted = v.idb_sorted }

abbrev pub dedup_result : Rc × FactSet → Solved FactSet
dedup_result (ok, s) = solved s
dedup_result (rc, s) = failed rc deny_none

abbrev pub sort_result : Rc × FactSet → Solved FactSet
sort_result (ok, s) = dedup_result (fact_set_dedup s)
sort_result (rc, s) = failed rc deny_none

-- `idb_final` as the end of a solve leaves it, or the code; that it succeeds is `finalized = 1`.
unfoldable pub finalize : View → Solved FactSet
finalize v =
    if v.finalized
    then failed invalid_state deny_none
    else sort_result (fact_set_sort (idb_final v))

abbrev pub initial_view : Ruleset → SymbolTable → FactSet → ℕ → (ℕ → PredRange) → View
initial_view r symbols snapshot capacity ranges = record {
  the_ruleset = r;
  symbols = symbols;
  edb_snapshot = snapshot;
  edb_ranges = ranges;
  accepted = [];
  delta = [];
  stratified = false;
  active_stratum = 0;
  stratum_idb_end = λ _. 0;
  idb_capacity = capacity;
  idb_sorted = true;
  finalized = false;
}

-- The checks before the rounds, and the state that they start in, with a prepared workspace: the
-- facts and the symbol table are the EDB's own.
unfoldable pub begin_solve : Ruleset → Edb → ℕ → Solved View
begin_solve r e capacity =
    if not (filters_structurally_valid r)
    then failed invalid_state deny_filter_error
    else if not e.immutable || not e.fact_set.sorted
    then failed invalid_state deny_none
    else if ltb max_edb_facts (fact_count e)
    then failed payload_too_large deny_edb_overflow
    else if ltb e.fact_set.capacity (fact_count e)
        || not (facts_structurally_valid r.registry e.fact_set.facts)
    then failed invalid_state deny_none
    else elim (build_edb_ranges e.fact_set) [
      | refused rc ↦ failed rc deny_none
      | passed ranges ↦
          if not (facts_structurally_valid r.registry r.facts)
          then failed invalid_state deny_none
          else solved (initial_view r e.symbols e.fact_set capacity ranges)
    ]

-- What follows the check of the arguments.
unfoldable pub solve_loaded : Ruleset → Edb → ℕ → Solved FactSet
solve_loaded r e capacity = elim (begin_solve r e capacity) [
  | failed rc reason ↦ failed rc reason
  | solved v ↦ elim (solve_rounds v) [
    | failed rc reason ↦ failed rc reason
    | solved done ↦ finalize done
  ]
]

unfoldable pub solve_once_run : Ruleset → Edb → ℕ → Solved FactSet
solve_once_run r e capacity =
    if not r.loaded then failed invalid_argument deny_none else solve_loaded r e capacity
