-- ===== src/Solver.antt =====
-- The solver, src/core/maelys_datalog_solver.c: its rules and what one application of a rule
-- reads and writes. A `View` is the part of `maelys_datalog_internal_solve_result_t` and of the
-- ruleset that stays as it is while a rule is applied, and `Work` the part that changes.
-- `idb_facts` up to `idb_current_end` is `accepted`, and from there to `idb_merge_end` `merged`;
-- `idb_sorted` is the mark of `idb_final`, in a `View` as it was when the round began.
pub mod Matching
pub mod Comparing
pub mod Filters
pub mod Ranges
pub mod Aggregates
pub mod Derive
pub mod Plan
pub mod Solve
use maelys_datalog.Prelude.{ℕ, Bool, List, Option, Bytes, Rc}
use maelys_datalog.Fact.{Term, Fact}
use maelys_datalog.FactSet.{FactSet}
use maelys_datalog.Registry.{Registry}
use maelys_datalog.Strata.{LiteralKind}
use maelys_datalog.Symbols.{SymbolTable}
use maelys_datalog.Validate.{ExprNode}

-- `maelys_datalog_compare_result_t`.
pub data CompareResult : Type 0 where
  compare_true compare_false invalid_kind invalid_ordinal_type : CompareResult
  unbound_variable unknown_operator unknown_term_kind arith_overflow : CompareResult

-- `maelys_datalog_deny_reason_t`.
pub data DenyReason : Type 0 where
  deny_none deny_explicit deny_default deny_max_depth deny_edb_overflow : DenyReason
  deny_idb_overflow deny_comparison_type_error deny_filter_error : DenyReason
  deny_conflict deny_policy_load_error : DenyReason

-- `op` and `filter_kind` are the numbers of their enumerations, or any other that the field holds.
pub record Literal : Type 0 where
  pub kind : LiteralKind
  pub atom : Fact
  pub lhs : Term
  pub rhs : Term
  pub op : ℕ
  pub lhs_expr_root : ℕ
  pub rhs_expr_root : ℕ
  pub has_arith_expr : Bool
  pub filter_kind : ℕ
  pub filter_program_index : ℕ
  pub filter_value : Term

pub record Rule : Type 0 where
  pub head : Fact
  pub body : List Literal
  pub expr_nodes : List ExprNode

pub record FilterProgram : Type 0 where
  pub pattern_offset : ℕ
  pub pattern_length : ℕ
  pub kind : ℕ

-- The callbacks of a filter that a module registers, by its kind. A status is the code of the
-- same value, or `none` where it lies outside the range that a callback may return.
pub record FilterModule : Type 0 where
  pub cost : ℕ → ℕ → Option Rc × ℕ
  pub evaluate : Bytes → Bytes → Option Rc × ℕ

-- A set of variables or of places in a body; the code has a bit mask of 64 bits.
abbrev pub Mask : Type 0
Mask = ℕ → Bool

-- What a planner module is told of a literal that may come next; the name, the flags and the
-- counts are given for atoms and negated atoms only.
pub record JoinCandidate : Type 0 where
  pub body_index : ℕ
  pub kind : LiteralKind
  pub bound_variable_mask : Mask
  pub variable_mask : Mask
  pub default_score : ℕ
  pub predicate_name : Bytes
  pub predicate_flags : ℕ
  pub arity : ℕ
  pub constant_terms : ℕ
  pub bound_terms : ℕ

-- A planner's `choose`: the status, and the place in the list of candidates.
abbrev pub Planner : Type 0
Planner = List JoinCandidate → Option Rc × ℕ

-- The part of `maelys_datalog_internal_ruleset_t` that the solver reads.
pub record Ruleset : Type 0 where
  pub loaded : Bool
  pub registry : Registry
  pub facts : List Fact
  pub rules : List Rule
  pub strata : ℕ → ℕ
  pub max_stratum : ℕ
  pub strata_assigned : Bool
  pub negation_supported : Bool
  pub aggregates_supported : Bool
  pub filter_programs : List FilterProgram
  pub filter_pattern_pool : Bytes
  pub filter_by_kind : ℕ → Option FilterModule
  pub planner : Option Planner

pub record PredRange : Type 0 where
  pub begin : ℕ
  pub count : ℕ

pub record View : Type 0 where
  pub the_ruleset : Ruleset
  pub symbols : SymbolTable
  pub edb_snapshot : FactSet
  pub edb_ranges : ℕ → PredRange
  pub accepted : List Fact
  pub delta : List Fact
  pub stratified : Bool
  pub active_stratum : ℕ
  pub stratum_idb_end : ℕ → ℕ
  pub idb_capacity : ℕ
  pub idb_sorted : Bool
  pub finalized : Bool

pub record Work : Type 0 where
  pub merged : List Fact
  pub idb_sorted : Bool
  pub facts_per_pred : ℕ → ℕ
  pub evaluations : ℕ
  pub cost_units : ℕ
  pub matches : ℕ
  pub non_matches : ℕ
  pub failure_error : Rc
  pub failure_reason : DenyReason

-- The answers 0, 1 and 2 of the functions that try one literal.
pub data Verdict : Type 0 where
  fatal skipped matched : Verdict
