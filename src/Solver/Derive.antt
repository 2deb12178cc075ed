-- ===== src/Solver/Derive.antt =====
-- One application of a rule along a join order: `solve_once_derive_ordered` of
-- src/core/maelys_datalog_solver.c with the functions that it calls. The calls from one literal
-- to the next are a continuation, `next`; an answer `false` is the code's 0, and ends the solve.
-- The premises recorded for explanations and the proof nodes are left out.
pub mod Reads
pub mod Runs
pub mod Candidates
pub mod Steps
pub mod Exact
use maelys_datalog.Prelude.{
  ℕ, zero, suc, ◌+◌, ◌-◌, Bool, true, false, not, ◌&&◌, ◌||◌, List, [], ◌∷◌, ◌++◌, Option, none,
  some, length, get_elem?, take, drop, ltb, leb, ◌==◌, if◌then◌else◌, Rc, ok, invalid_state,
  Checked, refused, passed,
}
use maelys_datalog.Bounds.{max_predicates, max_strata, max_idb_facts, max_facts_per_pred}
use maelys_datalog.Fact.{Fact, fact_equals}
use maelys_datalog.FactSet.{FactSet, bump, fact_set_contains, scan}
use maelys_datalog.Registry.{Entry, registry_get, has_flag, kind_edb, kind_idb, kind_policy_fact}
use maelys_datalog.Solver.{
  Literal, Rule, Ruleset, View, Work, Verdict, fatal, skipped, matched, deny_idb_overflow,
  deny_policy_load_error,
}
use maelys_datalog.Solver.Aggregates.{
  frozen_slice, frozen_source, evaluate_aggregate, set_aggregate_failure, bind_aggregate,
}
use maelys_datalog.Solver.Comparing.{evaluate_comparison_literal}
use maelys_datalog.Solver.Filters.{evaluate_filter_literal}
use maelys_datalog.Solver.Matching.{
  Bindings, match_terms, instantiate_fact, fact_structurally_valid,
}
use maelys_datalog.Solver.Ranges.{edb_slice}
use maelys_datalog.Strata.{
  LiteralKind, atom, comparison, negated_atom, filter, count, min, max, sum,
}

-- Whether the rest of the solve may go on, with what has changed.
abbrev pub Answer : Type 0
Answer = Bool × Work

abbrev pub Next : Type 0
Next = Bindings → Work → Answer

unfoldable pub set_invalid_state : Work → Work
set_invalid_state w = elim w.failure_error [
  | ok ↦ record w { failure_error = invalid_state; failure_reason = deny_policy_load_error }
  | _ ↦ w
]

abbrev pub overflows : Work → Answer
overflows w = (false, record w { failure_reason = deny_idb_overflow })

unfoldable pub has_predicate : ℕ → List Fact → Bool
has_predicate pid [] = false
has_predicate pid (f ∷ fs) = f.predicate_id == pid || has_predicate pid fs

unfoldable pub head_may_be_in_base : View → Rule → Bool
head_may_be_in_base v rule =
    leb max_predicates rule.head.predicate_id
    || not ((v.edb_ranges rule.head.predicate_id).count == 0)
    || has_predicate rule.head.predicate_id v.the_ruleset.facts

unfoldable pub fact_in_base : View → Fact → Bool
fact_in_base v f = scan v.the_ruleset.facts f || fact_set_contains v.edb_snapshot f

abbrev pub appended : Work → Fact → Work
appended w f = record w {
  merged = w.merged ++ f ∷ [];
  idb_sorted = false;
  facts_per_pred = bump w.facts_per_pred f.predicate_id;
}

-- The checks of the bounds, and the write.
unfoldable pub insert_merged : View → Fact → Work → Answer
insert_merged v f w =
    let used = length v.accepted + length w.merged in
    if leb v.idb_capacity used || leb max_idb_facts used
    then overflows w
    else if leb max_predicates f.predicate_id
    then overflows w
    else if leb max_facts_per_pred (w.facts_per_pred f.predicate_id)
    then overflows w
    else (true, appended w f)

-- `head_may_be_in_base` depends on the view and the rule only.
unfoldable pub append_idb_merge : View → Rule → Fact → Work → Answer
append_idb_merge v rule f w =
    if not (fact_structurally_valid v.the_ruleset.registry f)
    then (false, set_invalid_state w)
    else if head_may_be_in_base v rule && fact_in_base v f
    then (true, w)
    else if scan v.accepted f || scan w.merged f
    then (true, w)
    else insert_merged v f w

-- The end of the join order.
unfoldable pub derive_head : View → Rule → Bindings → Work → Answer
derive_head v rule b w = elim (instantiate_fact b rule.head) [
  | none ↦ (true, w)
  | some f ↦ append_idb_merge v rule f w
]

unfoldable pub match_candidate : View → Literal → Fact → Bindings → Next → Work → Answer
match_candidate v l f b next w =
    if not (fact_structurally_valid v.the_ruleset.registry f)
    then (false, set_invalid_state w)
    else if not (f.predicate_id == l.atom.predicate_id)
        || not (length f.terms == length l.atom.terms)
    then (true, w)
    else elim (match_terms b l.atom.terms f.terms) [ none ↦ (true, w) | some c ↦ next c w ]

-- What goes on only after an answer other than 0.
unfoldable pub and_next : Answer → (Work → Answer) → Answer
and_next (false, w) f = (false, w)
and_next (true, w) f = f w

unfoldable pub scan_candidates : View → Literal → List Fact → Bindings → Next → Work → Answer
scan_candidates v l [] b next w = (true, w)
scan_candidates v l (f ∷ fs) b next w =
    and_next (match_candidate v l f b next w) (λ x. scan_candidates v l fs b next x)

-- The part of `idb_facts` that an atom of the predicate reads.
unfoldable pub idb_window : View → ℕ → Checked (List Fact)
idb_window v pid =
    let s = v.the_ruleset.strata pid in
    if leb max_predicates pid
    then refused invalid_state
    else if not v.stratified
    then passed v.accepted
    else if ltb v.active_stratum s || leb max_strata s
    then refused invalid_state
    else if ltb s v.active_stratum
    then (if ltb (v.stratum_idb_end (s + 1)) (v.stratum_idb_end s)
          || ltb (length v.accepted) (v.stratum_idb_end (s + 1))
        then refused invalid_state
        else passed (frozen_slice v s))
    else if ltb (length v.accepted) (v.stratum_idb_end v.active_stratum)
    then refused invalid_state
    else passed (drop (v.stratum_idb_end v.active_stratum) v.accepted)

abbrev pub scan_if : Bool → View → Literal → List Fact → Bindings → Next → Work → Answer
scan_if false v l facts b next w = (true, w)
scan_if true v l facts b next w = scan_candidates v l facts b next w

unfoldable pub scan_window : View → Literal → Bindings → Next → Work → Answer
scan_window v l b next w = elim (idb_window v l.atom.predicate_id) [
  | refused rc ↦ (false, set_invalid_state w)
  | passed facts ↦ scan_candidates v l facts b next w
]

-- The three sources of an atom that is not the delta literal, as the flags of its predicate say.
unfoldable pub scan_sources : View → Entry → Literal → Bindings → Next → Work → Answer
scan_sources v def l b next w =
    and_next (scan_if (has_flag def.kind_flags kind_policy_fact) v l v.the_ruleset.facts b next w)
      (λ x.
        and_next
          (scan_if (has_flag def.kind_flags kind_edb) v l (edb_slice v l.atom.predicate_id) b next
            x)
          (λ y. if has_flag def.kind_flags kind_idb then scan_window v l b next y else (true, y)))

unfoldable pub atom_step : View → Literal → Bool → Bindings → Next → Work → Answer
atom_step v l is_delta b next w = elim (registry_get v.the_ruleset.registry l.atom.predicate_id) [
  | none ↦ (true, w)
  | some def ↦
      if is_delta then scan_candidates v l v.delta b next w else scan_sources v def l b next w
]

abbrev pub absent_from : Checked (List Fact) → Fact → Bool
absent_from (refused rc) f = false
absent_from (passed facts) f =
    not (fact_set_contains (record { facts = facts; capacity = length facts; sorted = true }) f)

-- Whether the ground atom is absent from the store of its predicate.
unfoldable pub absent : View → Entry → Fact → Bool
absent v def f =
    if has_flag def.kind_flags kind_edb
    then not (fact_set_contains v.edb_snapshot f)
    else if has_flag def.kind_flags kind_policy_fact
    then not (scan v.the_ruleset.facts f)
    else if has_flag def.kind_flags kind_idb
    then absent_from (frozen_source v (v.the_ruleset.strata f.predicate_id)) f
    else false

unfoldable pub solve_negated_literal : View → Literal → Bindings → Bool
solve_negated_literal v l b =
    if leb max_predicates l.atom.predicate_id then false else elim (instantiate_fact b l.atom) [
      | none ↦ false
      | some f ↦
          if not (fact_structurally_valid v.the_ruleset.registry f)
          then false
          else elim (registry_get v.the_ruleset.registry f.predicate_id) [
            | none ↦ false
            | some def ↦ absent v def f
          ]
    ]

abbrev pub proceed : Verdict × Work → (Work → Answer) → Answer
proceed (fatal, w) f = (false, w)
proceed (skipped, w) f = (true, w)
proceed (matched, w) f = f w

unfoldable pub aggregate_step : View → Literal → Bindings → Next → Work → Answer
aggregate_step v l b next w = elim (evaluate_aggregate v l b) [
  | refused rc ↦ (false, set_aggregate_failure rc w)
  | passed z ↦ elim (bind_aggregate l b z) [ none ↦ (true, w) | some c ↦ next c w ]
]

-- The `switch` over the literal's kind.
unfoldable pub solve_kind : LiteralKind → View → Rule → Literal → Bool → Next → Next
solve_kind atom v rule l is_delta next b w = atom_step v l is_delta b next w
solve_kind comparison v rule l is_delta next b w =
    proceed (evaluate_comparison_literal rule l b w) (next b)
solve_kind filter v rule l is_delta next b w = proceed (evaluate_filter_literal v l b w) (next b)
solve_kind negated_atom v rule l is_delta next b w =
    if solve_negated_literal v l b then next b w else (true, w)
solve_kind count v rule l is_delta next b w = aggregate_step v l b next w
solve_kind min v rule l is_delta next b w = aggregate_step v l b next w
solve_kind max v rule l is_delta next b w = aggregate_step v l b next w
solve_kind sum v rule l is_delta next b w = aggregate_step v l b next w

unfoldable pub solve_literal : View → Rule → Literal → Bool → Next → Next
solve_literal v rule l is_delta next b w = solve_kind l.kind v rule l is_delta next b w

abbrev pub is_at : Option ℕ → ℕ → Bool
is_at none i = false
is_at (some j) i = i == j

unfoldable pub literal_step : View → Rule → Option ℕ → ℕ → Next → Next
literal_step v rule delta i next b w = elim (get_elem? rule.body i) [
  | none ↦ (false, w)
  | some l ↦ solve_literal v rule l (is_at delta i) next b w
]

-- `delta` is the index of the literal that reads the last round's facts, if there is one.
unfoldable pub derive_ordered : View → Rule → Option ℕ → List ℕ → Next
derive_ordered v rule delta [] b w = derive_head v rule b w
derive_ordered v rule delta (i ∷ order) b w =
    literal_step v rule delta i (derive_ordered v rule delta order) b w
