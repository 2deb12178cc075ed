-- ===== src/Solver/Aggregates.antt =====
-- Aggregate literals, src/core/maelys_datalog_solver.c from `aggregate_source` to
-- `solve_aggregate_literal`, as a solve that is not yet finalized runs them.
use maelys_datalog.Prelude.{
  ℕ, suc, ◌+◌, ◌-◌, Bool, true, false, not, ◌&&◌, ◌||◌, List, [], ◌∷◌, Option, none, some, Ordering,
  length, get_elem?, take, drop, ltb, leb, ◌==◌, if◌then◌else◌, Rc, ok, invalid_field,
  invalid_state, payload_too_large, Checked, refused, passed, ◌>>=◌, ◌>>◌,
}
use maelys_datalog.Prelude.Integer.{ℤ, pos}
use maelys_datalog.Bounds.{
  max_arity, max_int, max_strata, max_rule_variables, max_rule_facts, named_variable_count,
}
use maelys_datalog.Fact.{Term, integer, variable, Fact, term_cmp, term_equal, fact_cmp}
use maelys_datalog.Registry.{Entry, registry_get, has_flag, kind_edb, kind_idb, kind_policy_fact}
use maelys_datalog.Solver.{Literal, View, Work, deny_policy_load_error}
use maelys_datalog.Edb.{or_refuse}
use maelys_datalog.Solver.Filters.{require}
use maelys_datalog.Solver.Matching.{Bindings, unbound, bind_or_match, match_terms, instantiate_term}
use maelys_datalog.Solver.Ranges.{edb_slice}
use maelys_datalog.Sort.{sort}
use maelys_datalog.Strata.{count, min, sum}

-- `lhs.as.variable` of a literal whose `lhs` is a variable within the bound.
abbrev pub rule_variable : Term → Checked ℕ
rule_variable (variable u) = if leb max_rule_variables u then refused invalid_state else passed u
rule_variable _ = refused invalid_state

-- A group key is instantiated; the projected and the anonymous variables stay.
abbrev pub stays : ℕ → Term → Bool
stays projection (variable u) = u == projection || leb named_variable_count u
stays projection _ = true

unfoldable pub group_terms : Bindings → ℕ → List Term → Checked (List Term)
group_terms b projection [] = passed []
group_terms b projection (t ∷ ts) = do
  term ← if stays projection t then passed t else or_refuse (instantiate_term b t) invalid_state
  rest ← group_terms b projection ts
  passed (term ∷ rest)

unfoldable pub frozen_slice : View → ℕ → List Fact
frozen_slice v s =
    take (v.stratum_idb_end (s + 1) - v.stratum_idb_end s) (drop (v.stratum_idb_end s) v.accepted)

-- The source of an IDB predicate: a stratum below the active one.
unfoldable pub frozen_source : View → ℕ → Checked (List Fact)
frozen_source v s =
    if not v.stratified
      || leb v.active_stratum s
      || leb max_strata s
      || ltb (v.stratum_idb_end (s + 1)) (v.stratum_idb_end s)
      || ltb (length v.accepted) (v.stratum_idb_end (s + 1))
    then refused invalid_state
    else passed (frozen_slice v s)

unfoldable pub source_of : View → Entry → ℕ → Checked (List Fact)
source_of v def pid =
    if has_flag def.kind_flags kind_edb
    then passed (edb_slice v pid)
    else if has_flag def.kind_flags kind_policy_fact
    then passed v.the_ruleset.facts
    else if has_flag def.kind_flags kind_idb
    then frozen_source v (v.the_ruleset.strata pid)
    else refused invalid_state

-- The pattern with its group keys, and the facts to look through.
unfoldable pub aggregate_source : View → Literal → Bindings → Checked (ℕ × Fact × List Fact)
aggregate_source v l b = do
  def ← or_refuse (registry_get v.the_ruleset.registry l.atom.predicate_id) invalid_state
  projection ← rule_variable l.lhs
  rule_variable l.rhs
  require (leb (length l.atom.terms) max_arity && length l.atom.terms == def.arity) invalid_state
  terms ← group_terms b projection l.atom.terms
  source ← source_of v def l.atom.predicate_id
  passed (projection, record { predicate_id = l.atom.predicate_id; terms = terms }, source)

-- Each match is handed to `take_match` with the bindings that it makes; facts of other predicates
-- are passed over.
unfoldable pub match_loop :
    {S : Type 0} → Fact → (Bindings → Fact → S → Checked S) → List Fact → S → Checked S
match_loop pattern take_match [] s = passed s
match_loop pattern take_match (f ∷ fs) s =
    if not (f.predicate_id == pattern.predicate_id)
    then match_loop pattern take_match fs s
    else if not (length f.terms == length pattern.terms)
    then refused invalid_state
    else elim (match_terms unbound pattern.terms f.terms) [
      | none ↦ match_loop pattern take_match fs s
      | some c ↦ elim (take_match c f s) [
        | refused rc ↦ refused rc
        | passed t ↦ match_loop pattern take_match fs t
      ]
    ]

-- The larger of the two bounds on the facts of a predicate.
abbrev pub match_capacity : ℕ
match_capacity = max_rule_facts

unfoldable pub take_value : ℕ → Bindings → Fact → List Term → Checked (List Term)
take_value projection c f values = elim (c projection) [
  | none ↦ refused invalid_state
  | some t ↦
      if length values == match_capacity then refused payload_too_large else passed (t ∷ values)
]

-- How many values of the sorted list differ from the one before.
unfoldable pub count_distinct : Option Term → List Term → ℕ
count_distinct before [] = 0
count_distinct none (t ∷ ts) = suc (count_distinct (some t) ts)
count_distinct (some u) (t ∷ ts) =
    if term_equal u t then count_distinct (some t) ts else suc (count_distinct (some t) ts)

-- The array is filled from the front, and the list of its values has the last one first; sorting
-- forgets the order.
unfoldable pub evaluate_count : View → Literal → Bindings → Checked ℤ
unfolding aggregate_source match_loop take_value count_distinct sort
evaluate_count v l b = do
  (projection, pattern, facts) ← aggregate_source v l b
  values ← match_loop pattern (take_value projection) facts []
  passed (pos (count_distinct none (sort term_cmp values)))

-- The first place of the projected variable among the pattern's terms.
unfoldable pub projected_term : ℕ → List Term → ℕ → Checked ℕ
projected_term projection [] i = refused invalid_state
projected_term projection (variable u ∷ ts) i =
    if u == projection then passed i else projected_term projection ts (suc i)
projected_term projection (_ ∷ ts) i = projected_term projection ts (suc i)

abbrev pub bounded_integer : Term → Checked ℕ
bounded_integer (integer (pos n)) = if leb n max_int then passed n else refused invalid_field
bounded_integer _ = refused invalid_field

abbrev pub term_at : List Term → ℕ → Checked Term
term_at ts i = or_refuse (get_elem? ts i) invalid_state

-- The extremum so far, if there is one.
unfoldable pub take_extremum : Bool → ℕ → Bindings → Fact → Option ℕ → Checked (Option ℕ)
take_extremum least i c f best = do
  term ← term_at f.terms i
  n ← bounded_integer term
  passed (elim best [
    | none ↦ some n
    | some m ↦ if (if least then ltb n m else ltb m n) then some n else some m
  ])

unfoldable pub take_fact : ℕ → Bindings → Fact → List Fact → Checked (List Fact)
take_fact i c f facts = do
  term ← term_at f.terms i
  bounded_integer term
  require (not (length facts == match_capacity)) payload_too_large
  passed (f ∷ facts)

abbrev pub repeats : Option Fact → Fact → Bool
repeats none f = false
repeats (some g) f = elim (fact_cmp g f) [ Ordering.eq ↦ true | _ ↦ false ]

-- The sum over the sorted facts, each one once; a sum above `MAX_INT` is refused.
unfoldable pub sum_loop : ℕ → Option Fact → List Fact → ℕ → Checked ℕ
sum_loop i before [] total = passed total
sum_loop i before (f ∷ fs) total = elim (repeats before f) [
  | true ↦ sum_loop i (some f) fs total
  | false ↦ elim (term_at f.terms i >>= λ t. bounded_integer t) [
    | refused rc ↦ refused rc
    | passed n ↦ elim (leb (total + n) max_int) [
      | false ↦ refused invalid_field
      | true ↦ sum_loop i (some f) fs (total + n)
    ]
  ]
]

abbrev pub as_value : ℕ → Option ℤ
as_value n = some (pos n)

abbrev pub as_extremum : Option ℕ → Option ℤ
as_extremum none = none
as_extremum (some n) = some (pos n)

-- `none` where there is no value: no fact matches, and the aggregate is not a sum.
unfoldable pub evaluate_numeric_aggregate : View → Literal → Bindings → Checked (Option ℤ)
unfolding aggregate_source match_loop take_extremum take_fact sum_loop projected_term sort
evaluate_numeric_aggregate v l b = do
  (projection, pattern, facts) ← aggregate_source v l b
  i ← projected_term projection pattern.terms 0
  elim l.kind [
    | sum ↦ match_loop pattern (take_fact i) facts [] >>= λ fs.
        sum_loop i none (sort fact_cmp fs) 0 >>= λ n. passed (as_value n)
    | min ↦
        match_loop pattern (take_extremum true i) facts none >>= λ best. passed (as_extremum best)
    | _ ↦
        match_loop pattern (take_extremum false i) facts none >>= λ best. passed (as_extremum best)
  ]

unfoldable pub evaluate_aggregate : View → Literal → Bindings → Checked (Option ℤ)
evaluate_aggregate v l b = elim l.kind [
  | count ↦ evaluate_count v l b >>= λ z. passed (some z)
  | _ ↦ evaluate_numeric_aggregate v l b
]

-- `failure_error` is overwritten, the reason only where there is no failure before.
unfoldable pub set_aggregate_failure : Rc → Work → Work
set_aggregate_failure rc w = record w {
  failure_error = rc;
  failure_reason = elim w.failure_error [ ok ↦ deny_policy_load_error | _ ↦ w.failure_reason ];
}

-- The bindings that a match leaves, `none` where the literal does not match.
unfoldable pub bind_aggregate : Literal → Bindings → Option ℤ → Option Bindings
bind_aggregate l b none = none
bind_aggregate l b (some z) = bind_or_match b l.rhs (integer z)
