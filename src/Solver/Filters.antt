-- ===== src/Solver/Filters.antt =====
-- Filter literals: `filter_program_resolve`, `filter_symbol_bytes_resolve` and
-- `solve_once_evaluate_filter_literal` of src/core/maelys_datalog_solver.c, and the calls of a
-- filter module in src/core/maelys_datalog_filter.c.
use maelys_datalog.Prelude.{
  ℕ, ◌+◌, ◌-◌, Bool, true, false, not, ◌&&◌, ◌||◌, Option, none, some, length, get_elem?, take,
  drop, ltb, leb, ◌==◌, if◌then◌else◌, Bytes, Rc, ok, invalid_field, invalid_state, internal,
  payload_too_large, Checked, refused, passed, ◌>>=◌, ◌>>◌,
}
use maelys_datalog.Bounds.{
  max_filter_programs, filter_pattern_pool_bytes, max_filter_pattern_bytes, max_symbols,
  string_pool_bytes, max_string_bytes, max_filter_evaluations, max_filter_cost_units,
}
use maelys_datalog.Edb.{or_refuse}
use maelys_datalog.Fact.{Term, symbol}
use maelys_datalog.Solver.{
  Literal, FilterProgram, FilterModule, Ruleset, View, Work, Verdict, fatal, skipped, matched,
  deny_filter_error,
}
use maelys_datalog.Solver.Comparing.{instantiate_comparison_term, Evaluated, value}
use maelys_datalog.Solver.Matching.{Bindings}
use maelys_datalog.Symbols.{SymbolTable, Entry, count, used, symbol_id_is_valid}

abbrev pub require : Bool → Rc → Checked (Unit {0})
require true rc = passed tt
require false rc = refused rc

abbrev pub callback_status : Option Rc → Rc
callback_status none = internal
callback_status (some rc) = rc

abbrev pub with_code : {A : Type 0} → Rc → A → Checked A
with_code ok a = passed a
with_code rc a = refused rc

-- `MAELYS_DATALOG_FILTER_CONTAINS`, the last of the built-in kinds, is 3.
unfoldable pub filter_cost_in : FilterModule → ℕ → ℕ → ℕ → Checked ℕ
filter_cost_in m kind value_length pattern_length = do
  cost ←
      with_code (callback_status ((m.cost value_length pattern_length).0))
        ((m.cost value_length pattern_length).1)
  require (not (ltb 3 kind && cost == 0)) invalid_state
  passed cost

-- `*out_matched`; a callback that answers neither 0 nor 1 is refused.
unfoldable pub filter_evaluate_in : FilterModule → Bytes → Bytes → Checked Bool
filter_evaluate_in m text pattern = do
  answer ← with_code (callback_status ((m.evaluate text pattern).0)) ((m.evaluate text pattern).1)
  require (leb answer 1) invalid_state
  passed (answer == 1)

abbrev pub program_fits : Ruleset → Literal → FilterProgram → Bool
program_fits r l p =
    p.kind == l.filter_kind
    && leb p.pattern_length max_filter_pattern_bytes
    && leb p.pattern_offset (length r.filter_pattern_pool)
    && leb p.pattern_length (length r.filter_pattern_pool - p.pattern_offset)

-- The program with its module and its pattern.
unfoldable pub filter_program_resolve :
    Ruleset → Literal → Option (FilterProgram × FilterModule × Bytes)
filter_program_resolve r l =
    if ltb max_filter_programs (length r.filter_programs)
      || ltb filter_pattern_pool_bytes (length r.filter_pattern_pool)
    then none
    else elim (get_elem? r.filter_programs l.filter_program_index) [
      | none ↦ none
      | some p ↦ if not (program_fits r l p) then none else elim (r.filter_by_kind p.kind) [
        | none ↦ none
        | some m ↦ some (p, m, take p.pattern_length (drop p.pattern_offset r.filter_pattern_pool))
      ]
    ]

abbrev pub ends_with_zero : Bytes → ℕ → Bool
ends_with_zero storage i = elim (get_elem? storage i) [ none ↦ false | some c ↦ c == 0 ]

abbrev pub entry_fits : SymbolTable → Entry → Bool
entry_fits t e =
    leb e.len max_string_bytes
    && leb e.offset (used t)
    && ltb e.len (used t - e.offset)
    && ends_with_zero t.storage (e.offset + e.len)

unfoldable pub filter_symbol_bytes_resolve : SymbolTable → ℕ → Option Bytes
filter_symbol_bytes_resolve t id =
    if ltb max_symbols (count t) || ltb string_pool_bytes (used t) || not (symbol_id_is_valid t id)
    then none
    else elim (get_elem? t.entries (id - 1)) [
      | none ↦ none
      | some e ↦ if entry_fits t e then some (take e.len (drop e.offset t.storage)) else none
    ]

abbrev pub symbol_value : Evaluated Term → Checked ℕ
symbol_value (value (symbol id)) = passed id
symbol_value _ = refused invalid_field

-- What a filter literal asks before the budget is looked at: the cost, and the evaluation.
abbrev pub FilterCall : Type 0
FilterCall = ℕ × Checked Bool

unfoldable pub filter_call : Ruleset → SymbolTable → Literal → Bindings → Checked FilterCall
filter_call r symbols l b = do
  resolved ← or_refuse (filter_program_resolve r l) invalid_state
  id ← symbol_value (instantiate_comparison_term b l.filter_value)
  text ← or_refuse (filter_symbol_bytes_resolve symbols id) invalid_state
  cost ← filter_cost_in (resolved.1) ((resolved.0).kind) (length text) (length (resolved.2))
  passed (cost, filter_evaluate_in (resolved.1) text (resolved.2))

-- The first failure stays.
unfoldable pub set_filter_failure : Rc → Work → Work
set_filter_failure rc w = elim w.failure_error [
  | ok ↦ record w { failure_error = rc; failure_reason = deny_filter_error }
  | _ ↦ w
]

abbrev pub over_budget : Work → ℕ → Bool
over_budget w cost =
    leb max_filter_evaluations w.evaluations
    || ltb max_filter_cost_units w.cost_units
    || ltb (max_filter_cost_units - w.cost_units) cost

abbrev pub record_filter : Work → ℕ → Bool → Work
record_filter w cost hit = record w {
  evaluations = w.evaluations + 1;
  cost_units = w.cost_units + cost;
  matches = if hit then w.matches + 1 else w.matches;
  non_matches = if hit then w.non_matches else w.non_matches + 1;
}

unfoldable pub charge_filter : FilterCall → Work → Verdict × Work
charge_filter (cost, evaluation) w =
    if over_budget w cost
    then (fatal, set_filter_failure payload_too_large w)
    else elim evaluation [
      | refused rc ↦ (fatal, set_filter_failure rc w)
      | passed hit ↦ (if hit then matched else skipped, record_filter w cost hit)
    ]

unfoldable pub evaluate_filter_literal : View → Literal → Bindings → Work → Verdict × Work
evaluate_filter_literal v l b w = elim (filter_call v.the_ruleset v.symbols l b) [
  | refused rc ↦ (fatal, set_filter_failure rc w)
  | passed call ↦ charge_filter call w
]
