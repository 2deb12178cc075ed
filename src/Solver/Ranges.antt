-- ===== src/Solver/Ranges.antt =====
-- The ranges of the sorted EDB snapshot by predicate: `solve_once_build_edb_ranges` and
-- `solve_once_edb_slice` of src/core/maelys_datalog_solver.c.
pub mod Exact
use maelys_datalog.Prelude.{
  ℕ, zero, suc, ◌+◌, ◌-◌, Bool, true, false, ◌||◌, List, [], ◌∷◌, Option, none, some, length, take,
  drop, ltb, leb, ◌==◌, if◌then◌else◌, invalid_state, Checked, refused, passed, not,
}
use maelys_datalog.Bounds.{max_predicates}
use maelys_datalog.Fact.{Fact}
use maelys_datalog.FactSet.{FactSet, count}
use maelys_datalog.Solver.{PredRange, View}

-- The inner loop: how many facts at the front have the predicate.
unfoldable pub run_length : ℕ → List Fact → ℕ
run_length pid [] = 0
run_length pid (f ∷ fs) = elim (f.predicate_id == pid) [
  | true ↦ suc (run_length pid fs)
  | false ↦ 0
]

abbrev pub set_range : (ℕ → PredRange) → ℕ → PredRange → ℕ → PredRange
set_range ranges pid r p = if pid == p then r else ranges p

abbrev pub falls : Option ℕ → ℕ → Bool
falls none pid = false
falls (some previous) pid = ltb pid previous

-- The outer loop; `rest` is the snapshot from `i` on. A round takes a fact, so that the count is
-- enough fuel.
unfoldable pub ranges_loop :
    ℕ → List Fact → ℕ → Option ℕ → (ℕ → PredRange) → Checked (ℕ → PredRange)
ranges_loop fuel [] i previous ranges = passed ranges
ranges_loop zero (f ∷ fs) i previous ranges = passed ranges
ranges_loop (suc fuel) (f ∷ fs) i previous ranges =
    let n = suc (run_length f.predicate_id fs) in
    let next =
      ranges_loop fuel (drop (run_length f.predicate_id fs) fs) (i + n) (some f.predicate_id)
        (set_range ranges f.predicate_id (record { begin = i; count = n })) in
    if leb max_predicates f.predicate_id
      || falls previous f.predicate_id
      || ltb 65535 i
      || ltb 65535 n
    then refused invalid_state
    else next

abbrev pub no_ranges : ℕ → PredRange
no_ranges _ = record { begin = 0; count = 0 }

unfoldable pub build_edb_ranges : FactSet → Checked (ℕ → PredRange)
build_edb_ranges snapshot =
    if not snapshot.sorted
    then refused invalid_state
    else ranges_loop (count snapshot) snapshot.facts 0 none no_ranges

abbrev pub slice_of : List Fact → PredRange → List Fact
slice_of facts r = take r.count (drop r.begin facts)

unfoldable pub edb_slice : View → ℕ → List Fact
edb_slice v pid =
    if leb max_predicates pid then [] else slice_of v.edb_snapshot.facts (v.edb_ranges pid)
