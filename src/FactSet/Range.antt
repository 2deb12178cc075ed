-- ===== src/FactSet/Range.antt =====
-- The run of one predicate's facts in a sorted set.
use maelys_datalog.Prelude.{
  ℕ, ◌≤◌, ◌<◌, Bool, true, List, some, Ordering, ◌≡◌, ◌≢◌, ◌↔◌, arith, length, get_elem?, ltb, leb,
  lt_of_get, ok,
}
use maelys_datalog.Fact.{Fact, fact_cmp}
use maelys_datalog.FactSet.{FactSet, bisect, fact_set_predicate_range}
use maelys_datalog.FactSet.Bisect.{IsSorted-IsMonotone, Splits, bisect-Splits, probe-some}
use maelys_datalog.FactSet.Order.{IsSorted}

-- Facts in order have their predicates in order.
fact_cmp-predicate : (a b : Fact) → fact_cmp a b ≢ Ordering.gt → a.predicate_id ≤ b.predicate_id
unfolding fact_cmp
fact_cmp-predicate a b h = ground arith

-- `begin` and `end` are within the set, and the facts between them, and no others, have the
-- predicate.
pub record IsSpan (fs : List Fact) (p begin end : ℕ) : Type 0 where
  pub ordered : begin ≤ end
  pub within : end ≤ length fs
  pub exact :
      (i : ℕ) (f : Fact)
      → get_elem? fs i ≡ some f
      → (f.predicate_id ≡ p) ↔ ((begin ≤ i) × (i < end))

module _ (fs : List Fact) (p : ℕ) (sorted : IsSorted fs) where
  abbrev before : Fact → Bool
  before g = ltb g.predicate_id p

  abbrev up_to : Fact → Bool
  up_to g = leb g.predicate_id p

  Splits-IsRange :
      (begin end : ℕ)
      → Splits before fs 0 (length fs) begin
      → Splits up_to fs begin (length fs) end
      → IsSpan fs p begin end
  Splits-IsRange begin end b e = record {
    ordered = e.above;
    within = e.below;
    exact = λ i f at. (
      λ same. ground (
        arith,
        b.left i,
        e.right i,
        probe-some before fs i f at,
        probe-some up_to fs i f at,
        lt_of_get fs i f at,
      ),
      λ inside. ground (
        arith,
        b.right i,
        e.left i,
        probe-some before fs i f at,
        probe-some up_to fs i f at,
        lt_of_get fs i f at,
      ),
    );
  }

  range-IsSpan :
      let begin = bisect before fs (length fs) 0 (length fs) in
      IsSpan fs p begin (bisect up_to fs (length fs) begin (length fs))
  range-IsSpan =
      let b =
        bisect-Splits before fs
          (IsSorted-IsMonotone before fs (λ x y h k. ground (arith, fact_cmp-predicate x y)) sorted)
          (length fs) 0 (length fs) (omega arith) (omega arith) in
      Splits-IsRange _ _ b (
        bisect-Splits up_to fs
          (IsSorted-IsMonotone up_to fs (λ x y h k. ground (arith, fact_cmp-predicate x y)) sorted)
          (length fs) _ (length fs) b.below (omega arith))

-- `maelys_datalog_fact_set_predicate_range` succeeds on a set that is marked as sorted and is in
-- order, and the facts from `begin` up to `end` are exactly those of the predicate.
pub predicate_range-IsSpan :
    (s : FactSet) (p b e : ℕ)
    → s.sorted ≡ true
    → IsSorted s.facts
    → (begin : ℕ) × (end : ℕ) × (fact_set_predicate_range s p b e ≡ (ok, begin, end))
      × IsSpan s.facts p begin end
unfolding fact_set_predicate_range
predicate_range-IsSpan s p b e marked h = (_, _, rw marked, range-IsSpan s.facts p h)
