-- ===== src/FactSet/Sorting.antt =====
-- `maelys_datalog_fact_set_sort` of src/core/maelys_datalog_edb.c, which sorts a set that is not
-- marked as sorted.
use maelys_datalog.Prelude.{
  true, false, not, ◌&&◌, List, [], ◌∷◌, ◌≡◌, ◌≤◌, ◌↔◌, inl, inr, refl, arith, Bool-cases, length,
  ltb, if◌then◌else◌, In, Rc, ok, invalid_argument,
}
use maelys_datalog.Fact.{Fact, fact_cmp}
use maelys_datalog.Fact.Order.{fact_cmp-IsOrder}
use maelys_datalog.FactSet.{FactSet}
use maelys_datalog.FactSet.Order.{IsSorted, fact_cmp_self}
use maelys_datalog.Sort.{sort}
use maelys_datalog.Sort.Membership.{In-sort}
use maelys_datalog.Sort.Prefix
use maelys_datalog.Sort.Prefix.{sort-IsSorted}

unfoldable pub fact_set_sort : FactSet → Rc × FactSet
fact_set_sort s =
    if ltb s.capacity (length s.facts)
    then (invalid_argument, s)
    else if ltb 1 (length s.facts) && not s.sorted
    then (ok, record s { facts = sort fact_cmp s.facts; sorted = true })
    else (ok, record s { sorted = true })

pub facts-IsSorted : (fs : List Fact) → Prefix.IsSorted fact_cmp fs → IsSorted fs
facts-IsSorted [] s = tt
facts-IsSorted (f ∷ fs) s = (s.0, facts-IsSorted fs s.1)

-- A set that is left alone is in order.
unsorted-IsSorted :
    (s : FactSet)
    → (s.sorted ≡ true → IsSorted s.facts)
    → (ltb 1 (length s.facts) && not s.sorted) ≡ false
    → IsSorted s.facts
unsorted-IsSorted s marked h = elim (Bool-cases s.sorted) [
  | inl e ↦ marked e
  | inr e ↦ short s.facts (rw e at h)
]
  where
    short : (fs : List Fact) → (ltb 1 (length fs) && true) ≡ false → IsSorted fs
    short [] h = tt
    short (f ∷ []) h = (tt, tt)
    short (f ∷ g ∷ fs) h =
        let many : ltb 1 (length (f ∷ g ∷ fs)) ≡ true = ground arith in cc (rw many at h)

-- On a set within its capacity that is in order if it is marked so, `maelys_datalog_fact_set_sort`
-- succeeds, and what it leaves is in order and marked so, with the same facts and capacity.
pub fact_set_sort-IsSorted :
    (s : FactSet)
    → length s.facts ≤ s.capacity
    → (s.sorted ≡ true → IsSorted s.facts)
    → (t : FactSet) × (fact_set_sort s ≡ (ok, t))
      × IsSorted t.facts
      × ((f : Fact) → In f t.facts ↔ In f s.facts)
      × (t.sorted ≡ true)
      × (t.capacity ≡ s.capacity)
unfolding fact_set_sort
fact_set_sort-IsSorted s le marked =
    let room : ltb s.capacity (length s.facts) ≡ false = ground arith in
    elim (Bool-cases (ltb 1 (length s.facts) && not s.sorted)) [
      | inl e ↦ (
        record s { facts = sort fact_cmp s.facts; sorted = true },
        rw (room, e) refl,
        facts-IsSorted (sort fact_cmp s.facts) (sort-IsSorted fact_cmp fact_cmp-IsOrder s.facts),
        In-sort fact_cmp fact_cmp_self s.facts,
        refl,
        refl,
      )
      | inr e ↦ (
        record s { sorted = true },
        rw (room, e) refl,
        unsorted-IsSorted s marked e,
        λ f. (λ m. m, λ m. m),
        refl,
        refl,
      )
    ]
