-- ===== src/FactSet.antt =====
-- Sets of facts, `maelys_datalog_fact_set_t`, and the functions over them in
-- src/core/maelys_datalog_edb.c: search, ranges, removal of duplicates and the merge of a delta.
-- The fact array up to `count` is the list `facts`; what lies behind it in the pool is not kept.
pub mod Bisect
pub mod Order
pub mod Contains
pub mod Range
pub mod Dedup
pub mod Sorting
pub mod Union
pub mod Merging
use maelys_datalog.Prelude.{
  ℕ, zero, suc, ◌+◌, ◌-◌, ◌/◌, Bool, true, false, not, ◌&&◌, ◌||◌, List, [], ◌∷◌, ◌++◌, Option,
  none, some, Ordering, length, get_elem?, ltb, leb, ◌==◌, if◌then◌else◌, Rc, ok, invalid_argument,
  invalid_field, payload_too_large,
}
use maelys_datalog.Bounds.{max_predicates, max_idb_facts, max_facts_per_pred}
use maelys_datalog.Fact.{Fact, fact_cmp, fact_equals}

pub record FactSet : Type 0 where
  pub facts : List Fact
  pub capacity : ℕ
  pub sorted : Bool

abbrev pub count : FactSet → ℕ
count s = length s.facts

unfoldable pub fact_set_init : ℕ → FactSet
fact_set_init capacity = record { facts = []; capacity = capacity; sorted = true }

abbrev pub is_lt : Ordering → Bool
is_lt Ordering.lt = true
is_lt _ = false

abbrev pub is_eq : Ordering → Bool
is_eq Ordering.eq = true
is_eq _ = false

-- A test of `facts[i]`; the searches below keep `i` within the array.
abbrev pub probe : (Fact → Bool) → List Fact → ℕ → Bool
probe test facts i = elim (get_elem? facts i) [ none ↦ false | some f ↦ test f ]

-- `while (lo < hi)`: `lo = mid + 1` where the test holds at `mid`, and `hi = mid` elsewhere. The
-- fuel is the number of rounds allowed.
unfoldable pub bisect : (Fact → Bool) → List Fact → ℕ → ℕ → ℕ → ℕ
bisect test facts zero lo hi = lo
bisect test facts (suc fuel) lo hi = elim (ltb lo hi) [
  | false ↦ lo
  | true ↦ elim (probe test facts (lo + (hi - lo) / 2)) [
    | true ↦ bisect test facts fuel (lo + (hi - lo) / 2 + 1) hi
    | false ↦ bisect test facts fuel lo (lo + (hi - lo) / 2)
  ]
]

-- The linear scan of an unsorted set.
unfoldable pub scan : List Fact → Fact → Bool
scan [] fact = false
scan (f ∷ fs) fact = fact_equals f fact || scan fs fact

unfoldable pub fact_set_contains : FactSet → Fact → Bool
fact_set_contains s fact =
    if not s.sorted
    then scan s.facts fact
    else let lo = bisect (λ g. is_lt (fact_cmp g fact)) s.facts (count s) 0 (count s) in
      ltb lo (count s) && probe (λ g. is_eq (fact_cmp g fact)) s.facts lo

-- The result code with `*begin` and `*end`, which an error leaves as they were.
unfoldable pub fact_set_predicate_range : FactSet → ℕ → ℕ → ℕ → Rc × ℕ × ℕ
fact_set_predicate_range s predicate_id begin end =
    if not s.sorted
    then (invalid_argument, begin, end)
    else let lo = bisect (λ g. ltb g.predicate_id predicate_id) s.facts (count s) 0 (count s) in
      (ok, lo, bisect (λ g. leb g.predicate_id predicate_id) s.facts (count s) lo (count s))

-- The loop of `dedup` behind the fact kept last.
unfoldable pub dedup_from : Fact → List Fact → List Fact
dedup_from kept [] = []
dedup_from kept (f ∷ fs) = elim (is_eq (fact_cmp kept f)) [
  | true ↦ dedup_from kept fs
  | false ↦ f ∷ dedup_from f fs
]

abbrev pub dedup_list : List Fact → List Fact
dedup_list [] = []
dedup_list (f ∷ fs) = f ∷ dedup_from f fs

unfoldable pub fact_set_dedup : FactSet → Rc × FactSet
fact_set_dedup s =
    if not s.sorted then (invalid_argument, s) else (ok, record s { facts = dedup_list s.facts })

-- The variables of the merge loop; `per_pred` is the array of counters.
pub record Merge : Type 0 where
  pub out : List Fact
  pub per_pred : ℕ → ℕ
  pub inserted : ℕ

abbrev pub bump : (ℕ → ℕ) → ℕ → ℕ → ℕ
bump counters p q = if p == q then counters q + 1 else counters q

abbrev pub written : Merge → Fact → Bool → Merge
written m src from_delta = record {
  out = m.out ++ src ∷ [];
  per_pred = bump m.per_pred src.predicate_id;
  inserted = if from_delta then m.inserted + 1 else m.inserted;
}

-- The checks and the write at the end of one round.
unfoldable pub emit : ℕ → Merge → Fact → Bool → Rc × Merge
emit capacity m src from_delta =
    if not (ltb src.predicate_id max_predicates)
    then (invalid_field, m)
    else if leb capacity (length m.out) || leb max_idb_facts (length m.out)
    then (payload_too_large, m)
    else if leb max_facts_per_pred (m.per_pred src.predicate_id)
    then (payload_too_large, m)
    else (ok, written m src from_delta)

-- One round: what is taken, whether it is counted as new, and what is left of the two sets.
pub record Round : Type 0 where
  pub src : Fact
  pub from_delta : Bool
  pub current : List Fact
  pub delta : List Fact

unfoldable pub choose : List Fact → List Fact → Option Round
choose [] [] = none
choose [] (d ∷ ds) = some (record { src = d; from_delta = true; current = []; delta = ds })
choose (c ∷ cs) [] = some (record { src = c; from_delta = false; current = cs; delta = [] })
choose (c ∷ cs) (d ∷ ds) = elim (fact_cmp c d) [
  | Ordering.eq ↦ some (record { src = c; from_delta = false; current = cs; delta = ds })
  | Ordering.lt ↦ some (record { src = c; from_delta = false; current = cs; delta = d ∷ ds })
  | Ordering.gt ↦ some (record { src = d; from_delta = true; current = c ∷ cs; delta = ds })
]

-- The `while` loop. Every round takes a fact, so the sum of the counts is enough fuel.
unfoldable pub merge_loop : ℕ → ℕ → List Fact → List Fact → Merge → Rc × Merge
merge_loop zero capacity current delta m = (ok, m)
merge_loop (suc fuel) capacity current delta m = elim (choose current delta) [
  | none ↦ (ok, m)
  | some r ↦
      let (rc, m') = emit capacity m r.src r.from_delta in
      elim rc [ ok ↦ merge_loop fuel capacity r.current r.delta m' | failed ↦ (failed, m') ]
]

abbrev pub empty_merge : Merge
empty_merge = record { out = []; per_pred = λ _. 0; inserted = 0 }

-- The end of the merge: a success replaces the facts, a failure leaves the set and the count.
abbrev pub publish : FactSet → ℕ → Rc → Merge → Rc × FactSet × ℕ
publish current inserted_count ok m =
    (ok, record current { facts = m.out; sorted = true }, m.inserted)
publish current inserted_count failed m = (failed, current, inserted_count)

-- The result code, the set and `*inserted_count`, which an error leaves as it was.
unfoldable pub fact_set_merge_delta : FactSet → FactSet → ℕ → ℕ → Rc × FactSet × ℕ
fact_set_merge_delta current delta merge_capacity inserted_count =
    if not current.sorted || not delta.sorted
    then (invalid_argument, current, inserted_count)
    else let (rc, m) =
        merge_loop (count current + count delta) merge_capacity current.facts delta.facts
          empty_merge in
      publish current inserted_count rc m
