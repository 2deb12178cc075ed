-- ===== src/Tests/Facts.antt =====
-- Fact sets.
use maelys_datalog.Prelude.{ℕ, ◌⊎◌, arith, true, [], ◌∷◌, ◌≡◌, ◌↔◌, refl, In, ok, payload_too_large}
use maelys_datalog.Prelude.Integer.{pos, negsuc}
use maelys_datalog.Fact.{symbol, integer, boolean, Fact, fact_cmp}
use maelys_datalog.FactSet.{
  FactSet, fact_set_contains, fact_set_predicate_range, fact_set_dedup, fact_set_merge_delta,
  bisect, dedup_from, merge_loop, choose, emit,
}
use maelys_datalog.FactSet.Order.{IsSorted, IsStrict}
use maelys_datalog.FactSet.Contains.{fact_set_contains_iff}
use maelys_datalog.FactSet.Range.{IsSpan, predicate_range-IsSpan}
use maelys_datalog.FactSet.Dedup.{fact_set_dedup-IsStrict}
use maelys_datalog.FactSet.Merging.{Fits, IsUnion, merge_delta-ok_iff, merge_delta-IsUnion}

abbrev low : Fact
low = record { predicate_id = 1; terms = integer (negsuc 4) ∷ [] }

abbrev mid : Fact
mid = record { predicate_id = 1; terms = integer (pos 7) ∷ symbol 2 ∷ [] }

abbrev high : Fact
high = record { predicate_id = 3; terms = boolean true ∷ [] }

abbrev current : FactSet
current = record { facts = low ∷ high ∷ []; capacity = 4; sorted = true }

abbrev delta : FactSet
delta = record { facts = mid ∷ high ∷ []; capacity = 4; sorted = true }

abbrev repeated : FactSet
repeated = record { facts = low ∷ mid ∷ mid ∷ high ∷ []; capacity = 4; sorted = true }

abbrev all_three : FactSet
all_three = record { facts = low ∷ mid ∷ high ∷ []; capacity = 4; sorted = true }

current-IsStrict : IsStrict current.facts
unfolding fact_cmp
current-IsStrict = ((refl, tt), (tt, tt))

delta-IsStrict : IsStrict delta.facts
unfolding fact_cmp
delta-IsStrict = ((refl, tt), (tt, tt))

repeated-IsSorted : IsSorted repeated.facts
unfolding fact_cmp
repeated-IsSorted =
    ((λ e. cc, (λ e. cc, (λ e. cc, tt))), ((λ e. cc, (λ e. cc, tt)), ((λ e. cc, tt), (tt, tt))))

merges : fact_set_merge_delta current delta 4 0 ≡ (ok, all_three, 1)
unfolding fact_set_merge_delta merge_loop choose emit fact_cmp
merges = refl

too_many : fact_set_merge_delta current delta 2 9 ≡ (payload_too_large, current, 9)
unfolding fact_set_merge_delta merge_loop choose emit fact_cmp
too_many = refl

merge_delta-IsUnion_example : IsUnion current delta 4 0 all_three 1
merge_delta-IsUnion_example =
    merge_delta-IsUnion current delta 4 0 refl refl current-IsStrict delta-IsStrict all_three 1
      merges

all_three-IsStrict : IsStrict all_three.facts
unfolding fact_cmp
all_three-IsStrict = ((refl, (refl, tt)), ((refl, tt), (tt, tt)))

all_three-members : (f : Fact) → In f all_three.facts ↔ (In f current.facts ⊎ In f delta.facts)
all_three-members f = ground arith

merge_delta-ok_iff_example :
    ((fact_set_merge_delta current delta 4 0).0 ≡ ok) ↔ Fits 4 all_three.facts
merge_delta-ok_iff_example =
    merge_delta-ok_iff current delta 4 0 refl refl current-IsStrict delta-IsStrict all_three.facts
      all_three-IsStrict all_three-members

fact_set_contains_iff_example : (fact_set_contains repeated mid ≡ true) ↔ In mid repeated.facts
fact_set_contains_iff_example = fact_set_contains_iff repeated mid (λ _. repeated-IsSorted)

finds : fact_set_contains repeated mid ≡ true
unfolding fact_set_contains bisect fact_cmp
finds = refl

predicate_range-IsSpan_example :
    (begin : ℕ) × (end : ℕ) × (fact_set_predicate_range repeated 1 0 0 ≡ (ok, begin, end))
    × IsSpan repeated.facts 1 begin end
predicate_range-IsSpan_example = predicate_range-IsSpan repeated 1 0 0 refl repeated-IsSorted

ranges : fact_set_predicate_range repeated 1 0 0 ≡ (ok, 0, 3)
unfolding fact_set_predicate_range bisect
ranges = refl

fact_set_dedup-IsStrict_example :
    (t : FactSet) × (fact_set_dedup repeated ≡ (ok, t))
    × IsStrict t.facts
    × ((f : Fact) → In f t.facts ↔ In f repeated.facts)
    × (t.capacity ≡ repeated.capacity)
    × (t.sorted ≡ true)
fact_set_dedup-IsStrict_example = fact_set_dedup-IsStrict repeated refl repeated-IsSorted

dedups : fact_set_dedup repeated ≡ (ok, all_three)
unfolding fact_set_dedup dedup_from fact_cmp
dedups = refl
