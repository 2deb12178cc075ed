-- ===== src/FactSet/Order.antt =====
-- Ordered lists of facts.
use maelys_datalog.Prelude.{
  ℕ, zero, suc, ◌≤◌, List, [], ◌∷◌, some, Ordering, ◌≡◌, ◌≢◌, arith, get_elem?, All, All-In, In-get,
}
use maelys_datalog.Prelude.Compare.{flip}
use maelys_datalog.Fact.{Fact, fact_cmp}
use maelys_datalog.Fact.Order.{fact_cmp-IsOrder}

-- No fact is greater than a later one.
abbrev pub IsSorted : List Fact → Type 0
IsSorted [] = Unit
IsSorted (f ∷ fs) = All (λ g. fact_cmp f g ≢ Ordering.gt) fs × IsSorted fs

-- Every fact is less than each later one, so none stands twice.
abbrev pub IsStrict : List Fact → Type 0
IsStrict [] = Unit
IsStrict (f ∷ fs) = All (λ g. fact_cmp f g ≡ Ordering.lt) fs × IsStrict fs

open fact_cmp-IsOrder use {self, equal, flips, trans}

pub fact_cmp_self : (a : Fact) → fact_cmp a a ≡ Ordering.eq
fact_cmp_self = self

pub fact_cmp-equal : (a b : Fact) → fact_cmp a b ≡ Ordering.eq → a ≡ b
fact_cmp-equal = equal

pub fact_cmp-flips : (a b : Fact) → fact_cmp b a ≡ flip (fact_cmp a b)
fact_cmp-flips = flips

pub fact_cmp_trans :
    (a b c : Fact)
    → fact_cmp a b ≡ Ordering.lt
    → fact_cmp b c ≡ Ordering.lt
    → fact_cmp a c ≡ Ordering.lt
fact_cmp_trans = trans

-- "Not greater" is transitive.
pub fact_cmp-trans_le :
    (a b c : Fact)
    → fact_cmp a b ≢ Ordering.gt
    → fact_cmp b c ≢ Ordering.gt
    → fact_cmp a c ≢ Ordering.gt
fact_cmp-trans_le a b c h k e =
    ground (arith, equal a b, equal b c, flips a c, flips a b, flips b c, trans c b a, trans a b c)

pub IsSorted-get :
    (fs : List Fact) (i j : ℕ) (a b : Fact)
    → IsSorted fs
    → i ≤ j
    → get_elem? fs i ≡ some a
    → get_elem? fs j ≡ some b
    → fact_cmp a b ≢ Ordering.gt
IsSorted-get [] i j a b s le h k = cc
IsSorted-get (f ∷ fs) zero zero a b s le h k = λ e. ground (arith, self f)
IsSorted-get (f ∷ fs) zero (suc j) a b s le h k =
    let e : f ≡ a = cc in
    rw (← e) (All-In (λ g. fact_cmp f g ≢ Ordering.gt) fs b s.0 (In-get fs j b k))
IsSorted-get (f ∷ fs) (suc i) zero a b s le h k = absurd (omega arith)
IsSorted-get (f ∷ fs) (suc i) (suc j) a b s le h k = IsSorted-get fs i j a b s.1 (omega arith) h k
