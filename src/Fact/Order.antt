-- ===== src/Fact/Order.antt =====
-- The comparison of facts is a total order, whose equality is equality of facts.
use maelys_datalog.Prelude.{List, [], ◌∷◌, Ordering, length, ◌≡◌, refl, arith}
use maelys_datalog.Prelude.Compare.{flip, IsOrder}
use maelys_datalog.Prelude.Integer.{ℤ, compare_ℤ}
use maelys_datalog.Fact.{Term, symbol, Fact, term_cmp, terms_cmp, fact_cmp}

pub compare_ℤ_self : (a : ℤ) → compare_ℤ a a ≡ Ordering.eq
compare_ℤ_self a = ground arith

pub compare_ℤ-equal : (a b : ℤ) → compare_ℤ a b ≡ Ordering.eq → a ≡ b
compare_ℤ-equal a b h = ground arith

compare_ℤ-flips : (a b : ℤ) → compare_ℤ b a ≡ flip (compare_ℤ a b)
compare_ℤ-flips a b = ground arith

compare_ℤ-trans :
    (a b c : ℤ)
    → compare_ℤ a b ≡ Ordering.lt
    → compare_ℤ b c ≡ Ordering.lt
    → compare_ℤ a c ≡ Ordering.lt
compare_ℤ-trans a b c h k = ground arith

term_cmp_self : (a : Term) → term_cmp a a ≡ Ordering.eq
unfolding term_cmp
term_cmp_self a = ground arith

term_cmp-equal : (a b : Term) → term_cmp a b ≡ Ordering.eq → a ≡ b
unfolding term_cmp
term_cmp-equal a b h = ground arith

term_cmp-flips : (a b : Term) → term_cmp b a ≡ flip (term_cmp a b)
unfolding term_cmp
term_cmp-flips a b = ground arith

term_cmp_trans :
    (a b c : Term)
    → term_cmp a b ≡ Ordering.lt
    → term_cmp b c ≡ Ordering.lt
    → term_cmp a c ≡ Ordering.lt
unfolding term_cmp
term_cmp_trans (symbol a) b c h k = ground arith
term_cmp_trans a b c h k = ground arith

terms_cmp_self : (a : List Term) → terms_cmp a a ≡ Ordering.eq
unfolding terms_cmp
terms_cmp_self [] = refl
terms_cmp_self (x ∷ xs) = ground (arith, term_cmp_self x, terms_cmp_self xs)

terms_cmp-equal : (a b : List Term) → length a ≡ length b → terms_cmp a b ≡ Ordering.eq → a ≡ b
unfolding terms_cmp
terms_cmp-equal [] [] n h = refl
terms_cmp-equal [] (y ∷ ys) n h = absurd (omega arith)
terms_cmp-equal (x ∷ xs) [] n h = absurd (omega arith)
terms_cmp-equal (x ∷ xs) (y ∷ ys) n h = ground (arith, term_cmp-equal x y, terms_cmp-equal xs ys)

terms_cmp-flips : (a b : List Term) → length a ≡ length b → terms_cmp b a ≡ flip (terms_cmp a b)
unfolding terms_cmp
terms_cmp-flips [] [] n = refl
terms_cmp-flips [] (y ∷ ys) n = absurd (omega arith)
terms_cmp-flips (x ∷ xs) [] n = absurd (omega arith)
terms_cmp-flips (x ∷ xs) (y ∷ ys) n = ground (arith, term_cmp-flips x y, terms_cmp-flips xs ys)

terms_cmp_trans :
    (a b c : List Term)
    → length a ≡ length b
    → length b ≡ length c
    → terms_cmp a b ≡ Ordering.lt
    → terms_cmp b c ≡ Ordering.lt
    → terms_cmp a c ≡ Ordering.lt
unfolding terms_cmp
terms_cmp_trans [] b c m n h k = cc
terms_cmp_trans (x ∷ xs) [] c m n h k = cc
terms_cmp_trans (x ∷ xs) (y ∷ ys) [] m n h k = cc
terms_cmp_trans (x ∷ xs) (y ∷ ys) (z ∷ zs) m n h k = ground (
  arith,
  term_cmp_trans x y z,
  terms_cmp_trans xs ys zs,
  term_cmp-equal x y,
  term_cmp-equal y z,
  term_cmp_self x,
)

fact_cmp_self : (a : Fact) → fact_cmp a a ≡ Ordering.eq
unfolding fact_cmp
fact_cmp_self a = ground (arith, terms_cmp_self a.terms)

fact_cmp-equal : (a b : Fact) → fact_cmp a b ≡ Ordering.eq → a ≡ b
unfolding fact_cmp
fact_cmp-equal a b h = ground (arith, terms_cmp-equal a.terms b.terms)

fact_cmp-flips : (a b : Fact) → fact_cmp b a ≡ flip (fact_cmp a b)
unfolding fact_cmp
fact_cmp-flips a b = ground (arith, terms_cmp-flips a.terms b.terms)

fact_cmp_trans :
    (a b c : Fact)
    → fact_cmp a b ≡ Ordering.lt
    → fact_cmp b c ≡ Ordering.lt
    → fact_cmp a c ≡ Ordering.lt
unfolding fact_cmp
fact_cmp_trans a b c h k = ground (arith, terms_cmp_trans a.terms b.terms c.terms)

-- `maelys_datalog_fact_cmp` is a total order on facts: it is 0 exactly on equal facts, exchanging
-- the arguments exchanges the sign, and "less" is transitive.
pub fact_cmp-IsOrder : IsOrder fact_cmp
fact_cmp-IsOrder = record {
  self = fact_cmp_self;
  equal = fact_cmp-equal;
  flips = fact_cmp-flips;
  trans = fact_cmp_trans;
}
