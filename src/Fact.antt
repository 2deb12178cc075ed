-- ===== src/Fact.antt =====
-- Terms, facts and their comparison: `maelys_datalog_internal_term_t` and
-- `maelys_datalog_internal_fact_t` of src/core/maelys_datalog_types.h, `maelys_datalog_fact_cmp`
-- and its relatives in src/core/maelys_datalog_edb.c and maelys_datalog_term_internal.h.
-- A fact's `arity` is the length of its list of terms, and a kind tag with its payload is a
-- constructor; the two values 0 and 1 that the code stores in `boolean` are a Bool.
pub mod Order
use maelys_datalog.Prelude.{
  ℕ, Bool, true, false, ◌&&◌, List, [], ◌∷◌, compare, Ordering, length, ◌==◌,
}
use maelys_datalog.Prelude.Compare.{and_then}
use maelys_datalog.Prelude.Integer.{ℤ, compare_ℤ}

pub data Term : Type 0 where
  symbol : ℕ → Term
  integer : ℤ → Term
  boolean : Bool → Term
  variable : ℕ → Term

pub record Fact : Type 0 where
  pub predicate_id : ℕ
  pub terms : List Term

abbrev pub arity : Fact → ℕ
arity f = length f.terms

-- The tags of `maelys_datalog_internal_term_kind_t`.
abbrev pub kind : Term → ℕ
kind (symbol _) = 1
kind (integer _) = 2
kind (boolean _) = 3
kind (variable _) = 4

abbrev pub compare_bool : Bool → Bool → Ordering
compare_bool false false = Ordering.eq
compare_bool false true = Ordering.lt
compare_bool true false = Ordering.gt
compare_bool true true = Ordering.eq

-- The sign of the C result.
unfoldable pub term_cmp : Term → Term → Ordering
term_cmp (symbol a) (symbol b) = compare a b
term_cmp (integer a) (integer b) = compare_ℤ a b
term_cmp (boolean a) (boolean b) = compare_bool a b
term_cmp (variable a) (variable b) = compare a b
term_cmp a b = compare (kind a) (kind b)

-- The loop over `i < a->arity`; both facts have the same arity there.
unfoldable pub terms_cmp : List Term → List Term → Ordering
terms_cmp [] _ = Ordering.eq
terms_cmp (_ ∷ _) [] = Ordering.eq
terms_cmp (a ∷ as') (b ∷ bs) = and_then (term_cmp a b) (terms_cmp as' bs)

unfoldable pub fact_cmp : Fact → Fact → Ordering
unfolding terms_cmp term_cmp
fact_cmp a b =
    and_then (compare a.predicate_id b.predicate_id)
      (and_then (compare (arity a) (arity b)) (terms_cmp a.terms b.terms))

unfoldable pub fact_equals : Fact → Fact → Bool
fact_equals a b = elim (fact_cmp a b) [ Ordering.eq ↦ true | _ ↦ false ]

-- `maelys_datalog_term_equal`: two variables are never equal.
unfoldable pub term_equal : Term → Term → Bool
term_equal (symbol a) (symbol b) = a == b
term_equal (integer a) (integer b) = elim (compare_ℤ a b) [ Ordering.eq ↦ true | _ ↦ false ]
term_equal (boolean a) (boolean b) = elim (compare_bool a b) [ Ordering.eq ↦ true | _ ↦ false ]
term_equal a b = false
