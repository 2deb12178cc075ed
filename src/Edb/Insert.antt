-- ===== src/Edb/Insert.antt =====
-- When `add_fact` succeeds, and what it then holds.
use maelys_datalog.Prelude.{
  ℕ, length, true, List, [], ◌∷◌, ◌++◌, ◌≡◌, ◌≢◌, ◌↔◌, ◌⊎◌, inl, inr, refl, sym, ◌∙◌, ap, arith, In,
  Bytes, Rc, ok, refused, passed,
}
use maelys_datalog.Fact.{Term, Fact}
use maelys_datalog.Registry.{Registry}
use maelys_datalog.Symbols.{SymbolTable}
use maelys_datalog.Edb.{
  Edb, facts, edb_contains, edb_predicate, validate_fact, edb_add_fact, edb_clear, edb_init,
}
use maelys_datalog.Edb.Invariant.{
  IsValid, IsTarget-passed, Accepts, refuses, present, appends, add_fact-Added, In-contains,
  edb_add_fact-IsValid,
}

Accepts-passed :
    (e : Edb) (predicate : Bytes) (terms : List Term) (f : Fact)
    → Accepts e predicate terms f
    → validate_fact e predicate terms ≡ passed f
unfolding validate_fact
Accepts-passed e predicate terms f a =
    let t = IsTarget-passed e predicate (length terms) f.predicate_id a.target in
    ground (arith, t, a.terms_are)

-- A refusal is never OK.
validate_fact-refused :
    (e : Edb) (predicate : Bytes) (terms : List Term) (rc : Rc)
    → validate_fact e predicate terms ≡ refused rc
    → rc ≢ ok
unfolding validate_fact edb_predicate
validate_fact-refused e predicate terms rc h = ground arith

-- `maelys_datalog_edb_add_fact` returns OK exactly if the arity is at most 4, the EDB is not
-- finalized, the predicate is a declared EDB predicate of that arity, and the capacity, the bound
-- on facts and the bound on the predicate leave room, also for a fact that is there already.
pub edb_add_fact-ok_iff :
    (e : Edb) (predicate : Bytes) (terms : List Term)
    → ((edb_add_fact e predicate terms).0 ≡ ok) ↔ ((f : Fact) × Accepts e predicate terms f)
edb_add_fact-ok_iff e predicate terms = elim (add_fact-Added e predicate terms) [
  | refuses rc h r ↦ (
    λ o. absurd (validate_fact-refused e predicate terms rc h (sym (ap (λ x. x.0) r) ∙ o)),
    λ (f, a). cc (Accepts-passed e predicate terms f a, h),
  )
  | present f a c r ↦ (λ o. (f, a), λ _. ap (λ x. x.0) r)
  | appends f a c r ↦ (λ o. (f, a), λ _. ap (λ x. x.0) r)
]

pub In-concat : (fs : List Fact) (f g : Fact) → In g (fs ++ f ∷ []) ↔ ((g ≡ f) ⊎ In g fs)
In-concat [] f g = (λ m. m, λ m. m)
In-concat (x ∷ fs) f g = ground (arith, In-concat fs f g)

pub Accepts-unique :
    (e : Edb) (predicate : Bytes) (terms : List Term) (f g : Fact)
    → Accepts e predicate terms f
    → Accepts e predicate terms g
    → f ≡ g
Accepts-unique e predicate terms f g a b =
    cc (Accepts-passed e predicate terms f a, Accepts-passed e predicate terms g b)

-- The facts after an insertion that is accepted.
pub In-add_fact :
    (e : Edb) (predicate : Bytes) (terms : List Term) (f g : Fact)
    → IsValid e
    → Accepts e predicate terms f
    → In g (facts (edb_add_fact e predicate terms).1) ↔ ((g ≡ f) ⊎ In g (facts e))
In-add_fact e predicate terms f g v a = elim (add_fact-Added e predicate terms) [
  | refuses rc h r ↦ cc (Accepts-passed e predicate terms f a, h)
  | present f' a' c r ↦
      let same = Accepts-unique e predicate terms f' f a' a in
      let there = rw same at ((In-contains e v f').0 c) in
      rw r (inr, λ m. elim m [ inl eq ↦ rw eq there | inr old ↦ old ])
  | appends f' a' c r ↦
      let same = Accepts-unique e predicate terms f' f a' a in
      rw (r, same) (In-concat (facts e) f g)
]

-- Where `maelys_datalog_edb_add_fact` accepts a fact on a valid EDB, the EDB then contains exactly
-- that fact and what it contained before.
pub edb_add_fact-contains :
    (e : Edb) (predicate : Bytes) (terms : List Term) (f g : Fact)
    → IsValid e
    → Accepts e predicate terms f
    → (edb_contains (edb_add_fact e predicate terms).1 g ≡ true)
      ↔ ((g ≡ f) ⊎ (edb_contains e g ≡ true))
edb_add_fact-contains e predicate terms f g v a =
    let (out, into) =
      In-contains (edb_add_fact e predicate terms).1 (edb_add_fact-IsValid e predicate terms v) g in
    let (split, join) = In-add_fact e predicate terms f g v a in
    let (found, holds) = In-contains e v g in
    (
      λ h. elim (split (out h)) [ inl eq ↦ inl eq | inr m ↦ inr (holds m) ],
      λ h. into (join (elim h [ inl eq ↦ inl eq | inr t ↦ inr (found t) ])),
    )

-- `maelys_datalog_edb_init` and `maelys_datalog_edb_clear` give a valid EDB.
pub edb_init-IsValid :
    (capacity : ℕ) (symbols : SymbolTable) (registry : Registry)
    → IsValid (edb_init capacity symbols registry)
unfolding edb_init
edb_init-IsValid capacity symbols registry = record {
  within = omega arith;
  bounded = omega arith;
  counted = λ p. refl;
  capped = λ p. omega arith;
  ordered = λ h. tt;
  distinct = tt;
  declared = tt;
}

pub edb_clear-IsValid : (e : Edb) → IsValid (edb_clear e)
unfolding edb_clear
edb_clear-IsValid e = record {
  within = omega arith;
  bounded = omega arith;
  counted = λ p. refl;
  capped = λ p. omega arith;
  ordered = λ h. tt;
  distinct = tt;
  declared = tt;
}
