-- ===== src/Edb/Invariant.antt =====
-- What every EDB that the operations build satisfies, and what `add_fact` does to it.
use maelys_datalog.Prelude.{
  Checked-cases, ℕ, ◌≤◌, ◌<◌, true, false, List, [], ◌∷◌, ◌++◌, some, ◌≡◌, ◌≢◌, inl, inr, refl, sym,
  ◌∙◌, ap, arith, length, length-append, All, All-concat, In, Bytes, Bool-cases, Option-cases, ◌↔◌,
  some_inj, Rc, ok, refused, passed,
}
use maelys_datalog.Bounds.{max_arity, max_edb_facts, max_facts_per_pred}
use maelys_datalog.Fact.{Term, Fact}
use maelys_datalog.FactSet.Merging.{count_pred, count_pred-append}
use maelys_datalog.FactSet.Order.{IsSorted}
use maelys_datalog.FactSet.Contains.{fact_set_contains_iff}
use maelys_datalog.Registry.{
  Registry, Entry, kind_edb, kind_policy_fact, has_flag, registry_find, registry_get,
}
use maelys_datalog.Registry.Lookup.{registry_find-get}
use maelys_datalog.Edb.{
  Edb, facts, fact_count, fact_capacity, edb_contains, edb_predicate, validate_fact, append_fact,
  edb_add_fact,
}

-- A fact of a declared EDB predicate, with as many terms as it declares.
pub record IsDeclared (r : Registry) (f : Fact) : Type 0 where
  pub def : Entry
  pub declared : registry_get r f.predicate_id ≡ some def
  pub arity_fits : def.arity ≡ length f.terms
  pub is_edb : has_flag def.kind_flags kind_edb ≡ true
  pub not_policy : has_flag def.kind_flags kind_policy_fact ≡ false

-- No fact stands twice.
abbrev pub IsNodup : List Fact → Type 0
IsNodup [] = Unit
IsNodup (f ∷ fs) = All (λ g. f ≢ g) fs × IsNodup fs

pub record IsValid (e : Edb) : Type 0 where
  pub within : fact_count e ≤ fact_capacity e
  pub bounded : fact_count e ≤ max_edb_facts
  pub counted : (p : ℕ) → e.facts_per_pred p ≡ count_pred p (facts e)
  pub capped : (p : ℕ) → e.facts_per_pred p ≤ max_facts_per_pred
  pub ordered : e.fact_set.sorted ≡ true → IsSorted (facts e)
  pub distinct : IsNodup (facts e)
  pub declared : All (IsDeclared e.registry) (facts e)

-- The EDB is not finalized, and `pid` is the declared EDB predicate of this name and arity.
pub record IsTarget (e : Edb) (predicate : Bytes) (arity pid : ℕ) : Type 0 where
  pub open' : e.immutable ≡ false
  pub found : registry_find e.registry predicate arity ≡ some pid
  pub def : Entry
  pub declared : registry_get e.registry pid ≡ some def
  pub is_edb : has_flag def.kind_flags kind_edb ≡ true
  pub not_policy : has_flag def.kind_flags kind_policy_fact ≡ false

pub IsTarget-passed :
    (e : Edb) (predicate : Bytes) (arity pid : ℕ)
    → IsTarget e predicate arity pid
    → edb_predicate e predicate arity ≡ passed pid
unfolding edb_predicate
IsTarget-passed e predicate arity pid t =
    rw (t.open', t.found, t.declared, t.not_policy, t.is_edb) refl

pub passed-IsTarget :
    (e : Edb) (predicate : Bytes) (arity pid : ℕ)
    → edb_predicate e predicate arity ≡ passed pid
    → IsTarget e predicate arity pid
unfolding edb_predicate
passed-IsTarget e predicate arity pid h =
    elim (Option-cases (registry_find e.registry predicate arity)) [
      | inl f ↦ absurd (ground arith)
      | inr (p, f) ↦ elim (Option-cases (registry_get e.registry p)) [
        | inl g ↦ absurd (ground arith)
        | inr (d, g) ↦
            let same : p ≡ pid = ground arith in
            record {
              open' = ground arith;
              found = rw (← same) f;
              def = d;
              declared = rw (← same) g;
              is_edb = ground arith;
              not_policy = ground arith;
            }
      ]
    ]

-- A fact of the target with these terms, and room for it.
pub record Accepts (e : Edb) (predicate : Bytes) (terms : List Term) (f : Fact) : Type 0 where
  pub small : length terms ≤ max_arity
  pub target : IsTarget e predicate (length terms) f.predicate_id
  pub terms_are : f.terms ≡ terms
  pub capacity_left : fact_count e < fact_capacity e
  pub room_left : fact_count e < max_edb_facts
  pub predicate_left : e.facts_per_pred f.predicate_id < max_facts_per_pred

pub validate_fact-Accepts :
    (e : Edb) (predicate : Bytes) (terms : List Term) (f : Fact)
    → validate_fact e predicate terms ≡ passed f
    → Accepts e predicate terms f
unfolding validate_fact
validate_fact-Accepts e predicate terms f h =
    elim (Checked-cases (edb_predicate e predicate (length terms))) [
      | inl (rc, t) ↦ absurd (ground arith)
      | inr (pid, t) ↦
          let same : f ≡ record { predicate_id = pid; terms = terms } = ground arith in
          rw same (record {
            small = ground arith;
            target = passed-IsTarget e predicate (length terms) pid t;
            terms_are = refl;
            capacity_left = ground arith;
            room_left = ground arith;
            predicate_left = ground arith;
          })
    ]

Accepts-IsDeclared :
    (e : Edb) (predicate : Bytes) (terms : List Term) (f : Fact)
    → Accepts e predicate terms f
    → IsDeclared e.registry f
Accepts-IsDeclared e predicate terms f a =
    let t = a.target in
    let (d, at', name, arity) = registry_find-get e.registry predicate (length terms) t.found in
    let same : d ≡ t.def = some_inj (sym at' ∙ t.declared) in
    record {
      def = t.def;
      declared = t.declared;
      arity_fits = ap (λ x. x.arity) (sym same) ∙ arity ∙ ap length (sym a.terms_are);
      is_edb = t.is_edb;
      not_policy = t.not_policy;
    }

-- `add_fact` is refused, finds the fact there, or appends it.
pub data Added (e : Edb) (predicate : Bytes) (terms : List Term) : Type 0 where
  refuses :
      (rc : Rc)
      → validate_fact e predicate terms ≡ refused rc
      → edb_add_fact e predicate terms ≡ (rc, e)
      → Added e predicate terms
  present :
      (f : Fact)
      → Accepts e predicate terms f
      → edb_contains e f ≡ true
      → edb_add_fact e predicate terms ≡ (ok, e)
      → Added e predicate terms
  appends :
      (f : Fact)
      → Accepts e predicate terms f
      → edb_contains e f ≡ false
      → edb_add_fact e predicate terms ≡ (ok, append_fact e f)
      → Added e predicate terms

pub add_fact-Added : (e : Edb) (predicate : Bytes) (terms : List Term) → Added e predicate terms
unfolding edb_add_fact
add_fact-Added e predicate terms = elim (Checked-cases (validate_fact e predicate terms)) [
  | inl (rc, h) ↦ refuses rc h (rw (h, edb_add_fact) refl)
  | inr (f, h) ↦
      let a = validate_fact-Accepts e predicate terms f h in
      elim (Bool-cases (edb_contains e f)) [
        | inl there ↦ present f a there (rw (h, edb_add_fact) (rw there refl))
        | inr absent ↦ appends f a absent (rw (h, edb_add_fact) (rw absent refl))
      ]
]

pub In-contains : (e : Edb) → IsValid e → (f : Fact) → (edb_contains e f ≡ true) ↔ In f (facts e)
unfolding edb_contains
In-contains e v f = fact_set_contains_iff e.fact_set f v.ordered

IsNodup-concat : (fs : List Fact) (f : Fact) → IsNodup fs → (In f fs → ⊥) → IsNodup (fs ++ f ∷ [])
IsNodup-concat [] f n h = (tt, tt)
IsNodup-concat (g ∷ fs) f n h = (
  All-concat (λ x. g ≢ x) fs f n.0 (λ e. h (inl (sym e))),
  IsNodup-concat fs f n.1 (λ m. h (inr m)),
)

pub append_fact-IsValid :
    (e : Edb) (predicate : Bytes) (terms : List Term) (f : Fact)
    → IsValid e
    → Accepts e predicate terms f
    → edb_contains e f ≡ false
    → IsValid (append_fact e f)
append_fact-IsValid e predicate terms f v a absent = record {
  within = omega (arith, length-append (facts e) (f ∷ []), a.capacity_left);
  bounded = omega (arith, length-append (facts e) (f ∷ []), a.room_left);
  counted = λ p. ground (arith, v.counted p, count_pred-append p (facts e) (f ∷ []));
  capped = λ p. ground (arith, v.capped p, a.predicate_left);
  ordered = λ h. cc h;
  distinct = IsNodup-concat (facts e) f v.distinct (λ m. cc (absent, (In-contains e v f).1 m));
  declared =
      All-concat (IsDeclared e.registry) (facts e) f v.declared
        (Accepts-IsDeclared e predicate terms f a);
}

-- `maelys_datalog_edb_add_fact` keeps the EDB valid, whatever it returns: no more facts than the
-- capacity and 1024, no more than 64 for a predicate, counters that agree with the facts, no fact
-- twice, and every fact one of a declared EDB predicate with its arity.
pub edb_add_fact-IsValid :
    (e : Edb) (predicate : Bytes) (terms : List Term)
    → IsValid e
    → IsValid (edb_add_fact e predicate terms).1
edb_add_fact-IsValid e predicate terms v = elim (add_fact-Added e predicate terms) [
  | refuses rc h r ↦ rw r v
  | present f a c r ↦ rw r v
  | appends f a c r ↦ rw r (append_fact-IsValid e predicate terms f v a c)
]
