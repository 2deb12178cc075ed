-- ===== src/Solver/Solve/Delta.antt =====
-- What follows from the accepted facts follows from the earlier ones or draws on the delta, and
-- what a round accepts leaves the meaning of the rules as it is.
use maelys_datalog.Prelude.{
  ℕ, zero, suc, ◌<◌, ◌≤◌, true, some, ◌≡◌, ◌⊎◌, inl, inr, refl, sym, ◌∙◌, subst, arith, ap, length,
  get_elem?, get-lt, In, Bool-cases, some_inj, lt_of_get, ◌==◌,
}
use maelys_datalog.Fact.{Fact}
use maelys_datalog.Registry.{Entry, registry_get, has_flag, kind_idb}
use maelys_datalog.Solver.{Literal, Rule, View, Work}
use maelys_datalog.Solver.Derive.{fact_in_base}
use maelys_datalog.Solver.Matching.{Bindings, instantiate_fact}
use maelys_datalog.Solver.Plan.{literal_delta_eligible}
use maelys_datalog.Solver.Solve.{accept}
use maelys_datalog.Solver.Solve.Chains.{InDelta}
use maelys_datalog.Solver.Solve.Meaning.{Facts, Source, KindHolds, Holds, Satisfies, IsClosed}
use maelys_datalog.Solver.Solve.Reading.{Accepted}
use maelys_datalog.Strata.{LiteralKind, atom, comparison, negated_atom, filter}

-- A larger set of derived facts satisfies what a smaller one does.
Source-mono :
    (v : View) (X Y : Facts) (def : Entry) (f : Fact)
    → ((g : Fact) → X g → Y g)
    → Source v X def f
    → Source v Y def f
Source-mono v X Y def f up (inl m) = inl m
Source-mono v X Y def f up (inr (inl m)) = inr (inl m)
Source-mono v X Y def f up (inr (inr (flag, m))) = inr (inr (flag, up f m))

pub Kind_mono :
    (k : LiteralKind) (v : View) (X Y : Facts) (rule : Rule) (b : Bindings) (l : Literal)
    → ((g : Fact) → X g → Y g)
    → KindHolds k v X rule b l
    → KindHolds k v Y rule b l
Kind_mono atom v X Y rule b l up (def, q, f, s, i) = (def, q, f, Source-mono v X Y def f up s, i)
Kind_mono comparison v X Y rule b l up h = h
Kind_mono filter v X Y rule b l up h = h
Kind_mono negated_atom v X Y rule b l up h = h
Kind_mono LiteralKind.count v X Y rule b l up h = h
Kind_mono LiteralKind.min v X Y rule b l up h = h
Kind_mono LiteralKind.max v X Y rule b l up h = h
Kind_mono LiteralKind.sum v X Y rule b l up h = h

eligible_of :
    (v : View) (l : Literal) (def : Entry)
    → l.kind ≡ atom
    → registry_get v.the_ruleset.registry l.atom.predicate_id ≡ some def
    → has_flag def.kind_flags kind_idb ≡ true
    → literal_delta_eligible v.the_ruleset l ≡ true
unfolding literal_delta_eligible
eligible_of v l def k e flag = rw (k, literal_delta_eligible, e) flag

-- The accepted facts are the earlier ones and the delta.
abbrev pub Splits : View → Facts → Type 0
Splits v prev = (f : Fact) → In f v.accepted → prev f ⊎ In f v.delta

-- A literal that may draw on the delta.
abbrev pub Draws : View → Bindings → Literal → Type 0
Draws v s l = (literal_delta_eligible v.the_ruleset l ≡ true) × InDelta v s l

module _ (v : View) (prev : Facts) (splits : Splits v prev) (rule : Rule) (s : Bindings) where
  literal_splits :
      (k : LiteralKind) (l : Literal)
      → l.kind ≡ k
      → KindHolds k v (Accepted v) rule s l
      → KindHolds k v prev rule s l ⊎ Draws v s l
  literal_splits atom l e (def, q, f, inl m, i) = inl (def, q, f, inl m, i)
  literal_splits atom l e (def, q, f, inr (inl m), i) = inl (def, q, f, inr (inl m), i)
  literal_splits atom l e (def, q, f, inr (inr (flag, m)), i) = elim (splits f m) [
    | inl p ↦ inl (def, q, f, inr (inr (flag, p)), i)
    | inr d ↦ inr (eligible_of v l def e q flag, (def, q, e, f, d, i))
  ]
  literal_splits comparison l e h = inl h
  literal_splits filter l e h = inl h
  literal_splits negated_atom l e h = inl h
  literal_splits LiteralKind.count l e h = inl h
  literal_splits LiteralKind.min l e h = inl h
  literal_splits LiteralKind.max l e h = inl h
  literal_splits LiteralKind.sum l e h = inl h

  -- The first `n` literals of the body.
  body_splits :
      (n : ℕ)
      → n ≤ length rule.body
      → Satisfies v (Accepted v) rule s
      → ((i : ℕ) (l : Literal) → i < n → get_elem? rule.body i ≡ some l → Holds v prev rule s l)
        ⊎ ((i : ℕ) × (l : Literal) × (get_elem? rule.body i ≡ some l) × Draws v s l)
  body_splits zero le sat = inl (λ i l lt e. absurd (omega arith))
  body_splits (suc n) le sat = elim (body_splits n (omega arith) sat) [
    | inr d ↦ inr d
    | inl before ↦
        let (k, e) = get-lt rule.body n (omega arith) in
        elim (literal_splits k.kind k refl (sat n k e)) [
          | inr d ↦ inr (n, k, e, d)
          | inl here ↦ inl λ i l lt q. elim (Bool-cases (i == n)) [
            | inr other ↦ before i l (ground arith) q
            | inl same ↦
                let at_n : n ≡ i = ground arith in
                let eq = some_inj (sym e ∙ (ap (λ (x : ℕ). get_elem? rule.body x) at_n ∙ q)) in
                subst (λ z. Holds v prev rule s z) eq here
          ]
        ]
  ]

  pub satisfied_splits :
      Satisfies v (Accepted v) rule s
      → Satisfies v prev rule s
        ⊎ ((i : ℕ) × (l : Literal) × (get_elem? rule.body i ≡ some l) × Draws v s l)
  satisfied_splits sat = elim (body_splits (length rule.body) (omega arith) sat) [
    | inr d ↦ inr d
    | inl all ↦ inl (λ i l e. all i l (lt_of_get rule.body i l e) e)
  ]

-- What follows by a rule from a set is a fact of the base or an accepted fact.
abbrev pub DrawsAll : View → Facts → Facts → Type 0
DrawsAll v X Y =
    (rule : Rule)
    → In rule v.the_ruleset.rules
    → (s : Bindings) (f : Fact) → Satisfies v X rule s
    → instantiate_fact s rule.head ≡ some f
    → (fact_in_base v f ≡ true) ⊎ Y f

-- The facts that a round accepts change nothing in what satisfies a literal.
module _ (v : View) (x : Work) where
  kind_same :
      (k : LiteralKind) (X : Facts) (rule : Rule) (b : Bindings) (l : Literal)
      → KindHolds k (accept v x) X rule b l
      → KindHolds k v X rule b l
  kind_same atom X rule b l h = h
  kind_same comparison X rule b l h = h
  kind_same filter X rule b l h = h
  kind_same negated_atom X rule b l h = h
  kind_same LiteralKind.count X rule b l h = h
  kind_same LiteralKind.min X rule b l h = h
  kind_same LiteralKind.max X rule b l h = h
  kind_same LiteralKind.sum X rule b l h = h

  kind_back :
      (k : LiteralKind) (X : Facts) (rule : Rule) (b : Bindings) (l : Literal)
      → KindHolds k v X rule b l
      → KindHolds k (accept v x) X rule b l
  kind_back atom X rule b l h = h
  kind_back comparison X rule b l h = h
  kind_back filter X rule b l h = h
  kind_back negated_atom X rule b l h = h
  kind_back LiteralKind.count X rule b l h = h
  kind_back LiteralKind.min X rule b l h = h
  kind_back LiteralKind.max X rule b l h = h
  kind_back LiteralKind.sum X rule b l h = h

  pub IsClosed-same : (X : Facts) → IsClosed (accept v x) X → IsClosed v X
  IsClosed-same X c rule m b f sat h =
      c rule m b f (λ i l e. kind_back l.kind X rule b l (sat i l e)) h

  pub IsClosed-back : (X : Facts) → IsClosed v X → IsClosed (accept v x) X
  IsClosed-back X c rule m b f sat h =
      c rule m b f (λ i l e. kind_same l.kind X rule b l (sat i l e)) h

  pub drawn_same : (X Y : Facts) → DrawsAll (accept v x) X Y → DrawsAll v X Y
  unfolding fact_in_base
  drawn_same X Y d rule m b f sat h =
      d rule m b f (λ i l e. kind_back l.kind X rule b l (sat i l e)) h

  pub drawn_back : (X Y : Facts) → DrawsAll v X Y → DrawsAll (accept v x) X Y
  unfolding fact_in_base
  drawn_back X Y d rule m b f sat h =
      d rule m b f (λ i l e. kind_same l.kind X rule b l (sat i l e)) h
