-- ===== src/Solver/Solve/Rules.antt =====
-- What one rule, applied along its plan, adds to the merge window: its consequences.
use maelys_datalog.Prelude.{
  ℕ, true, false, List, [], ◌∷◌, Option, none, some, ◌≡◌, ◌⊎◌, inl, inr, refl, sym, ◌∙◌, subst,
  arith, ap, get_elem?, In, Option-cases, Checked-cases, some_inj, Rc, payload_too_large, lt_of_get,
}
use maelys_datalog.Fact.{Term, symbol, integer, boolean, variable, Fact}
use maelys_datalog.Solver.{Literal, Rule, View, Work}
use maelys_datalog.Solver.Derive.{Answer, derive_ordered, is_at}
use maelys_datalog.Solver.Derive.Exact.{derive_ordered-Run}
use maelys_datalog.Solver.Derive.Reads.{Chain, Derives}
use maelys_datalog.Solver.Derive.Runs.{IsKnown, IsMarked, Present, Run}
use maelys_datalog.Solver.Matching.{
  Bindings, unbound, instantiate_term, instantiate_terms, instantiate_fact,
}
use maelys_datalog.Solver.Matching.Exact.{Extends, instantiate_term_mono, instantiate_terms-some}
use maelys_datalog.Solver.Plan.{empty_mask, build_static_join_order}
use maelys_datalog.Solver.Plan.Complete.{IsOrder, build_static_join_order-IsOrder}
use maelys_datalog.Solver.Solve.{solved, failure, set_join_order_failure, answered, apply_rule}
use maelys_datalog.Solver.Solve.Chains.{IsReadable, InDelta, Chain-found}
use maelys_datalog.Solver.Solve.Covers.{Covered-empty}
use maelys_datalog.Solver.Solve.Meaning.{Satisfies, KindHolds, IsPlain}
use maelys_datalog.Solver.Solve.Reading.{
  IsFlat, Accepted, DeltaIsDerived, Chain-step, LiteralStep-Holds,
}

failure-solved : (w x : Work) (rc : Rc) → failure w rc ≡ solved x → ⊥
unfolding failure
failure-solved w x rc h = ground arith

answered-solved : (a : Answer) (x : Work) → answered a ≡ solved x → a ≡ (true, x)
answered-solved (true, w) x h = ground arith
answered-solved (false, w) x h = absurd (failure-solved w x payload_too_large h)

-- A rule that is applied has a plan, along which the derivation goes through.
apply_rule-IsOrder :
    (v : View) (rule : Rule) (delta : Option ℕ) (w x : Work)
    → apply_rule v rule delta w ≡ solved x
    → (order : List ℕ) × IsOrder rule order × Run v (Derives v rule delta order unbound) w (true, x)
unfolding apply_rule
apply_rule-IsOrder v rule delta w x h =
    elim (Checked-cases (build_static_join_order v.the_ruleset rule delta)) [
      | inl (rc, e) ↦
          absurd (failure-solved (set_join_order_failure rc w) x rc (rw (e, apply_rule) at h))
      | inr (order, e) ↦
          let done =
            answered-solved (derive_ordered v rule delta order unbound w) x
              (rw (e, apply_rule) at h) in
          (
            order,
            (build_static_join_order-IsOrder v.the_ruleset rule delta order e).0,
            subst (Run v (Derives v rule delta order unbound) w) done
                (derive_ordered-Run v rule delta order unbound w),
          )
    ]

-- The literal that reads the delta is satisfied by a fact of the delta.
abbrev pub DeltaHolds : View → Rule → Option ℕ → Bindings → Type 0
DeltaHolds v rule none s = Unit
DeltaHolds v rule (some i) s = (l : Literal) × (get_elem? rule.body i ≡ some l) × InDelta v s l

-- The consequences of a rule in the accepted facts, one of them in the delta.
abbrev pub Follows : View → Rule → Option ℕ → Fact → Type 0
Follows v rule delta f =
    (s : Bindings) × Satisfies v (Accepted v) rule s
    × DeltaHolds v rule delta s
    × (instantiate_fact s rule.head ≡ some f)

-- The delta literal, if there is one, is eligible.
abbrev pub IsEligible : View → Rule → Option ℕ → Type 0
IsEligible v rule delta =
    (i : ℕ) (l : Literal) → get_elem? rule.body i ≡ some l → DeltaIsDerived v l (is_at delta i)

-- A head whose variables are all bound is the same under bindings that extend.
head_term :
    (c s : Bindings) (p t : Term)
    → Extends c s
    → ((u : ℕ) → p ≡ variable u → (y : Term) × (instantiate_term c (variable u) ≡ some y))
    → instantiate_term s p ≡ some t
    → instantiate_term c p ≡ some t
unfolding instantiate_term
head_term c s (symbol x) t e b h = h
head_term c s (integer x) t e b h = h
head_term c s (boolean x) t e b h = h
head_term c s (variable u) t e b h =
    let (y, k) = b u refl in
    let up = instantiate_term_mono c s (variable u) y e k in k ∙ (sym up ∙ h)

head_terms :
    (c s : Bindings) (ps ts : List Term)
    → Extends c s
    → ((u : ℕ) → In (variable u) ps → (y : Term) × (instantiate_term c (variable u) ≡ some y))
    → instantiate_terms s ps ≡ some ts
    → instantiate_terms c ps ≡ some ts
unfolding instantiate_terms
head_terms c s [] ts e b h = h
head_terms c s (p ∷ ps) us e b h =
    let (t, ts, eq, k, ks) = instantiate_terms-some s p ps us h in
    let first = head_term c s p t e (λ u q. b u (inl (sym q))) k in
    let rest = head_terms c s ps ts e (λ u m. b u (inr m)) ks in
    rw (first, instantiate_terms, rest) (ap (some) (sym eq))

instance_binds :
    (c : Bindings) (ps ts : List Term) (u : ℕ)
    → instantiate_terms c ps ≡ some ts
    → In (variable u) ps
    → (y : Term) × (instantiate_term c (variable u) ≡ some y)
instance_binds c [] ts u h m = absurd m
instance_binds c (p ∷ ps) us u h m =
    let (t, ts, eq, k, ks) = instantiate_terms-some c p ps us h in
    elim m [
      | inl e ↦ (t, subst (λ x. instantiate_term c x ≡ some t) (sym e) k)
      | inr n ↦ instance_binds c ps ts u ks n
    ]

-- From `w` to `x` facts with the first property are added only, and those with the second are
-- present afterwards.
pub record Adds (v : View) (S C : Fact → Type 0) (w x : Work) : Type 0 where
  pub grows : (f : Fact) → In f w.merged → In f x.merged
  pub sound : (f : Fact) → In f x.merged → In f w.merged ⊎ S f
  pub known : (f : Fact) → In f x.merged → In f w.merged ⊎ IsKnown v f
  pub complete : (f : Fact) → C f → Present v x f
  pub keeps : IsMarked v w → IsMarked v x

-- The consequences, whichever facts they rest on.
abbrev pub Consequence : View → Rule → Fact → Type 0
Consequence v rule f =
    (s : Bindings) × Satisfies v (Accepted v) rule s × (instantiate_fact s rule.head ≡ some f)

fact_terms :
    (s : Bindings) (a f : Fact)
    → instantiate_fact s a ≡ some f
    → (ts : List Term) × (instantiate_terms s a.terms ≡ some ts)
unfolding instantiate_fact
fact_terms s a f h = elim (Option-cases (instantiate_terms s a.terms)) [
  | inl e ↦ absurd (cc (rw (e, instantiate_fact) at h))
  | inr (ts, e) ↦ (ts, e)
]

same_fact :
    (c s : Bindings) (a : Fact)
    → instantiate_terms c a.terms ≡ instantiate_terms s a.terms
    → instantiate_fact c a ≡ instantiate_fact s a
unfolding instantiate_fact
same_fact c s a e = rw (e, instantiate_fact) refl

delta_at_place :
    (v : View) (rule : Rule) (j : ℕ) (s : Bindings)
    → DeltaHolds v rule (some j) s
    → (i : ℕ) (l : Literal) → get_elem? rule.body i ≡ some l
    → is_at (some j) i ≡ true
    → InDelta v s l
delta_at_place v rule j s (k, q, d) i l e t =
    let same : i ≡ j = ground arith in
    subst (λ x. InDelta v s x)
      (some_inj (sym q ∙ (ap (λ (x : ℕ). get_elem? rule.body x) (sym same) ∙ e))) d

delta_at :
    (v : View) (rule : Rule) (d : Option ℕ) (s : Bindings)
    → DeltaHolds v rule d s
    → (i : ℕ) (l : Literal) → get_elem? rule.body i ≡ some l
    → is_at d i ≡ true
    → InDelta v s l
delta_at v rule none s h i l e t = absurd (cc (t))
delta_at v rule (some j) s h i l e t = delta_at_place v rule j s h i l e t

module _ (v : View) (flat : IsFlat v) (readable : IsReadable v) (rule : Rule) (plain : IsPlain rule)
    (delta : Option ℕ) (eligible : IsEligible v rule delta) where
  module _ (order : List ℕ) (is_order : IsOrder rule order) where
    satisfied :
        (c : Bindings) → Chain v rule delta order unbound c → Satisfies v (Accepted v) rule c
    satisfied c chain i l e =
        let (ext, steps) =
          Chain-step v flat rule delta order unbound c plain.positive eligible chain in
        let (m, n, step, below) = steps i (is_order.every i (lt_of_get rule.body i l e)) in
        LiteralStep-Holds v flat rule delta i l m n c e (plain.positive i l e) (eligible i l e) step
          below

    Derives-Consequence : (f : Fact) → Derives v rule delta order unbound f → Consequence v rule f
    Derives-Consequence f (c, chain, h) = (c, satisfied c chain, h)

    -- The head's variables stand in atoms, which the chain has made facts.
    head_bound :
        (c : Bindings)
        → Chain v rule delta order unbound c
        → (u : ℕ) → In (variable u) rule.head.terms
        → (y : Term) × (instantiate_term c (variable u) ≡ some y)
    head_bound c chain u m =
        let (i, l, e, k, n) = plain.restricted u m in
        let holds = satisfied c chain i l e in
        let (def, q, f, src, inst) = subst (λ x. KindHolds x v (Accepted v) rule c l) k holds in
        instance_binds c l.atom.terms f.terms u inst.1 n

    Follows-Derives : (f : Fact) → Follows v rule delta f → Derives v rule delta order unbound f
    Follows-Derives f (s, sat, in_delta, h) =
        let (c, chain, below) =
          Chain-found v flat readable rule delta order empty_mask unbound s is_order.safe
            (Covered-empty unbound) (λ u t q. absurd (cc (q))) sat
            (delta_at v rule delta s in_delta) in
        let (ts, e) = fact_terms s rule.head f h in
        let terms = head_terms c s rule.head.terms ts below (head_bound c chain) e in
        (c, chain, same_fact c s rule.head (terms ∙ sym e) ∙ h)

  pub apply_rule-Adds :
      (w x : Work)
      → apply_rule v rule delta w ≡ solved x
      → Adds v (Consequence v rule) (Follows v rule delta) w x
  apply_rule-Adds w x h =
      let (order, is_order, run) = apply_rule-IsOrder v rule delta w x h in
      record {
        grows = run.grows;
        sound = λ f m. elim (run.sound f m) [
          | inl n ↦ inl n
          | inr d ↦ inr (Derives-Consequence order is_order f d)
        ];
        known = run.known;
        complete = λ f d. run.complete refl f (Follows-Derives order is_order f d);
        keeps = run.keeps;
      }
