-- ===== src/Solver/Solve/Rounds.antt =====
-- What a round over the rules adds to the merge window, with a delta and without.
use maelys_datalog.Prelude.{
  ℕ, zero, suc, ◌+◌, true, List, [], ◌∷◌, none, some, ◌≡◌, ◌⊎◌, inl, inr, refl, sym, ◌∙◌, subst,
  arith, ap, get_elem?, In, Bool-cases, some_inj, Rc, if◌then◌else◌,
}
use maelys_datalog.Fact.{Fact}
use maelys_datalog.Solver.{Literal, Rule, View, Work, DenyReason}
use maelys_datalog.Solver.Derive.Runs.{Present-grows}
use maelys_datalog.Solver.Plan.{literal_delta_eligible}
use maelys_datalog.Solver.Solve.{
  Solved, solved, failed, apply_rule, first_rules, delta_literals, delta_rules,
}
use maelys_datalog.Solver.Solve.Chains.{IsReadable}
use maelys_datalog.Solver.Solve.Meaning.{IsPlain}
use maelys_datalog.Solver.Solve.Reading.{IsFlat}
use maelys_datalog.Solver.Solve.Rules.{Adds, Consequence, Follows, IsEligible, apply_rule-Adds}

pub Solved-cases :
    {A : Type 0} (m : Solved A)
    → ((rc : Rc) × (reason : DenyReason) × (m ≡ failed rc reason)) ⊎ ((a : A) × (m ≡ solved a))
Solved-cases (failed rc reason) = inl (rc, reason, refl)
Solved-cases (solved a) = inr (a, refl)

pub solved_inj : {A : Type 0} {x y : A} → solved x ≡ solved y → x ≡ y
solved_inj h = cc

Adds-trans :
    (v : View) (S C D : Fact → Type 0) (w x y : Work)
    → Adds v S C w x
    → Adds v S D x y
    → Adds v S (λ f. C f ⊎ D f) w y
Adds-trans v S C D w x y r s = record {
  grows = λ f m. s.grows f (r.grows f m);
  sound = λ f m. elim (s.sound f m) [ inr q ↦ inr q | inl n ↦ r.sound f n ];
  known = λ f m. elim (s.known f m) [ inr q ↦ inr q | inl n ↦ r.known f n ];
  complete = λ f cd. elim cd [
    | inl c ↦ Present-grows v x y f (s.grows f) (r.complete f c)
    | inr d ↦ s.complete f d
  ];
  keeps = λ k. s.keeps (r.keeps k);
}

Adds-map :
    (v : View) (S T C D : Fact → Type 0) (w x : Work)
    → ((f : Fact) → S f → T f)
    → ((f : Fact) → D f → C f)
    → Adds v S C w x
    → Adds v T D w x
Adds-map v S T C D w x to from r = record {
  grows = r.grows;
  sound = λ f m. elim (r.sound f m) [ inl n ↦ inl n | inr q ↦ inr (to f q) ];
  known = r.known;
  complete = λ f d. r.complete f (from f d);
  keeps = r.keeps;
}

Adds-none : (v : View) (S : Fact → Type 0) (w : Work) → Adds v S (λ f. ⊥) w w
Adds-none v S w = record {
  grows = λ f m. m;
  sound = λ f m. inl m;
  known = λ f m. inl m;
  complete = λ f d. absurd d;
  keeps = λ k. k;
}

-- Nothing is added where the list has come to its end.
end-Adds :
    (v : View) (S C : Fact → Type 0) (w x : Work)
    → ((f : Fact) → C f → ⊥)
    → solved w ≡ solved x
    → Adds v S C w x
end-Adds v S C w x empty h =
    subst (Adds v S C w) (solved_inj h)
      (Adds-map v S S (λ f. ⊥) C w w (λ f s. s) empty (Adds-none v S w))

-- A consequence of one of the rules.
abbrev pub AnyConsequence : View → List Rule → Fact → Type 0
AnyConsequence v rules f = (rule : Rule) × In rule rules × Consequence v rule f

-- A consequence of one of the rules that an eligible literal draws from the delta.
abbrev pub DeltaConsequence : View → List Rule → Fact → Type 0
DeltaConsequence v rules f =
    (rule : Rule) × In rule rules
    × (i : ℕ) × (l : Literal) × (get_elem? rule.body i ≡ some l)
    × (literal_delta_eligible v.the_ruleset l ≡ true)
    × Follows v rule (some i) f

-- A consequence of one of the rules in the accepted facts.
abbrev pub FirstConsequence : View → List Rule → Fact → Type 0
FirstConsequence v rules f = (rule : Rule) × In rule rules × Follows v rule none f

module _ (v : View) (flat : IsFlat v) (readable : IsReadable v) where
  pub first_rules-Adds :
      (rules : List Rule) (w x : Work)
      → ((rule : Rule) → In rule rules → IsPlain rule)
      → first_rules v rules w ≡ solved x
      → Adds v (AnyConsequence v rules) (FirstConsequence v rules) w x
  unfolding first_rules
  first_rules-Adds [] w x plain h =
      end-Adds v (AnyConsequence v []) (FirstConsequence v []) w x (λ f (r, m, q). m) h
  first_rules-Adds (rule ∷ rules) w x plain h = elim (Solved-cases (apply_rule v rule none w)) [
    | inl (rc, reason, e) ↦ absurd (cc (rw (e, first_rules) at h))
    | inr (y, e) ↦
        let one =
          apply_rule-Adds v flat readable rule (plain rule (inl refl)) none
            (λ i l q t. absurd (cc (t))) w y e in
        let rest = first_rules-Adds rules y x (λ r m. plain r (inr m)) (rw (e, first_rules) at h) in
        let S = AnyConsequence v (rule ∷ rules) in
        Adds-map v S S (λ f. Follows v rule none f ⊎ FirstConsequence v rules f)
          (FirstConsequence v (rule ∷ rules)) w x (λ f s. s)
          (λ f (r, m, q). elim m [
            | inl same ↦ inl (subst (λ z. Follows v z none f) same q)
            | inr n ↦ inr (r, n, q)
          ])
          (Adds-trans v S (Follows v rule none) (FirstConsequence v rules) w y x
            (Adds-map v (Consequence v rule) S (Follows v rule none) (Follows v rule none) w y
              (λ f s. (rule, inl refl, s)) (λ f d. d) one)
            (Adds-map v (AnyConsequence v rules) S (FirstConsequence v rules)
              (FirstConsequence v rules) y x (λ f (r, m, q). (r, inr m, q)) (λ f d. d) rest))
  ]

-- What the literals from place `i` on of a rule draw from the delta.
abbrev LiteralsConsequence : View → Rule → ℕ → List Literal → Fact → Type 0
LiteralsConsequence v rule i ls f =
    (j : ℕ) × (l : Literal) × (get_elem? ls j ≡ some l)
    × (literal_delta_eligible v.the_ruleset l ≡ true)
    × Follows v rule (some (i + j)) f

-- `ls` is the body of the rule from place `i` on.
abbrev Suffix : Rule → ℕ → List Literal → Type 0
Suffix rule i ls =
    (k : ℕ) (l : Literal) → get_elem? ls k ≡ some l → get_elem? rule.body (i + k) ≡ some l

module _ (v : View) (flat : IsFlat v) (readable : IsReadable v) where
  module _ (rule : Rule) (plain : IsPlain rule) where
    IsEligible-at :
        (i : ℕ) (l : Literal)
        → get_elem? rule.body i ≡ some l
        → literal_delta_eligible v.the_ruleset l ≡ true
        → IsEligible v rule (some i)
    IsEligible-at i l e t j k q at_i =
        let same : j ≡ i = ground arith in
        let eq = some_inj (sym e ∙ (ap (λ (x : ℕ). get_elem? rule.body x) (sym same) ∙ q)) in
        subst (λ x. literal_delta_eligible v.the_ruleset x ≡ true) eq t

    -- One literal: it is tried if it is eligible.
    literal-Adds :
        (i : ℕ) (l : Literal) (w x : Work)
        → get_elem? rule.body i ≡ some l
        → (if literal_delta_eligible v.the_ruleset l
            then apply_rule v rule (some i) w
            else solved w)
          ≡ solved x
        → Adds v
            (Consequence v rule)
            (λ f. (literal_delta_eligible v.the_ruleset l ≡ true) × Follows v rule (some i) f)
            w
            x
    literal-Adds i l w x e h = elim (Bool-cases (literal_delta_eligible v.the_ruleset l)) [
      | inl t ↦
          Adds-map v (Consequence v rule) (Consequence v rule) (Follows v rule (some i))
            (λ f. (literal_delta_eligible v.the_ruleset l ≡ true) × Follows v rule (some i) f) w x
            (λ f s. s) (λ f d. d.1)
            (apply_rule-Adds v flat readable rule plain (some i) (IsEligible-at i l e t) w x
              (rw t at h))
      | inr t ↦
          end-Adds v (Consequence v rule)
            (λ f. (literal_delta_eligible v.the_ruleset l ≡ true) × Follows v rule (some i) f) w x
            (λ f d. cc (d.0, t)) (rw t at h)
    ]

    at_head_or_tail :
        (i : ℕ) (l : Literal) (ls : List Literal) (f : Fact) (j : ℕ) (k : Literal)
        → get_elem? (l ∷ ls) j ≡ some k
        → literal_delta_eligible v.the_ruleset k ≡ true
        → Follows v rule (some (i + j)) f
        → ((literal_delta_eligible v.the_ruleset l ≡ true) × Follows v rule (some i) f)
          ⊎ LiteralsConsequence v rule (suc i) ls f
    at_head_or_tail i l ls f zero k q t d = inl (
      subst (λ x. literal_delta_eligible v.the_ruleset x ≡ true) (sym (some_inj q)) t,
      subst (λ (x : ℕ). Follows v rule (some x) f) (omega arith) d,
    )
    at_head_or_tail i l ls f (suc j) k q t d =
        inr (j, k, q, t, subst (λ (x : ℕ). Follows v rule (some x) f) (omega arith) d)

    delta_literals-Adds :
        (i : ℕ) (ls : List Literal) (w x : Work)
        → Suffix rule i ls
        → delta_literals v rule i ls w ≡ solved x
        → Adds v (Consequence v rule) (LiteralsConsequence v rule i ls) w x
    unfolding delta_literals
    delta_literals-Adds i [] w x suffix h =
        end-Adds v (Consequence v rule) (LiteralsConsequence v rule i []) w x
          (λ f (j, l, e, t, d). cc (e)) h
    delta_literals-Adds i (l ∷ ls) w x suffix h =
        let S = Consequence v rule in
        let place : get_elem? rule.body i ≡ some l =
          subst (λ (k : ℕ). get_elem? rule.body k ≡ some l) (omega arith) (suffix 0 l refl) in
        elim (Solved-cases (
          if literal_delta_eligible v.the_ruleset l
          then apply_rule v rule (some i) w
          else solved w)) [
            | inl (rc, reason, e) ↦ absurd (cc (rw (e, delta_literals) at h))
            | inr (y, e) ↦
                let C = λ (f : Fact).
                  (literal_delta_eligible v.the_ruleset l ≡ true) × Follows v rule (some i) f in
                let D = LiteralsConsequence v rule (suc i) ls in
                let rest =
                  delta_literals-Adds (suc i) ls y x
                    (λ k m q.
                      subst (λ (z : ℕ). get_elem? rule.body z ≡ some m) (omega arith)
                        (suffix (suc k) m q))
                    (rw (e, delta_literals) at h) in
                Adds-map v S S (λ f. C f ⊎ D f) (LiteralsConsequence v rule i (l ∷ ls)) w x
                  (λ f s. s) (λ f (j, k, q, t, d). at_head_or_tail i l ls f j k q t d)
                  (Adds-trans v S C D w y x (literal-Adds i l w y place e) rest)
          ]

    pub rule-Adds :
        (w x : Work)
        → delta_literals v rule 0 rule.body w ≡ solved x
        → Adds v (Consequence v rule) (LiteralsConsequence v rule 0 rule.body) w x
    rule-Adds w x h =
        delta_literals-Adds 0 rule.body w x
          (λ k l e. subst (λ (z : ℕ). get_elem? rule.body z ≡ some l) (omega arith) e) h

  from_body :
      (rule r : Rule) (i : ℕ) (l : Literal) (f : Fact)
      → r ≡ rule
      → (get_elem? r.body i ≡ some l)
        × (literal_delta_eligible v.the_ruleset l ≡ true)
        × Follows v r (some i) f
      → LiteralsConsequence v rule 0 rule.body f
  from_body rule r i l f same (q, t, d) = (
    i,
    l,
    subst (λ z. get_elem? z.body i ≡ some l) same q,
    t,
    subst (λ (x : ℕ). Follows v rule (some x) f) (omega arith)
        (subst (λ z. Follows v z (some i) f) same d),
  )

  pub delta_rules-Adds :
      (rules : List Rule) (w x : Work)
      → ((rule : Rule) → In rule rules → IsPlain rule)
      → delta_rules v rules w ≡ solved x
      → Adds v (AnyConsequence v rules) (DeltaConsequence v rules) w x
  unfolding delta_rules
  delta_rules-Adds [] w x plain h =
      end-Adds v (AnyConsequence v []) (DeltaConsequence v []) w x (λ f (r, m, i, l, q, t, d). m) h
  delta_rules-Adds (rule ∷ rules) w x plain h =
      elim (Solved-cases (delta_literals v rule 0 rule.body w)) [
        | inl (rc, reason, e) ↦ absurd (cc (rw (e, delta_rules) at h))
        | inr (y, e) ↦
            let rest =
              delta_rules-Adds rules y x (λ r m. plain r (inr m)) (rw (e, delta_rules) at h) in
            let S = AnyConsequence v (rule ∷ rules) in
            let C = LiteralsConsequence v rule 0 rule.body in
            Adds-map v S S (λ f. C f ⊎ DeltaConsequence v rules f)
              (DeltaConsequence v (rule ∷ rules)) w x (λ f s. s)
              (λ f (r, m, i, l, q, t, d). elim m [
                | inl same ↦ inl (from_body rule r i l f same (q, t, d))
                | inr n ↦ inr (r, n, i, l, q, t, d)
              ])
              (Adds-trans v S C (DeltaConsequence v rules) w y x
                (Adds-map v (Consequence v rule) S C C w y (λ f s. (rule, inl refl, s)) (λ f d. d)
                  (rule-Adds rule (plain rule (inl refl)) w y e))
                (Adds-map v (AnyConsequence v rules) S (DeltaConsequence v rules)
                  (DeltaConsequence v rules) y x (λ f (r, m, q). (r, inr m, q)) (λ f d. d) rest))
      ]
