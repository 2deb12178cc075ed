-- ===== src/Strata/Least.antt =====
-- The strata that are assigned are the least.
use maelys_datalog.Prelude.{
  ℕ, zero, suc, ◌≤◌, true, ◌||◌, List, [], ◌∷◌, none, ◌≡◌, ap, leb, ◌==◌, arith, Bool-cases,
  Checked-cases, All, ok, passed, inl, inr, subst,
}
use maelys_datalog.Bounds.{max_predicates}
use maelys_datalog.Strata.{
  Literal, Rule, Ruleset, is_dependency, is_strict, needed, literal_step, body_loop, Pass, raise,
  rule_step, rules_loop, unchanged, passes_loop, first_pass, assign_strata,
}
use maelys_datalog.Strata.Sound.{
  Respects, Stratifies, rules_loop-ok, passes_loop-ok, assign_strata-ok,
}

module _ (f : ℕ → ℕ) where
  abbrev IsBelow : (ℕ → ℕ) → Type 0
  IsBelow strata = (i : ℕ) → strata i ≤ f i

  needed_le :
      (strata : ℕ → ℕ) (h : ℕ) (l : Literal)
      → IsBelow strata
      → Respects f h l
      → is_dependency l.kind ≡ true
      → needed strata l ≤ f h
  unfolding needed
  needed_le strata h l b r d =
      let (small, level, above) = r d in
      let at_most = b l.predicate_id in
      elim (Bool-cases (is_strict l.kind)) [
        | inl e ↦ let over = above e in rw e (omega (arith, over, at_most))
        | inr e ↦ rw e (omega (arith, level, at_most))
      ]

  literal_step_le :
      (strata : ℕ → ℕ) (h : ℕ) (l : Literal) (s : ℕ) (p : ℕ → ℕ) (s' : ℕ) (p' : ℕ → ℕ)
      → IsBelow strata
      → Respects f h l
      → s ≤ f h
      → literal_step strata h l s p ≡ passed (s', p')
      → s' ≤ f h
  unfolding literal_step
  literal_step_le strata h l s p s' p' b r le e = elim (Bool-cases (is_dependency l.kind)) [
    | inl d ↦ let n = needed_le strata h l b r d in ground arith
    | inr d ↦ ground arith
  ]

  body_loop_le :
      (strata : ℕ → ℕ) (h : ℕ) (ls : List Literal) (s : ℕ) (p : ℕ → ℕ) (s' : ℕ) (p' : ℕ → ℕ)
      → IsBelow strata
      → All (Respects f h) ls
      → s ≤ f h
      → body_loop strata h ls s p ≡ passed (s', p')
      → s' ≤ f h
  unfolding body_loop
  body_loop_le strata h [] s p s' p' b r le e = ground arith
  body_loop_le strata h (l ∷ ls) s p s' p' b r le e =
      elim (Checked-cases (literal_step strata h l s p)) [
        | inl (rc, g) ↦ cc (rw (g, body_loop) at e)
        | inr ((s1, p1), g) ↦
            body_loop_le strata h ls s1 p1 s' p' b r.1
              (literal_step_le strata h l s p s1 p1 b r.0 le g) (rw (g, body_loop) at e)
      ]

  raise-IsBelow :
      (p : Pass) (h s : ℕ) (predecessor : ℕ → ℕ)
      → IsBelow p.strata
      → s ≤ f h
      → IsBelow (raise p h s predecessor).strata
  unfolding raise
  raise-IsBelow p h s predecessor b le i =
      let before = b i in
      elim (Bool-cases (h == i)) [
        | inl e ↦
            let same : h ≡ i = ground arith in
            let top = subst (λ n. s ≤ f n) same le in ground arith
        | inr e ↦ ground arith
      ]

  rule_step-IsBelow :
      (p : Pass) (rule : Rule) (p' : Pass)
      → IsBelow p.strata
      → All (Respects f rule.head) rule.body
      → rule_step p rule ≡ (ok, p')
      → IsBelow p'.strata
  unfolding rule_step
  rule_step-IsBelow p rule p' b r e = elim (Bool-cases (leb max_predicates rule.head)) [
    | inl big ↦ cc (rw big at e)
    | inr small ↦
        elim (Checked-cases
          (body_loop p.strata rule.head rule.body (p.strata rule.head) p.predecessor)) [
            | inl (rc, g) ↦
                subst (λ (q : Pass). IsBelow q.strata)
                  (ap (λ x. x.1) (rw (small, g, rule_step) at e)) b
            | inr ((s1, p1), g) ↦
                let top =
                  body_loop_le p.strata rule.head rule.body (p.strata rule.head) p.predecessor s1 p1
                    b r (b rule.head) g in
                subst (λ (q : Pass). IsBelow q.strata)
                  (ap (λ x. x.1) (rw (small, g, rule_step) at e))
                  (raise-IsBelow p rule.head s1 p1 b top)
          ]
  ]

  rules_loop-IsBelow :
      (p : Pass) (rules : List Rule) (p' : Pass)
      → IsBelow p.strata
      → Stratifies f rules
      → rules_loop p rules ≡ (ok, p')
      → IsBelow p'.strata
  unfolding rules_loop
  rules_loop-IsBelow p [] p' b r e = subst (λ (q : Pass). IsBelow q.strata) (ap (λ x. x.1) e) b
  rules_loop-IsBelow p (rule ∷ rules) p' b r e =
      let (q, one, rest) = rules_loop-ok p rule rules p' e in
      rules_loop-IsBelow q rules p' (rule_step-IsBelow p rule q b r.0.1 one) r.1 rest

  passes_loop-IsBelow :
      (left : ℕ) (p : Pass) (rules : List Rule) (p' : Pass)
      → IsBelow p.strata
      → Stratifies f rules
      → passes_loop left p rules ≡ (ok, p')
      → IsBelow p'.strata
  unfolding passes_loop
  passes_loop-IsBelow zero p rules p' b r e =
      subst (λ (q : Pass). IsBelow q.strata) (ap (λ x. x.1) e) b
  passes_loop-IsBelow (suc left) p rules p' b r e = elim (Bool-cases p.changed) [
    | inl y ↦
        let (q, one, rest) = passes_loop-ok left p rules p' y e in
        passes_loop-IsBelow left q rules p' (rules_loop-IsBelow (unchanged p) rules q b r one) r
          rest
    | inr n ↦ subst (λ (q : Pass). IsBelow q.strata) (ap (λ x. x.1) (rw (n, passes_loop) at e)) b
  ]

  -- Where `assign_strata` returns OK for a ruleset that uses negation or aggregates, no other
  -- stratification of its rules puts any predicate lower.
  pub assign_strata-least :
      (r after : Ruleset)
      → (r.negation_supported || r.aggregates_supported) ≡ true
      → assign_strata r ≡ (ok, after, none)
      → Stratifies f r.rules
      → (i : ℕ) → after.strata i ≤ f i
  assign_strata-least r after s e other =
      let (p, ran, still, below, same) = assign_strata-ok r after s e in
      let low =
        passes_loop-IsBelow (suc max_predicates) first_pass r.rules p (λ i. omega arith) other
          ran in
      subst (λ (t : Ruleset). IsBelow t.strata) same low
