-- ===== src/Strata/Sound.antt =====
-- Accepted strata are a stratification, and the least one.
use maelys_datalog.Prelude.{
  ℕ, zero, suc, ◌+◌, ◌≤◌, ◌<◌, ◌%◌, ◌^◌, true, false, ◌||◌, List, [], ◌∷◌, none, ◌≡◌, refl, sym, ap,
  ◌∙◌, ltb, leb, ◌==◌, arith, Bool-cases, Checked-cases, All, All-map, Rc, ok, invalid_field,
  refused, passed, inl, inr, subst,
}
use maelys_datalog.Bounds.{max_predicates, max_strata}
use maelys_datalog.Strata.{
  Literal, Rule, Ruleset, is_dependency, is_strict, needed, literal_step, body_loop, Pass, raise,
  rule_step, rules_loop, unchanged, passes_loop, max_of, first_pass, finish, assign_strata,
  with_strata,
}

-- What a literal asks of the strata of its predicate and of the head.
abbrev pub Respects : (ℕ → ℕ) → ℕ → Literal → Type 0
Respects strata head l =
    is_dependency l.kind ≡ true
    → (l.predicate_id < max_predicates)
      × (strata l.predicate_id ≤ strata head)
      × (is_strict l.kind ≡ true → strata l.predicate_id < strata head)

-- A rule is declared and all its literals are respected.
abbrev pub Stratifies : (ℕ → ℕ) → List Rule → Type 0
Stratifies strata rules =
    All (λ rule. (rule.head < max_predicates) × All (Respects strata rule.head) rule.body) rules

-- What a round that raises nothing has seen.
abbrev Settled : (ℕ → ℕ) → ℕ → Literal → Type 0
Settled strata s l =
    is_dependency l.kind ≡ true → (l.predicate_id < max_predicates) × (needed strata l ≤ s)

literal_step-Settled :
    (strata : ℕ → ℕ) (h : ℕ) (l : Literal) (s : ℕ) (p : ℕ → ℕ) (s' : ℕ) (p' : ℕ → ℕ)
    → literal_step strata h l s p ≡ passed (s', p')
    → (s ≤ s') × Settled strata s' l
unfolding literal_step
literal_step-Settled strata h l s p s' p' e = ground arith

body_loop-Settled :
    (strata : ℕ → ℕ) (h : ℕ) (ls : List Literal) (s : ℕ) (p : ℕ → ℕ) (s' : ℕ) (p' : ℕ → ℕ)
    → body_loop strata h ls s p ≡ passed (s', p')
    → (s ≤ s') × All (Settled strata s') ls
unfolding body_loop
body_loop-Settled strata h [] s p s' p' e = (ground arith, tt)
body_loop-Settled strata h (l ∷ ls) s p s' p' e =
    elim (Checked-cases (literal_step strata h l s p)) [
      | inl (rc, f) ↦ cc (rw (f, body_loop) at e)
      | inr ((s1, p1), f) ↦
          let one = literal_step-Settled strata h l s p s1 p1 f in
          let rest = body_loop-Settled strata h ls s1 p1 s' p' (rw (f, body_loop) at e) in
          (
            omega (arith, one.0, rest.0),
            (λ d. let (b, n) = one.1 d in (b, omega (arith, n, rest.0)), rest.1),
          )
    ]

literal_step-refused :
    (strata : ℕ → ℕ) (h : ℕ) (l : Literal) (s : ℕ) (p : ℕ → ℕ) (rc : Rc)
    → literal_step strata h l s p ≡ refused rc
    → rc ≡ invalid_field
unfolding literal_step
literal_step-refused strata h l s p rc e = ground arith

body_loop-refused :
    (strata : ℕ → ℕ) (h : ℕ) (ls : List Literal) (s : ℕ) (p : ℕ → ℕ) (rc : Rc)
    → body_loop strata h ls s p ≡ refused rc
    → rc ≡ invalid_field
unfolding body_loop
body_loop-refused strata h [] s p rc e = cc
body_loop-refused strata h (l ∷ ls) s p rc e = elim (Checked-cases (literal_step strata h l s p)) [
  | inl (rc', f) ↦
      let bad = literal_step-refused strata h l s p rc' f in cc (bad, rw (f, body_loop) at e)
  | inr ((s1, p1), f) ↦ body_loop-refused strata h ls s1 p1 rc (rw (f, body_loop) at e)
]

-- A rule that a round went through and raised nothing for.
abbrev IsSettled : (ℕ → ℕ) → Rule → Type 0
IsSettled strata rule =
    (rule.head < max_predicates) × All (Settled strata (strata rule.head)) rule.body

rule_step-IsSettled :
    (p : Pass) (rule : Rule) (p' : Pass)
    → rule_step p rule ≡ (ok, p')
    → p'.changed ≡ false
    → (p.changed ≡ false) × (p'.strata ≡ p.strata) × IsSettled p.strata rule
unfolding rule_step raise
rule_step-IsSettled p rule p' e c = elim (Bool-cases (leb max_predicates rule.head)) [
  | inl b ↦ cc (rw b at e)
  | inr b ↦
      elim (Checked-cases
        (body_loop p.strata rule.head rule.body (p.strata rule.head) p.predecessor)) [
          | inl (rc, f) ↦
              let bad =
                body_loop-refused p.strata rule.head rule.body (p.strata rule.head) p.predecessor rc
                  f in
              cc (bad, rw (b, f, rule_step) at e)
          | inr ((s1, p1), f) ↦
              let same : raise p rule.head s1 p1 ≡ p' = ap (λ r. r.1) (rw (b, f, rule_step) at e) in
              let loop =
                body_loop-Settled p.strata rule.head rule.body (p.strata rule.head) p.predecessor s1
                  p1 f in
              elim (Bool-cases (ltb (p.strata rule.head) s1)) [
                | inl up ↦ cc (c, rw (up, raise) at same)
                | inr down ↦
                    let kept = rw (down, raise) at same in
                    let level : s1 ≡ p.strata rule.head = ground (arith, loop.0) in
                    (
                      ap (λ q. q.changed) kept ∙ c,
                      sym (ap (λ q. q.strata) kept),
                      (ground arith, subst (λ n. All (Settled p.strata n) rule.body) level loop.1),
                    )
              ]
        ]
]

pub rules_loop-ok :
    (p : Pass) (rule : Rule) (rules : List Rule) (p' : Pass)
    → rules_loop p (rule ∷ rules) ≡ (ok, p')
    → (q : Pass) × (rule_step p rule ≡ (ok, q)) × (rules_loop q rules ≡ (ok, p'))
unfolding rules_loop
rules_loop-ok p rule rules p' e =
    let q = (rule_step p rule).1 in
    let both : (rule_step p rule ≡ (ok, q)) × (rules_loop q rules ≡ (ok, p')) = ground arith in
    (q, both.0, both.1)

rules_loop-IsSettled :
    (p : Pass) (rules : List Rule) (p' : Pass)
    → rules_loop p rules ≡ (ok, p')
    → p'.changed ≡ false
    → (p.changed ≡ false) × (p'.strata ≡ p.strata) × All (IsSettled p'.strata) rules
unfolding rules_loop
rules_loop-IsSettled p [] p' e c =
    let same = ap (λ r. r.1) e in (ap (λ q. q.changed) same ∙ c, sym (ap (λ q. q.strata) same), tt)
rules_loop-IsSettled p (rule ∷ rules) p' e c =
    let (q, one, rest) = rules_loop-ok p rule rules p' e in
    let (c1, s1, all) = rules_loop-IsSettled q rules p' rest c in
    let (c0, s0, first) = rule_step-IsSettled p rule q one c1 in
    (c0, s1 ∙ s0, (subst (λ t. IsSettled t rule) (sym (s1 ∙ s0)) first, all))

pub passes_loop-ok :
    (left : ℕ) (p : Pass) (rules : List Rule) (p' : Pass)
    → p.changed ≡ true
    → passes_loop (suc left) p rules ≡ (ok, p')
    → (q : Pass) × (rules_loop (unchanged p) rules ≡ (ok, q))
      × (passes_loop left q rules ≡ (ok, p'))
unfolding passes_loop
passes_loop-ok left p rules p' y e =
    let q = (rules_loop (unchanged p) rules).1 in
    let both : (rules_loop (unchanged p) rules ≡ (ok, q)) × (passes_loop left q rules ≡ (ok, p')) =
      ground arith in
    (q, both.0, both.1)

passes_loop-IsSettled :
    (left : ℕ) (p : Pass) (rules : List Rule) (p' : Pass)
    → (p.changed ≡ false → All (IsSettled p.strata) rules)
    → passes_loop left p rules ≡ (ok, p')
    → p'.changed ≡ false
    → All (IsSettled p'.strata) rules
unfolding passes_loop
passes_loop-IsSettled zero p rules p' i e c =
    let same = ap (λ r. r.1) e in
    subst (λ (q : Pass). All (IsSettled q.strata) rules) same (i (ap (λ q. q.changed) same ∙ c))
passes_loop-IsSettled (suc left) p rules p' i e c = elim (Bool-cases p.changed) [
  | inl y ↦
      let (q, one, rest) = passes_loop-ok left p rules p' y e in
      passes_loop-IsSettled left q rules p'
        (λ n. (rules_loop-IsSettled (unchanged p) rules q one n).2) rest c
  | inr n ↦
      subst (λ (q : Pass). All (IsSettled q.strata) rules)
        (ap (λ r. r.1) (rw (n, passes_loop) at e)) (i n)
]

le_max_of : (n : ℕ) (strata : ℕ → ℕ) (i : ℕ) → i < n → strata i ≤ max_of n strata
unfolding max_of
le_max_of zero strata i h = absurd (omega arith)
le_max_of (suc n) strata i h = elim (Bool-cases (i == n)) [
  | inl e ↦ let same : i ≡ n = ground arith in rw same (ground arith)
  | inr e ↦ let less : i < n = ground arith in ground (arith, le_max_of n strata i less)
]

no_wrap : (n : ℕ) → n < max_strata → (n + 1) % 2 ^ 32 ≡ n + 1
no_wrap n h = omega arith

-- Below the limit of strata nothing wraps around.
Settled-Respects :
    (strata : ℕ → ℕ) (head : ℕ) (l : Literal)
    → ((i : ℕ) → i < max_predicates → strata i < max_strata)
    → Settled strata (strata head) l
    → Respects strata head l
unfolding needed
Settled-Respects strata head l low s d =
    let (b, n) = s d in
    let exact = no_wrap (strata l.predicate_id) (low l.predicate_id b) in
    elim (Bool-cases (is_strict l.kind)) [
      | inl e ↦
          let above : (strata l.predicate_id + 1) % 2 ^ 32 ≤ strata head = rw e at n in
          (b, omega (arith, above, exact), λ _. omega (arith, above, exact))
      | inr e ↦
          let level : strata l.predicate_id ≤ strata head = rw e at n in (b, level, λ t. cc (e, t))
    ]

IsSettled-Stratifies :
    (strata : ℕ → ℕ) (rules : List Rule)
    → ((i : ℕ) → i < max_predicates → strata i < max_strata)
    → All (IsSettled strata) rules
    → Stratifies strata rules
IsSettled-Stratifies strata rules low all =
    All-map (IsSettled strata)
      (λ rule. (rule.head < max_predicates) × All (Respects strata rule.head) rule.body) rules
      (λ rule (b, body). (
        b,
        All-map (Settled strata (strata rule.head)) (Respects strata rule.head) rule.body
            (λ l. Settled-Respects strata rule.head l low) body,
      ))
      all

finish-ok :
    (r : Ruleset) (rc : Rc) (p : Pass) (after : Ruleset)
    → finish r rc p ≡ (ok, after, none)
    → (rc ≡ ok)
      × (p.changed ≡ false)
      × (max_of max_predicates p.strata < max_strata)
      × (with_strata r p.strata (max_of max_predicates p.strata) true ≡ after)
unfolding finish
finish-ok r rc p after e = ground arith

assign_strata-finish :
    (r : Ruleset)
    → (r.negation_supported || r.aggregates_supported) ≡ true
    → let (rc, p) = passes_loop (suc max_predicates) first_pass r.rules in
      assign_strata r ≡ finish r rc p
unfolding assign_strata
assign_strata-finish r s = ground arith

-- The pass that an accepted ruleset ends with.
pub assign_strata-ok :
    (r after : Ruleset)
    → (r.negation_supported || r.aggregates_supported) ≡ true
    → assign_strata r ≡ (ok, after, none)
    → (p : Pass) × (passes_loop (suc max_predicates) first_pass r.rules ≡ (ok, p))
      × (p.changed ≡ false)
      × (max_of max_predicates p.strata < max_strata)
      × (with_strata r p.strata (max_of max_predicates p.strata) true ≡ after)
assign_strata-ok r after s e =
    let (rc, p) = passes_loop (suc max_predicates) first_pass r.rules in
    let (done, still, below, same) = finish-ok r rc p after (sym (assign_strata-finish r s) ∙ e) in
    (p, ap (λ c. (c, p)) done, still, below, same)

-- Where the ruleset uses negation or aggregates and `assign_strata` returns OK, the strata are
-- marked as assigned, they stratify the rules (no body predicate is above its head, and one that is
-- negated or aggregated is strictly below), and all of them are up to the maximum, which is below 4.
pub assign_strata-Stratifies :
    (r after : Ruleset)
    → (r.negation_supported || r.aggregates_supported) ≡ true
    → assign_strata r ≡ (ok, after, none)
    → (after.strata_assigned ≡ true)
      × (after.rules ≡ r.rules)
      × Stratifies after.strata after.rules
      × (after.max_stratum < max_strata)
      × ((i : ℕ) → i < max_predicates → after.strata i ≤ after.max_stratum)
assign_strata-Stratifies r after s e =
    let (p, ran, still, below, same) = assign_strata-ok r after s e in
    let low : (i : ℕ) → i < max_predicates → p.strata i < max_strata =
      λ i h. omega (arith, le_max_of max_predicates p.strata i h, below) in
    let settled =
      passes_loop-IsSettled (suc max_predicates) first_pass r.rules p (λ f. cc f) ran still in
    subst
      (λ (t : Ruleset).
        (t.strata_assigned ≡ true)
        × (t.rules ≡ r.rules)
        × Stratifies t.strata t.rules
        × (t.max_stratum < max_strata)
        × ((i : ℕ) → i < max_predicates → t.strata i ≤ t.max_stratum))
      same
      (
        refl,
        refl,
        IsSettled-Stratifies p.strata r.rules low settled,
        below,
        le_max_of max_predicates p.strata,
      )
