-- ===== src/Solver/Plan/Choice.antt =====
-- The literal that a round chooses, by the scores, as a ready aggregate or by a planner module, is
-- one that is not planned yet and is safe.
use maelys_datalog.Prelude.{
  ℕ, suc, ◌+◌, true, false, not, ◌&&◌, List, [], ◌∷◌, Option, none, some, ◌≡◌, inl, inr, refl, sym,
  ap, ◌∙◌, subst, arith, get_elem?, In, Bool-cases, Option-cases, and_true, some_inj, passed, ◌>>=◌,
  >>=-passed, In-get,
}
use maelys_datalog.Solver.{Literal, Rule, Ruleset, Mask, JoinCandidate, Planner}
use maelys_datalog.Solver.Filters.{callback_status, with_code, require}
use maelys_datalog.Solver.Plan.{
  literal_safe, literal_static_score, improves, may_come, best_loop, ready_aggregate, candidate_of,
  candidates_loop, module_choose_literal, best_or_fail, next_literal, names_predicate, is_nil,
}
use maelys_datalog.Registry.{registry_get}
use maelys_datalog.Strata.{is_aggregate}

-- A literal that may stand at the next place of the order.
pub record Ready (rule : Rule) (planned bound : Mask) (i : ℕ) : Type 0 where
  pub literal : Literal
  pub place : get_elem? rule.body i ≡ some literal
  pub unplanned : planned i ≡ false
  pub safe : literal_safe rule literal bound ≡ true

-- `ls` is the body from place `i` on.
abbrev Suffix : Rule → ℕ → List Literal → Type 0
Suffix rule i ls =
    (k : ℕ) (l : Literal) → get_elem? ls k ≡ some l → get_elem? rule.body (i + k) ≡ some l

Suffix-tail :
    (rule : Rule) (i : ℕ) (l : Literal) (ls : List Literal)
    → Suffix rule i (l ∷ ls)
    → Suffix rule (suc i) ls
Suffix-tail rule i l ls s k m e =
    subst (λ (x : ℕ). get_elem? rule.body x ≡ some m) (omega arith) (s (suc k) m e)

Suffix-head :
    (rule : Rule) (i : ℕ) (l : Literal) (ls : List Literal)
    → Suffix rule i (l ∷ ls)
    → get_elem? rule.body i ≡ some l
Suffix-head rule i l ls s =
    subst (λ (x : ℕ). get_elem? rule.body x ≡ some l) (omega arith) (s 0 l refl)

module _ (r : Ruleset) (rule : Rule) (planned bound : Mask) where
  found :
      (i : ℕ) (l : Literal)
      → get_elem? rule.body i ≡ some l
      → may_come rule planned bound i l ≡ true
      → Ready rule planned bound i
  found i l e h = record {
    literal = l;
    place = e;
    unplanned = ground arith;
    safe = (and_true (not (planned i)) (literal_safe rule l bound) h).1;
  }

  abbrev GoodBest : Option (ℕ × ℕ) → Type 0
  GoodBest none = Unit
  GoodBest (some (i, score)) = Ready rule planned bound i

  best_loop-Ready :
      (i : ℕ) (ls : List Literal) (best : Option (ℕ × ℕ))
      → Suffix rule i ls
      → GoodBest best
      → GoodBest (best_loop r rule planned bound i ls best)
  unfolding best_loop
  best_loop-Ready i [] best s g = g
  best_loop-Ready i (l ∷ ls) best s g =
      elim (Bool-cases
        (may_come rule planned bound i l && improves i (literal_static_score r l bound) best)) [
          | inl t ↦
              rw (t, best_loop)
                (best_loop-Ready (suc i) ls (some (i, literal_static_score r l bound))
                  (Suffix-tail rule i l ls s)
                  (found i l (Suffix-head rule i l ls s)
                    (and_true (may_come rule planned bound i l)
                      (improves i (literal_static_score r l bound) best) t).0))
          | inr t ↦
              rw (t, best_loop) (best_loop-Ready (suc i) ls best (Suffix-tail rule i l ls s) g)
        ]

  best_or_fail-Ready :
      (best : Option (ℕ × ℕ)) (i : ℕ)
      → GoodBest best
      → best_or_fail best ≡ passed i
      → Ready rule planned bound i
  best_or_fail-Ready none i g h = absurd (cc (h))
  best_or_fail-Ready (some (j, score)) i g h =
      let e : j ≡ i = cc in subst (Ready rule planned bound) e g

  ready_aggregate-Ready :
      (i : ℕ) (ls : List Literal) (j : ℕ)
      → Suffix rule i ls
      → ready_aggregate rule planned bound i ls ≡ some j
      → Ready rule planned bound j
  unfolding ready_aggregate
  ready_aggregate-Ready i [] j s h = absurd (cc (h))
  ready_aggregate-Ready i (l ∷ ls) j s h =
      elim (Bool-cases (not (planned i) && is_aggregate l.kind && literal_safe rule l bound)) [
        | inl t ↦
            let e : i ≡ j = some_inj (rw (t, ready_aggregate) at h) in
            let both : may_come rule planned bound i l ≡ true = ground arith in
            subst (Ready rule planned bound) e (found i l (Suffix-head rule i l ls s) both)
        | inr t ↦
            ready_aggregate-Ready (suc i) ls j (Suffix-tail rule i l ls s)
              (rw (t, ready_aggregate) at h)
      ]

  candidate_of-index :
      (i : ℕ) (l : Literal) (c : JoinCandidate)
      → candidate_of r i l bound ≡ passed c
      → c.body_index ≡ i
  unfolding candidate_of
  candidate_of-index i l c h = elim (Bool-cases (names_predicate l.kind)) [
    | inl t ↦ elim (Option-cases (registry_get r.registry l.atom.predicate_id)) [
      | inl e ↦ absurd (cc (rw (t, e) at h))
      | inr (d, e) ↦ let q = rw (t, e) at h in sym (ground arith)
    ]
    | inr t ↦ let q = rw t at h in sym (ground arith)
  ]

  candidates_loop-Ready :
      (i : ℕ) (ls : List Literal) (cs : List JoinCandidate) (c : JoinCandidate)
      → Suffix rule i ls
      → candidates_loop r rule planned bound i ls ≡ passed cs
      → In c cs
      → Ready rule planned bound c.body_index
  unfolding candidates_loop
  candidates_loop-Ready i [] cs c s h m =
      let e : cs ≡ [] = ground arith in absurd (subst (In c) e m)
  candidates_loop-Ready i (l ∷ ls) cs c s h m =
      let rest = candidates_loop r rule planned bound (suc i) ls in
      elim (Bool-cases (may_come rule planned bound i l)) [
        | inr t ↦
            candidates_loop-Ready (suc i) ls cs c (Suffix-tail rule i l ls s)
              (rw (t, candidates_loop) at h) m
        | inl t ↦
            let (d, e, k) =
              >>=-passed (candidate_of r i l bound) (λ d. rest >>= λ ds. passed (d ∷ ds))
                (rw (t, candidates_loop) at h) in
            let (ds, f, g) = >>=-passed rest (λ ds. passed (d ∷ ds)) k in
            let eq : cs ≡ d ∷ ds = ground arith in
            elim (subst (In c) eq m) [
              | inl same ↦
                  let index : i ≡ c.body_index = sym (
                    candidate_of-index i l c
                      (subst (λ x. candidate_of r i l bound ≡ passed x) (sym same) e)) in
                  subst (Ready rule planned bound) index (found i l (Suffix-head rule i l ls s) t)
              | inr n ↦ candidates_loop-Ready (suc i) ls ds c (Suffix-tail rule i l ls s) f n
            ]
      ]

  module_choose-Ready :
      (planner : Planner) (i : ℕ)
      → module_choose_literal planner r rule planned bound ≡ passed i
      → Ready rule planned bound i
  unfolding module_choose_literal
  module_choose-Ready planner i h =
      let (cs, e, h1) = >>=-passed (candidates_loop r rule planned bound 0 rule.body) _ h in
      let (u, e1, h2) = >>=-passed (require (not (is_nil cs)) _) _ h1 in
      let (chosen, e2, h3) =
        >>=-passed (with_code (callback_status ((planner cs).0)) ((planner cs).1)) _ h2 in
      elim (Option-cases (get_elem? cs chosen)) [
        | inl n ↦ absurd (cc (rw n at h3))
        | inr (c, n) ↦
            let index : c.body_index ≡ i = let q = rw n at h3 in ground arith in
            subst (Ready rule planned bound) index (
              candidates_loop-Ready 0 rule.body cs c
                (λ k l e. subst (λ (x : ℕ). get_elem? rule.body x ≡ some l) (omega arith) e) e
                (In-get cs chosen c n))
      ]

  pub next_literal-Ready :
      (i : ℕ) → next_literal r rule planned bound ≡ passed i → Ready rule planned bound i
  unfolding next_literal
  next_literal-Ready i h =
      let suffix : Suffix rule 0 rule.body =
        λ k l e. subst (λ (x : ℕ). get_elem? rule.body x ≡ some l) (omega arith) e in
      elim (Option-cases r.planner) [
        | inl n ↦
            best_or_fail-Ready _ i (best_loop-Ready 0 rule.body none suffix tt)
              (rw (n, next_literal) at h)
        | inr (planner, n) ↦ elim (Bool-cases r.aggregates_supported) [
          | inr off ↦ module_choose-Ready planner i (rw (n, next_literal, off) at h)
          | inl on ↦ elim (Option-cases (ready_aggregate rule planned bound 0 rule.body)) [
            | inl none_ready ↦
                module_choose-Ready planner i (rw (n, next_literal, on, none_ready) at h)
            | inr (j, ready) ↦
                let e : i ≡ j = let q = rw (n, next_literal, on, ready) at h in ground arith in
                ready_aggregate-Ready 0 rule.body i suffix (ready ∙ ap (some) (sym e))
          ]
        ]
      ]
