-- ===== src/Solver/Derive/Exact.antt =====
-- One application of a rule derives exactly the heads that its chains of literals lead to.
use maelys_datalog.Prelude.{
  ℕ, true, List, [], ◌∷◌, Option, some, ◌≡◌, ◌⊎◌, inl, inr, refl, sym, ◌∙◌, subst, Option-cases,
  some_inj, get_elem?, In,
}
use maelys_datalog.Fact.{Fact}
use maelys_datalog.Solver.{Rule, View, Work}
use maelys_datalog.Solver.Derive.{literal_step, derive_ordered, is_at, Next}
use maelys_datalog.Solver.Derive.Candidates.{Goal, Does, derive_head-Run}
use maelys_datalog.Solver.Derive.Reads.{KindStep, LiteralStep, Derives}
use maelys_datalog.Solver.Derive.Runs.{Present, Run, Run-fails, Run-map}
use maelys_datalog.Solver.Derive.Steps.{solve_literal-Run}
use maelys_datalog.Solver.Matching.{Bindings, instantiate_fact}

literal_step-Run :
    (v : View) (rule : Rule) (delta : Option ℕ) (i : ℕ) (next : Next) (P : Goal)
    → Does v next P
    → Does v
        (literal_step v rule delta i next)
        (λ b g. (c : Bindings) × LiteralStep v rule delta i b c × P c g)
unfolding literal_step
literal_step-Run v rule delta i next P does b w =
    let G = λ (g : Fact). (c : Bindings) × LiteralStep v rule delta i b c × P c g in
    elim (Option-cases (get_elem? rule.body i)) [
      | inl e ↦
          subst (λ a. Run v G w a) (sym (rw (e, literal_step) refl))
            (Run-fails v G w w (refl, refl))
      | inr (l, e) ↦
          subst (λ a. Run v G w a) (sym (rw (e, literal_step) refl))
            (Run-map v (λ g. (c : Bindings) × KindStep l.kind v rule l (is_at delta i) b c × P c g)
              G w _ (λ g (c, k, p). (c, (l, e, k), p))
              (λ g (c, (m, q, k), p). (
                c,
                subst (λ x. KindStep x.kind v rule x (is_at delta i) b c) (some_inj (sym q ∙ e)) k,
                p,
              ))
              (solve_literal-Run v next P does l b rule (is_at delta i) w))
    ]

-- From any bindings on, one pass along a join order.
pub derive_ordered-Run :
    (v : View) (rule : Rule) (delta : Option ℕ) (order : List ℕ)
    → Does v (derive_ordered v rule delta order) (λ b f. Derives v rule delta order b f)
unfolding derive_ordered
derive_ordered-Run v rule delta [] b w =
    Run-map v (λ f. instantiate_fact b rule.head ≡ some f) (λ f. Derives v rule delta [] b f) w _
      (λ f h. (b, refl, h))
      (λ f (c, e, h). subst (λ x. instantiate_fact x rule.head ≡ some f) (sym e) h)
      (derive_head-Run v rule b w)
derive_ordered-Run v rule delta (i ∷ order) b w =
    Run-map v
      (λ g. (c : Bindings) × LiteralStep v rule delta i b c × Derives v rule delta order c g)
      (λ f. Derives v rule delta (i ∷ order) b f) w _ (λ f (d, s, (c, k, h)). (c, (d, s, k), h))
      (λ f (c, (d, s, k), h). (d, s, (c, k, h)))
      (literal_step-Run v rule delta i (derive_ordered v rule delta order)
        (λ c f. Derives v rule delta order c f) (derive_ordered-Run v rule delta order) b w)

-- One application of a rule along a join order, from any bindings: the merge window keeps its
-- facts, what is added is the head of the rule under bindings that the literals of the order lead
-- to one after the other, also where the application fails; and where it does not fail, every
-- such head is afterwards a fact of the base, an accepted fact or a fact of the window.
pub derive_ordered_exact :
    (v : View) (rule : Rule) (delta : Option ℕ) (order : List ℕ) (b : Bindings) (w : Work)
    → ((f : Fact) → In f w.merged → In f ((derive_ordered v rule delta order b w).1).merged)
      × ((f : Fact)
          → In f ((derive_ordered v rule delta order b w).1).merged
          → In f w.merged ⊎ Derives v rule delta order b f)
      × ((derive_ordered v rule delta order b w).0 ≡ true
          → (f : Fact) → Derives v rule delta order b f
          → Present v ((derive_ordered v rule delta order b w).1) f)
derive_ordered_exact v rule delta order b w =
    let r = derive_ordered-Run v rule delta order b w in (r.grows, r.sound, r.complete)
