-- ===== src/Solver/Derive/Candidates.antt =====
-- What the end of a join order and the match of one candidate add to the merge window.
use maelys_datalog.Prelude.{
  ◌+◌, true, not, ◌&&◌, ◌||◌, List, [], ◌∷◌, ◌++◌, none, some, ◌≡◌, ◌⊎◌, inl, inr, refl, sym, ap,
  ◌∙◌, arith, In, subst, Bool-cases, Option-cases, some_inj, length, length-append, ◌<◌, false, leb,
  ◌==◌, and_true, Rc,
}
use maelys_datalog.Bounds.{max_predicates, max_idb_facts, max_facts_per_pred}
use maelys_datalog.Fact.{Fact}
use maelys_datalog.FactSet.{scan}
use maelys_datalog.FactSet.Contains.{scan_iff}
use maelys_datalog.Solver.{Literal, Rule, View, Work}
use maelys_datalog.Solver.Aggregates.{set_aggregate_failure}
use maelys_datalog.Solver.Comparing.{set_comparison_failure}
use maelys_datalog.Solver.Derive.{
  Next, fact_in_base, append_idb_merge, insert_merged, head_may_be_in_base, set_invalid_state,
  derive_head, match_candidate,
}
use maelys_datalog.Solver.Derive.Reads.{Meets}
use maelys_datalog.Solver.Derive.Runs.{
  Present, IsKnown, IsSameWindow, Run, Run-fails, Run-skips, Run-map,
}
use maelys_datalog.Solver.Filters.{set_filter_failure}
use maelys_datalog.Solver.Matching.{
  Bindings, match_terms, instantiate_fact, fact_structurally_valid,
}

-- No failure touches the merge window.
pub invalid_state-merged : (w : Work) → IsSameWindow w (set_invalid_state w)
unfolding set_invalid_state
invalid_state-merged w = ground arith

pub comparison_failure-merged : (w : Work) → IsSameWindow w (set_comparison_failure w)
unfolding set_comparison_failure
comparison_failure-merged w = ground arith

pub filter_failure-merged : (rc : Rc) (w : Work) → IsSameWindow w (set_filter_failure rc w)
unfolding set_filter_failure
filter_failure-merged rc w = ground arith

pub aggregate_failure-merged : (rc : Rc) (w : Work) → IsSameWindow w (set_aggregate_failure rc w)
unfolding set_aggregate_failure
aggregate_failure-merged rc w = (refl, refl)

-- The property of a fact to be `f` itself.
abbrev Is : Fact → Fact → Type 0
Is f g = g ≡ f

In-appended : (f g : Fact) (fs : List Fact) → In g (fs ++ f ∷ []) → In g fs ⊎ (g ≡ f)
In-appended f g [] (inl e) = inr e
In-appended f g [] (inr m) = absurd m
In-appended f g (x ∷ fs) (inl e) = inl (inl e)
In-appended f g (x ∷ fs) (inr m) = elim (In-appended f g fs m) [
  | inl n ↦ inl (inr n)
  | inr e ↦ inr e
]

appended-In : (f g : Fact) (fs : List Fact) → In g fs → In g (fs ++ f ∷ [])
appended-In f g [] m = absurd m
appended-In f g (x ∷ fs) (inl e) = inl e
appended-In f g (x ∷ fs) (inr m) = inr (appended-In f g fs m)

appended_self : (f : Fact) (fs : List Fact) → In f (fs ++ f ∷ [])
appended_self f [] = inl refl
appended_self f (x ∷ fs) = inr (appended_self f fs)

-- The check that the append passes.
has_room :
    (v : View) (w : Work)
    → (leb v.idb_capacity (length v.accepted + length w.merged)
        || leb max_idb_facts (length v.accepted + length w.merged))
      ≡ false
    → length v.accepted + length w.merged < v.idb_capacity
has_room v w h = ground arith

insert_merged-Run :
    (v : View) (f : Fact) (w : Work)
    → fact_structurally_valid v.the_ruleset.registry f ≡ true
    → Run v (Is f) w (insert_merged v f w)
unfolding insert_merged
insert_merged-Run v f w valid =
    elim (Bool-cases (
      leb v.idb_capacity (length v.accepted + length w.merged)
      || leb max_idb_facts (length v.accepted + length w.merged))) [
        | inl a ↦ rw a (Run-fails v (Is f) w _ (refl, refl))
        | inr a ↦ elim (Bool-cases (leb max_predicates f.predicate_id)) [
          | inl b ↦ rw (a, b) (Run-fails v (Is f) w _ (refl, refl))
          | inr b ↦ elim (Bool-cases (leb max_facts_per_pred (w.facts_per_pred f.predicate_id))) [
            | inl c ↦ rw (a, b, c) (Run-fails v (Is f) w _ (refl, refl))
            | inr c ↦
                rw (a, b, c)
                  (record {
                    grows = λ g m. appended-In f g w.merged m;
                    sound = λ g m. In-appended f g w.merged m;
                    known = λ g m. elim (In-appended f g w.merged m) [
                      | inl n ↦ inl n
                      | inr e ↦ inr (subst (λ x. IsKnown v x) (sym e) (valid, ground arith))
                    ];
                    complete = λ h g e. inr (
                        inr (
                          subst (λ x. In x (w.merged ++ f ∷ [])) (sym e)
                            (appended_self f w.merged)));
                    keeps = λ k. record {
                      blank = λ q. cc;
                      room = omega (arith, length-append w.merged (f ∷ []), has_room v w a);
                    };
                  })
          ]
        ]
      ]

-- Where the fact is found to be there, nothing is added.
Present-Run : (v : View) (f : Fact) (w : Work) → Present v w f → Run v (Is f) w (true, w)
Present-Run v f w p = record {
  grows = λ g m. m;
  sound = λ g m. inl m;
  known = λ g m. inl m;
  complete = λ h g e. subst (λ x. Present v w x) (sym e) p;
  keeps = λ k. k;
}

append-Run :
    (v : View) (rule : Rule) (f : Fact) (w : Work) → Run v (Is f) w (append_idb_merge v rule f w)
unfolding append_idb_merge
append-Run v rule f w = elim (Bool-cases (fact_structurally_valid v.the_ruleset.registry f)) [
  | inr bad ↦ rw bad (Run-fails v (Is f) w (set_invalid_state w) (invalid_state-merged w))
  | inl good ↦ elim (Bool-cases (head_may_be_in_base v rule && fact_in_base v f)) [
    | inl a ↦
        rw (good, a)
          (Present-Run v f w (inl (and_true (head_may_be_in_base v rule) (fact_in_base v f) a).1))
    | inr a ↦ elim (Bool-cases (scan v.accepted f)) [
      | inl s ↦ rw (good, a, s) (Present-Run v f w (inr (inl ((scan_iff v.accepted f).0 s))))
      | inr s ↦ elim (Bool-cases (scan w.merged f)) [
        | inl t ↦ rw (good, a, s, t) (Present-Run v f w (inr (inr ((scan_iff w.merged f).0 t))))
        | inr t ↦ rw (good, a, s, t) (insert_merged-Run v f w good)
      ]
    ]
  ]
]

-- A property of the facts that a continuation derives from given bindings.
abbrev pub Goal : Type 1
Goal = Bindings → Fact → Type 0

abbrev pub Does : View → Next → Goal → Type 0
Does v next P = (b : Bindings) (w : Work) → Run v (P b) w (next b w)

pub derive_head-Run :
    (v : View) (rule : Rule)
    → Does v (derive_head v rule) (λ b f. instantiate_fact b rule.head ≡ some f)
unfolding derive_head
derive_head-Run v rule b w = elim (Option-cases (instantiate_fact b rule.head)) [
  | inl e ↦ rw (e, derive_head) (Run-skips v (λ f. none ≡ some f) w (λ f h. cc))
  | inr (g, e) ↦
      rw (e, derive_head)
        (Run-map v (Is g) (λ f. some g ≡ some f) w (append_idb_merge v rule g w)
          (λ f h. ap (some) (sym h)) (λ f h. sym (some_inj h)) (append-Run v rule g w))
]

module _ (v : View) (next : Next) (P : Goal) (does : Does v next P) (l : Literal)
    (b : Bindings) where
  pub match_candidate-Run :
      (f : Fact) (w : Work)
      → Run v (λ g. (c : Bindings) × Meets v l b f c × P c g) w (match_candidate v l f b next w)
  unfolding match_candidate
  match_candidate-Run f w = elim (Bool-cases (fact_structurally_valid v.the_ruleset.registry f)) [
    | inr bad ↦ rw bad (Run-fails v _ w (set_invalid_state w) (invalid_state-merged w))
    | inl good ↦
        elim (Bool-cases (
          not (f.predicate_id == l.atom.predicate_id)
          || not (length f.terms == length l.atom.terms))) [
            | inl other ↦
                rw (good, other)
                  (Run-skips v _ w (λ g (c, m, p).
                    absurd (let pid = m.predicate in let ar = m.arity in ground arith)))
            | inr same ↦ elim (Option-cases (match_terms b l.atom.terms f.terms)) [
              | inl e ↦
                  rw (good, same, e, match_candidate)
                    (Run-skips v _ w (λ g (c, m, p). absurd (cc (m.bindings, e))))
              | inr (c, e) ↦
                  rw (good, same, e, match_candidate)
                    (Run-map v (P c) _ w (next c w)
                      (λ g p. (
                        c,
                        record {
                          valid = good;
                          predicate = ground arith;
                          arity = ground arith;
                          bindings = e;
                        },
                        p,
                      ))
                      (λ g (d, m, p). subst (λ x. P x g) (some_inj (sym m.bindings ∙ e)) p)
                      (does c w))
            ]
          ]
  ]
