-- ===== src/Solver/Derive/Steps.antt =====
-- What one literal of a rule adds to the merge window, whatever comes after it.
use maelys_datalog.Prelude.{
  ℕ, Bool, true, false, List, [], ◌∷◌, none, some, ◌≡◌, inl, inr, refl, sym, ◌∙◌, In, subst,
  Bool-cases, Option-cases, Checked-cases, some_inj, if◌then◌else◌, Checked, passed,
}
use maelys_datalog.Fact.{Fact}
use maelys_datalog.Registry.{Entry, registry_get, has_flag, kind_edb, kind_idb, kind_policy_fact}
use maelys_datalog.Solver.{
  Literal, Rule, View, Work, fatal, CompareResult, compare_true, compare_false, invalid_kind,
  invalid_ordinal_type, unbound_variable, unknown_operator, unknown_term_kind, arith_overflow,
}
use maelys_datalog.Solver.Aggregates.{evaluate_aggregate, bind_aggregate, set_aggregate_failure}
use maelys_datalog.Solver.Comparing.{comparison_result, evaluate_comparison_literal}
use maelys_datalog.Solver.Derive.{
  Next, set_invalid_state, scan_candidates, scan_if, scan_window, scan_sources, atom_step,
  idb_window, solve_negated_literal, aggregate_step, solve_kind, solve_literal, proceed,
  match_candidate,
}
use maelys_datalog.Solver.Derive.Candidates.{
  Goal, Does, match_candidate-Run, invalid_state-merged, comparison_failure-merged,
  filter_failure-merged, aggregate_failure-merged,
}
use maelys_datalog.Solver.Derive.Reads.{
  InWindow, InSources, Reads, Meets, AtomStep, FilterStep, AggregateStep, KindStep,
}
use maelys_datalog.Solver.Derive.Runs.{
  IsSameWindow, IsMarked-same, Run, Run-fails, Run-skips, Run-map, Run-and_next,
}
use maelys_datalog.Solver.Filters.{
  filter_call, evaluate_filter_literal, charge_filter, set_filter_failure, over_budget,
  record_filter,
}
use maelys_datalog.Prelude.{payload_too_large}
use maelys_datalog.Solver.Matching.{Bindings}
use maelys_datalog.Solver.Ranges.{edb_slice}
use maelys_datalog.Strata.{LiteralKind, atom, comparison, negated_atom, filter}

-- A goal is met through a fact of a list.
abbrev Through : View → Literal → Bindings → (Fact → Type 0) → Goal → Fact → Type 0
Through v l b Q P g = (f : Fact) × Q f × (c : Bindings) × Meets v l b f c × P c g

passed_inj : {A : Type 0} {x y : A} → passed x ≡ passed y → x ≡ y
passed_inj h = cc

module _ (v : View) (next : Next) (P : Goal) (does : Does v next P) (l : Literal)
    (b : Bindings) where
  scan_candidates-Run :
      (fs : List Fact) (w : Work)
      → Run v (Through v l b (λ f. In f fs) P) w (scan_candidates v l fs b next w)
  unfolding scan_candidates
  scan_candidates-Run [] w = Run-skips v _ w (λ g (f, m, c, h, p). m)
  scan_candidates-Run (x ∷ fs) w =
      Run-map v _ (Through v l b (λ f. In f (x ∷ fs)) P) w _
        (λ g h. elim h [
          | inl (c, m, p) ↦ (x, inl refl, c, m, p)
          | inr (f, i, c, m, p) ↦ (f, inr i, c, m, p)
        ])
        (λ g (f, i, c, m, p). elim i [
          | inl e ↦ inl (c, subst (λ y. Meets v l b y c) e m, p)
          | inr j ↦ inr (f, j, c, m, p)
        ])
        (Run-and_next v (λ g. (c : Bindings) × Meets v l b x c × P c g)
          (Through v l b (λ f. In f fs) P) w (match_candidate v l x b next w)
          (λ y. scan_candidates v l fs b next y) (match_candidate-Run v next P does l b x w)
          (λ y. scan_candidates-Run fs y))

  scan_if-Run :
      (t : Bool) (fs : List Fact) (w : Work)
      → Run v (Through v l b (λ f. (t ≡ true) × In f fs) P) w (scan_if t v l fs b next w)
  scan_if-Run false fs w = Run-skips v _ w (λ g (f, (e, m), c, h, p). absurd (cc (e)))
  scan_if-Run true fs w =
      Run-map v (Through v l b (λ f. In f fs) P) _ w _
        (λ g (f, m, c, h, p). (f, (refl, m), c, h, p)) (λ g (f, (e, m), c, h, p). (f, m, c, h, p))
        (scan_candidates-Run fs w)

  scan_window-Run :
      (w : Work)
      → Run v (Through v l b (InWindow v l.atom.predicate_id) P) w (scan_window v l b next w)
  unfolding scan_window
  scan_window-Run w = elim (Checked-cases (idb_window v l.atom.predicate_id)) [
    | inl (rc, e) ↦
        rw (e, scan_window) (Run-fails v _ w (set_invalid_state w) (invalid_state-merged w))
    | inr (fs, e) ↦
        rw (e, scan_window)
          (Run-map v (Through v l b (λ f. In f fs) P)
            (Through v l b (InWindow v l.atom.predicate_id) P) w _
            (λ g (f, m, c, h, p). (f, (fs, e, m), c, h, p))
            (λ g (f, (gs, q, m), c, h, p). (f, subst (In f) (passed_inj (sym q ∙ e)) m, c, h, p))
            (scan_candidates-Run fs w))
  ]

  window_if-Run :
      (t : Bool) (w : Work)
      → Run v
          (Through v l b (λ f. (t ≡ true) × InWindow v l.atom.predicate_id f) P)
          w
          (if t then scan_window v l b next w else (true, w))
  window_if-Run false w = Run-skips v _ w (λ g (f, (e, m), c, h, p). absurd (cc (e)))
  window_if-Run true w =
      Run-map v (Through v l b (InWindow v l.atom.predicate_id) P) _ w _
        (λ g (f, m, c, h, p). (f, (refl, m), c, h, p)) (λ g (f, (e, m), c, h, p). (f, m, c, h, p))
        (scan_window-Run w)

  scan_sources-Run :
      (def : Entry) (w : Work)
      → Run v (Through v l b (InSources v def l) P) w (scan_sources v def l b next w)
  unfolding scan_sources
  scan_sources-Run def w =
      Run-map v _ (Through v l b (InSources v def l) P) w _
        (λ g h. elim h [
          | inl (f, m, c, r, p) ↦ (f, inl m, c, r, p)
          | inr (inl (f, m, c, r, p)) ↦ (f, inr (inl m), c, r, p)
          | inr (inr (f, m, c, r, p)) ↦ (f, inr (inr m), c, r, p)
        ])
        (λ g (f, m, c, r, p). elim m [
          | inl a ↦ inl (f, a, c, r, p)
          | inr (inl a) ↦ inr (inl (f, a, c, r, p))
          | inr (inr a) ↦ inr (inr (f, a, c, r, p))
        ])
        (Run-and_next v _ _ w _ _
          (scan_if-Run (has_flag def.kind_flags kind_policy_fact) v.the_ruleset.facts w)
          (λ x.
            Run-and_next v _ _ x _ _
              (scan_if-Run (has_flag def.kind_flags kind_edb) (edb_slice v l.atom.predicate_id) x)
              (λ y. window_if-Run (has_flag def.kind_flags kind_idb) y)))

  read-Run :
      (def : Entry) (t : Bool) (w : Work)
      → Run v
          (Through v l b (Reads v def l t) P)
          w
          (if t then scan_candidates v l v.delta b next w else scan_sources v def l b next w)
  read-Run def true w = scan_candidates-Run v.delta w
  read-Run def false w = scan_sources-Run def w

  atom_step-Run :
      (t : Bool) (w : Work)
      → Run v (λ g. (c : Bindings) × AtomStep v l t b c × P c g) w (atom_step v l t b next w)
  unfolding atom_step
  atom_step-Run t w =
      let G = λ (g : Fact). (c : Bindings) × AtomStep v l t b c × P c g in
      elim (Option-cases (registry_get v.the_ruleset.registry l.atom.predicate_id)) [
        | inl e ↦
            subst (λ a. Run v G w a) (sym (rw (e, atom_step) refl))
              (Run-skips v G w (λ g (c, (def, q, f, m, h), p). absurd (cc (q, e))))
        | inr (def, e) ↦
            subst (λ a. Run v G w a) (sym (rw (e, atom_step) refl))
              (Run-map v (Through v l b (Reads v def l t) P) G w _
                (λ g (f, m, c, h, p). (c, (def, e, f, m, h), p))
                (λ g (c, (d, q, f, m, h), p).
                  (f, subst (λ x. Reads v x l t f) (some_inj (sym q ∙ e)) m, c, h, p))
                (read-Run def t w))
      ]

  -- A literal that binds nothing: its verdict decides.
  Test : Type 0 → Fact → Type 0
  Test T g = (c : Bindings) × (T × (b ≡ c)) × P c g

  Test-Run : (T : Type 0) → T → (w x : Work) → IsSameWindow w x → Run v (Test T) w (next b x)
  unfolding Test
  Test-Run T t w x e =
      let r = does b x in
      record {
        grows = λ f m. r.grows f (subst (In f) (sym e.0) m);
        sound = λ f m. elim (r.sound f m) [
          | inl n ↦ inl (subst (In f) e.0 n)
          | inr p ↦ inr (b, (t, refl), p)
        ];
        known = λ f m. elim (r.known f m) [ inl n ↦ inl (subst (In f) e.0 n) | inr p ↦ inr p ];
        complete = λ h f (c, (u, q), p). r.complete h f (subst (λ x. P x f) (sym q) p);
        keeps = λ k. r.keeps (IsMarked-same v w x e k);
      }

  skip-Run : (T : Type 0) → (T → ⊥) → (w x : Work) → IsSameWindow w x → Run v (Test T) w (true, x)
  unfolding Test
  skip-Run T t w x e = record {
    grows = λ f m. subst (In f) (sym e.0) m;
    sound = λ f m. inl (subst (In f) e.0 m);
    known = λ f m. inl (subst (In f) e.0 m);
    complete = λ h f (c, (u, q), p). absurd (t u);
    keeps = λ k. IsMarked-same v w x e k;
  }

  comparison-Run :
      (rule : Rule) (r : CompareResult) (w : Work)
      → comparison_result rule l b ≡ r
      → Run v
          (Test (comparison_result rule l b ≡ compare_true))
          w
          (proceed (evaluate_comparison_literal rule l b w) (next b))
  unfolding evaluate_comparison_literal
  comparison-Run rule compare_true w e =
      rw (e, evaluate_comparison_literal)
        (Test-Run (compare_true ≡ compare_true) refl w w (refl, refl))
  comparison-Run rule compare_false w e =
      rw (e, evaluate_comparison_literal)
        (skip-Run (compare_false ≡ compare_true) (λ q. cc) w w (refl, refl))
  comparison-Run rule invalid_kind w e =
      rw (e, evaluate_comparison_literal) (Run-fails v _ w _ (comparison_failure-merged w))
  comparison-Run rule invalid_ordinal_type w e =
      rw (e, evaluate_comparison_literal) (Run-fails v _ w _ (comparison_failure-merged w))
  comparison-Run rule unbound_variable w e =
      rw (e, evaluate_comparison_literal) (Run-fails v _ w _ (comparison_failure-merged w))
  comparison-Run rule unknown_operator w e =
      rw (e, evaluate_comparison_literal) (Run-fails v _ w _ (comparison_failure-merged w))
  comparison-Run rule unknown_term_kind w e =
      rw (e, evaluate_comparison_literal) (Run-fails v _ w _ (comparison_failure-merged w))
  comparison-Run rule arith_overflow w e =
      rw (e, evaluate_comparison_literal) (Run-fails v _ w _ (comparison_failure-merged w))

  charge-Run :
      (cost : ℕ) (evaluation : Checked Bool) (w : Work)
      → filter_call v.the_ruleset v.symbols l b ≡ passed (cost, evaluation)
      → Run v
          (Test (FilterStep v.the_ruleset v.symbols l b))
          w
          (proceed (charge_filter (cost, evaluation) w) (next b))
  unfolding charge_filter
  charge-Run cost evaluation w e = elim (Bool-cases (over_budget w cost)) [
    | inl over ↦ rw over (Run-fails v _ w _ (filter_failure-merged payload_too_large w))
    | inr under ↦ elim (Checked-cases evaluation) [
      | inl (rc, k) ↦ rw (under, k) (Run-fails v _ w _ (filter_failure-merged rc w))
      | inr (true, k) ↦
          rw (under, k)
            (Test-Run (FilterStep v.the_ruleset v.symbols l b) (cost, rw k at e) w
              (record_filter w cost true) (refl, refl))
      | inr (false, k) ↦
          rw (under, k)
            (skip-Run (FilterStep v.the_ruleset v.symbols l b) (λ (c, q). cc (rw k at e, q)) w
              (record_filter w cost false) (refl, refl))
    ]
  ]

  filter-Run :
      (w : Work)
      → Run v
          (Test (FilterStep v.the_ruleset v.symbols l b))
          w
          (proceed (evaluate_filter_literal v l b w) (next b))
  unfolding evaluate_filter_literal
  filter-Run w = elim (Checked-cases (filter_call v.the_ruleset v.symbols l b)) [
    | inl (rc, e) ↦
        let eq : evaluate_filter_literal v l b w ≡ (fatal, set_filter_failure rc w) =
          rw (e, evaluate_filter_literal) refl in
        subst (λ a. Run v (Test (FilterStep v.the_ruleset v.symbols l b)) w (proceed a (next b)))
          (sym eq)
          (Run-fails v (Test (FilterStep v.the_ruleset v.symbols l b)) w _
            (filter_failure-merged rc w))
    | inr ((cost, evaluation), e) ↦
        let eq : evaluate_filter_literal v l b w ≡ charge_filter (cost, evaluation) w =
          rw (e, evaluate_filter_literal) refl in
        subst (λ a. Run v (Test (FilterStep v.the_ruleset v.symbols l b)) w (proceed a (next b)))
          (sym eq) (charge-Run cost evaluation w e)
  ]

  aggregate_step-Run :
      (w : Work)
      → Run v (λ g. (c : Bindings) × AggregateStep v l b c × P c g) w (aggregate_step v l b next w)
  unfolding aggregate_step
  aggregate_step-Run w =
      let G = λ (g : Fact). (c : Bindings) × AggregateStep v l b c × P c g in
      elim (Checked-cases (evaluate_aggregate v l b)) [
        | inl (rc, e) ↦
            subst (λ a. Run v G w a) (sym (rw (e, aggregate_step) refl))
              (Run-fails v G w (set_aggregate_failure rc w) (aggregate_failure-merged rc w))
        | inr (z, e) ↦ elim (Option-cases (bind_aggregate l b z)) [
          | inl k ↦
              subst (λ a. Run v G w a) (sym (rw (e, aggregate_step, k) refl))
                (Run-skips v G w (λ g (c, (y, q, r), p).
                  absurd
                    (cc (subst (λ x. bind_aggregate l b x ≡ none) (passed_inj (sym e ∙ q)) k, r))))
          | inr (d, k) ↦
              subst (λ a. Run v G w a) (sym (rw (e, aggregate_step, k) refl))
                (Run-map v (P d) G w _ (λ g p. (d, (z, e, k), p))
                  (λ g (c, (y, q, r), p).
                    subst (λ x. P x g)
                      (some_inj (
                        sym r
                        ∙ subst (λ x. bind_aggregate l b x ≡ some d) (passed_inj (sym e ∙ q)) k))
                      p)
                  (does d w))
        ]
      ]

  negated-Run :
      (t : Bool) (w : Work) → Run v (Test (t ≡ true)) w (if t then next b w else (true, w))
  negated-Run true w = Test-Run (true ≡ true) refl w w (refl, refl)
  negated-Run false w = skip-Run (false ≡ true) (λ e. cc) w w (refl, refl)

  kind-Run :
      (rule : Rule) (t : Bool) (k : LiteralKind) (w : Work)
      → Run v
          (λ g. (c : Bindings) × KindStep k v rule l t b c × P c g)
          w
          (solve_kind k v rule l t next b w)
  unfolding solve_kind Test
  kind-Run rule t atom w = atom_step-Run t w
  kind-Run rule t comparison w = comparison-Run rule (comparison_result rule l b) w refl
  kind-Run rule t filter w = filter-Run w
  kind-Run rule t negated_atom w = negated-Run (solve_negated_literal v l b) w
  kind-Run rule t LiteralKind.count w = aggregate_step-Run w
  kind-Run rule t LiteralKind.min w = aggregate_step-Run w
  kind-Run rule t LiteralKind.max w = aggregate_step-Run w
  kind-Run rule t LiteralKind.sum w = aggregate_step-Run w

  pub solve_literal-Run :
      (rule : Rule) (t : Bool) (w : Work)
      → Run v
          (λ g. (c : Bindings) × KindStep l.kind v rule l t b c × P c g)
          w
          (solve_literal v rule l t next b w)
  unfolding solve_literal
  solve_literal-Run rule t w = kind-Run rule t l.kind w
