-- ===== src/Solver/Solve/Reading.antt =====
-- Bindings that a chain of literals leads to satisfy the literals.
use maelys_datalog.Prelude.{
  ℕ, Bool, true, false, List, [], ◌∷◌, Option, some, ◌≡◌, inl, inr, refl, sym, ◌∙◌, subst, arith,
  get_elem?, In, Bool-cases, Option-cases, passed, leb, some_inj,
}
use maelys_datalog.Bounds.{max_predicates}
use maelys_datalog.Fact.{Fact}
use maelys_datalog.Registry.{Entry, registry_get, has_flag, kind_idb}
use maelys_datalog.Solver.{Literal, Rule, Ruleset, View, compare_true, unbound_variable}
use maelys_datalog.Solver.Comparing.{comparison_result, instantiate_comparison_term, stopped}
use maelys_datalog.Solver.Comparing.Settled.{instantiate-Settled, comparison_result_settled}
use maelys_datalog.Solver.Derive.{idb_window, is_at}
use maelys_datalog.Solver.Derive.Reads.{Reads, FilterStep, KindStep, LiteralStep, Chain}
use maelys_datalog.Solver.Filters.{FilterCall, filter_call, filter_program_resolve}
use maelys_datalog.Solver.Matching.{Bindings}
use maelys_datalog.Solver.Matching.Exact.{
  Extends, Extends_trans, match_terms-Matches, instantiate_terms_mono,
}
use maelys_datalog.Solver.Plan.{literal_delta_eligible}
use maelys_datalog.Solver.Ranges.{build_edb_ranges}
use maelys_datalog.Solver.Ranges.Exact.{edb_slice_exact}
use maelys_datalog.Solver.Solve.Meaning.{Facts, Source, KindHolds, Holds, IsPositive}
use maelys_datalog.Strata.{LiteralKind, atom, comparison, negated_atom, filter}
use maelys_datalog.Symbols.{SymbolTable}

-- A state of the rounds.
pub record IsFlat (v : View) : Type 0 where
  pub unstratified : v.stratified ≡ false
  pub ranges : build_edb_ranges v.edb_snapshot ≡ passed v.edb_ranges
  pub delta_accepted : (f : Fact) → In f v.delta → In f v.accepted

filter_unbound :
    (r : Ruleset) (symbols : SymbolTable) (l : Literal) (b : Bindings) (x : FilterCall)
    → instantiate_comparison_term b l.filter_value ≡ stopped unbound_variable
    → filter_call r symbols l b ≡ passed x
    → ⊥
unfolding filter_call
filter_unbound r symbols l b x e h = elim (Option-cases (filter_program_resolve r l)) [
  | inl n ↦ cc (rw (n, filter_call) at h)
  | inr (p, n) ↦ cc (rw (n, filter_call, e) at h)
]

pub filter_same :
    (r : Ruleset) (symbols : SymbolTable) (l : Literal) (b c : Bindings)
    → instantiate_comparison_term b l.filter_value ≡ instantiate_comparison_term c l.filter_value
    → filter_call r symbols l b ≡ filter_call r symbols l c
unfolding filter_call
filter_same r symbols l b c e = rw (e, filter_call) refl

FilterStep-mono :
    (r : Ruleset) (symbols : SymbolTable) (l : Literal) (b c : Bindings)
    → Extends b c
    → FilterStep r symbols l b
    → FilterStep r symbols l c
FilterStep-mono r symbols l b c e (cost, h) = elim (instantiate-Settled b c l.filter_value e) [
  | inl n ↦ absurd (filter_unbound r symbols l b (cost, passed true) n h)
  | inr q ↦ (cost, sym (filter_same r symbols l b c q) ∙ h)
]

comparison_mono :
    (rule : Rule) (l : Literal) (b c : Bindings)
    → Extends b c
    → comparison_result rule l b ≡ compare_true
    → comparison_result rule l c ≡ compare_true
comparison_mono rule l b c e h = elim (comparison_result_settled b c rule l e) [
  | inl n ↦ absurd (cc (n, h))
  | inr q ↦ sym q ∙ h
]

-- What holds under some bindings holds under those that extend them.
pub KindHolds-mono :
    (k : LiteralKind) (v : View) (X : Facts) (rule : Rule) (b c : Bindings) (l : Literal)
    → Extends b c
    → KindHolds k v X rule b l
    → KindHolds k v X rule c l
KindHolds-mono atom v X rule b c l e (def, q, f, s, (p, h)) =
    (def, q, f, s, (p, instantiate_terms_mono b c l.atom.terms f.terms e h))
KindHolds-mono comparison v X rule b c l e h = comparison_mono rule l b c e h
KindHolds-mono filter v X rule b c l e h = FilterStep-mono v.the_ruleset v.symbols l b c e h
KindHolds-mono negated_atom v X rule b c l e h = h
KindHolds-mono LiteralKind.count v X rule b c l e h = h
KindHolds-mono LiteralKind.min v X rule b c l e h = h
KindHolds-mono LiteralKind.max v X rule b c l e h = h
KindHolds-mono LiteralKind.sum v X rule b c l e h = h

pub idb_window-accepted :
    (v : View) (pid : ℕ) (facts : List Fact)
    → v.stratified ≡ false
    → idb_window v pid ≡ passed facts
    → v.accepted ≡ facts
unfolding idb_window
idb_window-accepted v pid facts s h = elim (Bool-cases (leb max_predicates pid)) [
  | inl t ↦ absurd (cc (rw (t) at h))
  | inr t ↦ let q = rw (t, s) at h in ground arith
]

-- The set of the accepted facts.
abbrev pub Accepted : View → Facts
Accepted v f = In f v.accepted

-- A literal that reads the delta is one of a derived predicate.
abbrev pub DeltaIsDerived : View → Literal → Bool → Type 0
DeltaIsDerived v l is_delta = is_delta ≡ true → literal_delta_eligible v.the_ruleset l ≡ true

eligible-idb :
    (r : Ruleset) (l : Literal) (def : Entry)
    → literal_delta_eligible r l ≡ true
    → registry_get r.registry l.atom.predicate_id ≡ some def
    → has_flag def.kind_flags kind_idb ≡ true
unfolding literal_delta_eligible
eligible-idb r l def h e = ground arith

module _ (v : View) (flat : IsFlat v) where
  Reads-Source :
      (def : Entry) (l : Literal) (is_delta : Bool) (f : Fact)
      → registry_get v.the_ruleset.registry l.atom.predicate_id ≡ some def
      → DeltaIsDerived v l is_delta
      → Reads v def l is_delta f
      → Source v (Accepted v) def f
  Reads-Source def l true f e d m =
      inr (inr (eligible-idb v.the_ruleset l def (d refl) e, flat.delta_accepted f m))
  Reads-Source def l false f e d (inl m) = inl m
  Reads-Source def l false f e d (inr (inl (flag, m))) =
      inr (inl (flag, ((edb_slice_exact v flat.ranges l.atom.predicate_id f).0 m).0))
  Reads-Source def l false f e d (inr (inr (flag, (facts, w, m)))) = inr (
      inr (
        flag,
        subst (In f) (sym (idb_window-accepted v l.atom.predicate_id facts flat.unstratified w)) m,
      ))

  KindStep-Holds :
      (k : LiteralKind) (rule : Rule) (l : Literal) (is_delta : Bool) (b c : Bindings)
      → IsPositive k
      → DeltaIsDerived v l is_delta
      → KindStep k v rule l is_delta b c
      → Extends b c × KindHolds k v (Accepted v) rule c l
  KindStep-Holds atom rule l is_delta b c p d (def, e, f, m, meets) =
      let (ext, inst) =
        match_terms-Matches b l.atom.terms f.terms c (sym meets.arity) meets.bindings in
      (ext, (def, e, f, Reads-Source def l is_delta f e d m, (meets.predicate, inst)))
  KindStep-Holds comparison rule l is_delta b c p d (h, e) =
      (subst (Extends b) e (λ u t q. q), subst (λ x. comparison_result rule l x ≡ compare_true) e h)
  KindStep-Holds filter rule l is_delta b c p d (h, e) =
      (subst (Extends b) e (λ u t q. q), subst (FilterStep v.the_ruleset v.symbols l) e h)
  KindStep-Holds negated_atom rule l is_delta b c p d h = absurd p
  KindStep-Holds LiteralKind.count rule l is_delta b c p d h = absurd p
  KindStep-Holds LiteralKind.min rule l is_delta b c p d h = absurd p
  KindStep-Holds LiteralKind.max rule l is_delta b c p d h = absurd p
  KindStep-Holds LiteralKind.sum rule l is_delta b c p d h = absurd p

  -- The step that a chain makes at one of its places, and how it goes on.
  pub Chain-step :
      (rule : Rule) (delta : Option ℕ) (order : List ℕ) (b c : Bindings)
      → ((i : ℕ) (l : Literal) → get_elem? rule.body i ≡ some l → IsPositive l.kind)
      → ((i : ℕ) (l : Literal)
          → get_elem? rule.body i ≡ some l
          → DeltaIsDerived v l (is_at delta i))
      → Chain v rule delta order b c
      → Extends b c
        × ((i : ℕ)
            → In i order
            → (m : Bindings) × (n : Bindings) × LiteralStep v rule delta i m n × Extends n c)
  Chain-step rule delta [] b c p d e = (subst (Extends b) e (λ u t q. q), λ i m. absurd m)
  Chain-step rule delta (j ∷ order) b c p d (n, (l, e, s), rest) =
      let first = KindStep-Holds l.kind rule l (is_at delta j) b n (p j l e) (d j l e) s in
      let (ext, steps) = Chain-step rule delta order n c p d rest in
      (
        Extends_trans b n c first.0 ext,
        λ i m. elim m [
          | inr k ↦ steps i k
          | inl same ↦
              (b, n, subst (λ (x : ℕ). LiteralStep v rule delta x b n) (sym same) (l, e, s), ext)
        ],
      )

  pub LiteralStep-Holds :
      (rule : Rule) (delta : Option ℕ) (i : ℕ) (l : Literal) (m n c : Bindings)
      → get_elem? rule.body i ≡ some l
      → IsPositive l.kind
      → DeltaIsDerived v l (is_at delta i)
      → LiteralStep v rule delta i m n
      → Extends n c
      → Holds v (Accepted v) rule c l
  LiteralStep-Holds rule delta i l m n c e p d (k, q, s) ext =
      let at_l =
        subst (λ x. KindStep x.kind v rule x (is_at delta i) m n) (some_inj (sym q ∙ e)) s in
      KindHolds-mono l.kind v (Accepted v) rule n c l ext
        (KindStep-Holds l.kind rule l (is_at delta i) m n p d at_l).1
