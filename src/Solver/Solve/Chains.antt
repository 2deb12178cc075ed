-- ===== src/Solver/Solve/Chains.antt =====
-- Bindings that satisfy a body are reached, along any order in which every literal is safe where
-- it stands.
use maelys_datalog.Prelude.{
  ℕ, suc, ◌<◌, Bool, true, false, List, [], ◌∷◌, Option, some, ◌≡◌, inl, inr, refl, sym, ◌∙◌, subst,
  arith, ap, length, get_elem?, In, Bool-cases, Option-cases, passed, ltb, leb, ◌==◌, some_inj,
  and_true,
}
use maelys_datalog.Bounds.{max_predicates, max_arity}
use maelys_datalog.Fact.{Term, symbol, integer, boolean, variable, Fact}
use maelys_datalog.Registry.{Registry, Entry, registry_get}
use maelys_datalog.Solver.{Literal, Rule, View, Mask}
use maelys_datalog.Solver.Derive.{idb_window, is_at}
use maelys_datalog.Solver.Derive.Reads.{InSources, Reads, KindStep, Chain}
use maelys_datalog.Solver.Derive.Runs.{IsKnown}
use maelys_datalog.Solver.Matching.{
  Bindings, no_variables, instantiate_terms, fact_structurally_valid,
}
use maelys_datalog.Solver.Matching.Exact.{
  Extends, match_terms-Matches, match_terms-found, instantiate_terms-some,
}
use maelys_datalog.Solver.Plan.{
  union, mask_at, variable_bit, terms_mask, literal_var_mask, literal_safe, comparison_safe,
  comparison_term_safe,
}
use maelys_datalog.Solver.Plan.Complete.{SafeAlong}
use maelys_datalog.Solver.Ranges.Exact.{edb_slice_exact}
use maelys_datalog.Solver.Solve.Covers.{
  IsBound, Covered, Covered-empty, Covered-union, terms-Covered, comparison_same, value_same,
}
use maelys_datalog.Solver.Solve.Meaning.{Source, IsInstance, KindHolds, Holds}
use maelys_datalog.Solver.Solve.Reading.{IsFlat, Accepted, filter_same}
use maelys_datalog.Strata.{LiteralKind, atom, comparison, negated_atom, filter}

-- Every fact that an atom can read has passed the check of its structure.
pub record IsReadable (v : View) : Type 0 where
  pub policy :
      (f : Fact)
      → In f v.the_ruleset.facts
      → fact_structurally_valid v.the_ruleset.registry f ≡ true
  pub snapshot :
      (f : Fact)
      → In f v.edb_snapshot.facts
      → fact_structurally_valid v.the_ruleset.registry f ≡ true
  pub derived : (f : Fact) → In f v.accepted → IsKnown v f

valid-constants :
    (r : Registry) (f : Fact) → fact_structurally_valid r f ≡ true → no_variables f.terms ≡ true
unfolding fact_structurally_valid
valid-constants r f h = elim (Bool-cases (ltb max_arity (length f.terms))) [
  | inl t ↦ absurd (cc (rw t at h))
  | inr t ↦ elim (Option-cases (registry_get r f.predicate_id)) [
    | inl n ↦ absurd (cc (rw (t, n) at h))
    | inr (d, n) ↦ (and_true (length f.terms == d.arity) (no_variables f.terms) (rw (t, n) at h)).1
  ]
]

length-instantiate :
    (b : Bindings) (ps ts : List Term) → instantiate_terms b ps ≡ some ts → length ts ≡ length ps
unfolding instantiate_terms
length-instantiate b [] ts h = let e : [] ≡ ts = some_inj h in rw (← e) refl
length-instantiate b (p ∷ ps) us h =
    let (t, ts, eq, k, ks) = instantiate_terms-some b p ps us h in
    rw eq (ap suc (length-instantiate b ps ts ks))

window-accepted :
    (v : View) (pid : ℕ)
    → v.stratified ≡ false
    → pid < max_predicates
    → idb_window v pid ≡ passed v.accepted
unfolding idb_window
window-accepted v pid s h = let t : leb max_predicates pid ≡ false = ground arith in rw (t, s) refl

Covered-Extends : (m : Mask) (b c : Bindings) → Extends b c → Covered m b → Covered m c
Covered-Extends m b c e k u h =
    let x = k u h in
    record {
      term = x.term;
      bound_to = e u x.term x.bound_to;
      constant = x.constant;
      in_range = x.in_range;
    }

bit-Covered :
    (m : Mask) (b : Bindings)
    → Covered m b
    → (t : Term) → comparison_term_safe t m ≡ true
    → Covered (variable_bit t) b
unfolding comparison_term_safe
bit-Covered m b cov (symbol x) safe = Covered-empty b
bit-Covered m b cov (integer x) safe = Covered-empty b
bit-Covered m b cov (boolean x) safe = Covered-empty b
bit-Covered m b cov (variable v) safe = λ u h.
    let parts = and_true (ltb v 64) (m v) safe in
    let same : v ≡ u = let q = rw parts.0 at h in ground arith in
    subst (IsBound b) same (cov v parts.1)

-- Where the literal that reads the delta finds its fact.
abbrev pub InDelta : View → Bindings → Literal → Type 0
InDelta v s l =
    (def : Entry) × (registry_get v.the_ruleset.registry l.atom.predicate_id ≡ some def)
    × (l.kind ≡ atom)
    × (f : Fact) × In f v.delta
    × IsInstance l s f

-- A step that is found for a literal, and the bindings after it.
record Found (v : View) (rule : Rule) (l : Literal) (is_delta : Bool) (bound : Mask)
    (b s : Bindings) (k : LiteralKind) : Type 0 where
  after : Bindings
  step : KindStep k v rule l is_delta b after
  below : Extends after s
  covers : Covered (union bound (literal_var_mask l)) after

module _ (v : View) (flat : IsFlat v) (readable : IsReadable v) where
  delta_valid : (f : Fact) → In f v.delta → fact_structurally_valid v.the_ruleset.registry f ≡ true
  delta_valid f m = (readable.derived f (flat.delta_accepted f m)).0

  Source-InSources :
      (def : Entry) (l : Literal) (f : Fact)
      → f.predicate_id ≡ l.atom.predicate_id
      → Source v (Accepted v) def f
      → InSources v def l f
  Source-InSources def l f e (inl m) = inl m
  Source-InSources def l f e (inr (inl (flag, m))) =
      inr (inl (flag, (edb_slice_exact v flat.ranges l.atom.predicate_id f).1 (m, e)))
  Source-InSources def l f e (inr (inr (flag, m))) =
      let lt = (readable.derived f m).1 in
      inr (
        inr (
          flag,
          (v.accepted, window-accepted v l.atom.predicate_id flat.unstratified (omega arith), m),
        ))

  Source-valid :
      (def : Entry) (f : Fact)
      → Source v (Accepted v) def f
      → fact_structurally_valid v.the_ruleset.registry f ≡ true
  Source-valid def f (inl (flag, m)) = readable.policy f m
  Source-valid def f (inr (inl (flag, m))) = readable.snapshot f m
  Source-valid def f (inr (inr (flag, m))) = (readable.derived f m).0

  atom-Found :
      (rule : Rule) (l : Literal) (is_delta : Bool) (bound : Mask) (b s : Bindings) (def : Entry)
      (f : Fact)
      → l.kind ≡ atom
      → Covered bound b
      → Extends b s
      → registry_get v.the_ruleset.registry l.atom.predicate_id ≡ some def
      → Reads v def l is_delta f
      → fact_structurally_valid v.the_ruleset.registry f ≡ true
      → IsInstance l s f
      → Found v rule l is_delta bound b s atom
  unfolding literal_var_mask
  atom-Found rule l is_delta bound b s def f ka cov ext e reads valid (pid, inst) =
      let constants = valid-constants v.the_ruleset.registry f valid in
      let (c, matched, below) = match_terms-found b s l.atom.terms f.terms ext inst constants in
      let arity = length-instantiate s l.atom.terms f.terms inst in
      let (grows, inst_c) = match_terms-Matches b l.atom.terms f.terms c (sym arity) matched in
      let mask : literal_var_mask l ≡ terms_mask l.atom.terms = rw (ka, literal_var_mask) refl in
      record {
        after = c;
        step = (
          def,
          e,
          f,
          reads,
          record { valid = valid; predicate = pid; arity = arity; bindings = matched },
        );
        below = below;
        covers = Covered-union bound (literal_var_mask l) c (Covered-Extends bound b c grows cov) (
            subst (λ m. Covered m c) (sym mask)
              (terms-Covered c l.atom.terms f.terms inst_c constants));
      }

  kind-Found :
      (k : LiteralKind) (rule : Rule) (l : Literal) (is_delta : Bool) (bound : Mask)
      (b s : Bindings)
      → l.kind ≡ k
      → Covered bound b
      → Extends b s
      → literal_safe rule l bound ≡ true
      → KindHolds k v (Accepted v) rule s l
      → (is_delta ≡ true → InDelta v s l)
      → Found v rule l is_delta bound b s k
  unfolding literal_safe literal_var_mask
  kind-Found atom rule l false bound b s e cov ext safe (def, q, f, src, inst) d =
      atom-Found rule l false bound b s def f e cov ext q (Source-InSources def l f inst.0 src)
        (Source-valid def f src) inst
  kind-Found atom rule l true bound b s e cov ext safe h d =
      let (def, q, ka, f, m, inst) = d refl in
      atom-Found rule l true bound b s def f e cov ext q m (delta_valid f m) inst
  kind-Found comparison rule l is_delta bound b s e cov ext safe h d =
      let mask : literal_var_mask l ≡ (λ u. false) = rw (e, literal_var_mask) refl in
      let is_safe : comparison_safe rule l bound ≡ true = rw (e, literal_safe) at safe in
      record {
        after = b;
        step = (comparison_same bound b cov rule l s is_safe ext ∙ h, refl);
        below = ext;
        covers =
            Covered-union bound (literal_var_mask l) b cov
              (subst (λ m. Covered m b) (sym mask) (Covered-empty b));
      }
  kind-Found filter rule l is_delta bound b s e cov ext safe (cost, h) d =
      let mask : literal_var_mask l ≡ variable_bit l.filter_value = rw (e, literal_var_mask) refl in
      let is_safe : comparison_term_safe l.filter_value bound ≡ true =
        rw (e, literal_safe) at safe in
      let same = value_same bound b cov l.filter_value s is_safe ext in
      record {
        after = b;
        step = ((cost, filter_same v.the_ruleset v.symbols l b s same ∙ h), refl);
        below = ext;
        covers =
            Covered-union bound (literal_var_mask l) b cov (
              subst (λ m. Covered m b) (sym mask) (bit-Covered bound b cov l.filter_value is_safe));
      }
  kind-Found negated_atom rule l is_delta bound b s e cov ext safe h d = absurd h
  kind-Found LiteralKind.count rule l is_delta bound b s e cov ext safe h d = absurd h
  kind-Found LiteralKind.min rule l is_delta bound b s e cov ext safe h d = absurd h
  kind-Found LiteralKind.max rule l is_delta bound b s e cov ext safe h d = absurd h
  kind-Found LiteralKind.sum rule l is_delta bound b s e cov ext safe h d = absurd h

  pub Chain-found :
      (rule : Rule) (delta : Option ℕ) (order : List ℕ) (bound : Mask) (b s : Bindings)
      → SafeAlong rule bound order
      → Covered bound b
      → Extends b s
      → ((i : ℕ) (l : Literal) → get_elem? rule.body i ≡ some l → Holds v (Accepted v) rule s l)
      → ((i : ℕ) (l : Literal)
          → get_elem? rule.body i ≡ some l
          → is_at delta i ≡ true
          → InDelta v s l)
      → (c : Bindings) × Chain v rule delta order b c × Extends c s
  Chain-found rule delta [] bound b s safe cov ext h d = (b, refl, ext)
  Chain-found rule delta (i ∷ order) bound b s ((l, e, is_safe), safe) cov ext h d =
      let found =
        kind-Found l.kind rule l (is_at delta i) bound b s refl cov ext is_safe (h i l e)
          (d i l e) in
      let mask : literal_var_mask l ≡ mask_at rule i = rw (e, mask_at) refl in
      let (c, chain, last) =
        Chain-found rule delta order (union bound (mask_at rule i)) found.after s safe
          (subst (λ m. Covered (union bound m) found.after) mask found.covers) found.below h d in
      (c, (found.after, (l, e, found.step), chain), last)
