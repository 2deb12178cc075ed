-- ===== src/Solver/Matching/Exact.antt =====
-- The match of an atom with a fact finds the least bindings under which the atom is the fact.
use maelys_datalog.Prelude.{
  ℕ, true, false, List, [], ◌∷◌, none, some, ◌≡◌, refl, arith, ap, inl, inr, Bool-cases,
  Option-cases, some_inj, sym, ◌∙◌, subst, length, leb, ◌==◌, if◌then◌else◌,
}
use maelys_datalog.Bounds.{max_rule_variables}
use maelys_datalog.Fact.{Term, symbol, integer, boolean, variable, term_equal}
use maelys_datalog.Fact.Order.{compare_ℤ-equal, compare_ℤ_self}
use maelys_datalog.Solver.Matching.{
  Bindings, set_bound, bind_variable, bind_or_match, match_terms, instantiate_term,
  instantiate_terms, is_variable, no_variables,
}

-- What is bound stays bound to the same term.
abbrev pub Extends : Bindings → Bindings → Type 0
Extends b c = (v : ℕ) (t : Term) → b v ≡ some t → c v ≡ some t

pub Extends_trans : (a b c : Bindings) → Extends a b → Extends b c → Extends a c
Extends_trans a b c h k v t e = k v t (h v t e)

pub term_equal-eq : (a b : Term) → term_equal a b ≡ true → a ≡ b
unfolding term_equal
term_equal-eq (symbol a) (symbol b) h = ground arith
term_equal-eq (integer a) (integer b) h = ground (arith, compare_ℤ-equal a b)
term_equal-eq (boolean true) (boolean true) h = refl
term_equal-eq (boolean true) (boolean false) h = cc
term_equal-eq (boolean false) (boolean true) h = cc
term_equal-eq (boolean false) (boolean false) h = refl
term_equal-eq (symbol a) (integer b) h = cc
term_equal-eq (symbol a) (boolean b) h = cc
term_equal-eq (symbol a) (variable b) h = cc
term_equal-eq (integer a) (symbol b) h = cc
term_equal-eq (integer a) (boolean b) h = cc
term_equal-eq (integer a) (variable b) h = cc
term_equal-eq (boolean a) (symbol b) h = cc
term_equal-eq (boolean a) (integer b) h = cc
term_equal-eq (boolean a) (variable b) h = cc
term_equal-eq (variable a) b h = cc

pub term_equal_self : (a : Term) → is_variable a ≡ false → term_equal a a ≡ true
unfolding term_equal
term_equal_self (symbol a) h = ground arith
term_equal_self (integer a) h = rw (compare_ℤ_self a, term_equal)
term_equal_self (boolean true) h = refl
term_equal_self (boolean false) h = refl
term_equal_self (variable a) h = cc

-- What one variable's match says.
record Binds (b : Bindings) (p t : Term) (c : Bindings) : Type 0 where
  extends : Extends b c
  instance_of : instantiate_term c p ≡ some t

set_bound-extends : (b : Bindings) (v : ℕ) (t : Term) → b v ≡ none → Extends b (set_bound b v t)
set_bound-extends b v t e u s h = elim (Bool-cases (v == u)) [
  | inl q ↦ let same : v ≡ u = ground arith in absurd (cc (subst (λ (x : ℕ). b x ≡ none) same e, h))
  | inr q ↦ rw q h
]

bind_variable-Binds :
    (b : Bindings) (v : ℕ) (t : Term) (c : Bindings)
    → bind_variable b v t ≡ some c
    → Binds b (variable v) t c
unfolding bind_variable instantiate_term
bind_variable-Binds b v t c h = elim (Bool-cases (leb max_rule_variables v)) [
  | inl big ↦ absurd (cc (rw big at h))
  | inr small ↦ elim (Option-cases (b v)) [
    | inl free ↦
        let e : set_bound b v t ≡ c = some_inj (rw (small, free) at h) in
        subst (λ (x : Bindings). Binds b (variable v) t x) e
          (record { extends = set_bound-extends b v t free; instance_of = ground arith })
    | inr (s, taken) ↦ elim (Bool-cases (term_equal s t)) [
      | inl same ↦
          let e : b ≡ c = some_inj (rw (small, taken, same) at h) in
          subst (λ (x : Bindings). Binds b (variable v) t x) e
            (record {
              extends = λ u s e. e;
              instance_of = rw (small, taken) (ap (some) (term_equal-eq s t same));
            })
      | inr differs ↦ absurd (cc (rw (small, taken, differs) at h))
    ]
  ]
]

constant-Binds :
    (b : Bindings) (p t : Term) (c : Bindings)
    → instantiate_term b p ≡ some p
    → (if term_equal p t then some b else none) ≡ some c
    → Binds b p t c
constant-Binds b p t c i h = elim (Bool-cases (term_equal p t)) [
  | inl same ↦
      let e : b ≡ c = some_inj (rw same at h) in
      subst (λ (x : Bindings). Binds b p t x) e
        (record { extends = λ u s q. q; instance_of = i ∙ ap (some) (term_equal-eq p t same) })
  | inr differs ↦ absurd (cc (rw differs at h))
]

bind_or_match-Binds :
    (b : Bindings) (p t : Term) (c : Bindings) → bind_or_match b p t ≡ some c → Binds b p t c
unfolding bind_or_match instantiate_term
bind_or_match-Binds b (variable v) t c h = bind_variable-Binds b v t c h
bind_or_match-Binds b (symbol s) t c h = constant-Binds b (symbol s) t c refl h
bind_or_match-Binds b (integer z) t c h = constant-Binds b (integer z) t c refl h
bind_or_match-Binds b (boolean d) t c h = constant-Binds b (boolean d) t c refl h

pub instantiate_term_mono :
    (b c : Bindings) (p t : Term)
    → Extends b c
    → instantiate_term b p ≡ some t
    → instantiate_term c p ≡ some t
unfolding instantiate_term
instantiate_term_mono b c (symbol s) t e h = h
instantiate_term_mono b c (integer s) t e h = h
instantiate_term_mono b c (boolean s) t e h = h
instantiate_term_mono b c (variable v) t e h = elim (Bool-cases (leb max_rule_variables v)) [
  | inl big ↦ absurd (cc (rw big at h))
  | inr small ↦ rw small (e v t (rw small at h))
]

pub instantiate_terms-cons :
    (b : Bindings) (p : Term) (ps : List Term) (t : Term) (ts : List Term)
    → instantiate_term b p ≡ some t
    → instantiate_terms b ps ≡ some ts
    → instantiate_terms b (p ∷ ps) ≡ some (t ∷ ts)
unfolding instantiate_terms
instantiate_terms-cons b p ps t ts h k = rw (h, k, instantiate_terms) refl

-- The parts of an instance.
pub instantiate_terms-some :
    (b : Bindings) (p : Term) (ps us : List Term)
    → instantiate_terms b (p ∷ ps) ≡ some us
    → (t : Term) × (ts : List Term) × (us ≡ t ∷ ts)
      × (instantiate_term b p ≡ some t)
      × (instantiate_terms b ps ≡ some ts)
unfolding instantiate_terms
instantiate_terms-some b p ps us h = elim (Option-cases (instantiate_term b p)) [
  | inl e ↦ absurd (cc (rw (e, instantiate_terms) at h))
  | inr (t, e) ↦ elim (Option-cases (instantiate_terms b ps)) [
    | inl f ↦ absurd (cc (rw (e, f, instantiate_terms) at h))
    | inr (ts, f) ↦ (t, ts, sym (some_inj (rw (e, f, instantiate_terms) at h)), e, f)
  ]
]

instantiate_terms-empty : (b : Bindings) → instantiate_terms b [] ≡ some []
unfolding instantiate_terms
instantiate_terms-empty b = refl

instantiate_terms-nil :
    (b c : Bindings) (ts : List Term)
    → instantiate_terms b [] ≡ some ts
    → instantiate_terms c [] ≡ some ts
unfolding instantiate_terms
instantiate_terms-nil b c ts h = h

pub instantiate_terms_mono :
    (b c : Bindings) (ps ts : List Term)
    → Extends b c
    → instantiate_terms b ps ≡ some ts
    → instantiate_terms c ps ≡ some ts
instantiate_terms_mono b c [] ts e h = instantiate_terms-nil b c ts h
instantiate_terms_mono b c (p ∷ ps) us e h =
    let (t, ts, eq, k, ks) = instantiate_terms-some b p ps us h in
    rw eq (
      instantiate_terms-cons c p ps t ts (instantiate_term_mono b c p t e k)
        (instantiate_terms_mono b c ps ts e ks))

-- The loop, where the two lists have the same length.
pub match_terms-Matches :
    (b : Bindings) (ps ts : List Term) (c : Bindings)
    → length ps ≡ length ts
    → match_terms b ps ts ≡ some c
    → Extends b c × (instantiate_terms c ps ≡ some ts)
unfolding match_terms
match_terms-Matches b [] [] c l h =
    (subst (λ (x : Bindings). Extends b x) (some_inj h) (λ u s q. q), instantiate_terms-empty c)
match_terms-Matches b [] (t ∷ ts) c l h = absurd (omega arith)
match_terms-Matches b (p ∷ ps) [] c l h = absurd (omega arith)
match_terms-Matches b (p ∷ ps) (t ∷ ts) c l h = elim (Option-cases (bind_or_match b p t)) [
  | inl e ↦ absurd (cc (rw (e, match_terms) at h))
  | inr (d, e) ↦
      let one = bind_or_match-Binds b p t d e in
      let rest = match_terms-Matches d ps ts c (omega arith) (rw (e, match_terms) at h) in
      (
        Extends_trans b d c one.extends rest.0,
        instantiate_terms-cons c p ps t ts (instantiate_term_mono d c p t rest.0 one.instance_of)
            rest.1,
      )
]

set_bound-below :
    (b s : Bindings) (v : ℕ) (t : Term) → Extends b s → s v ≡ some t → Extends (set_bound b v t) s
set_bound-below b s v t e h u x k = elim (Bool-cases (v == u)) [
  | inl q ↦
      let same : v ≡ u = ground arith in
      let value : t ≡ x = some_inj (rw q at k) in rw (← same, ← value) h
  | inr q ↦ e u x (rw q at k)
]

no_variables-head :
    (t : Term) (ts : List Term) → no_variables (t ∷ ts) ≡ true → is_variable t ≡ false
unfolding no_variables
no_variables-head t ts h = ground arith

no_variables-tail :
    (t : Term) (ts : List Term) → no_variables (t ∷ ts) ≡ true → no_variables ts ≡ true
unfolding no_variables
no_variables-tail t ts h = ground arith

bind_or_match-found :
    (b s : Bindings) (p t : Term)
    → Extends b s
    → instantiate_term s p ≡ some t
    → is_variable t ≡ false
    → (c : Bindings) × (bind_or_match b p t ≡ some c) × Extends c s
unfolding bind_or_match bind_variable instantiate_term
bind_or_match-found b s (symbol x) t e h g =
    (b, rw (← some_inj h) (rw (term_equal_self (symbol x) refl) refl), e)
bind_or_match-found b s (integer x) t e h g =
    (b, rw (← some_inj h) (rw (term_equal_self (integer x) refl) refl), e)
bind_or_match-found b s (boolean x) t e h g =
    (b, rw (← some_inj h) (rw (term_equal_self (boolean x) refl) refl), e)
bind_or_match-found b s (variable v) t e h g = elim (Bool-cases (leb max_rule_variables v)) [
  | inl big ↦ absurd (cc (rw big at h))
  | inr small ↦ elim (Option-cases (b v)) [
    | inl free ↦ (set_bound b v t, rw (small, free) refl, set_bound-below b s v t e (rw small at h))
    | inr (u, taken) ↦
        let same : u ≡ t = some_inj (sym (e v u taken) ∙ (rw small at h)) in
        (b, rw (small, taken, same, term_equal_self t g) refl, e)
  ]
]

match_terms-cons :
    (b : Bindings) (p : Term) (ps : List Term) (t : Term) (ts : List Term) (d c : Bindings)
    → bind_or_match b p t ≡ some d
    → match_terms d ps ts ≡ some c
    → match_terms b (p ∷ ps) (t ∷ ts) ≡ some c
unfolding match_terms
match_terms-cons b p ps t ts d c f fs = rw (f, match_terms) fs

pub match_terms-found :
    (b s : Bindings) (ps ts : List Term)
    → Extends b s
    → instantiate_terms s ps ≡ some ts
    → no_variables ts ≡ true
    → (c : Bindings) × (match_terms b ps ts ≡ some c) × Extends c s
unfolding match_terms
match_terms-found b s [] ts e h g = (b, refl, e)
match_terms-found b s (p ∷ ps) us e h g =
    let (t, ts, eq, k, ks) = instantiate_terms-some s p ps us h in
    let ground_list = subst (λ x. no_variables x ≡ true) eq g in
    let (d, f, below) = bind_or_match-found b s p t e k (no_variables-head t ts ground_list) in
    let (c, fs, last) = match_terms-found d s ps ts below ks (no_variables-tail t ts ground_list) in
    (
      c,
      subst (λ x. match_terms b (p ∷ ps) x ≡ some c) (sym eq)
          (match_terms-cons b p ps t ts d c f fs),
      last,
    )

-- The match of an atom's terms with those of a fact of the same arity, which has no variables:
-- the bindings that it finds extend the given ones and make the atom the fact, and whatever
-- bindings extend the given ones and make the atom the fact extend what it then finds.
pub match_terms_least :
    (b : Bindings) (ps ts : List Term)
    → length ps ≡ length ts
    → no_variables ts ≡ true
    → ((c : Bindings)
        → match_terms b ps ts ≡ some c
        → Extends b c × (instantiate_terms c ps ≡ some ts))
      × ((s : Bindings)
          → Extends b s
          → instantiate_terms s ps ≡ some ts
          → (c : Bindings) × (match_terms b ps ts ≡ some c) × Extends c s)
match_terms_least b ps ts l g =
    (λ c h. match_terms-Matches b ps ts c l h, λ s e h. match_terms-found b s ps ts e h g)
