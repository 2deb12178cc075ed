-- ===== src/Edb/TextBatch.antt =====
-- Batches of texts: the facts are inserted as a whole or not at all, and interning only grows the
-- symbol table.
use maelys_datalog.Prelude.{
  Checked-cases, ℕ, Bool, true, false, List, [], ◌∷◌, some, ◌≡◌, ◌≢◌, ◌↔◌, ◌⊎◌, inl, inr, refl, sym,
  ◌∙◌, ap, subst, arith, length, In, Bytes, Rc, ok, invalid_state, payload_too_large, ltb, refused,
  ◌>>◌, if◌then◌else◌,
}
use maelys_datalog.Bounds.{max_edb_facts}
use maelys_datalog.Fact.{Fact}
use maelys_datalog.Symbols.{SymbolTable, symbol_intern, symbol_text}
use maelys_datalog.Symbols.Invariant
use maelys_datalog.Symbols.Intern.{symbol_intern-IsValid, symbol_intern-text, symbol_intern_keeps}
use maelys_datalog.Edb.{
  Edb, facts, symbol_rows, edb_predicate, edb_add_symbol_id_facts, edb_intern_runtime_symbol,
  validate_edb_symbol_batch_target, refuse_if,
}
use maelys_datalog.Edb.Invariant.{IsValid, IsTarget}
use maelys_datalog.Edb.Batch.{
  row_facts, IsTarget-same, rejected, empty, inserted, edb_add_symbol_id_facts-Outcome,
}
use maelys_datalog.Edb.Text.{intern_all, after_interning, edb_add_runtime_symbol_facts}

-- The identifiers stand for the texts, one by one.
abbrev pub Stand : SymbolTable → List ℕ → List Bytes → Type 0
Stand t [] [] = Unit
Stand t (id ∷ ids) (text ∷ texts) = (symbol_text t id ≡ some text) × Stand t ids texts
Stand t _ _ = ⊥

-- Every identifier of the one table stands for the same text in the other.
abbrev pub Keeps : SymbolTable → SymbolTable → Type 0
Keeps t u = (id : ℕ) (x : Bytes) → symbol_text t id ≡ some x → symbol_text u id ≡ some x

Stand-Keeps :
    (t u : SymbolTable) (ids : List ℕ) (texts : List Bytes)
    → Keeps t u
    → Stand t ids texts
    → Stand u ids texts
Stand-Keeps t u [] [] k s = tt
Stand-Keeps t u [] (x ∷ texts) k s = s
Stand-Keeps t u (id ∷ ids) [] k s = s
Stand-Keeps t u (id ∷ ids) (x ∷ texts) k s = (k id x s.0, Stand-Keeps t u ids texts k s.1)

-- Interning leaves the facts alone.
pub record Grows (e e' : Edb) : Type 0 where
  pub same : e' ≡ record e { symbols = e'.symbols }
  pub valid : Invariant.IsValid e'.symbols
  pub keeps : Keeps e.symbols e'.symbols

Grows-trans : (a b c : Edb) → Grows a b → Grows b c → Grows a c
Grows-trans a b c g h = record {
  same = h.same ∙ ap (λ (x : Edb). record x { symbols = c.symbols }) g.same;
  valid = h.valid;
  keeps = λ id x e. h.keeps id x (g.keeps id x e);
}

with_text :
    (e : Edb) (text : Bytes)
    → Invariant.IsValid e.symbols
    → Grows e (record e { symbols = (symbol_intern e.symbols text).1 })
with_text e text v = record {
  same = refl;
  valid = symbol_intern-IsValid e.symbols text v;
  keeps = symbol_intern_keeps e.symbols text v;
}

Grows-refl : (e : Edb) → Invariant.IsValid e.symbols → Grows e e
Grows-refl e v = record { same = refl; valid = v; keeps = λ id x h. h }

-- What interning one text does.
record InternsOne (e : Edb) (text : Bytes) (r : Rc × Edb × ℕ) : Type 0 where
  grows : Grows e r.1
  stands : r.0 ≡ ok → symbol_text r.1.symbols r.2 ≡ some text

intern-InternsOne :
    (e : Edb) (text : Bytes)
    → Invariant.IsValid e.symbols
    → InternsOne e text (edb_intern_runtime_symbol e text)
unfolding edb_intern_runtime_symbol
intern-InternsOne e text v = go e.immutable
  where
    go :
        (b : Bool)
        → InternsOne e text (
            if b
            then (let r : Rc × Edb × ℕ = (invalid_state, e, 0) in r)
            else (let r : Rc × Edb × ℕ = (
              (symbol_intern e.symbols text).0,
              record e { symbols = (symbol_intern e.symbols text).1 },
              (symbol_intern e.symbols text).2,
            ) in
                r))
    go true = record { grows = Grows-refl e v; stands = λ h. cc }
    go false = record {
      grows = with_text e text v;
      stands = λ h. (symbol_intern-text e.symbols text v h).0;
    }

record InternsAll (e : Edb) (texts : List Bytes) (r : Rc × Edb × List ℕ) : Type 0 where
  grows : Grows e r.1
  stand : r.0 ≡ ok → Stand r.1.symbols r.2 texts

-- The end of a round of the interning loop.
abbrev round : Rc → Edb → ℕ → Rc × Edb × List ℕ → Rc × Edb × List ℕ
round rc e' id rest = elim rc [ ok ↦ (rest.0, rest.1, id ∷ rest.2) | failed ↦ (failed, e', []) ]

round-InternsAll :
    (e : Edb) (text : Bytes) (texts : List Bytes) (rc : Rc) (e' : Edb) (id : ℕ)
    (rest : Rc × Edb × List ℕ)
    → InternsOne e text (rc, e', id)
    → InternsAll e' texts rest
    → InternsAll e (text ∷ texts) (round rc e' id rest)
round-InternsAll e text texts ok e' id rest one all = record {
  grows = Grows-trans e e' rest.1 one.grows all.grows;
  stand = λ h. (all.grows.keeps id text (one.stands refl), all.stand h);
}
round-InternsAll e text texts rc e' id rest one all = record { grows = one.grows; stand = λ h. cc }

intern_all-InternsAll :
    (texts : List Bytes) (e : Edb)
    → Invariant.IsValid e.symbols
    → InternsAll e texts (intern_all e texts)
unfolding intern_all
intern_all-InternsAll [] e v = record { grows = Grows-refl e v; stand = λ h. tt }
intern_all-InternsAll (text ∷ texts) e v =
    let one = intern-InternsOne e text v in
    let r = edb_intern_runtime_symbol e text in
    round-InternsAll e text texts r.0 r.1 r.2 (intern_all r.1 texts) one
      (intern_all-InternsAll texts r.1 one.grows.valid)

Grows-IsValid : (e e' : Edb) → Grows e e' → IsValid e → IsValid e'
Grows-IsValid e e' g v = subst IsValid (sym g.same) (record {
  within = v.within;
  bounded = v.bounded;
  counted = v.counted;
  capped = v.capped;
  ordered = v.ordered;
  distinct = v.distinct;
  declared = v.declared;
})

-- How a batch of texts ends: the facts are as before, or all facts of the batch are added, with the
-- identifier that the registry has for the predicate; and the symbol table has only grown.
pub data TextOutcome (e : Edb) (predicate : Bytes) (texts : List Bytes) (r : Rc × Edb)
    : Type 0 where
  kept : r.0 ≢ ok → Grows e r.1 → TextOutcome e predicate texts r
  none_given : texts ≡ [] → r ≡ (ok, e) → TextOutcome e predicate texts r
  added :
      (pid : ℕ) (ids : List ℕ)
      → IsTarget e predicate 1 pid
      → r.0 ≡ ok
      → IsValid r.1
      → Keeps e.symbols r.1.symbols
      → Stand r.1.symbols ids texts
      → ((g : Fact) → In g (facts r.1) ↔ (In g (row_facts pid (symbol_rows ids)) ⊎ In g (facts e)))
      → TextOutcome e predicate texts r

-- The insertion of interned identifiers.
ids-TextOutcome :
    (e e' : Edb) (predicate : Bytes) (text : Bytes) (texts : List Bytes) (ids : List ℕ)
    → IsValid e
    → Grows e e'
    → Stand e'.symbols ids (text ∷ texts)
    → TextOutcome e predicate (text ∷ texts) (edb_add_symbol_id_facts e' predicate ids)
ids-TextOutcome e e' predicate text texts [] v g s = absurd s
ids-TextOutcome e e' predicate text texts (id ∷ rest) v g s =
    let ids = id ∷ rest in
    elim (edb_add_symbol_id_facts-Outcome e' predicate ids (Grows-IsValid e e' g v)) [
      | rejected fails same ↦ kept fails (rw same g)
      | empty no_rows same ↦ absurd (cc (no_rows))
      | inserted pid target succeeds valid symbols members ↦
          added pid ids
            (IsTarget-same e' e predicate 1 pid (ap (λ x. x.immutable) (sym g.same))
              (ap (λ x. x.registry) (sym g.same)) target)
            succeeds valid (rw symbols g.keeps)
            (subst (λ t. Stand t (id ∷ rest) (text ∷ texts)) (sym symbols) s)
            (λ f.
              subst
                (λ (x : List Fact).
                  In f (facts (edb_add_symbol_id_facts e' predicate ids).1)
                  ↔ (In f (row_facts pid (symbol_rows ids)) ⊎ In f x))
                (ap facts g.same) (members f))
    ]

after_interning-TextOutcome :
    (e : Edb) (predicate : Bytes) (text : Bytes) (texts : List Bytes) (r : Rc × Edb × List ℕ)
    → IsValid e
    → InternsAll e (text ∷ texts) r
    → TextOutcome e predicate
        (text ∷ texts)
        (after_interning (λ e' ids. edb_add_symbol_id_facts e' predicate ids) r)
after_interning-TextOutcome e predicate text texts (ok, e', ids) v all =
    ids-TextOutcome e e' predicate text texts ids v all.grows (all.stand refl)
after_interning-TextOutcome e predicate text texts (rc, e', ids) v all = kept (λ h. cc) all.grows

text_target-ne-ok :
    (e : Edb) (predicate : Bytes) (n : ℕ) (rc : Rc)
    → (refuse_if (ltb max_edb_facts n) payload_too_large
        >> validate_edb_symbol_batch_target e predicate 1 n)
      ≡ refused rc
    → rc ≢ ok
unfolding validate_edb_symbol_batch_target edb_predicate
text_target-ne-ok e predicate n rc h = ground arith

-- `maelys_datalog_edb_add_runtime_symbol_facts` on a valid EDB with a valid symbol table returns an
-- error and leaves the facts as they were, or returns OK: without texts the EDB is as it was, and
-- otherwise the predicate is a declared EDB predicate of arity 1, the EDB was not finalized, and
-- exactly the facts of this predicate whose arguments stand for the texts are added. Every older
-- symbol keeps its text.
pub edb_add_runtime_symbol_facts-TextOutcome :
    (e : Edb) (predicate : Bytes) (texts : List Bytes)
    → IsValid e
    → Invariant.IsValid e.symbols
    → TextOutcome e predicate texts (edb_add_runtime_symbol_facts e predicate texts)
unfolding edb_add_runtime_symbol_facts
edb_add_runtime_symbol_facts-TextOutcome e predicate [] v s = none_given refl refl
edb_add_runtime_symbol_facts-TextOutcome e predicate (t ∷ ts) v s =
    elim (Checked-cases (
      refuse_if (ltb max_edb_facts (length (t ∷ ts))) payload_too_large
      >> validate_edb_symbol_batch_target e predicate 1 (length (t ∷ ts)))) [
        | inl (rc, h) ↦
            rw h (kept (text_target-ne-ok e predicate (length (t ∷ ts)) rc h) (Grows-refl e s))
        | inr (u, h) ↦ rw h (
            after_interning-TextOutcome e predicate t ts (intern_all e (t ∷ ts)) v
              (intern_all-InternsAll (t ∷ ts) e s))
      ]
