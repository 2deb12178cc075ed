-- ===== src/Edb/Text.antt =====
-- The insertions of src/core/maelys_datalog_edb.c that take pairs, texts and atoms.
use maelys_datalog.Prelude.{
  ℕ, ◌-◌, ◌/◌, ◌^◌, List, [], ◌∷◌, length, ltb, not, Bytes, Rc, ok, payload_too_large, forbidden,
  ◌>>◌,
}
use maelys_datalog.Bounds.{max_edb_facts}
use maelys_datalog.Fact.{Term, symbol}
use maelys_datalog.Registry.{registry_atom_allowed}
use maelys_datalog.Symbols.{symbol_intern}
use maelys_datalog.Edb.{
  Edb, edb_add_fact, add_rows, refuse_if, after_check, validate_edb_symbol_target,
  validate_edb_symbol_batch_target, validate_edb_symbol_capacity, validate_symbol_ids,
  edb_intern_runtime_symbol, edb_add_symbol_id_facts,
}

-- `SIZE_MAX` of a 64-bit `size_t`.
abbrev pub size_max : ℕ
size_max = 2 ^ 64 - 1

abbrev pub flat : {A : Type 0} → List (A × A) → List A
flat [] = []
flat ((a, b) ∷ ps) = a ∷ b ∷ flat ps

-- The flat array read as pairs.
abbrev pub pair_up : List ℕ → List (ℕ × ℕ)
pair_up [] = []
pair_up (a ∷ []) = []
pair_up (a ∷ b ∷ rest) = (a, b) ∷ pair_up rest

abbrev pub pair_rows : List (ℕ × ℕ) → List (List Term)
pair_rows [] = []
pair_rows ((a, b) ∷ ps) = (symbol a ∷ symbol b ∷ []) ∷ pair_rows ps

unfoldable pub edb_add_symbol_ids_facts : Edb → Bytes → List (ℕ × ℕ) → Rc × Edb
edb_add_symbol_ids_facts e predicate [] = (ok, e)
edb_add_symbol_ids_facts e predicate (p ∷ ps) =
    after_check e
      (refuse_if (ltb (size_max / 2) (length (p ∷ ps))) payload_too_large
        >> validate_edb_symbol_batch_target e predicate 2 (length (p ∷ ps))
        >> validate_symbol_ids e (flat (p ∷ ps)))
      (add_rows e predicate (pair_rows (p ∷ ps)))

-- The interning loop, which stops at the first failure and keeps what it interned.
unfoldable pub intern_all : Edb → List Bytes → Rc × Edb × List ℕ
intern_all e [] = (ok, e, [])
intern_all e (text ∷ texts) =
    let (rc, e', id) = edb_intern_runtime_symbol e text in
    let rest = intern_all e' texts in
    elim rc [ ok ↦ (rest.0, rest.1, id ∷ rest.2) | failed ↦ (failed, e', []) ]

-- Insert the identifiers of interned texts.
abbrev pub after_interning : (Edb → List ℕ → Rc × Edb) → Rc × Edb × List ℕ → Rc × Edb
after_interning next (rc, e, ids) = elim rc [ ok ↦ next e ids | failed ↦ (failed, e) ]

unfoldable pub edb_add_runtime_symbol_facts : Edb → Bytes → List Bytes → Rc × Edb
edb_add_runtime_symbol_facts e predicate [] = (ok, e)
edb_add_runtime_symbol_facts e predicate (t ∷ ts) =
    after_check e
      (refuse_if (ltb max_edb_facts (length (t ∷ ts))) payload_too_large
        >> validate_edb_symbol_batch_target e predicate 1 (length (t ∷ ts)))
      (after_interning (λ e' ids. edb_add_symbol_id_facts e' predicate ids) (intern_all e (t ∷ ts)))

unfoldable pub edb_add_runtime_symbol_pair_facts : Edb → Bytes → List (Bytes × Bytes) → Rc × Edb
edb_add_runtime_symbol_pair_facts e predicate [] = (ok, e)
edb_add_runtime_symbol_pair_facts e predicate (p ∷ ps) =
    after_check e
      (refuse_if (ltb (size_max / 2) (length (p ∷ ps))) payload_too_large
        >> refuse_if (ltb max_edb_facts (length (p ∷ ps))) payload_too_large
        >> validate_edb_symbol_batch_target e predicate 2 (length (p ∷ ps)))
      (after_interning (λ e' ids. edb_add_symbol_ids_facts e' predicate (pair_up ids))
        (intern_all e (flat (p ∷ ps))))

-- One text: `validate_edb_symbol_target` and `validate_edb_symbol_capacity` before interning.
unfoldable pub edb_add_runtime_symbol_fact : Edb → Bytes → Bytes → Rc × Edb
edb_add_runtime_symbol_fact e predicate value =
    after_check e
      (validate_edb_symbol_target e predicate 1 >> validate_edb_symbol_capacity e predicate 1)
      (let (rc, e', id) = edb_intern_runtime_symbol e value in
        elim rc [ ok ↦ edb_add_fact e' predicate (symbol id ∷ []) | failed ↦ (failed, e') ])

unfoldable pub edb_add_atom_fact : Edb → Bytes → Bytes → Rc × Edb
edb_add_atom_fact e predicate atom =
    after_check e
      (validate_edb_symbol_target e predicate 1
        >> refuse_if (not (registry_atom_allowed e.registry atom)) forbidden
        >> validate_edb_symbol_capacity e predicate 1)
      (let (rc, symbols, id) = symbol_intern e.symbols atom in
        let e' : Edb = record e { symbols = symbols } in
        elim rc [ ok ↦ edb_add_fact e' predicate (symbol id ∷ []) | failed ↦ (failed, e') ])
