-- ===== src/Symbols/Readonly.antt =====
-- The read-only lookup: its scan of short tables and its probing agree with the texts.
use maelys_datalog.Prelude.{
  ℕ, zero, suc, ◌+◌, ◌-◌, ◌≤◌, Bool, true, false, List, [], ◌∷◌, none, some, ◌≡◌, ◌≢◌, ◌⊎◌, inl,
  inr, refl, ◌∙◌, ap, arith, length, get_elem?, Bytes, Bool-cases, Option-cases, some_inj, leb, ltb,
  Rc, ok,
}
use maelys_datalog.Bounds.{max_string_bytes}
use maelys_datalog.Symbols.{
  Entry, SymbolTable, count, slice, holds, scan, symbol_lookup_readonly, symbol_text,
}
use maelys_datalog.Symbols.Invariant.{IsValid}
use maelys_datalog.Symbols.Probing.{holds-eq, holds-slice, probed-ends}
use maelys_datalog.Symbols.Intern.{text_at, text_from, IsVacant-IsFresh}

-- The scan returns an entry that holds the text.
scan-some :
    (storage : Bytes) (i : ℕ) (es : List Entry) (text : Bytes) (j : ℕ)
    → scan storage i es text ≡ some j
    → (k : ℕ) × (e : Entry) × (j ≡ i + k) × (get_elem? es k ≡ some e) × (slice storage e ≡ text)
unfolding scan
scan-some storage i [] text j h = cc
scan-some storage i (e ∷ es) text j h = elim (Bool-cases (holds storage e text)) [
  | inl m ↦ (0, e, omega (arith, some_inj (rw (m, scan) at h)), refl, holds-eq storage e text m)
  | inr m ↦
      let (k, x, eq, g, s) = scan-some storage (suc i) es text j (rw (m, scan) at h) in
      (suc k, x, omega arith, g, s)
]

-- The scan misses no entry that holds the text.
scan-none :
    (storage : Bytes) (i : ℕ) (es : List Entry) (text : Bytes)
    → scan storage i es text ≡ none
    → (k : ℕ) (e : Entry) → get_elem? es k ≡ some e
    → holds storage e text ≡ false
unfolding scan
scan-none storage i [] text h k e g = cc
scan-none storage i (x ∷ es) text h zero e g = ground arith
scan-none storage i (x ∷ es) text h (suc k) e g = elim (Bool-cases (holds storage x text)) [
  | inl m ↦ cc (rw (m, scan) at h)
  | inr m ↦ scan-none storage (suc i) es text (rw (m, scan) at h) k e g
]

-- What a lookup is to answer: the identifier of the text, or that there is none.
abbrev pub Answers : SymbolTable → Bytes → Rc × ℕ × Bool → Type 0
Answers t text (rc, id, hit) =
    (rc ≡ ok)
    × (((hit ≡ true) × (symbol_text t id ≡ some text))
        ⊎ ((hit ≡ false) × ((any : ℕ) → symbol_text t any ≢ some text)))

module _ (t : SymbolTable) (text : Bytes) (v : IsValid t) where
  Answers-found :
      (i : ℕ) (e : Entry)
      → get_elem? t.entries i ≡ some e
      → slice t.storage e ≡ text
      → Answers t text (ok, i + 1, true)
  Answers-found i e g s =
      let back : i + 1 - 1 ≡ i = omega arith in
      (refl, inl (refl, text_at t (i + 1) e (omega arith) (rw back g) ∙ ap some s))

  Answers-none :
      ((i : ℕ) (e : Entry) → get_elem? t.entries i ≡ some e → slice t.storage e ≢ text)
      → Answers t text (ok, 0, false)
  Answers-none none' = (
    refl,
    inr (refl, λ any h. let (e, pos, g, s) = text_from t any text h in none' (any - 1) e g s),
  )

-- `maelys_datalog_symbol_lookup_readonly` answers, for every text of up to 1024 bytes and on every
-- valid table, with the identifier that stands for the text, or that no identifier does; so its
-- scan of a short table and its hashed search agree.
pub symbol_lookup_readonly-Answers :
    (t : SymbolTable) (text : Bytes)
    → IsValid t
    → length text ≤ max_string_bytes
    → Answers t text (symbol_lookup_readonly t text)
unfolding symbol_lookup_readonly
symbol_lookup_readonly-Answers t text v short =
    let bound : ltb max_string_bytes (length text) ≡ false = ground arith in
    elim (Bool-cases (leb (count t) (length text))) [
      | inl few ↦ elim (Option-cases (scan t.storage 0 t.entries text)) [
        | inl miss ↦
            rw (bound, few, miss)
              (Answers-none t text v (λ i e g s. cc (
                scan-none t.storage 0 t.entries text miss i e g,
                holds-slice t.storage e text (v.entry i e g) s,
              )))
        | inr (j, hit) ↦
            let (k, e, eq, g, s) = scan-some t.storage 0 t.entries text j hit in
            let same : j ≡ k = omega arith in
            rw (bound, few, hit, same) (Answers-found t text v k e g s)
      ]
      | inr many ↦ elim (probed-ends t text v) [
        | inl f ↦ rw (bound, many, f.ends) (Answers-found t text v f.id f.entry f.at f.text_is)
        | inr f ↦ rw (bound, many, f.ends) (Answers-none t text v (IsVacant-IsFresh t text v f))
      ]
    ]
