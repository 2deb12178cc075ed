-- ===== src/Symbols/Intern.antt =====
-- Interning keeps the table valid, and gives each text one identifier.
use maelys_datalog.Prelude.{
  ℕ, zero, suc, ◌+◌, ◌-◌, ◌≤◌, ◌<◌, true, false, [], ◌∷◌, ◌++◌, some, ◌≡◌, ◌≢◌, ◌⊎◌, inl, inr, refl,
  sym, subst, ◌∙◌, ap, arith, length, length-append, get_elem?, get-concat, get-last, get-append,
  lt_of_get, ◌==◌, Bytes, Bool-cases, Option-cases, some_inj, ltb, leb, Rc, ok, invalid_state,
  invalid_argument, payload_too_large,
}
use maelys_datalog.Bounds.{max_string_bytes, max_symbols, symbol_index_buckets, string_pool_bytes}
use maelys_datalog.Symbols.{
  Entry, SymbolTable, used, count, slice, home, fnv1a, update, insert, symbol_intern, symbol_text,
  symbol_id_is_valid, symbol_table_init,
}
use maelys_datalog.Symbols.Slice.{slice-append, slice-new}
use maelys_datalog.Symbols.Invariant.{place, occupied, occupied-update, IsEntry, IsIndexed, IsValid}
use maelys_datalog.Symbols.Probing.{IsVacant, probed, probed-ends, probed-present, look-nonzero}

abbrev new_entry : SymbolTable → Bytes → Entry
new_entry t text = record { hash = fnv1a text; offset = used t; len = length text }

-- The text stands nowhere in the table.
abbrev pub IsFresh : SymbolTable → Bytes → Type 0
IsFresh t text = (i : ℕ) (e : Entry) → get_elem? t.entries i ≡ some e → slice t.storage e ≢ text

pub IsVacant-IsFresh :
    (t : SymbolTable) (text : Bytes) → IsValid t → IsVacant t text (probed t text) → IsFresh t text
IsVacant-IsFresh t text v f i e g s = cc (probed-present t text v i e g s, f.ends)

module _ (t : SymbolTable) (text : Bytes) (v : IsValid t) (f : IsVacant t text (probed t text))
    (short : length text ≤ max_string_bytes) (room : count t < max_symbols)
    (fits : length text + 1 ≤ string_pool_bytes - used t) where
  abbrev bucket : ℕ
  bucket = place (home (fnv1a text)) f.distance

  abbrev grown : SymbolTable
  grown = insert t (fnv1a text) text bucket

  fresh : IsFresh t text
  fresh = IsVacant-IsFresh t text v f

  pool_grows : used grown ≡ used t + length text + 1
  pool_grows = omega (arith, length-append t.storage (text ++ 0 ∷ []), length-append text (0 ∷ []))

  old_slice :
      (i : ℕ) (e : Entry)
      → get_elem? t.entries i ≡ some e
      → slice grown.storage e ≡ slice t.storage e
  old_slice i e g =
      slice-append t.storage (text ++ 0 ∷ []) e (omega (arith, (v.entry i e g).within))

  new_slice : slice grown.storage (new_entry t text) ≡ text
  new_slice = slice-new t.storage text (fnv1a text)

  entry-cases :
      (i : ℕ) (e : Entry)
      → get_elem? grown.entries i ≡ some e
      → (get_elem? t.entries i ≡ some e) ⊎ ((i ≡ count t) × (new_entry t text ≡ e))
  entry-cases i e g = get-concat t.entries (new_entry t text) i e g

  grown-entry : (i : ℕ) (e : Entry) → get_elem? grown.entries i ≡ some e → IsEntry grown.storage e
  grown-entry i e g = elim (entry-cases i e g) [
    | inl old ↦
        let ie = v.entry i e old in
        record {
          within = omega (arith, ie.within, pool_grows);
          hashed = ie.hashed ∙ ap fnv1a (sym (old_slice i e old));
          short = ie.short;
        }
    | inr (at, new) ↦ subst (IsEntry grown.storage) new (record {
      within = omega (arith, pool_grows);
      hashed = ap fnv1a (sym new_slice);
      short = short;
    })
  ]

  -- The text of an entry of the grown table.
  grown-slice :
      (i : ℕ) (e : Entry)
      → get_elem? grown.entries i ≡ some e
      → ((get_elem? t.entries i ≡ some e) × (slice grown.storage e ≡ slice t.storage e))
        ⊎ ((i ≡ count t) × (slice grown.storage e ≡ text))
  grown-slice i e g = elim (entry-cases i e g) [
    | inl old ↦ inl (old, old_slice i e old)
    | inr (at, new) ↦ inr (at, subst (λ x. slice grown.storage x ≡ text) new new_slice)
  ]

  grown-distinct :
      (i j : ℕ) (e g : Entry)
      → get_elem? grown.entries i ≡ some e
      → get_elem? grown.entries j ≡ some g
      → slice grown.storage e ≡ slice grown.storage g
      → i ≡ j
  grown-distinct i j e g ei ej same = elim (grown-slice i e ei) [
    | inl (oi, si) ↦ elim (grown-slice j g ej) [
      | inl (oj, sj) ↦ v.distinct i j e g oi oj (sym si ∙ same ∙ sj)
      | inr (nj, sj) ↦ absurd (fresh i e oi (sym si ∙ same ∙ sj))
    ]
    | inr (ni, si) ↦ elim (grown-slice j g ej) [
      | inl (oj, sj) ↦ absurd (fresh j g oj (sym sj ∙ sym same ∙ si))
      | inr (nj, sj) ↦ omega arith
    ]
  ]

  grown-bounded : (b : ℕ) → grown.index b ≤ count grown
  grown-bounded b = ground (arith, v.bounded b, length-append t.entries (new_entry t text ∷ []))

  -- A bucket in use stays as it is.
  grown-index : (b : ℕ) → t.index b ≢ 0 → grown.index b ≡ t.index b
  grown-index b nz = elim (Bool-cases (bucket == b)) [
    | inl e ↦
        let same : bucket ≡ b = ground arith in absurd (nz (subst (λ x. t.index x ≡ 0) same f.free))
    | inr e ↦ rw (e, update) refl
  ]

  grown-IsIndexed :
      (i : ℕ) (e : Entry) → get_elem? grown.entries i ≡ some e → IsIndexed grown.index e.hash i
  grown-IsIndexed i e g = elim (entry-cases i e g) [
    | inl old ↦
        let x = v.indexed i e old in
        let used' : t.index (place (home e.hash) x.distance) ≢ 0 =
          λ z. omega (arith, x.points, z) in
        record {
          distance = x.distance;
          near = x.near;
          points = grown-index (place (home e.hash) x.distance) used' ∙ x.points;
          full =
              λ k lt z. x.full k lt (sym (grown-index (place (home e.hash) k) (x.full k lt)) ∙ z);
        }
    | inr (at, new) ↦
        subst (λ n. IsIndexed grown.index e.hash n) (sym at)
          (subst (λ (n : Entry). IsIndexed grown.index n.hash (count t)) new
            (record {
              distance = f.distance;
              near = f.near;
              points = ground arith;
              full = λ k lt z.
                  let nz = look-nonzero t text (place (home (fnv1a text)) k) (f.passed k lt) in
                  nz (sym (grown-index (place (home (fnv1a text)) k) nz) ∙ z);
            }))
  ]

  pub grown-IsValid : IsValid grown
  grown-IsValid = record {
    pool = omega (arith, pool_grows, v.pool);
    room = omega (arith, length-append t.entries (new_entry t text ∷ []));
    entry = grown-entry;
    distinct = grown-distinct;
    bounded = grown-bounded;
    indexed = grown-IsIndexed;
    load =
        occupied-update symbol_index_buckets t.index bucket (count t + 1) (omega arith) f.free
          (omega arith)
        ∙ omega (arith, v.load, length-append t.entries (new_entry t text ∷ []));
  }

occupied-empty : (n : ℕ) → occupied n (λ _. 0) ≡ 0
unfolding occupied
occupied-empty zero = refl
occupied-empty (suc n) = omega (arith, occupied-empty n)

-- How `intern` ends.
module _ (t : SymbolTable) (text : Bytes) (v : IsValid t) where
  -- The text was in the table.
  record WasThere : Type 0 where
    id : ℕ
    entry : Entry
    at : get_elem? t.entries id ≡ some entry
    text_is : slice t.storage entry ≡ text
    result : symbol_intern t text ≡ (ok, t, id + 1)

  -- The text was written.
  record IsWritten : Type 0 where
    vacancy : IsVacant t text (probed t text)
    short : length text ≤ max_string_bytes
    room : count t < max_symbols
    fits : length text + 1 ≤ string_pool_bytes - used t
    result :
        symbol_intern t text
        ≡ (ok, insert t (fnv1a text) text (place (home (fnv1a text)) vacancy.distance), count t + 1)

  -- The text was refused, for its length or for want of room.
  record IsRefused : Type 0 where
    fails : (symbol_intern t text).0 ≢ ok
    not_broken : (symbol_intern t text).0 ≢ invalid_state
    unchanged : (symbol_intern t text).1 ≡ t

  IsRefused-of :
      (rc : Rc) → symbol_intern t text ≡ (rc, t, 0) → rc ≢ ok → rc ≢ invalid_state → IsRefused
  IsRefused-of rc e a b = record {
    fails = λ h. a (sym (ap (λ r. r.0) e) ∙ h);
    not_broken = λ h. b (sym (ap (λ r. r.0) e) ∙ h);
    unchanged = ap (λ r. r.1) e;
  }

  intern-cases : WasThere ⊎ (IsWritten ⊎ IsRefused)
  unfolding symbol_intern
  intern-cases = elim (Bool-cases (ltb max_string_bytes (length text))) [
    | inl long ↦ inr (inr (IsRefused-of invalid_argument (rw long refl) (λ e. cc) (λ e. cc)))
    | inr short ↦ elim (probed-ends t text v) [
      | inl f ↦ inl (record {
        id = f.id;
        entry = f.entry;
        at = f.at;
        text_is = f.text_is;
        result = rw (short, f.ends) refl;
      })
      | inr f ↦ elim (Bool-cases (leb max_symbols (count t))) [
        | inl full ↦ inr (
            inr
              (IsRefused-of payload_too_large (rw (short, f.ends, full) refl) (λ e. cc) (λ e. cc)))
        | inr room ↦ elim (Bool-cases (ltb (string_pool_bytes - used t) (length text + 1))) [
          | inl large ↦ inr (
              inr (
                IsRefused-of payload_too_large (rw (short, f.ends, room, large) refl) (λ e. cc)
                  (λ e. cc)))
          | inr fits ↦ inr (
              inl (record {
                vacancy = f;
                short = ground arith;
                room = ground arith;
                fits = ground arith;
                result = rw (short, f.ends, room, fits) refl;
              }))
        ]
      ]
    ]
  ]

-- `maelys_datalog_symbol_intern` keeps the table valid, whatever it returns: its texts are
-- distinct and in the pool, every one is reached by probing from the home of its hash, and no
-- more than 512 of the 1024 buckets are in use.
pub symbol_intern-IsValid :
    (t : SymbolTable) (text : Bytes) → IsValid t → IsValid (symbol_intern t text).1
symbol_intern-IsValid t text v = elim (intern-cases t text v) [
  | inl w ↦ rw w.result v
  | inr (inl w) ↦ rw w.result (grown-IsValid t text v w.vacancy w.short w.room w.fits)
  | inr (inr w) ↦ rw w.unchanged v
]

-- An identifier stands for the slice of its entry.
pub text_at :
    (t : SymbolTable) (id : ℕ) (e : Entry)
    → 0 < id
    → get_elem? t.entries (id - 1) ≡ some e
    → symbol_text t id ≡ some (slice t.storage e)
unfolding symbol_text symbol_id_is_valid
text_at t id e pos g =
    let lt = lt_of_get t.entries (id - 1) e g in
    let valid : symbol_id_is_valid t id ≡ true = ground arith in rw valid (rw g refl)

valid_id : (t : SymbolTable) (id : ℕ) → symbol_id_is_valid t id ≡ true → 0 < id
unfolding symbol_id_is_valid
valid_id t id e = ground arith

pub text_from :
    (t : SymbolTable) (id : ℕ) (text : Bytes)
    → symbol_text t id ≡ some text
    → (e : Entry) × (0 < id) × (get_elem? t.entries (id - 1) ≡ some e) × (slice t.storage e ≡ text)
unfolding symbol_text
text_from t id text h = elim (Bool-cases (symbol_id_is_valid t id)) [
  | inr e ↦ cc (rw e at h)
  | inl e ↦ elim (Option-cases (get_elem? t.entries (id - 1))) [
    | inl g ↦ cc (rw g at (rw e at h))
    | inr (x, g) ↦ (x, valid_id t id e, g, some_inj (rw g at (rw e at h)))
  ]
]

-- Where `maelys_datalog_symbol_intern` returns OK on a valid table, the identifier stands for the
-- text, and every identifier of before stands for the same text as before.
pub symbol_intern-text :
    (t : SymbolTable) (text : Bytes)
    → IsValid t
    → (symbol_intern t text).0 ≡ ok
    → let (rc, after, id) = symbol_intern t text in
      (symbol_text after id ≡ some text)
      × ((old : ℕ) (x : Bytes) → symbol_text t old ≡ some x → symbol_text after old ≡ some x)
symbol_intern-text t text v h = elim (intern-cases t text v) [
  | inl w ↦
      let back : w.id + 1 - 1 ≡ w.id = omega arith in
      rw w.result (
        text_at t (w.id + 1) w.entry (omega arith) (rw back w.at) ∙ ap some w.text_is,
        λ old x e. e,
      )
  | inr (inl w) ↦
      let b = place (home (fnv1a text)) w.vacancy.distance in
      let after = insert t (fnv1a text) text b in
      let back : count t + 1 - 1 ≡ count t = omega arith in
      rw w.result (
        text_at after (count t + 1) (new_entry t text) (omega arith)
              (rw back (get-last t.entries (new_entry t text)))
            ∙ ap some (slice-new t.storage text (fnv1a text)),
        λ old x e.
            let (en, pos, g, s) = text_from t old x e in
            text_at after old en pos (
              get-append t.entries (new_entry t text ∷ []) (old - 1)
                (lt_of_get t.entries (old - 1) en g)
              ∙ g)
            ∙ ap some (
                slice-append t.storage (text ++ 0 ∷ []) en
                  (omega (arith, (v.entry (old - 1) en g).within))
                ∙ s),
      )
  | inr (inr w) ↦ absurd (w.fails h)
]

ok_short :
    (t : SymbolTable) (text : Bytes)
    → (symbol_intern t text).0 ≡ ok
    → ltb max_string_bytes (length text) ≡ false
unfolding symbol_intern
ok_short t text h = ground arith

intern_present :
    (t : SymbolTable) (text : Bytes) (id : ℕ)
    → IsValid t
    → ltb max_string_bytes (length text) ≡ false
    → symbol_text t id ≡ some text
    → symbol_intern t text ≡ (ok, t, id)
unfolding symbol_intern
intern_present t text id v short h =
    let (e, pos, g, s) = text_from t id text h in
    let back : id - 1 + 1 ≡ id = omega arith in
    rw (short, probed-present t text v (id - 1) e g s) (ap (λ (n : ℕ). (ok, t, n)) back)

-- Interning a text again, after any OK, returns the same identifier and changes nothing.
pub symbol_intern_again :
    (t : SymbolTable) (text : Bytes)
    → IsValid t
    → (symbol_intern t text).0 ≡ ok
    → let (rc, after, id) = symbol_intern t text in symbol_intern after text ≡ (ok, after, id)
symbol_intern_again t text v h =
    intern_present (symbol_intern t text).1 text (symbol_intern t text).2
      (symbol_intern-IsValid t text v) (ok_short t text h) (symbol_intern-text t text v h).0

-- On a valid table `intern` never reports an invalid state, and what it refuses changes nothing.
pub symbol_intern_fails :
    (t : SymbolTable) (text : Bytes)
    → IsValid t
    → ((symbol_intern t text).0 ≢ invalid_state)
      × ((symbol_intern t text).0 ≢ ok → (symbol_intern t text).1 ≡ t)
symbol_intern_fails t text v = elim (intern-cases t text v) [
  | inl w ↦ (λ h. cc (w.result), λ n. ap (λ r. r.1) w.result)
  | inr (inl w) ↦ (λ h. cc (w.result), λ n. absurd (n (ap (λ r. r.0) w.result)))
  | inr (inr w) ↦ (w.not_broken, λ n. w.unchanged)
]

pub symbol_table_init-IsValid : IsValid symbol_table_init
symbol_table_init-IsValid = record {
  pool = omega arith;
  room = omega arith;
  entry = λ i e g. cc;
  distinct = λ i j e f g k s. cc;
  bounded = λ b. omega arith;
  indexed = λ i e g. cc;
  load = occupied-empty symbol_index_buckets;
}

-- Whatever `intern` returns, every identifier goes on standing for its text.
pub symbol_intern_keeps :
    (t : SymbolTable) (text : Bytes)
    → IsValid t
    → (old : ℕ) (x : Bytes) → symbol_text t old ≡ some x
    → symbol_text (symbol_intern t text).1 old ≡ some x
symbol_intern_keeps t text v = elim (intern-cases t text v) [
  | inl w ↦ rw w.result (λ old x h. h)
  | inr (inl w) ↦ (symbol_intern-text t text v (ap (λ r. r.0) w.result)).1
  | inr (inr w) ↦ rw w.unchanged (λ old x h. h)
]
