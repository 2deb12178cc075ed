-- ===== src/Lexer/Refusals.antt =====
-- The codes with which the lexer fails: never OK, and never for want of fuel.
use maelys_datalog.Prelude.{
  ℕ, zero, suc, ◌+◌, ◌-◌, ◌*◌, ◌<◌, Bool, true, false, [], ◌∷◌, Option, some, ◌≡◌, ◌≢◌, refl, arith,
  length, Bool-cases, Option-cases, some_inj, inl, inr, ◌&&◌, ◌==◌, if◌then◌else◌, Bytes, subst, Rc,
  ok, internal, payload_too_large, unsupported, invalid_field,
}
use maelys_datalog.Lexer.{
  Lexer, Lex, done, fail, TokenKind, Diagnostic, peek_is, take_byte, next_line, next_column, ◌>>=◌,
}
use maelys_datalog.Lexer.Skip.{skip_ws_comments, skip_rounds, skip_once, skip_block, is_space}
use maelys_datalog.Lexer.Words.{
  emit_text, scan_digits, scan_string, cons_digit, cons_byte, after_digits, after_string,
  lex_predicate, lex_variable, lex_integer, lex_string,
}
use maelys_datalog.Lexer.Next.{lex_punctuation, lex_token, lexer_next}
use maelys_datalog.Lexer.Reads.{Reads-length, skip_once-Reads}

-- A code that a call may return for a text it does not take.
abbrev pub IsRefusal : Rc → Type 0
IsRefusal rc = (rc ≢ ok) × (rc ≢ internal)

abbrev pub Refuses : {A : Type 0} → Lex A → Type 0
Refuses {A} r = (rc : Rc) (d : Option Diagnostic) → r ≡ fail rc d → IsRefusal rc

if-Refuses :
    {A : Type 0} {a b : Lex A} (x : Bool) → Refuses a → Refuses b → Refuses (if x then a else b)
if-Refuses true p q = p
if-Refuses false p q = q

done-Refuses : {A : Type 0} (a : A) (l : Lexer) → Refuses (done a l)
done-Refuses a l rc d e = cc

fail-Refuses :
    {A : Type 0} (rc : Rc) (d : Option Diagnostic) → IsRefusal rc → Refuses {A = A} (fail rc d)
fail-Refuses rc d h rc' d' e = let same : rc ≡ rc' = cc in subst IsRefusal same h

unsupported-IsRefusal : IsRefusal unsupported
unsupported-IsRefusal = (λ h. cc, λ h. cc)

invalid_field-IsRefusal : IsRefusal invalid_field
invalid_field-IsRefusal = (λ h. cc, λ h. cc)

payload_too_large-IsRefusal : IsRefusal payload_too_large
payload_too_large-IsRefusal = (λ h. cc, λ h. cc)

ruleset refusals = (
  if-Refuses, done-Refuses, fail-Refuses, unsupported-IsRefusal, invalid_field-IsRefusal,
  payload_too_large-IsRefusal,
)

skip_block-Refuses : (cs : Bytes) (line column : ℕ) → Refuses (skip_block cs line column)
unfolding skip_block
skip_block-Refuses [] line column = search refusals
skip_block-Refuses (c ∷ cs) line column =
    let rest = skip_block-Refuses cs (next_line c line) (next_column c column) in
    search (refusals, rest)

emit_text-Refuses :
    (start : Lexer) (kind : TokenKind) (text : Bytes) (value : ℕ) (truth : Bool) (l : Lexer)
    → Refuses (emit_text start kind text value truth l)
unfolding emit_text
emit_text-Refuses start kind text value truth l = search refusals

cons_digit-Refuses : (c : ℕ) (r : Lex (Bytes × ℕ)) → Refuses r → Refuses (cons_digit c r)
cons_digit-Refuses c (fail rc d) h = fail-Refuses rc d (h rc d refl)
cons_digit-Refuses c (done r l) h = done-Refuses (c ∷ r.0, r.1) l

cons_byte-Refuses : (c : ℕ) (r : Lex Bytes) → Refuses r → Refuses (cons_byte c r)
cons_byte-Refuses c (fail rc d) h = fail-Refuses rc d (h rc d refl)
cons_byte-Refuses c (done text l) h = done-Refuses (c ∷ text) l

scan_digits-Refuses :
    (val : ℕ) (cs : Bytes) (line column : ℕ) → Refuses (scan_digits val cs line column)
unfolding scan_digits
scan_digits-Refuses val [] line column = search refusals
scan_digits-Refuses val (c ∷ cs) line column =
    let rest =
      cons_digit-Refuses c
        (scan_digits (val * 10 + (c - b'0')) cs (next_line c line) (next_column c column))
        (scan_digits-Refuses (val * 10 + (c - b'0')) cs (next_line c line)
          (next_column c column)) in
    search (refusals, rest)

scan_string-Refuses :
    (bytes : ℕ) (cs : Bytes) (line column : ℕ) → Refuses (scan_string bytes cs line column)
unfolding scan_string
scan_string-Refuses bytes [] line column = search refusals
scan_string-Refuses bytes (c ∷ cs) line column =
    let rest =
      cons_byte-Refuses c (scan_string (bytes + 1) cs (next_line c line) (next_column c column))
        (scan_string-Refuses (bytes + 1) cs (next_line c line) (next_column c column)) in
    search (refusals, rest)

after_digits-Refuses :
    (start : Lexer) (r : Lex (Bytes × ℕ)) → Refuses r → Refuses (after_digits start r)
after_digits-Refuses start (fail rc d) h = fail-Refuses rc d (h rc d refl)
after_digits-Refuses start (done r l) h = search (refusals, emit_text-Refuses)

after_string-Refuses : (start : Lexer) (r : Lex Bytes) → Refuses r → Refuses (after_string start r)
after_string-Refuses start (fail rc d) h = fail-Refuses rc d (h rc d refl)
after_string-Refuses start (done text l) h = search (refusals, emit_text-Refuses)

lex_punctuation-Refuses : (start : Lexer) (c : ℕ) (l : Lexer) → Refuses (lex_punctuation start c l)
unfolding lex_punctuation
lex_punctuation-Refuses start c l = search (refusals, emit_text-Refuses) depth 40 fits 50000

lex_predicate-Refuses : (l : Lexer) → Refuses (lex_predicate l)
unfolding lex_predicate
lex_predicate-Refuses l = search (refusals, emit_text-Refuses) depth 10

lex_variable-Refuses : (l : Lexer) → Refuses (lex_variable l)
unfolding lex_variable
lex_variable-Refuses l = search (refusals, emit_text-Refuses)

lex_integer-Refuses : (l : Lexer) → Refuses (lex_integer l)
unfolding lex_integer
lex_integer-Refuses l =
    after_digits-Refuses l (scan_digits 0 l.rest l.line l.column)
      (scan_digits-Refuses 0 l.rest l.line l.column)

lex_string-Refuses : (l : Lexer) → Refuses (lex_string l)
unfolding lex_string
lex_string-Refuses l =
    let opened = take_byte l in
    after_string-Refuses l (scan_string 0 opened.rest opened.line opened.column)
      (scan_string-Refuses 0 opened.rest opened.line opened.column)

lex_token-Refuses :
    (rest : Bytes) (line column : ℕ)
    → Refuses (lex_token (record { rest = rest; line = line; column = column }))
unfolding lex_token
lex_token-Refuses [] line column = search refusals
lex_token-Refuses (c ∷ cs) line column =
    search
      (
        refusals, lex_predicate-Refuses, lex_variable-Refuses, lex_integer-Refuses,
        lex_string-Refuses, lex_punctuation-Refuses,
      )
      depth 10

skip_once-Refuses :
    (rest : Bytes) (line column : ℕ) (r : Lex (Unit {0}))
    → skip_once (record { rest = rest; line = line; column = column }) ≡ some r
    → Refuses r
unfolding skip_once
skip_once-Refuses [] line column r e = cc
skip_once-Refuses (c ∷ cs) line column r e = elim (Bool-cases (is_space c)) [
  | inl a ↦ subst Refuses (some_inj (rw (a, skip_once) at e)) (done-Refuses tt _)
  | inr a ↦ elim (Bool-cases (c == b'%')) [
    | inl b ↦ subst Refuses (some_inj (rw (a, b, skip_once) at e)) (done-Refuses tt _)
    | inr b ↦ elim (Bool-cases (c == b'/' && peek_is cs 0 b'*')) [
      | inl d ↦ subst Refuses (some_inj (rw (a, b, d, skip_once) at e)) (skip_block-Refuses _ _ _)
      | inr d ↦ cc (rw (a, b, d, skip_once) at e)
    ]
  ]
]

skip_rounds-Refuses : (n : ℕ) (l : Lexer) → length l.rest < n → Refuses (skip_rounds n l)
unfolding skip_rounds
skip_rounds-Refuses zero l h = absurd (omega arith)
skip_rounds-Refuses (suc n) l h = elim (Option-cases (skip_once l)) [
  | inl a ↦ rw (a, skip_rounds) (done-Refuses tt l)
  | inr (fail rc d, a) ↦
      rw (a, skip_rounds) (skip_once-Refuses l.rest l.line l.column (fail rc d) a)
  | inr (done u m, a) ↦
      let less = Reads-length (skip_once-Reads l.rest l.line l.column m a) in
      rw (a, skip_rounds) (skip_rounds-Refuses n m (omega (arith, less, h)))
]

bind-Refuses : (r : Lex (Unit {0})) → Refuses r → Refuses (r >>= λ _ l. lex_token l)
bind-Refuses (fail rc d) h = fail-Refuses rc d (h rc d refl)
bind-Refuses (done u m) h = lex_token-Refuses m.rest m.line m.column

-- What `lexer_next` fails with.
pub lexer_next-Refuses : (l : Lexer) → Refuses (lexer_next l)
unfolding lexer_next skip_ws_comments
lexer_next-Refuses l =
    bind-Refuses (skip_ws_comments l) (skip_rounds-Refuses (suc (length l.rest)) l (omega arith))
