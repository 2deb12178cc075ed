-- ===== src/Lexer/Scans.antt =====
-- The tokens of more than one byte: how far they read, and their bounds.
use maelys_datalog.Prelude.{
  ℕ, ◌+◌, ◌-◌, ◌*◌, ◌≤◌, Bool, true, false, [], ◌∷◌, Option, ◌≡◌, refl, arith, length, Bool-cases,
  inl, inr, ◌==◌, if◌then◌else◌, Bytes, subst, ltb, Rc,
}
use maelys_datalog.Bounds.{max_token_bytes, max_int, max_string_bytes}
use maelys_datalog.Lexer.{
  Lexer, Lex, done, fail, Token, TokenKind, Diagnostic, take_byte, after_byte, next_line,
  next_column,
}
use maelys_datalog.Lexer.Chars.{is_digit, is_pred_char, is_var_char}
use maelys_datalog.Lexer.Words.{
  token, emit_text, stay, scan_digits, scan_string, cons_digit, cons_byte, after_digits,
  after_string, lex_predicate, lex_variable, lex_integer, lex_string,
}
use maelys_datalog.Lexer.Next.{is_eof, plain}
use maelys_datalog.Lexer.Position.{Counted, Reads-Counted}
use maelys_datalog.Lexer.Reads.{
  Reads, Reads-here, Reads-step, Reads-less, Reads-take, Reads-trans, done_inj,
  scan_while-Reads_some,
}

-- A token that was read from `l` on, with the lexer behind it: some bytes were read, at least one
-- unless the token is the end, the line has grown by their newlines and the column is the one behind
-- them, the end comes only where nothing is left, the text fits its field and the integer its bound.
pub record Scanned (l : Lexer) (t : Token) (l' : Lexer) : Type 0 where
  pub reads : Reads 0 l l'
  pub counted : (read : Bytes) × Counted read l l'
  pub progress : is_eof t.kind ≡ false → Reads 1 l l'
  pub ends : is_eof t.kind ≡ true → l'.rest ≡ []
  pub text_fits : length t.text ≤ max_token_bytes
  pub integer_fits : t.integer ≤ max_int

-- Whatever token the result has is scanned.
abbrev pub Scans : Lexer → Lex Token → Type 0
Scans start r = (t : Token) (l' : Lexer) → r ≡ done t l' → Scanned start t l'

pub if-Scans :
    {start : Lexer} {a b : Lex Token} (x : Bool)
    → Scans start a
    → Scans start b
    → Scans start (if x then a else b)
if-Scans true p q = p
if-Scans false p q = q

pub fail-Scans : {start : Lexer} {rc : Rc} {d : Option Diagnostic} → Scans start (fail rc d)
fail-Scans t l' e = cc

pub done-Scans :
    (start : Lexer) (kind : TokenKind) (text : Bytes) (value : ℕ) (truth : Bool) (l : Lexer)
    → is_eof kind ≡ false
    → Reads 1 start l
    → length text ≤ max_token_bytes
    → value ≤ max_int
    → Scans start (done (token start kind text value truth) l)
done-Scans start kind text value truth l k r n v t l' e =
    let (same, at_end) = done_inj e in
    subst (λ (x : Token). Scanned start x l') same
      (subst (Scanned start (token start kind text value truth)) at_end (record {
        reads = Reads-less 0 (omega arith) r;
        counted = Reads-Counted start l r;
        progress = λ _. r;
        ends = λ h. cc (k, h);
        text_fits = n;
        integer_fits = v;
      }))

pub emit_text-Scans :
    (start : Lexer) (kind : TokenKind) (text : Bytes) (value : ℕ) (truth : Bool) (l : Lexer)
    → is_eof kind ≡ false
    → Reads 1 start l
    → value ≤ max_int
    → Scans start (emit_text start kind text value truth l)
unfolding emit_text
emit_text-Scans start kind text value truth l k r v =
    elim (Bool-cases (ltb max_token_bytes (length text))) [
      | inl e ↦ rw (e, emit_text) fail-Scans
      | inr e ↦ rw (e, emit_text) (done-Scans start kind text value truth l k r (ground arith) v)
    ]

pub plain-Scans :
    (start : Lexer) (kind : TokenKind) (l : Lexer)
    → is_eof kind ≡ false
    → Reads 1 start l
    → Scans start (plain start kind l)
plain-Scans start kind l k r = done-Scans start kind [] 0 false l k r (omega arith) (omega arith)

pub lex_predicate-Scans :
    (c : ℕ) (cs : Bytes) (line column : ℕ)
    → is_pred_char c ≡ true
    → Scans (stay (c ∷ cs) line column) (lex_predicate (stay (c ∷ cs) line column))
unfolding lex_predicate
lex_predicate-Scans c cs line column h =
    let r = scan_while-Reads_some is_pred_char c cs line column h in
    let zero_fits : 0 ≤ max_int = omega arith in
    search (if-Scans, fail-Scans, emit_text-Scans, r, zero_fits)

pub lex_variable-Scans :
    (c : ℕ) (cs : Bytes) (line column : ℕ)
    → is_var_char c ≡ true
    → Scans (stay (c ∷ cs) line column) (lex_variable (stay (c ∷ cs) line column))
unfolding lex_variable
lex_variable-Scans c cs line column h =
    let r = scan_while-Reads_some is_var_char c cs line column h in
    let zero_fits : 0 ≤ max_int = omega arith in
    search (if-Scans, fail-Scans, emit_text-Scans, r, zero_fits)

-- What the two loops over digits and over a string return.
abbrev pub ReadsOn : {A : Type 0} → (A → Type 0) → ℕ → Lexer → Lex A → Type 0
ReadsOn {A} P least start r = (a : A) (l : Lexer) → r ≡ done a l → Reads least start l × P a

abbrev pub IsSmall : Bytes × ℕ → Type 0
IsSmall r = r.1 ≤ max_int

pub cons_digit-ReadsOn :
    (c : ℕ) (cs : Bytes) (line column : ℕ) (r : Lex (Bytes × ℕ))
    → ReadsOn IsSmall 0 (after_byte c cs line column) r
    → ReadsOn IsSmall 1 (stay (c ∷ cs) line column) (cons_digit c r)
cons_digit-ReadsOn c cs line column (fail rc d) h a l e = cc
cons_digit-ReadsOn c cs line column (done r m) h a l e =
    let (first, small) = h r m refl in
    let (same, at_end) = done_inj e in
    (
      subst (Reads 1 (stay (c ∷ cs) line column)) at_end (Reads-step first),
      subst IsSmall same small,
    )

-- A round that reads a digit, whatever the other rounds read.
pub scan_digits-digit :
    (val c : ℕ) (cs : Bytes) (line column : ℕ)
    → is_digit c ≡ true
    → (val * 10 + (c - b'0') ≤ max_int
        → ReadsOn IsSmall 0
            (after_byte c cs line column)
            (scan_digits (val * 10 + (c - b'0')) cs (next_line c line) (next_column c column)))
    → ReadsOn IsSmall 1 (stay (c ∷ cs) line column) (scan_digits val (c ∷ cs) line column)
unfolding scan_digits
scan_digits-digit val c cs line column d others =
    elim (Bool-cases (ltb max_int (val * 10 + (c - b'0')))) [
      | inl big ↦ rw (d, big, scan_digits) (λ a l e. cc)
      | inr small ↦
          rw (d, small, scan_digits)
            (cons_digit-ReadsOn c cs line column
              (scan_digits (val * 10 + (c - b'0')) cs (next_line c line) (next_column c column))
              (others (ground arith)))
    ]

-- A loop that stops where it stands.
pub done-ReadsOn :
    {A : Type 0} (P : A → Type 0) (a : A) (l : Lexer) → P a → ReadsOn P 0 l (done a l)
done-ReadsOn P a l p b m e =
    let (same, at_end) = done_inj e in (subst (Reads 0 l) at_end Reads-here, subst P same p)

pub scan_digits-ReadsOn :
    (val : ℕ) (cs : Bytes) (line column : ℕ)
    → val ≤ max_int
    → ReadsOn IsSmall 0 (stay cs line column) (scan_digits val cs line column)
unfolding scan_digits
scan_digits-ReadsOn val [] line column v = done-ReadsOn IsSmall ([], val) (stay [] line column) v
scan_digits-ReadsOn val (c ∷ cs) line column v = elim (Bool-cases (is_digit c)) [
  | inl d ↦ λ a l e.
      let (r, small) =
        scan_digits-digit val c cs line column d
          (scan_digits-ReadsOn (val * 10 + (c - b'0')) cs (next_line c line) (next_column c column))
          a l e in
      (Reads-less 0 (omega arith) r, small)
  | inr d ↦ rw (d, scan_digits) (done-ReadsOn IsSmall ([], val) (stay (c ∷ cs) line column) v)
]

pub after_digits-Scans :
    (start : Lexer) (r : Lex (Bytes × ℕ))
    → ReadsOn IsSmall 1 start r
    → Scans start (after_digits start r)
after_digits-Scans start (fail rc d) h = fail-Scans
after_digits-Scans start (done r l) h =
    let (read, small) = h r l refl in search (if-Scans, fail-Scans, emit_text-Scans, read, small)

pub lex_integer-Scans :
    (c : ℕ) (cs : Bytes) (line column : ℕ)
    → is_digit c ≡ true
    → Scans (stay (c ∷ cs) line column) (lex_integer (stay (c ∷ cs) line column))
unfolding lex_integer
lex_integer-Scans c cs line column d =
    after_digits-Scans (stay (c ∷ cs) line column) (scan_digits 0 (c ∷ cs) line column) (
      scan_digits-digit 0 c cs line column d
        (scan_digits-ReadsOn (0 * 10 + (c - b'0')) cs (next_line c line) (next_column c column)))

abbrev pub IsAny : Bytes → Type 0
IsAny _ = Unit

pub cons_byte-ReadsOn :
    (c : ℕ) (cs : Bytes) (line column : ℕ) (r : Lex Bytes)
    → ReadsOn IsAny 0 (after_byte c cs line column) r
    → ReadsOn IsAny 0 (stay (c ∷ cs) line column) (cons_byte c r)
cons_byte-ReadsOn c cs line column (fail rc d) h a l e = cc
cons_byte-ReadsOn c cs line column (done text m) h a l e = (
  subst (Reads 0 (stay (c ∷ cs) line column)) (done_inj e).1
      (Reads-less 0 (omega arith) (Reads-step (h text m refl).0)),
  tt,
)

pub scan_string-ReadsOn :
    (bytes : ℕ) (cs : Bytes) (line column : ℕ)
    → ReadsOn IsAny 0 (stay cs line column) (scan_string bytes cs line column)
unfolding scan_string
scan_string-ReadsOn bytes [] line column = done-ReadsOn IsAny [] (stay [] line column) tt
scan_string-ReadsOn bytes (c ∷ cs) line column = elim (Bool-cases (c == b'"')) [
  | inl q ↦ rw (q, scan_string) (done-ReadsOn IsAny [] (stay (c ∷ cs) line column) tt)
  | inr q ↦ elim (Bool-cases (c == b'\\')) [
    | inl s ↦ rw (q, s, scan_string) (λ a l e. cc)
    | inr s ↦ elim (Bool-cases (ltb max_string_bytes (bytes + 1))) [
      | inl big ↦ rw (q, s, big, scan_string) (λ a l e. cc)
      | inr small ↦
          rw (q, s, small, scan_string)
            (cons_byte-ReadsOn c cs line column
              (scan_string (bytes + 1) cs (next_line c line) (next_column c column))
              (scan_string-ReadsOn (bytes + 1) cs (next_line c line) (next_column c column)))
    ]
  ]
]

pub after_string-Scans :
    (c : ℕ) (cs : Bytes) (line column : ℕ) (r : Lex Bytes)
    → ReadsOn IsAny 0 (after_byte c cs line column) r
    → Scans (stay (c ∷ cs) line column) (after_string (stay (c ∷ cs) line column) r)
after_string-Scans c cs line column (fail rc d) h = fail-Scans
after_string-Scans c cs line column (done text l) h =
    let zero_fits : 0 ≤ max_int = omega arith in
    let closed = Reads-take {l = l} Reads-here in
    let read = Reads-less 1 (omega arith) (Reads-step (Reads-trans (h text l refl).0 closed)) in
    search (if-Scans, fail-Scans, emit_text-Scans, read, zero_fits)

pub lex_string-Scans :
    (c : ℕ) (cs : Bytes) (line column : ℕ)
    → Scans (stay (c ∷ cs) line column) (lex_string (stay (c ∷ cs) line column))
unfolding lex_string take_byte
lex_string-Scans c cs line column =
    after_string-Scans c cs line column (scan_string 0 cs (next_line c line) (next_column c column))
      (scan_string-ReadsOn 0 cs (next_line c line) (next_column c column))
