-- ===== src/Lexer/Progress.antt =====
-- What `maelys_datalog_lexer_next` promises of a token.
use maelys_datalog.Prelude.{
  ℕ, suc, ◌≤◌, true, false, [], ◌∷◌, ◌≡◌, refl, arith, length, Bool-cases, inl, inr, Bytes, subst,
}
use maelys_datalog.Bounds.{max_int}
use maelys_datalog.Lexer.{Lexer, Lex, done, fail, Token, eof, take_byte, after_byte, ◌>>=◌}
use maelys_datalog.Lexer.Chars.{is_digit, is_pred_char, is_var_char, is_pred_start, is_var_start}
use maelys_datalog.Lexer.Skip.{skip_ws_comments}
use maelys_datalog.Lexer.Words.{token, stay}
use maelys_datalog.Lexer.Next.{lex_punctuation, lex_token, lexer_next}
use maelys_datalog.Lexer.Reads.{
  Reads, Reads-here, Reads-step, Reads-less, Reads-take, Reads-trans, done_inj, skip_rounds-Reads,
}
use maelys_datalog.Lexer.Position.{Reads-Counted}
use maelys_datalog.Lexer.Scans.{
  Scanned, Scans, emit_text-Scans, fail-Scans, if-Scans, lex_integer-Scans, lex_predicate-Scans,
  lex_string-Scans, lex_variable-Scans, plain-Scans,
}

lex_punctuation-Scans :
    (start : Lexer) (c : ℕ) (l : Lexer) → Reads 1 start l → Scans start (lex_punctuation start c l)
unfolding lex_punctuation
lex_punctuation-Scans start c l r =
    let zero_fits : 0 ≤ max_int = omega arith in
    let longer = Reads-less 1 (omega arith) (Reads-trans r (Reads-take {l = l} Reads-here)) in
    search (if-Scans, fail-Scans, emit_text-Scans, plain-Scans, r, longer, zero_fits) depth 40 fits
      50000

pred_start-char : (c : ℕ) → is_pred_start c ≡ true → is_pred_char c ≡ true
unfolding is_pred_start is_pred_char
pred_start-char c h = ground arith

var_start-char : (c : ℕ) → is_var_start c ≡ true → is_var_char c ≡ true
unfolding is_var_start is_var_char
var_start-char c h = ground arith

eof-Scans : (line column : ℕ) → Scans (stay [] line column) (lex_token (stay [] line column))
unfolding lex_token
eof-Scans line column t l' e =
    let (same, at_end) = done_inj e in
    subst (λ (x : Token). Scanned (stay [] line column) x l') same
      (subst (Scanned (stay [] line column) (token (stay [] line column) eof [] 0 false)) at_end
        (record {
          reads = Reads-here;
          counted = Reads-Counted _ _ Reads-here;
          progress = λ h. cc;
          ends = λ h. refl;
          text_fits = omega arith;
          integer_fits = omega arith;
        }))

lex_token-Scans :
    (rest : Bytes) (line column : ℕ)
    → Scans (stay rest line column) (lex_token (stay rest line column))
unfolding lex_token take_byte
lex_token-Scans [] line column = eof-Scans line column
lex_token-Scans (c ∷ cs) line column = elim (Bool-cases (is_pred_start c)) [
  | inl p ↦ rw (p, lex_token) (lex_predicate-Scans c cs line column (pred_start-char c p))
  | inr p ↦ elim (Bool-cases (is_var_start c)) [
    | inl v ↦ rw (p, v, lex_token) (lex_variable-Scans c cs line column (var_start-char c v))
    | inr v ↦ elim (Bool-cases (is_digit c)) [
      | inl d ↦ rw (p, v, d, lex_token) (lex_integer-Scans c cs line column d)
      | inr d ↦
          let punctuation =
            lex_punctuation-Scans (stay (c ∷ cs) line column) c (after_byte c cs line column)
              (Reads-step Reads-here) in
          rw (p, v, d, lex_token) (search (if-Scans, lex_string-Scans, punctuation))
    ]
  ]
]

-- A token behind what was skipped.
bind-Scans :
    (start : Lexer) (r : Lex (Unit {0}))
    → ((l : Lexer) → r ≡ done tt l → Reads 0 start l)
    → Scans start (r >>= λ _ l. lex_token l)
bind-Scans start (fail rc d) h t l' e = cc
bind-Scans start (done u m) h t l' e =
    let skipped = h m refl in
    let s = lex_token-Scans m.rest m.line m.column t l' e in
    record {
      reads = Reads-less 0 (omega arith) (Reads-trans skipped s.reads);
      counted = Reads-Counted _ _ (Reads-trans skipped s.reads);
      progress = λ k. Reads-less 1 (omega arith) (Reads-trans skipped (s.progress k));
      ends = s.ends;
      text_fits = s.text_fits;
      integer_fits = s.integer_fits;
    }

-- Every token that `maelys_datalog_lexer_next` returns is read from the bytes left: the line behind it
-- has grown by the newlines among the bytes read, and the column behind it has grown by their number
-- or, after a newline, is one more than the number of bytes behind the last one; every token but the end takes one byte or more, the end comes only
-- where no byte is left, a text has at most 1024 bytes, and an integer is at most 2147483647.
pub lexer_next-Scanned :
    (l : Lexer) (t : Token) (l' : Lexer) → lexer_next l ≡ done t l' → Scanned l t l'
unfolding lexer_next skip_ws_comments
lexer_next-Scanned l t l' e =
    bind-Scans l (skip_ws_comments l) (λ m h. skip_rounds-Reads (suc (length l.rest)) l m h) t l' e
