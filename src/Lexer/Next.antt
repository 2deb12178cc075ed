-- ===== src/Lexer/Next.antt =====
-- `maelys_datalog_lexer_next`, and the loop of `maelys_datalog_lexer_validate_ex`.
use maelys_datalog.Prelude.{
  ℕ, zero, suc, Bool, true, false, [], ◌∷◌, Option, none, some, ◌==◌, ◌||◌, if◌then◌else◌, length,
  Bytes, Rc, ok, unsupported, invalid_field, internal,
}
use maelys_datalog.Lexer.{
  Lexer, Lex, done, fail, Token, TokenKind, eof, underscore, lparen, rparen, comma, dot, neck, eq,
  neq, lt, lte, gt, gte, plus, minus, star, lexer_invalid, invalid_token, unsupported_construct,
  invalid_utf8, Diagnostic, peek_is, take_byte, ◌>>=◌,
}
use maelys_datalog.Utf8.{utf8_validate}
use maelys_datalog.Lexer.Chars.{is_digit, is_pred_start, is_var_start, is_alnum}
use maelys_datalog.Lexer.Skip.{skip_ws_comments}
use maelys_datalog.Lexer.Words.{
  token, emit_text, lex_predicate, lex_variable, lex_integer, lex_string, v2_hint,
}

-- A test of `peek(l, 0)`, which fails at the end.
abbrev pub peek_in : (ℕ → Bool) → Bytes → Bool
peek_in p [] = false
peek_in p (c ∷ _) = p c

abbrev pub unsupported_byte : Lexer → Bytes → Lex Token
unsupported_byte l text =
    lexer_invalid l unsupported_construct unsupported text "unsupported Datalog construct" v2_hint

abbrev pub plain : Lexer → TokenKind → Lexer → Lex Token
plain start kind l = done (token start kind [] 0 false) l

abbrev pub is_refused : ℕ → Bool
is_refused c = c == b'?' || c == b'~' || c == b';' || c == b'|' || c == b'&'

-- The `switch` on the byte `c`, which was read at `start`; `l` is behind it.
unfoldable pub lex_punctuation : Lexer → ℕ → Lexer → Lex Token
lex_punctuation start c l =
    if c == b'_'
    then (if peek_in is_alnum l.rest || peek_is l.rest 0 b'_'
        then lexer_invalid l unsupported_construct unsupported (c ∷ [])
            "unsupported Datalog construct"
            "underscore is only supported as an isolated anonymous variable"
        else emit_text start underscore (c ∷ []) 0 false l)
    else if c == b'('
    then plain start lparen l
    else if c == b')'
    then plain start rparen l
    else if c == b','
    then plain start comma l
    else if c == b'+'
    then plain start plus l
    else if c == b'-'
    then plain start minus l
    else if c == b'*'
    then plain start star l
    else if c == b'.'
    then (if peek_in is_pred_start l.rest
        then lexer_invalid l unsupported_construct unsupported (b'.' ∷ []) "unsupported directive"
            v2_hint
        else plain start dot l)
    else if c == b':'
    then (if peek_is l.rest 0 b'-'
        then plain start neck (take_byte l)
        else lexer_invalid l invalid_token invalid_field (b':' ∷ []) "invalid token"
            "use :- to introduce a rule body")
    else if c == b'='
    then plain start eq l
    else if c == b'!'
    then (if peek_is l.rest 0 b'='
        then plain start neq (take_byte l)
        else unsupported_byte l (b'!' ∷ []))
    else if c == b'<'
    then (if peek_is l.rest 0 b'='
        then plain start lte (take_byte l)
        else if peek_is l.rest 0 b'-'
        then lexer_invalid l unsupported_construct unsupported (b'<' ∷ b'-' ∷ [])
            "unsupported rule neck" "use :- to introduce a rule body"
        else plain start lt l)
    else if c == b'>'
    then (if peek_is l.rest 0 b'=' then plain start gte (take_byte l) else plain start gt l)
    else if is_refused c
    then unsupported_byte l (c ∷ [])
    else lexer_invalid l invalid_token invalid_field (c ∷ []) "invalid token"
        "use MAELYS-DATALOG-v2 syntax"

-- The token at `l`, behind blanks and comments.
unfoldable pub lex_token : Lexer → Lex Token
lex_token l = elim l.rest [
  | [] ↦ plain l eof l
  | c ∷ _ ↦
      if is_pred_start c
      then lex_predicate l
      else if is_var_start c
      then lex_variable l
      else if is_digit c
      then lex_integer l
      else if c == b'"'
      then lex_string l
      else lex_punctuation l c (take_byte l)
]

unfoldable pub lexer_next : Lexer → Lex Token
lexer_next l = skip_ws_comments l >>= λ _ l'. lex_token l'

abbrev pub is_eof : TokenKind → Bool
is_eof kind = elim kind [ eof ↦ true | _ ↦ false ]

-- The `do` loop; every token but the last reads a byte, so one more than the bytes left is fuel
-- enough, and `internal` stands for fuel that ran out.
unfoldable pub validate_loop : ℕ → Lexer → Rc × Option Diagnostic
validate_loop zero l = (internal, none)
validate_loop (suc n) l = elim (lexer_next l) [
  | fail rc d ↦ (rc, d)
  | done t l' ↦ if is_eof t.kind then (ok, none) else validate_loop n l'
]

unfoldable pub lexer_init : Bytes → Lex (Unit {0})
lexer_init text =
    if utf8_validate text
    then done tt (record { rest = text; line = 1; column = 1 })
    else fail invalid_field (
        some (record {
          code = invalid_utf8;
          line = 0;
          column = 0;
          token = [];
          count = 0;
          limit = 0;
          message = "invalid UTF-8 in policy text";
          hint = "ensure the policy text is valid UTF-8";
        }))

unfoldable pub lexer_validate : Bytes → Rc × Option Diagnostic
lexer_validate text = elim (lexer_init text) [
  | fail rc d ↦ (rc, d)
  | done _ l ↦ validate_loop (suc (length text)) l
]
