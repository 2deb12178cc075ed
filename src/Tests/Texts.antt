-- ===== src/Tests/Texts.antt =====
-- The lexer.
use maelys_datalog.Lexer.Validation.{Tokens, at_start, lexer_validate-Tokens}
use maelys_datalog.Prelude.{
  internal, ◌↔◌, ◌≢◌, same_bytes, arith, true, false, List, [], ◌∷◌, ◌≡◌, refl, none, Bytes, ok,
}
use maelys_datalog.Lexer.{Lexer, Token, predicate, done, take_byte}
use maelys_datalog.Lexer.Chars.{is_digit, is_pred_start, is_pred_char, is_var_start, is_var_char}
use maelys_datalog.Lexer.Skip.{skip_ws_comments, skip_rounds, skip_once, skip_line, is_space}
use maelys_datalog.Lexer.Words.{
  emit_text, scan_while, lex_predicate, lex_variable, lex_integer, scan_digits,
}
use maelys_datalog.Lexer.Next.{
  lexer_next, lex_token, lex_punctuation, lexer_validate, lexer_init, validate_loop,
}
use maelys_datalog.Lexer.Scans.{Scanned}
use maelys_datalog.Lexer.Progress.{lexer_next-Scanned}
use maelys_datalog.Utf8.Encoding.{IsEncoded}
use maelys_datalog.Utf8.Encoding.Decode.{utf8_validate-IsEncoded}
use maelys_datalog.Utf8.{utf8_validate, validate_from, sequence_length}

-- A comment, a newline and `ok(X, 42).`
abbrev text : Bytes
text = b'%' ∷ b'\n' ∷ b'o' ∷ b'k' ∷ b'(' ∷ b'X' ∷ b',' ∷ b' ' ∷ b'4' ∷ b'2' ∷ b')' ∷ b'.' ∷ []

abbrev begin : Lexer
begin = record { rest = text; line = 1; column = 1 }

abbrev name : Token
name = record {
  kind = predicate;
  text = b'o' ∷ b'k' ∷ [];
  integer = 0;
  boolean = false;
  line = 2;
  column = 1;
}

abbrev behind : Lexer
behind = record {
  rest = b'(' ∷ b'X' ∷ b',' ∷ b' ' ∷ b'4' ∷ b'2' ∷ b')' ∷ b'.' ∷ [];
  line = 2;
  column = 3;
}

reads_name : lexer_next begin ≡ done name behind
unfolding lexer_next lex_token skip_ws_comments skip_rounds skip_once skip_line is_space take_byte
    lex_predicate scan_while emit_text is_pred_start is_pred_char is_digit same_bytes
reads_name = refl

lexer_next-Scanned_example : Scanned begin name behind
lexer_next-Scanned_example = lexer_next-Scanned begin name behind reads_name

accepts : lexer_validate text ≡ (ok, none)
unfolding lexer_validate lexer_init validate_loop lexer_next lex_token lex_punctuation
    skip_ws_comments skip_rounds skip_once skip_line is_space take_byte lex_predicate lex_variable
    lex_integer scan_digits scan_while emit_text is_pred_start is_pred_char is_var_start is_var_char
    is_digit same_bytes utf8_validate validate_from sequence_length
accepts = refl

lexer_validate-Tokens_example :
    ((lexer_validate text).0 ≢ internal)
    × (((lexer_validate text).0 ≡ ok)
        ↔ ((utf8_validate text ≡ true) × ((ts : List Token) × Tokens (at_start text) ts)))
lexer_validate-Tokens_example = lexer_validate-Tokens text

-- A letter of two bytes.
abbrev accented : Bytes
accented = 195 ∷ 169 ∷ []

accepts_accented : utf8_validate accented ≡ true
unfolding utf8_validate validate_from sequence_length
accepts_accented = refl

utf8_validate-IsEncoded_example : (utf8_validate accented ≡ true) ↔ IsEncoded accented
utf8_validate-IsEncoded_example = utf8_validate-IsEncoded accented (omega arith, (omega arith, tt))

-- The encoding of a surrogate, and a slash in two bytes.
refuses_surrogate : utf8_validate (237 ∷ 160 ∷ 128 ∷ []) ≡ false
unfolding utf8_validate validate_from sequence_length
refuses_surrogate = refl

refuses_overlong : utf8_validate (192 ∷ 175 ∷ []) ≡ false
unfolding utf8_validate validate_from sequence_length
refuses_overlong = refl
