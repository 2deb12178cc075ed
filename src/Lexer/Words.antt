-- ===== src/Lexer/Words.antt =====
-- `emit_text`, and the tokens of more than one byte: words, integers and strings.
use Prim.Native.String.{String}
use maelys_datalog.Prelude.{
  ℕ, ◌+◌, ◌-◌, ◌*◌, Bool, true, false, [], ◌∷◌, ◌++◌, none, some, ◌==◌, ltb, ◌&&◌, ◌||◌, not,
  if◌then◌else◌, length, take, get_elem?, Bytes, same_bytes, unsupported, invalid_field,
  payload_too_large,
}
use maelys_datalog.Bounds.{max_token_bytes, max_string_bytes, max_int}
use maelys_datalog.Lexer.{
  Lexer, Lex, done, fail, Token, TokenKind, predicate, variable, string, integer, boolean, not_kw,
  lexer_invalid, invalid_token, unsupported_construct, string_too_long, peek_is, next_line,
  next_column, after_byte, take_byte,
}
use maelys_datalog.Lexer.Chars.{is_digit, is_pred_char, is_var_char}

-- A token that starts where `at` is.
abbrev pub token : Lexer → TokenKind → Bytes → ℕ → Bool → Token
token start kind text value truth = record {
  kind = kind;
  text = text;
  integer = value;
  boolean = truth;
  line = start.line;
  column = start.column;
}

unfoldable pub emit_text : Lexer → TokenKind → Bytes → ℕ → Bool → Lexer → Lex Token
emit_text start kind text value truth l =
    if ltb max_token_bytes (length text)
    then fail payload_too_large none
    else done (token start kind text value truth) l

abbrev pub stay : Bytes → ℕ → ℕ → Lexer
stay rest line column = record { rest = rest; line = line; column = column }

-- `while (p(peek(l, 0))) take(l);` with the bytes it reads.
unfoldable pub scan_while : (ℕ → Bool) → Bytes → ℕ → ℕ → Bytes × Lexer
scan_while p [] line column = ([], stay [] line column)
scan_while p (c ∷ cs) line column =
    let rest = scan_while p cs (next_line c line) (next_column c column) in
    if p c then (c ∷ rest.0, rest.1) else ([], stay (c ∷ cs) line column)

abbrev pub bytes_not : Bytes
bytes_not = b'n' ∷ b'o' ∷ b't' ∷ []

abbrev pub bytes_and : Bytes
bytes_and = b'A' ∷ b'N' ∷ b'D' ∷ []

abbrev pub bytes_matches : Bytes
bytes_matches = b'M' ∷ b'A' ∷ b'T' ∷ b'C' ∷ b'H' ∷ b'E' ∷ b'S' ∷ []

abbrev pub bytes_upper_not : Bytes
bytes_upper_not = b'N' ∷ b'O' ∷ b'T' ∷ []

abbrev pub bytes_true : Bytes
bytes_true = b't' ∷ b'r' ∷ b'u' ∷ b'e' ∷ []

abbrev pub bytes_false : Bytes
bytes_false = b'f' ∷ b'a' ∷ b'l' ∷ b's' ∷ b'e' ∷ []

abbrev pub v2_hint : String
v2_hint = "construct is not supported by MAELYS-DATALOG-v2"

unfoldable pub lex_predicate : Lexer → Lex Token
lex_predicate start =
    let (text, l) = scan_while is_pred_char start.rest start.line start.column in
    if same_bytes text bytes_not
    then emit_text start not_kw text 0 false l
    else if same_bytes text bytes_and || same_bytes text bytes_matches
    then lexer_invalid l unsupported_construct unsupported text "unsupported Datalog construct"
        v2_hint
    else if same_bytes text bytes_true
    then emit_text start boolean text 0 true l
    else if same_bytes text bytes_false
    then emit_text start boolean text 0 false l
    else emit_text start predicate text 0 false l

unfoldable pub lex_variable : Lexer → Lex Token
lex_variable start =
    let (text, l) = scan_while is_var_char start.rest start.line start.column in
    if same_bytes text bytes_upper_not || same_bytes text bytes_and || same_bytes text bytes_matches
    then lexer_invalid l unsupported_construct unsupported text "unsupported Datalog construct"
        v2_hint
    else emit_text start variable text 0 false l

abbrev pub cons_digit : ℕ → Lex (Bytes × ℕ) → Lex (Bytes × ℕ)
cons_digit c (fail rc d) = fail rc d
cons_digit c (done r l) = done (c ∷ r.0, r.1) l

-- The loop over the digits, which returns when `val` goes over the largest integer.
unfoldable pub scan_digits : ℕ → Bytes → ℕ → ℕ → Lex (Bytes × ℕ)
scan_digits val [] line column = done ([], val) (stay [] line column)
scan_digits val (c ∷ cs) line column =
    let next = val * 10 + (c - b'0') in
    let rest = scan_digits next cs (next_line c line) (next_column c column) in
    if not (is_digit c)
    then done ([], val) (stay (c ∷ cs) line column)
    else if ltb max_int next
    then fail payload_too_large none
    else cons_digit c rest

abbrev pub digit_at : Bytes → ℕ → Bool
digit_at rest off = elim (get_elem? rest off) [ none ↦ false | some c ↦ is_digit c ]

-- What follows the loop.
abbrev pub after_digits : Lexer → Lex (Bytes × ℕ) → Lex Token
after_digits start (fail rc d) = fail rc d
after_digits start (done r l) =
    if peek_is l.rest 0 b'.' && digit_at l.rest 1
    then lexer_invalid l unsupported_construct unsupported (r.0 ++ take 2 l.rest)
        "unsupported numeric literal" "floats are not supported by MAELYS-DATALOG-v2"
    else emit_text start integer (r.0) (r.1) false l

unfoldable pub lex_integer : Lexer → Lex Token
lex_integer start = after_digits start (scan_digits 0 start.rest start.line start.column)

abbrev pub with_limit : {A : Type 0} → ℕ → ℕ → Lex A → Lex A
with_limit count limit (fail rc (some d)) =
    fail rc (some (record d { count = count; limit = limit }))
with_limit count limit r = r

abbrev pub cons_byte : ℕ → Lex Bytes → Lex Bytes
cons_byte c (fail rc d) = fail rc d
cons_byte c (done text l) = done (c ∷ text) l

-- The loop inside a string, up to the quote or the end, with the bytes read so far.
unfoldable pub scan_string : ℕ → Bytes → ℕ → ℕ → Lex Bytes
scan_string bytes [] line column = done [] (stay [] line column)
scan_string bytes (c ∷ cs) line column =
    let rest = scan_string (bytes + 1) cs (next_line c line) (next_column c column) in
    if c == b'"'
    then done [] (stay (c ∷ cs) line column)
    else if c == b'\\'
    then lexer_invalid (stay (c ∷ cs) line column) unsupported_construct unsupported (b'\\' ∷ [])
        "unsupported string escape" "string escapes are not supported by MAELYS-DATALOG-v2"
    else if ltb max_string_bytes (bytes + 1)
    then with_limit (bytes + 1) max_string_bytes (
        lexer_invalid (after_byte c cs line column) string_too_long payload_too_large []
          "string literal too long" "shorten the string atom or register a bounded atom")
    else cons_byte c rest

-- What follows the loop: the closing quote, or the end.
abbrev pub after_string : Lexer → Lex Bytes → Lex Token
after_string start (fail rc d) = fail rc d
after_string start (done text l) =
    if not (peek_is l.rest 0 b'"')
    then lexer_invalid l invalid_token invalid_field (b'"' ∷ []) "unterminated string literal"
        "close the string literal before end of file"
    else emit_text start string text 0 false (take_byte l)

unfoldable pub lex_string : Lexer → Lex Token
lex_string start =
    let opened = take_byte start in
    after_string start (scan_string 0 opened.rest opened.line opened.column)
