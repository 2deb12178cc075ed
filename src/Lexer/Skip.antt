-- ===== src/Lexer/Skip.antt =====
-- `skip_ws_comments`.
use maelys_datalog.Prelude.{
  ℕ, zero, suc, Bool, [], ◌∷◌, Option, none, some, ◌==◌, ◌&&◌, ◌||◌, if◌then◌else◌, Bytes,
  unsupported, invalid_field, internal, length,
}
use maelys_datalog.Lexer.{
  Lexer, Lex, done, fail, lexer_invalid, invalid_token, peek_is, next_line, next_column, after_byte,
  take_byte,
}

-- A `%` comment, up to the newline, which stays.
unfoldable pub skip_line : Bytes → ℕ → ℕ → Lexer
skip_line [] line column = record { rest = []; line = line; column = column }
skip_line (c ∷ cs) line column =
    if c == b'\n'
    then record { rest = c ∷ cs; line = line; column = column }
    else skip_line cs (next_line c line) (next_column c column)

-- The inside of a block comment. A comment inside it is refused without a diagnostic.
unfoldable pub skip_block : Bytes → ℕ → ℕ → Lex (Unit {0})
skip_block [] line column =
    lexer_invalid (record { rest = []; line = line; column = column }) invalid_token invalid_field
      (b'/' ∷ b'*' ∷ []) "unterminated block comment" "close the block comment before end of file"
skip_block (c ∷ cs) line column =
    let rest = skip_block cs (next_line c line) (next_column c column) in
    if c == b'/' && peek_is cs 0 b'*'
    then fail unsupported none
    else if c == b'*' && peek_is cs 0 b'/'
    then done tt (take_byte (after_byte c cs line column))
    else rest

unfoldable pub is_space : ℕ → Bool
is_space c = c == b' ' || c == b'\t' || c == b'\r' || c == b'\n'

abbrev pub skip_opened : Lexer → Lex (Unit {0})
skip_opened l = skip_block l.rest l.line l.column

-- One round of the outer loop: none where it returns OK, else where it goes on or how it fails.
unfoldable pub skip_once : Lexer → Option (Lex (Unit {0}))
skip_once l = elim l.rest [
  | [] ↦ none
  | c ∷ cs ↦
      if is_space c
      then some (done tt (take_byte l))
      else if c == b'%'
      then some (done tt (skip_line l.rest l.line l.column))
      else if c == b'/' && peek_is cs 0 b'*'
      then some (skip_opened (take_byte (take_byte l)))
      else none
]

-- The outer loop. Every round but the last reads a byte, so one more than the bytes left is fuel
-- enough; `internal` stands for fuel that ran out.
unfoldable pub skip_rounds : ℕ → Lexer → Lex (Unit {0})
skip_rounds zero l = fail internal none
skip_rounds (suc n) l = elim (skip_once l) [
  | none ↦ done tt l
  | some (fail rc d) ↦ fail rc d
  | some (done _ l') ↦ skip_rounds n l'
]

unfoldable pub skip_ws_comments : Lexer → Lex (Unit {0})
skip_ws_comments l = skip_rounds (suc (length l.rest)) l
