-- ===== src/Lexer.antt =====
-- The lexer, src/core/maelys_datalog_lexer.c and .h.
-- `src + pos` up to `len` is the list `rest`, and a token's text is the part of it that was read.
-- A failure carries its code and what the caller's diagnostic then holds, or none where it stays
-- cleared; the lexer itself is not used after a failure. `isalnum` is that of the C locale.
pub mod Chars
pub mod Skip
pub mod Words
pub mod Next
pub mod Reads
pub mod Position
pub mod Scans
pub mod Progress
pub mod Refusals
pub mod Validation
use Prim.Native.String.{String}
use maelys_datalog.Prelude.{
  ℕ, zero, suc, ◌+◌, Bool, true, false, List, [], ◌∷◌, Option, none, some, length, take, get_elem?,
  ◌==◌, if◌then◌else◌, Bytes, Rc, ◌&&◌,
}

-- `maelys_datalog_token_kind_t`.
pub data TokenKind : Type 0 where
  eof predicate variable string integer boolean underscore : TokenKind
  lparen rparen comma dot neck eq neq lt lte gt gte not_kw plus minus star : TokenKind

-- `len` is the length of `text`.
pub record Token : Type 0 where
  pub kind : TokenKind
  pub text : Bytes
  pub integer : ℕ
  pub boolean : Bool
  pub line : ℕ
  pub column : ℕ

pub record Lexer : Type 0 where
  pub rest : Bytes
  pub line : ℕ
  pub column : ℕ

pub data DiagCode : Type 0 where
  invalid_token unsupported_construct invalid_utf8 string_too_long : DiagCode

-- The fields of the internal diagnostic that the lexer writes, the phase and the path excepted.
pub record Diagnostic : Type 0 where
  pub code : DiagCode
  pub line : ℕ
  pub column : ℕ
  pub token : Bytes
  pub count : ℕ
  pub limit : ℕ
  pub message : String
  pub hint : String

pub data Lex (A : Type 0) : Type 0 where
  done : A → Lexer → Lex A
  fail : Rc → Option Diagnostic → Lex A

infixl 5 ◌>>=◌
abbrev pub ◌>>=◌ : {A B : Type 0} → Lex A → (A → Lexer → Lex B) → Lex B
done a l >>= f = f a l
fail rc d >>= f = fail rc d

-- `sizeof(diag->token) - 1`.
abbrev pub diag_token_bytes : ℕ
diag_token_bytes = 95

-- `lexer_invalid` with `diag_token`, which cuts the token to the size of its field.
abbrev pub lexer_invalid : {A : Type 0} → Lexer → DiagCode → Rc → Bytes → String → String → Lex A
lexer_invalid l code rc token message hint = fail rc (
    some (record {
      code = code;
      line = l.line;
      column = l.column;
      token = take diag_token_bytes token;
      count = 0;
      limit = 0;
      message = message;
      hint = hint;
    }))

-- `peek(l, off)`; a negative result is none.
abbrev pub peek : Lexer → ℕ → Option ℕ
peek l off = get_elem? l.rest off

-- `peek(l, off) == c`.
abbrev pub peek_is : Bytes → ℕ → ℕ → Bool
peek_is rest off c = elim (get_elem? rest off) [ none ↦ false | some d ↦ d == c ]

-- The line and the column behind a byte that `take` reads.
abbrev pub next_line : ℕ → ℕ → ℕ
next_line c line = if c == b'\n' then line + 1 else line

abbrev pub next_column : ℕ → ℕ → ℕ
next_column c column = if c == b'\n' then 1 else column + 1

-- `take(l)` where a byte is left.
abbrev pub after_byte : ℕ → Bytes → ℕ → ℕ → Lexer
after_byte c cs line column = record {
  rest = cs;
  line = next_line c line;
  column = next_column c column;
}

-- `take(l)`, which does nothing at the end.
unfoldable pub take_byte : Lexer → Lexer
take_byte l = elim l.rest [ [] ↦ l | c ∷ cs ↦ after_byte c cs l.line l.column ]
