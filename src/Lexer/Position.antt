-- ===== src/Lexer/Position.antt =====
-- The line and the column behind the bytes that were read.
use maelys_datalog.Prelude.{
  ℕ, zero, suc, ◌+◌, ◌≤◌, [], ◌∷◌, ◌++◌, ◌≡◌, ◌⊎◌, inl, inr, refl, ap, arith, length, Bool-cases,
  ◌==◌, if◌then◌else◌, Bytes, subst,
}
use maelys_datalog.Lexer.{Lexer, take_byte, after_byte, next_line, next_column}
use maelys_datalog.Lexer.Reads.{Reads, advance}
use maelys_datalog.Lexer.Words.{stay}

abbrev pub newlines : Bytes → ℕ
newlines [] = 0
newlines (c ∷ cs) = if c == b'\n' then suc (newlines cs) else newlines cs

-- The column behind bytes that were read from a column on: in the same line it is further by their
-- number, and else one more than the number of bytes behind the last newline.
abbrev pub IsColumn : Bytes → ℕ → ℕ → Type 0
IsColumn read from to =
    ((newlines read ≡ 0) × (to ≡ from + length read))
    ⊎ ((before : Bytes) × (line : Bytes) × (read ≡ before ++ b'\n' ∷ line)
        × (newlines line ≡ 0)
        × (to ≡ 1 + length line))

-- The bytes `read` stand between the two lexers.
pub record Counted (read : Bytes) (l l' : Lexer) : Type 0 where
  pub bytes : l.rest ≡ read ++ l'.rest
  pub lines : l'.line ≡ l.line + newlines read
  pub column : IsColumn read l.column l'.column

step-IsColumn :
    (c : ℕ) (read : Bytes) (from to : ℕ)
    → IsColumn read (next_column c from) to
    → IsColumn (c ∷ read) from to
step-IsColumn c read from to (inl (none_read, e)) = elim (Bool-cases (c == b'\n')) [
  | inl t ↦
      let same : c ≡ b'\n' = ground arith in
      inr ([], read, ap (λ (x : ℕ). x ∷ read) same, none_read, rw t at e)
  | inr t ↦
      let moved : to ≡ from + 1 + length read = rw t at e in rw t (inl (none_read, omega arith))
]
step-IsColumn c read from to (inr (before, line, e, k, q)) =
    inr (c ∷ before, line, ap (λ r. c ∷ r) e, k, q)

step-Counted :
    (c : ℕ) (cs : Bytes) (line column : ℕ) (read : Bytes) (l' : Lexer)
    → Counted read (after_byte c cs line column) l'
    → Counted (c ∷ read) (stay (c ∷ cs) line column) l'
step-Counted c cs line column read l' k =
    let lines = k.lines in
    record {
      bytes = ap (λ r. c ∷ r) k.bytes;
      lines = ground arith;
      column = step-IsColumn c read column l'.column k.column;
    }

advance-Counted :
    (n : ℕ) (rest : Bytes) (line column : ℕ)
    → n ≤ length rest
    → (read : Bytes) × (length read ≡ n)
      × Counted read (stay rest line column) (advance n (stay rest line column))
unfolding take_byte
advance-Counted zero rest line column le =
    ([], refl, record { bytes = refl; lines = omega arith; column = inl (refl, omega arith) })
advance-Counted (suc n) [] line column le = absurd (omega arith)
advance-Counted (suc n) (c ∷ cs) line column le =
    let (read, e, k) =
      advance-Counted n cs (next_line c line) (next_column c column) (omega arith) in
    (c ∷ read, omega arith, step-Counted c cs line column read _ k)

pub Reads-Counted :
    {least : ℕ} (l l' : Lexer) → Reads least l l' → (read : Bytes) × Counted read l l'
Reads-Counted l l' r =
    let (read, e, k) = advance-Counted r.bytes l.rest l.line l.column r.within in
    (read, subst (Counted read l) r.reached k)
