-- ===== src/Lexer/Reads.antt =====
-- How far the lexer has read: some bytes, one after the other by `take`.
use maelys_datalog.Prelude.{
  ℕ, zero, suc, ◌+◌, ◌≤◌, ◌<◌, Bool, true, false, [], ◌∷◌, some, ◌≡◌, refl, ap, ◌∙◌, arith, length,
  Bool-cases, Option-cases, some_inj, inl, inr, ◌&&◌, ◌==◌, if◌then◌else◌, Bytes, subst,
}
use maelys_datalog.Lexer.{Lexer, done, fail, take_byte, after_byte, next_line, next_column, peek_is}
use maelys_datalog.Lexer.Skip.{skip_line, skip_block, skip_once, skip_rounds, is_space}
use maelys_datalog.Lexer.Words.{scan_while, stay}

-- `take`, `n` times.
abbrev pub advance : ℕ → Lexer → Lexer
advance zero l = l
advance (suc n) l = advance n (take_byte l)

-- `l'` is `l` after some of the bytes that it has left, `least` or more, with the line and the
-- column counted.
pub record Reads (least : ℕ) (l l' : Lexer) : Type 0 where
  pub bytes : ℕ
  pub enough : least ≤ bytes
  pub within : bytes ≤ length l.rest
  pub reached : advance bytes l ≡ l'

pub Reads-here : {l : Lexer} → Reads 0 l l
Reads-here = record { bytes = 0; enough = omega arith; within = omega arith; reached = refl }

pub Reads-step :
    {least c line column : ℕ} {cs : Bytes} {l' : Lexer}
    → Reads least (after_byte c cs line column) l'
    → Reads (suc least) (stay (c ∷ cs) line column) l'
unfolding take_byte
Reads-step r = record {
  bytes = suc r.bytes;
  enough = omega (arith, r.enough);
  within = omega (arith, r.within);
  reached = r.reached;
}

pub Reads-less :
    {least : ℕ} (less : ℕ) {l l' : Lexer} → less ≤ least → Reads least l l' → Reads less l l'
Reads-less less h r = record {
  bytes = r.bytes;
  enough = omega (arith, h, r.enough);
  within = r.within;
  reached = r.reached;
}

-- Behind a `take` that may stand at the end.
Reads-behind :
    {least : ℕ} {l' : Lexer} (rest : Bytes) (line column : ℕ)
    → Reads least (take_byte (stay rest line column)) l'
    → Reads 0 (stay rest line column) l'
unfolding take_byte
Reads-behind [] line column r = Reads-less 0 (omega arith) r
Reads-behind (c ∷ cs) line column r = Reads-less 0 (omega arith) (Reads-step r)

pub Reads-take : {least : ℕ} {l l' : Lexer} → Reads least (take_byte l) l' → Reads 0 l l'
Reads-take {least} {l} {l'} r = Reads-behind l.rest l.line l.column r

length-take_byte :
    (rest : Bytes) (line column : ℕ)
    → 0 < length rest
    → length (take_byte (stay rest line column)).rest + 1 ≡ length rest
unfolding take_byte
length-take_byte [] line column h = absurd (omega arith)
length-take_byte (c ∷ cs) line column h = omega arith

length-advance :
    (n : ℕ) (l : Lexer) → n ≤ length l.rest → length (advance n l).rest + n ≡ length l.rest
length-advance zero l h = omega arith
length-advance (suc n) l h =
    let one = length-take_byte l.rest l.line l.column (omega (arith, h)) in
    let more = length-advance n (take_byte l) (omega (arith, one, h)) in omega (arith, one, more)

advance_add : (m n : ℕ) (l : Lexer) → advance (m + n) l ≡ advance n (advance m l)
advance_add zero n l = let e : 0 + n ≡ n = omega arith in ap (λ (k : ℕ). advance k l) e
advance_add (suc m) n l =
    let e : suc m + n ≡ suc (m + n) = omega arith in
    ap (λ (k : ℕ). advance k l) e ∙ advance_add m n (take_byte l)

pub Reads-length :
    {least : ℕ} {l l' : Lexer} → Reads least l l' → length l'.rest + least ≤ length l.rest
Reads-length {least} {l} {l'} r =
    let e = length-advance r.bytes l r.within in
    let same = ap (λ (x : Lexer). length x.rest) r.reached in omega (arith, e, same, r.enough)

pub Reads-trans : {a b : ℕ} {l m n : Lexer} → Reads a l m → Reads b m n → Reads (a + b) l n
Reads-trans {a} {b} {l} {m} {n} r s =
    let e = length-advance r.bytes l r.within in
    let same = ap (λ (x : Lexer). length x.rest) r.reached in
    record {
      bytes = r.bytes + s.bytes;
      enough = omega (arith, r.enough, s.enough);
      within = omega (arith, e, same, s.within);
      reached = advance_add r.bytes s.bytes l ∙ ap (advance s.bytes) r.reached ∙ s.reached;
    }

-- The loops that read, from any place.
scan_while-Reads :
    (p : ℕ → Bool) (cs : Bytes) (line column : ℕ)
    → Reads 0 (stay cs line column) (scan_while p cs line column).1
unfolding scan_while
scan_while-Reads p [] line column = Reads-here
scan_while-Reads p (c ∷ cs) line column = elim (Bool-cases (p c)) [
  | inl e ↦
      rw (e, scan_while)
        (Reads-less 0 (omega arith)
          (Reads-step (scan_while-Reads p cs (next_line c line) (next_column c column))))
  | inr e ↦ rw (e, scan_while) Reads-here
]

-- A word that begins with a byte of its own kind.
pub scan_while-Reads_some :
    (p : ℕ → Bool) (c : ℕ) (cs : Bytes) (line column : ℕ)
    → p c ≡ true
    → Reads 1 (stay (c ∷ cs) line column) (scan_while p (c ∷ cs) line column).1
unfolding scan_while
scan_while-Reads_some p c cs line column e =
    rw (e, scan_while)
      (Reads-step (scan_while-Reads p cs (next_line c line) (next_column c column)))

if-Reads : {l a b : Lexer} (t : Bool) → Reads 0 l a → Reads 0 l b → Reads 0 l (if t then a else b)
if-Reads true r s = r
if-Reads false r s = s

else-Reads :
    {l b : Lexer} (a : Lexer) (t : Bool) → t ≡ false → Reads 1 l b → Reads 1 l (if t then a else b)
else-Reads a true h s = cc
else-Reads a false h s = s

skip_line-Reads :
    (cs : Bytes) (line column : ℕ) → Reads 0 (stay cs line column) (skip_line cs line column)
unfolding skip_line
skip_line-Reads [] line column = Reads-here
skip_line-Reads (c ∷ cs) line column = if-Reads (c == b'\n') Reads-here (
    Reads-less 0 (omega arith)
      (Reads-step (skip_line-Reads cs (next_line c line) (next_column c column))))

pub skip_line-Reads_some :
    (c : ℕ) (cs : Bytes) (line column : ℕ)
    → (c == b'\n') ≡ false
    → Reads 1 (stay (c ∷ cs) line column) (skip_line (c ∷ cs) line column)
unfolding skip_line
skip_line-Reads_some c cs line column e =
    else-Reads _ (c == b'\n') e
      (Reads-step (skip_line-Reads cs (next_line c line) (next_column c column)))

pub done_inj : {A : Type 0} {a b : A} {l m : Lexer} → done a l ≡ done b m → (a ≡ b) × (l ≡ m)
done_inj h = (cc, cc)

pub skip_block-Reads :
    (cs : Bytes) (line column : ℕ) (l : Lexer)
    → skip_block cs line column ≡ done tt l
    → Reads 0 (stay cs line column) l
unfolding skip_block
skip_block-Reads [] line column l e = cc
skip_block-Reads (c ∷ cs) line column l e = elim (Bool-cases (c == b'/' && peek_is cs 0 b'*')) [
  | inl a ↦ cc (rw (a, skip_block) at e)
  | inr a ↦ elim (Bool-cases (c == b'*' && peek_is cs 0 b'/')) [
    | inl b ↦
        subst (Reads 0 (stay (c ∷ cs) line column)) (done_inj (rw (a, b, skip_block) at e)).1
          (Reads-less 0 (omega arith) (Reads-step (Reads-take Reads-here)))
    | inr b ↦ Reads-less 0 (omega arith) (
        Reads-step (
          skip_block-Reads cs (next_line c line) (next_column c column) l
            (rw (a, b, skip_block) at e)))
  ]
]

pub skip_once-Reads :
    (rest : Bytes) (line column : ℕ) (l : Lexer)
    → skip_once (stay rest line column) ≡ some (done tt l)
    → Reads 1 (stay rest line column) l
unfolding skip_once take_byte
skip_once-Reads [] line column l e = cc
skip_once-Reads (c ∷ cs) line column l e = elim (Bool-cases (is_space c)) [
  | inl a ↦
      subst (Reads 1 (stay (c ∷ cs) line column)) (done_inj (some_inj (rw (a, skip_once) at e))).1
        (Reads-step Reads-here)
  | inr a ↦ elim (Bool-cases (c == b'%')) [
    | inl b ↦
        let other : (c == b'\n') ≡ false = ground (arith) in
        subst (Reads 1 (stay (c ∷ cs) line column))
          (done_inj (some_inj (rw (a, b, skip_once) at e))).1
          (skip_line-Reads_some c cs line column other)
    | inr b ↦ elim (Bool-cases (c == b'/' && peek_is cs 0 b'*')) [
      | inl d ↦
          let opened = take_byte (after_byte c cs line column) in
          Reads-step (
            Reads-take (
              skip_block-Reads opened.rest opened.line opened.column l
                (some_inj (rw (a, b, d, skip_once) at e))))
      | inr d ↦ cc (rw (a, b, d, skip_once) at e)
    ]
  ]
]

pub skip_rounds-Reads : (n : ℕ) (l l' : Lexer) → skip_rounds n l ≡ done tt l' → Reads 0 l l'
unfolding skip_rounds
skip_rounds-Reads zero l l' e = cc
skip_rounds-Reads (suc n) l l' e = elim (Option-cases (skip_once l)) [
  | inl a ↦ subst (Reads 0 l) (done_inj (rw (a, skip_rounds) at e)).1 Reads-here
  | inr (fail rc d, a) ↦ cc (rw (a, skip_rounds) at e)
  | inr (done u m, a) ↦ Reads-less 0 (omega arith) (
      Reads-trans (skip_once-Reads l.rest l.line l.column m a)
        (skip_rounds-Reads n m l' (rw (a, skip_rounds) at e)))
]
