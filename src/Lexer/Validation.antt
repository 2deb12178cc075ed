-- ===== src/Lexer/Validation.antt =====
-- What `maelys_datalog_lexer_validate_ex` accepts.
use maelys_datalog.Prelude.{
  ℕ, zero, suc, ◌<◌, true, false, List, [], ◌∷◌, Option, ◌≡◌, ◌≢◌, ◌↔◌, refl, ap, arith, length,
  Bool-cases, inl, inr, Bytes, subst, Rc, ok, internal, ◌⊎◌,
}
use maelys_datalog.Utf8.{utf8_validate}
use maelys_datalog.Lexer.{Lexer, Lex, done, fail, Token, Diagnostic}
use maelys_datalog.Lexer.Next.{is_eof, lexer_next, lexer_init, validate_loop, lexer_validate}
use maelys_datalog.Lexer.Reads.{Reads-length}
use maelys_datalog.Lexer.Progress.{lexer_next-Scanned}
use maelys_datalog.Lexer.Refusals.{lexer_next-Refuses}

-- The tokens that `lexer_next` returns one after the other, the last of which is the end.
abbrev pub Tokens : Lexer → List Token → Type 0
Tokens l [] = ⊥
Tokens l (t ∷ ts) =
    (l' : Lexer) × (lexer_next l ≡ done t l')
    × (((is_eof t.kind ≡ true) × (ts ≡ [])) ⊎ ((is_eof t.kind ≡ false) × Tokens l' ts))

abbrev pub at_start : Bytes → Lexer
at_start text = record { rest = text; line = 1; column = 1 }

Lex-cases :
    {A : Type 0} (r : Lex A)
    → ((rc : Rc) × (d : Option Diagnostic) × (r ≡ fail rc d))
      ⊎ ((a : A) × (l : Lexer) × (r ≡ done a l))
Lex-cases (fail rc d) = inl (rc, d, refl)
Lex-cases (done a l) = inr (a, l, refl)

Tokens-fail :
    (l : Lexer) (ts : List Token) (rc : Rc) (d : Option Diagnostic)
    → lexer_next l ≡ fail rc d
    → Tokens l ts
    → ⊥
Tokens-fail l [] rc d e w = w
Tokens-fail l (t ∷ ts) rc d e (m, f, more) = cc (e, f)

-- The tokens behind the first.
Tokens-tail :
    (l m : Lexer) (t : Token) (ts : List Token)
    → lexer_next l ≡ done t m
    → is_eof t.kind ≡ false
    → Tokens l ts
    → (us : List Token) × Tokens m us
Tokens-tail l m t [] e k w = absurd w
Tokens-tail l m t (u ∷ us) e k (m', f, inl (k', last)) =
    let same : t ≡ u = cc (e, f) in cc (k, k', ap (λ (x : Token). is_eof x.kind) same)
Tokens-tail l m t (u ∷ us) e k (m', f, inr (k', w)) =
    let same : m' ≡ m = cc (e, f) in (us, subst (λ (x : Lexer). Tokens x us) same w)

-- The loop with enough fuel, from any place.
validate_loop-Tokens :
    (n : ℕ) (l : Lexer)
    → length l.rest < n
    → ((validate_loop n l).0 ≢ internal)
      × (((validate_loop n l).0 ≡ ok) ↔ ((ts : List Token) × Tokens l ts))
unfolding validate_loop
validate_loop-Tokens zero l h = absurd (omega arith)
validate_loop-Tokens (suc n) l h = elim (Lex-cases (lexer_next l)) [
  | inl (rc, d, e) ↦
      let bad = lexer_next-Refuses l rc d e in
      rw (e, validate_loop)
        (bad.1, (λ o. absurd (bad.0 o), λ (ts, w). absurd (Tokens-fail l ts rc d e w)))
  | inr (t, m, e) ↦ elim (Bool-cases (is_eof t.kind)) [
    | inl k ↦ rw (e, k, validate_loop) (λ i. cc, (λ _. (t ∷ [], (m, e, inl (k, refl))), λ _. refl))
    | inr k ↦
        let read = Reads-length ((lexer_next-Scanned l t m e).progress k) in
        let (right, (to, from)) = validate_loop-Tokens n m (omega (arith, read, h)) in
        rw (e, k, validate_loop)
          (
            right,
            (
              λ o. let (ts, w) = to o in (t ∷ ts, (m, e, inr (k, w))),
              λ (ts, w). from (Tokens-tail l m t ts e k w),
            ),
          )
  ]
]

-- `maelys_datalog_lexer_validate_ex` ends, never with an internal error, and returns OK exactly if
-- the text is valid for `maelys_utf8_validate` and `maelys_datalog_lexer_next` reads it as a list of
-- tokens up to the end.
pub lexer_validate-Tokens :
    (text : Bytes)
    → ((lexer_validate text).0 ≢ internal)
      × (((lexer_validate text).0 ≡ ok)
          ↔ ((utf8_validate text ≡ true) × ((ts : List Token) × Tokens (at_start text) ts)))
unfolding lexer_validate lexer_init
lexer_validate-Tokens text = elim (Bool-cases (utf8_validate text)) [
  | inl u ↦
      let (right, (to, from)) =
        validate_loop-Tokens (suc (length text)) (at_start text) (omega arith) in
      rw (u, lexer_validate, lexer_init) (right, (λ o. (refl, to o), λ (v, w). from w))
  | inr u ↦ rw (u, lexer_validate, lexer_init) (λ i. cc, (λ o. cc, λ (v, w). cc))
]
