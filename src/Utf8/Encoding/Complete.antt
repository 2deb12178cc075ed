-- ===== src/Utf8/Encoding/Complete.antt =====
-- The validator accepts the encodings.
use maelys_datalog.Prelude.{
  ℕ, zero, suc, ◌+◌, ◌/◌, ◌%◌, ◌≤◌, ◌<◌, true, List, [], ◌∷◌, ◌++◌, some, ◌≡◌, inl, inr, refl, ◌∙◌,
  arith, Bytes, drop, ltb, length, Bool-cases, All,
}
use maelys_datalog.Utf8.{is_cont, sequence_length, validate_from}
use maelys_datalog.Utf8.Encoding.{IsScalar, encode, encode_all, is_cont-between}

-- A byte that carries six bits.
is_cont_six : (x : ℕ) → x < 64 → is_cont (128 + x) ≡ true
is_cont_six x h = is_cont-between (128 + x) (omega arith) ∙ ground arith

one : (u : ℕ) (rest : Bytes) → u < 128 → sequence_length u rest ≡ some 1
unfolding sequence_length
one u rest h = ground arith

two :
    (u : ℕ) (rest : Bytes)
    → 128 ≤ u
    → u < 2048
    → sequence_length (192 + u / 64) ((128 + u % 64) ∷ rest) ≡ some 2
unfolding sequence_length
two u rest p q = let a = is_cont_six (u % 64) (omega arith) in ground arith

three :
    (u : ℕ) (rest : Bytes)
    → 2048 ≤ u
    → u < 65536
    → IsScalar u
    → sequence_length (224 + u / 4096) ((128 + u / 64 % 64) ∷ (128 + u % 64) ∷ rest) ≡ some 3
unfolding sequence_length
three u rest p q s =
    let a = is_cont_six (u / 64 % 64) (omega arith) in
    let b = is_cont_six (u % 64) (omega arith) in ground arith

four :
    (u : ℕ) (rest : Bytes)
    → 65536 ≤ u
    → u < 1114112
    → sequence_length
        (240 + u / 262144)
        ((128 + u / 4096 % 64) ∷ (128 + u / 64 % 64) ∷ (128 + u % 64) ∷ rest)
      ≡ some 4
unfolding sequence_length
four u rest p q =
    let a = is_cont_six (u / 4096 % 64) (omega arith) in
    let b = is_cont_six (u / 64 % 64) (omega arith) in
    let c = is_cont_six (u % 64) (omega arith) in ground arith

-- The round that reads a sequence goes on with the rest.
round-accepted :
    (c : ℕ) (cs rest : Bytes) (k n : ℕ)
    → sequence_length c cs ≡ some k
    → drop k (c ∷ cs) ≡ rest
    → length rest < length (c ∷ cs)
    → length (c ∷ cs) ≤ n
    → ((m : ℕ) → length rest ≤ m → validate_from m rest ≡ true)
    → validate_from n (c ∷ cs) ≡ true
unfolding validate_from
round-accepted c cs rest k zero e d shorter le next = absurd (omega arith)
round-accepted c cs rest k (suc n) e d shorter le next =
    rw (e, validate_from, d) (next n (omega arith))

encode-accepted :
    (u : ℕ) (rest : Bytes)
    → IsScalar u
    → ((m : ℕ) → length rest ≤ m → validate_from m rest ≡ true)
    → (n : ℕ) → length (encode u ++ rest) ≤ n
    → validate_from n (encode u ++ rest) ≡ true
unfolding encode
encode-accepted u rest s next = elim (Bool-cases (ltb u 0x80)) [
  | inl a ↦ rw a (λ n le.
      round-accepted u rest rest 1 n (one u rest (ground arith)) refl (omega arith) le next)
  | inr a ↦ elim (Bool-cases (ltb u 0x800)) [
    | inl b ↦
        rw (a, b)
          (λ n le.
            round-accepted _ _ rest 2 n (two u rest (ground arith) (ground arith)) refl
              (omega arith) le next)
    | inr b ↦ elim (Bool-cases (ltb u 0x10000)) [
      | inl c ↦
          rw (a, b, c)
            (λ n le.
              round-accepted _ _ rest 3 n (three u rest (ground arith) (ground arith) s) refl
                (omega arith) le next)
      | inr c ↦
          rw (a, b, c)
            (λ n le.
              round-accepted _ _ rest 4 n (four u rest (ground arith) (ground arith)) refl
                (omega arith) le next)
    ]
  ]
]

pub encode_all-accepted :
    (us : List ℕ)
    → All IsScalar us
    → (n : ℕ) → length (encode_all us) ≤ n
    → validate_from n (encode_all us) ≡ true
unfolding validate_from
encode_all-accepted [] s n le = refl
encode_all-accepted (u ∷ us) s n le =
    encode-accepted u (encode_all us) s.0 (encode_all-accepted us s.1) n le
