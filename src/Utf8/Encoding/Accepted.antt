-- ===== src/Utf8/Encoding/Accepted.antt =====
-- A round that the validator goes on from has read the encoding of a scalar value.
use maelys_datalog.Prelude.{
  ℕ, ◌≤◌, ◌<◌, true, [], ◌∷◌, some, ◌≡◌, inl, inr, sym, ◌∙◌, arith, Bytes, ltb, Bool-cases, All,
  subst,
}
use maelys_datalog.Utf8.{is_cont, between, sequence_length}
use maelys_datalog.Utf8.Encoding.{IsByte, is_cont-between}

abbrev pub IsCont : ℕ → Type 0
IsCont c = (128 ≤ c) × (c < 192)

-- The first sequence of a text, by its length, with what its bytes are known to be.
pub data Shape : ℕ → Bytes → ℕ → Type 0 where
  one : {c : ℕ} {cs : Bytes} → c < 128 → Shape c cs 1
  two : {c a : ℕ} {cs : Bytes} → 194 ≤ c → c < 224 → IsCont a → Shape c (a ∷ cs) 2
  three :
      {c a b : ℕ} {cs : Bytes}
      → 224 ≤ c
      → c < 240
      → IsCont a
      → (c ≡ 224 → 160 ≤ a)
      → (c ≡ 237 → a < 160)
      → IsCont b
      → Shape c (a ∷ b ∷ cs) 3
  four :
      {c a b d : ℕ} {cs : Bytes}
      → 240 ≤ c
      → c < 245
      → IsCont a
      → (c ≡ 240 → 144 ≤ a)
      → (c ≡ 244 → a < 144)
      → IsCont b
      → IsCont d
      → Shape c (a ∷ b ∷ d ∷ cs) 4

is_cont-IsCont : (c : ℕ) → IsByte c → is_cont c ≡ true → IsCont c
is_cont-IsCont c h e =
    let same : between 128 191 c ≡ true = sym (is_cont-between c h) ∙ e in ground arith

two-Shape :
    (c : ℕ) (cs : Bytes) (k : ℕ)
    → All IsByte cs
    → 128 ≤ c
    → c < 224
    → sequence_length c cs ≡ some k
    → Shape c cs k
unfolding sequence_length
two-Shape c [] k h p q e = absurd (ground arith)
two-Shape c (a ∷ cs) k h p q e =
    let cont : is_cont a ≡ true = ground arith in
    let same : 2 ≡ k = ground arith in
    subst (Shape c (a ∷ cs)) same (two (ground arith) (ground arith) (is_cont-IsCont a h.0 cont))

three-Shape :
    (c : ℕ) (cs : Bytes) (k : ℕ)
    → All IsByte cs
    → 224 ≤ c
    → c < 240
    → sequence_length c cs ≡ some k
    → Shape c cs k
unfolding sequence_length
three-Shape c [] k h p q e = absurd (ground arith)
three-Shape c (a ∷ []) k h p q e = absurd (ground arith)
three-Shape c (a ∷ b ∷ cs) k h p q e =
    let last : is_cont b ≡ true = ground arith in
    let same : 3 ≡ k = ground arith in
    let first : IsCont a × ((c ≡ 224 → 160 ≤ a) × (c ≡ 237 → a < 160)) =
      elim (Bool-cases (is_cont a)) [
        | inl t ↦ (is_cont-IsCont a h.0 t, (λ u. ground arith, λ u. ground arith))
        | inr t ↦ ((ground arith, ground arith), (λ u. ground arith, λ u. ground arith))
      ] in
    subst (Shape c (a ∷ b ∷ cs)) same
      (three p q first.0 first.1.0 first.1.1 (is_cont-IsCont b h.1.0 last))

four-Shape :
    (c : ℕ) (cs : Bytes) (k : ℕ)
    → All IsByte cs
    → 240 ≤ c
    → sequence_length c cs ≡ some k
    → Shape c cs k
unfolding sequence_length
four-Shape c [] k h p e = absurd (ground arith)
four-Shape c (a ∷ []) k h p e = absurd (ground arith)
four-Shape c (a ∷ b ∷ []) k h p e = absurd (ground arith)
four-Shape c (a ∷ b ∷ d ∷ cs) k h p e =
    let below : c < 245 = ground arith in
    let second : is_cont b ≡ true = ground arith in
    let last : is_cont d ≡ true = ground arith in
    let same : 4 ≡ k = ground arith in
    let first : IsCont a × ((c ≡ 240 → 144 ≤ a) × (c ≡ 244 → a < 144)) =
      elim (Bool-cases (is_cont a)) [
        | inl t ↦ (is_cont-IsCont a h.0 t, (λ u. ground arith, λ u. ground arith))
        | inr t ↦ ((ground arith, ground arith), (λ u. ground arith, λ u. ground arith))
      ] in
    subst (Shape c (a ∷ b ∷ d ∷ cs)) same (
      four p below first.0 first.1.0 first.1.1 (is_cont-IsCont b h.1.0 second)
        (is_cont-IsCont d h.1.1.0 last))

pub sequence_length-Shape :
    (c : ℕ) (cs : Bytes) (k : ℕ) → All IsByte cs → sequence_length c cs ≡ some k → Shape c cs k
unfolding sequence_length
sequence_length-Shape c cs k h e = elim (Bool-cases (ltb c 128)) [
  | inl t ↦
      let small : c < 128 = ground arith in
      let same : 1 ≡ k = ground arith in subst (Shape c cs) same (one small)
  | inr t ↦ elim (Bool-cases (ltb c 224)) [
    | inl u ↦ two-Shape c cs k h (ground arith) (ground arith) e
    | inr u ↦ elim (Bool-cases (ltb c 240)) [
      | inl v ↦ three-Shape c cs k h (ground arith) (ground arith) e
      | inr v ↦ four-Shape c cs k h (ground arith) e
    ]
  ]
]
