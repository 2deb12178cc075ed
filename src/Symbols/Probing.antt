-- ===== src/Symbols/Probing.antt =====
-- How probing ends in a valid table.
use maelys_datalog.Prelude.{
  ℕ, zero, suc, ◌+◌, ◌-◌, ◌%◌, ◌<◌, true, false, none, some, ◌≡◌, ◌≢◌, ◌⊎◌, inl, inr, refl, sym,
  subst, ◌∙◌, ap, arith, length, get_elem?, get-lt, if◌then◌else◌, ◌==◌, ◌&&◌, Bytes,
  same_bytes_iff, Bool-cases, and_true,
}
use native.Mathlib.Decide.{dec_lt}
use maelys_datalog.Bounds.{symbol_index_buckets}
use maelys_datalog.Symbols.{
  Entry, SymbolTable, slice, holds, home, next_bucket, Probe, found, vacant, look, probe, fnv1a,
}
use maelys_datalog.Symbols.Slice.{length-take}
use maelys_datalog.Symbols.Invariant.{place, Passed, occupied-vacant, IsEntry, IsValid}

pub holds-eq :
    (storage : Bytes) (e : Entry) (text : Bytes)
    → holds storage e text ≡ true
    → slice storage e ≡ text
holds-eq storage e text h = (same_bytes_iff _ text).0 (and_true (e.len == length text) _ h).1

-- In the pool an entry holds its own slice.
pub holds-slice :
    (storage : Bytes) (e : Entry) (text : Bytes)
    → IsEntry storage e
    → slice storage e ≡ text
    → holds storage e text ≡ true
holds-slice storage e text v s =
    let len = length-take e.len e.offset storage (omega (arith, v.within)) in
    let same = (same_bytes_iff (slice storage e) text).1 s in ground (arith, ap (length) s)

module _ (t : SymbolTable) (text : Bytes) where
  abbrev h : ℕ
  h = fnv1a text

  -- The probing ended at an entry of the text.
  pub record IsFound (p : Probe) : Type 0 where
    pub id : ℕ
    pub entry : Entry
    pub at : get_elem? t.entries id ≡ some entry
    pub text_is : slice t.storage entry ≡ text
    pub ends : p ≡ found id

  -- The probing ended at the first empty bucket behind the home of the hash.
  pub record IsVacant (p : Probe) : Type 0 where
    pub distance : ℕ
    pub near : distance < symbol_index_buckets
    pub passed : Passed t h text (home h) distance
    pub free : t.index (place (home h) distance) ≡ 0
    pub ends : p ≡ vacant (place (home h) distance)

  look-vacant : (b : ℕ) → t.index b ≡ 0 → look t h text b ≡ some (vacant b)
  unfolding look
  look-vacant b e = ground arith

  pub look-nonzero : (b : ℕ) → look t h text b ≡ none → t.index b ≢ 0
  look-nonzero b e z = cc (look-vacant b z, e)

  -- At a bucket in use the look compares the entry.
  look-entry :
      (b i : ℕ) (e : Entry)
      → t.index b ≡ suc i
      → get_elem? t.entries i ≡ some e
      → look t h text b ≡ (if e.hash == h && holds t.storage e text then some (found i) else none)
  unfolding look
  look-entry b i e p g =
      let used' : (t.index b == 0) ≡ false = ground arith in
      let q : t.index b - 1 ≡ i = omega arith in rw used' (rw q (rw g (rw q refl)))

  look-match :
      (b i : ℕ) (e : Entry)
      → t.index b ≡ suc i
      → get_elem? t.entries i ≡ some e
      → e.hash ≡ h
      → holds t.storage e text ≡ true
      → look t h text b ≡ some (found i)
  look-match b i e p g s m =
      let eq : (e.hash == h) ≡ true = ground arith in look-entry b i e p g ∙ rw (eq, m) refl

  -- The look at a bucket in use of a valid table goes on, or ends at an entry of the text.
  look-cases :
      IsValid t
      → (b : ℕ) → t.index b ≢ 0
      → (look t h text b ≡ none)
        ⊎ ((i : ℕ) × (e : Entry) × (get_elem? t.entries i ≡ some e)
            × (slice t.storage e ≡ text)
            × (look t h text b ≡ some (found i)))
  look-cases v b nz =
      let i = t.index b - 1 in
      let p : t.index b ≡ suc i = omega arith in
      let bound = v.bounded b in
      let (e, g) = get-lt t.entries i (omega arith) in
      elim (Bool-cases (e.hash == h && holds t.storage e text)) [
        | inl m ↦ inr (
          i,
          e,
          g,
          holds-eq t.storage e text (and_true (e.hash == h) _ m).1,
          look-entry b i e p g ∙ rw m refl,
        )
        | inr m ↦ inl (look-entry b i e p g ∙ rw m refl)
      ]

  -- The next bucket is one step further.
  next-place : (start d : ℕ) → next_bucket (place start d) ≡ place start (suc d)
  next-place start d = omega arith

  -- Before all buckets are passed, an empty one comes.
  not_all-Passed :
      IsValid t
      → (start : ℕ) → start < symbol_index_buckets
      → Passed t h text start symbol_index_buckets
      → ⊥
  not_all-Passed v start lt passed =
      let (b, in_range, free) =
        occupied-vacant symbol_index_buckets t.index (omega (arith, v.load, v.room)) in
      let k = (b + symbol_index_buckets - start) % symbol_index_buckets in
      let back : place start k ≡ b = omega arith in
      look-nonzero (place start k) (passed k (omega arith)) (rw back free)

  Passed-suc :
      (start d : ℕ)
      → Passed t h text start d
      → look t h text (place start d) ≡ none
      → Passed t h text start (suc d)
  Passed-suc start d p e k lt = elim (dec_lt k d) [
    | yes below ↦ p k below
    | no above ↦ let same : k ≡ d = omega arith in rw same e
  ]

  -- Probing from the home of the hash ends at the text or at an empty bucket, never in `broken`.
  pub probe-ends :
      IsValid t
      → (fuel d : ℕ) → d + fuel ≡ symbol_index_buckets
      → Passed t h text (home h) d
      → IsFound (probe t h text fuel (place (home h) d))
        ⊎ IsVacant (probe t h text fuel (place (home h) d))
  unfolding probe
  probe-ends v zero d eq passed =
      let all : d ≡ symbol_index_buckets = omega arith in
      absurd (not_all-Passed v (home h) (omega arith) (rw all at passed))
  probe-ends v (suc fuel) d eq passed = elim (Bool-cases (t.index (place (home h) d) == 0)) [
    | inl z ↦
        let free : t.index (place (home h) d) ≡ 0 = ground arith in
        inr (record {
          distance = d;
          near = omega arith;
          passed = passed;
          free = free;
          ends = rw (look-vacant (place (home h) d) free, probe) refl;
        })
    | inr nz ↦ elim (look-cases v (place (home h) d) (ground arith)) [
      | inl e ↦
          rw (e, probe)
            (rw (next-place (home h) d)
              (probe-ends v fuel (suc d) (omega arith) (Passed-suc (home h) d passed e)))
      | inr (i, e, g, s, l) ↦
          inl (record { id = i; entry = e; at = g; text_is = s; ends = rw (l, probe) refl })
    ]
  ]

  abbrev pub probed : Probe
  probed = probe t h text symbol_index_buckets (home h)

  -- Probing from the start.
  pub probed-ends : IsValid t → IsFound probed ⊎ IsVacant probed
  probed-ends v =
      let start : place (home h) 0 ≡ home h = omega arith in
      subst
        (λ b.
          IsFound (probe t h text symbol_index_buckets b)
          ⊎ IsVacant (probe t h text symbol_index_buckets b))
        start (probe-ends v symbol_index_buckets 0 (omega arith) (λ k lt. absurd (omega arith)))

  -- A text of the table is found, at its entry.
  pub probed-present :
      IsValid t
      → (i : ℕ) (e : Entry) → get_elem? t.entries i ≡ some e
      → slice t.storage e ≡ text
      → probed ≡ found i
  probed-present v i e g s = elim (probed-ends v) [
    | inl f ↦ f.ends ∙ ap found (v.distinct f.id i f.entry e f.at g (f.text_is ∙ sym s))
    | inr f ↦
        let is_entry = v.entry i e g in
        let hashes : e.hash ≡ h = is_entry.hashed ∙ ap fnv1a s in
        let x = v.indexed i e g in
        let points = subst (λ n. t.index (place (home n) x.distance) ≡ suc i) hashes x.points in
        let full : (k : ℕ) → k < x.distance → t.index (place (home h) k) ≢ 0 =
          λ k lt z. x.full k lt (ap (λ n. t.index (place (home n) k)) hashes ∙ z) in
        let hit =
          look-match (place (home h) x.distance) i e points g hashes
            (holds-slice t.storage e text is_entry s) in
        absurd (elim (dec_lt x.distance f.distance) [
          | yes before ↦ cc (f.passed x.distance before, hit)
          | no not_before ↦ elim (dec_lt f.distance x.distance) [
            | yes lt ↦ full f.distance lt f.free
            | no ge ↦
                let same : f.distance ≡ x.distance = omega arith in
                let free = rw same at f.free in omega (arith, points, free)
          ]
        ])
  ]

  -- A text that is not in the table ends at an empty bucket, and the other way round.
  pub probed-absent :
      IsValid t
      → ((i : ℕ) (e : Entry) → get_elem? t.entries i ≡ some e → slice t.storage e ≢ text)
      → IsVacant probed
  probed-absent v none' = elim (probed-ends v) [
    | inl f ↦ absurd (none' f.id f.entry f.at f.text_is)
    | inr f ↦ f
  ]
