-- ===== src/Semaphore/Storage.antt =====
-- The integer type of the counter of `counting_semaphore`, by the largest value it must hold.
use mathlib.Core.Option
use coopsync_tbb.Base.{
  ℕ, ◌-◌, ◌^◌, ◌<◌, ◌≤◌, ◌≡◌, ◌⊎◌, inl, inr, refl, Option, none, some, Bool-cases, arith, leb, ◌==◌,
  if◌then◌else◌,
}

-- The largest value of a signed integer of a given width.
abbrev pub int_max : ℕ → ℕ
int_max bits = 2 ^ (bits - 1) - 1

-- `int_max_value_t<N>::type`, as a number of bits; `none` where the assertion that N is positive
-- rejects it.
unfoldable pub int_max_value_bits : ℕ → Option ℕ
int_max_value_bits n =
    if n == 0
    then none
    else if leb n (int_max 8)
    then some 8
    else if leb n (int_max 16)
    then some 16
    else if leb n (int_max 32)
    then some 32
    else some 64

-- `counting_semaphore<1>::max()`
abbrev pub binary_max : ℕ
binary_max = 1

-- `counting_semaphore<LeastMaxValue>::max()`, which is specialised for 1.
unfoldable pub max : ℕ → Option ℕ
max n = if n == 1 then some binary_max else Option.map int_max (int_max_value_bits n)

-- What is said of the chosen width.
abbrev pub Chosen : ℕ → ℕ → ℕ → Type 0
Chosen n bits most =
    (int_max_value_bits n ≡ some bits)
    × (max n ≡ some most)
    × (n ≤ most)
    × (most ≤ int_max bits)
    × ((bits ≡ 8) ⊎ (bits ≡ 16) ⊎ (bits ≡ 32) ⊎ (bits ≡ 64))
    × ((b : ℕ) → (b ≡ 8) ⊎ (b ≡ 16) ⊎ (b ≡ 32) ⊎ (b ≡ 64) → n ≤ int_max b → bits ≤ b)

choose :
    (n bits : ℕ)
    → int_max_value_bits n ≡ some bits
    → n ≤ int_max bits
    → (bits ≡ 8) ⊎ (bits ≡ 16) ⊎ (bits ≡ 32) ⊎ (bits ≡ 64)
    → ((b : ℕ) → (b ≡ 8) ⊎ (b ≡ 16) ⊎ (b ≡ 32) ⊎ (b ≡ 64) → n ≤ int_max b → bits ≤ b)
    → (most : ℕ) × Chosen n bits most
unfolding max
choose n bits e fits which least = elim (Bool-cases (n == 1)) [
  | inl one ↦ (1, (e, rw one refl, ground arith, ground arith, which, least))
  | inr more ↦ (int_max bits, (e, rw (more, e) refl, fits, ground arith, which, least))
]

-- For a positive value that 64 bits hold, the chosen type has one of four widths, holds the value, and
-- is the narrowest of the four that holds it; `max()` is at least the value, and no more than the
-- type holds.
pub int_max_value_bits_least :
    (n : ℕ) → 0 < n → n ≤ int_max 64 → (bits : ℕ) × (most : ℕ) × Chosen n bits most
unfolding int_max_value_bits
int_max_value_bits_least n pos h = elim (Bool-cases (leb n (int_max 8))) [
  | inl a ↦
      let (most, c) =
        choose n 8 (ground arith) (ground arith) (inl refl) (λ b w le. ground arith) in
      (8, most, c)
  | inr a ↦ elim (Bool-cases (leb n (int_max 16))) [
    | inl c ↦
        let (most, c) =
          choose n 16 (ground arith) (ground arith) (inr (inl refl)) (λ b w le. ground arith) in
        (16, most, c)
    | inr c ↦ elim (Bool-cases (leb n (int_max 32))) [
      | inl d ↦
          let (most, c) =
            choose n 32 (ground arith) (ground arith) (inr (inr (inl refl)))
              (λ b w le. ground arith) in
          (32, most, c)
      | inr d ↦
          let (most, c) =
            choose n 64 (ground arith) h (inr (inr (inr refl))) (λ b w le. ground arith) in
          (64, most, c)
    ]
  ]
]
