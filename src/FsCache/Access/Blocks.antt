-- ===== src/FsCache/Access/Blocks.antt =====
-- The arithmetic of blocks and words in source/FSCache.cpp.
use native.Mathlib.Decide.{dec_lt}
use native.Mathlib.Nat.{mod-lt, mul-add-mod_self_right, mod-eq_of_lt}
use codal_microbit_v2_fft.Base.{
  ℕ, ◌+◌, ◌-◌, ◌*◌, ◌/◌, ◌%◌, ◌≤◌, ◌<◌, ◌≡◌, ◌≢◌, ap, ◌∙◌, arith, ◌⊎◌, inl, inr,
}
use codal_microbit_v2_fft.FsCache.Access.{aligned_start, aligned_end}

module _ (n : ℕ) (pos : 0 < n) where
  -- A block starts at a multiple of its size, and an address is in its block.
  pub block_lem : (a : ℕ) → (a / n * n + a % n ≡ a) × (a % n < n) × (a / n * n % n ≡ 0)
  block_lem a = (grind arith, mod-lt a pos, grind arith)

  -- Two different blocks do not overlap.
  pub blocks_apart : (a b : ℕ) → a % n ≡ 0 → b % n ≡ 0 → a ≢ b → (a + n ≤ b) ⊎ (b + n ≤ a)
  blocks_apart a b ha hb ne = elim (dec_lt (a / n) (b / n)) [
    | yes p ↦ inl (grind arith)
    | no q ↦ elim (dec_lt (b / n) (a / n)) [
      | yes p ↦ inr (grind arith)
      | no r ↦ absurd (ne (let e : a / n ≡ b / n = omega arith in grind arith))
    ]
  ]

-- The words that a write of `l` bytes at `a` touches, where `n` is the size of a block.
module _ (n : ℕ) (pos : 0 < n) (words : n % 4 ≡ 0) where
  block_words : (a : ℕ) → a / n * n % 4 ≡ 0
  block_words a =
      let k = n / 4 in
      let e : n ≡ 4 * k = omega arith in
      let f : a / n * n ≡ 4 * (a / n * k) = ap (λ (t : ℕ). a / n * t) e ∙ grind arith in
      rw f (omega arith)

  -- The first word lies in the block of `a`, and its place there is that of `a` without the two low
  -- bits; the end of the last word lies in the block too.
  pub record WordsOf (a l : ℕ) : Type 0 where
    pub start : aligned_start a ≡ a / n * n + (a % n - a % n % 4)
    pub place : aligned_start a % n ≡ a % n - a % n % 4
    pub whole :
        aligned_start a + 4 * ((aligned_end (a + l) - aligned_start a) / 4) ≡ aligned_end (a + l)
    pub covers : a + l ≤ aligned_end (a + l)
    pub inside : aligned_end (a + l) ≤ a / n * n + n

  pub words_lem : (a l : ℕ) → 0 < l → a % n + l ≤ n → WordsOf a l
  words_lem a l h fits =
      let b = block_lem n pos a in
      let w = block_words a in
      let first : aligned_start a ≡ a / n * n + (a % n - a % n % 4) = omega (arith, b) in
      record {
        start = first;
        place =
            ap (λ (k : ℕ). k % n) first
            ∙ (mul-add-mod_self_right (a / n) n _ ∙ mod-eq_of_lt (omega (arith, b)));
        whole = ground (arith, b);
        covers = ground (arith, b);
        inside = ground (arith, b, w);
      }
