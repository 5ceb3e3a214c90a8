-- ===== src/FileSystem/Table.antt =====
-- What a write to the table of source/MicroBitFileSystem.cpp does to its entries.
use codal_microbit_v2_fft.Base.{
  ℕ, ◌+◌, ◌-◌, ◌*◌, ◌/◌, ◌%◌, ◌^◌, ◌≤◌, ◌<◌, ◌≡◌, ◌≢◌, refl, ap, ap₂, ◌∙◌, arith, ◌⊎◌, inl, inr,
  Bool-cases, Bytes, ◌==◌, if◌then◌else◌,
}
use codal_microbit_v2_fft.Nvm.{Nvm}
use codal_microbit_v2_fft.FsCache.Access.Blocks.{block_lem}
use codal_microbit_v2_fft.Flash.Cells.{AreBytes, replaced, within_true, within_false}
use codal_microbit_v2_fft.Flash.Whole.{flash_write_lem}
use codal_microbit_v2_fft.Flash.Sound.{flash_write-AreBytes}
use codal_microbit_v2_fft.FileSystem.{
  Config, FileSystem, number, half, next_block, flash_put, put, table_write,
}

number_two : (v : ℕ) → v < 2 ^ 16 → number v 0 + 256 * number v 1 ≡ v
number_two v h = omega arith

half_lem :
    (m : ℕ → ℕ) (t b c v : ℕ)
    → v < 2 ^ 16
    → let new = replaced m (t + 2 * b) 2 (number v) in
      new (t + 2 * c) + 256 * new (t + 2 * c + 1)
      ≡ (if b == c then v else m (t + 2 * c) + 256 * m (t + 2 * c + 1))
half_lem m t b c v h = elim (Bool-cases (b == c)) [
  | inl same ↦
      let e : c ≡ b = ground arith in
      let low : t + 2 * c - (t + 2 * b) ≡ 0 = omega arith in
      let high : t + 2 * c + 1 - (t + 2 * b) ≡ 1 = omega arith in
      rw
        (
          same,
          low,
          high,
          within_true (t + 2 * b) (t + 2 * b + 2) (t + 2 * c) (omega arith) (omega arith),
          within_true (t + 2 * b) (t + 2 * b + 2) (t + 2 * c + 1) (omega arith) (omega arith),
        )
        (number_two v h)
  | inr other ↦
      let ne : b ≢ c = ground arith in
      rw
        (
          other,
          within_false (t + 2 * b) (t + 2 * b + 2) (t + 2 * c) (ground arith),
          within_false (t + 2 * b) (t + 2 * b + 2) (t + 2 * c + 1) (ground arith),
        )
        refl
]

module _ (nvm : Nvm) (cfg : Config) where
  open nvm use {Mem, byte, page_size}

  -- The scratch page is a page, the table starts at one, and the table's first `n` entries lie
  -- outside the scratch page.
  pub record IsMounted (n : ℕ) (fs : FileSystem Mem) : Type 0 where
    pub cells : AreBytes (byte fs.mem)
    pub positive : 0 < page_size
    pub whole : page_size % 4 ≡ 0
    pub scratch_page : cfg.scratch % page_size ≡ 0
    pub table_page : fs.table % page_size ≡ 0
    pub apart : (fs.table + 2 * n ≤ cfg.scratch) ⊎ (cfg.scratch + page_size ≤ fs.table)

  pub number-AreBytes : (v : ℕ) → AreBytes (number v)
  number-AreBytes v x = omega arith

  -- An address outside the scratch page is not in its page.
  other_page :
      (a : ℕ)
      → 0 < page_size
      → (a < cfg.scratch) ⊎ (cfg.scratch + page_size ≤ a)
      → cfg.scratch ≢ a / page_size * page_size
  other_page a pos out e = let b = block_lem page_size pos a in ground (arith, b)

  -- Bytes written outside the scratch page and within a page.
  pub put_lem :
      (n : ℕ) (fs : FileSystem Mem) (a : ℕ) (source : Bytes) (len x : ℕ)
      → IsMounted n fs
      → AreBytes source
      → a % page_size + len ≤ page_size
      → (a < cfg.scratch) ⊎ (cfg.scratch + page_size ≤ a)
      → (x < cfg.scratch) ⊎ (cfg.scratch + page_size ≤ x)
      → let fs' = put nvm cfg fs a source len in
        byte fs'.mem x ≡ replaced (byte fs.mem) a len source x
  unfolding flash_put
  put_lem n fs a source len x ok bs fits out out' =
      (flash_write_lem nvm fs.mem a source len cfg.scratch x ok.cells bs ok.positive ok.whole
        ok.scratch_page (other_page a ok.positive out) fits (within_false _ _ x out')).1

  pub put-IsMounted :
      (n : ℕ) (fs : FileSystem Mem) (a : ℕ) (source : Bytes) (len : ℕ)
      → IsMounted n fs
      → IsMounted n (put nvm cfg fs a source len)
  unfolding flash_put
  put-IsMounted n fs a source len ok = record {
    cells = flash_write-AreBytes nvm fs.mem a source len cfg.scratch ok.cells;
    positive = ok.positive;
    whole = ok.whole;
    scratch_page = ok.scratch_page;
    table_page = ok.table_page;
    apart = ok.apart;
  }

  pub table_write-IsMounted :
      (n : ℕ) (fs : FileSystem Mem) (b v : ℕ)
      → IsMounted n fs
      → IsMounted n (table_write nvm cfg fs b v)
  unfolding table_write
  table_write-IsMounted n fs b v ok = put-IsMounted n fs _ _ 2 ok

  -- An entry does not cross the end of a page.
  entry_fits :
      (table b : ℕ)
      → 0 < page_size
      → page_size % 4 ≡ 0
      → table % page_size ≡ 0
      → (table + 2 * b) % page_size + 2 ≤ page_size
  entry_fits table b pos whole start =
      let k = page_size / 4 in
      let a = table + 2 * b in
      let size : page_size ≡ 4 * k = omega arith in
      let here = block_lem page_size pos a in
      let first = block_lem page_size pos table in
      let even : a / page_size * page_size ≡ 4 * (a / page_size * k) =
        ap (λ (t : ℕ). a / page_size * t) size ∙ grind arith in
      let even' : table / page_size * page_size ≡ 4 * (table / page_size * k) =
        ap (λ (t : ℕ). table / page_size * t) size ∙ grind arith in
      omega (arith, here, first, even, even')

  entry_outside :
      (n : ℕ) (fs : FileSystem Mem) (b : ℕ)
      → IsMounted n fs
      → b < n
      → let a = fs.table + 2 * b in
        ((a < cfg.scratch) ⊎ (cfg.scratch + page_size ≤ a))
        × ((a + 1 < cfg.scratch) ⊎ (cfg.scratch + page_size ≤ a + 1))
  entry_outside n fs b ok h = elim ok.apart [
    | inl p ↦ (inl (omega arith), inl (omega arith))
    | inr p ↦ (inr (omega arith), inr (omega arith))
  ]

  -- The entry of `c` after a write to that of `b`.
  pub table_write_lem :
      (n : ℕ) (fs : FileSystem Mem) (b c v : ℕ)
      → IsMounted n fs
      → b < n
      → c < n
      → v < 2 ^ 16
      → next_block nvm (table_write nvm cfg fs b v) c ≡ (if b == c then v else next_block nvm fs c)
  unfolding table_write next_block flash_put
  table_write_lem n fs b c v ok hb hc hv =
      let a = fs.table + 2 * b in
      let x = fs.table + 2 * c in
      let fits = entry_fits fs.table b ok.positive ok.whole ok.table_page in
      let out = entry_outside n fs b ok hb in
      let out' = entry_outside n fs c ok hc in
      let low = put_lem n fs a (number v) 2 x ok (number-AreBytes v) fits out.0 out'.0 in
      let high = put_lem n fs a (number v) 2 (x + 1) ok (number-AreBytes v) fits out.0 out'.1 in
      ap₂ (λ l h. l + 256 * h) low high ∙ half_lem (byte fs.mem) fs.table b c v hv

  pub table_write-table :
      (fs : FileSystem Mem) (b v : ℕ) → (table_write nvm cfg fs b v).table ≡ fs.table
  unfolding table_write flash_put
  table_write-table fs b v = refl

  -- Two bytes written elsewhere hold the number.
  pub put-number :
      (n : ℕ) (fs : FileSystem Mem) (a v : ℕ)
      → IsMounted n fs
      → v < 2 ^ 16
      → a % page_size + 2 ≤ page_size
      → (a + 1 < cfg.scratch) ⊎ (cfg.scratch + page_size ≤ a)
      → half nvm (put nvm cfg fs a (number v) 2).mem a ≡ v
  put-number n fs a v ok hv fits out =
      let low_out : (a < cfg.scratch) ⊎ (cfg.scratch + page_size ≤ a) = ground arith in
      let high_out : (a + 1 < cfg.scratch) ⊎ (cfg.scratch + page_size ≤ a + 1) = ground arith in
      let low = put_lem n fs a (number v) 2 a ok (number-AreBytes v) fits low_out low_out in
      let high = put_lem n fs a (number v) 2 (a + 1) ok (number-AreBytes v) fits low_out high_out in
      let first : a - a ≡ 0 = omega arith in
      let second : a + 1 - a ≡ 1 = omega arith in
      ap₂ (λ l h. l + 256 * h) low high
      ∙ rw
          (
            within_true a (a + 2) a (omega arith) (omega arith),
            within_true a (a + 2) (a + 1) (omega arith) (omega arith),
            first,
            second,
          )
          (number_two v hv)

  -- What is written after the table leaves its entries.
  pub put_after_table :
      (n : ℕ) (fs : FileSystem Mem) (a : ℕ) (source : Bytes) (len c : ℕ)
      → IsMounted n fs
      → AreBytes source
      → a % page_size + len ≤ page_size
      → (a < cfg.scratch) ⊎ (cfg.scratch + page_size ≤ a)
      → fs.table + 2 * n ≤ a
      → c < n
      → next_block nvm (put nvm cfg fs a source len) c ≡ next_block nvm fs c
  unfolding next_block flash_put
  put_after_table n fs a source len c ok bs fits out after h =
      let x = fs.table + 2 * c in
      let out' = entry_outside n fs c ok h in
      let low = put_lem n fs a source len x ok bs fits out out'.0 in
      let high = put_lem n fs a source len (x + 1) ok bs fits out out'.1 in
      ap₂ (λ l k. l + 256 * k) low high
      ∙ rw
          (
            within_false a (a + len) x (inl (omega arith)),
            within_false a (a + len) (x + 1) (inl (omega arith)),
          )
          refl
