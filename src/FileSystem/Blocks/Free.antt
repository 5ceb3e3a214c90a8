-- ===== src/FileSystem/Blocks/Free.antt =====
-- The walk of `getFreeBlock` in source/MicroBitFileSystem.cpp around the 65536 block numbers.
use native.Mathlib.Decide.{dec_lt}
use codal_microbit_v2_fft.Base.{
  ℕ, zero, suc, ◌+◌, ◌-◌, ◌%◌, ◌≤◌, ◌<◌, ◌≡◌, ◌≢◌, refl, ap, subst, sym, ◌∙◌, arith, inl, inr,
  false, Bool-cases, Option, some, ◌==◌, ◌!=◌, if◌then◌else◌,
}
use codal_microbit_v2_fft.Nvm.{Nvm}
use codal_microbit_v2_fft.FileSystem.{
  unused, deleted, Config, FileSystem, all_blocks, ◌>>=◌, u16, next_block,
}
use codal_microbit_v2_fft.FileSystem.Blocks.{
  Scan, fresh, spent, free_loop, recycle_file_table, get_free_block,
}

same_place :
    (start n total : ℕ)
    → n ≤ total
    → total < all_blocks
    → u16 (start + n) ≡ u16 (start + total)
    → n ≡ total
same_place start n total le t e = omega arith

before_end :
    (start n total : ℕ) {l : ℕ}
    → n ≤ total
    → l ≡ u16 (start + total)
    → (u16 (start + n) == l) ≡ false
    → n < total
before_end start n total le l more = elim (dec_lt n total) [
  | yes p ↦ p
  | no q ↦ let e : n ≡ total = omega arith in absurd (ground arith)
]

next_place : (start n : ℕ) → u16 (u16 (start + n) + 1) ≡ u16 (start + (n + 1))
next_place start n = omega arith

module _ (nvm : Nvm) where
  open nvm use {Mem}

  module _ (fs : FileSystem Mem) (start : ℕ) where
    -- The entry of the block that the walk visits in round `i`.
    abbrev pub visited : ℕ → ℕ
    visited i = next_block nvm fs (u16 (start + i))

    abbrev pub NoUnused : ℕ → Type 0
    NoUnused n = (i : ℕ) → i < n → visited i ≢ unused

    -- `found` is the last deleted block of `n` rounds, 0 for none.
    abbrev pub IsDeleted : ℕ → ℕ → Type 0
    IsDeleted n found =
        (found ≡ 0 → (i : ℕ) → i < n → visited i ≢ deleted)
        × (found ≢ 0
            → (i : ℕ) × (i < n)
              × (found ≡ u16 (start + i))
              × (visited i ≡ deleted)
              × ((j : ℕ) → i < j → j < n → visited j ≢ deleted))

    abbrev pub Scanned : ℕ → Scan → Type 0
    Scanned n (fresh block) =
        (i : ℕ) × (i < n) × (block ≡ u16 (start + i)) × (visited i ≡ unused) × NoUnused i
    Scanned n (spent found) = NoUnused n × IsDeleted n found

    NoUnused-suc : (n : ℕ) → NoUnused n → visited n ≢ unused → NoUnused (n + 1)
    NoUnused-suc n before now i h = elim (dec_lt i n) [
      | yes p ↦ before i p
      | no q ↦ let e : n ≡ i = omega arith in subst (λ k. visited k ≢ unused) e now
    ]

    IsDeleted-suc :
        (n found : ℕ)
        → next_block nvm fs 0 ≢ deleted
        → IsDeleted n found
        → IsDeleted (n + 1) (if visited n == deleted then u16 (start + n) else found)
    IsDeleted-suc n found zero_used seen = elim (Bool-cases (visited n == deleted)) [
      | inl here ↦ rw here (
        (λ e. absurd (zero_used (ap (next_block nvm fs) (sym e) ∙ ground arith))),
        (λ e. (n, omega arith, refl, ground arith, λ j lo hi. absurd (omega arith))),
      )
      | inr other ↦ rw other (
        (λ e i h. elim (dec_lt i n) [
          | yes p ↦ seen.0 e i p
          | no q ↦
              let same : n ≡ i = omega arith in subst (λ k. visited k ≢ deleted) same (ground arith)
        ]),
        (λ e.
            let (i, lt, at, gone, last) = seen.1 e in
            (
              i,
              omega arith,
              at,
              gone,
              λ j lo hi. elim (dec_lt j n) [
                | yes p ↦ last j lo p
                | no q ↦
                    let same : n ≡ j = omega arith in
                    subst (λ k. visited k ≢ deleted) same (ground arith)
              ],
            )),
      )
    ]

    free_loop_lem :
        (rounds n found total : ℕ)
        → next_block nvm fs 0 ≢ deleted
        → fs.last ≡ u16 (start + total)
        → total < all_blocks
        → n ≤ total
        → total < rounds + n
        → NoUnused n
        → IsDeleted n found
        → (r : Scan) × (free_loop nvm rounds fs (u16 (start + n)) found ≡ some r) × Scanned total r
    unfolding free_loop
    free_loop_lem zero n found total z l t le enough before seen = absurd (omega arith)
    free_loop_lem (suc rounds) n found total z l t le enough before seen =
        elim (Bool-cases (u16 (start + n) == fs.last)) [
          | inl end ↦
              let e : n ≡ total = same_place start n total le t (ground arith) in
              (spent found, rw end refl, subst (λ k. Scanned k (spent found)) e (before, seen))
          | inr more ↦ elim (Bool-cases (visited n == unused)) [
            | inl free ↦ (
              fresh _,
              rw (more, free) refl,
              (n, before_end start n total le l more, refl, ground arith, before),
            )
            | inr used ↦
                rw (more, used)
                  (rw (next_place start n) (
                    free_loop_lem rounds (n + 1) _ total z l t
                      (let p = before_end start n total le l more in omega (arith, p)) (omega arith)
                      (NoUnused-suc n before (ground arith)) (IsDeleted-suc n found z seen)))
          ]
        ]

  module _ (cfg : Config) where
    -- What is to come of the walk.
    abbrev pub allocated : FileSystem Mem → Scan → Option (ℕ × FileSystem Mem)
    allocated fs (fresh block) = some (block, record fs { last = block })
    allocated fs (spent found) =
        if found != 0
        then recycle_file_table nvm cfg fs >>= (λ fs'. some (found, record fs' { last = found }))
        else some (0, fs)

    from_walk :
        (fs : FileSystem Mem) (r : Scan)
        → free_loop nvm all_blocks fs (u16 ((fs.last + 1) % fs.size)) 0 ≡ some r
        → get_free_block nvm cfg fs ≡ allocated fs r
    unfolding get_free_block
    from_walk fs (fresh block) e = rw e refl
    from_walk fs (spent found) e = rw e refl

    -- Where `lastBlockAllocated` is a block number and the first entry of the table is not DELETED:
    -- the walk of `getFreeBlock` over the block numbers before `lastBlockAllocated`, which may lie
    -- past the end of the file system, ends. It gives the first block that is UNUSED; where there is
    -- none, the last that is DELETED is given once the table is recycled, if that ends; where there
    -- is neither, it gives 0 and changes nothing.
    pub get_free_block_lem :
        (fs : FileSystem Mem)
        → fs.last < all_blocks
        → next_block nvm fs 0 ≢ deleted
        → let start = u16 ((fs.last + 1) % fs.size) in
          let total = u16 (fs.last + (all_blocks - start)) in
          (r : Scan) × Scanned fs start total r × (get_free_block nvm cfg fs ≡ allocated fs r)
    get_free_block_lem fs bound z =
        let start = u16 ((fs.last + 1) % fs.size) in
        let total = u16 (fs.last + (all_blocks - start)) in
        let within : start < all_blocks = omega arith in
        let first : start ≡ u16 (start + 0) = omega arith in
        let (r, e, s) =
          free_loop_lem fs start all_blocks 0 0 total z (omega arith) (omega arith) (omega arith)
            (omega arith) (λ i h. absurd (omega arith))
            ((λ e i h. absurd (omega arith)), (λ ne. absurd (ne refl))) in
        (r, s, from_walk fs r (ap (λ b. free_loop nvm all_blocks fs b 0) first ∙ e))
