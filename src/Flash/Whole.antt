-- ===== src/Flash/Whole.antt =====
-- What `flash_write` of source/MicroBitFlash.cpp leaves in the memory as a whole.
use mathlib.Core.Bool.{false≢true}
use mathlib.Core.Path.{subst}
use native.Mathlib.Decide.{dec_lt}
use codal_microbit_v2_fft.Base.{
  ℕ, zero, suc, ◌+◌, ◌-◌, ◌*◌, ◌/◌, ◌%◌, ◌≤◌, ◌<◌, ◌≡◌, ◌≢◌, refl, ap, ap₂, ◌∙◌, arith, false, inl,
  inr, Bool-cases, Bytes, within, advance, ◌!=◌, if◌then◌else◌, bit_and, Code, ◌⊎◌,
}
use codal_microbit_v2_fft.Base.Bits.{mask_lem}
use codal_microbit_v2_fft.Nvm.{Nvm}
use codal_microbit_v2_fft.FsCache.Access.Blocks.{block_lem, blocks_apart}
use codal_microbit_v2_fft.Flash.{
  sets_bits, clear_word, word_addr, need_erase, burn_loop, move_to_scratch, flash_write,
}
use codal_microbit_v2_fft.Flash.Burn.{burn_loop_lem, if_else}
use codal_microbit_v2_fft.Flash.Cells.{
  AreBytes, replaced, sets_bits_lem, within_true, within_false, place_byte, fresh_byte,
}

module _ (nvm : Nvm) where
  open nvm use {Mem, byte, write, erase, page_size, byte-write, byte-erase}

  -- No byte from offset `i` on needs an erase.
  need_erase_lem :
      (m : Mem) (source : Bytes) (address len i : ℕ)
      → AreBytes (byte m)
      → AreBytes source
      → need_erase nvm m source address len i ≡ false
      → (j : ℕ) → i ≤ j
      → j < i + len
      → bit_and (byte m (address + j)) (source j) ≡ source j
  unfolding need_erase
  need_erase_lem m source address zero i bm bs e j lo hi = absurd (omega arith)
  need_erase_lem m source address (suc len) i bm bs e j lo hi =
      elim (Bool-cases (sets_bits (byte m (address + i)) (source i))) [
        | inl h ↦ absurd (false≢true (ground arith))
        | inr h ↦ elim (dec_lt i j) [
          | yes later ↦
              need_erase_lem m source address len (i + 1) bm bs (ground arith) j (omega arith)
                (omega arith)
          | no here ↦
              let same : i ≡ j = omega arith in
              subst (λ k. bit_and (byte m (address + k)) (source k) ≡ source k) same
                ((sets_bits_lem _ _ (bm (address + i)) (bs i)).0 h)
        ]
      ]

  -- Without an erase.
  burn_in_place :
      (m : Mem) (source : Bytes) (page offset len x : ℕ)
      → ((j : ℕ) → 0 ≤ j → j < 0 + len → bit_and (byte m (page + offset + j)) (source j) ≡ source j)
      → let start = word_addr offset in
        let finish = word_addr (offset + len + 4) in
        byte (burn_loop nvm (finish - start) start m clear_word source page offset len page) x
        ≡ replaced (byte m) (page + offset) len source x
  burn_in_place m source page offset len x fits =
      let start = word_addr offset in
      let finish = word_addr (offset + len + 4) in
      let words = (finish - start) / 4 in
      let rounds : finish - start ≡ 4 * words = omega arith in
      ap (λ r. byte (burn_loop nvm r start m clear_word source page offset len page) x) rounds
      ∙ (burn_loop_lem nvm source page offset len page words start finish m (omega arith)
            (omega arith) (λ j k p q e. omega arith) x
          ∙ place_byte (byte m) source page offset len start finish x fits (omega arith)
              (omega arith))

  -- With an erase: the scratch page has what the page had.
  scratch_lem :
      (m : Mem) (page scratch o : ℕ)
      → AreBytes (byte m)
      → page_size % 4 ≡ 0
      → (scratch + page_size ≤ page) ⊎ (page + page_size ≤ scratch)
      → o < page_size
      → byte (move_to_scratch nvm m page scratch) (scratch + o) ≡ byte m (page + o)
  unfolding move_to_scratch
  scratch_lem m page scratch o bm whole apart h =
      let m1 = erase m scratch in
      let m2 = write m1 scratch (advance (byte m1) page) (page_size / 4) in
      let erased : byte m1 (scratch + o) ≡ 255 =
        byte-erase m scratch (scratch + o)
        ∙ rw
            (within_true scratch (scratch + page_size) (scratch + o) (omega arith) (omega arith)) in
      let kept : byte m1 (page + o) ≡ byte m (page + o) =
        byte-erase m scratch (page + o)
        ∙ rw (within_false scratch (scratch + page_size) (page + o) (omega arith)) in
      let at : scratch + o - scratch ≡ o = omega arith in
      byte-erase m2 page (scratch + o)
      ∙ rw (within_false page (page + page_size) (scratch + o) (omega arith)) (
          byte-write m1 scratch (advance (byte m1) page) (page_size / 4) (scratch + o)
          ∙ rw
              (within_true scratch (scratch + 4 * (page_size / 4)) (scratch + o) (omega arith)
                (omega arith))
              (ap₂ bit_and erased (ap (λ y. byte m1 (page + y)) at ∙ kept)
                ∙ mask_lem 8 (byte m (page + o)) (bm (page + o))))

  -- What is in neither page stays, and the page is erased.
  moved_lem :
      (m : Mem) (page scratch x : ℕ)
      → page_size % 4 ≡ 0
      → within scratch (scratch + page_size) x ≡ false
      → byte (move_to_scratch nvm m page scratch) x
        ≡ (if within page (page + page_size) x then 255 else byte m x)
  unfolding move_to_scratch
  moved_lem m page scratch x whole out =
      let m1 = erase m scratch in
      let m2 = write m1 scratch (advance (byte m1) page) (page_size / 4) in
      let words : scratch + 4 * (page_size / 4) ≡ scratch + page_size = omega arith in
      byte-erase m2 page x
      ∙ if_else (within page (page + page_size) x) 255 (
          byte-write m1 scratch (advance (byte m1) page) (page_size / 4) x
          ∙ rw (words, out) (byte-erase m scratch x ∙ rw out))

  -- With an erase.
  burn_from_scratch :
      (m : Mem) (source : Bytes) (page offset len scratch x : ℕ)
      → AreBytes (byte m)
      → AreBytes source
      → page_size % 4 ≡ 0
      → (scratch + page_size ≤ page) ⊎ (page + page_size ≤ scratch)
      → offset + len ≤ page_size
      → within scratch (scratch + page_size) x ≡ false
      → byte
          (burn_loop nvm page_size 0
            (move_to_scratch nvm m page scratch)
            clear_word
            source
            page
            offset
            len
            scratch)
          x
        ≡ replaced (byte m) (page + offset) len source x
  burn_from_scratch m source page offset len scratch x bm bs whole apart fits out =
      let m' = move_to_scratch nvm m page scratch in
      let words = page_size / 4 in
      let rounds : page_size ≡ 4 * words = omega arith in
      ap (λ r. byte (burn_loop nvm r 0 m' clear_word source page offset len scratch) x) rounds
      ∙ (burn_loop_lem nvm source page offset len scratch words 0 page_size m' refl (omega arith)
            (λ j k p q e. absurd (omega arith)) x
          ∙ fresh_byte (byte m) (byte m') source page offset len scratch page_size x bm bs fits
              (moved_lem m page scratch x whole out)
              (λ o h. scratch_lem m page scratch o bm whole apart h))

  -- Where memory and buffer are bytes, the page size is positive and a multiple of 4, the scratch page
  -- is a page of its own, and the area ends in the page in which it starts: `flash_write` returns
  -- MICROBIT_OK, and outside the scratch page the memory has the new bytes in the area and is
  -- unchanged elsewhere, whether or not the page has to be erased.
  pub flash_write_lem :
      (m : Mem) (address : ℕ) (source : Bytes) (len scratch x : ℕ)
      → AreBytes (byte m)
      → AreBytes source
      → 0 < page_size
      → page_size % 4 ≡ 0
      → scratch % page_size ≡ 0
      → scratch ≢ address / page_size * page_size
      → address % page_size + len ≤ page_size
      → within scratch (scratch + page_size) x ≡ false
      → let (code, m') = flash_write nvm m address source len scratch in
        (code ≡ Code.ok) × (byte m' x ≡ replaced (byte m) address len source x)
  unfolding flash_write
  flash_write_lem m address source len scratch x bm bs pos whole aligned other fits out =
      let page = address / page_size * page_size in
      let offset = address % page_size in
      let b = block_lem page_size pos address in
      let at : page + offset ≡ address = b.0 in
      let apart : (scratch + page_size ≤ page) ⊎ (page + page_size ≤ scratch) =
        elim (blocks_apart page_size pos scratch page aligned b.2 other) [
          | inl before ↦ inl before
          | inr after ↦ inr after
        ] in
      let valid : (scratch % page_size != 0) ≡ false = ground arith in
      elim (Bool-cases (need_erase nvm m source address len 0)) [
        | inl e ↦
            rw (valid, e)
              (
                refl,
                burn_from_scratch m source page offset len scratch x bm bs whole apart fits out
                    ∙ ap (λ a. replaced (byte m) a len source x) at,
              )
        | inr e ↦
            rw (valid, e)
              (
                refl,
                burn_in_place m source page offset len x (λ j lo hi.
                      ap (λ a. bit_and (byte m (a + j)) (source j)) at
                      ∙ need_erase_lem m source address len 0 bm bs e j lo hi)
                    ∙ ap (λ a. replaced (byte m) a len source x) at,
              )
      ]
