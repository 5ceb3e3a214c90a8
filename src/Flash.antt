-- ===== src/Flash.antt =====
-- source/MicroBitFlash.cpp: writing bytes to flash where a page may have to be erased first, by way
-- of a scratch page. `erase_page` and `flash_burn` drive the NVMC or the SoftDevice; they are `erase`
-- and `write` of the interface, and MICROBIT_CODEPAGESIZE is its `page_size`.
pub mod Burn
pub mod Sound
pub mod Cells
pub mod Whole
mod Tests
use codal_microbit_v2_fft.Base.{
  ℕ, zero, suc, ◌+◌, ◌-◌, ◌*◌, ◌/◌, ◌%◌, Bool, false, ◌||◌, Code, Bytes, update, within, advance,
  ◌==◌, ◌!=◌, if◌then◌else◌, bit_and, bit_or,
}
use codal_microbit_v2_fft.Nvm.{Nvm}

-- `(~*flash_addr & *source) != 0`; of the `~` of a byte, only the low 8 bits meet the other byte.
abbrev pub sets_bits : ℕ → ℕ → Bool
sets_bits old new = bit_and (255 - old) new != 0

-- The word with no bit set, and the word with `b << (8 * k)` set in it. A word is held as its four
-- bytes, the lowest first.
abbrev pub clear_word : Bytes
clear_word = λ _. 0

abbrev pub or_byte : Bytes → ℕ → ℕ → Bytes
or_byte w k b = update w k (bit_or (w k) b)

-- WORD_ADDR
abbrev pub word_addr : ℕ → ℕ
word_addr x = x - x % 4

module _ (nvm : Nvm) where
  open nvm use {Mem, byte, write, erase, page_size}

  -- `need_erase`, with `len` bytes left from offset `i` on
  unfoldable pub need_erase : Mem → Bytes → ℕ → ℕ → ℕ → Bool
  need_erase m source address zero i = false
  need_erase m source address (suc len) i =
      sets_bits (byte m (address + i)) (source i) || need_erase m source address len (i + 1)

  -- The byte that the loop of `flash_write` puts at place `i` of the page.
  abbrev pub byte_to_write : Mem → Bytes → ℕ → ℕ → ℕ → ℕ → ℕ
  byte_to_write m source offset len from i =
      if within offset (offset + len) i then source (i - offset) else byte m (from + i)

  -- The loop of `flash_write`, with `left` rounds to go and `word` as `writeWord`.
  pub burn_loop : ℕ → ℕ → Mem → Bytes → Bytes → ℕ → ℕ → ℕ → ℕ → Mem
  burn_loop zero i m word source page offset len from = m
  burn_loop (suc left) i m word source page offset len from =
      let word' = or_byte word (i % 4) (byte_to_write m source offset len from i) in
      let m' = if (i + 1) % 4 == 0 then write m (page + 4 * (i / 4)) word' 1 else m in
      let word'' = if (i + 1) % 4 == 0 then clear_word else word' in
      burn_loop left (i + 1) m' word'' source page offset len from

  -- The scratch page made a copy of the page, and the page erased.
  pub move_to_scratch : Mem → ℕ → ℕ → Mem
  move_to_scratch m page scratch =
      let m' = erase m scratch in
      erase (write m' scratch (advance (byte m') page) (page_size / 4)) page

  -- `flash_write`, with a scratch page given: `scratch_addr` 0 stands for the default page, so the
  -- test for 0 after it never holds.
  pub flash_write : Mem → ℕ → Bytes → ℕ → ℕ → Code × Mem
  flash_write m address source len scratch =
      let page = address / page_size * page_size in
      let offset = address % page_size in
      let start = word_addr offset in
      let finish = word_addr (offset + len + 4) in
      if scratch % page_size != 0
      then (Code.invalid_parameter, m)
      else if need_erase m source address len 0
      then (
        Code.ok,
        burn_loop page_size 0 (move_to_scratch m page scratch) clear_word source page offset len
            scratch,
      )
      else (Code.ok, burn_loop (finish - start) start m clear_word source page offset len page)
