-- ===== src/FsCache/Access.antt =====
-- `read` and `write` of source/FSCache.cpp, which go over the blocks of an area of memory. Each round
-- copies at least one byte, so `len` rounds are enough. Addresses are `uint32_t`. Lengths are `int`;
-- the model is of those that are not negative.
pub mod Blocks
pub mod Reading
pub mod Validate
pub mod Writing
pub mod Through
pub mod Ahead
pub mod Outside
use codal_microbit_v2_fft.Base.{
  ℕ, zero, suc, ◌+◌, ◌-◌, ◌*◌, ◌/◌, ◌%◌, Bool, true, false, ◌||◌, Code, Bytes, update, memcpy,
  advance, ltb, leb, ◌==◌, ◌!=◌, if◌then◌else◌, min, bit_and, bit_xor,
}
use codal_microbit_v2_fft.Nvm.{Nvm}
use codal_microbit_v2_fft.FsCache.{Geometry, Cache, u32, cache_page}

-- `(b1 ^ b2) & b2`
abbrev pub needs_erase : ℕ → ℕ → Bool
needs_erase b1 b2 = bit_and (bit_xor b1 b2) b2 != 0

-- The loop over the bytes of a block: whether some byte cannot be written without an erase.
pub has_illegal : Bytes → Bytes → ℕ → ℕ → Bool
has_illegal page new zero i = false
has_illegal page new (suc left) i =
    needs_erase (page i) (new i) || has_illegal page new left (i + 1)

-- `a & 0xFFFFFFFC`, and `alignedEnd`
abbrev pub aligned_start : ℕ → ℕ
aligned_start a = a - a % 4

abbrev pub aligned_end : ℕ → ℕ
aligned_end b = if b % 4 == 0 then b - b % 4 else b - b % 4 + 4

module _ (nvm : Nvm) (g : Geometry) where
  open nvm use {Mem, byte, write, flash_start, flash_end}
  open g use {block_size, cache_size}

  -- `address < getFlashStart() || address + len >= getFlashEnd()`
  abbrev pub out_of_limits : ℕ → ℕ → Bool
  out_of_limits address len = ltb address flash_start || leb flash_end (u32 (address + len))

  -- `(a / blockSize) * blockSize`, `a % blockSize` and
  -- `min(len - bytesCopied, blockSize - offset)`
  abbrev pub block_of : ℕ → ℕ
  block_of a = a / block_size * block_size

  abbrev pub segment : ℕ → ℕ → ℕ
  segment a left = min left (block_size - a % block_size)

  -- The loop of `read`.
  pub read_loop : ℕ → Cache → Mem → ℕ → Bytes → ℕ → ℕ → Bytes × Cache
  read_loop zero c m address out len copied = (out, c)
  read_loop (suc fuel) c m address out len copied =
      let a = u32 (address + copied) in
      let l = segment a (len - copied) in
      let (i, c') = cache_page nvm g c m (block_of a) in
      let out' = memcpy out copied (advance (c'.entries i).page (a % block_size)) l in
      let rest = read_loop fuel c' m address out' len (copied + l) in
      if ltb copied len then rest else (out, c)

  -- `read`; `out` is the buffer to fill.
  pub read : Cache → Mem → ℕ → Bytes → ℕ → Code × Bytes × Cache
  read c m address out len =
      let (out', c') = read_loop len c m address out len 0 in
      if out_of_limits address len then (Code.invalid_parameter, out, c) else (Code.ok, out', c')

  -- The validation loop of `write`: whether the write is possible, and the cache after it.
  pub validate_loop : ℕ → Cache → Mem → ℕ → Bytes → ℕ → ℕ → Bool × Cache
  validate_loop zero c m address new len copied = (true, c)
  validate_loop (suc fuel) c m address new len copied =
      let a = u32 (address + copied) in
      let l = segment a (len - copied) in
      let (i, c') = cache_page nvm g c m (block_of a) in
      let illegal =
        has_illegal (advance (c'.entries i).page (a % block_size)) (advance new copied) l 0 in
      let rest = validate_loop fuel c' m address new len (copied + l) in
      if ltb copied len then (if illegal then (false, c') else rest) else (true, c)

  abbrev with_page : Cache → ℕ → Bytes → Cache
  with_page c i p = record c { entries = update c.entries i (record (c.entries i) { page = p }) }

  -- One round of the second loop of `write`, of `l` bytes at `a`. `alignedEnd - alignedStart` is a
  -- difference mod 2 ^ 32, so it does not matter that an `alignedEnd` of 2 ^ 32 is stored as 0.
  pub write_segment : Cache → Mem → ℕ → Bytes → ℕ → Cache × Mem
  write_segment c m a new l =
      let (i, c') = cache_page nvm g c m (block_of a) in
      let page' = memcpy (c'.entries i).page (a % block_size) new l in
      let start = aligned_start a in
      (
        with_page c' i page',
        write m start (advance page' (start % block_size)) ((aligned_end (a + l) - start) / 4),
      )

  pub write_loop : ℕ → Cache → Mem → ℕ → Bytes → ℕ → ℕ → Cache × Mem
  write_loop zero c m address new len copied = (c, m)
  write_loop (suc fuel) c m address new len copied =
      let a = u32 (address + copied) in
      let l = segment a (len - copied) in
      let (c', m') = write_segment c m a (advance new copied) l in
      let rest = write_loop fuel c' m' address new len (copied + l) in
      if ltb copied len then rest else (c, m)

  -- `write`, where CODAL_FS_CACHE_VALIDATE is defined, as inc/FSCache.h does.
  pub write_bytes : Cache → Mem → ℕ → Bytes → ℕ → Code × Cache × Mem
  write_bytes c m address new len =
      let (legal, c') = validate_loop len c m address new len 0 in
      let (c'', m') = write_loop len c' m address new len 0 in
      if out_of_limits address len
      then (Code.invalid_parameter, c, m)
      else if legal
      then (Code.ok, c'', m')
      else (Code.not_supported, c', m)
