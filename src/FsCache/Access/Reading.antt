-- ===== src/FsCache/Access/Reading.antt =====
-- What `read` of source/FSCache.cpp returns.
use native.Mathlib.Nat.{mod-eq_of_lt}
use codal_microbit_v2_fft.Base.{
  ℕ, zero, suc, ◌+◌, ◌-◌, ◌%◌, ◌^◌, ◌≤◌, ◌<◌, ◌≡◌, refl, ap, ◌∙◌, arith, inl, inr, Bytes, memcpy,
  advance, within, ltb, if◌then◌else◌, Bool-cases, ltb→lt, Code,
}
use codal_microbit_v2_fft.Nvm.{Nvm}
use codal_microbit_v2_fft.FsCache.{Geometry, Cache, u32, cache_page}
use codal_microbit_v2_fft.FsCache.Coherent.{
  IsUsable, IsCoherent, Paged, cache_page-Paged, page-byte,
}
use codal_microbit_v2_fft.FsCache.Access.{out_of_limits, block_of, segment, read_loop, read}
use codal_microbit_v2_fft.FsCache.Access.Blocks.{block_lem}

-- Copying a first segment of `l` bytes and then the rest is copying all of it.
pub copy_step :
    (f : ℕ → ℕ) (old src : Bytes) (copied l len j : ℕ)
    → l ≤ len - copied
    → (copied ≤ j → j < copied + l → src (j - copied) ≡ f j)
    → (if within (copied + l) len j then f j else memcpy old copied src l j)
      ≡ (if within copied len j then f j else old j)
copy_step f old src copied l len j h e = ground arith

-- No address of an area that ends by 2 ^ 32 wraps.
pub no_wrap :
    (address copied len : ℕ)
    → address + len ≤ 2 ^ 32
    → copied < len
    → u32 (address + copied) ≡ address + copied
no_wrap address copied len h lt = mod-eq_of_lt (omega arith)

module _ (nvm : Nvm) (g : Geometry) (u : IsUsable g) where
  open nvm use {Mem, byte, flash_start, flash_end}
  open g use {block_size}

  -- The block of `a`, paged in.
  pub page_of :
      (c : Cache) (m : Mem) (a : ℕ)
      → IsCoherent nvm g c m
      → Paged nvm g m (block_of nvm g a) (cache_page nvm g c m (block_of nvm g a))
  page_of c m a k =
      cache_page-Paged nvm g c m (block_of nvm g a) u (block_lem block_size u.some_block a).2 k

  -- Within its block, the page at the offset of `a` holds the memory from `a` on.
  pub segment-byte :
      (m : Mem) (a j : ℕ) (out : ℕ × Cache)
      → Paged nvm g m (block_of nvm g a) out
      → a % block_size + j < block_size
      → (out.1.entries out.0).page (a % block_size + j) ≡ byte m (a + j)
  segment-byte m a j out p h =
      let whole = (block_lem block_size u.some_block a).0 in
      page-byte nvm g m (block_of nvm g a) out p (a % block_size + j) h
      ∙ ap (byte m) (omega (arith, whole))

  -- A round copies at least one byte, and no more than is left of the area and of the block.
  pub segment_lem :
      (a left : ℕ)
      → 0 < left
      → let l = segment nvm g a left in (0 < l) × (l ≤ left) × (a % block_size + l ≤ block_size)
  segment_lem a left h =
      let inside = (block_lem block_size u.some_block a).1 in omega (arith, inside)

  read_loop_lem :
      (fuel : ℕ) (c : Cache) (m : Mem) (address : ℕ) (out : Bytes) (len copied : ℕ)
      → len ≤ copied + fuel
      → address + len ≤ 2 ^ 32
      → IsCoherent nvm g c m
      → let (out', c') = read_loop nvm g fuel c m address out len copied in
        IsCoherent nvm g c' m
        × ((j : ℕ) → out' j ≡ (if within copied len j then byte m (address + j) else out j))
  unfolding read_loop
  read_loop_lem zero c m address out len copied h top k = (k, λ j. ground arith)
  read_loop_lem (suc fuel) c m address out len copied h top k = elim (Bool-cases (ltb copied len)) [
    | inr e ↦ rw e (k, λ j. ground arith)
    | inl e ↦
        let flat = no_wrap address copied len top (ltb→lt copied len e) in
        let a = address + copied in
        let l = segment nvm g a (len - copied) in
        let paged = cache_page nvm g c m (block_of nvm g a) in
        let p = page_of c m a k in
        let s = segment_lem a (len - copied) (ground arith) in
        let page' = advance (paged.1.entries paged.0).page (a % block_size) in
        let ih =
          read_loop_lem fuel paged.1 m address (memcpy out copied page' l) len (copied + l)
            (omega arith) top p.coherent in
        rw (e, flat)
          (
            ih.0,
            λ j.
                ih.1 j
                ∙ copy_step (λ i. byte m (address + i)) out page' copied l len j s.1
                    (λ lo hi.
                      segment-byte m a (j - copied) paged p (omega (arith, s.2))
                      ∙ ap (byte m) (omega arith)),
          )
  ]

  -- Where the area ends by 2 ^ 32 and the cache is a faithful copy of the memory: an area within the
  -- limits is read, `read` returns DEVICE_OK, the buffer holds the bytes of the
  -- memory from `address` on and is unchanged elsewhere, and the cache is still a faithful copy.
  -- Outside the limits `read` returns DEVICE_INVALID_PARAMETER and changes nothing.
  pub read_lem :
      (c : Cache) (m : Mem) (address : ℕ) (out : Bytes) (len : ℕ)
      → address + len ≤ 2 ^ 32
      → IsCoherent nvm g c m
      → let (code, out', c') = read nvm g c m address out len in
        IsCoherent nvm g c' m
        × (if out_of_limits nvm g address len
            then (code ≡ Code.invalid_parameter) × (out' ≡ out) × (c' ≡ c)
            else (code ≡ Code.ok)
              × ((j : ℕ) → out' j ≡ (if ltb j len then byte m (address + j) else out j)))
  unfolding read
  read_lem c m address out len top k =
      let done = read_loop_lem len c m address out len 0 (omega arith) top k in
      elim (Bool-cases (out_of_limits nvm g address len)) [
        | inl e ↦ rw e (k, (refl, refl, refl))
        | inr e ↦ rw e (done.0, (refl, λ j. done.1 j ∙ ground arith))
      ]
