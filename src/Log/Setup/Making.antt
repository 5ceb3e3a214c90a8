-- ===== src/Log/Setup/Making.antt =====
-- The flash while clear of source/MicroBitLog.cpp makes a new log: pages erased, and what is written
-- to them.
use native.Mathlib.Nat.{div-add-mod', mod-lt, le-div_iff_mul-le}
use codal_microbit_v2_fft.Base.{
  ℕ, zero, suc, ◌+◌, ◌*◌, ◌/◌, ◌%◌, ◌^◌, ◌≤◌, ◌<◌, ◌≡◌, refl, ap, ◌∙◌, arith, true, false, Bytes,
  Bool-cases, inl, inr, if-both, within, leb, ◌==◌, bit_and,
}
use codal_microbit_v2_fft.Base.Bits.{mask_lem}
use codal_microbit_v2_fft.Nvm.{Nvm}
use codal_microbit_v2_fft.FsCache.{Geometry}
use codal_microbit_v2_fft.FsCache.Coherent.{IsUsable, IsCoherent}
use codal_microbit_v2_fft.FsCache.Access.{out_of_limits}
use codal_microbit_v2_fft.FsCache.Access.Writing.{overwritten}
use codal_microbit_v2_fft.FsCache.Access.Through.{write_bytes-Fits}
use codal_microbit_v2_fft.Log.Storage.{LogFile, cache_write}
use codal_microbit_v2_fft.Log.Setup.{header_size, metadata_address, erase_pages}

module _ (nvm : Nvm) (g : Geometry) where
  open nvm use {Mem, byte, byte-write, byte-erase, flash_start, flash_end, page_size}

  blank_kept :
      (rounds : ℕ) (m : Mem) (p last x : ℕ)
      → byte m x ≡ 255
      → byte (erase_pages nvm g rounds m p last) x ≡ 255
  unfolding erase_pages
  blank_kept zero m p last x h = h
  blank_kept (suc rounds) m p last x h =
      let erased = byte-erase m p x in
      if-both (λ (t : Mem). byte t x ≡ 255) (leb p last)
        (λ _. blank_kept rounds (nvm.erase m p) (p + page_size) last x (ground arith)) (λ _. h)

  erase_pages_lem :
      (rounds : ℕ) (m : Mem) (p last k x : ℕ)
      → k < rounds
      → p + k * page_size ≤ last
      → p + k * page_size ≤ x
      → x < p + k * page_size + page_size
      → byte (erase_pages nvm g rounds m p last) x ≡ 255
  unfolding erase_pages
  erase_pages_lem zero m p last k x lt in_range low high = absurd (omega arith)
  erase_pages_lem (suc rounds) m p last zero x lt in_range low high =
      let erased = byte-erase m p x in
      let into : within p (p + page_size) x ≡ true = ground arith in
      let more : leb p last ≡ true = ground arith in
      rw more (blank_kept rounds (nvm.erase m p) (p + page_size) last x (erased ∙ rw into refl))
  erase_pages_lem (suc rounds) m p last (suc k) x lt in_range low high =
      let more : leb p last ≡ true = ground arith in
      rw more (
        erase_pages_lem rounds (nvm.erase m p) (p + page_size) last k x (omega arith) (omega arith)
          (omega arith) (omega arith))

  -- The metadata lie in a page of their own, behind the header.
  pub metadata_page :
      0 < page_size
      → (q : ℕ) × (metadata_address nvm g ≡ q * page_size) × (header_size ≤ metadata_address nvm g)
  metadata_page pos =
      let e = div-add-mod' header_size page_size in
      elim (Bool-cases (header_size % page_size == 0)) [
        | inl t ↦
            let whole : header_size % page_size ≡ 0 = ground arith in
            rw t (header_size / page_size, omega (arith, e, whole), omega arith)
        | inr t ↦ rw t (1 + header_size / page_size, refl, omega (arith, e, mod-lt header_size pos))
      ]

  -- A write through the cache to an area that is erased.
  pub cache_write_lem :
      (s : LogFile Mem) (address : ℕ) (source : Bytes) (len : ℕ)
      → IsUsable g
      → flash_start ≡ 0
      → address + len < flash_end
      → flash_end ≤ 2 ^ 32
      → IsCoherent nvm g s.cache s.mem
      → ((i : ℕ) → i < len → source i < 256)
      → ((i : ℕ) → i < len → byte s.mem (address + i) ≡ 255)
      → let s' = cache_write nvm g s address source len in
        IsCoherent nvm g s'.cache s'.mem
        × ((x : ℕ) → byte s'.mem x ≡ overwritten (byte s.mem) address len source x)
  unfolding cache_write
  cache_write_lem s address source len u start inside top k bytes blank =
      let within_limits : out_of_limits nvm g address len ≡ false = ground arith in
      let done =
        write_bytes-Fits nvm g u s.cache s.mem address source len (omega arith) k within_limits
          (λ i low high.
            ap (λ v. bit_and v (source i)) (blank i high) ∙ mask_lem 8 (source i) (bytes i high)) in
      (done.1, done.2)

  -- A byte of page `k` behind the erases and the write of the header.
  pub prepared :
      (m : Mem) (header : Bytes) (last k x : ℕ)
      → 0 < page_size
      → flash_start ≡ 0
      → k * page_size ≤ last
      → header_size ≤ k * page_size
      → x < page_size
      → byte
          (nvm.write
            (erase_pages nvm g (last / page_size + 1) m flash_start last)
            flash_start
            header
            (header_size / 4))
          (k * page_size + x)
        ≡ 255
  prepared m header last k x pos start in_range behind high =
      let e = div-add-mod' last page_size in
      let rounds : k < last / page_size + 1 =
        let most = (le-div_iff_mul-le pos).1 in_range in omega arith in
      let out : within flash_start (flash_start + 4 * (header_size / 4)) (k * page_size + x)
          ≡ false =
        ground arith in
      byte-write (erase_pages nvm g (last / page_size + 1) m flash_start last) flash_start header
        (header_size / 4) (k * page_size + x)
      ∙ rw out (
          erase_pages_lem (last / page_size + 1) m flash_start last k (k * page_size + x) rounds
            (omega arith) (omega arith) (omega arith))
