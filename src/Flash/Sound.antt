-- ===== src/Flash/Sound.antt =====
-- The memory still holds bytes after `flash_write` of source/MicroBitFlash.cpp, in the scratch page
-- too.
use codal_microbit_v2_fft.Base.{
  ℕ, zero, suc, ◌+◌, ◌-◌, ◌*◌, ◌%◌, ◌<◌, arith, Bytes, Code, within, ◌==◌, ◌!=◌, if-both,
}
use codal_microbit_v2_fft.Base.Bits.{bit_and-le}
use codal_microbit_v2_fft.Nvm.{Nvm}
use codal_microbit_v2_fft.Flash.{need_erase, burn_loop, move_to_scratch, flash_write}
use codal_microbit_v2_fft.Flash.Cells.{AreBytes}

module _ (nvm : Nvm) where
  open nvm use {Mem, byte, write, erase, page_size, byte-write, byte-erase}

  pub write-AreBytes :
      (m : Mem) (a : ℕ) (d : Bytes) (n : ℕ) → AreBytes (byte m) → AreBytes (byte (write m a d n))
  write-AreBytes m a d n bm x = rw (byte-write m a d n x) (
      if-both (λ v. v < 256) (within a (a + 4 * n) x)
        (λ t. let le = bit_and-le (byte m x) (d (x - a)) in let lt = bm x in omega arith)
        (λ t. bm x))

  pub erase-AreBytes : (m : Mem) (p : ℕ) → AreBytes (byte m) → AreBytes (byte (erase m p))
  erase-AreBytes m p bm x =
      rw (byte-erase m p x)
        (if-both (λ v. v < 256) (within p (p + page_size) x) (λ t. omega arith) (λ t. bm x))

  burn_loop-AreBytes :
      (left i : ℕ) (m : Mem) (word source : Bytes) (page offset len from : ℕ)
      → AreBytes (byte m)
      → AreBytes (byte (burn_loop nvm left i m word source page offset len from))
  unfolding burn_loop
  burn_loop-AreBytes zero i m word source page offset len from bm = bm
  burn_loop-AreBytes (suc left) i m word source page offset len from bm =
      burn_loop-AreBytes left (i + 1) _ _ source page offset len from (
        if-both (λ k. AreBytes (byte k)) ((i + 1) % 4 == 0) (λ t. write-AreBytes m _ _ 1 bm)
          (λ t. bm))

  pub flash_write-AreBytes :
      (m : Mem) (address : ℕ) (source : Bytes) (len scratch : ℕ)
      → AreBytes (byte m)
      → let (code, m') = flash_write nvm m address source len scratch in AreBytes (byte m')
  unfolding flash_write move_to_scratch
  flash_write-AreBytes m address source len scratch bm =
      if-both (λ (r : Code × Mem). AreBytes (byte r.1)) (scratch % page_size != 0) (λ t. bm)
        (λ t.
          if-both (λ (r : Code × Mem). AreBytes (byte r.1)) (need_erase nvm m source address len 0)
            (λ t'.
              burn_loop-AreBytes _ _ _ _ source _ _ len _
                (erase-AreBytes _ _ (write-AreBytes _ _ _ _ (erase-AreBytes m scratch bm))))
            (λ t'. burn_loop-AreBytes _ _ m _ source _ _ len _ bm))
