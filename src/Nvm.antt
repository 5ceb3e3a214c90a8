-- ===== src/Nvm.antt =====
-- The non-volatile memory behind the cache and the log: `codal::NVMController` of codal-core, which
-- is not in this repository. What the code relies on is that of NOR flash: a write can only clear
-- bits, and an erase sets a whole page to 0xFF.
use codal_microbit_v2_fft.Base.{ℕ, ◌+◌, ◌-◌, ◌*◌, ◌≡◌, refl, Bytes, within, if◌then◌else◌, bit_and}

pub record Nvm : Type 1 where
  pub Mem : Type 0
  pub byte : Mem → ℕ → ℕ
  -- `write(address, data, words)`
  pub write : Mem → ℕ → Bytes → ℕ → Mem
  -- `erase(page)`
  pub erase : Mem → ℕ → Mem
  -- `getFlashStart()`, `getFlashEnd()` and `getPageSize()`
  pub flash_start : ℕ
  pub flash_end : ℕ
  pub page_size : ℕ
  pub byte-write :
      (m : Mem) (a : ℕ) (d : Bytes) (n x : ℕ)
      → byte (write m a d n) x
        ≡ (if within a (a + 4 * n) x then bit_and (byte m x) (d (x - a)) else byte m x)
  pub byte-erase :
      (m : Mem) (p x : ℕ)
      → byte (erase m p) x ≡ (if within p (p + page_size) x then 255 else byte m x)

-- A memory of `pages` pages of 4096 bytes, as a function of the address.
abbrev pub flash_model : ℕ → Nvm
flash_model pages = record {
  Mem = ℕ → ℕ;
  byte = λ m x. m x;
  write = λ m a d n x. if within a (a + 4 * n) x then bit_and (m x) (d (x - a)) else m x;
  erase = λ m p x. if within p (p + 4096) x then 255 else m x;
  flash_start = 0;
  flash_end = 4096 * pages;
  page_size = 4096;
  byte-write = λ m a d n x. refl;
  byte-erase = λ m p x. refl;
}
