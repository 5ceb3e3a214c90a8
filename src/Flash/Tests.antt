-- ===== src/Flash/Tests.antt =====
-- Instances of the theorems on source/MicroBitFlash.cpp.
use codal_microbit_v2_fft.Base.{ℕ, ◌≡◌, refl, arith, Bytes, Code, true}
use codal_microbit_v2_fft.Nvm.{flash_model}
use codal_microbit_v2_fft.Flash.{need_erase, flash_write}
use codal_microbit_v2_fft.Flash.Cells.{replaced}
use codal_microbit_v2_fft.Flash.Whole.{flash_write_lem}

-- A memory in which the new bytes need an erase.
abbrev old_mem : ℕ → ℕ
old_mem = λ _. 15

abbrev new_bytes : Bytes
new_bytes = λ _. 200

erases : need_erase (flash_model 8) old_mem new_bytes 5000 3 0 ≡ true
unfolding need_erase
erases = refl

flash_write_lem_example :
    let (code, m') = flash_write (flash_model 8) old_mem 5000 new_bytes 3 8192 in
    (code ≡ Code.ok) × (m' 5001 ≡ replaced old_mem 5000 3 new_bytes 5001)
flash_write_lem_example =
    flash_write_lem (flash_model 8) old_mem 5000 new_bytes 3 8192 5001 (λ x. omega arith)
      (λ x. omega arith) (omega arith) refl refl (omega arith) (omega arith) refl
