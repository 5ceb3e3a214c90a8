-- ===== src/UsbFlash/Erasing/Storing.antt =====
-- erase, write and read of source/MicroBitUSBFlashManager.cpp in sequence.
use codal_microbit_v2_fft.Base.{
  ℕ, zero, suc, ◌+◌, ◌-◌, ◌*◌, ◌/◌, ◌%◌, ◌^◌, ◌≤◌, ◌<◌, ◌≡◌, refl, ap, ap₂, fun_ext, ◌∙◌, inl, inr,
  arith, Bool-cases, true, some, ◌∷◌, Bytes, Code, slice, within, if◌then◌else◌,
}
use codal_microbit_v2_fft.Base.Bits.{mask_lem}
use codal_microbit_v2_fft.UsbFlash.{Bus, Manager}
use codal_microbit_v2_fft.UsbFlash.Memory.{read, write, erase}
use codal_microbit_v2_fft.UsbFlash.Chip.{Chip}
use codal_microbit_v2_fft.UsbFlash.Writing.{masked, write_loop_lem, read_lem}
use codal_microbit_v2_fft.UsbFlash.Erasing.{IsReady}
use codal_microbit_v2_fft.UsbFlash.Erasing.Whole.{blanked, erase_lem}

-- The cells with the bytes of `d` at `a`.
abbrev pub stored : Bytes → ℕ → ℕ → Bytes → Bytes
stored f a n d x = if within a (a + n) x then d (x - a) else f x

masked-blanked :
    (f d : Bytes) (a n x : ℕ)
    → ((i : ℕ) → d i < 256)
    → masked (blanked f a (a + n)) a n d x ≡ stored f a n d x
masked-blanked f d a n x byte = elim (Bool-cases (within a (a + n) x)) [
  | inl e ↦ rw e (mask_lem 8 (d (x - a)) (byte (x - a)))
  | inr e ↦ rw e refl
]

slice-stored :
    (f d : Bytes) (a n k i : ℕ) → i + k ≤ n → slice (stored f a n d) (a + i) k ≡ slice d i k
slice-stored f d a n zero i h = refl
slice-stored f d a n (suc k) i h =
    let into : within a (a + n) (a + i) ≡ true = ground arith in
    let at : a + i - a ≡ i = omega arith in
    ap₂ (λ v l. v ∷ l) (rw into (ap d at))
      (ap (λ j. slice (stored f a n d) j k) (omega arith)
        ∙ slice-stored f d a n k (suc i) (omega arith))

module _ (bus : Bus) (chip : Chip bus) where
  open bus use {State}
  open chip use {cell, size, count}

  -- Where the chip works, its blocks are fewer than 2 ^ 16 bytes and a multiple of 4, the storage ends
  -- by 2 ^ 24, the geometry is not known yet or right, the data are bytes, and the words, at least
  -- one, lie in the storage at a multiple of 4: erase, then write, then read of these words end with
  -- DEVICE_OK, read gives the data, and the storage has the data there and is unchanged elsewhere.
  pub read-write-erase :
      (m : Manager State) (address words : ℕ) (data_bytes : Bytes)
      → 0 < size
      → size % 4 ≡ 0
      → size < 2 ^ 16
      → size * count ≤ 2 ^ 24
      → IsReady bus chip m
      → ((i : ℕ) → data_bytes i < 256)
      → address % 4 ≡ 0
      → 0 < words
      → address + words * 4 ≤ size * count
      → (m1 : Manager State) × (m2 : Manager State) × (m3 : Manager State) × (erase bus m address
            words
          ≡ some (Code.ok, m1))
        × (write bus m1 address data_bytes words ≡ (Code.ok, m2))
        × (read bus m2 address words ≡ (slice data_bytes 0 (words * 4), m3))
        × ((x : ℕ) → cell m3.outside x ≡ stored (cell m.outside) address (words * 4) data_bytes x)
  unfolding write
  read-write-erase m address words d pos whole narrow small ready byte aligned some_word fits =
      let n = words * 4 in
      let (m1, erased, cells1) =
        erase_lem bus chip m address words pos whole narrow small ready aligned some_word fits in
      let (m2, written, same2, cells2) =
        write_loop_lem bus chip ((n + 63) / 64) m1 address d n refl (omega arith) in
      let (m3, got, same3, cells3) = read_lem bus chip m2 address words some_word (omega arith) in
      let holds : (x : ℕ) → cell m2.outside x ≡ stored (cell m.outside) address n d x = λ x.
        cells2 x
        ∙ (ap (λ f. masked f address n d x) (fun_ext cells1)
            ∙ masked-blanked (cell m.outside) d address n x byte) in
      let start : address ≡ address + 0 = omega arith in
      let data_back : slice (cell m2.outside) address n ≡ slice d 0 n =
        ap₂ (λ f a. slice f a n) (fun_ext holds) start
        ∙ slice-stored (cell m.outside) d address n n 0 (omega arith) in
      (m1, m2, m3, erased, written, got ∙ ap (λ b. (b, m3)) data_back, λ x. cells3 x ∙ holds x)
