-- ===== src/UsbFlash/Erasing/Whole.antt =====
-- erase of source/MicroBitUSBFlashManager.cpp as a whole: what is saved, erased and put back.
use native.Mathlib.Nat.{mul-le-mul_right}
use codal_microbit_v2_fft.Base.{
  ℕ, zero, suc, ◌+◌, ◌-◌, ◌*◌, ◌/◌, ◌%◌, ◌^◌, ◌≤◌, ◌<◌, ◌≡◌, refl, ap, ap₂, fun_ext, subst, sym,
  ◌∙◌, arith, Bool, true, false, ◌&&◌, ◌||◌, Option, some, List, Bytes, Code, slice, within, length,
  ltb, lt→ltb, ◌!=◌, if◌then◌else◌, bit_and,
}
use codal_microbit_v2_fft.Base.Bits.{mask_lem}
use codal_microbit_v2_fft.FileSystem.{u32, sub32}
use codal_microbit_v2_fft.UsbFlash.{Bus, Manager, get_geometry}
use codal_microbit_v2_fft.UsbFlash.Memory.{
  last_block, bytes_after, save, put_saved, restore, erase_loop, erase_between, erase,
}
use codal_microbit_v2_fft.UsbFlash.Chip.{Chip}
use codal_microbit_v2_fft.UsbFlash.Writing.{write_buffer_lem, read_lem}
use codal_microbit_v2_fft.UsbFlash.Erasing.{IsReady, Holds, get_geometry-Holds, erase_loop_lem}
use codal_microbit_v2_fft.UsbFlash.Erasing.Blocks.{
  cover, cut, wanted_true, wanted_false, partial_false,
}

-- The cells behind an erase of the bytes from `address` to `finish`.
abbrev pub blanked : Bytes → ℕ → ℕ → Bytes
blanked f address finish x = if within address finish x then 255 else f x

module _ (bus : Bus) (chip : Chip bus) where
  open bus use {State}
  open chip use {cell, size, count, bytes}

  -- What is saved, where something is to be saved.
  save_lem :
      (b : Bool) (m : Manager State) (f : Bytes) (a n : ℕ)
      → Holds bus chip m f
      → (b ≡ true → 0 < n)
      → (b ≡ false → n ≡ 0)
      → n % 4 ≡ 0
      → a + n ≤ 2 ^ 24
      → (m' : Manager State) × (save bus b m a n ≡ (slice f a n, m')) × Holds bus chip m' f
  unfolding save
  save_lem true m f a n v some_byte none_left whole fits =
      let (m', runs, same, cells) =
        read_lem bus chip m a (n / 4) (omega (arith, some_byte refl)) (omega arith) in
      let words : n / 4 * 4 ≡ n = omega arith in
      (
        m',
        runs ∙ ap₂ (λ g k. (slice g a k, m')) (fun_ext v.cells) words,
        record {
          size = same.size ∙ v.size;
          count = same.count ∙ v.count;
          cells = λ x. cells x ∙ v.cells x;
        },
      )
  save_lem false m f a n v some_byte none_left whole fits =
      (m, ap (λ k. (slice f a k, m)) (sym (none_left refl)), v)

  restore_lem :
      (m : Manager State) (f g : Bytes) (a n : ℕ)
      → Holds bus chip m g
      → n % 4 ≡ 0
      → a + n ≤ 2 ^ 24
      → Holds bus chip
          (restore bus m (slice f a n) a)
          (λ x. if within a (a + n) x then bit_and (g x) (f x) else g x)
  unfolding restore
  restore_lem m f g a zero v whole fits = record {
    size = v.size;
    count = v.count;
    cells = λ x. v.cells x ∙ let out : within a (a + 0) x ≡ false = ground arith in rw out refl;
  }
  restore_lem m f g a (suc n) v whole fits =
      let (m', runs, same, cells) = write_buffer_lem bus chip m f a (suc n) whole fits in
      let some_byte = lt→ltb 0 (length (slice f a (suc n))) (omega arith) in
      let stored : restore bus m (slice f a (suc n)) a ≡ m' = rw some_byte (ap (λ o. o.1) runs) in
      let put : Bytes → ℕ → ℕ =
        λ h x. if within a (a + suc n) x then bit_and (h x) (f x) else h x in
      subst (λ t. Holds bus chip t (put g)) (sym stored)
        (record {
          size = same.size ∙ v.size;
          count = same.count ∙ v.count;
          cells = λ x. cells x ∙ ap (λ h. put h x) (fun_ext v.cells);
        })

  -- What is put back undoes the erase outside these bytes.
  put_back :
      (f : Bytes) (first address finish last x : ℕ)
      → f x < 256
      → first ≤ address
      → address ≤ finish
      → finish ≤ last
      → let erased = if within first last x then 255 else f x in
        let once = if within first address x then bit_and erased (f x) else erased in
        (if within finish last x then bit_and once (f x) else once) ≡ blanked f address finish x
  put_back f first address finish last x byte a b c =
      let same = mask_lem 8 (f x) byte in ground (arith, same)

  erase_between_lem :
      (m : Manager State) (f : Bytes) (address len : ℕ)
      → Holds bus chip m f
      → ((x : ℕ) → f x < 256)
      → 0 < size
      → size % 4 ≡ 0
      → address % 4 ≡ 0
      → 0 < len
      → len % 4 ≡ 0
      → address + len ≤ size * count
      → size * count ≤ 2 ^ 24
      → (m' : Manager State) × (erase_between bus size count m address len (address + len)
          ≡ some (Code.ok, m'))
        × Holds bus chip m' (blanked f address (address + len))
  unfolding erase_between put_saved
  erase_between_lem m f address len v byte pos whole aligned some_byte words fits small =
      let finish = address + len in
      let first = address / size * size in
      let last = last_block size finish in
      let before = address - first in
      let after = bytes_after size finish in
      let partial = first != address || len != u32 (sub32 last first + size) in
      let (c, covered) = cover size count address finish pos (omega arith) fits (omega arith) in
      let n = c - address / size in
      let k = cut size count address len c whole aligned words pos covered in
      let in_storage = mul-le-mul_right size covered.in_storage in
      let top : last + size ≤ 2 ^ 24 = omega (arith, covered.last, in_storage) in
      let nothing = λ (e : partial ≡ false).
        partial_false first address len last size after e k.first_last top k.sum in
      let start : first + before ≡ address = omega (arith, k.before) in
      let stop : finish + after ≡ first + n * size = omega (arith, k.sum, k.blocks) in
      let (m1, saved1, v1) =
        save_lem (partial && ltb 0 before) m f first before v (wanted_true partial before)
          (wanted_false partial before (λ e. (nothing e).0)) k.before_words (omega arith) in
      let (m2, saved2, v2) =
        save_lem (partial && ltb 0 after) m1 f finish after v1 (wanted_true partial after)
          (wanted_false partial after (λ e. (nothing e).1)) k.after_words (omega (arith, k.sum)) in
      let (m3, runs, same, cells) =
        erase_loop_lem bus chip n (count + 1) m2 first last k.blocks k.aligned pos top
          (omega (arith, covered.in_storage)) v2.size in
      let v3 : Holds bus chip m3 (λ x. if within first (first + n * size) x then 255 else f x) =
        record {
          size = same.size ∙ v2.size;
          count = same.count ∙ v2.count;
          cells = λ x.
              cells x ∙ ap (λ h. if within first (first + n * size) x then 255 else h) (v2.cells x);
        } in
      let v4 = restore_lem m3 f _ first before v3 k.before_words (omega arith) in
      let v5 = restore_lem _ f _ finish after v4 k.after_words (omega (arith, k.sum)) in
      let test : (ltb (size * count) finish || len % 4 != 0) ≡ false = ground arith in
      let at_first = slice f first before in
      let at_finish = slice f finish after in
      let behind : List ℕ → List ℕ × Manager State → Option (Code × Manager State) = λ saved o.
        put_saved bus saved first o.0 finish (erase_loop bus (count + 1) o.1 first last) in
      let second : Manager State → List ℕ × Manager State =
        λ t. save bus (partial && ltb 0 after) t finish after in
      let outcome : ℕ → ℕ → ℕ → ℕ = λ a l x.
        let erased = if within first (first + n * size) x then 255 else f x in
        let once = if within first a x then bit_and erased (f x) else erased in
        if within finish l x then bit_and once (f x) else once in
      (
        restore bus (restore bus m3 at_first first) at_finish finish,
        rw test (
            ap (λ o. behind o.0 (second o.1)) saved1
            ∙ (ap (behind at_first) saved2
                ∙ ap (put_saved bus at_first first at_finish finish) runs)),
        record {
          size = v5.size;
          count = v5.count;
          cells = λ x.
              v5.cells x
              ∙ (ap₂ (λ a l. outcome a l x) start stop
                  ∙ put_back f first address finish (first + n * size) x (byte x) k.before
                      (omega arith) (omega arith));
        },
      )

  -- Where the chip works, its blocks are fewer than 2 ^ 16 bytes and a multiple of 4, the storage ends
  -- by 2 ^ 24, the geometry is not known yet or right, the address is a multiple of 4, at least one
  -- word is to be erased, and the words lie in the storage: erase ends with DEVICE_OK, and the
  -- storage has 0xFF in these words and is unchanged elsewhere, also in the blocks that they share.
  pub erase_lem :
      (m : Manager State) (address words : ℕ)
      → 0 < size
      → size % 4 ≡ 0
      → size < 2 ^ 16
      → size * count ≤ 2 ^ 24
      → IsReady bus chip m
      → address % 4 ≡ 0
      → 0 < words
      → address + words * 4 ≤ size * count
      → (m' : Manager State) × (erase bus m address words ≡ some (Code.ok, m'))
        × ((x : ℕ) → cell m'.outside x ≡ blanked (cell m.outside) address (address + words * 4) x)
  unfolding erase
  erase_lem m0 address words pos whole narrow small ready aligned some_word fits =
      let m = get_geometry bus m0 in
      let v = get_geometry-Holds bus chip m0 narrow ready in
      let len : u32 (words * 4) ≡ words * 4 = omega arith in
      let finish : u32 (address + u32 (words * 4)) ≡ address + words * 4 = omega arith in
      let (m', runs, held) =
        erase_between_lem m (cell m0.outside) address (words * 4) v (bytes m0.outside) pos whole
          aligned (omega arith) (omega arith) fits small in
      (
        m',
        ap₂
              (λ s c.
                erase_between bus s c m address (u32 (words * 4)) (u32 (address + u32 (words * 4))))
              v.size v.count
            ∙ (ap₂ (λ l t. erase_between bus size count m address l t) len finish ∙ runs),
        held.cells,
      )
