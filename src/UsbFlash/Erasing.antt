-- ===== src/UsbFlash/Erasing.antt =====
-- What erase of source/MicroBitUSBFlashManager.cpp does where the chip works.
pub mod Blocks
pub mod Whole
pub mod Storing
use native.Mathlib.Nat.{add-mod_right}
use codal_microbit_v2_fft.Base.{
  ℕ, zero, suc, ◌+◌, ◌-◌, ◌*◌, ◌/◌, ◌%◌, ◌^◌, ◌≤◌, ◌<◌, ◌≡◌, ◌⊎◌, refl, ap, subst, sym, ◌∙◌, inl,
  inr, arith, Bool, Bool-cases, true, false, some, List, [], ◌∷◌, Bytes, Code, within, length, ltb,
  get_or, ◌==◌, if◌then◌else◌,
}
use codal_microbit_v2_fft.UsbFlash.{
  Bus, Manager, transact, command, with_sector_size, with_disk_size, get_geometry, sector_size_cmd,
  disk_size_cmd,
}
use codal_microbit_v2_fft.UsbFlash.Memory.{erase_cmd, header, read, erase_loop, erase}
use codal_microbit_v2_fft.UsbFlash.Chip.{Chip, header_first, length-first, exchanged, transact_lem}
use codal_microbit_v2_fft.UsbFlash.Writing.{IsSame}

erased_join :
    (f : Bytes) (a n k x : ℕ)
    → (if within (a + n) (a + n + k) x then 255 else if within a (a + n) x then 255 else f x)
      ≡ (if within a (a + (n + k)) x then 255 else f x)
erased_join f a n k x = ground arith

module _ (bus : Bus) (chip : Chip bus) where
  open bus use {State}
  open chip use {cell, size, count, answer, done, erases, bytes, tells_size, tells_count}

  -- The geometry is not known yet, or is that of the chip.
  abbrev pub IsReady : Manager State → Type 0
  IsReady m = (m.geometry_loaded ≡ false) ⊎ ((m.block_size ≡ size) × (m.block_count ≡ count))

  -- A manager that knows the geometry, over a chip with the cells given.
  pub record Holds (m : Manager State) (f : Bytes) : Type 0 where
    pub size : m.block_size ≡ chip.size
    pub count : m.block_count ≡ chip.count
    pub cells : (x : ℕ) → cell m.outside x ≡ f x

  pub get_geometry-Holds :
      (m : Manager State) → size < 2 ^ 16 → IsReady m → Holds (get_geometry bus m) (cell m.outside)
  unfolding get_geometry command with_sector_size with_disk_size
  get_geometry-Holds m small ready = elim (Bool-cases m.geometry_loaded) [
    | inl e ↦ elim ready [
      | inl off ↦ let clash : false ≡ true = sym off ∙ e in cc
      | inr (a, b) ↦ rw e (record { size = a; count = b; cells = λ x. refl })
    ]
    | inr e ↦
        let told = tells_size m.outside in
        let m1 = exchanged bus chip m (sector_size_cmd ∷ []) 3 in
        let m2 = record m1 { block_size = 256 * (size / 256) + size % 256 } in
        let counted = tells_count m1.outside in
        let m3 = exchanged bus chip m2 (disk_size_cmd ∷ []) 2 in
        let e1 = transact_lem bus chip m (sector_size_cmd ∷ []) 3 (ap (λ b. get_or b 0 0) told.0) in
        let e2 =
          transact_lem bus chip m2 (disk_size_cmd ∷ []) 2 (ap (λ b. get_or b 0 0) counted.0) in
        let sector = λ (b : List ℕ). with_sector_size bus (b, m1) in
        let disk = λ (b : List ℕ). with_disk_size bus true (b, m3) in
        let loaded : get_geometry bus m
            ≡ record m3 { block_count = count; geometry_loaded = true } =
          simp e (
            ap (with_sector_size bus) e1
            ∙ (ap sector told.0 ∙ (ap (with_disk_size bus true) e2 ∙ ap disk counted.0))) in
        subst (λ t. Holds t (cell m.outside)) (sym loaded)
          (record { size = omega arith; count = refl; cells = λ x. counted.1 x ∙ told.1 x })
  ]

  pub erase_loop_lem :
      (left rounds : ℕ) (m : Manager State) (page last : ℕ)
      → page + left * size ≡ last + size
      → page % size ≡ 0
      → 0 < size
      → last + size ≤ 2 ^ 24
      → left < rounds
      → m.block_size ≡ size
      → (m' : Manager State) × (erase_loop bus rounds m page last ≡ some (Code.ok, m'))
        × IsSame bus chip m m'
        × ((x : ℕ)
            → cell m'.outside x
              ≡ (if within page (page + left * size) x then 255 else cell m.outside x))
  unfolding erase_loop
  erase_loop_lem left zero m page last at aligned pos fits fuel known = absurd (omega arith)
  erase_loop_lem zero (suc rounds) m page last at aligned pos fits fuel known =
      let past : ltb last page ≡ true = ground arith in
      (
        m,
        rw past refl,
        record { size = refl; count = refl },
        λ x. let out : within page (page + 0 * size) x ≡ false = ground arith in rw out refl,
      )
  erase_loop_lem (suc left) (suc rounds) m page last at aligned pos fits fuel known =
      let le : page ≤ last = omega arith in
      let here : ltb last page ≡ false = ground arith in
      let r = header erase_cmd page page in
      let law = erases m.outside page (omega arith) aligned in
      let m1 = exchanged bus chip m r 1 in
      let first = header_first erase_cmd page page (omega arith) (omega arith) in
      let e = transact_lem bus chip m r 1 (law.0 ∙ sym first) in
      let some_answer = length-first (answer m.outside r 1) erase_cmd (omega arith) law.0 in
      let (m', runs, same, cells) =
        erase_loop_lem left rounds m1 (page + size) last (omega arith)
          (add-mod_right page size ∙ aligned) pos fits (omega arith) known in
      let next = λ (o : List ℕ × Manager State).
        if length o.0 == 0
        then some (Code.i2c_error, o.1)
        else erase_loop bus rounds o.1 (page + o.1.block_size) last in
      let one_more : size + left * size ≡ suc left * size = omega arith in
      (
        m',
        rw here (
            ap next e
            ∙ rw some_answer (ap (λ z. erase_loop bus rounds m1 (page + z) last) known ∙ runs)),
        record { size = same.size; count = same.count },
        λ x.
            cells x
            ∙ (ap (λ v. if within (page + size) (page + size + left * size) x then 255 else v)
                  (law.1 x)
                ∙ (erased_join (cell m.outside) page size (left * size) x
                    ∙ ap (λ l. if within page (page + l) x then 255 else cell m.outside x)
                        one_more)),
      )
