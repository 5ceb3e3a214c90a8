-- ===== src/UsbFlash/Writing.antt =====
-- What read and write of source/MicroBitUSBFlashManager.cpp do where the chip works.
use codal_microbit_v2_fft.Base.{
  ℕ, zero, suc, ◌+◌, ◌-◌, ◌*◌, ◌/◌, ◌%◌, ◌^◌, ◌≤◌, ◌<◌, ◌≡◌, refl, ap, sym, ◌∙◌, inl, inr, arith,
  min, Bool-cases, true, false, List, [], ◌++◌, Bytes, Code, of_list, slice, advance, within,
  length, ltb, lt→ltb, get_or, drop, ◌==◌, if◌then◌else◌, bit_and,
}
use codal_microbit_v2_fft.FileSystem.{u32}
use codal_microbit_v2_fft.UsbFlash.{Bus, Manager, transact}
use codal_microbit_v2_fft.UsbFlash.Memory.{
  read_cmd, write_cmd, header, read, write_loop, write, write_buffer, max_write_length,
}
use codal_microbit_v2_fft.UsbFlash.Chip.{Chip, header_first, length-first, exchanged, transact_lem}

pub length-slice : (f : Bytes) (a n : ℕ) → length (slice f a n) ≡ n
length-slice f a zero = refl
length-slice f a (suc n) = ap suc (length-slice f (suc a) n)

pub of_list-slice : (f : Bytes) (a n i : ℕ) → i < n → of_list (slice f a n) i ≡ f (a + i)
of_list-slice f a zero i h = absurd (omega arith)
of_list-slice f a (suc n) zero h = ap f (omega arith)
of_list-slice f a (suc n) (suc i) h = of_list-slice f (suc a) n i (omega arith) ∙ ap f (omega arith)

-- The cells with `n` bytes written at `a`.
abbrev pub masked : Bytes → ℕ → ℕ → Bytes → Bytes
masked f a n d x = if within a (a + n) x then bit_and (f x) (d (x - a)) else f x

masked_join :
    (f : Bytes) (a n k : ℕ) (d : Bytes) (x : ℕ)
    → masked (masked f a n d) (a + n) k (advance d n) x ≡ masked f a (n + k) d x
masked_join f a n k d x = elim (Bool-cases (within a (a + n) x)) [
  | inl e ↦
      let out : within (a + n) (a + n + k) x ≡ false = ground arith in
      let into : within a (a + (n + k)) x ≡ true = ground arith in rw (e, out, into) refl
  | inr e ↦ elim (Bool-cases (within (a + n) (a + n + k) x)) [
    | inl h ↦
        let into : within a (a + (n + k)) x ≡ true = ground arith in
        let at : n + (x - (a + n)) ≡ x - a = ground arith in
        rw (e, h, into) (ap (λ i. bit_and (f x) (d i)) at)
    | inr h ↦ let out : within a (a + (n + k)) x ≡ false = ground arith in rw (e, h, out) refl
  ]
]

module _ (bus : Bus) (chip : Chip bus) where
  open bus use {State}
  open chip use {cell, size, count, answer, done, reads, writes}

  -- What an operation on the storage keeps of the manager.
  pub record IsSame (m m' : Manager State) : Type 0 where
    pub size : m'.block_size ≡ m.block_size
    pub count : m'.block_count ≡ m.block_count

  pub write_loop_lem :
      (left : ℕ) (m : Manager State) (p : ℕ) (source : Bytes) (len : ℕ)
      → left ≡ (len + 63) / 64
      → p + len ≤ 2 ^ 24
      → (m' : Manager State) × (write_loop bus left m p source len ≡ (Code.ok, m'))
        × IsSame m m'
        × ((x : ℕ) → cell m'.outside x ≡ masked (cell m.outside) p len source x)
  unfolding write_loop
  write_loop_lem zero m p source len rounds fits = (
    m,
    refl,
    record { size = refl; count = refl },
    λ x. let out : within p (p + len) x ≡ false = ground arith in rw out refl,
  )
  write_loop_lem (suc left) m p source len rounds fits =
      let n = min max_write_length len in
      let r = header write_cmd p n ++ slice source 0 n in
      let law = writes m.outside p n source (omega arith) in
      let m1 = exchanged bus chip m r 9 in
      let first = header_first write_cmd p n (omega arith) (omega arith) in
      let e = transact_lem bus chip m r 9 (law.0 ∙ sym first) in
      let some_answer = length-first (answer m.outside r 9) write_cmd (omega arith) law.0 in
      let (m', runs, same, cells) =
        write_loop_lem left m1 (p + n) (advance source n) (len - n) (omega arith) (omega arith) in
      let next = λ (o : List ℕ × Manager State).
        if length o.0 == 0
        then (Code.i2c_error, o.1)
        else write_loop bus left o.1 (p + n) (advance source n) (len - n) in
      let whole : n + (len - n) ≡ len = omega arith in
      let rest = λ (x : ℕ) (v : ℕ).
        if within (p + n) (p + n + (len - n)) x
        then bit_and v (advance source n (x - (p + n)))
        else v in
      (
        m',
        ap next e ∙ rw some_answer runs,
        record { size = same.size; count = same.count },
        λ x.
            cells x
            ∙ (ap (rest x) (law.1 x)
                ∙ (masked_join (cell m.outside) p n (len - n) source x
                    ∙ ap (λ l. masked (cell m.outside) p l source x) whole)),
      )

  -- `write_buffer` of what was read.
  pub write_buffer_lem :
      (m : Manager State) (f : Bytes) (a n : ℕ)
      → n % 4 ≡ 0
      → a + n ≤ 2 ^ 24
      → (m' : Manager State) × (write_buffer bus m (slice f a n) a ≡ (Code.ok, m'))
        × IsSame m m'
        × ((x : ℕ)
            → cell m'.outside x
              ≡ (if within a (a + n) x then bit_and (cell m.outside x) (f x) else cell m.outside x))
  unfolding write_buffer write
  write_buffer_lem m f a n whole fits =
      let words : length (slice f a n) / 4 * 4 ≡ n = omega (arith, length-slice f a n) in
      let (m', runs, same, cells) =
        write_loop_lem ((n + 63) / 64) m a (of_list (slice f a n)) n refl fits in
      (
        m',
        ap (λ l. write_loop bus ((l + 63) / 64) m a (of_list (slice f a n)) l) words ∙ runs,
        same,
        λ x. cells x ∙ elim (Bool-cases (within a (a + n) x)) [
          | inl e ↦
              let at : a + (x - a) ≡ x = ground arith in
              let below : x - a < n = ground arith in
              rw e (ap (bit_and (cell m.outside x)) (of_list-slice f a n (x - a) below ∙ ap f at))
          | inr e ↦ rw e refl
        ],
      )

  pub read_lem :
      (m : Manager State) (a words : ℕ)
      → 0 < words
      → a + words * 4 ≤ 2 ^ 24
      → (m' : Manager State) × (read bus m a words ≡ (slice (cell m.outside) a (words * 4), m'))
        × IsSame m m'
        × ((x : ℕ) → cell m'.outside x ≡ cell m.outside x)
  unfolding read
  read_lem m a words some_word fits =
      let n = words * 4 in
      let small : u32 (words * 4) ≡ n = omega arith in
      let law = reads m.outside a n (omega arith) in
      let r = header read_cmd a n in
      let e = transact_lem bus chip m r (n + 8) (ap (λ l. get_or l 0 0) law.0) in
      let next : List ℕ × Manager State → List ℕ × Manager State =
        λ o. (if ltb 8 (length o.0) then drop 8 o.0 else [], o.1) in
      let long =
        lt→ltb 8 (length (r ++ slice (cell m.outside) a n))
          (omega (arith, length-slice (cell m.outside) a n)) in
      let m' = exchanged bus chip m r (n + 8) in
      let strip : next (answer m.outside r (n + 8), m') ≡ (slice (cell m.outside) a n, m') =
        rw law.0 (rw long refl) in
      (
        m',
        ap (λ l. next (transact bus m (header read_cmd a l) (l + 8))) small ∙ (ap next e ∙ strip),
        record { size = refl; count = refl },
        law.1,
      )
