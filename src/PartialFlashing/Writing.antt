-- ===== src/PartialFlashing/Writing.antt =====
-- What one FLASH_DATA event of source/bluetooth/MicroBitPartialFlashingService.cpp does to the flash.
use native.Mathlib.Decide.{dec_lt}
use codal_microbit_v2_fft.Base.{
  ℕ, zero, suc, ◌+◌, ◌-◌, ◌*◌, ◌/◌, ◌%◌, ◌≤◌, ◌<◌, ◌≡◌, ◌≢◌, ◌⊎◌, refl, ap, sym, ◌∙◌, inl, inr,
  arith, true, false, Bytes, Bool-cases, within, ◌==◌, ◌!=◌, if◌then◌else◌, if-both,
}
use codal_microbit_v2_fft.Base.Bits.{mask_lem}
use codal_microbit_v2_fft.Nvm.{Nvm}
use codal_microbit_v2_fft.Flash.Cells.{AreBytes, replaced, within_true, within_false}
use codal_microbit_v2_fft.Flash.Sound.{write-AreBytes, erase-AreBytes}
use codal_microbit_v2_fft.MemoryMap.{word}
use codal_microbit_v2_fft.PartialFlashing.{Service}
use codal_microbit_v2_fft.PartialFlashing.Events.{
  KeyStore, is_used, cleared, clear_pages, pages_between, begin_program, write_block,
}

place : (i : ℕ) → i < 4 → (i ≡ 0) ⊎ ((i ≡ 1) ⊎ ((i ≡ 2) ⊎ (i ≡ 3)))
place zero h = inl refl
place (suc zero) h = inr (inl refl)
place (suc (suc zero)) h = inr (inr (inl refl))
place (suc (suc (suc zero))) h = inr (inr (inr refl))
place (suc (suc (suc (suc i)))) h = absurd (omega arith)

all_ones : (m : Bytes) (a i : ℕ) → AreBytes m → word m a ≡ 0xFFFFFFFF → i < 4 → m (a + i) ≡ 255
all_ones m a i bm e h =
    let b0 = bm a in
    let b1 = bm (a + 1) in
    let b2 = bm (a + 2) in
    let b3 = bm (a + 2 + 1) in
    let at : (k : ℕ) → i ≡ k → m (a + k) ≡ 255 → m (a + i) ≡ 255 =
      λ k same full. ap (λ t. m (a + t)) same ∙ full in
    let start : m (a + 0) ≡ m a = ap m (omega arith) in
    let last : m (a + 3) ≡ m (a + 2 + 1) = ap m (omega arith) in
    elim (place i h) [
      | inl z ↦ at 0 z (omega (arith, e, b0, b1, b2, b3, start))
      | inr (inl z) ↦ at 1 z (omega (arith, e, b0, b1, b2, b3))
      | inr (inr (inl z)) ↦ at 2 z (omega (arith, e, b0, b1, b2, b3))
      | inr (inr (inr z)) ↦ at 3 z (omega (arith, e, b0, b1, b2, b3, last))
    ]

module _ (nvm : Nvm) where
  open nvm use {Mem, byte, write, erase, page_size, byte-write, byte-erase}

  is_used_lem :
      (m : Mem) (words a x : ℕ)
      → AreBytes (byte m)
      → is_used nvm m words a ≡ false
      → a ≤ x
      → x < a + 4 * words
      → byte m x ≡ 255
  unfolding is_used
  is_used_lem m zero a x bm e lo hi = absurd (omega arith)
  is_used_lem m (suc words) a x bm e lo hi =
      let here : word (byte m) a ≡ 0xFFFFFFFF = ground arith in
      let rest : is_used nvm m words (a + 4) ≡ false = ground arith in
      elim (dec_lt x (a + 4)) [
        | yes p ↦
            let at : a + (x - a) ≡ x = omega arith in
            ap (byte m) (sym at) ∙ all_ones (byte m) a (x - a) bm here (omega arith)
        | no q ↦ is_used_lem m words (a + 4) x bm rest (omega arith) (omega arith)
      ]

  -- Behind the test a page is blank, and all else as it was.
  cleared_lem :
      (m : Mem) (words a x : ℕ)
      → AreBytes (byte m)
      → page_size ≡ 4 * words
      → byte (cleared nvm m words a) x ≡ (if within a (a + page_size) x then 255 else byte m x)
  cleared_lem m words a x bm size = elim (Bool-cases (is_used nvm m words a)) [
    | inl e ↦ rw e (byte-erase m a x)
    | inr e ↦ rw e (
        if-both (λ v. byte m x ≡ v) (within a (a + page_size) x)
          (λ t. is_used_lem m words a x bm e (ground arith) (ground (arith, size))) (λ t. refl))
  ]

  pub cleared-AreBytes :
      (m : Mem) (words a : ℕ) → AreBytes (byte m) → AreBytes (byte (cleared nvm m words a))
  cleared-AreBytes m words a bm =
      if-both (λ n. AreBytes (byte n)) (is_used nvm m words a) (λ _. erase-AreBytes nvm m a bm)
        (λ _. bm)

  cleared_outside :
      (m : Mem) (words a x : ℕ)
      → within a (a + page_size) x ≡ false
      → byte (cleared nvm m words a) x ≡ byte m x
  cleared_outside m words a x out =
      if-both (λ n. byte n x ≡ byte m x) (is_used nvm m words a)
        (λ _. byte-erase m a x ∙ rw out refl) (λ _. refl)

  clear_pages-AreBytes :
      (left : ℕ) (m : Mem) (a : ℕ) → AreBytes (byte m) → AreBytes (byte (clear_pages nvm left m a))
  unfolding clear_pages
  clear_pages-AreBytes zero m a bm = bm
  clear_pages-AreBytes (suc left) m a bm =
      clear_pages-AreBytes left _ (a + page_size) (cleared-AreBytes m 1024 a bm)

  -- The pages cleared are `left` from `a` on.
  clear_pages_outside :
      (left : ℕ) (m : Mem) (a x : ℕ)
      → (x < a) ⊎ (a + left * page_size ≤ x)
      → byte (clear_pages nvm left m a) x ≡ byte m x
  unfolding clear_pages
  clear_pages_outside zero m a x out = refl
  clear_pages_outside (suc left) m a x out =
      clear_pages_outside left _ (a + page_size) x
        (elim out [ inl p ↦ inl (omega arith) | inr q ↦ inr (omega arith) ])
      ∙ cleared_outside m 1024 a x (elim out [
        | inl p ↦ ground arith
        | inr q ↦ within_false a (a + page_size) x (inr (omega arith))
      ])

  -- A block written where the cells are blank.
  pub write_blank :
      (m : Mem) (a : ℕ) (d : Bytes) (x : ℕ)
      → AreBytes d
      → ((y : ℕ) → a ≤ y → y < a + 64 → byte m y ≡ 255)
      → byte (write m a d 16) x ≡ replaced (byte m) a 64 d x
  write_blank m a d x bd blank = byte-write m a d 16 x ∙ elim (Bool-cases (within a (a + 64) x)) [
    | inl e ↦
        let full = blank x (ground arith) (ground arith) in
        rw (e, full) (mask_lem 8 (d (x - a)) (bd (x - a)))
    | inr e ↦ rw e refl
  ]

  module _ (store : KeyStore) where
    open store use {Keys, has, put, has-put}

    -- A cell that lies in no page of the file system of MicroPython.
    abbrev pub IsOutside : Service Mem Keys → ℕ → Type 0
    IsOutside s x =
        (s.fs_end ≡ 0)
        ⊎ ((x < s.fs_start) ⊎ (s.fs_start + pages_between nvm s.fs_start s.fs_end * page_size ≤ x))

    pub begin_program_lem :
        (s : Service Mem Keys)
        → AreBytes (byte s.mem)
        → let t = begin_program nvm store s in
          (has t.keys ≡ true)
          × AreBytes (byte t.mem)
          × ((x : ℕ) → (has s.keys ≡ true) ⊎ IsOutside s x → byte t.mem x ≡ byte s.mem x)
    unfolding begin_program
    begin_program_lem s bm = elim (Bool-cases (has s.keys)) [
      | inl e ↦ rw e (e, bm, λ x out. refl)
      | inr e ↦ elim (Bool-cases (s.fs_end != 0)) [
        | inl e' ↦
            simp (e, e')
              (
                has-put s.keys,
                clear_pages-AreBytes _ s.mem s.fs_start bm,
                λ x out. elim out [
                  | inl z ↦ cc
                  | inr (inl z) ↦
                      let none : (s.fs_end != 0) ≡ false = ground arith in
                      let clash : false ≡ true = sym none ∙ e' in cc
                  | inr (inr far) ↦ clear_pages_outside _ s.mem s.fs_start x far
                ],
              )
        | inr e' ↦ simp (e, e') (has-put s.keys, bm, λ x out. refl)
      ]
    ]

    -- What the event leaves in the flash and the storage.
    pub record IsWritten (s t : Service Mem Keys) : Type 0 where
      pub begun : has t.keys ≡ true
      pub bytes : AreBytes (byte t.mem)
      pub stored :
          (x : ℕ) → within s.offset (s.offset + 64) x ≡ true → byte t.mem x ≡ s.block (x - s.offset)
      -- The rest of a page at whose start the block is.
      pub blank :
          s.offset % page_size ≡ 0
          → (x : ℕ) → s.offset + 64 ≤ x
          → x < s.offset + page_size
          → byte t.mem x ≡ 255
      pub kept :
          (x : ℕ)
          → (has s.keys ≡ true) ⊎ IsOutside s x
          → within s.offset (s.offset + 64) x ≡ false
          → (s.offset % page_size ≢ 0) ⊎ ((x < s.offset) ⊎ (s.offset + page_size ≤ x))
          → byte t.mem x ≡ byte s.mem x

    -- Where memory and block are bytes, a page is words, at least 16, and the block stands at the
    -- start of a page, or the cells for it are blank and the storage has the key.
    pub write_block-IsWritten :
        (s : Service Mem Keys) (words : ℕ)
        → AreBytes (byte s.mem)
        → AreBytes s.block
        → page_size ≡ 4 * words
        → 16 ≤ words
        → (s.offset % page_size ≡ 0)
          ⊎ ((s.offset % page_size ≢ 0)
              × (has s.keys ≡ true)
              × ((x : ℕ) → s.offset ≤ x → x < s.offset + 64 → byte s.mem x ≡ 255))
        → IsWritten s (write_block nvm store s)
    unfolding write_block begin_program
    write_block-IsWritten s words bm bd size enough (inl aligned) =
        let begun = begin_program_lem s bm in
        let m = (begin_program nvm store s).mem in
        let e : (s.offset % page_size == 0) ≡ true = ground arith in
        let same : page_size / 4 ≡ words = omega arith in
        let page = λ (x : ℕ). cleared_lem m words s.offset x begun.1 size in
        let cell = λ (x : ℕ).
          write_blank (cleared nvm m words s.offset) s.offset s.block x bd (λ y lo hi.
            page y ∙ rw (within_true s.offset (s.offset + page_size) y lo (omega arith)) refl) in
        rw (e, same)
          (record {
            begun = begun.0;
            bytes =
                write-AreBytes nvm _ s.offset s.block 16
                  (cleared-AreBytes m words s.offset begun.1);
            stored = λ x inside. cell x ∙ rw inside refl;
            blank = λ _ x lo hi.
                cell x
                ∙ rw (within_false s.offset (s.offset + 64) x (inr lo)) (
                    page x
                    ∙ rw (within_true s.offset (s.offset + page_size) x (omega arith) hi) refl);
            kept = λ x out outside away.
                let elsewhere : within s.offset (s.offset + page_size) x ≡ false =
                  within_false s.offset (s.offset + page_size) x
                    (elim away [ inl p ↦ absurd (p aligned) | inr far ↦ far ]) in
                cell x ∙ rw outside (page x ∙ rw elsewhere (begun.2 x out));
          })
    write_block-IsWritten s words bm bd size enough (inr (inside, known, ready)) =
        let begun = begin_program_lem s bm in
        let m = (begin_program nvm store s).mem in
        let e : (s.offset % page_size == 0) ≡ false = ground arith in
        let cell = λ (x : ℕ).
          write_blank m s.offset s.block x bd (λ y lo hi. begun.2 y (inl known) ∙ ready y lo hi) in
        rw e (record {
          begun = begun.0;
          bytes = write-AreBytes nvm _ s.offset s.block 16 begun.1;
          stored = λ x in_block. cell x ∙ rw in_block refl;
          blank = λ aligned. absurd (inside aligned);
          kept = λ x out outside _. cell x ∙ rw outside (begun.2 x out);
        })
