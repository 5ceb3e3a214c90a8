-- ===== src/FileSystem/Data/Content.antt =====
-- The bytes of a file of source/MicroBitFileSystem.cpp: those of its blocks one after the other; the
-- walk to a place in it, and what a buffer holds when a part of it has been copied.
use native.Mathlib.Decide.{dec_lt}
use codal_microbit_v2_fft.Base.{
  ℕ, zero, suc, ◌+◌, ◌-◌, ◌*◌, ◌≤◌, ◌<◌, ◌≡◌, refl, ap, sym, ◌∙◌, arith, inl, inr, true, false,
  Bool-cases, List, [], ◌∷◌, length, Bytes, within, memcpy, advance, ltb, if◌then◌else◌,
}
use codal_microbit_v2_fft.Nvm.{Nvm}
use codal_microbit_v2_fft.Flash.Cells.{within_true, within_false}
use codal_microbit_v2_fft.Flash.Burn.{within_lem}
use codal_microbit_v2_fft.FileSystem.{Config, FileSystem, get_block}
use codal_microbit_v2_fft.FileSystem.Chains.{IsChain}
use codal_microbit_v2_fft.FileSystem.Data.{walk}

module _ (nvm : Nvm) (cfg : Config) where
  open nvm use {Mem, byte}

  -- Byte `k` of the file with first block `b` and further blocks `bs`.
  abbrev pub file_byte : FileSystem Mem → ℕ → List ℕ → ℕ → ℕ
  file_byte fs b [] k = byte fs.mem (get_block nvm cfg fs b + k)
  file_byte fs b (c ∷ cs) k =
      if ltb k cfg.block_size
      then byte fs.mem (get_block nvm cfg fs b + k)
      else file_byte fs c cs (k - cfg.block_size)

  file_byte_first :
      (fs : FileSystem Mem) (b : ℕ) (bs : List ℕ) (k : ℕ)
      → k < cfg.block_size
      → file_byte fs b bs k ≡ byte fs.mem (get_block nvm cfg fs b + k)
  file_byte_first fs b [] k h = refl
  file_byte_first fs b (c ∷ cs) k h =
      let e : ltb k cfg.block_size ≡ true = ground arith in rw e refl

  pub file_byte_later :
      (fs : FileSystem Mem) (b c : ℕ) (cs : List ℕ) (k i : ℕ)
      → k ≡ cfg.block_size + i
      → file_byte fs b (c ∷ cs) k ≡ file_byte fs c cs i
  file_byte_later fs b c cs k i e =
      let t : ltb k cfg.block_size ≡ false = ground arith in
      let at : k - cfg.block_size ≡ i = omega arith in rw (t, at) refl

  -- How many bytes a file has room for.
  abbrev pub capacity : List ℕ → ℕ
  capacity bs = cfg.block_size * (length bs + 1)

  pub capacity_cons : (b : ℕ) (bs : List ℕ) → capacity (b ∷ bs) ≡ cfg.block_size + capacity bs
  capacity_cons b bs = grind arith

  -- Where the walk ends: in the same file.
  abbrev pub At : FileSystem Mem → ℕ → List ℕ → ℕ → ℕ × ℕ → Type 0
  At fs b bs seek (c, o) =
      (cs : List ℕ) × IsChain nvm fs c cs
      × (o ≤ cfg.block_size)
      × ((k : ℕ) → file_byte fs c cs (o + k) ≡ file_byte fs b bs (seek + k))
      × (o + capacity bs ≡ seek + capacity cs)

  pub walk_lem :
      (rounds : ℕ) (fs : FileSystem Mem) (b : ℕ) (bs : List ℕ) (left : ℕ)
      → 0 < cfg.block_size
      → IsChain nvm fs b bs
      → left ≤ capacity bs
      → left ≤ rounds
      → At fs b bs left (walk nvm cfg rounds fs b left)
  unfolding walk
  walk_lem zero fs b bs left pos chain room enough = (bs, chain, omega arith, (λ k. refl), refl)
  walk_lem (suc rounds) fs b [] left pos chain room enough =
      let stop : ltb cfg.block_size left ≡ false = ground arith in
      rw stop ([], chain, omega arith, (λ k. refl), refl)
  walk_lem (suc rounds) fs b (c ∷ cs) left pos chain room enough =
      elim (Bool-cases (ltb cfg.block_size left)) [
        | inl go ↦
            let more : cfg.block_size < left = ground arith in
            let less : left - cfg.block_size ≤ capacity cs = omega (arith, capacity_cons c cs) in
            let (ds, chain', le, same, room') =
              walk_lem rounds fs c cs (left - cfg.block_size) pos chain.2 less (omega arith) in
            rw (go, chain.0)
              (
                ds,
                chain',
                le,
                (λ k. same k ∙ sym (file_byte_later fs b c cs _ _ (omega arith))),
                omega (arith, room', capacity_cons c cs),
              )
        | inr stop ↦ rw stop (c ∷ cs, chain, ground arith, (λ k. refl), refl)
      ]

  -- What the buffer holds after `left` bytes are copied to place `at`, from place `o` of the file.
  abbrev pub Copied : FileSystem Mem → ℕ → List ℕ → ℕ → ℕ → ℕ → Bytes → Bytes → Type 0
  Copied fs c cs o at left old new =
      (j : ℕ)
      → new j ≡ (if within at (at + left) j then file_byte fs c cs (o + (j - at)) else old j)

  segment_byte :
      (fs : FileSystem Mem) (c : ℕ) (cs : List ℕ) (o i : ℕ)
      → o + i < cfg.block_size
      → advance (byte fs.mem) (get_block nvm cfg fs c + o) i ≡ file_byte fs c cs (o + i)
  segment_byte fs c cs o i h =
      let at : get_block nvm cfg fs c + o + i ≡ get_block nvm cfg fs c + (o + i) = omega arith in
      ap (byte fs.mem) at ∙ sym (file_byte_first fs c cs (o + i) h)

  pub none-Copied :
      (fs : FileSystem Mem) (c : ℕ) (cs : List ℕ) (o at : ℕ) (old : Bytes)
      → Copied fs c cs o at 0 old old
  none-Copied fs c cs o at old j =
      let out : within at (at + 0) j ≡ false = ground arith in rw out refl

  -- One segment and the rest.
  pub more-Copied :
      (fs : FileSystem Mem) (c d : ℕ) (ds : List ℕ) (o at left n : ℕ) (old new : Bytes)
      → o + n ≡ cfg.block_size
      → n ≤ left
      → Copied fs d ds 0
          (at + n)
          (left - n)
          (memcpy old at (advance (byte fs.mem) (get_block nvm cfg fs c + o)) n)
          new
      → Copied fs c (d ∷ ds) o at left old new
  more-Copied fs c d ds o at left n old new full le rest j = elim (dec_lt j at) [
    | yes before ↦
        rest j
        ∙ rw
            (
              within_false (at + n) (at + n + (left - n)) j (inl (omega arith)),
              within_false at (at + n) j (inl (omega arith)),
              within_false at (at + left) j (inl (omega arith)),
            )
            refl
    | no p ↦ elim (dec_lt j (at + n)) [
      | yes first ↦
          rest j
          ∙ rw
              (
                within_false (at + n) (at + n + (left - n)) j (inl (omega arith)),
                within_true at (at + n) j (omega arith) first,
                within_true at (at + left) j (omega arith) (omega arith),
              )
              (segment_byte fs c (d ∷ ds) o (j - at) (omega arith))
      | no q ↦ elim (dec_lt j (at + left)) [
        | yes later ↦
            rest j
            ∙ rw
                (
                  within_true (at + n) (at + n + (left - n)) j (omega arith) (omega arith),
                  within_true at (at + left) j (omega arith) later,
                )
                (sym (file_byte_later fs c d ds _ _ (omega arith)))
        | no r ↦
            rest j
            ∙ rw
                (
                  within_false (at + n) (at + n + (left - n)) j (inr (omega arith)),
                  within_false at (at + n) j (inr (omega arith)),
                  within_false at (at + left) j (inr (omega arith)),
                )
                refl
      ]
    ]
  ]

  -- The last segment.
  pub last-Copied :
      (fs : FileSystem Mem) (c : ℕ) (cs : List ℕ) (o at left : ℕ) (old : Bytes)
      → o + left ≤ cfg.block_size
      → Copied fs c cs o at left old
          (memcpy old at (advance (byte fs.mem) (get_block nvm cfg fs c + o)) left)
  last-Copied fs c cs o at left old fits j = elim (Bool-cases (within at (at + left) j)) [
    | inl here ↦
        let range = within_lem at (at + left) j here in
        rw here (segment_byte fs c cs o (j - at) (omega (arith, range)))
    | inr there ↦ rw there refl
  ]
