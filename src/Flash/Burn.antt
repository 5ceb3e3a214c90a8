-- ===== src/Flash/Burn.antt =====
-- What the loop of `flash_write` in source/MicroBitFlash.cpp leaves in the memory.
use codal_microbit_v2_fft.Base.{
  ℕ, zero, suc, ◌+◌, ◌-◌, ◌*◌, ◌/◌, ◌%◌, ◌≤◌, ◌<◌, ◌≡◌, refl, ap, ap₂, ◌∙◌, arith, Bool, true,
  false, Bytes, within, ◌==◌, if◌then◌else◌, if-both, bit_and,
}
use codal_microbit_v2_fft.Base.Bits.{or-zero}
use codal_microbit_v2_fft.Nvm.{Nvm}
use codal_microbit_v2_fft.Flash.{clear_word, or_byte, byte_to_write, burn_loop}

-- Two conditionals with the same test agree where their first branches do.
pub if_then :
    (b : Bool) {x y : ℕ} (z : ℕ) → (b ≡ true → x ≡ y) → (if b then x else z) ≡ (if b then y else z)
if_then true z h = h refl
if_then false z h = refl

pub if_else : (b : Bool) {y z : ℕ} (x : ℕ) → y ≡ z → (if b then x else y) ≡ (if b then x else z)
if_else true x h = refl
if_else false x h = h

pub within_lem : (lo hi x : ℕ) → within lo hi x ≡ true → (lo ≤ x) × (x < hi)
within_lem lo hi x h = ground arith

module _ (nvm : Nvm) (source : Bytes) (page offset len from : ℕ) where
  open nvm use {Mem, byte, write, byte-write}

  to_write : Mem → ℕ → ℕ
  to_write m i = byte_to_write nvm m source offset len from i

  -- A round that is not the last of a word, and one that is.
  burn_next :
      (left i k : ℕ) (m : Mem) (word : Bytes)
      → i % 4 ≡ k
      → k < 3
      → burn_loop nvm (suc left) i m word source page offset len from
        ≡ burn_loop nvm left (i + 1) m (or_byte word k (to_write m i)) source page offset len from
  unfolding burn_loop to_write
  burn_next left i k m word e h =
      let more : ((i + 1) % 4 == 0) ≡ false = ground arith in rw (more, e)

  burn_last :
      (left i : ℕ) (m : Mem) (word : Bytes)
      → i % 4 ≡ 3
      → burn_loop nvm (suc left) i m word source page offset len from
        ≡ burn_loop nvm left
            (i + 1)
            (write m (page + 4 * (i / 4)) (or_byte word 3 (to_write m i)) 1)
            clear_word
            source
            page
            offset
            len
            from
  unfolding burn_loop to_write
  burn_last left i m word e = let whole : ((i + 1) % 4 == 0) ≡ true = ground arith in rw (whole, e)

  -- The word that four rounds gather.
  four_bytes : Mem → ℕ → Bytes
  four_bytes m i =
      or_byte
        (or_byte (or_byte (or_byte clear_word 0 (to_write m i)) 1 (to_write m (i + 1))) 2
          (to_write m (i + 2)))
        3 (to_write m (i + 3))

  burn_four :
      (left i : ℕ) (m : Mem)
      → i % 4 ≡ 0
      → burn_loop nvm (suc (suc (suc (suc left)))) i m clear_word source page offset len from
        ≡ burn_loop nvm left
            (i + 4)
            (write m (page + i) (four_bytes m i) 1)
            clear_word
            source
            page
            offset
            len
            from
  unfolding four_bytes
  burn_four left i m h =
      let w0 = or_byte clear_word 0 (to_write m i) in
      let w1 = or_byte w0 1 (to_write m (i + 1)) in
      let w2 = or_byte w1 2 (to_write m (i + 1 + 1)) in
      let at : 4 * ((i + 1 + 1 + 1) / 4) ≡ i = omega arith in
      let two : i + 1 + 1 ≡ i + 2 = omega arith in
      let three : i + 1 + 1 + 1 ≡ i + 3 = omega arith in
      let four : i + 1 + 1 + 1 + 1 ≡ i + 4 = omega arith in
      burn_next (suc (suc (suc left))) i 0 m clear_word h (omega arith)
      ∙ (burn_next (suc (suc left)) (i + 1) 1 m w0 (omega arith) (omega arith)
          ∙ (burn_next (suc left) (i + 1 + 1) 2 m w1 (omega arith) (omega arith)
              ∙ (burn_last left (i + 1 + 1 + 1) m w2 (omega arith) ∙ rw (at, four, three, two))))

  four_bytes_lem : (m : Mem) (i o : ℕ) → o < 4 → four_bytes m i o ≡ to_write m (i + o)
  unfolding four_bytes
  four_bytes_lem m i zero h = or-zero (to_write m i) ∙ ap (to_write m) (omega arith)
  four_bytes_lem m i (suc zero) h = or-zero (to_write m (i + 1))
  four_bytes_lem m i (suc (suc zero)) h = or-zero (to_write m (i + 2))
  four_bytes_lem m i (suc (suc (suc zero))) h = or-zero (to_write m (i + 3))
  four_bytes_lem m i (suc (suc (suc (suc o)))) h = absurd (omega arith)

  -- The bytes that the loop reads are not those that it has already written.
  abbrev pub ReadsAhead : ℕ → Type 0
  ReadsAhead top = (j k : ℕ) → j < top → k < top → from + j ≡ page + k → j ≡ k

  -- The memory after the words from place `i` up to `top` are written.
  abbrev pub burnt : Mem → ℕ → ℕ → ℕ → ℕ
  burnt m i top x =
      if within (page + i) (page + top) x
      then bit_and (byte m x) (byte_to_write nvm m source offset len from (x - page))
      else byte m x

  -- The memory after one word.
  one_word :
      (m : Mem) (i x : ℕ) → byte (write m (page + i) (four_bytes m i) 1) x ≡ burnt m i (i + 4) x
  unfolding to_write
  one_word m i x =
      byte-write m (page + i) (four_bytes m i) 1 x
      ∙ (ap
            (λ b.
              if within (page + i) b x
              then bit_and (byte m x) (four_bytes m i (x - (page + i)))
              else byte m x)
            (omega arith)
          ∙ if_then (within (page + i) (page + (i + 4)) x) (byte m x) (λ t.
            let inside = within_lem (page + i) (page + (i + 4)) x t in
            ap (bit_and (byte m x)) (
              four_bytes_lem m i (x - (page + i)) (omega (arith, inside))
              ∙ ap (to_write m) (omega (arith, inside)))))

  -- What is read later is not changed by the first word.
  reads_same :
      (m : Mem) (i top k : ℕ)
      → i + 4 ≤ k
      → k < top
      → ReadsAhead top
      → byte (write m (page + i) (four_bytes m i) 1) (from + k) ≡ byte m (from + k)
  reads_same m i top k h hk ahead =
      one_word m i (from + k)
      ∙ if-both (λ v. v ≡ byte m (from + k)) (within (page + i) (page + (i + 4)) (from + k))
          (λ t.
            let inside = within_lem (page + i) (page + (i + 4)) (from + k) t in
            let same =
              ahead k (from + k - page) hk (omega (arith, inside)) (omega (arith, inside)) in
            absurd (omega (arith, inside, same)))
          (λ _. refl)

  -- The first word, and then the others, are all of them.
  burnt_step :
      (m : Mem) (i top x : ℕ)
      → i + 4 ≤ top
      → ReadsAhead top
      → burnt (write m (page + i) (four_bytes m i) 1) (i + 4) top x ≡ burnt m i top x
  burnt_step m i top x h ahead =
      let m' = write m (page + i) (four_bytes m i) 1 in
      let k : ℕ = x - page in
      if-both (λ v. v ≡ burnt m i top x) (within (page + (i + 4)) (page + top) x)
        (λ t.
          let inside = within_lem (page + (i + 4)) (page + top) x t in
          let later : within (page + i) (page + top) x ≡ true = ground arith in
          let not_first : within (page + i) (page + (i + 4)) x ≡ false = ground arith in
          let kept : byte m' x ≡ byte m x = one_word m i x ∙ rw not_first in
          rw later (
            ap₂ bit_and kept (
              if_else (within offset (offset + len) k) (source (k - offset))
                (reads_same m i top k (omega (arith, inside)) (omega (arith, inside)) ahead))))
        (λ t.
          let same : within (page + i) (page + (i + 4)) x ≡ within (page + i) (page + top) x =
            ground arith in
          one_word m i x
          ∙ ap
              (λ b.
                if b
                then bit_and (byte m x) (byte_to_write nvm m source offset len from (x - page))
                else byte m x)
              same)

  pub burn_loop_lem :
      (words i top : ℕ) (m : Mem)
      → i % 4 ≡ 0
      → i + 4 * words ≡ top
      → ReadsAhead top
      → (x : ℕ)
      → byte (burn_loop nvm (4 * words) i m clear_word source page offset len from) x
        ≡ burnt m i top x
  unfolding burn_loop
  burn_loop_lem zero i top m h e ahead x = ground arith
  burn_loop_lem (suc words) i top m h e ahead x =
      let rounds : 4 * suc words ≡ suc (suc (suc (suc (4 * words)))) = omega arith in
      let m' = write m (page + i) (four_bytes m i) 1 in
      ap (λ r. byte (burn_loop nvm r i m clear_word source page offset len from) x) rounds
      ∙ (ap (λ t. byte t x) (burn_four (4 * words) i m h)
          ∙ (burn_loop_lem words (i + 4) top m' (omega arith) (omega arith) ahead x
              ∙ burnt_step m i top x (omega arith) ahead))
