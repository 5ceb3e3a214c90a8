-- ===== src/Flash/Cells.antt =====
-- What one cell of the memory holds after the loop of `flash_write` in source/MicroBitFlash.cpp.
use codal_microbit_v2_fft.Base.{
  ℕ, ◌+◌, ◌-◌, ◌≤◌, ◌<◌, ◌≡◌, ◌↔◌, ap, ap₂, ◌∙◌, sym, arith, true, false, Bytes, within,
  if◌then◌else◌, if-both, bit_and, ◌⊎◌,
}
use codal_microbit_v2_fft.Base.Bits.{bit_and_self, mask_lem, complement_iff}
use codal_microbit_v2_fft.Flash.{sets_bits}
use codal_microbit_v2_fft.Flash.Burn.{within_lem}

-- All cells of a sequence are bytes.
abbrev pub AreBytes : (ℕ → ℕ) → Type 0
AreBytes f = (x : ℕ) → f x < 256

-- The memory `m` with `l` bytes of `new` at `a`.
abbrev pub replaced : (ℕ → ℕ) → ℕ → ℕ → Bytes → ℕ → ℕ
replaced m a l new x = if within a (a + l) x then new (x - a) else m x

pub sets_bits_lem : (a b : ℕ) → a < 256 → b < 256 → (sets_bits a b ≡ false) ↔ (bit_and a b ≡ b)
sets_bits_lem a b p q =
    let c = complement_iff 8 a b p q in
    (λ e. c.0 (ground arith), λ e. let z = c.1 e in ground arith)

pub within_true : (lo hi x : ℕ) → lo ≤ x → x < hi → within lo hi x ≡ true
within_true lo hi x p q = ground arith

pub within_false : (lo hi x : ℕ) → (x < lo) ⊎ (hi ≤ x) → within lo hi x ≡ false
within_false lo hi x h = ground arith

-- The words written in place give the new bytes where these lie, and elsewhere what was there.
pub place_byte :
    (m : ℕ → ℕ) (source : Bytes) (page offset len start finish x : ℕ)
    → ((j : ℕ) → 0 ≤ j → j < 0 + len → bit_and (m (page + offset + j)) (source j) ≡ source j)
    → start ≤ offset
    → offset + len ≤ finish
    → (if within (page + start) (page + finish) x
        then bit_and (m x) (
            if within offset (offset + len) (x - page)
            then source (x - page - offset)
            else m (page + (x - page)))
        else m x)
      ≡ replaced m (page + offset) len source x
place_byte m source page offset len start finish x fits lo hi =
    let k : ℕ = x - page in
    let j : ℕ = x - (page + offset) in
    if-both (λ v. v ≡ replaced m (page + offset) len source x)
      (within (page + start) (page + finish) x)
      (λ t.
        let inside = within_lem (page + start) (page + finish) x t in
        if-both (λ v. bit_and (m x) v ≡ replaced m (page + offset) len source x)
          (within offset (offset + len) k)
          (λ t'.
            let here = within_lem offset (offset + len) k t' in
            let at : page + offset + j ≡ x = omega (arith, inside, here) in
            let same : k - offset ≡ j = omega arith in
            rw
              (within_true (page + offset) (page + offset + len) x (omega (arith, inside, here))
                (omega (arith, inside, here)))
              (ap₂ (λ y i. bit_and (m y) (source i)) (sym at) same
                ∙ fits j (omega arith) (omega (arith, inside, here))))
          (λ t'.
            let back : page + k ≡ x = omega (arith, inside) in
            let out : within (page + offset) (page + offset + len) x ≡ false = ground arith in
            rw out (ap (λ y. bit_and (m x) (m y)) back ∙ bit_and_self (m x))))
      (λ t.
        let out : within (page + offset) (page + offset + len) x ≡ false = ground arith in rw out)

-- The words written into an erased page, from the buffer and from a copy of the page, give the new
-- bytes where these lie, and elsewhere what the page had.
pub fresh_byte :
    (m m' : ℕ → ℕ) (source : Bytes) (page offset len scratch size x : ℕ)
    → AreBytes m
    → AreBytes source
    → offset + len ≤ size
    → m' x ≡ (if within page (page + size) x then 255 else m x)
    → ((o : ℕ) → o < size → m' (scratch + o) ≡ m (page + o))
    → (if within (page + 0) (page + size) x
        then bit_and (m' x) (
            if within offset (offset + len) (x - page)
            then source (x - page - offset)
            else m' (scratch + (x - page)))
        else m' x)
      ≡ replaced m (page + offset) len source x
fresh_byte m m' source page offset len scratch size x bm bs fits moved copied =
    let k : ℕ = x - page in
    let j : ℕ = x - (page + offset) in
    if-both (λ v. v ≡ replaced m (page + offset) len source x) (within (page + 0) (page + size) x)
      (λ t.
        let inside = within_lem (page + 0) (page + size) x t in
        let full : m' x ≡ 255 =
          moved
          ∙ rw (within_true page (page + size) x (omega (arith, inside)) (omega (arith, inside))) in
        if-both (λ v. bit_and (m' x) v ≡ replaced m (page + offset) len source x)
          (within offset (offset + len) k)
          (λ t'.
            let here = within_lem offset (offset + len) k t' in
            let same : k - offset ≡ j = omega arith in
            rw
              (within_true (page + offset) (page + offset + len) x (omega (arith, inside, here))
                (omega (arith, inside, here)))
              (ap₂ (λ y i. bit_and y (source i)) full same ∙ mask_lem 8 (source j) (bs j)))
          (λ t'.
            let back : page + k ≡ x = omega (arith, inside) in
            let out : within (page + offset) (page + offset + len) x ≡ false = ground arith in
            rw out (
              ap₂ bit_and full (copied k (omega (arith, inside)) ∙ ap m back)
              ∙ mask_lem 8 (m x) (bm x))))
      (λ t.
        let out : within (page + offset) (page + offset + len) x ≡ false = ground arith in
        let other : within page (page + size) x ≡ false = ground arith in rw out (moved ∙ rw other))
