-- ===== src/UsbFlash/Erasing/Blocks.antt =====
-- The blocks that erase of source/MicroBitUSBFlashManager.cpp goes over, in numbers.
use native.Mathlib.Nat.{
  div-add-mod', mod-lt, mod_self, mod-eq_of_lt, mul-le-mul_right, mul-mod_left,
}
use native.Mathlib.Decide.{ℕ_discrete, dec_lt}
use codal_microbit_v2_fft.Base.{
  ℕ, suc, ◌+◌, ◌-◌, ◌*◌, ◌/◌, ◌%◌, ◌^◌, ◌≤◌, ◌<◌, ◌≡◌, refl, ap, ◌∙◌, arith, Bool, true, false,
  ◌&&◌, ◌||◌, ltb, ◌!=◌, ◌==◌,
}
use codal_microbit_v2_fft.FileSystem.{u32, sub32}
use codal_microbit_v2_fft.UsbFlash.Memory.{last_block, bytes_after}

-- Blocks `q` up to, and not with, `c` hold the bytes from `address` to `finish`.
pub record IsCover (size count address finish q c : ℕ) : Type 0 where
  pub start : address / size * size ≡ q * size
  pub below : q * size ≤ address
  pub some_block : q < c
  pub in_storage : c ≤ count
  pub last : last_block size finish + size ≡ c * size
  pub after : finish + bytes_after size finish ≡ c * size

-- A product is smaller only where a factor is.
factor_lt : (a b size : ℕ) → a * size < b * size → a < b
factor_lt a b size h = elim (dec_lt a b) [
  | yes p ↦ p
  | no q ↦
      let le : b * size ≤ a * size = mul-le-mul_right size (omega (arith, q)) in
      absurd (omega arith)
]

factor_le : (a b size : ℕ) → 0 < size → a * size ≤ b * size → a ≤ b
factor_le a b size pos h = elim (dec_lt b a) [
  | yes p ↦
      let le : suc b * size ≤ a * size = mul-le-mul_right size (omega (arith, p)) in
      absurd (omega arith)
  | no q ↦ omega (arith, q)
]

pub cover :
    (size count address finish : ℕ)
    → 0 < size
    → address < finish
    → finish ≤ size * count
    → finish ≤ 2 ^ 24
    → (c : ℕ) × IsCover size count address finish (address / size) c
cover size count address finish pos lt fits small =
    let q = address / size in
    let ql = finish / size in
    let r = finish % size in
    let at = div-add-mod' address size in
    let e = div-add-mod' finish size in
    let r_lt = mod-lt finish pos in
    elim (ℕ_discrete r 0) [
      | yes z ↦
          let test : (r == 0) ≡ true = ground arith in
          let whole : size - r ≡ size = omega arith in
          let q_lt : q < ql = factor_lt q ql size (omega arith) in
          let size_le : size ≤ ql * size =
            omega (arith, mul-le-mul_right {m = 1} {n = ql} size (omega arith)) in
          (
            ql,
            record {
              start = refl;
              below = omega arith;
              some_block = q_lt;
              in_storage = factor_le ql count size pos (omega arith);
              last = rw test (omega arith);
              after =
                  ap (λ t. finish + t % size) whole
                  ∙ (ap (λ t. finish + t) (mod_self size) ∙ omega arith);
            },
          )
      | no nz ↦
          let below_count : ql + 1 ≤ count =
            let lt = factor_lt ql count size (omega arith) in omega arith in
          let test : (r == 0) ≡ false = ground arith in
          (
            ql + 1,
            record {
              start = refl;
              below = omega arith;
              some_block = factor_lt q (ql + 1) size (omega arith);
              in_storage = below_count;
              last = rw test (omega arith);
              after = ap (λ t. finish + t) (mod-eq_of_lt (omega arith)) ∙ omega arith;
            },
          )
    ]

pub wanted_true : (p : Bool) (n : ℕ) → (p && ltb 0 n) ≡ true → 0 < n
wanted_true p n e = ground arith

pub wanted_false : (p : Bool) (n : ℕ) → (p ≡ false → n ≡ 0) → (p && ltb 0 n) ≡ false → n ≡ 0
wanted_false true n nothing e = ground arith
wanted_false false n nothing e = nothing refl

-- Where whole blocks are erased there is nothing to save.
pub partial_false :
    (first address len last size after : ℕ)
    → (first != address || len != u32 (sub32 last first + size)) ≡ false
    → first ≤ last
    → last + size ≤ 2 ^ 24
    → address + len + after ≡ last + size
    → (address - first ≡ 0) × (after ≡ 0)
partial_false first address len last size after e le fits sum =
    let start : first ≡ address = ground arith in
    let whole : len ≡ u32 (sub32 last first + size) = ground arith in
    let exact : u32 (sub32 last first + size) ≡ last - first + size = omega arith in
    (omega arith, omega arith)

multiple_of_four : (k size : ℕ) → size % 4 ≡ 0 → k * size % 4 ≡ 0
multiple_of_four k size whole =
    let e : size ≡ 4 * (size / 4) = omega arith in omega (arith, ap (λ t. k * t) e)

-- What is saved, and how many blocks are erased.
pub record IsCut (size address len first last n : ℕ) : Type 0 where
  pub before : first ≤ address
  pub before_words : (address - first) % 4 ≡ 0
  pub after_words : bytes_after size (address + len) % 4 ≡ 0
  pub sum : address + len + bytes_after size (address + len) ≡ last + size
  pub first_last : first ≤ last
  pub aligned : first % size ≡ 0
  pub blocks : first + n * size ≡ last + size

pub cut :
    (size count address len c : ℕ)
    → size % 4 ≡ 0
    → address % 4 ≡ 0
    → len % 4 ≡ 0
    → 0 < size
    → IsCover size count address (address + len) (address / size) c
    → IsCut size address len
        (address / size * size)
        (last_block size (address + len))
        (c - address / size)
cut size count address len c whole aligned words pos v =
    let q = address / size in
    let n = c - q in
    let parts : c ≡ q + n = omega (arith, v.some_block) in
    let product = ap (λ t. t * size) parts in
    let first_words = multiple_of_four q size whole in
    let last_words = multiple_of_four c size whole in
    let below = v.below in
    let last = v.last in
    let after = v.after in
    let one : size ≤ n * size =
      omega (arith, mul-le-mul_right {m = 1} {n = n} size (omega (arith, v.some_block))) in
    record {
      before = v.below;
      before_words = omega arith;
      after_words = omega arith;
      sum = omega arith;
      first_last = omega arith;
      aligned = mul-mod_left q size;
      blocks = omega arith;
    }
