-- ===== src/Log/Storage/Numbers.antt =====
-- That the text of `writeNum` in source/MicroBitLog.cpp is the number in base 16.
use native.Mathlib.Nat.{pow-suc, mul-le-mul_left, mul-add-mod_self_right, mod-eq_of_lt}
use codal_microbit_v2_fft.Base.{
  ℕ, zero, suc, ◌+◌, ◌-◌, ◌*◌, ◌/◌, ◌%◌, ◌^◌, ◌≤◌, ◌<◌, ◌≡◌, ap, ◌∙◌, arith, Option, none, some,
  List, [], ◌∷◌, leb, ◌&&◌, if◌then◌else◌,
}
use codal_microbit_v2_fft.FsCache.Access.Blocks.{block_lem}
use codal_microbit_v2_fft.Log.Storage.{hex_digit, write_digits, write_num}

-- The digit that a character stands for: 0 to 9 and A to F.
abbrev pub digit_of : ℕ → Option ℕ
digit_of c =
    if leb 48 c && leb c 57
    then some (c - 48)
    else if leb 65 c && leb c 70
    then some (c - 55)
    else none

-- The number that characters stand for in base 16 after the digits of `acc`.
abbrev pub read_hex : ℕ → List ℕ → Option ℕ
read_hex acc [] = some acc
read_hex acc (c ∷ cs) = elim (digit_of c) [ none ↦ none | some d ↦ read_hex (acc * 16 + d) cs ]

digit_of-hex_digit : (d : ℕ) → d < 16 → digit_of (hex_digit d) ≡ some d
digit_of-hex_digit d h = ground arith

read_digit :
    (acc d : ℕ) (cs : List ℕ)
    → d < 16
    → read_hex acc (hex_digit d ∷ cs) ≡ read_hex (acc * 16 + d) cs
read_digit acc d cs h =
    ap (λ o. elim o as (λ _. Option ℕ) [ none ↦ none | some e ↦ read_hex (acc * 16 + e) cs ])
      (digit_of-hex_digit d h)

power-pos : (k : ℕ) → 0 < 2 ^ k
power-pos zero = omega arith
power-pos (suc k) = rw (pow-suc 2 k) (let p = power-pos k in omega (arith, p))

next_power : (left : ℕ) → 2 ^ (4 * suc left) ≡ 16 * 2 ^ (4 * left)
next_power left =
    let m = 4 * left in
    let e : 4 * suc left ≡ suc (suc (suc (suc m))) = omega arith in
    ap (λ (k : ℕ). 2 ^ k) e
    ∙ rw (pow-suc 2 (suc (suc (suc m))), pow-suc 2 (suc (suc m)), pow-suc 2 (suc m), pow-suc 2 m)
        (omega arith)

-- A power of 16, its next, and a digit before the digits that it has.
digit_lem :
    (n p q acc : ℕ) → q ≡ 16 * p → 0 < p → (acc * 16 + n / p % 16) * p + n % p ≡ acc * q + n % q
digit_lem n p q acc e pos =
    let b = block_lem p pos n in
    let d = n / p % 16 in
    let k = n / p / 16 in
    let small : d ≤ 15 = omega arith in
    let le : p * d ≤ p * 15 = mul-le-mul_left p small in
    let quotient : n / p ≡ 16 * k + d = omega arith in
    let split : n / p * p ≡ k * q + d * p = ap (λ (t : ℕ). t * p) quotient ∙ rw e (grind arith) in
    let below : d * p + n % p < q =
      let swap : d * p ≡ p * d = grind arith in omega (arith, b, le, e, swap) in
    let at : n ≡ k * q + (d * p + n % p) = omega (arith, split, b) in
    let rest : n % q ≡ d * p + n % p =
      ap (λ (t : ℕ). t % q) at ∙ (mul-add-mod_self_right k q _ ∙ mod-eq_of_lt below) in
    rw rest (let big : acc * q ≡ 16 * (acc * p) = rw e (grind arith) in grind arith)

read_digits :
    (left n acc : ℕ)
    → read_hex acc (write_digits left n) ≡ some (acc * 2 ^ (4 * left) + n % 2 ^ (4 * left))
unfolding write_digits
read_digits zero n acc = ap some (omega arith)
read_digits (suc left) n acc =
    read_digit acc (n / 2 ^ (4 * left) % 16) (write_digits left n) (omega arith)
    ∙ (read_digits left n _
        ∙ ap some (
            digit_lem n (2 ^ (4 * left)) (2 ^ (4 * suc left)) acc (next_power left)
              (power-pos (4 * left))))

-- A number of 32 bits is written as characters that stand for it in base 16.
pub read_hex-write_num : (n : ℕ) → n < 2 ^ 32 → read_hex 0 (write_num n) ≡ some n
unfolding write_num
read_hex-write_num n h = read_digits 8 n 0 ∙ ap some (omega arith)
