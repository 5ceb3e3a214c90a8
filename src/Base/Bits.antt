-- ===== src/Base/Bits.antt =====
-- Facts about `bit_and`, `bit_xor` and `bit_or` at variables, from the recursion on binary digits that the
-- native operations stand for: one equation for the lowest digit, and induction on the fuel.
use Prim.Native.Nat.{
  ℕ, zero, suc, ◌+◌, ◌*◌, ◌/◌, ◌%◌, ◌-◌, ◌^◌, ◌≤◌, ◌<◌, min, max, digits, bitwise, bit_and, bit_or,
  bit_or-bitwise, bit_xor, bit_and-bitwise, bit_xor-bitwise, differ,
}
use mathlib.Core.Path.{◌≡◌, refl, ◌∙◌, ap, ap₂}
use mathlib.Core.Logic.{◌↔◌, ◌⊎◌, inl, inr}
use native.Mathlib.Nat.{le_refl, pow-suc}
use native.Mathlib.Decide.{dec_lt}
use native.Mathlib.Omega.{arith}

module _ (unit_of : ℕ → ℕ) (digit : ℕ → ℕ → ℕ) where
  -- A round more than there are digits changes nothing.
  spare_round :
      (rounds x y : ℕ)
      → x ≤ rounds
      → digits unit_of digit (suc rounds) x y ≡ digits unit_of digit rounds x y
  spare_round zero zero y h = refl
  spare_round zero (suc x) y h = absurd (omega arith)
  spare_round (suc rounds) zero y h = refl
  spare_round (suc rounds) (suc x) y h = rw (spare_round rounds (suc x / 2) (y / 2) (omega arith))

  spare_rounds :
      (more rounds x y : ℕ)
      → x ≤ rounds
      → rounds ≤ more
      → digits unit_of digit more x y ≡ digits unit_of digit rounds x y
  spare_rounds zero rounds x y h k =
      let same : 0 ≡ rounds = omega arith in ap (λ r. digits unit_of digit r x y) same
  spare_rounds (suc more) rounds x y h k = elim (dec_lt more rounds) [
    | yes last ↦
        let same : suc more ≡ rounds = omega arith in ap (λ r. digits unit_of digit r x y) same
    | no some_left ↦
        spare_round more x y (omega arith) ∙ spare_rounds more rounds x y h (omega arith)
  ]

  lowest_digit :
      (x y : ℕ)
      → bitwise unit_of digit (suc x) y
        ≡ digit (suc x % 2) (y % 2) + 2 * bitwise unit_of digit (suc x / 2) (y / 2)
  lowest_digit x y =
      omega (arith, spare_rounds x (suc x / 2) (suc x / 2) (y / 2) (le_refl _) (omega arith))

pub bit_xor_step : (x y : ℕ) → bit_xor x y ≡ bit_xor (x / 2) (y / 2) * 2 + differ (x % 2) (y % 2)
bit_xor_step zero y = simp bit_xor-bitwise (omega arith)
bit_xor_step (suc x) y = simp bit_xor-bitwise (omega (arith, lowest_digit (λ w. w) differ x y))

pub bit_and_step : (x y : ℕ) → bit_and x y ≡ bit_and (x / 2) (y / 2) * 2 + min (x % 2) (y % 2)
bit_and_step zero y = simp bit_and-bitwise (omega arith)
bit_and_step (suc x) y = simp bit_and-bitwise (omega (arith, lowest_digit (λ w. 0) min x y))

and-zero_fuel : (n a : ℕ) → a ≤ n → bit_and a 0 ≡ 0
and-zero_fuel n zero h = refl
and-zero_fuel zero (suc a) h = absurd (omega arith)
and-zero_fuel (suc n) (suc a) h =
    omega (arith, bit_and_step (suc a) 0, and-zero_fuel n (suc a / 2) (omega arith))

pub and-zero : (a : ℕ) → bit_and a 0 ≡ 0
and-zero a = and-zero_fuel a a (le_refl a)

bit_and_self_fuel : (n a : ℕ) → a ≤ n → bit_and a a ≡ a
bit_and_self_fuel n zero h = refl
bit_and_self_fuel zero (suc a) h = absurd (omega arith)
bit_and_self_fuel (suc n) (suc a) h =
    omega (arith, bit_and_step (suc a) (suc a), bit_and_self_fuel n (suc a / 2) (omega arith))

zero-and_fuel : (n b : ℕ) → b ≤ n → bit_and 0 b ≡ 0
zero-and_fuel n zero h = refl
zero-and_fuel zero (suc b) h = absurd (omega arith)
zero-and_fuel (suc n) (suc b) h =
    omega (arith, bit_and_step 0 (suc b), zero-and_fuel n (suc b / 2) (omega arith))

bit_and-le_fuel : (n a b : ℕ) → a ≤ n → bit_and a b ≤ a
bit_and-le_fuel n zero b h = omega (arith, zero-and_fuel b b (le_refl b))
bit_and-le_fuel zero (suc a) b h = absurd (omega arith)
bit_and-le_fuel (suc n) (suc a) b h =
    omega (arith, bit_and_step (suc a) b, bit_and-le_fuel n (suc a / 2) (b / 2) (omega arith))

pub bit_and-le : (a b : ℕ) → bit_and a b ≤ a
bit_and-le a b = bit_and-le_fuel a a b (le_refl a)

pub bit_and_self : (a : ℕ) → bit_and a a ≡ a
bit_and_self a = bit_and_self_fuel a a (le_refl a)

differ_lem :
    (x y : ℕ) → x < 2 → y < 2 → ((differ x y ≡ 0) × (x ≡ y)) ⊎ ((differ x y ≡ 1) × (x + y ≡ 1))
differ_lem zero zero p q = inl (refl, refl)
differ_lem zero (suc zero) p q = inr (refl, refl)
differ_lem (suc zero) zero p q = inr (refl, refl)
differ_lem (suc zero) (suc zero) p q = inl (refl, refl)
differ_lem zero (suc (suc y)) p q = absurd (omega arith)
differ_lem (suc zero) (suc (suc y)) p q = absurd (omega arith)
differ_lem (suc (suc x)) y p q = absurd (omega arith)

xor_half :
    (a b : ℕ)
    → (bit_xor a b / 2 ≡ bit_xor (a / 2) (b / 2)) × (bit_xor a b % 2 ≡ differ (a % 2) (b % 2))
xor_half a b =
    omega (arith, bit_xor_step a b, differ_lem (a % 2) (b % 2) (omega arith) (omega arith))

-- The lowest digit and the others of `(a ^ b) & b` and of `a & b`.
clears_step :
    (a b : ℕ)
    → (bit_and (bit_xor a b) b
        ≡ bit_and (bit_xor (a / 2) (b / 2)) (b / 2) * 2 + min (differ (a % 2) (b % 2)) (b % 2))
clears_step a b =
    let h = xor_half a b in
    bit_and_step (bit_xor a b) b ∙ ap₂ (λ x y. bit_and x (b / 2) * 2 + min y (b % 2)) h.0 h.1

clears_fuel : (n a b : ℕ) → b ≤ n → (bit_and (bit_xor a b) b ≡ 0) ↔ (bit_and a b ≡ b)
clears_fuel n a zero h = (λ _. and-zero a, λ _. and-zero (bit_xor a 0))
clears_fuel zero a (suc b) h = absurd (omega arith)
clears_fuel (suc n) a (suc b) h =
    let d = differ_lem (a % 2) (suc b % 2) (omega arith) (omega arith) in
    let ih = clears_fuel n (a / 2) (suc b / 2) (omega arith) in
    (
      λ e. omega (
        arith,
        bit_and_step a (suc b),
        ih.0 (omega (arith, e, clears_step a (suc b))),
        clears_step a (suc b),
        d,
        e,
      ),
      λ e. omega (
        arith,
        clears_step a (suc b),
        ih.1 (omega (arith, e, bit_and_step a (suc b))),
        bit_and_step a (suc b),
        d,
        e,
      ),
    )

-- `(a ^ b) & b` is zero exactly when `b` only clears bits of `a`.
pub clears_iff : (a b : ℕ) → (bit_and (bit_xor a b) b ≡ 0) ↔ (bit_and a b ≡ b)
clears_iff a b = clears_fuel b a b (le_refl b)

power_pos : (k : ℕ) → 0 < 2 ^ k
power_pos zero = omega arith
power_pos (suc k) = omega (arith, power_pos k, pow-suc 2 k)

mask_half : (k : ℕ) → ((2 ^ suc k - 1) / 2 ≡ 2 ^ k - 1) × ((2 ^ suc k - 1) % 2 ≡ 1)
mask_half k = omega (arith, pow-suc 2 k, power_pos k)

complement_half :
    (k a : ℕ)
    → a < 2 ^ suc k
    → ((2 ^ suc k - 1 - a) / 2 ≡ 2 ^ k - 1 - a / 2) × ((2 ^ suc k - 1 - a) % 2 ≡ 1 - a % 2)
complement_half k a h = omega (arith, pow-suc 2 k, power_pos k)

-- A number below 2 ^ k is kept by the mask of k ones.
pub mask_lem : (k v : ℕ) → v < 2 ^ k → bit_and (2 ^ k - 1) v ≡ v
mask_lem zero v h = let none_left : v ≡ 0 = omega arith in rw none_left
mask_lem (suc k) v h =
    let half = mask_half k in
    let low : min 1 (v % 2) ≡ v % 2 = omega arith in
    bit_and_step (2 ^ suc k - 1) v
    ∙ (ap₂ (λ m d. bit_and m (v / 2) * 2 + min d (v % 2)) half.0 half.1
        ∙ omega (arith, mask_lem k (v / 2) (omega (arith, pow-suc 2 k)), low))

-- `~a & b` is zero exactly when `b` only clears bits of `a`, for numbers below 2 ^ k.
pub complement_iff :
    (k a b : ℕ) → a < 2 ^ k → b < 2 ^ k → (bit_and (2 ^ k - 1 - a) b ≡ 0) ↔ (bit_and a b ≡ b)
complement_iff zero a b p q =
    let a-zero : a ≡ 0 = omega arith in
    let b-zero : b ≡ 0 = omega arith in rw (a-zero, b-zero) (λ _. refl, λ _. refl)
complement_iff (suc k) a b p q =
    let half = complement_half k a p in
    let out =
      bit_and_step (2 ^ suc k - 1 - a) b
      ∙ ap₂ (λ m d. bit_and m (b / 2) * 2 + min d (b % 2)) half.0 half.1 in
    let ih =
      complement_iff k (a / 2) (b / 2) (omega (arith, pow-suc 2 k)) (omega (arith, pow-suc 2 k)) in
    (
      λ e. omega (arith, out, e, ih.0 (omega (arith, out, e)), bit_and_step a b),
      λ e. omega (arith, out, e, ih.1 (omega (arith, bit_and_step a b, e)), bit_and_step a b),
    )

pub or-zero : (a : ℕ) → bit_or 0 a ≡ a
or-zero a = simp bit_or-bitwise refl

bit_or_step : (x y : ℕ) → bit_or x y ≡ bit_or (x / 2) (y / 2) * 2 + max (x % 2) (y % 2)
bit_or_step zero y = simp bit_or-bitwise (omega arith)
bit_or_step (suc x) y = simp bit_or-bitwise (omega (arith, lowest_digit (λ w. w) max x y))

or-zero_right_fuel : (n a : ℕ) → a ≤ n → bit_or a 0 ≡ a
or-zero_right_fuel n zero h = or-zero 0
or-zero_right_fuel zero (suc a) h = absurd (omega arith)
or-zero_right_fuel (suc n) (suc a) h =
    omega (arith, bit_or_step (suc a) 0, or-zero_right_fuel n (suc a / 2) (omega arith))

-- Numbers with no common digit: the one is a multiple of 2 ^ k, the other below it.
pub bit_or_apart : (k a b : ℕ) → b < 2 ^ k → bit_or (a * 2 ^ k) b ≡ a * 2 ^ k + b
bit_or_apart zero a b h =
    let none_left : b ≡ 0 = omega arith in
    rw none_left (or-zero_right_fuel (a * 1) (a * 1) (le_refl _) ∙ omega arith)
bit_or_apart (suc k) a b h =
    let twice = ap (λ t. a * t) (pow-suc 2 k) in
    let half : a * 2 ^ suc k / 2 ≡ a * 2 ^ k = omega (arith, twice) in
    let low : a * 2 ^ suc k % 2 ≡ 0 = omega (arith, twice) in
    bit_or_step (a * 2 ^ suc k) b
    ∙ (ap₂ (λ m d. bit_or m (b / 2) * 2 + max d (b % 2)) half low
        ∙ omega (arith, bit_or_apart k a (b / 2) (omega (arith, pow-suc 2 k)), twice))
