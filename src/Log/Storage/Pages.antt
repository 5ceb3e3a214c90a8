-- ===== src/Log/Storage/Pages.antt =====
-- The pages of flash that logString of source/MicroBitLog.cpp comes to.
use native.Mathlib.Decide.{dec_le}
use native.Mathlib.Nat.{mod-lt, div-add-mod', mul_assoc, mul-mod_left, le-div_iff_mul-le}
use codal_microbit_v2_fft.Base.{ℕ, ◌+◌, ◌-◌, ◌*◌, ◌/◌, ◌%◌, ◌≤◌, ◌<◌, ◌≡◌, ap, arith, ◌∙◌, sym}

quotient_lem : (n q e : ℕ) → 0 < n → q * n ≤ e → e < (q + 1) * n → e / n ≡ q
quotient_lem n q e pos low high =
    let most = (le-div_iff_mul-le pos).1 low in
    elim (dec_le (q + 1) (e / n)) [
      | yes p ↦ let over = (le-div_iff_mul-le pos).0 p in absurd (omega arith)
      | no p ↦ omega arith
    ]

-- The end of the page of `d`.
abbrev pub page_end : ℕ → ℕ → ℕ
page_end n d = (d / n + 1) * n

-- The end of the page, as far from `d` as `logString` computes.
pub page_end_lem : (n d : ℕ) → 0 < n → (d + (n - d % n) ≡ page_end n d) × (0 < n - d % n)
page_end_lem n d pos =
    let e = div-add-mod' d n in let lt = mod-lt d pos in (omega (arith, e, lt), omega (arith, lt))

pub page_end-same : (n d e : ℕ) → 0 < n → d ≤ e → e < page_end n d → page_end n e ≡ page_end n d
page_end-same n d e pos le lt =
    let whole = div-add-mod' d n in
    let q = quotient_lem n (d / n) e pos (omega (arith, whole)) lt in ap (λ k. (k + 1) * n) q

pub page_end-next : (n d : ℕ) → 0 < n → page_end n (page_end n d) ≡ page_end n d + n
page_end-next n d pos =
    let q = quotient_lem n (d / n + 1) (page_end n d) pos (omega arith) (omega arith) in
    ap (λ k. (k + 1) * n) q ∙ omega arith

pub page_end-whole : (n b d : ℕ) → n % b ≡ 0 → 0 < b → page_end n d % b ≡ 0
page_end-whole n b d whole pos =
    let e = div-add-mod' n b in
    let blocks : n ≡ n / b * b = omega (arith, e, whole) in
    let k = d / n + 1 in
    ap (λ t. k * t % b) blocks
    ∙ (ap (λ t. t % b) (sym (mul_assoc k (n / b) b)) ∙ mul-mod_left (k * (n / b)) b)
