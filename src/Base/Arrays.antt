-- ===== src/Base/Arrays.antt =====
-- C arrays as functions of the index, and the memory operations on them.
use Prim.Native.Nat.{ℕ, zero, suc, ◌+◌, ◌-◌}
use mathlib.Core.Path.{◌≡◌}
use mathlib.Core.Bool.{Bool, ◌&&◌}
use mathlib.Core.Logic.{◌≢◌}
use mathlib.Core.List.{List, [], ◌∷◌}
use native.Mathlib.Omega.{arith}
use codal_microbit_v2_fft.Base.Tests.{ltb, leb, ◌==◌, if◌then◌else◌}

-- The bytes that a pointer gives access to.
abbrev pub Bytes : Type 0
Bytes = ℕ → ℕ

-- `a[i] = v`
abbrev pub update {ℓ} : {A : Type ℓ} → (ℕ → A) → ℕ → A → ℕ → A
update a i v j = if i == j then v else a j

-- `i` lies in `[lo, hi)`.
abbrev pub within : ℕ → ℕ → ℕ → Bool
within lo hi i = leb lo i && ltb i hi

-- `memcpy(dst + at, src, n)`
abbrev pub memcpy : Bytes → ℕ → Bytes → ℕ → Bytes
memcpy dst at src n j = if within at (at + n) j then src (j - at) else dst j

-- `p + n` for a pointer `p`
abbrev pub advance : Bytes → ℕ → Bytes
advance p n i = p (n + i)

-- The `n` elements from index `i` on.
abbrev pub slice {ℓ} : {A : Type ℓ} → (ℕ → A) → ℕ → ℕ → List A
slice a i zero = []
slice a i (suc n) = a i ∷ slice a (suc i) n

-- The array whose first elements are those of a list, the others 0.
abbrev pub of_list : List ℕ → Bytes
of_list [] i = 0
of_list (x ∷ xs) zero = x
of_list (x ∷ xs) (suc i) = of_list xs i

pub update_self {ℓ} : {A : Type ℓ} (a : ℕ → A) (i : ℕ) (v : A) → update a i v i ≡ v
update_self a i v = ground arith

pub update_ne {ℓ} : {A : Type ℓ} (a : ℕ → A) (i j : ℕ) (v : A) → i ≢ j → update a i v j ≡ a j
update_ne a i j v ne = ground arith
