-- ===== src/Uart/Ring/Window.antt =====
-- The bytes that a ring of source/bluetooth/MicroBitUARTService.cpp holds, and how putting and taking
-- one changes them.
use native.Mathlib.Nat.{mod-lt, add-zero, mod-eq_of_lt, mod-eq-sub-mod, mod-add-mod}
use native.Mathlib.Numerals.{add-one}
use native.Mathlib.Decide.{dec_lt}
use codal_microbit_v2_fft.Base.{
  ℕ, zero, suc, ◌+◌, ◌-◌, ◌%◌, ◌<◌, ◌≡◌, refl, ap, ap₂, ◌∙◌, ◌↔◌, sym, drop, ◌≤◌, ◌≢◌, true, [],
  ◌∷◌, ◌++◌, arith, Bytes, update, length, ltb, ◌==◌, if◌then◌else◌,
}
use codal_microbit_v2_fft.Uart.Ring.{
  Ring, init, next_index, has_space, put, is_readable, peek, advance_tail, buffered_size, IsValid,
  window, contents,
}

length-window : (buf : Bytes) (size i n : ℕ) → length (window buf size i n) ≡ n
length-window buf size i zero = refl
length-window buf size i (suc n) = ap suc (length-window buf size (next_index size i) n)

pub length-contents : (r : Ring) → length (contents r) ≡ buffered_size r
length-contents r = length-window r.buffer r.size r.tail (buffered_size r)

-- Fewer than `size` steps round the ring do not come back to the start.
pub add-mod-ne : (size h k : ℕ) → h < size → suc k < size → (h + suc k) % size ≢ h
add-mod-ne size h k hh hk = elim (dec_lt (h + suc k) size) [
  | yes p ↦ omega (arith, mod-eq_of_lt p)
  | no p ↦ omega (
    arith,
    mod-eq-sub-mod {n = h + suc k} {m = size} (omega arith),
    mod-eq_of_lt {n = h + suc k - size} {m = size} (omega arith),
  )
]

pub add_zero_mod : (size i : ℕ) → i < size → (i + 0) % size ≡ i
add_zero_mod size i h = rw add-zero (mod-eq_of_lt h)

-- One step and then `n` more are `suc n` steps.
pub add-suc-mod : (size h n : ℕ) → (h + suc n) % size ≡ ((h + 1) % size + n) % size
add-suc-mod size h n = rw mod-add-mod (ap (λ k. k % size) (omega arith))

-- Writing just past a window extends it by that byte.
window-update :
    (buf : Bytes) (size x n h i : ℕ)
    → h < size
    → n < size
    → i ≡ (h + n) % size
    → window (update buf i x) size h (suc n) ≡ window buf size h n ++ (x ∷ [])
window-update buf size x zero h i hh hn e = ground (arith, mod-eq_of_lt hh)
window-update buf size x (suc n) h i hh hn e = ap₂ ◌∷◌ (ground (arith, add-mod-ne size h n hh hn)) (
    window-update buf size x n (next_index size h) i (omega arith) (omega arith)
      (e ∙ add-suc-mod size h n))

-- The code tests the indices, `window` matches on the number of bytes.
window-of_pos :
    (buf : Bytes) (size i n : ℕ)
    → 0 < n
    → window buf size i n ≡ buf i ∷ window buf size (next_index size i) (n - 1)
window-of_pos buf size i zero h = absurd (omega arith)
window-of_pos buf size i (suc n) h = ap (λ k. window buf size i (suc k)) (omega arith)

next_index_lem : (size i : ℕ) → i < size → next_index size i ≡ (if i + 1 == size then 0 else i + 1)
next_index_lem size i h = grind arith

pub buffered_size-lt : {r : Ring} → IsValid r → buffered_size r < r.size
unfolding buffered_size
buffered_size-lt v = ground arith

-- There is space exactly while fewer than `size - 1` bytes are held.
pub has_space_lem : {r : Ring} → IsValid r → has_space r ≡ ltb (buffered_size r + 1) r.size
unfolding has_space buffered_size
has_space_lem {r} v = ground (arith, next_index_lem r.size r.head)

pub is_readable_lem : {r : Ring} → IsValid r → is_readable r ≡ ltb 0 (buffered_size r)
unfolding is_readable buffered_size
is_readable_lem v = ground arith

pub head_lem : {r : Ring} → IsValid r → r.head ≡ (r.tail + buffered_size r) % r.size
unfolding buffered_size
head_lem {r} v = elim (dec_lt r.head r.tail) [
  | yes p ↦ grind (arith, mod-eq-sub-mod, mod-eq_of_lt)
  | no p ↦ grind (arith, mod-eq_of_lt)
]

pub put-IsValid : {r : Ring} (c : ℕ) → IsValid r → IsValid (put r c)
unfolding put
put-IsValid c v = ground arith

pub advance_tail-IsValid : {r : Ring} → IsValid r → IsValid (advance_tail r)
unfolding advance_tail
advance_tail-IsValid v = ground arith

pub buffered_size-put :
    {r : Ring} (c : ℕ)
    → IsValid r
    → has_space r ≡ true
    → buffered_size (put r c) ≡ buffered_size r + 1
unfolding has_space buffered_size put
buffered_size-put {r} c v h = ground (arith, next_index_lem r.size r.head)

pub buffered_size-advance_tail :
    {r : Ring}
    → IsValid r
    → is_readable r ≡ true
    → buffered_size (advance_tail r) ≡ buffered_size r - 1
unfolding is_readable buffered_size advance_tail
buffered_size-advance_tail {r} v h = ground (arith, next_index_lem r.size r.tail)

-- A byte put into a ring with space goes behind those that it holds.
pub contents-put :
    {r : Ring} (c : ℕ)
    → IsValid r
    → has_space r ≡ true
    → contents (put r c) ≡ contents r ++ (c ∷ [])
unfolding put
contents-put {r} c v h =
    rw (buffered_size-put c v h, add-one)
      (window-update r.buffer r.size c (buffered_size r) r.tail r.head v.tail_in
        (buffered_size-lt v) (head_lem v))

-- The byte at the tail is the oldest, and moving the tail takes it away.
pub contents-advance_tail :
    {r : Ring} → IsValid r → is_readable r ≡ true → contents r ≡ peek r ∷ contents (advance_tail r)
unfolding peek advance_tail
contents-advance_tail {r} v h = rw (buffered_size-advance_tail v h) (
    window-of_pos r.buffer r.size r.tail (buffered_size r) (ground (arith, is_readable_lem v))
    ∙ ap (λ k. r.buffer r.tail ∷ window r.buffer r.size k (buffered_size r - 1)) (omega arith))

pub size-put : (r : Ring) (c : ℕ) → (put r c).size ≡ r.size
unfolding put
size-put r c = refl

pub tail-put : (r : Ring) (c : ℕ) → (put r c).tail ≡ r.tail
unfolding put
tail-put r c = refl

pub size-advance_tail : (r : Ring) → (advance_tail r).size ≡ r.size
unfolding advance_tail
size-advance_tail r = refl

-- The indices determine how many bytes are held.
pub buffered_size_unique :
    (r : Ring) (n : ℕ)
    → n < r.size
    → r.tail < r.size
    → r.head ≡ (r.tail + n) % r.size
    → buffered_size r ≡ n
unfolding buffered_size
buffered_size_unique r n hn ht e = elim (dec_lt (r.tail + n) r.size) [
  | yes p ↦ ground (arith, mod-eq_of_lt p)
  | no p ↦ ground (
    arith,
    mod-eq-sub-mod {n = r.tail + n} {m = r.size} (omega arith),
    mod-eq_of_lt {n = r.tail + n - r.size} {m = r.size} (omega arith),
  )
]

pub drop-window :
    (buf : Bytes) (size m n i : ℕ)
    → m ≤ n
    → i < size
    → drop m (window buf size i n) ≡ window buf size ((i + m) % size) (n - m)
drop-window buf size zero n i h hi =
    rw (add_zero_mod size i hi) (ap (window buf size i) (omega arith))
drop-window buf size (suc m) zero i h hi = absurd (omega arith)
drop-window buf size (suc m) (suc n) i h hi =
    drop-window buf size m n (next_index size i) (omega arith) (omega arith)
    ∙ ap₂ (window buf size) (sym (add-suc-mod size i m)) (omega arith)

-- Moving the tail on by `m` cells takes the oldest `m` bytes away.
pub contents-advance :
    (r : Ring) (m : ℕ)
    → IsValid r
    → m ≤ buffered_size r
    → (contents (record r { tail = (r.tail + m) % r.size }) ≡ drop m (contents r))
      × IsValid (record r { tail = (r.tail + m) % r.size })
contents-advance r m v h =
    let n = buffered_size r in
    let n-lt = buffered_size-lt v in
    let r' : Ring = record r { tail = (r.tail + m) % r.size } in
    let valid : IsValid r' = record {
      fits_u8 = v.fits_u8;
      head_in = v.head_in;
      tail_in = mod-lt _ (omega arith);
    } in
    let left : r.head ≡ ((r.tail + m) % r.size + (n - m)) % r.size =
      head_lem v
      ∙ (ap (λ k. k % r.size) (omega arith) ∙ sym (mod-add-mod (r.tail + m) r.size (n - m))) in
    (
      ap (window r.buffer r.size r'.tail)
            (buffered_size_unique r' (n - m) (omega arith) valid.tail_in left)
          ∙ sym (drop-window r.buffer r.size m n r.tail h v.tail_in),
      valid,
    )

-- The ring is empty exactly when its two indices meet.
pub contents-empty : (r : Ring) → IsValid r → (r.tail ≡ r.head) ↔ (contents r ≡ [])
contents-empty r v = (
  λ e. ap (window r.buffer r.size r.tail) (
      buffered_size_unique r 0 (omega arith) v.tail_in
        (sym e ∙ sym (add_zero_mod r.size r.tail v.tail_in))),
  λ e.
      let none_held : buffered_size r ≡ 0 = sym (length-contents r) ∙ ap length e in
      sym (
        head_lem v
        ∙ (ap (λ k. (r.tail + k) % r.size) none_held ∙ add_zero_mod r.size r.tail v.tail_in)),
)

-- A capacity below 255 is given as asked: the new ring is sound and empty, and has room for exactly
-- that many bytes.
pub init-IsValid :
    (n : ℕ) → n < 255 → IsValid (init n) × (contents (init n) ≡ []) × ((init n).size - 1 ≡ n)
unfolding init
init-IsValid n h =
    let v : IsValid (init n) = record {
      fits_u8 = omega arith;
      head_in = omega arith;
      tail_in = omega arith;
    } in
    (v, (contents-empty (init n) v).0 refl, omega arith)
