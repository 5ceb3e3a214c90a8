-- ===== src/Uart/Until/Lines.antt =====
-- What `readUntil` of source/bluetooth/MicroBitUARTService.cpp returns and consumes.
use mathlib.Core.Option
use native.Mathlib.Decide.{dec_lt}
use native.Mathlib.Nat.{mod-eq_of_lt, mod-eq-sub-mod}
use codal_microbit_v2_fft.Base.{
  ℕ, zero, suc, ◌+◌, ◌-◌, ◌%◌, ◌^◌, ◌≤◌, ◌<◌, ◌≡◌, refl, ap, ◌∙◌, sym, false, List, [], ◌∷◌, length,
  take, drop, ◌==◌, if◌then◌else◌, arith, Bool-cases, inl, inr, Option, none, some, Option-cases,
  Reply, value, Bytes,
}
use codal_microbit_v2_fft.Uart.Ring.{Ring, u8, IsValid, window, contents, buffered_size, next_index}
use codal_microbit_v2_fft.Uart.Ring.Window.{
  add_zero_mod, contents-advance, add-mod-ne, add-suc-mod, head_lem, buffered_size-lt,
  length-contents,
}
use codal_microbit_v2_fft.Uart.Rx.{Rx, async}
use codal_microbit_v2_fft.Uart.Until.{
  is_delimiter, find_delimiter, circular_copy, distance, take_line, read_until,
}

-- The place of the first delimiter in a sequence.
abbrev pub first_index : List ℕ → List ℕ → Option ℕ
first_index ds [] = none
first_index ds (c ∷ q) = if is_delimiter ds c then some 0 else Option.map suc (first_index ds q)

-- A line up to the first delimiter, and what follows the delimiter.
abbrev split_at : List ℕ → Option ℕ → Reply (List ℕ) × List ℕ
split_at q none = (value [], q)
split_at q (some m) = (value (take m q), drop (suc m) q)

abbrev pub split_line : List ℕ → List ℕ → Reply (List ℕ) × List ℕ
split_line ds q = split_at q (first_index ds q)

first_index-lt : (ds q : List ℕ) (m : ℕ) → first_index ds q ≡ some m → m < length q
first_index-lt ds [] m e = absurd (cc)
first_index-lt ds (c ∷ q) m e = elim (Option-cases (first_index ds q)) [
  | inl h ↦ ground arith
  | inr (k, h) ↦ ground (arith, first_index-lt ds q k h)
]

-- Counting from the next cell is counting one further.
shift_map :
    (size i : ℕ) (o : Option ℕ)
    → Option.map (λ m. (next_index size i + m) % size) o
      ≡ Option.map (λ m. (i + m) % size) (Option.map suc o)
shift_map size i none = refl
shift_map size i (some m) = ap some (sym (add-suc-mod size i m))

-- The search returns the cell of the first delimiter among the `n` bytes up to the head.
pub find_delimiter_lem :
    (ds : List ℕ) (r : Ring) (fuel n i : ℕ)
    → n ≤ fuel
    → n < r.size
    → i < r.size
    → r.head ≡ (i + n) % r.size
    → find_delimiter ds r fuel i
      ≡ Option.map (λ m. (i + m) % r.size) (first_index ds (window r.buffer r.size i n))
unfolding find_delimiter
find_delimiter_lem ds r zero zero i hf hn hi e = refl
find_delimiter_lem ds r zero (suc n) i hf hn hi e = absurd (omega arith)
find_delimiter_lem ds r (suc fuel) zero i hf hn hi e = ground (arith, mod-eq_of_lt hi)
find_delimiter_lem ds r (suc fuel) (suc n) i hf hn hi e =
    let ih =
      find_delimiter_lem ds r fuel n (next_index r.size i) (omega arith) (omega arith) (omega arith)
        (e ∙ add-suc-mod r.size i n) in
    let other : (i == r.head) ≡ false = ground (arith, add-mod-ne r.size i n hi hn) in
    elim (Bool-cases (is_delimiter ds (r.buffer i))) [
      | inl h ↦ rw (other, h) (ap some (sym (add_zero_mod r.size i hi)))
      | inr h ↦ rw (other, h) (ih ∙ shift_map r.size i _)
    ]

-- The copy of `m` bytes is the window of `m` bytes.
circular_copy-window :
    (buf : Bytes) (size fuel m i to : ℕ)
    → m ≤ fuel
    → m < size
    → i < size
    → to ≡ (i + m) % size
    → circular_copy buf size to fuel i ≡ window buf size i m
unfolding circular_copy
circular_copy-window buf size zero zero i to hf hm hi e = refl
circular_copy-window buf size zero (suc m) i to hf hm hi e = absurd (omega arith)
circular_copy-window buf size (suc fuel) zero i to hf hm hi e =
    ground (arith, add_zero_mod size i hi)
circular_copy-window buf size (suc fuel) (suc m) i to hf hm hi e =
    let other : (i == to) ≡ false = ground (arith, add-mod-ne size i m hi hm) in
    rw other (
      ap (λ q. buf i ∷ q)
        (circular_copy-window buf size fuel m (next_index size i) to (omega arith) (omega arith)
          (omega arith) (e ∙ add-suc-mod size i m)))

take-window :
    (buf : Bytes) (size m n i : ℕ) → m ≤ n → take m (window buf size i n) ≡ window buf size i m
take-window buf size zero n i h = refl
take-window buf size (suc m) zero i h = absurd (omega arith)
take-window buf size (suc m) (suc n) i h =
    ap (λ q. buf i ∷ q) (take-window buf size m n (next_index size i) (omega arith))

distance_lem :
    (size from m : ℕ) → m < size → from < size → distance size from ((from + m) % size) ≡ m
unfolding distance
distance_lem size from m hm hf = elim (dec_lt (from + m) size) [
  | yes p ↦ ground (arith, mod-eq_of_lt p)
  | no p ↦ ground (
    arith,
    mod-eq-sub-mod {n = from + m} {m = size} (omega arith),
    mod-eq_of_lt {n = from + m - size} {m = size} (omega arith),
  )
]

add_suc : (a b : ℕ) → a + b + 1 ≡ a + suc b
add_suc a b = omega arith

-- What is left of a state, and the line that was cut from it.
pub record Cut (s : Rx) (m : ℕ) (out : List ℕ × Rx) : Type 0 where
  pub line : out.0 ≡ take m (contents s.ring)
  pub rest : contents out.1.ring ≡ drop (suc m) (contents s.ring)
  pub valid : IsValid out.1.ring

pub take_line-Cut :
    (s : Rx) (m : ℕ)
    → IsValid s.ring
    → m < buffered_size s.ring
    → Cut s m (take_line s s.ring.tail ((s.ring.tail + m) % s.ring.size))
unfolding take_line
take_line-Cut s m v h =
    let r = s.ring in
    let n-lt = buffered_size-lt v in
    let cut = contents-advance r (suc m) v h in
    let tail_eq : u8 ((r.tail + distance r.size r.tail ((r.tail + m) % r.size) + 1) % r.size)
        ≡ (r.tail + suc m) % r.size =
      rw (distance_lem r.size r.tail m (omega arith) v.tail_in)
        (ap (λ k. k % r.size % 2 ^ 8) (add_suc r.tail m) ∙ omega arith) in
    record {
      line =
          (circular_copy-window r.buffer r.size r.size m r.tail _ (omega arith) (omega arith)
              v.tail_in refl
            ∙ sym (take-window r.buffer r.size m (buffered_size r) r.tail (omega arith)));
      rest = rw tail_eq cut.0;
      valid = rw tail_eq cut.1;
    }

-- What the search at the start of `readUntil` finds.
pub find_first :
    (s : Rx) (ds : List ℕ)
    → IsValid s.ring
    → find_delimiter ds s.ring s.ring.size s.ring.tail
      ≡ Option.map (λ m. (s.ring.tail + m) % s.ring.size) (first_index ds (contents s.ring))
find_first s ds v =
    let r = s.ring in
    find_delimiter_lem ds r r.size (buffered_size r) r.tail (omega (arith, buffered_size-lt v))
      (buffered_size-lt v) v.tail_in (head_lem v)

-- Where the buffer is valid: in mode ASYNC `readUntil` returns the bytes before the first delimiter and consumes them and the
-- delimiter; where no byte held is a delimiter it returns an empty string and consumes nothing.
pub read_until-split_line :
    (s : Rx) (ds : List ℕ) (writes : List (List ℕ))
    → IsValid s.ring
    → let (reply, t) = read_until s ds async writes in
      ((reply, contents t.ring) ≡ split_line ds (contents s.ring)) × IsValid t.ring
unfolding read_until
read_until-split_line s ds writes v =
    let r = s.ring in
    rw (find_first s ds v) (elim (Option-cases (first_index ds (contents r))) [
      | inl e ↦ rw e (refl, v)
      | inr (m, e) ↦
          let cut =
            take_line-Cut s m v (rw (← length-contents r) (first_index-lt ds (contents r) m e)) in
          rw e (λ i. (value (cut.line i), cut.rest i), cut.valid)
    ])
