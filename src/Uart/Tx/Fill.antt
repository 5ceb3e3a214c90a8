-- ===== src/Uart/Tx/Fill.antt =====
-- What the inner loop of `send` in source/bluetooth/MicroBitUARTService.cpp adds to the ring.
use codal_microbit_v2_fft.Base.{
  ℕ, ◌+◌, ◌-◌, ◌<◌, ◌≡◌, refl, ap, ap₂, ◌∙◌, sym, true, List, [], ◌∷◌, ◌++◌, append-nil,
  append_assoc, length, take, drop, arith, Bool-cases, inl, inr, take-zero, drop-zero, take-cons,
  drop-cons, take-nil, drop-nil,
}
use codal_microbit_v2_fft.Uart.Ring.{Ring, IsValid, has_space, put, contents, buffered_size}
use codal_microbit_v2_fft.Uart.Ring.Window.{
  contents-put, put-IsValid, buffered_size-put, has_space_lem, size-put,
}
use codal_microbit_v2_fft.Uart.Tx.{fill}

-- What the loop of `send` adds to the ring, leaves over and counts.
pub record Filled (r : Ring) (buf : List ℕ) (n : ℕ) (out : Ring × List ℕ × ℕ) : Type 0 where
  pub valid : IsValid out.0
  pub bytes : contents out.0 ≡ contents r ++ take (r.size - 1 - buffered_size r) buf
  pub left : out.1 ≡ drop (r.size - 1 - buffered_size r) buf
  pub count : out.2 ≡ n + length (take (r.size - 1 - buffered_size r) buf)
  pub same_size : out.0.size ≡ r.size

Filled-put :
    (r : Ring) (c : ℕ) (cs : List ℕ) (n : ℕ) (t : Ring) (l : List ℕ) (k : ℕ)
    → IsValid r
    → has_space r ≡ true
    → Filled (put r c) cs (n + 1) (t, l, k)
    → Filled r (c ∷ cs) n (t, l, k)
Filled-put r c cs n t l k v h f =
    let free = r.size - 1 - buffered_size r in
    let room : (put r c).size - 1 - buffered_size (put r c) ≡ free - 1 =
      rw (buffered_size-put c v h, size-put) (omega arith) in
    let some_room : 0 < free = ground (arith, has_space_lem v) in
    let first = take-cons free c cs some_room in
    record {
      valid = f.valid;
      same_size = f.same_size ∙ size-put r c;
      bytes =
          f.bytes
          ∙ (ap₂ (λ q m. q ++ take m cs) (contents-put c v h) room
              ∙ (append_assoc (contents r) (c ∷ []) (take (free - 1) cs)
                  ∙ ap (λ q. contents r ++ q) (sym first)));
      left = f.left ∙ (ap (λ m. drop m cs) room ∙ sym (drop-cons free c cs some_room));
      count = omega (arith, f.count, ap (λ m. length (take m cs)) room, ap length first);
    }

pub fill-Filled : (r : Ring) (buf : List ℕ) (n : ℕ) → IsValid r → Filled r buf n (fill r buf n)
unfolding fill
fill-Filled r [] n v = record {
  valid = v;
  same_size = refl;
  bytes = rw (take-nil ℕ, append-nil);
  left = sym (drop-nil ℕ _);
  count = omega (arith, ap length (take-nil ℕ (r.size - 1 - buffered_size r)));
}
fill-Filled r (c ∷ cs) n v = elim (Bool-cases (has_space r)) [
  | inl h ↦
      rw h (Filled-put r c cs n _ _ _ v h (fill-Filled (put r c) cs (n + 1) (put-IsValid c v)))
  | inr h ↦
      let full : r.size - 1 - buffered_size r ≡ 0 = ground (arith, has_space_lem v) in
      let nothing = take-zero (r.size - 1 - buffered_size r) (c ∷ cs) full in
      rw h record {
        valid = v;
        same_size = refl;
        bytes = rw (nothing, append-nil);
        left = sym (drop-zero _ (c ∷ cs) full);
        count = omega (arith, ap length nothing);
      }
]
