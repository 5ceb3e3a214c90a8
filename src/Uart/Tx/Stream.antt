-- ===== src/Uart/Tx/Stream.antt =====
-- What the sending side of source/bluetooth/MicroBitUARTService.cpp passes on: the bytes accepted by
-- `send` are indicated once each, in order.
use mathlib.Core.List.{flatten}
use codal_microbit_v2_fft.Base.{
  ℕ, zero, suc, ◌+◌, ◌%◌, ◌≤◌, ◌<◌, ◌≡◌, refl, ap, ap₂, ◌∙◌, sym, true, false, List, [], ◌∷◌, ◌++◌,
  append-nil, append_assoc, length, take, drop, take-append-drop, arith, Bool-cases, inl, inr, ◌==◌,
  ◌!=◌, drop-length-take, Bytes, update, slice, length-take,
}
use codal_microbit_v2_fft.Uart.Ring.{Ring, IsValid, window, contents, buffered_size, next_index}
use codal_microbit_v2_fft.Uart.Ring.Window.{
  length-contents, head_lem, add_zero_mod, add-mod-ne, add-suc-mod, buffered_size-lt,
}
use codal_microbit_v2_fft.Uart.Tx.{Tx, attr_size, is_linked, copy_value, send_next}

-- The bytes held that were not indicated yet.
abbrev pub unsent : Tx → List ℕ
unsent s = drop s.value_size (contents s.ring)

-- All that was indicated, and what is still to be.
abbrev pub stream : Tx → List ℕ
stream s = flatten s.indicated ++ unsent s

pub record IsSound (s : Tx) : Type 0 where
  pub ring_valid : IsValid s.ring
  pub in_flight : s.value_size ≤ buffered_size s.ring

slice-snoc : (a : Bytes) (i n : ℕ) → slice a i (suc n) ≡ slice a i n ++ (a (i + n) ∷ [])
slice-snoc a i zero = ap (λ k. a k ∷ []) (omega arith)
slice-snoc a i (suc n) =
    ap (λ q. a i ∷ q)
      (slice-snoc a (suc i) n ∙ ap (λ k. slice a (suc i) n ++ (a k ∷ [])) (omega arith))

slice-update : (a : Bytes) (i n j v : ℕ) → i + n ≤ j → slice (update a j v) i n ≡ slice a i n
slice-update a i zero j v h = refl
slice-update a i (suc n) j v h = ap₂ ◌∷◌ (ground arith) (slice-update a (suc i) n j v (omega arith))

slice-extend : (a : Bytes) (n v : ℕ) → slice (update a n v) 0 (n + 1) ≡ slice a 0 n ++ (v ∷ [])
slice-extend a n v =
    let last : update a n v (0 + n) ≡ v = ground arith in
    ap (slice (update a n v) 0) {y = suc n} (omega arith)
    ∙ (slice-snoc (update a n v) 0 n
        ∙ ap₂ (λ q c. q ++ (c ∷ [])) (slice-update a 0 n n v (omega arith)) last)

-- The loop of `sendNext` copies the oldest bytes into the attribute, as far as it has room.
copy_value_lem :
    (fuel m : ℕ) (r : Ring) (attr : Bytes) (n i : ℕ)
    → m < r.size
    → i < r.size
    → r.head ≡ (i + m) % r.size
    → let (a, k) = copy_value fuel r attr n i in
      let chunk = take fuel (window r.buffer r.size i m) in
      (k ≡ n + length chunk) × (slice a 0 k ≡ slice attr 0 n ++ chunk)
unfolding copy_value
copy_value_lem zero m r attr n i hm hi e = (omega arith, sym (append-nil _))
copy_value_lem (suc fuel) zero r attr n i hm hi e =
    let at_head : (i == r.head) ≡ true = ground (arith, add_zero_mod r.size i hi) in
    rw at_head (omega arith, sym (append-nil _))
copy_value_lem (suc fuel) (suc m) r attr n i hm hi e =
    let c = r.buffer i in
    let more : (i == r.head) ≡ false = ground (arith, add-mod-ne r.size i m hi hm) in
    let ih =
      copy_value_lem fuel m r (update attr n c) (n + 1) (next_index r.size i) (omega arith)
        (omega arith) (e ∙ add-suc-mod r.size i m) in
    rw more (
      omega (arith, ih.0),
      ih.1
          ∙ (ap (λ q. q ++ take fuel (window r.buffer r.size (next_index r.size i) m))
                (slice-extend attr n c)
              ∙ append_assoc (slice attr 0 n) (c ∷ []) _),
    )

flatten-snoc : (xs : List (List ℕ)) (x : List ℕ) → flatten (xs ++ (x ∷ [])) ≡ flatten xs ++ x
unfolding flatten
flatten-snoc [] x = append-nil x
flatten-snoc (y ∷ ys) x = ap (λ q. y ++ q) (flatten-snoc ys x) ∙ sym (append_assoc y (flatten ys) x)

pub record Kept (s t : Tx) (more : List ℕ) : Type 0 where
  pub sound : IsSound t
  pub flows : stream t ≡ stream s ++ more

-- What `sendNext` does when it sends: it indicates the first 20 bytes held.
pub sends_lem :
    (s : Tx)
    → IsSound s
    → s.value_size ≡ 0
    → let (attr, n) = copy_value attr_size s.ring s.attribute 0 s.ring.tail in
      (n ≡ length (take attr_size (contents s.ring)))
      × (slice attr 0 n ≡ take attr_size (contents s.ring))
sends_lem s v e =
    let r = s.ring in
    let rv = v.ring_valid in
    let got =
      copy_value_lem attr_size (buffered_size r) r s.attribute 0 r.tail (buffered_size-lt rv)
        rv.tail_in (head_lem rv) in
    (omega (arith, got.0), got.1)

sent_Kept :
    (s : Tx) (attr : Bytes) (n : ℕ)
    → IsSound s
    → s.value_size ≡ 0
    → n ≡ length (take attr_size (contents s.ring))
    → slice attr 0 n ≡ take attr_size (contents s.ring)
    → Kept s
        (record s {
          attribute = attr;
          value_size = n;
          indicated = s.indicated ++ (slice attr 0 n ∷ []);
        })
        []
sent_Kept s attr n v e en es =
    let q = contents s.ring in
    record {
      sound = record {
        ring_valid = v.ring_valid;
        in_flight = omega (arith, length-take attr_size q, length-contents s.ring);
      };
      flows =
          ap₂ ◌++◌
            (flatten-snoc s.indicated (slice attr 0 n) ∙ ap (λ k. flatten s.indicated ++ k) es)
            (ap (λ k. drop k q) en ∙ drop-length-take attr_size q)
          ∙ (append_assoc (flatten s.indicated) (take attr_size q) (drop attr_size q)
              ∙ (ap (λ k. flatten s.indicated ++ k)
                    (take-append-drop attr_size q ∙ ap (λ k. drop k q) (sym e))
                  ∙ sym (append-nil (stream s))));
    }

pub same_Kept : (s : Tx) → IsSound s → Kept s s []
same_Kept s v = record { sound = v; flows = sym (append-nil (stream s)) }

-- Where the ring is valid and holds the bytes under way: `sendNext` keeps this, and what was
-- indicated, with what is still to be indicated, is the same before and after. So it loses no byte
-- and sends none twice.
pub send_next-Kept : (s : Tx) → IsSound s → Kept s (send_next s).1 []
unfolding send_next
send_next-Kept s v = elim (Bool-cases (s.value_size != 0)) [
  | inl h ↦ rw h (same_Kept s v)
  | inr h ↦ elim (Bool-cases (s.ring.tail == s.ring.head)) [
    | inl e ↦ rw (h, e) (same_Kept s v)
    | inr e ↦ elim (Bool-cases (is_linked s)) [
      | inl l ↦
          let none_out : s.value_size ≡ 0 = ground arith in
          let got = sends_lem s v none_out in rw (h, e, l) (sent_Kept s _ _ v none_out got.0 got.1)
      | inr l ↦ rw (h, e, l) (same_Kept s v)
    ]
  ]
]
