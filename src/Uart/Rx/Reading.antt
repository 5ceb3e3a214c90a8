-- ===== src/Uart/Rx/Reading.antt =====
-- What `getc` and `read` of source/bluetooth/MicroBitUARTService.cpp return and consume.
use mathlib.Core.List.{flatten}
use codal_microbit_v2_fft.Base.{
  ℕ, zero, suc, ◌+◌, ◌-◌, ◌≤◌, ◌≡◌, refl, ap, ◌∙◌, sym, true, false, List, [], ◌∷◌, min, ◌++◌,
  length, take, drop, ltb, arith, Bool-cases, inl, inr, length-take, length-zero, take-append, Code,
  Reply, value, error,
}
use codal_microbit_v2_fft.Uart.Ring.{
  Ring, IsValid, is_readable, peek, advance_tail, contents, buffered_size,
}
use codal_microbit_v2_fft.Uart.Ring.Window.{
  is_readable_lem, contents-advance_tail, advance_tail-IsValid, buffered_size-advance_tail,
  length-contents,
}
use codal_microbit_v2_fft.Uart.Rx.{
  Rx, async, sync_sleep, take_byte, getc, read_async, read_sleep, await_bytes, read, event_after,
  asleep,
}
use codal_microbit_v2_fft.Uart.Rx.Receive.{free_space, asleep-Received}

-- A queue of bytes read one at a time.
abbrev pub pop : List ℕ → Reply ℕ × List ℕ
pop [] = (error Code.no_data, [])
pop (c ∷ q) = (value c, q)

unreadable : (r : Ring) → IsValid r → is_readable r ≡ false → contents r ≡ []
unreadable r v h = length-zero (contents r) (ground (arith, length-contents r, is_readable_lem v))

-- Where the buffer is valid: in mode ASYNC `getc` takes the oldest byte that the buffer holds, leaves the others, and
-- returns NO_DATA, with nothing consumed, exactly when there is none.
pub getc-pop :
    (s : Rx) (writes : List (List ℕ))
    → IsValid s.ring
    → let (reply, t) = getc s async writes in
      ((reply, contents t.ring) ≡ pop (contents s.ring)) × IsValid t.ring
unfolding getc take_byte
getc-pop s writes v = elim (Bool-cases (is_readable s.ring)) [
  | inl h ↦ rw (h, contents-advance_tail v h) (refl, advance_tail-IsValid v)
  | inr h ↦ rw (h, unreadable s.ring v h) (refl, v)
]

-- What a read of `len` bytes leaves: the oldest bytes are out, the others still held.
pub record Taken (s : Rx) (len : ℕ) (out : List ℕ × Rx) : Type 0 where
  pub bytes : out.0 ≡ take len (contents s.ring)
  pub rest : contents out.1.ring ≡ drop len (contents s.ring)
  pub valid : IsValid out.1.ring

-- The state after a byte was taken.
abbrev taken : Rx → Rx
taken s = record s { ring = advance_tail s.ring }

Taken-cons :
    (s : Rx) (left : ℕ) (cs : List ℕ) (t : Rx)
    → IsValid s.ring
    → is_readable s.ring ≡ true
    → Taken (taken s) left (cs, t)
    → Taken s (suc left) (peek s.ring ∷ cs, t)
Taken-cons s left cs t v h r = record {
  bytes = rw (contents-advance_tail v h) (ap (λ k. peek s.ring ∷ k) r.bytes);
  rest = rw (contents-advance_tail v h) r.rest;
  valid = r.valid;
}

Taken-nil : (s : Rx) (len : ℕ) → IsValid s.ring → is_readable s.ring ≡ false → Taken s len ([], s)
Taken-nil s zero v h = record { bytes = refl; rest = refl; valid = v }
Taken-nil s (suc len) v h = record {
  bytes = rw (unreadable s.ring v h);
  rest = rw (unreadable s.ring v h);
  valid = v;
}

read_async-Taken : (s : Rx) (len : ℕ) → IsValid s.ring → Taken s len (read_async s len)
unfolding read_async getc take_byte
read_async-Taken s zero v = record { bytes = refl; rest = refl; valid = v }
read_async-Taken s (suc left) v = elim (Bool-cases (is_readable s.ring)) [
  | inl h ↦
      rw h (Taken-cons s left _ _ v h (read_async-Taken (taken s) left (advance_tail-IsValid v)))
  | inr h ↦ rw h (Taken-nil s (suc left) v h)
]

-- While enough bytes are held, `getc` in mode SYNC_SLEEP does not sleep.
read_sleep-Taken :
    (s : Rx) (writes : ℕ → List (List ℕ)) (i len : ℕ)
    → IsValid s.ring
    → len ≤ buffered_size s.ring
    → Taken s len (read_sleep s writes i len)
unfolding read_sleep getc take_byte
read_sleep-Taken s writes i zero v h = record { bytes = refl; rest = refl; valid = v }
read_sleep-Taken s writes i (suc left) v h =
    let more : is_readable s.ring ≡ true = ground (arith, is_readable_lem v) in
    rw more (
      Taken-cons s left _ _ v more (
        read_sleep-Taken (taken s) writes (i + 1) left (advance_tail-IsValid v)
          (ground (arith, buffered_size-advance_tail v more))))

-- Where the buffer is valid: in mode ASYNC `read` returns the oldest bytes, at most `len`, and their number, and leaves the
-- others in the buffer.
pub read-Taken :
    (s : Rx) (len : ℕ) (writes : ℕ → List (List ℕ))
    → IsValid s.ring
    → let (reply, cs, t) = read s len async writes in
      (reply ≡ value (min len (length (contents s.ring)))) × Taken s len (cs, t)
unfolding read
read-Taken s len writes v =
    let r = read_async-Taken s len v in
    (ap value (rw r.bytes (length-take len (contents s.ring))), r)

-- The bytes that are there once `read` has waited for `len` of them.
abbrev pub arriving : Rx → List (List ℕ) → List ℕ
arriving s ws = contents s.ring ++ take (free_space s.ring) (flatten ws)

await_bytes_lem :
    (s : Rx) (len : ℕ) (ws : List (List ℕ))
    → IsValid s.ring
    → let woken = await_bytes s len ws in
      IsValid woken.ring
      × (take len (contents woken.ring) ≡ take len (arriving s ws))
      × (len ≤ length (arriving s ws) → len ≤ buffered_size woken.ring)
unfolding await_bytes event_after
await_bytes_lem s len ws v = elim (Bool-cases (ltb (buffered_size s.ring) len)) [
  | inl h ↦
      let got = asleep-Received (event_after s (len - buffered_size s.ring)) ws v in
      rw h (
        got.valid,
        ap (take len) got.bytes,
        λ enough. omega (
          arith,
          ap length got.bytes,
          length-contents (asleep (event_after s (len - buffered_size s.ring)) ws).ring,
        ),
      )
  | inr h ↦
      let enough : len ≤ buffered_size s.ring = ground arith in
      rw h (
        v,
        sym (take-append len (contents s.ring) _ (omega (arith, length-contents s.ring))),
        λ _. enough,
      )
]

-- Where the buffer is valid: in mode SYNC_SLEEP `read` waits until `len` bytes are there: where those that the buffer held and
-- those that arrive while it sleeps make up `len`, it returns the first `len` of them, in order,
-- and its reply is `len`.
pub read-sleep :
    (s : Rx) (len : ℕ) (writes : ℕ → List (List ℕ))
    → IsValid s.ring
    → len ≤ length (arriving s (writes 0))
    → let (reply, cs, t) = read s len sync_sleep writes in
      (reply ≡ value len) × (cs ≡ take len (arriving s (writes 0))) × IsValid t.ring
unfolding read
read-sleep s len writes v h =
    let woken = await_bytes s len (writes 0) in
    let ready = await_bytes_lem s len (writes 0) v in
    let r = read_sleep-Taken woken writes 1 len ready.0 (ready.2 h) in
    (
      ap value (
          rw (r.bytes, length-take len (contents woken.ring), length-contents)
            (omega (arith, ready.2 h))),
      r.bytes ∙ ready.1,
      r.valid,
    )
