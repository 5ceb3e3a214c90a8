-- ===== src/Uart/Tx/Sending.antt =====
-- What `send` of source/bluetooth/MicroBitUARTService.cpp accepts, in both modes, and what the
-- callbacks that run while it sleeps keep.
use mathlib.Core.List.{flatten}
use codal_microbit_v2_fft.Base.{
  ℕ, ◌+◌, ◌-◌, ◌%◌, ◌≤◌, ◌≡◌, refl, ap, ◌∙◌, sym, Bool, true, false, List, [], ◌∷◌, ◌++◌,
  append-nil, append_assoc, length, take, drop, arith, take-zero, take-add, drop-append, if-both,
  length-append, length-drop, min, length-take,
}
use codal_microbit_v2_fft.Uart.Ring.{Ring, u8, IsValid, contents, buffered_size}
use codal_microbit_v2_fft.Uart.Ring.Window.{contents-advance, length-contents}
use codal_microbit_v2_fft.Uart.Tx.{
  Tx, fill, on_confirmation, Callback, on_callback, on_callbacks, sleep, send_async,
}
use codal_microbit_v2_fft.Uart.Tx.Stream.{stream, unsent, IsSound, Kept, same_Kept, send_next-Kept}
use codal_microbit_v2_fft.Uart.Tx.Fill.{Filled, fill-Filled}

pub Kept-trans : (s t u : Tx) (xs ys : List ℕ) → Kept s t xs → Kept t u ys → Kept s u (xs ++ ys)
Kept-trans s t u xs ys a b = record {
  sound = b.sound;
  flows = b.flows ∙ (ap (λ q. q ++ ys) a.flows ∙ append_assoc (stream s) xs ys);
}

-- The state in which a confirmation leaves the ring.
abbrev pub confirmed_state : Tx → Tx
confirmed_state s = record s {
  ring = record (s.ring) { tail = u8 ((s.ring.tail + s.value_size) % s.ring.size) };
  value_size = 0;
  empty_events = s.empty_events + 1;
}

tail_u8 : (r : Ring) (m : ℕ) → IsValid r → u8 ((r.tail + m) % r.size) ≡ (r.tail + m) % r.size
tail_u8 r m v = omega arith

pub confirmed_contents :
    (s : Tx)
    → IsSound s
    → (contents (confirmed_state s).ring ≡ unsent s) × IsValid (confirmed_state s).ring
confirmed_contents s v =
    rw (tail_u8 s.ring s.value_size v.ring_valid)
      (contents-advance s.ring s.value_size v.ring_valid v.in_flight)

pub confirmed_Kept : (s : Tx) → IsSound s → Kept s (confirmed_state s) []
confirmed_Kept s v = record {
  sound = record { ring_valid = (confirmed_contents s v).1; in_flight = omega arith };
  flows =
      ap (λ q. flatten s.indicated ++ q) (confirmed_contents s v).0 ∙ sym (append-nil (stream s));
}

-- Where the ring is valid and holds the bytes under way: `onConfirmation` keeps this, and what was
-- indicated, with what is still to be indicated, is the same before and after.
pub on_confirmation-Kept : (s : Tx) → IsSound s → Kept s (on_confirmation s) []
unfolding on_confirmation
on_confirmation-Kept s v =
    let c = confirmed_Kept s v in
    if-both (λ t. Kept s t []) s.waiting_for_empty (λ _. c)
      (λ _. Kept-trans s (confirmed_state s) _ [] [] c (send_next-Kept (confirmed_state s) c.sound))

-- No device disconnects among these callbacks.
abbrev pub StaysConnected : List Callback → Type 0
StaysConnected [] = Unit
StaysConnected (Callback.confirmed ∷ cs) = StaysConnected cs
StaysConnected (Callback.indications_off ∷ cs) = StaysConnected cs
StaysConnected (Callback.disconnected ∷ cs) = ⊥

on_callbacks-Kept :
    (s : Tx) (cs : List Callback) → IsSound s → StaysConnected cs → Kept s (on_callbacks s cs) []
unfolding on_callbacks on_callback
on_callbacks-Kept s [] v h = same_Kept s v
on_callbacks-Kept s (Callback.confirmed ∷ cs) v h =
    let c = on_confirmation-Kept s v in Kept-trans s _ _ [] [] c (on_callbacks-Kept _ cs c.sound h)
on_callbacks-Kept s (Callback.indications_off ∷ cs) v h =
    let t : Tx = record s { indications_enabled = false } in
    let c =
      on_callbacks-Kept t cs (record { ring_valid = v.ring_valid; in_flight = v.in_flight }) h in
    record { sound = c.sound; flows = c.flows }
on_callbacks-Kept s (Callback.disconnected ∷ cs) v h = absurd h

abbrev pub set_waiting : Bool → Tx → Tx
set_waiting b s = record s { waiting_for_empty = b }

pub waiting-IsSound : (b : Bool) (s : Tx) → IsSound s → IsSound (set_waiting b s)
waiting-IsSound b s v = record { ring_valid = v.ring_valid; in_flight = v.in_flight }

pub sleep-Kept :
    (s : Tx) (cs : List Callback) → IsSound s → StaysConnected cs → Kept s (sleep s cs) []
unfolding sleep
sleep-Kept s cs v h =
    let a = send_next-Kept (set_waiting true s) (waiting-IsSound true s v) in
    let b = on_callbacks-Kept _ cs a.sound h in
    record { sound = waiting-IsSound false _ b.sound; flows = (Kept-trans _ _ _ [] [] a b).flows }

-- The state with the ring that the inner loop leaves.
abbrev pub with_ring : Tx → Ring → Tx
with_ring s r = record s { ring = r }

pub Filled-Kept :
    (s : Tx) (buf : List ℕ) (n : ℕ) (r : Ring) (left : List ℕ) (k : ℕ)
    → IsSound s
    → Filled s.ring buf n (r, left, k)
    → Kept s (with_ring s r) (take (s.ring.size - 1 - buffered_size s.ring) buf)
Filled-Kept s buf n r left k v f =
    let added = take (s.ring.size - 1 - buffered_size s.ring) buf in
    record {
      sound = record {
        ring_valid = f.valid;
        in_flight = omega (
          arith,
          v.in_flight,
          ap length f.bytes,
          length-contents r,
          length-contents s.ring,
          length-append (contents s.ring) added,
        );
      };
      flows =
          ap (λ q. flatten s.indicated ++ q)
            (ap (drop s.value_size) f.bytes
              ∙ drop-append s.value_size (contents s.ring) added
                  (omega (arith, v.in_flight, length-contents s.ring)))
          ∙ sym (append_assoc (flatten s.indicated) (unsent s) added);
    }

-- What a call of `send` has done: it accepted a prefix of `buf`, whose length it returns.
pub record Accepted (s : Tx) (buf : List ℕ) (n : ℕ) (out : ℕ × Tx) : Type 0 where
  pub sound : IsSound out.1
  pub count : n ≤ out.0
  pub within : out.0 ≤ n + length buf
  pub flows : stream out.1 ≡ stream s ++ take (out.0 - n) buf

pub Accepted-zero :
    (s t : Tx) (buf : List ℕ) (n : ℕ) → IsSound t → stream t ≡ stream s → Accepted s buf n (n, t)
Accepted-zero s t buf n v e = record {
  sound = v;
  count = omega arith;
  within = omega arith;
  flows =
      e
      ∙ (sym (append-nil (stream s))
          ∙ ap (λ q. stream s ++ q) (sym (take-zero (n - n) buf (omega arith))));
}

-- A round of `send`: what the inner loop accepts, and then what the rest of the call accepts.
pub Accepted-round :
    (s u : Tx) (buf : List ℕ) (n : ℕ) (r : Ring) (left : List ℕ) (k : ℕ) (out : ℕ × Tx)
    → IsSound s
    → Filled s.ring buf n (r, left, k)
    → Kept (with_ring s r) u []
    → Accepted u left k out
    → Accepted s buf n out
Accepted-round s u buf n r left k out v f kept a =
    let free = s.ring.size - 1 - buffered_size s.ring in
    let total = length-drop free buf in
    let split = length-take free buf in
    let rest : length left ≡ length (drop free buf) = ap length f.left in
    let first = Kept-trans s _ u _ [] (Filled-Kept s buf n r left k v f) kept in
    record {
      sound = a.sound;
      count = omega (arith, a.count, f.count);
      within = omega (arith, a.within, f.count);
      flows =
          a.flows
          ∙ (ap (λ q. q ++ take (out.0 - k) left)
                (first.flows ∙ ap (λ q. stream s ++ q) (append-nil (take free buf)))
              ∙ (append_assoc (stream s) (take free buf) (take (out.0 - k) left)
                  ∙ ap (λ q. stream s ++ q)
                      (ap (λ q. take free buf ++ take (out.0 - k) q) f.left
                        ∙ take-add free (out.0 - k) (out.0 - n) buf
                            (omega (arith, a.count, f.count)))));
    }

-- Where the ring is valid and holds the bytes under way: in mode ASYNC `send` accepts as many bytes of `buf` as the buffer has room for, and returns their
-- number. What was indicated before and after, with what is still to be indicated, is extended by
-- exactly these bytes.
pub send_async-Accepted :
    (s : Tx) (buf : List ℕ)
    → IsSound s
    → let out = send_async s buf in
      Accepted s buf 0 out × (out.0 ≡ min (s.ring.size - 1 - buffered_size s.ring) (length buf))
unfolding send_async
send_async-Accepted s buf v =
    let f = fill-Filled s.ring buf 0 v.ring_valid in
    let free = s.ring.size - 1 - buffered_size s.ring in
    let t = with_ring s (fill s.ring buf 0).0 in
    let kept = send_next-Kept t (Filled-Kept s buf 0 _ _ _ v f).sound in
    (
      Accepted-round s _ buf 0 _ _ _ _ v f kept (Accepted-zero _ _ _ _ kept.sound refl),
      omega (arith, f.count, length-take free buf),
    )
