-- ===== src/Uart/Tx/Sleeping.antt =====
-- What `send` of source/bluetooth/MicroBitUARTService.cpp has done when it returns in mode SYNC_SLEEP.
use mathlib.Core.Bool.{false≢true}
use codal_microbit_v2_fft.Base.{
  ℕ, ◌+◌, ◌-◌, ◌≡◌, refl, ap, true, false, subst, List, [], ◌∷◌, length, arith, inl, inr, ◌⊎◌,
  if-both, length-drop, length-take, Option, none, some,
}
use codal_microbit_v2_fft.Uart.Ring.{Ring, IsValid, contents, buffered_size}
use codal_microbit_v2_fft.Uart.Ring.Window.{contents-empty}
use codal_microbit_v2_fft.Uart.Tx.{Tx, is_linked, fill, Callback, sleep, all_sent, send_sleep}
use codal_microbit_v2_fft.Uart.Tx.Stream.{IsSound, Kept}
use codal_microbit_v2_fft.Uart.Tx.Fill.{Filled, fill-Filled}
use codal_microbit_v2_fft.Uart.Tx.Sending.{
  StaysConnected, with_ring, sleep-Kept, Filled-Kept, Accepted, Accepted-zero, Accepted-round,
}

-- How a call of `send` in mode SYNC_SLEEP ends.
pub record Ended (s : Tx) (buf : List ℕ) (n : ℕ) (out : ℕ × Tx) : Type 0 where
  pub accepted : Accepted s buf n out
  pub all : (is_linked out.1 ≡ false) ⊎ ((out.0 ≡ n + length buf) × (contents out.1.ring ≡ []))

abbrev IfReturned : (ℕ × Tx → Type 0) → Option (ℕ × Tx) → Type 0
IfReturned P none = Unit
IfReturned P (some out) = P out

abbrev pub AllStayConnected : List (List Callback) → Type 0
AllStayConnected [] = Unit
AllStayConnected (w ∷ ws) = StaysConnected w × AllStayConnected ws

Ended-unlinked :
    (s : Tx) (buf : List ℕ) (n : ℕ) → IsSound s → is_linked s ≡ false → Ended s buf n (n, s)
Ended-unlinked s buf n v l = record { accepted = Accepted-zero s s buf n v refl; all = inl l }

IfReturned-map :
    (P Q : ℕ × Tx → Type 0)
    → ((out : ℕ × Tx) → P out → Q out)
    → (o : Option (ℕ × Tx)) → IfReturned P o
    → IfReturned Q o
IfReturned-map P Q f none h = tt
IfReturned-map P Q f (some out) h = f out h

all_sent_lem :
    (left : List ℕ) (s : Tx)
    → IsValid s.ring
    → all_sent left s ≡ true
    → (left ≡ []) × (contents s.ring ≡ [])
unfolding all_sent
all_sent_lem [] s v h = (refl, (contents-empty s.ring v).0 (ground arith))
all_sent_lem (c ∷ left) s v h = absurd (false≢true h)

Ended-round :
    (s u : Tx) (buf : List ℕ) (n : ℕ) (r : Ring) (left : List ℕ) (k : ℕ)
    → IsSound s
    → Filled s.ring buf n (r, left, k)
    → Kept (with_ring s r) u []
    → (out : ℕ × Tx) → Ended u left k out
    → Ended s buf n out
Ended-round s u buf n r left k v f kept out e =
    let free = s.ring.size - 1 - buffered_size s.ring in
    record {
      accepted = Accepted-round s u buf n r left k out v f kept e.accepted;
      all = elim e.all [
        | inl unlinked ↦ inl unlinked
        | inr over ↦ inr (
          omega (
            arith,
            over.0,
            f.count,
            length-take free buf,
            length-drop free buf,
            ap length f.left,
          ),
          over.1,
        )
      ];
    }

Ended-all :
    (s u : Tx) (buf : List ℕ) (n : ℕ) (r : Ring) (left : List ℕ) (k : ℕ)
    → IsSound s
    → Filled s.ring buf n (r, left, k)
    → Kept (with_ring s r) u []
    → all_sent left u ≡ true
    → Ended s buf n (k, u)
Ended-all s u buf n r left k v f kept e =
    let over = all_sent_lem left u kept.sound.ring_valid e in
    Ended-round s u buf n r left k v f kept (k, u)
      (record {
        accepted = Accepted-zero u u left k kept.sound refl;
        all = inr (omega (arith, ap length over.0), over.1);
      })

send_sleep_lem :
    (s : Tx) (buf : List ℕ) (n : ℕ) (ws : List (List Callback))
    → IsSound s
    → AllStayConnected ws
    → IfReturned (Ended s buf n) (send_sleep s buf n ws)
unfolding send_sleep
send_sleep_lem s buf n [] v h =
    if-both (IfReturned (Ended s buf n)) (is_linked s) (λ _. tt) (λ l. Ended-unlinked s buf n v l)
send_sleep_lem s buf n (w ∷ ws) v h =
    let f = fill-Filled s.ring buf n v.ring_valid in
    let t = with_ring s (fill s.ring buf n).0 in
    let left = (fill s.ring buf n).1 in
    let k = (fill s.ring buf n).2 in
    let u = sleep t w in
    let kept = sleep-Kept t w (Filled-Kept s buf n _ _ _ v f).sound h.0 in
    if-both (IfReturned (Ended s buf n)) (is_linked s)
      (λ _.
        if-both (IfReturned (Ended s buf n)) (all_sent (fill s.ring buf n).1 (sleep t w))
          (λ e. Ended-all s _ buf n _ _ _ v f kept e)
          (λ _.
            IfReturned-map (Ended u left k) (Ended s buf n)
              (Ended-round s u buf n _ left k v f kept) (send_sleep u left k ws)
              (send_sleep_lem u left k ws kept.sound h.1)))
      (λ l. Ended-unlinked s buf n v l)

-- Where the ring is valid and holds the bytes under way, no device disconnects while `send` sleeps
-- in mode SYNC_SLEEP, and it returns: it has accepted the prefix of
-- `buf` whose length it returns: what was indicated before and after, with what is still to be
-- indicated, is extended by exactly these bytes. If the device still receives indications, this is
-- the whole of `buf`, and the buffer is empty.
pub send_sleep-Ended :
    (s : Tx) (buf : List ℕ) (ws : List (List Callback)) (out : ℕ × Tx)
    → IsSound s
    → AllStayConnected ws
    → send_sleep s buf 0 ws ≡ some out
    → Ended s buf 0 out
send_sleep-Ended s buf ws out v h e =
    subst (IfReturned (Ended s buf 0)) e (send_sleep_lem s buf 0 ws v h)
