-- ===== src/Uart/Tx/Progress.antt =====
-- `send` of source/bluetooth/MicroBitUARTService.cpp returns in mode SYNC_SLEEP when the device
-- confirms each indication.
use mathlib.Core.Bool.{false≢true}
use native.Mathlib.Decide.{dec_lt}
use codal_microbit_v2_fft.Base.{
  ℕ, zero, suc, ◌+◌, ◌-◌, ◌≤◌, ◌<◌, ◌≡◌, ◌≢◌, refl, ap, replicate, ◌∙◌, sym, Bool, true, false,
  List, [], ◌∷◌, length, take, arith, Bool-cases, inl, inr, ◌==◌, ◌!=◌, length-zero, if-both,
  length-append, length-drop, length-take, some,
}
use codal_microbit_v2_fft.Uart.Ring.{Ring, IsValid, contents, buffered_size}
use codal_microbit_v2_fft.Uart.Ring.Window.{contents-empty, length-contents}
use codal_microbit_v2_fft.Uart.Tx.{
  Tx, attr_size, is_linked, send_next, fill, on_confirmation, Callback, on_callback, on_callbacks,
  sleep, all_sent, send_sleep,
}
use codal_microbit_v2_fft.Uart.Tx.Stream.{IsSound, sends_lem, send_next-Kept}
use codal_microbit_v2_fft.Uart.Tx.Fill.{fill-Filled}
use codal_microbit_v2_fft.Uart.Tx.Sending.{
  with_ring, Filled-Kept, confirmed_state, confirmed_contents, confirmed_Kept, set_waiting,
  waiting-IsSound,
}

-- What `sendNext` leaves alone.
record SameButSent (s t : Tx) : Type 0 where
  ring : t.ring ≡ s.ring
  waiting : t.waiting_for_empty ≡ s.waiting_for_empty
  linked : is_linked t ≡ is_linked s

same_refl : (s : Tx) → SameButSent s s
same_refl s = record { ring = refl; waiting = refl; linked = refl }

send_next-Same : (s : Tx) → SameButSent s (send_next s).1
unfolding send_next
send_next-Same s =
    let P : Bool × Tx → Type 0 = λ o. SameButSent s o.1 in
    if-both P (s.value_size != 0) (λ _. same_refl s)
      (λ _.
        if-both P (s.ring.tail == s.ring.head) (λ _. same_refl s)
          (λ _.
            if-both P (is_linked s) (λ _. record { ring = refl; waiting = refl; linked = refl })
              (λ _. same_refl s)))

length-take-pos : (q : List ℕ) → 0 < length q → 0 < length (take attr_size q)
length-take-pos q h = omega (arith, length-take attr_size q)

-- With bytes held and a device that listens, an indication is under way after `sendNext`.
send_next-busy :
    (s : Tx)
    → IsSound s
    → is_linked s ≡ true
    → 0 < buffered_size s.ring
    → 0 < (send_next s).1.value_size
unfolding send_next
send_next-busy s v l h =
    let P : Bool × Tx → Type 0 = λ o. 0 < o.1.value_size in
    if-both P (s.value_size != 0) (λ e. ground arith)
      (λ e.
        if-both P (s.ring.tail == s.ring.head)
          (λ at_head. absurd (
            omega (
              arith,
              length-contents s.ring,
              ap length ((contents-empty s.ring v.ring_valid).0 (ground arith)),
            )))
          (λ _.
            if-both P (is_linked s)
              (λ _.
                let got = sends_lem s v (ground arith) in
                omega (
                  arith,
                  got.0,
                  length-take-pos (contents s.ring) (omega (arith, length-contents s.ring)),
                ))
              (λ no_link. absurd (false≢true (sym no_link ∙ l)))))

abbrev pub one_confirmation : List Callback
one_confirmation = Callback.confirmed ∷ []

buffered_size-confirmed :
    (s : Tx)
    → IsSound s
    → buffered_size (confirmed_state s).ring ≡ buffered_size s.ring - s.value_size
buffered_size-confirmed s v = omega (
  arith,
  length-contents (confirmed_state s).ring,
  ap length (confirmed_contents s v).0,
  length-drop s.value_size (contents s.ring),
  length-contents s.ring,
)

-- What a sleep with one confirmation leaves.
record Confirmed (s t : Tx) : Type 0 where
  sound : IsSound t
  linked : is_linked t ≡ is_linked s
  fewer : buffered_size t.ring ≤ buffered_size s.ring - 1
  same_size : t.ring.size ≡ s.ring.size

sleep_lem :
    (s : Tx)
    → sleep s one_confirmation
      ≡ set_waiting false (on_confirmation (send_next (set_waiting true s)).1)
unfolding sleep on_callbacks on_callback
sleep_lem s = refl

on_confirmation-waiting :
    (s : Tx) → s.waiting_for_empty ≡ true → on_confirmation s ≡ confirmed_state s
unfolding on_confirmation
on_confirmation-waiting s w =
    if-both (λ t. t ≡ confirmed_state s) s.waiting_for_empty (λ _. refl)
      (λ e. absurd (false≢true (sym e ∙ w)))

sleep-Confirmed : (s : Tx) → IsSound s → is_linked s ≡ true → Confirmed s (sleep s one_confirmation)
sleep-Confirmed s v l =
    let s' = set_waiting true s in
    let v' = waiting-IsSound true s v in
    let x = (send_next s').1 in
    let same = send_next-Same s' in
    let x-sound = (send_next-Kept s' v').sound in
    let c = confirmed_Kept x x-sound in
    rw (sleep_lem s, on_confirmation-waiting x same.waiting)
      record {
        sound = waiting-IsSound false _ c.sound;
        linked = same.linked;
        fewer = elim (dec_lt 0 (buffered_size s.ring)) [
          | yes some_held ↦ omega (
            arith,
            buffered_size-confirmed x x-sound,
            ap buffered_size same.ring,
            send_next-busy s' v' l some_held,
          )
          | no empty ↦ omega (arith, buffered_size-confirmed x x-sound, ap buffered_size same.ring)
        ];
        same_size = ap Ring.size same.ring;
      }

-- The bytes that a call of `send` has still to see confirmed.
abbrev outstanding : Tx → List ℕ → ℕ
outstanding s buf = length buf + buffered_size s.ring

-- A round of `send` with one confirmation leaves fewer bytes outstanding.
round_lem :
    (s : Tx) (buf : List ℕ) (n : ℕ)
    → IsSound s
    → is_linked s ≡ true
    → 1 < s.ring.size
    → let (r, left, k) = fill s.ring buf n in
      let u = sleep (with_ring s r) one_confirmation in
      IsSound u
      × (is_linked u ≡ true)
      × (u.ring.size ≡ s.ring.size)
      × (outstanding u left ≤ outstanding s buf - 1)
round_lem s buf n v l big =
    let f = fill-Filled s.ring buf n v.ring_valid in
    let free = s.ring.size - 1 - buffered_size s.ring in
    let t = with_ring s (fill s.ring buf n).0 in
    let kept = Filled-Kept s buf n _ _ _ v f in
    let c = sleep-Confirmed t kept.sound l in
    (
      c.sound,
      c.linked ∙ l,
      c.same_size ∙ f.same_size,
      omega (
        arith,
        c.fewer,
        ap length f.bytes,
        length-append (contents s.ring) (take free buf),
        length-contents s.ring,
        length-contents t.ring,
        ap length f.left,
        length-take free buf,
        length-drop free buf,
      ),
    )

all_sent_of_zero :
    (left : List ℕ) (s : Tx) → IsValid s.ring → outstanding s left ≡ 0 → all_sent left s ≡ true
unfolding all_sent
all_sent_of_zero [] s v e =
    let at_head : s.ring.tail ≡ s.ring.head =
      (contents-empty s.ring v).1
        (length-zero (contents s.ring) (omega (arith, length-contents s.ring))) in
    ground arith
all_sent_of_zero (c ∷ left) s v e = absurd (omega arith)

-- Where the ring is valid, has room for a byte and holds the bytes under way, a device is connected
-- with indications enabled, and it confirms once in each sleep, `send`
-- returns in mode SYNC_SLEEP after at most as many sleeps as there are bytes to send and bytes held,
-- and one more.
pub send_sleep-returns :
    (sleeps : ℕ) (s : Tx) (buf : List ℕ) (n : ℕ)
    → IsSound s
    → is_linked s ≡ true
    → 1 < s.ring.size
    → outstanding s buf < sleeps
    → (out : ℕ × Tx) × (send_sleep s buf n (replicate sleeps one_confirmation) ≡ some out)
unfolding send_sleep
send_sleep-returns zero s buf n v l big h = absurd (omega arith)
send_sleep-returns (suc sleeps) s buf n v l big h =
    let round = round_lem s buf n v l big in
    let left = (fill s.ring buf n).1 in
    let k = (fill s.ring buf n).2 in
    let u = sleep (with_ring s (fill s.ring buf n).0) one_confirmation in
    elim (Bool-cases (all_sent left u)) [
      | inl e ↦ ((k, u), rw (l, e))
      | inr e ↦
          let some_left : outstanding u left ≢ 0 = λ none_left.
            false≢true (sym e ∙ all_sent_of_zero left u round.0.ring_valid none_left) in
          let rest =
            send_sleep-returns sleeps u left k round.0 round.1 (rw round.2 big)
              (omega (arith, round.3, some_left)) in
          (rest.0, rw (l, e) rest.1)
    ]
