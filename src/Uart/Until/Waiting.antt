-- ===== src/Uart/Until/Waiting.antt =====
-- `readUntil` of source/bluetooth/MicroBitUARTService.cpp where the fiber sleeps until a delimiter
-- arrives. The code takes the last byte received for the delimiter, at the cell before the head.
use mathlib.Core.Bool.{false≢true}
use mathlib.Core.Path.{subst₂}
use native.Mathlib.Nat.{mod-eq_of_lt, mod-eq-sub-mod}
use codal_microbit_v2_fft.Base.{
  ℕ, zero, suc, ◌+◌, ◌-◌, ◌%◌, ◌<◌, ◌≡◌, ◌≢◌, refl, ap, ap₂, ◌∙◌, sym, List, [], length, take,
  drop-all, arith, Bool-cases, inl, inr, ==_iff, ◌==◌, if◌then◌else◌, none, some, Reply, value,
}
use codal_microbit_v2_fft.Uart.Ring.{Ring, IsValid, contents, buffered_size}
use codal_microbit_v2_fft.Uart.Ring.Window.{buffered_size-lt, head_lem, length-contents}
use codal_microbit_v2_fft.Uart.Rx.{Rx, sync_sleep, event_on}
use codal_microbit_v2_fft.Uart.Rx.Receive.{asleep-Received}
use codal_microbit_v2_fft.Uart.Rx.Reading.{arriving}
use codal_microbit_v2_fft.Uart.Until.{await_delimiter, before_head, take_line, read_until}
use codal_microbit_v2_fft.Uart.Until.Lines.{first_index, find_first, Cut, take_line-Cut}

before_head_zero : (h : ℕ) → h ≡ 0 → before_head h ≡ none
before_head_zero zero e = refl
before_head_zero (suc h) e = absurd (omega arith)

before_head_pos : (h : ℕ) → h ≢ 0 → before_head h ≡ some (h - 1)
before_head_pos zero e = absurd (e refl)
before_head_pos (suc h) e = ap some (omega arith)

-- The cell before the head is that of the last byte held.
last_cell :
    (r : Ring)
    → IsValid r
    → 0 < buffered_size r
    → r.head ≢ 0
    → r.head - 1 ≡ (r.tail + (buffered_size r - 1)) % r.size
last_cell r v h ne = grind (arith, head_lem v, buffered_size-lt v, mod-eq-sub-mod, mod-eq_of_lt)

-- The state in which the fiber goes on.
woken_lem :
    (s : Rx) (ds : List ℕ) (ws : List (List ℕ))
    → IsValid s.ring
    → let woken = await_delimiter s ds ws in
      IsValid woken.ring × (contents woken.ring ≡ arriving s ws) × (woken.ring.tail ≡ s.ring.tail)
unfolding await_delimiter event_on
woken_lem s ds ws v =
    let got = asleep-Received (event_on s ds) ws v in (got.valid, got.bytes, got.same_tail)

-- The reply is `line`, and the buffer holds `rest`.
abbrev pub Answers : Reply (List ℕ) × Rx → List ℕ → List ℕ → Type 0
Answers out line rest = (out.0 ≡ value line) × (contents out.1.ring ≡ rest)

-- What `readUntil` answers in mode SYNC_SLEEP where the buffer is valid, no byte held is a delimiter
-- and some byte is there when the fiber wakes. If the head is not the first cell, it returns all the bytes but the
-- last and leaves the buffer empty, whether or not the last byte is the delimiter. If the head has
-- come round to the first cell, it returns an empty string and consumes nothing.
pub read_until-sleep :
    (s : Rx) (ds : List ℕ) (ws : List (List ℕ))
    → IsValid s.ring
    → first_index ds (contents s.ring) ≡ none
    → 0 < length (arriving s ws)
    → let out = read_until s ds sync_sleep ws in
      let held = arriving s ws in
      let woken = await_delimiter s ds ws in
      if woken.ring.head == 0
      then Answers out [] held
      else Answers out (take (length held - 1) held) []
unfolding read_until
read_until-sleep s ds ws v e pos =
    let woken = await_delimiter s ds ws in
    let w = woken_lem s ds ws v in
    let n = buffered_size woken.ring in
    let count : length (arriving s ws) ≡ n = sym (ap length w.1) ∙ length-contents woken.ring in
    let cell : (h : woken.ring.head ≢ 0)
        → woken.ring.head - 1 ≡ (woken.ring.tail + (n - 1)) % woken.ring.size =
      last_cell woken.ring w.0 (omega arith) in
    let whole = take_line-Cut woken (n - 1) w.0 (omega arith) in
    rw (find_first s ds v, e)
      (elim (Bool-cases (woken.ring.head == 0)) [
        | inl h ↦ rw (h, before_head_zero woken.ring.head (ground arith)) (refl, w.1)
        | inr h ↦
            let not_zero : woken.ring.head ≢ 0 =
              λ z. false≢true (sym h ∙ (==_iff woken.ring.head 0).1 z) in
            let cut =
              subst₂ (λ a b. Cut woken (n - 1) (take_line woken a b)) w.2 (sym (cell not_zero))
                whole in
            rw (h, before_head_pos woken.ring.head not_zero)
              (
                ap value (cut.line ∙ ap₂ take (omega arith) w.1),
                cut.rest
                    ∙ drop-all (suc (n - 1)) (contents woken.ring)
                        (omega (arith, length-contents woken.ring)),
              )
      ])
