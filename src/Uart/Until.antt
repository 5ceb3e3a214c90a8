-- ===== src/Uart/Until.antt =====
-- `readUntil` and `circularCopy` of source/bluetooth/MicroBitUARTService.cpp. Both loops go round
-- the ring until an index meets another; `size` rounds are enough, since an index is below `size`.
pub mod Lines
pub mod Waiting
use codal_microbit_v2_fft.Base.{
  ℕ, zero, suc, ◌+◌, ◌-◌, ◌%◌, Bool, false, ◌||◌, Option, none, some, List, [], ◌∷◌, Code, Reply,
  value, error, ltb, ◌==◌, if◌then◌else◌, Bytes,
}
use codal_microbit_v2_fft.Uart.Ring.{Ring, u8, next_index}
use codal_microbit_v2_fft.Uart.Rx.{Rx, Mode, async, sync_spinwait, sync_sleep, event_on, asleep}

-- The `for` loop over the delimiters.
unfoldable pub is_delimiter : List ℕ → ℕ → Bool
is_delimiter [] c = false
is_delimiter (d ∷ ds) c = d == c || is_delimiter ds c

-- `while (localTail != rxBufferHead && foundIndex == -1)`
pub find_delimiter : List ℕ → Ring → ℕ → ℕ → Option ℕ
find_delimiter ds r zero i = none
find_delimiter ds r (suc fuel) i =
    let rest = find_delimiter ds r fuel (next_index r.size i) in
    if i == r.head then none else if is_delimiter ds (r.buffer i) then some i else rest

-- `circularCopy`: the bytes from `tail` up to `head`.
pub circular_copy : Bytes → ℕ → ℕ → ℕ → ℕ → List ℕ
circular_copy buf size head zero tail = []
circular_copy buf size head (suc fuel) tail =
    let rest = circular_copy buf size head fuel (next_index size tail) in
    if tail == head then [] else buf tail ∷ rest

-- `localBuffSize`
pub distance : ℕ → ℕ → ℕ → ℕ
distance size from to = if ltb to from then size - from + to else to - from

-- The last part of `readUntil`, with `preservedTail` and a `foundIndex` that is not negative.
pub take_line : Rx → ℕ → ℕ → List ℕ × Rx
take_line s preserved found =
    let r = s.ring in
    let n = distance r.size preserved found in
    (
      circular_copy r.buffer r.size found r.size preserved,
      record s { ring = record r { tail = u8 ((r.tail + n + 1) % r.size) } },
    )

-- `foundIndex = rxBufferHead - 1`, which is -1 when the head is 0.
abbrev before_head : ℕ → Option ℕ
before_head zero = none
before_head (suc i) = some i

abbrev line_or_empty : Rx → ℕ → Option ℕ → Reply (List ℕ) × Rx
line_or_empty s preserved none = (value [], s)
line_or_empty s preserved (some i) = let (cs, t) = take_line s preserved i in (value cs, t)

-- `eventOn(delimeters, SYNC_SLEEP)`, the wait, and `this->delimeters = ManagedString()`
pub await_delimiter : Rx → List ℕ → List (List ℕ) → Rx
await_delimiter s ds writes = event_on (asleep (event_on s ds) writes) []

abbrev await_if_missing : Rx → List ℕ → List (List ℕ) → Option ℕ → Reply (List ℕ) × Rx
await_if_missing s ds writes (some i) = line_or_empty s s.ring.tail (some i)
await_if_missing s ds writes none =
    let s' = await_delimiter s ds writes in line_or_empty s' s.ring.tail (before_head s'.ring.head)

-- `readUntil`. In mode SYNC_SPINWAIT the code returns MICROBIT_INVALID_PARAMETER converted to a
-- ManagedString; the reply is the error itself here.
pub read_until : Rx → List ℕ → Mode → List (List ℕ) → Reply (List ℕ) × Rx
read_until s ds sync_spinwait writes = (error Code.invalid_parameter, s)
read_until s ds async writes =
    line_or_empty s s.ring.tail (find_delimiter ds s.ring s.ring.size s.ring.tail)
read_until s ds sync_sleep writes =
    await_if_missing s ds writes (find_delimiter ds s.ring s.ring.size s.ring.tail)
