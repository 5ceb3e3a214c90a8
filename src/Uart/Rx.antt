-- ===== src/Uart/Rx.antt =====
-- The receiving side of source/bluetooth/MicroBitUARTService.cpp: `onDataWritten`, `getc`, `read`,
-- `readUntil`, `eventOn` and `eventAfter`. A fiber that sleeps (SYNC_SLEEP) is resumed by the
-- scheduler of codal-core; what the central device writes meanwhile is an argument, the list of the
-- payloads that `onDataWritten` is called with before the fiber runs again.
pub mod Receive
pub mod Reading
use codal_microbit_v2_fft.Base.{
  ℕ, zero, suc, ◌+◌, ◌-◌, ◌%◌, Bool, false, Option, none, some, List, [], ◌∷◌, ◌++◌, Code, Reply,
  value, error, length, ltb, ◌==◌, if◌then◌else◌,
}
use codal_microbit_v2_fft.Base.{Code}
use codal_microbit_v2_fft.Uart.Ring.{
  Ring, has_space, put, is_readable, peek, advance_tail, buffered_size,
}

-- The events that the receiving side raises.
pub data Event : Type 0 where
  delim_match head_match rx_full : Event

pub data Mode : Type 0 where
  async sync_spinwait sync_sleep : Mode

-- `match_at` is `rxBuffHeadMatch`, with `none` for -1.
pub record Rx : Type 0 where
  pub ring : Ring
  pub match_at : Option ℕ
  pub delimiters : List ℕ
  pub events : List Event

unfoldable pub raise : Rx → Event → Rx
raise s e = record s { events = s.events ++ (e ∷ []) }

-- The `while (delimeterOffset < delimLength)` loop: one event for each delimiter that matches.
unfoldable pub raise_matches : Rx → ℕ → List ℕ → Rx
raise_matches s c [] = s
raise_matches s c (d ∷ ds) = raise_matches (if d == c then raise s delim_match else s) c ds

abbrev is_at : ℕ → Option ℕ → Bool
is_at i none = false
is_at i (some k) = i == k

-- `if (rxBufferHead == rxBuffHeadMatch)` and its body
unfoldable pub notify_head : Rx → Rx
notify_head s =
    if is_at s.ring.head s.match_at then raise (record s { match_at = none }) head_match else s

-- `rxBuffer[rxBufferHead] = c; rxBufferHead = newHead;`
unfoldable pub store : Rx → ℕ → Rx
store s c = record s { ring = put s.ring c }

-- The body of the loop of `onDataWritten`.
unfoldable pub on_byte : Rx → ℕ → Rx
on_byte s c =
    if has_space s.ring
    then notify_head (store (raise_matches s c s.delimiters) c)
    else raise s rx_full

-- `onDataWritten`, for a write to the RX characteristic.
unfoldable pub on_data_written : Rx → List ℕ → Rx
on_data_written s [] = s
on_data_written s (c ∷ cs) = on_data_written (on_byte s c) cs

-- What happens while a fiber sleeps.
unfoldable pub asleep : Rx → List (List ℕ) → Rx
asleep s [] = s
asleep s (w ∷ ws) = asleep (on_data_written s w) ws

-- `eventAfter`, its wait excepted
unfoldable pub event_after : Rx → ℕ → Rx
event_after s len = record s { match_at = some ((s.ring.head + len) % s.ring.size) }

-- `eventOn`, its wait excepted
unfoldable pub event_on : Rx → List ℕ → Rx
event_on s ds = record s { delimiters = ds }

-- The end of `getc`: `c = rxBuffer[rxBufferTail]` and the move of the tail.
pub take_byte : Rx → ℕ × Rx
take_byte s = (peek s.ring, record s { ring = advance_tail s.ring })

-- `getc`
pub getc : Rx → Mode → List (List ℕ) → Reply ℕ × Rx
getc s sync_spinwait writes = (error Code.invalid_parameter, s)
getc s async writes =
    if is_readable s.ring
    then (let (c, s') = take_byte s in (value c, s'))
    else (error Code.no_data, s)
getc s sync_sleep writes =
    let (c, s') = take_byte (if is_readable s.ring then s else asleep (event_after s 1) writes) in
    (value c, s')

abbrev stop_or : Reply ℕ → List ℕ × Rx → Rx → List ℕ × Rx
stop_or (value c) (cs, t) s = (c ∷ cs, t)
stop_or (error e) rest s = ([], s)

-- The loop of `read` in mode ASYNC, with `len - i` rounds left; it stops at the first error.
pub read_async : Rx → ℕ → List ℕ × Rx
read_async s zero = ([], s)
read_async s (suc left) =
    let (reply, s') = getc s async [] in let rest = read_async s' left in stop_or reply rest s'

abbrev byte_of : Reply ℕ → ℕ
byte_of (value c) = c
byte_of (error e) = 0

-- The loop of `read` in mode SYNC_SLEEP. `writes i` is what arrives in the `i`-th sleep.
pub read_sleep : Rx → (ℕ → List (List ℕ)) → ℕ → ℕ → List ℕ × Rx
read_sleep s writes i zero = ([], s)
read_sleep s writes i (suc left) =
    let (reply, s') = getc s sync_sleep (writes i) in
    let (cs, t) = read_sleep s' writes (i + 1) left in (byte_of reply ∷ cs, t)

-- The wait of `read` for more bytes than are buffered.
pub await_bytes : Rx → ℕ → List (List ℕ) → Rx
await_bytes s len writes =
    if ltb (buffered_size s.ring) len
    then asleep (event_after s (len - buffered_size s.ring)) writes
    else s

-- `read`: the reply is the number of bytes, and the list is what was stored into `buf`.
pub read : Rx → ℕ → Mode → (ℕ → List (List ℕ)) → Reply ℕ × List ℕ × Rx
read s len sync_spinwait writes = (error Code.invalid_parameter, [], s)
read s len async writes = let (cs, t) = read_async s len in (value (length cs), cs, t)
read s len sync_sleep writes =
    let (cs, t) = read_sleep (await_bytes s len (writes 0)) writes 1 len in
    (value (length cs), cs, t)
