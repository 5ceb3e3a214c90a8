-- ===== src/Uart/Tx.antt =====
-- The sending side of source/bluetooth/MicroBitUARTService.cpp: `send`, `sendNext`,
-- `onConfirmation` and `onDisconnect`. Whether a device is connected and has enabled indications is
-- state of the BLE stack, held here beside the buffer. While `send` sleeps (SYNC_SLEEP) the
-- scheduler runs callbacks, which are an argument: a list of them for each sleep.
pub mod Stream
pub mod Fill
pub mod Sending
pub mod Sleeping
pub mod Progress
use codal_microbit_v2_fft.Base.{
  ℕ, zero, suc, ◌+◌, ◌%◌, Bool, true, false, ◌&&◌, Option, none, some, List, [], ◌∷◌, ◌++◌, Code,
  Reply, value, error, Bytes, update, slice, ◌==◌, ◌!=◌, if◌then◌else◌,
}
use codal_microbit_v2_fft.Uart.Ring.{Ring, u8, next_index, has_space, put}
use codal_microbit_v2_fft.Uart.Rx.{Mode, async, sync_spinwait, sync_sleep}

-- MICROBIT_UART_S_ATTRSIZE
abbrev pub attr_size : ℕ
attr_size = 20

-- `attribute` is the value of the TX characteristic and `value_size` is `txValueSize`. `indicated`
-- lists what was passed to `indicateChrValue`, oldest first; `empty_events` counts the TX_EMPTY
-- events.
pub record Tx : Type 0 where
  pub ring : Ring
  pub attribute : Bytes
  pub value_size : ℕ
  pub waiting_for_empty : Bool
  pub connected : Bool
  pub indications_enabled : Bool
  pub indicated : List (List ℕ)
  pub empty_events : ℕ

abbrev pub is_linked : Tx → Bool
is_linked s = s.connected && s.indications_enabled

-- The loop of `sendNext`: it copies from the cell `next` on, until the attribute is full or the
-- head is reached. The first argument is the number of rounds that the attribute has room for.
unfoldable pub copy_value : ℕ → Ring → Bytes → ℕ → ℕ → Bytes × ℕ
copy_value zero r attr n next = (attr, n)
copy_value (suc fuel) r attr n next =
    let rest = copy_value fuel r (update attr n (r.buffer next)) (n + 1) (next_index r.size next) in
    if next == r.head then (attr, n) else rest

-- `sendNext`
unfoldable pub send_next : Tx → Bool × Tx
send_next s =
    if s.value_size != 0
    then (false, s)
    else if s.ring.tail == s.ring.head
    then (false, s)
    else if is_linked s
    then (let (attr, n) = copy_value attr_size s.ring s.attribute 0 s.ring.tail in
        (
          true,
          record s {
            attribute = attr;
            value_size = n;
            indicated = s.indicated ++ (slice attr 0 n ∷ []);
          },
        ))
    else (false, s)

-- The loop of `send` that adds what fits: the ring, the bytes left over, and `bytesWritten`.
unfoldable pub fill : Ring → List ℕ → ℕ → Ring × List ℕ × ℕ
fill r [] n = (r, [], n)
fill r (c ∷ cs) n =
    let rest = fill (put r c) cs (n + 1) in if has_space r then rest else (r, c ∷ cs, n)

-- `onConfirmation`, for the TX characteristic
unfoldable pub on_confirmation : Tx → Tx
on_confirmation s =
    let r = s.ring in
    let s' : Tx = record s {
      ring = record r { tail = u8 ((r.tail + s.value_size) % r.size) };
      value_size = 0;
      empty_events = s.empty_events + 1;
    } in
    if s.waiting_for_empty then s' else (send_next s').1

-- `onDisconnect`
unfoldable pub on_disconnect : Tx → Tx
on_disconnect s =
    let r = s.ring in
    let s' : Tx = record s { ring = record r { head = 0; tail = 0 }; value_size = 0 } in
    if s.waiting_for_empty then record s' { empty_events = s.empty_events + 1 } else s'

-- What the BLE stack may do while a fiber sleeps.
pub data Callback : Type 0 where
  confirmed : Callback
  disconnected : Callback
  indications_off : Callback

unfoldable pub on_callback : Tx → Callback → Tx
on_callback s confirmed = on_confirmation s
on_callback s disconnected = on_disconnect (record s { connected = false })
on_callback s indications_off = record s { indications_enabled = false }

unfoldable pub on_callbacks : Tx → List Callback → Tx
on_callbacks s [] = s
on_callbacks s (c ∷ cs) = on_callbacks (on_callback s c) cs

-- `waitingForEmpty = true; … sendNext(); schedule(); waitingForEmpty = false;`
unfoldable pub sleep : Tx → List Callback → Tx
sleep s cs = record (on_callbacks (send_next (record s { waiting_for_empty = true })).1 cs) {
  waiting_for_empty = false;
}

-- `bytesWritten == length && txBufferTail == txBufferHead`
unfoldable pub all_sent : List ℕ → Tx → Bool
all_sent [] s = s.ring.tail == s.ring.head
all_sent (c ∷ cs) s = false

-- The loop of `send` in mode SYNC_SLEEP, with one list of callbacks for each sleep. `none` means
-- that the fiber still sleeps when the lists run out.
unfoldable pub send_sleep : Tx → List ℕ → ℕ → List (List Callback) → Option (ℕ × Tx)
send_sleep s buf n [] = if is_linked s then none else some (n, s)
send_sleep s buf n (w ∷ ws) =
    let (r, left, k) = fill s.ring buf n in
    let s' = sleep (record s { ring = r }) w in
    let rest = send_sleep s' left k ws in
    if is_linked s then (if all_sent left s' then some (k, s') else rest) else some (n, s)

-- The body of the loop of `send` in mode ASYNC, which is left after one round.
pub send_async : Tx → List ℕ → ℕ × Tx
send_async s buf =
    let (r, left, k) = fill s.ring buf 0 in (k, (send_next (record s { ring = r })).1)

abbrev done : Option (ℕ × Tx) → Option (Reply ℕ × Tx)
done none = none
done (some (n, s)) = some (value n, s)

-- `send`, once its arguments are accepted
pub send_mode : Tx → List ℕ → Mode → List (List Callback) → Option (Reply ℕ × Tx)
send_mode s buf sync_spinwait ws = some (error Code.invalid_parameter, s)
send_mode s buf async ws = let (n, t) = send_async s buf in some (value n, t)
send_mode s buf sync_sleep ws = done (send_sleep s buf 0 ws)

abbrev is_spinwait : Mode → Bool
is_spinwait sync_spinwait = true
is_spinwait async = false
is_spinwait sync_sleep = false

abbrev is_empty : List ℕ → Bool
is_empty [] = true
is_empty (c ∷ cs) = false

-- `send`; `buf` is the `length` bytes to send.
pub send : Tx → List ℕ → Mode → List (List Callback) → Option (Reply ℕ × Tx)
send s buf mode ws =
    if is_empty buf
    then some (error Code.invalid_parameter, s)
    else if is_spinwait mode
    then some (error Code.invalid_parameter, s)
    else if is_linked s
    then send_mode s buf mode ws
    else some (error Code.not_supported, s)
