-- ===== src/Uart/Tests.antt =====
-- Runs of the model of source/bluetooth/MicroBitUARTService.cpp, and instances of its theorems.
use mathlib.Core.List.{flatten}
use codal_microbit_v2_fft.Base.{
  ℕ, ◌-◌, ◌≡◌, refl, false, true, none, some, List, [], ◌∷◌, length, take, replicate, of_list,
  arith, value, Option, if◌then◌else◌, ◌==◌,
}
use codal_microbit_v2_fft.Uart.Ring.{Ring, init, has_space, put, buffered_size, IsValid, contents}
use codal_microbit_v2_fft.Uart.Ring.Window.{init-IsValid}
use codal_microbit_v2_fft.Uart.Rx.{
  Rx, delim_match, head_match, rx_full, async, sync_sleep, on_data_written, on_byte, raise,
  raise_matches, notify_head, store, getc, read,
}
use codal_microbit_v2_fft.Uart.Rx.Receive.{Received, on_data_written-Received}
use codal_microbit_v2_fft.Uart.Rx.Reading.{pop, arriving, getc-pop, read-sleep}
use codal_microbit_v2_fft.Uart.Until.{read_until, await_delimiter, is_delimiter}
use codal_microbit_v2_fft.Uart.Until.Lines.{first_index, split_line, read_until-split_line}
use codal_microbit_v2_fft.Uart.Until.Waiting.{Answers, read_until-sleep}
use codal_microbit_v2_fft.Uart.Tx.{
  Tx, Callback, send_next, on_confirmation, send_sleep, on_callbacks, on_callback, sleep, fill,
  copy_value, all_sent,
}
use codal_microbit_v2_fft.Uart.Tx.Stream.{IsSound}
use codal_microbit_v2_fft.Uart.Tx.Sleeping.{Ended, send_sleep-Ended}
use codal_microbit_v2_fft.Uart.Tx.Progress.{one_confirmation, send_sleep-returns}

-- Three bytes held of the three that fit: 8, 9 and, round the end, 10.
abbrev full_ring : Ring
full_ring = record { buffer = of_list (10 ∷ 7 ∷ 8 ∷ 9 ∷ []); size = 4; head = 1; tail = 2 }

full_ring-IsValid : IsValid full_ring
full_ring-IsValid = record { fits_u8 = omega arith; head_in = omega arith; tail_in = omega arith }

contents-full_ring : contents full_ring ≡ 8 ∷ 9 ∷ 10 ∷ []
unfolding buffered_size
contents-full_ring = refl

-- The same with one byte held.
abbrev some_ring : Ring
some_ring = record { buffer = of_list (10 ∷ 7 ∷ 8 ∷ 9 ∷ []); size = 4; head = 3; tail = 2 }

some_ring-IsValid : IsValid some_ring
some_ring-IsValid = record { fits_u8 = omega arith; head_in = omega arith; tail_in = omega arith }

abbrev some_rx : Rx
some_rx = record { ring = some_ring; match_at = some 1; delimiters = 13 ∷ []; events = [] }

abbrev full_rx : Rx
full_rx = record { ring = full_ring; match_at = none; delimiters = []; events = [] }

-- Two bytes fit and the second of them reaches the cell waited for; the third is dropped.
on_data_written_test :
    (on_data_written some_rx (13 ∷ 5 ∷ 6 ∷ [])).events ≡ delim_match ∷ head_match ∷ rx_full ∷ []
unfolding on_data_written on_byte has_space raise raise_matches notify_head store put
on_data_written_test = refl

one_held : buffered_size some_ring ≡ 1
unfolding buffered_size
one_held = refl

starts_empty : contents (init 20) ≡ []
starts_empty = (init-IsValid 20 (omega arith)).1

on_data_written-Received_example :
    Received some_rx (13 ∷ 5 ∷ 6 ∷ []) (on_data_written some_rx (13 ∷ 5 ∷ 6 ∷ []))
on_data_written-Received_example =
    on_data_written-Received some_rx (13 ∷ 5 ∷ 6 ∷ []) some_ring-IsValid

getc-pop_example :
    let (reply, t) = getc full_rx async [] in
    ((reply, contents t.ring) ≡ pop (contents full_ring)) × IsValid t.ring
getc-pop_example = getc-pop full_rx [] full_ring-IsValid

abbrev two_writes : List (List ℕ)
two_writes = (4 ∷ []) ∷ (5 ∷ 6 ∷ []) ∷ []

enough : 3 ≡ length (arriving some_rx two_writes)
unfolding buffered_size flatten
enough = refl

read-sleep_example :
    let (reply, cs, t) = read some_rx 3 sync_sleep (λ _. two_writes) in
    (reply ≡ value 3) × (cs ≡ take 3 (arriving some_rx two_writes)) × IsValid t.ring
read-sleep_example =
    read-sleep some_rx 3 (λ _. two_writes) some_ring-IsValid (omega (arith, enough))

read_until-split_line_example :
    let (reply, t) = read_until full_rx (9 ∷ 3 ∷ []) async [] in
    ((reply, contents t.ring) ≡ split_line (9 ∷ 3 ∷ []) (contents full_ring)) × IsValid t.ring
read_until-split_line_example = read_until-split_line full_rx (9 ∷ 3 ∷ []) [] full_ring-IsValid

split_line_test : split_line (9 ∷ 3 ∷ []) (contents full_ring) ≡ (value (8 ∷ []), 10 ∷ [])
unfolding buffered_size is_delimiter
split_line_test = refl

no_line : first_index (5 ∷ []) (contents some_ring) ≡ none
unfolding buffered_size is_delimiter
no_line = refl

-- The delimiter 5 arrives with a byte after it; the head comes round to cell 1.
read_until-sleep_example :
    let out = read_until some_rx (5 ∷ []) sync_sleep two_writes in
    let held = arriving some_rx two_writes in
    let woken = await_delimiter some_rx (5 ∷ []) two_writes in
    if woken.ring.head == 0
    then Answers out [] held
    else Answers out (take (length held - 1) held) []
read_until-sleep_example =
    read_until-sleep some_rx (5 ∷ []) two_writes some_ring-IsValid no_line (omega (arith, enough))

-- A device that listens, three bytes held, none of them indicated yet.
abbrev linked_tx : Tx
linked_tx = record {
  ring = full_ring;
  attribute = λ _. 0;
  value_size = 0;
  waiting_for_empty = false;
  connected = true;
  indications_enabled = true;
  indicated = [];
  empty_events = 0;
}

linked_tx-IsSound : IsSound linked_tx
linked_tx-IsSound = record { ring_valid = full_ring-IsValid; in_flight = omega arith }

-- The first byte is out and not confirmed.
abbrev busy_tx : Tx
busy_tx = record linked_tx { value_size = 1; indicated = (8 ∷ []) ∷ [] }

busy_tx-IsSound : IsSound busy_tx
unfolding buffered_size
busy_tx-IsSound = record { ring_valid = full_ring-IsValid; in_flight = ground arith }

abbrev some_tx : Tx
some_tx = record linked_tx { ring = some_ring }

some_tx-IsSound : IsSound some_tx
some_tx-IsSound = record { ring_valid = some_ring-IsValid; in_flight = omega arith }

abbrev two_sleeps : List (List Callback)
two_sleeps = (Callback.confirmed ∷ []) ∷ (Callback.confirmed ∷ []) ∷ (Callback.confirmed ∷ []) ∷ []

-- Where the call of `send` ends.
abbrev returned : Option (ℕ × Tx) → ℕ × Tx
returned (some out) = out
returned none = (0, some_tx)

sends_three :
    send_sleep some_tx (1 ∷ 2 ∷ 3 ∷ []) 0 two_sleeps
    ≡ some (returned (send_sleep some_tx (1 ∷ 2 ∷ 3 ∷ []) 0 two_sleeps))
unfolding send_sleep sleep on_callbacks on_callback on_confirmation send_next fill copy_value
    all_sent has_space put
sends_three = refl

send_sleep-Ended_example :
    Ended some_tx (1 ∷ 2 ∷ 3 ∷ []) 0 (returned (send_sleep some_tx (1 ∷ 2 ∷ 3 ∷ []) 0 two_sleeps))
send_sleep-Ended_example =
    send_sleep-Ended some_tx (1 ∷ 2 ∷ 3 ∷ []) two_sleeps
      (returned (send_sleep some_tx (1 ∷ 2 ∷ 3 ∷ []) 0 two_sleeps)) some_tx-IsSound
      (tt, (tt, (tt, tt))) sends_three

send_sleep-returns_example :
    (out : ℕ × Tx) × (send_sleep some_tx (1 ∷ 2 ∷ 3 ∷ []) 0 (replicate 5 one_confirmation)
      ≡ some out)
send_sleep-returns_example =
    send_sleep-returns 5 some_tx (1 ∷ 2 ∷ 3 ∷ []) 0 some_tx-IsSound refl (omega arith)
      (omega (arith, one_held))
