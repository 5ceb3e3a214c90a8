-- ===== src/Uart/Ring.antt =====
-- The circular buffers of source/bluetooth/MicroBitUARTService.cpp. A ring of `size` cells holds at
-- most `size - 1` bytes: `head` is the next cell to write, `tail` the next to read, and they are
-- equal when it is empty. Indices are `uint8_t`, so a store wraps at 2 ^ 8.
pub mod Window
use codal_microbit_v2_fft.Base.{
  ℕ, zero, suc, ◌+◌, ◌-◌, ◌%◌, ◌^◌, ◌<◌, Bool, List, [], ◌∷◌, Bytes, update, ltb, ◌!=◌,
  if◌then◌else◌,
}

pub record Ring : Type 0 where
  pub buffer : Bytes
  pub size : ℕ
  pub head : ℕ
  pub tail : ℕ

-- A store to a `uint8_t`.
abbrev pub u8 : ℕ → ℕ
u8 n = n % 2 ^ 8

-- The buffer that the constructor makes for a capacity of `n` bytes: `rxBufferSize += 1` and
-- `txBufferSize += 1` are on a `uint8_t`.
pub init : ℕ → Ring
init n = record { buffer = λ _. 0; size = u8 (n + 1); head = 0; tail = 0 }

-- `(index + 1) % size`, computed in `int`
abbrev pub next_index : ℕ → ℕ → ℕ
next_index size i = (i + 1) % size

-- `newHead != tail`
unfoldable pub has_space : Ring → Bool
has_space r = next_index r.size r.head != r.tail

-- `buffer[head] = c; head = newHead;`
unfoldable pub put : Ring → ℕ → Ring
put r c = record r { buffer = update r.buffer r.head c; head = u8 (next_index r.size r.head) }

-- `tail != head`
pub is_readable : Ring → Bool
is_readable r = r.tail != r.head

-- `c = buffer[tail]; tail = (tail + 1) % size;`
pub peek : Ring → ℕ
peek r = r.buffer r.tail

pub advance_tail : Ring → Ring
advance_tail r = record r { tail = u8 (next_index r.size r.tail) }

-- `rxBufferedSize` and `txBufferedSize`. The subtractions are done in `int` and do not go below 0:
-- each is under the test that orders its operands, and `tail` is below `size`.
unfoldable pub buffered_size : Ring → ℕ
buffered_size r = if ltb r.head r.tail then r.size - r.tail + r.head else r.head - r.tail

pub record IsValid (r : Ring) : Type 0 where
  pub fits_u8 : r.size < 2 ^ 8
  pub head_in : r.head < r.size
  pub tail_in : r.tail < r.size

-- The `n` bytes from cell `i` on, going round at `size`.
abbrev pub window : Bytes → ℕ → ℕ → ℕ → List ℕ
window buf size i zero = []
window buf size i (suc n) = buf i ∷ window buf size (next_index size i) n

-- The bytes that the ring holds, oldest first.
abbrev pub contents : Ring → List ℕ
contents r = window r.buffer r.size r.tail (buffered_size r)
