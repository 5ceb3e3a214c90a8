-- ===== src/Packet.antt =====
-- source/PacketBuffer.cpp: buffers that share their bytes. A PacketBuffer is a pointer to a PacketData,
-- here a number; copies hold the same pointer. The counting of references and the release of memory
-- are RefCounted's, of codal-core, and are left out: a PacketData stays in the store.
pub mod Sharing
mod Tests
use codal_microbit_v2_fft.Base.{
  ℕ, zero, suc, ◌+◌, ◌%◌, ◌^◌, Bool, true, Option, none, some, ◌&&◌, ◌||◌, Code, Reply, value,
  error, Bytes, update, memcpy, ltb, ◌==◌, if◌then◌else◌,
}

-- `PacketData`
pub record PacketData : Type 0 where
  pub rssi : ℕ
  pub len : ℕ
  pub payload : Bytes

-- The memory: what each pointer in use points to, and the pointer that `malloc` returns next.
pub record Store : Type 0 where
  pub at : ℕ → PacketData
  pub next : ℕ

-- The payload of a new buffer, where `malloc` returns `memory` and `given` is the data if there is any
abbrev pub first_payload : Bytes → Option Bytes → ℕ → Bytes
first_payload memory none n = memory
first_payload memory (some bytes) n = memcpy memory 0 bytes n

-- `init`, which stores `length` as a `uint8_t`. The signal strength is in -dBm.
pub init : Store → Bytes → Option Bytes → ℕ → ℕ → ℕ × Store
init s memory given length rssi =
    let p : PacketData = record {
      rssi = rssi;
      len = length % 2 ^ 8;
      payload = first_payload memory given length;
    } in
    (s.next, record { at = update s.at s.next p; next = s.next + 1 })

-- `setRSSI`
pub set_rssi : Store → ℕ → ℕ → Store
set_rssi s p rssi = record s { at = update s.at p (record (s.at p) { rssi = rssi }) }

-- `operator []`, to read and to modify, where the index is not negative; it tests no bounds.
pub at_index : Store → ℕ → ℕ → ℕ
at_index s p i = (s.at p).payload i

pub set_at_index : Store → ℕ → ℕ → ℕ → Store
set_at_index s p i v =
    let d = s.at p in record s { at = update s.at p (record d { payload = update d.payload i v }) }

-- `setByte`, at a position that is not negative
pub set_byte : Store → ℕ → ℕ → ℕ → Code × Store
set_byte s p position v =
    let d = s.at p in
    if ltb position d.len
    then (
      Code.ok,
      record s { at = update s.at p (record d { payload = update d.payload position v }) },
    )
    else (Code.invalid_parameter, s)

-- `getByte`
pub get_byte : Store → ℕ → ℕ → Reply ℕ
get_byte s p position =
    let d = s.at p in
    if ltb position d.len then value (d.payload position) else error Code.invalid_parameter

-- `memcmp(…) == 0`, for `left` bytes from `i` on
pub same_bytes : Bytes → Bytes → ℕ → ℕ → Bool
same_bytes a b zero i = true
same_bytes a b (suc left) i = a i == b i && same_bytes a b left (i + 1)

-- `operator ==`
pub equals : Store → ℕ → ℕ → Bool
equals s p q =
    let d = s.at p in
    let e = s.at q in p == q || (d.len == e.len && same_bytes d.payload e.payload d.len 0)
