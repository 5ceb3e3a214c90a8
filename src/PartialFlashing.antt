-- ===== src/PartialFlashing.antt =====
-- The BLE service that writes a new program to flash in blocks of four packets,
-- source/bluetooth/MicroBitPartialFlashingService.cpp. A call of a callback takes the state and
-- returns the new one. What the service asks of others is a list, in the order in which it does.
pub mod Packets
pub mod Events
pub mod Writing
pub mod Transfer
pub mod Program
pub mod Sending
pub mod Finishing
mod Tests
use codal_microbit_v2_fft.Base.{
  ℕ, ◌+◌, ◌-◌, ◌*◌, ◌/◌, ◌%◌, ◌^◌, Bool, ◌&&◌, not, Option, none, some, List, [], ◌∷◌, ◌++◌, Bytes,
  memcpy, advance, slice, ltb, ◌==◌, ◌!=◌, if◌then◌else◌, bit_or,
}
use codal_microbit_v2_fft.Nvm.{Nvm}
use codal_microbit_v2_fft.MemoryMap.{Region, MemoryMap, Layout, memory_map_init}

-- REGION_INFO, FLASH_DATA, END_OF_TRANSMISSION, MICROBIT_STATUS, MICROBIT_RESET,
-- PARTIAL_FLASHING_VERSION, MICROBIT_MODE_PAIRING, MICROBIT_MODE_APPLICATION and REGION_PYTHON
abbrev pub region_info : ℕ
region_info = 0

abbrev pub flash_data_code : ℕ
flash_data_code = 1

abbrev pub end_of_transmission : ℕ
end_of_transmission = 2

abbrev pub microbit_status : ℕ
microbit_status = 0xEE

abbrev pub microbit_reset : ℕ
microbit_reset = 0xFF

abbrev pub partial_flashing_version : ℕ
partial_flashing_version = 1

abbrev pub mode_pairing : ℕ
mode_pairing = 0

abbrev pub mode_application : ℕ
mode_application = 1

abbrev pub region_python : ℕ
region_python = 3

-- `notifyChrValue`, an event of the service put on the message bus, `microbit_reset`,
-- `restartInBLEMode` and `eraseUserStorage(true)`
pub data Effect : Type 0 where
  notified : List ℕ → Effect
  fired : ℕ → Effect
  was_reset restarted_in_ble user_storage_erased : Effect

-- The members, `micropython_fs_start` and `micropython_fs_end`, the flash and the storage; `block` is
-- its 64 bytes.
pub record Service (Mem Keys : Type 0) : Type 0 where
  pub mem : Mem
  pub keys : Keys
  pub packet_count : ℕ
  pub block_packet_count : ℕ
  pub block : Bytes
  pub block_num : ℕ
  pub offset : ℕ
  pub fs_start : ℕ
  pub fs_end : ℕ
  pub effects : List Effect

-- The next things that are asked.
abbrev pub also {ℓ} : {A : Type ℓ} → List A → A → List A
also es e = es ++ (e ∷ [])

-- The four bytes of an address, the highest first.
abbrev pub big_endian : ℕ → List ℕ
big_endian a = a / 2 ^ 24 % 256 ∷ a / 2 ^ 16 % 256 ∷ a / 2 ^ 8 % 256 ∷ a % 256 ∷ []

-- `buffer` of REGION_INFO
abbrev pub region_reply : ℕ → Region → List ℕ
region_reply id r =
    0 ∷ id ∷ (big_endian r.start_address ++ (big_endian r.end_address ++ slice r.hash 0 8))

-- A packet that was sent with a block before.
abbrev pub is_previous : ℕ → ℕ → Bool
is_previous num count = if ltb num count then ltb (count - num) 8 else ltb 248 (num - count)

module _ {Mem Keys : Type 0} where
  -- `flashData`
  unfoldable pub flash_data : Service Mem Keys → Bytes → Service Mem Keys
  flash_data s packet =
      let restart = (s.block_packet_count + 4) % 256 in
      let t = record s {
        packet_count = (s.packet_count + 1) % 256;
        block = memcpy s.block (16 * s.block_num) (advance packet 4) 16;
      } in
      if packet 3 != s.packet_count
      then (if is_previous (packet 3) s.packet_count then s else record s {
        effects = also s.effects (notified (flash_data_code ∷ 0xAA ∷ []));
        block_packet_count = restart;
        packet_count = restart;
        block_num = 0;
      })
      else if s.block_num == 0
      then record t { offset = bit_or (packet 1 * 2 ^ 8) (packet 2); block_num = 1 }
      else if s.block_num == 1
      then record t {
        offset = bit_or (bit_or (packet 1 * 2 ^ 24) (packet 2 * 2 ^ 16)) s.offset;
        block_num = 2;
      }
      else if s.block_num == 3
      then record t {
        effects = also s.effects (fired flash_data_code);
        block_num = 0;
        block_packet_count = restart;
      }
      else record t { block_num = (s.block_num + 1) % 256 }

  -- The part of REGION_INFO after the map has been made.
  unfoldable pub tell_region : Service Mem Keys → MemoryMap → ℕ → Service Mem Keys
  tell_region s map id =
      let python = map.memory_map 2 in
      let learns =
        s.fs_end == 0 && python.start_address != 0 && python.region_id == region_python in
      record s {
        fs_start = if learns then python.start_address else s.fs_start;
        fs_end = if learns then python.end_address else s.fs_end;
        effects = also s.effects (notified (region_reply id (map.memory_map id)));
        packet_count = 0;
        block_packet_count = 0;
        block_num = 0;
        offset = 0;
      }

module _ (nvm : Nvm) (layout : Layout) {Keys : Type 0} where
  open nvm use {Mem, byte}

  -- `onDataWritten` with a value for the characteristic; `crc` is `crc32_compute` and `mode` the
  -- current mode of the BLE manager.
  unfoldable pub on_data_written :
      (Bytes → ℕ → ℕ) → ℕ → Service Mem Keys → Bytes → ℕ → Option (Service Mem Keys)
  on_data_written crc mode s packet len =
      let tell : Effect → Service Mem Keys = λ e. record s { effects = also s.effects e } in
      if len == 0
      then some s
      else if packet 0 == region_info
      then elim (memory_map_init layout (byte s.mem) crc) [
        | none ↦ none
        | some map ↦ some (tell_region s map (packet 1))
      ]
      else some (
          if packet 0 == flash_data_code
          then flash_data s packet
          else if packet 0 == end_of_transmission
          then tell (fired end_of_transmission)
          else if packet 0 == microbit_status
          then tell (notified (microbit_status ∷ partial_flashing_version ∷ mode ∷ []))
          else if not (packet 0 == microbit_reset)
          then s
          else if packet 1 == mode_pairing
          then tell (fired microbit_reset)
          else if packet 1 == mode_application
          then tell was_reset
          else s)
