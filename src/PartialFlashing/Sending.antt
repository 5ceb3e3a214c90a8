-- ===== src/PartialFlashing/Sending.antt =====
-- A whole program sent to the service of source/bluetooth/MicroBitPartialFlashingService.cpp: a
-- client asks for a region, which sets the counts to 0, and sends the blocks.
use codal_microbit_v2_fft.Base.{ℕ, Option, some, Bytes, ◌==◌, if◌then◌else◌}
use codal_microbit_v2_fft.Nvm.{Nvm}
use codal_microbit_v2_fft.FileSystem.{◌>>=◌}
use codal_microbit_v2_fft.MemoryMap.{MemoryMap, Layout}
use codal_microbit_v2_fft.PartialFlashing.{region_info, Service, on_data_written}
use codal_microbit_v2_fft.PartialFlashing.Events.{KeyStore, Board}
use codal_microbit_v2_fft.PartialFlashing.Program.{send_blocks}

-- The packet that asks for a region.
abbrev pub region_packet : ℕ → Bytes
region_packet id i = if i == 0 then region_info else if i == 1 then id else 0

module _ (nvm : Nvm) (layout : Layout) (store : KeyStore) (board : Board) (crc : Bytes → ℕ → ℕ)
    (mode : ℕ) where
  open nvm use {Mem, byte, page_size}
  open store use {Keys, has}

  -- A program of `blocks` blocks for address `start`.
  abbrev pub send_program :
      Service Mem Keys → ℕ → ℕ → ℕ → Bytes → Option (Service Mem Keys × Service Mem Keys)
  send_program s id start blocks d = do
    t ← on_data_written nvm layout crc mode s (region_packet id) 2
    u ← send_blocks nvm layout store board crc mode blocks t start 0 d
    some (t, u)
