-- ===== src/PartialFlashing/Finishing.antt =====
-- The end of a transmission in source/bluetooth/MicroBitPartialFlashingService.cpp: the bootloader's
-- settings and the restart.
use codal_microbit_v2_fft.Base.{ℕ, ◌+◌, ◌<◌, ◌≡◌}
use codal_microbit_v2_fft.Nvm.{Nvm}
use codal_microbit_v2_fft.PartialFlashing.Events.{Board}

module _ (nvm : Nvm) where
  open nvm use {Mem, byte, write, erase, page_size, byte-write, byte-erase}

  module _ (board : Board) where
    -- A page at `a` has the settings.
    abbrev pub HasSettings : Mem → ℕ → Type 0
    HasSettings m a = (i : ℕ) → i < board.settings_size → byte m (a + i) ≡ board.settings i
