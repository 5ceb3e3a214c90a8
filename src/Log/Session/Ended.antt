-- ===== src/Log/Session/Ended.antt =====
-- What endRow of source/MicroBitLog.cpp leaves, with the headings in flash.
use codal_microbit_v2_fft.Base.{ℕ, ◌≡◌, ◌⊎◌, true, false, List, Code}
use codal_microbit_v2_fft.Nvm.{Nvm}
use codal_microbit_v2_fft.FsCache.{Geometry}
use codal_microbit_v2_fft.Log.{Row, log_data}
use codal_microbit_v2_fft.Log.Storage.{LogFile}
use codal_microbit_v2_fft.Log.Storage.Rounds.{IsFlash}
use codal_microbit_v2_fft.Log.Session.Ending.{Idle}
use codal_microbit_v2_fft.Log.Session.Headings.{HasLine}

module _ (nvm : Nvm) (g : Geometry) (flash : IsFlash nvm g) where
  open nvm use {Mem, flash_end}

  -- A row as it was, or with the time stamp in the column `heading`
  abbrev pub IsRowOf : LogFile Mem → List ℕ → Row → Type 0
  IsRowOf s heading t = (t ≡ s.row) ⊎ ((stamp : List ℕ) × (t ≡ log_data s.row heading stamp))

  -- What `endRow` is to leave: an error where no row was begun, else the row ended and its headings
  -- in flash.
  pub IsEnded : LogFile Mem → List ℕ → Code × LogFile Mem → Type 0
  IsEnded s heading r =
      ((s.row_started ≡ false) × (r ≡ (Code.invalid_state, s)))
      ⊎ ((s.row_started ≡ true)
          × Idle nvm g s r
          × ((t : Row) × IsRowOf s heading t × HasLine nvm g flash s t r.1))
