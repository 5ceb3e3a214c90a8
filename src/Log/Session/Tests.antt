-- ===== src/Log/Session/Tests.antt =====
-- Instances of the theorems on the storage of the log in source/MicroBitLog.cpp.
use codal_microbit_v2_fft.Base.{ℕ, ◌+◌, ◌%◌, ◌≡◌, refl, arith, true, false, List, [], ◌∷◌}
use codal_microbit_v2_fft.Nvm.{Nvm, flash_model}
use codal_microbit_v2_fft.FsCache.{Geometry, clear}
use codal_microbit_v2_fft.FsCache.Coherent.{clear-IsCoherent}
use codal_microbit_v2_fft.FsCache.Access.Ahead.{clear-AreBelow}
use codal_microbit_v2_fft.Log.{Row}
use codal_microbit_v2_fft.Log.Storage.{LogFile, write_digits, write_num, log_string}
use codal_microbit_v2_fft.Log.Storage.Bounds.{IsLog}
use codal_microbit_v2_fft.Log.Storage.Rounds.{IsFlash, IsBlank}
use codal_microbit_v2_fft.Log.Storage.Written.{written_text, IsStored, log_string-IsStored}
use codal_microbit_v2_fft.Log.Setup.Metadata.{are_ascii-AreBytes}

abbrev board : Nvm
board = flash_model 8

abbrev blocks : Geometry
blocks = record { block_size = 256; cache_size = 4 }

-- One column, "a", with the value "1".
abbrev one_column : Row
one_column = record {
  columns = record { key = 97 ∷ []; value = 49 ∷ [] } ∷ [];
  headings_changed = true;
}

abbrev open_log : LogFile (ℕ → ℕ)
open_log = record {
  mem = λ _. 255;
  cache = clear;
  row_started = true;
  full = false;
  mirror = true;
  start_address = 4096;
  journal_start = 8192;
  journal_head = 8192;
  data_start = 12288;
  data_end = 16380;
  log_end = 28668;
  heading_start = 0;
  heading_length = 0;
  row = one_column;
  sent = [];
  full_events = 0;
}

open_log-IsLog : IsLog board blocks open_log
open_log-IsLog = record {
  data_low = omega arith;
  data_high = omega arith;
  end_fits = omega arith;
  head_low = omega arith;
  head_high = omega arith;
  head_aligned = refl;
  start_aligned = refl;
  data_aligned = refl;
  data_page = refl;
}

writes_hex : write_num 0x1A2F ≡ 48 ∷ 48 ∷ 48 ∷ 48 ∷ 49 ∷ 65 ∷ 50 ∷ 70 ∷ []
unfolding write_num write_digits
writes_hex = refl

board-IsFlash : IsFlash board blocks
board-IsFlash = record {
  usable = record { some_block = omega arith; whole_words = refl; some_entry = omega arith };
  start = refl;
  some_page = omega arith;
  whole_blocks = refl;
  top = omega arith;
}

open_log-IsBlank : IsBlank board blocks board-IsFlash open_log
open_log-IsBlank = record {
  coherent = clear-IsCoherent board blocks open_log.mem;
  below = clear-AreBelow _;
  blank = λ x low high end. refl;
}

abbrev hello : List ℕ
hello = 104 ∷ 101 ∷ 108 ∷ 108 ∷ 111 ∷ []

-- A text that goes on in the next page.
log_string-IsStored_example :
    IsStored board blocks board-IsFlash open_log
      (written_text hello)
      5
      (log_string board blocks open_log hello)
log_string-IsStored_example =
    log_string-IsStored board blocks board-IsFlash open_log hello open_log-IsLog refl (omega arith)
      open_log-IsBlank (λ i lt. are_ascii-AreBytes hello refl i)

-- The last digit of a number.
abbrev last_digit : ℕ → List ℕ
last_digit n = (48 + n % 10) ∷ []

-- The heading of the time stamp, "t"
abbrev stamped_as : List ℕ
stamped_as = 116 ∷ []
