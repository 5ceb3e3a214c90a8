-- ===== src/Log/Setup/Tests.antt =====
-- Instances of the theorems on how source/MicroBitLog.cpp makes, finds and gives up a log.
use codal_microbit_v2_fft.Base.{ℕ, ◌≡◌, refl, arith, true, false, some, [], Bytes}
use codal_microbit_v2_fft.Nvm.{Nvm, flash_model}
use codal_microbit_v2_fft.FsCache
use codal_microbit_v2_fft.FsCache.{Geometry}
use codal_microbit_v2_fft.FsCache.Coherent.{IsUsable, clear-IsCoherent}
use codal_microbit_v2_fft.Log.Session.{seconds}
use codal_microbit_v2_fft.Log.Setup.{Device, is_present, clear, invalidate}
use codal_microbit_v2_fft.Log.Setup.Loading.{init}
use codal_microbit_v2_fft.Log.Setup.Loading.Made.{init-clear}
use codal_microbit_v2_fft.Log.Setup.Invalid.{is_present-invalidate}

abbrev board : Nvm
board = flash_model 8

abbrev blocks : Geometry
blocks = record { block_size = 256; cache_size = 4 }

blocks-IsUsable : IsUsable blocks
blocks-IsUsable = record { some_block = omega arith; whole_words = refl; some_entry = omega arith }

-- A device that has just started over the memory given.
abbrev started : (ℕ → ℕ) → Device (ℕ → ℕ)
started m = record {
  log = record {
    mem = m;
    cache = FsCache.clear;
    row_started = false;
    full = false;
    mirror = false;
    start_address = 0;
    journal_start = 0;
    journal_head = 0;
    data_start = 0;
    data_end = 0;
    log_end = 0;
    heading_start = 0;
    heading_length = 0;
    row = record { columns = []; headings_changed = false };
    sent = [];
    full_events = 0;
  };
  initialized = false;
  journal_pages = 4;
  time_stamp = seconds;
  shown = [];
  remounts = 0;
}

abbrev some_header : Bytes
some_header i = 32

-- A new log over a memory with 7 everywhere.
abbrev made : Device (ℕ → ℕ)
made = clear board blocks some_header (started (λ _. 7)) false

init-clear_example :
    (d' : Device (ℕ → ℕ)) × (init board blocks some_header (λ _. 0) (λ _. 0) (started made.log.mem)
      ≡ some d')
    × (d'.initialized ≡ true)
    × (d'.log.mem ≡ made.log.mem)
    × (d'.log.start_address ≡ made.log.start_address)
    × (d'.log.journal_start ≡ made.log.journal_start)
    × (d'.log.journal_head ≡ made.log.journal_head)
    × (d'.log.data_start ≡ made.log.data_start)
    × (d'.log.data_end ≡ made.log.data_end)
    × (d'.log.log_end ≡ made.log.log_end)
    × (d'.log.heading_length ≡ 0)
    × (d'.log.row ≡ (started made.log.mem).log.row)
init-clear_example =
    init-clear board blocks some_header (started (λ _. 7)) false blocks-IsUsable (omega arith) refl
      refl (omega arith) (omega arith) (started made.log.mem) refl refl (λ _. 0) (λ _. 0)
      (clear-IsCoherent board blocks made.log.mem)

is_present-invalidate_example :
    (is_present board blocks (started (invalidate board blocks (started made.log.mem)).log.mem)).0
    ≡ false
is_present-invalidate_example =
    is_present-invalidate board blocks (started made.log.mem)
      (started (invalidate board blocks (started made.log.mem)).log.mem) (λ e. absurd (cc)) refl
      refl
