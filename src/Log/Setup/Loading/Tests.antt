-- ===== src/Log/Setup/Loading/Tests.antt =====
-- An instance of the theorem on init of source/MicroBitLog.cpp.
use codal_microbit_v2_fft.Base.{
  ℕ, zero, suc, ◌+◌, ◌-◌, ◌*◌, ◌<◌, ◌≡◌, refl, ap, arith, true, false, some, List, [], ◌∷◌, Bytes,
  of_list, slice, within, ◌==◌, if◌then◌else◌,
}
use codal_microbit_v2_fft.Nvm.{Nvm, flash_model}
use codal_microbit_v2_fft.FsCache
use codal_microbit_v2_fft.FsCache.{Geometry, Cache}
use codal_microbit_v2_fft.FsCache.Coherent.{IsUsable, IsCoherent, clear-IsCoherent}
use codal_microbit_v2_fft.Log.{line_text, same_text}
use codal_microbit_v2_fft.Log.Storage.{write_num, write_digits}
use codal_microbit_v2_fft.Log.Session.{no_stamp}
use codal_microbit_v2_fft.Log.Setup.{Device, metadata, is_present}
use codal_microbit_v2_fft.Log.Setup.Strtoul.{strtoul}
use codal_microbit_v2_fft.Log.Setup.Loading.{is_only, init}
use codal_microbit_v2_fft.Log.Setup.Loading.Stored.{HasData, HasHeadings, found}
use codal_microbit_v2_fft.Log.Setup.Loading.Whole.{init_lem}

abbrev blocks : Geometry
blocks = record { block_size = 256; cache_size = 4 }

blocks-IsUsable : IsUsable blocks
blocks-IsUsable = record { some_block = omega arith; whole_words = refl; some_entry = omega arith }

-- A memory with a log: two columns, "a" and "bc", behind two zeros, one cleared entry of the journal
-- and one that says 256, and 261 bytes of data.
abbrev used : Bytes
used x =
    if within 4096 4136 x
    then of_list (metadata 24576 61436) (x - 4096)
    else if within 4136 4138 x
    then 0
    else if within 4138 4143 x
    then of_list (97 ∷ 44 ∷ 98 ∷ 99 ∷ 10 ∷ []) (x - 4138)
    else if within 8192 8200 x
    then 0
    else if within 8200 8208 x
    then of_list (write_num 256) (x - 8200)
    else if within 24576 24837 x
    then 65
    else 255

abbrev big_board : Nvm
big_board = flash_model 16

abbrev columns : List (List ℕ)
columns = (97 ∷ []) ∷ (98 ∷ 99 ∷ []) ∷ []

-- A device that has just started over this memory, and with the places of the log.
abbrev fresh : Device (ℕ → ℕ)
fresh = record {
  log = record {
    mem = used;
    cache = FsCache.clear;
    row_started = false;
    full = false;
    mirror = false;
    start_address = 0;
    journal_start = 0;
    journal_head = 0;
    data_start = 0;
    data_end = 0;
    log_end = 0;
    heading_start = 0;
    heading_length = 0;
    row = record { columns = []; headings_changed = false };
    sent = [];
    full_events = 0;
  };
  initialized = false;
  journal_pages = 4;
  time_stamp = no_stamp;
  shown = [];
  remounts = 0;
}

abbrev placed : Device (ℕ → ℕ)
placed = record fresh {
  log = record fresh.log {
    start_address = 4096;
    journal_start = 8192;
    data_start = 24576;
    log_end = 61436;
  };
}

-- What holds of the numbers below 5.
below_five : (P : ℕ → Type 0) → P 0 → P 1 → P 2 → P 3 → P 4 → (i : ℕ) → i < 5 → P i
below_five P a b c d e zero h = a
below_five P a b c d e (suc zero) h = b
below_five P a b c d e (suc (suc zero)) h = c
below_five P a b c d e (suc (suc (suc zero))) h = d
below_five P a b c d e (suc (suc (suc (suc zero)))) h = e
below_five P a b c d e (suc (suc (suc (suc (suc i))))) h = absurd (omega arith)

used-HasData : HasData big_board blocks used placed.log 1 256 24837
unfolding write_num write_digits
used-HasData = record {
  entries = omega arith;
  aligned = refl;
  cleared = λ i lt.
      let here : 8192 + 8 * i ≡ 8192 = omega arith in ap (λ a. is_only 0 (slice used a 8)) here;
  last = refl;
  behind = λ lt. refl;
  low = omega arith;
  high = omega arith;
  used = λ i lt.
      below_five (λ j. (used (24832 + j) == 255) ≡ false) refl refl refl refl refl i (omega arith);
  is_free = λ lt. refl;
  inside = omega arith;
}

used-HasHeadings : HasHeadings big_board blocks used 4136 4138 columns
unfolding line_text
used-HasHeadings = record {
  low = omega arith;
  zeros = λ i lt. ground arith;
  some_byte = refl;
  text = refl;
  used = below_five (λ j. (used (4138 + j) == 255) ≡ false) refl refl refl refl refl;
  is_free = refl;
  inside = omega arith;
}

used_present : is_present big_board blocks fresh ≡ (true, placed)
unfolding is_present write_num write_digits strtoul same_text
used_present = refl

init_lem_example :
    (c : Cache) × (init big_board blocks (λ _. 32) (λ _. 0) (λ _. 0) fresh
      ≡ some (found big_board blocks placed c 1 24837 4138 columns))
    × IsCoherent big_board blocks c used
init_lem_example =
    init_lem big_board blocks blocks-IsUsable refl (omega arith) (λ _. 32) (λ _. 0) (λ _. 0) fresh
      placed 1 256 24837 4138 columns refl used_present (clear-IsCoherent big_board blocks used)
      used-HasData used-HasHeadings ((refl, refl, tt), ((refl, refl, (refl, refl, tt)), tt))
