-- ===== src/Log/Setup/Loading/Stored.antt =====
-- A log in flash as init of source/MicroBitLog.cpp is to find it.
use codal_microbit_v2_fft.Base.{
  ℕ, ◌+◌, ◌-◌, ◌*◌, ◌/◌, ◌%◌, ◌≤◌, ◌<◌, ◌≡◌, true, false, List, [], ◌∷◌, slice, length, map, ltb,
  ◌==◌, ◌!=◌, if◌then◌else◌,
}
use codal_microbit_v2_fft.Nvm.{Nvm}
use codal_microbit_v2_fft.FsCache.{Geometry, Cache}
use codal_microbit_v2_fft.Log.{Row, line_text}
use codal_microbit_v2_fft.Log.Storage.{LogFile, write_num}
use codal_microbit_v2_fft.Log.Setup.{Device}
use codal_microbit_v2_fft.Log.Setup.Loading.{is_only}
use codal_microbit_v2_fft.Log.Setup.Loading.Headings.{named}

-- The text of the headings in flash, of no columns or of some, and the row that has them.
abbrev pub heading_text : List (List ℕ) → List ℕ
heading_text [] = []
heading_text (k ∷ ks) = line_text (k ∷ ks)

abbrev pub row_of : List (List ℕ) → Row → Row
row_of [] r = r
row_of (k ∷ ks) r = record r { columns = map named (k ∷ ks) }

module _ (nvm : Nvm) (g : Geometry) where
  open nvm use {Mem, byte, flash_start, flash_end, page_size}

  -- Headings in flash: zeros from `start` on, then, from `a` on, the text, and an unused byte.
  pub record HasHeadings (m : Mem) (start a : ℕ) (ks : List (List ℕ)) : Type 0 where
    pub low : start ≤ a
    pub zeros : (i : ℕ) → i < a - start → (byte m (start + i) != 0) ≡ false
    pub some_byte : (byte m a != 0) ≡ true
    pub text : slice (byte m) a (length (heading_text ks)) ≡ heading_text ks
    pub used : (i : ℕ) → i < length (heading_text ks) → (byte m (a + i) == 255) ≡ false
    pub is_free : (byte m (a + length (heading_text ks)) == 255) ≡ true
    pub inside : a + length (heading_text ks) + 1 < flash_end

  -- The journal and the data: `n` cleared entries, one that holds `v`, then an unused entry or the
  -- end of the journal; bytes of data at least up to `v`, and on to the first unused one at `finish`.
  pub record HasData (m : Mem) (s : LogFile Mem) (n v finish : ℕ) : Type 0 where
    pub entries : s.journal_start + 8 * n + 8 ≤ s.data_start
    pub aligned : s.data_start % 8 ≡ s.journal_start % 8
    pub cleared : (i : ℕ) → i < n → is_only 0 (slice (byte m) (s.journal_start + 8 * i) 8) ≡ true
    pub last : slice (byte m) (s.journal_start + 8 * n) 8 ≡ write_num v
    pub behind :
        s.journal_start + 8 * n + 8 < s.data_start
        → is_only 255 (slice (byte m) (s.journal_start + 8 * n + 8) 8) ≡ true
    pub low : s.data_start + v ≤ finish
    pub high : finish ≤ s.log_end
    pub used :
        (i : ℕ) → i < finish - (s.data_start + v) → (byte m (s.data_start + v + i) == 255) ≡ false
    pub is_free : finish < s.log_end → byte m finish ≡ 255
    pub inside : s.log_end < flash_end

  -- The members that the headings are stored in.
  abbrev pub with_headings : LogFile Mem → ℕ → List (List ℕ) → LogFile Mem
  with_headings s a ks = record s {
    heading_start = if ltb 0 (length (heading_text ks)) then a else s.heading_start;
    heading_length = length (heading_text ks);
    row = row_of ks s.row;
  }

  -- The device with a log that has been loaded.
  abbrev pub found : Device Mem → Cache → ℕ → ℕ → ℕ → List (List ℕ) → Device Mem
  found d c n finish a ks = record d {
    log = record (with_headings d.log a ks) {
      cache = c;
      journal_head = d.log.journal_start + 8 * n;
      data_end = finish;
    };
    journal_pages = (d.log.data_start - d.log.start_address) / page_size - 1;
    initialized = true;
  }
