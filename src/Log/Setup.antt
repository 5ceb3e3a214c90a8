-- ===== src/Log/Setup.antt =====
-- source/MicroBitLog.cpp: how a log is found in flash, made, and given up. The header of the log, a
-- text of 2048 bytes, is an argument, and so is what uninitialised locals hold. `malloc` is taken to
-- succeed.
pub mod Strtoul
pub mod Metadata
pub mod Making
pub mod Cleared
pub mod Present
pub mod Loading
pub mod Invalid
mod Tests
use codal_microbit_v2_fft.Base.{
  ℕ, zero, suc, ◌+◌, ◌*◌, ◌/◌, ◌%◌, Bool, true, false, ◌&&◌, List, [], ◌∷◌, ◌++◌, Bytes, of_list,
  slice, ltb, leb, ◌==◌, if◌then◌else◌,
}
use codal_microbit_v2_fft.Nvm.{Nvm}
use codal_microbit_v2_fft.FsCache
use codal_microbit_v2_fft.FsCache.{Geometry}
use codal_microbit_v2_fft.FileSystem.{sub32}
use codal_microbit_v2_fft.UsbFlash.{Config}
use codal_microbit_v2_fft.Log.{newline, same_text}
use codal_microbit_v2_fft.Log.Storage.{LogFile, write_num, cache_write, entry_size}
use codal_microbit_v2_fft.Log.Session.{TimeStampFormat, metadata_size, set_time_stamp}
use codal_microbit_v2_fft.Log.Setup.Strtoul.{strtoul}

-- MICROBIT_LOG_VERSION without its newline, CONFIG_MICROBIT_LOG_JOURNAL_PAGES and sizeof(header)
abbrev pub version : List ℕ
version =
    b'U' ∷ b'B' ∷ b'I' ∷ b'T' ∷ b'_' ∷ b'L' ∷ b'O' ∷ b'G' ∷ b'_' ∷ b'F' ∷ b'S' ∷ b'_' ∷ b'V' ∷ b'_'
    ∷ b'0' ∷ b'0' ∷ b'1' ∷ []

abbrev pub journal_page_count : ℕ
journal_page_count = 4

abbrev pub header_size : ℕ
header_size = 2048

-- The other members that these functions use, and the calls of setConfiguration and remount on the
-- USB flash manager.
pub record Device (M : Type 0) : Type 0 where
  pub log : LogFile M
  pub initialized : Bool
  pub journal_pages : ℕ
  pub time_stamp : TimeStampFormat
  pub shown : List Config
  pub remounts : ℕ

-- The text of a number in the metadata, and the metadata that `clear` writes.
abbrev pub number_text : ℕ → List ℕ
number_text n = b'0' ∷ b'x' ∷ (write_num n ++ (0 ∷ []))

abbrev pub metadata : ℕ → ℕ → List ℕ
metadata data_start log_end =
    (version ++ (newline ∷ [])) ++ (number_text log_end ++ number_text data_start)

module _ (nvm : Nvm) (g : Geometry) where
  open nvm use {Mem, byte, write, erase, flash_start, flash_end, page_size}

  -- `startAddress`
  abbrev pub metadata_address : ℕ
  metadata_address =
      if header_size % page_size == 0
      then header_size
      else (1 + header_size / page_size) * page_size

  -- `isPresent`
  unfoldable pub is_present : Device Mem → Bool × Device Mem
  is_present d =
      let start = metadata_address in
      let data_start = strtoul (slice (byte d.log.mem) (start + 29) 10) in
      let log_end = strtoul (slice (byte d.log.mem) (start + 18) 10) in
      let log' = record d.log {
        start_address = start;
        data_start = data_start;
        log_end = log_end;
        journal_start = start + page_size;
      } in
      let found =
        leb (start + 2 * page_size) data_start
        && ltb data_start log_end
        && ltb log_end flash_end
        && same_text (slice (byte d.log.mem) start 17) version in
      if d.initialized then (true, d) else (found, record d { log = log' })

  -- The pages that `clear` erases, from `p` to `last`.
  unfoldable pub erase_pages : ℕ → Mem → ℕ → ℕ → Mem
  erase_pages zero m p last = m
  erase_pages (suc rounds) m p last =
      let rest = erase_pages rounds (erase m p) (p + page_size) last in
      if leb p last then rest else m

  -- Where the parts of a new log start: the journal, the data, and what is behind them.
  abbrev pub new_journal_start : ℕ
  new_journal_start = metadata_address + page_size

  abbrev pub new_data_start : ℕ
  new_data_start = new_journal_start + journal_page_count * page_size

  abbrev pub new_log_end : ℕ
  new_log_end = sub32 (sub32 flash_end page_size) 4

  -- `clear` up to the write of the header.
  unfoldable pub emptied : Bytes → LogFile Mem → Bool → LogFile Mem
  emptied header s full_erase =
      let last = if full_erase then new_log_end else new_data_start in
      let m1 = write s.mem new_log_end (λ _. 0) 1 in
      let m2 = erase_pages (last / page_size + 1) m1 flash_start last in
      record s {
        mem = write m2 flash_start header (header_size / 4);
        cache = FsCache.clear;
        row_started = false;
        full = false;
        start_address = metadata_address;
        journal_start = new_journal_start;
        journal_head = new_journal_start;
        data_start = new_data_start;
        data_end = new_data_start;
        log_end = new_log_end;
        heading_start = 0;
        heading_length = 0;
        row = record { columns = []; headings_changed = false };
      }

  -- `clear`
  unfoldable pub clear : Bytes → Device Mem → Bool → Device Mem
  clear header d full_erase =
      let log1 = emptied header d.log full_erase in
      let text = of_list (metadata new_data_start new_log_end) in
      let log2 = cache_write nvm g log1 metadata_address text metadata_size in
      let log3 = cache_write nvm g log2 new_journal_start (λ _. b'0') entry_size in
      let config : Config = record {
        file_name = b'M' ∷ b'Y' ∷ b'_' ∷ b'D' ∷ b'A' ∷ b'T' ∷ b'A' ∷ b'.' ∷ b'H' ∷ b'T' ∷ b'M' ∷ [];
        file_size = sub32 (sub32 flash_end flash_start) page_size;
        visible = true;
      } in
      record d {
        log = set_time_stamp nvm g log3 d.time_stamp;
        initialized = true;
        journal_pages = journal_page_count;
        shown = config ∷ d.shown;
        remounts = suc d.remounts;
      }

  -- `invalidate`
  unfoldable pub invalidate : Device Mem → Device Mem
  invalidate d =
      let (found, d') = is_present d in
      let m1 = write d'.log.mem d'.log.start_address (λ _. 0) (metadata_size / 4) in
      let m2 = write m1 d'.log.log_end (λ _. 0) 1 in
      let log' = record d'.log { mem = if found then m2 else d'.log.mem } in
      record d' { log = log'; initialized = false }
