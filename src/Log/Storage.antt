-- ===== src/Log/Storage.antt =====
-- source/MicroBitLog.cpp: the text of the log in flash and its journal, for a log that `init` has
-- brought up. `write` and `erase` of the cache are those of source/FSCache.cpp, whose blocks have
-- CONFIG_MICROBIT_LOG_CACHE_BLOCK_SIZE bytes; the fiber lock, of codal-core, is left out.
pub mod Numbers
pub mod Bounds
pub mod Pages
pub mod Rounds
pub mod Written
pub mod Under
use codal_microbit_v2_fft.Base.{
  ℕ, zero, suc, ◌+◌, ◌-◌, ◌*◌, ◌/◌, ◌%◌, ◌^◌, Bool, true, false, ◌&&◌, List, [], ◌∷◌, ◌++◌, Bytes,
  Code, of_list, advance, slice, length, ltb, leb, ◌==◌, ◌!=◌, if◌then◌else◌, min,
}
use codal_microbit_v2_fft.Nvm.{Nvm}
use codal_microbit_v2_fft.FsCache.{Geometry, Cache}
use codal_microbit_v2_fft.FsCache.Access.{write_bytes}
use codal_microbit_v2_fft.Log.{Row, clean_buffer, text_of}
use codal_microbit_v2_fft.FsCache

-- MICROBIT_LOG_JOURNAL_ENTRY_SIZE
abbrev pub entry_size : ℕ
entry_size = 8

-- `d > 9 ? 'A' + d - 10 : '0' + d`
abbrev pub hex_digit : ℕ → ℕ
hex_digit d = if ltb 9 d then 65 + d - 10 else 48 + d

-- The loop of `writeNum`, with `left` digits to go, so that `sh` is 4 * (left - 1).
unfoldable pub write_digits : ℕ → ℕ → List ℕ
write_digits zero n = []
write_digits (suc left) n = hex_digit (n / 2 ^ (4 * left) % 16) ∷ write_digits left n

-- `writeNum`
unfoldable pub write_num : ℕ → List ℕ
write_num n = write_digits 8 n

-- The members of `MicroBitLog` that change, and the memory. The status flags are ROW_STARTED, FULL
-- and SERIAL_MIRROR; INITIALIZED is set. `sent` is what went to the serial port, `full_events` counts
-- the events MICROBIT_LOG_EVT_LOG_FULL.
pub record LogFile (M : Type 0) : Type 0 where
  pub mem : M
  pub cache : Cache
  pub row_started : Bool
  pub full : Bool
  pub mirror : Bool
  pub start_address : ℕ
  pub journal_start : ℕ
  pub journal_head : ℕ
  pub data_start : ℕ
  pub data_end : ℕ
  pub log_end : ℕ
  pub heading_start : ℕ
  pub heading_length : ℕ
  pub row : Row
  pub sent : List ℕ
  pub full_events : ℕ

-- "FUL", and the 8 zero bytes of a cleared `JournalEntry`
abbrev pub full_mark : Bytes
full_mark = of_list (70 ∷ 85 ∷ 76 ∷ [])

abbrev pub empty_entry : Bytes
empty_entry = λ _. 0

-- `logEnd - dataEnd`, on 32 bits
abbrev pub room : {M : Type 0} → LogFile M → ℕ
room s = (s.log_end + (2 ^ 32 - s.data_end)) % 2 ^ 32

module _ (nvm : Nvm) (g : Geometry) where
  open nvm use {Mem, erase, page_size}

  -- `cache.write`, whose result is not looked at
  unfoldable pub cache_write : LogFile Mem → ℕ → Bytes → ℕ → LogFile Mem
  cache_write s address source len =
      let (code, c, m) = write_bytes nvm g s.cache s.mem address source len in
      record s { cache = c; mem = m }

  -- The part of `logString` for a line that does not fit. FULL is set already, or is set now.
  unfoldable pub refuse : LogFile Mem → LogFile Mem
  refuse s =
      let marked = cache_write s (s.log_end + 1) full_mark 3 in
      record s {
        mem = if s.full then s.mem else marked.mem;
        cache = if s.full then s.cache else marked.cache;
        full = true;
        full_events = s.full_events + 1;
      }

  -- The loop of `logString`, with `l` bytes to go, and what is left after it. Each round writes at
  -- least one byte, so as many rounds as bytes are enough.
  unfoldable pub write_rounds : ℕ → LogFile Mem → Bytes → ℕ → ℕ × LogFile Mem
  write_rounds zero s source l = (l, s)
  write_rounds (suc rounds) s source l =
      let space = page_size - s.data_end % page_size in
      let n = min l space in
      let next_page = (s.data_end / page_size + 1) * page_size in
      let crosses = leb space l && ltb (s.data_end + space) s.log_end in
      let s1 = record s { mem = if crosses then erase s.mem next_page else s.mem } in
      let s2 = cache_write s1 s1.data_end source n in
      let s3 = record s2 { data_end = s2.data_end + n } in
      let rest = write_rounds rounds s3 (advance source n) (l - n) in
      if ltb 0 l then rest else (l, s)

  -- Where the next journal entry goes.
  abbrev pub next_head : LogFile Mem → ℕ
  next_head s =
      let head = s.journal_head + entry_size in
      if head % page_size == 0 && head == s.data_start then s.journal_start else head

  -- The part of `logString` that writes the journal.
  unfoldable pub write_journal : LogFile Mem → LogFile Mem
  write_journal s =
      let head = next_head s in
      let turned = (s.journal_head + entry_size) % page_size == 0 in
      let s1 = record s {
        journal_head = head;
        cache = if turned then FsCache.erase nvm g s.cache head else s.cache;
        mem = if turned then erase s.mem head else s.mem;
      } in
      let length_text = write_num ((s.data_end - s.data_start) / g.block_size * g.block_size) in
      let s2 = cache_write s1 head (of_list length_text) entry_size in
      cache_write s2 s.journal_head empty_entry entry_size

  -- `logString`
  unfoldable pub log_string : LogFile Mem → List ℕ → Code × LogFile Mem
  log_string s text =
      let l = length text in
      let source = text_of (of_list text) (clean_buffer (of_list text) l false) in
      let sent' = if s.mirror && ltb 0 l then s.sent ++ slice source 0 l else s.sent in
      let (left, s1) = write_rounds l (record s { sent = sent' }) source l in
      let s2 =
        if s1.data_end / g.block_size != s.data_end / g.block_size then write_journal s1 else s1 in
      if ltb (room s) l
      then (Code.no_resources, refuse s)
      else if left == 0
      then (Code.ok, s2)
      else (Code.no_resources, record s2 { full_events = s2.full_events + 1 })
