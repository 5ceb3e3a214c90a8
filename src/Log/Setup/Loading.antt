-- ===== src/Log/Setup/Loading.antt =====
-- init of source/MicroBitLog.cpp: the end of the data, from the journal, and the headings.
pub mod Loops
pub mod Journal
pub mod Stored
pub mod Headings
pub mod Whole
pub mod Made
mod Tests
use codal_microbit_v2_fft.Base.{
  ℕ, zero, suc, ◌+◌, ◌-◌, ◌/◌, Bool, true, false, ◌&&◌, ◌||◌, not, Option, none, some, List, [],
  ◌∷◌, ◌++◌, Bytes, slice, ltb, leb, ◌==◌, ◌!=◌, if◌then◌else◌,
}
use codal_microbit_v2_fft.Nvm.{Nvm}
use codal_microbit_v2_fft.FsCache.{Geometry}
use codal_microbit_v2_fft.FsCache.Access.{read}
use codal_microbit_v2_fft.FileSystem.{◌>>=◌, u32}
use codal_microbit_v2_fft.Log.{newline, Column}
use codal_microbit_v2_fft.Log.Storage.{LogFile, entry_size}
use codal_microbit_v2_fft.Log.Session.{metadata_size}
use codal_microbit_v2_fft.Log.Setup.Strtoul.{strtoul}
use codal_microbit_v2_fft.Log.Setup.{Device, is_present, clear}

abbrev pub is_only : ℕ → List ℕ → Bool
is_only v [] = true
is_only v (x ∷ xs) = x == v && is_only v xs

-- How many headings the text has, and the first `n` of them: each ends at a separator, or at a 0.
unfoldable pub count_headings : List ℕ → ℕ
count_headings [] = 0
count_headings (c ∷ cs) =
    let rest = count_headings cs in if c == b',' || c == newline then suc rest else rest

unfoldable pub split_headings : ℕ → List ℕ → List ℕ → List Column
split_headings zero key text = []
split_headings (suc n) key [] = record { key = key; value = [] } ∷ split_headings n [] []
split_headings (suc n) key (c ∷ cs) =
    let ended = split_headings n [] cs in
    let longer = split_headings (suc n) (key ++ (c ∷ [])) cs in
    if c == b',' || c == newline || c == 0 then record { key = key; value = [] } ∷ ended else longer

module _ (nvm : Nvm) (g : Geometry) where
  open nvm use {Mem, flash_end, page_size}

  -- The loop over the journal, with `valid`.
  unfoldable pub load_journal : ℕ → LogFile Mem → Bytes → ℕ → Bool → LogFile Mem
  load_journal zero s entry address valid = s
  load_journal (suc rounds) s entry address valid =
      let (code, entry', c) = read nvm g s.cache s.mem address entry entry_size in
      let text = slice entry' 0 entry_size in
      let s1 = record s { cache = c } in
      let s2 = record s1 { journal_head = address; data_end = u32 (s.data_start + strtoul text) } in
      let used = not (is_only 0 text) in
      let rest =
        load_journal rounds (if used then s2 else s1) entry' (address + entry_size)
          (valid || used) in
      if leb s.data_start address then s else if is_only 255 text && valid then s1 else rest

  -- The loop to the end of the data, `d` being what was read last.
  unfoldable pub find_data_end : ℕ → LogFile Mem → Bytes → LogFile Mem
  find_data_end zero s d = s
  find_data_end (suc rounds) s d =
      let (code, d', c) = read nvm g s.cache s.mem s.data_end d 1 in
      let s1 = record s { cache = c } in
      let rest = find_data_end rounds (record s1 { data_end = s.data_end + 1 }) d' in
      if leb s.log_end s.data_end then s else if d' 0 == 255 then s1 else rest

  -- A loop over the headings: from `address`, whose byte `c` holds, to the first byte for which `stop`
  -- holds; `none` where there is none in so many rounds.
  unfoldable pub skip_bytes :
      ℕ → (ℕ → Bool) → LogFile Mem → Bytes → ℕ → Option (ℕ × LogFile Mem × Bytes)
  skip_bytes zero stop s c address = none
  skip_bytes (suc rounds) stop s c address =
      let (code, c', cache') = read nvm g s.cache s.mem (address + 1) c 1 in
      let rest = skip_bytes rounds stop (record s { cache = cache' }) c' (address + 1) in
      if stop (c 0) then some (address, s, c) else rest

  -- The part of `init` behind these loops; `heap` is what `malloc` returns.
  unfoldable pub load_headings : Bytes → ℕ → ℕ → LogFile Mem → LogFile Mem
  load_headings heap start finish s =
      let len = finish - start in
      let (code, text, c) = read nvm g s.cache s.mem start heap len in
      let headers = slice text 0 len in
      let columns = split_headings (count_headings headers) [] headers in
      if ltb 0 len
      then record s {
        heading_start = start;
        heading_length = len;
        row = record s.row { columns = columns };
        cache = c;
      }
      else record s { heading_length = 0 }

  -- The headings, between the zeros behind the metadata and the first 0xFF.
  unfoldable pub find_headings : Bytes → Bytes → LogFile Mem → Option (LogFile Mem)
  find_headings heap stack s =
      let start = s.start_address + metadata_size in
      let (code, c, cache') = read nvm g s.cache s.mem start stack 1 in
      do
        (first, s1, c1) ← skip_bytes flash_end (λ v. v != 0) (record s { cache = cache' }) c start
        (finish, s2, c2) ← skip_bytes flash_end (λ v. v == 255) s1 c1 first
        some (load_headings heap first finish s2)

  -- `init` for a log that is present
  unfoldable pub load : Bytes → Bytes → Device Mem → Option (Device Mem)
  load heap stack d =
      let s0 = record d.log { journal_head = d.log.journal_start; data_end = d.log.data_start } in
      let entries = (s0.data_start - s0.journal_start) / entry_size + 1 in
      let s1 = load_journal entries s0 (λ _. b'0') s0.journal_start false in
      let s2 = find_data_end (s1.log_end - s1.data_end) s1 (λ _. 0) in
      do
        s3 ← find_headings heap stack s2
        some (record d {
          log = s3;
          journal_pages = (d.log.data_start - d.log.start_address) / page_size - 1;
          initialized = true;
        })

  -- `init`
  unfoldable pub init : Bytes → Bytes → Bytes → Device Mem → Option (Device Mem)
  init header heap stack d =
      let (found, d') = is_present nvm g d in
      if d.initialized
      then some d
      else if found
      then load heap stack d'
      else some (clear nvm g header d' false)
