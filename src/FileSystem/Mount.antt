-- ===== src/FileSystem/Mount.antt =====
-- Bringing up the file system in source/MicroBitFileSystem.cpp: finding one in flash, or formatting.
-- MICROBIT_CODEPAGESIZE is a power of two, so that `& ~(size - 1)` rounds down to a multiple of it.
pub mod Root
pub mod Format
use codal_microbit_v2_fft.Base.{
  ℕ, zero, suc, ◌+◌, ◌-◌, ◌*◌, ◌/◌, ◌%◌, Bool, true, false, ◌||◌, List, [], ◌∷◌, Code, leb, ◌==◌,
  ◌!=◌, not, if◌then◌else◌,
}
use codal_microbit_v2_fft.Nvm.{Nvm}
use codal_microbit_v2_fft.FileSystem.{
  eof, entry_valid, Config, FileSystem, u16, number, entry_length, next_block, put, get_block,
}
use codal_microbit_v2_fft.FileSystem.Directory.{entry_bytes, same_name}

-- MBFS_MAGIC, "MICROBIT_FS_1_0"
abbrev pub magic : List ℕ
magic = 77 ∷ 73 ∷ 67 ∷ 82 ∷ 79 ∷ 66 ∷ 73 ∷ 84 ∷ 95 ∷ 70 ∷ 83 ∷ 95 ∷ 49 ∷ 95 ∷ 48 ∷ []

-- `calculateFileTableSize`
unfoldable pub calculate_file_table_size : Config → ℕ → ℕ
calculate_file_table_size cfg size =
    let n = u16 (size * 2 / cfg.block_size) in
    if size * 2 % cfg.block_size != 0 then u16 (n + 1) else n

-- `flashStart` rounded up to a page
abbrev pub round_up : ℕ → ℕ → ℕ
round_up page_size a = if a % page_size != 0 then a - a % page_size + page_size else a

module _ (nvm : Nvm) (cfg : Config) where
  open nvm use {Mem, byte, page_size}

  -- The loop of `load`: whether the entries from `i` on all hold `offset`.
  unfoldable pub table_valid : ℕ → FileSystem Mem → ℕ → ℕ → Bool
  table_valid zero fs offset i = true
  table_valid (suc left) fs offset i =
      let next = next_block nvm fs i in
      let rest = table_valid left fs offset (i + 1) in
      if leb eof next || next != offset then false else rest

  -- `load`
  unfoldable pub load : FileSystem Mem → Code × FileSystem Mem
  load fs =
      let offset = next_block nvm fs 0 in
      let root = get_block nvm cfg fs offset in
      let size = entry_length nvm fs.mem root in
      if not (table_valid offset fs offset 0)
      then (Code.no_data, fs)
      else if not (same_name nvm fs.mem root magic)
      then (Code.no_data, fs)
      else (
        Code.ok,
        record fs { root = root; size = size; table_size = calculate_file_table_size cfg size },
      )

  -- The loop of `format`, with `left` entries to go.
  unfoldable pub mark_loop : ℕ → FileSystem Mem → ℕ → FileSystem Mem
  mark_loop zero fs block = fs
  mark_loop (suc left) fs block =
      mark_loop left (put nvm cfg fs (fs.table + 2 * block) (number fs.table_size) 2) (block + 1)

  -- `format`
  unfoldable pub format : FileSystem Mem → Code × FileSystem Mem
  format fs =
      let fs1 = mark_loop fs.table_size fs 0 in
      let fs2 = put nvm cfg fs1 (fs1.table + 2 * fs1.table_size) (number eof) 2 in
      let d = entry_bytes cfg.stack magic fs2.table_size entry_valid fs2.size in
      let fs3 = record fs2 { root = get_block nvm cfg fs2 fs2.table_size } in
      (Code.ok, put nvm cfg fs3 fs3.root d 24)

  -- The geometry that `init` works out from its parameters.
  abbrev pub start_of : ℕ → ℕ
  start_of flash_start =
      if flash_start == 0 then round_up page_size cfg.program_end else flash_start

  abbrev pub pages_of : ℕ → ℕ → ℕ
  pages_of start flash_pages =
      if flash_pages == 0 then (cfg.app_end - start) / page_size else flash_pages

  -- `init`, for a number of pages that is not negative
  unfoldable pub init : FileSystem Mem → ℕ → ℕ → Code × FileSystem Mem
  init fs flash_start flash_pages =
      let start = start_of flash_start in
      let size = pages_of start flash_pages * (page_size / cfg.block_size) in
      let fs1 = record fs { table = start; last = 0; root = 0; open_files = [] } in
      let (code, fs2) = load fs1 in
      let fs3 = record fs2 { size = size; table_size = calculate_file_table_size cfg size } in
      let fs4 : FileSystem Mem = elim code [ Code.ok ↦ fs2 | _ ↦ (format fs3).1 ] in
      if fs.initialised
      then (Code.not_supported, fs)
      else (Code.ok, record fs4 { initialised = true })
