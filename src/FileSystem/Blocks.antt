-- ===== src/FileSystem/Blocks.antt =====
-- The allocation of blocks in source/MicroBitFileSystem.cpp, and the recycling of those that deleted
-- files leave.
pub mod Free
use codal_microbit_v2_fft.Base.{
  ℕ, zero, suc, ◌+◌, ◌/◌, ◌%◌, Bool, true, false, ◌&&◌, ◌||◌, not, Option, none, some, advance, ltb,
  ◌==◌, ◌!=◌, if◌then◌else◌,
}
use codal_microbit_v2_fft.Nvm.{Nvm}
use codal_microbit_v2_fft.FileSystem.{
  ◌>>=◌, unused, deleted, entry_valid, Config, FileSystem, all_blocks, u16, has_flag, half,
  entry_flags, next_block, put, get_block, get_page, get_block_number,
}

-- How the walk around the table ends: at a block that is unused, or where it began, with the last
-- deleted block seen, 0 for none.
pub data Scan : Type 0 where
  fresh : ℕ → Scan
  spent : ℕ → Scan

-- MBFS_BLOCK_TYPE_FILE and MBFS_BLOCK_TYPE_DIRECTORY
pub data BlockType : Type 0 where
  file_block directory_block : BlockType

module _ (nvm : Nvm) where
  open nvm use {Mem, byte, erase, page_size}

  -- The loop of `getFreeBlock`
  unfoldable pub free_loop : ℕ → FileSystem Mem → ℕ → ℕ → Option Scan
  free_loop zero fs block found = none
  free_loop (suc rounds) fs block found =
      let next = next_block nvm fs block in
      let found' = if next == deleted then block else found in
      let rest = free_loop rounds fs (u16 (block + 1)) found' in
      if block == fs.last
      then some (spent found)
      else if next == unused
      then some (fresh block)
      else rest

  module _ (cfg : Config) where
    abbrev pub blocks_per_page : ℕ
    blocks_per_page = page_size / cfg.block_size

    -- The loop of `getFreePage` over the blocks of a page: `empty` and `deleted`.
    unfoldable pub page_loop : ℕ → FileSystem Mem → ℕ → Bool → Bool × Bool
    page_loop zero fs block seen = (true, seen)
    page_loop (suc left) fs block seen =
        let next = next_block nvm fs (u16 block) in
        let seen' = next == deleted || seen in
        let rest = page_loop left fs (block + 1) seen' in
        if next == deleted then rest else if next != unused then (false, seen) else rest

    -- Its loop over the pages: an empty page, or where it began with the first page in which it has
    -- seen a deleted block, 0 for none.
    unfoldable pub pages_loop : ℕ → FileSystem Mem → ℕ → ℕ → ℕ → Option Scan
    pages_loop zero fs current page recyclable = none
    pages_loop (suc rounds) fs current page recyclable =
        let (empty, seen) = page_loop blocks_per_page fs page false in
        let recyclable' = if seen && recyclable == 0 then page else recyclable in
        let rest =
          pages_loop rounds fs current (u16 ((page + blocks_per_page) % fs.size)) recyclable' in
        if page == current
        then some (spent recyclable)
        else if empty
        then some (fresh page)
        else rest

    -- `getFreePage`
    pub get_free_page : FileSystem Mem → Option (ℕ × FileSystem Mem)
    get_free_page fs =
        let current = get_block_number nvm cfg fs (get_page nvm cfg fs fs.last) in
        let first = u16 ((current + blocks_per_page) % fs.size) in
        do
          r ← pages_loop all_blocks fs current first 0
          elim r [
            | fresh page ↦ some (get_block nvm cfg fs page, record fs { last = page })
            | spent page ↦
                let address = if page != 0 then get_block nvm cfg fs page else cfg.scratch in
                some (address, record fs { mem = erase fs.mem address })
          ]

    -- The part of `recycleBlock` on a directory: the valid entries, with `left` entries to go.
    unfoldable pub copy_entries : ℕ → FileSystem Mem → ℕ → ℕ → FileSystem Mem
    copy_entries zero fs from to = fs
    copy_entries (suc left) fs from to =
        let copied = put nvm cfg fs to (advance (byte fs.mem) from) 24 in
        let fs' = if has_flag (entry_flags nvm fs.mem from) entry_valid then copied else fs in
        copy_entries left fs' (from + 24) (to + 24)

    -- The part on the table: what is not DELETED.
    unfoldable pub copy_table : ℕ → FileSystem Mem → ℕ → ℕ → FileSystem Mem
    copy_table zero fs from to = fs
    copy_table (suc left) fs from to =
        let copied = put nvm cfg fs to (advance (byte fs.mem) from) 2 in
        let fs' = if half nvm fs.mem from != deleted then copied else fs in
        copy_table left fs' (from + 2) (to + 2)

    abbrev pub is_directory : BlockType → Bool
    is_directory file_block = false
    is_directory directory_block = true

    -- The loop of `recycleBlock` over the blocks of the page.
    unfoldable pub recycle_loop : ℕ → FileSystem Mem → ℕ → BlockType → ℕ → ℕ → FileSystem Mem
    recycle_loop zero fs block type b write = fs
    recycle_loop (suc left) fs block type b write =
        let next = next_block nvm fs b in
        let from = get_block nvm cfg fs b in
        let fs' =
          if next == deleted || next == unused
          then fs
          else if b == block && is_directory type
          then copy_entries (cfg.block_size / 24) fs from write
          else if ltb from fs.root
          then copy_table (cfg.block_size / 2) fs from write
          else put nvm cfg fs write (advance (byte fs.mem) from) cfg.block_size in
        recycle_loop left fs' block type (u16 (b + 1)) (write + cfg.block_size)

    -- `recycleBlock`
    pub recycle_block : FileSystem Mem → ℕ → BlockType → Option (FileSystem Mem)
    recycle_block fs block type = do
      let page = get_page nvm cfg fs block
      (scratch, fs1) ← get_free_page fs
      let b = get_block_number nvm cfg fs1 page
      let fs2 = recycle_loop blocks_per_page fs1 block type b scratch
      let fs3 = record fs2 { mem = erase fs2.mem page }
      let fs4 = put nvm cfg fs3 page (advance (byte fs3.mem) scratch) page_size
      some (record fs4 { mem = erase fs4.mem scratch })

    -- The first loop of `recycleFileTable`, on a file system of at most 65535 blocks.
    unfoldable pub recycle_pages : ℕ → FileSystem Mem → ℕ → Bool → Option (FileSystem Mem)
    recycle_pages zero fs block recycled = some fs
    recycle_pages (suc left) fs block recycled =
        let before = if block % blocks_per_page == 0 then false else recycled in
        let rest = recycle_pages left fs (block + 1) before in
        let next = (do
          fs' ← recycle_block fs block BlockType.file_block
          recycle_pages left fs' (block + 1) true) in
        if next_block nvm fs block == deleted && not before then next else rest

    -- The second: the pages of the table itself.
    unfoldable pub recycle_table : ℕ → FileSystem Mem → ℕ → Option (FileSystem Mem)
    recycle_table zero fs block = none
    recycle_table (suc rounds) fs block =
        let next = (do
          fs' ← recycle_block fs block BlockType.file_block
          recycle_table rounds fs' (u16 (block + blocks_per_page))) in
        if ltb (get_page nvm cfg fs block) fs.root then next else some fs

    -- `recycleFileTable`
    pub recycle_file_table : FileSystem Mem → Option (FileSystem Mem)
    recycle_file_table fs = do
      fs' ← recycle_pages fs.size fs 0 false
      recycle_table all_blocks fs' 0

    -- `getFreeBlock`
    unfoldable pub get_free_block : FileSystem Mem → Option (ℕ × FileSystem Mem)
    get_free_block fs = do
      r ← free_loop all_blocks fs (u16 ((fs.last + 1) % fs.size)) 0
      elim r [
        | fresh block ↦ some (block, record fs { last = block })
        | spent block ↦
            if block != 0
            then (do fs' ← recycle_file_table fs; some (block, record fs' { last = block }))
            else some (0, fs)
      ]
