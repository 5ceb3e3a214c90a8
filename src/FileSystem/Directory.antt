-- ===== src/FileSystem/Directory.antt =====
-- Directories in source/MicroBitFileSystem.cpp: the search for a name, and the making of entries. A
-- name is the list of its characters, none of them 0; the null pointer is address 0.
pub mod Search
use codal_microbit_v2_fft.Base.{
  ℕ, zero, suc, ◌+◌, ◌-◌, ◌*◌, ◌%◌, ◌^◌, Bool, true, false, ◌&&◌, ◌||◌, not, Option, none, some,
  List, [], ◌∷◌, Bytes, Code, update, slice, length, drop, get_or, ltb, ◌==◌, ◌!=◌, if◌then◌else◌,
}
use codal_microbit_v2_fft.Nvm.{Nvm}
use codal_microbit_v2_fft.FileSystem.{
  ◌>>=◌, eof, entry_free, entry_valid, entry_directory, entry_new, Config, FileSystem, all_blocks,
  number, has_flag, entry_block, entry_flags, next_block, put, table_write, get_block,
  get_block_number,
}
use codal_microbit_v2_fft.FileSystem.Blocks.{BlockType, recycle_block, get_free_block}

-- '/'
abbrev pub slash : ℕ
slash = 47

-- `isValidFilename`
unfoldable pub is_valid_filename : List ℕ → Bool
is_valid_filename [] = false
is_valid_filename (c ∷ cs) = all_printable (c ∷ cs)
  where
    all_printable : List ℕ → Bool
    all_printable [] = true
    all_printable (d ∷ ds) = not (ltb d 32 || ltb 126 d) && all_printable ds

-- Where the loop from the end leaves `file`, for the name after the last '/': from place `i` down.
unfoldable pub name_start : List ℕ → ℕ → ℕ
name_start name zero = if get_or name 0 0 == slash then 1 else 0
name_start name (suc i) =
    let rest = name_start name i in if get_or name (suc i) 0 == slash then i + 2 else rest

unfoldable pub name_part : List ℕ → List ℕ
name_part name = drop (name_start name (length name)) name

-- A `DirectoryEntry` that is filled in with `strcpy` and assignments.
unfoldable pub entry_bytes : Bytes → List ℕ → ℕ → ℕ → ℕ → Bytes
entry_bytes stack name first flags len i =
    if ltb i 16
    then (if ltb i (length name + 1) then get_or name i 0 else stack i)
    else if ltb i 18
    then number first (i - 16)
    else if ltb i 20
    then number flags (i - 18)
    else number len (i - 20)

module _ (nvm : Nvm) where
  open nvm use {Mem, byte, page_size}

  -- `strcmp(dirent->file_name, name) == 0`
  unfoldable pub same_name : Mem → ℕ → List ℕ → Bool
  same_name m a [] = byte m a == 0
  same_name m a (c ∷ cs) = byte m a == c && same_name m (a + 1) cs

  unfoldable pub is_match : Mem → List ℕ → ℕ → Bool
  is_match m name a = has_flag (entry_flags nvm m a) entry_valid && same_name m a name

  module _ (cfg : Config) where
    -- `(uint32_t)(dirent + 1) > (uint32_t)dir + MBFS_BLOCK_SIZE`
    abbrev pub past_block : FileSystem Mem → ℕ → ℕ → Bool
    past_block fs block dirent = ltb (get_block nvm cfg fs block + cfg.block_size) (dirent + 24)

    -- The loop of `getDirectoryEntry`; 0 is NULL.
    unfoldable pub entry_loop : ℕ → FileSystem Mem → List ℕ → ℕ → ℕ → Option ℕ
    entry_loop zero fs name block dirent = none
    entry_loop (suc rounds) fs name block dirent =
        let full = past_block fs block dirent in
        let block' = if full then next_block nvm fs block else block in
        let dirent' = if full then get_block nvm cfg fs block' else dirent in
        let rest = entry_loop rounds fs name block' (dirent' + 24) in
        if full && block' == eof
        then some 0
        else if is_match fs.mem name dirent'
        then some dirent'
        else rest

    -- As many entries as all blocks hold.
    abbrev pub all_entries : ℕ
    all_entries = all_blocks * cfg.block_size

    -- `getDirectoryEntry`
    unfoldable pub get_directory_entry : FileSystem Mem → List ℕ → ℕ → Option ℕ
    get_directory_entry fs filename directory =
        let directory' = if directory == 0 then fs.root else directory in
        let block = entry_block nvm fs.mem directory' in
        entry_loop all_entries fs (name_part filename) block (get_block nvm cfg fs block)

    -- The loop of `getDirectoryOf`, with the characters to come, the buffer `s` and its length `i`.
    unfoldable pub path_loop : FileSystem Mem → List ℕ → Bytes → ℕ → ℕ → Option ℕ
    path_loop fs [] s i directory = some directory
    path_loop fs (c ∷ cs) s i directory =
        let deeper = path_loop fs cs s 0 in
        let rest = path_loop fs cs (update s i c) ((i + 1) % 2 ^ 8) directory in
        if c == slash
        then if i == 0 || ltb 17 i then some 0 else (do
          found ← get_directory_entry fs (slice s 0 i) directory
          if found == 0 then some 0 else deeper found)
        else rest

    -- `getDirectoryOf`
    unfoldable pub get_directory_of : FileSystem Mem → List ℕ → Option ℕ
    get_directory_of fs [] = some fs.root
    get_directory_of fs (c ∷ cs) = path_loop fs (c ∷ cs) cfg.stack 0 fs.root

    -- The loop of `createDirectoryEntry`: `empty` and `invalid`.
    unfoldable pub slot_loop : ℕ → FileSystem Mem → ℕ → ℕ → ℕ → Option (ℕ × ℕ)
    slot_loop zero fs block dirent invalid = none
    slot_loop (suc rounds) fs block dirent invalid =
        let full = past_block fs block dirent in
        let block' = if full then next_block nvm fs block else block in
        let dirent' = if full then get_block nvm cfg fs block' else dirent in
        let flags = entry_flags nvm fs.mem dirent' in
        let invalid' =
          if not (has_flag flags entry_valid) && invalid == 0 then dirent' else invalid in
        let rest = slot_loop rounds fs block' (dirent' + 24) invalid' in
        if full && block' == eof
        then some (0, invalid)
        else if has_flag flags entry_free
        then some (dirent', invalid)
        else rest

    -- The loop to the last block of the directory
    unfoldable pub last_loop : ℕ → FileSystem Mem → ℕ → Option ℕ
    last_loop zero fs block = none
    last_loop (suc rounds) fs block =
        let next = next_block nvm fs block in
        let rest = last_loop rounds fs next in if next != eof then rest else some block

    -- `createDirectoryEntry`
    pub create_directory_entry : FileSystem Mem → ℕ → Option (ℕ × FileSystem Mem)
    create_directory_entry fs directory = do
      let block = entry_block nvm fs.mem directory
      (empty, invalid) ← slot_loop all_entries fs block (get_block nvm cfg fs block) 0
      if empty != 0
          then some (empty, fs)
          else if invalid != 0
          then (do
            fs' ←
                recycle_block nvm cfg fs (get_block_number nvm cfg fs invalid)
                  BlockType.directory_block
            some (invalid, fs'))
          else (do
            (fresh, fs1) ← get_free_block nvm cfg fs
            if fresh == 0 then some (0, fs1) else (do
              last ← last_loop all_blocks fs1 (entry_block nvm fs1.mem directory)
              let fs2 = table_write nvm cfg fs1 last fresh
              let fs3 = table_write nvm cfg fs2 fresh eof
              some (get_block nvm cfg fs3 fresh, fs3)))

    -- `createFile`
    pub create_file : FileSystem Mem → List ℕ → ℕ → Bool → Option (ℕ × FileSystem Mem)
    create_file fs filename directory is_directory = do
      (dirent, fs1) ← create_directory_entry fs directory
      if dirent == 0 then some (0, fs1) else (do
        (block, fs2) ← get_free_block nvm cfg fs1
        if block == 0 then some (0, fs2) else (do
          let flags = if is_directory then entry_valid + entry_directory else entry_new
          let len = if is_directory then 0 else 0xFFFFFFFF
          let d = entry_bytes cfg.stack (name_part filename) block flags len
          let fs3 = put nvm cfg fs2 dirent d 24
          some (dirent, table_write nvm cfg fs3 block eof)))

    -- `createDirectory`
    pub create_directory : FileSystem Mem → List ℕ → Option (Code × FileSystem Mem)
    create_directory fs name =
        if not fs.initialised
        then some (Code.not_supported, fs)
        else if not (is_valid_filename name)
        then some (Code.invalid_parameter, fs)
        else (do
          directory ← get_directory_of fs name
          if directory == 0 then some (Code.invalid_parameter, fs) else (do
            dirent ← get_directory_entry fs name directory
            if dirent != 0 then some (Code.invalid_parameter, fs) else (do
              (made, fs') ← create_file fs name directory true
              some (if made == 0 then Code.no_resources else Code.ok, fs'))))
