-- ===== src/FileSystem/Open.antt =====
-- The files of source/MicroBitFileSystem.cpp as a program holds them: opening, flushing, closing,
-- seeking and removing. `new` does not fail. An `int` or `uint32_t` is its 32 bits.
pub mod Ids
pub mod Remove
pub mod Removed
pub mod Seeking
use codal_microbit_v2_fft.Base.{
  ℕ, zero, suc, ◌+◌, ◌-◌, ◌*◌, ◌^◌, false, ◌||◌, not, Option, none, some, List, [], ◌∷◌, Bytes,
  Code, Reply, value, error, length, ltb, leb, ◌==◌, ◌!=◌, if◌then◌else◌, bit_and,
}
use codal_microbit_v2_fft.Nvm.{Nvm}
use codal_microbit_v2_fft.FileSystem.{
  ◌>>=◌, eof, deleted, entry_valid, entry_new, entry_deleted, Config, File, FileSystem, all_blocks,
  u16, u32, number, has_flag, entry_block, entry_flags, entry_length, next_block, put, table_write,
}
use codal_microbit_v2_fft.FileSystem.Directory.{
  is_valid_filename, get_directory_entry, get_directory_of, create_directory_entry, create_file,
}
use codal_microbit_v2_fft.FileSystem.Data.{find_file, write_back, keep_file}

-- MB_READ, MB_CREAT and MB_APPEND
abbrev pub mb_read : ℕ
mb_read = 1

abbrev pub mb_creat : ℕ
mb_creat = 4

abbrev pub mb_append : ℕ
mb_append = 8

-- MB_SEEK_SET, MB_SEEK_END and MB_SEEK_CUR
abbrev pub seek_set : ℕ
seek_set = 1

abbrev pub seek_end : ℕ
seek_end = 2

abbrev pub seek_cur : ℕ
seek_cur = 4

-- `getFileDescriptor(fd, true)`: the chain without the descriptor.
unfoldable pub drop_file : List File → ℕ → List File
drop_file [] fd = []
drop_file (f ∷ fs) fd = let rest = f ∷ drop_file fs fd in if f.id == fd then fs else rest

-- The loop of `open`, over the chain `all` of open files and from `files` on: `some none` when the
-- entry is open, else the id.
unfoldable pub id_loop : ℕ → List File → List File → ℕ → ℕ → Option (Option ℕ)
id_loop zero all files dirent id = none
id_loop (suc rounds) all [] dirent id = some (some id)
id_loop (suc rounds) all (f ∷ files) dirent id =
    let again = id_loop rounds all all dirent (id + 1) in
    let rest = id_loop rounds all files dirent id in
    if f.dirent == dirent then some none else if f.id == id then again else rest

-- Each id is tried along the chain, and one more than there are files is free.
abbrev pub id_rounds : List File → ℕ
id_rounds all = (length all + 1) * (length all + 1)

-- `while (file && dirent)`: nothing is tried for a file that does not exist.
unfoldable pub choose_id : List File → ℕ → Option (Option ℕ)
choose_id all dirent =
    if dirent == 0 then some (some 0) else id_loop (id_rounds all) all all dirent 0

-- Where `seek` moves to; the three tests come one after the other.
abbrev pub position_of : File → ℕ → ℕ → ℕ
position_of f offset flags =
    if flags == seek_cur
    then u32 (f.seek + offset)
    else if flags == seek_end
    then u32 (f.length + offset)
    else if flags == seek_set
    then offset
    else f.seek

module _ (nvm : Nvm) (cfg : Config) where
  open nvm use {Mem, byte}

  -- The part of `open` that makes the descriptor.
  unfoldable pub add_file : FileSystem Mem → ℕ → ℕ → ℕ → ℕ → Reply ℕ × FileSystem Mem
  add_file fs flags id directory dirent =
      let new = entry_flags nvm fs.mem dirent == entry_new in
      let len = if new then 0 else entry_length nvm fs.mem dirent in
      let f : File = record {
        flags = bit_and flags 0xFFFB;
        id = u16 id;
        seek = if has_flag flags mb_append then len else 0;
        length = len;
        dirent = dirent;
        directory = directory;
        cache_length = 0;
        cache = cfg.stack;
      } in
      (value (u16 id), record fs { open_files = f ∷ fs.open_files })

  -- `open`
  unfoldable pub open_file : FileSystem Mem → List ℕ → ℕ → Option (Reply ℕ × FileSystem Mem)
  open_file fs filename flags =
      if not fs.initialised
      then some (error Code.not_supported, fs)
      else if not (is_valid_filename filename)
      then some (error Code.invalid_parameter, fs)
      else (do
        directory ← get_directory_of nvm cfg fs filename
        if directory == 0 then some (error Code.invalid_parameter, fs) else (do
          dirent ← get_directory_entry nvm cfg fs filename directory
          chosen ← choose_id fs.open_files dirent
          elim chosen [
            | none ↦ some (error Code.not_supported, fs)
            | some id ↦
                if dirent != 0
                then some (add_file fs flags id directory dirent)
                else if not (has_flag flags mb_creat)
                then some (error Code.invalid_parameter, fs)
                else (do
                  (made, fs') ← create_file nvm cfg fs filename directory false
                  if made == 0
                      then some (error Code.no_resources, fs')
                      else some (add_file fs' flags id directory made))
          ]))

  -- The part of `flush` that brings the directory entry up to date.
  unfoldable pub update_entry : FileSystem Mem → File → Option (FileSystem Mem)
  update_entry fs f =
      let old : Bytes = λ i. byte fs.mem (f.dirent + i) in
      let d : Bytes = λ i. if ltb i 20 then old i else number f.length (i - 20) in
      let valid : Bytes = λ i. if i == 18 || i == 19 then number entry_valid (i - 18) else d i in
      let again = (do
        let fs1 = put nvm cfg fs (f.dirent + 18) (number deleted) 2
        (entry, fs2) ← create_directory_entry nvm cfg fs1 f.directory
        some (put nvm cfg fs2 entry d 24)) in
      if entry_length nvm fs.mem f.dirent == f.length
      then some fs
      else if entry_flags nvm fs.mem f.dirent == entry_new
      then some (put nvm cfg fs f.dirent valid 24)
      else again

  -- `flush`
  unfoldable pub flush : FileSystem Mem → ℕ → Option (Code × FileSystem Mem)
  flush fs fd =
      if not fs.initialised
      then some (Code.not_supported, fs)
      else elim (find_file fs.open_files fd) [
        | none ↦ some (Code.invalid_parameter, fs)
        | some f ↦ (do
          (r, fs1, f') ← write_back nvm cfg fs f
          fs2 ← update_entry (keep_file nvm cfg fs1 f') f'
          some (Code.ok, fs2))
      ]

  -- `close`
  unfoldable pub close : FileSystem Mem → ℕ → Option (Code × FileSystem Mem)
  close fs fd = do
    (r, fs') ← flush fs fd
    some (elim r [
      | Code.ok ↦ (Code.ok, record fs' { open_files = drop_file fs'.open_files fd })
      | other ↦ (other, fs')
    ])

  -- `seek`
  unfoldable pub seek : FileSystem Mem → ℕ → ℕ → ℕ → Option (Reply ℕ × FileSystem Mem)
  seek fs fd offset flags =
      if not fs.initialised
      then some (error Code.not_supported, fs)
      else elim (find_file fs.open_files fd) [
        | none ↦ some (error Code.invalid_parameter, fs)
        | some f ↦ (do
          (r, fs', f') ← write_back nvm cfg fs f
          let position = position_of f' offset flags
          some (
              if leb (2 ^ 31) position || ltb f'.length position
              then (error Code.invalid_parameter, keep_file nvm cfg fs' f')
              else (value position, keep_file nvm cfg fs' (record f' { seek = position }))))
      ]

  -- The loop of `remove` over the blocks of the file.
  unfoldable pub delete_loop : ℕ → FileSystem Mem → ℕ → Option (FileSystem Mem)
  delete_loop zero fs block = none
  delete_loop (suc rounds) fs block =
      let next = next_block nvm fs block in
      let rest = delete_loop rounds (table_write nvm cfg fs block deleted) next in
      if block == eof then some fs else rest

  -- The part of `remove` after `open`, on the descriptor it made.
  unfoldable pub remove_file : FileSystem Mem → File → Option (FileSystem Mem)
  remove_file fs f = do
    fs' ← delete_loop all_blocks fs (entry_block nvm fs.mem f.dirent)
    some (put nvm cfg fs' (f.dirent + 18) (number entry_deleted) 2)

  -- `remove`
  unfoldable pub remove : FileSystem Mem → List ℕ → Option (Code × FileSystem Mem)
  remove fs filename = do
    (reply, fs1) ← open_file fs filename mb_read
    elim reply [
      | error c ↦ some (c, fs1)
      | value fd ↦ elim (find_file fs1.open_files fd) [
        -- never: `open` has put it there
        | none ↦ some (Code.ok, fs1)
        | some f ↦ (do
          fs2 ← remove_file (record fs1 { open_files = drop_file fs1.open_files fd }) f
          some (Code.ok, fs2))
      ]
    ]
