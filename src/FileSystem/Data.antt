-- ===== src/FileSystem/Data.antt =====
-- Reading and writing the data of an open file in source/MicroBitFileSystem.cpp. Sizes are `int`; the
-- model is of those that are not negative. Where `seek` is past `length`, `size` of `read` comes out
-- negative and nothing is copied, as with the difference 0 here.
pub mod Content
pub mod Reading
use codal_microbit_v2_fft.Base.{
  ℕ, zero, suc, ◌+◌, ◌-◌, ◌*◌, ◌&&◌, not, Option, none, some, List, [], ◌∷◌, Bytes, Code, Reply,
  value, error, memcpy, advance, ltb, ◌==◌, ◌!=◌, if◌then◌else◌, min, max,
}
use codal_microbit_v2_fft.Nvm.{Nvm}
use codal_microbit_v2_fft.FileSystem.{
  eof, Config, File, FileSystem, ◌>>=◌, u16, entry_block, next_block, flash_put, table_write,
  get_block,
}
use codal_microbit_v2_fft.FileSystem.Blocks.{get_free_page, get_free_block}

-- `getFileDescriptor` without removal
unfoldable pub find_file : List File → ℕ → Option File
find_file [] fd = none
find_file (f ∷ fs) fd = let rest = find_file fs fd in if f.id == fd then some f else rest

-- What a method writes through the pointer that `getFileDescriptor` gave.
unfoldable pub set_file : List File → File → List File
set_file [] f' = []
set_file (f ∷ fs) f' = let rest = f ∷ set_file fs f' in if f.id == f'.id then f' ∷ fs else rest

module _ (nvm : Nvm) (cfg : Config) where
  open nvm use {Mem, byte}

  -- The walk to the start block, with `left` bytes to go: the block and the offset in it. Each round
  -- takes off a block, so as many rounds as bytes are enough.
  unfoldable pub walk : ℕ → FileSystem Mem → ℕ → ℕ → ℕ × ℕ
  walk zero fs block left = (block, left)
  walk (suc rounds) fs block left =
      let rest = walk rounds fs (next_block nvm fs block) (left - cfg.block_size) in
      if ltb cfg.block_size left then rest else (block, left)

  -- The loop of `read`, with `left` bytes to copy to place `at` of the buffer.
  unfoldable pub read_loop : ℕ → FileSystem Mem → Bytes → ℕ → ℕ → ℕ → ℕ → Option Bytes
  read_loop zero fs buffer at left block offset = none
  read_loop (suc rounds) fs buffer at left block offset =
      let n = min left (cfg.block_size - offset) in
      let from = get_block nvm cfg fs block + offset in
      let buffer' = memcpy buffer at (advance (byte fs.mem) from) n in
      let full = offset + n == cfg.block_size in
      let block' = if full then next_block nvm fs block else block in
      let offset' = if full then 0 else offset + n in
      let rest = read_loop rounds fs buffer' (at + n) (left - n) block' offset' in
      if 0 == left then some buffer else rest

  -- Two rounds copy at least one byte.
  abbrev pub rounds_for : ℕ → ℕ
  rounds_for size = 2 * size + 2

  -- The loop of `writeBuffer`, with `copied` bytes copied and `left` to go: how many are copied.
  unfoldable pub write_loop :
      ℕ → FileSystem Mem → File → Bytes → ℕ → ℕ → ℕ → ℕ → Option (ℕ × FileSystem Mem)
  write_loop zero fs f buffer copied left block offset = none
  write_loop (suc rounds) fs f buffer copied left block offset =
      let n = min left (cfg.block_size - offset) in
      let to = get_block nvm cfg fs block + offset in
      let source = advance buffer copied in
      let scratch =
        (if ltb (f.seek + copied) f.length
          then get_free_page nvm cfg fs
          else some (cfg.scratch, fs)) in
      let fs1 =
        (if n != 0
          then scratch >>= (λ r. some (flash_put nvm cfg r.1 to source n r.0))
          else some fs) in
      let more = offset + n == cfg.block_size && ltb 0 (left - n) in
      let next = (do
        fs2 ← fs1
        (fresh, fs3) ← get_free_block nvm cfg fs2
        let fs4 = table_write nvm cfg (table_write nvm cfg fs3 fresh eof) block fresh
        let rest = write_loop rounds fs4 f buffer (copied + n) (left - n) fresh 0
        if fresh == 0 then some (copied + n, fs3) else rest) in
      let rest =
        fs1
        >>= (λ fs2. write_loop rounds fs2 f buffer (copied + n) (left - n) block (offset + n)) in
      if 0 == left then some (copied, fs) else if more then next else rest

  -- `writeBuffer`: the number of bytes, the file system and the descriptor.
  unfoldable pub write_buffer :
      FileSystem Mem → File → Bytes → ℕ → Option (ℕ × FileSystem Mem × File)
  write_buffer fs f buffer size = do
    let (block, offset) = walk f.seek fs (entry_block nvm fs.mem f.dirent) f.seek
    (copied, fs') ← write_loop (rounds_for size) fs f buffer 0 size block offset
    some (copied, fs', record f { length = max f.length (f.seek + copied); seek = f.seek + copied })

  -- `writeBack`
  unfoldable pub write_back : FileSystem Mem → File → Option (ℕ × FileSystem Mem × File)
  write_back fs f =
      if f.cache_length != 0
      then (do
        (r, fs', f') ← write_buffer fs f f.cache f.cache_length
        some (r, fs', record f' { cache_length = 0 }))
      else some (0, fs, f)

  -- A descriptor written back to the chain of open files.
  abbrev pub keep_file : FileSystem Mem → File → FileSystem Mem
  keep_file fs f = record fs { open_files = set_file fs.open_files f }

  -- `read`, with what `buffer` points to unless it is NULL: the reply, the buffer and the file system.
  unfoldable pub read :
      FileSystem Mem → ℕ → Option Bytes → ℕ → Option (Reply ℕ × Bytes × FileSystem Mem)
  read fs fd buffer size =
      if not fs.initialised
      then some (error Code.not_supported, cfg.stack, fs)
      else elim (find_file fs.open_files fd) [
        | none ↦ some (error Code.invalid_parameter, cfg.stack, fs)
        | some f ↦ elim buffer [
          | none ↦ some (error Code.invalid_parameter, cfg.stack, fs)
          | some to ↦ if size == 0 then some (error Code.invalid_parameter, to, fs) else (do
            (r, fs', f') ← write_back fs f
            let n = min size (f'.length - f'.seek)
            let (block, offset) = walk f'.seek fs' (entry_block nvm fs'.mem f'.dirent) f'.seek
            to' ← read_loop (rounds_for n) fs' to 0 n block offset
            some (value n, to', keep_file fs' (record f' { seek = f'.seek + n })))
        ]
      ]

  -- The loop of `write` through the cache, with `copied` bytes copied; each round adds at least one.
  unfoldable pub cache_loop :
      ℕ → FileSystem Mem → File → Bytes → ℕ → ℕ → Option (ℕ × FileSystem Mem × File)
  cache_loop zero fs f buffer size copied = none
  cache_loop (suc rounds) fs f buffer size copied =
      let n = min size (cfg.cache_size - f.cache_length) in
      let f1 = record f {
        cache = memcpy f.cache f.cache_length buffer n;
        cache_length = u16 (f.cache_length + n);
      } in
      let flushed =
        (if f1.cache_length == cfg.cache_size then write_back fs f1 else some (0, fs, f1)) in
      let next = flushed >>= (λ r. cache_loop rounds r.1 r.2 buffer size (copied + n)) in
      if ltb copied size then next else some (copied, fs, f)

  -- `write`
  unfoldable pub write : FileSystem Mem → ℕ → Option Bytes → ℕ → Option (Reply ℕ × FileSystem Mem)
  write fs fd buffer size =
      if not fs.initialised
      then some (error Code.not_supported, fs)
      else elim (find_file fs.open_files fd) [
        | none ↦ some (error Code.invalid_parameter, fs)
        | some f ↦ elim buffer [
          | none ↦ some (error Code.invalid_parameter, fs)
          | some from ↦
              if size == 0
              then some (error Code.invalid_parameter, fs)
              else if ltb size cfg.cache_size
              then (do
                (n, fs', f') ← cache_loop (suc size) fs f from size 0
                some (value n, keep_file fs' f'))
              else (do
                (r, fs1, f1) ← write_back fs f
                (n, fs2, f2) ← write_buffer fs1 f1 from size
                some (value n, keep_file fs2 f2))
        ]
      ]
