-- ===== src/FileSystem/Open/Removed.antt =====
-- What `remove` of source/MicroBitFileSystem.cpp does with a file that is not open: open, and then the
-- part that Remove is about.
use codal_microbit_v2_fft.Base.{
  ℕ, some, none, Code, value, length, ◌==◌, if◌then◌else◌, bit_and, Option, Reply, error,
}
use codal_microbit_v2_fft.Nvm.{Nvm}
use codal_microbit_v2_fft.FileSystem.{
  Config, File, FileSystem, ◌>>=◌, u16, entry_flags, entry_new, entry_length,
}
use codal_microbit_v2_fft.FileSystem.Data.{find_file}
use codal_microbit_v2_fft.FileSystem.Open.{mb_read, drop_file, remove_file}

module _ (nvm : Nvm) (cfg : Config) where
  open nvm use {Mem}

  -- What `remove` does once the descriptor is looked for, and once `open` has returned
  abbrev after_find : FileSystem Mem → ℕ → Option File → Option (Code × FileSystem Mem)
  after_find fs1 fd none = some (Code.ok, fs1)
  after_find fs1 fd (some f) =
      remove_file nvm cfg (record fs1 { open_files = drop_file fs1.open_files fd }) f
      >>= (λ fs2. some (Code.ok, fs2))

  abbrev after_open : FileSystem Mem → Reply ℕ → Option (Code × FileSystem Mem)
  after_open fs1 (error c) = some (c, fs1)
  after_open fs1 (value fd) = after_find fs1 fd (find_file fs1.open_files fd)

  -- The descriptor that `remove` makes and drops
  abbrev descriptor : FileSystem Mem → ℕ → ℕ → ℕ → File
  descriptor fs directory dirent id = record {
    flags = bit_and mb_read 0xFFFB;
    id = u16 id;
    seek = 0;
    length =
        if entry_flags nvm fs.mem dirent == entry_new then 0 else entry_length nvm fs.mem dirent;
    dirent = dirent;
    directory = directory;
    cache_length = 0;
    cache = cfg.stack;
  }
