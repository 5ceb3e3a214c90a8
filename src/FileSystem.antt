-- ===== src/FileSystem.antt =====
-- source/MicroBitFileSystem.cpp and inc/MicroBitFileSystem.h: the file system, a table of 16-bit
-- entries at its start and blocks that the table chains. The memory is that of the flash driver, and
-- a pointer into it is an address. A loop that may not end runs on 65536 rounds, as many as there are
-- block numbers, and gives `none` after them.
pub mod Blocks
mod Tests
pub mod Chains
pub mod Table
pub mod Directory
pub mod Mount
pub mod Data
pub mod Open
pub mod Handle
use codal_microbit_v2_fft.Base.{
  ℕ, ◌+◌, ◌-◌, ◌*◌, ◌/◌, ◌%◌, ◌^◌, Bool, Option, none, some, List, Bytes, ◌!=◌, bit_and,
}
use codal_microbit_v2_fft.Nvm.{Nvm}
use codal_microbit_v2_fft.Flash.{flash_write}

-- MBFS_UNUSED, MBFS_EOF and MBFS_DELETED
abbrev pub unused : ℕ
unused = 0xFFFF

abbrev pub eof : ℕ
eof = 0xEFFF

abbrev pub deleted : ℕ
deleted = 0

-- MBFS_DIRECTORY_ENTRY_FREE, _VALID, _DIRECTORY, _NEW and _DELETED
abbrev pub entry_free : ℕ
entry_free = 0x8000

abbrev pub entry_valid : ℕ
entry_valid = 0x4000

abbrev pub entry_directory : ℕ
entry_directory = 0x2000

abbrev pub entry_new : ℕ
entry_new = 0xFFFF

abbrev pub entry_deleted : ℕ
entry_deleted = 0

-- What the build and the board fix: MBFS_BLOCK_SIZE, MBFS_CACHE_SIZE, MICROBIT_DEFAULT_SCRATCH_PAGE,
-- FLASH_PROGRAM_END and MICROBIT_APP_REGION_END. `stack` is what an uninitialised local holds.
pub record Config : Type 0 where
  pub block_size : ℕ
  pub cache_size : ℕ
  pub scratch : ℕ
  pub program_end : ℕ
  pub app_end : ℕ
  pub stack : Bytes

-- `FileDescriptor`, without `next`
pub record File : Type 0 where
  pub flags : ℕ
  pub id : ℕ
  pub seek : ℕ
  pub length : ℕ
  pub dirent : ℕ
  pub directory : ℕ
  pub cache_length : ℕ
  pub cache : Bytes

-- The members of `MicroBitFileSystem` and the memory: `initialised` is MBFS_STATUS_INITIALISED in
-- `status`, and the chain of open files is a list.
pub record FileSystem (M : Type 0) : Type 0 where
  pub mem : M
  pub initialised : Bool
  pub size : ℕ
  pub table : ℕ
  pub table_size : ℕ
  pub last : ℕ
  pub root : ℕ
  pub open_files : List File

-- As many rounds as there are block numbers.
abbrev pub all_blocks : ℕ
all_blocks = 65536

infixl 5 ◌>>=◌
abbrev pub ◌>>=◌ {ℓ κ} : {A : Type ℓ} {B : Type κ} → Option A → (A → Option B) → Option B
none >>= f = none
some a >>= f = f a

abbrev pub u16 : ℕ → ℕ
u16 n = n % 2 ^ 16

abbrev pub u32 : ℕ → ℕ
u32 n = n % 2 ^ 32

-- `a - b` on 32 bits
abbrev pub sub32 : ℕ → ℕ → ℕ
sub32 a b = u32 (a + (2 ^ 32 - b))

-- The bytes of a number in memory, the lowest first.
abbrev pub number : ℕ → Bytes
number v i = v / 256 ^ i % 256

-- `flags & f`
abbrev pub has_flag : ℕ → ℕ → Bool
has_flag flags f = bit_and flags f != 0

module _ (nvm : Nvm) where
  open nvm use {Mem, byte, page_size}

  abbrev pub half : Mem → ℕ → ℕ
  half m a = byte m a + 256 * byte m (a + 1)

  -- The members of the `DirectoryEntry` at an address; `file_name` is its first 16 bytes.
  abbrev pub entry_block : Mem → ℕ → ℕ
  entry_block m a = half m (a + 16)

  abbrev pub entry_flags : Mem → ℕ → ℕ
  entry_flags m a = half m (a + 18)

  abbrev pub entry_length : Mem → ℕ → ℕ
  entry_length m a = half m (a + 20) + 65536 * half m (a + 22)

  -- `getNextFileBlock`, and `fileSystemTable[block]` elsewhere
  unfoldable pub next_block : FileSystem Mem → ℕ → ℕ
  next_block fs block = half fs.mem (fs.table + 2 * block)

  module _ (cfg : Config) where
    -- `flash.flash_write(address, buffer, length, scratch)`
    unfoldable pub flash_put : FileSystem Mem → ℕ → Bytes → ℕ → ℕ → FileSystem Mem
    flash_put fs address buffer len scratch =
        let (code, m) = flash_write nvm fs.mem address buffer len scratch in record fs { mem = m }

    -- The same with the default scratch page.
    abbrev pub put : FileSystem Mem → ℕ → Bytes → ℕ → FileSystem Mem
    put fs address buffer len = flash_put fs address buffer len cfg.scratch

    -- `fileTableWrite`
    unfoldable pub table_write : FileSystem Mem → ℕ → ℕ → FileSystem Mem
    table_write fs block v = put fs (fs.table + 2 * block) (number v) 2

    -- `getBlock`, `getPage` and `getBlockNumber`
    abbrev pub get_block : FileSystem Mem → ℕ → ℕ
    get_block fs block = fs.table + block * cfg.block_size

    abbrev pub get_page : FileSystem Mem → ℕ → ℕ
    get_page fs block = let address = get_block fs block in address - address % page_size

    abbrev pub get_block_number : FileSystem Mem → ℕ → ℕ
    get_block_number fs address = u16 (sub32 address fs.table / cfg.block_size)
