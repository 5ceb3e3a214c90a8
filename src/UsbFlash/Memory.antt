-- ===== src/UsbFlash/Memory.antt =====
-- The storage of source/MicroBitUSBFlashManager.cpp: read, write and erase. Addresses and lengths in
-- bytes are `uint32_t`; a length in words is taken to be below 2 ^ 30.
use codal_microbit_v2_fft.Base.{
  ℕ, zero, suc, ◌+◌, ◌-◌, ◌*◌, ◌/◌, ◌%◌, ◌^◌, min, Bool, ◌&&◌, ◌||◌, Option, none, some, List, [],
  ◌∷◌, ◌++◌, Bytes, Code, of_list, length, slice, drop, advance, get_or, ltb, ◌==◌, ◌!=◌,
  if◌then◌else◌, bit_or,
}
use codal_microbit_v2_fft.FileSystem.{u32, sub32}
use codal_microbit_v2_fft.UsbFlash.{Bus, Manager, transact, get_geometry}

-- MICROBIT_USB_FLASH_READ_CMD, MICROBIT_USB_FLASH_WRITE_CMD, MICROBIT_USB_FLASH_ERASE_CMD and
-- KL27_FLASH_MAX_WRITE_LENGTH
abbrev pub read_cmd : ℕ
read_cmd = 0x0A

abbrev pub write_cmd : ℕ
write_cmd = 0x0B

abbrev pub erase_cmd : ℕ
erase_cmd = 0x0C

abbrev pub max_write_length : ℕ
max_write_length = 64

-- `htonl` of a word, as it lies in memory: the highest byte first.
abbrev pub network_bytes : ℕ → List ℕ
network_bytes w = w / 2 ^ 24 % 256 ∷ w / 2 ^ 16 % 256 ∷ w / 2 ^ 8 % 256 ∷ w % 256 ∷ []

-- The two words at the start of a request.
abbrev pub header : ℕ → ℕ → ℕ → List ℕ
header cmd address second = network_bytes (bit_or (cmd * 2 ^ 24) address) ++ network_bytes second

-- `eraseEnd`, the block that holds the last byte before `finish`, and `restoreLength2`, how many bytes
-- of it lie behind.
abbrev pub last_block : ℕ → ℕ → ℕ
last_block size finish = sub32 (finish / size * size) (if finish % size == 0 then size else 0)

abbrev pub bytes_after : ℕ → ℕ → ℕ
bytes_after size finish = (size - finish % size) % size

module _ (bus : Bus) where
  open bus use {State}

  -- `read`, of `words` words
  unfoldable pub read : Manager State → ℕ → ℕ → List ℕ × Manager State
  read m address words =
      let len = u32 (words * 4) in
      let (response, m') = transact bus m (header read_cmd address len) (len + 8) in
      (if ltb 8 (length response) then drop 8 response else [], m')

  -- `read` into memory
  unfoldable pub read_into : Manager State → Bytes → ℕ → ℕ → Code × Bytes × Manager State
  read_into m dest address words =
      let (b, m') = read m address words in
      if length b == 0
      then (Code.no_data, dest, m')
      else (Code.ok, λ i. if ltb i (words * 4) then get_or b i 0 else dest i, m')

  -- The loop of `write` with `left` segments to go: as many rounds as `p < end` holds in. The request
  -- is the header and the segment, since the buffer is truncated to them.
  unfoldable pub write_loop : ℕ → Manager State → ℕ → Bytes → ℕ → Code × Manager State
  write_loop zero m p source len = (Code.ok, m)
  write_loop (suc left) m p source len =
      let n = min max_write_length len in
      let (response, m') = transact bus m (header write_cmd p n ++ slice source 0 n) 9 in
      let rest = write_loop left m' (p + n) (advance source n) (len - n) in
      if length response == 0 then (Code.i2c_error, m') else rest

  -- `write`, of `words` words
  unfoldable pub write : Manager State → ℕ → Bytes → ℕ → Code × Manager State
  write m address source words =
      let len = words * 4 in
      write_loop ((len + (max_write_length - 1)) / max_write_length) m address source len

  -- `write` of a buffer
  unfoldable pub write_buffer : Manager State → List ℕ → ℕ → Code × Manager State
  write_buffer m buffer address = write m address (of_list buffer) (length buffer / 4)

  -- The loop of `erase` over the blocks up to `last`, `none` where it goes on for more rounds.
  unfoldable pub erase_loop : ℕ → Manager State → ℕ → ℕ → Option (Code × Manager State)
  erase_loop zero m page last = none
  erase_loop (suc rounds) m page last =
      let (response, m') = transact bus m (header erase_cmd page page) 1 in
      let rest = erase_loop rounds m' (page + m'.block_size) last in
      if ltb last page
      then some (Code.ok, m)
      else if length response == 0
      then some (Code.i2c_error, m')
      else rest

  -- The part of a block that is put back; the result of `write` is not looked at.
  unfoldable pub restore : Manager State → List ℕ → ℕ → Manager State
  restore m saved address =
      let (code, m') = write_buffer m saved address in if ltb 0 (length saved) then m' else m

  -- The part of a block that is saved, where it is to be.
  unfoldable pub save : Bool → Manager State → ℕ → ℕ → List ℕ × Manager State
  save wanted m address n = if wanted then read m address (n / 4) else ([], m)

  -- The parts put back behind the loop of `erase`.
  unfoldable pub put_saved :
      List ℕ → ℕ → List ℕ → ℕ → Option (Code × Manager State) → Option (Code × Manager State)
  put_saved saved1 first saved2 finish none = none
  put_saved saved1 first saved2 finish (some (Code.ok, m)) =
      some (Code.ok, restore (restore m saved1 first) saved2 finish)
  put_saved saved1 first saved2 finish (some (other, m)) = some (other, m)

  -- `erase` of the `len` bytes up to `finish`, with the geometry known: no more rounds than there are
  -- blocks, and one to see that it is done.
  unfoldable pub erase_between : ℕ → ℕ → Manager State → ℕ → ℕ → ℕ → Option (Code × Manager State)
  erase_between size count m address len finish =
      let first = address / size * size in
      let last = last_block size finish in
      let partial = first != address || len != u32 (sub32 last first + size) in
      let before = address - first in
      let after = bytes_after size finish in
      let (saved1, m1) = save (partial && ltb 0 before) m first before in
      let (saved2, m2) = save (partial && ltb 0 after) m1 finish after in
      let erased = put_saved saved1 first saved2 finish (erase_loop (count + 1) m2 first last) in
      if ltb (size * count) finish || len % 4 != 0 then some (Code.invalid_parameter, m) else erased

  -- `erase`, of `words` words
  unfoldable pub erase : Manager State → ℕ → ℕ → Option (Code × Manager State)
  erase m0 address words =
      let m = get_geometry bus m0 in
      let len = u32 (words * 4) in
      erase_between m.block_size m.block_count m address len (u32 (address + len))

  -- `erase` of a page
  unfoldable pub erase_page : Manager State → ℕ → Option (Code × Manager State)
  erase_page m page = let m' = get_geometry bus m in erase m' page (m'.block_size / 4)
