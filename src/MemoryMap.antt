-- ===== src/MemoryMap.antt =====
-- The map of the regions of flash in source/MicroBitMemoryMap.cpp, as the constructor builds it from
-- what the flash holds. `image` is the memory, byte by byte; addresses on the way up do not pass
-- 2 ^ 32. `crc32_compute`, of the nRF SDK, is a parameter.
pub mod Finding
mod Tests
use codal_microbit_v2_fft.Base.{
  ℕ, zero, suc, ◌+◌, ◌-◌, ◌*◌, ◌/◌, ◌%◌, ◌^◌, Bool, ◌&&◌, not, Option, none, some, Bytes, Code,
  update, advance, ltb, ◌==◌, if◌then◌else◌,
}

-- NUMBER_OF_REGIONS, REGION_SD, REGION_CODAL, REGION_MAKECODE, MAX_STRING_LENGTH and
-- HASH_TYPE_POINTER
abbrev pub number_of_regions : ℕ
number_of_regions = 3

abbrev pub region_sd : ℕ
region_sd = 0

abbrev pub region_codal : ℕ
region_codal = 1

abbrev pub region_makecode : ℕ
region_makecode = 2

abbrev pub max_string_length : ℕ
max_string_length = 100

abbrev pub hash_type_pointer : ℕ
hash_type_pointer = 2

-- `Region`; the hash is the first 8 bytes.
pub record Region : Type 0 where
  pub region_id : ℕ
  pub start_address : ℕ
  pub end_address : ℕ
  pub hash : Bytes

-- `regionCount` and `memoryMapStore`; the array is that of the first three indices.
pub record MemoryMap : Type 0 where
  pub region_count : ℕ
  pub memory_map : ℕ → Region

-- PAGE_SIZE, which is MICROBIT_CODEPAGESIZE, FLASH_PROGRAM_END, MICROBIT_DEFAULT_SCRATCH_PAGE,
-- MICROBIT_APP_REGION_START and MICROBIT_APP_REGION_END
pub record Layout : Type 0 where
  pub page_size : ℕ
  pub program_end : ℕ
  pub scratch : ℕ
  pub app_start : ℕ
  pub app_end : ℕ

-- `Region()`, and the members before the constructor runs
abbrev pub no_region : Region
no_region = record { region_id = 0; start_address = 0; end_address = 0; hash = λ _. 0 }

abbrev pub no_regions : MemoryMap
no_regions = record { region_count = 0; memory_map = λ _. no_region }

-- `pushRegion`; the hash is not copied.
unfoldable pub push_region : MemoryMap → Region → Code × MemoryMap
push_region s region =
    let old = s.memory_map s.region_count in
    let new = record old {
      start_address = region.start_address;
      end_address = region.end_address;
      region_id = region.region_id;
    } in
    if s.region_count == number_of_regions then (Code.no_resources, s) else (
      Code.ok,
      record {
        region_count = (s.region_count + 1) % 256;
        memory_map = update s.memory_map s.region_count new;
      },
    )

-- The loop of `updateRegion`, with `left` entries to go: the index where it stops.
unfoldable pub region_index : ℕ → ℕ → MemoryMap → ℕ → ℕ
region_index zero i s id = i
region_index (suc left) i s id =
    let rest = region_index left (i + 1) s id in
    if (s.memory_map i).region_id == id then i else rest

-- `updateRegion`
unfoldable pub update_region : MemoryMap → Region → Code × MemoryMap
update_region s region =
    let i = region_index number_of_regions 0 s region.region_id in
    if i == number_of_regions
    then (Code.no_resources, s)
    else (Code.ok, record s { memory_map = update s.memory_map i region })

-- The `uint16_t` and the `uint32_t` at an address, and the pointer `n` bytes before it
abbrev pub half : Bytes → ℕ → ℕ
half image a = image a + 256 * image (a + 1)

abbrev pub word : Bytes → ℕ → ℕ
word image a = half image a + 65536 * half image (a + 2)

abbrev pub back : ℕ → ℕ → ℕ
back a n = (a + (2 ^ 32 - n)) % 2 ^ 32

-- The loop of `processRecord` over a string, with `left` characters to go.
unfoldable pub string_length : ℕ → Bytes → ℕ → ℕ
string_length zero string n = n
string_length (suc left) string n =
    let rest = string_length left string (n + 1) in if string n == 0 then n else rest

-- The bytes of a number, the lowest first, as many as it has; the others are 0.
abbrev pub bytes_of_word : ℕ → Bytes
bytes_of_word v i = if ltb i 4 then v / 256 ^ i % 256 else 0

module _ (image : Bytes) where
  -- The two tests of `findHashes` on a page; a pointer of the code counts words.
  unfoldable pub is_pxt : ℕ → Bool
  is_pxt a =
      word image a == 0x923B8E70
      && word image (a + 4) == 0x41A815C6
      && word image (a + 8) == 0xC96698C4
      && word image (a + 12) == 0x9751EE75

  unfoldable pub is_python : ℕ → Bool
  is_python a = word image (back a 16) == 0x597F30FE && word image (back a 4) == 0xC1B1D79D

module _ (layout : Layout) where
  open layout use {page_size, program_end, scratch, app_start, app_end}

  -- The first page that `findHashes` looks at.
  unfoldable pub first_page : ℕ
  first_page =
      let rem = program_end % page_size in
      if rem == 0 then program_end else program_end + (page_size - rem)

  module _ (image : Bytes) where
    -- The regions of a PXT build: the three of `pushRegion`, the hashes and the start.
    unfoldable pub pxt_regions : MemoryMap → ℕ → MemoryMap
    pxt_regions s a =
        let region : ℕ → ℕ → ℕ → Region = λ id start finish. record {
          region_id = id;
          start_address = start;
          end_address = finish;
          hash = image;
        } in
        let next_page = (program_end + (page_size - program_end % page_size)) % 2 ^ 32 in
        let (c1, s1) = push_region s (region region_sd 0 app_start) in
        let (c2, s2) = push_region s1 (region region_codal app_start program_end) in
        let (c3, s3) = push_region s2 (region region_makecode next_page app_end) in
        let codal = record (s3.memory_map 1) { hash = advance image (a + 16) } in
        let makecode = record (s3.memory_map 2) {
          hash = advance image (a + 24);
          start_address = a;
        } in
        record s3 { memory_map = update (update s3.memory_map 1 codal) 2 makecode }

    module _ (crc : Bytes → ℕ → ℕ) where
      -- `hash` of `processRecord`
      unfoldable pub record_hash : ℕ → Bytes
      record_hash address =
          let string = advance image (word image (address + 8)) in
          let n = string_length max_string_length string 0 in
          if image (address + 1) == hash_type_pointer
          then bytes_of_word (crc string n)
          else advance image (address + 8)

      -- `processRecord`: the members of the record are at 0, 1, 2, 4 and 8 bytes from the address.
      unfoldable pub process_record : MemoryMap → ℕ → Code × MemoryMap
      process_record s address =
          let id = image address in
          let start = half image (address + 2) * page_size % 2 ^ 32 in
          let new : Region = record {
            region_id = id;
            start_address = start;
            end_address = (start + word image (address + 4)) % 2 ^ 32;
            hash = record_hash address;
          } in
          if ltb number_of_regions id
          then (Code.invalid_parameter, s)
          else (Code.ok, record s { memory_map = update s.memory_map ((id + 255) % 256) new })

      -- The loop over the records of a Python build, with `left` to go.
      unfoldable pub record_loop : ℕ → ℕ → MemoryMap → ℕ → MemoryMap
      record_loop zero i s a = s
      record_loop (suc left) i s a =
          let (code, s') = process_record s (back a ((2 + i) * 16)) in record_loop left (i + 1) s' a

      unfoldable pub python_regions : MemoryMap → ℕ → MemoryMap
      python_regions s a =
          let n = image (back a 8) in
          let rest = record_loop n 0 s a in if is_python image a then rest else s

      -- The loop of `findHashes` over the pages.
      unfoldable pub find_loop : ℕ → MemoryMap → ℕ → Option MemoryMap
      find_loop zero s a = none
      find_loop (suc rounds) s a =
          let rest = find_loop rounds (python_regions s a) (a + page_size) in
          if not (ltb a scratch)
          then some s
          else if is_pxt image a
          then some (pxt_regions s a)
          else rest

      -- `findHashes`: no more pages than bytes.
      unfoldable pub find_hashes : MemoryMap → Option MemoryMap
      find_hashes s = find_loop (scratch + 1) s first_page

      -- The constructor
      unfoldable pub memory_map_init : Option MemoryMap
      memory_map_init = find_hashes no_regions
