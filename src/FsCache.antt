-- ===== src/FsCache.antt =====
-- source/FSCache.cpp: a write-through cache of blocks of non-volatile memory. The array `cache` is a
-- function of the index; `operationCount` and `lastUsed` are `uint16_t`, addresses `uint32_t`.
pub mod Coherent
pub mod Access
pub mod Replacement
mod Tests
use codal_microbit_v2_fft.Base.{
  ℕ, zero, suc, ◌+◌, ◌*◌, ◌/◌, ◌%◌, ◌^◌, Bool, true, false, ◌&&◌, Option, none, some, Code, Bytes,
  update, memcpy, ltb, ◌==◌, if◌then◌else◌, bit_and, bit_or,
}
use codal_microbit_v2_fft.Nvm.{Nvm}

-- `CacheEntry`; `loaded` is `page != NULL`.
pub record CacheEntry : Type 0 where
  pub address : ℕ
  pub last_used : ℕ
  pub flags : ℕ
  pub loaded : Bool
  pub page : Bytes

-- `blockSize` and `cacheSize`, which the constructor sets for good.
pub record Geometry : Type 0 where
  pub block_size : ℕ
  pub cache_size : ℕ

-- What changes of an `FSCache`.
pub record Cache : Type 0 where
  pub entries : ℕ → CacheEntry
  pub operation_count : ℕ

abbrev pub u16 : ℕ → ℕ
u16 n = n % 2 ^ 16

abbrev pub u32 : ℕ → ℕ
u32 n = n % 2 ^ 32

-- FSCACHE_FLAG_PINNED
abbrev pub flag_pinned : ℕ
flag_pinned = 1

-- `!(flags & FSCACHE_FLAG_PINNED)`
abbrev pub is_unpinned : CacheEntry → Bool
is_unpinned e = bit_and e.flags flag_pinned == 0

abbrev pub empty_entry : CacheEntry
empty_entry = record { address = 0; last_used = 0; flags = 0; loaded = false; page = λ _. 0 }

-- The constructor and `clear`: all entries are zeroed.
pub clear : Cache
clear = record { entries = λ _. empty_entry; operation_count = 0 }

-- `lastUsed = ++operationCount`
pub touch : Cache → ℕ → Cache
touch c i =
    let count = u16 (c.operation_count + 1) in
    record {
      entries = update c.entries i (record (c.entries i) { last_used = count });
      operation_count = count;
    }

-- `cache[i].address == address && cache[i].page`
abbrev pub holds : Cache → ℕ → ℕ → Bool
holds c address i = (c.entries i).address == address && (c.entries i).loaded

-- The loop of `getCacheEntry`, with `cacheSize - i` rounds left.
pub find_entry : Cache → ℕ → ℕ → ℕ → Option ℕ
find_entry c address zero i = none
find_entry c address (suc left) i =
    let rest = find_entry c address left (i + 1) in if holds c address i then some i else rest

-- The loop of `cachePage` that chooses the entry to replace. In `int` the test of the code,
-- `operationCount - a > operationCount - b`, is the one written here with all terms positive.
pub choose : Cache → ℕ → ℕ → ℕ → ℕ
choose c zero i lru = lru
choose c (suc left) i lru =
    let older =
      is_unpinned (c.entries i)
      && ltb (c.operation_count + (c.entries i).last_used)
          (c.operation_count + (c.entries lru).last_used) in
    let rest = choose c left (i + 1) (if older then i else lru) in
    if (c.entries i).loaded then rest else i

module _ (nvm : Nvm) (g : Geometry) where
  open nvm use {Mem, byte, write}
  open g use {block_size, cache_size}

  abbrev touched : Cache → Option ℕ → Option ℕ × Cache
  touched c none = (none, c)
  touched c (some i) = (some i, touch c i)

  -- `getCacheEntry`
  pub get_cache_entry : Cache → ℕ → Option ℕ × Cache
  get_cache_entry c address = touched c (find_entry c address cache_size 0)

  -- The end of `cachePage`: the block at `address` is read into entry `i`. `flash.read` is given a
  -- number of words.
  pub load : Cache → Mem → ℕ → ℕ → Cache
  load c m address i =
      let count = u16 (c.operation_count + 1) in
      record {
        entries = update c.entries i (record {
          address = address;
          last_used = count;
          flags = 0;
          loaded = true;
          page = memcpy (c.entries i).page 0 (λ o. byte m (address + o)) (4 * (block_size / 4));
        });
        operation_count = count;
      }

  abbrev load_if_missing : Mem → ℕ → Option ℕ × Cache → ℕ × Cache
  load_if_missing m address (some i, c) = (i, c)
  load_if_missing m address (none, c) = let i = choose c cache_size 0 0 in (i, load c m address i)

  -- `cachePage`
  pub cache_page : Cache → Mem → ℕ → ℕ × Cache
  cache_page c m address = load_if_missing m address (get_cache_entry c address)

  -- `pin` and `unpin`. `cachePage` returns no NULL, so `pin` returns DEVICE_OK.
  pub pin : Cache → Mem → ℕ → Code × Cache
  pin c m address =
      let (i, c') = cache_page c m address in
      let e = c'.entries i in
      (
        Code.ok,
        record c' {
          entries = update c'.entries i (record e { flags = bit_or e.flags flag_pinned });
        },
      )

  abbrev cleared : Option ℕ × Cache → Code × Cache
  cleared (none, c) = (Code.ok, c)
  cleared (some i, c) =
      let e = c.entries i in
      (
        Code.ok,
        record c { entries = update c.entries i (record e { flags = bit_and e.flags 0xfffe }) },
      )

  pub unpin : Cache → ℕ → Code × Cache
  unpin c address = cleared (get_cache_entry c address)

  abbrev erased : Option ℕ × Cache → Cache
  erased (none, c) = c
  erased (some i, c) =
      touch
        (record c {
          entries =
              update c.entries i
                (record (c.entries i) { page = memcpy (c.entries i).page 0 (λ _. 255) block_size });
        })
        i

  -- `erase`: in the cache alone
  pub erase : Cache → ℕ → Cache
  erase c address = erased (get_cache_entry c address)
