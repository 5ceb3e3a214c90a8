-- ===== src/PartialFlashing/Events.antt =====
-- What the service of source/bluetooth/MicroBitPartialFlashingService.cpp does to the flash outside
-- the BLE callback: partialFlashingEvent and noValidation. flash_burn and erase_page of MicroBitFlash
-- are `write` and `erase` of the interface.
use codal_microbit_v2_fft.Base.{
  ℕ, zero, suc, ◌+◌, ◌-◌, ◌/◌, ◌%◌, ◌≡◌, Bool, true, false, ◌||◌, [], ◌∷◌, Bytes, advance, ◌==◌,
  ◌!=◌, if◌then◌else◌,
}
use codal_microbit_v2_fft.Nvm.{Nvm}
use codal_microbit_v2_fft.MemoryMap.{word}
use codal_microbit_v2_fft.PartialFlashing.{
  flash_data_code, end_of_transmission, microbit_reset, Service, also, notified, was_reset,
  restarted_in_ble, user_storage_erased,
}

-- The key "flashIncomplete" of the key value storage of codal-core.
pub record KeyStore : Type 1 where
  pub Keys : Type 0
  pub has : Keys → Bool
  pub put : Keys → Keys
  pub remove : Keys → Keys
  pub has-put : (k : Keys) → has (put k) ≡ true
  pub has-remove : (k : Keys) → has (remove k) ≡ false

-- What the board fixes: `has_device` is whether `microbit_device_instance` is set; and the `settings` of `noValidation` with its size in bytes,
-- whose type is of the nRF SDK.
pub record Board : Type 0 where
  pub has_device : Bool
  pub settings : Bytes
  pub settings_size : ℕ
  pub settings_page : ℕ
  pub mbr_params : ℕ

module _ (nvm : Nvm) where
  open nvm use {Mem, byte, write, erase, page_size}

  -- Whether one of `words` words from an address on has a bit that is not set.
  unfoldable pub is_used : Mem → ℕ → ℕ → Bool
  is_used m zero a = false
  is_used m (suc words) a = word (byte m) a != 0xFFFFFFFF || is_used m words (a + 4)

  -- A page erased where it is used; the code looks at `words` words.
  abbrev pub cleared : Mem → ℕ → ℕ → Mem
  cleared m words page = if is_used m words page then erase m page else m

  -- The loop over the pages of the file system of MicroPython, with `left` to go.
  unfoldable pub clear_pages : ℕ → Mem → ℕ → Mem
  clear_pages zero m page = m
  clear_pages (suc left) m page = clear_pages left (cleared m 1024 page) (page + page_size)

  -- How many pages begin in an area.
  abbrev pub pages_between : ℕ → ℕ → ℕ
  pages_between start finish = (finish - start + (page_size - 1)) / page_size

  -- Whether the bytes at an address are those given: `memcmp`, with `left` to go.
  unfoldable pub differs : Mem → ℕ → Bytes → ℕ → Bool
  differs m a d zero = false
  differs m a d (suc left) = byte m a != d 0 || differs m (a + 1) (advance d 1) left

  module _ (board : Board) where
    -- A page of settings of `noValidation`, saved if different.
    unfoldable pub save_settings : Mem → ℕ → Mem
    save_settings m page =
        if differs m page board.settings board.settings_size
        then write (erase m page) page board.settings ((board.settings_size + 3) / 4)
        else m

    -- `noValidation`
    unfoldable pub no_validation : Mem → Mem
    no_validation m = save_settings (save_settings m board.settings_page) board.mbr_params

  module _ (store : KeyStore) where
    open store use {Keys, has, put, remove}

    -- The part of FLASH_DATA that notes that a program is incomplete.
    unfoldable pub begin_program : Service Mem Keys → Service Mem Keys
    begin_program s =
        let fs_cleared = clear_pages (pages_between s.fs_start s.fs_end) s.mem s.fs_start in
        let cleared_fs = if s.fs_end != 0 then fs_cleared else s.mem in
        record s {
          keys = if has s.keys then s.keys else put s.keys;
          mem = if has s.keys then s.mem else cleared_fs;
        }

    -- FLASH_DATA of `partialFlashingEvent`
    unfoldable pub write_block : Service Mem Keys → Service Mem Keys
    write_block s =
        let t = begin_program s in
        let at_page = cleared t.mem (page_size / 4) t.offset in
        let m = if t.offset % page_size == 0 then at_page else t.mem in
        record t {
          mem = write m t.offset t.block 16;
          effects = also t.effects (notified (flash_data_code ∷ 0xFF ∷ []));
        }

    -- `partialFlashingEvent`
    unfoldable pub partial_flashing_event : Board → Service Mem Keys → ℕ → Service Mem Keys
    partial_flashing_event board s code =
        if code == flash_data_code
        then write_block s
        else if code == end_of_transmission
        then record s {
          mem = no_validation board (write s.mem s.offset s.block 16);
          keys = remove s.keys;
          effects =
              also (if board.has_device then also s.effects user_storage_erased else s.effects)
                was_reset;
        }
        else if code == microbit_reset
        then record s { effects = also s.effects restarted_in_ble }
        else s
