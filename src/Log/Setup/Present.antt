-- ===== src/Log/Setup/Present.antt =====
-- That isPresent of source/MicroBitLog.cpp finds the log that clear has made.
use native.Mathlib.Nat.{add_assoc}
use codal_microbit_v2_fft.Base.{
  ℕ, ◌+◌, ◌*◌, ◌^◌, ◌≤◌, ◌<◌, ◌≡◌, ap, ap₂, sym, ◌∙◌, arith, Bool, true, false, ◌&&◌, Bytes,
  of_list, slice, ltb, leb, if◌then◌else◌,
}
use codal_microbit_v2_fft.Nvm.{Nvm}
use codal_microbit_v2_fft.FsCache.{Geometry}
use codal_microbit_v2_fft.FsCache.Coherent.{IsUsable}
use codal_microbit_v2_fft.Log.{same_text}
use codal_microbit_v2_fft.Log.Setup.{
  Device, version, metadata, metadata_address, new_journal_start, new_data_start, new_log_end,
  is_present, clear,
}
use codal_microbit_v2_fft.Log.Setup.Strtoul.{strtoul, strtoul-write_num}
use codal_microbit_v2_fft.Log.Setup.Metadata.{slice_same, end_field, start_field, version_field}
use codal_microbit_v2_fft.Log.Setup.Cleared.{clear-metadata, clear_lem}

module _ (nvm : Nvm) (g : Geometry) where
  open nvm use {Mem, byte, flash_start, flash_end, page_size}

  -- A device that has just started, with the places of the new log.
  abbrev pub restored : Device Mem → Device Mem
  restored r = record r {
    log = record r.log {
      start_address = metadata_address nvm g;
      data_start = new_data_start nvm g;
      log_end = new_log_end nvm g;
      journal_start = new_journal_start nvm g;
    };
  }

  pub restored_lem :
      (header : Bytes) (d restarted : Device Mem) (full_erase : Bool)
      → IsUsable g
      → 40 ≤ page_size
      → flash_start ≡ 0
      → metadata_address nvm g + 6 * page_size + 4 < flash_end
      → flash_end < 2 ^ 32
      → restarted.initialized ≡ false
      → restarted.log.mem ≡ (clear nvm g header d full_erase).log.mem
      → is_present nvm g restarted ≡ (true, restored restarted)
  unfolding is_present
  restored_lem header d r full_erase u wide start room top off same =
      let first = metadata_address nvm g in
      let text = of_list (metadata (new_data_start nvm g) (new_log_end nvm g)) in
      let m = r.log.mem in
      let cells = λ (a n : ℕ) (inside : a + n ≤ 40).
        slice_same (byte m) text (first + a) a n (λ i lt.
          ap (λ t. byte t (first + a + i)) same
          ∙ (ap (λ b. byte (clear nvm g header d full_erase).log.mem b) (add_assoc first a i)
              ∙ clear-metadata nvm g header d full_erase (a + i) u wide start room top
                  (omega arith))) in
      let end_text : strtoul (slice (byte m) (first + 18) 10) ≡ new_log_end nvm g =
        ap strtoul
          (cells 18 10 (omega arith) ∙ end_field (new_data_start nvm g) (new_log_end nvm g))
        ∙ strtoul-write_num (new_log_end nvm g) (omega arith) in
      let start_text : strtoul (slice (byte m) (first + 29) 10) ≡ new_data_start nvm g =
        ap strtoul
          (cells 29 10 (omega arith) ∙ start_field (new_data_start nvm g) (new_log_end nvm g))
        ∙ strtoul-write_num (new_data_start nvm g) (omega arith) in
      let here : slice (byte m) first 17 ≡ slice text 0 17 =
        ap (λ a. slice (byte m) a 17) (omega arith) ∙ cells 0 17 (omega arith) in
      let named : same_text (slice (byte m) first 17) version ≡ true =
        ap (λ t. same_text t version) here
        ∙ version_field (new_data_start nvm g) (new_log_end nvm g) in
      let sound : ℕ → ℕ → Bool → Bool =
        λ a b v. leb (first + 2 * page_size) a && ltb a b && ltb b flash_end && v in
      let passes : sound (new_data_start nvm g) (new_log_end nvm g) true ≡ true = ground arith in
      let shown : ℕ → ℕ → Bool × Device Mem = λ a b. (
        sound a b (same_text (slice (byte m) first 17) version),
        record r {
          log = record r.log {
            start_address = first;
            data_start = a;
            log_end = b;
            journal_start = first + page_size;
          };
        },
      ) in
      let found =
        shown (strtoul (slice (byte m) (first + 29) 10))
          (strtoul (slice (byte m) (first + 18) 10)) in
      ap (λ b. if b then (true, r) else found) off
      ∙ (ap₂ shown start_text end_text
          ∙ ap (λ t. (t, restored r))
              (ap (sound (new_data_start nvm g) (new_log_end nvm g)) named ∙ passes))

  -- Where the cache has entries of whole words, a page has 40 bytes or more, the flash starts at 0 and
  -- ends below 2 ^ 32, with more than 6 pages and 4 bytes from the metadata on: when `clear` has run
  -- and the device starts again, with whatever it then has in memory, isPresent finds the log, with
  -- the places of metadata, journal and data and the end as `clear` has set them.
  pub is_present-clear :
      (header : Bytes) (d restarted : Device Mem) (full_erase : Bool)
      → IsUsable g
      → 40 ≤ page_size
      → flash_start ≡ 0
      → metadata_address nvm g + 6 * page_size + 4 < flash_end
      → flash_end < 2 ^ 32
      → restarted.initialized ≡ false
      → restarted.log.mem ≡ (clear nvm g header d full_erase).log.mem
      → let made = (clear nvm g header d full_erase).log in
        let (found, d') = is_present nvm g restarted in
        (found ≡ true)
        × (d'.log.start_address ≡ made.start_address)
        × (d'.log.journal_start ≡ made.journal_start)
        × (d'.log.data_start ≡ made.data_start)
        × (d'.log.log_end ≡ made.log_end)
  is_present-clear header d r full_erase u wide start room top off same =
      let e = restored_lem header d r full_erase u wide start room top off same in
      let p = clear_lem nvm g header d full_erase in
      (
        ap (λ o. o.0) e,
        ap (λ o. o.1.log.start_address) e ∙ sym p.0,
        ap (λ o. o.1.log.journal_start) e ∙ sym p.1,
        ap (λ o. o.1.log.data_start) e ∙ sym p.2,
        ap (λ o. o.1.log.log_end) e ∙ sym p.3,
      )
