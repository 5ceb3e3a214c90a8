-- ===== src/Log/Setup/Loading/Made.antt =====
-- A log that clear of source/MicroBitLog.cpp has made, after a restart.
use codal_microbit_v2_fft.Base.{
  ℕ, suc, ◌+◌, ◌*◌, ◌%◌, ◌^◌, ◌≤◌, ◌<◌, ◌≡◌, refl, ap, sym, ◌∙◌, arith, Bool, true, false, some, [],
  Bytes, slice, within, ◌==◌, ◌!=◌, if◌then◌else◌,
}
use codal_microbit_v2_fft.Nvm.{Nvm}
use codal_microbit_v2_fft.FsCache.{Geometry}
use codal_microbit_v2_fft.FsCache.Coherent.{IsUsable, IsCoherent}
use codal_microbit_v2_fft.Log.Storage.{write_num, write_digits}
use codal_microbit_v2_fft.Log.Setup.{
  Device, metadata_address, new_journal_start, new_data_start, clear,
}
use codal_microbit_v2_fft.Log.Setup.Metadata.{slice_same}
use codal_microbit_v2_fft.Log.Setup.Making.{metadata_page}
use codal_microbit_v2_fft.Log.Setup.Cleared.{fresh_cells, clear_cells, clear_lem}
use codal_microbit_v2_fft.Log.Setup.Present.{restored, restored_lem}
use codal_microbit_v2_fft.Log.Setup.Loading.{is_only, init}
use codal_microbit_v2_fft.Log.Setup.Loading.Stored.{HasData, HasHeadings, found}
use codal_microbit_v2_fft.Log.Setup.Loading.Whole.{init_lem}

zero_text : slice (λ (_ : ℕ). 48) 0 8 ≡ write_num 0
unfolding write_num write_digits
zero_text = refl

module _ (nvm : Nvm) (g : Geometry) (header : Bytes) (d : Device nvm.Mem) (full_erase : Bool)
    (u : IsUsable g) (wide : 40 < nvm.page_size) (even : nvm.page_size % 2 ≡ 0)
    (start : nvm.flash_start ≡ 0)
    (room : metadata_address nvm g + 6 * nvm.page_size + 4 < nvm.flash_end)
    (top : nvm.flash_end < 2 ^ 32) where
  open nvm use {Mem, byte, flash_start, flash_end, page_size}

  abbrev made : Mem
  made = (clear nvm g header d full_erase).log.mem

  page_cell :
      (k x a : ℕ)
      → metadata_address nvm g ≤ k * page_size
      → k * page_size ≤ new_data_start nvm g
      → x < page_size
      → a ≡ k * page_size + x
      → byte made a ≡ fresh_cells nvm g a
  page_cell k x a low high inside at =
      ap (byte made) at
      ∙ (clear_cells nvm g header d full_erase k x u (omega arith) start room top low high inside
          ∙ ap (fresh_cells nvm g) (sym at))

  journal_cell :
      (x : ℕ)
      → x < page_size
      → byte made (new_journal_start nvm g + x) ≡ (if within 0 8 x then 48 else 255)
  journal_cell x inside =
      let (q, page, past_header) = metadata_page nvm g (omega arith) in
      page_cell (suc q) x (new_journal_start nvm g + x) (omega arith) (omega arith) inside
        (omega arith)
      ∙ ground arith

  data_cell : byte made (new_data_start nvm g) ≡ 255
  data_cell =
      let (q, page, past_header) = metadata_page nvm g (omega arith) in
      page_cell (suc (suc (suc (suc (suc q))))) 0 (new_data_start nvm g) (omega arith) (omega arith)
        (omega arith) (omega arith)
      ∙ ground arith

  heading_cell : byte made (metadata_address nvm g + 40) ≡ 255
  heading_cell =
      let (q, page, past_header) = metadata_page nvm g (omega arith) in
      page_cell q 40 (metadata_address nvm g + 40) (omega arith) (omega arith) wide (omega arith)
      ∙ ground arith

  module _ (r : Device Mem) (off : r.initialized ≡ false) (same : r.log.mem ≡ made) where
    abbrev cells : Bytes
    cells = byte r.log.mem

    from_made : (a v : ℕ) → byte made a ≡ v → cells a ≡ v
    from_made a v h = ap (λ m. byte m a) same ∙ h

    made-HasData : HasData nvm g r.log.mem (restored nvm g r).log 0 0 (new_data_start nvm g)
    made-HasData =
        let journal = new_journal_start nvm g in
        let entry : slice cells (journal + 8 * 0) 8 ≡ slice (λ (_ : ℕ). 48) 0 8 =
          slice_same cells (λ _. 48) (journal + 8 * 0) 0 8
            (λ i lt.
              ap cells (omega arith)
              ∙ from_made (journal + i) 48 (journal_cell i (omega arith) ∙ ground arith)) in
        let next : slice cells (journal + 8 * 0 + 8) 8 ≡ slice (λ (_ : ℕ). 255) 0 8 =
          slice_same cells (λ _. 255) (journal + 8 * 0 + 8) 0 8
            (λ i lt.
              ap cells (omega arith)
              ∙ from_made (journal + (8 + i)) 255
                  (journal_cell (8 + i) (omega arith) ∙ ground arith)) in
        record {
          entries = omega arith;
          aligned = omega arith;
          cleared = λ i lt. absurd (omega arith);
          last = entry ∙ zero_text;
          behind = λ lt. ap (is_only 255) next;
          low = omega arith;
          high = omega arith;
          used = λ i lt. absurd (omega arith);
          is_free = λ lt. from_made (new_data_start nvm g) 255 data_cell;
          inside = omega arith;
        }

    made-HasHeadings :
        HasHeadings nvm g r.log.mem (metadata_address nvm g + 40) (metadata_address nvm g + 40) []
    made-HasHeadings =
        let first = metadata_address nvm g in
        let blank = from_made (first + 40) 255 heading_cell in
        let here : first + 40 + 0 ≡ first + 40 = omega arith in
        record {
          low = omega arith;
          zeros = λ i lt. absurd (omega arith);
          some_byte = ap (λ v. v != 0) blank;
          text = refl;
          used = λ i lt. absurd (omega arith);
          is_free = ap (λ a. cells a == 255) here ∙ ap (λ v. v == 255) blank;
          inside = omega arith;
        }

    -- Where the cache has entries of whole words, the page size is even and more than 40, the flash
    -- starts at 0 and ends below 2 ^ 32, with more than 6 pages and 4 bytes from the metadata on: when
    -- `clear` has run and the device starts again, with a coherent cache and whatever it then has in
    -- memory otherwise, init ends, finds the log and no columns, leaves the memory as it is, and sets
    -- the places as `clear` has set them, the head of the journal and the end of the data included.
    pub init-clear :
        (heap stack : Bytes)
        → IsCoherent nvm g r.log.cache r.log.mem
        → let log = (clear nvm g header d full_erase).log in
          (d' : Device Mem) × (init nvm g header heap stack r ≡ some d')
          × (d'.initialized ≡ true)
          × (d'.log.mem ≡ log.mem)
          × (d'.log.start_address ≡ log.start_address)
          × (d'.log.journal_start ≡ log.journal_start)
          × (d'.log.journal_head ≡ log.journal_head)
          × (d'.log.data_start ≡ log.data_start)
          × (d'.log.data_end ≡ log.data_end)
          × (d'.log.log_end ≡ log.log_end)
          × (d'.log.heading_length ≡ 0)
          × (d'.log.row ≡ r.log.row)
    init-clear heap stack k =
        let present =
          restored_lem nvm g header d r full_erase u (omega arith) start room top off same in
        let (c, runs, k') =
          init_lem nvm g u start top header heap stack r (restored nvm g r) 0 0
            (new_data_start nvm g) (metadata_address nvm g + 40) [] off present k made-HasData
            made-HasHeadings tt in
        let p = clear_lem nvm g header d full_erase in
        let at : new_journal_start nvm g + 8 * 0 ≡ new_journal_start nvm g = omega arith in
        (
          found nvm g (restored nvm g r) c 0 (new_data_start nvm g) (metadata_address nvm g + 40)
              [],
          runs,
          refl,
          same,
          sym p.0,
          sym p.1,
          at ∙ sym p.4,
          sym p.2,
          sym p.5,
          sym p.3,
          refl,
          refl,
        )
