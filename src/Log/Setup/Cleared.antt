-- ===== src/Log/Setup/Cleared.antt =====
-- What clear of source/MicroBitLog.cpp leaves in flash, and the places that it sets.
use codal_microbit_v2_fft.Base.{
  ℕ, suc, ◌+◌, ◌-◌, ◌*◌, ◌^◌, ◌≤◌, ◌<◌, ◌≡◌, refl, ap, sym, ◌∙◌, arith, Bool, true, false, Bytes,
  if-both, of_list, within, ◌==◌, if◌then◌else◌,
}
use codal_microbit_v2_fft.Nvm.{Nvm}
use codal_microbit_v2_fft.FsCache.{Geometry}
use codal_microbit_v2_fft.FsCache.Coherent.{IsUsable, clear-IsCoherent}
use codal_microbit_v2_fft.FsCache.Access.Writing.{overwritten}
use codal_microbit_v2_fft.Log.Storage.{LogFile, cache_write}
use codal_microbit_v2_fft.Log.Session.{TimeStampFormat, divisor, set_time_stamp}
use codal_microbit_v2_fft.Log.Setup.{
  Device, metadata, metadata_address, new_journal_start, new_data_start, new_log_end, emptied,
  clear,
}
use codal_microbit_v2_fft.Log.Setup.Metadata.{metadata-AreBytes}
use codal_microbit_v2_fft.Log.Setup.Making.{metadata_page, cache_write_lem, prepared}

module _ (nvm : Nvm) (g : Geometry) where
  open nvm use {Mem, byte, flash_start, flash_end, page_size}

  set_time_stamp-mem :
      (s : LogFile Mem) (f : TimeStampFormat) → (set_time_stamp nvm g s f).mem ≡ s.mem
  unfolding set_time_stamp
  set_time_stamp-mem s f =
      if-both (λ (t : LogFile Mem). t.mem ≡ s.mem) (divisor f == 0) (λ _. refl) (λ _. refl)

  -- The cells of a page `k` that has been erased, which is not that of the header.
  abbrev pub fresh_cells : ℕ → ℕ
  fresh_cells x =
      let text = of_list (metadata (new_data_start nvm g) (new_log_end nvm g)) in
      overwritten (overwritten (λ _. 255) (metadata_address nvm g) 40 text)
        (new_journal_start nvm g) 8 (λ _. 48) x

  pub clear_cells :
      (header : Bytes) (d : Device Mem) (full_erase : Bool) (k x : ℕ)
      → IsUsable g
      → 40 ≤ page_size
      → flash_start ≡ 0
      → metadata_address nvm g + 6 * page_size + 4 < flash_end
      → flash_end < 2 ^ 32
      → metadata_address nvm g ≤ k * page_size
      → k * page_size ≤ new_data_start nvm g
      → x < page_size
      → byte (clear nvm g header d full_erase).log.mem (k * page_size + x)
        ≡ fresh_cells (k * page_size + x)
  unfolding clear emptied
  clear_cells header d full_erase k x u wide start room top behind near high =
      let first = metadata_address nvm g in
      let journal = new_journal_start nvm g in
      let last = if full_erase then new_log_end nvm g else new_data_start nvm g in
      let (q, page, past_header) = metadata_page nvm g (omega arith) in
      let next : suc q * page_size ≡ journal = omega arith in
      let in_range : k * page_size ≤ last = ground arith in
      let journal_in : journal ≤ last = ground arith in
      let text = of_list (metadata (new_data_start nvm g) (new_log_end nvm g)) in
      let log1 = emptied nvm g header d.log full_erase in
      let log2 = cache_write nvm g log1 first text 40 in
      let m1 = nvm.write d.log.mem (new_log_end nvm g) (λ _. 0) 1 in
      let blank1 = λ (i : ℕ) (lt : i < 40).
        ap (λ a. byte log1.mem (a + i)) page
        ∙ prepared nvm g m1 header last q i (omega arith) start (omega arith) (omega arith)
            (omega arith) in
      let (k1, c1) =
        cache_write_lem nvm g log1 first text 40 u start (omega arith) (omega arith)
          (clear-IsCoherent nvm g log1.mem)
          (λ i lt. metadata-AreBytes (new_data_start nvm g) (new_log_end nvm g) i) blank1 in
      let blank2 = λ (i : ℕ) (lt : i < 8).
        let out : within first (first + 40) (journal + i) ≡ false = ground arith in
        c1 (journal + i)
        ∙ rw out (
            ap (λ a. byte log1.mem (a + i)) (sym next)
            ∙ prepared nvm g m1 header last (suc q) i (omega arith) start (omega arith)
                (omega arith) (omega arith)) in
      let (k2, c2) =
        cache_write_lem nvm g log2 journal (λ _. 48) 8 u start (omega arith) (omega arith) k1
          (λ i lt. omega arith) blank2 in
      let y = k * page_size + x in
      let blank =
        prepared nvm g m1 header last k x (omega arith) start in_range (omega arith) high in
      ap (λ m. byte m y)
        (set_time_stamp-mem (cache_write nvm g log2 journal (λ _. 48) 8) d.time_stamp)
      ∙ (c2 y
          ∙ ap (λ v. if within journal (journal + 8) y then 48 else v)
              (c1 y ∙ ap (λ v. if within first (first + 40) y then text (y - first) else v) blank))

  pub clear-metadata :
      (header : Bytes) (d : Device Mem) (full_erase : Bool) (x : ℕ)
      → IsUsable g
      → 40 ≤ page_size
      → flash_start ≡ 0
      → metadata_address nvm g + 6 * page_size + 4 < flash_end
      → flash_end < 2 ^ 32
      → x < 40
      → byte (clear nvm g header d full_erase).log.mem (metadata_address nvm g + x)
        ≡ of_list (metadata (new_data_start nvm g) (new_log_end nvm g)) x
  clear-metadata header d full_erase x u wide start room top high =
      let first = metadata_address nvm g in
      let journal = new_journal_start nvm g in
      let text = of_list (metadata (new_data_start nvm g) (new_log_end nvm g)) in
      let (q, page, past_header) = metadata_page nvm g (omega arith) in
      let before : within journal (journal + 8) (first + x) ≡ false = ground arith in
      let into : within first (first + 40) (first + x) ≡ true = ground arith in
      let at : first + x - first ≡ x = omega arith in
      let cell : fresh_cells (first + x) ≡ text x = rw (before, into) (ap text at) in
      let made = (clear nvm g header d full_erase).log.mem in
      ap (λ a. byte made (a + x)) page
      ∙ (clear_cells header d full_erase q x u wide start room top (omega arith) (omega arith)
            (omega arith)
          ∙ (ap (λ a. fresh_cells (a + x)) (sym page) ∙ cell))

  pub clear_lem :
      (header : Bytes) (d : Device Mem) (full_erase : Bool)
      → let made = (clear nvm g header d full_erase).log in
        (made.start_address ≡ metadata_address nvm g)
        × (made.journal_start ≡ new_journal_start nvm g)
        × (made.data_start ≡ new_data_start nvm g)
        × (made.log_end ≡ new_log_end nvm g)
        × (made.journal_head ≡ new_journal_start nvm g)
        × (made.data_end ≡ new_data_start nvm g)
  unfolding clear emptied set_time_stamp cache_write
  clear_lem header d full_erase =
      if-both
        (λ (t : LogFile Mem).
          (t.start_address ≡ metadata_address nvm g)
          × (t.journal_start ≡ new_journal_start nvm g)
          × (t.data_start ≡ new_data_start nvm g)
          × (t.log_end ≡ new_log_end nvm g)
          × (t.journal_head ≡ new_journal_start nvm g)
          × (t.data_end ≡ new_data_start nvm g))
        (divisor d.time_stamp == 0) (λ _. (refl, refl, refl, refl, refl, refl))
        (λ _. (refl, refl, refl, refl, refl, refl))
