-- ===== src/Log/Setup/Loading/Whole.antt =====
-- init of source/MicroBitLog.cpp as a whole, for a log that is in flash.
use codal_microbit_v2_fft.Base.{
  ℕ, ◌+◌, ◌-◌, ◌*◌, ◌/◌, ◌^◌, ◌<◌, ◌≡◌, refl, ap, ◌∙◌, arith, true, false, Option, some, List, [],
  ◌∷◌, Bytes, slice, length, lt→ltb, ltb, ◌==◌, ◌!=◌,
}
use codal_microbit_v2_fft.Nvm.{Nvm}
use codal_microbit_v2_fft.FsCache.{Geometry, Cache}
use codal_microbit_v2_fft.FsCache.Coherent.{IsUsable, IsCoherent}
use codal_microbit_v2_fft.FsCache.Access.{read}
use codal_microbit_v2_fft.FileSystem.{◌>>=◌}
use codal_microbit_v2_fft.Log.{Column, line_text}
use codal_microbit_v2_fft.Log.Storage.{LogFile}
use codal_microbit_v2_fft.Log.Session.{metadata_size}
use codal_microbit_v2_fft.Log.Setup.{Device, is_present}
use codal_microbit_v2_fft.Log.Setup.Loading.{
  count_headings, split_headings, find_data_end, skip_bytes, load_headings, find_headings, load,
  init,
}
use codal_microbit_v2_fft.Log.Setup.Loading.Loops.{
  read_inside, read_area, find_data_end_lem, skip_bytes_lem,
}
use codal_microbit_v2_fft.Log.Setup.Loading.Journal.{load_journal_lem}
use codal_microbit_v2_fft.Log.Setup.Loading.Stored.{
  heading_text, HasHeadings, HasData, with_headings, found,
}
use codal_microbit_v2_fft.Log.Setup.Loading.Headings.{
  AreKeys, split_headings-line_text, line_text-some,
}

module _ (nvm : Nvm) (g : Geometry) (u : IsUsable g) (start : nvm.flash_start ≡ 0)
    (top : nvm.flash_end < 2 ^ 32) where
  open nvm use {Mem, byte, flash_start, flash_end, page_size}

  load_headings_lem :
      (heap : Bytes) (s : LogFile Mem) (a b : ℕ) (ks : List (List ℕ))
      → a + length (heading_text ks) < flash_end
      → b ≡ a + length (heading_text ks)
      → slice (byte s.mem) a (length (heading_text ks)) ≡ heading_text ks
      → AreKeys ks
      → IsCoherent nvm g s.cache s.mem
      → (c : Cache) × (load_headings nvm g heap a b s
          ≡ record (with_headings nvm g s a ks) { cache = c })
        × IsCoherent nvm g c s.mem
  unfolding load_headings
  load_headings_lem heap s a b [] inside at text plain k =
      let none_there : b - a ≡ 0 = omega arith in (s.cache, rw none_there refl, k)
  load_headings_lem heap s a b (t ∷ ts) inside at text plain k =
      let n = length (line_text (t ∷ ts)) in
      let o = read nvm g s.cache s.mem a heap n in
      let len : b - a ≡ n = omega arith in
      let (k', got) = read_area nvm g u start top s.cache s.mem a heap n inside k in
      let some_text : ltb 0 n ≡ true = lt→ltb 0 n (line_text-some t ts) in
      let columns_of : List Column → LogFile Mem = λ cs. record s {
        heading_start = a;
        heading_length = n;
        row = record s.row { columns = cs };
        cache = o.2;
      } in
      let taken : List ℕ → LogFile Mem = λ h. columns_of (split_headings (count_headings h) [] h) in
      (
        o.2,
        rw len (
            rw some_text
              (ap taken (got ∙ text) ∙ ap columns_of (split_headings-line_text t ts plain))),
        k',
      )

  find_headings_lem :
      (heap stack : Bytes) (s : LogFile Mem) (a : ℕ) (ks : List (List ℕ))
      → HasHeadings nvm g s.mem (s.start_address + metadata_size) a ks
      → AreKeys ks
      → IsCoherent nvm g s.cache s.mem
      → (c : Cache) × (find_headings nvm g heap stack s
          ≡ some (record (with_headings nvm g s a ks) { cache = c }))
        × IsCoherent nvm g c s.mem
  unfolding find_headings
  find_headings_lem heap stack s a ks has plain k =
      let m = s.mem in
      let first = s.start_address + metadata_size in
      let n = length (heading_text ks) in
      let low = has.low in
      let inside = has.inside in
      let o = read nvm g s.cache m first stack 1 in
      let (k1, got) = read_inside nvm g u start top s.cache m first stack 1 (omega arith) k in
      let at_a : first + (a - first) ≡ a = omega arith in
      let (c2, b2, runs2, held2, k2) =
        skip_bytes_lem nvm g u start top (a - first) flash_end (λ v. v != 0)
          (record s { cache = o.2 }) o.1 first (omega arith) (omega arith)
          (got 0 (omega arith) ∙ ap (byte m) (omega arith)) has.zeros
          (ap (λ x. byte m x != 0) at_a ∙ has.some_byte) k1 in
      let (c3, b3, runs3, held3, k3) =
        skip_bytes_lem nvm g u start top n flash_end (λ v. v == 255) (record s { cache = c2 }) b2 a
          (omega arith) (omega arith) (held2 ∙ ap (byte m) at_a) has.used has.is_free k2 in
      let (c4, runs4, k4) =
        load_headings_lem heap (record s { cache = c3 }) a (a + n) ks (omega arith) refl has.text
          plain k3 in
      let second : ℕ × LogFile Mem × Bytes → Option (LogFile Mem) = λ r.
        skip_bytes nvm g flash_end (λ v. v == 255) r.1 r.2 r.0
        >>= (λ t. some (load_headings nvm g heap r.0 t.0 t.1)) in
      let third : ℕ × LogFile Mem × Bytes → Option (LogFile Mem) =
        λ r. some (load_headings nvm g heap a r.0 r.1) in
      (
        c4,
        ap (λ r. r >>= second) runs2
            ∙ (ap (λ x. second (x, record s { cache = c2 }, b2)) at_a
                ∙ (ap (λ r. r >>= third) runs3 ∙ ap some runs4)),
        k4,
      )

  load_lem :
      (heap stack : Bytes) (d : Device Mem) (n v finish a : ℕ) (ks : List (List ℕ))
      → IsCoherent nvm g d.log.cache d.log.mem
      → HasData nvm g d.log.mem d.log n v finish
      → HasHeadings nvm g d.log.mem (d.log.start_address + metadata_size) a ks
      → AreKeys ks
      → (c : Cache) × (load nvm g heap stack d ≡ some (found nvm g d c n finish a ks))
        × IsCoherent nvm g c d.log.mem
  unfolding load
  load_lem heap stack d n v finish a ks k stored headings plain =
      let s = d.log in
      let s0 = record s { journal_head = s.journal_start; data_end = s.data_start } in
      let low = stored.low in
      let high = stored.high in
      let inside = stored.inside in
      let entries = stored.entries in
      let (c1, runs1, k1) =
        load_journal_lem nvm g u start top n ((s.data_start - s.journal_start) / 8 + 1) s0 (λ _. 48)
          s.journal_start v (omega arith) (omega arith) (omega arith) entries stored.aligned
          stored.cleared stored.last stored.behind k in
      let s1 = record s0 {
        cache = c1;
        journal_head = s.journal_start + 8 * n;
        data_end = s.data_start + v;
      } in
      let rest = finish - (s.data_start + v) in
      let end_at : s.data_start + v + rest ≡ finish = omega arith in
      let (c2, runs2, k2) =
        find_data_end_lem nvm g u start top rest (s.log_end - (s.data_start + v)) s1 (λ _. 0) refl
          (omega arith) inside stored.used
          (λ lt. ap (byte s.mem) end_at ∙ stored.is_free (omega arith)) k1 in
      let s2 = record s1 { cache = c2; data_end = finish } in
      let (c3, runs3, k3) = find_headings_lem heap stack s2 a ks headings plain k2 in
      let ended : LogFile Mem → Option (Device Mem) = λ t.
        find_headings nvm g heap stack t >>= (λ s3. some (record d {
          log = s3;
          journal_pages = (d.log.data_start - d.log.start_address) / page_size - 1;
          initialized = true;
        })) in
      (
        c3,
        ap (λ t. ended (find_data_end nvm g (t.log_end - t.data_end) t (λ _. 0))) runs1
            ∙ (ap ended (runs2 ∙ ap (λ e. record s1 { cache = c2; data_end = e }) end_at)
                ∙ ap
                    (λ o. o >>= (λ s3. some (record d {
                      log = s3;
                      journal_pages = (d.log.data_start - d.log.start_address) / page_size - 1;
                      initialized = true;
                    })))
                    runs3),
        k3,
      )

  -- Where the cache is coherent and has an entry and blocks of whole words, the flash starts at 0
  -- and ends below 2 ^ 32, the device has not been initialised, and isPresent finds a log that lies
  -- before the end of the flash, in which are a journal, its entries at multiples of 8 bytes from
  -- the data, with any number of cleared entries, the last one, and behind it an unused one or the
  -- end of the journal; data, at least as far as that entry says and on to the first unused byte or
  -- the end of the log; and, behind any number of zeros, the line of the headings of columns whose
  -- keys have no comma, newline or NUL, or no line, with no byte of it 0xFF and an unused byte
  -- behind it: init ends, with the head of the journal at that entry, the end of the data where it
  -- was said to be, and these columns; the memory stays, and the cache is coherent.
  pub init_lem :
      (header heap stack : Bytes) (d d0 : Device Mem) (n v finish a : ℕ) (ks : List (List ℕ))
      → d.initialized ≡ false
      → is_present nvm g d ≡ (true, d0)
      → IsCoherent nvm g d0.log.cache d0.log.mem
      → HasData nvm g d0.log.mem d0.log n v finish
      → HasHeadings nvm g d0.log.mem (d0.log.start_address + metadata_size) a ks
      → AreKeys ks
      → (c : Cache) × (init nvm g header heap stack d ≡ some (found nvm g d0 c n finish a ks))
        × IsCoherent nvm g c d0.log.mem
  unfolding init
  init_lem header heap stack d d0 n v finish a ks off present k stored headings plain =
      let (c, runs, k') = load_lem heap stack d0 n v finish a ks k stored headings plain in
      (c, rw present (rw off runs), k')
