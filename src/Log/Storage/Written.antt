-- ===== src/Log/Storage/Written.antt =====
-- What is in flash after logString of source/MicroBitLog.cpp.
use codal_microbit_v2_fft.Base.{
  ℕ, ◌+◌, ◌-◌, ◌*◌, ◌/◌, ◌%◌, ◌^◌, ◌≤◌, ◌<◌, ◌≡◌, refl, ap, ◌∙◌, arith, true, false, ◌&&◌, ◌⊎◌, inl,
  inr, List, ◌++◌, Bytes, Code, slice, length, of_list, within, ltb, ◌==◌, ◌!=◌, if◌then◌else◌,
  if-both,
}
use codal_microbit_v2_fft.Nvm.{Nvm}
use codal_microbit_v2_fft.FsCache
use codal_microbit_v2_fft.FsCache.{Geometry}
use codal_microbit_v2_fft.FsCache.Access.Blocks.{blocks_apart}
use codal_microbit_v2_fft.FsCache.Access.Outside.{IsOutside, write_bytes_outside}
use codal_microbit_v2_fft.FsCache.Access.Writing.{overwritten}
use codal_microbit_v2_fft.Log.{clean_buffer, text_of}
use codal_microbit_v2_fft.Log.Clean.{clean_buffer_lem}
use codal_microbit_v2_fft.Log.Storage.{
  LogFile, entry_size, empty_entry, room, write_num, cache_write, write_rounds, next_head,
  write_journal, log_string,
}
use codal_microbit_v2_fft.Log.Storage.Bounds.{
  IsLog, next_head_lem, moved-IsLog, write_rounds_lem, room_short, log_string-IsLog,
}
use codal_microbit_v2_fft.Log.Storage.Rounds.{IsFlash, IsBlank, write_rounds-Written}

-- The text that `logString` writes
abbrev pub written_text : List ℕ → Bytes
written_text text = text_of (of_list text) (clean_buffer (of_list text) (length text) false)

written_text-lt :
    (text : List ℕ)
    → ((i : ℕ) → i < length text → of_list text i < 256)
    → (i : ℕ) → i < length text
    → written_text text i < 256
written_text-lt text bytes i lt =
    let c = clean_buffer_lem (of_list text) (length text) false i lt in
    let given = bytes i lt in
    elim c.2 [ inl same ↦ omega (arith, same, given) | inr masked ↦ omega (arith, masked) ]

module _ (nvm : Nvm) (g : Geometry) (flash : IsFlash nvm g) where
  open nvm use {Mem, byte, erase, page_size, flash_end, byte-erase}

  -- A write through the cache leaves the cells outside its words alone.
  pub cache_write_outside :
      (low high x : ℕ) (s : LogFile Mem) (address : ℕ) (source : Bytes) (n : ℕ)
      → address + n ≤ 2 ^ 32
      → IsOutside low high address n x
      → byte (cache_write nvm g s address source n).mem x ≡ byte s.mem x
  unfolding cache_write
  cache_write_outside low high x s address source n top o =
      write_bytes_outside nvm g flash.usable low high x s.cache s.mem address source n top o

  pub erase_outside :
      (m : Mem) (page x : ℕ)
      → (x < page) ⊎ (page + page_size ≤ x)
      → byte (erase m page) x ≡ byte m x
  erase_outside m page x o =
      let out : within page (page + page_size) x ≡ false = ground (arith, o) in
      byte-erase m page x ∙ rw out refl

  pub entry-IsOutside :
      (head x : ℕ) → head % 8 ≡ 0 → (x < head) ⊎ (head + 8 ≤ x) → IsOutside head (head + 8) head 8 x
  entry-IsOutside head x whole o = record {
    low_word = omega arith;
    high_word = omega arith;
    from_low = omega arith;
    to_high = omega arith;
    out = o;
  }

  -- The entries of the journal end where the data start.
  pub entry_end : (head start : ℕ) → head < start → head % 8 ≡ 0 → start % 8 ≡ 0 → head + 8 ≤ start
  entry_end head start lt a b = omega arith

  -- The journal is written outside the data.
  write_journal-above :
      (s : LogFile Mem) (x : ℕ)
      → IsLog nvm g s
      → s.journal_start % page_size ≡ 0
      → s.data_start ≤ x
      → byte (write_journal nvm g s).mem x ≡ byte s.mem x
  unfolding write_journal
  write_journal-above s x ok pages above =
      let head = next_head nvm g s in
      let (low, high, whole) = next_head_lem nvm g s ok in
      let turned = (s.journal_head + entry_size) % page_size == 0 in
      let s1 : LogFile Mem = record s {
        journal_head = head;
        cache = if turned then FsCache.erase nvm g s.cache head else s.cache;
        mem = if turned then erase s.mem head else s.mem;
      } in
      let length_text = write_num ((s.data_end - s.data_start) / g.block_size * g.block_size) in
      let s2 = cache_write nvm g s1 head (of_list length_text) entry_size in
      let end_new = entry_end head s.data_start high whole ok.data_aligned in
      let end_old =
        entry_end s.journal_head s.data_start ok.head_high ok.head_aligned ok.data_aligned in
      let erased : byte s1.mem x ≡ byte s.mem x =
        if-both (λ m. byte m x ≡ byte s.mem x) turned
          (λ t.
            let here : (s.journal_head + 8) % page_size ≡ 0 = ground arith in
            let page : head % page_size ≡ 0 =
              if-both (λ h. h % page_size ≡ 0)
                ((s.journal_head + 8) % page_size == 0 && s.journal_head + 8 == s.data_start)
                (λ _. pages) (λ _. here) in
            let apart =
              blocks_apart page_size flash.some_page head s.data_start page ok.data_page
                (λ e. absurd (omega (arith, e, high))) in
            erase_outside s.mem head x (elim apart [
              | inl p ↦ inr (omega (arith, p))
              | inr q ↦ absurd (omega (arith, q, high))
            ]))
          (λ _. refl) in
      cache_write_outside s.journal_head (s.journal_head + 8) x s2 s.journal_head empty_entry 8
        (omega (arith, end_old, ok.data_low, ok.data_high, ok.end_fits))
        (entry-IsOutside s.journal_head x ok.head_aligned (inr (omega (arith, end_old))))
      ∙ (cache_write_outside head (head + 8) x s1 head (of_list length_text) 8
            (omega (arith, end_new, ok.data_low, ok.data_high, ok.end_fits))
            (entry-IsOutside head x whole (inr (omega (arith, end_new))))
          ∙ erased)

  -- The data up to the end of a text are those that were there and then the text.
  abbrev pub HasText : LogFile Mem → Bytes → ℕ → LogFile Mem → Type 0
  HasText s source l s' =
      (x : ℕ)
      → s.data_start ≤ x
      → x < s.data_end + l
      → byte s'.mem x ≡ overwritten (byte s.mem) s.data_end l source x

  -- A text that fits is in flash after `logString`, behind the data that were there.
  log_string-HasText :
      (s : LogFile Mem) (text : List ℕ)
      → IsLog nvm g s
      → s.journal_start % page_size ≡ 0
      → s.log_end < flash_end
      → IsBlank nvm g flash s
      → ((i : ℕ) → i < length text → of_list text i < 256)
      → s.data_end + length text ≤ s.log_end
      → HasText s (written_text text) (length text) (log_string nvm g s text).1
  unfolding log_string
  log_string-HasText s text ok pages inside v bytes fits x above lt =
      let l = length text in
      let source = written_text text in
      let s0 : LogFile Mem = record s {
        sent = if s.mirror && ltb 0 l then s.sent ++ slice source 0 l else s.sent;
      } in
      let run = write_rounds nvm g l s0 source l in
      let (done, at, head, same) =
        write_rounds_lem nvm g l s0 source l flash.some_page (omega arith) in
      let v0 : IsBlank nvm g flash s0 = record {
        coherent = v.coherent;
        below = v.below;
        blank = v.blank;
      } in
      let (blank1, bytes1) =
        write_rounds-Written nvm g flash l s0 source l (omega arith) fits inside v0
          (written_text-lt text bytes) in
      let ok1 =
        moved-IsLog nvm g s run.1 ok (same.0, same.1, same.2) (omega (arith, at))
          (omega (arith, at))
          (
            omega (arith, ok, head),
            omega (arith, ok, head),
            ap (λ t. t % entry_size) head ∙ ok.head_aligned,
          ) in
      let pages1 = ap (λ t. t % page_size) same.2 ∙ pages in
      let crossed = run.1.data_end / g.block_size != s.data_end / g.block_size in
      let P : LogFile Mem → Type 0 =
        λ s'. byte s'.mem x ≡ overwritten (byte s.mem) s.data_end l source x in
      let Q : Code × LogFile Mem → Type 0 = λ o. P o.1 in
      let stored : P (if crossed then write_journal nvm g run.1 else run.1) =
        if-both P crossed
          (λ _. write_journal-above run.1 x ok1 pages1 (omega (arith, same.0, above)) ∙ bytes1 x lt)
          (λ _. bytes1 x lt) in
      if-both Q (ltb (room s) l)
        (λ t. absurd (let short = room_short nvm g s l ok t in omega (arith, short, fits)))
        (λ _. if-both Q (run.0 == 0) (λ _. stored) (λ _. stored))

  -- What `logString` is to leave.
  pub IsStored : LogFile Mem → Bytes → ℕ → Code × LogFile Mem → Type 0
  IsStored s source l (code, s') =
      IsLog nvm g s'
      × (s'.row ≡ s.row)
      × (((s.data_end + l ≤ s.log_end)
            × (code ≡ Code.ok)
            × (s'.data_end ≡ s.data_end + l)
            × (s'.full ≡ s.full)
            × HasText s source l s')
          ⊎ ((s.log_end < s.data_end + l)
              × (code ≡ Code.no_resources)
              × (s'.data_end ≡ s.data_end)
              × (s'.full ≡ true)))

  -- Where the log lies in whole pages of flash of whole blocks, from 0 to below 2 ^ 32, the data ends
  -- within the log, the journal is whole pages and its head one of its entries, the cache is a faithful
  -- copy with no block past the page that the data ends in, this page is erased behind the data, and
  -- the text is of bytes: a text that fits behind the data is written whole, once cleaned, behind the
  -- data that were there, and the result is DEVICE_OK and the data ends as many bytes later; any other
  -- is refused with DEVICE_NO_RESOURCES, the end of the data stays, and the log is full. The data still
  -- ends within the log, the head of the journal is one of its entries, and the row is as it was.
  pub log_string-IsStored :
      (s : LogFile Mem) (text : List ℕ)
      → IsLog nvm g s
      → s.journal_start % page_size ≡ 0
      → s.log_end < flash_end
      → IsBlank nvm g flash s
      → ((i : ℕ) → i < length text → of_list text i < 256)
      → IsStored s (written_text text) (length text) (log_string nvm g s text)
  unfolding IsStored
  log_string-IsStored s text ok pages inside v bytes =
      let (ok', row, outcome) = log_string-IsLog nvm g s text flash.some_page ok in
      (
        ok',
        row,
        elim outcome [
          | inl (fits, code, at, full) ↦
              inl (fits, code, at, full, log_string-HasText s text ok pages inside v bytes fits)
          | inr refused ↦ inr refused
        ],
      )
