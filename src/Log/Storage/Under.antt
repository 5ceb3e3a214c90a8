-- ===== src/Log/Storage/Under.antt =====
-- That logString of source/MicroBitLog.cpp writes nothing before the journal.
use native.Mathlib.Decide.{dec_lt}
use codal_microbit_v2_fft.Base.{
  ℕ, zero, suc, ◌+◌, ◌-◌, ◌*◌, ◌/◌, ◌%◌, ◌^◌, ◌≤◌, ◌<◌, ◌≡◌, refl, ap, ◌∙◌, arith, true, false,
  ◌&&◌, inl, List, ◌++◌, Bytes, Code, advance, slice, length, of_list, min, ltb, leb, ◌==◌, ◌!=◌,
  if◌then◌else◌, if-both,
}
use codal_microbit_v2_fft.Nvm.{Nvm}
use codal_microbit_v2_fft.FsCache
use codal_microbit_v2_fft.FsCache.{Geometry}
use codal_microbit_v2_fft.FsCache.Access.Outside.{IsOutside}
use codal_microbit_v2_fft.Log.Storage.{
  LogFile, entry_size, empty_entry, full_mark, room, write_num, cache_write, refuse, write_rounds,
  next_head, write_journal, log_string,
}
use codal_microbit_v2_fft.Log.Storage.Bounds.{
  IsLog, next_head_lem, moved-IsLog, write_rounds_lem, room_fits,
}
use codal_microbit_v2_fft.Log.Storage.Pages.{page_end_lem}
use codal_microbit_v2_fft.Log.Storage.Rounds.{IsFlash}
use codal_microbit_v2_fft.Log.Storage.Written.{
  cache_write_outside, erase_outside, entry-IsOutside, entry_end, written_text,
}

-- An area past `low`, where words begin at `low`
past-IsOutside :
    (low x a n : ℕ)
    → low % 4 ≡ 0
    → x < low
    → low ≤ a
    → IsOutside low (a + n + (4 - (a + n) % 4)) a n x
past-IsOutside low x a n word lt le = record {
  low_word = word;
  high_word = omega arith;
  from_low = le;
  to_high = omega arith;
  out = inl lt;
}

module _ (nvm : Nvm) (g : Geometry) (flash : IsFlash nvm g) where
  open nvm use {Mem, byte, erase, page_size, flash_end, byte-erase}

  write_rounds-under :
      (rounds : ℕ) (s : LogFile Mem) (source : Bytes) (l low x : ℕ)
      → low % 4 ≡ 0
      → low ≤ s.data_end
      → s.data_end + l ≤ 2 ^ 32
      → x < low
      → byte (write_rounds nvm g rounds s source l).1.mem x ≡ byte s.mem x
  unfolding write_rounds cache_write
  write_rounds-under zero s source l low x word le top lt = refl
  write_rounds-under (suc rounds) s source l low x word le top lt = elim (dec_lt 0 l) [
    | no none_left ↦ let t : ltb 0 l ≡ false = ground arith in rw t refl
    | yes more ↦
        let t : ltb 0 l ≡ true = ground arith in
        let d = s.data_end in
        let space = page_size - d % page_size in
        let n = min l space in
        let next_page = (d / page_size + 1) * page_size in
        let crosses = leb space l && ltb (d + space) s.log_end in
        let s1 : LogFile Mem = record s {
          mem = if crosses then erase s.mem next_page else s.mem;
        } in
        let s2 = cache_write nvm g s1 s1.data_end source n in
        let s3 : LogFile Mem = record s2 { data_end = s2.data_end + n } in
        let (reach, some_space) = page_end_lem page_size d flash.some_page in
        let erased : byte s1.mem x ≡ byte s.mem x =
          if-both (λ m. byte m x ≡ byte s.mem x) crosses
            (λ _. erase_outside nvm g flash s.mem next_page x (inl (omega (arith, reach))))
            (λ _. refl) in
        let wrote =
          cache_write_outside nvm g flash low _ x s1 d source n (omega arith)
            (past-IsOutside low x d n word lt le) in
        rw t (
          write_rounds-under rounds s3 (advance source n) (l - n) low x word (omega arith)
            (omega arith) lt
          ∙ (wrote ∙ erased))
  ]

  write_journal-under :
      (s : LogFile Mem) (x : ℕ)
      → IsLog nvm g s
      → x < s.journal_start
      → byte (write_journal nvm g s).mem x ≡ byte s.mem x
  unfolding write_journal
  write_journal-under s x ok under =
      let head = next_head nvm g s in
      let (low, high, whole) = next_head_lem nvm g s ok in
      let turned = (s.journal_head + entry_size) % page_size == 0 in
      let s1 : LogFile Mem = record s {
        journal_head = head;
        cache = if turned then FsCache.erase nvm g s.cache head else s.cache;
        mem = if turned then erase s.mem head else s.mem;
      } in
      let length_text = write_num ((s.data_end - s.data_start) / g.block_size * g.block_size) in
      let s2 = cache_write nvm g s1 head (of_list length_text) entry_size in
      let end_new = entry_end nvm g flash head s.data_start high whole ok.data_aligned in
      let end_old =
        entry_end nvm g flash s.journal_head s.data_start ok.head_high ok.head_aligned
          ok.data_aligned in
      let erased : byte s1.mem x ≡ byte s.mem x =
        if-both (λ m. byte m x ≡ byte s.mem x) turned
          (λ _. erase_outside nvm g flash s.mem head x (inl (omega (arith, low, under))))
          (λ _. refl) in
      cache_write_outside nvm g flash s.journal_head (s.journal_head + 8) x s2 s.journal_head
        empty_entry 8 (omega (arith, end_old, ok.data_low, ok.data_high, ok.end_fits))
        (entry-IsOutside nvm g flash s.journal_head x ok.head_aligned
          (inl (omega (arith, ok.head_low, under))))
      ∙ (cache_write_outside nvm g flash head (head + 8) x s1 head (of_list length_text) 8
            (omega (arith, end_new, ok.data_low, ok.data_high, ok.end_fits))
            (entry-IsOutside nvm g flash head x whole (inl (omega (arith, low, under))))
          ∙ erased)

  refuse-under :
      (s : LogFile Mem) (x : ℕ)
      → IsLog nvm g s
      → s.log_end + 4 ≤ 2 ^ 32
      → x < s.journal_start
      → byte (refuse nvm g s).mem x ≡ byte s.mem x
  unfolding refuse
  refuse-under s x ok top under =
      let before : x < s.data_start = omega (arith, ok.head_low, ok.head_high) in
      let word : s.data_start % 4 ≡ 0 = omega (arith, ok.data_aligned) in
      if-both (λ m. byte m x ≡ byte s.mem x) s.full (λ _. refl)
        (λ _.
          cache_write_outside nvm g flash s.data_start _ x s (s.log_end + 1) full_mark 3
            (omega arith)
            (past-IsOutside s.data_start x (s.log_end + 1) 3 word before
              (omega (arith, ok.data_low, ok.data_high))))

  -- Whether the text fits or not, no cell before the journal changes.
  pub log_string-under :
      (s : LogFile Mem) (text : List ℕ) (x : ℕ)
      → IsLog nvm g s
      → s.log_end + 4 ≤ 2 ^ 32
      → x < s.journal_start
      → byte (log_string nvm g s text).1.mem x ≡ byte s.mem x
  unfolding log_string
  log_string-under s text x ok top under =
      let l = length text in
      let source = written_text text in
      let s0 : LogFile Mem = record s {
        sent = if s.mirror && ltb 0 l then s.sent ++ slice source 0 l else s.sent;
      } in
      let run = write_rounds nvm g l s0 source l in
      let (done, at, head, same) =
        write_rounds_lem nvm g l s0 source l flash.some_page (omega arith) in
      let before : x < s.data_start = omega (arith, ok.head_low, ok.head_high) in
      let word : s.data_start % 4 ≡ 0 = omega (arith, ok.data_aligned) in
      let crossed = run.1.data_end / g.block_size != s.data_end / g.block_size in
      let P : LogFile Mem → Type 0 = λ s'. byte s'.mem x ≡ byte s.mem x in
      let Q : Code × LogFile Mem → Type 0 = λ o. P o.1 in
      if-both Q (ltb (room s) l) (λ _. refuse-under s x ok top under)
        (λ t.
          let fits = room_fits nvm g s l ok t in
          let ok1 =
            moved-IsLog nvm g s run.1 ok (same.0, same.1, same.2) (omega (arith, at))
              (omega (arith, at, fits))
              (
                omega (arith, ok, head),
                omega (arith, ok, head),
                ap (λ h. h % entry_size) head ∙ ok.head_aligned,
              ) in
          let wrote =
            write_rounds-under l s0 source l s.data_start x word ok.data_low
              (omega (arith, fits, top)) before in
          let stored : P (if crossed then write_journal nvm g run.1 else run.1) =
            if-both P crossed
              (λ _. write_journal-under run.1 x ok1 (omega (arith, same.2, under)) ∙ wrote)
              (λ _. wrote) in
          if-both Q (run.0 == 0) (λ _. stored) (λ _. stored))

  -- Neither do the places that `init` has set, nor that of the headings.
  pub log_string-places :
      (s : LogFile Mem) (text : List ℕ)
      → let s' = (log_string nvm g s text).1 in
        (s'.heading_start ≡ s.heading_start)
        × (s'.journal_start ≡ s.journal_start)
        × (s'.log_end ≡ s.log_end)
  unfolding log_string write_journal refuse cache_write
  log_string-places s text =
      let l = length text in
      let source = written_text text in
      let s0 : LogFile Mem = record s {
        sent = if s.mirror && ltb 0 l then s.sent ++ slice source 0 l else s.sent;
      } in
      let run = write_rounds nvm g l s0 source l in
      let (done, at, head, same) =
        write_rounds_lem nvm g l s0 source l flash.some_page (omega arith) in
      let crossed = run.1.data_end / g.block_size != s.data_end / g.block_size in
      let P : LogFile Mem → Type 0 = λ s'.
        (s'.heading_start ≡ s.heading_start)
        × (s'.journal_start ≡ s.journal_start)
        × (s'.log_end ≡ s.log_end) in
      let Q : Code × LogFile Mem → Type 0 = λ o. P o.1 in
      let kept : P run.1 = (same.5, same.2, same.1) in
      let stored : P (if crossed then write_journal nvm g run.1 else run.1) =
        if-both P crossed (λ _. kept) (λ _. kept) in
      if-both Q (ltb (room s) l) (λ _. (refl, refl, refl))
        (λ _. if-both Q (run.0 == 0) (λ _. stored) (λ _. stored))
