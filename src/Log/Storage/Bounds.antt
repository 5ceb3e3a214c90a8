-- ===== src/Log/Storage/Bounds.antt =====
-- The places that `logString` of source/MicroBitLog.cpp keeps: where the data ends, and where in the
-- journal the last entry is.
use native.Mathlib.Decide.{dec_lt}
use native.Mathlib.Nat.{mod-lt}
use codal_microbit_v2_fft.Base.{
  ℕ, zero, suc, ◌+◌, ◌-◌, ◌*◌, ◌/◌, ◌%◌, ◌^◌, ◌≤◌, ◌<◌, ◌≡◌, ◌≢◌, refl, ap, ◌∙◌, arith, ◌⊎◌, inl,
  inr, Bool, true, false, Bool-cases, ◌&&◌, List, ◌++◌, Bytes, Code, advance, slice, ltb→lt, length,
  of_list, ltb, leb, ◌==◌, if◌then◌else◌, if-both, min,
}
use codal_microbit_v2_fft.Nvm.{Nvm}
use codal_microbit_v2_fft.FsCache.{Geometry}
use codal_microbit_v2_fft.Log.{clean_buffer, text_of}
use codal_microbit_v2_fft.Log.Storage.{
  LogFile, entry_size, room, cache_write, refuse, write_rounds, next_head, write_journal,
  log_string,
}

never_left {ℓ} : {P : Type ℓ} (left : ℕ) → left ≡ 0 → (left == 0) ≡ false → P
never_left left e t = absurd (ground arith)

module _ (nvm : Nvm) (g : Geometry) where
  open nvm use {Mem, erase, page_size}

  -- The data ends within the log, and the journal's head is an entry of the journal, which is whole
  -- pages.
  pub record IsLog (s : LogFile Mem) : Type 0 where
    pub data_low : s.data_start ≤ s.data_end
    pub data_high : s.data_end ≤ s.log_end
    pub end_fits : s.log_end < 2 ^ 32
    pub head_low : s.journal_start ≤ s.journal_head
    pub head_high : s.journal_head < s.data_start
    pub head_aligned : s.journal_head % entry_size ≡ 0
    pub start_aligned : s.journal_start % entry_size ≡ 0
    pub data_aligned : s.data_start % entry_size ≡ 0
    pub data_page : s.data_start % page_size ≡ 0

  -- The places of two states are the same but for the end of the data.
  abbrev pub SamePlaces : LogFile Mem → LogFile Mem → Type 0
  SamePlaces s s' =
      (s'.data_start ≡ s.data_start)
      × (s'.log_end ≡ s.log_end)
      × (s'.journal_start ≡ s.journal_start)
      × (s'.full ≡ s.full)
      × (s'.row ≡ s.row)
      × (s'.heading_start ≡ s.heading_start)

  same_places : (s : LogFile Mem) → SamePlaces s s
  same_places s = (refl, refl, refl, refl, refl, refl)

  pub write_rounds_lem :
      (rounds : ℕ) (s : LogFile Mem) (source : Bytes) (l : ℕ)
      → 0 < page_size
      → l ≤ rounds
      → let (left, s') = write_rounds nvm g rounds s source l in
        (left ≡ 0)
        × (s'.data_end ≡ s.data_end + l)
        × (s'.journal_head ≡ s.journal_head)
        × SamePlaces s s'
  unfolding write_rounds cache_write
  write_rounds_lem zero s source l pos enough = (omega arith, omega arith, refl, same_places s)
  write_rounds_lem (suc rounds) s source l pos enough = elim (dec_lt 0 l) [
    | yes more ↦
        let t : ltb 0 l ≡ true = ground arith in
        let space = page_size - s.data_end % page_size in
        let some_space = mod-lt s.data_end pos in
        let next_page = (s.data_end / page_size + 1) * page_size in
        let crosses = leb space l && ltb (s.data_end + space) s.log_end in
        let s1 = record s { mem = if crosses then erase s.mem next_page else s.mem } in
        let s2 = cache_write nvm g s1 s1.data_end source (min l space) in
        let s3 = record s2 { data_end = s2.data_end + min l space } in
        let (done, at, head, same) =
          write_rounds_lem rounds s3 (advance source (min l space)) (l - min l space) pos
            (omega (arith, some_space)) in
        rw t (done, omega (arith, at), head, same)
    | no none_left ↦
        let t : ltb 0 l ≡ false = ground arith in
        rw t (omega arith, omega arith, refl, same_places s)
  ]

  pub next_head_lem :
      (s : LogFile Mem)
      → IsLog s
      → (s.journal_start ≤ next_head nvm g s)
        × (next_head nvm g s < s.data_start)
        × (next_head nvm g s % entry_size ≡ 0)
  next_head_lem s ok =
      elim (Bool-cases
        ((s.journal_head + 8) % page_size == 0 && s.journal_head + 8 == s.data_start)) [
          | inl around ↦ rw around (omega arith, omega (arith, ok), ok.start_aligned)
          | inr on ↦
              let other : s.journal_head + 8 ≢ s.data_start =
                λ e. let page = ap (λ t. t % page_size) e ∙ ok.data_page in absurd (ground arith) in
              rw on (omega (arith, ok), omega (arith, ok, other), omega (arith, ok))
        ]

  -- The places after a step that keeps those that `init` has set.
  pub moved-IsLog :
      (s s' : LogFile Mem)
      → IsLog s
      → (s'.data_start ≡ s.data_start)
        × (s'.log_end ≡ s.log_end)
        × (s'.journal_start ≡ s.journal_start)
      → s.data_end ≤ s'.data_end
      → s'.data_end ≤ s.log_end
      → (s.journal_start ≤ s'.journal_head)
        × (s'.journal_head < s.data_start)
        × (s'.journal_head % entry_size ≡ 0)
      → IsLog s'
  moved-IsLog s s' ok same low high head = record {
    data_low = omega (arith, ok, same, low);
    data_high = omega (arith, ok, same, high);
    end_fits = omega (arith, ok, same);
    head_low = omega (arith, same, head);
    head_high = omega (arith, same, head);
    head_aligned = head.2;
    start_aligned = ap (λ t. t % entry_size) same.2 ∙ ok.start_aligned;
    data_aligned = ap (λ t. t % entry_size) same.0 ∙ ok.data_aligned;
    data_page = ap (λ t. t % page_size) same.0 ∙ ok.data_page;
  }

  -- What else is written keeps the places.
  pub cache_write-IsLog :
      (s : LogFile Mem) (address : ℕ) (source : Bytes) (n : ℕ)
      → IsLog s
      → IsLog (cache_write nvm g s address source n)
  unfolding cache_write
  cache_write-IsLog s address source n ok =
      moved-IsLog s (cache_write nvm g s address source n) ok (refl, refl, refl) (omega arith)
        ok.data_high (ok.head_low, ok.head_high, ok.head_aligned)

  -- So does a change of what is not a place.
  pub same-IsLog :
      (s s' : LogFile Mem)
      → IsLog s
      → (s'.data_start ≡ s.data_start)
        × (s'.log_end ≡ s.log_end)
        × (s'.journal_start ≡ s.journal_start)
      → s'.data_end ≡ s.data_end
      → s'.journal_head ≡ s.journal_head
      → IsLog s'
  same-IsLog s s' ok same at head =
      moved-IsLog s s' ok same (omega (arith, at)) (omega (arith, at, ok)) (
        omega (arith, ok, head),
        omega (arith, ok, head),
        ap (λ t. t % entry_size) head ∙ ok.head_aligned,
      )

  pub write_journal-IsLog : (s : LogFile Mem) → IsLog s → IsLog (write_journal nvm g s)
  unfolding write_journal cache_write
  write_journal-IsLog s ok =
      moved-IsLog s (write_journal nvm g s) ok (refl, refl, refl) (omega arith) ok.data_high
        (next_head_lem s ok)

  write_journal-Same :
      (s : LogFile Mem)
      → let s' = write_journal nvm g s in
        (s'.data_end ≡ s.data_end) × (s'.full ≡ s.full) × (s'.row ≡ s.row)
  unfolding write_journal cache_write
  write_journal-Same s = (refl, refl, refl)

  refuse_lem :
      (s : LogFile Mem)
      → IsLog s
      → let s' = refuse nvm g s in
        IsLog s' × (s'.data_end ≡ s.data_end) × (s'.full ≡ true) × (s'.row ≡ s.row)
  unfolding refuse cache_write
  refuse_lem s ok = (
    moved-IsLog s (refuse nvm g s) ok (refl, refl, refl) (omega arith) ok.data_high
        (ok.head_low, ok.head_high, ok.head_aligned),
    refl,
    refl,
    refl,
  )

  pub room_short :
      (s : LogFile Mem) (l : ℕ) → IsLog s → ltb (room s) l ≡ true → s.log_end < s.data_end + l
  room_short s l ok t = let lt = ltb→lt (room s) l t in omega (arith, ok, lt)

  pub room_fits :
      (s : LogFile Mem) (l : ℕ) → IsLog s → ltb (room s) l ≡ false → s.data_end + l ≤ s.log_end
  room_fits s l ok t = let le : l ≤ room s = ground arith in omega (arith, ok, le)

  -- What `logString` is to leave.
  abbrev pub Stored : LogFile Mem → ℕ → Code × LogFile Mem → Type 0
  Stored s l (code, s') =
      IsLog s'
      × (s'.row ≡ s.row)
      × (((s.data_end + l ≤ s.log_end)
            × (code ≡ Code.ok)
            × (s'.data_end ≡ s.data_end + l)
            × (s'.full ≡ s.full))
          ⊎ ((s.log_end < s.data_end + l)
              × (code ≡ Code.no_resources)
              × (s'.data_end ≡ s.data_end)
              × (s'.full ≡ true)))

  fits_lem :
      (s s1 : LogFile Mem) (l : ℕ) (crossed : Bool)
      → IsLog s
      → s.data_end + l ≤ s.log_end
      → s1.data_end ≡ s.data_end + l
      → s1.journal_head ≡ s.journal_head
      → SamePlaces s s1
      → Stored s l (Code.ok, if crossed then write_journal nvm g s1 else s1)
  fits_lem s s1 l crossed ok fits at head same =
      let ok1 =
        moved-IsLog s s1 ok (same.0, same.1, same.2) (omega (arith, at)) (omega (arith, at))
          (
            omega (arith, ok, head),
            omega (arith, ok, head),
            ap (λ t. t % entry_size) head ∙ ok.head_aligned,
          ) in
      let kept = write_journal-Same s1 in
      if-both (λ (s' : LogFile Mem). Stored s l (Code.ok, s')) crossed
        (λ t. (
          write_journal-IsLog s1 ok1,
          kept.2 ∙ same.4,
          inl (fits, refl, kept.0 ∙ at, kept.1 ∙ same.3),
        ))
        (λ t. (ok1, same.4, inl (fits, refl, at, same.3)))

  -- Where the page size is positive, the data ends within the log and the head of the journal is one
  -- of its entries: `logString` keeps this. For a text that fits behind the data the result is
  -- DEVICE_OK and the data ends as many bytes later; any other is refused with DEVICE_NO_RESOURCES,
  -- the end of the data stays, and the log is full. The row stays as it is.
  pub log_string-IsLog :
      (s : LogFile Mem) (text : List ℕ)
      → 0 < page_size
      → IsLog s
      → Stored s (length text) (log_string nvm g s text)
  unfolding log_string
  log_string-IsLog s text pos ok =
      let l = length text in
      let source = text_of (of_list text) (clean_buffer (of_list text) l false) in
      let s0 = record s {
        sent = if s.mirror && ltb 0 l then s.sent ++ slice source 0 l else s.sent;
      } in
      let run = write_rounds nvm g l s0 source l in
      let (done, at, head, same) = write_rounds_lem l s0 source l pos (omega arith) in
      if-both (Stored s l) (ltb (room s) l)
        (λ t.
          let (ok', at', full', row') = refuse_lem s ok in
          (ok', row', inr (room_short s l ok t, refl, at', full')))
        (λ t.
          if-both (Stored s l) (run.0 == 0)
            (λ t'. fits_lem s run.1 l _ ok (room_fits s l ok t) at head same)
            (λ t'. never_left run.0 done t'))
