-- ===== src/Log/Session/Headings.antt =====
-- That endRow of source/MicroBitLog.cpp stores the line of the headings in flash.
use codal_microbit_v2_fft.Base.{
  ℕ, ◌+◌, ◌-◌, ◌^◌, ◌≤◌, ◌<◌, ◌≡◌, refl, ap, ◌∙◌, arith, Bool, true, false, List, of_list, length,
  within, ◌==◌, if◌then◌else◌, if-both,
}
use codal_microbit_v2_fft.Base.Bits.{and-zero}
use codal_microbit_v2_fft.Nvm.{Nvm}
use codal_microbit_v2_fft.FsCache.{Geometry}
use codal_microbit_v2_fft.FsCache.Coherent.{IsCoherent}
use codal_microbit_v2_fft.FsCache.Access.{out_of_limits}
use codal_microbit_v2_fft.FsCache.Access.Through.{write_bytes-Fits}
use codal_microbit_v2_fft.FsCache.Access.Writing.{overwritten}
use codal_microbit_v2_fft.Log.{Row, line_text}
use codal_microbit_v2_fft.Log.Storage.{LogFile, cache_write, log_string}
use codal_microbit_v2_fft.Log.Storage.Bounds.{IsLog, cache_write-IsLog, same-IsLog}
use codal_microbit_v2_fft.Log.Storage.Rounds.{IsFlash}
use codal_microbit_v2_fft.Log.Storage.Under.{log_string-under, log_string-places}
use codal_microbit_v2_fft.Log.Setup.Making.{cache_write_lem}
use codal_microbit_v2_fft.Log.Session.{
  metadata_size, has_value, keys, values, store_headings, store_row,
}
use codal_microbit_v2_fft.Log.Session.Ending.{store_headings_lem}

-- Where `endRow` writes the headings: behind those written before.
abbrev pub headings_at : {M : Type 0} → LogFile M → ℕ
headings_at s =
    (if s.heading_start == 0 then s.start_address + metadata_size else s.heading_start)
    + s.heading_length

module _ (nvm : Nvm) (g : Geometry) (flash : IsFlash nvm g) where
  open nvm use {Mem, byte, erase, page_size, flash_end, byte-erase}

  -- The line of the headings of the row `t` has room before the journal, in flash that is erased, and
  -- is of bytes.
  pub record HasRoom (s : LogFile Mem) (t : Row) : Type 0 where
    pub before : headings_at s + length (line_text (keys t.columns)) ≤ s.journal_start
    pub blank :
        (i : ℕ) → i < length (line_text (keys t.columns)) → byte s.mem (headings_at s + i) ≡ 255
    pub bytes :
        (i : ℕ)
        → i < length (line_text (keys t.columns))
        → of_list (line_text (keys t.columns)) i < 256

  -- The line is in flash, at the start of the headings.
  unfoldable pub HasLine : LogFile Mem → Row → LogFile Mem → Type 0
  HasLine s t s' =
      if t.headings_changed
      then (s'.heading_start ≡ headings_at s)
        × ((i : ℕ)
            → i < length (line_text (keys t.columns))
            → byte s'.mem (s'.heading_start + i) ≡ of_list (line_text (keys t.columns)) i)
      else (s'.heading_start ≡ s.heading_start)

  -- Zeros can be written over anything.
  zeros_lem :
      (s : LogFile Mem) (address len : ℕ)
      → address + len < flash_end
      → IsCoherent nvm g s.cache s.mem
      → let s' = cache_write nvm g s address (λ _. 0) len in
        IsCoherent nvm g s'.cache s'.mem
        × ((x : ℕ) → byte s'.mem x ≡ overwritten (byte s.mem) address len (λ _. 0) x)
  unfolding cache_write
  zeros_lem s address len inside k =
      let low = flash.start in
      let top = flash.top in
      let within_limits : out_of_limits nvm g address len ≡ false = ground arith in
      let done =
        write_bytes-Fits nvm g flash.usable s.cache s.mem address (λ _. 0) len (omega arith) k
          within_limits (λ i low' high. and-zero (byte s.mem (address + i))) in
      (done.1, done.2)

  store_headings-HasLine :
      (s : LogFile Mem)
      → IsLog nvm g s
      → IsCoherent nvm g s.cache s.mem
      → s.log_end + 4 ≤ 2 ^ 32
      → s.log_end < flash_end
      → HasRoom s s.row
      → let s' = store_headings nvm g s in
        (s'.heading_start ≡ headings_at s)
        × (s'.journal_start ≡ s.journal_start)
        × (s'.log_end ≡ s.log_end)
        × ((i : ℕ)
            → i < length (line_text (keys s.row.columns))
            → byte s'.mem (headings_at s + i) ≡ of_list (line_text (keys s.row.columns)) i)
  unfolding store_headings cache_write
  store_headings-HasLine s ok k top inside room =
      let h = line_text (keys s.row.columns) in
      let start =
        if s.heading_start == 0 then s.start_address + metadata_size else s.heading_start in
      let a = headings_at s in
      let s1 = cache_write nvm g s start (λ _. 0) s.heading_length in
      let s2 : LogFile Mem = record s1 { heading_start = start + s.heading_length } in
      let s3 = cache_write nvm g s2 s2.heading_start (of_list h) (length h) in
      let ok1 = cache_write-IsLog nvm g s start (λ _. 0) s.heading_length ok in
      let ok2 = same-IsLog nvm g s1 s2 ok1 (refl, refl, refl) refl refl in
      let ok3 = cache_write-IsLog nvm g s2 s2.heading_start (of_list h) (length h) ok2 in
      let under : a + length h < flash_end =
        omega (arith, room.before, ok.head_low, ok.head_high, ok.data_low, ok.data_high, inside) in
      let (k1, bytes1) = zeros_lem s start s.heading_length (omega (arith, under)) k in
      let (k3, bytes3) =
        cache_write_lem nvm g s2 a (of_list h) (length h) flash.usable flash.start under flash.top
          k1 room.bytes
          (λ i lt.
            let out : within start (start + s.heading_length) (a + i) ≡ false = ground arith in
            bytes1 (a + i)
            ∙ (ap (λ b. if b then 0 else byte s.mem (a + i)) out ∙ room.blank i lt)) in
      let places = log_string-places nvm g flash s3 h in
      (
        places.0,
        places.1,
        places.2,
        λ i lt.
            let here : within a (a + length h) (a + i) ≡ true = ground arith in
            let at : a + i - a ≡ i = omega arith in
            log_string-under nvm g flash s3 h (a + i) ok3 top (omega (arith, room.before, lt))
            ∙ (bytes3 (a + i)
                ∙ (ap (λ b. if b then of_list h (a + i - a) else byte s2.mem (a + i)) here
                    ∙ ap (of_list h) at)),
      )

  -- `endRow` behind the headings
  abbrev row_logged : LogFile Mem → LogFile Mem
  row_logged s1 =
      let line = line_text (values s1.row.columns) in
      let s2 = if has_value s1.row.columns then (log_string nvm g s1 line).1 else s1 in
      record s2 { row_started = false }

  by_case :
      (A B : LogFile Mem → Type 0) (b : Bool) (x y : LogFile Mem)
      → (b ≡ true → A (row_logged x))
      → (b ≡ false → B (row_logged y))
      → (if b then A (row_logged (if b then x else y)) else B (row_logged (if b then x else y)))
  by_case A B true x y f h = f refl
  by_case A B false x y f h = h refl

  abbrev LineAt : List ℕ → ℕ → LogFile Mem → Type 0
  LineAt h a s' =
      (s'.heading_start ≡ a)
      × ((i : ℕ) → i < length h → byte s'.mem (s'.heading_start + i) ≡ of_list h i)

  row_logged-LineAt :
      (s1 : LogFile Mem) (h : List ℕ) (a : ℕ)
      → IsLog nvm g s1
      → s1.log_end + 4 ≤ 2 ^ 32
      → a + length h ≤ s1.journal_start
      → LineAt h a s1
      → LineAt h a (row_logged s1)
  row_logged-LineAt s1 h a ok top room line =
      let text = line_text (values s1.row.columns) in
      let s2 = (log_string nvm g s1 text).1 in
      let places = log_string-places nvm g flash s1 text in
      let later : LineAt h a s2 = (
        places.0 ∙ line.0,
        λ i lt.
            let first = places.0 ∙ line.0 in
            log_string-under nvm g flash s1 text (s2.heading_start + i) ok top
              (omega (arith, first, room, lt))
            ∙ (ap (λ b. byte s1.mem (b + i)) places.0 ∙ line.1 i lt),
      ) in
      let kept : LineAt h a (if has_value s1.row.columns then s2 else s1) =
        if-both (LineAt h a) (has_value s1.row.columns) (λ _. later) (λ _. line) in
      (kept.0, kept.1)

  row_logged-heading_start : (s : LogFile Mem) → (row_logged s).heading_start ≡ s.heading_start
  row_logged-heading_start s =
      let text = line_text (values s.row.columns) in
      if-both (λ (t : LogFile Mem). t.heading_start ≡ s.heading_start) (has_value s.row.columns)
        (λ _. (log_string-places nvm g flash s text).0) (λ _. refl)

  -- `endRow` behind the time stamp stores the line of the headings.
  pub store_row-HasLine :
      (s : LogFile Mem)
      → IsLog nvm g s
      → IsCoherent nvm g s.cache s.mem
      → s.log_end + 4 ≤ 2 ^ 32
      → s.log_end < flash_end
      → (s.row.headings_changed ≡ true → HasRoom s s.row)
      → HasLine s s.row (store_row nvm g s).1
  unfolding store_row HasLine
  store_row-HasLine s ok k top inside room =
      let h = line_text (keys s.row.columns) in
      let s1 = store_headings nvm g s in
      by_case (LineAt h (headings_at s)) (λ t. t.heading_start ≡ s.heading_start)
        s.row.headings_changed s1 s
        (λ new.
          let here = room new in
          let (at, journal, end, line) = store_headings-HasLine s ok k top inside here in
          let ok1 = (store_headings_lem nvm g s flash.some_page ok).0 in
          row_logged-LineAt s1 h (headings_at s) ok1 (omega (arith, end, top))
            (omega (arith, journal, here.before))
            (at, λ i lt. ap (λ a. byte s1.mem (a + i)) at ∙ line i lt))
        (λ _. row_logged-heading_start s)
