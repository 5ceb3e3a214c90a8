-- ===== src/Log/Session.antt =====
-- source/MicroBitLog.cpp: the rows of a log that `init` has brought up, from beginRow to endRow, with
-- the time stamp. The text of an `int` is made by ManagedString, of codal-core, and is an argument;
-- so is the time.
pub mod Ending
pub mod Headings
pub mod Ended
mod Tests
use codal_microbit_v2_fft.Base.{
  ℕ, zero, suc, ◌+◌, ◌/◌, ◌%◌, Bool, true, false, ◌&&◌, ◌||◌, not, Option, none, some, List, [],
  ◌∷◌, ◌++◌, Code, of_list, length, map, ltb, ◌==◌, ◌!=◌, if◌then◌else◌,
}
use codal_microbit_v2_fft.Nvm.{Nvm}
use codal_microbit_v2_fft.FsCache.{Geometry}
use codal_microbit_v2_fft.Log.{Column, clear_values, line_text, log_data, add_heading}
use codal_microbit_v2_fft.Log.Storage.{LogFile, cache_write, log_string}

-- `TimeStampFormat`, and the number of each
pub data TimeStampFormat : Type 0 where
  no_stamp milliseconds seconds minutes hours days : TimeStampFormat

abbrev pub divisor : TimeStampFormat → ℕ
divisor no_stamp = 0
divisor milliseconds = 1
divisor seconds = 10
divisor minutes = 600
divisor hours = 36000
divisor days = 864000

-- sizeof(MicroBitLogMetaData)
abbrev pub metadata_size : ℕ
metadata_size = 40

-- The loop of `padString`, which does not end for a text that is longer than asked for.
unfoldable pub pad_string : ℕ → List ℕ → ℕ → Option (List ℕ)
pad_string zero s digits = none
pad_string (suc rounds) s digits =
    let rest = pad_string rounds (48 ∷ s) digits in if length s != digits then rest else some s

-- `system_timer_current_time() / timeStampFormat`, and the three parts of it
abbrev pub ticks : ℕ → TimeStampFormat → ℕ
ticks now format = now / divisor format

abbrev pub fraction_of : ℕ → ℕ → ℕ
fraction_of d t = if ltb 1 d then t % 1_000_000_000 % 100 else 0

abbrev pub units_of : ℕ → ℕ → ℕ
units_of d t = if ltb 1 d then t % 1_000_000_000 / 100 else t % 1_000_000_000

abbrev pub billions_of : ℕ → ℕ → ℕ
billions_of d t = if ltb 1 d then t / 1_000_000_000 / 100 else t / 1_000_000_000

-- Both texts, or none.
abbrev pub both_of : Option (List ℕ) → Option (List ℕ) → Option (List ℕ × List ℕ)
both_of none b = none
both_of (some a) none = none
both_of (some a) (some b) = some (a, b)

-- The parts put together; 46 is '.'.
abbrev pub stamp_with : ℕ → List ℕ → Option (List ℕ × List ℕ) → Option (List ℕ)
stamp_with d high none = none
stamp_with d high (some (f, w)) = some (if ltb 1 d then high ++ w ++ (46 ∷ f) else high ++ w)

module _ (text_of_int : ℕ → List ℕ) where
  -- The text of the time stamp in `endRow`.
  unfoldable pub stamp_text : ℕ → ℕ → Option (List ℕ)
  stamp_text d t =
      let u = text_of_int (units_of d t) in
      let b = billions_of d t in
      let padded = if b != 0 then pad_string 10 u 9 else some u in
      let high = if b != 0 then text_of_int b else [] in
      stamp_with d high (both_of (pad_string 3 (text_of_int (fraction_of d t)) 2) padded)

-- The units of `setTimeStamp`; those of days are "hours" there too.
abbrev pub units_text : TimeStampFormat → List ℕ
units_text no_stamp = []
units_text milliseconds = 109 ∷ 105 ∷ 108 ∷ 108 ∷ 105 ∷ 115 ∷ 101 ∷ 99 ∷ 111 ∷ 110 ∷ 100 ∷ 115 ∷ []
units_text seconds = 115 ∷ 101 ∷ 99 ∷ 111 ∷ 110 ∷ 100 ∷ 115 ∷ []
units_text minutes = 109 ∷ 105 ∷ 110 ∷ 117 ∷ 116 ∷ 101 ∷ 115 ∷ []
units_text hours = 104 ∷ 111 ∷ 117 ∷ 114 ∷ 115 ∷ []
units_text days = 104 ∷ 111 ∷ 117 ∷ 114 ∷ 115 ∷ []

-- "Time (" + units + ")"
abbrev pub stamp_heading : TimeStampFormat → List ℕ
stamp_heading f = (84 ∷ 105 ∷ 109 ∷ 101 ∷ 32 ∷ 40 ∷ []) ++ (units_text f ++ (41 ∷ []))

-- Whether some value is not empty.
unfoldable pub has_value : List Column → Bool
has_value [] = false
has_value (c ∷ cs) = length c.value != 0 || has_value cs

abbrev pub keys : List Column → List (List ℕ)
keys cs = map (λ c. c.key) cs

abbrev pub values : List Column → List (List ℕ)
values cs = map (λ c. c.value) cs

module _ (nvm : Nvm) (g : Geometry) where
  open nvm use {Mem}

  -- The part of `endRow` that stores the headings.
  unfoldable pub store_headings : LogFile Mem → LogFile Mem
  store_headings s =
      let h = line_text (keys s.row.columns) in
      let start =
        if s.heading_start == 0 then s.start_address + metadata_size else s.heading_start in
      let s1 = cache_write nvm g s start (λ _. 0) s.heading_length in
      let s2 = record s1 { heading_start = start + s.heading_length } in
      let s3 = cache_write nvm g s2 s2.heading_start (of_list h) (length h) in
      let s4 = (log_string nvm g s3 h).1 in
      record s4 { row = record s4.row { headings_changed = false } }

  -- `endRow` behind the time stamp
  unfoldable pub store_row : LogFile Mem → Code × LogFile Mem
  store_row s =
      let s1 = if s.row.headings_changed then store_headings s else s in
      let line = line_text (values s1.row.columns) in
      let s2 = if has_value s1.row.columns then (log_string nvm g s1 line).1 else s1 in
      (if s2.full then Code.no_resources else Code.ok, record s2 { row_started = false })

  module _ (text_of_int : ℕ → List ℕ) where
    -- `endRow`, at the time `now`, with the heading of the time stamp
    unfoldable pub end_row :
        LogFile Mem → TimeStampFormat → List ℕ → ℕ → Option (Code × LogFile Mem)
    end_row s format heading now =
        let stamped : Option (Code × LogFile Mem) =
          (elim (stamp_text text_of_int (divisor format) (ticks now format)) [
            | none ↦ none
            | some text ↦ some (store_row (record s { row = log_data s.row heading text }))
          ]) in
        if not s.row_started
        then some (Code.invalid_state, s)
        else if has_value s.row.columns && divisor format != 0
        then stamped
        else some (store_row s)

    -- `beginRow`
    unfoldable pub begin_row :
        LogFile Mem → TimeStampFormat → List ℕ → ℕ → Option (Code × LogFile Mem)
    begin_row s format heading now =
        let fresh : LogFile Mem → Code × LogFile Mem = λ s'. (
          Code.ok,
          record s' {
            row = record s'.row { columns = clear_values s'.row.columns };
            row_started = true;
          },
        ) in
        if s.row_started
        then elim (end_row s format heading now) [ none ↦ none | some (c, s') ↦ some (fresh s') ]
        else some (fresh s)

    -- `logData`
    unfoldable pub log_value :
        LogFile Mem
        → TimeStampFormat
        → List ℕ
        → ℕ
        → (key val : List ℕ) → Option (Code × LogFile Mem)
    log_value s format heading now key val =
        let set : LogFile Mem → Code × LogFile Mem =
          λ s'. (Code.ok, record s' { row = log_data s'.row key val }) in
        if s.row_started
        then some (set s)
        else elim (begin_row s format heading now) [ none ↦ none | some (c, s') ↦ some (set s') ]

  -- `setTimeStamp`
  unfoldable pub set_time_stamp : LogFile Mem → TimeStampFormat → LogFile Mem
  set_time_stamp s format =
      let added = add_heading s.row (stamp_heading format) [] (s.data_start == s.data_end) in
      if divisor format == 0 then s else record s { row = added }

  -- `setSerialMirroring`
  unfoldable pub set_serial_mirroring : LogFile Mem → Bool → LogFile Mem
  set_serial_mirroring s enable = record s { mirror = enable }
