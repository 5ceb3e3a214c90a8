-- ===== src/Log/Session/Ending.antt =====
-- That `endRow` of source/MicroBitLog.cpp ends, and what it leaves.
use codal_microbit_v2_fft.Base.{
  ℕ, zero, suc, ◌+◌, ◌^◌, ◌≤◌, ◌<◌, ◌≡◌, refl, ap, ◌∙◌, arith, inl, inr, false, Bool-cases, some,
  List, ◌∷◌, of_list, Code, length, ◌==◌, ◌!=◌, if◌then◌else◌, if-both,
}
use codal_microbit_v2_fft.Nvm.{Nvm}
use codal_microbit_v2_fft.FsCache.{Geometry}
use codal_microbit_v2_fft.Log.{line_text}
use codal_microbit_v2_fft.Log.Storage.{LogFile, cache_write}
use codal_microbit_v2_fft.Log.Storage.Bounds.{
  IsLog, cache_write-IsLog, same-IsLog, log_string-IsLog,
}
use codal_microbit_v2_fft.Log.Session.{
  metadata_size, pad_string, fraction_of, units_of, billions_of, stamp_text, has_value, keys,
  values, store_headings, store_row,
}

-- What the code relies on of the text of a number: one below 10 ^ k has at most k characters.
abbrev pub IsDecimal : (ℕ → List ℕ) → Type 0
IsDecimal text = (k n : ℕ) → 0 < k → n < 10 ^ k → length (text n) ≤ k

pad_string_lem :
    (rounds : ℕ) (s : List ℕ) (digits : ℕ)
    → length s ≤ digits
    → digits < rounds + length s
    → (t : List ℕ) × (pad_string rounds s digits ≡ some t)
unfolding pad_string
pad_string_lem zero s digits le enough = absurd (omega arith)
pad_string_lem (suc rounds) s digits le enough = elim (Bool-cases (length s != digits)) [
  | inl more ↦ rw more (pad_string_lem rounds (48 ∷ s) digits (ground arith) (omega arith))
  | inr done ↦ (s, rw done refl)
]

fraction-lt : (d t : ℕ) → fraction_of d t < 10 ^ 2
fraction-lt d t = ground arith

units-lt : (d t : ℕ) → units_of d t < 10 ^ 9
units-lt d t = ground arith

pub stamp_text_lem :
    (text : ℕ → List ℕ) (d t : ℕ) → IsDecimal text → (s : List ℕ) × (stamp_text text d t ≡ some s)
unfolding stamp_text
stamp_text_lem text d t short =
    let f = short 2 (fraction_of d t) (omega arith) (fraction-lt d t) in
    let u = short 9 (units_of d t) (omega arith) (units-lt d t) in
    let (pf, ef) = pad_string_lem 3 (text (fraction_of d t)) 2 f (omega arith) in
    let (pu, eu) = pad_string_lem 10 (text (units_of d t)) 9 u (omega arith) in
    elim (Bool-cases (billions_of d t != 0)) [
      | inl high ↦ rw (ef, eu, high) (_, refl)
      | inr low ↦ rw (ef, low) (_, refl)
    ]

module _ (nvm : Nvm) (g : Geometry) where
  open nvm use {Mem, page_size}

  -- The state that the rows rely on, and that no row is begun and no heading marked as new.
  abbrev pub Idle : LogFile Mem → Code × LogFile Mem → Type 0
  Idle s (code, s') =
      IsLog nvm g s'
      × (s'.row_started ≡ false)
      × (s'.row.headings_changed ≡ false)
      × (code ≡ (if s'.full then Code.no_resources else Code.ok))

  abbrev Ready : LogFile Mem → Type 0
  Ready s = IsLog nvm g s × (s.row.headings_changed ≡ false)

  pub store_headings_lem :
      (s : LogFile Mem)
      → 0 < page_size
      → IsLog nvm g s
      → IsLog nvm g (store_headings nvm g s)
        × ((store_headings nvm g s).row.headings_changed ≡ false)
  unfolding store_headings
  store_headings_lem s pos ok =
      let h = line_text (keys s.row.columns) in
      let start =
        if s.heading_start == 0 then s.start_address + metadata_size else s.heading_start in
      let s1 = cache_write nvm g s start (λ _. 0) s.heading_length in
      let s2 = record s1 { heading_start = start + s.heading_length } in
      let s3 = cache_write nvm g s2 s2.heading_start (of_list h) (length h) in
      let ok1 = cache_write-IsLog nvm g s start (λ _. 0) s.heading_length ok in
      let ok2 = same-IsLog nvm g s1 s2 ok1 (refl, refl, refl) refl refl in
      let ok3 = cache_write-IsLog nvm g s2 s2.heading_start (of_list h) (length h) ok2 in
      let logged = log_string-IsLog nvm g s3 h pos ok3 in
      (same-IsLog nvm g _ (store_headings nvm g s) logged.0 (refl, refl, refl) refl refl, refl)

  pub store_row_lem : (s : LogFile Mem) → 0 < page_size → IsLog nvm g s → Idle s (store_row nvm g s)
  unfolding store_row
  store_row_lem s pos ok =
      let headed =
        if-both Ready s.row.headings_changed (λ t. store_headings_lem s pos ok) (λ t. (ok, t)) in
      let s1 = if s.row.headings_changed then store_headings nvm g s else s in
      let line = line_text (values s1.row.columns) in
      let logged = log_string-IsLog nvm g s1 line pos headed.0 in
      let stored =
        if-both Ready (has_value s1.row.columns)
          (λ t. (logged.0, ap (λ w. w.headings_changed) logged.1 ∙ headed.1)) (λ t. headed) in
      (
        same-IsLog nvm g _ (store_row nvm g s).1 stored.0 (refl, refl, refl) refl refl,
        refl,
        stored.1,
        refl,
      )
