-- ===== src/Log/Tests.antt =====
-- Instances of the theorems on the rows of source/MicroBitLog.cpp.
use codal_microbit_v2_fft.Base.{ℕ, ◌≡◌, refl, arith, true, false, ◌⊎◌, List, [], ◌∷◌, of_list}
use codal_microbit_v2_fft.Log.{
  Row, invalid_char, is_arrow, is_separator, text_of, clean_loop, clean_buffer, cleaned, log_data,
  line_text,
}
use codal_microbit_v2_fft.Log.Clean.{clean_buffer_lem}
use codal_microbit_v2_fft.Log.Rows.{Logged, fields, fields-line_text, log_data-Logged}

-- The text `a,-->`.
abbrev dirty : List ℕ
dirty = 97 ∷ 44 ∷ 45 ∷ 45 ∷ 62 ∷ []

cleaned_test : cleaned dirty ≡ 97 ∷ 95 ∷ 95 ∷ 95 ∷ 95 ∷ []
unfolding cleaned clean_buffer clean_loop
cleaned_test = refl

clean_buffer_lem_example :
    let e = text_of (of_list dirty) (clean_buffer (of_list dirty) 5 true) in
    (is_arrow e 5 2 ≡ false)
    × (is_separator e true 2 ≡ false)
    × ((e 2 ≡ of_list dirty 2) ⊎ (e 2 ≡ invalid_char))
clean_buffer_lem_example = clean_buffer_lem (of_list dirty) 5 true 2 (omega arith)

fields-line_text_example :
    fields (line_text ((97 ∷ []) ∷ [] ∷ (98 ∷ 99 ∷ []) ∷ [])) ≡ (97 ∷ []) ∷ [] ∷ (98 ∷ 99 ∷ []) ∷ []
fields-line_text_example =
    fields-line_text (97 ∷ []) ([] ∷ (98 ∷ 99 ∷ []) ∷ [])
      ((refl, refl, tt), (tt, ((refl, refl, (refl, refl, tt)), tt)))

abbrev one_column : Row
one_column = record {
  columns = record { key = 97 ∷ []; value = 98 ∷ [] } ∷ [];
  headings_changed = false;
}

log_data-Logged_example :
    Logged one_column.columns (97 ∷ []) dirty (log_data one_column (97 ∷ []) dirty)
log_data-Logged_example =
    log_data-Logged one_column (97 ∷ []) dirty ((refl, refl, tt), tt) ((refl, refl, tt), tt)
