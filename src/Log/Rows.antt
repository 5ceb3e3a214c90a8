-- ===== src/Log/Rows.antt =====
-- The rows of source/MicroBitLog.cpp: what `logData` stores, and that a line can be read back.
use mathlib.Core.Bool.{false≢true}
use codal_microbit_v2_fft.Base.{
  ℕ, zero, suc, ◌+◌, ◌≤◌, ◌<◌, ◌≡◌, refl, ap, ◌∙◌, sym, arith, Bool, true, false, ◌||◌, Option,
  none, some, List, [], ◌∷◌, ◌++◌, Bytes, of_list, slice, length, ◌==◌, if◌then◌else◌, Bool-cases,
  inl, inr, if-both,
}
use codal_microbit_v2_fft.Log.{
  newline, comma, is_separator, cleaned, Column, Row, same_text, has_key, add_heading, set_value,
  log_data, line_text,
}
use codal_microbit_v2_fft.Log.Clean.{clean_buffer_lem}

-- The fields of a line, read up to its newline.
abbrev pub prepend : ℕ → List (List ℕ) → List (List ℕ)
prepend c [] = (c ∷ []) ∷ []
prepend c (f ∷ fs) = (c ∷ f) ∷ fs

abbrev pub fields : List ℕ → List (List ℕ)
fields [] = [] ∷ []
fields (c ∷ cs) =
    let rest = fields cs in
    if c == newline then [] ∷ [] else if c == comma then [] ∷ rest else prepend c rest

-- A text with no comma and no newline, and texts that all are such.
abbrev pub Plain : List ℕ → Type 0
Plain [] = Unit
Plain (c ∷ cs) = ((c == newline) ≡ false) × ((c == comma) ≡ false) × Plain cs

abbrev pub AllPlain : List (List ℕ) → Type 0
AllPlain [] = Unit
AllPlain (s ∷ ss) = Plain s × AllPlain ss

fields-newline : (s : List ℕ) → Plain s → fields (s ++ (newline ∷ [])) ≡ s ∷ []
fields-newline [] p = refl
fields-newline (c ∷ s) p = rw (p.0, p.1, fields-newline s p.2) refl

fields-comma : (s rest : List ℕ) → Plain s → fields (s ++ (comma ∷ rest)) ≡ s ∷ fields rest
fields-comma [] rest p = refl
fields-comma (c ∷ s) rest p = rw (p.0, p.1, fields-comma s rest p.2) refl

-- A line of one or more texts with no comma and no newline reads back as these texts.
pub fields-line_text :
    (s : List ℕ) (ss : List (List ℕ)) → AllPlain (s ∷ ss) → fields (line_text (s ∷ ss)) ≡ s ∷ ss
unfolding line_text
fields-line_text s [] p = fields-newline s p.0
fields-line_text s (t ∷ ss) p =
    fields-comma s (line_text (t ∷ ss)) p.0 ∙ ap (λ q. s ∷ q) (fields-line_text t ss p.1)

slice-Plain :
    (e : Bytes) (i n : ℕ)
    → ((j : ℕ) → i ≤ j → j < i + n → is_separator e true j ≡ false)
    → Plain (slice e i n)
slice-Plain e i zero h = tt
slice-Plain e i (suc n) h =
    let here = h i (omega arith) (omega arith) in
    (
      ground arith,
      ground arith,
      slice-Plain e (suc i) n (λ j lo hi. h j (omega arith) (omega arith)),
    )

-- What `logData` takes for a key or a value has no comma and no newline.
cleaned-Plain : (s : List ℕ) → Plain (cleaned s)
unfolding cleaned
cleaned-Plain s =
    slice-Plain _ 0 (length s)
      (λ j lo hi. (clean_buffer_lem (of_list s) (length s) true j (omega arith)).1)

abbrev pub values : List Column → List (List ℕ)
values [] = []
values (c ∷ cs) = c.value ∷ values cs

abbrev pub keys : List Column → List (List ℕ)
keys [] = []
keys (c ∷ cs) = c.key ∷ keys cs

-- The value in the first column with the key.
abbrev pub value_of : List Column → List ℕ → Option (List ℕ)
value_of [] k = none
value_of (c ∷ cs) k = let rest = value_of cs k in if same_text c.key k then some (c.value) else rest

same_text_refl : (s : List ℕ) → same_text s s ≡ true
unfolding same_text
same_text_refl [] = refl
same_text_refl (c ∷ s) = let e = same_text_refl s in ground arith

or_right : (a b c : Bool) → a ≡ false → a || b ≡ c → b ≡ c
or_right false b c e h = h
or_right true b c e h = absurd (false≢true (sym e))

or_left_false : (a b : Bool) → a || b ≡ false → a ≡ false
or_left_false false b h = refl
or_left_false true b h = absurd (false≢true (sym h))

value_of-set_value :
    (cs : List Column) (k v : List ℕ) → has_key cs k ≡ true → value_of (set_value cs k v) k ≡ some v
unfolding set_value has_key
value_of-set_value [] k v h = absurd (false≢true h)
value_of-set_value (c ∷ cs) k v h = elim (Bool-cases (same_text c.key k)) [
  | inl e ↦ rw (e, e) refl
  | inr e ↦ rw (e, e) (value_of-set_value cs k v (or_right _ _ true e h))
]

value_of-append :
    (cs : List Column) (c : Column)
    → has_key cs c.key ≡ false
    → value_of (cs ++ (c ∷ [])) c.key ≡ some (c.value)
unfolding has_key
value_of-append [] c h = rw (same_text_refl c.key) refl
value_of-append (d ∷ cs) c h =
    let e = or_left_false (same_text d.key c.key) (has_key cs c.key) h in
    rw e (value_of-append cs c (or_right (same_text d.key c.key) (has_key cs c.key) false e h))

AllPlain-append :
    (ss : List (List ℕ)) (t : List ℕ) → AllPlain ss → Plain t → AllPlain (ss ++ (t ∷ []))
AllPlain-append [] t p q = (q, tt)
AllPlain-append (s ∷ ss) t p q = (p.0, AllPlain-append ss t p.1 q)

set_value-AllPlain :
    (cs : List Column) (k v : List ℕ)
    → AllPlain (values cs)
    → Plain v
    → AllPlain (values (set_value cs k v))
unfolding set_value
set_value-AllPlain [] k v p q = tt
set_value-AllPlain (c ∷ cs) k v p q =
    if-both (λ xs. AllPlain (values xs)) (same_text c.key k) (λ _. (q, p.1))
      (λ _. (p.0, set_value-AllPlain cs k v p.1 q))

keys-set_value : (cs : List Column) (k v : List ℕ) → keys (set_value cs k v) ≡ keys cs
unfolding set_value
keys-set_value [] k v = refl
keys-set_value (c ∷ cs) k v =
    if-both (λ xs. keys xs ≡ c.key ∷ keys cs) (same_text c.key k) (λ _. refl)
      (λ _. ap (λ q. c.key ∷ q) (keys-set_value cs k v))

values-append :
    (cs : List Column) (c : Column) → values (cs ++ (c ∷ [])) ≡ values cs ++ (c.value ∷ [])
values-append [] c = refl
values-append (d ∷ cs) c = ap (λ q. d.value ∷ q) (values-append cs c)

keys-append : (cs : List Column) (c : Column) → keys (cs ++ (c ∷ [])) ≡ keys cs ++ (c.key ∷ [])
keys-append [] c = refl
keys-append (d ∷ cs) c = ap (λ q. d.key ∷ q) (keys-append cs c)

-- What a call of `logData` leaves of the columns `cs`.
pub record Logged (cs : List Column) (k v : List ℕ) (r : Row) : Type 0 where
  pub stored : value_of r.columns (cleaned k) ≡ some (cleaned v)
  pub values_plain : AllPlain (values r.columns)
  pub keys_plain : AllPlain (keys r.columns)
  pub headings :
      keys r.columns ≡ (if has_key cs (cleaned k) then keys cs else keys cs ++ (cleaned k ∷ []))

-- Where no key and no value of the row has a comma or a newline, this stays so when `logData` is
-- called with any key and value, and the value is stored, cleaned, under the key, cleaned: in the
-- column that has the key, or in a new one at the end.
pub log_data-Logged :
    (r : Row) (k v : List ℕ)
    → AllPlain (values r.columns)
    → AllPlain (keys r.columns)
    → Logged r.columns k v (log_data r k v)
unfolding log_data add_heading
log_data-Logged r k v p q = elim (Bool-cases (has_key r.columns (cleaned k))) [
  | inl h ↦ rw h record {
    stored = value_of-set_value r.columns (cleaned k) (cleaned v) h;
    values_plain = set_value-AllPlain r.columns (cleaned k) (cleaned v) p (cleaned-Plain v);
    keys_plain = rw (keys-set_value r.columns (cleaned k) (cleaned v)) q;
    headings = rw h (keys-set_value r.columns (cleaned k) (cleaned v));
  }
  | inr h ↦
      let c : Column = record { key = cleaned k; value = cleaned v } in
      rw h record {
        stored = value_of-append r.columns c h;
        values_plain = rw (values-append r.columns c) (AllPlain-append _ _ p (cleaned-Plain v));
        keys_plain = rw (keys-append r.columns c) (AllPlain-append _ _ q (cleaned-Plain k));
        headings = rw h (keys-append r.columns c);
      }
]
