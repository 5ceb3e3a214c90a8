-- ===== src/Log/Clean.antt =====
-- `cleanBuffer` of source/MicroBitLog.cpp: which characters it replaces, and what can no longer occur
-- in the text.
use mathlib.Core.Bool.{false≢true}
use native.Mathlib.Decide.{dec_lt}
use codal_microbit_v2_fft.Base.{
  ℕ, zero, suc, ◌+◌, ◌<◌, ◌≡◌, ◌≢◌, refl, ap, ◌∙◌, sym, subst, arith, Bool, true, false, ◌&&◌, ◌||◌,
  Option, none, Bytes, update, within, ◌==◌, if◌then◌else◌, Bool-cases, inl, inr, ◌⊎◌,
}
use codal_microbit_v2_fft.Log.{
  tab, newline, comma, dash, greater, invalid_char, is_arrow, is_separator, text_of, mark,
  clean_loop, clean_buffer,
}

-- What is written at a place, and at three places in a row.
mark_one :
    (t : Bytes) (i j x : ℕ) (m : Bool)
    → t j ≡ (if m then invalid_char else x)
    → update t i invalid_char j ≡ (if m || i == j then invalid_char else x)
mark_one t i j x true h = ground (arith, h)
mark_one t i j x false h = ground (arith, h)

mark_three :
    (t : Bytes) (i j x : ℕ) (m : Bool)
    → t j ≡ (if m then invalid_char else x)
    → update (update (update t i invalid_char) (i + 1) invalid_char) (i + 2) invalid_char j
      ≡ (if m || within i (i + 3) j then invalid_char else x)
mark_three t i j x true h = ground (arith, h)
mark_three t i j x false h = ground (arith, h)

or_assoc : (a b c : Bool) → (a || b) || c ≡ a || (b || c)
or_assoc true b c = refl
or_assoc false b c = refl

or_false : (a : Bool) → a || false ≡ a
or_false true = refl
or_false false = refl

or_true : (a : Bool) → a || true ≡ true
or_true true = refl
or_true false = refl

-- A test of one character for a separator.
abbrev separates : Bool → ℕ → Bool
separates remove c = c == tab || (remove && (c == comma || c == newline))

invalid_char-separates : (remove : Bool) → separates remove invalid_char ≡ false
invalid_char-separates true = refl
invalid_char-separates false = refl

is_arrow_parts :
    (t : Bytes) (len i : ℕ)
    → is_arrow t len i ≡ true
    → (i + 2 < len) × (t i ≡ dash) × (t (i + 1) ≡ dash) × (t (i + 2) ≡ greater)
is_arrow_parts t len i h = ground arith

is_arrow_whole :
    (t : Bytes) (len i : ℕ)
    → i + 2 < len
    → t i ≡ dash
    → t (i + 1) ≡ dash
    → t (i + 2) ≡ greater
    → is_arrow t len i ≡ true
is_arrow_whole t len i a b c d = ground arith

module _ (s : Bytes) (len : ℕ) (remove : Bool) where
  -- The character at `j` is in an arrow that starts before place `i`, or is a separator before it.
  masked : ℕ → ℕ → Bool
  masked zero j = false
  masked (suc i) j =
      let before = masked i j in
      before || ((is_arrow s len i && within i (i + 3) j) || (is_separator s remove i && i == j))

  shown : ℕ → ℕ → ℕ
  shown i j = if masked i j then invalid_char else s j

  -- One round.
  clean_step :
      (i j : ℕ) (out : Option Bytes)
      → text_of s out j ≡ shown i j
      → let arrow = mark s (mark s (mark s out i) (i + 1)) (i + 2) in
        let out' = if is_arrow s len i then arrow else out in
        let out'' = if is_separator s remove i then mark s out' i else out' in
        text_of s out'' j ≡ shown (suc i) j
  unfolding masked shown
  clean_step i j out h = elim (Bool-cases (is_arrow s len i)) [
    | inl a ↦ elim (Bool-cases (is_separator s remove i)) [
      | inl b ↦
          rw (a, b)
            (mark_one
                (update (update (update (text_of s out) i invalid_char) (i + 1) invalid_char)
                  (i + 2) invalid_char)
                i j (s j) (masked i j || within i (i + 3) j)
                (mark_three (text_of s out) i j (s j) (masked i j) h)
              ∙ ap (λ b. if b then invalid_char else s j)
                  (or_assoc (masked i j) (within i (i + 3) j) (i == j)))
      | inr b ↦
          rw (a, b)
            (mark_three (text_of s out) i j (s j) (masked i j) h
              ∙ ap (λ b. if masked i j || b then invalid_char else s j)
                  (sym (or_false (within i (i + 3) j))))
    ]
    | inr a ↦ elim (Bool-cases (is_separator s remove i)) [
      | inl b ↦ rw (a, b) (mark_one (text_of s out) i j (s j) (masked i j) h)
      | inr b ↦
          rw (a, b) (h ∙ ap (λ b. if b then invalid_char else s j) (sym (or_false (masked i j))))
    ]
  ]

  clean_loop_lem :
      (left i j : ℕ) (out : Option Bytes)
      → ((j : ℕ) → text_of s out j ≡ shown i j)
      → text_of s (clean_loop s len remove left i out) j ≡ shown (i + left) j
  unfolding clean_loop
  clean_loop_lem zero i j out h = h j ∙ ap (λ k. shown k j) (omega arith)
  clean_loop_lem (suc left) i j out h =
      clean_loop_lem left (i + 1) j _
        (λ k. clean_step i k out (h k) ∙ ap (λ n. shown n k) (omega arith))
      ∙ ap (λ k. shown k j) (omega arith)

  -- What is masked stays so, and what has a reason to be is.
  masked_arrow :
      (n i j : ℕ) → i < n → is_arrow s len i ≡ true → within i (i + 3) j ≡ true → masked n j ≡ true
  unfolding masked
  masked_arrow zero i j h a w = absurd (omega arith)
  masked_arrow (suc n) i j h a w = elim (dec_lt i n) [
    | yes earlier ↦ let e = masked_arrow n i j earlier a w in rw e refl
    | no here ↦
        let same : i ≡ n = omega arith in
        let a' : is_arrow s len n ≡ true = subst (λ k. is_arrow s len k ≡ true) same a in
        let w' : within n (n + 3) j ≡ true = subst (λ k. within k (k + 3) j ≡ true) same w in
        rw (a', w') (or_true (masked n j))
  ]

  masked_separator : (n i : ℕ) → i < n → is_separator s remove i ≡ true → masked n i ≡ true
  unfolding masked
  masked_separator zero i h b = absurd (omega arith)
  masked_separator (suc n) i h b = elim (dec_lt i n) [
    | yes earlier ↦ let e = masked_separator n i earlier b in rw e refl
    | no here ↦
        let same : i ≡ n = omega arith in
        let b' : is_separator s remove n ≡ true =
          subst (λ k. is_separator s remove k ≡ true) same b in
        let at : (n == i) ≡ true = ground arith in
        rw (b', at) (ap (λ b. masked n i || b) (or_true _) ∙ or_true (masked n i))
  ]

  -- A character that is not the invalid one was not replaced.
  shown_other : (n j c : ℕ) → shown n j ≡ c → c ≢ invalid_char → s j ≡ c
  unfolding shown
  shown_other n j c e ne = elim (Bool-cases (masked n j)) [
    | inl m ↦ absurd (ground arith)
    | inr m ↦ ground arith
  ]

  start : (k : ℕ) → s k ≡ shown 0 k
  unfolding shown masked
  start k = refl

  result : (j : ℕ) → text_of s (clean_buffer s len remove) j ≡ shown len j
  unfolding clean_buffer
  result j = clean_loop_lem len 0 j none start ∙ ap (λ k. shown k j) (omega arith)

  no_arrow : (i : ℕ) → is_arrow (text_of s (clean_buffer s len remove)) len i ≡ false
  unfolding shown
  no_arrow i = elim (Bool-cases (is_arrow (text_of s (clean_buffer s len remove)) len i)) [
    | inr h ↦ h
    | inl h ↦
        let e = is_arrow_parts (text_of s (clean_buffer s len remove)) len i h in
        let a =
          is_arrow_whole s len i e.0 (shown_other len i dash (sym (result i) ∙ e.1) (omega arith))
            (shown_other len (i + 1) dash (sym (result (i + 1)) ∙ e.2) (omega arith))
            (shown_other len (i + 2) greater (sym (result (i + 2)) ∙ e.3) (omega arith)) in
        let here : within i (i + 3) i ≡ true = ground arith in
        let m = masked_arrow len i i (omega (arith, e.0)) a here in
        let bad : invalid_char ≡ dash =
          ap (λ b. if b then invalid_char else s i) (sym m) ∙ (sym (result i) ∙ e.1) in
        absurd (omega arith)
  ]

  no_separator :
      (i : ℕ) → i < len → is_separator (text_of s (clean_buffer s len remove)) remove i ≡ false
  unfolding shown
  no_separator i h = elim (Bool-cases (masked len i)) [
    | inl m ↦
        ap (separates remove) (result i ∙ ap (λ b. if b then invalid_char else s i) m)
        ∙ invalid_char-separates remove
    | inr m ↦ elim (Bool-cases (is_separator s remove i)) [
      | inl b ↦ absurd (false≢true (sym m ∙ masked_separator len i h b))
      | inr b ↦ ap (separates remove) (result i ∙ ap (λ b. if b then invalid_char else s i) m) ∙ b
    ]
  ]

  -- After `cleanBuffer` the text has no arrow `-->`, and none of the characters that it is to replace,
  -- at any place of it; each character is the one given, or the invalid one.
  pub clean_buffer_lem :
      (i : ℕ)
      → i < len
      → let e = text_of s (clean_buffer s len remove) in
        (is_arrow e len i ≡ false)
        × (is_separator e remove i ≡ false)
        × ((e i ≡ s i) ⊎ (e i ≡ invalid_char))
  unfolding shown
  clean_buffer_lem i h = (
    no_arrow i,
    no_separator i h,
    elim (Bool-cases (masked len i)) [
      | inl m ↦ inr (result i ∙ ap (λ b. if b then invalid_char else s i) m)
      | inr m ↦ inl (result i ∙ ap (λ b. if b then invalid_char else s i) m)
    ],
  )
