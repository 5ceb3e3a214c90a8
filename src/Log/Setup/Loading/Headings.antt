-- ===== src/Log/Setup/Loading/Headings.antt =====
-- That init of source/MicroBitLog.cpp takes the columns from the headings as endRow has stored them.
use mathlib.Core.List.{append_assoc, append-nil}
use codal_microbit_v2_fft.Base.{
  ℕ, suc, ◌<◌, arith, length, length-append, ◌≡◌, refl, ap, ◌∙◌, sym, true, false, ◌||◌, List, [],
  ◌∷◌, ◌++◌, map, ◌==◌,
}
use codal_microbit_v2_fft.Log.{newline, comma, Column, line_text}
use codal_microbit_v2_fft.Log.Setup.Loading.{count_headings, split_headings}

-- A text with no comma, no newline and no 0, and texts that all are such.
abbrev pub IsKey : List ℕ → Type 0
IsKey [] = Unit
IsKey (c ∷ cs) =
    ((c == comma || c == newline || c == 0) ≡ false)
    × ((c == comma || c == newline) ≡ false)
    × IsKey cs

abbrev pub AreKeys : List (List ℕ) → Type 0
AreKeys [] = Unit
AreKeys (s ∷ ss) = IsKey s × AreKeys ss

-- A column with no value.
abbrev pub named : List ℕ → Column
named k = record { key = k; value = [] }

count-key :
    (s rest : List ℕ) (c : ℕ)
    → (c == comma || c == newline) ≡ true
    → IsKey s
    → count_headings (s ++ (c ∷ rest)) ≡ suc (count_headings rest)
unfolding count_headings
count-key [] rest c h p = rw h refl
count-key (x ∷ s) rest c h p = rw (p.1) (count-key s rest c h p.2)

split-key :
    (n : ℕ) (key s rest : List ℕ) (c : ℕ)
    → (c == comma || c == newline || c == 0) ≡ true
    → IsKey s
    → split_headings (suc n) key (s ++ (c ∷ rest)) ≡ named (key ++ s) ∷ split_headings n [] rest
unfolding split_headings
split-key n key [] rest c h p =
    rw h (ap (λ k. named k ∷ split_headings n [] rest) (sym (append-nil key)))
split-key n key (x ∷ s) rest c h p = rw (p.0) (
    split-key n (key ++ (x ∷ [])) s rest c h p.2
    ∙ ap (λ k. named k ∷ split_headings n [] rest) (append_assoc key (x ∷ []) s))

-- The line of one or more keys gives these back, in order.
pub split_headings-line_text :
    (s : List ℕ) (ss : List (List ℕ))
    → AreKeys (s ∷ ss)
    → let text = line_text (s ∷ ss) in
      split_headings (count_headings text) [] text ≡ map named (s ∷ ss)
unfolding line_text count_headings split_headings
split_headings-line_text s [] p =
    ap (λ n. split_headings n [] (s ++ (newline ∷ []))) (count-key s [] newline refl p.0)
    ∙ split-key 0 [] s [] newline refl p.0
split_headings-line_text s (t ∷ ss) p =
    let rest = line_text (t ∷ ss) in
    ap (λ n. split_headings n [] (s ++ (comma ∷ rest))) (count-key s rest comma refl p.0)
    ∙ (split-key (count_headings rest) [] s rest comma refl p.0
        ∙ ap (λ cs. named s ∷ cs) (split_headings-line_text t ss p.1))

pub line_text-some : (s : List ℕ) (ss : List (List ℕ)) → 0 < length (line_text (s ∷ ss))
unfolding line_text
line_text-some s [] = omega (arith, length-append s (newline ∷ []))
line_text-some s (t ∷ ss) = omega (arith, length-append s (comma ∷ line_text (t ∷ ss)))
