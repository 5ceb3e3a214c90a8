-- ===== src/Log/Setup/Metadata.antt =====
-- The text of the metadata of source/MicroBitLog.cpp.
use codal_microbit_v2_fft.Base.{
  ℕ, zero, suc, ◌+◌, ◌*◌, ◌/◌, ◌%◌, ◌^◌, ◌<◌, ◌≡◌, refl, ap, ap₂, ◌∙◌, arith, Bool, true, ◌&&◌,
  List, [], ◌∷◌, ◌++◌, Bytes, of_list, slice, ltb,
}
use codal_microbit_v2_fft.Log.{newline, same_text}
use codal_microbit_v2_fft.Log.Storage.{hex_digit, write_digits, write_num}
use codal_microbit_v2_fft.Log.Setup.{version, number_text, metadata}

-- The characters of a text are bytes.
abbrev pub AreBytes : List ℕ → Type 0
AreBytes xs = (j : ℕ) → of_list xs j < 256

cons-AreBytes : (x : ℕ) (xs : List ℕ) → x < 256 → AreBytes xs → AreBytes (x ∷ xs)
cons-AreBytes x xs h hs zero = h
cons-AreBytes x xs h hs (suc j) = hs j

append-AreBytes : (xs ys : List ℕ) → AreBytes xs → AreBytes ys → AreBytes (xs ++ ys)
append-AreBytes [] ys hx hy = hy
append-AreBytes (x ∷ xs) ys hx hy =
    cons-AreBytes x (xs ++ ys) (hx 0) (append-AreBytes xs ys (λ j. hx (suc j)) hy)

write_digits-AreBytes : (k n : ℕ) → AreBytes (write_digits k n)
unfolding write_digits
write_digits-AreBytes zero n = λ j. omega arith
write_digits-AreBytes (suc k) n =
    cons-AreBytes (hex_digit (n / 2 ^ (4 * k) % 16)) (write_digits k n) (ground arith)
      (write_digits-AreBytes k n)

abbrev are_ascii : List ℕ → Bool
are_ascii [] = true
are_ascii (x ∷ xs) = ltb x 128 && are_ascii xs

pub are_ascii-AreBytes : (xs : List ℕ) → are_ascii xs ≡ true → AreBytes xs
are_ascii-AreBytes [] h = λ j. omega arith
are_ascii-AreBytes (x ∷ xs) h =
    cons-AreBytes x xs (ground arith) (are_ascii-AreBytes xs (ground arith))

number_text-AreBytes : (n : ℕ) → AreBytes (number_text n)
unfolding write_num
number_text-AreBytes n =
    append-AreBytes (b'0' ∷ b'x' ∷ []) (write_digits 8 n ++ (0 ∷ []))
      (are_ascii-AreBytes (b'0' ∷ b'x' ∷ []) refl)
      (append-AreBytes (write_digits 8 n) (0 ∷ []) (write_digits-AreBytes 8 n)
        (are_ascii-AreBytes (0 ∷ []) refl))

pub metadata-AreBytes : (data_start log_end : ℕ) → AreBytes (metadata data_start log_end)
metadata-AreBytes data_start log_end =
    append-AreBytes (version ++ (newline ∷ [])) (number_text log_end ++ number_text data_start)
      (are_ascii-AreBytes (version ++ (newline ∷ [])) refl)
      (append-AreBytes (number_text log_end) (number_text data_start) (number_text-AreBytes log_end)
        (number_text-AreBytes data_start))

pub slice_same :
    (f h : Bytes) (a b n : ℕ)
    → ((i : ℕ) → i < n → f (a + i) ≡ h (b + i))
    → slice f a n ≡ slice h b n
slice_same f h a b zero e = refl
slice_same f h a b (suc n) e =
    let here : f a ≡ h b = ap f (omega arith) ∙ (e 0 (omega arith) ∙ ap h (omega arith)) in
    ap₂ (λ x xs. x ∷ xs) here
      (slice_same f h (suc a) (suc b) n
        (λ i lt. ap f (omega arith) ∙ (e (suc i) (omega arith) ∙ ap h (omega arith))))

pub end_field :
    (data_start log_end : ℕ)
    → slice (of_list (metadata data_start log_end)) 18 10 ≡ b'0' ∷ b'x' ∷ write_num log_end
unfolding write_num write_digits
end_field data_start log_end = refl

pub start_field :
    (data_start log_end : ℕ)
    → slice (of_list (metadata data_start log_end)) 29 10 ≡ b'0' ∷ b'x' ∷ write_num data_start
unfolding write_num write_digits
start_field data_start log_end = refl

pub version_field :
    (data_start log_end : ℕ)
    → same_text (slice (of_list (metadata data_start log_end)) 0 17) version ≡ true
unfolding write_num write_digits same_text
version_field data_start log_end = refl
