-- ===== src/Log/Setup/Strtoul.antt =====
-- `strtoul` of the C library in base 16, on 32 bits, which source/MicroBitLog.cpp reads numbers with.
use codal_microbit_v2_fft.Base.{
  ℕ, ◌+◌, ◌-◌, ◌*◌, ◌/◌, ◌%◌, ◌^◌, ◌≤◌, ◌<◌, refl, ap, sym, ◌∙◌, arith, true, false, ◌&&◌, ◌||◌,
  Option, none, some, List, [], ◌∷◌, drop, get_or, ltb, leb, ◌==◌, if◌then◌else◌, Bool-cases,
  Option-cases, inl, inr, ◌≡◌,
}
use codal_microbit_v2_fft.Log.Storage.{hex_digit, write_digits, write_num}
use codal_microbit_v2_fft.Log.Storage.Numbers.{digit_of, read_hex, read_hex-write_num}

abbrev pub hex_value : ℕ → Option ℕ
hex_value c = if leb b'a' c && leb c b'f' then some (c - 87) else digit_of c

abbrev pub read_digits : ℕ → List ℕ → ℕ
read_digits acc [] = acc
read_digits acc (c ∷ cs) = elim (hex_value c) [
  | none ↦ acc
  | some d ↦ read_digits (acc * 16 + d) cs
]

abbrev pub skip_space : List ℕ → List ℕ
skip_space [] = []
skip_space (c ∷ cs) =
    let rest = skip_space cs in if c == 32 || leb 9 c && leb c 13 then rest else c ∷ cs

abbrev pub read_prefixed : List ℕ → ℕ
read_prefixed s =
    let prefixed = get_or s 0 0 == b'0' && (get_or s 1 0 == b'x' || get_or s 1 0 == b'X') in
    if prefixed then read_digits 0 (drop 2 s) else read_digits 0 s

unfoldable pub strtoul : List ℕ → ℕ
strtoul text =
    let s = skip_space text in
    let minus = get_or s 0 0 == b'-' in
    let v = read_prefixed (if minus || get_or s 0 0 == b'+' then drop 1 s else s) in
    if ltb v (2 ^ 32) then (if minus then (2 ^ 32 - v) % 2 ^ 32 else v) else 2 ^ 32 - 1

hex_value-digit_of : (c d : ℕ) → digit_of c ≡ some d → hex_value c ≡ some d
hex_value-digit_of c d h = elim (Bool-cases (leb b'a' c && leb c b'f')) [
  | inl e ↦
      let low : (leb 48 c && leb c 57) ≡ false = ground arith in
      let high : (leb 65 c && leb c 70) ≡ false = ground arith in
      let none_there : digit_of c ≡ none = rw (low, high) refl in cc
  | inr e ↦ rw e h
]

read_digits-read_hex : (acc n : ℕ) (cs : List ℕ) → read_hex acc cs ≡ some n → read_digits acc cs ≡ n
read_digits-read_hex acc n [] h = cc
read_digits-read_hex acc n (c ∷ cs) h =
    let step : Option ℕ → ℕ = λ o. elim o [ none ↦ acc | some d ↦ read_digits (acc * 16 + d) cs ] in
    let hex_rest : Option ℕ → Option ℕ =
      λ o. elim o [ none ↦ none | some d ↦ read_hex (acc * 16 + d) cs ] in
    let hex_step : (o : Option ℕ) → digit_of c ≡ o → read_hex acc (c ∷ cs) ≡ hex_rest o =
      λ o e. ap hex_rest e in
    elim (Option-cases (digit_of c)) [
      | inl e ↦ let clash = sym (hex_step none e) ∙ h in cc
      | inr (d, e) ↦
          ap step (hex_value-digit_of c d e)
          ∙ read_digits-read_hex (acc * 16 + d) n cs (sym (hex_step (some d) e) ∙ h)
    ]

pub strtoul-write_num : (n : ℕ) → n < 2 ^ 32 → strtoul (b'0' ∷ b'x' ∷ write_num n) ≡ n
unfolding strtoul
strtoul-write_num n h =
    let read_back : read_digits 0 (write_num n) ≡ n =
      read_digits-read_hex 0 n (write_num n) (read_hex-write_num n h) in
    let small : ltb n (2 ^ 32) ≡ true = ground arith in rw read_back (rw small refl)

strtoul-digits :
    (c d n : ℕ) (cs : List ℕ)
    → 48 ≤ c
    → c ≤ 70
    → d ≤ 70
    → read_digits 0 (c ∷ d ∷ cs) ≡ n
    → n < 2 ^ 32
    → strtoul (c ∷ d ∷ cs) ≡ n
unfolding strtoul
strtoul-digits c d n cs low high small e h =
    let not_space : (c == 32 || leb 9 c && leb c 13) ≡ false = ground arith in
    let not_minus : (c == 45) ≡ false = ground arith in
    let not_plus : (c == 43) ≡ false = ground arith in
    let no_prefix : (c == 48 && (d == 120 || d == 88)) ≡ false = ground arith in
    let below : ltb n (2 ^ 32) ≡ true = ground arith in
    rw not_space (rw not_minus (rw not_plus (rw no_prefix (rw e (rw below refl)))))

hex_digit-bounds : (n : ℕ) → (48 ≤ hex_digit (n % 16)) × (hex_digit (n % 16) ≤ 70)
hex_digit-bounds n = (ground arith, ground arith)

-- A number without the 0x in front of it.
pub strtoul-write_num_alone : (n : ℕ) → n < 2 ^ 32 → strtoul (write_num n) ≡ n
unfolding write_num write_digits
strtoul-write_num_alone n h =
    let first = hex_digit-bounds (n / 2 ^ 28) in
    let second = hex_digit-bounds (n / 2 ^ 24) in
    strtoul-digits (hex_digit (n / 2 ^ 28 % 16)) (hex_digit (n / 2 ^ 24 % 16)) n (write_digits 6 n)
      first.0 first.1 second.1 (read_digits-read_hex 0 n (write_num n) (read_hex-write_num n h)) h
