-- ===== src/UsbFlash/Configuration/Names.antt =====
-- The name of the file on the MICROBIT drive, source/MicroBitUSBFlashManager.cpp: what
-- getConfiguration takes from the name that setConfiguration sends.
use codal_microbit_v2_fft.Base.{
  ℕ, zero, suc, ◌-◌, ◌≤◌, ◌≡◌, refl, ap, ◌∙◌, arith, true, List, [], ◌∷◌, ◌++◌, length, take, drop,
  length-append, length-take, length-drop, take-all,
}
use codal_microbit_v2_fft.UsbFlash.Configuration.{
  dot, spaces, put_at, is_file_name, name_request, name_of,
}

length-spaces : (n : ℕ) → length (spaces n) ≡ n
length-spaces zero = refl
length-spaces (suc n) = ap suc (length-spaces n)

put_at-++ :
    (n : ℕ) (xs ys : List ℕ) (c : ℕ)
    → length xs ≡ suc n
    → put_at (xs ++ ys) n c ≡ take n xs ++ (c ∷ ys)
unfolding put_at
put_at-++ n [] ys c h = absurd (omega arith)
put_at-++ zero (x ∷ []) ys c h = refl
put_at-++ zero (x ∷ y ∷ xs) ys c h = absurd (omega arith)
put_at-++ (suc n) (x ∷ xs) ys c h = ap (λ l. x ∷ l) (put_at-++ n xs ys c (omega arith))

is_file_name-length :
    (name : List ℕ) → is_file_name name ≡ true → (5 ≤ length name) × (length name ≤ 12)
unfolding is_file_name
is_file_name-length name valid = (ground arith, ground arith)

-- The base of a name, with spaces up to eight characters.
abbrev pub padded : List ℕ → List ℕ
padded name = take (length name - 4) name ++ spaces (8 - (length name - 4))

-- For a name that setConfiguration takes: sent to the chip and taken back by getConfiguration, it has
-- its base with spaces up to eight characters and without the last of these eight, then the dot,
-- then its extension.
pub name_of-name_request :
    (name : List ℕ)
    → is_file_name name ≡ true
    → name_of (name_request name) ≡ take 7 (padded name) ++ (dot ∷ drop (length name - 3) name)
unfolding name_of name_request
name_of-name_request name valid =
    let sound = is_file_name-length name valid in
    let k = length name - 4 in
    let ext = drop (length name - 3) name in
    let whole = padded name ++ ext in
    let eight : length (padded name) ≡ 8 = omega (
      arith,
      length-append (take k name) (spaces (8 - k)),
      length-take k name,
      length-spaces (8 - k),
      sound,
    ) in
    let eleven : length whole ≡ 11 =
      omega (
        arith,
        length-append (padded name) ext,
        eight,
        length-drop (length name - 3) name,
        sound,
      ) in
    let same : take (suc (length whole) - 1) whole ≡ whole =
      take-all (suc (length whole) - 1) whole (omega arith) in
    ap (λ l. put_at l (length l - 4) dot) same
    ∙ (ap (λ i. put_at whole i dot) (omega (arith, eleven))
        ∙ put_at-++ 7 (padded name) ext dot eight)
