-- ===== src/Packet/Sharing.antt =====
-- What is read from the buffers of source/PacketBuffer.cpp after a byte is stored, and when two are equal.
use mathlib.Core.Bool.{false≢true}
use native.Mathlib.Decide.{dec_lt}
use codal_microbit_v2_fft.Base.{
  ℕ, zero, suc, ◌+◌, ◌≤◌, ◌<◌, ◌≡◌, ◌↔◌, refl, ap, subst, ◌∙◌, sym, arith, Bool, true, false, ◌&&◌,
  ◌||◌, Code, value, error, Bytes, update, ltb, ◌==◌, if◌then◌else◌, ==_iff, Bool-cases, inl, inr,
  ◌%◌, ◌^◌, some,
}
use codal_microbit_v2_fft.Packet.{PacketData, Store, init, set_byte, get_byte, same_bytes, equals}

-- The byte read from a store in which one byte was set.
read_updated :
    (d : PacketData) (at : ℕ → PacketData) (p q position i v : ℕ)
    → at p ≡ d
    → ltb position d.len ≡ true
    → let e = update at p (record d { payload = update d.payload position v }) q in
      (if ltb i e.len then value (e.payload i) else error Code.invalid_parameter) ≡ (
        if p == q && position == i
        then value v
        else (if ltb i (at q).len then value ((at q).payload i) else error Code.invalid_parameter))
read_updated d at p q position i v e h = elim (Bool-cases (p == q)) [
  | inr other ↦ rw other refl
  | inl same ↦
      let held : at q ≡ d = ap at (sym ((==_iff p q).0 same)) ∙ e in
      elim (Bool-cases (position == i)) [
        | inr k ↦ rw (same, held, k) refl
        | inl k ↦
            let inside : ltb i d.len ≡ true =
              ap (λ x. ltb x d.len) (sym ((==_iff position i).0 k)) ∙ h in
            rw (same, held, k, inside) refl
      ]
]

-- After `setByte` the byte is read back through every buffer that shares the data, and no other byte
-- of any buffer has changed; where the position is past the end, `setByte` returns
-- DEVICE_INVALID_PARAMETER and `getByte` reads everywhere what it did.
pub get_byte-set_byte :
    (s : Store) (p q position i v : ℕ)
    → let (code, s') = set_byte s p position v in
      if ltb position (s.at p).len
      then (code ≡ Code.ok)
        × (get_byte s' q i ≡ (if p == q && position == i then value v else get_byte s q i))
      else (code ≡ Code.invalid_parameter) × (get_byte s' q i ≡ get_byte s q i)
unfolding set_byte get_byte
get_byte-set_byte s p q position i v = elim (Bool-cases (ltb position (s.at p).len)) [
  | inr h ↦ rw h (refl, refl)
  | inl h ↦ rw h (refl, read_updated (s.at p) s.at p q position i v refl h)
]

-- A new buffer has the bytes given, as many as the length mod 2 ^ 8, and no other buffer changes.
pub get_byte-init :
    (s : Store) (memory bytes : Bytes) (n rssi q i : ℕ)
    → let (p, s') = init s memory (some bytes) n rssi in
      get_byte s' q i ≡ (
        if p == q
        then (if ltb i (n % 2 ^ 8) then value (bytes i) else error Code.invalid_parameter)
        else get_byte s q i)
unfolding init get_byte
get_byte-init s memory bytes n rssi q i = ground arith

same_bytes_lem :
    (a b : Bytes) (left i : ℕ)
    → (same_bytes a b left i ≡ true) ↔ ((j : ℕ) → i ≤ j → j < i + left → a j ≡ b j)
unfolding same_bytes
same_bytes_lem a b zero i = (λ _ j lo hi. absurd (omega arith), λ _. refl)
same_bytes_lem a b (suc left) i =
    let ih = same_bytes_lem a b left (i + 1) in
    elim (Bool-cases (a i == b i)) [
      | inr h ↦ rw h (
        λ e. absurd (false≢true e),
        λ f. absurd (false≢true (sym h ∙ (==_iff (a i) (b i)).1 (f i (omega arith) (omega arith)))),
      )
      | inl h ↦ rw h (
        λ e j lo hi. elim (dec_lt i j) [
          | yes later ↦ ih.0 e j (omega arith) (omega arith)
          | no here ↦
              let same : i ≡ j = omega arith in
              subst (λ k. a k ≡ b k) same ((==_iff (a i) (b i)).0 h)
        ],
        λ f. ih.1 (λ j lo hi. f j (omega arith) (omega arith)),
      )
    ]

or_true : (x y : Bool) → y ≡ true → x || y ≡ true
or_true true y h = refl
or_true false y h = h

or_right : (x y : Bool) → x ≡ false → x || y ≡ true → y ≡ true
or_right false y e h = h
or_right true y e h = absurd (false≢true (sym e))

-- Two buffers are equal, for `operator ==`, exactly when they have the same length and the same bytes.
pub equals_lem :
    (s : Store) (p q : ℕ)
    → (equals s p q ≡ true) ↔ (
        ((s.at p).len ≡ (s.at q).len)
        × ((j : ℕ) → j < (s.at p).len → (s.at p).payload j ≡ (s.at q).payload j))
unfolding equals
equals_lem s p q =
    let d = s.at p in
    let e = s.at q in
    let bytes = same_bytes_lem d.payload e.payload d.len 0 in
    let and_cases : (x y : Bool) → x && y ≡ true → (x ≡ true) × (y ≡ true) =
      λ x y h. ground arith in
    (
      λ h. elim (Bool-cases (p == q)) [
        | inl same ↦
            let one : p ≡ q = (==_iff p q).0 same in
            (ap (λ r. (s.at r).len) one, λ j lt. ap (λ r. (s.at r).payload j) one)
        | inr other ↦
            let both =
              and_cases (d.len == e.len) (same_bytes d.payload e.payload d.len 0)
                (or_right (p == q) _ other h) in
            ((==_iff d.len e.len).0 both.0, λ j lt. bytes.0 both.1 j (omega arith) (omega arith))
      ],
      λ f. or_true (p == q) _ (
          let len_same = (==_iff d.len e.len).1 f.0 in
          let whole = bytes.1 (λ j lo hi. f.1 j (omega arith)) in rw (len_same, whole) refl),
    )
