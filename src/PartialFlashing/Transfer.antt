-- ===== src/PartialFlashing/Transfer.antt =====
-- A program sent to the service of source/bluetooth/MicroBitPartialFlashingService.cpp, block by
-- block.
use codal_microbit_v2_fft.Base.{
  ℕ, ◌+◌, ◌-◌, ◌*◌, ◌/◌, ◌%◌, ◌^◌, ◌<◌, ◌≡◌, refl, ap, ap₂, ◌∙◌, fun_ext, inl, inr, arith, true,
  false, Bytes, Bool-cases, within, memcpy, advance, ltb, ◌==◌, ◌!=◌, if◌then◌else◌, bit_or,
}
use codal_microbit_v2_fft.Base.Bits.{bit_or_apart}
use codal_microbit_v2_fft.PartialFlashing.{flash_data_code, fired, Service, also, flash_data}

-- The packet `k` of a block for address `o`, with the numbers from `num` on.
abbrev pub packet_of : ℕ → ℕ → Bytes → ℕ → Bytes
packet_of o num d k i =
    let high = if k == 0 then o / 2 ^ 8 % 256 else if k == 1 then o / 2 ^ 24 % 256 else 0 in
    let low = if k == 0 then o % 256 else if k == 1 then o / 2 ^ 16 % 256 else 0 in
    if i == 0
    then flash_data_code
    else if i == 1
    then high
    else if i == 2
    then low
    else if i == 3
    then (num + k) % 256
    else d (16 * k + (i - 4))

-- The first `n` bytes of a block.
abbrev pub filled : Bytes → Bytes → ℕ → Bytes
filled d b n j = if ltb j n then d j else b j

copy_lem :
    (d b : Bytes) (o num k : ℕ)
    → memcpy (filled d b (16 * k)) (16 * k) (advance (packet_of o num d k) 4) 16
      ≡ filled d b (16 * k + 16)
copy_lem d b o num k = fun_ext (λ j. elim (Bool-cases (within (16 * k) (16 * k + 16) j)) [
  | inl e ↦
      let at : 16 * k + (4 + (j - 16 * k) - 4) ≡ j = ground arith in
      let below : ltb j (16 * k + 16) ≡ true = ground arith in
      let n0 : (4 + (j - 16 * k) == 0) ≡ false = ground arith in
      let n1 : (4 + (j - 16 * k) == 1) ≡ false = ground arith in
      let n2 : (4 + (j - 16 * k) == 2) ≡ false = ground arith in
      let n3 : (4 + (j - 16 * k) == 3) ≡ false = ground arith in
      rw (e, below, n0, n1, n2, n3) (ap d at)
  | inr e ↦ let same : ltb j (16 * k + 16) ≡ ltb j (16 * k) = ground arith in rw (e, same) refl
])

low_half : (o : ℕ) → o / 2 ^ 8 % 256 * 2 ^ 8 + o % 256 ≡ o % 2 ^ 16
low_half o = omega arith

module _ {Mem Keys : Type 0} where
  -- Behind `k` packets of a block.
  abbrev partway : Service Mem Keys → ℕ → Bytes → ℕ → ℕ → Service Mem Keys
  partway s num d k offset = record s {
    packet_count = (num + k) % 256;
    block = filled d s.block (16 * k);
    block_num = k;
    offset = offset;
  }

  -- Behind the block.
  abbrev pub received : Service Mem Keys → ℕ → ℕ → Bytes → Service Mem Keys
  received s o num d = record s {
    packet_count = (num + 4) % 256;
    block_packet_count = (num + 4) % 256;
    block = filled d s.block 64;
    block_num = 0;
    offset = o;
    effects = also s.effects (fired flash_data_code);
  }

  -- A block is due, and its first packet has this number.
  pub record IsDue (s : Service Mem Keys) (num : ℕ) : Type 0 where
    pub packets : s.packet_count ≡ num
    pub blocks : s.block_packet_count ≡ num
    pub at_start : s.block_num ≡ 0
    pub small : num < 256

  first_packet :
      (s : Service Mem Keys) (o num : ℕ) (d : Bytes)
      → IsDue s num
      → flash_data s (packet_of o num d 0) ≡ partway s num d 1 (o % 2 ^ 16)
  unfolding flash_data
  first_packet s o num d due =
      let on_time : ((num + 0) % 256 != s.packet_count) ≡ false = ground (arith, due.packets) in
      let start : (s.block_num == 0) ≡ true = ground (arith, due.at_start) in
      let empty : s.block ≡ filled d s.block 0 = fun_ext (λ j. ground arith) in
      let packet = advance (packet_of o num d 0) 4 in
      let block =
        ap₂ (λ b n. memcpy b (16 * n) packet 16) empty due.at_start ∙ copy_lem d s.block o num 0 in
      let count : (s.packet_count + 1) % 256 ≡ (num + 1) % 256 = omega (arith, due.packets) in
      let offset = bit_or_apart 8 (o / 2 ^ 8 % 256) (o % 256) (omega arith) ∙ low_half o in
      rw (on_time, start)
        (λ i. record s {
          packet_count = count i;
          block = block i;
          block_num = 1;
          offset = offset i;
        })

  second_packet :
      (s : Service Mem Keys) (o num : ℕ) (d : Bytes)
      → o < 2 ^ 32
      → flash_data (partway s num d 1 (o % 2 ^ 16)) (packet_of o num d 1) ≡ partway s num d 2 o
  unfolding flash_data
  second_packet s o num d small =
      let on_time : ((num + 1) % 256 != (num + 1) % 256) ≡ false = ground arith in
      let block = copy_lem d s.block o num 1 in
      let count : ((num + 1) % 256 + 1) % 256 ≡ (num + 2) % 256 = omega arith in
      let high = bit_or_apart 24 (o / 2 ^ 24 % 256) (o / 2 ^ 16 % 256 * 2 ^ 16) (omega arith) in
      let sum : o / 2 ^ 24 % 256 * 2 ^ 24 + o / 2 ^ 16 % 256 * 2 ^ 16 ≡ o / 2 ^ 16 * 2 ^ 16 =
        omega (arith, small) in
      let low = bit_or_apart 16 (o / 2 ^ 16) (o % 2 ^ 16) (omega arith) in
      let offset : o / 2 ^ 16 * 2 ^ 16 + o % 2 ^ 16 ≡ o = omega arith in
      let whole = ap (λ t. bit_or t (o % 2 ^ 16)) (high ∙ sum) ∙ (low ∙ offset) in
      rw on_time
        (λ i. record s { packet_count = count i; block = block i; block_num = 2; offset = whole i })

  third_packet :
      (s : Service Mem Keys) (o num : ℕ) (d : Bytes)
      → flash_data (partway s num d 2 o) (packet_of o num d 2) ≡ partway s num d 3 o
  unfolding flash_data
  third_packet s o num d =
      let on_time : ((num + 2) % 256 != (num + 2) % 256) ≡ false = ground arith in
      let block = copy_lem d s.block o num 2 in
      let count : ((num + 2) % 256 + 1) % 256 ≡ (num + 3) % 256 = omega arith in
      rw on_time
        (λ i. record s { packet_count = count i; block = block i; block_num = 3; offset = o })

  last_packet :
      (s : Service Mem Keys) (o num : ℕ) (d : Bytes)
      → IsDue s num
      → flash_data (partway s num d 3 o) (packet_of o num d 3) ≡ received s o num d
  unfolding flash_data
  last_packet s o num d due =
      let on_time : ((num + 3) % 256 != (num + 3) % 256) ≡ false = ground arith in
      let block = copy_lem d s.block o num 3 in
      let count : ((num + 3) % 256 + 1) % 256 ≡ (num + 4) % 256 = omega arith in
      let blocks : (s.block_packet_count + 4) % 256 ≡ (num + 4) % 256 = omega (arith, due.blocks) in
      rw on_time (λ i. record s {
        packet_count = count i;
        block_packet_count = blocks i;
        block = block i;
        block_num = 0;
        offset = o;
        effects = also s.effects (fired flash_data_code);
      })

  -- Four packets in order make a block.
  pub four_packets :
      (s : Service Mem Keys) (o num : ℕ) (d : Bytes)
      → IsDue s num
      → o < 2 ^ 32
      → let p = packet_of o num d in
        flash_data (flash_data (flash_data (flash_data s (p 0)) (p 1)) (p 2)) (p 3)
        ≡ received s o num d
  four_packets s o num d due small =
      rw (first_packet s o num d due, second_packet s o num d small, third_packet s o num d)
        (last_packet s o num d due)
