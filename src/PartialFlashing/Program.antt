-- ===== src/PartialFlashing/Program.antt =====
-- A client of source/bluetooth/MicroBitPartialFlashingService.cpp that sends a program block by block
-- and goes on when a block has been written.
pub mod Blocks
use native.Mathlib.Nat.{zero-add, mod-eq_of_lt, mod-add-mod}
use native.Mathlib.Decide.{ℕ_discrete}
use codal_microbit_v2_fft.Base.{
  ℕ, zero, suc, ◌+◌, ◌-◌, ◌*◌, ◌%◌, ◌^◌, ◌≤◌, ◌<◌, ◌≡◌, ◌⊎◌, refl, ap, ap₂, sym, ◌∙◌, inl, inr,
  arith, true, false, Option, some, Bytes, within, advance, ltb, if-both,
}
use codal_microbit_v2_fft.Nvm.{Nvm}
use codal_microbit_v2_fft.Flash.Cells.{AreBytes, within_false}
use codal_microbit_v2_fft.FileSystem.{◌>>=◌}
use codal_microbit_v2_fft.MemoryMap.{Layout}
use codal_microbit_v2_fft.PartialFlashing.{flash_data_code, Service, flash_data, on_data_written}
use codal_microbit_v2_fft.PartialFlashing.Events.{
  KeyStore, Board, write_block, partial_flashing_event,
}
use codal_microbit_v2_fft.PartialFlashing.Writing.{IsOutside, IsWritten, write_block-IsWritten}
use codal_microbit_v2_fft.PartialFlashing.Transfer.{
  packet_of, filled, received, IsDue, four_packets,
}

pub filled-AreBytes : (d b : Bytes) (n : ℕ) → AreBytes d → AreBytes b → AreBytes (filled d b n)
filled-AreBytes d b n bd bb j = if-both (λ v. v < 256) (ltb j n) (λ _. bd j) (λ _. bb j)

module _ (nvm : Nvm) (layout : Layout) (store : KeyStore) (board : Board) (crc : Bytes → ℕ → ℕ)
    (mode : ℕ) where
  open nvm use {Mem, byte, page_size}
  open store use {Keys, has}

  -- One packet of 20 bytes.
  unfoldable pub send_packet : Service Mem Keys → Bytes → Option (Service Mem Keys)
  send_packet s packet = on_data_written nvm layout crc mode s packet 20

  -- The four packets of a block, and the event that the last of them fires.
  unfoldable pub send_block : Service Mem Keys → ℕ → ℕ → Bytes → Option (Service Mem Keys)
  send_block s o num d = do
    s1 ← send_packet s (packet_of o num d 0)
    s2 ← send_packet s1 (packet_of o num d 1)
    s3 ← send_packet s2 (packet_of o num d 2)
    s4 ← send_packet s3 (packet_of o num d 3)
    some (partial_flashing_event nvm store board s4 flash_data_code)

  -- Blocks one after the other, with `left` to go.
  unfoldable pub send_blocks : ℕ → Service Mem Keys → ℕ → ℕ → Bytes → Option (Service Mem Keys)
  send_blocks zero s o num d = some s
  send_blocks (suc left) s o num d = do
    t ← send_block s o num d
    send_blocks left t (o + 64) ((num + 4) % 256) (advance d 64)

  send_packet_lem :
      (s : Service Mem Keys) (o num : ℕ) (d : Bytes) (k : ℕ)
      → send_packet s (packet_of o num d k) ≡ some (flash_data s (packet_of o num d k))
  unfolding send_packet on_data_written
  send_packet_lem s o num d k = refl

  pub send_block_lem :
      (s : Service Mem Keys) (o num : ℕ) (d : Bytes)
      → IsDue s num
      → o < 2 ^ 32
      → send_block s o num d ≡ some (write_block nvm store (received s o num d))
  unfolding send_block partial_flashing_event
  send_block_lem s o num d due small =
      simp (send_packet_lem)
        (ap (λ t. some (write_block nvm store t)) (four_packets s o num d due small))

  -- What `left` blocks from address `o` on, the first in the page at `page`, leave.
  pub record IsSent (s t : Service Mem Keys) (page o left : ℕ) (d : Bytes) : Type 0 where
    pub sent : (x : ℕ) → o ≤ x → x < o + 64 * left → byte t.mem x ≡ d (x - o)
    pub before :
        (x : ℕ)
        → (has s.keys ≡ true) ⊎ IsOutside nvm store s x
        → x < o
        → byte t.mem x ≡ byte s.mem x
    pub behind :
        (x pages : ℕ)
        → (has s.keys ≡ true) ⊎ IsOutside nvm store s x
        → o + 64 * left ≤ page + pages * page_size
        → page + pages * page_size ≤ x
        → byte t.mem x ≡ byte s.mem x

  module _ (blocks : ℕ) (whole : page_size ≡ 64 * blocks) (positive : 0 < blocks) where
    -- The next block, `j` blocks behind the start of the page at `page`, can be written: it is the
    -- first of the page, or the rest of the page is blank.
    pub record IsReady (s : Service Mem Keys) (page j num : ℕ) : Type 0 where
      pub due : IsDue s num
      pub bytes : AreBytes (byte s.mem)
      pub block_bytes : AreBytes s.block
      pub aligned : page % page_size ≡ 0
      pub in_page : j < blocks
      pub blank :
          (j ≡ 0)
          ⊎ ((0 < j)
              × (has s.keys ≡ true)
              × ((x : ℕ) → page + 64 * j ≤ x → x < page + page_size → byte s.mem x ≡ 255))

    pub within_page :
        (page k : ℕ) → page % page_size ≡ 0 → k < page_size → (page + k) % page_size ≡ k
    within_page page k aligned below =
        sym (mod-add-mod page page_size k)
        ∙ (ap₂ (λ t u. (t + u) % page_size) aligned refl
            ∙ (ap (λ t. t % page_size) (zero-add k) ∙ mod-eq_of_lt below))

    pub one_block :
        (s : Service Mem Keys) (page j num : ℕ) (d : Bytes)
        → AreBytes d
        → IsReady s page j num
        → let r = received s (page + 64 * j) num d in
          IsWritten nvm store r (write_block nvm store r)
    one_block s page j num d bd v =
        let o = page + 64 * j in
        let r = received s o num d in
        let filled_bytes = filled-AreBytes d s.block 64 bd v.block_bytes in
        let at = within_page page (64 * j) v.aligned (omega (arith, v.in_page)) in
        write_block-IsWritten nvm store r (16 * blocks) v.bytes filled_bytes (omega arith)
          (omega arith)
          (elim v.blank [
            | inl first ↦ inl (omega arith)
            | inr (inside, known, blank) ↦
                inr (omega arith, known, λ x lo hi. blank x lo (omega (arith, v.in_page)))
          ])

    -- A block leaves what lies before it, and what lies behind its page.
    pub one_kept :
        (s : Service Mem Keys) (page j num : ℕ) (d : Bytes) (x : ℕ)
        → AreBytes d
        → IsReady s page j num
        → (has s.keys ≡ true) ⊎ IsOutside nvm store s x
        → (x < page + 64 * j) ⊎ (page + page_size ≤ x)
        → byte (write_block nvm store (received s (page + 64 * j) num d)).mem x ≡ byte s.mem x
    one_kept s page j num d x bd v out far =
        let o = page + 64 * j in
        let at = within_page page (64 * j) v.aligned (omega (arith, v.in_page)) in
        let outside : within o (o + 64) x ≡ false =
          within_false o (o + 64) x
            (elim far [ inl p ↦ inl p | inr q ↦ inr (omega (arith, v.in_page)) ]) in
        (one_block s page j num d bd v).kept x out outside (elim (ℕ_discrete j 0) [
          | yes first ↦ inr (elim far [ inl p ↦ inl p | inr q ↦ inr (omega arith) ])
          | no later ↦ inl (λ z. later (omega arith))
        ])
