-- ===== src/PartialFlashing/Packets.antt =====
-- The packets of the service in source/bluetooth/MicroBitPartialFlashingService.cpp: what holds of
-- the counts whatever packets come, and what four packets in order make of the state.
use codal_microbit_v2_fft.Base.{
  ℕ, ◌+◌, ◌*◌, ◌%◌, ◌≤◌, ◌<◌, ◌≡◌, refl, ap, ap₂, subst, sym, ◌∙◌, inl, inr, arith, not, false,
  Option, none, some, List, Bytes, Option-cases, within, memcpy, advance, ◌==◌, ◌!=◌, if-both,
}
use codal_microbit_v2_fft.Nvm.{Nvm}
use codal_microbit_v2_fft.MemoryMap.{MemoryMap, Layout, memory_map_init}
use codal_microbit_v2_fft.PartialFlashing.{
  flash_data_code, Effect, Service, is_previous, flash_data, tell_region, on_data_written,
  region_info, end_of_transmission, microbit_status, microbit_reset, mode_pairing, mode_application,
}
use codal_microbit_v2_fft.PartialFlashing.Events.{
  KeyStore, Board, partial_flashing_event, write_block, begin_program,
}
use codal_microbit_v2_fft.Flash.Cells.{within_false}

-- A packet of 16 bytes stays in a block of 64.
copy-IsKept :
    (past block packet : Bytes) (n : ℕ)
    → n < 4
    → ((i : ℕ) → 64 ≤ i → block i ≡ past i)
    → (i : ℕ) → 64 ≤ i
    → memcpy block (16 * n) (advance packet 4) 16 i ≡ past i
copy-IsKept past block packet n h kept i far =
    let out : within (16 * n) (16 * n + 16) i ≡ false =
      within_false (16 * n) (16 * n + 16) i (inr (omega arith)) in
    rw out (kept i far)

-- The count of packets is that of the blocks and of the packets of this block, and past the 64 bytes
-- of the block there is what was there.
pub record IsInStep {Mem Keys : Type 0} (past : Bytes) (s : Service Mem Keys) : Type 0 where
  pub in_block : s.block_num < 4
  pub blocks : s.block_packet_count < 256
  pub packets : s.packet_count ≡ (s.block_packet_count + s.block_num) % 256
  pub past_block : (i : ℕ) → 64 ≤ i → s.block i ≡ past i

module _ {Mem Keys : Type 0} (past : Bytes) where
  -- Where the next packet of a block is due.
  next-IsInStep :
      (s : Service Mem Keys) (packet : Bytes) (num blocks offset : ℕ) (effects : List Effect)
      → IsInStep past s
      → num < 4
      → blocks < 256
      → (blocks + num) % 256 ≡ (s.packet_count + 1) % 256
      → IsInStep past (record s {
        packet_count = (s.packet_count + 1) % 256;
        block = memcpy s.block (16 * s.block_num) (advance packet 4) 16;
        block_num = num;
        block_packet_count = blocks;
        offset = offset;
        effects = effects;
      })
  next-IsInStep s packet num blocks offset effects v h k e = record {
    in_block = h;
    blocks = k;
    packets = sym e;
    past_block = copy-IsKept past s.block packet s.block_num v.in_block v.past_block;
  }

  flash_data-IsInStep :
      (s : Service Mem Keys) (packet : Bytes)
      → IsInStep past s
      → IsInStep past (flash_data s packet)
  unfolding flash_data
  flash_data-IsInStep s packet v =
      let P : Service Mem Keys → Type 0 = IsInStep past in
      let due = v.packets in
      let low = v.blocks in
      let at = v.in_block in
      let next = λ (num blocks offset : ℕ) (effects : List Effect).
        next-IsInStep s packet num blocks offset effects v in
      if-both P (packet 3 != s.packet_count)
        (λ _.
          if-both P (is_previous (packet 3) s.packet_count) (λ _. v)
            (λ _. record {
              in_block = omega arith;
              blocks = omega arith;
              packets = omega arith;
              past_block = v.past_block;
            }))
        (λ _.
          if-both P (s.block_num == 0) (λ e. next 1 _ _ _ (omega arith) low (ground arith))
            (λ _.
              if-both P (s.block_num == 1) (λ e. next 2 _ _ _ (omega arith) low (ground arith))
                (λ _.
                  if-both P (s.block_num == 3)
                    (λ e. next 0 _ _ _ (omega arith) (omega arith) (ground arith))
                    (λ e. next _ _ _ _ (ground arith) low (ground arith)))))

  tell_region-IsInStep :
      (s : Service Mem Keys) (map : MemoryMap) (id : ℕ)
      → IsInStep past s
      → IsInStep past (tell_region s map id)
  unfolding tell_region
  tell_region-IsInStep s map id v = record {
    in_block = omega arith;
    blocks = omega arith;
    packets = refl;
    past_block = v.past_block;
  }

  -- Only the counts and the block matter.
  same-IsInStep :
      (s t : Service Mem Keys)
      → IsInStep past s
      → t.packet_count ≡ s.packet_count
      → t.block_packet_count ≡ s.block_packet_count
      → t.block_num ≡ s.block_num
      → t.block ≡ s.block
      → IsInStep past t
  same-IsInStep s t v a b c d = record {
    in_block = omega (arith, v.in_block, c);
    blocks = omega (arith, v.blocks, b);
    packets = a ∙ (v.packets ∙ sym (ap₂ (λ x y. (x + y) % 256) b c));
    past_block = λ i far. ap (λ f. f i) d ∙ v.past_block i far;
  }

module _ (nvm : Nvm) (layout : Layout) (store : KeyStore) (board : Board) where
  open nvm use {Mem, byte}
  open store use {Keys}

  -- A value written by the client, and the handler run on an event.
  pub data Step : Service Mem Keys → Service Mem Keys → Type 0 where
    written :
        (crc : Bytes → ℕ → ℕ) (mode : ℕ) (s t : Service Mem Keys) (packet : Bytes) (len : ℕ)
        → on_data_written nvm layout crc mode s packet len ≡ some t
        → Step s t
    handled :
        (s : Service Mem Keys) (code : ℕ) → Step s (partial_flashing_event nvm store board s code)

  pub data Reaches (s : Service Mem Keys) : Service Mem Keys → Type 0 where
    here : Reaches s s
    next : {t u : Service Mem Keys} → Reaches s t → Step t u → Reaches s u

  module _ (past : Bytes) where
    abbrev InStepIfAny : Option (Service Mem Keys) → Type 0
    InStepIfAny none = Unit
    InStepIfAny (some s) = IsInStep past s

    on_data_written-IsInStep :
        (crc : Bytes → ℕ → ℕ) (mode : ℕ) (s : Service Mem Keys) (packet : Bytes) (len : ℕ)
        → IsInStep past s
        → InStepIfAny (on_data_written nvm layout crc mode s packet len)
    unfolding on_data_written
    on_data_written-IsInStep crc mode s packet len v =
        let Q : Service Mem Keys → Type 0 = IsInStep past in
        let same = λ (t : Service Mem Keys). same-IsInStep past s t v in
        if-both InStepIfAny (len == 0) (λ _. v)
          (λ _.
            if-both InStepIfAny (packet 0 == region_info)
              (λ _. elim (Option-cases (memory_map_init layout (byte s.mem) crc)) [
                | inl e ↦ rw e tt
                | inr (map, e) ↦ rw e (tell_region-IsInStep past s map (packet 1) v)
              ])
              (λ _.
                if-both Q (packet 0 == flash_data_code) (λ _. flash_data-IsInStep past s packet v)
                  (λ _.
                    if-both Q (packet 0 == end_of_transmission) (λ _. same _ refl refl refl refl)
                      (λ _.
                        if-both Q (packet 0 == microbit_status) (λ _. same _ refl refl refl refl)
                          (λ _.
                            if-both Q (not (packet 0 == microbit_reset)) (λ _. v)
                              (λ _.
                                if-both Q (packet 1 == mode_pairing)
                                  (λ _. same _ refl refl refl refl)
                                  (λ _.
                                    if-both Q (packet 1 == mode_application)
                                      (λ _. same _ refl refl refl refl) (λ _. v))))))))

    event-IsInStep :
        (s : Service Mem Keys) (code : ℕ)
        → IsInStep past s
        → IsInStep past (partial_flashing_event nvm store board s code)
    unfolding partial_flashing_event write_block begin_program
    event-IsInStep s code v =
        let Q : Service Mem Keys → Type 0 = IsInStep past in
        let same = λ (t : Service Mem Keys). same-IsInStep past s t v in
        if-both Q (code == flash_data_code) (λ _. same _ refl refl refl refl)
          (λ _.
            if-both Q (code == end_of_transmission) (λ _. same _ refl refl refl refl)
              (λ _. if-both Q (code == microbit_reset) (λ _. same _ refl refl refl refl) (λ _. v)))

    Step-IsInStep : {s t : Service Mem Keys} → Step s t → IsInStep past s → IsInStep past t
    Step-IsInStep (written crc mode s t packet len e) v =
        subst InStepIfAny e (on_data_written-IsInStep crc mode s packet len v)
    Step-IsInStep (handled s code) v = event-IsInStep s code v

    -- Whatever values a client writes and whatever events are handled, in any order: the number of a
    -- packet in its block is below 4, the count of packets is that of the blocks and this number mod
    -- 256, and nothing is written past the 64 bytes of the block.
    pub Reaches-IsInStep :
        {s t : Service Mem Keys} → Reaches s t → IsInStep past s → IsInStep past t
    Reaches-IsInStep here v = v
    Reaches-IsInStep (next r step) v = Step-IsInStep step (Reaches-IsInStep r v)
