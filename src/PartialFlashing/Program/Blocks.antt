-- ===== src/PartialFlashing/Program/Blocks.antt =====
-- The blocks of a program one after the other, on the service of
-- source/bluetooth/MicroBitPartialFlashingService.cpp.
use native.Mathlib.Nat.{add-mod_right}
use native.Mathlib.Decide.{dec_lt}
use codal_microbit_v2_fft.Base.{
  ℕ, zero, suc, ◌+◌, ◌-◌, ◌*◌, ◌%◌, ◌^◌, ◌≤◌, ◌<◌, ◌≡◌, ◌⊎◌, refl, ap, subst, sym, ◌∙◌, inl, inr,
  arith, true, some, Bytes, advance, ltb,
}
use codal_microbit_v2_fft.Nvm.{Nvm}
use codal_microbit_v2_fft.Flash.Cells.{AreBytes, within_true, within_false}
use codal_microbit_v2_fft.MemoryMap.{Layout}
use codal_microbit_v2_fft.PartialFlashing.{Service}
use codal_microbit_v2_fft.PartialFlashing.Events.{KeyStore, Board, begin_program, write_block}
use codal_microbit_v2_fft.PartialFlashing.Program.{
  filled-AreBytes, send_blocks, send_block_lem, IsSent, IsReady, within_page, one_block, one_kept,
}
use codal_microbit_v2_fft.PartialFlashing.Transfer.{received, IsDue}

module _ (nvm : Nvm) (layout : Layout) (store : KeyStore) (board : Board) (crc : Bytes → ℕ → ℕ)
    (mode : ℕ) where
  open nvm use {Mem, byte, page_size}
  open store use {Keys, has}

  module _ (blocks : ℕ) (whole : page_size ≡ 64 * blocks) (positive : 0 < blocks) where
    -- Where the next block is due.
    record IsNext (t : Service Mem Keys) (page j num page' j' : ℕ) : Type 0 where
      ready : IsReady nvm layout store board crc mode blocks whole positive t page' j' num
      follows : page' + 64 * j' ≡ page + 64 * j + 64
      in_step : ((page' ≡ page)) ⊎ ((page' ≡ page + page_size) × (j' ≡ 0))

    next_block :
        (s : Service Mem Keys) (page j num : ℕ) (d : Bytes)
        → AreBytes d
        → IsReady nvm layout store board crc mode blocks whole positive s page j num
        → let t = write_block nvm store (received s (page + 64 * j) num d) in
          (page' : ℕ) × (j' : ℕ) × IsNext t page j ((num + 4) % 256) page' j'
    unfolding write_block begin_program
    next_block s page j num d bd v =
        let w =
          one_block nvm layout store board crc mode blocks whole positive s page j num d bd v in
        let at =
          within_page nvm layout store board crc mode blocks whole positive page (64 * j) v.aligned
            (omega (arith, v.in_page)) in
        let due : IsDue (write_block nvm store (received s (page + 64 * j) num d))
            ((num + 4) % 256) =
          record { packets = refl; blocks = refl; at_start = refl; small = omega arith } in
        let block_bytes = filled-AreBytes d s.block 64 bd v.block_bytes in
        elim (dec_lt (j + 1) blocks) [
          | yes p ↦ (
            page,
            j + 1,
            record {
              ready = record {
                due = due;
                bytes = w.bytes;
                block_bytes = block_bytes;
                aligned = v.aligned;
                in_page = p;
                blank = inr (
                  omega arith,
                  w.begun,
                  λ x lo hi. elim v.blank [
                    | inl first ↦ w.blank (omega arith) x (omega arith) (omega arith)
                    | inr (inside, known, blank) ↦
                        let outside =
                          within_false (page + 64 * j) (page + 64 * j + 64) x (inr (omega arith)) in
                        w.kept x (inl known) outside (inl (λ z. absurd (omega arith)))
                        ∙ blank x (omega arith) hi
                  ],
                );
              };
              follows = omega arith;
              in_step = inl refl;
            },
          )
          | no q ↦ (
            page + page_size,
            0,
            record {
              ready = record {
                due = due;
                bytes = w.bytes;
                block_bytes = block_bytes;
                aligned = add-mod_right page page_size ∙ v.aligned;
                in_page = positive;
                blank = inl refl;
              };
              follows = omega (arith, v.in_page);
              in_step = inr (refl, refl);
            },
          )
        ]

    -- The blocks behind the first.
    IsSent-after :
        (s u : Service Mem Keys) (left page j num : ℕ) (d : Bytes) (page' j' : ℕ)
        → AreBytes d
        → IsReady nvm layout store board crc mode blocks whole positive s page j num
        → let t = write_block nvm store (received s (page + 64 * j) num d) in
          IsNext t page j ((num + 4) % 256) page' j'
          → IsSent nvm layout store board crc mode t u page'
              (page + 64 * j + 64)
              left
              (advance d 64)
          → IsSent nvm layout store board crc mode s u page (page + 64 * j) (suc left) d
    IsSent-after s u left page j num d page' j' bd v next rest =
        let o = page + 64 * j in
        let w =
          one_block nvm layout store board crc mode blocks whole positive s page j num d bd v in
        let known : (has (write_block nvm store (received s o num d)).keys ≡ true) = w.begun in
        record {
          sent = λ x lo hi. elim (dec_lt x (o + 64)) [
            | yes p ↦
                let in_block : ltb (x - o) 64 ≡ true = ground arith in
                rest.before x (inl known) p
                ∙ (w.stored x (within_true o (o + 64) x lo p) ∙ rw in_block refl)
            | no q ↦
                let at : 64 + (x - (o + 64)) ≡ x - o = omega arith in
                rest.sent x (omega arith) (omega arith) ∙ ap d at
          ];
          before = λ x out lt.
              rest.before x (inl known) (omega arith)
              ∙ one_kept nvm layout store board crc mode blocks whole positive s page j num d x bd v
                  out (inl lt);
          behind = λ x. elim [
            | zero ↦ λ out le far. absurd (omega arith)
            | suc p ↦ λ out le far.
                let later : byte u.mem x ≡ byte (write_block nvm store (received s o num d)).mem x =
                  elim next.in_step [
                    | inl same ↦ rest.behind x (suc p) (inl known) (omega arith) (omega arith)
                    | inr (new, first) ↦ rest.behind x p (inl known) (omega arith) (omega arith)
                  ] in
                later
                ∙ one_kept nvm layout store board crc mode blocks whole positive s page j num d x bd
                    v out (inr (omega arith))
          ];
        }

    -- A program of `left` blocks.
    pub send_ready :
        (left : ℕ) (s : Service Mem Keys) (page j num : ℕ) (d : Bytes)
        → AreBytes d
        → IsReady nvm layout store board crc mode blocks whole positive s page j num
        → page + 64 * j + 64 * left ≤ 2 ^ 32
        → (t : Service Mem Keys) × (send_blocks nvm layout store board crc mode left s
              (page + 64 * j)
              num
              d
            ≡ some t)
          × IsSent nvm layout store board crc mode s t page (page + 64 * j) left d
    unfolding send_blocks
    send_ready zero s page j num d bd v fits = (
      s,
      refl,
      record {
        sent = λ x lo hi. absurd (omega arith);
        before = λ x out lt. refl;
        behind = λ x pages out le far. refl;
      },
    )
    send_ready (suc left) s page j num d bd v fits =
        let o = page + 64 * j in
        let t = write_block nvm store (received s o num d) in
        let (page', j', next) = next_block s page j num d bd v in
        let (u, runs, rest) =
          send_ready left t page' j' ((num + 4) % 256) (advance d 64) (λ x. bd (64 + x)) next.ready
            (omega (arith, next.follows)) in
        let e = send_block_lem nvm layout store board crc mode s o num d v.due (omega arith) in
        let at = λ (a : ℕ).
          send_blocks nvm layout store board crc mode left t a ((num + 4) % 256) (advance d 64) in
        (
          u,
          rw e (ap at (sym next.follows) ∙ runs),
          IsSent-after s u left page j num d page' j' bd v next (
              subst (λ a. IsSent nvm layout store board crc mode t u page' a left (advance d 64))
                next.follows rest),
        )
