-- ===== src/Log/Setup/Loading/Journal.antt =====
-- The loop of init of source/MicroBitLog.cpp over the journal.
use codal_microbit_v2_fft.Base.{
  ℕ, zero, suc, ◌+◌, ◌*◌, ◌%◌, ◌^◌, ◌≤◌, ◌<◌, ◌≡◌, refl, ap, ap₂, sym, ◌∙◌, arith, Bool, Bool-cases,
  true, false, ◌&&◌, inl, inr, Bytes, slice, leb,
}
use codal_microbit_v2_fft.Nvm.{Nvm}
use codal_microbit_v2_fft.FsCache.{Geometry, Cache}
use codal_microbit_v2_fft.FsCache.Coherent.{IsUsable, IsCoherent}
use codal_microbit_v2_fft.FsCache.Access.{read}
use codal_microbit_v2_fft.FileSystem.{u32}
use codal_microbit_v2_fft.Log.Storage.{LogFile, entry_size, write_num, write_digits}
use codal_microbit_v2_fft.Log.Setup.Loading.{is_only, load_journal}
use codal_microbit_v2_fft.Log.Setup.Strtoul.{strtoul, strtoul-write_num_alone}
use codal_microbit_v2_fft.Log.Setup.Loading.Loops.{read_area}

and_false : (b : Bool) → (b && false) ≡ false
and_false true = refl
and_false false = refl

-- The text of a number is not all zeros.
write_num-is_only : (v : ℕ) → is_only 0 (write_num v) ≡ false
unfolding write_num write_digits
write_num-is_only v = ground arith

module _ (nvm : Nvm) (g : Geometry) (u : IsUsable g) (start : nvm.flash_start ≡ 0)
    (top : nvm.flash_end < 2 ^ 32) where
  open nvm use {Mem, byte, flash_start, flash_end}

  -- Behind the last entry of the journal.
  load_behind :
      (rounds : ℕ) (s : LogFile Mem) (entry : Bytes) (address : ℕ)
      → s.data_start < flash_end
      → (address < s.data_start → address + entry_size ≤ s.data_start)
      → (address < s.data_start → is_only 255 (slice (byte s.mem) address entry_size) ≡ true)
      → IsCoherent nvm g s.cache s.mem
      → (c : Cache) × (load_journal nvm g rounds s entry address true ≡ record s { cache = c })
        × IsCoherent nvm g c s.mem
  unfolding load_journal
  load_behind zero s entry address inside whole unused k = (s.cache, refl, k)
  load_behind (suc rounds) s entry address inside whole unused k =
      elim (Bool-cases (leb s.data_start address)) [
        | inl e ↦ (s.cache, rw e refl, k)
        | inr e ↦
            let before : address < s.data_start = ground arith in
            let (k', text) =
              read_area nvm g u start top s.cache s.mem address entry entry_size
                (omega (arith, whole before)) k in
            let o = read nvm g s.cache s.mem address entry entry_size in
            let test : (is_only 255 (slice o.1 0 entry_size) && true) ≡ true =
              ap (λ t. is_only 255 t && true) text ∙ ap (λ b. b && true) (unused before) in
            (o.2, rw (e, test) refl, k')
      ]

  -- From the first of the `n` cleared entries in front of the one that holds `v`.
  pub load_journal_lem :
      (n rounds : ℕ) (s : LogFile Mem) (entry : Bytes) (address v : ℕ)
      → n + 2 ≤ rounds
      → s.data_start < flash_end
      → s.data_start + v < 2 ^ 32
      → address + 8 * n + 8 ≤ s.data_start
      → s.data_start % 8 ≡ address % 8
      → ((i : ℕ) → i < n → is_only 0 (slice (byte s.mem) (address + 8 * i) 8) ≡ true)
      → slice (byte s.mem) (address + 8 * n) 8 ≡ write_num v
      → (address + 8 * n + 8 < s.data_start
          → is_only 255 (slice (byte s.mem) (address + 8 * n + 8) 8) ≡ true)
      → IsCoherent nvm g s.cache s.mem
      → (c : Cache) × (load_journal nvm g rounds s entry address false
          ≡ record s { cache = c; journal_head = address + 8 * n; data_end = s.data_start + v })
        × IsCoherent nvm g c s.mem
  unfolding load_journal
  load_journal_lem n zero s entry address v enough inside small fits even cleared held unused k =
      absurd (omega arith)
  load_journal_lem zero (suc rounds) s entry address v enough inside small fits even cleared held
        unused k =
      let o = read nvm g s.cache s.mem address entry entry_size in
      let before : leb s.data_start address ≡ false = ground arith in
      let (k', text) =
        read_area nvm g u start top s.cache s.mem address entry entry_size (omega arith) k in
      let here : address + 8 * 0 ≡ address = omega arith in
      let number : slice o.1 0 entry_size ≡ write_num v =
        text ∙ (ap (λ a. slice (byte s.mem) a 8) (sym here) ∙ held) in
      let more : (is_only 255 (slice o.1 0 entry_size) && false) ≡ false =
        and_false (is_only 255 (slice o.1 0 entry_size)) in
      let used : is_only 0 (slice o.1 0 entry_size) ≡ false =
        ap (is_only 0) number ∙ write_num-is_only v in
      let at_end : u32 (s.data_start + strtoul (slice o.1 0 entry_size)) ≡ s.data_start + v =
        ap (λ t. u32 (s.data_start + strtoul t)) number
        ∙ (ap (λ w. u32 (s.data_start + w)) (strtoul-write_num_alone v (omega arith))
            ∙ omega arith) in
      let s2 = record s {
        cache = o.2;
        journal_head = address;
        data_end = u32 (s.data_start + strtoul (slice o.1 0 entry_size));
      } in
      let behind : address + 8 * 0 + 8 ≡ address + 8 = omega arith in
      let (c, runs, k2) =
        load_behind rounds s2 o.1 (address + entry_size) inside (λ lt. omega arith)
          (λ lt. ap (λ a. is_only 255 (slice (byte s.mem) a 8)) (sym behind) ∙ unused (omega arith))
          k' in
      (
        c,
        rw (before, more, used)
            (runs
              ∙ ap₂ (λ a e. record s { cache = c; journal_head = a; data_end = e }) (sym here)
                  at_end),
        k2,
      )
  load_journal_lem (suc n) (suc rounds) s entry address v enough inside small fits even cleared held
        unused k =
      let o = read nvm g s.cache s.mem address entry entry_size in
      let before : leb s.data_start address ≡ false = ground arith in
      let (k', text) =
        read_area nvm g u start top s.cache s.mem address entry entry_size (omega arith) k in
      let here : address + 8 * 0 ≡ address = omega arith in
      let zeros : is_only 0 (slice o.1 0 entry_size) ≡ true =
        ap (is_only 0) text
        ∙ (ap (λ a. is_only 0 (slice (byte s.mem) a 8)) (sym here) ∙ cleared 0 (omega arith)) in
      let more : (is_only 255 (slice o.1 0 entry_size) && false) ≡ false =
        and_false (is_only 255 (slice o.1 0 entry_size)) in
      let next =
        λ (i : ℕ). let e : address + entry_size + 8 * i ≡ address + 8 * suc i = omega arith in e in
      let (c, runs, k2) =
        load_journal_lem n rounds (record s { cache = o.2 }) o.1 (address + entry_size) v
          (omega arith) inside small (omega arith) (omega arith)
          (λ i lt.
            ap (λ a. is_only 0 (slice (byte s.mem) a 8)) (next i) ∙ cleared (suc i) (omega arith))
          (ap (λ a. slice (byte s.mem) a 8) (next n) ∙ held)
          (λ lt.
            ap (λ a. is_only 255 (slice (byte s.mem) (a + 8) 8)) (next n) ∙ unused (omega arith))
          k' in
      (
        c,
        rw (before, more, zeros)
            (runs
              ∙ ap (λ a. record s { cache = c; journal_head = a; data_end = s.data_start + v })
                  (next n)),
        k2,
      )
