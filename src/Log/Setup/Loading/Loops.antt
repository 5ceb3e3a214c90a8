-- ===== src/Log/Setup/Loading/Loops.antt =====
-- Reads of flash through the cache, and the loops of init of source/MicroBitLog.cpp over the data and
-- the headings.
use codal_microbit_v2_fft.Base.{
  ℕ, zero, suc, ◌+◌, ◌-◌, ◌^◌, ◌≤◌, ◌<◌, ◌≡◌, ap, sym, ◌∙◌, arith, Bool, true, false, some, Bytes,
  slice, leb, ◌==◌,
}
use codal_microbit_v2_fft.Nvm.{Nvm}
use codal_microbit_v2_fft.FsCache.{Geometry, Cache}
use codal_microbit_v2_fft.FsCache.Coherent.{IsUsable, IsCoherent}
use codal_microbit_v2_fft.FsCache.Access.{read, out_of_limits}
use codal_microbit_v2_fft.FsCache.Access.Reading.{read_lem}
use codal_microbit_v2_fft.FsCache.Access.Through.{transport_if}
use codal_microbit_v2_fft.Log.Storage.{LogFile}
use codal_microbit_v2_fft.Log.Setup.Loading.{find_data_end, skip_bytes}
use codal_microbit_v2_fft.Log.Setup.Metadata.{slice_same}

module _ (nvm : Nvm) (g : Geometry) (u : IsUsable g) (start : nvm.flash_start ≡ 0)
    (top : nvm.flash_end < 2 ^ 32) where
  open nvm use {Mem, byte, flash_start, flash_end}

  -- What lies in the flash can be read.
  pub read_inside :
      (c : Cache) (m : Mem) (address : ℕ) (out : Bytes) (n : ℕ)
      → address + n < flash_end
      → IsCoherent nvm g c m
      → let (code, out', c') = read nvm g c m address out n in
        IsCoherent nvm g c' m × ((j : ℕ) → j < n → out' j ≡ byte m (address + j))
  read_inside c m address out n inside k =
      let within_limits : out_of_limits nvm g address n ≡ false = ground arith in
      let (k', cases) = read_lem nvm g u c m address out n (omega arith) k in
      let (code, got) = transport_if _ _ (out_of_limits nvm g address n) within_limits cases in
      (k', λ j lt. got j ∙ ground arith)

  pub read_area :
      (c : Cache) (m : Mem) (address : ℕ) (out : Bytes) (n : ℕ)
      → address + n < flash_end
      → IsCoherent nvm g c m
      → let (code, out', c') = read nvm g c m address out n in
        IsCoherent nvm g c' m × (slice out' 0 n ≡ slice (byte m) address n)
  read_area c m address out n inside k =
      let (k', got) = read_inside c m address out n inside k in
      (
        k',
        slice_same (read nvm g c m address out n).1 (byte m) 0 address n
            (λ i lt. ap (read nvm g c m address out n).1 (omega arith) ∙ got i lt),
      )

  -- From `n` bytes before the first unused one, or before the end of the log.
  pub find_data_end_lem :
      (n rounds : ℕ) (s : LogFile Mem) (d : Bytes)
      → rounds ≡ s.log_end - s.data_end
      → s.data_end + n ≤ s.log_end
      → s.log_end < flash_end
      → ((i : ℕ) → i < n → (byte s.mem (s.data_end + i) == 255) ≡ false)
      → (s.data_end + n < s.log_end → byte s.mem (s.data_end + n) ≡ 255)
      → IsCoherent nvm g s.cache s.mem
      → (c : Cache) × (find_data_end nvm g rounds s d
          ≡ record s { cache = c; data_end = s.data_end + n })
        × IsCoherent nvm g c s.mem
  unfolding find_data_end
  find_data_end_lem n zero s d e fits inside used unused k =
      let here : s.data_end ≡ s.data_end + n = omega arith in
      (s.cache, ap (λ a. record s { data_end = a }) here, k)
  find_data_end_lem zero (suc rounds) s d e fits inside used unused k =
      let o = read nvm g s.cache s.mem s.data_end d 1 in
      let (k', got) = read_inside s.cache s.mem s.data_end d 1 (omega arith) k in
      let before : leb s.log_end s.data_end ≡ false = ground arith in
      let here : s.data_end ≡ s.data_end + 0 = omega arith in
      let last : o.1 0 ≡ 255 = got 0 (omega arith) ∙ unused (omega arith) in
      let stop : (o.1 0 == 255) ≡ true = ground arith in
      (o.2, rw (before, stop) (ap (λ a. record s { cache = o.2; data_end = a }) here), k')
  find_data_end_lem (suc n) (suc rounds) s d e fits inside used unused k =
      let o = read nvm g s.cache s.mem s.data_end d 1 in
      let (k', got) = read_inside s.cache s.mem s.data_end d 1 (omega arith) k in
      let before : leb s.log_end s.data_end ≡ false = ground arith in
      let on : (o.1 0 == 255) ≡ false =
        ap (λ v. v == 255) (got 0 (omega arith)) ∙ used 0 (omega arith) in
      let next = λ (i : ℕ). let h : s.data_end + 1 + i ≡ s.data_end + suc i = omega arith in h in
      let (c, runs, k2) =
        find_data_end_lem n rounds (record s { cache = o.2; data_end = s.data_end + 1 }) o.1
          (omega arith) (omega arith) inside
          (λ i lt. ap (λ a. byte s.mem a == 255) (next i) ∙ used (suc i) (omega arith))
          (λ lt. ap (byte s.mem) (next n) ∙ unused (omega arith)) k' in
      (c, rw (before, on) (runs ∙ ap (λ a. record s { cache = c; data_end = a }) (next n)), k2)

  -- From `n` bytes before the first one for which the test holds.
  pub skip_bytes_lem :
      (n rounds : ℕ) (stop : ℕ → Bool) (s : LogFile Mem) (c : Bytes) (address : ℕ)
      → n < rounds
      → address + n + 1 < flash_end
      → c 0 ≡ byte s.mem address
      → ((i : ℕ) → i < n → stop (byte s.mem (address + i)) ≡ false)
      → stop (byte s.mem (address + n)) ≡ true
      → IsCoherent nvm g s.cache s.mem
      → (k : Cache) × (c' : Bytes) × (skip_bytes nvm g rounds stop s c address
          ≡ some (address + n, record s { cache = k }, c'))
        × (c' 0 ≡ byte s.mem (address + n))
        × IsCoherent nvm g k s.mem
  unfolding skip_bytes
  skip_bytes_lem n zero stop s c address enough inside here passed last k = absurd (omega arith)
  skip_bytes_lem zero (suc rounds) stop s c address enough inside here passed last k =
      let at : address + 0 ≡ address = omega arith in
      let first : c 0 ≡ byte s.mem (address + 0) = here ∙ ap (byte s.mem) (sym at) in
      let test : stop (c 0) ≡ true = ap stop first ∙ last in
      (s.cache, c, rw test (ap (λ a. some (a, s, c)) (sym at)), first, k)
  skip_bytes_lem (suc n) (suc rounds) stop s c address enough inside here passed last k =
      let o = read nvm g s.cache s.mem (address + 1) c 1 in
      let (k', got) = read_inside s.cache s.mem (address + 1) c 1 (omega arith) k in
      let at : address + 0 ≡ address = omega arith in
      let test : stop (c 0) ≡ false =
        ap stop (here ∙ ap (byte s.mem) (sym at)) ∙ passed 0 (omega arith) in
      let next = λ (i : ℕ). let h : address + 1 + i ≡ address + suc i = omega arith in h in
      let (c2, b2, runs, shown, k2) =
        skip_bytes_lem n rounds stop (record s { cache = o.2 }) o.1 (address + 1) (omega arith)
          (omega arith) (got 0 (omega arith) ∙ ap (byte s.mem) (omega arith))
          (λ i lt. ap (λ a. stop (byte s.mem a)) (next i) ∙ passed (suc i) (omega arith))
          (ap (λ a. stop (byte s.mem a)) (next n) ∙ last) k' in
      (
        c2,
        b2,
        rw test (runs ∙ ap (λ a. some (a, record s { cache = c2 }, b2)) (next n)),
        shown ∙ ap (byte s.mem) (next n),
        k2,
      )
