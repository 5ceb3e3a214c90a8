-- ===== src/Log/Setup/Invalid.antt =====
-- What invalidate of source/MicroBitLog.cpp leaves: no log that isPresent would find.
use codal_microbit_v2_fft.Base.{
  ℕ, ◌+◌, ◌*◌, ◌<◌, ◌≡◌, if-both, refl, ap, ◌∙◌, arith, Bool, Bool-cases, true, false, ◌&&◌, inl,
  inr, slice, within, ltb, leb,
}
use codal_microbit_v2_fft.Base.Bits.{and-zero}
use codal_microbit_v2_fft.Nvm.{Nvm}
use codal_microbit_v2_fft.FsCache.{Geometry}
use codal_microbit_v2_fft.Log.{same_text}
use codal_microbit_v2_fft.Log.Setup.{Device, version, metadata_address, is_present, invalidate}
use codal_microbit_v2_fft.Log.Setup.Strtoul.{strtoul}

module _ (nvm : Nvm) (g : Geometry) where
  open nvm use {Mem, byte, byte-write, page_size, flash_end}

  -- Whether a device that has just started finds a log.
  abbrev finds : Mem → Bool
  finds m =
      let start = metadata_address nvm g in
      let data_start = strtoul (slice (byte m) (start + 29) 10) in
      let log_end = strtoul (slice (byte m) (start + 18) 10) in
      leb (start + 2 * page_size) data_start
      && ltb data_start log_end
      && ltb log_end flash_end
      && same_text (slice (byte m) start 17) version

  is_present-finds :
      (d : Device Mem) → d.initialized ≡ false → (is_present nvm g d).0 ≡ finds d.log.mem
  unfolding is_present
  is_present-finds d off = rw off refl

  -- No log where the first byte is 0.
  finds_none : (m : Mem) → byte m (metadata_address nvm g) ≡ 0 → finds m ≡ false
  unfolding same_text
  finds_none m e = rw e (ground arith)

  zeroed :
      (m : Mem) (a b n k : ℕ)
      → 0 < n
      → byte (nvm.write (nvm.write m a (λ _. 0) n) b (λ _. 0) k) a ≡ 0
  zeroed m a b n k some_word =
      let first = byte-write m a (λ _. 0) n a in
      let second = byte-write (nvm.write m a (λ _. 0) n) b (λ _. 0) k a in
      let into : within a (a + 4 * n) a ≡ true = ground arith in
      let blank : byte (nvm.write m a (λ _. 0) n) a ≡ 0 = first ∙ rw into (and-zero (byte m a)) in
      second
      ∙ rw blank (if-both (λ v. v ≡ 0) (within b (b + 4 * k) a) (λ _. and-zero 0) (λ _. refl))

  finds-invalidate :
      (d : Device Mem)
      → (d.initialized ≡ true → d.log.start_address ≡ metadata_address nvm g)
      → finds (invalidate nvm g d).log.mem ≡ false
  unfolding invalidate is_present
  finds-invalidate d known =
      let start = metadata_address nvm g in
      let log_end = strtoul (slice (byte d.log.mem) (start + 18) 10) in
      let wiped : ℕ → ℕ → Mem = λ a b. nvm.write (nvm.write d.log.mem a (λ _. 0) 10) b (λ _. 0) 1 in
      elim (Bool-cases d.initialized) [
        | inl e ↦
            rw (e, known e)
              (finds_none (wiped start d.log.log_end)
                (zeroed d.log.mem start d.log.log_end 10 1 (omega arith)))
        | inr e ↦ elim (Bool-cases (finds d.log.mem)) [
          | inl there ↦
              rw (e, there)
                (finds_none (wiped start log_end)
                  (zeroed d.log.mem start log_end 10 1 (omega arith)))
          | inr absent ↦ rw (e, absent) absent
        ]
      ]

  -- Where the device has not been initialised, or its metadata are at the usual place: when
  -- `invalidate` has run and the device starts again, with whatever it then has in memory, isPresent
  -- finds no log.
  pub is_present-invalidate :
      (d restarted : Device Mem)
      → (d.initialized ≡ true → d.log.start_address ≡ metadata_address nvm g)
      → restarted.initialized ≡ false
      → restarted.log.mem ≡ (invalidate nvm g d).log.mem
      → (is_present nvm g restarted).0 ≡ false
  is_present-invalidate d r known off same =
      is_present-finds r off ∙ (ap finds same ∙ finds-invalidate d known)
