-- ===== src/FsCache/Access/Outside.antt =====
-- Which cells of the memory a write of source/FSCache.cpp leaves alone, whatever the cache holds.
use codal_microbit_v2_fft.Base.{
  ℕ, zero, suc, ◌+◌, ◌-◌, ◌*◌, ◌/◌, ◌%◌, ◌^◌, ◌≤◌, ◌<◌, ◌≡◌, refl, ◌∙◌, arith, ◌⊎◌, false, Bytes,
  Code, advance, ltb, ltb→lt, if-both, Bool-cases, within, inl, inr,
}
use codal_microbit_v2_fft.Nvm.{Nvm}
use codal_microbit_v2_fft.FsCache.{Geometry, Cache}
use codal_microbit_v2_fft.FsCache.Coherent.{IsUsable}
use codal_microbit_v2_fft.FsCache.Access.{
  aligned_start, aligned_end, out_of_limits, segment, validate_loop, write_segment, write_loop,
  write_bytes,
}
use codal_microbit_v2_fft.FsCache.Access.Reading.{no_wrap, segment_lem}

-- `x` is not in the words from `low` to `high`, in which an area of `n` cells at `a` lies.
pub record IsOutside (low high a n x : ℕ) : Type 0 where
  pub low_word : low % 4 ≡ 0
  pub high_word : high % 4 ≡ 0
  pub from_low : low ≤ a
  pub to_high : a + n ≤ high
  pub out : (x < low) ⊎ (high ≤ x)

module _ (nvm : Nvm) (g : Geometry) (u : IsUsable g) where
  open nvm use {Mem, byte, write, byte-write}
  open g use {block_size}

  write_segment_outside :
      (low high x : ℕ) (c : Cache) (m : Mem) (a l : ℕ) (new : Bytes)
      → IsOutside low high a l x
      → byte (write_segment nvm g c m a new l).1 x ≡ byte m x
  unfolding write_segment
  write_segment_outside low high x c m a l new o =
      let start = aligned_start a in
      let words = (aligned_end (a + l) - start) / 4 in
      let reach : aligned_end (a + l) ≤ high = ground (arith, o) in
      let out : within start (start + 4 * words) x ≡ false = ground (arith, o, reach) in
      byte-write m start _ words x ∙ rw out refl

  write_loop_outside :
      (low high x fuel : ℕ) (c : Cache) (m : Mem) (address : ℕ) (new : Bytes) (len copied : ℕ)
      → address + len ≤ 2 ^ 32
      → IsOutside low high address len x
      → byte (write_loop nvm g fuel c m address new len copied).1 x ≡ byte m x
  unfolding write_loop
  write_loop_outside low high x zero c m address new len copied top o = refl
  write_loop_outside low high x (suc fuel) c m address new len copied top o =
      elim (Bool-cases (ltb copied len)) [
        | inr e ↦ rw e refl
        | inl e ↦
            let lt = ltb→lt copied len e in
            let flat = no_wrap address copied len top lt in
            let a = address + copied in
            let l = segment nvm g a (len - copied) in
            let s = segment_lem nvm g u a (len - copied) (ground arith) in
            let out = write_segment nvm g c m a (advance new copied) l in
            let here : IsOutside low high a l x = record {
              low_word = o.low_word;
              high_word = o.high_word;
              from_low = omega (arith, o.from_low);
              to_high = omega (arith, o.to_high, s.1, lt);
              out = o.out;
            } in
            rw (e, flat)
              (write_loop_outside low high x fuel out.0 out.1 address new len (copied + l) top o
                ∙ write_segment_outside low high x c m a l (advance new copied) here)
      ]

  -- A write changes no cell outside the words that the area lies in.
  pub write_bytes_outside :
      (low high x : ℕ) (c : Cache) (m : Mem) (address : ℕ) (new : Bytes) (len : ℕ)
      → address + len ≤ 2 ^ 32
      → IsOutside low high address len x
      → byte (write_bytes nvm g c m address new len).2 x ≡ byte m x
  unfolding write_bytes
  write_bytes_outside low high x c m address new len top o =
      let P : Code × Cache × Mem → Type 0 = λ r. byte r.2 x ≡ byte m x in
      let (legal, c') = validate_loop nvm g len c m address new len 0 in
      if-both P (out_of_limits nvm g address len) (λ _. refl)
        (λ _.
          if-both P legal (λ _. write_loop_outside low high x len c' m address new len 0 top o)
            (λ _. refl))
