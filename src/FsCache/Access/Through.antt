-- ===== src/FsCache/Access/Through.antt =====
-- What `write` of source/FSCache.cpp does as a whole: all of the bytes, or none.
use mathlib.Core.Bool.{false≢true}
use codal_microbit_v2_fft.Base.{
  ℕ, zero, suc, ◌+◌, ◌-◌, ◌^◌, ◌≤◌, ◌≡◌, refl, ap, ◌∙◌, sym, arith, Bytes, Bool, advance, within,
  ltb, if◌then◌else◌, Bool-cases, ltb→lt, true, false, Code, bit_and, inl, inr,
}
use codal_microbit_v2_fft.Nvm.{Nvm}
use codal_microbit_v2_fft.FsCache.{Geometry, Cache}
use codal_microbit_v2_fft.FsCache.Coherent.{IsUsable, IsCoherent}
use codal_microbit_v2_fft.FsCache.Access.{
  out_of_limits, segment, write_segment, write_loop, write_bytes, validate_loop, read,
}
use codal_microbit_v2_fft.FsCache.Access.Reading.{no_wrap, segment_lem, read_lem}
use codal_microbit_v2_fft.FsCache.Access.Validate.{Fits, validate_loop_lem}
use codal_microbit_v2_fft.FsCache.Access.Writing.{overwritten, write_segment_lem}

-- Overwriting a first segment of `l` bytes and then the rest is overwriting all of it.
overwrite_step :
    (m : ℕ → ℕ) (address copied l len x : ℕ) (new : Bytes)
    → l ≤ len - copied
    → (if within (address + (copied + l)) (address + len) x
        then new (x - address)
        else overwritten m (address + copied) l (advance new copied) x)
      ≡ (if within (address + copied) (address + len) x then new (x - address) else m x)
overwrite_step m address copied l len x new h =
    let same : (address + copied ≤ x) → copied + (x - (address + copied)) ≡ x - address =
      λ p. omega arith in
    ground (arith, λ (p : address + copied ≤ x). ap new (same p))

past : (m : ℕ → ℕ) (a l x : ℕ) (new : Bytes) → a + l ≤ x → overwritten m a l new x ≡ m x
past m a l x new h = ground arith

start_at :
    (m : ℕ → ℕ) (a len x : ℕ) (new : Bytes)
    → (if within (a + 0) (a + len) x then new (x - a) else m x) ≡ overwritten m a len new x
start_at m a len x new = ground arith

-- The byte at offset `j` of an overwritten area.
stored_byte :
    (m' m : ℕ → ℕ) (address len j : ℕ) (new out : Bytes)
    → m' (address + j) ≡ overwritten m address len new (address + j)
    → (if ltb j len then m' (address + j) else out j) ≡ (if ltb j len then new j else out j)
stored_byte m' m address len j new out h =
    let back : (address + j) - address ≡ j = omega arith in ground (arith, ap new back)

pub transport_if {ℓ} : (A B : Type ℓ) (b : Bool) → b ≡ false → (if b then A else B) → B
transport_if A B true e h = absurd (false≢true (sym e))
transport_if A B false e h = h

module _ (nvm : Nvm) (g : Geometry) (u : IsUsable g) where
  open nvm use {Mem, byte}
  open g use {block_size}

  write_loop_lem :
      (fuel : ℕ) (c : Cache) (m : Mem) (address : ℕ) (new : Bytes) (len copied : ℕ)
      → len ≤ copied + fuel
      → address + len ≤ 2 ^ 32
      → IsCoherent nvm g c m
      → Fits (advance (byte m) address) new copied len
      → let (c', m') = write_loop nvm g fuel c m address new len copied in
        IsCoherent nvm g c' m'
        × ((x : ℕ)
            → byte m' x ≡ (
                if within (address + copied) (address + len) x
                then new (x - address)
                else byte m x))
  unfolding write_loop
  write_loop_lem zero c m address new len copied h top k legal = (k, λ x. ground arith)
  write_loop_lem (suc fuel) c m address new len copied h top k legal =
      elim (Bool-cases (ltb copied len)) [
        | inr e ↦ rw e (k, λ x. ground arith)
        | inl e ↦
            let flat = no_wrap address copied len top (ltb→lt copied len e) in
            let a = address + copied in
            let l = segment nvm g a (len - copied) in
            let s = segment_lem nvm g u a (len - copied) (ground arith) in
            let out = write_segment nvm g c m a (advance new copied) l in
            let first = write_segment_lem nvm g u c m a l (advance new copied) k s.0 s.2 (λ j p q.
              ap (λ i. bit_and (byte m i) (new (copied + j))) (omega arith)
              ∙ legal (copied + j) (omega arith) (omega arith)) in
            let ih =
              write_loop_lem fuel out.0 out.1 address new len (copied + l) (omega arith) top first.0
                (λ j p q.
                  ap (λ v. bit_and v (new j))
                    (first.1 (address + j)
                      ∙ past (byte m) a l (address + j) (advance new copied) (omega arith))
                  ∙ legal j (omega arith) q) in
            rw (e, flat)
              (
                ih.0,
                λ x.
                    ih.1 x
                    ∙ (ap
                          (λ v.
                            if within (address + (copied + l)) (address + len) x
                            then new (x - address)
                            else v)
                          (first.1 x)
                        ∙ overwrite_step (byte m) address copied l len x new s.1),
              )
      ]

  -- Where the area ends by 2 ^ 32 and is within the limits, the cache is a faithful copy, and each
  -- byte only clears bits of the memory, `write` returns DEVICE_OK, the memory has the new bytes at
  -- `address` and is unchanged elsewhere, and the cache is a faithful copy of it.
  pub write_bytes-Fits :
      (c : Cache) (m : Mem) (address : ℕ) (new : Bytes) (len : ℕ)
      → address + len ≤ 2 ^ 32
      → IsCoherent nvm g c m
      → out_of_limits nvm g address len ≡ false
      → Fits (advance (byte m) address) new 0 len
      → let (code, c', m') = write_bytes nvm g c m address new len in
        (code ≡ Code.ok)
        × IsCoherent nvm g c' m'
        × ((x : ℕ) → byte m' x ≡ overwritten (byte m) address len new x)
  unfolding write_bytes
  write_bytes-Fits c m address new len top k inside legal =
      let v = validate_loop_lem nvm g u len c m address new len 0 (omega arith) top k in
      let w =
        write_loop_lem len (validate_loop nvm g len c m address new len 0).1 m address new len 0
          (omega arith) top v.0 legal in
      rw (inside, v.1.1 legal) (refl, w.0, λ x. w.1 x ∙ start_at (byte m) address len x new)

  -- What `write` has stored, a later `read` of the same area returns, where the area ends by 2 ^ 32
  -- and is within the limits, the cache is a faithful copy, and no byte has to set a bit.
  pub read-write :
      (c : Cache) (m : Mem) (address : ℕ) (new out : Bytes) (len : ℕ)
      → address + len ≤ 2 ^ 32
      → IsCoherent nvm g c m
      → out_of_limits nvm g address len ≡ false
      → Fits (advance (byte m) address) new 0 len
      → let (code, c', m') = write_bytes nvm g c m address new len in
        let (code', out', c'') = read nvm g c' m' address out len in
        (code' ≡ Code.ok) × ((j : ℕ) → out' j ≡ (if ltb j len then new j else out j))
  read-write c m address new out len top k inside legal =
      let w = write_bytes-Fits c m address new len top k inside legal in
      let after = write_bytes nvm g c m address new len in
      let r = read_lem nvm g u after.1 after.2 address out len top w.1 in
      let done = transport_if _ _ (out_of_limits nvm g address len) inside r.1 in
      (
        done.0,
        λ j.
            done.1 j
            ∙ stored_byte (byte after.2) (byte m) address len j new out (w.2 (address + j)),
      )
