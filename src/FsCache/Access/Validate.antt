-- ===== src/FsCache/Access/Validate.antt =====
-- The validation loop of `write` in source/FSCache.cpp: it passes exactly when every byte can be
-- written without an erase, and it only reads.
use mathlib.Core.Bool.{false≢true}
use native.Mathlib.Decide.{dec_lt}
use codal_microbit_v2_fft.Base.Bits.{clears_iff}
use codal_microbit_v2_fft.Base.{
  ℕ, zero, suc, ◌+◌, ◌-◌, ◌%◌, ◌^◌, ◌≤◌, ◌<◌, ◌≡◌, ◌↔◌, refl, ap, subst, ◌∙◌, sym, arith, inl, inr,
  Bytes, advance, ltb, Bool-cases, ltb→lt, true, false, bit_and,
}
use codal_microbit_v2_fft.Nvm.{Nvm}
use codal_microbit_v2_fft.FsCache.{Geometry, Cache, cache_page}
use codal_microbit_v2_fft.FsCache.Coherent.{IsUsable, IsCoherent, Paged}
use codal_microbit_v2_fft.FsCache.Access.{
  block_of, segment, needs_erase, has_illegal, validate_loop,
}
use codal_microbit_v2_fft.FsCache.Access.Reading.{no_wrap, page_of, segment-byte, segment_lem}

-- The bytes of `old` from `lo` up to `hi` can be overwritten by those of `new` with no erase.
abbrev pub Fits : Bytes → Bytes → ℕ → ℕ → Type 0
Fits old new lo hi = (j : ℕ) → lo ≤ j → j < hi → bit_and (old j) (new j) ≡ new j

needs_erase_lem : (a b : ℕ) → (needs_erase a b ≡ false) ↔ (bit_and a b ≡ b)
needs_erase_lem a b =
    (λ e. (clears_iff a b).0 (ground arith), λ e. ground (arith, (clears_iff a b).1 e))

Fits-split :
    (old new : Bytes) (lo mid hi : ℕ)
    → Fits old new lo mid
    → Fits old new mid hi
    → Fits old new lo hi
Fits-split old new lo mid hi p q j h k = elim (dec_lt j mid) [
  | yes lt ↦ p j h lt
  | no ge ↦ q j (omega arith) k
]

Fits-one :
    (old new : Bytes) (i j : ℕ)
    → bit_and (old i) (new i) ≡ new i
    → i ≤ j
    → j < i + 1
    → bit_and (old j) (new j) ≡ new j
Fits-one old new i j e p q =
    subst (λ k. bit_and (old k) (new k) ≡ new k) (let s : i ≡ j = omega arith in s) e

has_illegal_lem :
    (old new : Bytes) (left i hi : ℕ)
    → i + left ≡ hi
    → (has_illegal old new left i ≡ false) ↔ Fits old new i hi
unfolding has_illegal
has_illegal_lem old new zero i hi e = (λ _ j p q. absurd (omega arith), λ _. refl)
has_illegal_lem old new (suc left) i hi e =
    let ih = has_illegal_lem old new left (i + 1) hi (omega arith) in
    elim (Bool-cases (needs_erase (old i) (new i))) [
      | inl h ↦ rw h (
        λ p. absurd (false≢true (sym p)),
        λ p. absurd (
            false≢true
              (sym ((needs_erase_lem (old i) (new i)).1 (p i (omega arith) (omega arith))) ∙ h)),
      )
      | inr h ↦ rw h (
        λ p.
            Fits-split old new i (i + 1) hi
              (λ j. Fits-one old new i j ((needs_erase_lem (old i) (new i)).0 h)) (ih.0 p),
        λ p. ih.1 (λ j q r. p j (omega arith) r),
      )
    ]

module _ (nvm : Nvm) (g : Geometry) (u : IsUsable g) where
  open nvm use {Mem, byte}
  open g use {block_size}

  -- What one segment's check says of the memory.
  segment-Fits :
      (m : Mem) (address copied l : ℕ) (new : Bytes) (out : ℕ × Cache)
      → Paged nvm g m (block_of nvm g (address + copied)) out
      → (address + copied) % block_size + l ≤ block_size
      → (has_illegal
            (advance (out.1.entries out.0).page ((address + copied) % block_size))
            (advance new copied)
            l
            0
          ≡ false)
        ↔ Fits (advance (byte m) address) new copied (copied + l)
  segment-Fits m address copied l new out p h =
      let a = address + copied in
      let old = advance (out.1.entries out.0).page (a % block_size) in
      let lem = has_illegal_lem old (advance new copied) l 0 l (omega arith) in
      let same : (j : ℕ) → j < l → old j ≡ byte m (address + (copied + j)) =
        λ j q. segment-byte nvm g u m a j out p (omega arith) ∙ ap (byte m) (omega arith) in
      (
        λ e j lo hi.
            let k : ℕ = j - copied in
            let back : copied + k ≡ j = omega arith in
            let q : k < l = omega arith in
            subst (λ i. bit_and (byte m (address + i)) (new i) ≡ new i) back
              (ap (λ x. bit_and x (new (copied + k))) (sym (same k q)) ∙ lem.0 e k (omega arith) q),
        λ f. lem.1 (λ j lo hi.
            ap (λ x. bit_and x (new (copied + j))) (same j hi)
            ∙ f (copied + j) (omega arith) (omega arith)),
      )

  -- With enough rounds, and where the area ends by 2 ^ 32 and the cache is a faithful copy: the
  -- validation loop passes exactly when every byte from `copied` on can be written without an erase,
  -- and the cache stays a faithful copy.
  pub validate_loop_lem :
      (fuel : ℕ) (c : Cache) (m : Mem) (address : ℕ) (new : Bytes) (len copied : ℕ)
      → len ≤ copied + fuel
      → address + len ≤ 2 ^ 32
      → IsCoherent nvm g c m
      → let (passed, c') = validate_loop nvm g fuel c m address new len copied in
        IsCoherent nvm g c' m × ((passed ≡ true) ↔ Fits (advance (byte m) address) new copied len)
  unfolding validate_loop
  validate_loop_lem zero c m address new len copied h top k =
      (k, (λ _ j p q. absurd (omega arith), λ _. refl))
  validate_loop_lem (suc fuel) c m address new len copied h top k =
      elim (Bool-cases (ltb copied len)) [
        | inr e ↦ rw e (
          k,
          (λ _ j p q. absurd (let le : len ≤ copied = ground arith in omega arith), λ _. refl),
        )
        | inl e ↦
            let flat = no_wrap address copied len top (ltb→lt copied len e) in
            let a = address + copied in
            let l = segment nvm g a (len - copied) in
            let paged = cache_page nvm g c m (block_of nvm g a) in
            let p = page_of nvm g u c m a k in
            let s = segment_lem nvm g u a (len - copied) (ground arith) in
            let one = segment-Fits m address copied l new paged p s.2 in
            let ih =
              validate_loop_lem fuel paged.1 m address new len (copied + l) (omega arith) top
                p.coherent in
            elim (Bool-cases (
              has_illegal (advance (paged.1.entries paged.0).page (a % block_size))
                (advance new copied) l 0)) [
                  | inl bad ↦
                      rw (e, flat, bad)
                        (
                          p.coherent,
                          (
                            λ f. absurd (false≢true f),
                            λ f.
                                absurd
                                  (false≢true (sym (one.1 (λ j q r. f j q (omega arith))) ∙ bad)),
                          ),
                        )
                  | inr good ↦
                      rw (e, flat, good)
                        (
                          ih.0,
                          (
                            λ f. Fits-split _ new copied (copied + l) len (one.0 good) (ih.1.0 f),
                            λ f. ih.1.1 (λ j q r. f j (omega arith) r),
                          ),
                        )
                ]
      ]
