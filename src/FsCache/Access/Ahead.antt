-- ===== src/FsCache/Access/Ahead.antt =====
-- Which blocks the cache of source/FSCache.cpp holds after a write: none past the area written that it
-- did not hold before.
use mathlib.Core.Bool.{false≢true}
use codal_microbit_v2_fft.Base.{
  ℕ, zero, suc, ◌+◌, ◌-◌, ◌%◌, ◌^◌, ◌≤◌, ◌<◌, ◌≡◌, refl, sym, ◌∙◌, arith, inl, inr, Bool, true,
  false, Bytes, Code, advance, ltb, ltb→lt, ◌==◌, if-both, Option-cases, Bool-cases, within,
}
use codal_microbit_v2_fft.Nvm.{Nvm}
use codal_microbit_v2_fft.FsCache.{
  Geometry, CacheEntry, Cache, clear, touch, load, find_entry, choose, get_cache_entry, cache_page,
}
use codal_microbit_v2_fft.FsCache.Coherent.{IsCoherent}
use codal_microbit_v2_fft.FsCache.Access.{
  out_of_limits, block_of, segment, has_illegal, validate_loop, write_segment, write_loop,
  write_bytes,
}
use codal_microbit_v2_fft.FsCache.Access.Blocks.{blocks_apart}
use codal_microbit_v2_fft.FsCache.Access.Reading.{no_wrap}

-- An entry that holds no block at `limit` or past it, and a cache of such entries
abbrev pub IsBelow : ℕ → CacheEntry → Type 0
IsBelow limit e = e.loaded ≡ true → e.address < limit

abbrev pub AreBelow : ℕ → Cache → Type 0
AreBelow limit c = (i : ℕ) → IsBelow limit (c.entries i)

-- An empty cache holds nothing.
pub clear-AreBelow : (limit : ℕ) → AreBelow limit clear
unfolding clear
clear-AreBelow limit i e = absurd (false≢true e)

touch-AreBelow : (limit : ℕ) (c : Cache) (i : ℕ) → AreBelow limit c → AreBelow limit (touch c i)
unfolding touch
touch-AreBelow limit c i b j = if-both (IsBelow limit) (i == j) (λ _. b i) (λ _. b j)

module _ (nvm : Nvm) (g : Geometry) where
  open nvm use {Mem, byte, erase, page_size, byte-erase}
  open g use {block_size, cache_size}

  load-AreBelow :
      (limit : ℕ) (c : Cache) (m : Mem) (a i : ℕ)
      → a < limit
      → AreBelow limit c
      → AreBelow limit (load nvm g c m a i)
  unfolding load
  load-AreBelow limit c m a i lt b j = if-both (IsBelow limit) (i == j) (λ _. λ _. lt) (λ _. b j)

  cache_page-AreBelow :
      (limit : ℕ) (c : Cache) (m : Mem) (a : ℕ)
      → a < limit
      → AreBelow limit c
      → AreBelow limit (cache_page nvm g c m a).1
  unfolding cache_page get_cache_entry
  cache_page-AreBelow limit c m a lt b = elim (Option-cases (find_entry c a cache_size 0)) [
    | inl e ↦ rw e (load-AreBelow limit c m a (choose c cache_size 0 0) lt b)
    | inr (i, e) ↦ rw e (touch-AreBelow limit c i b)
  ]

  write_segment-AreBelow :
      (limit : ℕ) (c : Cache) (m : Mem) (a l : ℕ) (new : Bytes)
      → a < limit
      → AreBelow limit c
      → AreBelow limit (write_segment nvm g c m a new l).0
  unfolding write_segment
  write_segment-AreBelow limit c m a l new lt b j =
      let paged = cache_page nvm g c m (block_of nvm g a) in
      let p = cache_page-AreBelow limit c m (block_of nvm g a) (omega arith) b in
      if-both (IsBelow limit) (paged.0 == j) (λ _. p paged.0) (λ _. p j)

  validate_loop-AreBelow :
      (limit fuel : ℕ) (c : Cache) (m : Mem) (address : ℕ) (new : Bytes) (len copied : ℕ)
      → address + len ≤ 2 ^ 32
      → address + len ≤ limit
      → AreBelow limit c
      → AreBelow limit (validate_loop nvm g fuel c m address new len copied).1
  unfolding validate_loop
  validate_loop-AreBelow limit zero c m address new len copied top low b = b
  validate_loop-AreBelow limit (suc fuel) c m address new len copied top low b =
      elim (Bool-cases (ltb copied len)) [
        | inr e ↦ rw e b
        | inl e ↦
            let lt = ltb→lt copied len e in
            let flat = no_wrap address copied len top lt in
            let a = address + copied in
            let l = segment nvm g a (len - copied) in
            let paged = cache_page nvm g c m (block_of nvm g a) in
            let first = cache_page-AreBelow limit c m (block_of nvm g a) (omega (arith, lt)) b in
            let illegal =
              has_illegal (advance (paged.1.entries paged.0).page (a % block_size))
                (advance new copied) l 0 in
            let P : Bool × Cache → Type 0 = λ o. AreBelow limit o.1 in
            rw (e, flat)
              (if-both P illegal (λ _. first)
                (λ _.
                  validate_loop-AreBelow limit fuel paged.1 m address new len (copied + l) top low
                    first))
      ]

  write_loop-AreBelow :
      (limit fuel : ℕ) (c : Cache) (m : Mem) (address : ℕ) (new : Bytes) (len copied : ℕ)
      → address + len ≤ 2 ^ 32
      → address + len ≤ limit
      → AreBelow limit c
      → AreBelow limit (write_loop nvm g fuel c m address new len copied).0
  unfolding write_loop
  write_loop-AreBelow limit zero c m address new len copied top low b = b
  write_loop-AreBelow limit (suc fuel) c m address new len copied top low b =
      elim (Bool-cases (ltb copied len)) [
        | inr e ↦ rw e b
        | inl e ↦
            let lt = ltb→lt copied len e in
            let flat = no_wrap address copied len top lt in
            let a = address + copied in
            let l = segment nvm g a (len - copied) in
            let out = write_segment nvm g c m a (advance new copied) l in
            let first =
              write_segment-AreBelow limit c m a l (advance new copied) (omega (arith, lt)) b in
            rw (e, flat)
              (write_loop-AreBelow limit fuel out.0 out.1 address new len (copied + l) top low
                first)
      ]

  -- A write below `limit` brings no block at `limit` or past it into the cache.
  pub write_bytes-AreBelow :
      (limit : ℕ) (c : Cache) (m : Mem) (address : ℕ) (new : Bytes) (len : ℕ)
      → address + len ≤ 2 ^ 32
      → address + len ≤ limit
      → AreBelow limit c
      → AreBelow limit (write_bytes nvm g c m address new len).1
  unfolding write_bytes
  write_bytes-AreBelow limit c m address new len top low b =
      let P : Code × Cache × Mem → Type 0 = λ o. AreBelow limit o.1 in
      let (legal, c') = validate_loop nvm g len c m address new len 0 in
      let v = validate_loop-AreBelow limit len c m address new len 0 top low b in
      if-both P (out_of_limits nvm g address len) (λ _. b)
        (λ _.
          if-both P legal (λ _. write_loop-AreBelow limit len c' m address new len 0 top low v)
            (λ _. v))

  -- An erase of a page that the cache holds nothing of, or past it, leaves it a faithful copy.
  pub erase-IsCoherent :
      (c : Cache) (m : Mem) (page : ℕ)
      → page % block_size ≡ 0
      → 0 < block_size
      → AreBelow page c
      → IsCoherent nvm g c m
      → IsCoherent nvm g c (erase m page)
  erase-IsCoherent c m page whole pos b k = record {
    backed = λ i h.
        let e = k.backed i h in
        record {
          aligned = e.aligned;
          copy = λ l o lt.
              let x = (c.entries i).address + o in
              let under = b i l in
              let apart =
                blocks_apart block_size pos (c.entries i).address page (e.aligned l) whole
                  (λ same. absurd (omega (arith, same, under))) in
              let before : x < page = elim apart [
                | inl p ↦ omega (arith, p, lt)
                | inr q ↦ absurd (omega (arith, q, under))
              ] in
              let out : within page (page + page_size) x ≡ false = ground arith in
              e.copy l o lt ∙ sym (byte-erase m page x ∙ rw out refl);
        };
    unique = k.unique;
  }
