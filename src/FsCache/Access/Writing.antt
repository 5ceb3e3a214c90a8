-- ===== src/FsCache/Access/Writing.antt =====
-- What `write` of source/FSCache.cpp leaves in the memory and in the cache.
use mathlib.Core.Bool.{false≢true}
use codal_microbit_v2_fft.Base.Bits.{bit_and_self}
use codal_microbit_v2_fft.Base.{
  ℕ, ◌+◌, ◌-◌, ◌*◌, ◌/◌, ◌%◌, ◌≤◌, ◌<◌, ◌≡◌, ◌≢◌, refl, ap, ap₂, ◌∙◌, sym, arith, Bytes, memcpy,
  advance, within, ◌==◌, if◌then◌else◌, true, false, if-both, bit_and,
}
use codal_microbit_v2_fft.Nvm.{Nvm}
use codal_microbit_v2_fft.FsCache.{Geometry, Cache, CacheEntry, cache_page}
use codal_microbit_v2_fft.FsCache.Coherent.{IsUsable, IsCoherent, Backed, page-byte}
use codal_microbit_v2_fft.FsCache.Access.{block_of, aligned_start, aligned_end, write_segment}
use codal_microbit_v2_fft.FsCache.Access.Blocks.{block_lem, blocks_apart, words_lem}
use codal_microbit_v2_fft.FsCache.Access.Reading.{page_of}
use codal_microbit_v2_fft.FsCache.Access.Validate.{Fits}

-- The memory `m` with `l` bytes of `new` at `a`.
abbrev pub overwritten : (ℕ → ℕ) → ℕ → ℕ → Bytes → ℕ → ℕ
overwritten m a l new x = if within a (a + l) x then new (x - a) else m x

within_true : (lo hi x : ℕ) → lo ≤ x → x < hi → within lo hi x ≡ true
within_true lo hi x p q = ground arith

eq_true : (i j : ℕ) → i ≡ j → (i == j) ≡ true
eq_true i j e = ground arith

module _ (nvm : Nvm) (g : Geometry) (u : IsUsable g) where
  open nvm use {Mem, byte, write, byte-write}
  open g use {block_size, cache_size}

  -- What one byte of the block becomes when a word with it is written: the new byte where the
  -- segment lies, and elsewhere what it was, since the cache holds the same.
  byte_of_block :
      (m : Mem) (a l o x : ℕ) (page new : Bytes)
      → ((o : ℕ) → o < block_size → page o ≡ byte m (block_of nvm g a + o))
      → Fits (advance (byte m) a) new 0 l
      → o < block_size
      → block_of nvm g a + o ≡ x
      → bit_and (byte m x) (memcpy page (a % block_size) new l o) ≡ overwritten (byte m) a l new x
  byte_of_block m a l o x page new held legal h e =
      let off = a % block_size in
      let b = (block_lem block_size u.some_block a).0 in
      let P : ℕ → Type 0 = λ v. bit_and (byte m x) v ≡ overwritten (byte m) a l new x in
      if-both P (within off (off + l) o)
        (λ t.
          let lo : off ≤ o = ground arith in
          let hi : o < off + l = ground arith in
          let here : within a (a + l) x ≡ true = ground (arith, b) in
          let same : a + (o - off) ≡ x = omega (arith, b) in
          rw here (
            ap (λ k. bit_and (byte m k) (new (o - off))) (sym same)
            ∙ (legal (o - off) (omega arith) (omega arith) ∙ ap new (omega (arith, b)))))
        (λ t.
          let here : within a (a + l) x ≡ false = ground (arith, b) in
          rw here (ap (bit_and (byte m x)) (held o h ∙ ap (byte m) e) ∙ bit_and_self (byte m x)))

  -- The page after the copy, against the memory after the write.
  page_copy :
      (m : Mem) (a l o : ℕ) (page new : Bytes)
      → o < block_size
      → ((o : ℕ) → o < block_size → page o ≡ byte m (block_of nvm g a + o))
      → memcpy page (a % block_size) new l o ≡ overwritten (byte m) a l new (block_of nvm g a + o)
  page_copy m a l o page new h held =
      let b = (block_lem block_size u.some_block a).0 in
      let x : ℕ = block_of nvm g a + o in
      let same : within (a % block_size) (a % block_size + l) o ≡ within a (a + l) x =
        ground (arith, b) in
      rw same
        (ap₂ (λ p q. if within a (a + l) x then p else q) (ap new (omega (arith, b))) (held o h))

  segment_word :
      (m : Mem) (a l : ℕ) (page new : Bytes) (x : ℕ)
      → 0 < l
      → a % block_size + l ≤ block_size
      → ((o : ℕ) → o < block_size → page o ≡ byte m (block_of nvm g a + o))
      → Fits (advance (byte m) a) new 0 l
      → let page' = memcpy page (a % block_size) new l in
        let start = aligned_start a in
        byte
          (write m start (advance page' (start % block_size)) ((aligned_end (a + l) - start) / 4))
          x
        ≡ overwritten (byte m) a l new x
  segment_word m a l page new x h fits held legal =
      let w = words_lem block_size u.some_block u.whole_words a l h fits in
      let b = block_lem block_size u.some_block a in
      let page' = memcpy page (a % block_size) new l in
      let start = aligned_start a in
      let finish = aligned_end (a + l) in
      let n = (finish - start) / 4 in
      let o : ℕ = start % block_size + (x - start) in
      let P : ℕ → Type 0 = λ v. v ≡ overwritten (byte m) a l new x in
      byte-write m start (advance page' (start % block_size)) n x
      ∙ if-both P (within start (start + 4 * n) x)
          (λ t.
            let lo : start ≤ x = ground arith in
            let hi : x < start + 4 * n = ground arith in
            byte_of_block m a l o x page new held legal
              (omega (arith, w.start, w.place, w.whole, w.inside))
              (omega (arith, w.start, w.place)))
          (λ t.
            let P' : ℕ → Type 0 = λ v. byte m x ≡ v in
            if-both P' (within a (a + l) x)
              (λ t'.
                let lo : a ≤ x = ground arith in
                let hi : x < a + l = ground arith in
                absurd (
                  false≢true (
                    sym t
                    ∙ within_true start (start + 4 * n) x (omega arith)
                        (omega (arith, w.whole, w.covers)))))
              (λ _. refl))

  -- A block that does not hold any of the bytes written stays backed.
  Backed-apart :
      (m m' : Mem) (a l : ℕ) (new : Bytes) (e : CacheEntry)
      → ((x : ℕ) → byte m' x ≡ overwritten (byte m) a l new x)
      → a % block_size + l ≤ block_size
      → (e.loaded ≡ true → e.address ≢ block_of nvm g a)
      → Backed nvm g m e
      → Backed nvm g m' e
  Backed-apart m m' a l new e changed fits other b = record {
    aligned = b.aligned;
    copy = λ l' o h.
        let at = block_lem block_size u.some_block a in
        let apart =
          blocks_apart block_size u.some_block e.address (block_of nvm g a) (b.aligned l') at.2
            (other l') in
        let out : within a (a + l) (e.address + o) ≡ false = ground (arith, at, apart) in
        b.copy l' o h
        ∙ sym (
            changed (e.address + o)
            ∙ ap (λ t. if t then new (e.address + o - a) else byte m (e.address + o)) out);
  }

  -- A round of the write loop puts the segment into the memory, and its block in the cache follows.
  pub write_segment_lem :
      (c : Cache) (m : Mem) (a l : ℕ) (new : Bytes)
      → IsCoherent nvm g c m
      → 0 < l
      → a % block_size + l ≤ block_size
      → Fits (advance (byte m) a) new 0 l
      → let (c', m') = write_segment nvm g c m a new l in
        IsCoherent nvm g c' m' × ((x : ℕ) → byte m' x ≡ overwritten (byte m) a l new x)
  unfolding write_segment
  write_segment_lem c m a l new k pos fits legal =
      let paged = cache_page nvm g c m (block_of nvm g a) in
      let i = paged.0 in
      let e = paged.1.entries i in
      let p = page_of nvm g u c m a k in
      let held = page-byte nvm g m (block_of nvm g a) paged p in
      let off = a % block_size in
      let page' = memcpy e.page off new l in
      let start = aligned_start a in
      let m' =
        write m start (advance page' (start % block_size)) ((aligned_end (a + l) - start) / 4) in
      let changed : (x : ℕ) → byte m' x ≡ overwritten (byte m) a l new x =
        λ x. segment_word m a l e.page new x pos fits held legal in
      let at = (block_lem block_size u.some_block a).0 in
      let kept = (p.coherent.backed i p.index) in
      let mine : Backed nvm g m' (record e { page = page' }) = record {
        aligned = kept.aligned;
        copy = λ l' o h.
            page_copy m a l o e.page new h held
            ∙ sym (changed (block_of nvm g a + o))
            ∙ ap (λ b. byte m' (b + o)) (sym p.address);
      } in
      (
        record {
          backed = λ j h.
              if-both (Backed nvm g m') (i == j) (λ _. mine)
                (λ ne.
                  Backed-apart m m' a l new (paged.1.entries j) changed fits
                    (λ lj same. absurd (
                      false≢true (
                        sym ne
                        ∙ eq_true i j
                            (p.coherent.unique i j p.index h p.loaded lj (p.address ∙ sym same)))))
                    (p.coherent.backed j h));
          unique = λ x y hx hy lx ly same. ground (arith, p.coherent.unique x y hx hy);
        },
        changed,
      )
