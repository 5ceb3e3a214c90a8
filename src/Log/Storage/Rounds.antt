-- ===== src/Log/Storage/Rounds.antt =====
-- That the loop of logString of source/MicroBitLog.cpp writes the text: each page is erased before the
-- text comes to it.
use native.Mathlib.Decide.{dec_lt}
use codal_microbit_v2_fft.Base.{
  ℕ, zero, suc, ◌+◌, ◌-◌, ◌*◌, ◌/◌, ◌%◌, ◌^◌, ◌≤◌, ◌<◌, ◌≡◌, refl, ap, ◌∙◌, arith, Bool, true,
  false, ◌&&◌, Bytes, advance, within, ltb, leb, min, if◌then◌else◌, if-both,
}
use codal_microbit_v2_fft.Nvm.{Nvm}
use codal_microbit_v2_fft.FsCache.{Geometry}
use codal_microbit_v2_fft.FsCache.Coherent.{IsUsable, IsCoherent}
use codal_microbit_v2_fft.FsCache.Access.Ahead.{AreBelow, write_bytes-AreBelow, erase-IsCoherent}
use codal_microbit_v2_fft.FsCache.Access.Writing.{overwritten}
use codal_microbit_v2_fft.Log.Storage.{LogFile, cache_write, write_rounds}
use codal_microbit_v2_fft.Log.Storage.Pages.{
  page_end, page_end_lem, page_end-same, page_end-next, page_end-whole,
}
use codal_microbit_v2_fft.Log.Setup.Making.{cache_write_lem}

-- The flash that the log lies in: at 0, of whole pages of whole blocks, and below 2 ^ 32.
pub record IsFlash (nvm : Nvm) (g : Geometry) : Type 0 where
  pub usable : IsUsable g
  pub start : nvm.flash_start ≡ 0
  pub some_page : 0 < nvm.page_size
  pub whole_blocks : nvm.page_size % g.block_size ≡ 0
  pub top : nvm.flash_end ≤ 2 ^ 32

module _ (nvm : Nvm) (g : Geometry) (flash : IsFlash nvm g) where
  open nvm use {Mem, byte, erase, page_size, flash_end, byte-erase}

  -- The cache is a faithful copy and holds nothing past the page that the data ends in, and this page
  -- is erased from there on, as far as the log goes.
  pub record IsBlank (s : LogFile Mem) : Type 0 where
    pub coherent : IsCoherent nvm g s.cache s.mem
    pub below : AreBelow (page_end page_size s.data_end) s.cache
    pub blank :
        (x : ℕ)
        → s.data_end ≤ x
        → x < page_end page_size s.data_end
        → x < s.log_end
        → byte s.mem x ≡ 255

  cache_write-AreBelow :
      (s : LogFile Mem) (limit address : ℕ) (source : Bytes) (n : ℕ)
      → address + n ≤ 2 ^ 32
      → address + n ≤ limit
      → AreBelow limit s.cache
      → AreBelow limit (cache_write nvm g s address source n).cache
  unfolding cache_write
  cache_write-AreBelow s limit address source n top low b =
      write_bytes-AreBelow nvm g limit s.cache s.mem address source n top low b

  -- The memory where the next page is erased, if it is
  abbrev entered : Bool → Mem → ℕ → Mem
  entered crosses m next = if crosses then erase m next else m

  entered-low :
      (crosses : Bool) (m : Mem) (next x : ℕ)
      → x < next
      → byte (entered crosses m next) x ≡ byte m x
  entered-low crosses m next x lt =
      let out : within next (next + page_size) x ≡ false = ground arith in
      if-both (λ m'. byte m' x ≡ byte m x) crosses (λ _. byte-erase m next x ∙ rw out refl)
        (λ _. refl)

  entered-high :
      (crosses : Bool) (m : Mem) (next x : ℕ)
      → crosses ≡ true
      → next ≤ x
      → x < next + page_size
      → byte (entered crosses m next) x ≡ 255
  entered-high crosses m next x e le lt =
      let inside : within next (next + page_size) x ≡ true = ground arith in
      rw e (byte-erase m next x ∙ rw inside refl)

  -- A round writes its part of the text, and leaves the rest of its page, or the next page, erased.
  round-IsBlank :
      (s : LogFile Mem) (source : Bytes) (l : ℕ)
      → s.data_end + l ≤ s.log_end
      → s.log_end < flash_end
      → IsBlank s
      → ((i : ℕ) → i < l → source i < 256)
      → let space = page_size - s.data_end % page_size in
        let n = min l space in
        let next_page = (s.data_end / page_size + 1) * page_size in
        let crosses = leb space l && ltb (s.data_end + space) s.log_end in
        let s1 : LogFile Mem = record s { mem = entered crosses s.mem next_page } in
        let s2 = cache_write nvm g s1 s1.data_end source n in
        let s3 : LogFile Mem = record s2 { data_end = s2.data_end + n } in
        IsBlank s3
        × ((x : ℕ)
            → x < s.data_end + n
            → byte s3.mem x ≡ overwritten (byte s.mem) s.data_end n source x)
  unfolding cache_write
  round-IsBlank s source l fits inside v bytes =
      let d = s.data_end in
      let space = page_size - d % page_size in
      let n = min l space in
      let next_page = page_end page_size d in
      let crosses = leb space l && ltb (d + space) s.log_end in
      let m1 = entered crosses s.mem next_page in
      let s1 : LogFile Mem = record s { mem = m1 } in
      let s2 = cache_write nvm g s1 d source n in
      let s3 : LogFile Mem = record s2 { data_end = s2.data_end + n } in
      let (reach, more) = page_end_lem page_size d flash.some_page in
      let within_page : d + n ≤ next_page = omega (arith, reach) in
      let low = entered-low crosses s.mem next_page in
      let whole =
        page_end-whole page_size g.block_size d flash.whole_blocks flash.usable.some_block in
      let coherent1 : IsCoherent nvm g s.cache m1 =
        if-both (λ m'. IsCoherent nvm g s.cache m') crosses
          (λ _.
            erase-IsCoherent nvm g s.cache s.mem next_page whole flash.usable.some_block v.below
              v.coherent)
          (λ _. v.coherent) in
      let (coherent2, bytes2) =
        cache_write_lem nvm g s1 d source n flash.usable flash.start (omega (arith, inside))
          flash.top coherent1 (λ i lt. bytes i (omega arith))
          (λ i lt.
            low (d + i) (omega (arith, within_page))
            ∙ v.blank (d + i) (omega arith) (omega (arith, within_page)) (omega arith)) in
      let kept =
        cache_write-AreBelow s1 next_page d source n (omega (arith, inside, flash.top)) within_page
          v.below in
      let beyond = λ (x : ℕ) (far : d + n ≤ x).
        let out : within d (d + n) x ≡ false = ground arith in
        bytes2 x ∙ ap (λ b. if b then source (x - d) else byte m1 x) out in
      (
        elim (dec_lt l space) [
          | yes short ↦
              let here : d + n < next_page = omega (arith, reach) in
              let same = page_end-same page_size d (d + n) flash.some_page (omega arith) here in
              record {
                coherent = coherent2;
                below = λ i e. omega (arith, kept i e, same);
                blank = λ x le lt end.
                    beyond x le
                    ∙ (low x (omega (arith, same))
                        ∙ v.blank x (omega arith) (omega (arith, same)) end);
              }
          | no long ↦
              let here : d + n ≡ next_page = omega (arith, reach) in
              let next = ap (page_end page_size) here ∙ page_end-next page_size d flash.some_page in
              record {
                coherent = coherent2;
                below = λ i e. omega (arith, kept i e, next);
                blank = λ x le lt end.
                    let turns : crosses ≡ true = ground (arith, reach) in
                    beyond x le
                    ∙ entered-high crosses s.mem next_page x turns (omega (arith, here))
                        (omega (arith, next));
              }
        ],
        λ x lt.
            bytes2 x
            ∙ ap (λ w. if within d (d + n) x then source (x - d) else w)
                (low x (omega (arith, within_page))),
      )

  -- What a first part of `n` bytes and the rest write is what all of them write.
  two_parts :
      (m m3 : ℕ → ℕ) (d n l x : ℕ) (source : Bytes)
      → n ≤ l
      → (x < d + n → m3 x ≡ overwritten m d n source x)
      → x < d + l
      → overwritten m3 (d + n) (l - n) (advance source n) x ≡ overwritten m d l source x
  two_parts m m3 d n l x source le first lt = elim (dec_lt x (d + n)) [
    | yes p ↦ let e = first p in ground (arith, e)
    | no p ↦
        let same : n + (x - (d + n)) ≡ x - d = omega arith in
        let e : source (n + (x - (d + n))) ≡ source (x - d) = ap source same in ground (arith, e)
  ]

  -- With rounds enough, the loop writes the text behind the data, and changes nothing before it.
  pub write_rounds-Written :
      (rounds : ℕ) (s : LogFile Mem) (source : Bytes) (l : ℕ)
      → l ≤ rounds
      → s.data_end + l ≤ s.log_end
      → s.log_end < flash_end
      → IsBlank s
      → ((i : ℕ) → i < l → source i < 256)
      → let s' = (write_rounds nvm g rounds s source l).1 in
        IsBlank s'
        × ((x : ℕ)
            → x < s.data_end + l
            → byte s'.mem x ≡ overwritten (byte s.mem) s.data_end l source x)
  unfolding write_rounds cache_write
  write_rounds-Written zero s source l enough fits inside v bytes = (v, λ x lt. ground arith)
  write_rounds-Written (suc rounds) s source l enough fits inside v bytes = elim (dec_lt 0 l) [
    | no none_left ↦ let t : ltb 0 l ≡ false = ground arith in rw t (v, λ x lt. ground arith)
    | yes more ↦
        let t : ltb 0 l ≡ true = ground arith in
        let d = s.data_end in
        let space = page_size - d % page_size in
        let n = min l space in
        let next_page = (d / page_size + 1) * page_size in
        let crosses = leb space l && ltb (d + space) s.log_end in
        let s1 : LogFile Mem = record s { mem = entered crosses s.mem next_page } in
        let s2 = cache_write nvm g s1 s1.data_end source n in
        let s3 : LogFile Mem = record s2 { data_end = s2.data_end + n } in
        let (blank3, bytes3) = round-IsBlank s source l fits inside v bytes in
        let some_space = (page_end_lem page_size d flash.some_page).1 in
        let (blank', bytes') =
          write_rounds-Written rounds s3 (advance source n) (l - n) (omega (arith, some_space))
            (omega arith) inside blank3 (λ i lt. bytes (n + i) (omega arith)) in
        rw t (
          blank',
          λ x lt.
              bytes' x (omega arith)
              ∙ two_parts (byte s.mem) (byte s3.mem) d n l x source (omega arith) (bytes3 x) lt,
        )
  ]
