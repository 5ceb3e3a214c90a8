-- ===== src/MemoryMap/Finding.antt =====
-- What `findHashes` in source/MicroBitMemoryMap.cpp makes of the flash.
use codal_microbit_v2_fft.Base.{
  ℕ, zero, suc, ◌+◌, ◌-◌, ◌*◌, ◌%◌, ◌≤◌, ◌<◌, ◌≡◌, ◌⊎◌, refl, inl, inr, arith, true, false, some,
  Bytes, advance, ltb, ◌==◌, Bool-cases, ltb→lt,
}
use codal_microbit_v2_fft.MemoryMap.{
  MemoryMap, Layout, no_region, no_regions, number_of_regions, region_codal, region_makecode,
  region_sd, back, push_region, process_record, is_pxt, is_python, pxt_regions, record_loop,
  python_regions, find_loop, first_page, find_hashes, memory_map_init,
}

-- A map in which no region has been pushed, with nothing written past the end of the array, and the
-- regions of Python under their ids.
pub record IsScanned (s : MemoryMap) : Type 0 where
  pub none_pushed : s.region_count ≡ 0
  pub in_array : (i : ℕ) → number_of_regions ≤ i → s.memory_map i ≡ no_region
  pub own_id : (i : ℕ) → ((s.memory_map i).region_id ≡ 0) ⊎ ((s.memory_map i).region_id ≡ i + 1)

pub no_regions-IsScanned : IsScanned no_regions
no_regions-IsScanned = record { none_pushed = refl; in_array = λ i _. refl; own_id = λ i. inl refl }

module _ (layout : Layout) (image : Bytes) (crc : Bytes → ℕ → ℕ) where
  open layout use {page_size, program_end, scratch, app_start, app_end}

  process_record-IsScanned :
      (s : MemoryMap) (a : ℕ)
      → 0 < image a
      → IsScanned s
      → IsScanned (process_record layout image crc s a).1
  unfolding process_record
  process_record-IsScanned s a positive m = elim (Bool-cases (ltb number_of_regions (image a))) [
    | inl e ↦ rw e m
    | inr e ↦
        let small : image a ≤ 3 = ground arith in
        let at : (image a + 255) % 256 ≡ image a - 1 = omega arith in
        rw e record {
          none_pushed = m.none_pushed;
          in_array = λ i past.
              let ne : ((image a + 255) % 256 == i) ≡ false = ground arith in
              rw ne (m.in_array i past);
          own_id = λ i. elim (Bool-cases ((image a + 255) % 256 == i)) [
            | inl e' ↦ rw e' (inr (ground arith))
            | inr e' ↦ rw e' (m.own_id i)
          ];
        }
  ]

  record_loop-IsScanned :
      (left i : ℕ) (s : MemoryMap) (a : ℕ)
      → ((j : ℕ) → j < i + left → 0 < image (back a ((2 + j) * 16)))
      → IsScanned s
      → IsScanned (record_loop layout image crc left i s a)
  unfolding record_loop
  record_loop-IsScanned zero i s a positive m = m
  record_loop-IsScanned (suc left) i s a positive m =
      record_loop-IsScanned left (i + 1) _ a (λ j below. positive j (omega arith))
        (process_record-IsScanned s _ (positive i (omega arith)) m)

  -- Each record of a Python build has an id other than 0.
  abbrev pub HasIds : Type 0
  HasIds =
      (a : ℕ)
      → is_python image a ≡ true
      → (i : ℕ) → i < image (back a 8)
      → 0 < image (back a ((2 + i) * 16))

  python_regions-IsScanned :
      (s : MemoryMap) (a : ℕ)
      → HasIds
      → IsScanned s
      → IsScanned (python_regions layout image crc s a)
  unfolding python_regions
  python_regions-IsScanned s a ids m = elim (Bool-cases (is_python image a)) [
    | inl e ↦
        rw e (record_loop-IsScanned (image (back a 8)) 0 s a (λ j below. ids a e j (omega arith)) m)
    | inr e ↦ rw e m
  ]

  -- A map with the regions of the PXT build whose mark is at `a`.
  pub record IsBuilt (a : ℕ) (s : MemoryMap) : Type 0 where
    pub all_pushed : s.region_count ≡ number_of_regions
    pub in_array : (i : ℕ) → number_of_regions ≤ i → s.memory_map i ≡ no_region
    pub soft_device : s.memory_map 0 ≡ record {
      region_id = region_sd;
      start_address = 0;
      end_address = app_start;
      hash = (s.memory_map 0).hash;
    }
    pub codal : s.memory_map 1 ≡ record {
      region_id = region_codal;
      start_address = app_start;
      end_address = program_end;
      hash = advance image (a + 16);
    }
    pub makecode : s.memory_map 2 ≡ record {
      region_id = region_makecode;
      start_address = a;
      end_address = app_end;
      hash = advance image (a + 24);
    }

  pxt_regions-IsBuilt :
      (s : MemoryMap) (a : ℕ) → IsScanned s → IsBuilt a (pxt_regions layout image s a)
  unfolding pxt_regions push_region
  pxt_regions-IsBuilt s a m =
      let z = m.none_pushed in
      simp z (record {
        all_pushed = refl;
        in_array = λ i past.
            let n0 : (0 == i) ≡ false = ground arith in
            let n1 : (1 == i) ≡ false = ground arith in
            let n2 : (2 == i) ≡ false = ground arith in simp (n0, n1, n2, m.in_array i past);
        soft_device = refl;
        codal = refl;
        makecode = refl;
      })

  -- The page `k` pages after `a`.
  abbrev pub page_at : ℕ → ℕ → ℕ
  page_at a zero = a
  page_at a (suc k) = page_at (a + page_size) k

  -- No page from `a` on has the mark of PXT.
  abbrev pub IsPlain : ℕ → Type 0
  IsPlain a = (k : ℕ) → page_at a k < scratch → is_pxt image (page_at a k) ≡ false

  -- The page `k` pages after `a` is the first that has it.
  pub record IsMark (a k : ℕ) : Type 0 where
    pub inside : page_at a k < scratch
    pub marked : is_pxt image (page_at a k) ≡ true
    pub first : (j : ℕ) → j < k → is_pxt image (page_at a j) ≡ false

  -- What the pages from `a` on make of the map.
  abbrev pub IsFound : ℕ → MemoryMap → Type 0
  IsFound a s = (IsPlain a × IsScanned s) ⊎ ((k : ℕ) × IsMark a k × IsBuilt (page_at a k) s)

  page_at-le : (a k : ℕ) → a ≤ page_at a k
  page_at-le a zero = omega arith
  page_at-le a (suc k) = let more = page_at-le (a + page_size) k in omega arith

  -- A page without the mark before the others.
  skip_page :
      (a : ℕ) (s : MemoryMap) → is_pxt image a ≡ false → IsFound (a + page_size) s → IsFound a s
  skip_page a s plain (inl (none_marked, m)) =
      inl ((elim [ zero ↦ λ inside. plain | suc k ↦ λ inside. none_marked k inside ]), m)
  skip_page a s plain (inr (k, mark, built)) = inr (
    suc k,
    record {
      inside = mark.inside;
      marked = mark.marked;
      first = elim [ zero ↦ λ below. plain | suc j ↦ λ below. mark.first j (omega arith) ];
    },
    built,
  )

  find_loop-IsFound :
      (rounds : ℕ) (s : MemoryMap) (a : ℕ)
      → 0 < page_size
      → HasIds
      → 0 < rounds
      → scratch < rounds + a
      → IsScanned s
      → (t : MemoryMap) × (find_loop layout image crc rounds s a ≡ some t) × IsFound a t
  unfolding find_loop
  find_loop-IsFound zero s a pages ids some_left fuel m = absurd (omega arith)
  find_loop-IsFound (suc rounds) s a pages ids some_left fuel m =
      elim (Bool-cases (ltb a scratch)) [
        | inr e ↦
            let past : scratch ≤ a = ground arith in
            (s, rw e refl, inl ((λ k inside. let up = page_at-le a k in absurd (omega arith)), m))
        | inl e ↦ elim (Bool-cases (is_pxt image a)) [
          | inl e' ↦
              let first : IsMark a 0 = record {
                inside = ltb→lt a scratch e;
                marked = e';
                first = λ j below. absurd (omega arith);
              } in
              let built = pxt_regions-IsBuilt s a m in
              (pxt_regions layout image s a, rw (e, e') refl, inr (0, first, built))
          | inr e' ↦
              let inside = ltb→lt a scratch e in
              let m' = python_regions-IsScanned s a ids m in
              let (t, runs, found) =
                find_loop-IsFound rounds _ (a + page_size) pages ids (omega arith) (omega arith)
                  m' in
              (t, rw (e, e') runs, skip_page a t e' found)
        ]
      ]

  -- Where the page size is positive and each record of a Python build has an id other than 0: the
  -- search of the constructor ends, and nothing is written past the three regions. If no page from
  -- the end of the program to the scratch page has the mark of PXT, no region has been pushed, and
  -- each has the id of its place in a Python build or else 0; otherwise the first page with the mark
  -- gives the hashes and the start of the last region, and the soft device, CODAL and MakeCode fill
  -- the map.
  pub memory_map_init-IsFound :
      0 < page_size
      → HasIds
      → (s : MemoryMap) × (memory_map_init layout image crc ≡ some s)
        × IsFound (first_page layout) s
  unfolding memory_map_init find_hashes
  memory_map_init-IsFound pages ids =
      find_loop-IsFound (scratch + 1) no_regions (first_page layout) pages ids (omega arith)
        (omega arith) no_regions-IsScanned
