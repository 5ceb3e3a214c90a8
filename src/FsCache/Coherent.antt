-- ===== src/FsCache/Coherent.antt =====
-- The invariant of source/FSCache.cpp: each block held is a copy of the memory at its address, and no
-- block is held twice. Finding, loading and touching entries keep it.
use mathlib.Core.Bool.{false≢true}
use native.Mathlib.Decide.{dec_lt}
use codal_microbit_v2_fft.Base.{
  ℕ, zero, suc, ◌+◌, ◌*◌, ◌/◌, ◌%◌, ◌≤◌, ◌<◌, ◌≡◌, ◌≢◌, ap, ◌∙◌, sym, subst, true, false, Option,
  none, some, Bytes, update, memcpy, ◌==◌, arith, Bool-cases, inl, inr, if-both, within,
  Option-cases,
}
use codal_microbit_v2_fft.Nvm.{Nvm}
use codal_microbit_v2_fft.FsCache.{
  CacheEntry, Geometry, Cache, clear, holds, find_entry, choose, touch, load, get_cache_entry,
  cache_page,
}

-- A geometry that the code can work with: whole words, and at least one entry.
pub record IsUsable (g : Geometry) : Type 0 where
  pub some_block : 0 < g.block_size
  pub whole_words : g.block_size % 4 ≡ 0
  pub some_entry : 0 < g.cache_size

-- What `find_entry` returns is the index of an entry that holds the block; `none` means that none does.
record Finds (c : Cache) (a from to : ℕ) (o : Option ℕ) : Type 0 where
  index : (i : ℕ) → o ≡ some i → (i < to) × (holds c a i ≡ true)
  absent : o ≡ none → (i : ℕ) → from ≤ i → i < to → holds c a i ≡ false

same_index : (i j : ℕ) → i ≤ j → j ≤ i → i ≡ j
same_index i j p q = omega arith

find_entry-Finds :
    (c : Cache) (a left i n : ℕ) → i + left ≡ n → Finds c a i n (find_entry c a left i)
unfolding find_entry
find_entry-Finds c a zero i n e = record {
  index = λ j h. absurd (cc);
  absent = λ _ j p q. absurd (omega arith);
}
find_entry-Finds c a (suc left) i n e =
    let ih = find_entry-Finds c a left (i + 1) n (omega arith) in
    elim (Bool-cases (holds c a i)) [
      | inl h ↦ rw h record { index = λ j p. ground arith; absent = λ p. absurd (cc) }
      | inr h ↦ rw h record {
        index = ih.index;
        absent = λ p j q r. elim (dec_lt i j) [
          | yes later ↦ ih.absent p j (omega arith) r
          | no same ↦
              subst (λ k. holds c a k ≡ false) (same_index i j (omega arith) (omega arith)) h
        ];
      }
    ]

-- `cachePage` chooses an entry of the array.
choose-lt : (c : Cache) (left i lru n : ℕ) → i + left ≡ n → lru < n → choose c left i lru < n
unfolding choose
choose-lt c zero i lru n e h = h
choose-lt c (suc left) i lru n e h =
    if-both (λ k. k < n) (c.entries i).loaded
      (λ _.
        choose-lt c left (i + 1) _ n (omega arith)
          (if-both (λ k. k < n) _ {x = i} {y = lru} (λ _. omega arith) (λ _. h)))
      (λ _. omega arith)

touch_entry :
    (c : Cache) (i : ℕ)
    → (((touch c i).entries i).loaded ≡ (c.entries i).loaded)
      × (((touch c i).entries i).address ≡ (c.entries i).address)
unfolding touch
touch_entry c i = ground arith

module _ (nvm : Nvm) (g : Geometry) where
  open nvm use {Mem, byte, write}
  open g use {block_size, cache_size}

  -- Where the entry holds a block, it is a copy of the block's memory.
  pub record Backed (m : Mem) (e : CacheEntry) : Type 0 where
    pub aligned : e.loaded ≡ true → e.address % block_size ≡ 0
    pub copy : e.loaded ≡ true → (o : ℕ) → o < block_size → e.page o ≡ byte m (e.address + o)

  pub record IsCoherent (c : Cache) (m : Mem) : Type 0 where
    pub backed : (i : ℕ) → i < cache_size → Backed m (c.entries i)
    pub unique :
        (i j : ℕ)
        → i < cache_size
        → j < cache_size
        → (c.entries i).loaded ≡ true
        → (c.entries j).loaded ≡ true
        → (c.entries i).address ≡ (c.entries j).address
        → i ≡ j

  -- Entry `i` is replaced by one for a block that no other entry holds.
  pub IsCoherent-update :
      (c : Cache) (m : Mem) (i : ℕ) (e : CacheEntry) (n : ℕ)
      → IsCoherent c m
      → Backed m e
      → ((j : ℕ)
          → j < cache_size
          → j ≢ i
          → (c.entries j).loaded ≡ true
          → (c.entries j).address ≢ e.address)
      → IsCoherent (record { entries = update c.entries i e; operation_count = n }) m
  IsCoherent-update c m i e n k b others = record {
    backed = λ j h. if-both (Backed m) (i == j) (λ _. b) (λ _. k.backed j h);
    unique = λ x y hx hy lx ly same. ground (arith, k.unique x y hx hy, others x hx, others y hy);
  }

  -- An entry that holds a block keeps its address and page when it is touched.
  pub IsCoherent-touch :
      (c : Cache) (m : Mem) (i : ℕ)
      → i < cache_size
      → (c.entries i).loaded ≡ true
      → IsCoherent c m
      → IsCoherent (touch c i) m
  unfolding touch
  IsCoherent-touch c m i h li k =
      IsCoherent-update c m i _ _ k
        (record { aligned = (k.backed i h).aligned; copy = (k.backed i h).copy })
        (λ j hj ne l e. ne (k.unique j i hj h l li e))

  -- What `flash.read` puts into the page of a block.
  page_read :
      (old : Bytes) (m : Mem) (a o : ℕ)
      → IsUsable g
      → o < block_size
      → memcpy old 0 (λ k. byte m (a + k)) (4 * (block_size / 4)) o ≡ byte m (a + o)
  page_read old m a o u h =
      if-both (λ k. k ≡ byte m (a + o)) (within 0 (0 + 4 * (block_size / 4)) o)
        (λ _. ap (λ k. byte m (a + k)) (omega arith)) (λ e. absurd (false≢true (sym e ∙ inside)))
    where
      inside : within 0 (0 + 4 * (block_size / 4)) o ≡ true
      inside = ground (arith, u.whole_words)

  IsCoherent-load :
      (c : Cache) (m : Mem) (a i : ℕ)
      → IsUsable g
      → a % block_size ≡ 0
      → ((j : ℕ) → j < cache_size → holds c a j ≡ false)
      → IsCoherent c m
      → IsCoherent (load nvm g c m a i) m
  unfolding load
  IsCoherent-load c m a i u al missing k =
      IsCoherent-update c m i _ _ k
        (record { aligned = λ _. al; copy = λ _ o h. page_read (c.entries i).page m a o u h })
        (λ j hj ne l e. ground (arith, missing j hj))

  load_entry :
      (c : Cache) (m : Mem) (a i : ℕ)
      → (((load nvm g c m a i).entries i).loaded ≡ true)
        × (((load nvm g c m a i).entries i).address ≡ a)
  unfolding load
  load_entry c m a i = ground arith

  -- The entry that `cachePage` returns.
  pub record Paged (m : Mem) (a : ℕ) (out : ℕ × Cache) : Type 0 where
    pub index : out.0 < cache_size
    pub coherent : IsCoherent out.1 m
    pub loaded : (out.1.entries out.0).loaded ≡ true
    pub address : (out.1.entries out.0).address ≡ a

  -- Where the geometry is usable, the address is a block's and the cache is a faithful copy of the
  -- memory: `cachePage` returns an entry of the array that holds the block asked for, and keeps the
  -- cache a faithful copy.
  pub cache_page-Paged :
      (c : Cache) (m : Mem) (a : ℕ)
      → IsUsable g
      → a % block_size ≡ 0
      → IsCoherent c m
      → Paged m a (cache_page nvm g c m a)
  unfolding cache_page get_cache_entry
  cache_page-Paged c m a u al k =
      let found = find_entry-Finds c a cache_size 0 cache_size (omega arith) in
      elim (Option-cases (find_entry c a cache_size 0)) [
        | inl e ↦
            let i = choose c cache_size 0 0 in
            rw e record {
              index = choose-lt c cache_size 0 0 cache_size (omega arith) u.some_entry;
              coherent = IsCoherent-load c m a i u al (λ j h. found.absent e j (omega arith) h) k;
              loaded = (load_entry c m a i).0;
              address = (load_entry c m a i).1;
            }
        | inr (i, e) ↦
            let it = found.index i e in
            let l : (c.entries i).loaded ≡ true = ground arith in
            let same : (c.entries i).address ≡ a = ground arith in
            rw e record {
              index = it.0;
              coherent = IsCoherent-touch c m i it.0 l k;
              loaded = (touch_entry c i).0 ∙ l;
              address = (touch_entry c i).1 ∙ same;
            }
      ]

  -- The page that `cachePage` returns is a copy of the block.
  pub page-byte :
      (m : Mem) (a : ℕ) (out : ℕ × Cache)
      → Paged m a out
      → (o : ℕ) → o < block_size
      → (out.1.entries out.0).page o ≡ byte m (a + o)
  page-byte m a out p o h =
      (p.coherent.backed out.0 p.index).copy p.loaded o h ∙ ap (λ k. byte m (k + o)) p.address

  -- An empty cache is a faithful copy of any memory.
  pub clear-IsCoherent : (m : Mem) → IsCoherent clear m
  unfolding clear
  clear-IsCoherent m = record {
    backed =
        λ i h. record { aligned = λ l. absurd (false≢true l); copy = λ l. absurd (false≢true l) };
    unique = λ i j hi hj l. absurd (false≢true l);
  }
