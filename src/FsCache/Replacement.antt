-- ===== src/FsCache/Replacement.antt =====
-- Which entry `cachePage` of source/FSCache.cpp replaces, and what `pin` protects.
use mathlib.Core.Bool.{false≢true}
use native.Mathlib.Decide.{dec_lt}
use codal_microbit_v2_fft.Base.{
  ℕ, zero, suc, ◌+◌, ◌≤◌, ◌<◌, ◌≡◌, ◌≢◌, refl, ap, ◌∙◌, sym, true, false, ◌&&◌, ltb, if◌then◌else◌,
  arith, Bool-cases, inl, inr, ◌⊎◌, Option-cases,
}
use codal_microbit_v2_fft.Nvm.{Nvm}
use codal_microbit_v2_fft.FsCache.{
  CacheEntry, Geometry, Cache, is_unpinned, choose, touch, load, find_entry, get_cache_entry,
  cache_page,
}

-- The entry chosen from `lru` on: a free one, or one no more recently used than `lru` that is `lru`
-- itself or not pinned.
abbrev Chosen : Cache → ℕ → ℕ → Type 0
Chosen c lru k =
    ((c.entries k).loaded ≡ false)
    ⊎ (((k ≡ lru) ⊎ (is_unpinned (c.entries k) ≡ true))
        × ((c.entries k).last_used ≤ (c.entries lru).last_used))

Chosen-older :
    (c : Cache) (lru i k : ℕ)
    → is_unpinned (c.entries i) ≡ true
    → (c.entries i).last_used < (c.entries lru).last_used
    → Chosen c i k
    → Chosen c lru k
Chosen-older c lru i k free older h = elim h [
  | inl unloaded ↦ inl unloaded
  | inr (inl same, le) ↦ inr (inr (ap (λ x. is_unpinned (c.entries x)) same ∙ free), omega arith)
  | inr (inr unpinned, le) ↦ inr (inr unpinned, omega arith)
]

choose-Chosen : (c : Cache) (left i lru : ℕ) → Chosen c lru (choose c left i lru)
unfolding choose
choose-Chosen c zero i lru = inr (inl refl, omega arith)
choose-Chosen c (suc left) i lru = elim (Bool-cases ((c.entries i).loaded)) [
  | inr h ↦ rw h (inl h)
  | inl h ↦ elim (Bool-cases (is_unpinned (c.entries i))) [
    | inr p ↦ rw (h, p) (choose-Chosen c left (i + 1) lru)
    | inl p ↦
        elim (Bool-cases (
          ltb (c.operation_count + (c.entries i).last_used)
            (c.operation_count + (c.entries lru).last_used))) [
              | inr q ↦ rw (h, p, q) (choose-Chosen c left (i + 1) lru)
              | inl q ↦
                  rw (h, p, q)
                    (Chosen-older c lru i _ p (ground arith) (choose-Chosen c left (i + 1) i))
            ]
  ]
]

-- No entry that the loop goes over, and may replace, is older than the one it chooses.
choose-older :
    (c : Cache) (left i lru j : ℕ)
    → i ≤ j
    → j < i + left
    → is_unpinned (c.entries j) ≡ true
    → let k = choose c left i lru in
      ((c.entries k).loaded ≡ false) ⊎ ((c.entries k).last_used ≤ (c.entries j).last_used)
unfolding choose
choose-older c zero i lru j lo hi free = absurd (omega arith)
choose-older c (suc left) i lru j lo hi free =
    let older =
      is_unpinned (c.entries i)
      && ltb (c.operation_count + (c.entries i).last_used)
          (c.operation_count + (c.entries lru).last_used) in
    let next : ℕ = if older then i else lru in
    let le : (is_unpinned (c.entries i) ≡ true)
        → (c.entries next).last_used ≤ (c.entries i).last_used =
      λ p. ground arith in
    elim (Bool-cases ((c.entries i).loaded)) [
      | inr h ↦ rw h (inl h)
      | inl h ↦ elim (dec_lt i j) [
        | yes later ↦ rw h (choose-older c left (i + 1) next j (omega arith) (omega arith) free)
        | no here ↦
            let same : i ≡ j = omega arith in
            let p : is_unpinned (c.entries i) ≡ true =
              ap (λ x. is_unpinned (c.entries x)) same ∙ free in
            let at : (c.entries i).last_used ≡ (c.entries j).last_used =
              ap (λ x. (c.entries x).last_used) same in
            rw h (elim (choose-Chosen c left (i + 1) next) [
              | inl unloaded ↦ inl unloaded
              | inr (which, older_than) ↦ inr (omega (arith, le p))
            ])
      ]
    ]

-- What `cachePage` replaces, for each entry `j` of the array that is not pinned: an entry that holds nothing, or else one that is not pinned or is the
-- first of all, and that was used no later than `j`.
pub choose-oldest :
    (c : Cache) (n j : ℕ)
    → j < n
    → is_unpinned (c.entries j) ≡ true
    → let i = choose c n 0 0 in
      ((c.entries i).loaded ≡ false)
      ⊎ (((i ≡ 0) ⊎ (is_unpinned (c.entries i) ≡ true))
          × ((c.entries i).last_used ≤ (c.entries j).last_used))
choose-oldest c n j h free = elim (choose-Chosen c n 0 0) [
  | inl unloaded ↦ inl unloaded
  | inr (which, _) ↦ elim (choose-older c n 0 0 j (omega arith) (omega arith) free) [
    | inl unloaded ↦ inl unloaded
    | inr le ↦ inr (which, le)
  ]
]

choose_first :
    (c : Cache) (left i n : ℕ)
    → i + left ≡ n
    → ((j : ℕ)
        → j < n
        → ((c.entries j).loaded ≡ true) × ((c.entries 0).last_used ≤ (c.entries j).last_used))
    → choose c left i 0 ≡ 0
unfolding choose
choose_first c zero i n e h = refl
choose_first c (suc left) i n e h =
    let it = h i (omega arith) in
    let keeps : (is_unpinned (c.entries i)
          && ltb (c.operation_count + (c.entries i).last_used)
              (c.operation_count + (c.entries 0).last_used))
        ≡ false =
      ground (arith, it.1) in
    rw (it.0, keeps) (choose_first c left (i + 1) n (omega arith) h)

-- When every entry holds a block and none was used before the first, `cachePage` replaces the first,
-- also where it is pinned.
pub choose-pinned :
    (c : Cache) (n : ℕ)
    → ((j : ℕ)
        → j < n
        → ((c.entries j).loaded ≡ true) × ((c.entries 0).last_used ≤ (c.entries j).last_used))
    → choose c n 0 0 ≡ 0
choose-pinned c n h = choose_first c n 0 n (omega arith) h

-- The entries agree but for the time of their last use.
abbrev pub SameBlock : CacheEntry → CacheEntry → Type 0
SameBlock e f =
    (f.address ≡ e.address) × (f.flags ≡ e.flags) × (f.loaded ≡ e.loaded) × (f.page ≡ e.page)

touch-SameBlock : (c : Cache) (i p : ℕ) → SameBlock (c.entries p) ((touch c i).entries p)
unfolding touch
touch-SameBlock c i p = ground arith

module _ (nvm : Nvm) (g : Geometry) where
  open nvm use {Mem}
  open g use {cache_size}

  load-SameBlock :
      (c : Cache) (m : Mem) (a i p : ℕ)
      → i ≢ p
      → SameBlock (c.entries p) ((load nvm g c m a i).entries p)
  unfolding load
  load-SameBlock c m a i p ne = ground arith

  -- A pinned block stays in the cache, with its page, whatever block is paged in, if it is in another
  -- entry than the first.
  pub cache_page-pinned :
      (c : Cache) (m : Mem) (a p : ℕ)
      → p ≢ 0
      → (c.entries p).loaded ≡ true
      → is_unpinned (c.entries p) ≡ false
      → SameBlock (c.entries p) ((cache_page nvm g c m a).1.entries p)
  unfolding cache_page get_cache_entry
  cache_page-pinned c m a p ne l pinned = elim (Option-cases (find_entry c a cache_size 0)) [
    | inr (i, e) ↦ rw e (touch-SameBlock c i p)
    | inl e ↦ rw e (
        load-SameBlock c m a (choose c cache_size 0 0) p (λ same.
          elim (choose-Chosen c cache_size 0 0) [
            | inl unloaded ↦ false≢true (sym unloaded ∙ (ap (λ i. (c.entries i).loaded) same ∙ l))
            | inr (inl first, _) ↦ ne (sym same ∙ first)
            | inr (inr unpinned, _) ↦
                false≢true
                  (sym pinned ∙ (ap (λ i. is_unpinned (c.entries i)) (sym same) ∙ unpinned))
          ]))
  ]
