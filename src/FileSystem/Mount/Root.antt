-- ===== src/FileSystem/Mount/Root.antt =====
-- What `load` of source/MicroBitFileSystem.cpp goes by: the table's own entries and the first entry
-- of the root directory, as `format` writes it.
use codal_microbit_v2_fft.Base.{
  ℕ, zero, suc, ◌+◌, ◌-◌, ◌*◌, ◌%◌, ◌^◌, ◌≤◌, ◌<◌, ◌≡◌, refl, ap, ap₂, sym, ◌∙◌, arith, ◌⊎◌, true,
  false, List, [], ◌∷◌, Bytes, Code, get_or, length, leb, ◌==◌, ◌!=◌,
}
use codal_microbit_v2_fft.Nvm.{Nvm}
use codal_microbit_v2_fft.Flash.Cells.{AreBytes, within_true}
use codal_microbit_v2_fft.FileSystem.{
  eof, entry_valid, Config, FileSystem, number, entry_length, next_block, flash_put, put, get_block,
}
use codal_microbit_v2_fft.FileSystem.Chains.{AreBelow}
use codal_microbit_v2_fft.FileSystem.Table.{IsMounted, put_lem, put_after_table}
use codal_microbit_v2_fft.FileSystem.Directory.{entry_bytes, same_name}
use codal_microbit_v2_fft.FileSystem.Mount.{magic, calculate_file_table_size, table_valid, load}

get_or-below : (n : ℕ) (xs : List ℕ) (i : ℕ) → 0 < n → AreBelow n xs → get_or xs i 0 < n
get_or-below n [] i pos h = pos
get_or-below n (x ∷ xs) zero pos h = h.0
get_or-below n (x ∷ xs) (suc i) pos h = get_or-below n xs i pos h.1

module _ (stack : Bytes) (name : List ℕ) (first flags len : ℕ) where
  entry_bytes-AreBytes :
      AreBelow 256 name → AreBytes stack → AreBytes (entry_bytes stack name first flags len)
  unfolding entry_bytes
  entry_bytes-AreBytes h hs i =
      let c = get_or-below 256 name i (omega arith) h in let d = hs i in ground (arith, c, d)

  entry_bytes_name :
      (i : ℕ)
      → i < 16
      → i ≤ length name
      → entry_bytes stack name first flags len i ≡ get_or name i 0
  unfolding entry_bytes
  entry_bytes_name i h le = ground arith

magic_bytes : AreBelow 256 magic
magic_bytes = ground arith

number_four :
    (v : ℕ)
    → v < 2 ^ 32
    → number v 0 + 256 * number v 1 + 65536 * (number v 2 + 256 * number v 3) ≡ v
number_four v h = omega arith

module _ (nvm : Nvm) (cfg : Config) where
  open nvm use {Mem, byte, page_size}

  same_name_lem :
      (m : Mem) (a : ℕ) (cs : List ℕ)
      → ((i : ℕ) → i ≤ length cs → byte m (a + i) ≡ get_or cs i 0)
      → same_name nvm m a cs ≡ true
  unfolding same_name
  same_name_lem m a [] h =
      let e : byte m a ≡ 0 = ap (byte m) (omega arith) ∙ h 0 (omega arith) in ground arith
  same_name_lem m a (c ∷ cs) h =
      let e : byte m a ≡ c = ap (byte m) (omega arith) ∙ h 0 (omega arith) in
      let first : (byte m a == c) ≡ true = ground arith in
      rw first
        (same_name_lem m (a + 1) cs (λ i p. ap (byte m) (omega arith) ∙ h (suc i) (omega arith)))

  table_valid_lem :
      (left : ℕ) (fs : FileSystem Mem) (offset i : ℕ)
      → offset < eof
      → ((c : ℕ) → i ≤ c → c < i + left → next_block nvm fs c ≡ offset)
      → table_valid nvm cfg left fs offset i ≡ true
  unfolding table_valid
  table_valid_lem zero fs offset i small h = refl
  table_valid_lem (suc left) fs offset i small h =
      let here = h i (omega arith) (omega arith) in
      let big : leb eof offset ≡ false = ground arith in
      let same : (offset != offset) ≡ false = ground arith in
      rw (here, big, same)
        (table_valid_lem left fs offset (i + 1) small (λ c lo hi. h c (omega arith) (omega arith)))

  -- What `load` goes by.
  load_runs :
      (fs : FileSystem Mem) (offset : ℕ)
      → next_block nvm fs 0 ≡ offset
      → table_valid nvm cfg offset fs offset 0 ≡ true
      → fs.root ≡ get_block nvm cfg fs offset
      → same_name nvm fs.mem fs.root magic ≡ true
      → entry_length nvm fs.mem fs.root ≡ fs.size
      → fs.table_size ≡ calculate_file_table_size cfg fs.size
      → load nvm cfg fs ≡ (Code.ok, fs)
  unfolding load
  load_runs fs offset first valid at named long size =
      let here : get_block nvm cfg fs offset ≡ fs.root = sym at in
      simp (first, here, valid, named, long)
        (ap (λ t. (Code.ok, record fs { table_size = t })) (sym size))

  -- The area of the root directory's first entry: after the table, in one page, outside the scratch
  -- page.
  pub record HasRoot (n root : ℕ) (fs : FileSystem Mem) : Type 0 where
    pub after_table : fs.table + 2 * n ≤ root
    pub in_page : root % page_size + 24 ≤ page_size
    pub outside : (root + 24 ≤ cfg.scratch) ⊎ (cfg.scratch + page_size ≤ root)

  module _ (n : ℕ) (fs : FileSystem Mem) (ok : IsMounted nvm cfg n fs) (stack : AreBytes cfg.stack)
      (area : HasRoot n fs.root fs) where
    abbrev root_entry : Bytes
    root_entry = entry_bytes cfg.stack magic fs.table_size entry_valid fs.size

    abbrev with_root : FileSystem Mem
    with_root = put nvm cfg fs fs.root root_entry 24

    root_entry-AreBytes : AreBytes root_entry
    root_entry-AreBytes =
        entry_bytes-AreBytes cfg.stack magic fs.table_size entry_valid fs.size magic_bytes stack

    root_byte : (i k : ℕ) → i < 24 → k ≡ fs.root + i → byte with_root.mem k ≡ root_entry i
    root_byte i k h e =
        let at : k - fs.root ≡ i = omega arith in
        put_lem nvm cfg n fs fs.root root_entry 24 k ok root_entry-AreBytes area.in_page
          (ground (arith, ok.positive, area.outside)) (ground (arith, area.outside))
        ∙ rw (within_true fs.root (fs.root + 24) k (omega arith) (omega arith), at) refl

    root_length : fs.size < 2 ^ 32 → entry_length nvm with_root.mem fs.root ≡ fs.size
    unfolding entry_bytes
    root_length h =
        ap₂ (λ l u. l + 65536 * u)
          (ap₂ (λ a b. a + 256 * b) (root_byte 20 _ (omega arith) refl)
            (root_byte 21 _ (omega arith) (omega arith)))
          (ap₂ (λ a b. a + 256 * b) (root_byte 22 _ (omega arith) refl)
            (root_byte 23 _ (omega arith) (omega arith)))
        ∙ number_four fs.size h

    root_name : same_name nvm with_root.mem fs.root magic ≡ true
    root_name = same_name_lem with_root.mem fs.root magic (λ i h.
        root_byte i _ (omega arith) refl
        ∙ entry_bytes_name cfg.stack magic fs.table_size entry_valid fs.size i (omega arith)
            (omega arith))

    pub load-with_root :
        ((c : ℕ) → c < fs.table_size → next_block nvm fs c ≡ fs.table_size)
        → 0 < fs.table_size
        → fs.table_size ≤ n
        → fs.table_size < eof
        → fs.root ≡ get_block nvm cfg fs fs.table_size
        → fs.size < 2 ^ 32
        → fs.table_size ≡ calculate_file_table_size cfg fs.size
        → load nvm cfg with_root ≡ (Code.ok, with_root)
    unfolding flash_put
    load-with_root marked pos le small at long size =
        let kept : (c : ℕ) → c < fs.table_size → next_block nvm with_root c ≡ fs.table_size = λ c h.
          put_after_table nvm cfg n fs fs.root root_entry 24 c ok root_entry-AreBytes area.in_page
            (ground (arith, ok.positive, area.outside)) area.after_table (omega arith)
          ∙ marked c h in
        load_runs with_root fs.table_size (kept 0 pos)
          (table_valid_lem fs.table_size with_root fs.table_size 0 small
            (λ c lo hi. kept c (omega arith)))
          at root_name (root_length long) size
