-- ===== src/FileSystem/Open/Remove.antt =====
-- What `remove` of source/MicroBitFileSystem.cpp leaves of the file in the table and the directory, once
-- it has opened it.
use codal_microbit_v2_fft.Base.{
  ℕ, zero, suc, ◌+◌, ◌*◌, ◌%◌, ◌^◌, ◌≤◌, ◌<◌, ◌≡◌, ◌≢◌, refl, ◌∙◌, arith, ◌⊎◌, Bool, true, false,
  ◌||◌, some, List, [], ◌∷◌, length, ◌==◌, if◌then◌else◌,
}
use codal_microbit_v2_fft.Nvm.{Nvm}
use codal_microbit_v2_fft.FileSystem.{
  eof, deleted, entry_deleted, Config, File, FileSystem, all_blocks, number, entry_block,
  entry_flags, next_block, table_write,
}
use codal_microbit_v2_fft.FileSystem.Chains.{IsChain, contains, AreDistinct, AreBelow}
use codal_microbit_v2_fft.FileSystem.Table.{
  IsMounted, number-AreBytes, table_write-IsMounted, table_write-table, table_write_lem, put-number,
  put_after_table,
}
use codal_microbit_v2_fft.FileSystem.Open.{delete_loop, remove_file}

if_or :
    (p q : Bool) (x y z : ℕ)
    → y ≡ (if p then x else z)
    → (if q then x else y) ≡ (if p || q then x else z)
if_or true true x y z e = refl
if_or true false x y z e = e
if_or false true x y z e = refl
if_or false false x y z e = e

module _ (nvm : Nvm) (cfg : Config) where
  open nvm use {Mem, byte, page_size}

  kept :
      (n : ℕ) (fs : FileSystem Mem) (b v c : ℕ)
      → IsMounted nvm cfg n fs
      → b < n
      → c < n
      → v < 2 ^ 16
      → (c == b) ≡ false
      → next_block nvm (table_write nvm cfg fs b v) c ≡ next_block nvm fs c
  kept n fs b v c ok hb hc hv e =
      let other : (b == c) ≡ false = ground arith in
      table_write_lem nvm cfg n fs b c v ok hb hc hv ∙ rw other refl

  -- A chain without `b` stays one when the entry of `b` is written.
  IsChain-write :
      (n : ℕ) (fs : FileSystem Mem) (b v c : ℕ) (cs : List ℕ)
      → IsMounted nvm cfg n fs
      → b < n
      → v < 2 ^ 16
      → AreBelow n (c ∷ cs)
      → contains b (c ∷ cs) ≡ false
      → IsChain nvm fs c cs
      → IsChain nvm (table_write nvm cfg fs b v) c cs
  IsChain-write n fs b v c [] ok hb hv below out chain =
      kept n fs b v c ok hb below.0 hv (ground arith) ∙ chain
  IsChain-write n fs b v c (d ∷ ds) ok hb hv below out chain = (
    kept n fs b v c ok hb below.0 hv (ground arith) ∙ chain.0,
    chain.1,
    IsChain-write n fs b v d ds ok hb hv below.1 (ground arith) chain.2,
  )

  delete_loop_lem :
      (rounds n : ℕ) (fs : FileSystem Mem) (b : ℕ) (bs : List ℕ)
      → IsMounted nvm cfg n fs
      → IsChain nvm fs b bs
      → b ≢ eof
      → AreBelow n (b ∷ bs)
      → AreDistinct (b ∷ bs)
      → length bs + 1 < rounds
      → (fs' : FileSystem Mem) × (delete_loop nvm cfg rounds fs b ≡ some fs')
        × IsMounted nvm cfg n fs'
        × (fs'.table ≡ fs.table)
        × ((c : ℕ)
            → c < n
            → next_block nvm fs' c ≡ (if contains c (b ∷ bs) then deleted else next_block nvm fs c))
  unfolding delete_loop
  delete_loop_lem zero n fs b bs ok chain more below apart enough = absurd (omega arith)
  delete_loop_lem (suc zero) n fs b bs ok chain more below apart enough = absurd (omega arith)
  delete_loop_lem (suc (suc rounds)) n fs b [] ok chain more below apart enough =
      let fs1 = table_write nvm cfg fs b deleted in
      let go : (b == eof) ≡ false = ground arith in
      rw (go, chain)
        (
          fs1,
          refl,
          table_write-IsMounted nvm cfg n fs b deleted ok,
          table_write-table nvm cfg fs b deleted,
          (λ c h.
              table_write_lem nvm cfg n fs b c deleted ok below.0 h (omega arith)
              ∙ if_or (b == c) false _ _ _ refl),
        )
  delete_loop_lem (suc (suc rounds)) n fs b (c ∷ cs) ok chain more below apart enough =
      let fs1 = table_write nvm cfg fs b deleted in
      let go : (b == eof) ≡ false = ground arith in
      let (fs', e, ok', same, all) =
        delete_loop_lem (suc rounds) n fs1 c cs (table_write-IsMounted nvm cfg n fs b deleted ok)
          (IsChain-write n fs b deleted c cs ok below.0 (omega arith) below.1 apart.0 chain.2)
          chain.1 below.1 apart.1 (omega arith) in
      rw (go, chain.0)
        (
          fs',
          e,
          ok',
          same ∙ table_write-table nvm cfg fs b deleted,
          λ d h.
              all d h
              ∙ if_or (b == d) (contains d (c ∷ cs)) _ _ _
                  (table_write_lem nvm cfg n fs b d deleted ok below.0 h (omega arith)),
        )

  -- The file's entry in the directory is where the table is not, outside the scratch page, and its
  -- flags do not cross the end of a page.
  pub record IsEntry (n : ℕ) (fs : FileSystem Mem) (a : ℕ) : Type 0 where
    pub after_table : fs.table + 2 * n ≤ a + 18
    pub outside : (a + 19 < cfg.scratch) ⊎ (cfg.scratch + page_size ≤ a + 18)
    pub in_page : (a + 18) % page_size + 2 ≤ page_size

  -- Where the table's first `n` entries and the entry of the file in its directory lie outside the
  -- scratch page and apart from each other, and the table leads from the first block of the file
  -- through fewer than 65530 other blocks, all different and below `n`, to MBFS_EOF: the part of
  -- `remove` after `open` ends, and after it the entries of these blocks in the table are DELETED,
  -- the other `n` are as they were, and the flags in the directory are 0.
  pub remove_file_lem :
      (n : ℕ) (fs : FileSystem Mem) (f : File) (bs : List ℕ)
      → IsMounted nvm cfg n fs
      → IsEntry n fs f.dirent
      → let b = entry_block nvm fs.mem f.dirent in
        IsChain nvm fs b bs
        → b ≢ eof
        → AreBelow n (b ∷ bs)
        → AreDistinct (b ∷ bs)
        → length bs < 65530
        → (fs' : FileSystem Mem) × (remove_file nvm cfg fs f ≡ some fs')
          × ((c : ℕ)
              → c < n
              → next_block nvm fs' c
                ≡ (if contains c (b ∷ bs) then deleted else next_block nvm fs c))
          × (entry_flags nvm fs'.mem f.dirent ≡ entry_deleted)
  unfolding remove_file
  remove_file_lem n fs f bs ok entry chain more below apart short =
      let b = entry_block nvm fs.mem f.dirent in
      let (fs1, e, ok', same, all) =
        delete_loop_lem all_blocks n fs b bs ok chain more below apart (omega arith) in
      rw e (
        _,
        refl,
        (λ c h.
            put_after_table nvm cfg n fs1 (f.dirent + 18) (number entry_deleted) 2 c ok'
              (number-AreBytes nvm cfg entry_deleted) entry.in_page (ground (arith, entry.outside))
              (omega (arith, same, entry.after_table)) h
            ∙ all c h),
        put-number nvm cfg n fs1 (f.dirent + 18) entry_deleted ok' (omega arith) entry.in_page
            (ground (arith, entry.outside)),
      )
