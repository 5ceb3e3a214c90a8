-- ===== src/FileSystem/Mount/Format.antt =====
-- That `load` of source/MicroBitFileSystem.cpp finds what `format` makes.
use codal_microbit_v2_fft.Base.{
  ℕ, zero, suc, ◌+◌, ◌*◌, ◌%◌, ◌^◌, ◌≤◌, ◌<◌, ◌≡◌, refl, ap, ap₂, sym, ◌∙◌, arith, true, false,
  Code, within, ◌==◌, if◌then◌else◌,
}
use codal_microbit_v2_fft.Nvm.{Nvm}
use codal_microbit_v2_fft.Flash.Cells.{AreBytes, within_false}
use codal_microbit_v2_fft.FileSystem.{
  eof, entry_valid, Config, FileSystem, next_block, flash_put, put, table_write, get_block,
}
use codal_microbit_v2_fft.FileSystem.Table.{IsMounted, table_write-IsMounted, table_write_lem}
use codal_microbit_v2_fft.FileSystem.Directory.{entry_bytes}
use codal_microbit_v2_fft.FileSystem.Mount.Root.{HasRoot, load-with_root}
use codal_microbit_v2_fft.FileSystem.Mount.{
  magic, calculate_file_table_size, load, mark_loop, format,
}

step :
    (block left c v x y : ℕ)
    → y ≡ (if block == c then v else x)
    → (if within (block + 1) (block + 1 + left) c then v else y)
      ≡ (if within block (block + suc left) c then v else x)
step block left c v x y e = ground (arith, e)

module _ (nvm : Nvm) (cfg : Config) where
  open nvm use {Mem, byte, page_size}

  -- The table after `format` has marked the entries from `block` on.
  mark_loop_lem :
      (left n : ℕ) (fs : FileSystem Mem) (block c : ℕ)
      → IsMounted nvm cfg n fs
      → fs.table_size < 2 ^ 16
      → block + left ≤ n
      → c < n
      → let fs' = mark_loop nvm cfg left fs block in
        IsMounted nvm cfg n fs'
        × (fs' ≡ record fs { mem = fs'.mem })
        × (next_block nvm fs' c
            ≡ (if within block (block + left) c then fs.table_size else next_block nvm fs c))
  unfolding mark_loop table_write flash_put
  mark_loop_lem zero n fs block c ok small le h =
      (ok, refl, rw (within_false block (block + 0) c (ground arith)) refl)
  mark_loop_lem (suc left) n fs block c ok small le h =
      let fs1 = table_write nvm cfg fs block fs.table_size in
      let (ok', same, all) =
        mark_loop_lem left n fs1 (block + 1) c
          (table_write-IsMounted nvm cfg n fs block fs.table_size ok) small (omega arith) h in
      (
        ok',
        same,
        all
            ∙ step block left c _ _ _
                (table_write_lem nvm cfg n fs block c fs.table_size ok (omega arith) h small),
      )

  -- `format` from where the table's own blocks are marked.
  format_end :
      (n : ℕ) (fs : FileSystem Mem)
      → IsMounted nvm cfg n fs
      → fs.table_size < n
      → HasRoot nvm cfg n (get_block nvm cfg fs fs.table_size) fs
      → AreBytes cfg.stack
      → ((c : ℕ) → c < fs.table_size → next_block nvm fs c ≡ fs.table_size)
      → 0 < fs.table_size
      → fs.table_size < eof
      → fs.size < 2 ^ 32
      → fs.table_size ≡ calculate_file_table_size cfg fs.size
      → let fs2 = table_write nvm cfg fs fs.table_size eof in
        let d = entry_bytes cfg.stack magic fs2.table_size entry_valid fs2.size in
        let fs3 = record fs2 { root = get_block nvm cfg fs2 fs2.table_size } in
        let fs4 = put nvm cfg fs3 fs3.root d 24 in load nvm cfg fs4 ≡ (Code.ok, fs4)
  unfolding table_write flash_put next_block
  format_end n fs ok e area stack marked pos small long size =
      let fs2 = table_write nvm cfg fs fs.table_size eof in
      let fs3 = record fs2 { root = get_block nvm cfg fs2 fs2.table_size } in
      let ok2 = table_write-IsMounted nvm cfg n fs fs.table_size eof ok in
      let ok3 : IsMounted nvm cfg n fs3 = record {
        cells = ok2.cells;
        positive = ok2.positive;
        whole = ok2.whole;
        scratch_page = ok2.scratch_page;
        table_page = ok2.table_page;
        apart = ok2.apart;
      } in
      let area3 : HasRoot nvm cfg n fs3.root fs3 = record {
        after_table = area.after_table;
        in_page = area.in_page;
        outside = area.outside;
      } in
      load-with_root nvm cfg n fs3 ok3 stack area3
        (λ c h.
          let other : (fs.table_size == c) ≡ false = ground arith in
          table_write_lem nvm cfg n fs fs.table_size c eof ok (omega arith) (omega arith)
            (omega arith)
          ∙ rw other (marked c h))
        pos (omega arith) small refl long size

  -- Where the first entries of the table, one more than the table has blocks, and the first entry of
  -- the root directory lie apart and outside the scratch page, the latter in one page, the number of
  -- blocks of the table is that for the size of the file system, positive and below MBFS_EOF, and
  -- what is in memory and on the stack are bytes: `load` after `format` succeeds, and finds the root
  -- directory, the size and the table that `format` has set.
  pub format-load :
      (fs : FileSystem Mem)
      → IsMounted nvm cfg (fs.table_size + 1) fs
      → HasRoot nvm cfg (fs.table_size + 1) (get_block nvm cfg fs fs.table_size) fs
      → AreBytes cfg.stack
      → 0 < fs.table_size
      → fs.table_size < eof
      → fs.size < 2 ^ 32
      → fs.table_size ≡ calculate_file_table_size cfg fs.size
      → let (code, fs') = format nvm cfg fs in
        (code ≡ Code.ok) × (load nvm cfg fs' ≡ (Code.ok, fs'))
  unfolding format table_write
  format-load fs ok area stack pos small long size =
      let n = fs.table_size + 1 in
      let fs1 = mark_loop nvm cfg fs.table_size fs 0 in
      let marked = λ (c : ℕ) (h : c < n).
        mark_loop_lem fs.table_size n fs 0 c ok (omega arith) (omega arith) h in
      let (ok1, same, _) = marked 0 (omega arith) in
      let base : fs1.table ≡ fs.table = ap (λ g. g.table) same in
      let blocks : fs1.table_size ≡ fs.table_size = ap (λ g. g.table_size) same in
      let total : fs1.size ≡ fs.size = ap (λ g. g.size) same in
      let root : get_block nvm cfg fs1 fs1.table_size ≡ get_block nvm cfg fs fs.table_size =
        ap₂ (λ t b. t + b * cfg.block_size) base blocks in
      let page : get_block nvm cfg fs1 fs1.table_size % page_size
          ≡ get_block nvm cfg fs fs.table_size % page_size =
        ap (λ r. r % page_size) root in
      let area1 : HasRoot nvm cfg n (get_block nvm cfg fs1 fs1.table_size) fs1 = record {
        after_table = omega (arith, base, root, area.after_table);
        in_page = omega (arith, page, area.in_page);
        outside = ground (arith, root, area.outside);
      } in
      (
        refl,
        format_end n fs1 ok1 (omega (arith, blocks)) area1 stack
            (λ c h.
              let before : within 0 (0 + fs.table_size) c ≡ true = ground (arith, blocks) in
              (marked c (omega (arith, blocks))).2 ∙ rw before (sym blocks))
            (omega (arith, blocks)) (omega (arith, blocks)) (omega (arith, total))
            (blocks ∙ size ∙ sym (ap (calculate_file_table_size cfg) total)),
      )
