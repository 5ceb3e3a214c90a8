-- ===== src/FileSystem/Directory/Search.antt =====
-- The search of `getDirectoryEntry` in source/MicroBitFileSystem.cpp, and the entries of a directory.
use native.Mathlib.Nat.{mul-le-mul_left}
use codal_microbit_v2_fft.Base.{
  ℕ, zero, suc, ◌+◌, ◌-◌, ◌*◌, ◌/◌, ◌≤◌, ◌<◌, ◌≡◌, Bool, refl, arith, true, false, Option, some,
  List, [], ◌∷◌, ◌++◌, length, ◌==◌, if◌then◌else◌,
}
use codal_microbit_v2_fft.Nvm.{Nvm}
use codal_microbit_v2_fft.FileSystem.{Config, FileSystem, all_blocks, entry_block, get_block, eof}
use codal_microbit_v2_fft.FileSystem.Chains.{IsChain}
use codal_microbit_v2_fft.FileSystem.Directory.{
  is_match, name_part, past_block, entry_loop, all_entries, get_directory_entry,
}

-- The addresses of `n` entries from `a` on.
abbrev pub slots : ℕ → ℕ → List ℕ
slots a zero = []
slots a (suc n) = a ∷ slots (a + 24) n

if-some :
    (t : Bool) (x : ℕ) {r : Option ℕ} {y : ℕ}
    → r ≡ some y
    → (if t then some x else r) ≡ some (if t then x else y)
if-some true x e = refl
if-some false x e = e

module _ (nvm : Nvm) where
  open nvm use {Mem}

  -- The first of the entries that is valid and has the name, 0 for none.
  abbrev pub first_match : Mem → List ℕ → List ℕ → ℕ
  first_match m name [] = 0
  first_match m name (a ∷ more) = if is_match nvm m name a then a else first_match m name more

  module _ (cfg : Config) where
    -- The root for NULL.
    abbrev pub start_directory : FileSystem Mem → ℕ → ℕ
    start_directory fs directory = if directory == 0 then fs.root else directory

    -- How many entries a block has.
    abbrev pub per_block : ℕ
    per_block = cfg.block_size / 24

    -- All entries of the blocks of a list.
    abbrev pub entries : FileSystem Mem → List ℕ → List ℕ
    entries fs [] = []
    entries fs (b ∷ bs) = slots (get_block nvm cfg fs b) per_block ++ entries fs bs

    at_end :
        (fs : FileSystem Mem) (b k d : ℕ)
        → k + 0 ≡ per_block
        → d ≡ get_block nvm cfg fs b + 24 * k
        → past_block nvm cfg fs b d ≡ true
    at_end fs b k d e at = ground arith

    in_block :
        (fs : FileSystem Mem) (b k left d : ℕ)
        → k + suc left ≡ per_block
        → d ≡ get_block nvm cfg fs b + 24 * k
        → past_block nvm cfg fs b d ≡ false
    in_block fs b k left d e at = ground arith

    entry_loop_lem :
        (rounds : ℕ) (fs : FileSystem Mem) (name : List ℕ) (b : ℕ) (cs : List ℕ) (k left d : ℕ)
        → 0 < per_block
        → IsChain nvm fs b cs
        → k + left ≡ per_block
        → d ≡ get_block nvm cfg fs b + 24 * k
        → left + per_block * length cs < rounds
        → entry_loop nvm cfg rounds fs name b d
          ≡ some (first_match fs.mem name (slots d left ++ entries fs cs))
    unfolding entry_loop
    entry_loop_lem zero fs name b cs k left d pos chain e at enough = absurd (omega arith)
    entry_loop_lem (suc rounds) fs name b [] k zero d pos chain e at enough =
        rw (at_end fs b k d e at) (rw chain refl)
    entry_loop_lem (suc rounds) fs name b (c ∷ cs) k zero d pos chain e at enough =
        let fill : per_block ≡ suc (per_block - 1) = omega arith in
        let room : per_block * suc (length cs) ≡ per_block + per_block * length cs = grind arith in
        let more : (c == eof) ≡ false = ground arith in
        rw (at_end fs b k d e at) (
          rw chain.0 (
            rw more (
              rw fill (
                if-some (is_match nvm fs.mem name (get_block nvm cfg fs c)) (get_block nvm cfg fs c)
                  (entry_loop_lem rounds fs name c cs 1 (per_block - 1)
                    (get_block nvm cfg fs c + 24) pos chain.2 (omega arith) (omega arith)
                    (omega (arith, room)))))))
    entry_loop_lem (suc rounds) fs name b cs k (suc left) d pos chain e at enough =
        rw (in_block fs b k left d e at) (
          if-some (is_match nvm fs.mem name d) d (
            entry_loop_lem rounds fs name b cs (k + 1) left (d + 24) pos chain (omega arith)
              (omega arith) (omega arith)))

    -- Where a block holds at least one entry, and the table leads from the first block of the
    -- directory through at most 65536 blocks to MBFS_EOF: the search of `getDirectoryEntry` ends, and
    -- gives the first of all entries of these blocks that is valid and has the part of the name after
    -- the last '/', NULL where there is none.
    pub get_directory_entry_lem :
        (fs : FileSystem Mem) (filename : List ℕ) (directory : ℕ) (bs : List ℕ)
        → 24 ≤ cfg.block_size
        → IsChain nvm fs (entry_block nvm fs.mem (start_directory fs directory)) bs
        → length bs < all_blocks
        → get_directory_entry nvm cfg fs filename directory
          ≡ some (
              first_match fs.mem
                (name_part filename)
                (entries fs (entry_block nvm fs.mem (start_directory fs directory) ∷ bs)))
    unfolding get_directory_entry
    get_directory_entry_lem fs filename directory bs fits chain short =
        let b = entry_block nvm fs.mem (start_directory fs directory) in
        let room = mul-le-mul_left per_block short in
        let split : per_block * suc (length bs) ≡ per_block + per_block * length bs = grind arith in
        entry_loop_lem (all_entries nvm cfg) fs (name_part filename) b bs 0 per_block
          (get_block nvm cfg fs b) (omega arith) chain (omega arith) (omega arith)
          (omega (arith, room, split))
