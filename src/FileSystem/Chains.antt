-- ===== src/FileSystem/Chains.antt =====
-- The chains of blocks that the table of source/MicroBitFileSystem.cpp holds.
use codal_microbit_v2_fft.Base.{ℕ, ◌<◌, ◌≡◌, ◌≢◌, Bool, false, ◌||◌, List, [], ◌∷◌, ◌==◌}
use codal_microbit_v2_fft.Nvm.{Nvm}
use codal_microbit_v2_fft.FileSystem.{eof, FileSystem, next_block}

module _ (nvm : Nvm) where
  open nvm use {Mem}

  -- The table leads from block `b` through the blocks of a list to MBFS_EOF.
  abbrev pub IsChain : FileSystem Mem → ℕ → List ℕ → Type 0
  IsChain fs b [] = next_block nvm fs b ≡ eof
  IsChain fs b (c ∷ cs) = (next_block nvm fs b ≡ c) × (c ≢ eof) × IsChain fs c cs

-- `c` is one of the blocks.
abbrev pub contains : ℕ → List ℕ → Bool
contains c [] = false
contains c (b ∷ bs) = b == c || contains c bs

-- The blocks are all different.
abbrev pub AreDistinct : List ℕ → Type 0
AreDistinct [] = Unit
AreDistinct (b ∷ bs) = (contains b bs ≡ false) × AreDistinct bs

abbrev pub AreBelow : ℕ → List ℕ → Type 0
AreBelow n [] = Unit
AreBelow n (b ∷ bs) = (b < n) × AreBelow n bs
