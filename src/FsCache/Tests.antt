-- ===== src/FsCache/Tests.antt =====
-- Runs of the model of source/FSCache.cpp, and instances of its theorems: a cache of four blocks of
-- 256 bytes, as the log has, over a flash of eight pages.
use codal_microbit_v2_fft.Base.{
  zero, suc, ℕ, ◌+◌, ◌*◌, ◌≡◌, ◌<◌, refl, true, false, arith, Bytes, advance, ltb, Code, of_list,
  [], ◌∷◌, if◌then◌else◌, bit_and, update,
}
use codal_microbit_v2_fft.Nvm.{Nvm, flash_model}
use codal_microbit_v2_fft.FsCache.{Geometry, Cache, clear, cache_page}
use codal_microbit_v2_fft.FsCache.Coherent.{IsUsable, IsCoherent, clear-IsCoherent}
use codal_microbit_v2_fft.FsCache.Replacement.{SameBlock, cache_page-pinned}
use codal_microbit_v2_fft.FsCache.Access.{out_of_limits, read, write_bytes}
use codal_microbit_v2_fft.FsCache.Access.Validate.{Fits}
use codal_microbit_v2_fft.FsCache.Access.Writing.{overwritten}
use codal_microbit_v2_fft.FsCache.Access.Through.{write_bytes-Fits, read-write}

abbrev flash : Nvm
flash = flash_model 8

abbrev four_blocks : Geometry
four_blocks = record { block_size = 256; cache_size = 4 }

four_blocks-IsUsable : IsUsable four_blocks
four_blocks-IsUsable = record {
  some_block = omega arith;
  whole_words = refl;
  some_entry = omega arith;
}

-- A memory with two bytes written, at 258 and 259, and the data to write.
abbrev some_mem : ℕ → ℕ
some_mem = update (update (λ _. 255) 258 15) 259 0

abbrev new_bytes : Bytes
new_bytes = λ j. j

cold-IsCoherent : IsCoherent flash four_blocks clear some_mem
cold-IsCoherent = clear-IsCoherent flash four_blocks some_mem

-- What holds of 0, 1, 2 and 3 holds of all numbers below 4.
below_four : (P : ℕ → Type 0) → P 0 → P 1 → P 2 → P 3 → (j : ℕ) → j < 4 → P j
below_four P a b c d zero h = a
below_four P a b c d (suc zero) h = b
below_four P a b c d (suc (suc zero)) h = c
below_four P a b c d (suc (suc (suc zero))) h = d
below_four P a b c d (suc (suc (suc (suc j)))) h = absurd (omega arith)

-- Three bytes round the end of a block, which were erased.
area-Fits : Fits (advance some_mem 255) new_bytes 0 3
area-Fits j lo hi =
    below_four (λ i. bit_and (some_mem (255 + i)) i ≡ i) refl refl refl refl j (omega arith)

inside_limits : out_of_limits flash four_blocks 255 3 ≡ false
inside_limits = refl

write_bytes-Fits_example :
    let (code, c', m') = write_bytes flash four_blocks clear some_mem 255 new_bytes 3 in
    (code ≡ Code.ok)
    × IsCoherent flash four_blocks c' m'
    × ((x : ℕ) → flash.byte m' x ≡ overwritten some_mem 255 3 new_bytes x)
write_bytes-Fits_example =
    write_bytes-Fits flash four_blocks four_blocks-IsUsable clear some_mem 255 new_bytes 3
      (omega arith) cold-IsCoherent inside_limits area-Fits

read-write_example :
    let (code, c', m') = write_bytes flash four_blocks clear some_mem 255 new_bytes 3 in
    let (code', out', c'') = read flash four_blocks c' m' 255 (λ _. 7) 3 in
    (code' ≡ Code.ok) × ((j : ℕ) → out' j ≡ (if ltb j 3 then new_bytes j else 7))
read-write_example =
    read-write flash four_blocks four_blocks-IsUsable clear some_mem 255 new_bytes (λ _. 7) 3
      (omega arith) cold-IsCoherent inside_limits area-Fits

-- A cache whose four entries hold blocks 0 to 3, used in the order 0, 3, 2, 1, with 0 and 1 pinned.
abbrev warm : Cache
warm = record {
  entries = λ i. record {
    address = 256 * i;
    last_used = of_list (1 ∷ 4 ∷ 3 ∷ 2 ∷ []) i;
    flags = of_list (1 ∷ 1 ∷ 0 ∷ 0 ∷ []) i;
    loaded = true;
    page = λ _. 255;
  };
  operation_count = 4;
}

cache_page-pinned_example :
    SameBlock (warm.entries 1) ((cache_page flash four_blocks warm some_mem 1024).1.entries 1)
cache_page-pinned_example =
    cache_page-pinned flash four_blocks warm some_mem 1024 1 (omega arith) refl refl
