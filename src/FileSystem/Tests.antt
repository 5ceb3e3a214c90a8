-- ===== src/FileSystem/Tests.antt =====
-- Instances of the theorems on source/MicroBitFileSystem.cpp: a file system of one page, with a file
-- "a" of 300 bytes in two blocks.
use codal_microbit_v2_fft.Base.{
  ℕ, zero, suc, ◌-◌, ◌%◌, ◌<◌, ◌≡◌, ◌≢◌, refl, arith, inr, true, false, Option, none, some, List,
  [], ◌∷◌, of_list, Code, value, ltb, if◌then◌else◌, if-both,
}
use codal_microbit_v2_fft.Nvm.{Nvm, flash_model}
use codal_microbit_v2_fft.Flash.Cells.{AreBytes}
use codal_microbit_v2_fft.FileSystem.{deleted, Config, File, FileSystem, next_block}
use codal_microbit_v2_fft.FileSystem.Chains.{IsChain, AreBelow}
use codal_microbit_v2_fft.FileSystem.Table.{IsMounted}
use codal_microbit_v2_fft.FileSystem.Blocks.{Scan, free_loop, get_free_block}
use codal_microbit_v2_fft.FileSystem.Blocks.Free.{Scanned, allocated, get_free_block_lem}
use codal_microbit_v2_fft.FileSystem.Directory.{
  entry_loop, name_start, is_match, same_name, get_directory_entry, name_part,
}
use codal_microbit_v2_fft.FileSystem.Directory.Search.{
  first_match, entries, get_directory_entry_lem,
}
use codal_microbit_v2_fft.FileSystem.Mount.{calculate_file_table_size, load, format}
use codal_microbit_v2_fft.FileSystem.Mount.Format.{format-load}
use codal_microbit_v2_fft.FileSystem.Data.{find_file}
use codal_microbit_v2_fft.FileSystem.Open.{id_loop, choose_id}
use codal_microbit_v2_fft.FileSystem.Open.Ids.{Chosen, choose_id_lem}
use codal_microbit_v2_fft.FileSystem.Handle.{Handle, set_position, get_position}
use codal_microbit_v2_fft.FileSystem.Handle.Moves.{at_position, get_position-set_position}

of_list-AreBytes : (xs : List ℕ) → AreBelow 256 xs → AreBytes (of_list xs)
of_list-AreBytes [] h x = omega arith
of_list-AreBytes (y ∷ ys) h zero = h.0
of_list-AreBytes (y ∷ ys) h (suc x) = of_list-AreBytes ys h.1 x

-- The table: its own block, the root directory, block 2 of the file, one unused, block 4 of the file.
abbrev table_bytes : List ℕ
table_bytes = 1 ∷ 0 ∷ 255 ∷ 239 ∷ 4 ∷ 0 ∷ 255 ∷ 255 ∷ 255 ∷ 239 ∷ []

abbrev root_bytes : List ℕ
root_bytes =
    77 ∷ 73 ∷ 67 ∷ 82 ∷ 79 ∷ 66 ∷ 73 ∷ 84 ∷ 95 ∷ 70 ∷ 83 ∷ 95 ∷ 49 ∷ 95 ∷ 48 ∷ 0 ∷ 1 ∷ 0 ∷ 0 ∷ 64
    ∷ 16 ∷ 0 ∷ 0 ∷ 0 ∷ 97 ∷ 0 ∷ 0 ∷ 0 ∷ 0 ∷ 0 ∷ 0 ∷ 0 ∷ 0 ∷ 0 ∷ 0 ∷ 0 ∷ 0 ∷ 0 ∷ 0 ∷ 0 ∷ 2 ∷ 0 ∷ 0
    ∷ 64 ∷ 44 ∷ 1 ∷ 0 ∷ 0 ∷ []

abbrev flash : ℕ → ℕ
flash x =
    if ltb x 4096
    then 255
    else if ltb x 4352
    then of_list table_bytes (x - 4096)
    else if ltb x 4608
    then of_list root_bytes (x - 4352)
    else x % 256

flash-AreBytes : AreBytes flash
flash-AreBytes x =
    if-both (λ v. v < 256) (ltb x 4096) (λ t. omega arith)
      (λ t.
        if-both (λ v. v < 256) (ltb x 4352)
          (λ t'. of_list-AreBytes table_bytes (ground arith) (x - 4096))
          (λ t'.
            if-both (λ v. v < 256) (ltb x 4608)
              (λ u. of_list-AreBytes root_bytes (ground arith) (x - 4352)) (λ u. omega arith)))

abbrev board : Nvm
board = flash_model 8

abbrev cfg : Config
cfg = record {
  block_size = 256;
  cache_size = 0;
  scratch = 0;
  program_end = 5000;
  app_end = 32768;
  stack = λ _. 0;
}

-- The open file "a", 200 bytes read.
abbrev file_a : File
file_a = record {
  flags = 1;
  id = 0;
  seek = 200;
  length = 300;
  dirent = 4376;
  directory = 4352;
  cache_length = 0;
  cache = λ _. 0;
}

abbrev mounted : FileSystem (ℕ → ℕ)
mounted = record {
  mem = flash;
  initialised = true;
  size = 16;
  table = 4096;
  table_size = 1;
  last = 1;
  root = 4352;
  open_files = file_a ∷ [];
}

mounted-IsMounted : IsMounted board cfg 16 mounted
mounted-IsMounted = record {
  cells = flash-AreBytes;
  positive = omega arith;
  whole = refl;
  scratch_page = refl;
  table_page = refl;
  apart = inr (omega arith);
}

found_a : find_file mounted.open_files 0 ≡ some file_a
unfolding find_file
found_a = refl

root-IsChain : IsChain board mounted 1 []
unfolding next_block
root-IsChain = refl

first_used : next_block board mounted 0 ≢ deleted
unfolding next_block
first_used = λ e. absurd (omega arith)

blank_size : 1 ≡ calculate_file_table_size cfg 16
unfolding calculate_file_table_size
blank_size = refl

get_directory_entry_lem_example :
    get_directory_entry board cfg mounted (97 ∷ []) 0
    ≡ some (first_match board flash (name_part (97 ∷ [])) (entries board cfg mounted (1 ∷ [])))
get_directory_entry_lem_example =
    get_directory_entry_lem board cfg mounted (97 ∷ []) 0 [] (omega arith) root-IsChain
      (omega arith)

-- The same file system, with no file open.
abbrev closed : FileSystem (ℕ → ℕ)
closed = record mounted { open_files = [] }

get_free_block_lem_example :
    (r : Scan) × Scanned board mounted 2 65535 r
    × (get_free_block board cfg mounted ≡ allocated board cfg mounted r)
get_free_block_lem_example = get_free_block_lem board cfg mounted (omega arith) first_used

choose_id_lem_example :
    (r : Option ℕ) × (choose_id (file_a ∷ []) 4400 ≡ some r) × Chosen (file_a ∷ []) 4400 r
choose_id_lem_example = choose_id_lem (file_a ∷ []) 4400 (λ e. absurd (omega arith))

-- An erased memory, and the geometry of 16 blocks.
abbrev blank : FileSystem (ℕ → ℕ)
blank = record mounted { mem = λ _. 255; initialised = false; root = 0; last = 0; open_files = [] }

format-load_example :
    let (code, fs') = format board cfg blank in
    (code ≡ Code.ok) × (load board cfg fs' ≡ (Code.ok, fs'))
format-load_example =
    format-load board cfg blank
      (record {
        cells = λ x. omega arith;
        positive = omega arith;
        whole = refl;
        scratch_page = refl;
        table_page = refl;
        apart = inr (omega arith);
      })
      (record { after_table = omega arith; in_page = omega arith; outside = inr (omega arith) })
      (λ x. omega arith) (omega arith) (omega arith) (omega arith) blank_size

finds_a : get_directory_entry board cfg mounted (97 ∷ []) 0 ≡ some 4376
unfolding get_directory_entry entry_loop name_part name_start is_match same_name next_block
finds_a = refl

misses_b : get_directory_entry board cfg mounted (98 ∷ []) 0 ≡ some 0
unfolding get_directory_entry entry_loop name_part name_start is_match same_name next_block
misses_b = refl

takes_three : get_free_block board cfg mounted ≡ some (3, record mounted { last = 3 })
unfolding get_free_block free_loop next_block
takes_three = refl

-- The entry after "/".
last_part : name_part (97 ∷ 47 ∷ 98 ∷ []) ≡ 98 ∷ []
unfolding name_part name_start
last_part = refl

opens_once : choose_id (file_a ∷ []) 4376 ≡ some none
unfolding choose_id id_loop
opens_once = refl

-- A handle on that file.
abbrev a_handle : Handle
a_handle = record { file_name = 97 ∷ []; file_handle = value 0 }

get_position-set_position_example :
    let fs' = at_position board cfg mounted file_a 3 in
    (set_position board cfg a_handle mounted 3 ≡ some (value 3, fs'))
    × (get_position board cfg a_handle fs'
        ≡ some (value 3, at_position board cfg fs' (record file_a { seek = 3 }) 3))
get_position-set_position_example =
    get_position-set_position board cfg a_handle mounted file_a 0 3
      (record {
        ready = refl;
        handle = refl;
        found = found_a;
        clean = refl;
        small = omega arith;
        inside = omega arith;
      })
      (omega arith)
