-- ===== src/FileSystem/Open/Seeking.antt =====
-- Where `seek` of source/MicroBitFileSystem.cpp puts the position.
use native.Mathlib.Decide.{dec_lt}
use codal_microbit_v2_fft.Base.{
  ℕ, ◌+◌, ◌-◌, ◌%◌, ◌^◌, ◌≤◌, ◌<◌, ◌≡◌, refl, ap, ◌∙◌, arith, inl, inr, true, false, Bool-cases,
  Option, none, some, Code, Reply, value, error, ltb, leb, ◌!=◌, ◌||◌, if◌then◌else◌,
}
use codal_microbit_v2_fft.Nvm.{Nvm}
use codal_microbit_v2_fft.FileSystem.{Config, File, FileSystem, u32}
use codal_microbit_v2_fft.FileSystem.Data.{find_file, write_back, keep_file}
use codal_microbit_v2_fft.FileSystem.Open.{position_of, seek, seek_set, seek_end, seek_cur}

-- From where a move is, and its flag.
pub data Whence : Type 0 where
  from_start from_end from_here : Whence

abbrev pub flag_of : Whence → ℕ
flag_of from_start = seek_set
flag_of from_end = seek_end
flag_of from_here = seek_cur

abbrev pub origin : File → Whence → ℕ
origin f from_start = 0
origin f from_end = f.length
origin f from_here = f.seek

-- A signed offset, and the 32 bits of the `int`.
pub data Move : Type 0 where
  forward back : ℕ → Move

abbrev pub bits : Move → ℕ
bits (forward d) = d
bits (back d) = (2 ^ 32 - d) % 2 ^ 32

abbrev pub span : Move → ℕ
span (forward d) = d
span (back d) = d

-- The position that a move leads to, `none` where it would be negative.
abbrev pub target : ℕ → Move → Option ℕ
target base (forward d) = some (base + d)
target base (back d) = if leb d base then some (base - d) else none

-- What the code computes stands for the target.
abbrev Stands : Option ℕ → ℕ → Type 0
Stands none position = 2 ^ 31 ≤ position
Stands (some p) position = (position ≡ p)

target_lem :
    (base : ℕ) (move : Move)
    → base < 2 ^ 31
    → span move < 2 ^ 31
    → Stands (target base move) (u32 (base + bits move))
target_lem base (forward d) hb hd = omega arith
target_lem base (back d) hb hd = elim (dec_lt base d) [
  | yes p ↦ let t : leb d base ≡ false = ground arith in rw t (omega arith)
  | no q ↦ let t : leb d base ≡ true = ground arith in rw t (omega arith)
]

position_lem :
    (f : File) (w : Whence) (move : Move)
    → span move < 2 ^ 31
    → position_of f (bits move) (flag_of w) ≡ u32 (origin f w + bits move)
position_lem f from_start (forward d) h = omega arith
position_lem f from_start (back d) h = omega arith
position_lem f from_end move h = refl
position_lem f from_here move h = refl

origin-lt : (f : File) (w : Whence) → f.length < 2 ^ 31 → f.seek ≤ f.length → origin f w < 2 ^ 31
origin-lt f from_start h k = omega arith
origin-lt f from_end h k = h
origin-lt f from_here h k = omega arith

module _ (nvm : Nvm) (cfg : Config) where
  open nvm use {Mem}

  -- The outcome of a move to a target.
  abbrev pub moved : FileSystem Mem → File → Option ℕ → Reply ℕ × FileSystem Mem
  moved fs f none = (error Code.invalid_parameter, keep_file nvm cfg fs f)
  moved fs f (some p) =
      if leb p f.length
      then (value p, keep_file nvm cfg fs (record f { seek = p }))
      else (error Code.invalid_parameter, keep_file nvm cfg fs f)

  outcome :
      (fs : FileSystem Mem) (f : File) (t : Option ℕ) (position : ℕ)
      → f.length < 2 ^ 31
      → Stands t position
      → (if leb (2 ^ 31) position || ltb f.length position
          then (error Code.invalid_parameter, keep_file nvm cfg fs f)
          else (value position, keep_file nvm cfg fs (record f { seek = position })))
        ≡ moved fs f t
  outcome fs f none position h big =
      let t : leb (2 ^ 31) position ≡ true = ground arith in rw t refl
  outcome fs f (some p) position h at = rw at (elim (Bool-cases (leb p f.length)) [
    | inl in_file ↦
        let stay : (leb (2 ^ 31) p || ltb f.length p) ≡ false = ground arith in
        rw (in_file, stay) refl
    | inr past ↦
        let refused : (leb (2 ^ 31) p || ltb f.length p) ≡ true = ground arith in
        rw (past, refused) refl
  ])

  -- The run of `seek`, given the position that it works out.
  seek_runs :
      (fs : FileSystem Mem) (fd offset flags position : ℕ) (f : File)
      → fs.initialised ≡ true
      → find_file fs.open_files fd ≡ some f
      → f.cache_length ≡ 0
      → position_of f offset flags ≡ position
      → seek nvm cfg fs fd offset flags
        ≡ some (
            if leb (2 ^ 31) position || ltb f.length position
            then (error Code.invalid_parameter, keep_file nvm cfg fs f)
            else (value position, keep_file nvm cfg fs (record f { seek = position })))
  unfolding seek write_back
  seek_runs fs fd offset flags position f ready found clean at =
      let no_cache : (f.cache_length != 0) ≡ false = ground arith in
      simp (ready, found, no_cache, at)

  -- Where the file system is initialised, the descriptor is that of an open file with nothing in its
  -- cache, the length and the offset are below 2 ^ 31 and the position is not past the length: `seek`
  -- moves from the start, the end or the position by the offset, forward or back, and returns the new
  -- position if it lies between 0 and the length; else it returns MICROBIT_INVALID_PARAMETER and the
  -- position stays.
  pub seek_lem :
      (fs : FileSystem Mem) (fd : ℕ) (f : File) (w : Whence) (move : Move)
      → fs.initialised ≡ true
      → find_file fs.open_files fd ≡ some f
      → f.cache_length ≡ 0
      → f.length < 2 ^ 31
      → f.seek ≤ f.length
      → span move < 2 ^ 31
      → seek nvm cfg fs fd (bits move) (flag_of w) ≡ some (moved fs f (target (origin f w) move))
  seek_lem fs fd f w move ready found clean small inside near =
      let low : origin f w < 2 ^ 31 = origin-lt f w small inside in
      let at = position_lem f w move near in
      let stands = target_lem (origin f w) move low near in
      seek_runs fs fd _ _ _ f ready found clean at ∙ ap some (outcome fs f _ _ small stands)
