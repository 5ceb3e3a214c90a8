-- ===== src/FileSystem/Handle/Moves.antt =====
-- Positions in a file of source/MicroBitFile.cpp: setPosition, getPosition and append.
use codal_microbit_v2_fft.Base.{
  ℕ, ◌+◌, ◌^◌, ◌≤◌, ◌<◌, ◌≡◌, refl, subst, ◌∙◌, arith, inl, inr, true, false, Bool-cases, Option,
  some, List, [], ◌∷◌, Bytes, value, leb, ◌==◌, if◌then◌else◌,
}
use codal_microbit_v2_fft.Nvm.{Nvm}
use codal_microbit_v2_fft.FileSystem.{Config, File, FileSystem}
use codal_microbit_v2_fft.FileSystem.Data.{find_file, set_file, keep_file, write}
use codal_microbit_v2_fft.FileSystem.Open.{seek}
use codal_microbit_v2_fft.FileSystem.Open.Seeking.{
  Whence, forward, from_start, from_end, from_here, flag_of, origin, seek_lem,
}
use codal_microbit_v2_fft.FileSystem.Handle.{
  Handle, set_position, get_position, write_handle, append,
}

find_file-id : (fs : List File) (fd : ℕ) (f : File) → find_file fs fd ≡ some f → f.id ≡ fd
unfolding find_file
find_file-id [] fd f e = ground arith
find_file-id (g ∷ fs) fd f e = elim (Bool-cases (g.id == fd)) [
  | inl h ↦
      let e' = subst (λ b. (if b then some g else find_file fs fd) ≡ some f) h e in
      let same : g ≡ f = cc in let hit : g.id ≡ fd = ground arith in subst (λ x. x.id ≡ fd) same hit
  | inr h ↦ find_file-id fs fd f (subst (λ b. (if b then some g else find_file fs fd) ≡ some f) h e)
]

-- A descriptor finds the file that has been put in the place of the one it found.
find_file-set_file :
    (fs : List File) (fd : ℕ) (f f' : File)
    → find_file fs fd ≡ some f
    → f'.id ≡ fd
    → find_file (set_file fs f') fd ≡ some f'
unfolding find_file set_file
find_file-set_file [] fd f f' e same = ground arith
find_file-set_file (g ∷ fs) fd f f' e same = elim (Bool-cases (g.id == f'.id)) [
  | inl h ↦ let t : (f'.id == fd) ≡ true = ground arith in rw h (rw t refl)
  | inr h ↦
      let t : (g.id == fd) ≡ false = ground arith in
      let e' = subst (λ b. (if b then some g else find_file fs fd) ≡ some f) t e in
      rw h (rw t (find_file-set_file fs fd f f' e' same))
]

module _ (nvm : Nvm) (cfg : Config) where
  open nvm use {Mem}

  -- An open file with nothing in its cache, at a position within it.
  pub record IsAt (h : Handle) (fs : FileSystem Mem) (f : File) (fd : ℕ) : Type 0 where
    pub ready : fs.initialised ≡ true
    pub handle : h.file_handle ≡ value fd
    pub found : find_file fs.open_files fd ≡ some f
    pub clean : f.cache_length ≡ 0
    pub small : f.length < 2 ^ 31
    pub inside : f.seek ≤ f.length

  -- The position of the file is `k`.
  abbrev pub at_position : FileSystem Mem → File → ℕ → FileSystem Mem
  at_position fs f k = keep_file nvm cfg fs (record f { seek = k })

  -- A move forward that stays in the file.
  seek_within :
      (h : Handle) (fs : FileSystem Mem) (f : File) (fd d k : ℕ) (w : Whence)
      → IsAt h fs f fd
      → d < 2 ^ 31
      → origin f w + d ≡ k
      → k ≤ f.length
      → seek nvm cfg fs fd d (flag_of w) ≡ some (value k, at_position fs f k)
  seek_within h fs f fd d k w at near sum le =
      let e : leb k f.length ≡ true = ground arith in
      seek_lem nvm cfg fs fd f w (forward d) at.ready at.found at.clean at.small at.inside near
      ∙ rw (sum, e) refl

  at_position-IsAt :
      (h : Handle) (fs : FileSystem Mem) (f : File) (fd k : ℕ)
      → IsAt h fs f fd
      → k ≤ f.length
      → IsAt h (at_position fs f k) (record f { seek = k }) fd
  at_position-IsAt h fs f fd k at le = record {
    ready = at.ready;
    handle = at.handle;
    found =
        find_file-set_file fs.open_files fd f _ at.found (find_file-id fs.open_files fd f at.found);
    clean = at.clean;
    small = at.small;
    inside = le;
  }

  -- Where the file is open with nothing in its cache, its length is below 2 ^ 31 and `k` is at most the
  -- length: setPosition to `k` returns `k`, and getPosition then returns `k` again.
  pub get_position-set_position :
      (h : Handle) (fs : FileSystem Mem) (f : File) (fd k : ℕ)
      → IsAt h fs f fd
      → k ≤ f.length
      → let fs' = at_position fs f k in
        (set_position nvm cfg h fs k ≡ some (value k, fs'))
        × (get_position nvm cfg h fs' ≡ some (value k, at_position fs' (record f { seek = k }) k))
  unfolding set_position get_position
  get_position-set_position h fs f fd k at le =
      let at' = at_position-IsAt h fs f fd k at le in
      let low : leb (2 ^ 31) k ≡ false = ground (arith, at.small) in
      let goes =
        seek_within h fs f fd k k from_start at (omega (arith, at.small)) (omega arith) le in
      let stays = seek_within h _ _ fd 0 k from_here at' (omega arith) (omega arith) le in
      (rw (at.handle, low) goes, rw at.handle stays)

  -- Where the file is open with nothing in its cache and its length is below 2 ^ 31: append is write
  -- at the end of the file.
  pub append_lem :
      (h : Handle) (fs : FileSystem Mem) (f : File) (fd : ℕ) (bytes : Option Bytes) (len : ℕ)
      → IsAt h fs f fd
      → append nvm cfg h fs bytes len ≡ write nvm cfg (at_position fs f f.length) fd bytes len
  unfolding append write_handle
  append_lem h fs f fd bytes len at =
      let end =
        seek_within h fs f fd 0 f.length from_end at (omega arith) (omega arith) (omega arith) in
      rw (at.handle, end) refl
