-- ===== src/FileSystem/Open/Ids.antt =====
-- The ids that `open` of source/MicroBitFileSystem.cpp gives out.
use mathlib.Core.Logic.{◌≢◌}
use codal_microbit_v2_fft.Base.{
  ℕ, zero, suc, ◌+◌, ◌*◌, ◌≤◌, ◌<◌, ◌≡◌, refl, sym, subst, ◌∙◌, arith, false, inl, inr, Bool-cases,
  Option, none, some, List, [], ◌∷◌, ◌++◌, append-nil, append_assoc, length, leb, ◌==◌,
  if◌then◌else◌,
}
use codal_microbit_v2_fft.FileSystem.{File}
use codal_microbit_v2_fft.FileSystem.Open.{id_loop, id_rounds, choose_id}

-- No file of a chain has the entry or the id.
abbrev pub AreApart : List File → ℕ → ℕ → Type 0
AreApart [] dirent id = Unit
AreApart (f ∷ fs) dirent id = (f.dirent ≢ dirent) × (f.id ≢ id) × AreApart fs dirent id

-- Some file of a chain has the entry.
abbrev pub IsOpen : List File → ℕ → Type 0
IsOpen all dirent =
    (before : List File) × (f : File) × (after : List File) × (all ≡ before ++ f ∷ after)
    × (f.dirent ≡ dirent)

-- What the loop is to find: `none` for an entry that is open, else an id that is free.
abbrev pub Chosen : List File → ℕ → Option ℕ → Type 0
Chosen all dirent none = IsOpen all dirent
Chosen all dirent (some id) = AreApart all dirent id

-- How many files have an id that is not below a given one.
at_least : ℕ → List File → ℕ
at_least id [] = 0
at_least id (f ∷ fs) = (if leb id f.id then 1 else 0) + at_least id fs

at_least_bound : (id : ℕ) (fs : List File) → at_least id fs ≤ length fs
unfolding at_least
at_least_bound id [] = omega arith
at_least_bound id (f ∷ fs) = ground (arith, at_least_bound id fs)

at_least_mono : (id : ℕ) (fs : List File) → at_least (id + 1) fs ≤ at_least id fs
unfolding at_least
at_least_mono id [] = omega arith
at_least_mono id (f ∷ fs) = ground (arith, at_least_mono id fs)

at_least_drop :
    (id : ℕ) (before : List File) (f : File) (after : List File)
    → f.id ≡ id
    → at_least (id + 1) (before ++ f ∷ after) < at_least id (before ++ f ∷ after)
unfolding at_least
at_least_drop id [] f after e = ground (arith, at_least_mono id after)
at_least_drop id (g ∷ before) f after e = ground (arith, at_least_drop id before f after e)

AreApart-append :
    (before : List File) (f : File) (dirent id : ℕ)
    → AreApart before dirent id
    → f.dirent ≢ dirent
    → f.id ≢ id
    → AreApart (before ++ f ∷ []) dirent id
AreApart-append [] f dirent id a d i = (d, i, tt)
AreApart-append (g ∷ before) f dirent id a d i =
    (a.0, a.1, AreApart-append before f dirent id a.2 d i)

fewer_rounds : (a b n rounds : ℕ) → a < b → b * (n + 1) ≤ rounds → a * (n + 1) + n < rounds
fewer_rounds a b n rounds h k = grind arith

-- The loop, after the files `before`.
id_loop_lem :
    (rounds : ℕ) (all before files : List File) (dirent id : ℕ)
    → all ≡ before ++ files
    → AreApart before dirent id
    → at_least id all * (length all + 1) + length files < rounds
    → (r : Option ℕ) × (id_loop rounds all files dirent id ≡ some r) × Chosen all dirent r
unfolding id_loop
id_loop_lem zero all before files dirent id split apart enough = absurd (omega arith)
id_loop_lem (suc rounds) all before [] dirent id split apart enough =
    (some id, refl, subst (λ xs. AreApart xs dirent id) (sym (split ∙ append-nil before)) apart)
id_loop_lem (suc rounds) all before (f ∷ files) dirent id split apart enough =
    elim (Bool-cases (f.dirent == dirent)) [
      | inl same ↦ (none, rw same refl, (before, f, files, split, ground arith))
      | inr other ↦ elim (Bool-cases (f.id == id)) [
        | inl taken ↦
            let fewer : at_least (id + 1) all < at_least id all =
              rw split (at_least_drop id before f files (ground arith)) in
            rw (other, taken)
              (id_loop_lem rounds all [] all dirent (id + 1) refl tt
                (fewer_rounds _ _ _ _ fewer (omega arith)))
        | inr free ↦
            rw (other, free)
              (id_loop_lem rounds all (before ++ f ∷ []) files dirent id
                (split ∙ sym (append_assoc before (f ∷ []) files))
                (AreApart-append before f dirent id apart (ground arith) (ground arith))
                (omega arith))
      ]
    ]

-- For an entry that exists the walk over the open files ends, and it refuses the entry just when a
-- file is open on it: else it gives an id that no open file has.
pub choose_id_lem :
    (all : List File) (dirent : ℕ)
    → dirent ≢ 0
    → (r : Option ℕ) × (choose_id all dirent ≡ some r) × Chosen all dirent r
unfolding choose_id
choose_id_lem all dirent exists =
    let some_entry : (dirent == 0) ≡ false = ground arith in
    rw some_entry (
      id_loop_lem (id_rounds all) all [] all dirent 0 refl tt
        (fewer_rounds _ (length all + 1) _ _ (omega (arith, at_least_bound 0 all)) (omega arith)))
