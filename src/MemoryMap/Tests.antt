-- ===== src/MemoryMap/Tests.antt =====
-- Instances of the theorem on source/MicroBitMemoryMap.cpp.
use codal_microbit_v2_fft.Base.{
  ℕ, ◌+◌, ◌*◌, ◌<◌, ◌≡◌, refl, arith, Bool, true, some, none, Option, List, [], ◌∷◌, Bytes, ltb,
  ◌&&◌, update,
}
use codal_microbit_v2_fft.MemoryMap.{
  Region, MemoryMap, Layout, first_page, memory_map_init, find_hashes, find_loop, is_pxt,
  pxt_regions, python_regions, is_python, back, record_loop, process_record,
}
use codal_microbit_v2_fft.MemoryMap.Finding.{IsFound, memory_map_init-IsFound}

-- A program of 5000 bytes, and flash up to 16384.
abbrev layout : Layout
layout = record {
  page_size = 4096;
  program_end = 5000;
  scratch = 16384;
  app_start = 4096;
  app_end = 16384;
}

-- A checksum that is the length.
abbrev crc : Bytes → ℕ → ℕ
crc string n = n

-- The bytes of a list from an address on.
abbrev overlay : List ℕ → ℕ → Bytes → Bytes
overlay [] a f = f
overlay (b ∷ bs) a f = update (overlay bs (a + 1) f) a b

abbrev all_positive : List ℕ → Bool
all_positive [] = true
all_positive (b ∷ bs) = ltb 0 b && all_positive bs

overlay-positive :
    (bs : List ℕ) (a : ℕ) (f : Bytes)
    → all_positive bs ≡ true
    → ((i : ℕ) → 0 < f i)
    → (i : ℕ) → 0 < overlay bs a f i
overlay-positive [] a f e positive i = positive i
overlay-positive (b ∷ bs) a f e positive i =
    let more : all_positive bs ≡ true → 0 < overlay bs (a + 1) f i =
      λ h. overlay-positive bs (a + 1) f h positive i in
    ground arith

-- The mark of PXT, and the footer of a Python build with one record.
abbrev pxt_mark : List ℕ
pxt_mark =
    0x70 ∷ 0x8E ∷ 0x3B ∷ 0x92 ∷ 0xC6 ∷ 0x15 ∷ 0xA8 ∷ 0x41 ∷ 0xC4 ∷ 0x98 ∷ 0x66 ∷ 0xC9 ∷ 0x75 ∷ 0xEE
    ∷ 0x51 ∷ 0x97 ∷ []

abbrev python_footer : List ℕ
python_footer =
    0xFE ∷ 0x30 ∷ 0x7F ∷ 0x59 ∷ 7 ∷ 7 ∷ 7 ∷ 7 ∷ 1 ∷ 7 ∷ 7 ∷ 7 ∷ 0x9D ∷ 0xD7 ∷ 0xB1 ∷ 0xC1 ∷ []

-- A flash with 7 in every byte but a Python build before 8192, whose record has id 1, and the mark of
-- PXT at 12288.
abbrev with_python : Bytes
with_python = overlay python_footer 8176 (overlay (1 ∷ []) 8160 (λ _. 7))

abbrev flash : Bytes
flash = overlay pxt_mark 12288 with_python

-- The member of one of the regions that the constructor finds.
abbrev found : Bytes → (Region → ℕ) → ℕ → Option ℕ
found image member i = elim (memory_map_init layout image crc) [
  | none ↦ none
  | some s ↦ some (member (s.memory_map i))
]

-- MakeCode's region starts at the mark; without it there is only that of the Python record.
makecode_start : found flash (λ r. r.start_address) 2 ≡ some 12288
unfolding memory_map_init find_hashes find_loop first_page is_pxt pxt_regions
makecode_start = refl

python_id : found with_python (λ r. r.region_id) 0 ≡ some 1
unfolding memory_map_init find_hashes find_loop first_page is_pxt python_regions is_python
    record_loop process_record
python_id = refl

flash-positive : (i : ℕ) → 0 < flash i
flash-positive = overlay-positive pxt_mark 12288 with_python refl (
    overlay-positive python_footer 8176 _ refl
      (overlay-positive (1 ∷ []) 8160 (λ _. 7) refl (λ i. omega arith)))

memory_map_init-IsFound_example :
    (s : MemoryMap) × (memory_map_init layout flash crc ≡ some s) × IsFound layout flash crc 8192 s
unfolding first_page
memory_map_init-IsFound_example =
    memory_map_init-IsFound layout flash crc (omega arith)
      (λ a python i below. flash-positive (back a ((2 + i) * 16)))
