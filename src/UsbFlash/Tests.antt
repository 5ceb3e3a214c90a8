-- ===== src/UsbFlash/Tests.antt =====
-- Instances of the theorems on source/MicroBitUSBFlashManager.cpp, over a chip with 8 blocks of 1024
-- bytes that acts on a request when its response is read.
use codal_microbit_v2_fft.Base.{
  ℕ, suc, ◌+◌, ◌-◌, ◌*◌, ◌%◌, ◌^◌, ◌≤◌, ◌<◌, ◌≡◌, ◌⊎◌, refl, ap, ap₂, ◌∙◌, inl, inr, Bool-cases,
  arith, true, false, some, List, [], ◌∷◌, ◌++◌, Bytes, Code, of_list, slice, within, length, drop,
  get_or, ◌==◌, if◌then◌else◌, bit_and,
}
use codal_microbit_v2_fft.Base.Bits.{bit_or_apart, bit_and-le}
use codal_microbit_v2_fft.UsbFlash.{
  Bus, Manager, sector_size_cmd, disk_size_cmd, transact, max_retries,
}
use codal_microbit_v2_fft.UsbFlash.Memory.{
  read_cmd, write_cmd, erase_cmd, header, erase, read, write,
}
use codal_microbit_v2_fft.UsbFlash.Chip.{Chip, header_first}
use codal_microbit_v2_fft.UsbFlash.Writing.{of_list-slice, length-slice}
use codal_microbit_v2_fft.UsbFlash.Configuration.{
  dot, is_valid_char, dots, has_invalid_char, is_file_name, name_request, name_of,
}
use codal_microbit_v2_fft.UsbFlash.Configuration.Names.{name_of-name_request}
use codal_microbit_v2_fft.UsbFlash.Exchange.{Counter, transact-Answers}
use codal_microbit_v2_fft.UsbFlash.Erasing.Storing.{stored, read-write-erase}
use codal_microbit_v2_fft.UsbFlash.Erasing.Whole.{blanked, erase_lem}

-- The cells, taken mod 256, the request that waits, and how many have been sent.
record Device : Type 0 where
  cells : Bytes
  request : List ℕ
  count : ℕ

abbrev cell_of : Device → Bytes
cell_of s x = s.cells x % 256

abbrev address_of : List ℕ → ℕ
address_of r = get_or r 1 0 * 2 ^ 16 + get_or r 2 0 * 2 ^ 8 + get_or r 3 0

abbrev written_cells : Bytes → ℕ → List ℕ → Bytes
written_cells f a d x =
    if within a (a + length d) x then bit_and (f x % 256) (of_list d (x - a)) else f x

abbrev acted : Device → ℕ → ℕ → List ℕ → Bytes
acted s cmd a d x =
    if cmd == write_cmd
    then written_cells s.cells a d x
    else if cmd == erase_cmd
    then (if within a (a + 1024) x then 255 else s.cells x)
    else s.cells x

abbrev act : Device → List ℕ → Device
act s r = record s { cells = acted s (get_or r 0 0) (address_of r) (drop 8 r) }

abbrev reply : Device → List ℕ → ℕ → ℕ → ℕ → List ℕ
reply s r cmd a n =
    if cmd == read_cmd
    then r ++ slice (cell_of s) a n
    else if cmd == sector_size_cmd
    then sector_size_cmd ∷ 4 ∷ 0 ∷ []
    else if cmd == disk_size_cmd
    then disk_size_cmd ∷ 8 ∷ []
    else cmd ∷ []

abbrev device_bus : Bus
device_bus = record {
  State = Device;
  send = λ s r. (true, record s { request = r; count = suc s.count });
  active = λ s. (true, s);
  receive = λ s n. (
    some (reply s s.request (get_or s.request 0 0) (address_of s.request) (n - 8)),
    act s s.request,
  );
}

address_of-header : (cmd a n : ℕ) (d : List ℕ) → a < 2 ^ 24 → address_of (header cmd a n ++ d) ≡ a
address_of-header cmd a n d small = omega (arith, bit_or_apart 24 cmd a small)

first-header :
    (cmd a n : ℕ) (d : List ℕ) → cmd < 256 → a < 2 ^ 24 → get_or (header cmd a n ++ d) 0 0 ≡ cmd
first-header cmd a n d known small = header_first cmd a n known small

-- A request with a header is taken for what it says.
reply-header :
    (s : Device) (cmd a n : ℕ) (d : List ℕ) (k : ℕ)
    → cmd < 256
    → a < 2 ^ 24
    → let r = header cmd a n ++ d in reply s r (get_or r 0 0) (address_of r) k ≡ reply s r cmd a k
reply-header s cmd a n d k known small =
    ap₂ (λ c b. reply s (header cmd a n ++ d) c b k) (first-header cmd a n d known small)
      (address_of-header cmd a n d small)

acted-header :
    (s : Device) (cmd a n : ℕ) (d : List ℕ) (x : ℕ)
    → cmd < 256
    → a < 2 ^ 24
    → let r = header cmd a n ++ d in cell_of (act s r) x ≡ acted s cmd a d x % 256
acted-header s cmd a n d x known small =
    ap₂ (λ c b. acted s c b d x % 256) (first-header cmd a n d known small)
      (address_of-header cmd a n d small)

masked_byte :
    (f d : Bytes) (a n x : ℕ)
    → written_cells f a (slice d 0 n) x % 256
      ≡ (if within a (a + n) x then bit_and (f x % 256) (d (x - a)) else f x % 256)
masked_byte f d a n x =
    let put : ℕ → ℕ → ℕ = λ k v. if within a (a + k) x then bit_and (f x % 256) v else f x in
    let v = bit_and (f x % 256) (d (x - a)) in
    let small : v % 256 ≡ v = omega (arith, bit_and-le (f x % 256) (d (x - a))) in
    ap (λ k. put k (of_list (slice d 0 n) (x - a)) % 256) (length-slice d 0 n)
    ∙ elim (Bool-cases (within a (a + n) x)) [
      | inl e ↦
          let below : x - a < n = ground arith in
          let source : of_list (slice d 0 n) (x - a) ≡ d (x - a) =
            of_list-slice d 0 n (x - a) below ∙ ap d (omega arith) in
          rw e (ap (λ v. bit_and (f x % 256) v % 256) source ∙ small)
      | inr e ↦ rw e refl
    ]

erased_byte :
    (f : Bytes) (a x : ℕ)
    → (if within a (a + 1024) x then 255 else f x) % 256
      ≡ (if within a (a + 1024) x then 255 else f x % 256)
erased_byte f a x = ground arith

abbrev device_chip : Chip device_bus
device_chip = record {
  cell = cell_of;
  size = 1024;
  count = 8;
  pending = λ s r. record s { request = r; count = suc s.count };
  answer = λ s r n. reply s r (get_or r 0 0) (address_of r) (n - 8);
  done = λ s r n. act (record s { request = r; count = suc s.count }) r;
  acknowledged = λ s r. refl;
  ready = λ s r. refl;
  responds = λ s r n. refl;
  bytes = λ s x. omega arith;
  tells_size = λ s. (refl, λ x. refl);
  tells_count = λ s. (refl, λ x. refl);
  reads = λ s a n small. (
    reply-header s read_cmd a n [] (n + 8 - 8) (omega arith) small
        ∙ ap (λ k. header read_cmd a n ++ slice (cell_of s) a k) (omega arith),
    λ x. acted-header s read_cmd a n [] x (omega arith) small,
  );
  writes = λ s a n d small.
      let r = header write_cmd a n ++ slice d 0 n in
      (
        ap (λ o. get_or o 0 0) (reply-header s write_cmd a n (slice d 0 n) 1 (omega arith) small),
        λ x.
            acted-header s write_cmd a n (slice d 0 n) x (omega arith) small
            ∙ masked_byte s.cells d a n x,
      );
  erases = λ s a small aligned. (
    ap (λ o. get_or o 0 0) (reply-header s erase_cmd a a [] 0 (omega arith) small),
    λ x. acted-header s erase_cmd a a [] x (omega arith) small ∙ erased_byte s.cells a x,
  );
}

-- A manager that knows nothing yet, over a chip with 7 everywhere.
abbrev fresh : Manager Device
fresh = record {
  outside = record { cells = λ _. 7; request = []; count = 0 };
  geometry_loaded = false;
  config_loaded = false;
  block_size = 0;
  block_count = 0;
  config = record { file_name = []; file_size = 0; visible = false };
  awaiting = true;
}

-- Three words in the second block.
erase_lem_example :
    (m' : Manager Device) × (erase device_bus fresh 1028 3 ≡ some (Code.ok, m'))
    × ((x : ℕ) → m'.outside.cells x % 256 ≡ blanked (λ _. 7) 1028 1040 x)
erase_lem_example =
    erase_lem device_bus device_chip fresh 1028 3 (omega arith) refl (omega arith) (omega arith)
      (inl refl) refl (omega arith) (omega arith)

abbrev text : Bytes
text i = i % 256

-- Three words across the border between the second block and the third.
read-write-erase_example :
    (m1 : Manager Device) × (m2 : Manager Device) × (m3 : Manager Device) × (erase device_bus fresh
        2044 3
      ≡ some (Code.ok, m1))
    × (write device_bus m1 2044 text 3 ≡ (Code.ok, m2))
    × (read device_bus m2 2044 3 ≡ (slice text 0 12, m3))
    × ((x : ℕ) → m3.outside.cells x % 256 ≡ stored (λ _. 7) 2044 12 text x)
read-write-erase_example =
    read-write-erase device_bus device_chip fresh 2044 3 text (omega arith) refl (omega arith)
      (omega arith) (inl refl) (λ i. omega arith) refl (omega arith) (omega arith)

sends : Counter device_bus (λ (s : Device). s.count)
sends = record {
  send_one = λ s r. omega arith;
  active_none = λ s. omega arith;
  receive_none = λ s n. omega arith;
}

transact-Answers_example :
    let (response, m') = transact device_bus fresh (disk_size_cmd ∷ []) 2 in
    (m'.outside.count ≤ 0 + max_retries)
    × ((response ≡ []) ⊎ (get_or response 0 0 ≡ disk_size_cmd))
    × (m' ≡ record fresh { outside = m'.outside; awaiting = false })
transact-Answers_example =
    transact-Answers device_bus (λ (s : Device). s.count) sends fresh (disk_size_cmd ∷ []) 2

-- "FIRMWARE.HEX" comes back as "FIRMWAR.HEX".
abbrev firmware : List ℕ
firmware = b'F' ∷ b'I' ∷ b'R' ∷ b'M' ∷ b'W' ∷ b'A' ∷ b'R' ∷ b'E' ∷ dot ∷ b'H' ∷ b'E' ∷ b'X' ∷ []

name_of-name_request_example :
    name_of (name_request firmware)
    ≡ b'F' ∷ b'I' ∷ b'R' ∷ b'M' ∷ b'W' ∷ b'A' ∷ b'R' ∷ dot ∷ b'H' ∷ b'E' ∷ b'X' ∷ []
unfolding is_file_name dots has_invalid_char is_valid_char
name_of-name_request_example = name_of-name_request firmware refl
