-- ===== src/UsbFlash/Chip.antt =====
-- A USB interface chip that works, behind the bus of source/MicroBitUSBFlashManager.cpp: each request
-- is acknowledged, the line becomes active, and the response is that of the protocol. The storage is
-- flash: a write clears bits, an erase sets a block to 0xFF.
use codal_microbit_v2_fft.Base.{
  ℕ, suc, ◌+◌, ◌-◌, ◌/◌, ◌%◌, ◌^◌, ◌<◌, ◌≡◌, ap, ◌∙◌, arith, true, false, some, List, [], ◌∷◌, ◌++◌,
  Bytes, get_or, length, slice, within, ◌==◌, if◌then◌else◌, bit_and,
}
use codal_microbit_v2_fft.Base.Bits.{bit_or_apart}
use codal_microbit_v2_fft.UsbFlash.{
  Bus, Manager, writing, poll, transact_loop, transact, disk_size_cmd, sector_size_cmd,
}
use codal_microbit_v2_fft.UsbFlash.Memory.{read_cmd, write_cmd, erase_cmd, header}

pub record Chip (bus : Bus) : Type 1 where
  -- The cells of the storage, and its geometry.
  pub cell : bus.State → ℕ → ℕ
  pub size : ℕ
  pub count : ℕ
  -- What is outside when a request has been sent, the response of so many bytes, and what is outside
  -- then.
  pub pending : bus.State → List ℕ → bus.State
  pub answer : bus.State → List ℕ → ℕ → List ℕ
  pub done : bus.State → List ℕ → ℕ → bus.State
  pub acknowledged : (s : bus.State) (r : List ℕ) → bus.send s r ≡ (true, pending s r)
  pub ready : (s : bus.State) (r : List ℕ) → bus.active (pending s r) ≡ (true, pending s r)
  pub responds :
      (s : bus.State) (r : List ℕ) (n : ℕ)
      → bus.receive (pending s r) n ≡ (some (answer s r n), done s r n)
  pub bytes : (s : bus.State) (x : ℕ) → cell s x < 256
  -- The protocol.
  pub tells_size :
      (s : bus.State)
      → (answer s (sector_size_cmd ∷ []) 3 ≡ sector_size_cmd ∷ size / 256 ∷ size % 256 ∷ [])
        × ((x : ℕ) → cell (done s (sector_size_cmd ∷ []) 3) x ≡ cell s x)
  pub tells_count :
      (s : bus.State)
      → (answer s (disk_size_cmd ∷ []) 2 ≡ disk_size_cmd ∷ count ∷ [])
        × ((x : ℕ) → cell (done s (disk_size_cmd ∷ []) 2) x ≡ cell s x)
  pub reads :
      (s : bus.State) (a n : ℕ)
      → a < 2 ^ 24
      → let r = header read_cmd a n in
        (answer s r (n + 8) ≡ r ++ slice (cell s) a n)
        × ((x : ℕ) → cell (done s r (n + 8)) x ≡ cell s x)
  pub writes :
      (s : bus.State) (a n : ℕ) (d : Bytes)
      → a < 2 ^ 24
      → let r = header write_cmd a n ++ slice d 0 n in
        (get_or (answer s r 9) 0 0 ≡ write_cmd)
        × ((x : ℕ)
            → cell (done s r 9) x
              ≡ (if within a (a + n) x then bit_and (cell s x) (d (x - a)) else cell s x))
  pub erases :
      (s : bus.State) (a : ℕ)
      → a < 2 ^ 24
      → a % size ≡ 0
      → let r = header erase_cmd a a in
        (get_or (answer s r 1) 0 0 ≡ erase_cmd)
        × ((x : ℕ) → cell (done s r 1) x ≡ (if within a (a + size) x then 255 else cell s x))

pub header_first : (cmd a n : ℕ) → cmd < 256 → a < 2 ^ 24 → get_or (header cmd a n) 0 0 ≡ cmd
header_first cmd a n h small = omega (arith, bit_or_apart 24 cmd a small)

-- A buffer that begins with a byte other than 0 has a byte.
pub length-first : (b : List ℕ) (c : ℕ) → 0 < c → get_or b 0 0 ≡ c → (length b == 0) ≡ false
length-first [] c pos e = absurd (omega arith)
length-first (x ∷ b) c pos e = ground arith

module _ (bus : Bus) (chip : Chip bus) where
  open bus use {State, active, receive}
  open chip use {answer, done, acknowledged, ready, responds}

  -- Behind an exchange.
  abbrev pub exchanged : Manager State → List ℕ → ℕ → Manager State
  exchanged m r n = record m { outside = done m.outside r n; awaiting = false }

  first_try :
      (left : ℕ) (s : State) (r : List ℕ) (n : ℕ)
      → get_or (answer s r n) 0 0 ≡ get_or r 0 0
      → transact_loop bus (suc left) writing s r n ≡ (answer s r n, done s r n)
  unfolding transact_loop poll
  first_try left s r n e =
      let same : (get_or (answer s r n) 0 0 == get_or r 0 0) ≡ true = ground arith in
      let whole =
        ap (λ t. receive (active t.1).1 n) (acknowledged s r)
        ∙ (ap (λ t. receive t.1 n) (ready s r) ∙ responds s r n) in
      rw (acknowledged s r, ready s r, responds s r n, same) (ap (λ t. (answer s r n, t.1)) whole)

  pub transact_lem :
      (m : Manager State) (r : List ℕ) (n : ℕ)
      → get_or (answer m.outside r n) 0 0 ≡ get_or r 0 0
      → transact bus m r n ≡ (answer m.outside r n, exchanged m r n)
  unfolding transact
  transact_lem m r n e =
      ap (λ o. (o.0, record m { outside = o.1; awaiting = false })) (first_try 19 m.outside r n e)
