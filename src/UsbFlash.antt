-- ===== src/UsbFlash.antt =====
-- source/MicroBitUSBFlashManager.cpp: the storage behind the MICROBIT drive, in the USB interface
-- chip. This file has the exchange of requests and responses over I2C, and what is asked of the chip
-- in one of them. A buffer of bytes is a list.
pub mod Memory
pub mod Configuration
pub mod Exchange
pub mod Chip
pub mod Writing
pub mod Erasing
mod Tests
use codal_microbit_v2_fft.Base.{
  ℕ, zero, suc, ◌+◌, ◌*◌, Bool, false, ◌&&◌, Option, none, some, List, [], ◌∷◌, get_or, length, ltb,
  ◌==◌, if◌then◌else◌,
}

-- The command codes of the protocol, and MICROBIT_USB_FLASH_MAX_RETRIES
abbrev pub filename_cmd : ℕ
filename_cmd = 0x01

abbrev pub filesize_cmd : ℕ
filesize_cmd = 0x02

abbrev pub visibility_cmd : ℕ
visibility_cmd = 0x03

abbrev pub write_config_cmd : ℕ
write_config_cmd = 0x04

abbrev pub erase_config_cmd : ℕ
erase_config_cmd = 0x05

abbrev pub disk_size_cmd : ℕ
disk_size_cmd = 0x06

abbrev pub sector_size_cmd : ℕ
sector_size_cmd = 0x07

abbrev pub remount_cmd : ℕ
remount_cmd = 0x08

abbrev pub max_retries : ℕ
max_retries = 20

-- `usbFlashPropertyLength`, 0 for other keys
abbrev pub property_length : ℕ → ℕ
property_length c =
    if c == filename_cmd
    then 12
    else if c == filesize_cmd
    then 5
    else if c == sector_size_cmd
    then 3
    else if c == visibility_cmd
    then 2
    else if c == disk_size_cmd
    then 2
    else if c == write_config_cmd
    then 1
    else if c == erase_config_cmd
    then 1
    else if c == remount_cmd
    then 1
    else 0

-- The I2C bus and the interrupt line of codal-core, with the chip behind them: whether a write is
-- acknowledged, whether the line is active, and what a read gives, `none` for an error. Each takes
-- the state of what is outside and gives the one after it.
pub record Bus : Type 1 where
  pub State : Type 0
  pub send : State → List ℕ → Bool × State
  pub active : State → Bool × State
  pub receive : State → ℕ → Option (List ℕ) × State

-- `MicroBitUSBFlashConfig`
pub record Config : Type 0 where
  pub file_name : List ℕ
  pub file_size : ℕ
  pub visible : Bool

-- The members, the bits of `status`, and `awaitingPacket` of the power manager.
pub record Manager (State : Type 0) : Type 0 where
  pub outside : State
  pub geometry_loaded : Bool
  pub config_loaded : Bool
  pub block_size : ℕ
  pub block_count : ℕ
  pub config : Config
  pub awaiting : Bool

-- Where `transact` is: about to write the request, or waiting for the line.
pub data Phase : Type 0 where
  writing waiting : Phase

module _ (bus : Bus) where
  open bus use {State, send, active, receive}

  -- One round of the inner loop of `transact`: `resend` is the outer loop, `wait` the inner one.
  unfoldable pub poll :
      (State → List ℕ × State) → (State → List ℕ × State) → State → ℕ → ℕ → List ℕ × State
  poll resend wait s first len =
      let (is_active, s1) = active s in
      let (response, s2) = receive s1 len in
      let got : List ℕ × State = elim response [
        | none ↦ resend s2
        | some b ↦ if get_or b 0 0 == first then (b, s2) else resend s2
      ] in
      if is_active then got else wait s1

  -- The loops of `transact`, with `left` attempts to go.
  unfoldable pub transact_loop : ℕ → Phase → State → List ℕ → ℕ → List ℕ × State
  transact_loop zero phase s request len = ([], s)
  transact_loop (suc left) writing s request len =
      let resend = λ (t : State). transact_loop left writing t request len in
      let wait = λ (t : State). transact_loop left waiting t request len in
      let (acknowledged, s1) = send s request in
      if acknowledged then poll resend wait s1 (get_or request 0 0) len else resend s1
  transact_loop (suc left) waiting s request len =
      let resend = λ (t : State). transact_loop left writing t request len in
      let wait = λ (t : State). transact_loop left waiting t request len in
      poll resend wait s (get_or request 0 0) len

  -- `transact`; at its end no packet is awaited.
  unfoldable pub transact : Manager State → List ℕ → ℕ → List ℕ × Manager State
  transact m request len =
      let (response, s) = transact_loop max_retries writing m.outside request len in
      (response, record m { outside = s; awaiting = false })

  -- `transact` of a command alone
  unfoldable pub command : Manager State → ℕ → List ℕ × Manager State
  command m c = transact m (c ∷ []) (property_length c)

  -- The part of `getGeometry` behind the second response, with whether there was a first.
  unfoldable pub with_disk_size : Bool → List ℕ × Manager State → Manager State
  with_disk_size sized (response, m) =
      let counted = ltb 0 (length response) in
      record m {
        block_count = if counted then get_or response 1 0 else m.block_count;
        geometry_loaded = sized && counted;
      }

  -- The part behind the first response.
  unfoldable pub with_sector_size : List ℕ × Manager State → Manager State
  with_sector_size (response, m) =
      let sized = ltb 0 (length response) in
      let size = 256 * get_or response 1 0 + get_or response 2 0 in
      let m' = record m { block_size = if sized then size else m.block_size } in
      with_disk_size sized (command m' disk_size_cmd)

  -- `getGeometry`
  unfoldable pub get_geometry : Manager State → Manager State
  get_geometry m =
      let loaded = with_sector_size (command m sector_size_cmd) in
      if m.geometry_loaded then m else loaded

  -- `remount` and `eraseConfig`; the response is not looked at.
  unfoldable pub remount : Manager State → Manager State
  remount m = let (response, m') = transact m (remount_cmd ∷ []) 1 in m'

  unfoldable pub erase_config : Manager State → Manager State
  erase_config m = let (response, m') = transact m (erase_config_cmd ∷ []) 1 in m'

  -- `getFlashEnd` and `getFlashSize`, and `getPageSize`
  unfoldable pub get_flash_end : Manager State → ℕ × Manager State
  get_flash_end m = let m' = get_geometry m in (m'.block_size * m'.block_count, m')

  unfoldable pub get_page_size : Manager State → ℕ × Manager State
  get_page_size m = let m' = get_geometry m in (m'.block_size, m')
