-- ===== src/UsbFlash/Configuration.antt =====
-- The file that the MICROBIT drive shows, source/MicroBitUSBFlashManager.cpp: getConfiguration and
-- setConfiguration. A name is a list of characters; the size of the file is not negative.
pub mod Names
use codal_microbit_v2_fft.Base.{
  ℕ, zero, suc, ◌+◌, ◌-◌, ◌*◌, ◌^◌, Bool, true, false, not, ◌&&◌, ◌||◌, List, [], ◌∷◌, ◌++◌, Code,
  get_or, length, take, drop, ltb, leb, ◌==◌, ◌!=◌, if◌then◌else◌,
}
use codal_microbit_v2_fft.UsbFlash.{
  Bus, Config, Manager, transact, command, get_geometry, filename_cmd, filesize_cmd, visibility_cmd,
  write_config_cmd,
}
use codal_microbit_v2_fft.UsbFlash.Memory.{network_bytes}

abbrev pub dot : ℕ
dot = b'.'

abbrev pub space : ℕ
space = b' '

-- `isValidChar`
unfoldable pub is_valid_char : ℕ → Bool
is_valid_char c =
    leb b'0' c && leb c b'9'
    || leb b'A' c && leb c b'Z'
    || leb b'a' c && leb c b'z'
    || c == b'-'
    || c == b'_'

-- `dots`
unfoldable pub dots : List ℕ → ℕ
dots [] = 0
dots (c ∷ cs) = let rest = dots cs in if c == dot then suc rest else rest

-- `invalidChar`
unfoldable pub has_invalid_char : List ℕ → Bool
has_invalid_char [] = false
has_invalid_char (c ∷ cs) = c != dot && not (is_valid_char c) || has_invalid_char cs

-- The test of the name: 8.3, with an extension of three characters.
unfoldable pub is_file_name : List ℕ → Bool
is_file_name name = not (
    ltb (length name) 5
    || ltb 12 (length name)
    || dots name != 1
    || has_invalid_char name
    || get_or name (length name - 4) 0 != dot)

abbrev pub spaces : ℕ → List ℕ
spaces zero = []
spaces (suc n) = space ∷ spaces n

-- `fname`: the command, the name with spaces up to eight characters, and the extension.
unfoldable pub name_request : List ℕ → List ℕ
name_request name =
    let base = take (length name - 4) name in
    let padded = base ++ spaces (8 - (length name - 4)) in
    filename_cmd ∷ (padded ++ drop (length name - 3) name)

-- `b[i] = c`
unfoldable pub put_at : List ℕ → ℕ → ℕ → List ℕ
put_at [] i c = []
put_at (x ∷ xs) zero c = c ∷ xs
put_at (x ∷ xs) (suc i) c = x ∷ put_at xs i c

-- The name that `getConfiguration` takes from a response.
unfoldable pub name_of : List ℕ → List ℕ
name_of response =
    let n = take (length response - 1) (drop 1 response) in put_at n (length n - 4) dot

module _ (bus : Bus) where
  open bus use {State}

  -- `getConfiguration`
  unfoldable pub get_configuration : Manager State → Config × Manager State
  get_configuration m =
      let (named, m1) = command bus m filename_cmd in
      let (sized, m2) = command bus m1 filesize_cmd in
      let (shown, m3) = command bus m2 visibility_cmd in
      let config : Config = record {
        file_name = if ltb 5 (length named) then name_of named else m.config.file_name;
        file_size =
            2 ^ 24 * get_or sized 1 0
            + 2 ^ 16 * get_or sized 2 0
            + 2 ^ 8 * get_or sized 3 0
            + get_or sized 4 0;
        visible = get_or shown 1 0 != 0;
      } in
      if m.config_loaded
      then (m.config, m)
      else (config, record m3 { config = config; config_loaded = true })

  -- The exchanges of `setConfiguration`; the responses are not looked at.
  unfoldable pub send_configuration : Manager State → Config → Bool → Manager State
  send_configuration m config persist =
      let shown = if config.visible then 1 else 0 in
      let (b1, m1) = transact bus m (name_request config.file_name) 12 in
      let (b2, m2) = transact bus m1 (filesize_cmd ∷ network_bytes config.file_size) 2 in
      let (b3, m3) = transact bus m2 (visibility_cmd ∷ shown ∷ []) 2 in
      let (b4, m4) = command bus m3 write_config_cmd in if persist then m4 else m3

  -- `setConfiguration`
  unfoldable pub set_configuration : Manager State → Config → Bool → Code × Manager State
  set_configuration m0 config persist =
      let m = get_geometry bus m0 in
      let sent = send_configuration m config persist in
      if config.file_size == 0 || leb (m.block_size * m.block_count) config.file_size
      then (Code.invalid_parameter, m)
      else if not (is_file_name config.file_name)
      then (Code.invalid_parameter, m)
      else (Code.ok, record sent { config = config })
