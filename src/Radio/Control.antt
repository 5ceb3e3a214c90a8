-- ===== src/Radio/Control.antt =====
-- enable, disable, setSleep, setGroup, setTransmitPower and setFrequencyBand of
-- source/MicroBitRadio.cpp: the state they keep beside the queues of Radio, and the registers they
-- write. The loops that wait for EVENTS_HFCLKSTARTED, EVENTS_READY and EVENTS_DISABLED wait for the
-- hardware alone, and are left out with the tasks they wait for. PACKETPTR is always the receive buffer.
pub mod Enabling
pub mod Sleeping
pub mod Kept
pub mod Ready
pub mod Steps
mod Tests
use codal_microbit_v2_fft.Base.{
  ℕ, ◌+◌, ◌-◌, ◌||◌, Bool, true, false, Option, none, some, List, [], ◌∷◌, Code, Bytes, of_list,
  bit_or, ltb, leb, if◌then◌else◌,
}
use codal_microbit_v2_fft.Radio.{Frame, Radio, fresh_frame, max_packet_size, header_size, send}

-- The constants of the chip's headers that `enable` writes: RADIO_MODE_MODE_Nrf_1Mbit,
-- RADIO_CRCCNF_LEN_Two and RADIO_SHORTS_ADDRESS_RSSISTART_Msk.
pub record Transceiver : Type 0 where
  pub mode_1mbit : ℕ
  pub crc_two : ℕ
  pub rssi_start : ℕ

-- The registers of the transceiver, as last written
pub record Registers : Type 0 where
  pub tx_power : ℕ
  pub frequency : ℕ
  pub mode : ℕ
  pub base0 : ℕ
  pub prefix0 : ℕ
  pub tx_address : ℕ
  pub rx_addresses : ℕ
  pub pcnf0 : ℕ
  pub pcnf1 : ℕ
  pub crc_cnf : ℕ
  pub crc_init : ℕ
  pub crc_poly : ℕ
  pub data_white_iv : ℕ
  pub int_enset : ℕ
  pub shorts : ℕ

-- MicroBitRadio with its `group` and the bits of `status` but for that of `radio`: `idle_tick` is
-- DEVICE_COMPONENT_STATUS_IDLE_TICK, `sleep_init` and `sleep_irq` are those of DEEPSLEEP_INIT and
-- DEEPSLEEP_IRQ. `irq_pending` is of RADIO_IRQn; `is_started` is whether the
-- transceiver has been started since it was disabled.
pub record Control : Type 0 where
  pub radio : Radio
  pub group : ℕ
  pub idle_tick : Bool
  pub sleep_init : Bool
  pub sleep_irq : Bool
  pub irq_pending : Bool
  pub is_started : Bool
  pub registers : Registers

-- MICROBIT_RADIO_POWER_LEVEL and the number of its levels
abbrev pub power_level : Bytes
power_level = of_list (216 ∷ 216 ∷ 236 ∷ 240 ∷ 244 ∷ 248 ∷ 252 ∷ 0 ∷ 3 ∷ 4 ∷ [])

abbrev pub power_levels : ℕ
power_levels = 10

-- MICROBIT_RADIO_DEFAULT_TX_POWER, MICROBIT_RADIO_DEFAULT_FREQUENCY and MICROBIT_RADIO_BASE_ADDRESS
abbrev pub default_tx_power : ℕ
default_tx_power = 7

abbrev pub default_frequency : ℕ
default_frequency = 7

abbrev pub base_address : ℕ
base_address = 1969383796

-- `setTransmitPower`, for a power that is not negative
pub set_transmit_power : Control → ℕ → Code × Control
set_transmit_power c power =
    if leb power_levels power
    then (Code.invalid_parameter, c)
    else (Code.ok, record c { registers = record c.registers { tx_power = power_level power } })

-- `setFrequencyBand`, for a band that is not negative
pub set_frequency_band : Control → ℕ → Code × Control
set_frequency_band c band =
    if c.radio.ble_running
    then (Code.not_supported, c)
    else if ltb 100 band
    then (Code.invalid_parameter, c)
    else (Code.ok, record c { registers = record c.registers { frequency = band } })

-- `setGroup`
pub set_group : Control → ℕ → Code × Control
set_group c g =
    if c.radio.ble_running
    then (Code.not_supported, c)
    else (Code.ok, record c { group = g; registers = record c.registers { prefix0 = g } })

-- The receive buffer after the first tests of `enable`; `allocates` is whether `new` returns one.
abbrev pub receive_buffer : Bool → Option Frame → Option Frame
receive_buffer allocates (some f) = some f
receive_buffer allocates none = if allocates then some fresh_frame else none

-- The rest of `enable`, with the receive buffer
abbrev pub start_up : Transceiver → Control → Option Frame → Code × Control
start_up chip c none = (Code.no_resources, c)
start_up chip c (some f) =
    let c1 : Control = record c { radio = record c.radio { rx_buf = some f } } in
    let c2 = (set_transmit_power c1 default_tx_power).1 in
    let c3 = (set_frequency_band c2 default_frequency).1 in
    let c4 : Control = record c3 {
      registers = record c3.registers { mode = chip.mode_1mbit; base0 = base_address };
    } in
    let c5 = (set_group c4 c4.group).1 in
    (
      Code.ok,
      record c5 {
        registers = record c5.registers {
          tx_address = 0;
          rx_addresses = 1;
          pcnf0 = 8;
          pcnf1 = bit_or 33816576 max_packet_size;
          crc_cnf = chip.crc_two;
          crc_init = 65535;
          crc_poly = 69665;
          data_white_iv = 24;
          int_enset = 8;
          shorts = bit_or c5.registers.shorts chip.rssi_start;
        };
        irq_pending = false;
        is_started = true;
        idle_tick = true;
        radio = record c5.radio { irq_enabled = true; initialised = true };
      },
    )

-- `enable`
pub enable : Transceiver → Bool → Control → Code × Control
enable chip allocates c =
    if c.radio.initialised
    then (Code.ok, c)
    else if c.radio.ble_running
    then (Code.not_supported, c)
    else start_up chip c (receive_buffer allocates c.radio.rx_buf)

-- `disable`
pub disable : Control → Code × Control
disable c =
    if c.radio.ble_running
    then (Code.not_supported, c)
    else if c.radio.initialised
    then (
      Code.ok,
      record c {
        is_started = false;
        idle_tick = false;
        radio = record c.radio { irq_enabled = false; initialised = false };
      },
    )
    else (Code.ok, c)

-- The two branches of `setSleep`
abbrev pub fall_asleep : Control → Control
fall_asleep c =
    if c.radio.initialised
    then record (disable c).1 { sleep_init = true }
    else if c.radio.irq_enabled
    then record c { sleep_irq = true; radio = record c.radio { irq_enabled = false } }
    else c

abbrev pub wake_up : Transceiver → Bool → Control → Control
wake_up chip allocates c =
    if c.sleep_init
    then (enable chip allocates (record c { sleep_init = false })).1
    else if c.sleep_irq
    then record c { sleep_irq = false; radio = record c.radio { irq_enabled = true } }
    else c

-- `setSleep`
pub set_sleep : Transceiver → Bool → Control → Bool → Code × Control
set_sleep chip allocates c do_sleep =
    if c.radio.ble_running
    then (Code.not_supported, c)
    else (Code.ok, if do_sleep then fall_asleep c else wake_up chip allocates c)

-- `send` with what it does to the interrupt and the transceiver; what it transmits is in `sent`.
pub send_frame : Control → Frame → Code × Control
send_frame c f =
    let (code, r) = send c.radio f in
    if c.radio.ble_running || ltb (max_packet_size + header_size - 1) f.len
    then (code, c)
    else (code, record c { radio = r; irq_pending = false; is_started = true })
