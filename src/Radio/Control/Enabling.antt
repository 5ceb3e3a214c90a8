-- ===== src/Radio/Control/Enabling.antt =====
-- What enable of source/MicroBitRadio.cpp leaves, and what holds of a radio that is on.
use mathlib.Core.Bool.{false≢true}
use codal_microbit_v2_fft.Base.{
  ℕ, ◌≡◌, refl, ap, subst, sym, ◌∙◌, Bool, true, false, Option, none, some, Code, if◌then◌else◌,
  bit_or, Option-cases, inl, inr,
}
use codal_microbit_v2_fft.Radio.{Frame, max_packet_size}
use codal_microbit_v2_fft.Radio.Control.{
  Transceiver, Registers, Control, power_level, default_tx_power, default_frequency, base_address,
  receive_buffer, start_up, set_transmit_power, set_frequency_band, set_group, enable,
}

-- The registers after `enable` in group `g`; of `old` only the shortcuts are kept.
abbrev pub configured : Transceiver → ℕ → Registers → Registers
configured chip g old = record {
  tx_power = power_level default_tx_power;
  frequency = default_frequency;
  mode = chip.mode_1mbit;
  base0 = base_address;
  prefix0 = g;
  tx_address = 0;
  rx_addresses = 1;
  pcnf0 = 8;
  pcnf1 = bit_or 33816576 max_packet_size;
  crc_cnf = chip.crc_two;
  crc_init = 65535;
  crc_poly = 69665;
  data_white_iv = 24;
  int_enset = 8;
  shorts = bit_or old.shorts chip.rssi_start;
}

-- The radio that was `c`, switched on with the receive buffer `f`
abbrev pub switched_on : Transceiver → Control → Frame → Control
switched_on chip c f = record c {
  registers = configured chip c.group c.registers;
  irq_pending = false;
  is_started = true;
  idle_tick = true;
  radio = record c.radio { rx_buf = some f; irq_enabled = true; initialised = true };
}

pub start_up-switched_on :
    (chip : Transceiver) (c : Control) (f : Frame)
    → c.radio.ble_running ≡ false
    → start_up chip c (some f) ≡ (Code.ok, switched_on chip c f)
unfolding set_transmit_power set_frequency_band set_group
start_up-switched_on chip c f quiet = rw quiet refl

pub enable-switched_on :
    (chip : Transceiver) (allocates : Bool) (c : Control) (f : Frame)
    → c.radio.initialised ≡ false
    → c.radio.ble_running ≡ false
    → receive_buffer allocates c.radio.rx_buf ≡ some f
    → enable chip allocates c ≡ (Code.ok, switched_on chip c f)
unfolding enable set_transmit_power set_frequency_band set_group
enable-switched_on chip allocates c f off quiet held = rw (off, quiet, held) refl

abbrev pub has_buffer : Option Frame → Bool
has_buffer none = false
has_buffer (some f) = true

-- What holds of a radio that is on: its interrupt and its idle callback are enabled, it has been
-- started with a buffer to receive into, it listens to its group, and BLE is not running.
pub record IsOn (c : Control) : Type 0 where
  pub listens : c.radio.irq_enabled ≡ true
  pub idles : c.idle_tick ≡ true
  pub started : c.is_started ≡ true
  pub buffered : has_buffer c.radio.rx_buf ≡ true
  pub joined : c.registers.prefix0 ≡ c.group
  pub quiet : c.radio.ble_running ≡ false

-- A radio is on, or its idle callback is off.
unfoldable pub IsConsistent : Control → Type 0
IsConsistent c = if c.radio.initialised then IsOn c else (c.idle_tick ≡ false)

pub IsConsistent-IsOn : (c : Control) → c.radio.initialised ≡ true → IsConsistent c → IsOn c
unfolding IsConsistent
IsConsistent-IsOn c on v = subst (λ b. if b then IsOn c else (c.idle_tick ≡ false)) on v

-- The buffer of a radio that is on
pub buffer_of : (c : Control) → IsOn c → (f : Frame) × (c.radio.rx_buf ≡ some f)
buffer_of c v = elim (Option-cases c.radio.rx_buf) [
  | inl e ↦ absurd (false≢true (ap has_buffer (sym e) ∙ v.buffered))
  | inr h ↦ h
]
