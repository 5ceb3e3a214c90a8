-- ===== src/Radio/Control/Tests.antt =====
-- Instances of the theorems on enable and setSleep of source/MicroBitRadio.cpp.
use codal_microbit_v2_fft.Base.{◌≡◌, refl, arith, true, false, none, some, [], Code}
use codal_microbit_v2_fft.Radio.{fresh_frame}
use codal_microbit_v2_fft.Radio.Control.{
  Transceiver, Registers, Control, set_group, enable, set_sleep, send_frame,
}
use codal_microbit_v2_fft.Radio.Control.Enabling.{configured, IsConsistent}
use codal_microbit_v2_fft.Radio.Control.Sleeping.{set_sleep-set_sleep}
use codal_microbit_v2_fft.Radio.Control.Ready.{IsReady}
use codal_microbit_v2_fft.Radio.Control.Steps.{
  enabled, group_set, sleep_set, frame_sent, here, next, Reaches-IsReady,
}

abbrev chip : Transceiver
chip = record { mode_1mbit = 0; crc_two = 2; rssi_start = 16 }

abbrev no_registers : Registers
no_registers = record {
  tx_power = 0;
  frequency = 2;
  mode = 0;
  base0 = 0;
  prefix0 = 0;
  tx_address = 0;
  rx_addresses = 0;
  pcnf0 = 0;
  pcnf1 = 0;
  crc_cnf = 0;
  crc_init = 0;
  crc_poly = 0;
  data_white_iv = 64;
  int_enset = 0;
  shorts = 0;
}

-- The radio as the constructor leaves it
abbrev constructed : Control
constructed = record {
  radio = record {
    initialised = false;
    ble_running = false;
    irq_enabled = false;
    rssi = 0;
    rx_buf = none;
    rx_queue = [];
    queue_depth = 0;
    datagrams = [];
    datagram_events = 0;
    suppress_forwarding = false;
    sent = [];
    fired = [];
    data_ready = [];
  };
  group = 0;
  idle_tick = false;
  sleep_init = false;
  sleep_irq = false;
  irq_pending = false;
  is_started = false;
  registers = no_registers;
}

constructed-IsReady : IsReady constructed
unfolding IsConsistent
constructed-IsReady = record {
  consistent = refl;
  sound = record { counted = refl; bounded = omega arith; datagrams_bounded = omega arith };
}

-- Switched on, in group 5, put to sleep and woken, and used to send
Reaches-IsReady_example :
    let a = (enable chip true constructed).1 in
    let b = (set_group a 5).1 in
    let c = (set_sleep chip false b true).1 in
    let d = (set_sleep chip false c false).1 in IsReady (send_frame d fresh_frame).1
Reaches-IsReady_example =
    let a = (enable chip true constructed).1 in
    let b = (set_group a 5).1 in
    let c = (set_sleep chip false b true).1 in
    let d = (set_sleep chip false c false).1 in
    Reaches-IsReady chip constructed-IsReady (
      next
        (next
          (next (next (next here (enabled constructed true)) (group_set a 5))
            (sleep_set b false true))
          (sleep_set c false false))
        (frame_sent d fresh_frame))

-- A radio that is on, at the highest power in band 40
abbrev tuned : Control
tuned = record constructed {
  radio = record constructed.radio {
    initialised = true;
    irq_enabled = true;
    rx_buf = some fresh_frame;
  };
  idle_tick = true;
  is_started = true;
  registers = record no_registers { tx_power = 4; frequency = 40 };
}

tuned-IsConsistent : IsConsistent tuned
unfolding IsConsistent
tuned-IsConsistent = record {
  listens = refl;
  idles = refl;
  started = refl;
  buffered = refl;
  joined = refl;
  quiet = refl;
}

set_sleep-set_sleep_example :
    let (code, s) = set_sleep chip true tuned true in
    let (code', w) = set_sleep chip false s false in
    (code ≡ Code.ok)
    × (s.radio.irq_enabled ≡ false)
    × (s.radio.initialised ≡ false)
    × (code' ≡ Code.ok)
    × (w ≡ record tuned { registers = configured chip 0 tuned.registers; irq_pending = false })
set_sleep-set_sleep_example =
    set_sleep-set_sleep chip true false tuned tuned-IsConsistent refl refl refl
