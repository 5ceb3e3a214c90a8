-- ===== src/Radio/Control/Sleeping.antt =====
-- That waking undoes falling asleep, for setSleep of source/MicroBitRadio.cpp.
use codal_microbit_v2_fft.Base.{
  ◌≡◌, refl, ap, ◌∙◌, Bool, true, false, some, Code, Bool-cases, if◌then◌else◌, inl, inr,
}
use codal_microbit_v2_fft.Radio.{Frame}
use codal_microbit_v2_fft.Radio.Control.{
  Transceiver, Control, disable, fall_asleep, wake_up, set_sleep,
}
use codal_microbit_v2_fft.Radio.Control.Enabling.{
  configured, switched_on, enable-switched_on, buffer_of, IsConsistent, IsConsistent-IsOn,
}

-- A radio that was on, asleep
abbrev asleep : Control → Control
asleep c = record c {
  is_started = false;
  idle_tick = false;
  sleep_init = true;
  radio = record c.radio { irq_enabled = false; initialised = false };
}

set_sleep_lem :
    (chip : Transceiver) (allocates : Bool) (c : Control) (do_sleep : Bool)
    → c.radio.ble_running ≡ false
    → set_sleep chip allocates c do_sleep
      ≡ (Code.ok, if do_sleep then fall_asleep c else wake_up chip allocates c)
unfolding set_sleep
set_sleep_lem chip allocates c do_sleep quiet = rw quiet refl

set_sleep-asleep :
    (chip : Transceiver) (allocates : Bool) (c : Control)
    → c.radio.initialised ≡ true
    → c.radio.ble_running ≡ false
    → set_sleep chip allocates c true ≡ (Code.ok, asleep c)
unfolding set_sleep disable
set_sleep-asleep chip allocates c on quiet = rw (on, quiet) refl

set_sleep-switched_on :
    (chip : Transceiver) (allocates : Bool) (c : Control) (f : Frame)
    → c.radio.ble_running ≡ false
    → c.radio.rx_buf ≡ some f
    → set_sleep chip allocates (asleep c) false
      ≡ (Code.ok, switched_on chip (record (asleep c) { sleep_init = false }) f)
set_sleep-switched_on chip allocates c f quiet held =
    set_sleep_lem chip allocates (asleep c) false quiet
    ∙ ap (λ o. (Code.ok, o.1))
        (enable-switched_on chip allocates (record (asleep c) { sleep_init = false }) f refl quiet
          (rw held refl))

-- A consistent radio that is awake, while BLE is not running: setSleep switches it off, its interrupt
-- included, and waking it again succeeds, also where no memory can be had. If it was on it is on again,
-- in its group and with its queues, but the power and the frequency are the defaults, whatever they
-- were; if it was off it is as it was.
pub set_sleep-set_sleep :
    (chip : Transceiver) (allocates allocates' : Bool) (c : Control)
    → IsConsistent c
    → c.radio.ble_running ≡ false
    → c.sleep_init ≡ false
    → c.sleep_irq ≡ false
    → let (code, s) = set_sleep chip allocates c true in
      let (code', w) = set_sleep chip allocates' s false in
      (code ≡ Code.ok)
      × (s.radio.irq_enabled ≡ false)
      × (s.radio.initialised ≡ false)
      × (code' ≡ Code.ok)
      × (w ≡ (
          if c.radio.initialised
          then record c { registers = configured chip c.group c.registers; irq_pending = false }
          else c))
unfolding set_sleep
set_sleep-set_sleep chip allocates allocates' c v quiet awake no_irq =
    elim (Bool-cases c.radio.initialised) [
      | inl on ↦
          let h = IsConsistent-IsOn c on v in
          let (f, held) = buffer_of c h in
          rw
            (
              set_sleep-asleep chip allocates c on quiet,
              set_sleep-switched_on chip allocates' c f quiet held,
            )
            (refl, refl, refl, refl, rw (on, awake, h.listens, h.idles, h.started, held) refl)
      | inr off ↦ elim (Bool-cases c.radio.irq_enabled) [
        | inl i ↦ rw (quiet, off, i, awake, no_irq) (refl, refl, refl, refl, refl)
        | inr i ↦ rw (quiet, off, i, awake, no_irq) (refl, refl, refl, refl, refl)
      ]
    ]
