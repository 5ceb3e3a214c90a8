-- ===== src/Radio/Control/Ready.antt =====
-- That each of the calls of source/MicroBitRadio.cpp that switch the radio on or off or put it to sleep
-- leaves a sound radio.
use codal_microbit_v2_fft.Base.{
  ℕ, ◌≡◌, refl, subst, ◌∙◌, sym, Bool, true, false, Option, none, some, Code, ltb, leb,
  if◌then◌else◌, if-both, Bool-cases, inl, inr,
}
use codal_microbit_v2_fft.Radio.{Frame, Radio}
use codal_microbit_v2_fft.Radio.Queue.{IsSound}
use codal_microbit_v2_fft.Radio.Sound.{same-IsSound}
use codal_microbit_v2_fft.Radio.Control.{
  Transceiver, Registers, Control, power_levels, receive_buffer, start_up, set_transmit_power,
  set_frequency_band, set_group, enable, disable, fall_asleep, wake_up, set_sleep,
}
use codal_microbit_v2_fft.Radio.Control.Enabling.{IsOn, IsConsistent, start_up-switched_on}
use codal_microbit_v2_fft.Radio.Control.Kept.{Keeps}

-- A radio whose state and whose queues are sound
pub record IsReady (c : Control) : Type 0 where
  pub consistent : IsConsistent c
  pub sound : IsSound c.radio

-- Each of its two cases is kept.
pub IsConsistent-kept :
    (c d : Control)
    → d.radio.initialised ≡ c.radio.initialised
    → (IsOn c → IsOn d)
    → d.idle_tick ≡ c.idle_tick
    → IsConsistent c
    → IsConsistent d
unfolding IsConsistent
IsConsistent-kept c d same on tick v = elim (Bool-cases c.radio.initialised) [
  | inl h ↦
      subst (λ b. if b then IsOn d else (d.idle_tick ≡ false)) (sym (same ∙ h))
        (on (subst (λ b. if b then IsOn c else (c.idle_tick ≡ false)) h v))
  | inr h ↦
      subst (λ b. if b then IsOn d else (d.idle_tick ≡ false)) (sym (same ∙ h))
        (tick ∙ subst (λ b. if b then IsOn c else (c.idle_tick ≡ false)) h v)
]

-- A change of the registers that keeps the group's, or of a flag of the sleep
pub written-IsReady :
    (c : Control) (init irq : Bool) (written : Registers)
    → written.prefix0 ≡ c.registers.prefix0
    → IsReady c
    → IsReady (record c { registers = written; sleep_init = init; sleep_irq = irq })
written-IsReady c init irq written e v = record {
  consistent =
      IsConsistent-kept c _ refl
        (λ o. record {
          listens = o.listens;
          idles = o.idles;
          started = o.started;
          buffered = o.buffered;
          joined = e ∙ o.joined;
          quiet = o.quiet;
        })
        refl v.consistent;
  sound = v.sound;
}

-- A change of the radio alone
pub Keeps-IsReady :
    (c : Control) (r : Radio)
    → Keeps c.radio r
    → IsSound r
    → IsReady c
    → IsReady (record c { radio = r })
Keeps-IsReady c r k s v = record {
  consistent =
      IsConsistent-kept c _ k.on
        (λ o. record {
          listens = k.irq o.listens;
          idles = o.idles;
          started = o.started;
          buffered = k.buffered ∙ o.buffered;
          joined = o.joined;
          quiet = k.ble ∙ o.quiet;
        })
        refl v.consistent;
  sound = s;
}

abbrev pub ReadyAfter : Code × Control → Type 0
ReadyAfter p = IsReady p.1

pub set_transmit_power-IsReady :
    (c : Control) (power : ℕ) → IsReady c → IsReady (set_transmit_power c power).1
unfolding set_transmit_power
set_transmit_power-IsReady c power v =
    if-both ReadyAfter (leb power_levels power) (λ _. v)
      (λ _. written-IsReady c c.sleep_init c.sleep_irq _ refl v)

pub set_frequency_band-IsReady :
    (c : Control) (band : ℕ) → IsReady c → IsReady (set_frequency_band c band).1
unfolding set_frequency_band
set_frequency_band-IsReady c band v =
    if-both ReadyAfter c.radio.ble_running (λ _. v)
      (λ _.
        if-both ReadyAfter (ltb 100 band) (λ _. v)
          (λ _. written-IsReady c c.sleep_init c.sleep_irq _ refl v))

pub set_group-IsReady : (c : Control) (g : ℕ) → IsReady c → IsReady (set_group c g).1
unfolding set_group
set_group-IsReady c g v =
    if-both ReadyAfter c.radio.ble_running (λ _. v)
      (λ _. record {
        consistent =
            IsConsistent-kept c _ refl
              (λ o. record {
                listens = o.listens;
                idles = o.idles;
                started = o.started;
                buffered = o.buffered;
                joined = refl;
                quiet = o.quiet;
              })
              refl v.consistent;
        sound = v.sound;
      })

start_up-IsReady :
    (chip : Transceiver) (c : Control) (o : Option Frame)
    → c.radio.ble_running ≡ false
    → IsReady c
    → IsReady (start_up chip c o).1
unfolding IsConsistent
start_up-IsReady chip c none quiet v = v
start_up-IsReady chip c (some f) quiet v =
    subst ReadyAfter (sym (start_up-switched_on chip c f quiet)) (record {
      consistent = record {
        listens = refl;
        idles = refl;
        started = refl;
        buffered = refl;
        joined = refl;
        quiet = quiet;
      };
      sound = same-IsSound c.radio _ v.sound refl refl refl;
    })

pub enable-IsReady :
    (chip : Transceiver) (allocates : Bool) (c : Control)
    → IsReady c
    → IsReady (enable chip allocates c).1
unfolding enable
enable-IsReady chip allocates c v =
    if-both ReadyAfter c.radio.initialised (λ _. v)
      (λ _.
        if-both ReadyAfter c.radio.ble_running (λ _. v)
          (λ quiet. start_up-IsReady chip c (receive_buffer allocates c.radio.rx_buf) quiet v))

pub disable-IsReady : (c : Control) → IsReady c → IsReady (disable c).1
unfolding disable IsConsistent
disable-IsReady c v =
    if-both ReadyAfter c.radio.ble_running (λ _. v)
      (λ _.
        if-both ReadyAfter c.radio.initialised
          (λ _. record { consistent = refl; sound = same-IsSound c.radio _ v.sound refl refl refl })
          (λ _. v))

-- A radio that is off, with any other interrupt, registers and flags
pub off-IsReady :
    (c d : Control)
    → c.radio.initialised ≡ false
    → d.radio.initialised ≡ false
    → d.idle_tick ≡ c.idle_tick
    → IsSound d.radio
    → IsReady c
    → IsReady d
unfolding IsConsistent
off-IsReady c d off still tick s v = record {
  consistent =
      subst (λ b. if b then IsOn d else (d.idle_tick ≡ false)) (sym still)
        (tick ∙ subst (λ b. if b then IsOn c else (c.idle_tick ≡ false)) off v.consistent);
  sound = s;
}

fall_asleep-IsReady : (c : Control) → IsReady c → IsReady (fall_asleep c)
fall_asleep-IsReady c v =
    if-both IsReady c.radio.initialised
      (λ _.
        let d = (disable c).1 in
        written-IsReady d true d.sleep_irq d.registers refl (disable-IsReady c v))
      (λ off.
        if-both IsReady c.radio.irq_enabled
          (λ _. off-IsReady c _ off off refl (same-IsSound c.radio _ v.sound refl refl refl) v)
          (λ _. v))

wake_up-IsReady :
    (chip : Transceiver) (allocates : Bool) (c : Control)
    → IsReady c
    → IsReady (wake_up chip allocates c)
wake_up-IsReady chip allocates c v =
    if-both IsReady c.sleep_init
      (λ _.
        let d : Control = record c { sleep_init = false } in
        enable-IsReady chip allocates d (written-IsReady c false c.sleep_irq c.registers refl v))
      (λ _.
        if-both IsReady c.sleep_irq
          (λ _. record {
            consistent =
                IsConsistent-kept c _ refl
                  (λ o. record {
                    listens = refl;
                    idles = o.idles;
                    started = o.started;
                    buffered = o.buffered;
                    joined = o.joined;
                    quiet = o.quiet;
                  })
                  refl v.consistent;
            sound = same-IsSound c.radio _ v.sound refl refl refl;
          })
          (λ _. v))

pub set_sleep-IsReady :
    (chip : Transceiver) (allocates : Bool) (c : Control) (do_sleep : Bool)
    → IsReady c
    → IsReady (set_sleep chip allocates c do_sleep).1
unfolding set_sleep
set_sleep-IsReady chip allocates c do_sleep v =
    if-both ReadyAfter c.radio.ble_running (λ _. v)
      (λ _.
        if-both IsReady do_sleep (λ _. fall_asleep-IsReady c v)
          (λ _. wake_up-IsReady chip allocates c v))
