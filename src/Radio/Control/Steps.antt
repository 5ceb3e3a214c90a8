-- ===== src/Radio/Control/Steps.antt =====
-- Any sequence of calls, interrupts and idle callbacks on the radio of source/MicroBitRadio.cpp, switched
-- on and off and put to sleep among them, as steps of a relation.
use codal_microbit_v2_fft.Base.{
  ℕ, ◌+◌, ◌-◌, ◌||◌, ◌≡◌, refl, Bool, false, some, List, Reply, ltb, if-both,
}
use codal_microbit_v2_fft.Radio.{
  Frame, Radio, max_packet_size, header_size, send, recv, datagram_recv, on_end, idle_callback,
}
use codal_microbit_v2_fft.Radio.Idle.{idle_callback-Handled}
use codal_microbit_v2_fft.Radio.Sound.{
  send-IsSound, on_end-IsSound, recv-IsSound, datagram_recv-IsSound, same-IsSound,
}
use codal_microbit_v2_fft.Radio.Control.{
  Transceiver, Registers, Control, set_transmit_power, set_frequency_band, set_group, enable,
  disable, set_sleep, send_frame,
}
use codal_microbit_v2_fft.Radio.Control.Ready.{
  IsReady, ReadyAfter, IsConsistent-kept, Keeps-IsReady, off-IsReady, set_transmit_power-IsReady,
  set_frequency_band-IsReady, set_group-IsReady, enable-IsReady, disable-IsReady, set_sleep-IsReady,
}
use codal_microbit_v2_fft.Radio.Control.Kept.{
  on_end-Keeps, send-Keeps, recv-Keeps, datagram_recv-Keeps, idle_callback-Keeps,
}

-- The calls of a program, the end of a reception and the idle callback. While the radio is off, the
-- BLE stack may start or stop and use the transceiver and its interrupt.
pub data Change (chip : Transceiver) : Control → Control → Type 0 where
  power_set : (c : Control) (power : ℕ) → Change chip c (set_transmit_power c power).1
  band_set : (c : Control) (band : ℕ) → Change chip c (set_frequency_band c band).1
  group_set : (c : Control) (g : ℕ) → Change chip c (set_group c g).1
  enabled : (c : Control) (allocates : Bool) → Change chip c (enable chip allocates c).1
  disabled : (c : Control) → Change chip c (disable c).1
  sleep_set :
      (c : Control) (allocates do_sleep : Bool)
      → Change chip c (set_sleep chip allocates c do_sleep).1
  frame_sent : (c : Control) (f : Frame) → Change chip c (send_frame c f).1
  frame_ended :
      (c : Control) (f : Frame) (crc_ok : Bool) (sample : ℕ) (allocates : Bool)
      → Change chip c (record c { radio = on_end c.radio f crc_ok sample allocates })
  went_idle :
      (c : Control) (size : ℕ) (listens : Frame → Bool)
      → Change chip c (record c { radio = idle_callback size listens c.radio })
  frame_taken : (c : Control) → Change chip c (record c { radio = (recv c.radio).1 })
  datagram_taken :
      (c : Control) (r : Radio) (room : ℕ) (reply : Reply (List ℕ))
      → datagram_recv c.radio room ≡ some (reply, r)
      → Change chip c (record c { radio = r })
  ble_changed :
      (c : Control) (ble irq started : Bool) (written : Registers)
      → c.radio.initialised ≡ false
      → Change chip c (record c {
        radio = record c.radio { ble_running = ble; irq_enabled = irq };
        is_started = started;
        registers = written;
      })

pub data Reaches (chip : Transceiver) (c : Control) : Control → Type 0 where
  here : Reaches chip c c
  next : {d e : Control} → Reaches chip c d → Change chip d e → Reaches chip c e

send_frame-IsReady : (c : Control) (f : Frame) → IsReady c → IsReady (send_frame c f).1
unfolding send_frame
send_frame-IsReady c f v =
    let (code, r) = send c.radio f in
    let s = send-IsSound c.radio f v.sound in
    let w = Keeps-IsReady c r (send-Keeps c.radio f) s v in
    if-both ReadyAfter (c.radio.ble_running || ltb (max_packet_size + header_size - 1) f.len)
      (λ _. v)
      (λ _. record {
        consistent =
            IsConsistent-kept (record c { radio = r }) _ refl
              (λ o. record {
                listens = o.listens;
                idles = o.idles;
                started = refl;
                buffered = o.buffered;
                joined = o.joined;
                quiet = o.quiet;
              })
              refl w.consistent;
        sound = s;
      })

Change-IsReady : (chip : Transceiver) {c d : Control} → Change chip c d → IsReady c → IsReady d
Change-IsReady chip (power_set c power) v = set_transmit_power-IsReady c power v
Change-IsReady chip (band_set c band) v = set_frequency_band-IsReady c band v
Change-IsReady chip (group_set c g) v = set_group-IsReady c g v
Change-IsReady chip (enabled c allocates) v = enable-IsReady chip allocates c v
Change-IsReady chip (disabled c) v = disable-IsReady c v
Change-IsReady chip (sleep_set c allocates do_sleep) v =
    set_sleep-IsReady chip allocates c do_sleep v
Change-IsReady chip (frame_sent c f) v = send_frame-IsReady c f v
Change-IsReady chip (frame_ended c f crc_ok sample allocates) v =
    Keeps-IsReady c _ (on_end-Keeps c.radio f crc_ok sample allocates)
      (on_end-IsSound c.radio f crc_ok sample allocates v.sound) v
Change-IsReady chip (went_idle c size listens) v =
    Keeps-IsReady c _ (idle_callback-Keeps size listens c.radio)
      (idle_callback-Handled size listens c.radio v.sound).sound v
Change-IsReady chip (frame_taken c) v =
    Keeps-IsReady c _ (recv-Keeps c.radio) (recv-IsSound c.radio c.radio.rx_queue refl v.sound) v
Change-IsReady chip (datagram_taken c r room reply e) v =
    Keeps-IsReady c r (datagram_recv-Keeps c.radio r room reply e)
      (datagram_recv-IsSound c.radio r room reply e v.sound) v
Change-IsReady chip (ble_changed c ble irq started written off) v =
    off-IsReady c _ off off refl (same-IsSound c.radio _ v.sound refl refl refl) v

-- From a radio that is ready, whatever calls are made and whatever frames arrive, in any order, and
-- where the BLE stack starts and stops only while the radio is off: a radio that is on has its
-- interrupt and its idle callback enabled and a buffer to receive into, and listens to its group, its
-- idle callback is off while it is off, and its queues are sound.
pub Reaches-IsReady :
    (chip : Transceiver) {c d : Control} → IsReady c → Reaches chip c d → IsReady d
Reaches-IsReady chip v here = v
Reaches-IsReady chip v (next path step) = Change-IsReady chip step (Reaches-IsReady chip v path)
