-- ===== src/Radio/Tests.antt =====
-- Instances of the theorems on source/MicroBitRadio.cpp and its protocols.
use codal_microbit_v2_fft.Base.{
  ℕ, ◌≡◌, refl, arith, true, false, some, [], ◌∷◌, ◌++◌, value, Bytes, of_list, slice,
}
use codal_microbit_v2_fft.Radio.{
  Frame, Radio, fresh_frame, on_end, idle_callback, datagram_send, datagram_recv,
}
use codal_microbit_v2_fft.Radio.Queue.{IsSound}
use codal_microbit_v2_fft.Radio.Idle.{Handled, idle_callback-Handled}
use codal_microbit_v2_fft.Radio.Sending.{datagram_recv-send}

-- The radio after `enable`.
abbrev enabled : Radio
enabled = record {
  initialised = true;
  ble_running = false;
  irq_enabled = true;
  rssi = 0;
  rx_buf = some fresh_frame;
  rx_queue = [];
  queue_depth = 0;
  datagrams = [];
  datagram_events = 0;
  suppress_forwarding = false;
  sent = [];
  fired = [];
  data_ready = [];
}

enabled-IsSound : IsSound enabled
enabled-IsSound = record { counted = refl; bounded = omega arith; datagrams_bounded = omega arith }

-- A datagram, an event and a frame of an unknown protocol.
abbrev frame_of : ℕ → Frame
frame_of p = record fresh_frame { len = 7; protocol = p; payload = of_list (1 ∷ 2 ∷ 3 ∷ 4 ∷ []) }

abbrev busy : Radio
busy = record enabled { rx_queue = frame_of 1 ∷ frame_of 2 ∷ frame_of 9 ∷ []; queue_depth = 3 }

busy-IsSound : IsSound busy
busy-IsSound = record { counted = refl; bounded = omega arith; datagrams_bounded = omega arith }

idle_callback-Handled_example : Handled busy busy.rx_queue [] (idle_callback 12 (λ _. true) busy)
idle_callback-Handled_example = idle_callback-Handled 12 (λ _. true) busy busy-IsSound

abbrev hello : Bytes
hello = of_list (104 ∷ 105 ∷ [])

datagram_recv-send_example :
    (f : Frame) × (u : Radio) × ((datagram_send enabled hello 2).1.sent ≡ enabled.sent ++ (f ∷ []))
    × (datagram_recv (idle_callback 12 (λ _. false) (on_end enabled f true 60 true)) 10
        ≡ some (value (slice hello 0 2), u))
datagram_recv-send_example =
    datagram_recv-send enabled enabled fresh_frame hello 2 10 60 12 (λ _. false) refl (omega arith)
      (omega arith) enabled-IsSound refl refl refl
