-- ===== src/Radio/Control/Kept.antt =====
-- What the interrupts and calls of Radio.Sound leave alone: whether the radio is on and whether it has a
-- receive buffer, in source/MicroBitRadio.cpp and its protocols.
use codal_microbit_v2_fft.Base.{
  ℕ, ◌≡◌, refl, ap, subst, ◌∙◌, sym, Bool, true, Option, none, some, List, [], ◌∷◌, Code, Reply,
  Bytes, ◌+◌, ◌-◌, ◌++◌, length, leb, ltb, ◌==◌, if-both,
}
use codal_microbit_v2_fft.Radio.{
  Frame, Radio, max_packet_size, header_size, max_rx_buffers, protocol_datagram, protocol_eventbus,
  filled, set_rssi, queue_frame, queue_rx_buf, on_end, first_frame, recv, send, accept,
  datagram_received, event_received, fire, event_packet_received, dispatch, idle_rounds,
  idle_callback, datagram_frame, event_frame, datagram_of, datagram_recv,
}
use codal_microbit_v2_fft.Radio.Control.Enabling.{has_buffer}

-- `s` is on, has a receive buffer and is beside BLE as `r` is, and its interrupt is enabled if that of
-- `r` is.
pub record Keeps (r s : Radio) : Type 0 where
  pub on : s.initialised ≡ r.initialised
  pub ble : s.ble_running ≡ r.ble_running
  pub buffered : has_buffer s.rx_buf ≡ has_buffer r.rx_buf
  pub irq : r.irq_enabled ≡ true → s.irq_enabled ≡ true

pub Keeps-refl : (r : Radio) → Keeps r r
Keeps-refl r = record { on = refl; ble = refl; buffered = refl; irq = λ h. h }

Keeps-trans : (r s t : Radio) → Keeps r s → Keeps s t → Keeps r t
Keeps-trans r s t a b = record {
  on = b.on ∙ a.on;
  ble = b.ble ∙ a.ble;
  buffered = b.buffered ∙ a.buffered;
  irq = λ h. b.irq (a.irq h);
}

set_rssi-Keeps : (r : Radio) (n : ℕ) → Keeps r (set_rssi r n)
unfolding set_rssi
set_rssi-Keeps r n =
    if-both (Keeps r) r.initialised
      (λ _. record { on = refl; ble = refl; buffered = refl; irq = λ h. h }) (λ _. Keeps-refl r)

queue_frame-Keeps :
    (r : Radio) (allocates : Bool) (o : Option Frame)
    → r.rx_buf ≡ o
    → Keeps r (queue_frame r allocates o).1
queue_frame-Keeps r allocates none e = Keeps-refl r
queue_frame-Keeps r allocates (some f) e =
    let K : Code × Radio → Type 0 = λ p. Keeps r p.1 in
    let k : has_buffer (some f) ≡ has_buffer r.rx_buf = sym (ap has_buffer e) in
    if-both K (leb max_rx_buffers r.queue_depth) (λ _. Keeps-refl r)
      (λ _.
        if-both K allocates (λ _. record { on = refl; ble = refl; buffered = k; irq = λ h. h })
          (λ _. record { on = refl; ble = refl; buffered = k; irq = λ h. h }))

queue_rx_buf-Keeps : (r : Radio) (allocates : Bool) → Keeps r (queue_rx_buf r allocates).1
unfolding queue_rx_buf
queue_rx_buf-Keeps r allocates = queue_frame-Keeps r allocates r.rx_buf refl

filled-has_buffer : (f : Frame) (o : Option Frame) → has_buffer (filled f o) ≡ has_buffer o
filled-has_buffer f none = refl
filled-has_buffer f (some g) = refl

pub on_end-Keeps :
    (r : Radio) (f : Frame) (crc_ok : Bool) (sample : ℕ) (allocates : Bool)
    → Keeps r (on_end r f crc_ok sample allocates)
unfolding on_end
on_end-Keeps r f crc_ok sample allocates =
    let t : Radio = record r { rx_buf = filled f r.rx_buf } in
    let k : Keeps r t = record {
      on = refl;
      ble = refl;
      buffered = filled-has_buffer f r.rx_buf;
      irq = λ h. h;
    } in
    if-both (Keeps r) crc_ok
      (λ _.
        Keeps-trans r (set_rssi t sample) _
          (Keeps-trans r t (set_rssi t sample) k (set_rssi-Keeps t sample))
          (queue_rx_buf-Keeps (set_rssi t sample) allocates))
      (λ _. Keeps-trans r t (set_rssi t 0) k (set_rssi-Keeps t 0))

first_frame-Keeps : (r : Radio) (q : List Frame) → Keeps r (first_frame r q).1
first_frame-Keeps r [] = Keeps-refl r
first_frame-Keeps r (f ∷ fs) = record { on = refl; ble = refl; buffered = refl; irq = λ _. refl }

accept-Keeps : (ds : List Frame) (f : Frame) (r : Radio) → Keeps r (accept ds f r)
accept-Keeps [] f r = record { on = refl; ble = refl; buffered = refl; irq = λ h. h }
accept-Keeps (g ∷ gs) f r =
    if-both (Keeps r) (leb max_rx_buffers (length gs)) (λ _. Keeps-refl r)
      (λ _. record { on = refl; ble = refl; buffered = refl; irq = λ h. h })

datagram_frame-Keeps : (r : Radio) (q : List Frame) → Keeps r (datagram_frame (first_frame r q))
datagram_frame-Keeps r [] = Keeps-refl r
datagram_frame-Keeps r (f ∷ fs) =
    let t = (first_frame r (f ∷ fs)).1 in
    Keeps-trans r t _ (first_frame-Keeps r (f ∷ fs)) (accept-Keeps t.datagrams f t)

pub send-Keeps : (r : Radio) (f : Frame) → Keeps r (send r f).1
unfolding send
send-Keeps r f =
    let K : Code × Radio → Type 0 = λ p. Keeps r p.1 in
    if-both K r.ble_running (λ _. Keeps-refl r)
      (λ _.
        if-both K (ltb (max_packet_size + header_size - 1) f.len) (λ _. Keeps-refl r)
          (λ _. record { on = refl; ble = refl; buffered = refl; irq = λ _. refl }))

fire-Keeps : (size : ℕ) (listens : Bool) (r : Radio) (e : Bytes) → Keeps r (fire size listens r e)
unfolding event_received
fire-Keeps size listens r e =
    let t : Radio = record r { fired = r.fired ++ (e ∷ []) } in
    let k : Keeps r t = record { on = refl; ble = refl; buffered = refl; irq = λ h. h } in
    if-both (Keeps r) listens
      (λ _.
        if-both (Keeps r) r.suppress_forwarding (λ _. k)
          (λ _. Keeps-trans r t _ k (send-Keeps t _)))
      (λ _. k)

event_frame-Keeps :
    (size : ℕ) (listens : Bool) (r : Radio) (q : List Frame)
    → Keeps r (event_frame size listens (first_frame r q))
event_frame-Keeps size listens r [] = Keeps-refl r
event_frame-Keeps size listens r (f ∷ fs) =
    let t : Radio = record (first_frame r (f ∷ fs)).1 { suppress_forwarding = true } in
    let k = fire-Keeps size listens t f.payload in
    record { on = k.on; ble = k.ble; buffered = k.buffered; irq = λ _. k.irq refl }

dispatch-Keeps :
    (size : ℕ) (listens : Frame → Bool) (f : Frame) (r : Radio)
    → Keeps r (dispatch size listens f r)
unfolding dispatch datagram_received event_packet_received recv
dispatch-Keeps size listens f r =
    if-both (Keeps r) (f.protocol == protocol_datagram) (λ _. datagram_frame-Keeps r r.rx_queue)
      (λ _.
        if-both (Keeps r) (f.protocol == protocol_eventbus)
          (λ _. event_frame-Keeps size (listens f) r r.rx_queue)
          (λ _.
            let t : Radio = record r { data_ready = r.data_ready ++ (f.protocol ∷ []) } in
            let k = first_frame-Keeps t r.rx_queue in
            record { on = k.on; ble = k.ble; buffered = k.buffered; irq = k.irq }))

idle_rounds-Keeps :
    (size : ℕ) (listens : Frame → Bool) (q : List Frame) (r : Radio)
    → Keeps r (idle_rounds size listens q r)
unfolding idle_rounds
idle_rounds-Keeps size listens [] r = Keeps-refl r
idle_rounds-Keeps size listens (f ∷ fs) r =
    let t = dispatch size listens f r in
    Keeps-trans r t _ (dispatch-Keeps size listens f r) (idle_rounds-Keeps size listens fs t)

pub recv-Keeps : (r : Radio) → Keeps r (recv r).1
unfolding recv
recv-Keeps r = first_frame-Keeps r r.rx_queue

abbrev KeepsIfAny : Radio → Option (Reply (List ℕ) × Radio) → Type 0
KeepsIfAny r none = Unit
KeepsIfAny r (some (reply, t)) = Keeps r t

datagram_of-Keeps : (r : Radio) (room : ℕ) (ds : List Frame) → KeepsIfAny r (datagram_of r room ds)
datagram_of-Keeps r room [] = Keeps-refl r
datagram_of-Keeps r room (f ∷ ds) =
    if-both (KeepsIfAny r) (ltb f.len (header_size - 1)) (λ _. tt)
      (λ _. record { on = refl; ble = refl; buffered = refl; irq = λ h. h })

pub datagram_recv-Keeps :
    (r t : Radio) (room : ℕ) (reply : Reply (List ℕ))
    → datagram_recv r room ≡ some (reply, t)
    → Keeps r t
unfolding datagram_recv
datagram_recv-Keeps r t room reply e = subst (KeepsIfAny r) e (datagram_of-Keeps r room r.datagrams)

-- What is handled when the processor is idle leaves the radio on or off.
pub idle_callback-Keeps :
    (size : ℕ) (listens : Frame → Bool) (r : Radio) → Keeps r (idle_callback size listens r)
unfolding idle_callback
idle_callback-Keeps size listens r = idle_rounds-Keeps size listens r.rx_queue r
