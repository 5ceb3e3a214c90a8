-- ===== src/Radio/Sound.antt =====
-- That the interrupts and calls of source/MicroBitRadio.cpp and source/MicroBitRadioDatagram.cpp keep the
-- queues sound.
use codal_microbit_v2_fft.Base.{
  ℕ, ◌+◌, ◌-◌, ◌≡◌, refl, ap, subst, ◌∙◌, sym, arith, Bool, Option, none, some, List, [], ◌∷◌, Code,
  Reply, length, ltb, if-both, Option-cases, inl, inr,
}
use codal_microbit_v2_fft.Radio.{
  Frame, Radio, max_packet_size, header_size, filled, set_rssi, queue_frame, first_frame,
  datagram_of, queue_rx_buf, on_end, recv, send, datagram_recv,
}
use codal_microbit_v2_fft.Radio.Queue.{IsSound, queue_rx_buf-append}
use codal_microbit_v2_fft.Radio.Idle.{recv_cons, tail-IsSound}
use codal_microbit_v2_fft.Radio.Sending.{set_rssi_lem}

pub same-IsSound :
    (r s : Radio)
    → IsSound r
    → s.queue_depth ≡ r.queue_depth
    → s.rx_queue ≡ r.rx_queue
    → s.datagrams ≡ r.datagrams
    → IsSound s
same-IsSound r s v a b c = record {
  counted = a ∙ (v.counted ∙ sym (ap length b));
  bounded = omega (arith, v.bounded, ap length b);
  datagrams_bounded = omega (arith, v.datagrams_bounded, ap length c);
}

queue_rx_buf-IsSound :
    (r : Radio) (allocates : Bool) → IsSound r → IsSound (queue_rx_buf r allocates).1
unfolding queue_rx_buf
queue_rx_buf-IsSound r allocates v = elim (Option-cases r.rx_buf) [
  | inl e ↦ subst (λ o. IsSound (queue_frame r allocates o).1) (sym e) v
  | inr (f, e) ↦ (queue_rx_buf-append r allocates f v e).0
]

pub on_end-IsSound :
    (r : Radio) (f : Frame) (crc_ok : Bool) (sample : ℕ) (allocates : Bool)
    → IsSound r
    → IsSound (on_end r f crc_ok sample allocates)
unfolding on_end
on_end-IsSound r f crc_ok sample allocates v =
    let t : Radio = record r { rx_buf = filled f r.rx_buf } in
    let w = same-IsSound r t v refl refl refl in
    if-both IsSound crc_ok
      (λ _. queue_rx_buf-IsSound (set_rssi t sample) allocates (set_rssi_lem t sample w).0)
      (λ _. (set_rssi_lem t 0 w).0)

pub recv-IsSound : (r : Radio) (fs : List Frame) → r.rx_queue ≡ fs → IsSound r → IsSound (recv r).1
unfolding recv
recv-IsSound r [] e v = subst (λ q. IsSound (first_frame r q).1) (sym e) v
recv-IsSound r (f ∷ fs) e v = rw (recv_cons r f fs e) (tail-IsSound r f fs v e)

abbrev SoundIfAny : Option (Reply (List ℕ) × Radio) → Type 0
SoundIfAny none = Unit
SoundIfAny (some (reply, t)) = IsSound t

datagram_of-IsSound :
    (r : Radio) (room : ℕ) (ds : List Frame)
    → r.datagrams ≡ ds
    → IsSound r
    → SoundIfAny (datagram_of r room ds)
datagram_of-IsSound r room [] e v = v
datagram_of-IsSound r room (f ∷ ds) e v =
    if-both SoundIfAny (ltb f.len (header_size - 1)) (λ _. tt)
      (λ _. record {
        counted = v.counted;
        bounded = v.bounded;
        datagrams_bounded = omega (arith, v.datagrams_bounded, ap length e);
      })

pub datagram_recv-IsSound :
    (r t : Radio) (room : ℕ) (reply : Reply (List ℕ))
    → datagram_recv r room ≡ some (reply, t)
    → IsSound r
    → IsSound t
unfolding datagram_recv
datagram_recv-IsSound r t room reply e v =
    subst SoundIfAny e (datagram_of-IsSound r room r.datagrams refl v)

pub send-IsSound : (r : Radio) (f : Frame) → IsSound r → IsSound (send r f).1
unfolding send
send-IsSound r f v =
    let S : Code × Radio → Type 0 = λ p. IsSound p.1 in
    if-both S r.ble_running (λ _. v)
      (λ _.
        if-both S (ltb (max_packet_size + header_size - 1) f.len) (λ _. v)
          (λ _. same-IsSound r _ v refl refl refl))
