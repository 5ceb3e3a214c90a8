-- ===== src/Radio/Queue.antt =====
-- The queues of source/MicroBitRadio.cpp and source/MicroBitRadioDatagram.cpp: their order, their
-- bounds, and the count that the code keeps.
use codal_microbit_v2_fft.Base.{
  suc, ◌≤◌, ◌≡◌, refl, arith, Bool, true, false, ◌&&◌, some, [], ◌∷◌, ◌++◌, Code, length, ltb, leb,
  if◌then◌else◌, Bool-cases, inl, inr, length-append,
}
use codal_microbit_v2_fft.Radio.{Frame, Radio, max_rx_buffers, get_rssi, queue_rx_buf}

pub record IsSound (r : Radio) : Type 0 where
  pub counted : r.queue_depth ≡ length r.rx_queue
  pub bounded : length r.rx_queue ≤ max_rx_buffers
  pub datagrams_bounded : length r.datagrams ≤ suc max_rx_buffers

-- Where the queue is sound and `f` is in the receive buffer: `queueRxBuf` puts it, with the signal
-- strength measured, behind the frames held, if these are fewer than four and a new buffer is
-- allocated; otherwise it returns DEVICE_NO_RESOURCES and leaves the queue as it is. The queue stays
-- sound, and the datagrams that wait stay as they are.
pub queue_rx_buf-append :
    (r : Radio) (allocates : Bool) (f : Frame)
    → IsSound r
    → r.rx_buf ≡ some f
    → let (code, r') = queue_rx_buf r allocates in
      IsSound r'
      × (r'.datagrams ≡ r.datagrams)
      × (if ltb (length r.rx_queue) 4 && allocates
          then (code ≡ Code.ok)
            × (r'.rx_queue ≡ r.rx_queue ++ (record f { rssi = get_rssi r } ∷ []))
          else (code ≡ Code.no_resources) × (r'.rx_queue ≡ r.rx_queue))
unfolding queue_rx_buf
queue_rx_buf-append r allocates f v e = elim (Bool-cases (leb max_rx_buffers r.queue_depth)) [
  | inl h ↦
      let full : ltb (length r.rx_queue) 4 ≡ false = ground (arith, v.counted) in
      rw (e, h, full)
        (
          record {
            counted = v.counted;
            bounded = v.bounded;
            datagrams_bounded = v.datagrams_bounded;
          },
          refl,
          (refl, refl),
        )
  | inr h ↦
      let room : ltb (length r.rx_queue) 4 ≡ true = ground (arith, v.counted) in
      let longer = length-append r.rx_queue (record f { rssi = get_rssi r } ∷ []) in
      elim (Bool-cases allocates) [
        | inl a ↦
            rw (e, h, room, a)
              (
                record {
                  counted = ground (arith, v.counted, v.bounded, longer);
                  bounded = ground (arith, v.counted, v.bounded, longer);
                  datagrams_bounded = v.datagrams_bounded;
                },
                refl,
                (refl, refl),
              )
        | inr a ↦
            rw (e, h, room, a)
              (
                record {
                  counted = v.counted;
                  bounded = v.bounded;
                  datagrams_bounded = v.datagrams_bounded;
                },
                refl,
                (refl, refl),
              )
      ]
]
