-- ===== src/Radio/Sending.antt =====
-- What the datagram protocol of source/MicroBitRadioDatagram.cpp sends and receives.
use mathlib.Core.Bool.{false≢true}
use codal_microbit_v2_fft.Base.{
  ℕ, zero, suc, ◌+◌, ◌-◌, ◌≤◌, ◌≡◌, ◌≢◌, refl, ap, ap₂, ◌∙◌, sym, arith, Bool, true, false, Option,
  take, ◌&&◌, none, some, List, [], ◌∷◌, ◌++◌, Code, Reply, value, Bytes, slice, memcpy, length,
  min, ltb, if◌then◌else◌, if-both, Bool-cases, inl, inr,
}
use codal_microbit_v2_fft.Radio.{
  Frame, Radio, header_size, protocol_datagram, send, datagram_send, datagram_recv, set_rssi,
  get_rssi, filled, on_end, idle_callback,
}
use codal_microbit_v2_fft.Radio.Queue.{IsSound, queue_rx_buf-append}
use codal_microbit_v2_fft.Radio.Idle.{idle_callback-Handled, datagrams_of}

-- A slice of a copy is a slice of what was copied.
slice-memcpy :
    (old src : Bytes) (n i k : ℕ) → i + k ≤ n → slice (memcpy old 0 src n) i k ≡ slice src i k
slice-memcpy old src n i zero h = refl
slice-memcpy old src n i (suc k) h =
    ap₂ ◌∷◌ (ground arith) (slice-memcpy old src n (suc i) k (omega arith))

-- The frame that carries `n` bytes.
abbrev pub datagram_frame_of : Bytes → ℕ → Frame
datagram_frame_of buffer n = record {
  len = n + header_size - 1;
  version = 1;
  group = 0;
  protocol = protocol_datagram;
  payload = memcpy (λ _. 0) 0 buffer n;
  rssi = value 0;
}

-- `send` of MicroBitRadioDatagram transmits a frame exactly when BLE is not running and there are at
-- most 32 bytes. The length of the frame is that of the bytes and three more.
pub datagram_send_lem :
    (r : Radio) (buffer : Bytes) (n : ℕ)
    → let (code, r') = datagram_send r buffer n in
      if ltb 32 n
      then (code ≢ Code.ok) × (r' ≡ r)
      else if r.ble_running
      then (code ≡ Code.not_supported) × (r' ≡ r)
      else (code ≡ Code.ok)
        × ((f : Frame) × (r'.sent ≡ r.sent ++ (f ∷ []))
            × (f.len ≡ n + 3)
            × (slice f.payload 0 n ≡ slice buffer 0 n))
unfolding datagram_send send
datagram_send_lem r buffer n = elim (Bool-cases (ltb 35 n)) [
  | inl far ↦ let past : ltb 32 n ≡ true = ground arith in rw (past, far) (λ e. cc, refl)
  | inr near ↦ elim (Bool-cases (ltb 32 n)) [
    | inl past ↦
        let refused : ltb 35 (n + header_size - 1) ≡ true = ground arith in
        elim (Bool-cases r.ble_running) [
          | inl b ↦ rw (past, near, b) (λ e. cc, refl)
          | inr b ↦ rw (past, near, b, refused) (λ e. cc, refl)
        ]
    | inr fits ↦
        let accepted : ltb 35 (n + header_size - 1) ≡ false = ground arith in
        elim (Bool-cases r.ble_running) [
          | inl b ↦ rw (fits, near, b) (refl, refl)
          | inr b ↦
              rw (fits, near, b, accepted)
                (
                  refl,
                  (
                    datagram_frame_of buffer n,
                    refl,
                    omega arith,
                    slice-memcpy (λ _. 0) buffer n 0 n (omega arith),
                  ),
                )
        ]
  ]
]

-- A datagram that waits is handed over whole to a caller with room for it, and leaves the queue.
received_lem :
    (r : Radio) (f : Frame) (fs : List Frame) (n room : ℕ)
    → r.datagrams ≡ f ∷ fs
    → f.len ≡ n + 3
    → n ≤ room
    → datagram_recv r room ≡ some (value (slice f.payload 0 n), record r { datagrams = fs })
unfolding datagram_recv
received_lem r f fs n room e l h =
    let whole : ltb f.len (header_size - 1) ≡ false = ground arith in
    let all : min room (f.len - (header_size - 1)) ≡ n = omega arith in rw (e, whole, all) refl

only_then {ℓ} : (A B : Type ℓ) (b : Bool) → b ≡ true → (if b && true then A else B) → A
only_then A B true e h = h
only_then A B false e h = absurd (false≢true e)

-- What the interrupt leaves of a frame that arrives whole at an empty queue.
record Arrived (s : Radio) (f : Frame) (t : Radio) : Type 0 where
  sound : IsSound t
  queue : t.rx_queue ≡ f ∷ []
  datagrams : t.datagrams ≡ s.datagrams

pub set_rssi_lem :
    (r : Radio) (n : ℕ)
    → IsSound r
    → IsSound (set_rssi r n)
      × ((set_rssi r n).rx_buf ≡ r.rx_buf)
      × ((set_rssi r n).rx_queue ≡ r.rx_queue)
      × ((set_rssi r n).datagrams ≡ r.datagrams)
unfolding set_rssi
set_rssi_lem r n v =
    let P : Radio → Type 0 = λ t.
      IsSound t × (t.rx_buf ≡ r.rx_buf) × (t.rx_queue ≡ r.rx_queue) × (t.datagrams ≡ r.datagrams) in
    if-both P r.initialised
      (λ _. (
        record {
          counted = v.counted;
          bounded = v.bounded;
          datagrams_bounded = v.datagrams_bounded;
        },
        refl,
        refl,
        refl,
      ))
      (λ _. (v, refl, refl, refl))

filled-some :
    (f old : Frame) (o : Option Frame)
    → o ≡ some old
    → filled f o ≡ some (record f { rssi = old.rssi })
filled-some f old none e = absurd (cc)
filled-some f old (some x) e = ap (λ o. filled f o) e

on_end-Arrived :
    (s : Radio) (old f : Frame) (sample : ℕ)
    → IsSound s
    → s.rx_queue ≡ []
    → s.rx_buf ≡ some old
    → (strength : Reply ℕ) × Arrived s (record f { rssi = strength }) (on_end s f true sample true)
unfolding on_end
on_end-Arrived s old f sample v e b =
    let t : Radio = record s { rx_buf = filled f s.rx_buf } in
    let q = set_rssi t sample in
    let set = set_rssi_lem t sample (record {
      counted = v.counted;
      bounded = v.bounded;
      datagrams_bounded = v.datagrams_bounded;
    }) in
    let done =
      queue_rx_buf-append q true (record f { rssi = old.rssi }) set.0
        (set.1 ∙ filled-some f old s.rx_buf b) in
    let room : ltb (length q.rx_queue) 4 ≡ true = ground (arith, ap length (set.2 ∙ e)) in
    let got = only_then _ _ (ltb (length q.rx_queue) 4) room done.2 in
    (
      get_rssi q,
      record {
        sound = done.0;
        queue = got.1 ∙ ap (λ xs. xs ++ (record f { rssi = get_rssi q } ∷ [])) (set.2 ∙ e);
        datagrams = done.1 ∙ set.3;
      },
    )

sends_frame :
    (r : Radio) (buffer : Bytes) (n : ℕ)
    → r.ble_running ≡ false
    → n ≤ 32
    → (datagram_send r buffer n).1.sent ≡ r.sent ++ (datagram_frame_of buffer n ∷ [])
unfolding datagram_send send
sends_frame r buffer n b h =
    let P : Code × Radio → Type 0 = λ o. o.1.sent ≡ r.sent ++ (datagram_frame_of buffer n ∷ []) in
    if-both P (ltb 35 n) (λ e. absurd (ground arith))
      (λ _.
        if-both P r.ble_running (λ e. absurd (false≢true (sym b ∙ e)))
          (λ _. if-both P (ltb 35 (n + header_size - 1)) (λ e. absurd (ground arith)) (λ _. refl)))

-- What one radio sends as a datagram of at most 32 bytes, while BLE is not running, another receives:
-- where that one is sound, has nothing queued, and has a receive buffer and memory for the next, its
-- caller gets the same bytes, once the frame has arrived whole and `idleCallback` has run, if it has
-- room for them.
pub datagram_recv-send :
    (r s : Radio) (old : Frame) (buffer : Bytes) (n room sample size : ℕ) (listens : Frame → Bool)
    → r.ble_running ≡ false
    → n ≤ 32
    → n ≤ room
    → IsSound s
    → s.rx_queue ≡ []
    → s.datagrams ≡ []
    → s.rx_buf ≡ some old
    → (f : Frame) × (u : Radio) × ((datagram_send r buffer n).1.sent ≡ r.sent ++ (f ∷ []))
      × (datagram_recv (idle_callback size listens (on_end s f true sample true)) room
          ≡ some (value (slice buffer 0 n), u))
datagram_recv-send r s old buffer n room sample size listens b h k v e d o =
    let f = datagram_frame_of buffer n in
    let it = on_end-Arrived s old f sample v e o in
    let g : Frame = record f { rssi = it.0 } in
    let t = on_end s f true sample true in
    let idle = idle_callback-Handled size listens t it.1.sound in
    let u = idle_callback size listens t in
    let waits : u.datagrams ≡ g ∷ [] =
      idle.datagrams
      ∙ ap₂ (λ ds q. take 5 (ds ++ datagrams_of q)) (it.1.datagrams ∙ d) it.1.queue in
    (
      f,
      record u { datagrams = [] },
      sends_frame r buffer n b h,
      received_lem u g [] n room waits (omega arith) k
          ∙ ap (λ q. some (value q, record u { datagrams = [] }))
              (slice-memcpy (λ _. 0) buffer n 0 n (omega arith)),
    )
