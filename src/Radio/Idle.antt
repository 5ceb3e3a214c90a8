-- ===== src/Radio/Idle.antt =====
-- What `idleCallback` of source/MicroBitRadio.cpp does with the frames that are queued.
use codal_microbit_v2_fft.Base.{
  ℕ, zero, suc, ◌+◌, ◌%◌, ◌^◌, ◌≤◌, ◌≡◌, refl, ap, ◌∙◌, sym, arith, Bool, true, false, some, List,
  [], ◌∷◌, ◌++◌, Bytes, length, leb, ◌==◌, if◌then◌else◌, Bool-cases, inl, inr, length-append,
  length-take, take, take-append, take-all, append_assoc, append-nil,
}
use codal_microbit_v2_fft.Radio.{
  Frame, Radio, max_rx_buffers, protocol_datagram, protocol_eventbus, fire, accept, recv,
  datagram_received, event_received, event_packet_received, dispatch, idle_rounds, idle_callback,
}
use codal_microbit_v2_fft.Radio.Queue.{IsSound}

-- The frames of a queue that are datagrams, the events of those that carry one, and the protocols of
-- the others.
abbrev pub datagrams_of : List Frame → List Frame
datagrams_of [] = []
datagrams_of (f ∷ fs) =
    let rest = datagrams_of fs in if f.protocol == protocol_datagram then f ∷ rest else rest

abbrev pub events_of : List Frame → List Bytes
events_of [] = []
events_of (f ∷ fs) =
    let rest = events_of fs in
    if f.protocol == protocol_datagram
    then rest
    else if f.protocol == protocol_eventbus
    then f.payload ∷ rest
    else rest

abbrev pub others_of : List Frame → List ℕ
others_of [] = []
others_of (f ∷ fs) =
    let rest = others_of fs in
    if f.protocol == protocol_datagram
    then rest
    else if f.protocol == protocol_eventbus
    then rest
    else f.protocol ∷ rest

-- What a call leaves, where the queue was `fs` followed by `rest`.
pub record Handled (r : Radio) (fs rest : List Frame) (r' : Radio) : Type 0 where
  pub sound : IsSound r'
  pub queue : r'.rx_queue ≡ rest
  pub datagrams : r'.datagrams ≡ take (suc max_rx_buffers) (r.datagrams ++ datagrams_of fs)
  pub fired : r'.fired ≡ r.fired ++ events_of fs
  pub data_ready : r'.data_ready ≡ r.data_ready ++ others_of fs
  pub sent : r'.sent ≡ r.sent

-- The state with the head of the queue taken off.
abbrev tail_state : Radio → List Frame → Radio
tail_state r fs = record r {
  rx_queue = fs;
  queue_depth = (r.queue_depth + 255) % 2 ^ 8;
  irq_enabled = true;
}

pub recv_cons :
    (r : Radio) (f : Frame) (fs : List Frame)
    → r.rx_queue ≡ f ∷ fs
    → recv r ≡ (some f, tail_state r fs)
unfolding recv
recv_cons r f fs e = rw e refl

pub tail-IsSound :
    (r : Radio) (f : Frame) (fs : List Frame)
    → IsSound r
    → r.rx_queue ≡ f ∷ fs
    → IsSound (tail_state r fs)
tail-IsSound r f fs v e = record {
  counted = omega (arith, v.counted, v.bounded, ap length e);
  bounded = omega (arith, v.bounded, ap length e);
  datagrams_bounded = v.datagrams_bounded;
}

-- Frames under way to the bus are not sent out again.
fire_suppressed :
    (size : ℕ) (listens : Bool) (r : Radio) (e : Bytes)
    → r.suppress_forwarding ≡ true
    → fire size listens r e ≡ record r { fired = r.fired ++ (e ∷ []) }
unfolding event_received
fire_suppressed size false r e h = refl
fire_suppressed size true r e h = rw h refl

-- What does not change when a datagram is queued.
record SameButDatagrams (r r' : Radio) : Type 0 where
  queue : r'.rx_queue ≡ r.rx_queue
  depth : r'.queue_depth ≡ r.queue_depth
  fired : r'.fired ≡ r.fired
  data_ready : r'.data_ready ≡ r.data_ready
  sent : r'.sent ≡ r.sent

accept_lem :
    (ds : List Frame) (f : Frame) (r : Radio)
    → r.datagrams ≡ ds
    → length ds ≤ suc max_rx_buffers
    → SameButDatagrams r (accept ds f r)
      × ((accept ds f r).datagrams ≡ take (suc max_rx_buffers) (ds ++ (f ∷ [])))
accept_lem [] f r e h =
    (record { queue = refl; depth = refl; fired = refl; data_ready = refl; sent = refl }, refl)
accept_lem (g ∷ gs) f r e h = elim (Bool-cases (leb max_rx_buffers (length gs))) [
  | inl full ↦ rw full (
    record { queue = refl; depth = refl; fired = refl; data_ready = refl; sent = refl },
    e ∙ sym (take-append 5 (g ∷ gs) (f ∷ []) (ground arith) ∙ take-all 5 (g ∷ gs) h),
  )
  | inr room ↦ rw room (
    record { queue = refl; depth = refl; fired = refl; data_ready = refl; sent = refl },
    sym (take-all 5 ((g ∷ gs) ++ (f ∷ [])) (ground (arith, length-append (g ∷ gs) (f ∷ [])))),
  )
]

dispatch-Handled :
    (size : ℕ) (listens : Frame → Bool) (r : Radio) (f : Frame) (fs : List Frame)
    → IsSound r
    → r.rx_queue ≡ f ∷ fs
    → Handled r (f ∷ []) fs (dispatch size listens f r)
unfolding dispatch datagram_received event_packet_received
dispatch-Handled size listens r f fs v e = elim (Bool-cases (f.protocol == protocol_datagram)) [
  | inl h ↦
      rw (h, recv_cons r f fs e)
        (let t = tail_state r fs in
          let s = tail-IsSound r f fs v e in
          let got = accept_lem r.datagrams f t refl v.datagrams_bounded in
          record {
            sound = record {
              counted = got.0.depth ∙ (s.counted ∙ sym (ap length got.0.queue));
              bounded = omega (arith, s.bounded, ap length got.0.queue);
              datagrams_bounded =
                  omega (arith, ap length got.1, length-take 5 (r.datagrams ++ (f ∷ [])));
            };
            queue = got.0.queue;
            datagrams = rw h got.1;
            fired = rw h (got.0.fired ∙ sym (append-nil r.fired));
            data_ready = rw h (got.0.data_ready ∙ sym (append-nil r.data_ready));
            sent = got.0.sent;
          })
  | inr h ↦ elim (Bool-cases (f.protocol == protocol_eventbus)) [
    | inl k ↦
        rw (h, k, recv_cons r f fs e)
          (let s = tail-IsSound r f fs v e in
            rw
              (fire_suppressed size (listens f)
                (record (tail_state r fs) { suppress_forwarding = true }) f.payload refl)
              record {
                sound = record {
                  counted = s.counted;
                  bounded = s.bounded;
                  datagrams_bounded = s.datagrams_bounded;
                };
                queue = refl;
                datagrams =
                    rw (h, append-nil r.datagrams)
                      (sym (take-all 5 r.datagrams v.datagrams_bounded));
                fired = rw (h, k) refl;
                data_ready = rw (h, k) (sym (append-nil r.data_ready));
                sent = refl;
              })
    | inr k ↦
        rw (h, k)
          (let s = tail-IsSound r f fs v e in
            rw (recv_cons (record r { data_ready = r.data_ready ++ (f.protocol ∷ []) }) f fs e)
              record {
                sound = record {
                  counted = s.counted;
                  bounded = s.bounded;
                  datagrams_bounded = s.datagrams_bounded;
                };
                queue = refl;
                datagrams =
                    rw (h, append-nil r.datagrams)
                      (sym (take-all 5 r.datagrams v.datagrams_bounded));
                fired = rw (h, k) (sym (append-nil r.fired));
                data_ready = rw (h, k) refl;
                sent = refl;
              })
  ]
]

take-take-append :
    {A : Type 0} (n : ℕ) (xs ys : List A) → take n (take n xs ++ ys) ≡ take n (xs ++ ys)
take-take-append zero xs ys = refl
take-take-append (suc n) [] ys = refl
take-take-append (suc n) (x ∷ xs) ys = ap (λ q. x ∷ q) (take-take-append n xs ys)

datagrams_of-cons :
    (f : Frame) (fs : List Frame) → datagrams_of (f ∷ fs) ≡ datagrams_of (f ∷ []) ++ datagrams_of fs
datagrams_of-cons f fs = elim (Bool-cases (f.protocol == protocol_datagram)) [
  | inl h ↦ rw h refl
  | inr h ↦ rw h refl
]

events_of-cons :
    (f : Frame) (fs : List Frame) → events_of (f ∷ fs) ≡ events_of (f ∷ []) ++ events_of fs
events_of-cons f fs = elim (Bool-cases (f.protocol == protocol_datagram)) [
  | inl h ↦ rw h refl
  | inr h ↦ elim (Bool-cases (f.protocol == protocol_eventbus)) [
    | inl k ↦ rw (h, k) refl
    | inr k ↦ rw (h, k) refl
  ]
]

others_of-cons :
    (f : Frame) (fs : List Frame) → others_of (f ∷ fs) ≡ others_of (f ∷ []) ++ others_of fs
others_of-cons f fs = elim (Bool-cases (f.protocol == protocol_datagram)) [
  | inl h ↦ rw h refl
  | inr h ↦ elim (Bool-cases (f.protocol == protocol_eventbus)) [
    | inl k ↦ rw (h, k) refl
    | inr k ↦ rw (h, k) refl
  ]
]

Handled-cons :
    (r s t : Radio) (f : Frame) (fs : List Frame)
    → Handled r (f ∷ []) fs s
    → Handled s fs [] t
    → Handled r (f ∷ fs) [] t
Handled-cons r s t f fs a b = record {
  sound = b.sound;
  queue = b.queue;
  datagrams =
      b.datagrams
      ∙ (ap (λ q. take 5 (q ++ datagrams_of fs)) a.datagrams
          ∙ (take-take-append 5 (r.datagrams ++ datagrams_of (f ∷ [])) (datagrams_of fs)
              ∙ ap (take 5) (
                  append_assoc r.datagrams _ _
                  ∙ ap (λ q. r.datagrams ++ q) (sym (datagrams_of-cons f fs)))));
  fired =
      b.fired
      ∙ (ap (λ q. q ++ events_of fs) a.fired
          ∙ (append_assoc r.fired _ _ ∙ ap (λ q. r.fired ++ q) (sym (events_of-cons f fs))));
  data_ready =
      b.data_ready
      ∙ (ap (λ q. q ++ others_of fs) a.data_ready
          ∙ (append_assoc r.data_ready _ _
              ∙ ap (λ q. r.data_ready ++ q) (sym (others_of-cons f fs))));
  sent = b.sent ∙ a.sent;
}

idle_rounds-Handled :
    (size : ℕ) (listens : Frame → Bool) (fs : List Frame) (r : Radio)
    → IsSound r
    → r.rx_queue ≡ fs
    → Handled r fs [] (idle_rounds size listens fs r)
unfolding idle_rounds
idle_rounds-Handled size listens [] r v e = record {
  sound = v;
  queue = e;
  datagrams = rw (append-nil r.datagrams) (sym (take-all 5 r.datagrams v.datagrams_bounded));
  fired = sym (append-nil r.fired);
  data_ready = sym (append-nil r.data_ready);
  sent = refl;
}
idle_rounds-Handled size listens (f ∷ fs) r v e =
    let first = dispatch-Handled size listens r f fs v e in
    Handled-cons r _ _ f fs first (idle_rounds-Handled size listens fs _ first.sound first.queue)

-- Where the queue is sound, `idleCallback` empties it and keeps it sound. The datagrams go behind
-- those that wait, up to five in all; the events go to the bus, in order, and none is sent out
-- again; for each other frame a DATA_READY event with its protocol is raised.
pub idle_callback-Handled :
    (size : ℕ) (listens : Frame → Bool) (r : Radio)
    → IsSound r
    → Handled r r.rx_queue [] (idle_callback size listens r)
unfolding idle_callback
idle_callback-Handled size listens r v = idle_rounds-Handled size listens r.rx_queue r v refl
