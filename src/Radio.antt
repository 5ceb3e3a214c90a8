-- ===== src/Radio.antt =====
-- source/MicroBitRadio.cpp, source/MicroBitRadioDatagram.cpp and source/MicroBitRadioEvent.cpp: frames
-- received by interrupt are queued, and handed to the datagram and event protocols when the processor
-- is idle. The registers of the transceiver are hardware; of them only what was sent is kept. The
-- linked lists of frames are lists, the head first.
pub mod Queue
pub mod Idle
pub mod Sending
pub mod Sound
pub mod Control
mod Tests
use codal_microbit_v2_fft.Base.{
  ℕ, ◌+◌, ◌-◌, ◌%◌, ◌^◌, Bool, true, false, not, Option, none, some, List, [], ◌∷◌, ◌++◌, Code,
  Reply, value, error, Bytes, memcpy, slice, length, min, ltb, leb, ◌==◌, if◌then◌else◌,
}

abbrev pub max_packet_size : ℕ
max_packet_size = 32

abbrev pub header_size : ℕ
header_size = 4

-- MICROBIT_RADIO_MAXIMUM_RX_BUFFERS
abbrev pub max_rx_buffers : ℕ
max_rx_buffers = 4

abbrev pub protocol_datagram : ℕ
protocol_datagram = 1

abbrev pub protocol_eventbus : ℕ
protocol_eventbus = 2

-- `FrameBuffer`, but for its link. An `rssi` of `value n` is -n dBm.
pub record Frame : Type 0 where
  pub len : ℕ
  pub version : ℕ
  pub group : ℕ
  pub protocol : ℕ
  pub payload : Bytes
  pub rssi : Reply ℕ

-- The state of MicroBitRadio, with `irq_enabled` of RADIO_IRQn, of its `datagram` (`datagrams` is its queue, `datagram_events` counts
-- MICROBIT_RADIO_EVT_DATAGRAM) and of its `event` (`suppress_forwarding`). `sent` lists the frames
-- transmitted, `fired` the events put on the bus, `data_ready` the values of the DATA_READY events.
pub record Radio : Type 0 where
  pub initialised : Bool
  pub ble_running : Bool
  pub irq_enabled : Bool
  pub rssi : ℕ
  pub rx_buf : Option Frame
  pub rx_queue : List Frame
  pub queue_depth : ℕ
  pub datagrams : List Frame
  pub datagram_events : ℕ
  pub suppress_forwarding : Bool
  pub sent : List Frame
  pub fired : List Bytes
  pub data_ready : List ℕ

-- `setRSSI` and `getRSSI`
pub set_rssi : Radio → ℕ → Radio
set_rssi r n = if r.initialised then record r { rssi = n } else r

pub get_rssi : Radio → Reply ℕ
get_rssi r = if r.initialised then value (r.rssi) else error Code.not_supported

abbrev pub fresh_frame : Frame
fresh_frame = record {
  len = 0;
  version = 0;
  group = 0;
  protocol = 0;
  payload = λ _. 0;
  rssi = value 0;
}

-- The part of `queueRxBuf` after its tests: the buffer `f` goes to the end of the queue, and a new
-- one takes its place.
abbrev pub enqueue : Radio → Frame → Radio
enqueue r f = record r {
  rx_queue = r.rx_queue ++ (record f { rssi = get_rssi r } ∷ []);
  queue_depth = (r.queue_depth + 1) % 2 ^ 8;
  rx_buf = some fresh_frame;
}

abbrev pub queue_frame : Radio → Bool → Option Frame → Code × Radio
queue_frame r allocates none = (Code.invalid_parameter, r)
queue_frame r allocates (some f) =
    if leb max_rx_buffers r.queue_depth
    then (Code.no_resources, r)
    else if allocates
    then (Code.ok, enqueue r f)
    else (Code.no_resources, record r { rx_buf = some (record f { rssi = get_rssi r }) })

-- `queueRxBuf`; `allocates` is whether `new` returns a buffer.
pub queue_rx_buf : Radio → Bool → Code × Radio
queue_rx_buf r allocates = queue_frame r allocates r.rx_buf

abbrev pub filled : Frame → Option Frame → Option Frame
filled f none = none
filled f (some old) = some (record f { rssi = old.rssi })

-- The end of a reception in RADIO_IRQHandler: the hardware has stored the frame `f` in the receive
-- buffer; `crc_ok` is CRCSTATUS and `sample` is RSSISAMPLE.
pub on_end : Radio → Frame → Bool → ℕ → Bool → Radio
on_end r f crc_ok sample allocates =
    let r' : Radio = record r { rx_buf = filled f r.rx_buf } in
    if crc_ok then (queue_rx_buf (set_rssi r' sample) allocates).1 else set_rssi r' 0

abbrev pub first_frame : Radio → List Frame → Option Frame × Radio
first_frame r [] = (none, r)
first_frame r (f ∷ fs) =
    let r1 : Radio = record r { irq_enabled = false } in
    let r2 : Radio = record r1 { rx_queue = fs; queue_depth = (r1.queue_depth + 255) % 2 ^ 8 } in
    (some f, record r2 { irq_enabled = true })

-- `recv`
unfoldable pub recv : Radio → Option Frame × Radio
recv r = first_frame r r.rx_queue

-- `MicroBitRadio::send`, for a frame that is not NULL
pub send : Radio → Frame → Code × Radio
send r f =
    if r.ble_running
    then (Code.not_supported, r)
    else if ltb (max_packet_size + header_size - 1) f.len
    then (Code.invalid_parameter, r)
    else (
      Code.ok,
      (let r1 : Radio = record r { irq_enabled = false } in
          let r2 : Radio = record r1 { sent = r1.sent ++ (f ∷ []) } in
          record r2 { irq_enabled = true }),
    )

-- The number of links that `packetReceived` follows to the end of the queue.
abbrev pub links : List Frame → ℕ
links [] = 0
links (f ∷ fs) = length fs

abbrev pub accept : List Frame → Frame → Radio → Radio
accept [] f r = record r { datagrams = f ∷ []; datagram_events = r.datagram_events + 1 }
accept (g ∷ gs) f r =
    if leb max_rx_buffers (length gs)
    then r
    else record r { datagrams = (g ∷ gs) ++ (f ∷ []); datagram_events = r.datagram_events + 1 }

abbrev datagram_frame : Option Frame × Radio → Radio
datagram_frame (none, r) = r
datagram_frame (some f, r) = accept r.datagrams f r

-- `MicroBitRadioDatagram::packetReceived`, which is called with a frame in the queue
unfoldable pub datagram_received : Radio → Radio
datagram_received r = datagram_frame (recv r)

-- `MicroBitRadioEvent::eventReceived`; `size` is `sizeof(Event)`, a type of codal-core.
unfoldable pub event_received : ℕ → Radio → Bytes → Radio
event_received size r e =
    if r.suppress_forwarding
    then r
    else (send r (record {
      len = size + header_size - 1;
      version = 1;
      group = 0;
      protocol = protocol_eventbus;
      payload = memcpy (λ _. 0) 0 e size;
      rssi = value 0;
    })).1

abbrev pub fire : ℕ → Bool → Radio → Bytes → Radio
fire size listens r e =
    let r' : Radio = record r { fired = r.fired ++ (e ∷ []) } in
    if listens then event_received size r' e else r'

abbrev event_frame : ℕ → Bool → Option Frame × Radio → Radio
event_frame size listens (none, r) = r
event_frame size listens (some f, r) =
    record (fire size listens (record r { suppress_forwarding = true }) f.payload) {
      suppress_forwarding = false;
    }

-- `MicroBitRadioEvent::packetReceived`; `listens` is whether the event fired is one of those that
-- were registered with `listen`.
unfoldable pub event_packet_received : ℕ → Bool → Radio → Radio
event_packet_received size listens r = event_frame size listens (recv r)

-- A round of `idleCallback` with the frame `f` at the head of the queue; `listens f` is whether its
-- event is registered. No listener of DATA_READY calls `recv` here, so a frame of another protocol is
-- taken off the queue and freed.
unfoldable pub dispatch : ℕ → (Frame → Bool) → Frame → Radio → Radio
dispatch size listens f r =
    if f.protocol == protocol_datagram
    then datagram_received r
    else if f.protocol == protocol_eventbus
    then event_packet_received size (listens f) r
    else (recv (record r { data_ready = r.data_ready ++ (f.protocol ∷ []) })).1

-- `idleCallback`, with a round for each frame of `queue`, which is the one of `r`
unfoldable pub idle_rounds : ℕ → (Frame → Bool) → List Frame → Radio → Radio
idle_rounds size listens [] r = r
idle_rounds size listens (f ∷ fs) r = idle_rounds size listens fs (dispatch size listens f r)

pub idle_callback : ℕ → (Frame → Bool) → Radio → Radio
idle_callback size listens r = idle_rounds size listens r.rx_queue r

-- `MicroBitRadioDatagram::recv(buf, len)`: the bytes stored into `buf`, whose number the code
-- returns. `none` stands for a `memcpy` of a negative number of bytes, which is undefined: the code
-- does it where a frame is shorter than its header.
abbrev pub datagram_of : Radio → ℕ → List Frame → Option (Reply (List ℕ) × Radio)
datagram_of r len [] = some (error Code.invalid_parameter, r)
datagram_of r len (f ∷ fs) =
    if ltb f.len (header_size - 1)
    then none
    else some (
      value (slice f.payload 0 (min len (f.len - (header_size - 1)))),
      record r { datagrams = fs },
    )

pub datagram_recv : Radio → ℕ → Option (Reply (List ℕ) × Radio)
datagram_recv r len = datagram_of r len r.datagrams

-- `MicroBitRadioDatagram::send(buffer, len)`. Of more than 32 bytes, those past the payload are stored
-- into the link of the frame, which nothing reads.
pub datagram_send : Radio → Bytes → ℕ → Code × Radio
datagram_send r buffer len =
    if ltb (max_packet_size + header_size - 1) len
    then (Code.invalid_parameter, r)
    else send r (record {
      len = len + header_size - 1;
      version = 1;
      group = 0;
      protocol = protocol_datagram;
      payload = memcpy (λ _. 0) 0 buffer len;
      rssi = value 0;
    })
