-- ===== src/Uart/Rx/Receive.antt =====
-- What `onDataWritten` of source/bluetooth/MicroBitUARTService.cpp leaves in the receive buffer.
use mathlib.Core.List.{flatten}
use codal_microbit_v2_fft.Base.{
  ℕ, ◌+◌, ◌-◌, ◌≡◌, refl, ap, ◌∙◌, sym, true, false, List, [], ◌∷◌, ◌++◌, append-nil, append_assoc,
  length, take, ◌==◌, if◌then◌else◌, arith, Bool-cases, inl, inr, take-zero, take-cons, take-nil,
}
use codal_microbit_v2_fft.Uart.Ring.{Ring, IsValid, has_space, put, contents, buffered_size}
use codal_microbit_v2_fft.Uart.Ring.Window.{
  has_space_lem, contents-put, put-IsValid, buffered_size-put, size-put, tail-put,
}
use codal_microbit_v2_fft.Uart.Rx.{
  Rx, Event, delim_match, head_match, rx_full, raise, raise_matches, notify_head, store, on_byte,
  on_data_written, asleep,
}

-- How many of the events are RX_FULL.
abbrev is_full : Event → ℕ
is_full rx_full = 1
is_full delim_match = 0
is_full head_match = 0

abbrev pub overflows : List Event → ℕ
overflows [] = 0
overflows (e ∷ es) = is_full e + overflows es

overflows-append : (es fs : List Event) → overflows (es ++ fs) ≡ overflows es + overflows fs
overflows-append [] fs = omega arith
overflows-append (e ∷ es) fs = omega (arith, overflows-append es fs)

-- The loop over the delimiters changes the events alone, and raises no RX_FULL.
raise_matches_lem :
    (s : Rx) (c : ℕ) (ds : List ℕ)
    → ((raise_matches s c ds).ring ≡ s.ring)
      × (overflows (raise_matches s c ds).events ≡ overflows s.events)
unfolding raise_matches raise
raise_matches_lem s c [] = (refl, refl)
raise_matches_lem s c (d ∷ ds) = ground (
  arith,
  raise_matches_lem (if d == c then raise s delim_match else s) c ds,
  overflows-append s.events (delim_match ∷ []),
)

notify_head_lem :
    (s : Rx)
    → ((notify_head s).ring ≡ s.ring) × (overflows (notify_head s).events ≡ overflows s.events)
unfolding notify_head raise
notify_head_lem s = ground (arith, overflows-append s.events (head_match ∷ []))

on_byte-space :
    (s : Rx) (c : ℕ)
    → has_space s.ring ≡ true
    → ((on_byte s c).ring ≡ put s.ring c) × (overflows (on_byte s c).events ≡ overflows s.events)
unfolding on_byte store
on_byte-space s c h = ground (
  arith,
  raise_matches_lem s c s.delimiters,
  notify_head_lem (store (raise_matches s c s.delimiters) c),
)

on_byte-full :
    (s : Rx) (c : ℕ)
    → has_space s.ring ≡ false
    → ((on_byte s c).ring ≡ s.ring) × (overflows (on_byte s c).events ≡ overflows s.events + 1)
unfolding on_byte raise
on_byte-full s c h = ground (arith, overflows-append s.events (rx_full ∷ []))

-- Room left in a ring.
abbrev pub free_space : Ring → ℕ
free_space r = r.size - 1 - buffered_size r

-- What a call leaves behind, started at `s` with the bytes `cs`.
pub record Received (s : Rx) (cs : List ℕ) (t : Rx) : Type 0 where
  pub valid : IsValid t.ring
  pub same_size : t.ring.size ≡ s.ring.size
  pub same_tail : t.ring.tail ≡ s.ring.tail
  pub bytes : contents t.ring ≡ contents s.ring ++ take (free_space s.ring) cs
  pub dropped : overflows t.events ≡ overflows s.events + (length cs - free_space s.ring)

Received-space :
    (s : Rx) (c : ℕ) (cs : List ℕ) (t : Rx)
    → IsValid s.ring
    → has_space s.ring ≡ true
    → Received (on_byte s c) cs t
    → Received s (c ∷ cs) t
Received-space s c cs t v h r =
    let step = on_byte-space s c h in
    let room : free_space (on_byte s c).ring ≡ free_space s.ring - 1 =
      rw (step.0, buffered_size-put c v h, size-put) (omega arith) in
    record {
      valid = r.valid;
      same_size = r.same_size ∙ ap Ring.size step.0 ∙ size-put s.ring c;
      same_tail = r.same_tail ∙ ap Ring.tail step.0 ∙ tail-put s.ring c;
      bytes = ground (
        arith,
        r.bytes,
        room,
        step,
        contents-put c v h,
        has_space_lem v,
        take-cons (free_space s.ring) c cs,
        append_assoc (contents s.ring) (c ∷ []) (take (free_space s.ring - 1) cs),
      );
      dropped = ground (arith, r.dropped, room, step, has_space_lem v);
    }

Received-full :
    (s : Rx) (c : ℕ) (cs : List ℕ) (t : Rx)
    → IsValid s.ring
    → has_space s.ring ≡ false
    → Received (on_byte s c) cs t
    → Received s (c ∷ cs) t
Received-full s c cs t v h r =
    let step = on_byte-full s c h in
    let none_left : free_space s.ring ≡ 0 = ground (arith, has_space_lem v) in
    record {
      valid = r.valid;
      same_size = r.same_size ∙ ap Ring.size step.0;
      same_tail = r.same_tail ∙ ap Ring.tail step.0;
      bytes = ground (
        arith,
        r.bytes,
        step,
        take-zero (free_space s.ring) (c ∷ cs),
        take-zero (free_space s.ring) cs,
      );
      dropped = ground (arith, r.dropped, step);
    }

-- Where the buffer is valid, `onDataWritten` keeps it so, appends the bytes that fit, in order, leaves those that
-- the buffer held in place, and raises one RX_FULL for each byte that it drops.
pub on_data_written-Received :
    (s : Rx) (cs : List ℕ) → IsValid s.ring → Received s cs (on_data_written s cs)
unfolding on_data_written
on_data_written-Received s [] v = record {
  valid = v;
  same_size = refl;
  same_tail = refl;
  bytes = rw (take-nil ℕ, append-nil);
  dropped = omega arith;
}
on_data_written-Received s (c ∷ cs) v = elim (Bool-cases (has_space s.ring)) [
  | inl h ↦
      Received-space s c cs _ v h
        (on_data_written-Received (on_byte s c) cs (rw (on_byte-space s c h).0 (put-IsValid c v)))
  | inr h ↦
      Received-full s c cs _ v h
        (on_data_written-Received (on_byte s c) cs (rw (on_byte-full s c h).0 v))
]

on_data_written-append :
    (s : Rx) (cs ds : List ℕ)
    → on_data_written s (cs ++ ds) ≡ on_data_written (on_data_written s cs) ds
unfolding on_data_written
on_data_written-append s [] ds = refl
on_data_written-append s (c ∷ cs) ds = on_data_written-append (on_byte s c) cs ds

-- Several writes are as one.
asleep-on_data_written :
    (s : Rx) (ws : List (List ℕ)) → asleep s ws ≡ on_data_written s (flatten ws)
unfolding asleep on_data_written flatten
asleep-on_data_written s [] = refl
asleep-on_data_written s (w ∷ ws) =
    asleep-on_data_written (on_data_written s w) ws ∙ sym (on_data_written-append s w (flatten ws))

-- What arrives in a sleep is received as one write of all of it.
pub asleep-Received :
    (s : Rx) (ws : List (List ℕ)) → IsValid s.ring → Received s (flatten ws) (asleep s ws)
asleep-Received s ws v =
    rw (asleep-on_data_written s ws) (on_data_written-Received s (flatten ws) v)
