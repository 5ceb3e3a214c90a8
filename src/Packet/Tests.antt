-- ===== src/Packet/Tests.antt =====
-- Instances of the theorems on source/PacketBuffer.cpp.
use codal_microbit_v2_fft.Base.{◌≡◌, ◌&&◌, Code, value, of_list, [], ◌∷◌, ltb, ◌==◌, if◌then◌else◌}
use codal_microbit_v2_fft.Packet.{Store, set_byte, get_byte}
use codal_microbit_v2_fft.Packet.Sharing.{get_byte-set_byte}

-- Two buffers with the same three bytes.
abbrev two_buffers : Store
two_buffers = record {
  at = λ p. record { rssi = 60; len = 3; payload = of_list (1 ∷ 2 ∷ 3 ∷ []) };
  next = 2;
}

get_byte-set_byte_example :
    let (code, s') = set_byte two_buffers 0 1 9 in
    if ltb 1 (two_buffers.at 0).len
    then (code ≡ Code.ok)
      × (get_byte s' 0 1 ≡ (if 0 == 0 && 1 == 1 then value 9 else get_byte two_buffers 0 1))
    else (code ≡ Code.invalid_parameter) × (get_byte s' 0 1 ≡ get_byte two_buffers 0 1)
get_byte-set_byte_example = get_byte-set_byte two_buffers 0 0 1 1 9
