-- ===== src/PartialFlashing/Tests.antt =====
-- Instances of the theorems on source/bluetooth/MicroBitPartialFlashingService.cpp.
use codal_microbit_v2_fft.Base.{ℕ, ◌%◌, ◌≡◌, refl, arith, Bool, true, false, some, [], Bytes}
use codal_microbit_v2_fft.Nvm.{Nvm, flash_model}
use codal_microbit_v2_fft.MemoryMap.{Layout}
use codal_microbit_v2_fft.PartialFlashing.{Service, flash_data, on_data_written}
use codal_microbit_v2_fft.PartialFlashing.Events.{KeyStore, Board, partial_flashing_event}
use codal_microbit_v2_fft.PartialFlashing.Packets.{
  IsInStep, here, next, written, handled, Reaches-IsInStep,
}
use codal_microbit_v2_fft.PartialFlashing.Transfer.{packet_of}

abbrev nvm : Nvm
nvm = flash_model 16

-- Whether there is a record of an incomplete program.
abbrev store : KeyStore
store = record {
  Keys = Bool;
  has = λ k. k;
  put = λ _. true;
  remove = λ _. false;
  has-put = λ _. refl;
  has-remove = λ _. refl;
}

abbrev layout : Layout
layout = record {
  page_size = 4096;
  program_end = 5000;
  scratch = 16384;
  app_start = 4096;
  app_end = 16384;
}

abbrev board : Board
board = record {
  settings = λ i. i % 256;
  has_device = true;
  settings_size = 802;
  settings_page = 49152;
  mbr_params = 53248;
}

abbrev crc : Bytes → ℕ → ℕ
crc string n = n

-- A service in the middle of a block, over a flash with 7 everywhere.
abbrev midway : Service (ℕ → ℕ) Bool
midway = record {
  mem = λ _. 7;
  keys = false;
  packet_count = 2;
  block_packet_count = 0;
  block = λ _. 0;
  block_num = 2;
  offset = 8192;
  fs_start = 0;
  fs_end = 0;
  effects = [];
}

midway-IsInStep : IsInStep (λ _. 0) midway
midway-IsInStep = record {
  in_block = omega arith;
  blocks = omega arith;
  packets = refl;
  past_block = λ i far. refl;
}

abbrev program : Bytes
program i = i % 256

-- A packet with the wrong number restarts the block, one from the block before changes nothing.
restarts : (flash_data midway (packet_of 8192 100 program 0)).packet_count ≡ 4
unfolding flash_data
restarts = refl

ignores : flash_data midway (packet_of 8192 0 program 1) ≡ midway
unfolding flash_data
ignores = refl

abbrev third : Service (ℕ → ℕ) Bool
third = flash_data midway (packet_of 8192 0 program 2)

third_written : on_data_written nvm layout crc 1 midway (packet_of 8192 0 program 2) 20 ≡ some third
unfolding on_data_written
third_written = refl

Reaches-IsInStep_example : IsInStep (λ _. 0) (partial_flashing_event nvm store board third 1)
Reaches-IsInStep_example =
    Reaches-IsInStep nvm layout store board (λ _. 0)
      (next (next here (written crc 1 midway third (packet_of 8192 0 program 2) 20 third_written))
        (handled third 1))
      midway-IsInStep
