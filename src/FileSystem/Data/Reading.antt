-- ===== src/FileSystem/Data/Reading.antt =====
-- What `read` of source/MicroBitFileSystem.cpp copies: the bytes of the file, which are those of its
-- blocks one after the other.
use codal_microbit_v2_fft.Nvm.{Nvm}
use codal_microbit_v2_fft.FileSystem.{FileSystem}
