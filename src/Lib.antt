-- ===== src/Lib.antt =====
-- A model of parts of the micro:bit v2 support library of CODAL, with the theorems that make them
-- correct.
--
-- The parts. The BLE UART service (source/bluetooth/MicroBitUARTService.cpp) receives bytes from a
-- central device into a circular buffer, lets fibers read them by number or up to a delimiter, and
-- sends bytes in blocks of 20, each confirmed by the device. The block cache (source/FSCache.cpp)
-- stands between the log and the file system on one side and the flash on the other: it writes
-- through, and only what needs no erase. MicroBitFlash (source/MicroBitFlash.cpp) writes bytes
-- where an erase may be needed, by way of a scratch page. The radio (source/MicroBitRadio.cpp)
-- queues the frames that arrive and hands them to its datagram and event protocols. The data log
-- (source/MicroBitLog.cpp) gathers rows of named columns and writes them as lines of
-- comma-separated text. The file system (source/MicroBitFileSystem.cpp) keeps files and directories
-- as chains of blocks in a table, both in flash, and writes by way of MicroBitFlash. The memory map
-- (source/MicroBitMemoryMap.cpp) finds the regions of a PXT or Python build in the flash; the
-- partial flashing service (source/bluetooth/MicroBitPartialFlashingService.cpp) tells them to a
-- client over BLE and writes a new program to the flash in blocks of four packets. The USB flash
-- manager (source/MicroBitUSBFlashManager.cpp) keeps the storage and the settings of the MICROBIT
-- drive in the USB interface chip, by requests and responses over I2C.
--
-- Which file models what:
-- - Base: Boolean tests, lists over the native numbers, arrays as functions of the index, bit
--   operations, and the error codes.
-- - Nvm: the interface of codal::NVMController, which is in codal-core. A write clears bits, as in
--   NOR flash. `flash_model` is an instance.
-- - Uart.Ring: the circular buffer of both directions; `rxBuffer`, `rxBufferHead`, `rxBufferTail`
--   and `rxBufferSize` are a record, and so are the four of the sending side. Uart.Ring.Window has
--   the bytes that a ring holds, as a list.
-- - Uart.Rx: onDataWritten, getc, read, eventOn and eventAfter. Uart.Rx.Receive and Uart.Rx.Reading
--   have the theorems.
-- - Uart.Until: readUntil and circularCopy; Uart.Until.Lines for what is held, Uart.Until.Waiting
--   for what arrives while the fiber sleeps.
-- - Uart.Tx: send, sendNext, onConfirmation and onDisconnect; Uart.Tx.Stream, Fill, Sending,
--   Sleeping and Progress.
-- - FsCache: CacheEntry, getCacheEntry, cachePage, pin, unpin, erase and clear; FsCache.Coherent
--   has the invariant and FsCache.Replacement the choice of the entry to replace.
-- - FsCache.Access: read and write; one child module for the block arithmetic and one for each
--   loop.
-- - Flash: source/MicroBitFlash.cpp, need_erase and flash_write; Flash.Burn has the loop that
--   gathers and writes words, Flash.Cells and Flash.Whole the function as a whole.
-- - Radio: source/MicroBitRadio.cpp with the queue of received frames, and the datagram and event
--   protocols on it, source/MicroBitRadioDatagram.cpp and source/MicroBitRadioEvent.cpp.
--   Radio.Control has enable, disable, setSleep, setGroup, setTransmitPower and setFrequencyBand with
--   the registers they write. Radio.Queue, Radio.Idle, Radio.Sending and Radio.Control.Sleeping have
--   the theorems on single calls, Radio.Control.Steps those on any sequence of interrupts and calls.
-- - Packet: source/PacketBuffer.cpp, buffers that share their bytes, over a store; Packet.Sharing has
--   the theorems.
-- - Log: source/MicroBitLog.cpp, the columns of the data log: cleanBuffer, logData, addHeading and
--   the text of a row. Log.Clean and Log.Rows have the theorems. Log.Storage has writeNum and
--   logString with the journal, over the cache of FsCache, and Log.Session beginRow, logData, endRow
--   and setTimeStamp on a log in flash, Log.Setup clear, isPresent and invalidate, Log.Setup.Loading
--   init; Log.Storage.Written, Log.Storage.Numbers, Log.Session.Ended,
--   Log.Setup.Invalid, and below Log.Setup.Loading Whole and Made, have the theorems.
-- - FileSystem: source/MicroBitFileSystem.cpp and inc/MicroBitFileSystem.h, the members, the table
--   and the entries of a directory. FileSystem.Blocks has getFreeBlock, getFreePage, recycleBlock and
--   recycleFileTable, FileSystem.Directory the names and directories with createFile and
--   createDirectory, FileSystem.Mount init, load and format, FileSystem.Data read, write, writeBuffer
--   and writeBack, FileSystem.Open open, flush, close, seek and remove, FileSystem.Handle
--   source/MicroBitFile.cpp. FileSystem.Chains and
--   FileSystem.Table have what their theorems share: chains of blocks, and what a write to the table
--   does to its entries, from the theorem on flash_write.
-- - MemoryMap: source/MicroBitMemoryMap.cpp and inc/MicroBitMemoryMap.h, pushRegion, updateRegion,
--   findHashes, processRecord and the constructor, over the flash as bytes; MemoryMap.Finding has the
--   theorem.
-- - PartialFlashing: source/bluetooth/MicroBitPartialFlashingService.cpp, onDataWritten and flashData;
--   PartialFlashing.Events has partialFlashingEvent and noValidation. PartialFlashing.Packets has the
--   steps of the service and what they keep, Transfer and Writing what one block does, Program and
--   Sending a client that sends a program, Finishing the end of a transmission.
-- - UsbFlash: source/MicroBitUSBFlashManager.cpp, transact, getGeometry, remount and eraseConfig, with
--   htonl of source/MicroBitCompat.cpp; UsbFlash.Memory has read, write and erase, and
--   UsbFlash.Configuration getConfiguration and setConfiguration. UsbFlash.Chip has the protocol of
--   the chip, Exchange what transact does over any bus, Writing and Erasing what the chip stores.
--
-- How state and time are modelled. Each function takes the state and returns the new one. A fiber
-- that sleeps is resumed by the scheduler of codal-core; what the central device does meanwhile is
-- an argument, a list for each sleep. `send` in mode SYNC_SLEEP returns `none` where the lists run
-- out before it ends. Events are kept in a list, or counted, in the order in which they are raised.
--
-- Numbers. The indices of the UART are `uint8_t`, the counts of the cache `uint16_t` and its
-- addresses `uint32_t`; the radio's count of frames is a `uint8_t`; stores wrap as written. Lengths
-- are `int` and the model is of those that are not negative. A `char` is a number from 0 to 255, as
-- on ARM.
--
-- Fuel. `find_delimiter` and `circular_copy` go round a ring and take its size as fuel: an index
-- reaches the head in fewer steps. The loops of FsCache.Access and of logString take the length:
-- each round copies at least one byte. padString has a round for each digit and one more. The loops
-- of FileSystem over the table, which a damaged table can make endless, have 65536 rounds, as many as
-- there are block numbers, and those over directory entries as many as all blocks hold; after them
-- they give `none`, and the theorems show that they end where the table holds a chain. findHashes has
-- a round for each byte below the scratch page and one more, and each goes on by a page. `transact`
-- of the USB flash manager has its own limit of 20 attempts; the loop of its erase has a round for
-- each block of the storage and one more, and gives `none` where it would pass the last block. The
-- loops of init of the log over its headings have a round for each byte of the flash, and give `none`
-- after them; those over the journal and the data have as many rounds as there are places.
--
-- Parameters. The size of an Event is a type's of codal-core and an argument; so is whether `new`
-- returns a buffer, and which events are registered for forwarding. The sizes of the file system's
-- blocks and cache, the addresses that the linker and the board fix and the content of uninitialised
-- locals are a record, `Config`. `crc32_compute` of the nRF SDK is an argument of processRecord. The
-- key of the key value storage that the partial flashing service uses is a record of operations with
-- their laws, `KeyStore`, and the bootloader's settings are a constant of the record `Board`. The I2C
-- bus with the interface chip behind it is a record `Bus`; `Chip` has the laws of a chip that works. The
-- constants of the radio's registers in the vendor's headers are a record, `Transceiver`.
-- The header of the log, a text of 2048 bytes, is an argument; `strtoul` of the C library is written
-- out.
--
-- Not modelled: the counting of references, interrupts between the rounds of `idleCallback`, the loops
-- that wait for the radio's hardware, writes past the end of a local buffer in the file system,
-- the characteristics of the BLE stack beyond the calls above, memory allocation, debug output, and
-- the parts of the repository that drive hardware.
pub mod Base
pub mod Nvm
pub mod Uart
pub mod FsCache
pub mod FileSystem
pub mod Flash
pub mod Log
pub mod MemoryMap
pub mod Packet
pub mod PartialFlashing
pub mod Radio
pub mod UsbFlash
