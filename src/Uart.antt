-- ===== src/Uart.antt =====
-- source/bluetooth/MicroBitUARTService.cpp: the BLE UART service. `Ring` is the circular buffer
-- that both directions use; `Rx` is the receiving side and `Until` its reading up to a delimiter;
-- `Tx` is the sending side.
pub mod Ring
pub mod Rx
pub mod Until
pub mod Tx
mod Tests
