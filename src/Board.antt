-- ===== src/Board.antt =====
-- The virtual board and its flash, core/board.
pub mod Nvs
pub mod Partition
pub mod State
pub mod Power
pub mod Psram
pub mod Adc
pub mod Rtc
pub mod Battery
pub mod Watchdog
mod Tests
