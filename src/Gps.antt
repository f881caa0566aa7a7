-- ===== src/Gps.antt =====
-- The GPS receiver of a board, core/gps.
pub mod Uart
pub mod Movement
pub mod Satellites
mod Tests
