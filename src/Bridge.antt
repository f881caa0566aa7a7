-- ===== src/Bridge.antt =====
-- The C interface of the emulator, core/bridge.
pub mod Flash
mod Tests
