-- ===== src/Radio.antt =====
-- The virtual LoRa network, core/radio_bus.
pub mod Airtime
pub mod Types
pub mod Propagation
pub mod Overlap
pub mod Channel
pub mod Bus
pub mod Delivery
pub mod Session
mod Tests
