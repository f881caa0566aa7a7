-- ===== src/Storage.antt =====
-- The storage of an instance, core/storage: the SPIFFS partition, the SD card, and the name of the
-- directory on the host that holds them.
pub mod Spiffs
pub mod SdCard
pub mod InstanceDirectory
mod Tests
