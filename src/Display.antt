-- ===== src/Display.antt =====
-- The display, core/display.
pub mod SharedSpi
pub mod Framebuffer
pub mod St7789
mod Tests
