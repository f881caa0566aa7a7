-- ===== src/Input.antt =====
-- The input devices, core/input.
pub mod Trackball
pub mod I2cKeyboard
pub mod Keyboard
pub mod MouseTouch
pub mod Manager
pub mod Gt911
pub mod WireShim
mod Tests
