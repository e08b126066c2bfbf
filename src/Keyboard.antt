-- ===== src/Keyboard.antt =====
-- kernel/src/drivers/keyboard.rs: the scancode ring between the interrupt handler and the main loop,
-- the key codes, and the decoder.
pub mod Ring
pub mod Keys
pub mod Decode
pub mod Poll
pub mod Controller
