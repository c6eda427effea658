-- ===== src/Ps2.antt =====
-- drivers/input/ps2: the controller, the keyboard driver and its keymap.
pub mod Keymap
pub mod I8042
pub mod Keyboard
