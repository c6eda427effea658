-- ===== src/Tests.antt =====
-- The theorems at concrete inputs, and runs of the definitions.
mod Frames
mod Blocks
mod Devices
mod Screens
mod Tables
mod Texts
mod Machine
