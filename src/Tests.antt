-- ===== src/Tests.antt =====
-- Runs of the device on concrete inputs, and an application of every result to one.
pub mod Boot
pub mod States
pub mod Device
pub mod Driver
pub mod Receive
pub mod Firmware
pub mod Mailbox
pub mod Queue
pub mod Qemu
pub mod Query
pub mod Session
pub mod Create
