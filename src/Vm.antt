-- ===== src/Vm.antt =====
-- src/main.rs: the virtual machine and what its devices share.
pub mod Control
pub mod Host
pub mod Slots
pub mod Ring
pub mod MemSize
pub mod Wakeup
pub mod Devices
pub mod Run
