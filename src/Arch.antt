-- ===== src/Arch.antt =====
-- src/arch: the devices and registers of each architecture.
pub mod I8042
pub mod Uart
pub mod Vga
pub mod Pl011
pub mod Pc
pub mod Boot
pub mod Arm
pub mod Vcpu
