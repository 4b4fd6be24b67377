-- ===== src/Virtio.antt =====
-- src/virtio: the virtqueues, the MMIO transport, and its devices.
pub mod Bindings
pub mod Queue
pub mod Device
pub mod Mmio
pub mod Buffers
pub mod Blk
pub mod Net
