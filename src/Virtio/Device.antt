-- ===== src/Virtio/Device.antt =====
-- src/virtio/mmio.rs: the VirtioDevice interface between the transport and its devices, and the
-- registers of the transport.
use kvm_rust.Base.{Bool, List, Outcome, ℕ}
use kvm_rust.Memory.{Memory}
use kvm_rust.Virtio.Queue.{DescChain}

-- The registers that the source names by constants of the generated bindings, with the offset into
-- the configuration space.
pub data Register : Type 0 where
  mmio_magic_value mmio_version mmio_device_id mmio_vendor_id : Register
  mmio_device_features mmio_device_features_sel : Register
  mmio_driver_features mmio_driver_features_sel : Register
  mmio_queue_sel mmio_queue_num_max mmio_queue_num mmio_queue_ready mmio_queue_notify : Register
  mmio_interrupt_status mmio_interrupt_ack mmio_status : Register
  mmio_queue_desc_low mmio_queue_desc_high mmio_queue_avail_low : Register
  mmio_queue_avail_high mmio_queue_used_low mmio_queue_used_high : Register
  mmio_config_generation mmio_other : Register
  mmio_config : ℕ → Register

-- The constants of the generated bindings: which register a page offset is, and two flags.
pub record MmioBindings : Type 0 where
  pub register : ℕ → Register
  pub virtio_mmio_int_vring : ℕ
  pub virtio_f_version_1 : ℕ

-- The trait. A device writes to guest memory through the chain's buffers.
pub record VirtioDevice (D : Type 0) : Type 0 where
  pub device_id : ℕ
  pub features : D → ℕ → ℕ
  pub queue_num_max : D → ℕ → ℕ
  pub read_config : ℕ → List ℕ → D → D × Outcome (List ℕ)
  pub process : ℕ → DescChain → D → Memory → D × Memory × Outcome ℕ
  pub can_process : D → ℕ → Bool
