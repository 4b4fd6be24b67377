-- ===== src/Virtio/Mmio/Tests.antt =====
-- The transport at concrete accesses, over a device that takes every chain and writes nothing.
use kvm_rust.Base.{
  [], arith, if◌then◌else◌, inr, ok, refl, some, true, ℕ, ◌*◌, ◌+◌, ◌==◌, ◌^◌, ◌∷◌, ◌≡◌,
}
use kvm_rust.Memory.{Ptr, gpa_to_host, find_region, offset_in, read_guest_ptr}
use kvm_rust.Util.Binary.{read_le32}
use kvm_rust.Vm.Control
use kvm_rust.Vm.Host.{arch_update_irq, Host, Kvm, Mmio, ◌>>=◌}
use kvm_rust.Virtio.Bindings.{linux}
use kvm_rust.Virtio.Queue
use kvm_rust.Virtio.Queue.{VringQueue}
use kvm_rust.Virtio.Device.{
  VirtioDevice, MmioBindings, Register, mmio_queue_sel, mmio_queue_notify, mmio_interrupt_ack,
  mmio_queue_desc_low, mmio_queue_desc_high, mmio_other,
}
use kvm_rust.Virtio.Mmio.{
  Attached, new, on_mmio, selected_queue, handle, write_register, written, register_store,
}
use kvm_rust.Virtio.Mmio.Registers.{write_to, with_address, desc_area, handle_queue_address}
use kvm_rust.Virtio.Mmio.Interrupt.{HasReason, handle-HasReason}
use kvm_rust.Virtio.Mmio.Rounds.{IsReady}

abbrev register_of : ℕ → Register
register_of n =
    if n == 0x30
    then mmio_queue_sel
    else if n == 0x50
    then mmio_queue_notify
    else if n == 0x64
    then mmio_interrupt_ack
    else if n == 0x80
    then mmio_queue_desc_low
    else if n == 0x84
    then mmio_queue_desc_high
    else mmio_other

abbrev linux_mmio : MmioBindings
linux_mmio = record { register = register_of; virtio_mmio_int_vring = 1; virtio_f_version_1 = 32 }

abbrev sink : VirtioDevice (Unit {0})
sink = record {
  device_id = 1;
  features = λ d sel. 0;
  queue_num_max = λ d queue. 8;
  read_config = λ o bytes d. (d, ok bytes);
  process = λ queue chain d mem. (d, mem, ok 0);
  can_process = λ d queue. true;
}

abbrev kvm : Kvm
kvm lines line = true

abbrev host : Host
host = record { lines = []; control = Control.new; signals = []; stdout = [] }

-- Queue 0 has its rings at 64 and 80, and one chain waiting.
abbrev queue : VringQueue
queue = record { ready = 1; num = 2; last_avail_idx = 0; desc = 0; avail = 64; used = 80 }

abbrev attached : Attached (Unit {0})
attached = record {
  mmio = record (new tt 5) { queue = queue ∷ Queue.new ∷ [] };
  mem = record {
    regions = record { guest_phys_addr = 0; mem_size = 256 } ∷ [];
    ram = λ r o. if o == 66 then 1 else 0;
  };
}

abbrev at : ℕ → Ptr
at o = record { region = 0; off = o }

machinery : Unit {0}
unfolding gpa_to_host find_region offset_in read_guest_ptr
machinery = tt

ready : IsReady linux 0 1 (at 64) (at 80) attached.mmio.queue attached.mem queue
ready = record {
  there = refl;
  some_room = omega arith;
  avail_at = unfold machinery in refl;
  used_at = unfold machinery in refl;
  apart = inr (inr (omega arith));
  last = omega arith;
  published = unfold machinery in refl;
}

handle_queue_address_example :
    (write_to linux linux_mmio sink kvm 9 0x80 0x1000 >>= λ _.
    write_to linux linux_mmio sink kvm 9 0x84 2)
      attached host
    ≡ (
      on_mmio (selected_queue (with_address desc_area (0x1000 + 2 * 2 ^ 32))) attached,
      host,
      ok (some (2 ∷ 0 ∷ 0 ∷ 0 ∷ [])),
    )
handle_queue_address_example =
    handle_queue_address linux linux_mmio sink kvm 9 desc_area 0x80 0x84 0x1000 2 attached host refl
      refl (omega arith) (omega arith)

-- The driver acknowledges an interrupt.
abbrev acknowledge : Mmio
acknowledge = record { phys_addr = 0xd0000064; bytes = 1 ∷ 0 ∷ 0 ∷ 0 ∷ []; is_write = 1 }

abbrev interrupted : Attached (Unit {0})
interrupted = record attached { mmio = record attached.mmio { irq_status = 1 } }

abbrev raised : Host
raised = record host { lines = record { num = 5; level = 1 } ∷ [] }

transport : Unit {0}
unfolding handle write_register written register_store read_le32 arch_update_irq
transport = tt

handle-HasReason_example :
    let (s', h', r) = handle linux linux_mmio sink kvm 9 acknowledge interrupted raised in
    HasReason s' h'
handle-HasReason_example =
    handle-HasReason linux linux_mmio sink kvm refl 9 acknowledge interrupted raised (inr refl)
      (unfold transport in refl)
