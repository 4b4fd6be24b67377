-- ===== src/Virtio/Mmio.antt =====
-- src/virtio/mmio.rs: the MMIO transport, over any device that keeps the VirtioDevice interface.
pub mod Registers
pub mod Interrupt
pub mod Rounds
mod Tests
use kvm_rust.Base.{
  Bool, List, Option, [], bit_or, clear32, err, false, get_elem?, get_or, if◌then◌else◌, ltb, map,
  none, ok, panic, replicate, set, some, suc, true, zero, ℕ, ◌%◌, ◌-◌, ◌<<<◌, ◌==◌, ◌||◌, ◌∷◌,
}
use mathlib.Core.Option
use kvm_rust.Util.Binary.{from_le_bytes, read_le32, write_le32}
use kvm_rust.Memory.{Memory}
use kvm_rust.Vm.Host.{Host, Kvm, Mmio, Method, ◌>>=◌, ◌>>◌, pure, modify, lift, arch_update_irq}
use kvm_rust.Virtio.Bindings.{Bindings}
use kvm_rust.Virtio.Device.{
  VirtioDevice, MmioBindings, Register, mmio_magic_value, mmio_version, mmio_device_id,
  mmio_vendor_id, mmio_device_features, mmio_device_features_sel, mmio_driver_features,
  mmio_driver_features_sel, mmio_queue_sel, mmio_queue_num_max, mmio_queue_num, mmio_queue_ready,
  mmio_queue_notify, mmio_interrupt_status, mmio_interrupt_ack, mmio_status, mmio_queue_desc_low,
  mmio_queue_desc_high, mmio_queue_avail_low, mmio_queue_avail_high, mmio_queue_used_low,
  mmio_queue_used_high, mmio_config_generation, mmio_other, mmio_config,
}
use kvm_rust.Virtio.Queue.{VringQueue, DescChain, pop_avail, push_used}
use kvm_rust.Virtio.Queue

abbrev pub vring_queues_max : ℕ
vring_queues_max = 2

abbrev pub virtio_version : ℕ
virtio_version = 2

abbrev pub virtio_vendor_none : ℕ
virtio_vendor_none = 0

pub record VirtioMmio (D : Type 0) : Type 0 where
  pub dev_feat_sel : ℕ
  pub drv_feat_sel : ℕ
  pub status : ℕ
  pub curr_queue : ℕ
  pub queue : List VringQueue
  pub irq : ℕ
  pub irq_status : ℕ
  pub device : D

abbrev pub new : {D : Type 0} → D → ℕ → VirtioMmio D
new device irq = record {
  dev_feat_sel = 0;
  drv_feat_sel = 0;
  status = 0;
  curr_queue = 0;
  queue = replicate vring_queues_max Queue.new;
  irq = irq;
  irq_status = 0;
  device = device;
}

-- The transport and the guest memory that its methods take.
pub record Attached (D : Type 0) : Type 0 where
  pub mmio : VirtioMmio D
  pub mem : Memory

module _ {D : Type 0} where
  -- A change of queue number `i`, if there is one.
  abbrev pub set_queue : ℕ → (VringQueue → VringQueue) → VirtioMmio D → VirtioMmio D
  set_queue i f m = elim (get_elem? m.queue i) [
    | none ↦ m
    | some q ↦ record m { queue = set m.queue i (f q) }
  ]

  abbrev pub selected_queue : (VringQueue → VringQueue) → VirtioMmio D → VirtioMmio D
  selected_queue f m = set_queue m.curr_queue f m

  abbrev pub on_mmio : (VirtioMmio D → VirtioMmio D) → Attached D → Attached D
  on_mmio f s = record s { mmio = f s.mmio }

  -- What a register does to the transport alone, given the number written.
  unfoldable pub register_store : Register → ℕ → VirtioMmio D → VirtioMmio D
  register_store mmio_device_features_sel v m = record m { dev_feat_sel = v }
  register_store mmio_driver_features_sel v m = record m { drv_feat_sel = v }
  register_store mmio_queue_sel v m = record m { curr_queue = v }
  register_store mmio_queue_num v m = selected_queue (λ q. record q { num = v }) m
  register_store mmio_queue_ready v m = selected_queue (λ q. record q { ready = v }) m
  register_store mmio_interrupt_ack v m = record m { irq_status = clear32 m.irq_status v }
  register_store mmio_status v m = record m { status = v }
  register_store mmio_queue_desc_low v m = selected_queue (λ q. record q { desc = v }) m
  register_store mmio_queue_desc_high v m =
      selected_queue (λ q. record q { desc = bit_or q.desc (v <<< 32) }) m
  register_store mmio_queue_avail_low v m = selected_queue (λ q. record q { avail = v }) m
  register_store mmio_queue_avail_high v m =
      selected_queue (λ q. record q { avail = bit_or q.avail (v <<< 32) }) m
  register_store mmio_queue_used_low v m = selected_queue (λ q. record q { used = v }) m
  register_store mmio_queue_used_high v m =
      selected_queue (λ q. record q { used = bit_or q.used (v <<< 32) }) m
  register_store _ v m = m

-- Whether some arm of the match takes a write to the register.
abbrev pub has_effect : Register → Bool
has_effect mmio_magic_value = false
has_effect mmio_version = false
has_effect mmio_device_id = false
has_effect mmio_vendor_id = false
has_effect mmio_queue_num_max = false
has_effect mmio_interrupt_status = false
has_effect mmio_config_generation = false
has_effect (mmio_config o) = false
has_effect mmio_other = false
has_effect _ = true

module _ {D : Type 0} (b : Bindings) (c : MmioBindings) (dev : VirtioDevice D) (kvm : Kvm) where
  pub pop : ℕ → VringQueue → Method (Attached D) (Option DescChain)
  pop i q s h = let (q', r) = pop_avail b s.mem q in (on_mmio (set_queue i (λ _. q')) s, h, r)

  pub process : ℕ → DescChain → Method (Attached D) ℕ
  process i chain s h =
      let (device, mem, r) = dev.process i chain s.mmio.device s.mem in
      (record { mmio = record s.mmio { device = device }; mem = mem }, h, r)

  pub push : VringQueue → ℕ → ℕ → Method (Attached D) (Unit {0})
  push q head len s h = elim (push_used b s.mem q head len) [
    | ok mem ↦ (record s { mem = mem }, h, ok tt)
    | err e ↦ (s, h, err e)
    | panic ↦ (s, h, panic)
  ]

  pub interrupt : Method (Attached D) (Unit {0})
  interrupt s h =
      let m = s.mmio in
      arch_update_irq kvm 1 m.irq
        (record s { mmio = record m { irq_status = bit_or m.irq_status c.virtio_mmio_int_vring } })
        h

  -- The body of the loop behind pop_avail.
  unfoldable pub serve : ℕ → VringQueue → DescChain → Method (Attached D) (Unit {0})
  serve i q chain = do len ← process i chain; push q chain.head len; interrupt

  -- One round behind pop_avail, and the loop's rest.
  unfoldable pub round :
      Method (Attached D) (Option (Unit {0}))
      → ℕ
      → VringQueue
      → Option DescChain
      → Method (Attached D) (Option (Unit {0}))
  round rest i q none = pure (some tt)
  round rest i q (some chain) = serve i q chain >> rest

  -- The loop of queue_notify. It ends only when the ring or the device has nothing left, so the model
  -- counts rounds, and gives none where they do not suffice.
  unfoldable pub rounds : ℕ → ℕ → Method (Attached D) (Option (Unit {0}))
  rounds zero i s h = (s, h, ok none)
  rounds (suc n) i s h =
      let rest = rounds n i in
      let q = get_or s.mmio.queue i Queue.new in
      if dev.can_process s.mmio.device i
      then (pop i q >>= round rest i q) s h
      else (s, h, ok (some tt))

  unfoldable pub queue_notify : ℕ → ℕ → Method (Attached D) (Option (Unit {0}))
  queue_notify n i s h = elim (get_elem? s.mmio.queue i) [
    | none ↦ (s, h, ok (some tt))
    | some q ↦ if q.ready == 0 || q.num == 0 then (s, h, ok (some tt)) else rounds n i s h
  ]

  -- Both queues in turn.
  unfoldable pub poll : ℕ → Method (Attached D) (Option (Unit {0}))
  poll n = do
    first ← queue_notify n 0
    second ← queue_notify n 1
    pure (elim first [ none ↦ none | some _ ↦ second ])

  abbrev pub transport_features : ℕ → ℕ
  transport_features sel = if sel == 1 then 1 <<< (c.virtio_f_version_1 - 32) else 0

  -- The value of a register that is read as one 32-bit number, of those with one.
  unfoldable pub register_value : VirtioMmio D → Register → Option ℕ
  register_value m mmio_magic_value = some (from_le_bytes (0x76 ∷ 0x69 ∷ 0x72 ∷ 0x74 ∷ []))
  register_value m mmio_version = some virtio_version
  register_value m mmio_device_id = some dev.device_id
  register_value m mmio_vendor_id = some virtio_vendor_none
  register_value m mmio_device_features =
      some (bit_or (transport_features m.dev_feat_sel) (dev.features m.device m.dev_feat_sel))
  register_value m mmio_driver_features = some 0
  register_value m mmio_queue_num_max =
      some
        (if ltb m.curr_queue vring_queues_max then dev.queue_num_max m.device m.curr_queue else 0)
  register_value m mmio_interrupt_status = some m.irq_status
  register_value m mmio_queue_ready =
      some (elim (get_elem? m.queue m.curr_queue) [ none ↦ 0 | some q ↦ q.ready ])
  register_value m mmio_status = some m.status
  register_value m mmio_config_generation = some 0
  register_value m _ = none

  unfoldable pub read_register : Register → List ℕ → Method (Attached D) (List ℕ)
  read_register (mmio_config o) bytes s h =
      let (device, r) = dev.read_config o bytes s.mmio.device in
      (on_mmio (λ m. record m { device = device }) s, h, r)
  read_register reg bytes s h = elim (register_value s.mmio reg) [
    | none ↦ (s, h, ok bytes)
    | some v ↦ (s, h, write_le32 bytes 0 v)
  ]

  unfoldable pub written : ℕ → Register → ℕ → Method (Attached D) (Option (Unit {0}))
  written n mmio_queue_notify v = queue_notify n v
  written n mmio_interrupt_ack v = do
    modify (on_mmio (register_store mmio_interrupt_ack v))
    λ s. arch_update_irq kvm 0 s.mmio.irq s
    pure (some tt)
  written n reg v = do modify (on_mmio (register_store reg v)); pure (some tt)

  -- A write that no arm of the match takes does not look at its data.
  unfoldable pub write_register : ℕ → Register → List ℕ → Method (Attached D) (Option (Unit {0}))
  write_register n reg bytes =
      if has_effect reg then (do v ← lift (read_le32 bytes 0); written n reg v) else pure (some tt)

  -- handle, with the bytes as it leaves them; none if a notified queue takes more than `n` rounds.
  unfoldable pub handle : ℕ → Mmio → Method (Attached D) (Option (List ℕ))
  handle n x =
      let reg = c.register (x.phys_addr % 0x1000) in
      if x.is_write == 0
      then (do bytes ← read_register reg x.bytes; pure (some bytes))
      else (do done ← write_register n reg x.bytes; pure (Option.map (λ _. x.bytes) done))
