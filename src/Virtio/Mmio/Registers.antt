-- ===== src/Virtio/Mmio/Registers.antt =====
-- src/virtio/mmio.rs: the registers for the addresses of a queue.
use kvm_rust.Base.{
  List, Option, Option-cases, Outcome, ap, arith, get_elem?, get_elem?-set_self, inl, inr, ok, refl,
  set-set, some, ℕ, ◌%◌, ◌*◌, ◌+◌, ◌<◌, ◌^◌, ◌∙◌, ◌≡◌,
}
use kvm_rust.Base.Bits.{bit_or_shift}
use kvm_rust.Util.Binary.{to_le_bytes, read_le32}
use kvm_rust.Vm.Host.{Host, Kvm, ◌>>=◌, >>=-ok}
use kvm_rust.Virtio.Bindings.{Bindings}
use kvm_rust.Virtio.Queue.{VringQueue}
use kvm_rust.Virtio.Device.{
  VirtioDevice, MmioBindings, Register, mmio_queue_desc_low, mmio_queue_desc_high,
  mmio_queue_avail_low, mmio_queue_avail_high, mmio_queue_used_low, mmio_queue_used_high,
}
use kvm_rust.Virtio.Mmio.{
  VirtioMmio, Attached, selected_queue, on_mmio, register_store, written, write_register, handle,
}

-- The three areas of a queue, and the pair of registers that holds the address of each.
pub data Area : Type 0 where
  desc_area avail_area used_area : Area

abbrev pub low_register : Area → Register
low_register desc_area = mmio_queue_desc_low
low_register avail_area = mmio_queue_avail_low
low_register used_area = mmio_queue_used_low

abbrev pub high_register : Area → Register
high_register desc_area = mmio_queue_desc_high
high_register avail_area = mmio_queue_avail_high
high_register used_area = mmio_queue_used_high

abbrev pub with_address : Area → ℕ → VringQueue → VringQueue
with_address desc_area v q = record q { desc = v }
with_address avail_area v q = record q { avail = v }
with_address used_area v q = record q { used = v }

read_written : (v : ℕ) → v < 2 ^ 32 → read_le32 (to_le_bytes 4 v) 0 ≡ ok v
unfolding read_le32
read_written v h = ap ok (omega arith)

module _ {D : Type 0} where
  -- Two changes of the selected queue are one.
  selected_twice :
      (f g : VringQueue → VringQueue) (m : VirtioMmio D)
      → selected_queue g (selected_queue f m) ≡ selected_queue (λ q. g (f q)) m
  selected_twice f g m = elim (Option-cases (get_elem? m.queue m.curr_queue)) [
    | inl missing ↦ ground (arith, missing)
    | inr (q, there) ↦ ground (
      arith,
      there,
      get_elem?-set_self m.queue m.curr_queue (f q) there,
      set-set m.queue m.curr_queue (f q) (g (f q)),
    )
  ]

  abbrev low_then_high : Area → ℕ → ℕ → VirtioMmio D → VirtioMmio D
  low_then_high a lo hi m =
      register_store (high_register a) hi (register_store (low_register a) lo m)

  stores_lem :
      (a : Area) (lo hi : ℕ) (m : VirtioMmio D)
      → lo < 2 ^ 32
      → low_then_high a lo hi m ≡ selected_queue (with_address a (lo + hi * 2 ^ 32)) m
  unfolding register_store
  stores_lem desc_area lo hi m h = selected_twice _ _ m ∙ rw (bit_or_shift 32 lo hi h) refl
  stores_lem avail_area lo hi m h = selected_twice _ _ m ∙ rw (bit_or_shift 32 lo hi h) refl
  stores_lem used_area lo hi m h = selected_twice _ _ m ∙ rw (bit_or_shift 32 lo hi h) refl

module _ {D : Type 0} (b : Bindings) (c : MmioBindings) (dev : VirtioDevice D) (kvm : Kvm)
    (n : ℕ) where
  abbrev pub write_to : ℕ → ℕ → Attached D → Host → Attached D × Host × Outcome (Option (List ℕ))
  write_to addr v =
      handle b c dev kvm n (record { phys_addr = addr; bytes = to_le_bytes 4 v; is_write = 1 })

  store_low :
      (a : Area) (addr v : ℕ)
      → c.register (addr % 0x1000) ≡ low_register a
      → v < 2 ^ 32
      → (s : Attached D) (h : Host)
      → write_to addr v s h
        ≡ (on_mmio (register_store (low_register a) v) s, h, ok (some (to_le_bytes 4 v)))
  unfolding handle write_register written
  store_low desc_area addr v e lt s h = rw (e, read_written v lt) refl
  store_low avail_area addr v e lt s h = rw (e, read_written v lt) refl
  store_low used_area addr v e lt s h = rw (e, read_written v lt) refl

  store_high :
      (a : Area) (addr v : ℕ)
      → c.register (addr % 0x1000) ≡ high_register a
      → v < 2 ^ 32
      → (s : Attached D) (h : Host)
      → write_to addr v s h
        ≡ (on_mmio (register_store (high_register a) v) s, h, ok (some (to_le_bytes 4 v)))
  unfolding handle write_register written
  store_high desc_area addr v e lt s h = rw (e, read_written v lt) refl
  store_high avail_area addr v e lt s h = rw (e, read_written v lt) refl
  store_high used_area addr v e lt s h = rw (e, read_written v lt) refl

  -- A write of the low and then of the high half of an area's address gives the selected queue that
  -- 64-bit address, and changes nothing else of the device, its memory or the host.
  pub handle_queue_address :
      (a : Area) (low high lo hi : ℕ) (s : Attached D) (h : Host)
      → c.register (low % 0x1000) ≡ low_register a
      → c.register (high % 0x1000) ≡ high_register a
      → lo < 2 ^ 32
      → hi < 2 ^ 32
      → (write_to low lo >>= λ _. write_to high hi) s h ≡ (
        on_mmio (selected_queue (with_address a (lo + hi * 2 ^ 32))) s,
        h,
        ok (some (to_le_bytes 4 hi)),
      )
  handle_queue_address a low high lo hi s h el eh ll lh =
      >>=-ok (write_to low lo) (λ _. write_to high hi) s h (store_low a low lo el ll s h)
      ∙ store_high a high hi eh lh (on_mmio (register_store (low_register a) lo) s) h
      ∙ ap (λ m. (record s { mmio = m }, h, ok (some (to_le_bytes 4 hi))))
          (stores_lem a lo hi s.mmio ll)
