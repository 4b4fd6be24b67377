-- ===== src/Virtio/Mmio/Rounds.antt =====
-- src/virtio/mmio.rs: the rounds of the loop of queue_notify.
use kvm_rust.Base.{
  List, Option, Outcome, get_elem?, none, ok, some, ℕ, ◌%◌, ◌*◌, ◌+◌, ◌-◌, ◌<◌, ◌^◌, ◌≡◌, ◌≢◌,
}
use kvm_rust.Memory.{Memory, Ptr, gpa_to_host, read_guest_ptr}
use kvm_rust.Memory.Access.{Disjoint}
use kvm_rust.Vm.Host.{Host, Kvm}
use kvm_rust.Virtio.Bindings.{Bindings, IsVring}
use kvm_rust.Virtio.Queue.{VringQueue, DescChain}
use kvm_rust.Virtio.Queue
use kvm_rust.Virtio.Device.{VirtioDevice, MmioBindings}
use kvm_rust.Virtio.Mmio.{Attached, process, rounds}

-- The chains that the driver has published and the device has not taken.
abbrev pub waiting : ℕ → VringQueue → ℕ
waiting idx q = (idx + 2 ^ 16 - q.last_avail_idx) % 2 ^ 16

-- Queue number `i` is `q`, its rings lie in guest memory at `p` and `u`, and `idx` is the published
-- index.
pub record IsReady (b : Bindings) (i idx : ℕ) (p u : Ptr) (qs : List VringQueue) (mem : Memory)
    (q : VringQueue) : Type 0 where
  pub there : get_elem? qs i ≡ some q
  pub some_room : 0 < q.num
  pub avail_at : gpa_to_host mem q.avail (b.vring_avail_size + 2 * q.num) ≡ some p
  pub used_at : gpa_to_host mem q.used (b.vring_used_size + b.vring_used_elem_size * q.num) ≡ some u
  pub apart : Disjoint u (b.vring_used_size + b.vring_used_elem_size * q.num) p b.vring_avail_size
  pub last : q.last_avail_idx < 2 ^ 16
  pub published : b.avail_idx (read_guest_ptr mem p b.vring_avail_size) ≡ idx

module _ {D : Type 0} (b : Bindings) (v : IsVring b) (c : MmioBindings) (dev : VirtioDevice D)
    (kvm : Kvm) (i idx : ℕ) (p u : Ptr) (below : idx < 2 ^ 16)
    (quiet : (chain : DescChain) (d : D) (mem : Memory) → (dev.process i chain d mem).1 ≡ mem) where
  abbrev Ends : Attached D × Host × Outcome (Option (Unit {0})) → Type 0
  Ends x = x.2 ≢ ok none

  abbrev AllEnd : ℕ → Type 0
  AllEnd n =
      (s : Attached D) (h : Host) (q : VringQueue)
      → IsReady b i idx p u s.mmio.queue s.mem q
      → waiting idx q < n
      → Ends (rounds b c dev kvm n i s h)
