-- ===== src/Vm/Devices/Map.antt =====
-- The map from pages to devices in src/main.rs.
use kvm_rust.Vm.Host.{Mmio}
use kvm_rust.Vm.Devices.{MmioDevice, MmioDevices, get, insert, add_mmio_device, handle_mmio}
use kvm_rust.Base.{List, [], arith, refl, some, sym, ℕ, ◌/◌, ◌∷◌, ◌≡◌, ◌≢◌}

get-insert_self : {A : Type 0} (k : ℕ) (a : A) (m : List (ℕ × A)) → get (insert k a m) k ≡ some a
get-insert_self k a [] = ground arith
get-insert_self k a ((j, b) ∷ m) = ground (arith, get-insert_self k a m)

get-insert_ne :
    {A : Type 0} (k i : ℕ) (a : A) (m : List (ℕ × A)) → k ≢ i → get (insert k a m) i ≡ get m i
get-insert_ne k i a [] ne = ground arith
get-insert_ne k i a ((j, b) ∷ m) ne = ground (arith, get-insert_ne k i a m ne)

-- A device that is added at an address takes every access to that address's page of 4096 bytes, and
-- accesses to all other pages go where they went before.
pub handle_mmio-add :
    {S : Type 0} (addr : ℕ) (device : MmioDevice S) (devices : MmioDevices S) (x : Mmio)
    → ((x.phys_addr / 4096 ≡ addr / 4096)
        → handle_mmio (add_mmio_device addr device devices) x ≡ device.handle x)
      × (x.phys_addr / 4096 ≢ addr / 4096
          → handle_mmio (add_mmio_device addr device devices) x ≡ handle_mmio devices x)
unfolding handle_mmio add_mmio_device
handle_mmio-add addr device devices x = (
  λ same. rw same (rw (get-insert_self (addr / 4096) device devices) refl),
  λ other.
      rw (get-insert_ne (addr / 4096) (x.phys_addr / 4096) device devices (λ e. other (sym e)))
        refl,
)
