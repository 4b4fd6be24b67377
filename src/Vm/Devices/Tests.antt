-- ===== src/Vm/Devices/Tests.antt =====
-- Runs of the dispatch of exits in src/main.rs.
use kvm_rust.Vm.Control
use kvm_rust.Vm.Host.{Host, Mmio, io_out}
use kvm_rust.Vm.Devices.{
  MmioDevice, MmioDevices, handle_mmio, add_mmio_device, poll_mmio_devices, arch_handle_io,
  device_of_port, uart, i8042, vga, unknown,
}
use kvm_rust.Base.{[], ok, refl, ℕ, ◌+◌, ◌∷◌, ◌≡◌}

-- A device that counts its calls, and answers with one byte.
abbrev counter : ℕ → MmioDevice ℕ
counter answer = record {
  handle = λ x n h. (n + 1, h, ok (answer ∷ []));
  poll = λ n h. (n + 10, h, ok tt);
}

abbrev host : Host
host = record { lines = []; control = Control.new; signals = []; stdout = [] }

abbrev access : ℕ → Mmio
access addr = record { phys_addr = addr; bytes = 0 ∷ []; is_write = 0 }

abbrev two : MmioDevices ℕ
unfolding add_mmio_device
two = add_mmio_device 0xd001_0000 (counter 7) (add_mmio_device 0xd000_0000 (counter 6) [])

dispatches :
    (handle_mmio two (access 0xd000_0ffc) 0 host ≡ (1, host, ok (6 ∷ [])))
    × (handle_mmio two (access 0xd001_0000) 0 host ≡ (1, host, ok (7 ∷ [])))
    × (handle_mmio two (access 0xd000_1000) 0 host ≡ (0, host, ok (0 ∷ [])))
    × (poll_mmio_devices two 0 host ≡ (20, host, ok tt))
unfolding handle_mmio poll_mmio_devices add_mmio_device
dispatches = (refl, refl, refl, refl)

ports :
    (device_of_port 0x3f8 ≡ uart)
    × (device_of_port 0x64 ≡ i8042)
    × (device_of_port 0x3c9 ≡ vga)
    × (device_of_port 0x80 ≡ unknown)
unfolding device_of_port
ports = (refl, refl, refl, refl)

-- Without a table, a port access does nothing.
no_device :
    arch_handle_io {S = ℕ} []
      (record { direction = io_out; port = 0x60; size = 1; count = 1; bytes = 5 ∷ [] })
      3
      host
    ≡ (3, host, ok (5 ∷ []))
unfolding arch_handle_io
no_device = refl
