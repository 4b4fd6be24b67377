-- ===== src/Arch/Pc.antt =====
-- The port devices of the x86_64 machine: arch_init_io_devices of src/arch/x86_64/io.rs.
pub mod Reset
mod Tests
use kvm_rust.Vm.Host.{Host, Kvm, Method, Io, pure, lift, ◌>>=◌}
use kvm_rust.Vm.Ring.{CoalescedRing, drain}
use kvm_rust.Vm.Devices.{IoDevice, IoDevices, DeviceId, uart, i8042, vga, device_number, insert}
use kvm_rust.Arch.Uart.{Uart}
use kvm_rust.Arch.Uart
use kvm_rust.Arch.I8042.{I8042}
use kvm_rust.Arch.I8042
use kvm_rust.Arch.Vga.{Vga}
use kvm_rust.Arch.Vga.Display
use kvm_rust.Base.{List, Option, [], none, ok, panic, some, ℕ}

-- The states of the three devices, and the ring of the VGA palette's ports, if KVM has one.
pub record Pc : Type 0 where
  pub serial : Uart
  pub controller : I8042
  pub adapter : Vga
  pub dac_writes : Option CoalescedRing

-- A device's method on the store, under its lock.
abbrev pub on_part : {S D A : Type 0} → (S → D) → (D → S → S) → Method D A → Method S A
on_part part put m s h = let (d, h', r) = m (part s) h in (put d s, h', r)

abbrev uart_handle : Kvm → Io → Method Pc (List ℕ)
uart_handle kvm x = on_part (λ pc. pc.serial) (λ d pc. record pc { serial = d }) (Uart.handle kvm x)

abbrev i8042_handle : Kvm → Io → Method Pc (List ℕ)
i8042_handle kvm x =
    on_part (λ pc. pc.controller) (λ d pc. record pc { controller = d }) (I8042.handle kvm x)

-- What the ring gives to its reader. An index outside the page leaves the page.
unfoldable pub take_queued : ℕ → Method Pc (List (ℕ × List ℕ))
take_queued n pc h = elim pc.dac_writes [
  | none ↦ (pc, h, ok [])
  | some ring ↦ elim (drain n ring) [
    | none ↦ (pc, h, panic)
    | some (queued, emptied) ↦ (record pc { dac_writes = some emptied }, h, ok queued)
  ]
]

abbrev vga_with : ℕ → Io → List (ℕ × List ℕ) → Method Pc (List ℕ)
vga_with nanos x queued pc h =
    let (d, r) = Display.handle queued nanos x pc.adapter in (record pc { adapter = d }, h, r)

unfoldable pub vga_handle : ℕ → ℕ → Io → Method Pc (List ℕ)
unfolding take_queued
vga_handle n nanos x = take_queued n >>= vga_with nanos x

-- The table that arch_init_io_devices makes. `n` is the ring's number of entries, and `nanos` the
-- time of an access.
unfoldable pub pc_devices : Kvm → ℕ → ℕ → IoDevices Pc
unfolding vga_handle
pc_devices kvm n nanos =
    insert (device_number vga) record { handle = vga_handle n nanos }
      (insert (device_number i8042) record { handle = i8042_handle kvm }
        (insert (device_number uart) record { handle = uart_handle kvm } []))
