-- ===== src/Arch/Pc/Reset.antt =====
-- A guest that resets the machine through the keyboard controller: src/arch/x86_64/io.rs and the run
-- loop of src/main.rs.
use kvm_rust.Vm.Host.{Host, Kvm}
use kvm_rust.Vm.Devices.{MmioDevices}
use kvm_rust.Vm.Run.{Vm}
use kvm_rust.Arch.I8042.{I8042}
use kvm_rust.Arch.Pc.{Pc, pc_devices}
use kvm_rust.Base.{ℕ}

abbrev pub pc_vm : Kvm → ℕ → ℕ → MmioDevices Pc → Vm Pc
pc_vm kvm n nanos devices = record { mmio_devices = devices; io_devices = pc_devices kvm n nanos }

abbrev with_controller : I8042 → Pc → Pc
with_controller d pc = record pc { controller = d }
