-- ===== src/Arch/Pc/Tests.antt =====
-- Runs of the x86_64 machine's port devices.
use kvm_rust.Vm.Control
use kvm_rust.Vm.Host.{Host}
use kvm_rust.Vm.Run.{Turn, hlt, kick_note}
use kvm_rust.Arch.Uart
use kvm_rust.Arch.I8042
use kvm_rust.Arch.Vga
use kvm_rust.Arch.Pc.{Pc}
use kvm_rust.Base.{[], false, none, ◌∷◌}

abbrev machine : Pc
machine = record {
  serial = Uart.new;
  controller = I8042.new;
  adapter = Vga.new false;
  dac_writes = none;
}

abbrev host : Host
host = record {
  lines = [];
  control = record Control.new { vcpu_threads = 41 ∷ 42 ∷ [] };
  signals = [];
  stdout = [];
}

abbrev kicked : Turn
kicked = record { notes = kick_note ∷ []; exit = hlt }
