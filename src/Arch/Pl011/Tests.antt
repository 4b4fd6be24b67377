-- ===== src/Arch/Pl011/Tests.antt =====
-- The PL011 at concrete accesses.
use kvm_rust.Base.{[], ok, refl, some, true, ◌∷◌, ◌≡◌}
use kvm_rust.Util.Binary.{read_le32, write_le32}
use kvm_rust.Vm.Control
use kvm_rust.Vm.Host.{Host, Kvm, Mmio, arch_update_irq}
use kvm_rust.Arch.Pl011.{
  Pl011, new, wanted_level, update_irq, receive, send_char, take_char, register_value, read_char,
  read_value, respond, pl011_response, print, write_register, handle,
}
use kvm_rust.Arch.Pl011.Interrupt.{IsWired, handle_keeps_line}

device : Unit {0}
unfolding wanted_level update_irq receive send_char take_char register_value read_char read_value
    respond pl011_response print write_register handle read_le32 write_le32 arch_update_irq
device = tt

abbrev kvm : Kvm
kvm lines line = true

abbrev host : Host
host = record { lines = []; control = Control.new; signals = []; stdout = [] }

abbrev waiting : Pl011
waiting = record new { rx = some 0x61; ris = 0x10; imsc = 0x10 }

abbrev raised : Host
raised = record host { lines = record { num = 1; level = 1 } ∷ [] }

abbrev data_register : Mmio
data_register = record { phys_addr = 0x9000000; bytes = 0 ∷ 0 ∷ 0 ∷ 0 ∷ []; is_write = 0 }

reads : (handle kvm data_register waiting raised).2 ≡ ok (0x61 ∷ 0 ∷ 0 ∷ 0 ∷ [])
unfolding device
reads = refl

handle_keeps_line_example :
    let (d', h', r) = handle kvm data_register waiting raised in IsWired d' h'
handle_keeps_line_example =
    handle_keeps_line kvm data_register waiting raised (unfold device in refl)
      (unfold device in refl)
