-- ===== src/Arch/I8042/Line.antt =====
-- src/arch/x86_64/i8042.rs: update_irq, and what KVM was told.
use kvm_rust.Base.{arith, as_num, ok, ◌≡◌}
use kvm_rust.Vm.Host.{Host, Kvm, arch_update_irq, wire}
use kvm_rust.Arch.I8042.{I8042, i8042_irq, wanted_level, update_irq}

abbrev pub relevel : I8042 → I8042
relevel d = record d { irq_level = wanted_level d }

-- The level that KVM was last told is the one that the device remembers.
abbrev pub IsWired : I8042 → Host → Type 0
IsWired d h = wire i8042_irq h.lines ≡ as_num d.irq_level

pub update_irq-relevel : (kvm : Kvm) (d : I8042) (h : Host) → (update_irq kvm d h).0 ≡ relevel d
unfolding update_irq arch_update_irq
update_irq-relevel kvm d h = ground arith

pub update_irq-IsWired :
    (kvm : Kvm) (d : I8042) (h : Host)
    → IsWired d h
    → let (d', h', r) = update_irq kvm d h in r ≡ ok tt → IsWired d' h'
unfolding update_irq arch_update_irq
update_irq-IsWired kvm d h w e = ground arith

-- The host keeps all but the interrupt lines.
pub update_irq-host :
    (kvm : Kvm) (d : I8042) (h : Host)
    → let h' = (update_irq kvm d h).1 in
      (h'.control ≡ h.control) × (h'.signals ≡ h.signals) × (h'.stdout ≡ h.stdout)
unfolding update_irq arch_update_irq
update_irq-host kvm d h = ground arith
