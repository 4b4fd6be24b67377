-- ===== src/Arch/I8042/Reset.antt =====
-- The reset command of src/arch/x86_64/i8042.rs.
use kvm_rust.Vm.Host.{Host, Line, Kvm, Io, io_out, arch_update_irq, stop_vm, pure, >>=-ok}
use kvm_rust.Arch.I8042.{
  I8042, dispatch, handle, i8042_irq, wanted_level, controller_command, pulse_reset, update_irq,
}
use kvm_rust.Base.{
  Bool-cases, List, [], as_num, bool_eq, inl, inr, none, ok, refl, true, ◌++◌, ◌∷◌, ◌≡◌,
}

-- The host once the VM is stopped, with the calls of the interrupt line.
abbrev pub stopped_host : Host → List Line → Host
stopped_host h ls = record h {
  lines = ls;
  control = record (h.control) { should_stop = true };
  signals = h.signals ++ h.control.vcpu_threads;
}

-- An output of the reset command to the command port.
abbrev pub reset_io : Io
reset_io = record { direction = io_out; port = 0x64; size = 1; count = 1; bytes = 0xfe ∷ [] }

update_irq-accepted :
    (kvm : Kvm) (d : I8042) (h : Host)
    → ((ls : List Line) (l : Line) → kvm ls l ≡ true)
    → (d' : I8042) × (ls : List Line) × (update_irq kvm d h ≡ (d', record h { lines = ls }, ok tt))
unfolding update_irq arch_update_irq
update_irq-accepted kvm d h accepts =
    let line : Line = record { num = i8042_irq; level = as_num (wanted_level d) } in
    elim (Bool-cases (bool_eq (wanted_level d) d.irq_level)) [
      | inl same ↦ (d, h.lines, rw same refl)
      | inr other ↦ (
        record d { irq_level = wanted_level d },
        line ∷ h.lines,
        rw (other, accepts h.lines line) refl,
      )
    ]

pub handle-reset :
    (kvm : Kvm) (d : I8042) (h : Host)
    → ((ls : List Line) (l : Line) → kvm ls l ≡ true)
    → (d' : I8042) × (ls : List Line) × (handle kvm reset_io d h
        ≡ (d', stopped_host h ls, ok (0xfe ∷ [])))
unfolding handle dispatch controller_command pulse_reset stop_vm update_irq arch_update_irq
handle-reset kvm d h accepts =
    let commanded : I8042 = record d { controller_param = none; status_cmd = true } in
    let (d', ls, done) = update_irq-accepted kvm commanded (stopped_host h h.lines) accepts in
    (
      d',
      ls,
      >>=-ok (update_irq kvm) (λ done. pure (0xfe ∷ [])) commanded (stopped_host h h.lines) done,
    )
