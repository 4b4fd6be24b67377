-- ===== src/Arch/Uart/Tests.antt =====
-- The serial port at concrete accesses.
use kvm_rust.Base.{[], as_num, refl, true, ℕ, ◌∷◌, ◌≡◌}
use kvm_rust.Vm.Control
use kvm_rust.Vm.Host.{Host, Kvm, Io, Direction, io_out, arch_update_irq, wire}
use kvm_rust.Arch.Uart.{
  Uart, new, wanted_level, update_irq, transmit, write_ier, write_port, receive, read_iir, read_msr,
  read_port, dispatch, handle, send_char,
}
use kvm_rust.Arch.Uart.Interrupt.{IsWired, handle-IsWired}

device : Unit {0}
unfolding wanted_level update_irq transmit write_ier write_port receive read_iir read_msr read_port
    dispatch handle send_char arch_update_irq
device = tt

abbrev kvm : Kvm
kvm lines line = true

abbrev host : Host
host = record { lines = []; control = Control.new; signals = []; stdout = [] }

abbrev one_byte : Direction → ℕ → ℕ → Io
one_byte dir port byte = record {
  direction = dir;
  port = port;
  size = 1;
  count = 1;
  bytes = byte ∷ [];
}

-- A line feed gets a carriage return.
sends_line_feed : (handle kvm (one_byte io_out 0x3f8 0x0a) new host).1.stdout ≡ 0x0d ∷ 0x0a ∷ []
unfolding device
sends_line_feed = refl

-- With interrupts on, a character raises line 4.
abbrev listening : Uart
listening = record new { mcr = 8; ier = 1 }

raises : (send_char kvm 0x61 listening host).1.lines ≡ record { num = 4; level = 1 } ∷ []
unfolding device
raises = refl

handle-IsWired_example :
    let (d', h', r) = handle kvm (one_byte io_out 0x3fc 8) listening host in
    IsWired d' h' × (wire 4 h'.lines ≡ as_num (wanted_level d'))
handle-IsWired_example =
    handle-IsWired kvm (one_byte io_out 0x3fc 8) listening host refl (unfold device in refl)
