-- ===== src/Arch/Uart/Interrupt.antt =====
-- src/arch/x86_64/io.rs: the serial port's interrupt line.
use kvm_rust.Base.{List, [], arith, as_num, is_ok, refl, take, true, ℕ, ◌*◌, ◌++◌, ◌∷◌, ◌≡◌}
use kvm_rust.Vm.Host.{Host, Kvm, Io, Direction, io_in, io_out, neither, arch_update_irq, wire}
use kvm_rust.Arch.Uart.{
  Uart, wanted_level, update_irq, transmit, write_ier, write_port, receive, read_iir, read_port,
  dispatch, handle, send_char,
}

-- The level that KVM was last told is the one that the device remembers.
abbrev pub IsWired : Uart → Host → Type 0
IsWired d h = wire 4 h.lines ≡ as_num d.irq_level

update_irq_lem :
    (kvm : Kvm) (d : Uart) (h : Host)
    → IsWired d h
    → let (d', h', r) = update_irq kvm d h in
      is_ok r ≡ true → IsWired d' h' × (d'.irq_level ≡ wanted_level d')
unfolding update_irq arch_update_irq wanted_level
update_irq_lem kvm d h w e = ground arith

read_port-level : (port : ℕ) (d : Uart) → (read_port port d).0.irq_level ≡ d.irq_level
unfolding read_port receive read_iir
read_port-level port d = ground arith

write_port-level :
    (port byte : ℕ) (d : Uart) (h : Host)
    → let (d', h', r) = write_port port byte d h in
      (d'.irq_level ≡ d.irq_level) × (h'.lines ≡ h.lines)
unfolding write_port transmit write_ier
write_port-level port byte d h = ground arith

dispatch-level :
    (dir : Direction) (port : ℕ) (bytes : List ℕ) (d : Uart) (h : Host)
    → let (d', h', r) = dispatch dir port bytes d h in
      (d'.irq_level ≡ d.irq_level) × (h'.lines ≡ h.lines)
unfolding dispatch
dispatch-level io_out port [] d h = ground arith
dispatch-level io_out port (b ∷ bs) d h = ground (arith, write_port-level port b d h)
dispatch-level io_in port bytes d h = (read_port-level port d, refl)
dispatch-level neither port bytes d h = (refl, refl)

-- After every port access that returns normally, KVM was last told the level that the registers ask
-- for: the modem control register lets interrupts through, and either there are characters to read
-- or a character was sent, with that interrupt enabled. Before the access, KVM was last told the
-- level that the device remembers.
pub handle-IsWired :
    (kvm : Kvm) (io : Io) (d : Uart) (h : Host)
    → IsWired d h
    → let (d', h', r) = handle kvm io d h in
      is_ok r ≡ true → IsWired d' h' × (wire 4 h'.lines ≡ as_num (wanted_level d'))
unfolding handle
handle-IsWired kvm io d h w e =
    let bytes = take (io.size * io.count) io.bytes in
    let (d1, h1, r1) = dispatch io.direction io.port bytes d h in
    ground (arith, dispatch-level io.direction io.port bytes d h, update_irq_lem kvm d1 h1)

-- So it is after every character that comes in.
pub send_char-IsWired :
    (kvm : Kvm) (ch : ℕ) (d : Uart) (h : Host)
    → IsWired d h
    → let (d', h', r) = send_char kvm ch d h in
      is_ok r ≡ true → IsWired d' h' × (wire 4 h'.lines ≡ as_num (wanted_level d'))
unfolding send_char
send_char-IsWired kvm ch d h w e =
    ground (arith, update_irq_lem kvm (record d { rx = d.rx ++ ch ∷ [] }) h)
