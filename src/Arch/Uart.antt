-- ===== src/Arch/Uart.antt =====
-- The serial port of src/arch/x86_64/io.rs: UART, and its TTY side.
pub mod Interrupt
mod Tests
use kvm_rust.Base.{
  Bool, List, [], as_num, bit_and, bit_or, bool_eq, drop, false, first_byte, has, if◌then◌else◌,
  not, ok, put_first, take, true, u8, within, ℕ, ◌&&◌, ◌*◌, ◌++◌, ◌<<<◌, ◌==◌, ◌||◌, ◌∷◌,
}
use kvm_rust.Vm.Host.{
  Host, Kvm, Method, Io, Direction, io_in, io_out, neither, arch_update_irq, ◌>>=◌, ◌>>◌, pure,
  modify, lift,
}

pub record Uart : Type 0 where
  pub ier : ℕ
  pub fcr : ℕ
  pub lcr : ℕ
  pub mcr : ℕ
  pub scr : ℕ
  pub thr_ipending : Bool
  pub irq_level : Bool
  pub rx : List ℕ

abbrev pub new : Uart
new = record {
  ier = 0;
  fcr = 0;
  lcr = 0;
  mcr = 0;
  scr = 0;
  thr_ipending = false;
  irq_level = false;
  rx = [];
}

abbrev pub is_empty : List ℕ → Bool
is_empty [] = true
is_empty (_ ∷ _) = false

-- The level that the interrupt line should have.
unfoldable pub wanted_level : Uart → Bool
wanted_level d =
    has d.mcr 0x08
    && ((has d.ier 0x01 && not (is_empty d.rx)) || (has d.ier 0x02 && d.thr_ipending))

unfoldable pub update_irq : Kvm → Method Uart (Unit {0})
update_irq kvm d h =
    if bool_eq (wanted_level d) d.irq_level
    then (d, h, ok tt)
    else arch_update_irq kvm (as_num (wanted_level d)) 4 (record d { irq_level = wanted_level d }) h

unfoldable pub send_char : Kvm → ℕ → Method Uart (Unit {0})
send_char kvm ch = do modify (λ d. record d { rx = d.rx ++ ch ∷ [] }); update_irq kvm

-- A character to standard output, behind a carriage return if it is a line feed.
unfoldable pub transmit : ℕ → Method Uart (Unit {0})
transmit ch d h =
    let bytes = if ch == 0x0a then 0x0d ∷ ch ∷ [] else ch ∷ [] in
    (record d { thr_ipending = true }, record h { stdout = h.stdout ++ bytes }, ok tt)

unfoldable pub write_ier : ℕ → Uart → Uart
write_ier byte d =
    let v = bit_and byte 0x0f in
    let pending = if has v 0x02 && not (has d.ier 0x02) then true else d.thr_ipending in
    record d { thr_ipending = pending; ier = v }

-- What a write of a byte to a port does.
unfoldable pub write_port : ℕ → ℕ → Method Uart (Unit {0})
write_port port byte =
    if port == 0x3f8
    then transmit byte
    else if port == 0x3f9
    then modify (write_ier byte)
    else if port == 0x3fa
    then modify (λ d. record d { fcr = byte })
    else if port == 0x3fb
    then modify (λ d. record d { lcr = byte })
    else if port == 0x3fc
    then modify (λ d. record d { mcr = byte })
    else if port == 0x3ff
    then modify (λ d. record d { scr = byte })
    else pure tt

unfoldable pub receive : Uart → Uart × ℕ
receive d = elim d.rx [ [] ↦ (d, 0) | b ∷ bs ↦ (record d { rx = bs }, b) ]

-- The interrupt identification register; reading it takes a pending transmitter interrupt.
unfoldable pub read_iir : Uart → Uart × ℕ
read_iir d =
    let fifo = if has d.fcr 0x01 then 0xc0 else 0 in
    if has d.ier 0x01 && not (is_empty d.rx)
    then (d, bit_or fifo 0x04)
    else if has d.ier 0x02 && d.thr_ipending
    then (record d { thr_ipending = false }, bit_or fifo 0x02)
    else (d, bit_or fifo 0x01)

-- The modem status register, which loops the modem control register back.
unfoldable pub read_msr : Uart → ℕ
read_msr d =
    if has d.mcr 0x10
    then bit_or
        (bit_or (bit_or (u8 (bit_and d.mcr 0x02 <<< 3)) (u8 (bit_and d.mcr 0x01 <<< 5)))
          (u8 (bit_and d.mcr 0x04 <<< 4)))
        (u8 (bit_and d.mcr 0x08 <<< 4))
    else 0xb0

-- The byte that a read of a port gives.
unfoldable pub read_port : ℕ → Uart → Uart × ℕ
read_port port d =
    if port == 0x3f8
    then receive d
    else if port == 0x3fd
    then (d, if is_empty d.rx then 0x60 else 0x61)
    else if port == 0x3f9
    then (d, d.ier)
    else if port == 0x3fa
    then read_iir d
    else if port == 0x3fe
    then (d, read_msr d)
    else if port == 0x3ff
    then (d, d.scr)
    else if within 0x3f8 0x3ff port
    then (d, 0)
    else (d, 0xff)

-- The match of handle, with the data as it leaves it. A write to a port without a register does not
-- look at the data.
unfoldable pub dispatch : Direction → ℕ → List ℕ → Method Uart (List ℕ)
dispatch io_out port bytes d h =
    (if within 0x3f8 0x3fc port || port == 0x3ff
        then (lift (first_byte bytes) >>= λ b. write_port port b >> pure bytes)
        else pure bytes)
      d h
dispatch io_in port bytes d h = let (d', v) = read_port port d in (d', h, put_first v bytes)
dispatch neither port bytes d h = (d, h, put_first 0xff bytes)

unfoldable pub handle : Kvm → Io → Method Uart (List ℕ)
handle kvm io = do
  bytes ← dispatch io.direction io.port (take (io.size * io.count) io.bytes)
  update_irq kvm
  pure (bytes ++ drop (io.size * io.count) io.bytes)
