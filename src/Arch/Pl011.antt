-- ===== src/Arch/Pl011.antt =====
-- src/arch/aarch64/mmio.rs: the PL011 serial port.
pub mod Interrupt
mod Tests
use kvm_rust.Base.{
  Bool, List, Option, [], as_num, bit_and, bit_or, clear32, first_byte, has, if◌then◌else◌, is_some,
  ltb, none, ok, some, ℕ, ◌%◌, ◌++◌, ◌==◌, ◌>>>◌, ◌∷◌,
}
use kvm_rust.Util.Binary.{read_le32, write_le32}
use kvm_rust.Vm.Host.{Host, Kvm, Method, Mmio, arch_update_irq, ◌>>=◌, ◌>>◌, pure, modify, lift}

abbrev pub uart_irq : ℕ
uart_irq = 1

-- Without `fr`, which nothing reads.
pub record Pl011 : Type 0 where
  pub rx : Option ℕ
  pub cr : ℕ
  pub imsc : ℕ
  pub lcr : ℕ
  pub ibrd : ℕ
  pub fbrd : ℕ
  pub ris : ℕ
  pub icr : ℕ

abbrev pub new : Pl011
new = record { rx = none; cr = 0; imsc = 0; lcr = 0; ibrd = 0; fbrd = 0; ris = 0; icr = 0 }

-- Whether an interrupt is pending and not masked.
unfoldable pub wanted_level : Pl011 → Bool
wanted_level d = has d.ris d.imsc

unfoldable pub update_irq : Kvm → Method Pl011 (Unit {0})
update_irq kvm d h = arch_update_irq kvm (as_num (wanted_level d)) uart_irq d h

unfoldable pub receive : ℕ → Pl011 → Pl011
receive ch d = record d { rx = some ch; ris = bit_or d.ris 0x10 }

unfoldable pub send_char : Kvm → ℕ → Method Pl011 (Unit {0})
send_char kvm ch = do modify (receive ch); update_irq kvm

-- load_pl011_id_map
abbrev pub id_map : List (ℕ × ℕ)
id_map =
    (0xfe0, 0x11)
    ∷ (0xfe4, 0x10)
    ∷ (0xfe8, 0x14)
    ∷ (0xfec, 0x00)
    ∷ (0xff0, 0x0d)
    ∷ (0xff4, 0xf0)
    ∷ (0xff8, 0x05)
    ∷ (0xffc, 0xb1)
    ∷ []

abbrev pub lookup : ℕ → List (ℕ × ℕ) → Option ℕ
lookup k [] = none
lookup k ((key, value) ∷ entries) = if key == k then some value else lookup k entries

unfoldable pub take_char : Pl011 → Pl011
take_char d = record d { rx = none; ris = clear32 d.ris 0x10 }

-- The registers that are read without an effect.
unfoldable pub register_value : ℕ → Pl011 → ℕ
register_value inb d =
    if inb == 0x18
    then bit_or 0x80 (if is_some d.rx then 0 else 0x10)
    else if inb == 0x24
    then d.ibrd
    else if inb == 0x28
    then d.fbrd
    else if inb == 0x2c
    then d.lcr
    else if inb == 0x30
    then d.cr
    else if inb == 0x3c
    then d.ris
    else if inb == 0x38
    then d.imsc
    else if inb == 0x40
    then bit_and d.ris d.imsc
    else if inb == 0x44
    then d.icr
    else 0

-- The data register, which gives the character and takes it.
unfoldable pub read_char : Kvm → Method Pl011 ℕ
read_char kvm d h =
    (modify take_char >> update_irq kvm >> pure (elim d.rx [ none ↦ 0 | some ch ↦ ch ])) d h

unfoldable pub read_value : ℕ → Method Pl011 ℕ
read_value inb d h = (d, h, ok (register_value inb d))

-- Given what the id map has for the register.
unfoldable pub respond : Kvm → ℕ → Option ℕ → Method Pl011 ℕ
respond kvm inb (some id) = pure id
respond kvm inb none = if inb == 0 then read_char kvm else read_value inb

unfoldable pub pl011_response : Kvm → ℕ → Method Pl011 ℕ
pl011_response kvm inb = respond kvm inb (lookup inb id_map)

-- `print!("{}", byte as char)`, in UTF-8.
abbrev pub char_bytes : ℕ → List ℕ
char_bytes b =
    if ltb b 0x80 then b ∷ [] else bit_or 0xc0 (b >>> 6) ∷ bit_or 0x80 (bit_and b 0x3f) ∷ []

unfoldable pub print : ℕ → Method Pl011 (Unit {0})
print b d h = (d, record h { stdout = h.stdout ++ char_bytes b }, ok tt)

unfoldable pub write_register : Kvm → ℕ → ℕ → Method Pl011 (Unit {0})
write_register kvm reg val =
    if reg == 0x24
    then modify (λ d. record d { ibrd = val })
    else if reg == 0x28
    then modify (λ d. record d { fbrd = val })
    else if reg == 0x2c
    then modify (λ d. record d { lcr = val })
    else if reg == 0x30
    then modify (λ d. record d { cr = val })
    else if reg == 0x38
    then modify (λ d. record d { imsc = val }) >> update_irq kvm
    else if reg == 0x44
    then modify (λ d. record d { ris = clear32 d.ris val }) >> update_irq kvm
    else pure tt

-- handle, with the bytes as it leaves them.
unfoldable pub handle : Kvm → Mmio → Method Pl011 (List ℕ)
handle kvm x =
    let reg = x.phys_addr % 0x1000 in
    if x.is_write == 0
    then (do v ← pl011_response kvm reg; lift (write_le32 x.bytes 0 v))
    else if reg == 0
    then (do b ← lift (first_byte x.bytes); print b; pure x.bytes)
    else (do val ← lift (read_le32 x.bytes 0); write_register kvm reg val; pure x.bytes)
