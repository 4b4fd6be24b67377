-- ===== src/Arch/Arm/Tests.antt =====
-- Runs of the registers and the boot of the aarch64 machine.
use kvm_rust.Vm.Control
use kvm_rust.Vm.Host.{Host}
use kvm_rust.Vm.MemSize.{parse_usize, parse_digits}
use kvm_rust.Memory.{Memory, MemRegion}
use kvm_rust.Arch.Arm.{
  Set, OneReg, sp, pc, x_name, core_number, aarch64_core_reg, register_id, get_one_reg, set_one_reg,
  set_ip, get_ip,
}
use kvm_rust.Arch.Arm.Header.{get_linux_header}
use kvm_rust.Arch.Arm.Images.{set_boot_regs, load_images, HasImages, load_images-HasImages}
use kvm_rust.Base.{
  List, Option, [], arith, err, if◌then◌else◌, none, ok, refl, some, true, unexpected_eof, ℕ, ◌==◌,
  ◌∷◌, ◌≡◌,
}

abbrev host : Host
host = record { lines = []; control = Control.new; signals = []; stdout = [] }

-- x0, x29, sp and pc are in the table; x30 is a register, but not in the table.
table :
    (register_id 0 (x_name 0) ≡ some 0)
    × (register_id 0 (x_name 29) ≡ some 58)
    × (register_id 0 sp ≡ some 62)
    × (register_id 0 pc ≡ some 64)
    × (register_id 0 (x_name 30) ≡ none)
    × (aarch64_core_reg 0 (x_name 30) ≡ ok 60)
unfolding register_id aarch64_core_reg core_number parse_usize parse_digits
table = (refl, refl, refl, refl, refl, refl)

abbrev value_of : List Set → ℕ → Option ℕ
value_of [] id = some 0
value_of (c ∷ calls) id = if c.id == id then some c.value else value_of calls id

abbrev kvm : OneReg
kvm = record { accepts = λ calls c. true; value = value_of }

-- set_ip sets pc, and get_ip still gives x0.
ip : (get_ip kvm 0 (set_ip kvm 0 7 [] host).0 host).2 ≡ ok 0
unfolding get_ip set_ip get_one_reg set_one_reg register_id aarch64_core_reg core_number parse_usize
    parse_digits
ip = refl

-- The boot sets x0 and pc.
boot_regs :
    ((set_boot_regs kvm 0 [] host).2 ≡ ok tt)
    × ((get_one_reg kvm 0 pc (set_boot_regs kvm 0 [] host).0 host).2 ≡ ok 0x4040_0000)
    × ((get_one_reg kvm 0 (x_name 0) (set_boot_regs kvm 0 [] host).0 host).2 ≡ ok 0x4000_0000)
unfolding set_boot_regs get_one_reg set_one_reg register_id aarch64_core_reg core_number parse_usize
    parse_digits
boot_regs = (refl, refl, refl)

short_file : get_linux_header (1 ∷ 2 ∷ []) ≡ err unexpected_eof
unfolding get_linux_header
short_file = refl

abbrev region : MemRegion
region = record { guest_phys_addr = 0x4000_0000; mem_size = 0x1000_0000 }

abbrev mem : Memory
mem = record { regions = region ∷ []; ram = λ r o. 0 }

load_images-HasImages_example :
    (mem' : Memory) × (load_images 0
        (some (some (1 ∷ 2 ∷ [])))
        (some (some (3 ∷ 4 ∷ [])))
        (some (5 ∷ []))
        mem
        host
      ≡ (mem', host, ok tt))
    × HasImages 0 (1 ∷ 2 ∷ []) (3 ∷ 4 ∷ []) (5 ∷ []) mem'
load_images-HasImages_example =
    load_images-HasImages 0 (1 ∷ 2 ∷ []) (3 ∷ 4 ∷ []) (5 ∷ []) region mem host refl (omega arith)
      (omega arith) (omega arith) (omega arith)
