-- ===== src/Arch/Arm/Images.antt =====
-- The images that arch_load_linux of src/arch/aarch64/init.rs loads.
use kvm_rust.Vm.Host.{Host, Method, pure, lift, ◌>>◌, >>=-ok}
use kvm_rust.Memory.{Memory, MemRegion, read_guest_ptr, write_guest_ptr}
use kvm_rust.Memory.Access.{read-write, read-write_ne}
use kvm_rust.Util.Elf.{load}
use kvm_rust.Arch.Boot.Tables.{at, load_fits}
use kvm_rust.Arch.Arm.{OneReg, Set, set_one_reg, x_name, pc}
use kvm_rust.Base.{
  List, Option, arith, err, get_elem?, inr, length, none, ok, os, other_error, some, ℕ, ◌+◌, ◌<◌,
  ◌^◌, ◌∙◌, ◌≡◌, ◌≤◌,
}

abbrev pub load_addr : ℕ
load_addr = 0x4000_0000

abbrev pub initramfs_offs : ℕ
initramfs_offs = 0x20_0000

abbrev pub kern_offs : ℕ
kern_offs = 0x20_0000 + initramfs_offs

-- load_file_to_memory; none is a file that cannot be read.
unfoldable pub load_file : ℕ → Option (List ℕ) → ℕ → Method Memory (Unit {0})
unfolding load
load_file idx none offset = lift (err os)
load_file idx (some contents) offset = load idx contents offset

-- The device tree must be given.
abbrev pub load_dtb : ℕ → Option (Option (List ℕ)) → Method Memory (Unit {0})
unfolding load_file
load_dtb idx none = lift (err other_error)
load_dtb idx (some dtb) = load_file idx dtb 0

abbrev pub load_initramfs : ℕ → Option (Option (List ℕ)) → Method Memory (Unit {0})
unfolding load_file
load_initramfs idx none = pure tt
load_initramfs idx (some initramfs) = load_file idx initramfs initramfs_offs

-- arch_load_linux, once the region `idx` is there, up to the registers.
unfoldable pub load_images :
    ℕ
    → Option (Option (List ℕ))
    → Option (Option (List ℕ))
    → Option (List ℕ)
    → Method Memory (Unit {0})
unfolding load_dtb load_initramfs load_file
load_images idx dtb initramfs kernel =
    load_dtb idx dtb >> load_initramfs idx initramfs >> load_file idx kernel kern_offs

-- And the registers: the device tree's address, zeros, and the entry point.
unfoldable pub set_boot_regs : OneReg → ℕ → Method (List Set) (Unit {0})
unfolding set_one_reg
set_boot_regs kvm base =
    set_one_reg kvm base (x_name 0) load_addr
    >> set_one_reg kvm base (x_name 1) 0
    >> set_one_reg kvm base (x_name 2) 0
    >> set_one_reg kvm base (x_name 3) 0
    >> set_one_reg kvm base pc (load_addr + kern_offs)

-- What the guest finds: each image whole, at its place.
abbrev pub HasImages : ℕ → List ℕ → List ℕ → List ℕ → Memory → Type 0
HasImages idx dtb initramfs kernel mem =
    (read_guest_ptr mem (at idx 0) (length dtb) ≡ dtb)
    × (read_guest_ptr mem (at idx initramfs_offs) (length initramfs) ≡ initramfs)
    × (read_guest_ptr mem (at idx kern_offs) (length kernel) ≡ kernel)

-- Loading a device tree and an initramfs of at most 2 MiB each and a kernel, in a region that holds
-- them, returns, and the guest finds each of the three whole. The bounds are needed: the source
-- checks none of them, and loads the kernel 2 MiB behind the initramfs's start.
pub load_images-HasImages :
    (idx : ℕ) (dtb initramfs kernel : List ℕ) (r : MemRegion) (mem : Memory) (h : Host)
    → get_elem? mem.regions idx ≡ some r
    → r.mem_size < 2 ^ 63
    → length dtb ≤ 0x20_0000
    → length initramfs ≤ 0x20_0000
    → kern_offs + length kernel < r.mem_size
    → (mem' : Memory) × (load_images idx
          (some (some dtb))
          (some (some initramfs))
          (some kernel)
          mem
          h
        ≡ (mem', h, ok tt))
      × HasImages idx dtb initramfs kernel mem'
unfolding load_images load_dtb load_initramfs load_file write_guest_ptr
load_images-HasImages idx dtb initramfs kernel r mem h there small d i k =
    let w1 = write_guest_ptr mem (at idx 0) dtb in
    let w2 = write_guest_ptr w1 (at idx initramfs_offs) initramfs in
    let l1 = load idx dtb 0 in
    let l2 = load idx initramfs initramfs_offs in
    let l3 = load idx kernel kern_offs in
    (
      write_guest_ptr w2 (at idx kern_offs) kernel,
      >>=-ok (l1 >> l2) (λ u. l3) mem h
            (>>=-ok l1 (λ u. l2) mem h
                (load_fits idx dtb 0 r mem h there small (omega arith) (omega arith))
              ∙ load_fits idx initramfs initramfs_offs r w1 h there small (omega arith)
                  (omega arith))
          ∙ load_fits idx kernel kern_offs r w2 h there small (omega arith) (omega arith),
      (
        read-write_ne w2 (at idx kern_offs) (at idx 0) kernel (length dtb) (inr (inr (omega arith)))
            ∙ read-write_ne w1 (at idx initramfs_offs) (at idx 0) initramfs (length dtb)
                (inr (inr (omega arith)))
            ∙ read-write mem (at idx 0) dtb,
        read-write_ne w2 (at idx kern_offs) (at idx initramfs_offs) kernel (length initramfs)
              (inr (inr (omega arith)))
            ∙ read-write w1 (at idx initramfs_offs) initramfs,
        read-write w2 (at idx kern_offs) kernel,
      ),
    )
