-- ===== src/Arch/Vcpu/Start.antt =====
-- The state in which the kernel is started, against the PVH protocol.
use kvm_rust.Vm.Host.{Host}
use kvm_rust.Arch.Vcpu.{
  Vcpu, Segment, Calls, code, protected_mode, enter_at, get_regs, set_regs, get_sregs2, set_sregs2,
  protected_mode_setup,
}
use kvm_rust.Base.{Bool, arith, err, false, has, ok, os, refl, true, ℕ, ◌&&◌, ◌-◌, ◌^◌, ◌≡◌}

-- A flat 32-bit segment, for code or for data that can be written; `limit` counts pages.
abbrev pub IsFlat : Segment → Type 0
IsFlat x =
    (x.base ≡ 0)
    × (x.limit ≡ 2 ^ 32 - 1)
    × (x.g ≡ 1)
    × (x.db ≡ 1)
    × (x.l ≡ 0)
    × (x.present ≡ 1)
    × (x.s ≡ 1)
    × (x.dpl ≡ 0)

abbrev pub IsCode : Segment → Type 0
IsCode x = IsFlat x × (has x.type_ 8 ≡ true) × (has x.type_ 2 ≡ true)

abbrev pub IsData : Segment → Type 0
IsData x = IsFlat x × (has x.type_ 8 ≡ false) × (has x.type_ 2 ≡ true)

-- The protocol's entry: 32-bit protected mode without paging, interrupts, traps and virtual 8086
-- mode off, a task segment of 0x67 bytes, and the start info's address in ebx.
pub record IsPvhEntry (entry start_info : ℕ) (v : Vcpu) : Type 0 where
  pub rip : v.regs.rip ≡ entry
  pub rbx : v.regs.rbx ≡ start_info
  pub interrupts_off : has v.regs.rflags 0x200 ≡ false
  pub traps_off : has v.regs.rflags 0x100 ≡ false
  pub v8086_off : has v.regs.rflags 0x2_0000 ≡ false
  pub protected : has v.sregs2.cr0 1 ≡ true
  pub paging_off : has v.sregs2.cr0 0x8000_0000 ≡ false
  pub cr4_clear : v.sregs2.cr4 ≡ 0
  pub cs : IsCode v.sregs2.cs
  pub ds : IsData v.sregs2.ds
  pub es : IsData v.sregs2.es
  pub ss : IsData v.sregs2.ss
  pub tr_base : v.sregs2.tr.base ≡ 0
  pub tr_limit : v.sregs2.tr.limit ≡ 0x67

abbrev Enters : ℕ → ℕ → Vcpu → Host → Calls → Type 0
unfolding enter_at
Enters entry start_info v h kvm =
    let (v', h', r) = enter_at kvm entry start_info v h in
    let all = kvm.gets_regs && (kvm.sets_regs && (kvm.gets_sregs2 && kvm.sets_sregs2)) in
    (all ≡ true → (r ≡ ok tt) × IsPvhEntry entry start_info v') × (all ≡ false → r ≡ err os)

calls : Bool → Bool → Bool → Bool → Calls
calls a b c d = record { gets_regs = a; sets_regs = b; gets_sregs2 = c; sets_sregs2 = d }

flat : IsFlat code
flat = (refl, refl, refl, refl, refl, refl, refl, refl)

entered :
    (entry start_info : ℕ) (v : Vcpu)
    → IsPvhEntry entry start_info record {
      regs = record { rip = entry; rbx = start_info; rflags = 2 };
      sregs2 = protected_mode v.sregs2;
    }
entered entry start_info v = record {
  rip = refl;
  rbx = refl;
  interrupts_off = refl;
  traps_off = refl;
  v8086_off = refl;
  protected = refl;
  paging_off = refl;
  cr4_clear = refl;
  cs = (flat, refl, refl);
  ds = (flat, refl, refl);
  es = (flat, refl, refl);
  ss = (flat, refl, refl);
  tr_base = refl;
  tr_limit = refl;
}

enters :
    (entry start_info : ℕ) (v : Vcpu) (h : Host) (a b c d : Bool)
    → Enters entry start_info v h (calls a b c d)
unfolding enter_at get_regs set_regs get_sregs2 set_sregs2 protected_mode_setup calls
enters entry start_info v h true true true true =
    (λ e. (refl, entered entry start_info v), λ e. absurd (ground arith))
enters entry start_info v h false b c d = (λ e. absurd (ground arith), λ e. refl)
enters entry start_info v h true false c d = (λ e. absurd (ground arith), λ e. refl)
enters entry start_info v h true true false d = (λ e. absurd (ground arith), λ e. refl)
enters entry start_info v h true true true false = (λ e. absurd (ground arith), λ e. refl)

-- Where KVM carries out all calls, the boot leaves the vcpu as the PVH protocol wants it, whatever
-- its registers were; where it refuses one, the boot returns an error.
pub enter_at-IsPvhEntry :
    (kvm : Calls) (entry start_info : ℕ) (v : Vcpu) (h : Host)
    → let (v', h', r) = enter_at kvm entry start_info v h in
      let all = kvm.gets_regs && (kvm.sets_regs && (kvm.gets_sregs2 && kvm.sets_sregs2)) in
      (all ≡ true → (r ≡ ok tt) × IsPvhEntry entry start_info v') × (all ≡ false → r ≡ err os)
unfolding Enters calls
enter_at-IsPvhEntry kvm entry start_info v h =
    enters entry start_info v h kvm.gets_regs kvm.sets_regs kvm.gets_sregs2 kvm.sets_sregs2
